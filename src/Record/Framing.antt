-- ===== src/Record/Framing.antt =====
-- Frames are read back, torn frames are refused, and only frames are accepted.
use raft_kv.Common.{
  ℕ, suc, ◌+◌, ◌-◌, ◌^◌, ◌≤◌, ◌<◌, ◌≡◌, refl, ap, ◌∙◌, none, some, [], ◌∷◌, ◌++◌, append_assoc,
  arith, ltb, ◌==◌, ==_refl, if◌then◌else◌, u32, length, take, drop, length-append, length-take,
  length-drop, take-append, All, length-take_of_le, All-drop, take-append-drop, drop-drop,
  Bool-cases, inl, inr,
}
use raft_kv.Common.Bytes.{Bytes, le32, read32}
use raft_kv.Record.{checksum, frame, parse}

abbrev pub IsByte : ℕ → Type 0
IsByte b = b < 256

pub checksum-lt : (b : Bytes) → checksum b < 2 ^ 32
unfolding checksum
checksum-lt b = omega arith

pub u32-eq_of_lt : (n : ℕ) → n < 2 ^ 32 → u32 n ≡ n
u32-eq_of_lt n h = omega arith

-- The two words of a header and what follows, read from any bytes that start with them.
parse-header :
    (n c max : ℕ) (body : Bytes)
    → n < 2 ^ 32
    → c < 2 ^ 32
    → parse (le32 n ++ (le32 c ++ body)) max ≡ (
        if ltb max n
        then none
        else if ltb (length body) n
        then none
        else if checksum (take n body) == c
        then some (take n body, 8 + n)
        else none)
unfolding parse le32 read32
parse-header n c max body hn hc = ground arith

-- A framed payload is parsed back, with the length of its record, whatever follows it, if it is no
-- longer than the bound and shorter than 2 ^ 32 bytes.
pub parse-frame :
    (payload rest : Bytes) (max : ℕ)
    → length payload ≤ max
    → length payload < 2 ^ 32
    → parse (frame [] payload ++ rest) max ≡ some (payload, 8 + length payload)
unfolding frame
parse-frame p rest max fits short =
    rw (append_assoc, append_assoc, append_assoc, u32-eq_of_lt (length p) short)
      (parse-header (length p) (checksum p) max (p ++ rest) short (checksum-lt p)
        ∙ ground (arith, length-append p rest, take-append p rest, ==_refl (checksum p)))

parse_torn_body :
    (payload : Bytes) (max n : ℕ)
    → length payload < 2 ^ 32
    → n < length payload
    → parse (le32 (length payload) ++ (le32 (checksum payload) ++ take n payload)) max ≡ none
parse_torn_body p max n short cut =
    parse-header (length p) (checksum p) max (take n p) short (checksum-lt p)
    ∙ ground (arith, length-take n p)

short_none : (b : Bytes) (max : ℕ) → length b < 8 → parse b max ≡ none
unfolding parse
short_none b max h = ground arith

take_past_header :
    (a b n : ℕ) (body : Bytes)
    → take (8 + n) (le32 a ++ (le32 b ++ body)) ≡ le32 a ++ (le32 b ++ take n body)
unfolding le32
take_past_header a b n body = rw (suc_eight n) refl
  where
    suc_eight : (m : ℕ) → 8 + m ≡ suc (suc (suc (suc (suc (suc (suc (suc m)))))))
    suc_eight m = omega arith

-- A record of a payload shorter than 2 ^ 32 bytes that is cut short anywhere is refused.
pub parse_torn :
    (payload : Bytes) (max n : ℕ)
    → length payload < 2 ^ 32
    → n < 8 + length payload
    → parse (take n (frame [] payload)) max ≡ none
unfolding frame
parse_torn p max n short cut = elim (Bool-cases (ltb n 8)) [
  | inl h ↦ short_none _ max (ground (arith, length-take n (frame [] p)))
  | inr h ↦
      let e : n ≡ 8 + (n - 8) = ground arith in
      rw (e, u32-eq_of_lt (length p) short, take_past_header)
        (parse_torn_body p max (n - 8) short (ground arith))
]

-- A byte string that `parse` accepts starts with the frame of the payload that it returns.
le32-read32 : (b : Bytes) → All IsByte b → 4 ≤ length b → le32 (read32 b) ++ drop 4 b ≡ b
unfolding le32 read32
le32-read32 [] h l = absurd (omega arith)
le32-read32 (a ∷ []) h l = absurd (omega arith)
le32-read32 (a ∷ b ∷ []) h l = absurd (omega arith)
le32-read32 (a ∷ b ∷ c ∷ []) h l = absurd (omega arith)
le32-read32 (a ∷ b ∷ c ∷ d ∷ r) h l = ground arith

split_header :
    (b : Bytes)
    → All IsByte b
    → 8 ≤ length b
    → le32 (read32 b) ++ (le32 (read32 (drop 4 b)) ++ drop 8 b) ≡ b
split_header b bytes long =
    ap (λ t. le32 (read32 b) ++ t)
      (rw (← drop_twice b)
        (le32-read32 (drop 4 b) (All-drop IsByte 4 b bytes) (omega (arith, length-drop 4 b))))
    ∙ le32-read32 b bytes (omega arith)
  where
    drop_twice : (xs : Bytes) → drop 4 (drop 4 xs) ≡ drop 8 xs
    drop_twice [] = refl
    drop_twice (a ∷ []) = refl
    drop_twice (a ∷ c ∷ []) = refl
    drop_twice (a ∷ c ∷ d ∷ []) = refl
    drop_twice (a ∷ c ∷ d ∷ e ∷ r) = refl

pub parse_facts :
    (b payload : Bytes) (max n : ℕ)
    → parse b max ≡ some (payload, n)
    → (payload ≡ take (read32 b) (drop 8 b))
      × (n ≡ 8 + read32 b)
      × (n ≤ length b)
      × (read32 b ≤ max)
      × (checksum payload ≡ read32 (drop 4 b))
unfolding parse
parse_facts b p max n h = ground arith

-- If bytes are parsed, with a bound below 2 ^ 32, the payload is no longer than the bound, and the
-- input is the frame of the payload and then whatever stood behind it.
pub parse_sound :
    (b payload : Bytes) (max n : ℕ)
    → All IsByte b
    → max < 2 ^ 32
    → parse b max ≡ some (payload, n)
    → (length payload ≤ max)
      × (n ≡ 8 + length payload)
      × (n ≤ length b)
      × (frame [] payload ++ drop n b ≡ b)
parse_sound b p max n bytes small h =
    let (taken, size, fits, bounded, checked) = parse_facts b p max n h in
    let len : length p ≡ read32 b =
      rw taken (length-take_of_le (read32 b) (drop 8 b) (omega (arith, length-drop 8 b))) in
    let whole : p ++ drop n b ≡ drop 8 b =
      rw (taken, size, drop-drop 8 (read32 b) b) (take-append-drop (read32 b) (drop 8 b)) in
    (
      omega arith,
      omega arith,
      fits,
      unfold frame in
          rw
            (u32-eq_of_lt (length p) (omega arith), len, checked, append_assoc, append_assoc, whole)
            (split_header b bytes (omega arith)),
    )
