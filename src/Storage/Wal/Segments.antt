-- ===== src/Storage/Wal/Segments.antt =====
-- internal/storage/wal.go, `replayWAL`: records that a snapshot covers, and several segments.
use raft_kv.Common.{
  ℕ, zero, suc, ◌+◌, ◌-◌, ◌^◌, ◌<◌, ◌≤◌, ◌≡◌, refl, sym, ap, ◌∙◌, ◌⊎◌, inl, inr, Bool, true, false,
  none, some, List, [], ◌∷◌, ◌++◌, arith, append_assoc, ltb, length, drop, All, length-append,
  Bool-cases, max,
}
use raft_kv.Common.Bytes.{Bytes}
use raft_kv.Common.Assoc.{bytes_key}
use raft_kv.Storage.Command.{Command, encode_command}
use raft_kv.Storage.MemStore.{Store}
use raft_kv.Storage.Wal.{wal_record, parse_record, replayed, replay_record, replay_segment}
use raft_kv.Storage.Wal.Parse.{IsLogged, length-wal_record, parse_record-wal_record}
use raft_kv.Storage.Wal.Replay.{
  records, run_command, run_all, logged_size, replayed_at, replay_record_lem, drop_record,
}

-- What may follow the last record of a segment: nothing, or a torn record in the newest one.
abbrev pub IsEnd : Bool → Bytes → Type 0
IsEnd newest tail = (tail ≡ []) ⊎ ((newest ≡ true) × (parse_record tail ≡ none))

end_lem :
    (n : ℕ) (newest : Bool) (start off : ℕ) (tail : Bytes) (last : ℕ) (m : Store)
    → IsEnd newest tail
    → replay_segment n newest start off tail last m ≡ replayed last off m
unfolding replay_segment
end_lem n newest start off [] last m h = refl
end_lem zero newest start off (x ∷ b) last m h = refl
end_lem (suc n) newest start off (x ∷ b) last m (inl h) = ground (arith, h)
end_lem (suc n) newest start off (x ∷ b) last m (inr h) = rw (h.1, replay_segment, h.0) refl

pub next_lem :
    (n : ℕ) (newest : Bool) (start off : ℕ) (b : Bytes) (last : ℕ) (m : Store) (seq : ℕ)
    (cmd : Bytes) (len last' : ℕ) (m' : Store)
    → 0 < length b
    → parse_record b ≡ some (seq, cmd, len)
    → replay_record seq cmd last m ≡ inr (last', m')
    → replay_segment (suc n) newest start off b last m
      ≡ replay_segment n newest start (off + len) (drop len b) last' m'
unfolding replay_segment
next_lem n newest start off [] last m seq cmd len last' m' z e r = elim z [ ]
next_lem n newest start off (x ∷ b) last m seq cmd len last' m' z e r =
    rw (e, r, replay_segment) refl

-- A record that the snapshot covers changes nothing.
covered_lem :
    (seq : ℕ) (cmd : Bytes) (last : ℕ) (m : Store)
    → seq ≤ last
    → replay_record seq cmd last m ≡ inr (last, m)
unfolding replay_record
covered_lem seq cmd last m h = let b : ltb last seq ≡ false = ground arith in rw b refl

-- What remains to be applied of the commands with the numbers after `a`, when those up to `last`
-- are covered.
abbrev pub left_over : ℕ → ℕ → List Command → List Command
left_over last a cs = drop (last - a) cs

left_over-cons :
    (last a : ℕ) (c : Command) (cs : List Command)
    → a < last
    → left_over last a (c ∷ cs) ≡ left_over last (suc a) cs
left_over-cons last a c cs h = let e : last - a ≡ suc (last - suc a) = omega arith in rw e refl

left_over-all : (last a : ℕ) (cs : List Command) → last ≡ a → left_over last a cs ≡ cs
left_over-all last a cs h = let e : last - a ≡ 0 = omega arith in rw e refl

pub drop_nil : (i : ℕ) → drop {A = Command} i [] ≡ []
drop_nil zero = refl
drop_nil (suc i) = refl

-- One record: covered, or the next one.
pub record_lem :
    (a last : ℕ) (c : Command) (cs : List Command) (m : Store)
    → a ≤ last
    → IsLogged c
    → a + 1 < 2 ^ 64
    → (m' : Store) × (replay_record (suc a) (encode_command c) last m ≡ inr (max last (suc a), m'))
      × (run_all (left_over (max last (suc a)) (suc a) cs) m'
          ≡ run_all (left_over last a (c ∷ cs)) m)
unfolding run_all
record_lem a last c cs m h l f = elim (Bool-cases (ltb a last)) [
  | inl b ↦
      let top : max last (suc a) ≡ last = ground arith in
      (
        m,
        rw top (covered_lem (suc a) (encode_command c) last m (ground arith)),
        rw top (ap (λ t. run_all t m) (sym (left_over-cons last a c cs (ground arith)))),
      )
  | inr b ↦
      let same : last ≡ a = ground arith in
      let top : max last (suc a) ≡ suc a = ground arith in
      (
        run_command c m,
        rw top (
            ap (λ t. replay_record (suc a) (encode_command c) t m) same
            ∙ replay_record_lem a c m l.command f),
        rw top (
            ap (λ t. run_all t (run_command c m)) (left_over-all (suc a) (suc a) cs refl)
            ∙ ap (λ t. run_all t m) (sym (left_over-all last a (c ∷ cs) same))),
      )
]

-- A segment with the commands after `a`, of which those up to `last` are covered.
pub chain_segment_lem :
    (cs : List Command) (n : ℕ) (newest : Bool) (start off : ℕ) (tail : Bytes) (a last : ℕ)
    (m : Store)
    → All IsLogged cs
    → a ≤ last
    → a + length cs + 1 < 2 ^ 64
    → length (records a cs ++ tail) ≤ n
    → IsEnd newest tail
    → replay_segment n newest start off (records a cs ++ tail) last m
      ≡ replayed
          (max last (a + length cs))
          (off + length (records a cs))
          (run_all (left_over last a cs) m)
unfolding records run_all
chain_segment_lem [] n newest start off tail a last m l h f k e =
    let none_left : left_over last a [] ≡ [] = drop_nil (last - a) in
    end_lem n newest start off tail last m e
    ∙ rw none_left (replayed_at m (omega arith) (omega arith))
chain_segment_lem (c ∷ cs) zero newest start off tail a last m l h f k e = absurd (
    omega (
      arith,
      k,
      length-append (wal_record (suc a) (encode_command c) ++ records (suc a) cs) tail,
      length-append (wal_record (suc a) (encode_command c)) (records (suc a) cs),
      length-wal_record (suc a) (encode_command c),
    ))
chain_segment_lem (c ∷ cs) (suc n) newest start off tail a last m l h f k e =
    let cmd : Bytes = encode_command c in
    let rec : Bytes = wal_record (suc a) cmd in
    let rest : Bytes = records (suc a) cs ++ tail in
    let size : length rec ≡ 16 + length cmd = length-wal_record (suc a) cmd in
    let total : length (rec ++ rest) ≡ length rec + length rest = length-append rec rest in
    let first : parse_record (rec ++ rest) ≡ some (suc a, cmd, 16 + length cmd) =
      parse_record-wal_record (suc a) cmd rest (omega (arith, f)) (logged_size c l.0) in
    let (m', done, same) = record_lem a last c cs m h l.0 (omega (arith, f)) in
    let top : ℕ = max last (suc a) in
    ap (λ b. replay_segment (suc n) newest start off b last m)
      (append_assoc rec (records (suc a) cs) tail)
    ∙ next_lem n newest start off (rec ++ rest) last m (suc a) cmd (16 + length cmd) top m'
        (omega (arith, total, size)) first done
    ∙ ap (λ b. replay_segment n newest start (off + (16 + length cmd)) b top m')
        (drop_record (suc a) cmd rest)
    ∙ chain_segment_lem cs n newest start (off + (16 + length cmd)) tail (suc a) top m' l.1
        (omega arith) (omega (arith, f))
        (omega (arith, k, total, size, ap length (append_assoc rec (records (suc a) cs) tail))) e
    ∙ replayed_at (run_all (left_over top (suc a) cs) m') (omega arith)
        (omega (arith, size, length-append rec (records (suc a) cs)))
    ∙ ap (replayed (max last (a + suc (length cs))) (off + length (rec ++ records (suc a) cs))) same
