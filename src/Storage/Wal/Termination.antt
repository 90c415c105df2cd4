-- ===== src/Storage/Wal/Termination.antt =====
-- internal/storage/wal.go, `replayWAL`: the number of rounds of the loop over a segment.
use raft_kv.Common.{
  ℕ, zero, suc, ◌+◌, ◌≤◌, ◌<◌, ◌≡◌, refl, ◌⊎◌, inl, inr, Bool, Option, none, some, [], ◌∷◌, arith,
  length, drop, length-drop,
}
use raft_kv.Common.Bytes.{Bytes}
use raft_kv.Record.{parse}
use raft_kv.Record.Framing.{parse_facts}
use raft_kv.Storage.MemStore.{Store}
use raft_kv.Storage.Wal.{
  WalError, replay_failed, wal_max_record_len, parse_payload, parse_record, replay_record,
  replay_segment,
}

payload_length :
    (p : Bytes × ℕ) (seq : ℕ) (cmd : Bytes) (len : ℕ)
    → parse_payload p ≡ some (seq, cmd, len)
    → len ≡ p.1
unfolding parse_payload
payload_length (payload, n) seq cmd len h = ground (arith, h)

-- A record takes a byte at least.
record_length :
    (b : Bytes) (seq : ℕ) (cmd : Bytes) (len : ℕ) → parse_record b ≡ some (seq, cmd, len) → 0 < len
unfolding parse_record
record_length b seq cmd len e = go (parse b wal_max_record_len) refl e
  where
    go :
        (r : Option (Bytes × ℕ))
        → parse b wal_max_record_len ≡ r
        → elim r [ none ↦ none | some p ↦ parse_payload p ] ≡ some (seq, cmd, len)
        → 0 < len
    go none q h = absurd (ground (arith, h))
    go (some (payload, n)) q h =
        let (taken, size, fits, bounded, sum) = parse_facts b payload wal_max_record_len n q in
        omega (arith, size, payload_length (payload, n) seq cmd len h)

-- What two numbers of rounds give is the same.
abbrev Same : ℕ → ℕ → Bool → ℕ → Type 0
Same n m newest start =
    (b : Bytes) (off last : ℕ) (mem : Store)
    → length b ≤ n
    → length b ≤ m
    → replay_segment n newest start off b last mem ≡ replay_segment m newest start off b last mem

after_record :
    (n m : ℕ) (newest : Bool) (start off len : ℕ) (b : Bytes) (r : WalError ⊎ (ℕ × Store))
    → Same n m newest start
    → 0 < len
    → length b ≤ suc n
    → length b ≤ suc m
    → elim r [
      | inl e ↦ replay_failed e
      | inr (last', mem') ↦ replay_segment n newest start (off + len) (drop len b) last' mem'
    ]
      ≡ elim r [
        | inl e ↦ replay_failed e
        | inr (last', mem') ↦ replay_segment m newest start (off + len) (drop len b) last' mem'
      ]
after_record n m newest start off len b (inl e) ih z h k = refl
after_record n m newest start off len b (inr (last', mem')) ih z h k =
    ih (drop len b) (off + len) last' mem' (omega (arith, length-drop len b))
      (omega (arith, length-drop len b))

one_round :
    (n m : ℕ) (newest : Bool) (start off : ℕ) (x : ℕ) (b : Bytes) (last : ℕ) (mem : Store)
    (r : Option (ℕ × Bytes × ℕ))
    → Same n m newest start
    → parse_record (x ∷ b) ≡ r
    → length (x ∷ b) ≤ suc n
    → length (x ∷ b) ≤ suc m
    → replay_segment (suc n) newest start off (x ∷ b) last mem
      ≡ replay_segment (suc m) newest start off (x ∷ b) last mem
unfolding replay_segment
one_round n m newest start off x b last mem none ih e h k = rw (e, replay_segment) refl
one_round n m newest start off x b last mem (some (seq, cmd, len)) ih e h k =
    rw (e, replay_segment)
      (after_record n m newest start off len (x ∷ b) (replay_record seq cmd last mem) ih
        (record_length (x ∷ b) seq cmd len e) h k)

-- The loop over a segment ends by itself: with at least as many rounds as there are bytes left, the
-- result does not depend on their number.
pub replay_segment-enough :
    (n m : ℕ) (newest : Bool) (start : ℕ) (b : Bytes) (off last : ℕ) (mem : Store)
    → length b ≤ n
    → length b ≤ m
    → replay_segment n newest start off b last mem ≡ replay_segment m newest start off b last mem
unfolding replay_segment
replay_segment-enough n m newest start [] off last mem h k = refl
replay_segment-enough zero m newest start (x ∷ b) off last mem h k = absurd (omega arith)
replay_segment-enough (suc n) zero newest start (x ∷ b) off last mem h k = absurd (omega arith)
replay_segment-enough (suc n) (suc m) newest start (x ∷ b) off last mem h k =
    one_round n m newest start off x b last mem (parse_record (x ∷ b))
      (replay_segment-enough n m newest start) refl h k
