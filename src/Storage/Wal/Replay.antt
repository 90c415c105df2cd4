-- ===== src/Storage/Wal/Replay.antt =====
-- internal/storage/wal.go, `replayWAL`: the records of a segment.
use raft_kv.Common.{
  ℕ, zero, suc, ◌+◌, ◌^◌, ◌<◌, ◌≤◌, ◌≡◌, refl, sym, ap, ◌∙◌, true, none, some, inr, List, [], ◌∷◌,
  ◌++◌, arith, append_assoc, ltb, ◌==◌, u64, length, drop, All, length-append, drop-append,
}
use raft_kv.Common.Bytes.{Bytes}
use raft_kv.Common.Assoc.{bytes_key}
use raft_kv.Storage.Command.{
  Command, IsCommand, command, encode_command, decode_command-encode_command,
}
use raft_kv.Storage.MemStore.{Store, apply_command}
use raft_kv.Storage.Wal.{
  wal_record, wal_max_record_len, parse_record, replayed, replay_command, replay_record,
  replay_segment,
}
use raft_kv.Storage.Wal.Parse.{
  IsLogged, length-encode_command, length-wal_record, parse_record-wal_record,
}

-- The segment after commands with consecutive sequence numbers.
unfoldable pub records : ℕ → List Command → Bytes
records last [] = []
records last (c ∷ cs) = wal_record (suc last) (encode_command c) ++ records (suc last) cs

unfoldable pub run_command : Command → Store → Store
run_command c m = elim (apply_command c m) [ none ↦ m | some (existed, m') ↦ m' ]

unfoldable pub run_all : List Command → Store → Store
run_all [] m = m
run_all (c ∷ cs) m = run_all cs (run_command c m)

replay_command_lem :
    (seq : ℕ) (c : Command) (m : Store)
    → IsCommand c
    → replay_command seq (command c) m ≡ inr (run_command c m)
unfolding replay_command run_command apply_command
replay_command_lem seq c m h = ground (arith, h.op)

pub replay_record_lem :
    (last : ℕ) (c : Command) (m : Store)
    → IsCommand c
    → last + 1 < 2 ^ 64
    → replay_record (suc last) (encode_command c) last m ≡ inr (suc last, run_command c m)
unfolding replay_record
replay_record_lem last c m h l =
    let later : ltb last (suc last) ≡ true = ground arith in
    let next : (suc last == u64 (last + 1)) ≡ true = ground arith in
    rw (later, next, decode_command-encode_command c h, replay_command_lem (suc last) c m h) refl

tail_lem :
    (n start off : ℕ) (b : Bytes) (last : ℕ) (m : Store)
    → parse_record b ≡ none
    → replay_segment n true start off b last m ≡ replayed last off m
unfolding replay_segment
tail_lem n start off [] last m h = refl
tail_lem zero start off (x ∷ b) last m h = refl
tail_lem (suc n) start off (x ∷ b) last m h = rw (h, replay_segment) refl

step_lem :
    (n start off : ℕ) (b : Bytes) (last : ℕ) (m : Store) (seq : ℕ) (cmd : Bytes) (len last' : ℕ)
    (m' : Store)
    → 0 < length b
    → parse_record b ≡ some (seq, cmd, len)
    → replay_record seq cmd last m ≡ inr (last', m')
    → replay_segment (suc n) true start off b last m
      ≡ replay_segment n true start (off + len) (drop len b) last' m'
unfolding replay_segment
step_lem n start off [] last m seq cmd len last' m' z e r = elim z [ ]
step_lem n start off (x ∷ b) last m seq cmd len last' m' z e r = rw (e, r, replay_segment) refl

pub logged_size : (c : Command) → IsLogged c → 8 + length (encode_command c) ≤ wal_max_record_len
logged_size c h = omega (arith, length-encode_command c, h.key, h.value)

pub drop_record :
    (seq : ℕ) (cmd rest : Bytes) → drop (16 + length cmd) (wal_record seq cmd ++ rest) ≡ rest
drop_record seq cmd rest =
    ap (λ n. drop n (wal_record seq cmd ++ rest)) (sym (length-wal_record seq cmd))
    ∙ drop-append (wal_record seq cmd) rest

pub replayed_at : {i j k l : ℕ} (m : Store) → i ≡ j → k ≡ l → replayed i k m ≡ replayed j l m
replayed_at m p q = rw (p, q) refl

pub segment_lem :
    (cs : List Command) (n start off : ℕ) (tail : Bytes) (last : ℕ) (m : Store)
    → All IsLogged cs
    → last + length cs + 1 < 2 ^ 64
    → length (records last cs ++ tail) ≤ n
    → parse_record tail ≡ none
    → replay_segment n true start off (records last cs ++ tail) last m
      ≡ replayed (last + length cs) (off + length (records last cs)) (run_all cs m)
unfolding records run_all
segment_lem [] n start off tail last m a f l h =
    tail_lem n start off tail last m h ∙ replayed_at m (omega arith) (omega arith)
segment_lem (c ∷ cs) zero start off tail last m a f l h = absurd (
    omega (
      arith,
      l,
      length-append (wal_record (suc last) (encode_command c) ++ records (suc last) cs) tail,
      length-append (wal_record (suc last) (encode_command c)) (records (suc last) cs),
      length-wal_record (suc last) (encode_command c),
    ))
segment_lem (c ∷ cs) (suc n) start off tail last m a f l h =
    let cmd : Bytes = encode_command c in
    let rec : Bytes = wal_record (suc last) cmd in
    let rest : Bytes = records (suc last) cs ++ tail in
    let size : length rec ≡ 16 + length cmd = length-wal_record (suc last) cmd in
    let total : length (rec ++ rest) ≡ length rec + length rest = length-append rec rest in
    let first : parse_record (rec ++ rest) ≡ some (suc last, cmd, 16 + length cmd) =
      parse_record-wal_record (suc last) cmd rest (omega (arith, f)) (logged_size c a.0) in
    let done = replay_record_lem last c m a.0.command (omega (arith, f)) in
    ap (λ b. replay_segment (suc n) true start off b last m)
      (append_assoc rec (records (suc last) cs) tail)
    ∙ step_lem n start off (rec ++ rest) last m (suc last) cmd (16 + length cmd) (suc last)
        (run_command c m) (omega (arith, total, size)) first done
    ∙ ap (λ b. replay_segment n true start (off + (16 + length cmd)) b (suc last) (run_command c m))
        (drop_record (suc last) cmd rest)
    ∙ segment_lem cs n start (off + (16 + length cmd)) tail (suc last) (run_command c m) a.1
        (omega (arith, f))
        (omega (arith, l, total, size, ap length (append_assoc rec (records (suc last) cs) tail))) h
    ∙ replayed_at (run_all cs (run_command c m)) (omega arith)
        (omega (arith, size, length-append rec (records (suc last) cs)))
