-- ===== src/Storage/Wal/Parse.antt =====
-- internal/storage/wal.go: one record, whole or torn.
use raft_kv.Common.{
  ℕ, ◌+◌, ◌^◌, ◌<◌, ◌≤◌, ◌≡◌, refl, ap, ◌∙◌, false, Option, none, some, [], ◌++◌, arith, ltb, u32,
  length, take, length-append,
}
use raft_kv.Common.Bytes.{Bytes, le32, le64, read64-le64, drop-le64, length-le32, length-le64}
use raft_kv.Common.Assoc.{bytes_key}
use raft_kv.Record.{checksum, frame, parse}
use raft_kv.Record.Framing.{parse-frame, parse_torn}
use raft_kv.Storage.Command.{Command, IsCommand, encode_command}
use raft_kv.Storage.Wal.{wal_record, wal_seq_size, wal_max_record_len, parse_payload, parse_record}

-- A command that the store writes, on sizes that the log can hold.
pub record IsLogged (c : Command) : Type 0 where
  pub command : IsCommand c
  pub key : length c.key ≤ 2 ^ 20
  pub value : length c.value ≤ 2 ^ 26

pub length-encode_command :
    (c : Command) → length (encode_command c) ≡ 9 + length c.key + length c.value
unfolding encode_command
length-encode_command c = omega (
  arith,
  length-append (le32 (u32 (length c.key))) (c.key ++ (le32 (u32 (length c.value)) ++ c.value)),
  length-le32 (u32 (length c.key)),
  length-append c.key (le32 (u32 (length c.value)) ++ c.value),
  length-append (le32 (u32 (length c.value))) c.value,
  length-le32 (u32 (length c.value)),
)

length-payload : (seq : ℕ) (cmd : Bytes) → length (le64 seq ++ cmd) ≡ 8 + length cmd
length-payload seq cmd = omega (arith, length-append (le64 seq) cmd, length-le64 seq)

pub length-wal_record : (seq : ℕ) (cmd : Bytes) → length (wal_record seq cmd) ≡ 16 + length cmd
unfolding wal_record frame
length-wal_record seq cmd =
    let payload : Bytes = le64 seq ++ cmd in
    omega (
      arith,
      length-append (le32 (u32 (length payload))) (le32 (checksum payload) ++ payload),
      length-append (le32 (checksum payload)) payload,
      length-le32 (u32 (length payload)),
      length-le32 (checksum payload),
      length-payload seq cmd,
    )

parse_with :
    (b : Bytes) (r : Option (Bytes × ℕ))
    → parse b wal_max_record_len ≡ r
    → parse_record b ≡ elim r [ none ↦ none | some p ↦ parse_payload p ]
unfolding parse_record
parse_with b r e = rw (e, parse_record) refl

-- A record is read back, whatever follows it.
pub parse_record-wal_record :
    (seq : ℕ) (cmd rest : Bytes)
    → seq < 2 ^ 64
    → 8 + length cmd ≤ wal_max_record_len
    → parse_record (wal_record seq cmd ++ rest) ≡ some (seq, cmd, 16 + length cmd)
unfolding wal_record parse_payload
parse_record-wal_record seq cmd rest h l =
    let payload : Bytes = le64 seq ++ cmd in
    let size : length payload ≡ 8 + length cmd = length-payload seq cmd in
    let long : ltb (length payload) wal_seq_size ≡ false = ground (arith, size) in
    parse_with (frame [] payload ++ rest) (some (payload, 8 + length payload))
      (parse-frame payload rest wal_max_record_len (omega (arith, size)) (omega (arith, size)))
    ∙ rw (long, read64-le64 seq cmd h, drop-le64 seq cmd)
        (ap (λ n. some (seq, cmd, n)) (omega (arith, size)))

-- A part of a record is none.
pub parse_record-torn :
    (seq n : ℕ) (cmd : Bytes)
    → 8 + length cmd ≤ wal_max_record_len
    → n < length (wal_record seq cmd)
    → parse_record (take n (wal_record seq cmd)) ≡ none
unfolding wal_record
parse_record-torn seq n cmd l h =
    let size : length (le64 seq ++ cmd) ≡ 8 + length cmd = length-payload seq cmd in
    let whole = length-wal_record seq cmd in
    parse_with (take n (frame [] (le64 seq ++ cmd))) none (
      parse_torn (le64 seq ++ cmd) wal_max_record_len n (omega (arith, size))
        (omega (arith, size, h, whole)))
