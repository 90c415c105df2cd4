-- ===== src/Storage/Wal.antt =====
-- internal/storage/wal.go: the write-ahead log. A directory is the list of its segments, ordered by
-- their first sequence numbers, as `listSegments` returns it; reading a file works.
pub mod Parse
pub mod Replay
pub mod Recovery
pub mod Segments
pub mod Chain
pub mod Termination
use raft_kv.Common.{
  ℕ, zero, suc, ◌+◌, ◌^◌, ◌*◌, Bool, true, false, not, Option, none, some, ◌⊎◌, inl, inr, List, [],
  ◌∷◌, ◌++◌, ltb, ◌==◌, if◌then◌else◌, u64, length, take, drop,
}
use raft_kv.Common.Bytes.{Bytes, le64, read64}
use raft_kv.Record.{frame, parse}
use raft_kv.Storage.Command.{DecodeError, Decoded, command, failed, decode_command}
use raft_kv.Storage.MemStore.{Store, apply_command}

abbrev pub wal_seq_size : ℕ
wal_seq_size = 8

-- walMaxRecordLen
abbrev pub wal_max_record_len : ℕ
wal_max_record_len = 8 + 1 + 4 + 2 ^ 20 + 4 + 2 ^ 26

pub record Segment : Type 0 where
  pub start_seq : ℕ
  pub content : Bytes

-- The active segment, open for appending.
pub record Wal : Type 0 where
  pub content : Bytes
  pub size : ℕ
  pub failed : Bool

-- What goes wrong in an append: a write that stops after a number of bytes, or the sync after it.
pub data Fault : Type 0 where
  at_write : ℕ → Fault
  at_sync : Fault

pub data WalError : Type 0 where
  wal_failed : WalError
  disk_failed : WalError
  corrupt_record : ℕ → ℕ → WalError
  sequence_gap : ℕ → ℕ → WalError
  bad_command : ℕ → DecodeError → WalError
  bad_operation : WalError

-- The framed record that `Append` writes.
unfoldable pub wal_record : ℕ → Bytes → Bytes
wal_record seq cmd = frame [] (le64 seq ++ cmd)

-- After a failure the segment takes no further appends.
unfoldable pub append : Option Fault → ℕ → Bytes → Wal → Option WalError × Wal
append fault seq cmd w = if w.failed then (some wal_failed, w) else elim fault [
  | none ↦ (
    none,
    record w {
      content = w.content ++ wal_record seq cmd;
      size = w.size + length (wal_record seq cmd);
    },
  )
  | some (at_write n) ↦ (
    some disk_failed,
    record w { content = w.content ++ take n (wal_record seq cmd); failed = true },
  )
  | some at_sync ↦
      (some disk_failed, record w { content = w.content ++ wal_record seq cmd; failed = true })
]

-- The sequence number, the command and the length of the record.
unfoldable pub parse_payload : Bytes × ℕ → Option (ℕ × Bytes × ℕ)
parse_payload (payload, n) =
    if ltb (length payload) wal_seq_size
    then none
    else some (read64 payload, drop wal_seq_size payload, n)

unfoldable pub parse_record : Bytes → Option (ℕ × Bytes × ℕ)
parse_record b = elim (parse b wal_max_record_len) [ none ↦ none | some p ↦ parse_payload p ]

-- The last sequence number, the offset where valid data ends and the state, or an error.
pub data Replayed : Type 0 where
  replayed : ℕ → ℕ → Store → Replayed
  replay_failed : WalError → Replayed

-- The function that `Open` passes to the replay.
unfoldable pub replay_command : ℕ → Decoded → Store → WalError ⊎ Store
replay_command seq (failed e) mem = inl (bad_command seq e)
replay_command seq (command cmd) mem = elim (apply_command cmd mem) [
  | none ↦ inl bad_operation
  | some (existed, m) ↦ inr m
]

-- What one intact record does: the new last sequence number and state.
unfoldable pub replay_record : ℕ → Bytes → ℕ → Store → WalError ⊎ (ℕ × Store)
replay_record seq cmd last mem =
    if not (ltb last seq)
    then inr (last, mem)
    else if not (seq == u64 (last + 1))
    then inl (sequence_gap seq last)
    else elim (replay_command seq (decode_command cmd) mem) [ inl e ↦ inl e | inr m ↦ inr (seq, m) ]

-- The records of one segment: the rounds left, whether it is the newest, its first sequence number,
-- the offset and the bytes from there on. A record is never empty, so as many rounds as there are
-- bytes are enough.
unfoldable pub replay_segment : ℕ → Bool → ℕ → ℕ → Bytes → ℕ → Store → Replayed
replay_segment n newest start off [] last mem = replayed last off mem
replay_segment zero newest start off (b ∷ bs) last mem = replayed last off mem
replay_segment (suc n) newest start off (b ∷ bs) last mem = elim (parse_record (b ∷ bs)) [
  | none ↦ (if newest then replayed last off mem else replay_failed (corrupt_record start off))
  | some (seq, cmd, len) ↦ elim (replay_record seq cmd last mem) [
    | inl e ↦ replay_failed e
    | inr (last', mem') ↦ replay_segment n newest start (off + len) (drop len (b ∷ bs)) last' mem'
  ]
]

unfoldable pub is_newest : List Segment → Bool
is_newest [] = true
is_newest (_ ∷ _) = false

-- `replayWAL`; the valid size is that of the newest segment.
unfoldable pub replay_wal : List Segment → ℕ → Store → Replayed
replay_wal [] last mem = replayed last 0 mem
replay_wal (seg ∷ segs) last mem =
    elim (replay_segment (length seg.content) (is_newest segs) seg.start_seq 0 seg.content last
      mem) [
        | replay_failed e ↦ replay_failed e
        | replayed last' off mem' ↦ elim segs [
          | [] ↦ replayed last' off mem'
          | _ ∷ _ ↦ replay_wal segs last' mem'
        ]
      ]
