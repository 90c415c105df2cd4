-- ===== src/Raft/Entry.antt =====
-- internal/raft/log.go, the entries: their fields and their bytes in the log file.
use raft_kv.Common.{
  ℕ, ◌+◌, ◌*◌, ◌%◌, ◌^◌, ◌<◌, ◌≡◌, Option, none, some, [], ◌∷◌, ◌++◌, arith, ltb, if◌then◌else◌,
  length, drop,
}
use raft_kv.Common.Bytes.{Bytes, le64, read64}

-- raftv1.EntryType; the numbers are those of the protocol.
abbrev pub entry_normal : ℕ
entry_normal = 1

abbrev pub entry_noop : ℕ
entry_noop = 2

abbrev pub entry_config : ℕ
entry_config = 3

pub record Entry : Type 0 where
  pub term : ℕ
  pub index : ℕ
  pub type : ℕ
  pub command : Bytes

abbrev pub entry_header_len : ℕ
entry_header_len = 17

abbrev pub max_entry_payload : ℕ
max_entry_payload = entry_header_len + 64 * 2 ^ 20

-- The payload that `append` and `rewrite` frame.
unfoldable pub encode_entry : Entry → Bytes
encode_entry e = le64 e.term ++ (le64 e.index ++ (e.type % 256 ∷ e.command))

-- The fields that `openLog` reads from a payload; `none` is a payload shorter than the header.
unfoldable pub decode_entry : Bytes → Option Entry
decode_entry p =
    if ltb (length p) entry_header_len
    then none
    else some (record {
      term = read64 p;
      index = read64 (drop 8 p);
      type = elim (drop 16 p) [ [] ↦ 0 | t ∷ _ ↦ t ];
      command = drop entry_header_len p;
    })

pub record IsEntry (e : Entry) : Type 0 where
  pub term : e.term < 2 ^ 64
  pub index : e.index < 2 ^ 64
  pub type : e.type < 256

-- The entry that was encoded is decoded, on the ranges of its Go types.
pub decode_entry-encode_entry : (e : Entry) → IsEntry e → decode_entry (encode_entry e) ≡ some e
unfolding decode_entry encode_entry le64 read64
decode_entry-encode_entry e h = ground arith
