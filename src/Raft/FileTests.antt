-- ===== src/Raft/FileTests.antt =====
-- internal/raft: the codecs and the files on concrete values.
use raft_kv.Common.{ℕ, ◌^◌, ◌<◌, ◌≡◌, inl, refl, some, [], ◌∷◌, arith, length}
use raft_kv.Common.Bytes.{Bytes, le32, le64}
use raft_kv.Common.Assoc.{Map, nat_eq, lookup}
use raft_kv.Raft.Result.{ok}
use raft_kv.Raft.Entry.{encode_entry, decode_entry, decode_entry-encode_entry}
use raft_kv.Raft.StateFile.{encode_state, load_term_and_vote, load_term_and_vote-encode_state}
use raft_kv.Raft.Members.{
  encode_ids, sort, insert_sorted, encode_conf_change, decode_conf_change, encode_members,
  decode_members, address,
}
use raft_kv.Raft.Members.RoundTrip.{IsTable, decode-encode_conf_change, decode-encode_members}
use raft_kv.Raft.Snapshot.{RaftSnapshot, encode_snapshot, load_raft_snapshot, load-encode_snapshot}
use raft_kv.Raft.Sample.{entry, three, entry-IsEntry, join}

decode_entry-encode_entry_example : decode_entry (encode_entry (entry 1)) ≡ some (entry 1)
decode_entry-encode_entry_example = decode_entry-encode_entry (entry 1) entry-IsEntry

load_term_and_vote-encode_state_example : load_term_and_vote (some (encode_state 7 3)) ≡ ok (7, 3)
load_term_and_vote-encode_state_example =
    load_term_and_vote-encode_state 7 3 (omega arith) (omega arith)

decode-encode_conf_change_example : decode_conf_change (encode_conf_change join) ≡ ok join
decode-encode_conf_change_example =
    decode-encode_conf_change join (record { op = inl refl; id = omega arith; addr = omega arith })

three-IsTable : IsTable three
unfolding address lookup
three-IsTable = record {
  ids = (omega arith, (omega arith, (omega arith, tt)));
  addr = λ k. ground arith;
  size = omega arith;
}

decode-encode_members_example :
    (m : Map ℕ Bytes) × (decode_members (encode_members three) ≡ ok m)
    × ((k : ℕ) → lookup k m ≡ lookup k three)
decode-encode_members_example = decode-encode_members three three-IsTable

abbrev snapshot : RaftSnapshot
snapshot = record { last_index = 5; last_term = 2; config = three; payload = 9 ∷ 9 ∷ [] }

members_size : length (encode_members three) < 2 ^ 32
unfolding encode_members encode_ids sort insert_sorted le64 le32 address lookup
members_size = omega arith

load-encode_snapshot_example :
    (m : Map ℕ Bytes) × (load_raft_snapshot (some (encode_snapshot snapshot))
      ≡ ok (record snapshot { config = m }))
    × ((k : ℕ) → lookup k m ≡ lookup k three)
load-encode_snapshot_example = load-encode_snapshot snapshot (record {
  last_index = omega arith;
  last_term = omega arith;
  config = three-IsTable;
  size = members_size;
})
