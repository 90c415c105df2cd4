-- ===== src/Kvraft/Snapshot.antt =====
-- internal/kvraft/statemachine.go, `Snapshot` and `Restore`. `encoding/gob` is the parameter of
-- both: an encoder that may fail and a decoder.
pub mod RoundTrip
use raft_kv.Common.{ℕ, Bool, true, Option, none, some, List, [], ◌∷◌, ltb, if◌then◌else◌, length}
use raft_kv.Common.Bytes.{Bytes}
use raft_kv.Common.Assoc.{Map, nat_eq, bytes_key, insert, insert_all}
use raft_kv.Storage.MemStore.{Store, put, range}
use raft_kv.Kvraft.StateMachine.{StateMachine}

pub record SnapshotImage : Type 0 where
  pub store : Store
  pub sessions : Map ℕ ℕ

-- img.Data[k] = v, for every pair.
unfoldable pub collect : Bytes → Bytes → Store → Bool × Store
collect key v m = (true, insert key v m)

unfoldable pub snapshot_image : StateMachine → SnapshotImage
snapshot_image s = record { store = range collect s.store []; sessions = insert_all s.sessions [] }

-- for k, v := range img.Data { mem.Put(k, v) }
unfoldable pub put_all : Store → Store → Store
put_all [] mem = mem
put_all ((k, v) ∷ m) mem = put_all m (put k v mem)

unfoldable pub restore_image : SnapshotImage → StateMachine
restore_image img = record { store = put_all img.store []; sessions = img.sessions }

module _ (encode : SnapshotImage → Option Bytes) (decode : Bytes → Option SnapshotImage) where
  unfoldable pub snapshot : StateMachine → Option Bytes
  snapshot s = encode (snapshot_image s)

  -- `none` is an error, on which the state stays; empty bytes stand for an empty image.
  unfoldable pub restore : Bytes → StateMachine → Option StateMachine
  restore b s =
      if ltb 0 (length b)
      then elim (decode b) [ none ↦ none | some img ↦ some (restore_image img) ]
      else some (restore_image (record { store = []; sessions = [] }))
