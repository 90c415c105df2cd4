-- ===== src/Server/Tests.antt =====
-- internal/server/server.go: a put and a delete on a durable store.
use raft_kv.Common.{◌≡◌, ◌⊎◌, none, [], ◌∷◌, false}
use raft_kv.Storage.Store.{SnapshotFaults, DurableStore, delete_key, new_store}
use raft_kv.Storage.Store.Calls.{put_op, delete_op, IsOp, perform}
use raft_kv.Server.{put_result, delete_result, put, delete}
use raft_kv.Server.Requests.{durable_engine, TurnedDown, requests-IsOp}

abbrev no_faults : SnapshotFaults
no_faults = record { write = none; create = none; close = false; remove = none; prune = none }

abbrev empty_store : DurableStore
empty_store = new_store 0 [] 0 [] 1 [] []

requests-IsOp_example :
    (TurnedDown empty_store (put (durable_engine none no_faults) (107 ∷ []) (118 ∷ []) empty_store)
      ⊎ (IsOp (put_op (107 ∷ []) (118 ∷ []))
          × (put (durable_engine none no_faults) (107 ∷ []) (118 ∷ []) empty_store
              ≡ put_result (perform none no_faults (put_op (107 ∷ []) (118 ∷ [])) empty_store))))
    × (TurnedDown empty_store (delete (durable_engine none no_faults) (107 ∷ []) empty_store)
        ⊎ (IsOp (delete_op (107 ∷ []))
            × (delete (durable_engine none no_faults) (107 ∷ []) empty_store
                ≡ delete_result (delete_key none no_faults (107 ∷ []) empty_store))))
requests-IsOp_example = requests-IsOp none no_faults (107 ∷ []) (118 ∷ []) empty_store
