-- ===== src/Server/Requests.antt =====
-- internal/server/server.go over internal/storage/store.go: requests to the durable store.
use raft_kv.Common.{
  ◌^◌, ◌≤◌, ◌≡◌, refl, ◌⊎◌, inl, inr, Option, none, some, [], ◌∷◌, arith, ltb, length, Bool-cases,
}
use raft_kv.Common.Bytes.{Bytes}
use raft_kv.Storage.Wal.{Fault}
use raft_kv.Storage.Store.{DurableStore, SnapshotFaults, StoreError, put_key, get_key, delete_key}
use raft_kv.Storage.Store.Calls.{IsOp, perform}
use raft_kv.Storage.Store.Calls.{put_op, delete_op, IsOp, perform}
use raft_kv.Server.{
  Store, Status, empty_key, key_too_long, value_too_long, Response, refused, validate_key,
  put_result, delete_result, put, delete, max_key_bytes, max_value_bytes,
}

-- The durable store as the engine of a request, with what fails during it.
abbrev pub durable_engine : Option Fault → SnapshotFaults → Store DurableStore StoreError
durable_engine fault f = record {
  put = put_key fault f;
  get = get_key;
  delete = delete_key fault f;
}

-- A request that is turned down leaves the store as it is.
abbrev pub TurnedDown : DurableStore → Response StoreError × DurableStore → Type 0
TurnedDown s r = (e : Status StoreError) × (r ≡ (refused e, s))

valid_key :
    (key : Bytes)
    → ((e : Status StoreError) × (validate_key key ≡ some e))
      ⊎ ((validate_key {E = StoreError} key ≡ none) × (length key ≤ 2 ^ 20))
unfolding validate_key
valid_key [] = inl (empty_key, refl)
valid_key (k ∷ key) = elim (Bool-cases (ltb max_key_bytes (length (k ∷ key)))) [
  | inl b ↦ inl (key_too_long (length (k ∷ key)), rw b refl)
  | inr b ↦ inr (rw b refl, ground (arith, b))
]

put_cases :
    (fault : Option Fault) (f : SnapshotFaults) (key value : Bytes) (s : DurableStore)
    → TurnedDown s (put (durable_engine fault f) key value s)
      ⊎ (IsOp (put_op key value)
          × (put (durable_engine fault f) key value s
              ≡ put_result (perform fault f (put_op key value) s)))
unfolding put perform
put_cases fault f key value s = elim (valid_key key) [
  | inl (e, v) ↦ inl (e, rw (v, put) refl)
  | inr (v, short) ↦ elim (Bool-cases (ltb max_value_bytes (length value))) [
    | inl b ↦ inl (value_too_long (length value), rw (v, b, put) refl)
    | inr b ↦ inr ((short, ground (arith, b)), rw (v, b, put) refl)
  ]
]

delete_cases :
    (fault : Option Fault) (f : SnapshotFaults) (key : Bytes) (s : DurableStore)
    → TurnedDown s (delete (durable_engine fault f) key s)
      ⊎ (IsOp (delete_op key)
          × (delete (durable_engine fault f) key s ≡ delete_result (delete_key fault f key s)))
unfolding delete
delete_cases fault f key s = elim (valid_key key) [
  | inl (e, v) ↦ inl (e, rw (v, delete) refl)
  | inr (v, short) ↦ inr (short, rw (v, delete) refl)
]

-- A put or a delete that reaches the server is either turned down, and the store stays as it is, or
-- it is carried out by the durable store, and its key and value are of sizes that the log can hold.
pub requests-IsOp :
    (fault : Option Fault) (f : SnapshotFaults) (key value : Bytes) (s : DurableStore)
    → (TurnedDown s (put (durable_engine fault f) key value s)
        ⊎ (IsOp (put_op key value)
            × (put (durable_engine fault f) key value s
                ≡ put_result (perform fault f (put_op key value) s))))
      × (TurnedDown s (delete (durable_engine fault f) key s)
          ⊎ (IsOp (delete_op key)
              × (delete (durable_engine fault f) key s ≡ delete_result (delete_key fault f key s))))
requests-IsOp fault f key value s = (put_cases fault f key value s, delete_cases fault f key s)
