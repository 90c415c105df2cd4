-- ===== src/Server.antt =====
-- internal/server/server.go: the kv.v1 service of a single node, over a storage engine.
pub mod Requests
mod Tests
use raft_kv.Common.{
  ℕ, ◌*◌, Bool, Option, none, some, List, [], ◌∷◌, ltb, ◌==◌, if◌then◌else◌, length,
}
use raft_kv.Common.Bytes.{Bytes}

abbrev pub max_key_bytes : ℕ
max_key_bytes = 4 * 1024

abbrev pub max_value_bytes : ℕ
max_value_bytes = 1024 * 1024

-- The engine: `none` is no error.
pub record Store (S E : Type 0) : Type 0 where
  pub put : Bytes → Bytes → S → Option E × S
  pub get : Bytes → S → Option Bytes
  pub delete : Bytes → S → Option E × Bool × S

pub data Status (E : Type 0) : Type 0 where
  empty_key : Status E
  key_too_long : ℕ → Status E
  value_too_long : ℕ → Status E
  internal : E → Status E

pub data Response (E : Type 0) : Type 0 where
  put_response : Response E
  get_response : Option Bytes → Response E
  delete_response : Bool → Response E
  refused : Status E → Response E

unfoldable pub validate_key : {E : Type 0} → Bytes → Option (Status E)
validate_key [] = some empty_key
validate_key (k ∷ key) =
    if ltb max_key_bytes (length (k ∷ key)) then some (key_too_long (length (k ∷ key))) else none

module _ {S E : Type 0} where
  abbrev pub put_result : Option E × S → Response E × S
  put_result (none, s) = (put_response, s)
  put_result (some e, s) = (refused (internal e), s)

  abbrev pub delete_result : Option E × Bool × S → Response E × S
  delete_result (none, existed, s) = (delete_response existed, s)
  delete_result (some e, existed, s) = (refused (internal e), s)

module _ {S E : Type 0} (store : Store S E) where
  unfoldable pub put : Bytes → Bytes → S → Response E × S
  put key value s = elim (validate_key {E = E} key) [
    | some e ↦ (refused e, s)
    | none ↦
        (if ltb max_value_bytes (length value)
          then (refused (value_too_long (length value)), s)
          else put_result (store.put key value s))
  ]

  unfoldable pub get : Bytes → S → Response E × S
  get key s = elim (validate_key {E = E} key) [
    | some e ↦ (refused e, s)
    | none ↦ (get_response (store.get key s), s)
  ]

  unfoldable pub delete : Bytes → S → Response E × S
  delete key s = elim (validate_key {E = E} key) [
    | some e ↦ (refused e, s)
    | none ↦ delete_result (store.delete key s)
  ]
