-- ===== src/Storage/MemStore.antt =====
-- internal/storage/memstore.go: the map that owns the data. The lock makes each method atomic; a
-- method copies what it stores and returns, so values are not shared.
use raft_kv.Common.{ℕ, Bool, false, ◌==◌, if◌then◌else◌, Option, none, some, [], ◌∷◌, length}
use raft_kv.Common.Bytes.{Bytes}
use raft_kv.Common.Assoc.{Map, bytes_key, lookup, insert, erase, has}
use raft_kv.Storage.Command.{Command, op_put, op_delete}

abbrev pub Store : Type 0
Store = Map Bytes Bytes

unfoldable pub put : Bytes → Bytes → Store → Store
put key value m = insert key value m

unfoldable pub get : Bytes → Store → Option Bytes
get key m = lookup key m

-- Whether the key was there.
unfoldable pub delete : Bytes → Store → Bool × Store
delete key m = (has key m, erase key m)

-- `fn` changes a state and says whether to go on.
unfoldable pub range {ℓ} : {S : Type ℓ} → (Bytes → Bytes → S → Bool × S) → Store → S → S
range f [] s = s
range f ((k, v) ∷ m) s = let (more, s') = f k v s in if more then range f m s' else s'

unfoldable pub size : Store → ℕ
size m = length m

-- `applyCommand` of store.go: whether a deleted key existed. `none` is the panic on an operation
-- that no decoded command has.
unfoldable pub apply_command : Command → Store → Option (Bool × Store)
apply_command c m =
    if c.op == op_put
    then some (false, put c.key c.value m)
    else if c.op == op_delete
    then some (delete c.key m)
    else none
