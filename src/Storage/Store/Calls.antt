-- ===== src/Storage/Store/Calls.antt =====
-- internal/storage/store.go: the calls of a client, the map it has in mind, and the runs of a store.
use raft_kv.Common.{
  ℕ, suc, ◌^◌, ◌≤◌, ◌≡◌, ◌≢◌, refl, inl, inr, Option, none, some, List, [], ◌∷◌, ◌++◌, arith,
  if◌then◌else◌, length,
}
use raft_kv.Common.Bytes.{Bytes, bytes_eq}
use raft_kv.Common.Assoc.{bytes_key}
use raft_kv.Storage.Command.{Command, op_put, op_delete}
use raft_kv.Storage.Wal.{Fault}
use raft_kv.Storage.Wal.Parse.{IsLogged}
use raft_kv.Storage.Store.{
  DurableStore, SnapshotFaults, dir_unsynced, StoreError, list_segments, put_key, delete_key,
  snapshot, opened, open_store,
}
use raft_kv.Storage.Store.View.{View, effect, effects}

-- A call of a client, on sizes that the log can hold.
pub data Op : Type 0 where
  put_op : Bytes → Bytes → Op
  delete_op : Bytes → Op

abbrev pub IsOp : Op → Type 0
IsOp (put_op k v) = (length k ≤ 2 ^ 20) × (length v ≤ 2 ^ 26)
IsOp (delete_op k) = length k ≤ 2 ^ 20

-- The call, without the report of `Delete` on whether the key was there.
unfoldable pub perform :
    Option Fault → SnapshotFaults → Op → DurableStore → Option StoreError × DurableStore
perform fault f (put_op k v) s = put_key fault f k v s
perform fault f (delete_op k) s = let (e, existed, t) = delete_key fault f k s in (e, t)

-- The map that a client has in mind.
unfoldable pub view_after : Op → View → View
view_after (put_op k v) f j = if bytes_eq k j then some v else f j
view_after (delete_op k) f j = if bytes_eq k j then none else f j

unfoldable pub view_of : List Op → View → View
view_of [] f = f
view_of (o ∷ os) f = view_of os (view_after o f)

unfoldable pub first_failed : Op → Option Op → Option Op
first_failed o none = some o
first_failed o (some p) = some p

-- What a store goes through, with the calls that took effect and the first that failed since it was
-- opened. A call takes effect when it is acknowledged, or when a restart finds the failed one on
-- disk. The sync after a segment is created works.
pub data Run (threshold : ℕ) : DurableStore → List Op → Option Op → Type 0 where
  started :
      {s : DurableStore} → open_store none threshold [] [] ≡ opened s → Run threshold s [] none
  acknowledged :
      {s t : DurableStore} {os : List Op} {p : Option Op} (o : Op) (fault : Option Fault)
      (f : SnapshotFaults)
      → Run threshold s os p
      → IsOp o
      → f.create ≢ some dir_unsynced
      → perform fault f o s ≡ (none, t)
      → Run threshold t (os ++ (o ∷ [])) p
  refused :
      {s t : DurableStore} {os : List Op} {p : Option Op} (o : Op) (fault : Option Fault)
      (f : SnapshotFaults) (e : StoreError)
      → Run threshold s os p
      → IsOp o
      → f.create ≢ some dir_unsynced
      → perform fault f o s ≡ (some e, t)
      → Run threshold t os (first_failed o p)
  snapshotted :
      {s : DurableStore} {os : List Op} {p : Option Op} (f : SnapshotFaults)
      → Run threshold s os p
      → f.create ≢ some dir_unsynced
      → Run threshold (snapshot f s).1 os p
  restarted :
      {s t : DurableStore} {os : List Op} {p : Option Op}
      → Run threshold s os p
      → open_store none threshold (list_segments s) s.snaps ≡ opened t
      → t.seq ≡ s.seq
      → Run threshold t os none
  restarted_with :
      {s t : DurableStore} {os : List Op} {p : Option Op} (o : Op)
      → Run threshold s os p
      → open_store none threshold (list_segments s) s.snaps ≡ opened t
      → t.seq ≡ suc s.seq
      → p ≡ some o
      → Run threshold t (os ++ (o ∷ [])) none

unfoldable pub command_of : Op → Command
command_of (put_op k v) = record { op = op_put; key = k; value = v }
command_of (delete_op k) = record { op = op_delete; key = k; value = [] }

unfoldable pub pending : Option Op → Option Command
pending none = none
pending (some o) = some (command_of o)

pub command_of-IsLogged : (o : Op) → IsOp o → IsLogged (command_of o)
unfolding command_of
command_of-IsLogged (put_op k v) h = record {
  command = record { op = inl refl; key = omega (arith, h.0); value = omega (arith, h.1) };
  key = h.0;
  value = h.1;
}
command_of-IsLogged (delete_op k) h = record {
  command = record { op = inr refl; key = omega (arith, h); value = omega arith };
  key = h;
  value = omega arith;
}

pub effect-view_after :
    (o : Op) (f : View) (j : Bytes) → effect (command_of o) f j ≡ view_after o f j
unfolding effect view_after command_of
effect-view_after (put_op k v) f j = refl
effect-view_after (delete_op k) f j = refl

pub view_of-snoc :
    (os : List Op) (o : Op) (f : View) (j : Bytes)
    → view_of (os ++ (o ∷ [])) f j ≡ view_after o (view_of os f) j
unfolding view_of
view_of-snoc [] o f j = refl
view_of-snoc (p ∷ os) o f j = view_of-snoc os o (view_after p f) j

pub effects-snoc :
    (cs : List Command) (c : Command) (f : View) (j : Bytes)
    → effects (cs ++ (c ∷ [])) f j ≡ effect c (effects cs f) j
unfolding effects
effects-snoc [] c f j = refl
effects-snoc (d ∷ cs) c f j = effects-snoc cs c (effect d f) j
