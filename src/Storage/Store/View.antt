-- ===== src/Storage/Store/View.antt =====
-- internal/storage/store.go, `applyCommand`: the map after commands, as a function of keys, and the
-- sizes that a snapshot of it needs.
use raft_kv.Common.{
  ℕ, suc, ◌+◌, ◌^◌, ◌<◌, ◌≤◌, ◌≡◌, inl, inr, Option, none, some, List, [], ◌∷◌, arith, ◌==◌,
  if◌then◌else◌, length, All, Bool-cases,
}
use raft_kv.Common.Bytes.{Bytes, bytes_eq}
use raft_kv.Common.Assoc.{
  IsMap, bytes_key, lookup, insert, erase, lookup-insert, lookup-erase, insert-IsMap, erase-IsMap,
}
use raft_kv.Storage.Command.{Command, IsCommand, op_put}
use raft_kv.Storage.MemStore.{Store, put, delete, apply_command}
use raft_kv.Storage.Wal.Parse.{IsLogged}
use raft_kv.Storage.Wal.Replay.{run_command, run_all}
use raft_kv.Storage.Snapshot.RoundTrip.{IsStorable}

-- A key-value store as what it answers.
abbrev pub View : Type 0
View = Bytes → Option Bytes

abbrev pub nothing_stored : View
nothing_stored _ = none

unfoldable pub effect : Command → View → View
effect c f j = if bytes_eq c.key j then (if c.op == op_put then some c.value else none) else f j

unfoldable pub effects : List Command → View → View
effects [] f = f
effects (c ∷ cs) f = effects cs (effect c f)

run_command-view :
    (c : Command) (m : Store) (f : View) (h : IsCommand c)
    → ((j : Bytes) → lookup j m ≡ f j)
    → (j : Bytes) → lookup j (run_command c m) ≡ effect c f j
unfolding run_command apply_command put delete effect
run_command-view c m f h same j =
    ground (arith, h.op, same j, lookup-insert c.key j c.value m, lookup-erase c.key j m)

-- The map after commands answers as the commands say.
pub run_all-view :
    (cs : List Command) (m : Store) (f : View)
    → All IsLogged cs
    → ((j : Bytes) → lookup j m ≡ f j)
    → (j : Bytes) → lookup j (run_all cs m) ≡ effects cs f j
unfolding run_all effects
run_all-view [] m f h same = same
run_all-view (c ∷ cs) m f h same =
    run_all-view cs (run_command c m) (effect c f) h.1 (run_command-view c m f h.0.command same)

abbrev Fits : Bytes × Bytes → Type 0
Fits p = (length p.0 < 2 ^ 32) × (length p.1 < 2 ^ 32)

record Bounded (n : ℕ) (m : Store) : Type 0 where
  size : length m ≤ n
  fits : All Fits m
  table : IsMap m

length-insert : (k v : Bytes) (m : Store) → length (insert k v m) ≤ suc (length m)
unfolding insert
length-insert k v [] = omega arith
length-insert k v ((j, w) ∷ m) = ground (arith, length-insert k v m)

length-erase : (k : Bytes) (m : Store) → length (erase k m) ≤ length m
unfolding erase
length-erase k [] = omega arith
length-erase k ((j, w) ∷ m) = ground (arith, length-erase k m)

insert-Fits : (k v : Bytes) (m : Store) → Fits (k, v) → All Fits m → All Fits (insert k v m)
unfolding insert
insert-Fits k v [] h a = (h, tt)
insert-Fits k v ((j, w) ∷ m) h a = elim (Bool-cases (bytes_eq j k)) [
  | inl b ↦ rw b (h, a.1)
  | inr b ↦ rw b (a.0, insert-Fits k v m h a.1)
]

erase-Fits : (k : Bytes) (m : Store) → All Fits m → All Fits (erase k m)
unfolding erase
erase-Fits k [] a = tt
erase-Fits k ((j, w) ∷ m) a = elim (Bool-cases (bytes_eq j k)) [
  | inl b ↦ rw b (erase-Fits k m a.1)
  | inr b ↦ rw b (a.0, erase-Fits k m a.1)
]

run_command-Bounded :
    (n : ℕ) (c : Command) (m : Store) → IsLogged c → Bounded n m → Bounded (suc n) (run_command c m)
unfolding run_command apply_command put delete
run_command-Bounded n c m h b = elim h.command.op [
  | inl e ↦
      let put_it : run_command c m ≡ insert c.key c.value m = ground (arith, e) in
      rw put_it (record {
        size = omega (arith, length-insert c.key c.value m, b.size);
        fits = insert-Fits c.key c.value m (h.command.key, h.command.value) b.fits;
        table = insert-IsMap c.key c.value m b.table;
      })
  | inr e ↦
      let erase_it : run_command c m ≡ erase c.key m = ground (arith, e) in
      rw erase_it (record {
        size = omega (arith, length-erase c.key m, b.size);
        fits = erase-Fits c.key m b.fits;
        table = erase-IsMap c.key m b.table;
      })
]

run_all-Bounded :
    (cs : List Command) (n : ℕ) (m : Store)
    → All IsLogged cs
    → Bounded n m
    → Bounded (n + length cs) (run_all cs m)
unfolding run_all
run_all-Bounded [] n m a b = let e : n + 0 ≡ n = omega arith in rw e b
run_all-Bounded (c ∷ cs) n m a b =
    let e : n + suc (length cs) ≡ suc n + length cs = omega arith in
    rw e (run_all-Bounded cs (suc n) (run_command c m) a.1 (run_command-Bounded n c m a.0 b))

-- The map after commands that the log holds fits into a snapshot.
pub run_all-IsStorable :
    (cs : List Command) (last : ℕ)
    → All IsLogged cs
    → last < 2 ^ 64
    → length cs < 2 ^ 64
    → IsStorable last (run_all cs [])
run_all-IsStorable cs last a l s =
    let b = run_all-Bounded cs 0 [] a (record { size = omega arith; fits = tt; table = tt }) in
    record { seq = l; size = omega (arith, b.size); fits = b.fits; table = b.table }
