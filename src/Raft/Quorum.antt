-- ===== src/Raft/Quorum.antt =====
-- internal/raft/membership.go and core.go: two majorities around one membership change meet.
use raft_kv.Common.{
  ℕ, suc, ◌+◌, ◌/◌, ◌<◌, ◌≤◌, ◌≡◌, refl, ap, ◌∙◌, true, none, List, [], ◌∷◌, arith, length, ◌==◌,
  Bool-cases, inl, inr,
}
use raft_kv.Common.Bytes.{Bytes}
use raft_kv.Common.Assoc.{
  Map, nat_eq, keys, lookup, insert, erase, has, lookup-insert, lookup-erase, IsMap,
}
use raft_kv.Common.Sets.{contains, IsUnique, common_element}
use raft_kv.Raft.Members.{ConfChange, conf_change_add, conf_change_remove}
use raft_kv.Raft.Core.{Core}
use raft_kv.Raft.Log.{majority}
use raft_kv.Raft.Membership.{change_table, track, apply_conf_change}

-- Enough different members of the table that the node acts on.
pub record IsQuorum (s : Core) (ids : List ℕ) : Type 0 where
  pub distinct : IsUnique ids
  pub members : (x : ℕ) → contains x ids ≡ true → has x s.members ≡ true
  pub enough : majority s ≤ length ids

pub contains-keys : {V : Type 0} (x : ℕ) (m : Map ℕ V) → contains x (keys m) ≡ has x m
unfolding contains has lookup
contains-keys x [] = refl
contains-keys x ((k, v) ∷ m) = ground (arith, contains-keys x m)

pub length-keys : {V : Type 0} (m : Map ℕ V) → length (keys m) ≡ length m
length-keys [] = refl
length-keys ((k, v) ∷ m) = ap suc (length-keys m)

length-insert : (k : ℕ) (v : Bytes) (m : Map ℕ Bytes) → length (insert k v m) ≤ length m + 1
unfolding insert
length-insert k v [] = omega arith
length-insert k v ((j, w) ∷ m) = ground (arith, length-insert k v m)

length-erase-none : (k : ℕ) (m : Map ℕ Bytes) → lookup k m ≡ none → length (erase k m) ≡ length m
unfolding erase lookup
length-erase-none k [] h = refl
length-erase-none k ((j, w) ∷ m) h = ground (arith, h, length-erase-none k m)

length-erase : (k : ℕ) (m : Map ℕ Bytes) → IsMap m → length m ≤ length (erase k m) + 1
unfolding erase
length-erase k [] h = omega arith
length-erase k ((j, w) ∷ m) h = ground (arith, h.0, length-erase-none j m h.0, length-erase k m h.1)

-- A table that holds both, and is not larger than the larger of them.
record Cover (m n : Map ℕ Bytes) : Type 0 where
  table : Map ℕ Bytes
  first : (x : ℕ) → has x m ≡ true → has x table ≡ true
  second : (x : ℕ) → has x n ≡ true → has x table ≡ true
  tight : length table < length m / 2 + 1 + (length n / 2 + 1)

has-insert : (x k : ℕ) (v : Bytes) (m : Map ℕ Bytes) → has x m ≡ true → has x (insert k v m) ≡ true
unfolding has
has-insert x k v m h = ground (arith, h, lookup-insert k x v m)

has-erase : (x k : ℕ) (m : Map ℕ Bytes) → has x (erase k m) ≡ true → has x m ≡ true
unfolding has
has-erase x k m h = ground (arith, h, lookup-erase k x m)

change_table-Cover :
    (change : ConfChange) (m : Map ℕ Bytes) → IsMap m → Cover m (change_table change m)
unfolding change_table
change_table-Cover change m h = elim (Bool-cases (change.op == conf_change_add)) [
  | inl a ↦ rw a (record {
    table = insert change.id change.addr m;
    first = λ x k. has-insert x change.id change.addr m k;
    second = λ x k. k;
    tight = omega (arith, length-insert change.id change.addr m);
  })
  | inr a ↦ elim (Bool-cases (change.op == conf_change_remove)) [
    | inl r ↦
        rw (a, r)
          (record {
            table = m;
            first = λ x k. k;
            second = λ x k. has-erase x change.id m k;
            tight = omega (arith, length-erase change.id m h);
          })
    | inr r ↦
        rw (a, r) (record { table = m; first = λ x k. k; second = λ x k. k; tight = omega arith })
  ]
]

members-change :
    (change : ConfChange) (i : ℕ) (s : Core)
    → (apply_conf_change change i s).members ≡ change_table change s.members
unfolding apply_conf_change track
members-change change i s = ground arith

quorum_size : (s : Core) (ids : List ℕ) → IsQuorum s ids → length s.members / 2 + 1 ≤ length ids
unfolding majority
quorum_size s ids h = h.enough

-- Any majority of the members before a membership change and any majority of those after it have a
-- node in common, whatever the change, if no id stands twice in the table.
pub apply_conf_change-quorums_meet :
    (change : ConfChange) (i : ℕ) (s : Core) (a b : List ℕ)
    → IsMap s.members
    → IsQuorum s a
    → IsQuorum (apply_conf_change change i s) b
    → (x : ℕ) × (contains x a ≡ true) × (contains x b ≡ true)
apply_conf_change-quorums_meet change i s a b h p q =
    let t : Core = apply_conf_change change i s in
    let c = change_table-Cover change s.members h in
    let same = members-change change i s in
    common_element a b (keys c.table) p.distinct q.distinct
      (λ x k. contains-keys x c.table ∙ c.first x (p.members x k))
      (λ x k. contains-keys x c.table ∙ c.second x (rw same at (q.members x k)))
      (omega
        (arith, length-keys c.table, c.tight, quorum_size s a p, quorum_size t b q, ap length same))
