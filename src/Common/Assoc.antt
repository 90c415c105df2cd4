-- ===== src/Common/Assoc.antt =====
-- Go's `map[K]V` as an association list with one pair for each key. Iteration is in list order.
use raft_kv.Common.Compare.{◌==◌, ==_iff, if◌then◌else◌}
use raft_kv.Common.Bytes.{Bytes, bytes_eq, bytes_eq_iff}
use Prim.Native.Nat.{ℕ}
use mathlib.Core.Path.{◌≡◌, refl}
use mathlib.Core.Logic.{◌↔◌}
use mathlib.Core.Bool.{Bool, true, false}
use mathlib.Core.Option.{Option, none, some}
use mathlib.Core.List.{List, [], ◌∷◌}
use native.Mathlib.Omega.{arith}

pub record Eq {ℓ} (A : Type ℓ) : Type ℓ where
  pub beq : A → A → Bool
  pub beq_iff : (a b : A) → (beq a b ≡ true) ↔ (a ≡ b)

abbrev nat_beq : ℕ → ℕ → Bool
nat_beq a b = a == b

instance abbrev pub nat_eq : Eq ℕ
nat_eq = record { beq = nat_beq; beq_iff = ==_iff }

pub beq_refl {ℓ} : {A : Type ℓ} ⦃e : Eq A⦄ (k : A) → e.beq k k ≡ true
beq_refl ⦃e⦄ k = (e.beq_iff k k).1 refl

instance abbrev pub bytes_key : Eq Bytes
bytes_key = record { beq = bytes_eq; beq_iff = bytes_eq_iff }

abbrev pub Map {ℓ κ} : Type ℓ → Type κ → Type (ℓ ⊔ κ)
Map K V = List (K × V)

-- `len(m)` is `length m`, `for k := range m` runs over `keys m`.
abbrev pub keys {ℓ κ} : {K : Type ℓ} {V : Type κ} → Map K V → List K
keys [] = []
keys ((k, v) ∷ m) = k ∷ keys m

module _ {ℓ κ} {K : Type ℓ} {V : Type κ} ⦃e : Eq K⦄ where
  unfoldable pub lookup : K → Map K V → Option V
  lookup k [] = none
  lookup k ((j, v) ∷ m) = if e.beq j k then some v else lookup k m

  -- m[k] = v
  unfoldable pub insert : K → V → Map K V → Map K V
  insert k v [] = (k, v) ∷ []
  insert k v ((j, w) ∷ m) = if e.beq j k then (k, v) ∷ m else (j, w) ∷ insert k v m

  -- delete(m, k)
  unfoldable pub erase : K → Map K V → Map K V
  erase k [] = []
  erase k ((j, w) ∷ m) = if e.beq j k then erase k m else (j, w) ∷ erase k m

  -- `_, ok := m[k]`
  unfoldable pub has : K → Map K V → Bool
  unfolding lookup
  has k m = elim (lookup k m) [ none ↦ false | some _ ↦ true ]

  pub lookup-insert :
      (k j : K) (v : V) (m : Map K V)
      → lookup j (insert k v m) ≡ (if e.beq k j then some v else lookup j m)
  unfolding lookup insert
  lookup-insert k j v [] = refl
  lookup-insert k j v ((i, w) ∷ m) =
      ground (arith, e.beq_iff k j, e.beq_iff i k, e.beq_iff i j, lookup-insert k j v m)

  pub lookup-erase :
      (k j : K) (m : Map K V) → lookup j (erase k m) ≡ (if e.beq k j then none else lookup j m)
  unfolding lookup erase
  lookup-erase k j [] = ground arith
  lookup-erase k j ((i, w) ∷ m) =
      ground (arith, e.beq_iff k j, e.beq_iff i k, e.beq_iff i j, lookup-erase k j m)

-- No key stands twice.
abbrev pub IsMap {ℓ κ} : {K : Type ℓ} {V : Type κ} ⦃e : Eq K⦄ → Map K V → Type κ
IsMap [] = Unit
IsMap ((k, v) ∷ m) = (lookup k m ≡ none) × IsMap m

module _ {ℓ κ} {K : Type ℓ} {V : Type κ} ⦃e : Eq K⦄ where
  -- The pairs of the first map are written into the second.
  unfoldable pub insert_all : Map K V → Map K V → Map K V
  insert_all [] acc = acc
  insert_all ((k, v) ∷ m) acc = insert_all m (insert k v acc)

  pub lookup-insert_all :
      (j : K) (m acc : Map K V)
      → IsMap m
      → lookup j (insert_all m acc) ≡ elim (lookup j m) [ none ↦ lookup j acc | some v ↦ some v ]
  unfolding insert_all lookup
  lookup-insert_all j [] acc h = refl
  lookup-insert_all j ((k, v) ∷ m) acc h = ground (
    arith,
    e.beq_iff k j,
    h.0,
    lookup-insert_all j m (insert k v acc) h.1,
    lookup-insert k j v acc,
  )

  pub insert-IsMap : (k : K) (v : V) (m : Map K V) → IsMap m → IsMap (insert k v m)
  unfolding insert lookup
  insert-IsMap k v [] h = (refl, tt)
  insert-IsMap k v ((j, w) ∷ m) h =
      ground (
        arith,
        e.beq_iff j k,
        e.beq_iff k j,
        h.0,
        h.1,
        lookup-insert k j v m,
        insert-IsMap k v m h.1,
      )

  pub erase-IsMap : (k : K) (m : Map K V) → IsMap m → IsMap (erase k m)
  unfolding erase lookup
  erase-IsMap k [] h = tt
  erase-IsMap k ((j, w) ∷ m) h =
      ground
        (arith, e.beq_iff j k, e.beq_iff k j, h.0, h.1, lookup-erase k j m, erase-IsMap k m h.1)

-- `m[k]` where the values are numbers: 0 on a missing key.
module _ {ℓ} {K : Type ℓ} ⦃e : Eq K⦄ where
  unfoldable pub value : K → Map K ℕ → ℕ
  unfolding lookup
  value k m = elim (lookup k m) [ none ↦ 0 | some v ↦ v ]
