-- ===== src/Common/Sets.antt =====
-- Lists of numbers without repetitions, and two of them that must meet.
use raft_kv.Common.Compare.{◌==◌, if◌then◌else◌, Bool-cases}
use raft_kv.Common.Lists.{length}
use Prim.Native.Nat.{ℕ, ◌+◌, ◌≤◌, ◌<◌}
use mathlib.Core.Path.{◌≡◌, refl, ◌∙◌}
use mathlib.Core.Logic.{◌≢◌, inl, inr}
use mathlib.Core.Bool.{Bool, true, false}
use mathlib.Core.List.{List, [], ◌∷◌}
use native.Mathlib.Omega.{arith}

unfoldable pub contains : ℕ → List ℕ → Bool
contains x [] = false
contains x (y ∷ ys) = if y == x then true else contains x ys

remove : ℕ → List ℕ → List ℕ
remove x [] = []
remove x (y ∷ ys) = if y == x then ys else y ∷ remove x ys

abbrev pub IsUnique : List ℕ → Type 0
IsUnique [] = Unit {0}
IsUnique (x ∷ xs) = (contains x xs ≡ false) × IsUnique xs

abbrev pub Subset : List ℕ → List ℕ → Type 0
Subset a u = (x : ℕ) → contains x a ≡ true → contains x u ≡ true

contains-remove : (x y : ℕ) (u : List ℕ) → y ≢ x → contains y (remove x u) ≡ contains y u
unfolding contains remove
contains-remove x y [] h = refl
contains-remove x y (z ∷ u) h = ground (arith, h, contains-remove x y u h)

length-remove : (x : ℕ) (u : List ℕ) → contains x u ≡ true → length (remove x u) + 1 ≤ length u
unfolding contains remove
length-remove x [] h = ground (arith, h)
length-remove x (z ∷ u) h = ground (arith, h, length-remove x u)

contains-ne : (x y : ℕ) (a : List ℕ) → contains x a ≡ false → contains y a ≡ true → y ≢ x
contains-ne x y a h k = ground (arith, h, k)

Subset-remove : (x : ℕ) (a u : List ℕ) → contains x a ≡ false → Subset a u → Subset a (remove x u)
Subset-remove x a u h s = λ y k. contains-remove x y u (contains-ne x y a h k) ∙ s y k

head_in : (x : ℕ) (a : List ℕ) → contains x (x ∷ a) ≡ true
unfolding contains
head_in x a = ground arith

later_in : (x y : ℕ) (a : List ℕ) → contains x a ≡ true → contains x (y ∷ a) ≡ true
unfolding contains
later_in x y a h = ground (arith, h)

pub length-Subset : (a u : List ℕ) → IsUnique a → Subset a u → length a ≤ length u
length-Subset [] u h s = omega arith
length-Subset (x ∷ a) u h s =
    let rest =
      length-Subset a (remove x u) h.1 (Subset-remove x a u h.0 (λ y k. s y (later_in y x a k))) in
    omega (arith, rest, length-remove x u (s x (head_in x a)))

-- Two sets that together are larger than a list that contains them have an element in common.
pub common_element :
    (a b u : List ℕ)
    → IsUnique a
    → IsUnique b
    → Subset a u
    → Subset b u
    → length u < length a + length b
    → (x : ℕ) × (contains x a ≡ true) × (contains x b ≡ true)
common_element [] b u ha hb sa sb l = absurd (omega (arith, length-Subset b u hb sb))
common_element (x ∷ a) b u ha hb sa sb l = elim (Bool-cases (contains x b)) [
  | inl k ↦ (x, head_in x a, k)
  | inr k ↦
      let sa' : Subset a (remove x u) = Subset-remove x a u ha.0 (λ y h. sa y (later_in y x a h)) in
      let sb' : Subset b (remove x u) = Subset-remove x b u k sb in
      let less = length-remove x u (sa x (head_in x a)) in
      let (y, in_a, in_b) = common_element a b (remove x u) ha.1 hb sa' sb' (omega (arith, less)) in
      (y, later_in y x a in_a, in_b)
]
