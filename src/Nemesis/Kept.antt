-- ===== src/Nemesis/Kept.antt =====
-- internal/nemesis/checker.go: the operations that the history leaves out.
use mathlib.Core.List.{Permᴰ}
use raft_kv.Common.{
  ◌⊎◌, ◌&&◌, append-nil, false, not, ◌≡◌, refl, sym, ap, ◌∙◌, true, List, [], ◌∷◌, ◌++◌, arith, All,
  Bool-cases, inl, inr,
}
use raft_kv.Nemesis.Checker.{Kind, put, get, delete, other, Op, is_put, is_dropped}
use raft_kv.Nemesis.Execution.{kept}

certain_kept :
    (k : Kind) (op : Op)
    → op.kind ≡ k
    → (op.unknown ≡ false) ⊎ (op.kind ≡ put)
    → is_dropped op ≡ false
unfolding is_dropped is_put
certain_kept put op e h = ap (λ t. op.unknown && not (is_put t)) e ∙ ground arith
certain_kept get op e (inl u) = rw u refl
certain_kept get op e (inr q) = absurd (other_kind (sym e ∙ q))
  where
    other_kind : get ≡ put → ⊥
    other_kind h = cc
certain_kept delete op e (inl u) = rw u refl
certain_kept delete op e (inr q) = absurd (other_kind (sym e ∙ q))
  where
    other_kind : delete ≡ put → ⊥
    other_kind h = cc
certain_kept other op e (inl u) = rw u refl
certain_kept other op e (inr q) = absurd (other_kind (sym e ∙ q))
  where
    other_kind : other ≡ put → ⊥
    other_kind h = cc

lost_dropped :
    (op : Op) → op.unknown ≡ true → (op.kind ≡ get) ⊎ (op.kind ≡ delete) → is_dropped op ≡ true
unfolding is_dropped is_put
lost_dropped op u (inl e) = ap (λ t. op.unknown && not (is_put t)) e ∙ ground (arith, u)
lost_dropped op u (inr e) = ap (λ t. op.unknown && not (is_put t)) e ∙ ground (arith, u)

kept-append : (xs ys : List Op) → kept (xs ++ ys) ≡ kept xs ++ kept ys
unfolding kept
kept-append [] ys = refl
kept-append (x ∷ xs) ys = ground (arith, kept-append xs ys)

kept_certain :
    (xs : List Op) → All (λ (op : Op). (op.unknown ≡ false) ⊎ (op.kind ≡ put)) xs → kept xs ≡ xs
unfolding kept
kept_certain [] h = refl
kept_certain (x ∷ xs) h =
    rw (certain_kept x.kind x refl h.0) (ap (λ t. x ∷ t) (kept_certain xs h.1))

kept_puts :
    (xs : List Op) → All (λ (op : Op). (op.kind ≡ put) × (op.unknown ≡ true)) xs → kept xs ≡ xs
unfolding kept
kept_puts [] h = refl
kept_puts (x ∷ xs) h =
    rw (certain_kept x.kind x refl (inr h.0.0)) (ap (λ t. x ∷ t) (kept_puts xs h.1))

kept_lost :
    (xs : List Op)
    → All (λ (op : Op). (op.unknown ≡ true) × ((op.kind ≡ get) ⊎ (op.kind ≡ delete))) xs
    → kept xs ≡ []
unfolding kept
kept_lost [] h = refl
kept_lost (x ∷ xs) h = rw (lost_dropped x h.0.0 h.0.1) (kept_lost xs h.1)

pub kept-execution :
    (order phantom ignored : List Op)
    → All (λ (op : Op). (op.unknown ≡ false) ⊎ (op.kind ≡ put)) order
    → All (λ (op : Op). (op.kind ≡ put) × (op.unknown ≡ true)) phantom
    → All (λ (op : Op). (op.unknown ≡ true) × ((op.kind ≡ get) ⊎ (op.kind ≡ delete))) ignored
    → kept (order ++ (phantom ++ ignored)) ≡ order ++ phantom
kept-execution order phantom ignored c p l =
    kept-append order (phantom ++ ignored)
    ∙ rw
        (
          kept_certain order c,
          kept-append phantom ignored,
          kept_puts phantom p,
          kept_lost ignored l,
          append-nil phantom,
        )
        refl

perm_refl : (l : List Op) → Permᴰ l l
perm_refl [] = Permᴰ.nil
perm_refl (x ∷ l) = Permᴰ.cons refl (perm_refl l)

kept-cons :
    (xs ys : List Op) (a b : Op)
    → a ≡ b
    → Permᴰ (kept xs) (kept ys)
    → Permᴰ (kept (a ∷ xs)) (kept (b ∷ ys))
unfolding kept
kept-cons xs ys a b e p = elim (Bool-cases (is_dropped a)) [
  | inl u ↦ (let v : is_dropped b ≡ true = ap is_dropped (sym e) ∙ u in rw (u, v) p)
  | inr u ↦ (let v : is_dropped b ≡ false = ap is_dropped (sym e) ∙ u in rw (u, v) (Permᴰ.cons e p))
]

kept-swap : (a b : Op) (l : List Op) → Permᴰ (kept (a ∷ b ∷ l)) (kept (b ∷ a ∷ l))
unfolding kept
kept-swap a b l = elim (Bool-cases (is_dropped a)) [
  | inl u ↦ elim (Bool-cases (is_dropped b)) [
    | inl v ↦ rw (u, v) (perm_refl (kept l))
    | inr v ↦ rw (u, v) (perm_refl (b ∷ kept l))
  ]
  | inr u ↦ elim (Bool-cases (is_dropped b)) [
    | inl v ↦ rw (u, v) (perm_refl (a ∷ kept l))
    | inr v ↦ rw (u, v) (Permᴰ.swap refl refl)
  ]
]

-- The checker keeps the same operations of a list in another order.
pub kept-perm : {xs ys : List Op} → Permᴰ xs ys → Permᴰ (kept xs) (kept ys)
unfolding kept
kept-perm Permᴰ.nil = Permᴰ.nil
kept-perm (Permᴰ.cons {a} {b} {l₁} {l₂} e p) = kept-cons l₁ l₂ a b e (kept-perm p)
kept-perm (Permᴰ.swap {a} {b} {a'} {b'} {l} e d) =
    Permᴰ.trans (kept-swap a b l)
      (kept-cons (a ∷ l) (b' ∷ l) b a' d (kept-cons l l a b' e (perm_refl (kept l))))
kept-perm (Permᴰ.trans p q) = Permᴰ.trans (kept-perm p) (kept-perm q)
