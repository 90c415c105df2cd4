-- ===== src/Nemesis/Deletes.antt =====
-- internal/nemesis/checker.go: a delete of unknown outcome that took effect.
use mathlib.Core.List.{Permᴰ}
use mathlib.Core.Logic.{∥∥₁_elim}
use mathlib.Core.HLevel.{⊥_prop}
use raft_kv.Common.{
  ℕ, ◌+◌, ◌≤◌, ◌<◌, ◌≡◌, ◌≢◌, refl, ap, ◌∙◌, Bool, true, false, not, ◌&&◌, some, List, [], ◌∷◌,
  arith, ltb, leb, if◌then◌else◌, All, Bool-cases, inl, inr,
}
use raft_kv.Nemesis.Checker.{
  Kind, put, get, delete, other, Op, KvInput, KvOutput, Operation, max_int64, init, step, step_kind,
  is_put, is_dropped, operation, convert, convert_kind, history,
}
use raft_kv.Nemesis.Execution.{IsLegal, IsTimed, Linearization}

abbrev weight : (Operation → Bool) → Operation → ℕ
weight f o = if f o then 1 else 0

abbrev count : (Operation → Bool) → List Operation → ℕ
count f [] = 0
count f (o ∷ os) = weight f o + count f os

count-perm : (f : Operation → Bool) {xs ys : List Operation} → Permᴰ xs ys → count f xs ≡ count f ys
count-perm f Permᴰ.nil = refl
count-perm f (Permᴰ.cons e p) = omega (arith, count-perm f p, ap (weight f) e)
count-perm f (Permᴰ.swap e d) = omega (arith, ap (weight f) e, ap (weight f) d)
count-perm f (Permᴰ.trans p q) = count-perm f p ∙ count-perm f q

unfoldable is_get : Kind → Bool
is_get put = false
is_get get = true
is_get delete = false
is_get other = false

-- A put that has returned at `t`, and a get from `t` on that finds nothing.
abbrev early_put : ℕ → Operation → Bool
early_put t o = is_put o.input.kind && ltb o.return t

abbrev late_absent : ℕ → Operation → Bool
late_absent t o = is_get o.input.kind && (not o.output.found && leb t o.call)

abbrev neither : ℕ → Operation → Bool
neither t o = not (early_put t o) && not (late_absent t o)

good_kind :
    (k : Kind) (t : ℕ) (st : KvOutput) (input : KvInput) (output : KvOutput) (return call : ℕ)
    → ((is_put k && ltb return t) ≡ true → (step_kind k st input output).1.found ≡ true)
      × ((is_get k && (not output.found && leb t call)) ≡ true
          → st.found ≡ true
          → (step_kind k st input output).0 ≡ false)
unfolding step_kind is_put is_get
good_kind put t st input output r c = ((λ _. refl), λ e. absurd (ground (arith, e)))
good_kind get t st input output r c =
    ((λ e. absurd (ground (arith, e))), λ e f. ground (arith, e, f))
good_kind delete t st input output r c =
    ((λ e. absurd (ground (arith, e))), λ e. absurd (ground (arith, e)))
good_kind other t st input output r c =
    ((λ e. absurd (ground (arith, e))), λ e. absurd (ground (arith, e)))

apart : (t : ℕ) (k : Kind) (b c : Bool) → (is_put k && b) ≡ true → (is_get k && c) ≡ false
unfolding is_put is_get
apart t put b c e = refl
apart t get b c e = absurd (ground (arith, e))
apart t delete b c e = absurd (ground (arith, e))
apart t other b c e = absurd (ground (arith, e))

-- Once the register is set, such a get does not follow.
no_absent :
    (t : ℕ) (os : List Operation) (st : KvOutput)
    → st.found ≡ true
    → IsLegal st os
    → count (neither t) os ≡ 0
    → count (late_absent t) os ≡ 0
unfolding IsLegal step
no_absent t [] st f l n = refl
no_absent t (o ∷ os) st f l n = elim (Bool-cases (early_put t o)) [
  | inl b ↦
      let found = (good_kind o.input.kind t st o.input o.output o.return o.call).0 b in
      let rest = no_absent t os (step st o.input o.output).1 found l.1 (ground (arith, n)) in
      ground
        (arith, rest, apart t o.input.kind (ltb o.return t) (not o.output.found && leb t o.call) b)
  | inr b ↦
      let bad =
        (good_kind o.input.kind t st o.input o.output o.return o.call).1 (ground (arith, n, b)) f in
      absurd (ground (arith, bad, l.0))
]

no_early :
    (t : ℕ) (o : Operation) (os : List Operation)
    → t ≤ o.call
    → All (λ (p : Operation). o.call ≤ p.return) os
    → count (early_put t) os ≡ 0
no_early t o [] c h = refl
no_early t o (p ∷ os) c h = ground (arith, no_early t o os c h.1, h.0)

no_order :
    (t : ℕ) (os : List Operation)
    → IsTimed os
    → IsLegal init os
    → count (neither t) os ≡ 0
    → count (early_put t) os ≡ 1
    → count (late_absent t) os ≢ 1
unfolding IsLegal step
no_order t [] a l n p g = absurd (omega (arith, g))
no_order t (o ∷ os) a l n p g = elim (Bool-cases (early_put t o)) [
  | inl b ↦
      let found = (good_kind o.input.kind t init o.input o.output o.return o.call).0 b in
      let rest = no_absent t os (step init o.input o.output).1 found l.1 (ground (arith, n)) in
      ground (
        arith,
        rest,
        g,
        apart t o.input.kind (ltb o.return t) (not o.output.found && leb t o.call) b,
      )
  | inr b ↦
      let late : late_absent t o ≡ true = ground (arith, n, b) in
      let rest = no_early t o os (ground (arith, late)) a.0 in ground (arith, rest, p, b)
]

-- At one key a put returns, then a get that begins later finds nothing, and a delete of unknown
-- outcome was called before the get returned.
pub record Scene (p d g : Op) : Type 0 where
  pub put_kind : p.kind ≡ put
  pub put_known : p.unknown ≡ false
  pub delete_kind : d.kind ≡ delete
  pub delete_unknown : d.unknown ≡ true
  pub get_kind : g.kind ≡ get
  pub get_known : g.unknown ≡ false
  pub absent : g.found ≡ false
  pub put_window : p.invoke ≤ p.return
  pub put_first : p.return < g.invoke
  pub get_window : g.invoke ≤ g.return
  pub delete_call : d.invoke ≤ g.return
  pub in_range : g.return ≤ max_int64

-- The delete as an operation that may take effect at any time.
abbrev pub open_delete : Op → Operation
open_delete d = operation d [] init max_int64

put_eq :
    (k : Kind) (op : Op)
    → k ≡ put
    → op.unknown ≡ false
    → convert_kind k op ≡ some (operation op op.value init op.return)
unfolding convert_kind
put_eq put op e u = rw u refl
put_eq get op e u = absurd (ground (arith, e))
put_eq delete op e u = absurd (ground (arith, e))
put_eq other op e u = absurd (ground (arith, e))

get_eq :
    (k : Kind) (op : Op)
    → k ≡ get
    → convert_kind k op
      ≡ some (operation op [] (record { found = op.found; value = op.output }) op.return)
unfolding convert_kind
get_eq put op e = absurd (ground (arith, e))
get_eq get op e = refl
get_eq delete op e = absurd (ground (arith, e))
get_eq other op e = absurd (ground (arith, e))

dropped_eq : (k : Kind) (b : Bool) → k ≡ delete → b ≡ true → (b && not (is_put k)) ≡ true
unfolding is_put
dropped_eq put b e u = absurd (ground (arith, e))
dropped_eq get b e u = absurd (ground (arith, e))
dropped_eq delete b e u = ground (arith, u)
dropped_eq other b e u = absurd (ground (arith, e))

abbrev pub as_put : Op → Operation
as_put p = operation p p.value init p.return

abbrev pub as_get : Op → Operation
as_get g = operation g [] (record { found = g.found; value = g.output }) g.return

history-Scene :
    (p d g : Op) → Scene p d g → history (p ∷ d ∷ g ∷ []) ≡ some (as_put p ∷ as_get g ∷ [])
unfolding history is_dropped convert
history-Scene p d g s =
    let gone : (d.unknown && not (is_put d.kind)) ≡ true =
      dropped_eq d.kind d.unknown s.delete_kind s.delete_unknown in
    ground (
      arith,
      s.put_known,
      s.get_known,
      gone,
      put_eq p.kind p s.put_kind s.put_known,
      get_eq g.kind g s.get_kind,
    )

Scene-IsTimed : (p d g : Op) → Scene p d g → IsTimed (as_put p ∷ open_delete d ∷ as_get g ∷ [])
Scene-IsTimed p d g s =
    omega (arith, s.put_window, s.put_first, s.get_window, s.delete_call, s.in_range)

Scene-IsLegal : (p d g : Op) → Scene p d g → IsLegal init (as_put p ∷ open_delete d ∷ as_get g ∷ [])
unfolding IsLegal step step_kind
Scene-IsLegal p d g s =
    simp (s.put_kind, s.delete_kind, s.get_kind, s.absent) (refl, (refl, (refl, tt)))

-- The two operations of the history, and no other.
Scene-counts :
    (p d g : Op)
    → Scene p d g
    → (count (neither g.invoke) (as_put p ∷ as_get g ∷ []) ≡ 0)
      × (count (early_put g.invoke) (as_put p ∷ as_get g ∷ []) ≡ 1)
      × (count (late_absent g.invoke) (as_put p ∷ as_get g ∷ []) ≡ 1)
unfolding is_put is_get
Scene-counts p d g s =
    let early : ltb p.return g.invoke ≡ true = ground (arith, s.put_first) in
    let late : leb g.invoke g.invoke ≡ true = ground arith in
    simp (s.put_kind, s.get_kind, s.absent, early, late) (refl, refl, refl)

-- A put returns, a get that begins after it finds nothing, and a delete of unknown outcome was
-- called before the get returned. With the delete between them the three operations are explained
-- by the model, but the history that the checker builds leaves the delete out, and no order
-- explains that.
pub lost_delete :
    (p d g : Op)
    → Scene p d g
    → (IsTimed (as_put p ∷ open_delete d ∷ as_get g ∷ [])
        × IsLegal init (as_put p ∷ open_delete d ∷ as_get g ∷ []))
      × (history (p ∷ d ∷ g ∷ []) ≡ some (as_put p ∷ as_get g ∷ []))
      × (¬ Linearization (as_put p ∷ as_get g ∷ []))
lost_delete p d g s = (
  (Scene-IsTimed p d g s, Scene-IsLegal p d g s),
  history-Scene p d g s,
  λ x. ∥∥₁_elim x.all ⊥_prop (λ (q : Permᴰ x.order (as_put p ∷ as_get g ∷ [])).
      no_order g.invoke x.order x.timed x.legal
        (count-perm (neither g.invoke) q ∙ (Scene-counts p d g s).0)
        (count-perm (early_put g.invoke) q ∙ (Scene-counts p d g s).1)
        (count-perm (late_absent g.invoke) q ∙ (Scene-counts p d g s).2)),
)
