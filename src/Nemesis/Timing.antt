-- ===== src/Nemesis/Timing.antt =====
-- internal/nemesis/checker.go: the times and the legality of the operations of a history.
use mathlib.Core.List.{map}
use raft_kv.Common.{
  ◌≤◌, ◌≡◌, refl, sym, ap, ◌∙◌, true, Option, none, some, List, [], ◌∷◌, ◌++◌, arith, All,
  All-append, Bool-cases, inl, inr,
}
use raft_kv.Nemesis.Checker.{
  Kind, put, get, delete, other, Op, KvInput, KvOutput, Operation, max_int64, step, step_kind,
  is_dropped, convert, convert_kind, push, history,
}
use raft_kv.Nemesis.Execution.{IsLegal, IsTimed, or_plain, as_operation, kept}

push-some :
    (o : Option Operation) (h : Option (List Operation)) (r : List Operation)
    → push o h ≡ some r
    → (x : Operation) × (xs : List Operation) × (o ≡ some x) × (h ≡ some xs) × (r ≡ x ∷ xs)
push-some none h r e = absurd (ground (arith, e))
push-some (some o) none r e = absurd (ground (arith, e))
push-some (some o) (some h) r e = (o, h, refl, refl, ground (arith, e))

push-kept :
    (op : Op) (ops : List Op) (h : List Operation)
    → push (convert op) (history ops) ≡ some h
    → ((xs : List Operation) → history ops ≡ some xs → xs ≡ map as_operation (kept ops))
    → h ≡ as_operation op ∷ map as_operation (kept ops)
unfolding as_operation
push-kept op ops h e rest =
    let (x, xs, c, r, p) = push-some (convert op) (history ops) h e in
    let first : or_plain op (convert op) ≡ x = ap (or_plain op) c in
    p ∙ ap (λ t. x ∷ t) (rest xs r) ∙ ap (λ t. t ∷ map as_operation (kept ops)) (sym first)

pub history-kept :
    (ops : List Op) (h : List Operation) → history ops ≡ some h → h ≡ map as_operation (kept ops)
unfolding history kept
history-kept [] h e = ground (arith, e)
history-kept (op ∷ ops) h e = elim (Bool-cases (is_dropped op)) [
  | inl b ↦ rw b (history-kept ops h (rw b at e))
  | inr b ↦ rw b (push-kept op ops h (rw b at e) (history-kept ops))
]

pub map-append :
    (xs ys : List Op) → map as_operation (xs ++ ys) ≡ map as_operation xs ++ map as_operation ys
map-append [] ys = refl
map-append (x ∷ xs) ys = ap (λ t. as_operation x ∷ t) (map-append xs ys)

return_lem :
    (k : Kind) (op : Op)
    → k ≡ put
    → op.unknown ≡ true
    → (or_plain op (convert_kind k op)).return ≡ max_int64
unfolding convert_kind
return_lem put op e u = rw u refl
return_lem get op e u = absurd (ground (arith, e))
return_lem delete op e u = absurd (ground (arith, e))
return_lem other op e u = absurd (ground (arith, e))

-- A put of unknown outcome has no end.
pub phantom-return :
    (op : Op) → op.kind ≡ put → op.unknown ≡ true → (as_operation op).return ≡ max_int64
unfolding as_operation convert
phantom-return op k u = return_lem op.kind op k u

shape_lem :
    (k : Kind) (op : Op)
    → ((or_plain op (convert_kind k op)).call ≡ op.invoke)
      × ((or_plain op (convert_kind k op)).input.kind ≡ op.kind)
unfolding convert_kind
shape_lem put op = (refl, refl)
shape_lem get op = (refl, refl)
shape_lem delete op = (refl, refl)
shape_lem other op = (refl, refl)

pub as_operation-call : (op : Op) → (as_operation op).call ≡ op.invoke
unfolding as_operation convert
as_operation-call op = (shape_lem op.kind op).0

pub as_operation-kind : (op : Op) → (as_operation op).input.kind ≡ op.kind
unfolding as_operation convert
as_operation-kind op = (shape_lem op.kind op).1

-- Every operation may stand before the puts that never returned.
before_phantoms :
    (o : Operation) (ps : List Op)
    → o.call ≤ max_int64
    → All (λ (op : Op). (op.kind ≡ put) × (op.unknown ≡ true)) ps
    → All (λ (p : Operation). o.call ≤ p.return) (map as_operation ps)
before_phantoms o [] l h = tt
before_phantoms o (p ∷ ps) l h = (rw (phantom-return p h.0.0 h.0.1) l, before_phantoms o ps l h.1)

pub IsTimed-append :
    (xs ps : List Op)
    → IsTimed (map as_operation xs)
    → All (λ (op : Op). op.invoke ≤ max_int64) (xs ++ ps)
    → All (λ (op : Op). (op.kind ≡ put) × (op.unknown ≡ true)) ps
    → IsTimed (map as_operation xs ++ map as_operation ps)
IsTimed-append [] [] t r h = tt
IsTimed-append [] (p ∷ ps) t r h = (
  before_phantoms (as_operation p) ps (rw (as_operation-call p) r.0) h.1,
  IsTimed-append [] ps tt r.1 h.1,
)
IsTimed-append (x ∷ xs) ps t r h = (
  All-append (λ (p : Operation). (as_operation x).call ≤ p.return) (map as_operation xs)
      (map as_operation ps) t.0
      (before_phantoms (as_operation x) ps (rw (as_operation-call x) r.0) h),
  IsTimed-append xs ps t.1 r.1 h,
)

step-put :
    (st : KvOutput) (input : KvInput) (output : KvOutput)
    → input.kind ≡ put
    → (step st input output).0 ≡ true
unfolding step step_kind
step-put st input output e = ap (λ k. (step_kind k st input output).0) e

pub IsLegal-puts :
    (ps : List Op) (st : KvOutput)
    → All (λ (op : Op). (op.kind ≡ put) × (op.unknown ≡ true)) ps
    → IsLegal st (map as_operation ps)
unfolding IsLegal
IsLegal-puts [] st h = tt
IsLegal-puts (p ∷ ps) st h =
    let o : Operation = as_operation p in
    (
      step-put st o.input o.output (as_operation-kind p ∙ h.0.0),
      IsLegal-puts ps (step st o.input o.output).1 h.1,
    )

pub IsLegal-append :
    (os ps : List Operation) (st : KvOutput)
    → IsLegal st os
    → ((end : KvOutput) → IsLegal end ps)
    → IsLegal st (os ++ ps)
unfolding IsLegal
IsLegal-append [] ps st h k = k st
IsLegal-append (o ∷ os) ps st h k = (h.0, IsLegal-append os ps (step st o.input o.output).1 h.1 k)
