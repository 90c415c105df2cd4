-- ===== src/Nemesis/Soundness.antt =====
-- internal/nemesis/checker.go: the history of what happened at a key.
use mathlib.Core.List.{map, Perm}
use mathlib.Core.List.Perm
use mathlib.Core.Logic.{∥∥₁_map}
use raft_kv.Common.{
  ◌⊎◌, false, ◌≤◌, ◌≡◌, refl, ap, ◌∙◌, true, Option, none, some, List, [], ◌∷◌, ◌++◌, arith, All,
  Bool-cases, inl, inr,
}
use raft_kv.Common.Bytes.{Bytes, bytes_eq_refl}
use raft_kv.Nemesis.Checker.{
  Kind, put, get, delete, other, Op, KvOutput, Operation, max_int64, init, step, step_kind, convert,
  convert_kind, history,
}
use raft_kv.Nemesis.Execution.{
  IsLegal, IsTimed, Linearization, or_plain, as_operation, kept, holds_after, Observes, Explains,
  InTime, Execution,
}
use raft_kv.Nemesis.Timing.{
  history-kept, map-append, phantom-return, as_operation-call, as_operation-kind, IsTimed-append,
  IsLegal-puts, IsLegal-append,
}
use raft_kv.Nemesis.Kept.{kept-execution, kept-perm}

known-return :
    (k : Kind) (op : Op) → op.unknown ≡ false → (or_plain op (convert_kind k op)).return ≡ op.return
unfolding convert_kind
known-return put op u = rw u refl
known-return get op u = refl
known-return delete op u = refl
known-return other op u = refl

as_operation-return : (op : Op) → op.unknown ≡ false → (as_operation op).return ≡ op.return
unfolding as_operation convert
as_operation-return op u = known-return op.kind op u

in_time :
    (x p : Op)
    → x.invoke ≤ max_int64
    → (p.unknown ≡ false) ⊎ (p.kind ≡ put)
    → (p.unknown ≡ true) ⊎ (x.invoke ≤ p.return)
    → (as_operation x).call ≤ (as_operation p).return
in_time x p r c t = rw (as_operation-call x) (elim (Bool-cases p.unknown) [
  | inl u ↦ rw (phantom-return p (is_a_put u c) u) r
  | inr u ↦ rw (as_operation-return p u) (after u t)
])
  where
    is_a_put : p.unknown ≡ true → (p.unknown ≡ false) ⊎ (p.kind ≡ put) → p.kind ≡ put
    is_a_put u (inl v) = absurd (ground (arith, u, v))
    is_a_put u (inr k) = k

    after : p.unknown ≡ false → (p.unknown ≡ true) ⊎ (x.invoke ≤ p.return) → x.invoke ≤ p.return
    after u (inl v) = absurd (ground (arith, u, v))
    after u (inr l) = l

All-in_time :
    (x : Op) (xs : List Op)
    → x.invoke ≤ max_int64
    → All (λ (op : Op). (op.unknown ≡ false) ⊎ (op.kind ≡ put)) xs
    → All (λ (p : Op). (p.unknown ≡ true) ⊎ (x.invoke ≤ p.return)) xs
    → All (λ (p : Operation). (as_operation x).call ≤ p.return) (map as_operation xs)
All-in_time x [] r c t = tt
All-in_time x (p ∷ ps) r c t = (in_time x p r c.0 t.0, All-in_time x ps r c.1 t.1)

InTime-IsTimed :
    (xs ps : List Op)
    → All (λ (op : Op). op.invoke ≤ max_int64) (xs ++ ps)
    → All (λ (op : Op). (op.unknown ≡ false) ⊎ (op.kind ≡ put)) xs
    → InTime xs
    → IsTimed (map as_operation xs)
InTime-IsTimed [] ps r c t = tt
InTime-IsTimed (x ∷ xs) ps r c t = (All-in_time x xs r.0 c.1 t.0, InTime-IsTimed xs ps r.1 c.1 t.1)

-- The register as the state of the checker's model.
abbrev state_of : Option Bytes → KvOutput
state_of none = init
state_of (some v) = record { found = true; value = v }

step_observed :
    (k : Kind) (op : Op) (r : Option Bytes)
    → Observes k r op
    → step_kind k
        (state_of r)
        (or_plain op (convert_kind k op)).input
        (or_plain op (convert_kind k op)).output
      ≡ (true, state_of (holds_after k r op))
unfolding step_kind convert_kind
step_observed put op r h = refl
step_observed delete op r h = refl
step_observed other op r h = absurd h
step_observed get op none (inl (f, e)) = absurd (ground (arith, e))
step_observed get op (some v) (inl (f, e)) =
    let same : v ≡ op.output = ground (arith, e) in rw (f, ← same, bytes_eq_refl v) refl
step_observed get op none (inr (f, e)) = rw f refl
step_observed get op (some v) (inr (f, e)) = absurd (ground (arith, e))

step_operation :
    (op : Op) (r : Option Bytes)
    → Observes op.kind r op
    → step (state_of r) (as_operation op).input (as_operation op).output
      ≡ (true, state_of (holds_after op.kind r op))
unfolding step as_operation convert
step_operation op r h =
    ap (λ k. step_kind k (state_of r) (as_operation op).input (as_operation op).output)
      (as_operation-kind op)
    ∙ step_observed op.kind op r h

Explains-IsLegal :
    (xs : List Op) (r : Option Bytes) → Explains r xs → IsLegal (state_of r) (map as_operation xs)
unfolding IsLegal
Explains-IsLegal [] r h = tt
Explains-IsLegal (x ∷ xs) r h =
    let s = step_operation x r h.0 in rw s (refl, Explains-IsLegal xs (holds_after x.kind r x) h.1)

-- The history that the checker builds from recorded operations of one key has an order that
-- explains it, if what happened at the key is that the acknowledged operations and some puts of
-- unknown outcome took effect in an order that fits their times, each read seeing what the key
-- held, and no read or delete of unknown outcome took effect.
pub history-linearizes :
    (ops : List Op) (h : List Operation) → history ops ≡ some h → Execution ops → Linearization h
history-linearizes ops h e x =
    let split = map-append x.order x.phantom in
    let same = kept-execution x.order x.phantom x.ignored x.certain x.puts x.lost in
    let perm : Perm (kept (x.order ++ (x.phantom ++ x.ignored))) (kept ops) =
      ∥∥₁_map x.all (λ q. kept-perm q) in
    record {
      order = map as_operation (x.order ++ x.phantom);
      all = rw (history-kept ops h e) (Perm.map as_operation (rw same at perm));
      timed = rw split (
          IsTimed-append x.order x.phantom
            (InTime-IsTimed x.order x.phantom x.in_range x.certain x.timed) x.in_range x.puts);
      legal = rw split (
          IsLegal-append (map as_operation x.order) (map as_operation x.phantom) init
            (Explains-IsLegal x.order none x.explained) (λ end. IsLegal-puts x.phantom end x.puts));
    }
