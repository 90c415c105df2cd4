-- ===== src/Nemesis/Execution.antt =====
-- internal/nemesis/checker.go: what the checker looks for, and what happened at a key.
use mathlib.Core.List.{Perm}
use raft_kv.Common.{
  ◌⊎◌, false, ◌≤◌, ◌≡◌, true, Option, none, some, List, [], ◌∷◌, ◌++◌, if◌then◌else◌, All,
}
use raft_kv.Common.Bytes.{Bytes}
use raft_kv.Nemesis.Checker.{
  Kind, put, get, delete, other, Op, KvOutput, Operation, max_int64, init, step, is_dropped,
  operation, convert,
}

-- The model takes every operation in this order.
unfoldable pub IsLegal : KvOutput → List Operation → Type 0
IsLegal st [] = Unit {0}
IsLegal st (o ∷ os) =
    ((step st o.input o.output).0 ≡ true) × IsLegal (step st o.input o.output).1 os

-- No operation stands before one that had returned when it was called.
abbrev pub IsTimed : List Operation → Type 0
IsTimed [] = Unit {0}
IsTimed (o ∷ os) = All (λ (p : Operation). o.call ≤ p.return) os × IsTimed os

-- An order of the operations of one key that explains them.
pub record Linearization (h : List Operation) : Type 0 where
  pub order : List Operation
  pub all : Perm order h
  pub timed : IsTimed order
  pub legal : IsLegal init order

-- The operation of the history for one that is kept.
abbrev pub or_plain : Op → Option Operation → Operation
or_plain op none = operation op [] init op.return
or_plain op (some o) = o

unfoldable pub as_operation : Op → Operation
as_operation op = or_plain op (convert op)

unfoldable pub kept : List Op → List Op
kept [] = []
kept (op ∷ ops) = if is_dropped op then kept ops else op ∷ kept ops

-- A key as a register: what it holds after an operation took effect, and what the operation saw.
abbrev pub holds_after : Kind → Option Bytes → Op → Option Bytes
holds_after put r op = some op.value
holds_after get r op = r
holds_after delete r op = none
holds_after other r op = r

abbrev pub Observes : Kind → Option Bytes → Op → Type 0
Observes put r op = Unit {0}
Observes get r op = ((op.found ≡ true) × (r ≡ some op.output)) ⊎ ((op.found ≡ false) × (r ≡ none))
Observes delete r op = Unit {0}
Observes other r op = ⊥

-- The operations took effect in this order.
abbrev pub Explains : Option Bytes → List Op → Type 0
Explains r [] = Unit {0}
Explains r (op ∷ ops) = Observes op.kind r op × Explains (holds_after op.kind r op) ops

-- No operation stands before one that had returned when it began. One of unknown outcome has not
-- returned.
abbrev pub InTime : List Op → Type 0
InTime [] = Unit {0}
InTime (x ∷ xs) = All (λ (p : Op). (p.unknown ≡ true) ⊎ (x.invoke ≤ p.return)) xs × InTime xs

-- What happened at one key: the operations that took effect, in order; the puts of unknown outcome
-- that did not; and the reads and deletes of unknown outcome, none of which took effect.
pub record Execution (ops : List Op) : Type 0 where
  pub order : List Op
  pub phantom : List Op
  pub ignored : List Op
  pub all : Perm (order ++ (phantom ++ ignored)) ops
  pub explained : Explains none order
  pub timed : InTime order
  pub in_range : All (λ (op : Op). op.invoke ≤ max_int64) (order ++ phantom)
  pub certain : All (λ (op : Op). (op.unknown ≡ false) ⊎ (op.kind ≡ put)) order
  pub puts : All (λ (op : Op). (op.kind ≡ put) × (op.unknown ≡ true)) phantom
  pub lost : All (λ (op : Op). (op.unknown ≡ true) × ((op.kind ≡ get) ⊎ (op.kind ≡ delete))) ignored
