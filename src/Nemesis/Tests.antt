-- ===== src/Nemesis/Tests.antt =====
-- internal/nemesis: recorded histories of one key.
use mathlib.Core.List.{map}
use mathlib.Core.List.Perm
use raft_kv.Common.{ℕ, ◌≡◌, refl, Bool, true, false, some, List, [], ◌∷◌, arith, inl, inr}
use raft_kv.Nemesis.Checker.{
  Kind, put, get, delete, Op, Operation, init, is_dropped, is_put, convert, convert_kind, history,
}
use raft_kv.Nemesis.Execution.{IsLegal, IsTimed, Linearization, Execution, as_operation}
use raft_kv.Nemesis.Soundness.{history-linearizes}
use raft_kv.Nemesis.Deletes.{Scene, as_put, as_get, open_delete, lost_delete}

abbrev op : Kind → Bool → Bool → ℕ → ℕ → Op
op kind unknown found from to = record {
  client = 0;
  kind = kind;
  key = 107 ∷ [];
  value = 118 ∷ [];
  found = found;
  output = 118 ∷ [];
  unknown = unknown;
  invoke = from;
  return = to;
}

-- A put, a put that timed out and never took effect, a get that timed out, and a get that finds the
-- first.
abbrev recorded : List Op
recorded =
    op put false false 1 2
    ∷ op put true false 3 4
    ∷ op get true false 3 6
    ∷ op get false true 5 6
    ∷ []

recorded-Execution : Execution recorded
recorded-Execution = record {
  order = op put false false 1 2 ∷ op get false true 5 6 ∷ [];
  phantom = op put true false 3 4 ∷ [];
  ignored = op get true false 3 6 ∷ [];
  all =
      Perm.cons (op put false false 1 2)
        (Perm.trans (Perm.swap _ _ _) (Perm.cons (op put true false 3 4) (Perm.swap _ _ _)));
  explained = (tt, (inl (refl, refl), tt));
  timed = ((inr (omega arith), tt), (tt, tt));
  in_range = (omega arith, (omega arith, (omega arith, tt)));
  certain = (inl refl, (inl refl, tt));
  puts = ((refl, refl), tt);
  lost = ((refl, inl refl), tt);
}

abbrev given : List Operation
given =
    map as_operation (op put false false 1 2 ∷ op put true false 3 4 ∷ op get false true 5 6 ∷ [])

history-linearizes_example : Linearization given
unfolding history is_dropped as_operation convert convert_kind is_put
history-linearizes_example = history-linearizes recorded given refl recorded-Execution

scene : Scene (op put false false 1 2) (op delete true false 3 4) (op get false false 5 6)
scene = record {
  put_kind = refl;
  put_known = refl;
  delete_kind = refl;
  delete_unknown = refl;
  get_kind = refl;
  get_known = refl;
  absent = refl;
  put_window = omega arith;
  put_first = omega arith;
  get_window = omega arith;
  delete_call = omega arith;
  in_range = omega arith;
}

lost_delete_example :
    (IsTimed (
        as_put (op put false false 1 2)
        ∷ open_delete (op delete true false 3 4)
        ∷ as_get (op get false false 5 6)
        ∷ [])
      × IsLegal init (
          as_put (op put false false 1 2)
          ∷ open_delete (op delete true false 3 4)
          ∷ as_get (op get false false 5 6)
          ∷ []))
    × (history (op put false false 1 2 ∷ op delete true false 3 4 ∷ op get false false 5 6 ∷ [])
        ≡ some (as_put (op put false false 1 2) ∷ as_get (op get false false 5 6) ∷ []))
    × (¬ Linearization (as_put (op put false false 1 2) ∷ as_get (op get false false 5 6) ∷ []))
lost_delete_example =
    lost_delete (op put false false 1 2) (op delete true false 3 4) (op get false false 5 6) scene
