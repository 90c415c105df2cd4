-- ===== src/Raft/Node/Apply.antt =====
-- internal/raft/node.go, `applyEntry`: the state machine, the cursor and the proposals that wait.
use raft_kv.Common.{
  ℕ, Bool, suc, ◌<◌, ◌≡◌, refl, sym, ap, ◌∙◌, true, false, Option, none, some, List, [], ◌∷◌, ◌++◌,
  arith, ◌==◌, if◌then◌else◌, append_assoc, append-nil, ==_iff,
}
use raft_kv.Common.Assoc.{Map, nat_eq, lookup, lookup-erase}
use raft_kv.Raft.Entry.{Entry, entry_normal}
use raft_kv.Raft.Order.Shape.{Follows}
use raft_kv.Raft.Node.State.{
  StateMachine, Node, Waiter, AppliedWaiter, Answer, replied, failed, applied, lost, read_ready,
  read_lost,
}
use raft_kv.Raft.Node.Loop.{
  fire_applied_waiters, ready, remaining, answer_waiter, apply_command, apply_entry, apply_entries,
}

-- The commands that reach the state machine, in order.
unfoldable pub run_commands : {S : Type 0} → StateMachine S → List Entry → S → S
run_commands sm [] m = m
run_commands sm (e ∷ es) m =
    run_commands sm es (if e.type == entry_normal then sm.apply e.index e.command m else m)

unfoldable pub last_index : ℕ → List Entry → ℕ
last_index n [] = n
last_index n (e ∷ es) = last_index e.index es

-- The answers on `done` channels.
unfoldable pub done_answers : List Answer → List Answer
done_answers [] = []
done_answers (replied c r ∷ xs) = done_answers xs
done_answers (failed c e ∷ xs) = done_answers xs
done_answers (applied c ∷ xs) = applied c ∷ done_answers xs
done_answers (lost c ∷ xs) = lost c ∷ done_answers xs
done_answers (read_ready c i ∷ xs) = done_answers xs
done_answers (read_lost c ∷ xs) = done_answers xs

-- What a waiter hears of the entry that is committed at its index.
abbrev pub verdict : Waiter → Entry → Answer
verdict w e = if w.term == e.term then applied w.done else lost w.done

unfoldable pub verdicts : List Entry → Map ℕ Waiter → List Answer
verdicts [] ws = []
verdicts (e ∷ es) ws = elim (lookup e.index ws) [
  | none ↦ verdicts es ws
  | some w ↦ verdict w e ∷ verdicts es ws
]

unfoldable pub has_index : ℕ → List Entry → Bool
has_index i [] = false
has_index i (e ∷ es) = if e.index == i then true else has_index i es

pub done_answers-append :
    (xs ys : List Answer) → done_answers (xs ++ ys) ≡ done_answers xs ++ done_answers ys
unfolding done_answers
done_answers-append [] ys = refl
done_answers-append (replied c r ∷ xs) ys = done_answers-append xs ys
done_answers-append (failed c e ∷ xs) ys = done_answers-append xs ys
done_answers-append (applied c ∷ xs) ys = ap (λ t. applied c ∷ t) (done_answers-append xs ys)
done_answers-append (lost c ∷ xs) ys = ap (λ t. lost c ∷ t) (done_answers-append xs ys)
done_answers-append (read_ready c i ∷ xs) ys = done_answers-append xs ys
done_answers-append (read_lost c ∷ xs) ys = done_answers-append xs ys

pub done_answers-ready : (n : ℕ) (ws : List AppliedWaiter) → done_answers (ready n ws) ≡ []
unfolding done_answers ready
done_answers-ready n [] = refl
done_answers-ready n (w ∷ ws) = ground (arith, done_answers-ready n ws)

verdicts-cons :
    (e : Entry) (es : List Entry) (ws : Map ℕ Waiter)
    → verdicts (e ∷ []) ws ++ verdicts es ws ≡ verdicts (e ∷ es) ws
unfolding verdicts
verdicts-cons e es ws = ground arith

-- Two tables that agree on the indices from `p` on.
verdicts-same :
    (p : ℕ) (es : List Entry) (ws us : Map ℕ Waiter)
    → Follows p es
    → ((i : ℕ) → p < i → lookup i ws ≡ lookup i us)
    → verdicts es ws ≡ verdicts es us
unfolding verdicts
verdicts-same p [] ws us f h = refl
verdicts-same p (e ∷ es) ws us f h =
    let same = h e.index (omega (arith, f.0)) in
    let rest = verdicts-same (suc p) es ws us f.1 (λ (i : ℕ) (l : suc p < i). h i (omega arith)) in
    ground (arith, same, rest)

module _ {S : Type 0} where
  answer_waiter-answers :
      (e : Entry) (o : Option Waiter) (n : Node S)
      → done_answers (answer_waiter e o n).answers
        ≡ done_answers n.answers ++ elim o [ none ↦ [] | some w ↦ verdict w e ∷ [] ]
  unfolding answer_waiter done_answers
  answer_waiter-answers e none n = sym (append-nil (done_answers n.answers))
  answer_waiter-answers e (some w) n =
      done_answers-append n.answers (verdict w e ∷ []) ∙ ground (arith, n)

  pub fire-answers :
      (n : Node S) → done_answers (fire_applied_waiters n).answers ≡ done_answers n.answers
  unfolding fire_applied_waiters
  fire-answers n =
      done_answers-append n.answers (ready n.applied n.applied_waiters)
      ∙ rw (done_answers-ready n.applied n.applied_waiters) (append-nil (done_answers n.answers))

module _ {S : Type 0} (sm : StateMachine S) where
  pub apply_entry-fields :
      (e : Entry) (n : Node S)
      → ((apply_entry sm e n).machine ≡ run_commands sm (e ∷ []) n.machine)
        × ((apply_entry sm e n).applied ≡ e.index)
        × ((apply_entry sm e n).core ≡ n.core)
        × ((apply_entry sm e n).read_waiters ≡ n.read_waiters)
        × ((apply_entry sm e n).applied_waiters ≡ remaining e.index n.applied_waiters)
  unfolding apply_entry apply_command answer_waiter fire_applied_waiters run_commands
  apply_entry-fields e n = ground arith

  pub apply_entry-waiters :
      (i : ℕ) (e : Entry) (n : Node S)
      → lookup i (apply_entry sm e n).waiters ≡ (if e.index == i then none else lookup i n.waiters)
  unfolding apply_entry apply_command answer_waiter fire_applied_waiters
  apply_entry-waiters i e n = ground (arith, lookup-erase e.index i n.waiters, ==_iff e.index i)

  apply_command-rest :
      (e : Entry) (n : Node S)
      → ((apply_command sm e n).answers ≡ n.answers) × ((apply_command sm e n).waiters ≡ n.waiters)
  unfolding apply_command
  apply_command-rest e n = ground arith

  apply_entry-answers :
      (e : Entry) (n : Node S)
      → done_answers (apply_entry sm e n).answers
        ≡ done_answers n.answers ++ verdicts (e ∷ []) n.waiters
  unfolding apply_entry verdicts
  apply_entry-answers e n =
      let m : Node S = record (apply_command sm e n) { applied = e.index } in
      let (same, table) = apply_command-rest e n in
      answer_waiter-answers e (lookup e.index (fire_applied_waiters m).waiters)
        (fire_applied_waiters m)
      ∙ rw (fire-answers m, same) (unfold fire_applied_waiters in rw table refl)

  -- What the entries that follow index `p` do to a node.
  pub record Applied (es : List Entry) (n m : Node S) : Type 0 where
    pub machine : m.machine ≡ run_commands sm es n.machine
    pub applied : m.applied ≡ last_index n.applied es
    pub answers : done_answers m.answers ≡ done_answers n.answers ++ verdicts es n.waiters
    pub waiters :
        (i : ℕ) → lookup i m.waiters ≡ (if has_index i es then none else lookup i n.waiters)

  apply_first :
      (p : ℕ) (e : Entry) (es : List Entry) (n m : Node S)
      → Follows p (e ∷ es)
      → Applied es (apply_entry sm e n) m
      → Applied (e ∷ es) n m
  unfolding run_commands last_index verdicts has_index
  apply_first p e es n m f a =
      let (machine, cursor, c, r, w) = apply_entry-fields e n in
      let other : (i : ℕ) → suc p < i → lookup i (apply_entry sm e n).waiters ≡ lookup i n.waiters =
        λ i l. apply_entry-waiters i e n ∙ ground (arith, f.0, l) in
      let rest = verdicts-same (suc p) es (apply_entry sm e n).waiters n.waiters f.1 other in
      record {
        machine = a.machine ∙ ap (run_commands sm es) machine;
        applied = a.applied ∙ ap (λ k. last_index k es) cursor;
        answers =
            a.answers
            ∙ rw (apply_entry-answers e n, rest)
                (append_assoc (done_answers n.answers) (verdicts (e ∷ []) n.waiters)
                    (verdicts es n.waiters)
                  ∙ ap (λ t. done_answers n.answers ++ t) (verdicts-cons e es n.waiters));
        waiters = λ i. a.waiters i ∙ ground (arith, apply_entry-waiters i e n);
      }

  -- Entries with consecutive indices are applied: the normal commands run on the state machine in
  -- order, the cursor is at the last one, and on the `done` channels each proposal that waits on
  -- one of the indices hears, in the order of the entries, that it was applied where the entry has
  -- the term of the proposal and that it was lost where it has another. The other proposals go on
  -- waiting, and no one else hears anything.
  pub apply_entries_lem :
      (p : ℕ) (es : List Entry) (n : Node S) → Follows p es → Applied es n (apply_entries sm es n)
  unfolding apply_entries run_commands last_index verdicts has_index
  apply_entries_lem p [] n f = record {
    machine = refl;
    applied = refl;
    answers = sym (append-nil (done_answers n.answers));
    waiters = λ i. refl;
  }
  apply_entries_lem p (e ∷ es) n f =
      apply_first p e es n (apply_entries sm es (apply_entry sm e n)) f
        (apply_entries_lem (suc p) es (apply_entry sm e n) f.1)
