-- ===== src/Raft/Node/Reads.antt =====
-- internal/raft/node.go, `resolveRead` and `fireAppliedWaiters`: the reads that wait.
use raft_kv.Common.{
  ℕ, ◌+◌, ◌<◌, ◌≡◌, refl, ◌∙◌, Option, none, some, List, [], ◌∷◌, ◌++◌, arith, leb, ◌==◌,
  if◌then◌else◌, All, ==_iff, All-append, Bool-cases, inl, inr, not,
}
use raft_kv.Common.Assoc.{Map, nat_eq, IsMap, lookup, erase, erase-IsMap}
use raft_kv.Raft.Entry.{Entry}
use raft_kv.Raft.Core.{ReadOutcome}
use raft_kv.Raft.Node.State.{
  StateMachine, Node, Waiter, AppliedWaiter, Answer, replied, failed, applied, lost, read_ready,
  read_lost,
}
use raft_kv.Raft.Node.Loop.{
  fire_applied_waiters, ready, remaining, answer_waiter, apply_command, apply_entry, apply_entries,
  answer_read, resolve_read, resolve_reads,
}

-- How often a channel is in a table, in a queue, and in the answers to reads.
unfoldable pub in_table : ℕ → Map ℕ ℕ → ℕ
in_table c [] = 0
in_table c ((id, d) ∷ m) = (if d == c then 1 else 0) + in_table c m

unfoldable pub in_queue : ℕ → List AppliedWaiter → ℕ
in_queue c [] = 0
in_queue c (w ∷ ws) = (if w.c == c then 1 else 0) + in_queue c ws

unfoldable pub in_answers : ℕ → List Answer → ℕ
in_answers c [] = 0
in_answers c (replied d r ∷ xs) = in_answers c xs
in_answers c (failed d e ∷ xs) = in_answers c xs
in_answers c (applied d ∷ xs) = in_answers c xs
in_answers c (lost d ∷ xs) = in_answers c xs
in_answers c (read_ready d i ∷ xs) = (if d == c then 1 else 0) + in_answers c xs
in_answers c (read_lost d ∷ xs) = (if d == c then 1 else 0) + in_answers c xs

in_answers-append :
    (c : ℕ) (xs ys : List Answer) → in_answers c (xs ++ ys) ≡ in_answers c xs + in_answers c ys
unfolding in_answers
in_answers-append c [] ys = omega arith
in_answers-append c (replied d r ∷ xs) ys = in_answers-append c xs ys
in_answers-append c (failed d r ∷ xs) ys = in_answers-append c xs ys
in_answers-append c (applied d ∷ xs) ys = in_answers-append c xs ys
in_answers-append c (lost d ∷ xs) ys = in_answers-append c xs ys
in_answers-append c (read_ready d i ∷ xs) ys = omega (arith, in_answers-append c xs ys)
in_answers-append c (read_lost d ∷ xs) ys = omega (arith, in_answers-append c xs ys)

in_queue-append :
    (c : ℕ) (ws us : List AppliedWaiter) → in_queue c (ws ++ us) ≡ in_queue c ws + in_queue c us
unfolding in_queue
in_queue-append c [] us = omega arith
in_queue-append c (w ∷ ws) us = omega (arith, in_queue-append c ws us)

in_queue-split :
    (c i : ℕ) (ws : List AppliedWaiter)
    → in_answers c (ready i ws) + in_queue c (remaining i ws) ≡ in_queue c ws
unfolding in_queue in_answers ready remaining
in_queue-split c i [] = refl
in_queue-split c i (w ∷ ws) = ground (arith, in_queue-split c i ws)

in_table-absent :
    (c id : ℕ) (m : Map ℕ ℕ) → lookup id m ≡ none → in_table c (erase id m) ≡ in_table c m
unfolding in_table erase lookup
in_table-absent c id [] e = refl
in_table-absent c id ((j, v) ∷ m) e = ground (arith, in_table-absent c id m)

in_table-erase :
    (c id d : ℕ) (m : Map ℕ ℕ)
    → IsMap m
    → lookup id m ≡ some d
    → in_table c (erase id m) + (if d == c then 1 else 0) ≡ in_table c m
unfolding in_table erase lookup
in_table-erase c id d [] h e = absurd (ground (arith, e))
in_table-erase c id d ((j, v) ∷ m) h e =
    ground (arith, h.0, in_table-absent c id m, in_table-erase c id d m h.1, ==_iff j id)

-- Where a read's client is: the reads not yet confirmed, those that wait for an apply, and those
-- that are answered.
abbrev pub seen : {S : Type 0} → ℕ → Node S → ℕ
seen c n = in_table c n.read_waiters + in_queue c n.applied_waiters + in_answers c n.answers

remaining-waits :
    (i : ℕ) (ws : List AppliedWaiter) → All (λ (w : AppliedWaiter). i < w.index) (remaining i ws)
unfolding remaining
remaining-waits i [] = tt
remaining-waits i (w ∷ ws) = ground (arith, remaining-waits i ws)

-- A read that waits for an apply waits for one that has not happened.
pub record ReadsShape {S : Type 0} (n : Node S) : Type 0 where
  pub table : IsMap n.read_waiters
  pub waiting : All (λ (w : AppliedWaiter). n.applied < w.index) n.applied_waiters

-- Each channel is seen as often as before.
pub record ReadsKept {S : Type 0} (n m : Node S) : Type 0 where
  pub shape : ReadsShape m
  pub same : (c : ℕ) → seen c m ≡ seen c n

module _ {S : Type 0} where
  pub ReadsKept-refl : (n : Node S) → ReadsShape n → ReadsKept n n
  ReadsKept-refl n h = record { shape = h; same = λ c. refl }

  pub ReadsKept-trans : {n m k : Node S} → ReadsKept n m → ReadsKept m k → ReadsKept n k
  ReadsKept-trans p q = record { shape = q.shape; same = λ c. q.same c ∙ p.same c }

  pub fire-ReadsKept : (n : Node S) → IsMap n.read_waiters → ReadsKept n (fire_applied_waiters n)
  unfolding fire_applied_waiters
  fire-ReadsKept n h = record {
    shape = record { table = h; waiting = remaining-waits n.applied n.applied_waiters };
    same = λ c. omega (
      arith,
      in_answers-append c n.answers (ready n.applied n.applied_waiters),
      in_queue-split c n.applied n.applied_waiters,
    );
  }

  answer_waiter-ReadsKept :
      (e : Entry) (o : Option Waiter) (n : Node S)
      → ReadsShape n
      → ReadsKept n (answer_waiter e o n)
  unfolding answer_waiter in_answers
  answer_waiter-ReadsKept e none n h = ReadsKept-refl n h
  answer_waiter-ReadsKept e (some w) n h = record {
    shape = record { table = h.table; waiting = h.waiting };
    same = λ c. ground (
      arith,
      in_answers-append c n.answers
          ((if w.term == e.term then applied w.done else lost w.done) ∷ []),
    );
  }

  answer_read-waits :
      (r : ReadOutcome) (d : ℕ) (n : Node S)
      → All (λ (w : AppliedWaiter). n.applied < w.index) n.applied_waiters
      → All
          (λ (w : AppliedWaiter). (answer_read r (some d) n).applied < w.index)
          (answer_read r (some d) n).applied_waiters
  unfolding answer_read
  answer_read-waits r d n h = elim (Bool-cases (not r.confirmed)) [
    | inl b ↦ rw b h
    | inr b ↦ elim (Bool-cases (leb r.index n.applied)) [
      | inl l ↦ rw (b, l) h
      | inr l ↦
          rw (b, l)
            (All-append (λ (w : AppliedWaiter). n.applied < w.index) n.applied_waiters
              (record { index = r.index; c = d } ∷ []) h (ground arith, tt))
    ]
  ]

  answer_read-ReadsKept :
      (r : ReadOutcome) (o : Option ℕ) (n : Node S)
      → ReadsShape n
      → lookup r.id n.read_waiters ≡ o
      → ReadsKept n (answer_read r o n)
  unfolding answer_read in_answers in_queue
  answer_read-ReadsKept r none n h e = ReadsKept-refl n h
  answer_read-ReadsKept r (some d) n h e =
      let table : IsMap (erase r.id n.read_waiters) = erase-IsMap r.id n.read_waiters h.table in
      let waits = answer_read-waits r d n h.waiting in
      record {
        shape = record { table = ground (arith, table); waiting = waits };
        same = λ c. ground (
          arith,
          in_table-erase c r.id d n.read_waiters h.table e,
          in_answers-append c n.answers (read_lost d ∷ []),
          in_answers-append c n.answers (read_ready d r.index ∷ []),
          in_queue-append c n.applied_waiters (record { index = r.index; c = d } ∷ []),
        );
      }

  pub resolve_reads-ReadsKept :
      (rs : List ReadOutcome) (n : Node S) → ReadsShape n → ReadsKept n (resolve_reads rs n)
  unfolding resolve_reads resolve_read
  resolve_reads-ReadsKept [] n h = ReadsKept-refl n h
  resolve_reads-ReadsKept (r ∷ rs) n h =
      let first = answer_read-ReadsKept r (lookup r.id n.read_waiters) n h refl in
      ReadsKept-trans first (resolve_reads-ReadsKept rs (resolve_read r n) first.shape)

module _ {S : Type 0} (sm : StateMachine S) where
  apply_entry-ReadsKept :
      (e : Entry) (n : Node S) → IsMap n.read_waiters → ReadsKept n (apply_entry sm e n)
  unfolding apply_entry
  apply_entry-ReadsKept e n h =
      let m : Node S = record (apply_command sm e n) { applied = e.index } in
      let start : (c : ℕ) → seen c m ≡ seen c n = λ c. (unfold apply_command in ground arith) in
      let table : IsMap m.read_waiters = unfold apply_command in ground arith in
      let fired = fire-ReadsKept m table in
      let rest =
        answer_waiter-ReadsKept e (lookup e.index (fire_applied_waiters m).waiters)
          (fire_applied_waiters m) fired.shape in
      record { shape = rest.shape; same = λ c. rest.same c ∙ fired.same c ∙ start c }

  pub apply_entries-ReadsKept :
      (es : List Entry) (n : Node S) → ReadsShape n → ReadsKept n (apply_entries sm es n)
  unfolding apply_entries
  apply_entries-ReadsKept [] n h = ReadsKept-refl n h
  apply_entries-ReadsKept (e ∷ es) n h =
      let first = apply_entry-ReadsKept e n h.table in
      ReadsKept-trans first (apply_entries-ReadsKept es (apply_entry sm e n) first.shape)
