-- ===== src/Raft/Node/Round.antt =====
-- internal/raft/node.go: what one call of `afterStep` comes to.
use raft_kv.Common.{
  ℕ, ◌+◌, ◌≡◌, refl, ap, ◌∙◌, ◌⊎◌, inl, inr, Option, none, some, List, [], ◌∷◌, ◌++◌, arith, ltb,
  if◌then◌else◌, u64, append-nil, Bool-cases,
}
use raft_kv.Common.Bytes.{Bytes}
use raft_kv.Common.Assoc.{nat_eq, lookup}
use raft_kv.Raft.Entry.{Entry}
use raft_kv.Raft.Core.{Core, ReadOutcome}
use raft_kv.Raft.Install.{compact}
use raft_kv.Raft.Boot.{take_committed}
use raft_kv.Raft.ReadIndex.{take_read_outcomes}
use raft_kv.Raft.Order.Shape.{Follows}
use raft_kv.Raft.Node.State.{StateMachine, Node, read_ready, read_lost, crashed}
use raft_kv.Raft.Node.Loop.{
  fire_applied_waiters, apply_entry, apply_entries, resolve_read, resolve_reads, answer_read,
  compact_with, maybe_compact, resolve_outcomes, apply_committed, drain, answer_waiter,
  apply_command,
}
use raft_kv.Raft.Node.Apply.{
  apply_entries_lem, done_answers, done_answers-append, run_commands, last_index, verdicts,
  has_index,
}
use raft_kv.Raft.Node.Reads.{
  ReadsShape, ReadsKept, ReadsKept-trans, apply_entries-ReadsKept, resolve_reads-ReadsKept,
}
use raft_kv.Raft.Node.Drain.{
  LoopKept, WireKept, Emptied, compact-QueuesKept, resolve_reads-WireKept,
  send_and_publish-LoopKept, send_and_publish-Emptied, after_compact-LoopKept,
  after_compact-Emptied,
}

module _ {S : Type 0} where
  -- What resolving reads leaves alone.
  record WorkKept (n m : Node S) : Type 0 where
    machine : m.machine ≡ n.machine
    applied : m.applied ≡ n.applied
    waiters : m.waiters ≡ n.waiters
    answers : done_answers m.answers ≡ done_answers n.answers

  answer_read-WorkKept :
      (r : ReadOutcome) (o : Option ℕ) (n : Node S) → WorkKept n (answer_read r o n)
  unfolding answer_read done_answers
  answer_read-WorkKept r none n = ground arith
  answer_read-WorkKept r (some c) n = ground (
    arith,
    done_answers-append n.answers (read_lost c ∷ []),
    done_answers-append n.answers (read_ready c r.index ∷ []),
    append-nil (done_answers n.answers),
  )

  resolve_reads-WorkKept : (rs : List ReadOutcome) (n : Node S) → WorkKept n (resolve_reads rs n)
  unfolding resolve_reads resolve_read
  resolve_reads-WorkKept [] n = ground arith
  resolve_reads-WorkKept (r ∷ rs) n = ground (
    arith,
    answer_read-WorkKept r (lookup r.id n.read_waiters) n,
    resolve_reads-WorkKept rs (resolve_read r n),
  )

  pub LoopKept-ReadsKept : {n m : Node S} → LoopKept n m → ReadsShape n → ReadsKept n m
  LoopKept-ReadsKept k h = record {
    shape = record {
      table = rw k.read_waiters h.table;
      waiting = rw (k.applied, k.applied_waiters) h.waiting;
    };
    same = λ c. rw (k.read_waiters, k.applied_waiters, k.answers) refl;
  }

module _ {S : Type 0} (sm : StateMachine S) where
  apply_entry-WireKept : (e : Entry) (n : Node S) → WireKept n (apply_entry sm e n)
  unfolding apply_entry apply_command answer_waiter fire_applied_waiters
  apply_entry-WireKept e n = ground arith

  apply_entries-WireKept : (es : List Entry) (n : Node S) → WireKept n (apply_entries sm es n)
  unfolding apply_entries
  apply_entries-WireKept [] n = ground arith
  apply_entries-WireKept (e ∷ es) n =
      ground (arith, apply_entry-WireKept e n, apply_entries-WireKept es (apply_entry sm e n))

  compact_with-LoopKept : (o : Option Bytes) (n : Node S) → LoopKept n (compact_with sm o n)
  unfolding compact_with
  compact_with-LoopKept none n = send_and_publish-LoopKept n
  compact_with-LoopKept (some b) n =
      let (r, core) = compact n.applied b n.core in
      let h = after_compact-LoopKept r (record n { core = core }) in
      record {
        machine = h.machine;
        applied = h.applied;
        waiters = h.waiters;
        read_waiters = h.read_waiters;
        applied_waiters = h.applied_waiters;
        answers = h.answers;
        group = h.group;
      }

  pub maybe_compact-LoopKept : (n : Node S) → LoopKept n (maybe_compact sm n)
  unfolding maybe_compact
  maybe_compact-LoopKept n =
      ground (arith, send_and_publish-LoopKept n, compact_with-LoopKept (sm.snapshot n.machine) n)

  compact_with-Emptied :
      (o : Option Bytes) (n : Node S)
      → n.core.committed ≡ []
      → n.core.read_outcomes ≡ []
      → n.core.pending_restore ≡ none
      → ((compact_with sm o n).condition ≡ crashed) ⊎ Emptied n (compact_with sm o n)
  unfolding compact_with
  compact_with-Emptied none n c r p = inr (send_and_publish-Emptied n c r p)
  compact_with-Emptied (some b) n c r p =
      let (res, core) = compact n.applied b n.core in
      let q = compact-QueuesKept n.applied b n.core in
      elim (after_compact-Emptied res (record n { core = core }) (q.committed ∙ c)
        (q.read_outcomes ∙ r) (q.pending_restore ∙ p)) [
          | inl h ↦ inl h
          | inr h ↦ inr (record {
            outbox = h.outbox;
            committed = h.committed;
            read_outcomes = h.read_outcomes;
            pending_restore = h.pending_restore;
            sent = h.sent ∙ ground (arith, q.outbox);
          })
        ]

  maybe_compact-Emptied :
      (n : Node S)
      → n.core.committed ≡ []
      → n.core.read_outcomes ≡ []
      → n.core.pending_restore ≡ none
      → ((maybe_compact sm n).condition ≡ crashed) ⊎ Emptied n (maybe_compact sm n)
  unfolding maybe_compact
  maybe_compact-Emptied n c r p =
      elim (Bool-cases (ltb n.applied (u64 (n.core.snap_index + n.compact_at)))) [
        | inl b ↦ rw b (inr (send_and_publish-Emptied n c r p))
        | inr b ↦ rw b (compact_with-Emptied (sm.snapshot n.machine) n c r p)
      ]

  -- A round, from the state machine and the cursor `base` that it starts with.
  pub record Round (base : S) (cursor : ℕ) (n m : Node S) : Type 0 where
    pub machine : m.machine ≡ run_commands sm n.core.committed base
    pub applied : m.applied ≡ last_index cursor n.core.committed
    pub answers :
        done_answers m.answers ≡ done_answers n.answers ++ verdicts n.core.committed n.waiters
    pub waiters :
        (i : ℕ)
        → lookup i m.waiters ≡ (if has_index i n.core.committed then none else lookup i n.waiters)
    pub reads : ReadsKept n m
    pub emptied : (m.condition ≡ crashed) ⊎ Emptied n m

  pub drain_lem :
      (p : ℕ) (n : Node S)
      → Follows p n.core.committed
      → n.core.pending_restore ≡ none
      → ReadsShape n
      → Round n.machine n.applied n (drain sm n)
  unfolding drain apply_committed resolve_outcomes take_committed take_read_outcomes
  drain_lem p n f none_left h =
      let a : Node S = record n { core = record n.core { committed = [] } } in
      let b : Node S = apply_entries sm n.core.committed a in
      let c : Node S = record b { core = record b.core { read_outcomes = [] } } in
      let d : Node S = resolve_reads b.core.read_outcomes c in
      let applied = apply_entries_lem sm p n.core.committed a f in
      let wire = apply_entries-WireKept n.core.committed a in
      let work = resolve_reads-WorkKept b.core.read_outcomes c in
      let wire' = resolve_reads-WireKept b.core.read_outcomes c in
      let last = maybe_compact-LoopKept d in
      let reads_b =
        apply_entries-ReadsKept sm n.core.committed a
          (record { table = h.table; waiting = h.waiting }) in
      let reads_c : ReadsKept b c = record {
        shape = record { table = reads_b.shape.table; waiting = reads_b.shape.waiting };
        same = λ k. refl;
      } in
      let reads_d = resolve_reads-ReadsKept b.core.read_outcomes c reads_c.shape in
      let reads =
        ReadsKept-trans (ReadsKept-trans (ReadsKept-trans reads_b reads_c) reads_d)
          (LoopKept-ReadsKept last reads_d.shape) in
      record {
        machine = last.machine ∙ work.machine ∙ applied.machine;
        applied = last.applied ∙ work.applied ∙ applied.applied;
        answers = ap done_answers last.answers ∙ work.answers ∙ applied.answers;
        waiters = λ i. ap (lookup i) (last.waiters ∙ work.waiters) ∙ applied.waiters i;
        reads = record { shape = reads.shape; same = reads.same };
        emptied =
            elim (maybe_compact-Emptied d
              (ap (λ (k : Core). k.committed) (wire'.core)
                ∙ ap (λ (k : Core). k.committed) wire.core)
              (ap (λ (k : Core). k.read_outcomes) (wire'.core))
              (ap (λ (k : Core). k.pending_restore) (wire'.core)
                ∙ ap (λ (k : Core). k.pending_restore) wire.core
                ∙ none_left)) [
                  | inl e ↦ inl e
                  | inr e ↦ inr (record {
                    outbox = e.outbox;
                    committed = e.committed;
                    read_outcomes = e.read_outcomes;
                    pending_restore = e.pending_restore;
                    sent =
                        e.sent
                        ∙ ground (
                          arith, wire.core, wire.sent, wire.group, wire'.core, wire'.sent,
                          wire'.group,
                        );
                  })
                ];
      }
