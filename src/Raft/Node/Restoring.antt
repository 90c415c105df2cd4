-- ===== src/Raft/Node/Restoring.antt =====
-- internal/raft/node.go, `afterStep` with a snapshot to restore.
use raft_kv.Common.{ℕ, ◌≡◌, refl, ◌∙◌, inl, inr, Option, none, some, arith}
use mathlib.Core.Path.{subst}
use raft_kv.Common.Bytes.{Bytes}
use raft_kv.Common.Assoc.{IsMap, nat_eq}
use raft_kv.Raft.Boot.{take_restore}
use raft_kv.Raft.Order.Shape.{Follows}
use raft_kv.Raft.Node.State.{StateMachine, Node, stopping}
use raft_kv.Raft.Node.Loop.{fire_applied_waiters, drain, restored, restore_with, after_step}
use raft_kv.Raft.Node.Apply.{done_answers, fire-answers}
use raft_kv.Raft.Node.Reads.{seen, ReadsShape, fire-ReadsKept}
use raft_kv.Raft.Node.Round.{Round, drain_lem}

module _ {S : Type 0} (sm : StateMachine S) where
  -- The state machine and the cursor that a round starts with; `none` if the restore fails.
  unfoldable pub base_machine : Option Bytes → S → Option S
  base_machine none m = some m
  base_machine (some image) m = sm.restore image m

  unfoldable pub base_cursor : Option Bytes → Node S → ℕ
  base_cursor none n = n.applied
  base_cursor (some image) n = n.core.snap_index

  -- What a restore leaves alone.
  record Starts (n m : Node S) : Type 0 where
    committed : m.core.committed ≡ n.core.committed
    outbox : m.core.outbox ≡ n.core.outbox
    waiters : m.waiters ≡ n.waiters
    answers : done_answers m.answers ≡ done_answers n.answers
    sent : m.sent ≡ n.sent
    group : m.group ≡ n.group
    seen : (c : ℕ) → seen c m ≡ seen c n

  Round-from :
      (base : S) (cursor : ℕ) (n m k : Node S)
      → Starts n m
      → Round sm base cursor m k
      → Round sm base cursor n k
  Round-from base cursor n m k t r = record {
    machine = rw (← t.committed) r.machine;
    applied = rw (← t.committed) r.applied;
    answers = rw (← t.committed, ← t.answers, ← t.waiters) r.answers;
    waiters = rw (← t.committed, ← t.waiters) r.waiters;
    reads = record { shape = r.reads.shape; same = λ c. r.reads.same c ∙ t.seen c };
    emptied = elim r.emptied [
      | inl e ↦ inl e
      | inr e ↦ inr (record {
        outbox = e.outbox;
        committed = e.committed;
        read_outcomes = e.read_outcomes;
        pending_restore = e.pending_restore;
        sent = rw (← t.sent, ← t.group, ← t.outbox) e.sent;
      })
    ];
  }

  fire-Starts : (n : Node S) → IsMap n.read_waiters → Starts n (fire_applied_waiters n)
  fire-Starts n h = record {
    committed = unfold fire_applied_waiters in refl;
    outbox = unfold fire_applied_waiters in refl;
    waiters = unfold fire_applied_waiters in refl;
    answers = fire-answers n;
    sent = unfold fire_applied_waiters in refl;
    group = unfold fire_applied_waiters in refl;
    seen = (fire-ReadsKept n h).same;
  }

  restore-Round :
      (p : ℕ) (o : Option Bytes) (base : S) (n : Node S)
      → Follows p n.core.committed
      → ReadsShape n
      → base_machine o n.machine ≡ some base
      → Round sm base
          (base_cursor o n)
          n
          (restore_with sm o (record n { core = record n.core { pending_restore = none } }))
  unfolding restore_with base_machine base_cursor restored fire_applied_waiters
  restore-Round p none base n f h e =
      let m : Node S = record n { core = record n.core { pending_restore = none } } in
      let r = drain_lem sm p m f refl (record { table = h.table; waiting = h.waiting }) in
      let same : n.machine ≡ base = ground (arith, e) in
      Round-from base n.applied n m (drain sm m) (ground arith)
        (subst (λ (b : S). Round sm b n.applied m (drain sm m)) same r)
  restore-Round p (some image) base n f h e =
      let m : Node S = record n {
        core = record n.core { pending_restore = none };
        machine = base;
        applied = n.core.snap_index;
      } in
      let fired = fire-ReadsKept m h.table in
      let k = fire-Starts m h.table in
      let starts : Starts n (fire_applied_waiters m) = record {
        committed = k.committed;
        outbox = k.outbox;
        waiters = k.waiters;
        answers = k.answers;
        sent = k.sent;
        group = k.group;
        seen = k.seen;
      } in
      let r =
        drain_lem sm p (fire_applied_waiters m) (rw k.committed f)
          (unfold fire_applied_waiters in refl) fired.shape in
      rw e (
        Round-from base n.core.snap_index n (fire_applied_waiters m)
          (drain sm (fire_applied_waiters m)) starts r)

  -- A round of a node whose committed entries have consecutive indices and whose reads are in
  -- order, after a restore that works if there is a snapshot. The normal commands run in order on
  -- the state machine, restored if need be, and the cursor moves to the last entry. Each proposal
  -- that waits on one of the indices hears that it was applied where the terms agree, and else
  -- that it was lost; the others go on waiting. No read is dropped or answered twice, and those
  -- that wait for an apply wait for one above the cursor. Unless a panic in compaction ends the
  -- process, the queues of the core are empty afterwards and all messages were sent in order.
  pub after_step_lem :
      (p : ℕ) (base : S) (n : Node S)
      → Follows p n.core.committed
      → ReadsShape n
      → base_machine n.core.pending_restore n.machine ≡ some base
      → Round sm base (base_cursor n.core.pending_restore n) n (after_step sm n)
  unfolding after_step take_restore
  after_step_lem p base n f h e = restore-Round p n.core.pending_restore base n f h e

  pub after_failed :
      (image : Bytes) (n : Node S)
      → n.core.pending_restore ≡ some image
      → sm.restore image n.machine ≡ none
      → after_step sm n
        ≡ record n { core = record n.core { pending_restore = none }; condition = stopping }
  unfolding after_step take_restore restore_with restored
  after_failed image n e h = simp (e, h) refl
