-- ===== src/Raft/Node/Invariant.antt =====
-- internal/raft/node.go: what holds between any two rounds of the loop.
use raft_kv.Common.{All, ◌<◌, ℕ, Bool, true, false, Option, none, some, []}
use raft_kv.Common.Bytes.{Bytes}
use raft_kv.Common.Assoc.{nat_eq, insert-IsMap}
use raft_kv.Raft.Result.{Result, ok, err, panic}
use raft_kv.Raft.Boot.{take_restore, take_committed}
use raft_kv.Raft.ReadIndex.{take_read_outcomes}
use raft_kv.Raft.Node.{
  Event, Reply, nothing, vote, appended, installed, proposed, reading, rejected, dispatch,
}
use raft_kv.Raft.Node.State.{AppliedWaiter, StateMachine, Node, Answer, replied, failed}
use raft_kv.Raft.Node.Loop.{
  apply_entries, apply_committed, resolve_reads, resolve_outcomes, drain, restored, restore_with,
  after_step,
}
use raft_kv.Raft.Node.Run.{
  tell, answer_event, stop_with, finish_event, step, Reach, here, next, has_sender,
}
use raft_kv.Raft.Node.Reads.{
  ReadsShape, fire-ReadsKept, apply_entries-ReadsKept, resolve_reads-ReadsKept,
}
use raft_kv.Raft.Node.Round.{maybe_compact-LoopKept, LoopKept-ReadsKept}

module _ {S : Type 0} (sm : StateMachine S) where
  drain-ReadsShape : (n : Node S) → ReadsShape n → ReadsShape (drain sm n)
  unfolding drain apply_committed resolve_outcomes take_committed take_read_outcomes
  drain-ReadsShape n h =
      let a : Node S = record n { core = record n.core { committed = [] } } in
      let b : Node S = apply_entries sm n.core.committed a in
      let c : Node S = record b { core = record b.core { read_outcomes = [] } } in
      let d : Node S = resolve_reads b.core.read_outcomes c in
      let kept_b =
        apply_entries-ReadsKept sm n.core.committed a
          (record { table = h.table; waiting = h.waiting }) in
      let kept_d =
        resolve_reads-ReadsKept b.core.read_outcomes c
          (record { table = kept_b.shape.table; waiting = kept_b.shape.waiting }) in
      (LoopKept-ReadsKept (maybe_compact-LoopKept sm d) kept_d.shape).shape

  restored-ReadsShape : (o : Option S) (n : Node S) → ReadsShape n → ReadsShape (restored sm o n)
  unfolding restored
  restored-ReadsShape none n h = record { table = h.table; waiting = h.waiting }
  restored-ReadsShape (some m) n h =
      drain-ReadsShape _
        (fire-ReadsKept (record n { machine = m; applied = n.core.snap_index }) h.table).shape

  restore_with-ReadsShape :
      (o : Option Bytes) (n : Node S) → ReadsShape n → ReadsShape (restore_with sm o n)
  unfolding restore_with
  restore_with-ReadsShape none n h = drain-ReadsShape n h
  restore_with-ReadsShape (some image) n h = restored-ReadsShape (sm.restore image n.machine) n h

  after_step-ReadsShape : (n : Node S) → ReadsShape n → ReadsShape (after_step sm n)
  unfolding after_step take_restore
  after_step-ReadsShape n h =
      restore_with-ReadsShape n.core.pending_restore
        (record n { core = record n.core { pending_restore = none } })
        (record { table = h.table; waiting = h.waiting })

  tell-ReadsShape : (b : Bool) (a : Answer) (n : Node S) → ReadsShape n → ReadsShape (tell b a n)
  unfolding tell
  tell-ReadsShape true a n h = record { table = h.table; waiting = h.waiting }
  tell-ReadsShape false a n h = h

  pub answer_event-ReadsShape :
      (ev : Event) (c : ℕ) (r : Reply) (n : Node S)
      → ReadsShape n
      → ReadsShape (answer_event ev c r n)
  unfolding answer_event
  answer_event-ReadsShape ev c nothing n h = tell-ReadsShape (has_sender ev) (replied c nothing) n h
  answer_event-ReadsShape ev c (vote x) n h =
      tell-ReadsShape (has_sender ev) (replied c (vote x)) n h
  answer_event-ReadsShape ev c (appended x) n h =
      tell-ReadsShape (has_sender ev) (replied c (appended x)) n h
  answer_event-ReadsShape ev c (installed x) n h =
      tell-ReadsShape (has_sender ev) (replied c (installed x)) n h
  answer_event-ReadsShape ev c (proposed i t) n h =
      tell-ReadsShape (has_sender ev) (replied c (proposed i t)) _
        (record { table = h.table; waiting = h.waiting })
  answer_event-ReadsShape ev c (reading id) n h = record {
    table = insert-IsMap id c n.read_waiters h.table;
    waiting = h.waiting;
  }
  answer_event-ReadsShape ev c (rejected e) n h =
      tell-ReadsShape (has_sender ev) (replied c (rejected e)) n h

  finish_event-ReadsShape :
      (ev : Event) (c : ℕ) (r : Result Reply) (n : Node S)
      → ReadsShape n
      → ReadsShape (finish_event sm ev c r n)
  unfolding finish_event stop_with
  finish_event-ReadsShape ev c (ok r) n h =
      after_step-ReadsShape (answer_event ev c r n) (answer_event-ReadsShape ev c r n h)
  finish_event-ReadsShape ev c (err e) n h =
      tell-ReadsShape (has_sender ev) (failed c e) _
        (record { table = h.table; waiting = h.waiting })
  finish_event-ReadsShape ev c panic n h = record { table = h.table; waiting = h.waiting }

  pub Reach-ReadsShape : {first n : Node S} → Reach sm first n → ReadsShape first → ReadsShape n
  unfolding step
  Reach-ReadsShape here h = h
  Reach-ReadsShape (next {n} ev c up path) h =
      let k = Reach-ReadsShape path h in
      let (r, core) = dispatch ev n.core in
      finish_event-ReadsShape ev c r (record n { core = core })
        (record { table = k.table; waiting = k.waiting })

  -- Between any two rounds of the loop, whatever the events, their order and the failures, a read
  -- that is confirmed and still unanswered waits for an index above the apply cursor. It holds if it
  -- holds at first, and the table of reads without a confirmation has no key twice.
  pub Reach-waiting :
      {first n : Node S}
      → Reach sm first n
      → ReadsShape first
      → All (λ (w : AppliedWaiter). n.applied < w.index) n.applied_waiters
  Reach-waiting path h = (Reach-ReadsShape path h).waiting
