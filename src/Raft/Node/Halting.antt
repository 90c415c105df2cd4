-- ===== src/Raft/Node/Halting.antt =====
-- internal/raft/node.go: the loop after a restore that failed.
use raft_kv.Common.{ℕ, ◌≡◌, refl, sym, ap, ◌∙◌, true, Bool, none, some, arith}
use raft_kv.Common.Bytes.{Bytes}
use raft_kv.Raft.Result.{ok}
use raft_kv.Raft.Core.{Core}
use raft_kv.Raft.Order.Shape.{Follows}
use raft_kv.Raft.Node.{
  Event, Reply, nothing, vote, appended, installed, proposed, reading, rejected, dispatch,
}
use raft_kv.Raft.Node.State.{StateMachine, Node, Answer, stopping, is_looping, replied}
use raft_kv.Raft.Node.Loop.{after_step}
use raft_kv.Raft.Node.Run.{step, finish_event, answer_event, tell, has_sender}
use raft_kv.Raft.Node.Apply.{run_commands, last_index}
use raft_kv.Raft.Node.Reads.{ReadsShape}
use raft_kv.Raft.Node.Restoring.{base_machine, base_cursor, after_step_lem, after_failed}
use raft_kv.Raft.Node.Invariant.{answer_event-ReadsShape}

-- What an answer leaves alone.
record SameWork {S : Type 0} (n m : Node S) : Type 0 where
  core : m.core ≡ n.core
  machine : m.machine ≡ n.machine
  applied : m.applied ≡ n.applied

module _ {S : Type 0} where
  tell-SameWork : (b : Bool) (a : Answer) (n : Node S) → SameWork n (tell b a n)
  unfolding tell
  tell-SameWork b a n = record {
    core = ground arith;
    machine = ground arith;
    applied = ground arith;
  }

  answer-SameWork :
      (ev : Event) (c : ℕ) (r : Reply) (n : Node S) → SameWork n (answer_event ev c r n)
  unfolding answer_event
  answer-SameWork ev c nothing n = tell-SameWork (has_sender ev) (replied c nothing) n
  answer-SameWork ev c (vote x) n = tell-SameWork (has_sender ev) (replied c (vote x)) n
  answer-SameWork ev c (appended x) n = tell-SameWork (has_sender ev) (replied c (appended x)) n
  answer-SameWork ev c (installed x) n = tell-SameWork (has_sender ev) (replied c (installed x)) n
  answer-SameWork ev c (proposed i t) n =
      let w = tell-SameWork (has_sender ev) (replied c (proposed i t)) _ in
      record { core = w.core; machine = w.machine; applied = w.applied }
  answer-SameWork ev c (reading id) n = record { core = refl; machine = refl; applied = refl }
  answer-SameWork ev c (rejected e) n = tell-SameWork (has_sender ev) (replied c (rejected e)) n

module _ {S : Type 0} (sm : StateMachine S) where
  step-handled :
      (ev : Event) (c : ℕ) (r : Reply) (core : Core) (n : Node S)
      → dispatch ev n.core ≡ (ok r, core)
      → step sm ev c n ≡ after_step sm (answer_event ev c r (record n { core = core }))
  unfolding step finish_event
  step-handled ev c r core n e = rw e refl

  -- A round with no snapshot to restore.
  plain_round :
      (p : ℕ) (core : Core) (n m : Node S)
      → core ≡ m.core
      → n.machine ≡ m.machine
      → n.applied ≡ m.applied
      → ReadsShape m
      → Follows p core.committed
      → core.pending_restore ≡ none
      → ((after_step sm m).machine ≡ run_commands sm core.committed n.machine)
        × ((after_step sm m).applied ≡ last_index n.applied core.committed)
  unfolding base_machine base_cursor
  plain_round p core n m same machine applied h f idle =
      let idle' : m.core.pending_restore ≡ none =
        ap (λ (k : Core). k.pending_restore) (sym same) ∙ idle in
      let base : base_machine sm m.core.pending_restore m.machine ≡ some m.machine =
        rw (idle', base_machine) refl in
      let r = after_step_lem sm p m.machine m (rw (← same) f) h base in
      let cursor : base_cursor sm m.core.pending_restore m ≡ m.applied =
        rw (idle', base_cursor) refl in
      (
        rw (same, machine) r.machine,
        rw (same, applied) (r.applied ∙ ap (λ (i : ℕ). last_index i m.core.committed) cursor),
      )

  -- The restore of a snapshot fails. The loop may take another event. If it does, and the core
  -- handles the event and has committed entries to deliver with consecutive indices and no other
  -- snapshot, the node runs their commands on the state machine that was not restored, and moves
  -- the cursor past them.
  pub failed_restore-goes_on :
      (p c : ℕ) (image : Bytes) (ev : Event) (r : Reply) (core : Core) (n : Node S)
      → ReadsShape n
      → n.core.pending_restore ≡ some image
      → sm.restore image n.machine ≡ none
      → dispatch ev (after_step sm n).core ≡ (ok r, core)
      → Follows p core.committed
      → core.pending_restore ≡ none
      → (is_looping (after_step sm n).condition ≡ true)
        × ((step sm ev c (after_step sm n)).machine ≡ run_commands sm core.committed n.machine)
        × ((step sm ev c (after_step sm n)).applied ≡ last_index n.applied core.committed)
  unfolding is_looping
  failed_restore-goes_on p c image ev r core n h e fails handled f idle =
      let m : Node S = record n {
        core = record n.core { pending_restore = none };
        condition = stopping;
      } in
      let failed : after_step sm n ≡ m = after_failed sm image n e fails in
      let k : Node S = record m { core = core } in
      let w = answer-SameWork ev c r k in
      let shape =
        answer_event-ReadsShape sm ev c r k (record { table = h.table; waiting = h.waiting }) in
      let (machine, applied) =
        plain_round p core n (answer_event ev c r k) (sym w.core) (sym w.machine) (sym w.applied)
          shape f idle in
      let went =
        step-handled ev c r core m
          (ap (λ (x : Node S). dispatch ev x.core) (sym failed) ∙ handled) in
      rw failed (refl, rw went machine, rw went applied)
