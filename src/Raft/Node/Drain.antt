-- ===== src/Raft/Node/Drain.antt =====
-- internal/raft/node.go, `afterStep`: all the queues of the core in one round.
use raft_kv.Common.{
  ℕ, ◌≡◌, refl, sym, ap, ◌∙◌, Option, none, some, List, [], ◌∷◌, ◌++◌, arith, append-nil,
  append_assoc, ◌⊎◌, inl, inr,
}
use raft_kv.Common.Bytes.{Bytes}
use raft_kv.Common.Assoc.{nat_eq, lookup}
use raft_kv.Raft.Result.{Result, ok, err, panic}
use raft_kv.Raft.Entry.{Entry}
use raft_kv.Raft.Snapshot.{RaftSnapshot}
use raft_kv.Raft.Core.{Core, Outbound, ReadOutcome, continue}
use raft_kv.Raft.Persist.{persist_raft_snapshot, store_rewrite, log_step, replace_log}
use raft_kv.Raft.Install.{
  suffix_after, snapshot_at, set_base, move_base, move_to, drop_through, compact_through, compact,
}
use raft_kv.Raft.Boot.{take_outbox}
use raft_kv.Raft.Node.State.{Node, Sent, crashed}
use raft_kv.Raft.Node.Loop.{
  resolve_read, resolve_reads, answer_read, sync_transport_config, send_async, send_all,
  publish_status, send_outbox, send_and_publish, after_compact,
}

-- What compaction leaves alone.
pub record QueuesKept (s t : Core) : Type 0 where
  pub outbox : t.outbox ≡ s.outbox
  pub committed : t.committed ≡ s.committed
  pub read_outcomes : t.read_outcomes ≡ s.read_outcomes
  pub pending_restore : t.pending_restore ≡ s.pending_restore

store_rewrite-QueuesKept : (es : List Entry) (s : Core) → QueuesKept s (store_rewrite es s).1
unfolding store_rewrite log_step replace_log
store_rewrite-QueuesKept es s = ground arith

move_to-QueuesKept :
    (snap : RaftSnapshot) (o : Option (List Entry)) (s : Core) → QueuesKept s (move_to snap o s).1
unfolding move_to move_base set_base
move_to-QueuesKept snap none s = ground arith
move_to-QueuesKept snap (some keep) s = ground (arith, store_rewrite-QueuesKept keep s)

compacted-QueuesKept :
    (snap : RaftSnapshot) (r : Result (Unit {0})) (s : Core)
    → QueuesKept s (continue r (λ _. drop_through snap) s).1
unfolding drop_through
compacted-QueuesKept snap (ok _) s =
    move_to-QueuesKept snap (suffix_after snap.last_index s.entries) s
compacted-QueuesKept snap (err e) s = ground arith
compacted-QueuesKept snap panic s = ground arith

compact_through-QueuesKept :
    (snap : RaftSnapshot) (s : Core) → QueuesKept s (compact_through snap s).1
unfolding compact_through persist_raft_snapshot
compact_through-QueuesKept snap s =
    let h =
      compacted-QueuesKept snap (persist_raft_snapshot snap s).0 (persist_raft_snapshot snap s).1 in
    record {
      outbox = h.outbox;
      committed = h.committed;
      read_outcomes = h.read_outcomes;
      pending_restore = h.pending_restore;
    }

pub compact-QueuesKept : (n : ℕ) (b : Bytes) (s : Core) → QueuesKept s (compact n b s).1
unfolding compact
compact-QueuesKept n b s = ground (arith, compact_through-QueuesKept (snapshot_at n b s) s)

-- The state machine, what was applied, and who waits.
pub record LoopKept {S : Type 0} (n m : Node S) : Type 0 where
  pub machine : m.machine ≡ n.machine
  pub applied : m.applied ≡ n.applied
  pub waiters : m.waiters ≡ n.waiters
  pub read_waiters : m.read_waiters ≡ n.read_waiters
  pub applied_waiters : m.applied_waiters ≡ n.applied_waiters
  pub answers : m.answers ≡ n.answers
  pub group : m.group ≡ n.group

-- The messages as the transport gets them.
unfoldable pub addressed : ℕ → List Outbound → List Sent
addressed group [] = []
addressed group (o ∷ os) =
    record { group = group; to = o.to; message = o.message } ∷ addressed group os

-- A round that a panic has not ended: the queues of the core are empty, and every message was given
-- to the transport.
pub record Emptied {S : Type 0} (n m : Node S) : Type 0 where
  pub outbox : m.core.outbox ≡ []
  pub committed : m.core.committed ≡ []
  pub read_outcomes : m.core.read_outcomes ≡ []
  pub pending_restore : m.core.pending_restore ≡ none
  pub sent : m.sent ≡ n.sent ++ addressed n.group n.core.outbox

-- What applying entries and resolving reads leave alone.
pub record WireKept {S : Type 0} (n m : Node S) : Type 0 where
  pub core : m.core ≡ n.core
  pub sent : m.sent ≡ n.sent
  pub group : m.group ≡ n.group

module _ {S : Type 0} where
  send_all-eq :
      (os : List Outbound) (n : Node S)
      → send_all os n ≡ record n { sent = n.sent ++ addressed n.group os }
  unfolding send_all send_async addressed
  send_all-eq [] n = ap (λ t. record n { sent = t }) (sym (append-nil n.sent))
  send_all-eq (o ∷ os) n =
      send_all-eq os (send_async o n)
      ∙ ap (λ t. record n { sent = t })
          (append_assoc n.sent (record { group = n.group; to = o.to; message = o.message } ∷ [])
            (addressed n.group os))

  sync_transport_config-kept :
      (n : Node S) → LoopKept n (sync_transport_config n) × WireKept n (sync_transport_config n)
  unfolding sync_transport_config
  sync_transport_config-kept n = ground arith

  pub send_and_publish-LoopKept : (n : Node S) → LoopKept n (send_and_publish n)
  unfolding send_and_publish publish_status send_outbox take_outbox
  send_and_publish-LoopKept n =
      let m : Node S = sync_transport_config n in
      let all = send_all-eq m.core.outbox (record m { core = record m.core { outbox = [] } }) in
      rw all (ground (arith, sync_transport_config-kept n))

  pub send_and_publish-Emptied :
      (n : Node S)
      → n.core.committed ≡ []
      → n.core.read_outcomes ≡ []
      → n.core.pending_restore ≡ none
      → Emptied n (send_and_publish n)
  unfolding send_and_publish publish_status send_outbox take_outbox
  send_and_publish-Emptied n c r p =
      let m : Node S = sync_transport_config n in
      let all = send_all-eq m.core.outbox (record m { core = record m.core { outbox = [] } }) in
      rw all (ground (arith, sync_transport_config-kept n, c, r, p))

  pub after_compact-LoopKept : (r : Result (Unit {0})) (n : Node S) → LoopKept n (after_compact r n)
  unfolding after_compact
  after_compact-LoopKept (ok u) n = send_and_publish-LoopKept n
  after_compact-LoopKept (err e) n = send_and_publish-LoopKept n
  after_compact-LoopKept panic n = ground arith

  pub after_compact-Emptied :
      (r : Result (Unit {0})) (n : Node S)
      → n.core.committed ≡ []
      → n.core.read_outcomes ≡ []
      → n.core.pending_restore ≡ none
      → ((after_compact r n).condition ≡ crashed) ⊎ Emptied n (after_compact r n)
  unfolding after_compact
  after_compact-Emptied (ok u) n c r p = inr (send_and_publish-Emptied n c r p)
  after_compact-Emptied (err e) n c r p = inr (send_and_publish-Emptied n c r p)
  after_compact-Emptied panic n c r p = inl refl

  answer_read-WireKept :
      (r : ReadOutcome) (o : Option ℕ) (n : Node S) → WireKept n (answer_read r o n)
  unfolding answer_read
  answer_read-WireKept r none n = ground arith
  answer_read-WireKept r (some c) n = ground arith

  pub resolve_reads-WireKept :
      (rs : List ReadOutcome) (n : Node S) → WireKept n (resolve_reads rs n)
  unfolding resolve_reads resolve_read
  resolve_reads-WireKept [] n = ground arith
  resolve_reads-WireKept (r ∷ rs) n = ground (
    arith,
    answer_read-WireKept r (lookup r.id n.read_waiters) n,
    resolve_reads-WireKept rs (resolve_read r n),
  )
