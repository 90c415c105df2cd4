-- ===== src/Raft/Node/Loop.antt =====
-- internal/raft/node.go: `afterStep`, what the loop does after each call of the core.
use raft_kv.Common.{
  ℕ, ◌+◌, not, Option, none, some, List, [], ◌∷◌, ◌++◌, ltb, leb, ◌==◌, if◌then◌else◌, u64,
}
use raft_kv.Common.Bytes.{Bytes}
use raft_kv.Common.Assoc.{Map, nat_eq, lookup, insert, insert_all, erase}
use raft_kv.Raft.Result.{Result, ok, err, panic}
use raft_kv.Raft.Entry.{Entry, entry_normal}
use raft_kv.Raft.Core.{
  Outbound, ReadOutcome, RequestVoteResponse, AppendEntriesResponse, InstallSnapshotResponse,
  request_vote, append_entries, install_snapshot,
}
use raft_kv.Raft.Membership.{is_leader}
use raft_kv.Raft.Log.{last_log_index}
use raft_kv.Raft.Install.{compact}
use raft_kv.Raft.Boot.{take_outbox, take_committed, take_restore}
use raft_kv.Raft.ReadIndex.{take_read_outcomes}
use raft_kv.Raft.Node.{Event, ev_vote_resp, ev_append_resp, ev_snapshot_resp}
use raft_kv.Raft.Node.State.{
  StateMachine, Node, Waiter, AppliedWaiter, Answer, Sent, Status, applied, lost, read_ready,
  read_lost, stopping, crashed,
}

unfoldable pub ready : ℕ → List AppliedWaiter → List Answer
ready n [] = []
ready n (w ∷ ws) = if leb w.index n then read_ready w.c w.index ∷ ready n ws else ready n ws

unfoldable pub remaining : ℕ → List AppliedWaiter → List AppliedWaiter
remaining n [] = []
remaining n (w ∷ ws) = if leb w.index n then remaining n ws else w ∷ remaining n ws

-- The answers of the transport. A call that fails returns no event.
pub data Response : Type 0 where
  voted : RequestVoteResponse → Response
  appended : AppendEntriesResponse → Response
  installed : InstallSnapshotResponse → Response
  timed_out : Response

-- The event that the answer to a message puts into the loop.
unfoldable pub response_event : Sent → Response → Option Event
response_event o (voted resp) = elim o.message [
  | request_vote req ↦ some (ev_vote_resp o.to req.term req.pre_vote resp)
  | _ ↦ none
]
response_event o (appended resp) = elim o.message [
  | append_entries req ↦ some (ev_append_resp o.to req resp)
  | _ ↦ none
]
response_event o (installed resp) = elim o.message [
  | install_snapshot req ↦ some (ev_snapshot_resp o.to req resp)
  | _ ↦ none
]
response_event o timed_out = none

-- SetPeer for each other member that has an address.
unfoldable pub set_peers : ℕ → Map ℕ Bytes → Map ℕ Bytes → Map ℕ Bytes
set_peers me [] peers = peers
set_peers me ((id, []) ∷ ms) peers = set_peers me ms peers
set_peers me ((id, a ∷ addr) ∷ ms) peers =
    set_peers me ms (if id == me then peers else insert id (a ∷ addr) peers)

module _ {S : Type 0} where
  unfoldable pub fire_applied_waiters : Node S → Node S
  fire_applied_waiters n = record n {
    answers = n.answers ++ ready n.applied n.applied_waiters;
    applied_waiters = remaining n.applied n.applied_waiters;
  }

  -- `w` waits on the index of the entry.
  unfoldable pub answer_waiter : Entry → Option Waiter → Node S → Node S
  answer_waiter e none n = n
  answer_waiter e (some w) n = record n {
    waiters = erase e.index n.waiters;
    answers = n.answers ++ ((if w.term == e.term then applied w.done else lost w.done) ∷ []);
  }

  -- The channel of the read, if its client is still known.
  unfoldable pub answer_read : ReadOutcome → Option ℕ → Node S → Node S
  answer_read r none n = n
  answer_read r (some c) n =
      let n' = record n { read_waiters = erase r.id n.read_waiters } in
      if not r.confirmed
      then record n' { answers = n.answers ++ (read_lost c ∷ []) }
      else if leb r.index n.applied
      then record n' { answers = n.answers ++ (read_ready c r.index ∷ []) }
      else record n' {
        applied_waiters = n.applied_waiters ++ (record { index = r.index; c = c } ∷ []);
      }

  unfoldable pub resolve_read : ReadOutcome → Node S → Node S
  resolve_read r n = answer_read r (lookup r.id n.read_waiters) n

  unfoldable pub resolve_reads : List ReadOutcome → Node S → Node S
  resolve_reads [] n = n
  resolve_reads (r ∷ rs) n = resolve_reads rs (resolve_read r n)

  unfoldable pub sync_transport_config : Node S → Node S
  sync_transport_config n = elim n.transport_peers [
    | none ↦ n
    | some peers ↦
        (if n.core.config_version == n.synced_config_version then n else record n {
          transport_peers = some (set_peers n.core.cfg.id n.core.members peers);
          synced_config_version = n.core.config_version;
        })
  ]

  unfoldable pub send_async : Outbound → Node S → Node S
  send_async o n = record n {
    sent = n.sent ++ (record { group = n.group; to = o.to; message = o.message } ∷ []);
  }

  unfoldable pub send_all : List Outbound → Node S → Node S
  send_all [] n = n
  send_all (o ∷ os) n = send_all os (send_async o n)

  unfoldable pub status_of : Node S → Status
  status_of n = record {
    id = n.core.cfg.id;
    group = n.group;
    term = n.core.term;
    leader_id = n.core.leader_id;
    is_leader = is_leader n.core.role;
    role = n.core.role;
    commit_index = n.core.commit_index;
    last_applied = n.applied;
    last_log_index = last_log_index n.core;
    members = insert_all n.core.members [];
  }

  unfoldable pub publish_status : Node S → Node S
  publish_status n = record n { status = some (status_of n) }

  unfoldable pub send_outbox : Node S → Node S
  send_outbox n = let (os, core) = take_outbox n.core in send_all os (record n { core = core })

  -- The rest of `afterStep` once the log is compacted.
  unfoldable pub send_and_publish : Node S → Node S
  send_and_publish n = publish_status (send_outbox (sync_transport_config n))

  -- What `compact` returned: an error is only logged, a panic ends the process.
  unfoldable pub after_compact : Result (Unit {0}) → Node S → Node S
  after_compact (ok _) n = send_and_publish n
  after_compact (err _) n = send_and_publish n
  after_compact panic n = record n { condition = crashed }

  unfoldable pub resolve_outcomes : Node S → Node S
  resolve_outcomes n =
      let (rs, core) = take_read_outcomes n.core in resolve_reads rs (record n { core = core })

module _ {S : Type 0} (sm : StateMachine S) where
  unfoldable pub apply_command : Entry → Node S → Node S
  apply_command e n =
      if e.type == entry_normal
      then record n { machine = sm.apply e.index e.command n.machine }
      else n

  unfoldable pub apply_entry : Entry → Node S → Node S
  apply_entry e n =
      let n' = fire_applied_waiters (record (apply_command e n) { applied = e.index }) in
      answer_waiter e (lookup e.index n'.waiters) n'

  unfoldable pub apply_entries : List Entry → Node S → Node S
  apply_entries [] n = n
  apply_entries (e ∷ es) n = apply_entries es (apply_entry e n)

  -- `snapshot` is the image of the state machine.
  unfoldable pub compact_with : Option Bytes → Node S → Node S
  compact_with none n = send_and_publish n
  compact_with (some snapshot) n =
      let (r, core) = compact n.applied snapshot n.core in
      after_compact r (record n { core = core })

  unfoldable pub maybe_compact : Node S → Node S
  maybe_compact n =
      if ltb n.applied (u64 (n.core.snap_index + n.compact_at))
      then send_and_publish n
      else compact_with (sm.snapshot n.machine) n

  unfoldable pub apply_committed : Node S → Node S
  apply_committed n =
      let (es, core) = take_committed n.core in apply_entries es (record n { core = core })

  unfoldable pub drain : Node S → Node S
  drain n = maybe_compact (resolve_outcomes (apply_committed n))

  -- `none` is a failed restore.
  unfoldable pub restored : Option S → Node S → Node S
  restored none n = record n { condition = stopping }
  restored (some m) n =
      drain (fire_applied_waiters (record n { machine = m; applied = n.core.snap_index }))

  unfoldable pub restore_with : Option Bytes → Node S → Node S
  restore_with none n = drain n
  restore_with (some image) n = restored (sm.restore image n.machine) n

  unfoldable pub after_step : Node S → Node S
  after_step n =
      let (image, core) = take_restore n.core in restore_with image (record n { core = core })
