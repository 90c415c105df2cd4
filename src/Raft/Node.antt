-- ===== src/Raft/Node.antt =====
-- internal/raft/node.go, the event loop's `dispatch`: one event is one call of a method of the core.
pub mod State
pub mod Loop
pub mod Run
pub mod Apply
pub mod Reads
pub mod Drain
pub mod Round
pub mod Restoring
pub mod Peers
pub mod Invariant
pub mod Halting
use raft_kv.Common.{ℕ, Bool, if◌then◌else◌}
use raft_kv.Common.Bytes.{Bytes}
use raft_kv.Raft.Result.{Error, Result, ok, err, panic, persist_failure}
use raft_kv.Raft.Members.{ConfChange}
use raft_kv.Raft.Core.{
  Exec, RequestVoteRequest, RequestVoteResponse, AppendEntriesRequest, AppendEntriesResponse,
  InstallSnapshotRequest, InstallSnapshotResponse, TimeoutNowRequest,
}
use raft_kv.Raft.Leader.{
  propose, propose_conf_change, request_read, handle_append_response,
  handle_install_snapshot_response, transfer_leadership,
}
use raft_kv.Raft.Follower.{handle_append_entries}
use raft_kv.Raft.Election.{handle_request_vote, handle_vote_response}
use raft_kv.Raft.PreVote.{handle_pre_vote_response, handle_timeout_now, tick}
use raft_kv.Raft.Install.{handle_install_snapshot}

pub data Event : Type 0 where
  ev_tick : Event
  ev_request_vote : RequestVoteRequest → Event
  ev_append_entries : AppendEntriesRequest → Event
  ev_install_snapshot : InstallSnapshotRequest → Event
  ev_timeout_now : TimeoutNowRequest → Event
  ev_vote_resp : ℕ → ℕ → Bool → RequestVoteResponse → Event
  ev_append_resp : ℕ → AppendEntriesRequest → AppendEntriesResponse → Event
  ev_snapshot_resp : ℕ → InstallSnapshotRequest → InstallSnapshotResponse → Event
  ev_conf_change : ConfChange → Event
  ev_transfer : ℕ → Event
  ev_read : Event
  ev_propose : Bytes → ℕ → Event

-- What goes back on the event's channel. An answer that is an error and does not halt the node is
-- `rejected`.
pub data Reply : Type 0 where
  nothing : Reply
  vote : RequestVoteResponse → Reply
  appended : AppendEntriesResponse → Reply
  installed : InstallSnapshotResponse → Reply
  proposed : ℕ → ℕ → Reply
  reading : ℕ → Reply
  rejected : Error → Reply

-- A result whose error halts the node.
unfoldable pub fatal : {A : Type 0} → (A → Reply) → Result A → Result Reply
fatal f (ok a) = ok (f a)
fatal f (err e) = err e
fatal f panic = panic

-- A result whose error is an answer.
unfoldable pub answer : {A : Type 0} → (A → Reply) → Result A → Result Reply
answer f (ok a) = ok (f a)
answer f (err e) = ok (rejected e)
answer f panic = panic

-- `errors.Is(err, errPersistFailure)` halts the node; other rejections are answers.
unfoldable pub proposal : Result (ℕ × ℕ) → Result Reply
proposal (ok p) = ok (proposed p.0 p.1)
proposal (err persist_failure) = err persist_failure
proposal (err e) = ok (rejected e)
proposal panic = panic

unfoldable pub reply_with : {A : Type 0} → (Result A → Result Reply) → Exec A → Exec Reply
reply_with f m s = let (r, t) = m s in (f r, t)

abbrev nothing_of : Unit {0} → Reply
nothing_of _ = nothing

unfoldable pub dispatch : Event → Exec Reply
dispatch ev_tick = reply_with (fatal nothing_of) tick
dispatch (ev_request_vote req) = reply_with (fatal vote) (handle_request_vote req)
dispatch (ev_append_entries req) = reply_with (fatal appended) (handle_append_entries req)
dispatch (ev_install_snapshot req) = reply_with (fatal installed) (handle_install_snapshot req)
dispatch (ev_timeout_now req) = reply_with (fatal nothing_of) (handle_timeout_now req)
dispatch (ev_vote_resp from campaign_term pre_vote resp) = reply_with (fatal nothing_of) (
    if pre_vote
    then handle_pre_vote_response from campaign_term resp
    else handle_vote_response from campaign_term resp)
dispatch (ev_append_resp from req resp) =
    reply_with (fatal nothing_of) (handle_append_response from req resp)
dispatch (ev_snapshot_resp from req resp) =
    reply_with (fatal nothing_of) (handle_install_snapshot_response from req resp)
dispatch (ev_conf_change cc) = reply_with proposal (propose_conf_change cc)
dispatch (ev_transfer to) = reply_with (answer nothing_of) (transfer_leadership to)
dispatch ev_read = reply_with (answer reading) request_read
dispatch (ev_propose command type) = reply_with proposal (propose command type)
