-- ===== src/Raft/Ballot/Dispatch.antt =====
-- internal/raft/node.go, `dispatch`: every event.
use raft_kv.Common.{◌+◌, ◌^◌, ◌<◌, ◌≡◌, refl, true, false}
use raft_kv.Raft.Result.{Result, ok, err, panic}
use raft_kv.Raft.Core.{Core, Exec}
use raft_kv.Raft.Leader.{handle_append_response, handle_install_snapshot_response}
use raft_kv.Raft.Install.{handle_install_snapshot}
use raft_kv.Raft.Node.{
  Event, ev_tick, ev_request_vote, ev_append_entries, ev_install_snapshot, ev_timeout_now,
  ev_vote_resp, ev_append_resp, ev_snapshot_resp, ev_conf_change, ev_transfer, ev_read, ev_propose,
  Reply, fatal, proposal, reply_with, dispatch,
}
use raft_kv.Raft.Ballot.Frame.{SameBallot}
use raft_kv.Raft.Ballot.Rules.{IsSafe, frame-IsSafe}
use raft_kv.Raft.Ballot.Leading.{
  propose_frame, propose_conf_change_frame, request_read_frame, transfer_frame,
}
use raft_kv.Raft.Ballot.Campaign.{InRange}
use raft_kv.Raft.Ballot.Voting.{
  handle_request_vote-IsSafe, handle_append_entries-IsSafe, handle_vote_response-IsSafe,
}
use raft_kv.Raft.Ballot.PreVoting.{
  handle_pre_vote_response-IsSafe, handle_timeout_now-IsSafe, tick-IsSafe,
}
use raft_kv.Raft.PreVote.{tick, handle_timeout_now, handle_pre_vote_response}
use raft_kv.Raft.Election.{handle_request_vote, handle_vote_response}
use raft_kv.Raft.Follower.{handle_append_entries}
use raft_kv.Raft.Leader.{propose, propose_conf_change, request_read, transfer_leadership}
use raft_kv.Raft.Ballot.Answers.{
  handle_install_snapshot-IsSafe, handle_append_response-IsSafe,
  handle_install_snapshot_response-IsSafe,
}

-- Turning the result into a reply makes no `ok` of an error that halts the node.
fatal_ok :
    {A : Type 0} (f : A → Reply) (r : Result A) (b : Reply)
    → fatal f r ≡ ok b
    → (a : A) × (r ≡ ok a)
unfolding fatal
fatal_ok f (ok a) b h = (a, refl)
fatal_ok f (err e) b h = cc
fatal_ok f panic b h = cc

fatal-IsSafe :
    {A : Type 0} (f : A → Reply) (m : Exec A) (s : Core)
    → IsSafe s (m s)
    → IsSafe s (reply_with (fatal f) m s)
unfolding reply_with
fatal-IsSafe f m s h = record {
  cfg = h.cfg;
  term = h.term;
  vote = h.vote;
  saved = λ r e sv. let (a, p) = fatal_ok f (m s).0 r e in h.saved a p sv;
}

-- A method that never touches the ballot is safe whatever becomes of its result.
reply_frame :
    {A : Type 0} (f : Result A → Result Reply) (m : Exec A) (s : Core)
    → SameBallot s (m s).1
    → IsSafe s (reply_with f m s)
unfolding reply_with
reply_frame f m s h = frame-IsSafe (f (m s).0, (m s).1) h

-- The terms and ids in an event are Go's, and leave room for one more campaign.
abbrev pub IsEvent : Event → Type 0
IsEvent (ev_request_vote req) = (req.term < 2 ^ 64) × (req.candidate_id < 2 ^ 64)
IsEvent (ev_append_entries req) = req.term < 2 ^ 64
IsEvent (ev_install_snapshot req) = req.term < 2 ^ 64
IsEvent (ev_timeout_now req) = req.term + 1 < 2 ^ 64
IsEvent (ev_vote_resp from campaign_term pre_vote resp) = resp.term < 2 ^ 64
IsEvent (ev_append_resp from req resp) = resp.term < 2 ^ 64
IsEvent (ev_snapshot_resp from req resp) = resp.term < 2 ^ 64
IsEvent _ = Unit {0}

-- Handling an event never lowers the term, never changes a vote that was cast in the current term,
-- and, unless it returns an error that halts the node, ends with the term and the vote on disk if
-- they were there before.
pub dispatch-IsSafe : (ev : Event) (s : Core) → IsEvent ev → InRange s → IsSafe s (dispatch ev s)
unfolding dispatch
dispatch-IsSafe ev_tick s e h = fatal-IsSafe _ tick s (tick-IsSafe s h)
dispatch-IsSafe (ev_request_vote req) s e h =
    fatal-IsSafe _ (handle_request_vote req) s (handle_request_vote-IsSafe req s e.0 e.1 h)
dispatch-IsSafe (ev_append_entries req) s e h =
    fatal-IsSafe _ (handle_append_entries req) s (handle_append_entries-IsSafe req s e)
dispatch-IsSafe (ev_install_snapshot req) s e h =
    fatal-IsSafe _ (handle_install_snapshot req) s (handle_install_snapshot-IsSafe req s e)
dispatch-IsSafe (ev_timeout_now req) s e h =
    fatal-IsSafe _ (handle_timeout_now req) s (handle_timeout_now-IsSafe req s e h)
dispatch-IsSafe (ev_vote_resp from campaign_term true resp) s e h =
    fatal-IsSafe _ (handle_pre_vote_response from campaign_term resp) s
      (handle_pre_vote_response-IsSafe from campaign_term resp s e h)
dispatch-IsSafe (ev_vote_resp from campaign_term false resp) s e h =
    fatal-IsSafe _ (handle_vote_response from campaign_term resp) s
      (handle_vote_response-IsSafe from campaign_term resp s e)
dispatch-IsSafe (ev_append_resp from req resp) s e h =
    fatal-IsSafe _ (handle_append_response from req resp) s
      (handle_append_response-IsSafe from req resp s e)
dispatch-IsSafe (ev_snapshot_resp from req resp) s e h =
    fatal-IsSafe _ (handle_install_snapshot_response from req resp) s
      (handle_install_snapshot_response-IsSafe from req resp s e)
dispatch-IsSafe (ev_conf_change cc) s e h =
    reply_frame proposal (propose_conf_change cc) s (propose_conf_change_frame cc s)
dispatch-IsSafe (ev_transfer to) s e h =
    reply_frame _ (transfer_leadership to) s (transfer_frame to s)
dispatch-IsSafe ev_read s e h = reply_frame _ request_read s (request_read_frame s)
dispatch-IsSafe (ev_propose command type) s e h =
    reply_frame proposal (propose command type) s (propose_frame command type s)
