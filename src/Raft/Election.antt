-- ===== src/Raft/Election.antt =====
-- internal/raft/core.go and leadership.go: campaigns and votes.
use raft_kv.Common.{
  ℕ, ◌+◌, Bool, true, false, not, ◌&&◌, ◌||◌, Option, none, some, List, [], ◌∷◌, ◌++◌, ltb, ◌==◌,
  if◌then◌else◌, u64, length,
}
use raft_kv.Common.Assoc.{Map, nat_eq, insert}
use raft_kv.Raft.Result.{ok, panic}
use raft_kv.Raft.Entry.{Entry, entry_noop}
use raft_kv.Raft.StateFile.{no_vote}
use raft_kv.Raft.Core.{
  Core, Role, candidate, leader, RequestVoteRequest, RequestVoteResponse, request_vote, Exec,
  modify, gets, ◌>>◌,
}
use raft_kv.Raft.Log.{last_log_index, last_log_term, majority, peer_ids, log_up_to_date}
use raft_kv.Raft.Persist.{save_term_and_vote, store_append}
use raft_kv.Raft.Replication.{
  reset_election_timer, step_down, adopt_term, broadcast_appends, maybe_advance_commit,
}
use raft_kv.Raft.Follower.{push_entries}

abbrev pub is_candidate : Role → Bool
is_candidate candidate = true
is_candidate _ = false

-- `len` of a map that may be nil.
abbrev pub size : Option (Map ℕ Bool) → ℕ
size none = 0
size (some m) = length m

unfoldable pub frontier : ℕ → List ℕ → Map ℕ ℕ
frontier next [] = []
frontier next (id ∷ ids) = insert id next (frontier next ids)

-- The fields that `maybeWinElection` sets before it writes.
unfoldable pub take_office : Core → Core
take_office s = record s {
  role = leader;
  leader_id = s.cfg.id;
  heartbeat_elapsed = 0;
  pre_votes = none;
  transfer_target = 0;
  next_index = frontier (u64 (last_log_index s + 1)) (peer_ids s);
  match_index = [];
}

abbrev pub noop : Core → Entry
noop s = record {
  term = s.term;
  index = u64 (last_log_index s + 1);
  type = entry_noop;
  command = [];
}

unfoldable pub append_noop : Entry → Exec (Unit {0})
append_noop e = do
  store_append (e ∷ [])
  modify (push_entries (e ∷ []))
  modify broadcast_appends
  maybe_advance_commit

unfoldable pub maybe_win_election : Exec (Unit {0})
maybe_win_election s =
    if not (is_candidate s.role) || ltb (size s.votes) (majority s)
    then (ok tt, s)
    else append_noop (noop (take_office s)) (take_office s)

-- One request for each peer.
unfoldable pub ask_votes : ℕ → Bool → List ℕ → Core → Core
ask_votes term pre_vote [] s = s
ask_votes term pre_vote (id ∷ ids) s = ask_votes term pre_vote ids (record s {
  outbox =
      s.outbox
      ++ (record {
        to = id;
        message = request_vote (record {
          term = term;
          candidate_id = s.cfg.id;
          last_log_index = last_log_index s;
          last_log_term = last_log_term s;
          pre_vote = pre_vote;
        });
      }
          ∷ []);
})

unfoldable pub ask_for_votes : Core → Core
ask_for_votes s = ask_votes s.term false (peer_ids s) s

unfoldable pub ask_for_pre_votes : Core → Core
ask_for_pre_votes s = ask_votes (u64 (s.term + 1)) true (peer_ids s) s

unfoldable pub open_pre_votes : Core → Core
open_pre_votes s = record s { pre_votes = some ((s.cfg.id, true) ∷ []) }

unfoldable pub become_candidate : Core → Core
become_candidate s = record s {
  role = candidate;
  term = u64 (s.term + 1);
  voted_for = s.cfg.id;
  leader_id = 0;
  votes = some ((s.cfg.id, true) ∷ []);
}

-- `saveState(c.term, c.votedFor)`
unfoldable pub save_state : Exec (Unit {0})
save_state s = save_term_and_vote s.term s.voted_for s

unfoldable pub start_campaign : Exec (Unit {0})
start_campaign = do
  modify become_candidate
  reset_election_timer
  save_state
  modify ask_for_votes
  maybe_win_election

-- leadership.go
unfoldable pub handle_pre_vote : RequestVoteRequest → Core → RequestVoteResponse
handle_pre_vote req s =
    if not (s.leader_id == 0) && ltb s.ticks_since_leader s.cfg.election_ticks_min
    then record { term = s.term; vote_granted = false }
    else record {
      term = s.term;
      vote_granted = ltb s.term req.term && log_up_to_date s req.last_log_index req.last_log_term;
    }

-- The vote is on disk before the answer exists.
unfoldable pub record_vote : ℕ → Exec (Unit {0})
record_vote candidate_id s =
    if s.voted_for == candidate_id
    then (ok tt, s)
    else save_state (record s { voted_for = candidate_id })

unfoldable pub grant_vote : ℕ → Exec RequestVoteResponse
grant_vote candidate_id = do
  record_vote candidate_id
  reset_election_timer
  gets (λ s. record { term = s.term; vote_granted = true })

unfoldable pub can_grant : RequestVoteRequest → Core → Bool
can_grant req s =
    ((s.voted_for == no_vote) || (s.voted_for == req.candidate_id))
    && log_up_to_date s req.last_log_index req.last_log_term

unfoldable pub cast_vote : RequestVoteRequest → Exec RequestVoteResponse
cast_vote req s =
    if ltb req.term s.term
    then (ok (record { term = s.term; vote_granted = false }), s)
    else if can_grant req s
    then grant_vote req.candidate_id s
    else (ok (record { term = s.term; vote_granted = false }), s)

unfoldable pub handle_request_vote : RequestVoteRequest → Exec RequestVoteResponse
handle_request_vote req s =
    if req.pre_vote
    then (ok (handle_pre_vote req s), s)
    else (do adopt_term req.term; cast_vote req) s

-- A write to a nil map panics.
unfoldable pub add_vote : ℕ → Option (Map ℕ Bool) → Exec (Unit {0})
add_vote from none s = (panic, s)
add_vote from (some m) s = (ok tt, record s { votes = some (insert from true m) })

unfoldable pub count_vote : ℕ → Exec (Unit {0})
count_vote from s = add_vote from s.votes s

unfoldable pub handle_vote_response : ℕ → ℕ → RequestVoteResponse → Exec (Unit {0})
handle_vote_response from campaign_term resp s =
    if ltb s.term resp.term
    then step_down resp.term s
    else if not (is_candidate s.role) || not (campaign_term == s.term)
    then (ok tt, s)
    else if resp.vote_granted
    then (do count_vote from; maybe_win_election) s
    else (ok tt, s)
