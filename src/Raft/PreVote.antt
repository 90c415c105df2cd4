-- ===== src/Raft/PreVote.antt =====
-- internal/raft/leadership.go and core.go: pre-votes that are counted, transfers of leadership and the
-- clock.
use raft_kv.Common.{
  ℕ, ◌+◌, ◌-◌, Bool, true, not, ◌||◌, Option, none, some, ltb, leb, ◌==◌, if◌then◌else◌, u64,
  length,
}
use raft_kv.Common.Assoc.{Map, nat_eq, insert}
use raft_kv.Raft.Result.{ok}
use raft_kv.Raft.Core.{Core, RequestVoteResponse, TimeoutNowRequest, Exec, modify, ◌>>◌}
use raft_kv.Raft.Log.{majority, is_member}
use raft_kv.Raft.Membership.{is_leader}
use raft_kv.Raft.Replication.{reset_election_timer, step_down, adopt_term, broadcast_appends}
use raft_kv.Raft.Follower.{is_follower}
use raft_kv.Raft.Election.{ask_for_pre_votes, open_pre_votes, start_campaign}

unfoldable pub clear_pre_votes : Core → Core
clear_pre_votes s = record s { pre_votes = none }

unfoldable pub win_with : Option (Map ℕ Bool) → Exec (Unit {0})
win_with none s = (ok tt, s)
win_with (some m) s =
    if ltb (length m) (majority s) then (ok tt, s) else start_campaign (clear_pre_votes s)

unfoldable pub maybe_win_pre_vote : Exec (Unit {0})
maybe_win_pre_vote s = win_with s.pre_votes s

unfoldable pub start_pre_campaign : Exec (Unit {0})
start_pre_campaign = do
  modify open_pre_votes
  reset_election_timer
  modify ask_for_pre_votes
  maybe_win_pre_vote

unfoldable pub add_pre_vote : ℕ → Map ℕ Bool → Core → Core
add_pre_vote from m s = record s { pre_votes = some (insert from true m) }

unfoldable pub count_pre_vote : ℕ → Bool → Option (Map ℕ Bool) → Exec (Unit {0})
count_pre_vote from granted none s = (ok tt, s)
count_pre_vote from granted (some m) s =
    if granted then maybe_win_pre_vote (add_pre_vote from m s) else (ok tt, s)

unfoldable pub handle_pre_vote_response : ℕ → ℕ → RequestVoteResponse → Exec (Unit {0})
handle_pre_vote_response from asked_term resp s =
    if ltb s.term resp.term
    then step_down resp.term s
    else if not (is_follower s.role) || not (asked_term == u64 (s.term + 1))
    then (ok tt, s)
    else count_pre_vote from resp.vote_granted s.pre_votes s

unfoldable pub campaign_unless_stale : ℕ → Exec (Unit {0})
campaign_unless_stale term s = if ltb term s.term then (ok tt, s) else start_campaign s

unfoldable pub handle_timeout_now : TimeoutNowRequest → Exec (Unit {0})
handle_timeout_now req = do adopt_term req.term; campaign_unless_stale req.term

-- The tick of a leader.
unfoldable pub age_transfer : Core → Core
age_transfer s =
    if s.transfer_target == 0
    then s
    else if leb s.transfer_ticks 1
    then record s { transfer_ticks = s.transfer_ticks - 1; transfer_target = 0 }
    else record s { transfer_ticks = s.transfer_ticks - 1 }

unfoldable pub heartbeat : Core → Core
heartbeat s =
    if leb s.cfg.heartbeat_ticks (s.heartbeat_elapsed + 1)
    then broadcast_appends (record s { heartbeat_elapsed = 0 })
    else record s { heartbeat_elapsed = s.heartbeat_elapsed + 1 }

unfoldable pub election_timeout : Exec (Unit {0})
election_timeout s =
    if not (is_member s)
    then reset_election_timer s
    else if s.cfg.disable_pre_vote
    then start_campaign s
    else start_pre_campaign s

unfoldable pub count_tick : Core → Core
count_tick s = record s {
  election_elapsed = s.election_elapsed + 1;
  ticks_since_leader = s.ticks_since_leader + 1;
}

unfoldable pub wait_for_leader : Exec (Unit {0})
wait_for_leader s =
    if leb s.election_timeout (s.election_elapsed + 1)
    then election_timeout (count_tick s)
    else (ok tt, count_tick s)

unfoldable pub tick : Exec (Unit {0})
tick s =
    if is_leader s.role
    then (ok tt, heartbeat (age_transfer (record s { ticks_since_leader = 0 })))
    else wait_for_leader s
