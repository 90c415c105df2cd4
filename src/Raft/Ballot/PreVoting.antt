-- ===== src/Raft/Ballot/PreVoting.antt =====
-- internal/raft/leadership.go and core.go: pre-votes, transfers and the clock.
use raft_kv.Common.{
  ℕ, ◌+◌, ◌^◌, ◌<◌, Bool, true, false, not, Option, none, some, arith, Bool-cases, inl, inr, ltb,
  leb, if◌then◌else◌, u64, length, ltb→lt,
}
use raft_kv.Common.Assoc.{Map, nat_eq}
use raft_kv.Raft.Result.{Result, ok}
use raft_kv.Raft.Core.{Core, RequestVoteResponse, TimeoutNowRequest}
use raft_kv.Raft.Log.{majority, peer_ids, is_member}
use raft_kv.Raft.Persist.{save_term_and_vote}
use raft_kv.Raft.Membership.{is_leader}
use raft_kv.Raft.ReadIndex.{abort_pending_reads}
use raft_kv.Raft.Replication.{reset_election_timer, stand_down, step_down, adopt_term}
use raft_kv.Raft.Election.{ask_for_pre_votes, open_pre_votes}
use raft_kv.Raft.PreVote.{
  maybe_win_pre_vote, start_pre_campaign, clear_pre_votes, win_with, add_pre_vote,
  campaign_unless_stale, count_tick, count_pre_vote, handle_pre_vote_response, handle_timeout_now,
  age_transfer, heartbeat, election_timeout, wait_for_leader, tick,
}
use raft_kv.Raft.Ballot.Frame.{
  SameBallot, SameBallot-refl, SameBallot-trans, timer_frame, broadcast_frame,
}
use raft_kv.Raft.Ballot.Campaign.{
  InRange, step_down-IsSafe, adopt_term-IsSafe, ask_frame, start_campaign-IsSafe,
}
use raft_kv.Raft.Ballot.Rules.{IsSafe, frame-IsSafe, after_frame, bind-IsSafe}

win_with-IsSafe : (o : Option (Map ℕ Bool)) (s : Core) → InRange s → IsSafe s (win_with o s)
unfolding win_with clear_pre_votes
win_with-IsSafe none s h = frame-IsSafe (ok tt, s) (SameBallot-refl s)
win_with-IsSafe (some m) s h = elim (Bool-cases (ltb (length m) (majority s))) [
  | inl e ↦ rw e (frame-IsSafe (ok tt, s) (SameBallot-refl s))
  | inr e ↦ rw e (
      after_frame s (clear_pre_votes s) _ (ground arith)
        (start_campaign-IsSafe (clear_pre_votes s) (record { id = h.id; term = h.term })))
]

win_pre_vote-IsSafe : (s : Core) → InRange s → IsSafe s (maybe_win_pre_vote s)
unfolding maybe_win_pre_vote
win_pre_vote-IsSafe s h = win_with-IsSafe s.pre_votes s h

-- A step that leaves the ballot alone leaves it in range.
InRange-frame : {s t : Core} → SameBallot s t → InRange s → InRange t
InRange-frame f h = record { id = rw f.cfg h.id; term = omega (arith, f.term, h.term) }

open_frame : (s : Core) → SameBallot s (open_pre_votes s)
unfolding open_pre_votes
open_frame s = ground arith

ask_pre_frame : (s : Core) → SameBallot s (ask_for_pre_votes s)
unfolding ask_for_pre_votes
ask_pre_frame s = ask_frame (u64 (s.term + 1)) true (peer_ids s) s

pub start_pre_campaign-IsSafe : (s : Core) → InRange s → IsSafe s (start_pre_campaign s)
unfolding start_pre_campaign
start_pre_campaign-IsSafe s h =
    let opened : Core = open_pre_votes s in
    let timed : SameBallot opened (reset_election_timer opened).1 = timer_frame opened in
    after_frame s opened _ (open_frame s) (
      bind-IsSafe reset_election_timer (λ _ u. maybe_win_pre_vote (ask_for_pre_votes u)) opened
        (frame-IsSafe (reset_election_timer opened) timed)
        (λ a _.
          let t : Core = (reset_election_timer opened).1 in
          after_frame t (ask_for_pre_votes t) _ (ask_pre_frame t) (
            win_pre_vote-IsSafe (ask_for_pre_votes t) (
              InRange-frame (ask_pre_frame t)
                (InRange-frame timed (InRange-frame (open_frame s) h))))))

count_pre_vote-IsSafe :
    (from : ℕ) (granted : Bool) (o : Option (Map ℕ Bool)) (s : Core)
    → InRange s
    → IsSafe s (count_pre_vote from granted o s)
unfolding count_pre_vote add_pre_vote
count_pre_vote-IsSafe from granted none s h = frame-IsSafe (ok tt, s) (SameBallot-refl s)
count_pre_vote-IsSafe from true (some m) s h =
    after_frame s (add_pre_vote from m s) _ (ground arith)
      (win_pre_vote-IsSafe (add_pre_vote from m s) (record { id = h.id; term = h.term }))
count_pre_vote-IsSafe from false (some m) s h = frame-IsSafe (ok tt, s) (SameBallot-refl s)

pub handle_pre_vote_response-IsSafe :
    (from asked_term : ℕ) (resp : RequestVoteResponse) (s : Core)
    → resp.term < 2 ^ 64
    → InRange s
    → IsSafe s (handle_pre_vote_response from asked_term resp s)
unfolding handle_pre_vote_response
handle_pre_vote_response-IsSafe from asked resp s ht h = elim (Bool-cases (ltb s.term resp.term)) [
  | inl e ↦ rw e (step_down-IsSafe resp.term s (ltb→lt _ _ e) ht)
  | inr e ↦ rw e (if_safe _ s _ (count_pre_vote-IsSafe from resp.vote_granted s.pre_votes s h))
]
  where
    if_safe :
        (b : Bool) (u : Core) (o : Result (Unit {0}) × Core)
        → IsSafe u o
        → IsSafe u (if b then (ok tt, u) else o)
    if_safe true u o k = frame-IsSafe (ok tt, u) (SameBallot-refl u)
    if_safe false u o k = k

campaign_unless_stale-IsSafe : (t : ℕ) (s : Core) → InRange s → IsSafe s (campaign_unless_stale t s)
unfolding campaign_unless_stale
campaign_unless_stale-IsSafe t s h = elim (Bool-cases (ltb t s.term)) [
  | inl e ↦ rw e (frame-IsSafe (ok tt, s) (SameBallot-refl s))
  | inr e ↦ rw e (start_campaign-IsSafe s h)
]

adopted-InRange : (t : ℕ) (s : Core) → t + 1 < 2 ^ 64 → InRange s → InRange (adopt_term t s).1
unfolding adopt_term step_down stand_down abort_pending_reads save_term_and_vote
adopted-InRange t s ht h = ground arith

pub handle_timeout_now-IsSafe :
    (req : TimeoutNowRequest) (s : Core)
    → req.term + 1 < 2 ^ 64
    → InRange s
    → IsSafe s (handle_timeout_now req s)
unfolding handle_timeout_now
handle_timeout_now-IsSafe req s ht h =
    bind-IsSafe (adopt_term req.term) (λ _. campaign_unless_stale req.term) s
      (adopt_term-IsSafe req.term s (omega arith))
      (λ a _.
        campaign_unless_stale-IsSafe req.term (adopt_term req.term s).1
          (adopted-InRange req.term s ht h))

election_timeout-IsSafe : (s : Core) → InRange s → IsSafe s (election_timeout s)
unfolding election_timeout
election_timeout-IsSafe s h = elim (Bool-cases (not (is_member s))) [
  | inl e ↦ rw e (frame-IsSafe (reset_election_timer s) (timer_frame s))
  | inr e ↦ elim (Bool-cases s.cfg.disable_pre_vote) [
    | inl d ↦ simp (e, d) (start_campaign-IsSafe s h)
    | inr d ↦ simp (e, d) (start_pre_campaign-IsSafe s h)
  ]
]

count_tick_frame : (s : Core) → SameBallot s (count_tick s)
unfolding count_tick
count_tick_frame s = ground arith

wait_for_leader-IsSafe : (s : Core) → InRange s → IsSafe s (wait_for_leader s)
unfolding wait_for_leader
wait_for_leader-IsSafe s h =
    let counted : Core = count_tick s in
    let f : SameBallot s counted = count_tick_frame s in
    elim (Bool-cases (leb s.election_timeout (s.election_elapsed + 1))) [
      | inl e ↦
          rw e (after_frame s counted _ f (election_timeout-IsSafe counted (InRange-frame f h)))
      | inr e ↦ rw e (frame-IsSafe (ok tt, counted) f)
    ]

heartbeat_frame : (s : Core) → SameBallot s (heartbeat s)
unfolding heartbeat
heartbeat_frame s =
    let t : Core = record s { heartbeat_elapsed = 0 } in ground (arith, broadcast_frame t)

leader_tick_frame : (s : Core) → SameBallot s (age_transfer (record s { ticks_since_leader = 0 }))
unfolding age_transfer
leader_tick_frame s = ground arith

pub tick-IsSafe : (s : Core) → InRange s → IsSafe s (tick s)
unfolding tick
tick-IsSafe s h = elim (Bool-cases (is_leader s.role)) [
  | inl e ↦ simp e (frame-IsSafe _ (SameBallot-trans (leader_tick_frame s) (heartbeat_frame _)))
  | inr e ↦ simp e (wait_for_leader-IsSafe s h)
]
