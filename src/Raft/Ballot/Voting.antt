-- ===== src/Raft/Ballot/Voting.antt =====
-- internal/raft/core.go and replication.go: votes, their counting and what a follower does.
use raft_kv.Common.{
  ℕ, ◌^◌, ◌<◌, ◌≡◌, ◌≢◌, refl, sym, Bool, true, Option, none, some, arith, Bool-cases, inl, inr,
  ltb, ◌==◌, ltb→lt,
}
use raft_kv.Common.Assoc.{Map, nat_eq}
use raft_kv.Raft.Result.{ok}
use raft_kv.Raft.Core.{
  Core, gets, ◌>>=◌, RequestVoteRequest, RequestVoteResponse, AppendEntriesRequest,
}
use raft_kv.Raft.Persist.{save_term_and_vote}
use raft_kv.Raft.ReadIndex.{abort_pending_reads}
use raft_kv.Raft.Replication.{reset_election_timer, stand_down, step_down, adopt_term}
use raft_kv.Raft.Follower.{current_append, handle_append_entries}
use raft_kv.Raft.Election.{
  maybe_win_election, record_vote, grant_vote, can_grant, cast_vote, handle_request_vote,
  count_vote, handle_vote_response, add_vote,
}
use raft_kv.Raft.Ballot.Frame.{SameBallot, SameBallot-refl, bind_frame, timer_frame}
use raft_kv.Raft.Ballot.Following.{current_append_frame}
use raft_kv.Raft.Ballot.Campaign.{
  InRange, step_down-IsSafe, adopt_term-IsSafe, win_frame, save_state-Settles,
}
use raft_kv.Raft.Ballot.Rules.{IsSafe, frame-IsSafe, bind-IsSafe, Settles-IsSafe}

record_vote-IsSafe :
    (c : ℕ) (s : Core)
    → c < 2 ^ 64
    → s.term < 2 ^ 64
    → (s.voted_for ≢ 0 → s.voted_for ≡ c)
    → IsSafe s (record_vote c s)
unfolding record_vote
record_vote-IsSafe c s hc ht free = elim (Bool-cases (s.voted_for == c)) [
  | inl e ↦ rw e (frame-IsSafe (ok tt, s) (SameBallot-refl s))
  | inr e ↦ rw e (
      Settles-IsSafe s (record s { voted_for = c }) _ refl (omega arith) (λ _ v. sym (free v))
        (save_state-Settles (record s { voted_for = c }) ht hc))
]

grant_vote-IsSafe :
    (c : ℕ) (s : Core)
    → c < 2 ^ 64
    → s.term < 2 ^ 64
    → (s.voted_for ≢ 0 → s.voted_for ≡ c)
    → IsSafe s (grant_vote c s)
unfolding grant_vote
grant_vote-IsSafe c s hc ht free =
    bind-IsSafe (record_vote c)
      (λ _. reset_election_timer >>= λ _. gets (λ u. record { term = u.term; vote_granted = true }))
      s (record_vote-IsSafe c s hc ht free)
      (λ a _. frame-IsSafe _ (
        bind_frame reset_election_timer
          (λ _. gets (λ u. record { term = u.term; vote_granted = true })) timer_frame
          (λ _ u. SameBallot-refl u) (record_vote c s).1))

free_vote :
    (req : RequestVoteRequest) (s : Core)
    → can_grant req s ≡ true
    → s.voted_for ≢ 0
    → s.voted_for ≡ req.candidate_id
unfolding can_grant
free_vote req s h v = ground arith

cast_vote-IsSafe :
    (req : RequestVoteRequest) (s : Core)
    → req.candidate_id < 2 ^ 64
    → s.term < 2 ^ 64
    → IsSafe s (cast_vote req s)
unfolding cast_vote
cast_vote-IsSafe req s hc ht = elim (Bool-cases (ltb req.term s.term)) [
  | inl e ↦ rw e (frame-IsSafe (ok _, s) (SameBallot-refl s))
  | inr e ↦ elim (Bool-cases (can_grant req s)) [
    | inl g ↦ rw (e, g) (grant_vote-IsSafe req.candidate_id s hc ht (free_vote req s g))
    | inr g ↦ rw (e, g) (frame-IsSafe (ok _, s) (SameBallot-refl s))
  ]
]

adopted_term_fits :
    (t : ℕ) (s : Core) → t < 2 ^ 64 → s.term < 2 ^ 64 → (adopt_term t s).1.term < 2 ^ 64
unfolding adopt_term step_down stand_down abort_pending_reads save_term_and_vote
adopted_term_fits t s ht hs = ground arith

pub handle_request_vote-IsSafe :
    (req : RequestVoteRequest) (s : Core)
    → req.term < 2 ^ 64
    → req.candidate_id < 2 ^ 64
    → InRange s
    → IsSafe s (handle_request_vote req s)
unfolding handle_request_vote
handle_request_vote-IsSafe req s ht hc h = elim (Bool-cases req.pre_vote) [
  | inl e ↦ rw e (frame-IsSafe (ok _, s) (SameBallot-refl s))
  | inr e ↦ simp e (
      bind-IsSafe (adopt_term req.term) (λ _. cast_vote req) s (adopt_term-IsSafe req.term s ht)
        (λ a _.
          cast_vote-IsSafe req (adopt_term req.term s).1 hc
            (adopted_term_fits req.term s ht (omega arith))))
]

pub handle_append_entries-IsSafe :
    (req : AppendEntriesRequest) (s : Core)
    → req.term < 2 ^ 64
    → IsSafe s (handle_append_entries req s)
unfolding handle_append_entries
handle_append_entries-IsSafe req s ht =
    bind-IsSafe (adopt_term req.term) (λ _. current_append req) s (adopt_term-IsSafe req.term s ht)
      (λ a _. frame-IsSafe _ (current_append_frame req (adopt_term req.term s).1))

add_vote_frame :
    (from : ℕ) (o : Option (Map ℕ Bool)) (s : Core) → SameBallot s (add_vote from o s).1
unfolding add_vote
add_vote_frame from none s = SameBallot-refl s
add_vote_frame from (some m) s = ground arith

count_frame : (from : ℕ) (s : Core) → SameBallot s (count_vote from s).1
unfolding count_vote
count_frame from s = add_vote_frame from s.votes s

pub handle_vote_response-IsSafe :
    (from campaign_term : ℕ) (resp : RequestVoteResponse) (s : Core)
    → resp.term < 2 ^ 64
    → IsSafe s (handle_vote_response from campaign_term resp s)
unfolding handle_vote_response
handle_vote_response-IsSafe from campaign_term resp s ht =
    elim (Bool-cases (ltb s.term resp.term)) [
      | inl e ↦ rw e (step_down-IsSafe resp.term s (ltb→lt _ _ e) ht)
      | inr e ↦ rw e (
          frame-IsSafe _ (
            ground (
              arith,
              SameBallot-refl s,
              bind_frame (count_vote from) (λ _. maybe_win_election) (count_frame from)
                  (λ _. win_frame) s,
            )))
    ]
