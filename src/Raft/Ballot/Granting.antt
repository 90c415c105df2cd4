-- ===== src/Raft/Ballot/Granting.antt =====
-- internal/raft/core.go, `handleRequestVote`: a vote that is granted.
use raft_kv.Common.{ℕ, ◌≡◌, true, false, arith, ltb, Bool-cases, inl, inr, ==_iff}
use raft_kv.Raft.Result.{Result, ok, err, panic}
use raft_kv.Raft.Core.{Core, RequestVoteRequest, RequestVoteResponse, Exec, continue, ◌>>◌, gets}
use raft_kv.Raft.Persist.{save_term_and_vote}
use raft_kv.Raft.Replication.{reset_election_timer, adopt_term}
use raft_kv.Raft.Election.{
  save_state, record_vote, grant_vote, can_grant, cast_vote, handle_request_vote,
}
use raft_kv.Raft.Node.{ev_request_vote, vote, dispatch, reply_with, fatal}

-- The vote that the answer speaks of is the one in memory.
abbrev Voted : ℕ → RequestVoteResponse → Core → Type 0
Voted c x t = (t.voted_for ≡ c) × (x.term ≡ t.term)

record_vote-voted : (c : ℕ) (s : Core) → (record_vote c s).1.voted_for ≡ c
unfolding record_vote save_state save_term_and_vote
record_vote-voted c s = ground (arith, ==_iff s.voted_for c)

abbrev answering : Exec RequestVoteResponse
answering = do reset_election_timer; gets (λ u. record { term = u.term; vote_granted = true })

answer_with :
    (c : ℕ) (t : Core) (x : RequestVoteResponse)
    → t.voted_for ≡ c
    → (answering t).0 ≡ ok x
    → Voted c x (answering t).1
unfolding reset_election_timer
answer_with c t x v h = ground (arith, v, h)

continue_with :
    (c : ℕ) (r : Result (Unit {0})) (t : Core) (f : Unit {0} → Exec RequestVoteResponse)
    (x : RequestVoteResponse)
    → ((a : Unit {0}) → (f a t).0 ≡ ok x → Voted c x (f a t).1)
    → (continue r f t).0 ≡ ok x
    → Voted c x (continue r f t).1
continue_with c (ok a) t f x k h = k a h
continue_with c (err e) t f x k h = absurd (ground (arith, h))
continue_with c panic t f x k h = absurd (ground (arith, h))

grant_vote-Voted :
    (c : ℕ) (s : Core) (x : RequestVoteResponse)
    → (grant_vote c s).0 ≡ ok x
    → Voted c x (grant_vote c s).1
unfolding grant_vote
grant_vote-Voted c s x h =
    continue_with c (record_vote c s).0 (record_vote c s).1 _ x
      (λ a. answer_with c (record_vote c s).1 x (record_vote-voted c s)) h

refusal :
    (t : ℕ) (x : RequestVoteResponse)
    → ok (record { term = t; vote_granted = false }) ≡ ok x
    → x.vote_granted ≡ true
    → ⊥
refusal t x h g = ground (arith, h, g)

cast_vote-Voted :
    (req : RequestVoteRequest) (s : Core) (x : RequestVoteResponse)
    → (cast_vote req s).0 ≡ ok x
    → x.vote_granted ≡ true
    → Voted req.candidate_id x (cast_vote req s).1
unfolding cast_vote
cast_vote-Voted req s x h g = elim (Bool-cases (ltb req.term s.term)) [
  | inl b ↦ absurd (refusal s.term x (rw b at h) g)
  | inr b ↦ elim (Bool-cases (can_grant req s)) [
    | inl c ↦ rw (b, c) (grant_vote-Voted req.candidate_id s x (rw (b, c) at h))
    | inr c ↦ absurd (refusal s.term x (rw (b, c) at h) g)
  ]
]

request-Voted :
    (req : RequestVoteRequest) (x : RequestVoteResponse) (s : Core)
    → req.pre_vote ≡ false
    → (handle_request_vote req s).0 ≡ ok x
    → x.vote_granted ≡ true
    → Voted req.candidate_id x (handle_request_vote req s).1
unfolding handle_request_vote
request-Voted req x s p h g = simp p (
    continue_with req.candidate_id (adopt_term req.term s).0 (adopt_term req.term s).1 _ x
      (λ a k. cast_vote-Voted req (adopt_term req.term s).1 x k g) (simp p at h))

fatal-vote :
    (r : Result RequestVoteResponse) (x : RequestVoteResponse)
    → fatal vote r ≡ ok (vote x)
    → r ≡ ok x
unfolding fatal
fatal-vote (ok y) x h = ground (arith, h)
fatal-vote (err e) x h = absurd (ground (arith, h))
fatal-vote panic x h = absurd (ground (arith, h))

-- After a vote is granted it is the one in memory, in the term of the answer.
pub dispatch-granted :
    (req : RequestVoteRequest) (x : RequestVoteResponse) (s : Core)
    → req.pre_vote ≡ false
    → (dispatch (ev_request_vote req) s).0 ≡ ok (vote x)
    → x.vote_granted ≡ true
    → Voted req.candidate_id x (dispatch (ev_request_vote req) s).1
unfolding dispatch reply_with
dispatch-granted req x s p h g =
    request-Voted req x s p (fatal-vote (handle_request_vote req s).0 x h) g
