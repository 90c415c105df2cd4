-- ===== src/Raft/Ballot/Safety.antt =====
-- A node votes once in a term, however its events and restarts are ordered.
use raft_kv.Common.{ℕ, ◌≤◌, ◌≡◌, ◌≢◌, refl, sym, ◌∙◌, true, false, List, arith}
use raft_kv.Raft.Result.{ok}
use raft_kv.Raft.Core.{Core, Config, RequestVoteRequest, RequestVoteResponse}
use raft_kv.Raft.Boot.{new_core}
use raft_kv.Raft.Node.{Event, ev_request_vote, Reply, vote, dispatch}
use raft_kv.Raft.Ballot.Rules.{IsSaved}
use raft_kv.Raft.Ballot.Campaign.{InRange}
use raft_kv.Raft.Ballot.Dispatch.{IsEvent, dispatch-IsSafe}
use raft_kv.Raft.Ballot.Granting.{dispatch-granted}
use raft_kv.Raft.Ballot.Restart.{restart_ballot}

-- What a node goes through: events, each handled without a halting error, and restarts between
-- events, with any flags.
pub data Reach (s : Core) : Core → Type 0 where
  here : Reach s s
  next :
      {t : Core} (ev : Event) (r : Reply)
      → Reach s t
      → IsEvent ev
      → InRange t
      → (dispatch ev t).0 ≡ ok r
      → Reach s (dispatch ev t).1
  restart :
      {t : Core} (cfg : Config) (rng : List ℕ) (u : Core)
      → Reach s t
      → new_core cfg rng t.disk ≡ ok u
      → Reach s u

Reach-ballot :
    {s t : Core}
    → Reach s t
    → IsSaved s
    → (s.term ≤ t.term)
      × (t.term ≡ s.term → s.voted_for ≢ 0 → t.voted_for ≡ s.voted_for)
      × IsSaved t
Reach-ballot here sv = (omega arith, λ _ _. refl, sv)
Reach-ballot {s} (next {t} ev r path e h done) sv =
    let (term, ballot, kept) = Reach-ballot path sv in
    let safe = dispatch-IsSafe ev t e h in
    (
      omega (arith, safe.term),
      λ same v.
          let still : t.term ≡ s.term = omega (arith, safe.term) in
          safe.vote (same ∙ sym still) (λ z. v (sym (ballot still v) ∙ z)) ∙ ballot still v,
      safe.saved r done kept,
    )
Reach-ballot (restart {t} cfg rng u path booted) sv =
    let (term, ballot, kept) = Reach-ballot path sv in
    let (term', vote', kept') = restart_ballot cfg rng t u kept booted in
    (omega (arith, term'), λ same v. vote' ∙ ballot (sym term' ∙ same) v, kept')

Reach-vote :
    {s t : Core}
    → Reach s t
    → IsSaved s
    → t.term ≡ s.term
    → s.voted_for ≢ 0
    → t.voted_for ≡ s.voted_for
Reach-vote path sv = (Reach-ballot path sv).1

-- A node whose term and vote are on disk grants a vote to a candidate with an id other than 0. It
-- then handles any events, with terms and ids in the range of their types and no error that halts
-- it, and is restarted any number of times in between. If it then grants a vote again, and the two
-- answers have the same term, the candidate is the same.
pub Reach-one_vote :
    {s t : Core} (a b : RequestVoteRequest) (x y : RequestVoteResponse)
    → IsSaved s
    → IsEvent (ev_request_vote a) × InRange s
    → IsEvent (ev_request_vote b) × InRange t
    → (a.pre_vote ≡ false) × (b.pre_vote ≡ false)
    → a.candidate_id ≢ 0
    → (dispatch (ev_request_vote a) s).0 ≡ ok (vote x)
    → Reach (dispatch (ev_request_vote a) s).1 t
    → (dispatch (ev_request_vote b) t).0 ≡ ok (vote y)
    → (x.vote_granted ≡ true) × (y.vote_granted ≡ true)
    → x.term ≡ y.term
    → a.candidate_id ≡ b.candidate_id
Reach-one_vote {s} {t} a b x y sv (ea, ha) (eb, hb) (pa, pb) id da path db (gx, gy) same =
    let first = dispatch-granted a x s pa da gx in
    let last = dispatch-granted b y t pb db gy in
    let whole : Reach (dispatch (ev_request_vote a) s).1 (dispatch (ev_request_vote b) t).1 =
      next (ev_request_vote b) (vote y) path eb hb db in
    let saved = (dispatch-IsSafe (ev_request_vote a) s ea ha).saved (vote x) da sv in
    sym first.0
    ∙ sym (Reach-vote whole saved (sym last.1 ∙ sym same ∙ first.1) (λ z. id (sym first.0 ∙ z)))
    ∙ last.0

-- A node whose term and vote are on disk handles any events, with terms and ids in the range of
-- their types and no error that halts it, and is restarted any number of times in between. Its
-- term has not fallen, and its term and its vote are again on disk.
pub Reach-IsSaved : {s t : Core} → Reach s t → IsSaved s → (s.term ≤ t.term) × IsSaved t
Reach-IsSaved path sv = let (term, ballot, kept) = Reach-ballot path sv in (term, kept)
