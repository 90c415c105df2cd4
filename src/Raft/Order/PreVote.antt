-- ===== src/Raft/Order/PreVote.antt =====
-- internal/raft/leadership.go and core.go: a pre-vote and the vote that it announces.
use raft_kv.Common.{ℕ, ◌<◌, ◌≡◌, refl, ◌∙◌, true, false, [], arith, ltb}
use raft_kv.Raft.Result.{ok}
use raft_kv.Record.{write_file_atomic}
use raft_kv.Raft.StateFile.{no_vote}
use raft_kv.Raft.Disk.{atomic_fault}
use raft_kv.Raft.Core.{Core, RequestVoteRequest}
use raft_kv.Raft.Log.{log_up_to_date, last_log_index, last_log_term}
use raft_kv.Raft.Persist.{save_term_and_vote}
use raft_kv.Raft.ReadIndex.{abort_pending_reads}
use raft_kv.Raft.Replication.{reset_election_timer, stand_down, step_down, adopt_term}
use raft_kv.Raft.Election.{
  save_state, handle_pre_vote, record_vote, grant_vote, can_grant, cast_vote, handle_request_vote,
}
use raft_kv.Raft.Order.Frame.{SameLog, adopt_log}
use raft_kv.Raft.Order.Follow.{HasTiming}

-- A voter's state in which it will grant a vote, with no failure ahead.
record IsReady (req : RequestVoteRequest) (s : Core) : Type 0 where
  faults : s.disk.faults ≡ []
  term : s.term ≡ req.term
  free : s.voted_for ≡ no_vote
  up_to_date : log_up_to_date s req.last_log_index req.last_log_term ≡ true
  timing : HasTiming s

save_works :
    (term voted_for : ℕ) (s : Core)
    → s.disk.faults ≡ []
    → (save_term_and_vote term voted_for s).0 ≡ ok tt
unfolding save_term_and_vote atomic_fault write_file_atomic
save_works term voted_for s h = simp h refl

save_faults :
    (term voted_for : ℕ) (s : Core)
    → s.disk.faults ≡ []
    → (save_term_and_vote term voted_for s).1.disk.faults ≡ []
unfolding save_term_and_vote
save_faults term voted_for s h = simp h refl

up_to_date-same : {s t : Core} (i j : ℕ) → SameLog s t → log_up_to_date t i j ≡ log_up_to_date s i j
unfolding log_up_to_date last_log_index last_log_term
up_to_date-same i j f = rw (f.entries, f.snap_index, f.snap_term) refl

adopt-save :
    (term : ℕ) (s : Core)
    → s.term < term
    → adopt_term term s ≡ save_term_and_vote term no_vote (stand_down term s)
unfolding adopt_term step_down
adopt-save term s h = let b : ltb s.term term ≡ true = ground arith in rw (b, adopt_term) refl

adopt-IsReady :
    (req : RequestVoteRequest) (s : Core)
    → s.disk.faults ≡ []
    → HasTiming s
    → s.term < req.term
    → log_up_to_date s req.last_log_index req.last_log_term ≡ true
    → ((adopt_term req.term s).0 ≡ ok tt) × IsReady req (adopt_term req.term s).1
unfolding stand_down abort_pending_reads save_term_and_vote
adopt-IsReady req s faults timing later up =
    let adopted = adopt-save req.term s later in
    let f : SameLog s (save_term_and_vote req.term no_vote (stand_down req.term s)).1 =
      rw adopted at (adopt_log req.term s) in
    let up' = up_to_date-same req.last_log_index req.last_log_term f ∙ up in
    let works = save_works req.term no_vote (stand_down req.term s) faults in
    let left = save_faults req.term no_vote (stand_down req.term s) faults in
    rw adopted
      (works, record { faults = left; term = refl; free = refl; up_to_date = up'; timing = timing })

cast_ready :
    (req : RequestVoteRequest) (s : Core)
    → IsReady req s
    → (cast_vote req s).0 ≡ ok (record { term = req.term; vote_granted = true })
unfolding cast_vote can_grant grant_vote record_vote save_state save_term_and_vote atomic_fault
    write_file_atomic reset_election_timer
cast_ready req s h = ground (arith, h.faults, h.term, h.free, h.up_to_date, h.timing)

-- The same question as a real vote.
abbrev pub as_vote : RequestVoteRequest → RequestVoteRequest
as_vote req = record req { pre_vote = false }

granted_pre_vote :
    (req : RequestVoteRequest) (s : Core)
    → (handle_pre_vote req s).vote_granted ≡ true
    → (s.term < req.term) × (log_up_to_date s req.last_log_index req.last_log_term ≡ true)
unfolding handle_pre_vote
granted_pre_vote req s h = ground (arith, h)

cast_after :
    (req : RequestVoteRequest) (s : Core)
    → ((adopt_term req.term s).0 ≡ ok tt)
    → ((cast_vote req (adopt_term req.term s).1).0
        ≡ ok (record { term = req.term; vote_granted = true }))
    → req.pre_vote ≡ false
    → (handle_request_vote req s).0 ≡ ok (record { term = req.term; vote_granted = true })
unfolding handle_request_vote cast_vote can_grant
cast_after req s h c p = rw (p, h, handle_request_vote) c

-- A voter that grants a pre-vote grants the vote itself when it is asked next, if no write to disk
-- fails and the election timeout range is not empty.
pub handle_request_vote-granted :
    (req : RequestVoteRequest) (s : Core)
    → HasTiming s
    → s.disk.faults ≡ []
    → (handle_pre_vote req s).vote_granted ≡ true
    → (handle_request_vote (as_vote req) s).0 ≡ ok (record { term = req.term; vote_granted = true })
handle_request_vote-granted req s timing faults h =
    let (later, up) = granted_pre_vote req s h in
    let (adopted, ready) = adopt-IsReady (as_vote req) s faults timing later up in
    cast_after (as_vote req) s adopted (cast_ready (as_vote req) (adopt_term req.term s).1 ready)
      refl
