-- ===== src/Raft/Ballot/Campaign.antt =====
-- Stepping down and starting a campaign keep the ballot safe.
use raft_kv.Common.{
  ℕ, ◌+◌, ◌^◌, ◌<◌, ◌≡◌, refl, Bool, false, List, [], ◌∷◌, arith, Bool-cases, inl, inr, ltb, ltb→lt,
}
use raft_kv.Common.Assoc.{nat_eq}
use raft_kv.Raft.Result.{ok}
use raft_kv.Raft.Entry.{Entry}
use raft_kv.Raft.Core.{Core, Exec, modify, ◌>>=◌, ◌>>◌}
use raft_kv.Raft.Log.{peer_ids}
use raft_kv.Raft.Persist.{store_append}
use raft_kv.Raft.ReadIndex.{abort_pending_reads}
use raft_kv.Raft.Replication.{
  reset_election_timer, stand_down, step_down, adopt_term, broadcast_appends, maybe_advance_commit,
}
use raft_kv.Raft.Follower.{push_entries}
use raft_kv.Raft.Election.{
  take_office, append_noop, noop, maybe_win_election, ask_votes, ask_for_votes, become_candidate,
  save_state, start_campaign,
}
use raft_kv.Raft.Ballot.Frame.{
  SameBallot, SameBallot-refl, SameBallot-trans, bind_frame, timer_frame, broadcast_frame,
  advance_frame, store_append_frame,
}
use raft_kv.Raft.Ballot.Following.{push_frame}
use raft_kv.Raft.Ballot.Rules.{
  IsSafe, frame-IsSafe, Settles, save-Settles, Settles-bind, frame-Settles, Settles-IsSafe,
}

-- The numbers of a node are those of Go's `uint64`, and the term can still grow.
pub record InRange (s : Core) : Type 0 where
  pub id : s.cfg.id < 2 ^ 64
  pub term : s.term + 1 < 2 ^ 64

stand_down_term : (t : ℕ) (s : Core) → (stand_down t s).term ≡ t
unfolding stand_down abort_pending_reads
stand_down_term t s = refl

-- Discovering a higher term is safe.
pub step_down-IsSafe : (t : ℕ) (s : Core) → s.term < t → t < 2 ^ 64 → IsSafe s (step_down t s)
unfolding step_down stand_down abort_pending_reads
step_down-IsSafe t s higher fits =
    Settles-IsSafe s (stand_down t s) _ refl (omega arith) (λ e. absurd (omega arith))
      (save-Settles (stand_down t s) fits (omega arith))

pub adopt_term-IsSafe : (t : ℕ) (s : Core) → t < 2 ^ 64 → IsSafe s (adopt_term t s)
unfolding adopt_term
adopt_term-IsSafe t s fits = elim (Bool-cases (ltb s.term t)) [
  | inl e ↦ rw e (step_down-IsSafe t s (ltb→lt _ _ e) fits)
  | inr e ↦ rw e (frame-IsSafe (ok tt, s) (SameBallot-refl s))
]

office_frame : (s : Core) → SameBallot s (take_office s)
unfolding take_office
office_frame s = ground arith

append_noop_frame : (e : Entry) (s : Core) → SameBallot s (append_noop e s).1
unfolding append_noop
append_noop_frame e s =
    bind_frame (store_append (e ∷ []))
      (λ _ u. maybe_advance_commit (broadcast_appends (push_entries (e ∷ []) u)))
      (store_append_frame (e ∷ []))
      (λ _ u. SameBallot-trans {t = push_entries (e ∷ []) u} (push_frame (e ∷ []) u) (
        SameBallot-trans {t = broadcast_appends (push_entries (e ∷ []) u)}
          (broadcast_frame (push_entries (e ∷ []) u))
          (advance_frame (broadcast_appends (push_entries (e ∷ []) u)))))
      s

pub win_frame : (s : Core) → SameBallot s (maybe_win_election s).1
unfolding maybe_win_election
win_frame s = ground (
  arith,
  SameBallot-refl s,
  SameBallot-trans (office_frame s) (append_noop_frame (noop (take_office s)) (take_office s)),
)

pub ask_frame : (t : ℕ) (p : Bool) (ids : List ℕ) (s : Core) → SameBallot s (ask_votes t p ids s)
unfolding ask_votes
ask_frame t p [] s = SameBallot-refl s
ask_frame t p (id ∷ ids) s = SameBallot-trans (ground arith) (ask_frame t p ids _)

-- What `startCampaign` does once it is a candidate.
campaign : Exec (Unit {0})
campaign = do reset_election_timer; save_state; modify ask_for_votes; maybe_win_election

asked_win_frame : (s : Core) → SameBallot s (maybe_win_election (ask_for_votes s)).1
unfolding ask_for_votes
asked_win_frame s =
    SameBallot-trans (ask_frame s.term false (peer_ids s) s)
      (win_frame (ask_votes s.term false (peer_ids s) s))

pub save_state-Settles :
    (s : Core) → s.term < 2 ^ 64 → s.voted_for < 2 ^ 64 → Settles s (save_state s)
unfolding save_state
save_state-Settles = save-Settles

campaign-Settles : (s : Core) → s.term < 2 ^ 64 → s.voted_for < 2 ^ 64 → Settles s (campaign s)
unfolding campaign
campaign-Settles s ht hv =
    let timed = timer_frame s in
    frame-Settles reset_election_timer
      (λ _. save_state >>= λ _ u. maybe_win_election (ask_for_votes u)) s timed
      (λ _.
        Settles-bind save_state (λ _ u. maybe_win_election (ask_for_votes u))
          (reset_election_timer s).1
          (save_state-Settles (reset_election_timer s).1 (rw timed.term ht) (rw timed.voted_for hv))
          (λ _ u. asked_win_frame u))

pub start_campaign-IsSafe : (s : Core) → InRange s → IsSafe s (start_campaign s)
unfolding start_campaign become_candidate campaign
start_campaign-IsSafe s h =
    Settles-IsSafe s (become_candidate s) (campaign (become_candidate s)) refl (omega arith)
      (λ e. absurd (omega arith))
      (campaign-Settles (become_candidate s) (omega arith) (omega arith))
