-- ===== src/Raft/Ballot/Following.antt =====
-- The methods of a follower that leave the ballot alone.
use raft_kv.Common.{
  ℕ, ◌+◌, Bool, List, [], ◌∷◌, arith, Bool-cases, ltb, leb, min, u64, length, inl, inr,
}
use raft_kv.Raft.Entry.{Entry}
use raft_kv.Raft.Core.{Core, modify, AppendEntriesRequest}
use raft_kv.Raft.Persist.{store_append}
use raft_kv.Raft.Replication.{reset_election_timer}
use raft_kv.Raft.Follower.{
  follow, note_contact, push_entries, settle_config, recognize_leader, truncate_suffix, cut_suffix,
  append_at, truncate_and_append, append_new, follow_commit, new_entries, accept_entries, match_log,
  current_append,
}
use raft_kv.Raft.Ballot.Frame.{
  SameBallot, SameBallot-refl, SameBallot-trans, bind_frame, timer_frame, deliver_frame,
  store_append_frame, note_configs_frame, recalc_frame,
}

follow_leader_frame : (id : ℕ) (s : Core) → SameBallot s (follow id s)
unfolding follow
follow_leader_frame id s = ground arith

contact_frame : (s : Core) → SameBallot s (note_contact s)
unfolding note_contact
contact_frame s = ground arith

pub recognize_frame : (id : ℕ) (s : Core) → SameBallot s (recognize_leader id s).1
unfolding recognize_leader
recognize_frame id s = SameBallot-trans {t = follow id s} (follow_leader_frame id s) (
    bind_frame reset_election_timer (λ _. modify note_contact) timer_frame (λ _. contact_frame)
      (follow id s))

cut_frame : (first : ℕ) (s : Core) → SameBallot s (truncate_suffix first s).1
unfolding truncate_suffix cut_suffix
cut_frame first s = ground arith

pub push_frame : (es : List Entry) (s : Core) → SameBallot s (push_entries es s)
unfolding push_entries
push_frame es s = ground arith

settle_frame : (b : Bool) (es : List Entry) (s : Core) → SameBallot s (settle_config b es s)
unfolding settle_config
settle_frame b es s = ground (arith, recalc_frame s, note_configs_frame es s)

append_at_frame : (first : ℕ) (es : List Entry) (s : Core) → SameBallot s (append_at first es s).1
unfolding append_at
append_at_frame first es s = elim (Bool-cases (leb first s.commit_index)) [
  | inl e ↦ rw e (SameBallot-refl s)
  | inr e ↦ rw e (
      bind_frame (truncate_suffix first) _ (cut_frame first)
        (λ undone. bind_frame (store_append es) _ (store_append_frame es) (λ _ u.
          SameBallot-trans {t = push_entries es u} (push_frame es u)
            (settle_frame undone es (push_entries es u))))
        s)
]

pub truncate_frame : (es : List Entry) (s : Core) → SameBallot s (truncate_and_append es s).1
unfolding truncate_and_append
truncate_frame [] s = SameBallot-refl s
truncate_frame (e ∷ es) s = append_at_frame e.index (e ∷ es) s

pub append_new_frame : (es : List Entry) (s : Core) → SameBallot s (append_new es s).1
append_new_frame [] s = SameBallot-refl s
append_new_frame (e ∷ es) s = truncate_frame (e ∷ es) s

pub follow_frame : (req : AppendEntriesRequest) (s : Core) → SameBallot s (follow_commit req s).1
unfolding follow_commit
follow_frame req s =
    let moved : Core = record s {
      commit_index = min req.leader_commit (u64 (req.prev_log_index + length req.entries));
    } in
    ground (arith, deliver_frame moved)

accept_frame : (req : AppendEntriesRequest) (s : Core) → SameBallot s (accept_entries req s).1
unfolding accept_entries
accept_frame req s =
    bind_frame (append_new (new_entries s req.entries)) _
      (append_new_frame (new_entries s req.entries))
      (λ _. bind_frame (follow_commit req) _ (follow_frame req) (λ _ u. SameBallot-refl u)) s

pub match_frame : (req : AppendEntriesRequest) (s : Core) → SameBallot s (match_log req s).1
unfolding match_log
match_frame req s = ground (arith, SameBallot-refl s, accept_frame req s)

-- Once the request's term is adopted, `handleAppendEntries` leaves term and vote alone.
pub current_append_frame :
    (req : AppendEntriesRequest) (s : Core) → SameBallot s (current_append req s).1
unfolding current_append
current_append_frame req s = elim (Bool-cases (ltb req.term s.term)) [
  | inl e ↦ rw e (SameBallot-refl s)
  | inr e ↦ rw e (
      bind_frame (recognize_leader req.leader_id) _ (recognize_frame req.leader_id)
        (λ _. match_frame req) s)
]
