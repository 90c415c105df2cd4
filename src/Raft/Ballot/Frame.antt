-- ===== src/Raft/Ballot/Frame.antt =====
-- The methods that leave the term, the vote and the state file alone.
use raft_kv.Common.{
  ℕ, zero, suc, ◌+◌, ◌≡◌, refl, ◌∙◌, List, [], ◌∷◌, ◌++◌, ◌-◌, arith, ◌==◌, if◌then◌else◌,
  Option-cases, inl, inr,
}
use raft_kv.Raft.Result.{Result, ok, err, panic}
use raft_kv.Raft.Entry.{Entry, entry_config}
use raft_kv.Raft.Members.{ConfChange, decode_conf_change}
use raft_kv.Raft.Core.{Core, Exec, continue, ◌>>=◌}
use raft_kv.Raft.Log.{peer_ids, entry_at, last_log_index}
use raft_kv.Raft.Persist.{store_append, append_checked, write_entries}
use raft_kv.Raft.Membership.{
  apply_conf_change, track, apply_decoded, note_appended_configs, recalc_config,
}
use raft_kv.Raft.ReadIndex.{abort_pending_reads, confirm_reads, count_ack, note_fresh_ack}
use raft_kv.Raft.Replication.{
  reset_election_timer, send_append, send_entries, send_snapshot, mark_delivered, send_appends,
  broadcast_appends, leave_if_removed, deliver_from, deliver_committed, commit_point,
  maybe_advance_commit,
}

pub record SameBallot (s t : Core) : Type 0 where
  pub cfg : t.cfg ≡ s.cfg
  pub term : t.term ≡ s.term
  pub voted_for : t.voted_for ≡ s.voted_for
  pub state_file : t.disk.state_file ≡ s.disk.state_file

pub SameBallot-refl : (s : Core) → SameBallot s s
SameBallot-refl s = record { cfg = refl; term = refl; voted_for = refl; state_file = refl }

pub SameBallot-trans : {s t u : Core} → SameBallot s t → SameBallot t u → SameBallot s u
SameBallot-trans p q = record {
  cfg = q.cfg ∙ p.cfg;
  term = q.term ∙ p.term;
  voted_for = q.voted_for ∙ p.voted_for;
  state_file = q.state_file ∙ p.state_file;
}

continue_frame :
    {A B : Type 0} (s t : Core) (r : Result A) (f : A → Exec B)
    → SameBallot s t
    → ((a : A) (u : Core) → SameBallot u (f a u).1)
    → SameBallot s (continue r f t).1
continue_frame s t (ok a) f h k = SameBallot-trans h (k a t)
continue_frame s t (err e) f h k = h
continue_frame s t panic f h k = h

pub bind_frame :
    {A B : Type 0} (m : Exec A) (f : A → Exec B)
    → ((u : Core) → SameBallot u (m u).1)
    → ((a : A) (u : Core) → SameBallot u (f a u).1)
    → (s : Core) → SameBallot s ((m >>= f) s).1
bind_frame m f h k s = continue_frame s (m s).1 (m s).0 f (h s) k

pub abort_frame : (s : Core) → SameBallot s (abort_pending_reads s)
unfolding abort_pending_reads
abort_frame s = ground arith

pub timer_frame : (s : Core) → SameBallot s (reset_election_timer s).1
unfolding reset_election_timer
timer_frame s = ground arith

pub send_append_frame : (peer : ℕ) (s : Core) → SameBallot s (send_append peer s)
unfolding send_append send_entries send_snapshot
send_append_frame peer s = ground arith

send_appends_frame : (ids : List ℕ) (s : Core) → SameBallot s (send_appends ids s)
unfolding send_appends
send_appends_frame [] s = SameBallot-refl s
send_appends_frame (id ∷ ids) s =
    SameBallot-trans (send_append_frame id s) (send_appends_frame ids (send_append id s))

pub broadcast_frame : (s : Core) → SameBallot s (broadcast_appends s)
unfolding broadcast_appends
broadcast_frame s = send_appends_frame (peer_ids s) s

leave_frame : (e : Entry) (s : Core) → SameBallot s (leave_if_removed e s)
unfolding leave_if_removed abort_pending_reads
leave_frame e s = ground arith

deliver_from_frame : (n i : ℕ) (s : Core) → SameBallot s (deliver_from n i s).1
unfolding deliver_from
deliver_from_frame zero i s = SameBallot-refl s
deliver_from_frame (suc n) i s = elim (Option-cases (entry_at s.entries i)) [
  | inl e ↦ rw (e, deliver_from) (SameBallot-refl s)
  | inr (e, p) ↦
      let queued : Core = record s { committed = s.committed ++ (e ∷ []) } in
      rw (p, deliver_from)
        (SameBallot-trans {s = s} {t = queued} (ground arith) (
          SameBallot-trans (leave_frame e queued)
            (deliver_from_frame n (i + 1) (leave_if_removed e queued))))
]

pub deliver_frame : (s : Core) → SameBallot s (deliver_committed s).1
unfolding deliver_committed mark_delivered
deliver_frame s =
    ground (arith, deliver_from_frame (s.commit_index - s.last_delivered) (s.last_delivered + 1) s)

pub advance_frame : (s : Core) → SameBallot s (maybe_advance_commit s).1
unfolding maybe_advance_commit
advance_frame s = elim (Option-cases (commit_point s (last_log_index s))) [
  | inl e ↦ rw (e, maybe_advance_commit) (SameBallot-refl s)
  | inr (n, p) ↦
      let moved : Core = record s { commit_index = n } in
      rw (p, maybe_advance_commit)
        (SameBallot-trans {s = s} {t = moved} (ground arith) (deliver_frame moved))
]

pub store_append_frame : (es : List Entry) (s : Core) → SameBallot s (store_append es s).1
unfolding store_append append_checked write_entries
store_append_frame es s = ground arith

pub apply_change_frame :
    (cc : ConfChange) (i : ℕ) (s : Core) → SameBallot s (apply_conf_change cc i s)
unfolding apply_conf_change track
apply_change_frame cc i s = ground arith

apply_decoded_frame :
    (r : Result ConfChange) (i : ℕ) (s : Core) → SameBallot s (apply_decoded r i s)
unfolding apply_decoded
apply_decoded_frame (ok cc) i s = apply_change_frame cc i s
apply_decoded_frame (err e) i s = SameBallot-refl s
apply_decoded_frame panic i s = SameBallot-refl s

note_config_frame :
    (e : Entry) (s : Core)
    → SameBallot s (
        if e.type == entry_config
        then apply_decoded (decode_conf_change e.command) e.index s
        else s)
note_config_frame e s =
    ground (arith, apply_decoded_frame (decode_conf_change e.command) e.index s, SameBallot-refl s)

pub note_configs_frame : (es : List Entry) (s : Core) → SameBallot s (note_appended_configs es s)
unfolding note_appended_configs
note_configs_frame [] s = SameBallot-refl s
note_configs_frame (e ∷ es) s =
    let next : Core =
      if e.type == entry_config
      then apply_decoded (decode_conf_change e.command) e.index s
      else s in
    SameBallot-trans {t = next} (note_config_frame e s) (note_configs_frame es next)

pub recalc_frame : (s : Core) → SameBallot s (recalc_config s)
unfolding recalc_config
recalc_frame s = ground arith

pub confirm_frame : (s : Core) → SameBallot s (confirm_reads s)
unfolding confirm_reads
confirm_frame s = ground arith

pub fresh_ack_frame : (from seq : ℕ) (s : Core) → SameBallot s (note_fresh_ack from seq s)
unfolding note_fresh_ack
fresh_ack_frame from seq s =
    let counted : Core = record s { pending_reads = count_ack from seq s.pending_reads } in
    ground (arith, confirm_frame counted)
