-- ===== src/Raft/Order/Frame.antt =====
-- The methods that leave the log, its commit index and the delivery mark alone.
use raft_kv.Common.{ℕ, ◌≡◌, refl, ◌∙◌, Bool, List, [], ◌∷◌, arith, if◌then◌else◌, ◌==◌}
use raft_kv.Raft.Result.{Result, ok, err, panic}
use raft_kv.Raft.Entry.{Entry, entry_config}
use raft_kv.Raft.Members.{ConfChange, decode_conf_change}
use raft_kv.Raft.Core.{Core}
use raft_kv.Raft.Persist.{save_term_and_vote, store_append, append_checked, write_entries}
use raft_kv.Raft.Membership.{
  apply_conf_change, track, apply_decoded, note_appended_configs, recalc_config,
}
use raft_kv.Raft.ReadIndex.{abort_pending_reads}
use raft_kv.Raft.Replication.{
  reset_election_timer, stand_down, step_down, adopt_term, leave_if_removed,
}
use raft_kv.Raft.Follower.{follow, note_contact, settle_config, recognize_leader}
use raft_kv.Raft.Order.Shape.{IsLog}

pub record SameLog (s t : Core) : Type 0 where
  pub cfg : t.cfg ≡ s.cfg
  pub entries : t.entries ≡ s.entries
  pub commit_index : t.commit_index ≡ s.commit_index
  pub last_delivered : t.last_delivered ≡ s.last_delivered
  pub snap_index : t.snap_index ≡ s.snap_index
  pub snap_term : t.snap_term ≡ s.snap_term

pub SameLog-refl : (s : Core) → SameLog s s
SameLog-refl s = record {
  cfg = refl;
  entries = refl;
  commit_index = refl;
  last_delivered = refl;
  snap_index = refl;
  snap_term = refl;
}

pub SameLog-trans : {s t u : Core} → SameLog s t → SameLog t u → SameLog s u
SameLog-trans p q = record {
  cfg = q.cfg ∙ p.cfg;
  entries = q.entries ∙ p.entries;
  commit_index = q.commit_index ∙ p.commit_index;
  last_delivered = q.last_delivered ∙ p.last_delivered;
  snap_index = q.snap_index ∙ p.snap_index;
  snap_term = q.snap_term ∙ p.snap_term;
}

pub IsLog-same : {s t : Core} → SameLog s t → IsLog s → IsLog t
IsLog-same f h = rw (f.snap_index, f.entries, f.commit_index, f.last_delivered) h

pub leave_log : (e : Entry) (s : Core) → SameLog s (leave_if_removed e s)
unfolding leave_if_removed abort_pending_reads
leave_log e s = ground arith

pub adopt_log : (t : ℕ) (s : Core) → SameLog s (adopt_term t s).1
unfolding adopt_term step_down stand_down abort_pending_reads save_term_and_vote
adopt_log t s = ground arith

pub store_append_log : (es : List Entry) (s : Core) → SameLog s (store_append es s).1
unfolding store_append append_checked write_entries
store_append_log es s = ground arith

pub recognize_log : (id : ℕ) (s : Core) → SameLog s (recognize_leader id s).1
unfolding recognize_leader follow note_contact reset_election_timer
recognize_log id s = ground arith

apply_decoded_log : (r : Result ConfChange) (i : ℕ) (s : Core) → SameLog s (apply_decoded r i s)
unfolding apply_decoded apply_conf_change track
apply_decoded_log (ok cc) i s = ground arith
apply_decoded_log (err e) i s = SameLog-refl s
apply_decoded_log panic i s = SameLog-refl s

note_config_log :
    (e : Entry) (s : Core)
    → SameLog s (
        if e.type == entry_config
        then apply_decoded (decode_conf_change e.command) e.index s
        else s)
note_config_log e s =
    ground (arith, apply_decoded_log (decode_conf_change e.command) e.index s, SameLog-refl s)

note_configs_log : (es : List Entry) (s : Core) → SameLog s (note_appended_configs es s)
unfolding note_appended_configs
note_configs_log [] s = SameLog-refl s
note_configs_log (e ∷ es) s = SameLog-trans (note_config_log e s) (note_configs_log es _)

recalc_log : (s : Core) → SameLog s (recalc_config s)
unfolding recalc_config
recalc_log s = ground arith

pub settle_log : (b : Bool) (es : List Entry) (s : Core) → SameLog s (settle_config b es s)
unfolding settle_config
settle_log b es s = ground (arith, recalc_log s, note_configs_log es s)
