-- ===== src/Raft/Ballot/Leading.antt =====
-- The leader's methods that leave the term, the vote and their file alone.
use raft_kv.Common.{ℕ, ◌+◌, [], ◌∷◌, arith, Option-cases, inl, inr, u64, length}
use raft_kv.Common.Assoc.{nat_eq, insert}
use raft_kv.Common.Bytes.{Bytes}
use raft_kv.Raft.Result.{ok}
use raft_kv.Raft.Entry.{Entry}
use raft_kv.Raft.Members.{ConfChange, encode_conf_change}
use raft_kv.Raft.Core.{Core, Exec, pure, ◌>>◌, AppendEntriesRequest, AppendEntriesResponse}
use raft_kv.Raft.Persist.{store_append}
use raft_kv.Raft.Membership.{apply_conf_change}
use raft_kv.Raft.ReadIndex.{confirm_reads, note_fresh_ack}
use raft_kv.Raft.Replication.{broadcast_appends, send_timeout_now, maybe_advance_commit}
use raft_kv.Raft.Follower.{push_entries}
use raft_kv.Raft.Leader.{
  persist, next_entry, append_own, propose, change_error, start_change, propose_conf_change,
  register_read, request_read, advance_match, fire_transfer, feed, append_accepted, append_rejected,
  current_response, note_installed, start_transfer, transfer_leadership,
}
use raft_kv.Raft.Ballot.Frame.{
  SameBallot, SameBallot-refl, SameBallot-trans, bind_frame, broadcast_frame, advance_frame,
  store_append_frame, apply_change_frame, confirm_frame, fresh_ack_frame, send_append_frame,
}
use raft_kv.Raft.Ballot.Following.{push_frame}

persist_frame :
    (m : Exec (Unit {0}))
    → ((u : Core) → SameBallot u (m u).1)
    → (s : Core) → SameBallot s (persist m s).1
unfolding persist
persist_frame m h s = h s

-- What follows the write of a leader's own entry.
announce : (ℕ × ℕ) → Exec (ℕ × ℕ)
announce p = do maybe_advance_commit; pure p

announce_frame : (p : ℕ × ℕ) (s : Core) → SameBallot s (announce p s).1
unfolding announce
announce_frame p s =
    bind_frame maybe_advance_commit (λ _. pure p) advance_frame (λ _ u. SameBallot-refl u) s

append_own_frame : (e : Entry) (s : Core) → SameBallot s (append_own e s).1
unfolding append_own announce
append_own_frame e s =
    bind_frame (persist (store_append (e ∷ [])))
      (λ _ u. announce (e.index, e.term) (broadcast_appends (push_entries (e ∷ []) u)))
      (persist_frame (store_append (e ∷ [])) (store_append_frame (e ∷ [])))
      (λ _ u. SameBallot-trans {t = push_entries (e ∷ []) u} (push_frame (e ∷ []) u) (
        SameBallot-trans {t = broadcast_appends (push_entries (e ∷ []) u)}
          (broadcast_frame (push_entries (e ∷ []) u))
          (announce_frame (e.index, e.term) (broadcast_appends (push_entries (e ∷ []) u)))))
      s

pub propose_frame :
    (command : Bytes) (type : ℕ) (s : Core) → SameBallot s (propose command type s).1
unfolding propose
propose_frame command type s =
    ground (arith, SameBallot-refl s, append_own_frame (next_entry command type s) s)

start_change_frame : (cc : ConfChange) (s : Core) → SameBallot s (start_change cc s).1
unfolding start_change
start_change_frame cc s =
    bind_frame (propose (encode_conf_change cc) 3) (λ p u. (ok p, apply_conf_change cc p.0 u))
      (propose_frame (encode_conf_change cc) 3) (λ p u. apply_change_frame cc p.0 u) s

pub propose_conf_change_frame :
    (cc : ConfChange) (s : Core) → SameBallot s (propose_conf_change cc s).1
unfolding propose_conf_change
propose_conf_change_frame cc s = elim (Option-cases (change_error cc s)) [
  | inl e ↦ rw (e, propose_conf_change) (ground (arith, SameBallot-refl s, start_change_frame cc s))
  | inr (x, e) ↦ rw (e, propose_conf_change) (ground (arith, SameBallot-refl s))
]

register_frame : (s : Core) → SameBallot s (register_read s)
unfolding register_read
register_frame s = ground arith

pub request_read_frame : (s : Core) → SameBallot s (request_read s).1
unfolding request_read
request_read_frame s =
    let t : Core = confirm_reads (register_read s) in
    let h : SameBallot s t =
      SameBallot-trans (register_frame s) (confirm_frame (register_read s)) in
    ground (arith, h, SameBallot-refl s, SameBallot-trans h (broadcast_frame t))

advance_match_frame : (from m : ℕ) (s : Core) → SameBallot s (advance_match from m s).1
unfolding advance_match
advance_match_frame from m s =
    let t : Core = record s {
      match_index = insert from m s.match_index;
      next_index = insert from (u64 (m + 1)) s.next_index;
    } in
    ground (arith, advance_frame t)

feed_frame : (from : ℕ) (s : Core) → SameBallot s (feed from s)
unfolding feed
feed_frame from s = ground (arith, send_append_frame from s, SameBallot-refl s)

fire_frame : (from : ℕ) (s : Core) → SameBallot s (fire_transfer from s)
unfolding fire_transfer send_timeout_now
fire_frame from s = ground arith

accepted_frame :
    (from : ℕ) (req : AppendEntriesRequest) (resp : AppendEntriesResponse) (s : Core)
    → SameBallot s (append_accepted from req resp s).1
unfolding append_accepted
accepted_frame from req resp s =
    SameBallot-trans {t = note_fresh_ack from resp.seq s} (fresh_ack_frame from resp.seq s) (
      bind_frame (advance_match from (u64 (req.prev_log_index + length req.entries)))
        (λ _ u. (ok tt, feed from (fire_transfer from u)))
        (advance_match_frame from (u64 (req.prev_log_index + length req.entries)))
        (λ _ u. SameBallot-trans (fire_frame from u) (feed_frame from (fire_transfer from u)))
        (note_fresh_ack from resp.seq s))

rejected_frame :
    (from : ℕ) (resp : AppendEntriesResponse) (s : Core)
    → SameBallot s (append_rejected from resp s)
unfolding append_rejected
rejected_frame from resp s = SameBallot-trans (ground arith) (send_append_frame from _)

pub response_frame :
    (from : ℕ) (req : AppendEntriesRequest) (resp : AppendEntriesResponse) (s : Core)
    → SameBallot s (current_response from req resp s).1
unfolding current_response
response_frame from req resp s =
    ground (arith, SameBallot-refl s, accepted_frame from req resp s, rejected_frame from resp s)

installed_frame : (from index : ℕ) (s : Core) → SameBallot s (note_installed from index s)
unfolding note_installed
installed_frame from index s = ground arith

pub installed_feed_frame :
    (from index : ℕ) (s : Core) → SameBallot s (feed from (note_installed from index s))
installed_feed_frame from index s =
    SameBallot-trans (installed_frame from index s) (feed_frame from (note_installed from index s))

start_transfer_frame : (to : ℕ) (s : Core) → SameBallot s (start_transfer to s)
unfolding start_transfer send_timeout_now
start_transfer_frame to s =
    let t : Core = record s { transfer_target = to; transfer_ticks = s.cfg.election_ticks_max } in
    ground (arith, send_append_frame to t)

pub transfer_frame : (to : ℕ) (s : Core) → SameBallot s (transfer_leadership to s).1
unfolding transfer_leadership
transfer_frame to s = ground (arith, SameBallot-refl s, start_transfer_frame to s)
