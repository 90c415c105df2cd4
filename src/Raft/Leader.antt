-- ===== src/Raft/Leader.antt =====
-- internal/raft, what a leader does: proposals, membership changes, read barriers, the answers to
-- its messages, and the transfer of leadership (replication.go, membership.go, readindex.go,
-- leadership.go, raftsnap.go).
use raft_kv.Common.{
  ℕ, ◌+◌, ◌-◌, true, not, ◌&&◌, ◌||◌, Option, none, some, [], ◌∷◌, ◌++◌, ltb, leb, ◌==◌,
  if◌then◌else◌, u64, length, max, ◌^◌,
}
use raft_kv.Common.Bytes.{Bytes, bytes_eq}
use raft_kv.Common.Assoc.{nat_eq, lookup, insert, value, has}
use raft_kv.Raft.Result.{
  Error, ok, err, panic, not_leader, leader_not_ready, persist_failure, change_in_flight,
  already_member, not_member,
}
use raft_kv.Raft.Entry.{Entry, entry_config}
use raft_kv.Raft.Members.{ConfChange, conf_change_add, encode_conf_change}
use raft_kv.Raft.Core.{
  Core, AppendEntriesRequest, AppendEntriesResponse, InstallSnapshotRequest,
  InstallSnapshotResponse, Exec, pure, modify, ◌>>=◌, ◌>>◌,
}
use raft_kv.Raft.Log.{last_log_index, term_at, last_index_of_term}
use raft_kv.Raft.Persist.{store_append}
use raft_kv.Raft.Membership.{is_leader, apply_conf_change}
use raft_kv.Raft.ReadIndex.{confirm_reads, all_confirmed, note_fresh_ack}
use raft_kv.Raft.Follower.{push_entries}
use raft_kv.Raft.Replication.{
  step_down, send_append, broadcast_appends, send_timeout_now, maybe_advance_commit,
}

-- Every error of the log's append is wrapped in `errPersistFailure`.
unfoldable pub persist : Exec (Unit {0}) → Exec (Unit {0})
persist m s =
    let (r, s') = m s in (elim r [ err _ ↦ err persist_failure | ok u ↦ ok u | panic ↦ panic ], s')

abbrev pub next_entry : Bytes → ℕ → Core → Entry
next_entry command type s = record {
  term = s.term;
  index = u64 (last_log_index s + 1);
  type = type;
  command = command;
}

unfoldable pub append_own : Entry → Exec (ℕ × ℕ)
append_own e = do
  persist (store_append (e ∷ []))
  modify (push_entries (e ∷ []))
  modify broadcast_appends
  maybe_advance_commit
  pure (e.index, e.term)

unfoldable pub propose : Bytes → ℕ → Exec (ℕ × ℕ)
propose command type s =
    if not (is_leader s.role)
    then (err (not_leader s.leader_id), s)
    else if not (s.transfer_target == 0)
    then (err (not_leader s.transfer_target), s)
    else append_own (next_entry command type s) s

-- The errors of a change to the membership that makes no sense.
unfoldable pub change_error : ConfChange → Core → Option Error
change_error cc s =
    if cc.op == conf_change_add
    then elim (lookup cc.id s.members) [
      | none ↦ none
      | some addr ↦ (if bytes_eq addr cc.addr then some (already_member cc.id) else none)
    ]
    else if has cc.id s.members
    then none
    else some (not_member cc.id)

unfoldable pub start_change : ConfChange → Exec (ℕ × ℕ)
start_change cc = do
  (index, term) ← propose (encode_conf_change cc) entry_config
  modify (apply_conf_change cc index)
  pure (index, term)

unfoldable pub propose_conf_change : ConfChange → Exec (ℕ × ℕ)
propose_conf_change cc s =
    if not (is_leader s.role)
    then (err (not_leader s.leader_id), s)
    else if ltb s.commit_index s.last_config_index
    then (err (change_in_flight s.last_config_index s.commit_index), s)
    else elim (change_error cc s) [ some e ↦ (err e, s) | none ↦ start_change cc s ]

unfoldable pub register_read : Core → Core
register_read s = record s {
  read_counter = u64 (s.read_counter + 1);
  pending_reads =
      s.pending_reads
      ++ (record {
        id = u64 (s.read_counter + 1);
        index = s.commit_index;
        min_seq = u64 (s.append_seq + 1);
        acks = (s.cfg.id, true) ∷ [];
      }
          ∷ []);
}

unfoldable pub request_read : Exec ℕ
request_read s =
    if not (is_leader s.role)
    then (err (not_leader s.leader_id), s)
    else if not (term_at s s.commit_index == s.term)
    then (err leader_not_ready, s)
    else (let t = confirm_reads (register_read s) in
        (ok (u64 (s.read_counter + 1)), if all_confirmed t then t else broadcast_appends t))

-- A successful answer moves the frontier of its sender.
unfoldable pub advance_match : ℕ → ℕ → Exec (Unit {0})
advance_match from m s =
    if ltb (value from s.match_index) m
    then maybe_advance_commit (record s {
      match_index = insert from m s.match_index;
      next_index = insert from (u64 (m + 1)) s.next_index;
    })
    else (ok tt, s)

unfoldable pub fire_transfer : ℕ → Core → Core
fire_transfer from s =
    if (from == s.transfer_target) && (value from s.match_index == last_log_index s)
    then send_timeout_now from s
    else s

unfoldable pub feed : ℕ → Core → Core
feed from s = if leb (value from s.next_index) (last_log_index s) then send_append from s else s

unfoldable pub append_accepted : ℕ → AppendEntriesRequest → AppendEntriesResponse → Exec (Unit {0})
append_accepted from req resp = do
  modify (note_fresh_ack from resp.seq)
  advance_match from (u64 (req.prev_log_index + length req.entries))
  modify (fire_transfer from)
  modify (feed from)

-- Where to retry, from the hints of a rejection.
unfoldable pub retry_index : AppendEntriesResponse → Core → ℕ
retry_index resp s =
    let last = last_index_of_term s resp.conflict_term in
    let next =
      (if not (resp.conflict_term == 0) && not (last == 0)
        then u64 (last + 1)
        else resp.conflict_index) in
    if next == 0 then 1 else next

unfoldable pub append_rejected : ℕ → AppendEntriesResponse → Core → Core
append_rejected from resp s =
    let stored = value from s.next_index in
    let next =
      (if ltb (retry_index resp s) stored
        then retry_index resp s
        else max 1 (u64 (stored + 2 ^ 64 - 1))) in
    send_append from (record s { next_index = insert from next s.next_index })

unfoldable pub current_response : ℕ → AppendEntriesRequest → AppendEntriesResponse → Exec (Unit {0})
current_response from req resp s =
    if not (is_leader s.role) || not (req.term == s.term)
    then (ok tt, s)
    else if resp.success
    then append_accepted from req resp s
    else (ok tt, append_rejected from resp s)

unfoldable pub handle_append_response :
    ℕ → AppendEntriesRequest → AppendEntriesResponse → Exec (Unit {0})
handle_append_response from req resp s =
    if ltb s.term resp.term then step_down resp.term s else current_response from req resp s

unfoldable pub note_installed : ℕ → ℕ → Core → Core
note_installed from index s =
    if ltb (value from s.match_index) index
    then record s {
      match_index = insert from index s.match_index;
      next_index = insert from (u64 (index + 1)) s.next_index;
    }
    else s

unfoldable pub handle_install_snapshot_response :
    ℕ → InstallSnapshotRequest → InstallSnapshotResponse → Exec (Unit {0})
handle_install_snapshot_response from req resp s =
    if ltb s.term resp.term
    then step_down resp.term s
    else if not (is_leader s.role) || not (req.term == s.term)
    then (ok tt, s)
    else (ok tt, feed from (note_installed from req.last_included_index s))

unfoldable pub start_transfer : ℕ → Core → Core
start_transfer to s =
    let t = record s { transfer_target = to; transfer_ticks = s.cfg.election_ticks_max } in
    if value to t.match_index == last_log_index t then send_timeout_now to t else send_append to t

unfoldable pub transfer_leadership : ℕ → Exec (Unit {0})
transfer_leadership to s =
    if not (is_leader s.role)
    then (err (not_leader s.leader_id), s)
    else if to == s.cfg.id
    then (ok tt, s)
    else if not (has to s.members)
    then (err (not_member to), s)
    else (ok tt, start_transfer to s)
