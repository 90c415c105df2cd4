-- ===== src/Raft/Install.antt =====
-- internal/raft/raftsnap.go: compaction of the log, and the installation of a leader's snapshot.
use raft_kv.Common.{
  ℕ, ◌+◌, ◌-◌, ◌^◌, ◌&&◌, ◌||◌, Option, none, some, List, [], ◌∷◌, ltb, leb, ◌==◌, if◌then◌else◌,
  u64, length, drop, max,
}
use raft_kv.Common.Bytes.{Bytes}
use raft_kv.Common.Assoc.{Map}
use raft_kv.Raft.Result.{Result, ok, err, panic, not_applied}
use raft_kv.Raft.Entry.{Entry}
use raft_kv.Raft.Members.{decode_members}
use raft_kv.Raft.Snapshot.{RaftSnapshot}
use raft_kv.Raft.Core.{
  Core, InstallSnapshotRequest, InstallSnapshotResponse, Exec, modify, gets, ◌>>=◌, ◌>>◌,
}
use raft_kv.Raft.Log.{last_log_index, term_at}
use raft_kv.Raft.Persist.{persist_raft_snapshot, store_rewrite}
use raft_kv.Raft.Membership.{recalc_config, config_at}
use raft_kv.Raft.Replication.{adopt_term}
use raft_kv.Raft.Follower.{recognize_leader}

-- c.entries[index-base+1:]; `none` is a panic: `c.entries[0]` of an empty slice, or a start beyond
-- its end.
unfoldable pub suffix_after : ℕ → List Entry → Option (List Entry)
suffix_after index [] = none
suffix_after index (e ∷ es) =
    let start = u64 (index + 2 ^ 64 - e.index + 1) in
    if ltb (length (e ∷ es)) start then none else some (drop start (e ∷ es))

abbrev pub snapshot_at : ℕ → Bytes → Core → RaftSnapshot
snapshot_at applied_index sm_data s = record {
  last_index = applied_index;
  last_term = term_at s applied_index;
  config = config_at s applied_index;
  payload = sm_data;
}

unfoldable pub set_base : RaftSnapshot → List Entry → Core → Core
set_base snap keep s = record s {
  entries = keep;
  snap_index = snap.last_index;
  snap_term = snap.last_term;
  snap_config = snap.config;
}

-- Rewrite the log file, then let memory follow.
unfoldable pub move_base : RaftSnapshot → List Entry → Exec (Unit {0})
move_base snap keep = do store_rewrite keep; modify (set_base snap keep)

unfoldable pub move_to : RaftSnapshot → Option (List Entry) → Exec (Unit {0})
move_to snap none s = (panic, s)
move_to snap (some keep) s = move_base snap keep s

unfoldable pub drop_through : RaftSnapshot → Exec (Unit {0})
drop_through snap s = move_to snap (suffix_after snap.last_index s.entries) s

unfoldable pub compact_through : RaftSnapshot → Exec (Unit {0})
compact_through snap = do persist_raft_snapshot snap; drop_through snap

unfoldable pub compact : ℕ → Bytes → Exec (Unit {0})
compact applied_index sm_data s =
    if leb applied_index s.snap_index
    then (ok tt, s)
    else if ltb s.last_delivered applied_index
    then (err (not_applied applied_index s.last_delivered), s)
    else compact_through (snapshot_at applied_index sm_data s) s

-- The suffix that continues the snapshot coherently, or nothing.
unfoldable pub kept_suffix : ℕ → ℕ → Core → Option (List Entry)
kept_suffix index term s =
    if leb index (last_log_index s) && (term_at s index == term)
    then suffix_after index s.entries
    else some []

-- `append([]byte(nil), b...)` is nil if there is nothing to copy.
unfoldable pub copy_bytes : Bytes → Option Bytes
copy_bytes [] = none
copy_bytes (b ∷ bs) = some (b ∷ bs)

unfoldable pub raise_commit : RaftSnapshot → Core → Core
raise_commit snap s = record s {
  commit_index = max s.commit_index snap.last_index;
  last_delivered = max s.last_delivered snap.last_index;
}

-- What installing does once the log file is rewritten.
unfoldable pub adopt_snapshot : RaftSnapshot → Core → Core
adopt_snapshot snap s =
    let t = recalc_config (raise_commit snap s) in
    record t { pending_restore = copy_bytes snap.payload }

unfoldable pub replace_suffix : RaftSnapshot → Exec (Unit {0})
replace_suffix snap s = move_to snap (kept_suffix snap.last_index snap.last_term s) s

unfoldable pub install_decoded : RaftSnapshot → Exec (Unit {0})
install_decoded snap = do
  persist_raft_snapshot snap
  replace_suffix snap
  modify (adopt_snapshot snap)

unfoldable pub lift : {A : Type 0} → Result A → Exec A
lift r s = (r, s)

abbrev pub received : InstallSnapshotRequest → Map ℕ Bytes → RaftSnapshot
received req config = record {
  last_index = req.last_included_index;
  last_term = req.last_included_term;
  config = config;
  payload = req.payload;
}

unfoldable pub install : InstallSnapshotRequest → Exec (Unit {0})
install req s =
    if leb req.last_included_index s.snap_index || leb req.last_included_index s.commit_index
    then (ok tt, s)
    else (do config ← lift (decode_members req.config); install_decoded (received req config)) s

unfoldable pub current_install : InstallSnapshotRequest → Exec InstallSnapshotResponse
current_install req s =
    if ltb req.term s.term
    then (ok (record { term = s.term }), s)
    else (do recognize_leader req.leader_id; install req; gets (λ t. record { term = t.term })) s

unfoldable pub handle_install_snapshot : InstallSnapshotRequest → Exec InstallSnapshotResponse
handle_install_snapshot req = do adopt_term req.term; current_install req
