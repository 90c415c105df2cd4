-- ===== src/Raft/Persist.antt =====
-- internal/raft/state.go, log.go and raftsnap.go: what the core writes to disk.
use raft_kv.Common.{
  ℕ, ◌+◌, Bool, true, false, not, Option, none, some, List, [], ◌∷◌, ◌++◌, ◌==◌, if◌then◌else◌, u64,
}
use raft_kv.Common.Bytes.{Bytes}
use raft_kv.Record.{frame, write_file_atomic}
use raft_kv.Raft.Result.{Result, ok, err, disk_failed, log_failed, non_contiguous}
use raft_kv.Raft.Entry.{Entry, encode_entry}
use raft_kv.Raft.StateFile.{encode_state}
use raft_kv.Raft.Snapshot.{RaftSnapshot, encode_snapshot}
use raft_kv.Raft.Disk.{next_fault, later_faults, atomic_fault, append_file}
use raft_kv.Raft.Core.{Exec, ◌>>◌}

abbrev pub done : Bool → Result (Unit {0})
done true = ok tt
done false = err disk_failed

-- saveTermAndVote
unfoldable pub save_term_and_vote : ℕ → ℕ → Exec (Unit {0})
save_term_and_vote term voted_for s =
    let fault = atomic_fault (next_fault s.disk.faults) in
    let (fine, slot) = write_file_atomic fault (encode_state term voted_for) s.disk.state_file in
    (
      done fine,
      record s { disk = record s.disk { state_file = slot; faults = later_faults s.disk.faults } },
    )

-- persistRaftSnapshot
unfoldable pub persist_raft_snapshot : RaftSnapshot → Exec (Unit {0})
persist_raft_snapshot snap s =
    let fault = atomic_fault (next_fault s.disk.faults) in
    let (fine, slot) = write_file_atomic fault (encode_snapshot snap) s.disk.snap_file in
    (
      done fine,
      record s { disk = record s.disk { snap_file = slot; faults = later_faults s.disk.faults } },
    )

-- The frames of the entries, one after the other.
unfoldable pub frame_entries : List Entry → Bytes
frame_entries [] = []
frame_entries (e ∷ es) = frame [] (encode_entry e) ++ frame_entries es

-- The first pair of neighbours whose indices do not follow one another, later one first.
unfoldable pub gap : List Entry → Option (ℕ × ℕ)
gap [] = none
gap (e ∷ []) = none
gap (e ∷ f ∷ es) = if f.index == u64 (e.index + 1) then gap (f ∷ es) else some (f.index, e.index)

unfoldable pub write_entries : List Entry → Exec (Unit {0})
write_entries es s =
    let (fine, slot) = append_file (next_fault s.disk.faults) (frame_entries es) s.disk.log_file in
    (
      done fine,
      record s {
        log_failed = not fine;
        disk = record s.disk { log_file = slot; faults = later_faults s.disk.faults };
      },
    )

unfoldable pub append_checked : Option (ℕ × ℕ) → List Entry → Exec (Unit {0})
append_checked (some (i, j)) es s = (err (non_contiguous i j), s)
append_checked none [] s = (ok tt, s)
append_checked none (e ∷ es) s = write_entries (e ∷ es) s

-- logStore.append
unfoldable pub store_append : List Entry → Exec (Unit {0})
store_append es s = if s.log_failed then (err log_failed, s) else append_checked (gap es) es s

-- A step that either works or makes the log refuse all further writes: closing and reopening.
unfoldable pub log_step : Exec (Unit {0})
log_step s =
    let fine : Bool = elim (next_fault s.disk.faults) [ none ↦ true | some _ ↦ false ] in
    (
      done fine,
      record s {
        log_failed = not fine;
        disk = record s.disk { faults = later_faults s.disk.faults };
      },
    )

unfoldable pub replace_log : List Entry → Exec (Unit {0})
replace_log es s =
    let fault = atomic_fault (next_fault s.disk.faults) in
    let (fine, slot) = write_file_atomic fault (frame_entries es) s.disk.log_file in
    (
      done fine,
      record s {
        log_failed = not fine;
        disk = record s.disk { log_file = slot; faults = later_faults s.disk.faults };
      },
    )

-- logStore.rewrite
unfoldable pub store_rewrite : List Entry → Exec (Unit {0})
store_rewrite es s =
    if s.log_failed then (err log_failed, s) else (do log_step; replace_log es; log_step) s
