-- ===== src/Storage/Store.antt =====
-- internal/storage/store.go: the durable store, with `createWAL`, `openWALForAppend` and `rotate` of
-- wal.go. The methods run under the lock, so each is one step.
pub mod View
pub mod Durable
pub mod Covered
pub mod Snapshotting
pub mod Writes
pub mod Reload
pub mod Reopen
pub mod Calls
pub mod Kept
pub mod Refinement
pub mod Stray
use raft_kv.Common.{
  ℕ, ◌+◌, ◌*◌, ◌^◌, Bool, true, false, not, ◌||◌, Option, none, some, List, [], ◌∷◌, ◌++◌, ltb,
  ◌==◌, if◌then◌else◌, u64, length, take,
}
use raft_kv.Common.Bytes.{Bytes}
use raft_kv.Common.Assoc.{has, bytes_key}
use raft_kv.Storage.Command.{Command, op_put, op_delete, encode_command}
use raft_kv.Storage.MemStore.{Store, get, apply_command}
use raft_kv.Storage.Wal.{
  Segment, Wal, Fault, WalError, append, Replayed, replayed, replay_failed, replay_wal,
}
use raft_kv.Storage.Snapshot.{
  SnapFile, SnapError, WriteFault, Loaded, loaded, load_failed, write_snapshot,
  load_newest_snapshot, remove_files, prune_snapshots,
}

-- The zero value of the options picks 16 MiB.
abbrev pub default_snapshot_threshold : ℕ
default_snapshot_threshold = 2 ^ 24

-- The handle and the two directories. `wal` is the segment that is open, with the first sequence
-- number `wal_start`. The other segments stand before it in `older`, or after it in `newer`: a
-- segment that was created and then not taken into use.
pub record DurableStore : Type 0 where
  pub mem : Store
  pub wal : Wal
  pub wal_start : ℕ
  pub older : List Segment
  pub newer : List Segment
  pub snaps : List SnapFile
  pub seq : ℕ
  pub snapshot_threshold : ℕ

-- `createWAL` fails before the file exists, or in the sync of the directory after it.
pub data CreateFault : Type 0 where
  not_created dir_unsynced : CreateFault

-- What goes wrong in one snapshot. `close` is that of the old segment; `remove` and `prune` are the
-- numbers of the removals that fail.
pub record SnapshotFaults : Type 0 where
  pub write : Option WriteFault
  pub create : Option CreateFault
  pub close : Bool
  pub remove : Option ℕ
  pub prune : Option ℕ

pub data StoreError : Type 0 where
  wal_append : WalError → StoreError
  wal_failed : StoreError
  disk_failed : StoreError
  segment_exists : ℕ → StoreError
  recover_snapshot : SnapError → StoreError
  replay_error : WalError → StoreError

-- Every segment in order, as `listSegments` returns them.
unfoldable pub list_segments : DurableStore → List Segment
list_segments s = s.older ++ (record { start_seq = s.wal_start; content = s.wal.content } ∷ s.newer)

unfoldable pub has_segment : ℕ → List Segment → Bool
has_segment start [] = false
has_segment start (g ∷ gs) = (g.start_seq == start) || has_segment start gs

abbrev pub empty_segment : ℕ → Segment
empty_segment start = record { start_seq = start; content = [] }

-- The new segment becomes the one that is open.
unfoldable pub switch_to : ℕ → DurableStore → DurableStore
switch_to start s = record s {
  wal = record { content = []; size = 0; failed = s.wal.failed };
  wal_start = start;
  older = list_segments s;
  newer = [];
}

unfoldable pub rotate_with :
    Option CreateFault → Bool → ℕ → DurableStore → Option StoreError × DurableStore
rotate_with (some not_created) close start s = (some disk_failed, s)
rotate_with (some dir_unsynced) close start s =
    (some disk_failed, record s { newer = s.newer ++ (empty_segment start ∷ []) })
rotate_with none close start s = (if close then some disk_failed else none, switch_to start s)

-- The file is created with O_EXCL.
unfoldable pub rotate :
    Option CreateFault → Bool → ℕ → DurableStore → Option StoreError × DurableStore
rotate fault close start s =
    if s.wal.failed
    then (some wal_failed, s)
    else if has_segment start (list_segments s)
    then (some (segment_exists start), s)
    else rotate_with fault close start s

abbrev pub io_result : Bool → Option StoreError
io_result true = none
io_result false = some disk_failed

-- The snapshot covers the segments but the open one, which is the last after a rotation.
unfoldable pub drop_covered : SnapshotFaults → DurableStore → Option StoreError × DurableStore
drop_covered f s =
    let (removed, older) = remove_files f.remove s.older in
    let s' = record s { older = older } in
    if not removed
    then (some disk_failed, s')
    else let (pruned, snaps) = prune_snapshots f.prune 2 s.snaps in
      (io_result pruned, record s' { snaps = snaps })

unfoldable pub after_rotate :
    SnapshotFaults → Option StoreError × DurableStore → Option StoreError × DurableStore
after_rotate f (some e, s) = (some e, s)
after_rotate f (none, s) = drop_covered f s

unfoldable pub snapshot : SnapshotFaults → DurableStore → Option StoreError × DurableStore
snapshot f s =
    let (written, snaps) = write_snapshot f.write s.seq s.mem s.snaps in
    let s' = record s { snaps = snaps } in
    if not written
    then (some disk_failed, s')
    else after_rotate f (rotate f.create f.close (u64 (s.seq + 1)) s')

-- A failure is only logged.
unfoldable pub maybe_snapshot : SnapshotFaults → DurableStore → DurableStore
maybe_snapshot f s = if ltb s.wal.size s.snapshot_threshold then s else (snapshot f s).1

-- `Put` and `Delete` build no command that `applyCommand` panics on.
unfoldable pub apply_logged : Command → DurableStore → DurableStore
apply_logged cmd s = elim (apply_command cmd s.mem) [
  | none ↦ s
  | some (existed, m) ↦ record s { mem = m }
]

unfoldable pub after_append :
    SnapshotFaults → Command → Option WalError → DurableStore → Option StoreError × DurableStore
after_append f cmd (some e) s = (some (wal_append e), s)
after_append f cmd none s =
    (none, maybe_snapshot f (apply_logged cmd (record s { seq = u64 (s.seq + 1) })))

unfoldable pub log_and_apply :
    Option Fault → SnapshotFaults → Command → DurableStore → Option StoreError × DurableStore
log_and_apply fault f cmd s =
    let (e, w) = append fault (u64 (s.seq + 1)) (encode_command cmd) s.wal in
    after_append f cmd e (record s { wal = w })

unfoldable pub put_key :
    Option Fault → SnapshotFaults → Bytes → Bytes → DurableStore → Option StoreError × DurableStore
put_key fault f key value s =
    log_and_apply fault f (record { op = op_put; key = key; value = value }) s

abbrev pub delete_result :
    Option StoreError × DurableStore → Option StoreError × Bool × DurableStore
delete_result (none, s) = (none, true, s)
delete_result (some e, s) = (some e, false, s)

-- An absent key needs no record.
unfoldable pub delete_key :
    Option Fault → SnapshotFaults → Bytes → DurableStore → Option StoreError × Bool × DurableStore
delete_key fault f key s =
    if not (has key s.mem)
    then (none, false, s)
    else delete_result (log_and_apply fault f (record { op = op_delete; key = key; value = [] }) s)

unfoldable pub get_key : Bytes → DurableStore → Option Bytes
get_key key s = get key s.mem

pub data Opened : Type 0 where
  opened : DurableStore → Opened
  open_failed : StoreError → Opened

abbrev pub new_store : ℕ → Store → ℕ → List Segment → ℕ → Bytes → List SnapFile → DurableStore
new_store threshold mem seq older start content snaps = record {
  mem = mem;
  wal = record { content = content; size = length content; failed = false };
  wal_start = start;
  older = older;
  newer = [];
  snaps = snaps;
  seq = seq;
  snapshot_threshold = if threshold == 0 then default_snapshot_threshold else threshold;
}

-- The segments but the last one, whose valid part is kept. An empty directory gets a first segment.
unfoldable pub open_segments :
    Option CreateFault → ℕ → List Segment → List Segment → ℕ → ℕ → Store → List SnapFile → Opened
open_segments fault threshold older [] last off mem snaps = elim fault [
  | none ↦ opened (new_store threshold mem last older (u64 (last + 1)) [] snaps)
  | some _ ↦ open_failed disk_failed
]
open_segments fault threshold older (g ∷ []) last off mem snaps =
    opened (new_store threshold mem last older g.start_seq (take off g.content) snaps)
open_segments fault threshold older (g ∷ h ∷ gs) last off mem snaps =
    open_segments fault threshold (older ++ (g ∷ [])) (h ∷ gs) last off mem snaps

unfoldable pub open_replayed :
    Option CreateFault → ℕ → List Segment → List SnapFile → Replayed → Opened
open_replayed fault threshold segs snaps (replay_failed e) = open_failed (replay_error e)
open_replayed fault threshold segs snaps (replayed last off mem) =
    open_segments fault threshold [] segs last off mem snaps

unfoldable pub open_loaded : Option CreateFault → ℕ → List Segment → List SnapFile → Loaded → Opened
open_loaded fault threshold segs snaps (load_failed e) = open_failed (recover_snapshot e)
open_loaded fault threshold segs snaps (loaded mem seq) =
    open_replayed fault threshold segs snaps (replay_wal segs seq mem)

-- `Open` of a directory with these segments and snapshots. Making the directories, reading,
-- truncating and opening files work.
unfoldable pub open_store : Option CreateFault → ℕ → List Segment → List SnapFile → Opened
open_store fault threshold segs snaps =
    open_loaded fault threshold segs snaps (load_newest_snapshot snaps)
