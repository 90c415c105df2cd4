-- ===== src/Storage/Snapshot.antt =====
-- internal/storage/snapshot.go: snapshot files. A directory is the list of its complete files in
-- the order of their names, which is that of their sequence numbers and the one in which
-- `os.ReadDir` returns them. Temporary files, which loading removes, and other files are left out.
pub mod RoundTrip
pub mod Order
use raft_kv.Common.{
  ◌⊎◌, inl, inr, ℕ, zero, suc, ◌+◌, ◌-◌, Bool, true, false, not, Option, none, some, List, [], ◌∷◌,
  ◌++◌, ltb, ◌==◌, if◌then◌else◌, u32, u64, length, take, drop, get_last?,
}
use raft_kv.Common.Bytes.{Bytes, le32, le64, read32, read64, bytes_eq}
use raft_kv.Record.{checksum}
use raft_kv.Storage.MemStore.{Store, put, range, size}

-- "RKVSNAP1"
abbrev pub snap_magic : Bytes
snap_magic = 82 ∷ 75 ∷ 86 ∷ 83 ∷ 78 ∷ 65 ∷ 80 ∷ 49 ∷ []

pub record SnapFile : Type 0 where
  pub seq : ℕ
  pub content : Bytes

unfoldable pub encode_entry : Bytes → Bytes → Bytes
encode_entry key value = le32 (u32 (length key)) ++ (key ++ (le32 (u32 (length value)) ++ value))

unfoldable pub write_entry : Bytes → Bytes → Bytes → Bool × Bytes
write_entry key value b = (true, b ++ encode_entry key value)

unfoldable pub snapshot_body : ℕ → Store → Bytes
snapshot_body last_seq mem =
    snap_magic ++ (le64 last_seq ++ (le64 (u64 (size mem)) ++ range write_entry mem []))

unfoldable pub with_crc : Bytes → Bytes
with_crc b = b ++ le32 (checksum b)

unfoldable pub encode_snapshot : ℕ → Store → Bytes
encode_snapshot last_seq mem = with_crc (snapshot_body last_seq mem)

-- A rename replaces a file of that name.
unfoldable pub place : SnapFile → List SnapFile → List SnapFile
place f [] = f ∷ []
place f (g ∷ gs) =
    let rest = place f gs in
    if ltb g.seq f.seq then g ∷ rest else if g.seq == f.seq then f ∷ gs else f ∷ g ∷ gs

-- Where `writeSnapshot` fails: before the rename, which leaves no file, or in the sync of the
-- directory after it.
pub data WriteFault : Type 0 where
  before_rename dir_sync : WriteFault

unfoldable pub write_snapshot : Option WriteFault → ℕ → Store → List SnapFile → Bool × List SnapFile
write_snapshot none last_seq mem dir =
    (true, place (record { seq = last_seq; content = encode_snapshot last_seq mem }) dir)
write_snapshot (some before_rename) last_seq mem dir = (false, dir)
write_snapshot (some dir_sync) last_seq mem dir =
    (false, place (record { seq = last_seq; content = encode_snapshot last_seq mem }) dir)

pub data SnapError : Type 0 where
  too_short : ℕ → SnapError
  checksum_mismatch : SnapError
  bad_magic : SnapError
  truncated_entry : ℕ → SnapError
  truncated_key : ℕ → SnapError
  truncated_value : ℕ → SnapError
  trailing : ℕ → ℕ → SnapError
  claims : ℕ → ℕ → SnapError

pub data Loaded : Type 0 where
  loaded : Store → ℕ → Loaded
  load_failed : SnapError → Loaded

-- One entry and what follows it.
pub data EntryRead : Type 0 where
  entry : Bytes → Bytes → Bytes → EntryRead
  entry_failed : SnapError → EntryRead

-- `b` is what follows the key.
unfoldable pub read_value : ℕ → Bytes → Bytes → EntryRead
read_value i key b =
    let n = read32 b in
    let rest = drop 4 b in
    if ltb (length rest) n
    then entry_failed (truncated_value i)
    else entry key (take n rest) (drop n rest)

unfoldable pub read_key : ℕ → ℕ → Bytes → EntryRead
read_key i n b =
    if ltb (length b) (n + 4)
    then entry_failed (truncated_key i)
    else read_value i (take n b) (drop n b)

unfoldable pub read_entry : ℕ → Bytes → EntryRead
read_entry i b =
    if ltb (length b) 4 then entry_failed (truncated_entry i) else read_key i (read32 b) (drop 4 b)

-- The entries left, the number of the next one, the bytes left and the map so far.
unfoldable pub read_entries : ℕ → ℕ → Bytes → Store → SnapError ⊎ (Bytes × Store)
read_entries zero i b mem = inr (b, mem)
read_entries (suc n) i b mem = elim (read_entry i b) [
  | entry_failed e ↦ inl e
  | entry key value rest ↦ read_entries n (suc i) rest (put key value mem)
]

-- Nothing may follow the entries.
unfoldable pub all_read : ℕ → ℕ → SnapError ⊎ (Bytes × Store) → Loaded
all_read last_seq count (inl e) = load_failed e
all_read last_seq count (inr ([], mem)) = loaded mem last_seq
all_read last_seq count (inr (x ∷ b, mem)) = load_failed (trailing (length (x ∷ b)) count)

-- `b` is what follows the magic.
unfoldable pub read_fields : Bytes → Loaded
read_fields b =
    let count = read64 (drop 8 b) in all_read (read64 b) count (read_entries count 0 (drop 16 b) [])

unfoldable pub read_body : Bytes → Bytes → Loaded
read_body body tail =
    if not (checksum body == read32 tail)
    then load_failed checksum_mismatch
    else if not (bytes_eq (take 8 body) snap_magic)
    then load_failed bad_magic
    else read_fields (drop 8 body)

unfoldable pub read_snapshot : Bytes → Loaded
read_snapshot b =
    if ltb (length b) 28
    then load_failed (too_short (length b))
    else read_body (take (length b - 4) b) (drop (length b - 4) b)

unfoldable pub check_seq : ℕ → Loaded → Loaded
check_seq newest (load_failed e) = load_failed e
check_seq newest (loaded mem last_seq) =
    if not (last_seq == newest) then load_failed (claims newest last_seq) else loaded mem last_seq

unfoldable pub load_newest_snapshot : List SnapFile → Loaded
load_newest_snapshot dir = elim (get_last? dir) [
  | none ↦ loaded [] 0
  | some f ↦ check_seq f.seq (read_snapshot f.content)
]

-- Removing the files of a list in order, with the number of the removal that fails: whether all
-- went, and what is left.
unfoldable pub remove_files {ℓ} : {A : Type ℓ} → Option ℕ → List A → Bool × List A
remove_files none fs = (true, [])
remove_files (some k) [] = (true, [])
remove_files (some zero) (f ∷ fs) = (false, f ∷ fs)
remove_files (some (suc k)) (f ∷ fs) = remove_files (some k) fs

unfoldable pub prune_snapshots : Option ℕ → ℕ → List SnapFile → Bool × List SnapFile
prune_snapshots fault keep dir =
    let n = length dir - keep in
    let (fine, left) = remove_files fault (take n dir) in (fine, left ++ drop n dir)
