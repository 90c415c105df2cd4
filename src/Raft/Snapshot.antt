-- ===== src/Raft/Snapshot.antt =====
-- internal/raft/raftsnap.go, the snapshot file.
use raft_kv.Common.{
  ℕ, ◌+◌, ◌-◌, ◌^◌, ◌<◌, ◌≡◌, ◌∙◌, not, Option, none, some, [], ◌∷◌, ◌++◌, append-nil, true, ◌≤◌,
  arith, ltb, ◌==◌, ==_refl, if◌then◌else◌, u32, length, take, drop, length-append, take-append,
  drop-append,
}
use raft_kv.Common.Bytes.{
  Bytes, le32, le64, read32, read64, bytes_eq, read32-le32, length-le32, bytes_eq_refl,
}
use raft_kv.Common.Assoc.{Map, nat_eq, lookup}
use raft_kv.Record.{checksum}
use raft_kv.Record.Framing.{checksum-lt}
use raft_kv.Raft.Result.{Result, ok, err, bad_snapshot, ◌>>=◌}
use raft_kv.Raft.StateFile.{with_checksum}
use raft_kv.Raft.Members.{encode_members, decode_members}
use raft_kv.Raft.Members.RoundTrip.{IsTable, decode-encode_members}

-- "RKVRSNP1"
abbrev pub raft_snap_magic : Bytes
raft_snap_magic = b'R' ∷ b'K' ∷ b'V' ∷ b'R' ∷ b'S' ∷ b'N' ∷ b'P' ∷ b'1' ∷ []

pub record RaftSnapshot : Type 0 where
  pub last_index : ℕ
  pub last_term : ℕ
  pub config : Map ℕ Bytes
  pub payload : Bytes

abbrev pub zero_snapshot : RaftSnapshot
zero_snapshot = record { last_index = 0; last_term = 0; config = []; payload = [] }

snapshot_body : ℕ → ℕ → Bytes → Bytes → Bytes
snapshot_body index term cfg payload =
    raft_snap_magic ++ (le64 index ++ (le64 term ++ (le32 (u32 (length cfg)) ++ (cfg ++ payload))))

-- The bytes that `persistRaftSnapshot` writes.
unfoldable pub encode_snapshot : RaftSnapshot → Bytes
unfolding snapshot_body
encode_snapshot s =
    with_checksum (snapshot_body s.last_index s.last_term (encode_members s.config) s.payload)

-- The part behind the checksum and the magic.
load_body : Bytes → Result RaftSnapshot
load_body body =
    let cfg_len = read32 (drop 16 body) in
    let rest = drop 20 body in
    if ltb (length rest) cfg_len then err bad_snapshot else do
      config ← decode_members (take cfg_len rest)
      ok (record {
        last_index = read64 body;
        last_term = read64 (drop 8 body);
        config = config;
        payload = drop cfg_len rest;
      })

-- The content of the file, `none` if there is no file.
unfoldable pub load_raft_snapshot : Option Bytes → Result RaftSnapshot
unfolding load_body
load_raft_snapshot none = ok zero_snapshot
load_raft_snapshot (some b) =
    let body = take (length b - 4) b in
    let tail = drop (length b - 4) b in
    if ltb (length b) 32
    then err bad_snapshot
    else if not (checksum body == read32 tail)
    then err bad_snapshot
    else if not (bytes_eq (take 8 body) raft_snap_magic)
    then err bad_snapshot
    else load_body (drop 8 body)

-- The checksum at the end is checked and cut off.
load_checked :
    (body : Bytes)
    → 28 ≤ length body
    → bytes_eq (take 8 body) raft_snap_magic ≡ true
    → load_raft_snapshot (some (with_checksum body)) ≡ load_body (drop 8 body)
unfolding load_raft_snapshot
load_checked body long magic =
    let size : length (body ++ le32 (checksum body)) - 4 ≡ length body =
      omega (arith, length-append body (le32 (checksum body)), length-le32 (checksum body)) in
    rw (size, take-append, drop-append)
      (ground (
        arith,
        size,
        magic,
        ==_refl (checksum body),
        read32-le32 (checksum body) [] (checksum-lt body),
        append-nil (le32 (checksum body)),
      ))

load_fields :
    (index term : ℕ) (cfg payload : Bytes)
    → index < 2 ^ 64
    → term < 2 ^ 64
    → length cfg < 2 ^ 32
    → load_body (le64 index ++ (le64 term ++ (le32 (u32 (length cfg)) ++ (cfg ++ payload)))) ≡ (do
      config ← decode_members cfg
      ok (record { last_index = index; last_term = term; config = config; payload = payload }))
unfolding load_body le64 le32 read64 read32
load_fields i t cfg payload hi ht hc =
    ground (arith, take-append cfg payload, drop-append cfg payload, length-append cfg payload)

length-fields :
    (a b c : ℕ) (x : Bytes) → length (le64 a ++ (le64 b ++ (le32 c ++ x))) ≡ 20 + length x
unfolding le64 le32
length-fields a b c x = omega arith

pub record IsSnapshot (s : RaftSnapshot) : Type 0 where
  pub last_index : s.last_index < 2 ^ 64
  pub last_term : s.last_term < 2 ^ 64
  pub config : IsTable s.config
  pub size : length (encode_members s.config) < 2 ^ 32

-- A snapshot that was written is loaded with its index, term and data, and with a membership that
-- has the same entries, on the ranges of its Go types.
pub load-encode_snapshot :
    (s : RaftSnapshot)
    → IsSnapshot s
    → (m : Map ℕ Bytes) × (load_raft_snapshot (some (encode_snapshot s))
        ≡ ok (record s { config = m }))
      × ((k : ℕ) → lookup k m ≡ lookup k s.config)
unfolding encode_snapshot
load-encode_snapshot s h =
    let (m, decoded, same) = decode-encode_members s.config h.config in
    let cfg = encode_members s.config in
    (
      m,
      load_checked (snapshot_body s.last_index s.last_term cfg s.payload)
            (omega
              (arith, length-fields s.last_index s.last_term (u32 (length cfg)) (cfg ++ s.payload)))
            (bytes_eq_refl raft_snap_magic)
          ∙ load_fields s.last_index s.last_term cfg s.payload h.last_index h.last_term h.size
          ∙ rw decoded,
      same,
    )
