-- ===== src/Raft/Compaction.antt =====
-- internal/raft/raftsnap.go, `compact`, and log.go, `openLog`: a stop between the two writes of a
-- compaction.
use raft_kv.Common.{
  ℕ, zero, suc, ◌+◌, ◌-◌, ◌^◌, ◌<◌, ◌≤◌, ◌≡◌, refl, ap, ◌∙◌, ◌≢◌, false, Option, none, some, List,
  [], ◌∷◌, ◌++◌, arith, ltb, leb, ◌==◌, length, drop, u64, u32, length-append,
}
use raft_kv.Common.Bytes.{Bytes, le32, length-le32}
use raft_kv.Record.{frame, checksum, write_file_atomic}
use raft_kv.Record.Framing.{parse-frame}
use raft_kv.Raft.Result.{err, bad_log}
use raft_kv.Raft.Entry.{Entry, IsEntry, encode_entry, decode_entry-encode_entry, max_entry_payload}
use raft_kv.Raft.Snapshot.{RaftSnapshot, encode_snapshot}
use raft_kv.Raft.Disk.{content, atomic_fault}
use raft_kv.Raft.Core.{Core}
use raft_kv.Raft.Persist.{frame_entries, persist_raft_snapshot, log_step, store_rewrite}
use raft_kv.Raft.Install.{
  snapshot_at, suffix_after, move_base, move_to, drop_through, compact_through, compact,
}
use raft_kv.Raft.Boot.{supersede, read_entry, replay, open_log}
use raft_kv.Raft.Order.Shape.{Follows, IsLog}

read_first :
    (e : Entry) (rest : Bytes)
    → IsEntry e
    → length (encode_entry e) ≤ max_entry_payload
    → read_entry (frame [] (encode_entry e) ++ rest) ≡ some (e, 8 + length (encode_entry e))
unfolding read_entry
read_first e rest h l =
    rw
      (
        parse-frame (encode_entry e) rest max_entry_payload l (omega (arith, l)),
        decode_entry-encode_entry e h,
        read_entry,
      )
      refl

replay_wrong_start :
    (base n : ℕ) (b : Bytes) (e : Entry) (len : ℕ)
    → 0 < n
    → read_entry b ≡ some (e, len)
    → e.index ≢ u64 (base + 1)
    → replay base n b 0 [] ≡ err (bad_log e.index base)
unfolding replay supersede
replay_wrong_start base zero b e len z h d = elim z [ ]
replay_wrong_start base (suc n) b e len z h d =
    let other : (e.index == u64 (base + 1)) ≡ false = ground (arith, d) in
    rw (h, other, replay) refl

long_frame : (p rest : Bytes) → 0 < length (frame [] p ++ rest)
unfolding frame
long_frame p rest = omega (
  arith,
  length-append (le32 (u32 (length p)) ++ (le32 (checksum p) ++ p)) rest,
  length-append (le32 (u32 (length p))) (le32 (checksum p) ++ p),
  length-le32 (u32 (length p)),
)

open_log-wrong_start :
    (base : ℕ) (e : Entry) (es : List Entry)
    → IsEntry e
    → length (encode_entry e) ≤ max_entry_payload
    → e.index ≢ u64 (base + 1)
    → open_log base (frame_entries (e ∷ es)) ≡ err (bad_log e.index base)
unfolding open_log frame_entries
open_log-wrong_start base e es h l d =
    let b : Bytes = frame [] (encode_entry e) ++ frame_entries es in
    rw
      (
        replay_wrong_start base (length b) b e (8 + length (encode_entry e))
            (long_frame (encode_entry e) (frame_entries es)) (read_first e (frame_entries es) h l)
            d,
        open_log,
      )
      refl

suffix_found :
    (n p : ℕ) (e : Entry) (es : List Entry)
    → Follows p (e ∷ es)
    → p < n
    → n ≤ p + length (e ∷ es)
    → p + length (e ∷ es) + 1 < 2 ^ 64
    → (keep : List Entry) × (suffix_after n (e ∷ es) ≡ some keep)
unfolding suffix_after
suffix_found n p e es c a l f =
    let start = u64 (n + 2 ^ 64 - e.index + 1) in
    let inside : ltb (length (e ∷ es)) (u64 (n + 2 ^ 64 - e.index + 1)) ≡ false =
      ground (arith, c.0) in
    (drop start (e ∷ es), rw (inside, suffix_after) refl)

-- The snapshot reaches the disk, and the next step, closing the log, does not work.
record Stopped (snap : RaftSnapshot) (s t : Core) : Type 0 where
  snapshot : t.disk.snap_file.final ≡ some (encode_snapshot snap)
  log : content t.disk.log_file ≡ content s.disk.log_file

stop_lem :
    (snap : RaftSnapshot) (keep : List Entry) (s : Core) (f : ℕ) (fs : List (Option ℕ))
    → s.log_failed ≡ false
    → s.disk.faults ≡ none ∷ some f ∷ fs
    → suffix_after snap.last_index s.entries ≡ some keep
    → Stopped snap s (compact_through snap s).1
unfolding compact_through persist_raft_snapshot drop_through move_to move_base store_rewrite
    log_step atomic_fault write_file_atomic
stop_lem snap keep s f fs up faults found =
    simp (faults, found, up) (record { snapshot = refl; log = refl })

pub compact_through-eq :
    (n : ℕ) (payload : Bytes) (s : Core)
    → s.snap_index < n
    → n ≤ s.last_delivered
    → compact n payload s ≡ compact_through (snapshot_at n payload s) s
unfolding compact
compact_through-eq n payload s a l =
    let b : leb n s.snap_index ≡ false = ground arith in
    let c : ltb s.last_delivered n ≡ false = ground arith in rw (b, c, compact) refl

-- A node with a well-formed log, whose file holds the entries in memory, compacts; the snapshot
-- reaches the disk, and the next step, on the log file, fails. The snapshot file is the new one,
-- and opening the log file on top of the new snapshot is an error.
pub compact-no_restart :
    (n : ℕ) (payload : Bytes) (s : Core) (e : Entry) (es : List Entry) (f : ℕ)
    (fs : List (Option ℕ))
    → IsLog s
    → s.entries ≡ e ∷ es
    → IsEntry e
    → length (encode_entry e) ≤ max_entry_payload
    → s.snap_index < n
    → n ≤ s.last_delivered
    → s.log_failed ≡ false
    → s.disk.faults ≡ none ∷ some f ∷ fs
    → content s.disk.log_file ≡ frame_entries s.entries
    → ((compact n payload s).1.disk.snap_file.final
        ≡ some (encode_snapshot (snapshot_at n payload s)))
      × (open_log n (content (compact n payload s).1.disk.log_file) ≡ err (bad_log e.index n))
compact-no_restart n payload s e es f fs h held entry size a l up faults file =
    let shape : Follows s.snap_index (e ∷ es) = rw held at h.contiguous in
    let same : length s.entries ≡ length (e ∷ es) = ap length held in
    let (keep, found) =
      suffix_found n s.snap_index e es shape a (omega (arith, h.commit_le, h.delivered_eq, same))
        (omega (arith, h.fits, same)) in
    let stopped =
      stop_lem (snapshot_at n payload s) keep s f fs up faults (ap (suffix_after n) held ∙ found) in
    let other : e.index ≢ u64 (n + 1) =
      λ q. absurd (omega (arith, shape.0, q, h.commit_le, h.delivered_eq, h.fits)) in
    rw (compact_through-eq n payload s a l) (
      stopped.snapshot,
      ap (open_log n) (stopped.log ∙ file ∙ ap frame_entries held)
          ∙ open_log-wrong_start n e es entry size other,
    )
