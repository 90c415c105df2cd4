-- ===== src/Storage/Store/Stray.antt =====
-- internal/storage/store.go and wal.go: a segment that was created and not taken into use.
use raft_kv.Common.{
  ℕ, zero, suc, ◌+◌, ◌^◌, ◌<◌, ◌≤◌, ◌≡◌, refl, sym, ap, ◌∙◌, true, false, none, some, List, [], ◌∷◌,
  ◌++◌, arith, append_assoc, append-nil, u64, length, take, All, All-drop, drop, length-append,
  length-take, max, min,
}
use raft_kv.Common.Bytes.{Bytes}
use raft_kv.Common.Assoc.{bytes_key}
use raft_kv.Storage.Command.{Command, encode_command}
use raft_kv.Storage.MemStore.{Store}
use raft_kv.Storage.Wal.{
  Segment, at_write, corrupt_record, append, wal_record, parse_record, replay_failed,
  replay_segment, is_newest, replay_wal,
}
use raft_kv.Storage.Wal.Parse.{
  IsLogged, length-wal_record, parse_record-torn, parse_record-wal_record,
}
use raft_kv.Storage.Wal.Replay.{records, run_all, logged_size, drop_record}
use raft_kv.Storage.Wal.Segments.{next_lem, record_lem}
use raft_kv.Storage.Wal.Chain.{segments_of, flatten}
use raft_kv.Storage.Snapshot.{write_snapshot, place, encode_snapshot, load_newest_snapshot, loaded}
use raft_kv.Storage.Store.{
  DurableStore, SnapshotFaults, dir_unsynced, list_segments, empty_segment, has_segment,
  rotate_with, rotate, after_rotate, snapshot, after_append, log_and_apply, open_failed,
  replay_error, open_replayed, open_loaded, open_store,
}
use raft_kv.Storage.Store.Durable.{Durable, IsDurable}
use raft_kv.Storage.Store.Covered.{placed-Durable}
use raft_kv.Storage.Store.Writes.{size_lem}
use raft_kv.Storage.Store.Reload.{loads}

corrupt_lem :
    (n start off : ℕ) (tail : Bytes) (last : ℕ) (m : Store)
    → 0 < length tail
    → length tail ≤ n
    → parse_record tail ≡ none
    → replay_segment n false start off tail last m ≡ replay_failed (corrupt_record start off)
unfolding replay_segment
corrupt_lem n start off [] last m z l h = elim z [ ]
corrupt_lem zero start off (x ∷ b) last m z l h = absurd (omega arith)
corrupt_lem (suc n) start off (x ∷ b) last m z l h = rw (h, replay_segment) refl

corrupt_segment :
    (cs : List Command) (n start off : ℕ) (tail : Bytes) (a last : ℕ) (m : Store)
    → All IsLogged cs
    → a ≤ last
    → a + length cs + 1 < 2 ^ 64
    → length (records a cs ++ tail) ≤ n
    → 0 < length tail
    → parse_record tail ≡ none
    → replay_segment n false start off (records a cs ++ tail) last m
      ≡ replay_failed (corrupt_record start (off + length (records a cs)))
unfolding records
corrupt_segment [] n start off tail a last m l h f k z e =
    corrupt_lem n start off tail last m z k e
    ∙ ap (λ i. replay_failed (corrupt_record start i)) (omega arith)
corrupt_segment (c ∷ cs) zero start off tail a last m l h f k z e = absurd (
    omega (
      arith,
      k,
      z,
      length-append (wal_record (suc a) (encode_command c) ++ records (suc a) cs) tail,
    ))
corrupt_segment (c ∷ cs) (suc n) start off tail a last m l h f k z e =
    let cmd : Bytes = encode_command c in
    let rec : Bytes = wal_record (suc a) cmd in
    let rest : Bytes = records (suc a) cs ++ tail in
    let size : length rec ≡ 16 + length cmd = length-wal_record (suc a) cmd in
    let total : length (rec ++ rest) ≡ length rec + length rest = length-append rec rest in
    let first : parse_record (rec ++ rest) ≡ some (suc a, cmd, 16 + length cmd) =
      parse_record-wal_record (suc a) cmd rest (omega (arith, f)) (logged_size c l.0) in
    let (m', done, same) = record_lem a last c cs m h l.0 (omega (arith, f)) in
    let top : ℕ = max last (suc a) in
    ap (λ b. replay_segment (suc n) false start off b last m)
      (append_assoc rec (records (suc a) cs) tail)
    ∙ next_lem n false start off (rec ++ rest) last m (suc a) cmd (16 + length cmd) top m'
        (omega (arith, total, size)) first done
    ∙ ap (λ b. replay_segment n false start (off + (16 + length cmd)) b top m')
        (drop_record (suc a) cmd rest)
    ∙ corrupt_segment cs n start (off + (16 + length cmd)) tail (suc a) top m' l.1 (omega arith)
        (omega (arith, f))
        (omega (arith, k, total, size, ap length (append_assoc rec (records (suc a) cs) tail))) z e
    ∙ ap (λ i. replay_failed (corrupt_record start i))
        (omega (arith, size, length-append rec (records (suc a) cs)))

corrupt_first :
    (g h : Segment) (last : ℕ) (m : Store) (start off : ℕ)
    → replay_segment (length g.content) false g.start_seq 0 g.content last m
      ≡ replay_failed (corrupt_record start off)
    → replay_wal (g ∷ h ∷ []) last m ≡ replay_failed (corrupt_record start off)
unfolding replay_wal is_newest
corrupt_first g h last m start off e = rw (e, replay_wal) refl

-- The sync of the directory fails after the next segment was created.
abbrev Stray : SnapshotFaults → Type 0
Stray f = (f.write ≡ none) × (f.create ≡ some dir_unsynced)

abbrev left_by_snapshot : DurableStore → DurableStore
left_by_snapshot s = record s {
  snaps = place (record { seq = s.seq; content = encode_snapshot s.seq s.mem }) s.snaps;
  newer = s.newer ++ (empty_segment (u64 (s.seq + 1)) ∷ []);
}

snapshot-Stray :
    (f : SnapshotFaults) (s : DurableStore)
    → Stray f
    → s.wal.failed ≡ false
    → has_segment (u64 (s.seq + 1)) (list_segments s) ≡ false
    → (snapshot f s).1 ≡ left_by_snapshot s
unfolding snapshot rotate rotate_with after_rotate write_snapshot list_segments
snapshot-Stray f s h up free = simp (h.0, h.1, up, free) refl

abbrev left_by_append : Bytes → DurableStore → DurableStore
left_by_append part s = record s {
  wal = record s.wal { content = s.wal.content ++ part; failed = true };
}

append-torn :
    (n : ℕ) (f : SnapshotFaults) (d : Command) (s : DurableStore)
    → s.wal.failed ≡ false
    → (log_and_apply (some (at_write n)) f d s).1
      ≡ left_by_append (take n (wal_record (u64 (s.seq + 1)) (encode_command d))) s
unfolding log_and_apply append after_append
append-torn n f d s up = simp up refl

no_segments : (a : ℕ) (css : List (List Command)) → segments_of a css ≡ [] → css ≡ []
unfolding segments_of
no_segments a [] e = refl
no_segments a (c ∷ css) e = absurd (ground (arith, e))

refuses :
    (threshold covered : ℕ) (cs : List Command) (part : Bytes) (s : DurableStore) (m : Store)
    (last : ℕ) (h : Durable covered cs none s)
    → length cs + 4 < 2 ^ 64
    → s.older ≡ []
    → h.base ≤ last
    → 0 < length part
    → parse_record part ≡ none
    → load_newest_snapshot (left_by_snapshot s).snaps ≡ loaded m last
    → (off : ℕ) × (open_store none threshold
          (list_segments (left_by_append part (left_by_snapshot s)))
          (left_by_snapshot s).snaps
        ≡ open_failed (replay_error (corrupt_record s.wal_start off)))
unfolding open_store open_loaded open_replayed list_segments
refuses threshold covered cs part s m last h k alone low z torn found =
    let b : ℕ = h.base + length (flatten h.finished) in
    let none_done : flatten h.finished ≡ [] =
      ap flatten (no_segments h.base h.finished (sym h.older ∙ alone)) ∙ (unfold flatten in refl) in
    let base : b ≡ h.base = omega (arith, ap length none_done) in
    let same : h.active ≡ drop h.base cs = sym (h.history ∙ ap (λ t. t ++ h.active) none_done) in
    let logged : All IsLogged h.active = rw same (All-drop IsLogged h.base cs h.logged) in
    let total = size_lem covered cs none s h in
    let bare : s.wal.content ++ part ≡ records h.base h.active ++ part =
      ap (λ t. t ++ part)
        (h.content ∙ ap (λ t. records b h.active ++ t) h.torn.1 ∙ append-nil (records b h.active))
      ∙ ap (λ i. records i h.active ++ part) base in
    let g : Segment = record { start_seq = s.wal_start; content = s.wal.content ++ part } in
    let first =
      ap (λ t. replay_segment (length t) false s.wal_start 0 t last m) bare
      ∙ corrupt_segment h.active (length (records h.base h.active ++ part)) s.wal_start 0 part
          h.base last m logged low (omega (arith, total, k)) (omega arith) z torn in
    let bad =
      corrupt_first g (empty_segment (u64 (s.seq + 1))) last m s.wal_start
        (0 + length (records h.base h.active)) first in
    (0 + length (records h.base h.active), rw (found, alone, h.newer) (rw bad refl))

-- A store that holds its acknowledged commands, with the open segment as its only one, takes a
-- snapshot in which the sync of the directory fails after the next segment was created. Its next
-- append stops in the middle of the record. Then the directory cannot be opened: the torn record is
-- not in the newest segment, and counts as corruption.
pub stray_segment-refuses :
    (threshold n : ℕ) (cs : List Command) (d : Command) (f g : SnapshotFaults) (s : DurableStore)
    → IsDurable cs none s
    → length cs + 4 < 2 ^ 64
    → s.older ≡ []
    → has_segment (u64 (s.seq + 1)) (list_segments s) ≡ false
    → (f.write ≡ none) × (f.create ≡ some dir_unsynced)
    → IsLogged d
    → 0 < n
    → n < length (wal_record (suc (length cs)) (encode_command d))
    → (let t = (log_and_apply (some (at_write n)) g d (snapshot f s).1).1 in
        (off : ℕ) × (open_store none threshold (list_segments t) t.snaps
          ≡ open_failed (replay_error (corrupt_record s.wal_start off))))
stray_segment-refuses threshold n cs d f g s (covered, h) k alone free bad l z cut =
    let s1 : DurableStore = left_by_snapshot s in
    let part : Bytes = take n (wal_record (u64 (s.seq + 1)) (encode_command d)) in
    let next : u64 (s.seq + 1) ≡ suc (length cs) = omega (arith, h.seq, k) in
    let torn : parse_record part ≡ none =
      ap (λ i. parse_record (take n (wal_record i (encode_command d)))) next
      ∙ parse_record-torn (suc (length cs)) n (encode_command d) (logged_size d l) cut in
    let size : length part ≡ min n (length (wal_record (u64 (s.seq + 1)) (encode_command d))) =
      length-take n (wal_record (u64 (s.seq + 1)) (encode_command d)) in
    let long = length-wal_record (u64 (s.seq + 1)) (encode_command d) in
    let placed = placed-Durable covered cs none s h in
    let found = loads (length cs) cs none _ (omega (arith, k)) placed in
    let (off, r) =
      refuses threshold covered cs part s (run_all (take (length cs) cs) []) (length cs) h k alone
        (omega (arith, h.base_le, h.covered_le)) (omega (arith, size, long, z)) torn found in
    rw (snapshot-Stray f s bad h.torn.0 free, append-torn n g d s1 h.torn.0) (off, r)
