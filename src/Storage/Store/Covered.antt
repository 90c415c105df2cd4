-- ===== src/Storage/Store/Covered.antt =====
-- internal/storage/store.go, `snapshot`: the disk after the snapshot is written, the log rotated
-- and segments removed.
use raft_kv.Common.{
  ℕ, suc, ◌+◌, ◌-◌, ◌^◌, ◌<◌, ◌≤◌, ◌≡◌, refl, sym, ap, ◌∙◌, inr, true, Option, none, some, List, [],
  ◌∷◌, ◌++◌, arith, append_assoc, append-nil, u64, length, take, drop, length-append, take_all,
  length-drop, drop-drop, drop-append,
}
use raft_kv.Common.Assoc.{bytes_key}
use raft_kv.Storage.Command.{Command}
use raft_kv.Storage.Wal.Replay.{records}
use raft_kv.Storage.Wal.Chain.{segments_of, flatten}
use raft_kv.Storage.Snapshot.{
  SnapFile, WriteFault, before_rename, dir_sync, encode_snapshot, place, write_snapshot,
}
use raft_kv.Storage.Snapshot.Order.{IsOrdered-raise, place-newest}
use raft_kv.Storage.Store.{DurableStore, list_segments, switch_to}
use raft_kv.Storage.Store.Durable.{
  Durable, IsDurable, snapshot_of, segments_of-snoc, flatten-snoc, segments_of-drop, flatten-drop,
}

pub placed-Durable :
    (covered : ℕ) (cs : List Command) (pend : Option Command) (s : DurableStore)
    → Durable covered cs pend s
    → Durable (length cs) cs pend (record s {
      snaps = place (record { seq = s.seq; content = encode_snapshot s.seq s.mem }) s.snaps;
    })
placed-Durable covered cs pend s h =
    let f : SnapFile = snapshot_of (length cs) cs in
    let whole : take (length cs) cs ≡ cs = take_all (length cs) cs (omega arith) in
    let same : ◌≡◌ {A = SnapFile} (record { seq = s.seq; content = encode_snapshot s.seq s.mem })
        f =
      rw (h.seq, h.mem, whole) refl in
    let (last, up) =
      place-newest f s.snaps (IsOrdered-raise covered (length cs) s.snaps h.covered_le h.ordered) in
    record {
      base = h.base;
      finished = h.finished;
      active = h.active;
      tail = h.tail;
      logged = h.logged;
      base_le = omega (arith, h.base_le, h.covered_le);
      covered_le = omega arith;
      history = h.history;
      older = h.older;
      content = h.content;
      start = h.start;
      newer = h.newer;
      mem = h.mem;
      seq = h.seq;
      ordered = rw same up;
      newest = inr (rw same last);
      torn = h.torn;
    }

-- What `writeSnapshot` leaves.
pub written-Durable :
    (fault : Option WriteFault) (covered : ℕ) (cs : List Command) (pend : Option Command)
    (s : DurableStore)
    → Durable covered cs pend s
    → ((write_snapshot fault s.seq s.mem s.snaps).0 ≡ true
        → Durable
            (length cs)
            cs
            pend
            (record s { snaps = (write_snapshot fault s.seq s.mem s.snaps).1 }))
      × IsDurable cs pend (record s { snaps = (write_snapshot fault s.seq s.mem s.snaps).1 })
unfolding write_snapshot
written-Durable none covered cs pend s h =
    let p = placed-Durable covered cs pend s h in (λ _. p, (length cs, p))
written-Durable (some before_rename) covered cs pend s h =
    ((λ e. absurd (ground (arith, e))), (covered, h))
written-Durable (some dir_sync) covered cs pend s h =
    let p = placed-Durable covered cs pend s h in (λ _. p, (length cs, p))

pub switched-Durable :
    (covered : ℕ) (cs : List Command) (s : DurableStore)
    → length cs + 2 < 2 ^ 64
    → Durable covered cs none s
    → Durable covered cs none (switch_to (u64 (s.seq + 1)) s)
unfolding switch_to list_segments segments_of records
switched-Durable covered cs s f h =
    let b : ℕ = h.base + length (flatten h.finished) in
    let total : length cs - h.base ≡ length (flatten h.finished) + length h.active =
      sym (length-drop h.base cs)
      ∙ ap length h.history
      ∙ length-append (flatten h.finished) h.active in
    let bare : s.wal.content ≡ records b h.active =
      h.content ∙ ap (λ t. records b h.active ++ t) h.torn.1 ∙ append-nil (records b h.active) in
    let flat = flatten-snoc h.finished h.active in
    record {
      base = h.base;
      finished = h.finished ++ (h.active ∷ []);
      active = [];
      tail = [];
      logged = h.logged;
      base_le = h.base_le;
      covered_le = h.covered_le;
      history = h.history ∙ sym flat ∙ sym (append-nil (flatten (h.finished ++ (h.active ∷ []))));
      older =
          ap (λ t. s.older ++ (record { start_seq = s.wal_start; content = s.wal.content } ∷ t))
            h.newer
          ∙ rw (h.older, h.start, bare) (segments_of-snoc h.base h.finished h.active);
      content = refl;
      start = omega (
        arith,
        ap length flat,
        length-append (flatten h.finished) h.active,
        total,
        h.seq,
        f,
        h.base_le,
        h.covered_le,
      );
      newer = refl;
      mem = h.mem;
      seq = h.seq;
      ordered = h.ordered;
      newest = h.newest;
      torn = (h.torn.0, refl);
    }

pub older-Durable :
    (k : ℕ) (cs : List Command) (pend : Option Command) (s : DurableStore)
    → Durable (length cs) cs pend s
    → k ≤ length s.older
    → Durable (length cs) cs pend (record s { older = drop k s.older })
older-Durable k cs pend s h l =
    let front : List Command = flatten (take k h.finished) in
    let back : List Command = flatten (drop k h.finished) in
    let split : flatten h.finished ≡ front ++ back = flatten-drop k h.finished in
    let size : length (flatten h.finished) ≡ length front + length back =
      ap length split ∙ length-append front back in
    let total : length cs - h.base ≡ length (flatten h.finished) + length h.active =
      sym (length-drop h.base cs)
      ∙ ap length h.history
      ∙ length-append (flatten h.finished) h.active in
    let base' : ℕ = h.base + length front in
    let place : base' + length back ≡ h.base + length (flatten h.finished) = omega (arith, size) in
    record {
      base = base';
      finished = drop k h.finished;
      active = h.active;
      tail = h.tail;
      logged = h.logged;
      base_le = omega (arith, size, total, h.base_le);
      covered_le = omega arith;
      history =
          drop-drop h.base (length front) cs
          ∙ ap (drop (length front))
              (h.history ∙ ap (λ t. t ++ h.active) split ∙ append_assoc front back h.active)
          ∙ drop-append front (back ++ h.active);
      older = ap (drop k) h.older ∙ segments_of-drop k h.base h.finished;
      content = h.content ∙ ap (λ n. records n h.active ++ h.tail) (sym place);
      start = h.start ∙ ap suc (sym place);
      newer = h.newer;
      mem = h.mem;
      seq = h.seq;
      ordered = h.ordered;
      newest = h.newest;
      torn = h.torn;
    }
