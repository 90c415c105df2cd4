-- ===== src/Storage/Store/Snapshotting.antt =====
-- internal/storage/store.go, `snapshot`: the disk after each of its steps.
use raft_kv.Common.{
  ℕ, ◌+◌, ◌^◌, ◌<◌, ◌≡◌, ◌≢◌, refl, ap, ◌∙◌, inl, inr, Bool, true, false, not, Option, none, some,
  List, [], ltb, u64, length, Bool-cases,
}
use raft_kv.Common.Assoc.{bytes_key}
use raft_kv.Storage.Command.{Command}
use raft_kv.Storage.Snapshot.{write_snapshot, remove_files, prune_snapshots}
use raft_kv.Storage.Snapshot.Order.{remove_files-drop, prune-last}
use raft_kv.Storage.Store.{
  DurableStore, SnapshotFaults, CreateFault, not_created, dir_unsynced, list_segments, has_segment,
  rotate_with, rotate, drop_covered, after_rotate, snapshot, maybe_snapshot,
}
use raft_kv.Storage.Store.Durable.{Durable, IsDurable}
use raft_kv.Storage.Store.Covered.{written-Durable, switched-Durable, older-Durable}

prune_nil : (fault : Option ℕ) → (prune_snapshots fault 2 []).1 ≡ []
unfolding prune_snapshots remove_files
prune_nil none = refl
prune_nil (some k) = refl

pruned-Durable :
    (fault : Option ℕ) (covered : ℕ) (cs : List Command) (pend : Option Command) (s : DurableStore)
    → Durable covered cs pend s
    → Durable covered cs pend (record s { snaps = (prune_snapshots fault 2 s.snaps).1 })
pruned-Durable fault covered cs pend s h =
    let (last, ordered) = prune-last fault covered s.snaps h.ordered in
    record {
      base = h.base;
      finished = h.finished;
      active = h.active;
      tail = h.tail;
      logged = h.logged;
      base_le = h.base_le;
      covered_le = h.covered_le;
      history = h.history;
      older = h.older;
      content = h.content;
      start = h.start;
      newer = h.newer;
      mem = h.mem;
      seq = h.seq;
      ordered = ordered;
      newest = elim h.newest [
        | inl e ↦ inl (ap (λ t. (prune_snapshots fault 2 t).1) e.0 ∙ prune_nil fault, e.1)
        | inr e ↦ inr (last ∙ e)
      ];
      torn = h.torn;
    }

drop_covered-Durable :
    (f : SnapshotFaults) (cs : List Command) (pend : Option Command) (s : DurableStore)
    → Durable (length cs) cs pend s
    → Durable (length cs) cs pend (drop_covered f s).1
unfolding drop_covered
drop_covered-Durable f cs pend s h =
    let (k, l, e) = remove_files-drop f.remove s.older in
    let a : Durable (length cs) cs pend (record s { older = (remove_files f.remove s.older).1 }) =
      rw e (older-Durable k cs pend s h l) in
    elim (Bool-cases (not (remove_files f.remove s.older).0)) [
      | inl b ↦ rw b a
      | inr b ↦ rw b (pruned-Durable f.prune (length cs) cs pend _ a)
    ]

rotated-Durable :
    (f : SnapshotFaults) (fault : Option CreateFault) (close : Bool) (cs : List Command)
    (s : DurableStore)
    → fault ≢ some dir_unsynced
    → length cs + 2 < 2 ^ 64
    → Durable (length cs) cs none s
    → Durable (length cs) cs none (after_rotate f (rotate_with fault close (u64 (s.seq + 1)) s)).1
unfolding rotate_with after_rotate
rotated-Durable f none true cs s d k h = switched-Durable (length cs) cs s k h
rotated-Durable f none false cs s d k h =
    drop_covered-Durable f cs none _ (switched-Durable (length cs) cs s k h)
rotated-Durable f (some not_created) close cs s d k h = h
rotated-Durable f (some dir_unsynced) close cs s d k h = absurd (d refl)

rotate-Durable :
    (f : SnapshotFaults) (cs : List Command) (pend : Option Command) (s : DurableStore)
    → f.create ≢ some dir_unsynced
    → length cs + 2 < 2 ^ 64
    → Durable (length cs) cs pend s
    → Durable (length cs) cs pend (after_rotate f (rotate f.create f.close (u64 (s.seq + 1)) s)).1
unfolding rotate
rotate-Durable f cs (some c) s d k h = simp h.torn.0 (unfold after_rotate in h)
rotate-Durable f cs none s d k h =
    simp h.torn.0 (elim (Bool-cases (has_segment (u64 (s.seq + 1)) (list_segments s))) [
      | inl b ↦ simp b (unfold after_rotate in h)
      | inr b ↦ simp b (rotated-Durable f f.create f.close cs s d k h)
    ])

-- Taking a snapshot, whatever fails in it but the sync after the next segment is created, keeps
-- what the disk holds.
pub snapshot-IsDurable :
    (f : SnapshotFaults) (cs : List Command) (pend : Option Command) (s : DurableStore)
    → f.create ≢ some dir_unsynced
    → length cs + 2 < 2 ^ 64
    → IsDurable cs pend s
    → IsDurable cs pend (snapshot f s).1
unfolding snapshot
snapshot-IsDurable f cs pend s d k (covered, h) =
    let (whole, any) = written-Durable f.write covered cs pend s h in
    elim (Bool-cases (write_snapshot f.write s.seq s.mem s.snaps).0) [
      | inl b ↦ rw b (length cs, rotate-Durable f cs pend _ d k (whole b))
      | inr b ↦ rw b any
    ]

pub maybe_snapshot-IsDurable :
    (f : SnapshotFaults) (cs : List Command) (pend : Option Command) (s : DurableStore)
    → f.create ≢ some dir_unsynced
    → length cs + 2 < 2 ^ 64
    → IsDurable cs pend s
    → IsDurable cs pend (maybe_snapshot f s)
unfolding maybe_snapshot
maybe_snapshot-IsDurable f cs pend s d k h =
    elim (Bool-cases (ltb s.wal.size s.snapshot_threshold)) [
      | inl b ↦ rw b h
      | inr b ↦ rw b (snapshot-IsDurable f cs pend s d k h)
    ]
