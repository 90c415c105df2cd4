-- ===== src/Raft/Order/Deliver.antt =====
-- Committed entries are queued once each, in the order of the log, and no index is out of range.
use raft_kv.Common.{
  ℕ, zero, suc, ◌+◌, ◌-◌, ◌^◌, ◌<◌, ◌≤◌, ◌≡◌, refl, sym, ◌∙◌, some, List, [], ◌∷◌, ◌++◌, arith,
  length, get_elem?, take, drop, append-nil, append_assoc, ◌==◌, Bool-cases, inl, inr, ==_iff,
}
use raft_kv.Raft.Result.{ok}
use raft_kv.Raft.Entry.{Entry}
use raft_kv.Raft.Core.{Core}
use raft_kv.Raft.Log.{entry_at}
use raft_kv.Raft.Replication.{leave_if_removed, deliver_from, mark_delivered, deliver_committed}
use raft_kv.Raft.ReadIndex.{abort_pending_reads}
use raft_kv.Raft.Order.Shape.{Follows, entry_at-eq}
use raft_kv.Raft.Order.Frame.{SameLog, SameLog-refl, SameLog-trans, leave_log}

leave_committed : (e : Entry) (s : Core) → (leave_if_removed e s).committed ≡ s.committed
unfolding leave_if_removed abort_pending_reads
leave_committed e s = ground arith

drop_elem :
    (k : ℕ) (es : List Entry)
    → k < length es
    → (e : Entry) × (get_elem? es k ≡ some e) × (drop k es ≡ e ∷ drop (suc k) es)
drop_elem k [] h = elim h [ ]
drop_elem zero (e ∷ es) h = (e, refl, refl)
drop_elem (suc k) (e ∷ es) h = drop_elem k es (omega arith)

-- `n` rounds from the entry at position `k` on.
deliver_from_lem :
    (n i k : ℕ) (s : Core)
    → Follows s.snap_index s.entries
    → s.snap_index + length s.entries + 1 < 2 ^ 64
    → i ≡ s.snap_index + suc k
    → k + n ≤ length s.entries
    → ((deliver_from n i s).0 ≡ ok tt)
      × SameLog s (deliver_from n i s).1
      × ((deliver_from n i s).1.committed ≡ s.committed ++ take n (drop k s.entries))
unfolding deliver_from
deliver_from_lem zero i k s c f e l = (refl, SameLog-refl s, sym (append-nil s.committed))
deliver_from_lem (suc n) i k s c f e l =
    let (x, got, rest) = drop_elem k s.entries (omega arith) in
    let found : entry_at s.entries i ≡ some x =
      entry_at-eq s.snap_index i k s.entries c e (omega arith) f ∙ got in
    let queued : Core = record s { committed = s.committed ++ (x ∷ []) } in
    let t : Core = leave_if_removed x queued in
    let g : SameLog s t = SameLog-trans {t = queued} (ground arith) (leave_log x queued) in
    let (done, same, out) =
      deliver_from_lem n (i + 1) (suc k) t (rw (g.snap_index, g.entries) c)
        (rw (g.snap_index, g.entries) f) (rw g.snap_index (omega arith))
        (rw g.entries (omega arith)) in
    rw (found, deliver_from)
      (
        done,
        SameLog-trans g same,
        out
            ∙ rw (leave_committed x queued, g.entries, rest)
                (append_assoc s.committed (x ∷ []) (take n (drop (suc k) s.entries))),
      )

-- What the queue of committed entries grows by.
abbrev pub newly_committed : Core → List Entry
newly_committed s =
    take (s.commit_index - s.last_delivered) (drop (s.last_delivered - s.snap_index) s.entries)

pub record Delivered (s t : Core) : Type 0 where
  pub cfg : t.cfg ≡ s.cfg
  pub entries : t.entries ≡ s.entries
  pub commit_index : t.commit_index ≡ s.commit_index
  pub last_delivered : t.last_delivered ≡ s.commit_index
  pub snap_index : t.snap_index ≡ s.snap_index
  pub snap_term : t.snap_term ≡ s.snap_term
  pub committed : t.committed ≡ s.committed ++ newly_committed s

mark_lem :
    (s t : Core)
    → s.last_delivered ≤ s.commit_index
    → SameLog s t
    → t.committed ≡ s.committed ++ newly_committed s
    → Delivered s (mark_delivered t)
unfolding mark_delivered
mark_lem s t h f q = record {
  cfg = ground (arith, f.cfg);
  entries = ground (arith, f.entries);
  commit_index = ground (arith, f.commit_index);
  last_delivered = ground (arith, f.commit_index, f.last_delivered);
  snap_index = ground (arith, f.snap_index);
  snap_term = ground (arith, f.snap_term);
  committed = ground (arith, q);
}

take_none : (n : ℕ) (es : List Entry) → n ≡ 0 → take n es ≡ []
take_none zero es h = refl
take_none (suc n) es h = absurd (omega (arith, h))

nothing_due : (s : Core) → s.last_delivered ≡ s.commit_index → Delivered s s
nothing_due s h = record {
  cfg = refl;
  entries = refl;
  commit_index = refl;
  last_delivered = h;
  snap_index = refl;
  snap_term = refl;
  committed =
      rw
        (take_none (s.commit_index - s.last_delivered)
          (drop (s.last_delivered - s.snap_index) s.entries) (omega (arith, h)))
        (sym (append-nil s.committed));
}

-- On a contiguous log whose commit index is in range and not below what was delivered, the entries
-- after the last delivered one up to the commit index are queued, each once and in order; no index
-- is out of range, nothing else of the log changes, and all of them count as delivered.
pub deliver_committed_lem :
    (s : Core)
    → Follows s.snap_index s.entries
    → s.snap_index + length s.entries + 1 < 2 ^ 64
    → s.snap_index ≤ s.last_delivered
    → s.last_delivered ≤ s.commit_index
    → s.commit_index ≤ s.snap_index + length s.entries
    → ((deliver_committed s).0 ≡ ok tt) × Delivered s (deliver_committed s).1
unfolding deliver_committed
deliver_committed_lem s c f a d l =
    let (done, same, out) =
      deliver_from_lem (s.commit_index - s.last_delivered) (s.last_delivered + 1)
        (s.last_delivered - s.snap_index) s c f (omega arith) (omega arith) in
    elim (Bool-cases (length s.entries == 0)) [
      | inl e ↦ rw e (
        refl,
        nothing_due s
            (let n : length s.entries ≡ 0 = (==_iff (length s.entries) 0).0 e in omega arith),
      )
      | inr e ↦
          rw (e, done)
            (
              refl,
              mark_lem s
                  (deliver_from (s.commit_index - s.last_delivered) (s.last_delivered + 1) s).1 d
                  same out,
            )
    ]
