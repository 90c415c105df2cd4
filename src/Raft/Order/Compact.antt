-- ===== src/Raft/Order/Compact.antt =====
-- internal/raft/raftsnap.go, `compact`: what a compaction that works leaves of the log and the membership.
use raft_kv.Common.{
  ℕ, zero, suc, ◌+◌, ◌-◌, ◌^◌, ◌<◌, ◌≤◌, ◌≡◌, refl, sym, ap, ◌∙◌, false, some, List, [], ◌∷◌, arith,
  ltb, length, drop, length-drop, Bool-cases, inl, inr, u64,
}
use raft_kv.Common.Bytes.{Bytes}
use raft_kv.Common.Assoc.{Map}
use raft_kv.Raft.Result.{Result, ok, err, panic}
use raft_kv.Raft.Entry.{Entry}
use raft_kv.Raft.Snapshot.{RaftSnapshot}
use raft_kv.Raft.Core.{Core, continue, modify}
use raft_kv.Raft.Persist.{persist_raft_snapshot, store_rewrite, log_step, replace_log}
use raft_kv.Raft.Membership.{change_by, fold_configs, config_upto, config_at, recalc_config}
use raft_kv.Raft.Install.{
  snapshot_at, suffix_after, set_base, move_base, move_to, drop_through, compact_through, compact,
}
use raft_kv.Raft.Compaction.{compact_through-eq}
use raft_kv.Raft.Order.Shape.{Follows, IsLog}
use raft_kv.Raft.Order.Append.{IsHandled}

-- The table does not depend on the index that is carried along.
fold_configs-table :
    (es : List Entry) (m : Map ℕ Bytes) (i j : ℕ)
    → (fold_configs es m i).0 ≡ (fold_configs es m j).0
unfolding fold_configs
fold_configs-table [] m i j = refl
fold_configs-table (e ∷ es) m i j = fold_configs-table es (change_by e m) _ _

-- The entries up to an index, and then those after it.
fold_configs-config_upto :
    (p n : ℕ) (es : List Entry) (m : Map ℕ Bytes) (i : ℕ)
    → Follows p es
    → p ≤ n
    → (fold_configs (drop (n - p) es) (config_upto es n m) i).0 ≡ (fold_configs es m i).0
unfolding config_upto fold_configs
fold_configs-config_upto p n [] m i f l = nothing (n - p)
  where
    nothing : (k : ℕ) → (fold_configs (drop k []) m i).0 ≡ m
    nothing zero = refl
    nothing (suc k) = refl
fold_configs-config_upto p n (e ∷ es) m i f l = elim (Bool-cases (ltb n e.index)) [
  | inl b ↦ let here : n - p ≡ 0 = ground (arith, b, f.0) in rw (here, b) refl
  | inr b ↦
      let later : n - p ≡ suc (n - suc p) = ground (arith, b, f.0) in
      let rest =
        fold_configs-config_upto (suc p) n es (change_by e m) i f.1 (ground (arith, b, f.0)) in
      rw (later, b) (rest ∙ fold_configs-table es (change_by e m) i _)
]

Follows-drop :
    (p k : ℕ) (es : List Entry) → k ≤ length es → Follows p es → Follows (p + k) (drop k es)
Follows-drop p zero es l f = ap_follows es (omega arith) f
  where
    ap_follows : {a b : ℕ} (es : List Entry) → a ≡ b → Follows a es → Follows b es
    ap_follows es e f = rw (sym e) f
Follows-drop p (suc k) [] l f = elim l [ ]
Follows-drop p (suc k) (e ∷ es) l f = rw (shift p k) (Follows-drop (suc p) k es (omega arith) f.1)
  where
    shift : (p k : ℕ) → p + suc k ≡ suc p + k
    shift p k = omega arith

-- Only the disk may differ.
pub record SameMemory (s t : Core) : Type 0 where
  pub entries : t.entries ≡ s.entries
  pub commit_index : t.commit_index ≡ s.commit_index
  pub last_delivered : t.last_delivered ≡ s.last_delivered
  pub snap_index : t.snap_index ≡ s.snap_index
  pub snap_config : t.snap_config ≡ s.snap_config

SameMemory-trans : {s t u : Core} → SameMemory s t → SameMemory t u → SameMemory s u
SameMemory-trans p q = record {
  entries = q.entries ∙ p.entries;
  commit_index = q.commit_index ∙ p.commit_index;
  last_delivered = q.last_delivered ∙ p.last_delivered;
  snap_index = q.snap_index ∙ p.snap_index;
  snap_config = q.snap_config ∙ p.snap_config;
}

persist-SameMemory :
    (snap : RaftSnapshot) (s : Core)
    → IsHandled (persist_raft_snapshot snap s).0 × SameMemory s (persist_raft_snapshot snap s).1
unfolding persist_raft_snapshot
persist-SameMemory snap s = ground arith

rewrite-SameMemory :
    (keep : List Entry) (s : Core)
    → IsHandled (store_rewrite keep s).0 × SameMemory s (store_rewrite keep s).1
unfolding store_rewrite log_step replace_log
rewrite-SameMemory keep s = ground arith

-- The log starts after `n`, and stands for the same entries and the same membership.
pub record Compacted (n : ℕ) (s t : Core) : Type 0 where
  pub log : IsLog t
  pub entries : t.entries ≡ drop (n - s.snap_index) s.entries
  pub snap_index : t.snap_index ≡ n
  pub commit_index : t.commit_index ≡ s.commit_index
  pub members : (recalc_config t).members ≡ (recalc_config s).members

-- After an error nothing in memory has changed that the log consists of.
abbrev pub CompactResult : ℕ → Core → Result (Unit {0}) × Core → Type 0
CompactResult n s (ok u, t) = Compacted n s t
CompactResult n s (err e, t) = SameMemory s t
CompactResult n s (panic, t) = ⊥

suffix-drop :
    (n p : ℕ) (es : List Entry)
    → Follows p es
    → p < n
    → n ≤ p + length es
    → p + length es + 1 < 2 ^ 64
    → suffix_after n es ≡ some (drop (n - p) es)
unfolding suffix_after
suffix-drop n p [] f a l b = absurd (omega arith)
suffix-drop n p (e ∷ es) f a l b =
    let start : u64 (n + 2 ^ 64 - e.index + 1) ≡ n - p = omega (arith, f.0) in
    let inside : ltb (length (e ∷ es)) (n - p) ≡ false = ground arith in
    rw (start, inside, suffix_after) refl

members-based :
    (n : ℕ) (payload : Bytes) (s v : Core)
    → Follows s.snap_index s.entries
    → s.snap_index ≤ n
    → (recalc_config
        (set_base (snapshot_at n payload s) (drop (n - s.snap_index) s.entries) v)).members
      ≡ (recalc_config s).members
unfolding recalc_config set_base config_at
members-based n payload s v f l =
    fold_configs-config_upto s.snap_index n s.entries s.snap_config 0 f l

based :
    (n : ℕ) (payload : Bytes) (s v : Core)
    → IsLog s
    → s.snap_index < n
    → n ≤ s.last_delivered
    → SameMemory s v
    → Compacted n s (set_base (snapshot_at n payload s) (drop (n - s.snap_index) s.entries) v)
unfolding set_base
based n payload s v h a l m =
    let kept : List Entry = drop (n - s.snap_index) s.entries in
    let size : n + length kept ≡ s.snap_index + length s.entries =
      omega (arith, length-drop (n - s.snap_index) s.entries, h.commit_le, h.delivered_eq) in
    let from : Follows (s.snap_index + (n - s.snap_index)) kept =
      Follows-drop s.snap_index (n - s.snap_index) s.entries
        (omega (arith, h.commit_le, h.delivered_eq)) h.contiguous in
    let at_n : s.snap_index + (n - s.snap_index) ≡ n = omega arith in
    record {
      log = record {
        contiguous = rw at_n at from;
        fits = omega (arith, size, h.fits);
        snap_le = rw (m.commit_index, ← h.delivered_eq) l;
        commit_le = rw m.commit_index (omega (arith, size, h.commit_le));
        delivered_eq = m.last_delivered ∙ h.delivered_eq ∙ sym m.commit_index;
      };
      entries = refl;
      snap_index = refl;
      commit_index = m.commit_index;
      members = members-based n payload s v h.contiguous (omega arith);
    }

rewritten :
    (n : ℕ) (payload : Bytes) (s : Core) (r : Result (Unit {0})) (v : Core)
    → IsLog s
    → s.snap_index < n
    → n ≤ s.last_delivered
    → IsHandled r
    → SameMemory s v
    → CompactResult n s (
        continue r
          (λ _. modify (set_base (snapshot_at n payload s) (drop (n - s.snap_index) s.entries)))
          v)
rewritten n payload s (ok u) v h a l k m = based n payload s v h a l m
rewritten n payload s (err e) v h a l k m = m
rewritten n payload s panic v h a l k m = elim k [ ]

persisted :
    (n : ℕ) (payload : Bytes) (s : Core) (r : Result (Unit {0})) (u : Core)
    → IsLog s
    → s.snap_index < n
    → n ≤ s.last_delivered
    → IsHandled r
    → SameMemory s u
    → CompactResult n s (continue r (λ _. drop_through (snapshot_at n payload s)) u)
unfolding drop_through move_to move_base
persisted n payload s (ok x) u h a l k m =
    let keep : List Entry = drop (n - s.snap_index) s.entries in
    let found =
      ap (suffix_after n) m.entries
      ∙ suffix-drop n s.snap_index s.entries h.contiguous a
          (omega (arith, h.commit_le, h.delivered_eq)) h.fits in
    let (fine, same) = rewrite-SameMemory keep u in
    rw found (
      rewritten n payload s (store_rewrite keep u).0 (store_rewrite keep u).1 h a l fine
        (SameMemory-trans m same))
persisted n payload s (err e) u h a l k m = m
persisted n payload s panic u h a l k m = elim k [ ]

-- On a well-formed log, compacting through an index that is above the old snapshot and has been
-- delivered does not panic, whatever fails on disk. If it works, the log starts after that index with
-- the entries that it held there, is well formed with the same commit index, and the membership that
-- is rebuilt from the new snapshot and the entries left is the one that was rebuilt before. If it
-- fails, the log in memory is unchanged.
pub compact_lem :
    (n : ℕ) (payload : Bytes) (s : Core)
    → IsLog s
    → s.snap_index < n
    → n ≤ s.last_delivered
    → CompactResult n s (compact n payload s)
unfolding compact_through
compact_lem n payload s h a l =
    let snap : RaftSnapshot = snapshot_at n payload s in
    let (fine, same) = persist-SameMemory snap s in
    rw (compact_through-eq n payload s a l) (
      persisted n payload s (persist_raft_snapshot snap s).0 (persist_raft_snapshot snap s).1 h a l
        fine same)
