-- ===== src/Raft/Order/Shape.antt =====
-- A log is contiguous from its snapshot on, and is committed and delivered up to one point of it.
use raft_kv.Common.{
  ℕ, zero, suc, ◌+◌, ◌-◌, ◌^◌, ◌<◌, ◌≤◌, ◌≡◌, refl, ap, none, some, List, [], ◌∷◌, ◌++◌, arith,
  length, get_elem?, get_last?, take, u64,
}
use raft_kv.Raft.Entry.{Entry}
use raft_kv.Raft.Core.{Core}
use raft_kv.Raft.Log.{last_log_index, base_of, entry_at}

-- The entries have the indices `p + 1`, `p + 2`, and so on.
abbrev pub Follows : ℕ → List Entry → Type 0
Follows p [] = Unit {0}
Follows p (e ∷ es) = (e.index ≡ suc p) × Follows (suc p) es

pub record LogShape (snap : ℕ) (es : List Entry) (commit delivered : ℕ) : Type 0 where
  pub contiguous : Follows snap es
  pub fits : snap + length es + 1 < 2 ^ 64
  pub snap_le : snap ≤ commit
  pub commit_le : commit ≤ snap + length es
  pub delivered_eq : delivered ≡ commit

abbrev pub IsLog : Core → Type 0
IsLog s = LogShape s.snap_index s.entries s.commit_index s.last_delivered

last_of :
    (p : ℕ) (e : Entry) (es : List Entry)
    → Follows p (e ∷ es)
    → (l : Entry) × (get_last? (e ∷ es) ≡ some l) × (l.index ≡ p + length (e ∷ es))
last_of p e [] h = (e, refl, omega (arith, h.0))
last_of p e (f ∷ es) h = let (l, q, i) = last_of (suc p) f es h.1 in (l, q, omega (arith, i))

-- The last index of a contiguous log.
pub last_log_index-eq :
    (s : Core) → Follows s.snap_index s.entries → last_log_index s ≡ s.snap_index + length s.entries
unfolding last_log_index
last_log_index-eq s h = go s.snap_index s.entries h
  where
    go :
        (p : ℕ) (es : List Entry)
        → Follows p es
        → elim (get_last? es) [ none ↦ p | some e ↦ e.index ] ≡ p + length es
    go p [] k = omega arith
    go p (e ∷ es) k = let (l, q, i) = last_of p e es k in rw q i

-- `entries[i-base]` is in range on a contiguous log.
pub entry_at-eq :
    (p i k : ℕ) (es : List Entry)
    → Follows p es
    → i ≡ p + suc k
    → k < length es
    → p + length es + 1 < 2 ^ 64
    → entry_at es i ≡ get_elem? es k
unfolding entry_at
entry_at-eq p i k [] h e l f = elim l [ ]
entry_at-eq p i k (x ∷ es) h e l f = ap (get_elem? (x ∷ es)) (offset h.0)
  where
    offset : x.index ≡ suc p → u64 (i + 2 ^ 64 - x.index) ≡ k
    offset b = omega arith

pub Follows-append :
    (p : ℕ) (es fs : List Entry) → Follows p es → Follows (p + length es) fs → Follows p (es ++ fs)
Follows-append p [] fs h k = rw (plus_zero p) at k
  where
    plus_zero : (n : ℕ) → n + 0 ≡ n
    plus_zero n = omega arith
Follows-append p (e ∷ es) fs h k =
    (h.0, Follows-append (suc p) es fs h.1 (rw (plus_suc p (length es)) at k))
  where
    plus_suc : (m n : ℕ) → m + suc n ≡ suc m + n
    plus_suc m n = omega arith

pub Follows-take : (p n : ℕ) (es : List Entry) → Follows p es → Follows p (take n es)
Follows-take p zero es h = tt
Follows-take p (suc n) [] h = tt
Follows-take p (suc n) (e ∷ es) h = (h.0, Follows-take (suc p) n es h.1)

pub base_at : (p : ℕ) (es : List Entry) → Follows p es → 0 < length es → base_of es ≡ suc p
base_at p [] h l = elim l [ ]
base_at p (e ∷ es) h l = h.0
