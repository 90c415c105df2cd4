-- ===== src/Raft/Order/Append.antt =====
-- internal/raft/replication.go, `truncateAndAppend`: what it leaves of the log, on every branch.
use raft_kv.Common.{
  ℕ, suc, ◌+◌, ◌-◌, ◌<◌, ◌≤◌, ◌≡◌, refl, sym, ap, ◌∙◌, Bool, true, false, ◌⊎◌, List, [], ◌∷◌, ◌++◌,
  arith, length, take, drop, append-nil, ltb, leb, Bool-cases, inl, inr, take_all,
}
use raft_kv.Raft.Result.{Result, ok, err, panic}
use raft_kv.Raft.Entry.{Entry}
use raft_kv.Raft.Core.{Core, continue, modify, ◌>>◌}
use raft_kv.Raft.Log.{base_of}
use raft_kv.Raft.Persist.{store_append, append_checked, write_entries}
use raft_kv.Raft.Follower.{
  has_config, cut_suffix, overlaps, truncate_suffix, push_entries, settle_config, append_at,
  truncate_and_append, append_new,
}
use raft_kv.Raft.Order.Shape.{Follows, IsLog, last_log_index-eq, base_at}
use raft_kv.Raft.Order.Frame.{SameLog, SameLog-refl, store_append_log, settle_log}

-- A result that is no panic.
abbrev pub IsHandled : {A : Type 0} → Result A → Type 0
IsHandled (ok a) = Unit {0}
IsHandled (err e) = Unit {0}
IsHandled panic = ⊥

-- `c.entries[:first-base]`, where `first` is `suc q`.
cut_at : ℕ → Core → Core
cut_at q s = record s { entries = take (q - s.snap_index) s.entries }

overlaps-false :
    (f : ℕ) (s : Core)
    → Follows s.snap_index s.entries
    → overlaps f s ≡ false
    → length s.entries ≡ 0 ⊎ s.snap_index + length s.entries < f
unfolding overlaps
overlaps-false f s c o = ground (arith, o, last_log_index-eq s c)

overlaps-true : (f : ℕ) (s : Core) → overlaps f s ≡ true → 0 < length s.entries
unfolding overlaps
overlaps-true f s o = ground (arith, o)

less_less : (m n : ℕ) → suc m - suc n ≡ m - n
less_less m n = omega arith

truncate_suffix_lem :
    (q : ℕ) (s : Core)
    → IsLog s
    → s.commit_index ≤ q
    → q ≤ s.snap_index + length s.entries
    → (b : Bool) × (truncate_suffix (suc q) s ≡ (ok b, cut_at q s))
unfolding truncate_suffix cut_suffix cut_at
truncate_suffix_lem q s h c l = elim (Bool-cases (overlaps (suc q) s)) [
  | inl o ↦
      let b : base_of s.entries ≡ suc s.snap_index =
        base_at s.snap_index s.entries h.contiguous (overlaps-true (suc q) s o) in
      let in_range : ltb (suc q) (base_of s.entries) ≡ false = ground (arith, b, h.snap_le) in
      (
        has_config (drop (suc q - base_of s.entries) s.entries),
        rw (o, in_range, b, less_less q s.snap_index) refl,
      )
  | inr o ↦ (
    false,
    rw (o, take_all (q - s.snap_index) s.entries (short (overlaps-false (suc q) s h.contiguous o)))
        refl,
  )
]
  where
    short :
        length s.entries ≡ 0 ⊎ s.snap_index + length s.entries < suc q
        → length s.entries ≤ q - s.snap_index
    short (inl z) = omega arith
    short (inr z) = omega (arith, h.snap_le)

store_append-IsHandled : (es : List Entry) (s : Core) → IsHandled (store_append es s).0
unfolding store_append append_checked write_entries
store_append-IsHandled es s = ground arith

-- The log after `first - 1 = q` with `es` put in place of what followed.
pub record Replaced (q : ℕ) (es : List Entry) (s t : Core) : Type 0 where
  pub committed_le : s.commit_index ≤ q
  pub reached : q ≤ s.snap_index + length s.entries
  pub cfg : t.cfg ≡ s.cfg
  pub entries : t.entries ≡ take (q - s.snap_index) s.entries ++ es
  pub commit_index : t.commit_index ≡ s.commit_index
  pub last_delivered : t.last_delivered ≡ s.last_delivered
  pub snap_index : t.snap_index ≡ s.snap_index
  pub snap_term : t.snap_term ≡ s.snap_term

-- On an error what was cut stays cut.
abbrev pub AppendResult : ℕ → List Entry → Core → Result (Unit {0}) × Core → Type 0
AppendResult q es s (ok u, t) = Replaced q es s t
AppendResult q es s (err e, t) = Replaced q [] s t ⊎ SameLog s t
AppendResult q es s (panic, t) = ⊥

replace_same :
    {q : ℕ} {es : List Entry} {s t u : Core} → Replaced q es s t → SameLog t u → Replaced q es s u
replace_same p f = record {
  committed_le = p.committed_le;
  reached = p.reached;
  cfg = f.cfg ∙ p.cfg;
  entries = f.entries ∙ p.entries;
  commit_index = f.commit_index ∙ p.commit_index;
  last_delivered = f.last_delivered ∙ p.last_delivered;
  snap_index = f.snap_index ∙ p.snap_index;
  snap_term = f.snap_term ∙ p.snap_term;
}

cut_lem :
    (q : ℕ) (s : Core)
    → s.commit_index ≤ q
    → q ≤ s.snap_index + length s.entries
    → Replaced q [] s (cut_at q s)
unfolding cut_at
cut_lem q s c l = record {
  committed_le = c;
  reached = l;
  cfg = refl;
  entries = sym (append-nil (take (q - s.snap_index) s.entries));
  commit_index = refl;
  last_delivered = refl;
  snap_index = refl;
  snap_term = refl;
}

pushed :
    (q : ℕ) (es : List Entry) (s t : Core) → Replaced q [] s t → Replaced q es s (push_entries es t)
unfolding push_entries
pushed q es s t p = record {
  committed_le = p.committed_le;
  reached = p.reached;
  cfg = p.cfg;
  entries = ap (λ xs. xs ++ es) (p.entries ∙ append-nil (take (q - s.snap_index) s.entries));
  commit_index = p.commit_index;
  last_delivered = p.last_delivered;
  snap_index = p.snap_index;
  snap_term = p.snap_term;
}

finish_append :
    (b : Bool) (q : ℕ) (es : List Entry) (s : Core) (r : Result (Unit {0})) (t : Core)
    → IsHandled r
    → Replaced q [] s t
    → AppendResult q es s
        (continue r (λ _. modify (push_entries es) >> modify (settle_config b es)) t)
finish_append b q es s (ok u) t h p =
    replace_same (pushed q es s t p) (settle_log b es (push_entries es t))
finish_append b q es s (err e) t h p = inl p
finish_append b q es s panic t h p = elim h [ ]

append_at_lem :
    (q : ℕ) (es : List Entry) (s : Core)
    → IsLog s
    → q ≤ s.snap_index + length s.entries
    → AppendResult q es s (append_at (suc q) es s)
unfolding append_at
append_at_lem q es s h l = elim (Bool-cases (leb (suc q) s.commit_index)) [
  | inl c ↦ rw c (inr (SameLog-refl s))
  | inr c ↦
      let (b, cut) = truncate_suffix_lem q s h (ground (arith, c)) l in
      rw (c, cut)
        (finish_append b q es s (store_append es (cut_at q s)).0 (store_append es (cut_at q s)).1
          (store_append-IsHandled es (cut_at q s))
          (replace_same (cut_lem q s (ground (arith, c)) l) (store_append_log es (cut_at q s))))
]

-- `truncateAndAppend` under the guard that there is something new.
pub append_new_lem :
    (q : ℕ) (es : List Entry) (s : Core)
    → IsLog s
    → Follows q es
    → q ≤ s.snap_index + length s.entries
    → (es ≡ []) × (append_new es s ≡ (ok tt, s))
      ⊎ ((0 < length es) × AppendResult q es s (append_new es s))
unfolding truncate_and_append
append_new_lem q [] s h f l = inl (refl, refl)
append_new_lem q (e ∷ es) s h f l = inr (omega arith, simp f.0 (append_at_lem q (e ∷ es) s h l))
