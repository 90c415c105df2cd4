-- ===== src/Raft/Order/Commit.antt =====
-- internal/raft/replication.go, `maybeAdvanceCommit`: what the leader commits, and what it leaves.
use raft_kv.Common.{
  ℕ, zero, suc, ◌+◌, ◌-◌, ◌<◌, ◌≤◌, ◌≡◌, refl, sym, ◌∙◌, ◌&&◌, Option, none, some, ◌⊎◌, inl, inr,
  List, [], ◌++◌, arith, length, take, drop, append-nil, ltb, leb, ◌==◌, Bool-cases,
}
use raft_kv.Raft.Result.{ok}
use raft_kv.Raft.Entry.{Entry}
use raft_kv.Raft.Core.{Core}
use raft_kv.Raft.Log.{last_log_index, term_at, majority}
use raft_kv.Raft.Replication.{stored_by, commit_point, deliver_committed, maybe_advance_commit}
use raft_kv.Raft.Order.Shape.{IsLog, last_log_index-eq}
use raft_kv.Raft.Order.Backed.{Backed, majority-Backed, Backed-majority}
use raft_kv.Common.Assoc.{IsMap, nat_eq}
use raft_kv.Raft.Order.Deliver.{Delivered, deliver_committed_lem}

-- The leader may commit up to `n`: the entry is of its own term and a majority stores it.
record MayCommit (s : Core) (n : ℕ) : Type 0 where
  later : s.commit_index < n
  own_term : term_at s n ≡ s.term
  stored : majority s ≤ stored_by s n

-- The index is the highest up to `top` that may be committed.
abbrev IsCommitPoint : Core → ℕ → Option ℕ → Type 0
IsCommitPoint s top none =
    (m : ℕ) → m ≤ top → ((i : ℕ) → m ≤ i → i ≤ top → term_at s i ≡ s.term) → ¬ MayCommit s m
IsCommitPoint s top (some n) =
    (n ≤ top) × MayCommit s n × ((m : ℕ) → n < m → m ≤ top → stored_by s m < majority s)

widen :
    (s : Core) (n : ℕ) (r : Option ℕ)
    → stored_by s (suc n) < majority s
    → IsCommitPoint s n r
    → IsCommitPoint s (suc n) r
widen s n none h p = λ m l own may. elim (Bool-cases (m == suc n)) [
  | inl b ↦ (let e : m ≡ suc n = ground (arith, b) in absurd (omega (arith, h, rw e at may.stored)))
  | inr b ↦ p m (ground (arith, b)) (λ i a c. own i a (omega arith)) may
]
widen s n (some k) h p = (
  omega (arith, p.0),
  p.1,
  λ m a l. elim (Bool-cases (m == suc n)) [
    | inl b ↦ (let e : m ≡ suc n = ground (arith, b) in rw e h)
    | inr b ↦ p.2 m a (ground (arith, b))
  ],
)

commit_point_lem : (s : Core) (top : ℕ) → IsCommitPoint s top (commit_point s top)
unfolding commit_point
commit_point_lem s zero = λ m l own may. absurd (omega (arith, may.later))
commit_point_lem s (suc n) =
    elim (Bool-cases (ltb s.commit_index (suc n) && (term_at s (suc n) == s.term))) [
      | inl b ↦
          let later : s.commit_index < suc n = ground (arith, b) in
          let own : term_at s (suc n) ≡ s.term = ground (arith, b) in
          elim (Bool-cases (leb (majority s) (stored_by s (suc n)))) [
            | inl c ↦
                rw (b, c)
                  (
                    omega arith,
                    record { later = later; own_term = own; stored = ground (arith, c) },
                    λ m a l. absurd (omega arith),
                  )
            | inr c ↦
                rw (b, c) (widen s n (commit_point s n) (ground (arith, c)) (commit_point_lem s n))
          ]
      | inr b ↦ rw b (λ m l own may.
          (let top = own (suc n) l (omega arith) in
            let later = may.later in absurd (ground (arith, b))))
    ]

-- The same, by the counts of the code.
record Counted (s t : Core) : Type 0 where
  log : IsLog t
  entries : t.entries ≡ s.entries
  rule : (t.commit_index ≡ s.commit_index) ⊎ MayCommit s t.commit_index
  greatest :
      (m : ℕ)
      → t.commit_index < m
      → m ≤ s.snap_index + length s.entries
      → ((i : ℕ) → m ≤ i → i ≤ s.snap_index + length s.entries → term_at s i ≡ s.term)
      → stored_by s m < majority s
  queued :
      t.committed
      ≡ s.committed
        ++ take (t.commit_index - s.commit_index) (drop (s.commit_index - s.snap_index) s.entries)

-- The state after the commit rule has run.
pub record Committed (s t : Core) : Type 0 where
  pub log : IsLog t
  pub entries : t.entries ≡ s.entries
  pub rule :
      (t.commit_index ≡ s.commit_index)
      ⊎ ((s.commit_index < t.commit_index)
          × (term_at s t.commit_index ≡ s.term)
          × Backed s t.commit_index)
  pub greatest :
      (m : ℕ)
      → t.commit_index < m
      → m ≤ s.snap_index + length s.entries
      → ((i : ℕ) → m ≤ i → i ≤ s.snap_index + length s.entries → term_at s i ≡ s.term)
      → ¬ Backed s m
  pub queued :
      t.committed
      ≡ s.committed
        ++ take (t.commit_index - s.commit_index) (drop (s.commit_index - s.snap_index) s.entries)

Counted-Committed : (s t : Core) → IsMap s.members → Counted s t → Committed s t
Counted-Committed s t h c = record {
  log = c.log;
  entries = c.entries;
  rule = elim c.rule [
    | inl e ↦ inl e
    | inr may ↦ inr (may.later, may.own_term, majority-Backed s t.commit_index h may.stored)
  ];
  greatest =
      λ m a l own back. absurd (omega (arith, c.greatest m a l own, Backed-majority s m back));
  queued = c.queued;
}

Delivered-IsLog :
    (n : ℕ) (s t : Core)
    → IsLog s
    → s.commit_index < n
    → n ≤ s.snap_index + length s.entries
    → Delivered (record s { commit_index = n }) t
    → IsLog t
Delivered-IsLog n s t h a l d = record {
  contiguous = rw (d.snap_index, d.entries) h.contiguous;
  fits = rw (d.snap_index, d.entries) h.fits;
  snap_le = rw (d.snap_index, d.commit_index) (omega (arith, h.snap_le));
  commit_le = rw (d.snap_index, d.commit_index, d.entries) l;
  delivered_eq = d.last_delivered ∙ sym d.commit_index;
}

Counted-none :
    (s : Core) → IsLog s → IsCommitPoint s (s.snap_index + length s.entries) none → Counted s s
Counted-none s h p = record {
  log = h;
  entries = refl;
  rule = inl refl;
  greatest = λ m a l own. elim (Bool-cases (leb (majority s) (stored_by s m))) [
    | inl b ↦ absurd (
        p m l own
          (record { later = a; own_term = own m (omega arith) l; stored = ground (arith, b) }))
    | inr b ↦ ground (arith, b)
  ];
  queued =
      rw (nothing s.commit_index (drop (s.commit_index - s.snap_index) s.entries))
        (sym (append-nil s.committed));
}
  where
    nothing : (n : ℕ) (es : List Entry) → take (n - n) es ≡ []
    nothing n es = rw (self n) refl
      where
        self : (n : ℕ) → n - n ≡ 0
        self n = omega arith

Counted-some :
    (n : ℕ) (s t : Core)
    → IsLog s
    → IsCommitPoint s (s.snap_index + length s.entries) (some n)
    → Delivered (record s { commit_index = n }) t
    → Counted s t
Counted-some n s t h p d = record {
  log = Delivered-IsLog n s t h p.1.later p.0 d;
  entries = d.entries;
  rule = inr (rw d.commit_index p.1);
  greatest = λ m a l own. p.2 m (rw d.commit_index at a) l;
  queued = d.committed ∙ rw (d.commit_index, h.delivered_eq) refl;
}

advance_with :
    (s : Core) (r : Option ℕ)
    → IsLog s
    → commit_point s (last_log_index s) ≡ r
    → IsCommitPoint s (s.snap_index + length s.entries) r
    → ((maybe_advance_commit s).0 ≡ ok tt) × Counted s (maybe_advance_commit s).1
unfolding maybe_advance_commit
advance_with s none h e p = rw (e, maybe_advance_commit) (refl, Counted-none s h p)
advance_with s (some n) h e p =
    let up : Core = record s { commit_index = n } in
    let (fine, d) =
      deliver_committed_lem up h.contiguous h.fits (rw h.delivered_eq h.snap_le)
        (rw h.delivered_eq (omega (arith, p.1.later))) p.0 in
    rw (e, maybe_advance_commit) (fine, Counted-some n s (deliver_committed up).1 h p d)

-- On a well-formed log and a table in which no id stands twice, the commit rule does not panic, and
-- the log stays well formed. The commit index stays, or moves to an entry of the leader's own term
-- that more than half of the members store, counted as different members; no later entry from which
-- on all entries are of that term is stored by so many; and exactly the entries in between are
-- queued, in order.
pub maybe_advance_commit_lem :
    (s : Core)
    → IsLog s
    → IsMap s.members
    → ((maybe_advance_commit s).0 ≡ ok tt) × Committed s (maybe_advance_commit s).1
maybe_advance_commit_lem s h table =
    let last = last_log_index-eq s h.contiguous in
    let (fine, counted) =
      advance_with s (commit_point s (last_log_index s)) h refl
        (rw last (commit_point_lem s (s.snap_index + length s.entries))) in
    (fine, Counted-Committed s (maybe_advance_commit s).1 table counted)
