-- ===== src/Raft/Order/Terms.antt =====
-- The term that the log gives to an index, before and after a suffix is replaced.
use raft_kv.Common.{
  ℕ, suc, ◌+◌, ◌-◌, ◌^◌, ◌<◌, ◌≤◌, ◌≡◌, refl, sym, ap, ◌∙◌, Option, none, some, inl, inr, List, [],
  ◌∷◌, ◌++◌, arith, length, get_elem?, take, leb, ◌==◌, if◌then◌else◌, Bool-cases, leb→le,
  length-append, length-take, get_elem?-append_lt, get_elem?-append_ge, get_elem?-take,
  get_elem?-lt,
}
use raft_kv.Raft.Entry.{Entry}
use raft_kv.Raft.Core.{Core}
use raft_kv.Raft.Log.{last_log_index, base_of, term_at}
use raft_kv.Raft.Order.Shape.{
  Follows, IsLog, last_log_index-eq, entry_at-eq, Follows-append, Follows-take, base_at,
}
use raft_kv.Raft.Order.Append.{Replaced}

abbrev pub term_of : Option Entry → ℕ
term_of none = 0
term_of (some e) = e.term

-- Above the snapshot the log answers.
pub term_at-eq :
    (s : Core) (k : ℕ)
    → Follows s.snap_index s.entries
    → s.snap_index + length s.entries + 1 < 2 ^ 64
    → k < length s.entries
    → term_at s (s.snap_index + suc k) ≡ term_of (get_elem? s.entries k)
unfolding term_at
term_at-eq s k c f l =
    let b : base_of s.entries ≡ suc s.snap_index = base_at s.snap_index s.entries c (omega arith) in
    let (e, got) = get_elem?-lt s.entries k l in
    let found = entry_at-eq s.snap_index (s.snap_index + suc k) k s.entries c refl l f ∙ got in
    rw (got, found) (ground (arith, b, last_log_index-eq s c))

-- At the snapshot and below it the log says nothing.
pub term_at_below :
    (s : Core) (i : ℕ)
    → Follows s.snap_index s.entries
    → i ≤ s.snap_index
    → term_at s i ≡ (if i == s.snap_index then s.snap_term else 0)
unfolding term_at
term_at_below s i c l = elim (Bool-cases (length s.entries == 0)) [
  | inl z ↦ ground (arith, z)
  | inr z ↦
      let b : base_of s.entries ≡ suc s.snap_index =
        base_at s.snap_index s.entries c (ground (arith, z)) in
      ground (arith, b)
]

length_kept :
    {q : ℕ} {es : List Entry} {s t : Core}
    → Replaced q es s t
    → length (take (q - s.snap_index) s.entries) ≡ q - s.snap_index
length_kept {q} {es} {s} p = length-take (q - s.snap_index) s.entries ∙ omega (arith, p.reached)

pub Replaced-IsLog :
    {q : ℕ} {es : List Entry} {s t : Core}
    → IsLog s
    → Replaced q es s t
    → Follows q es
    → q + length es + 1 < 2 ^ 64
    → IsLog t
Replaced-IsLog {q} {es} {s} {t} h p f b = record {
  contiguous =
      rw (p.snap_index, p.entries)
        (Follows-append s.snap_index (take (q - s.snap_index) s.entries) es
          (Follows-take s.snap_index (q - s.snap_index) s.entries h.contiguous)
          (rw (length_kept p, at_q) f));
  fits = rw (p.snap_index, p.entries) (omega (arith, size));
  snap_le = rw (p.snap_index, p.commit_index) h.snap_le;
  commit_le = rw (p.snap_index, p.commit_index, p.entries) (omega (arith, size, p.committed_le));
  delivered_eq = p.last_delivered ∙ h.delivered_eq ∙ sym p.commit_index;
}
  where
    at_q : s.snap_index + (q - s.snap_index) ≡ q
    at_q = omega (arith, h.snap_le, p.committed_le)

    size : s.snap_index + length (take (q - s.snap_index) s.entries ++ es) ≡ q + length es
    size = omega (arith, length-append (take (q - s.snap_index) s.entries) es, length_kept p, at_q)

-- The log ends with the new entries.
pub Replaced-end :
    {q : ℕ} {es : List Entry} {s t : Core}
    → IsLog s
    → Replaced q es s t
    → t.snap_index + length t.entries ≡ q + length es
Replaced-end {q} {es} {s} {t} h p =
    rw (p.snap_index, p.entries)
      (omega (
        arith,
        length-append (take (q - s.snap_index) s.entries) es,
        length_kept p,
        h.snap_le,
        p.committed_le,
      ))

-- Up to where the new entries start, no term changes.
pub term_at-kept :
    {q : ℕ} {es : List Entry} {s t : Core} (i : ℕ)
    → IsLog s
    → IsLog t
    → Replaced q es s t
    → i ≤ q
    → term_at t i ≡ term_at s i
term_at-kept {q} {es} {s} {t} i h g p l = elim (Bool-cases (leb i s.snap_index)) [
  | inl b ↦
      term_at_below t i g.contiguous (rw p.snap_index (leb→le i s.snap_index b))
      ∙ rw (p.snap_index, p.snap_term) refl
      ∙ sym (term_at_below s i h.contiguous (leb→le i s.snap_index b))
  | inr b ↦ above (i - suc s.snap_index) (ground (arith, b))
]
  where
    above : (k : ℕ) → i ≡ s.snap_index + suc k → term_at t i ≡ term_at s i
    above k e =
        let short : k < length (take (q - s.snap_index) s.entries) =
          omega (arith, length_kept p, e, l) in
        let at_t : term_at t (t.snap_index + suc k) ≡ term_of (get_elem? t.entries k) =
          term_at-eq t k g.contiguous g.fits (
            rw p.entries
              (omega (arith, short, length-append (take (q - s.snap_index) s.entries) es))) in
        let at_s : term_at s (s.snap_index + suc k) ≡ term_of (get_elem? s.entries k) =
          term_at-eq s k h.contiguous h.fits (omega (arith, e, l, p.reached)) in
        let same : get_elem? t.entries k ≡ get_elem? s.entries k = rw p.entries (
          get_elem?-append_lt (take (q - s.snap_index) s.entries) es k short
          ∙ get_elem?-take (q - s.snap_index) s.entries k (omega (arith, e, l))) in
        ap (term_at t) (e ∙ ap (λ n. n + suc k) (sym p.snap_index))
        ∙ at_t
        ∙ ap term_of same
        ∙ sym at_s
        ∙ ap (term_at s) (sym e)

-- The new entries are found with their terms.
term_at-new :
    {q : ℕ} {es : List Entry} {s t : Core} (k : ℕ)
    → IsLog s
    → IsLog t
    → Replaced q es s t
    → k < length es
    → term_at t (q + suc k) ≡ term_of (get_elem? es k)
term_at-new {q} {es} {s} {t} k h g p l =
    let kept : List Entry = take (q - s.snap_index) s.entries in
    let place : q + suc k ≡ t.snap_index + suc (length kept + k) =
      omega (arith, length_kept p, p.snap_index, h.snap_le, p.committed_le) in
    ap (term_at t) place
    ∙ term_at-eq t (length kept + k) g.contiguous g.fits
        (rw p.entries (omega (arith, l, length-append kept es)))
    ∙ ap term_of (found kept p.entries)
  where
    found :
        (kept : List Entry)
        → t.entries ≡ kept ++ es
        → get_elem? t.entries (length kept + k) ≡ get_elem? es k
    found kept e = rw e (get_elem?-append_ge kept es k)

-- The log gives each of the entries its term.
abbrev pub Holds : Core → List Entry → Type 0
Holds s [] = Unit {0}
Holds s (e ∷ es) = (term_at s e.index ≡ e.term) × Holds s es

Holds-from :
    (t : Core) (q : ℕ) (es : List Entry)
    → Follows q es
    → ((k : ℕ) → k < length es → term_at t (q + suc k) ≡ term_of (get_elem? es k))
    → Holds t es
Holds-from t q [] f h = tt
Holds-from t q (e ∷ es) f h = (
  ap (term_at t) (f.0 ∙ omega arith) ∙ h 0 (omega arith),
  Holds-from t (suc q) es f.1 (λ k l. ap (term_at t) (shift k) ∙ h (suc k) (omega arith)),
)
  where
    shift : (k : ℕ) → suc q + suc k ≡ q + suc (suc k)
    shift k = omega arith

pub Replaced-Holds :
    {q : ℕ} {es : List Entry} {s t : Core}
    → IsLog s
    → IsLog t
    → Replaced q es s t
    → Follows q es
    → Holds t es
Replaced-Holds {q} {es} {s} {t} h g p f = Holds-from t q es f (λ k l. term_at-new k h g p l)

pub record SameTerms (s t : Core) : Type 0 where
  pub entries : t.entries ≡ s.entries
  pub snap_index : t.snap_index ≡ s.snap_index
  pub snap_term : t.snap_term ≡ s.snap_term

pub term_at-same : (s t : Core) (i : ℕ) → SameTerms s t → term_at t i ≡ term_at s i
unfolding term_at last_log_index
term_at-same s t i f = rw (f.entries, f.snap_index, f.snap_term) refl
