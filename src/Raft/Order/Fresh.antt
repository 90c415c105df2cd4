-- ===== src/Raft/Order/Fresh.antt =====
-- internal/raft/replication.go, `handleAppendEntries`: the first entry that the log does not hold.
use raft_kv.Common.{
  ℕ, suc, ◌+◌, ◌≤◌, ◌≡◌, ◌≢◌, ◌<◌, refl, ap, true, ◌++◌, ◌⊎◌, ◌∙◌, not, ◌||◌, inl, inr, List, [],
  ◌∷◌, arith, length, ltb, ◌==◌, Bool-cases,
}
use raft_kv.Raft.Entry.{Entry}
use raft_kv.Raft.Core.{Core}
use raft_kv.Raft.Log.{last_log_index, term_at}
use raft_kv.Raft.Follower.{new_entries}
use raft_kv.Raft.Order.Shape.{Follows, last_log_index-eq}
use raft_kv.Raft.Order.Terms.{Holds}

-- The log has no entry at the index of the first of these, or one of another term.
abbrev pub Conflicts : Core → List Entry → Type 0
Conflicts s [] = Unit {0}
Conflicts s (e ∷ es) = (s.snap_index + length s.entries < e.index) ⊎ (term_at s e.index ≢ e.term)

-- What is new starts at a point that the log reaches, and what is before it is held.
pub record Fresh (s : Core) (p : ℕ) (es new : List Entry) : Type 0 where
  pub start : ℕ
  pub start_ge : p ≤ start
  pub start_le : start ≤ s.snap_index + length s.entries
  pub consecutive : Follows start new
  pub known : List Entry
  pub split : es ≡ known ++ new
  pub start_eq : start ≡ p + length known
  pub before : Holds s known
  pub conflict : Conflicts s new
  pub same_end : start + length new ≡ p + length es
  pub held :
      (t : Core) → ((i : ℕ) → i ≤ start → term_at t i ≡ term_at s i) → Holds t new → Holds t es

first_conflict :
    (s : Core) (e : Entry)
    → Follows s.snap_index s.entries
    → (ltb (last_log_index s) e.index || not (term_at s e.index == e.term)) ≡ true
    → (s.snap_index + length s.entries < e.index) ⊎ (term_at s e.index ≢ e.term)
first_conflict s e c b = elim (Bool-cases (ltb (last_log_index s) e.index)) [
  | inl l ↦ inl (ground (arith, l, last_log_index-eq s c))
  | inr l ↦ inr (λ same. ground (arith, b, l, same))
]

pub new_entries_lem :
    (s : Core) (p : ℕ) (es : List Entry)
    → Follows s.snap_index s.entries
    → Follows p es
    → p ≤ s.snap_index + length s.entries
    → Fresh s p es (new_entries s es)
unfolding new_entries
new_entries_lem s p [] c f l = record {
  start = p;
  start_ge = omega arith;
  start_le = l;
  consecutive = tt;
  known = [];
  split = refl;
  start_eq = omega arith;
  before = tt;
  conflict = tt;
  same_end = refl;
  held = λ t k h. tt;
}
new_entries_lem s p (e ∷ es) c f l =
    elim (Bool-cases (ltb (last_log_index s) e.index || not (term_at s e.index == e.term))) [
      | inl b ↦ rw b (record {
        start = p;
        start_ge = omega arith;
        start_le = l;
        consecutive = f;
        known = [];
        split = refl;
        start_eq = omega arith;
        before = tt;
        conflict = first_conflict s e c b;
        same_end = refl;
        held = λ t k h. h;
      })
      | inr b ↦
          let known : suc p ≤ s.snap_index + length s.entries =
            ground (arith, b, f.0, last_log_index-eq s c) in
          let same : term_at s e.index ≡ e.term = ground (arith, b) in
          let rest : Fresh s (suc p) es (new_entries s es) =
            new_entries_lem s (suc p) es c f.1 known in
          rw b (record {
            start = rest.start;
            start_ge = omega (arith, rest.start_ge);
            start_le = rest.start_le;
            consecutive = rest.consecutive;
            known = e ∷ rest.known;
            split = ap (λ t. e ∷ t) rest.split;
            start_eq = omega (arith, rest.start_eq);
            before = (same, rest.before);
            conflict = rest.conflict;
            same_end = omega (arith, rest.same_end);
            held = λ t k h. (k e.index (omega (arith, f.0, rest.start_ge)) ∙ same, rest.held t k h);
          })
    ]
