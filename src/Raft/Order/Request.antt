-- ===== src/Raft/Order/Request.antt =====
-- internal/raft/replication.go, `handleAppendEntries`: what a request may say, and its commit index.
use raft_kv.Common.{
  ℕ, zero, suc, ◌+◌, ◌-◌, ◌^◌, ◌<◌, ◌≤◌, ◌≡◌, refl, sym, ap, ◌∙◌, Bool, true, false, ◌⊎◌, inl, inr,
  List, [], ◌∷◌, ◌++◌, arith, length, take, ltb, Bool-cases, u64, min,
}
use raft_kv.Raft.Result.{Result, ok, err, panic}
use raft_kv.Raft.Entry.{Entry}
use raft_kv.Raft.Core.{Core, AppendEntriesRequest, AppendEntriesResponse, ◌>>◌, gets}
use raft_kv.Raft.Log.{term_at}
use raft_kv.Raft.Replication.{deliver_committed}
use raft_kv.Raft.Follower.{follow_commit, reply}
use raft_kv.Raft.Order.Shape.{Follows, IsLog}
use raft_kv.Raft.Order.Frame.{SameLog, SameLog-refl, IsLog-same}
use raft_kv.Raft.Order.Deliver.{Delivered, deliver_committed_lem}
use raft_kv.Raft.Order.Append.{Replaced}
use raft_kv.Raft.Order.Fresh.{Conflicts}
use raft_kv.Raft.Order.Terms.{SameTerms, Holds, Replaced-IsLog, term_at-same}

-- No committed entry changes, and the commit index does not go back.
pub record Advanced (s t : Core) : Type 0 where
  pub log : IsLog t
  pub commit_le : s.commit_index ≤ t.commit_index
  pub snap_index : t.snap_index ≡ s.snap_index
  pub snap_term : t.snap_term ≡ s.snap_term
  pub prefix :
      take (s.commit_index - s.snap_index) t.entries
      ≡ take (s.commit_index - s.snap_index) s.entries

-- What a request may say: consecutive entries, and no commit index beyond what it lets the follower check,
-- unless the follower knows it already.
pub record IsAppend (s : Core) (req : AppendEntriesRequest) : Type 0 where
  pub consecutive : Follows req.prev_log_index req.entries
  pub fits : req.prev_log_index + length req.entries + 1 < 2 ^ 64
  pub current :
      (req.leader_commit ≤ s.commit_index)
      ⊎ (s.commit_index ≤ req.prev_log_index + length req.entries)

pub Advanced-same : {s t : Core} → IsLog s → SameLog s t → Advanced s t
Advanced-same h f = record {
  log = IsLog-same f h;
  commit_le = rw f.commit_index (omega arith);
  snap_index = f.snap_index;
  snap_term = f.snap_term;
  prefix = rw f.entries refl;
}

take-take :
    (m n : ℕ) (xs ys : List Entry) → m ≤ n → n ≤ length xs → take m (take n xs ++ ys) ≡ take m xs
take-take zero n xs ys h l = refl
take-take (suc m) zero xs ys h l = elim h [ ]
take-take (suc m) (suc n) [] ys h l = elim l [ ]
take-take (suc m) (suc n) (x ∷ xs) ys h l =
    ap (λ t. x ∷ t) (take-take m n xs ys (omega arith) (omega arith))

pub Advanced-Replaced :
    {q : ℕ} {es : List Entry} {s t : Core}
    → IsLog s
    → Replaced q es s t
    → Follows q es
    → q + length es + 1 < 2 ^ 64
    → Advanced s t
Advanced-Replaced {q} {es} {s} {t} h p f b = record {
  log = Replaced-IsLog h p f b;
  commit_le = rw p.commit_index (omega arith);
  snap_index = p.snap_index;
  snap_term = p.snap_term;
  prefix = rw p.entries (
      take-take (s.commit_index - s.snap_index) (q - s.snap_index) s.entries es
        (omega (arith, p.committed_le)) (omega (arith, p.reached)));
}

-- How the request changed the log: its first entries were there, by their terms, and the others are
-- none or the log now ends with exactly them, from the first one that was not there on.
pub record Written (req : AppendEntriesRequest) (s t : Core) : Type 0 where
  pub known : List Entry
  pub new : List Entry
  pub split : req.entries ≡ known ++ new
  pub before : Holds s known
  pub conflict : Conflicts s new
  pub entries :
      ((new ≡ []) × (t.entries ≡ s.entries))
      ⊎ ((0 < length new)
          × (t.entries ≡ take (req.prev_log_index + length known - s.snap_index) s.entries ++ new))

-- What a successful answer promises: the follower holds the entry before the new ones and all of
-- them, with the leader's terms, and those that it did not have word for word.
pub record Matches (req : AppendEntriesRequest) (s t : Core) : Type 0 where
  pub previous : (req.prev_log_index ≡ 0) ⊎ (term_at t req.prev_log_index ≡ req.prev_log_term)
  pub held : Holds t req.entries
  pub written : Written req s t
  pub reached : req.prev_log_index + length req.entries ≤ t.snap_index + length t.entries

abbrev pub MatchesIf : Bool → AppendEntriesRequest → Core → Core → Type 0
MatchesIf true req s t = Matches req s t
MatchesIf false req s t = Unit {0}

abbrev pub Followed : AppendEntriesRequest → Core → Result AppendEntriesResponse × Core → Type 0
Followed req s (ok resp, t) = Advanced s t × MatchesIf resp.success req s t
Followed req s (err e, t) = Advanced s t
Followed req s (panic, t) = ⊥

Holds-same : (s t : Core) (es : List Entry) → SameTerms s t → Holds s es → Holds t es
Holds-same s t [] f h = tt
Holds-same s t (e ∷ es) f h = (term_at-same s t e.index f ∙ h.0, Holds-same s t es f h.1)

Matches-same :
    {req : AppendEntriesRequest} {r s t : Core} → SameTerms s t → Matches req r s → Matches req r t
Matches-same {req} {r} {s} {t} f h = record {
  previous = elim h.previous [
    | inl z ↦ inl z
    | inr z ↦ inr (term_at-same s t req.prev_log_index f ∙ z)
  ];
  held = Holds-same s t req.entries f h.held;
  written = record {
    known = h.written.known;
    new = h.written.new;
    split = h.written.split;
    before = h.written.before;
    conflict = h.written.conflict;
    entries = rw f.entries h.written.entries;
  };
  reached = rw (f.snap_index, f.entries) h.reached;
}

Conflicts-same : (s t : Core) (es : List Entry) → SameTerms s t → Conflicts s es → Conflicts t es
Conflicts-same s t [] f h = tt
Conflicts-same s t (e ∷ es) f h = elim h [
  | inl l ↦ inl (rw (f.entries, f.snap_index) l)
  | inr d ↦ inr (λ same. d (sym (term_at-same s t e.index f) ∙ same))
]

-- The log before may be taken a little earlier, if it was the same.
pub MatchesIf-from :
    (b : Bool) (req : AppendEntriesRequest) (r s t : Core)
    → SameTerms s r
    → MatchesIf b req s t
    → MatchesIf b req r t
MatchesIf-from false req r s t f h = tt
MatchesIf-from true req r s t f h = record {
  previous = h.previous;
  held = h.held;
  written = record {
    known = h.written.known;
    new = h.written.new;
    split = h.written.split;
    before = Holds-same s r h.written.known f h.written.before;
    conflict = Conflicts-same s r h.written.new f h.written.conflict;
    entries = rw (f.entries, f.snap_index) h.written.entries;
  };
  reached = h.reached;
}

pub Advanced-trans :
    {s t u : Core}
    → IsLog s
    → Advanced s t
    → t.commit_index ≡ s.commit_index
    → Advanced t u
    → Advanced s u
Advanced-trans {s} {t} {u} h p e q = record {
  log = q.log;
  commit_le = omega (arith, p.commit_le, q.commit_le);
  snap_index = q.snap_index ∙ p.snap_index;
  snap_term = q.snap_term ∙ p.snap_term;
  prefix = rw (e, p.snap_index) at q.prefix ∙ p.prefix;
}

moved :
    (c : ℕ) (s u : Core)
    → IsLog s
    → s.commit_index ≤ c
    → c ≤ s.snap_index + length s.entries
    → Delivered (record s { commit_index = c }) u
    → Advanced s u × SameTerms s u
moved c s u h a l d = (
  record {
    log = record {
      contiguous = rw (d.snap_index, d.entries) h.contiguous;
      fits = rw (d.snap_index, d.entries) h.fits;
      snap_le = rw (d.snap_index, d.commit_index) (omega (arith, h.snap_le));
      commit_le = rw (d.snap_index, d.commit_index, d.entries) l;
      delivered_eq = d.last_delivered ∙ sym d.commit_index;
    };
    commit_le = rw d.commit_index a;
    snap_index = d.snap_index;
    snap_term = d.snap_term;
    prefix = rw d.entries refl;
  },
  record { entries = d.entries; snap_index = d.snap_index; snap_term = d.snap_term },
)

follow_commit_lem :
    (req : AppendEntriesRequest) (s : Core)
    → IsLog s
    → IsAppend s req
    → req.prev_log_index + length req.entries ≤ s.snap_index + length s.entries
    → ((follow_commit req s).0 ≡ ok tt)
      × Advanced s (follow_commit req s).1
      × SameTerms s (follow_commit req s).1
unfolding follow_commit
follow_commit_lem req s h a l = elim (Bool-cases (ltb s.commit_index req.leader_commit)) [
  | inl b ↦
      let last : ℕ = req.prev_log_index + length req.entries in
      let same : u64 last ≡ last = omega (arith, a.fits) in
      let c : ℕ = min req.leader_commit (u64 last) in
      let up : s.commit_index ≤ c = ground (arith, b, a.current, same) in
      let bound : c ≤ s.snap_index + length s.entries = omega (arith, same, l) in
      let (fine, d) =
        deliver_committed_lem (record s { commit_index = c }) h.contiguous h.fits
          (rw h.delivered_eq h.snap_le) (rw h.delivered_eq up) bound in
      rw b (
        let (g, f) = moved c s (deliver_committed (record s { commit_index = c })).1 h up bound d in
        (fine, g, f))
  | inr b ↦ rw b (
    refl,
    Advanced-same h (SameLog-refl s),
    record { entries = refl; snap_index = refl; snap_term = refl },
  )
]

-- After the append: the commit index and the answer.
pub answer_lem :
    (req : AppendEntriesRequest) (s t : Core)
    → IsLog s
    → IsAppend s req
    → Advanced s t
    → t.commit_index ≡ s.commit_index
    → Matches req s t
    → Followed req s ((follow_commit req >> gets (reply req true 0 0)) t)
unfolding reply
answer_lem req s t h a g e m =
    let current : (req.leader_commit ≤ t.commit_index)
        ⊎ (t.commit_index ≤ req.prev_log_index + length req.entries) =
      rw e a.current in
    let (fine, up, same) =
      follow_commit_lem req t g.log
        (record { consecutive = a.consecutive; fits = a.fits; current = current }) m.reached in
    rw fine (Advanced-trans h g e up, Matches-same same m)
