-- ===== src/Raft/Order/Backed.antt =====
-- internal/raft/replication.go, `maybeAdvanceCommit`: the members that store an entry.
use raft_kv.Common.{
  ℕ, ◌*◌, ◌<◌, ◌≤◌, ◌≡◌, refl, ap, ◌∙◌, true, false, not, ◌&&◌, ◌⊎◌, inl, inr, List, [], ◌∷◌, arith,
  length, leb, ◌==◌, ==_iff, if◌then◌else◌, Bool-cases,
}
use raft_kv.Common.Assoc.{Map, nat_eq, keys, value, has, IsMap}
use raft_kv.Common.Sets.{contains, IsUnique, Subset, length-Subset}
use raft_kv.Raft.Core.{Core}
use raft_kv.Raft.Log.{majority, is_member, peer_ids, without_id}
use raft_kv.Raft.Replication.{count_matches, stored_by}
use raft_kv.Raft.Quorum.{contains-keys}

-- More than half of the members store the log up to `n`: different ids of members, each the node's
-- own or that of a peer that is known to match up to `n`.
pub record Backed (s : Core) (n : ℕ) : Type 0 where
  pub ids : List ℕ
  pub distinct : IsUnique ids
  pub members : (x : ℕ) → contains x ids ≡ true → has x s.members ≡ true
  pub stored : (x : ℕ) → contains x ids ≡ true → (x ≡ s.cfg.id) ⊎ (n ≤ value x s.match_index)
  pub enough : length s.members < 2 * length ids

matching : ℕ → Map ℕ ℕ → List ℕ → List ℕ
matching n m [] = []
matching n m (id ∷ ids) = if leb n (value id m) then id ∷ matching n m ids else matching n m ids

length-matching :
    (n : ℕ) (m : Map ℕ ℕ) (ids : List ℕ) → length (matching n m ids) ≡ count_matches n m ids
unfolding matching count_matches
length-matching n m [] = refl
length-matching n m (id ∷ ids) = ground (arith, length-matching n m ids)

contains-matching :
    (x n : ℕ) (m : Map ℕ ℕ) (ids : List ℕ)
    → contains x (matching n m ids) ≡ (contains x ids && leb n (value x m))
unfolding matching contains
contains-matching x n m [] = refl
contains-matching x n m (id ∷ ids) = elim (Bool-cases (id == x)) [
  | inl b ↦
      let same : id ≡ x = (==_iff id x).0 b in
      ground (arith, b, same, ap (λ i. value i m) same, contains-matching x n m ids)
  | inr b ↦ ground (arith, b, contains-matching x n m ids)
]

matching-IsUnique :
    (n : ℕ) (m : Map ℕ ℕ) (ids : List ℕ) → IsUnique ids → IsUnique (matching n m ids)
unfolding matching
matching-IsUnique n m [] h = tt
matching-IsUnique n m (id ∷ ids) h = elim (Bool-cases (leb n (value id m))) [
  | inl b ↦ rw b (ground (arith, contains-matching id n m ids, h.0), matching-IsUnique n m ids h.1)
  | inr b ↦ rw b (matching-IsUnique n m ids h.1)
]

contains-without_id :
    (x me : ℕ) (ids : List ℕ) → contains x (without_id me ids) ≡ (contains x ids && not (x == me))
unfolding contains
contains-without_id x me [] = refl
contains-without_id x me (id ∷ ids) =
    ground (arith, ==_iff id me, ==_iff id x, ==_iff x me, contains-without_id x me ids)

without_id-IsUnique : (me : ℕ) (ids : List ℕ) → IsUnique ids → IsUnique (without_id me ids)
without_id-IsUnique me [] h = tt
without_id-IsUnique me (id ∷ ids) h = elim (Bool-cases (id == me)) [
  | inl b ↦ rw b (without_id-IsUnique me ids h.1)
  | inr b ↦
      rw b (ground (arith, contains-without_id id me ids, h.0), without_id-IsUnique me ids h.1)
]

keys-IsUnique : {V : Type 0} (m : Map ℕ V) → IsMap m → IsUnique (keys m)
unfolding has
keys-IsUnique [] h = tt
keys-IsUnique ((k, v) ∷ m) h = (ground (arith, contains-keys k m, h.0), keys-IsUnique m h.1)

-- The node itself, if it is a member, and the peers that match.
backers : Core → ℕ → List ℕ
backers s n =
    let peers = matching n s.match_index (peer_ids s) in
    if is_member s then s.cfg.id ∷ peers else peers

length-backers : (s : Core) (n : ℕ) → length (backers s n) ≡ stored_by s n
unfolding backers stored_by
length-backers s n = ground (arith, length-matching n s.match_index (peer_ids s))

contains-backers :
    (x : ℕ) (s : Core) (n : ℕ)
    → contains x (backers s n)
      ≡ (has x s.members && (if x == s.cfg.id then true else leb n (value x s.match_index)))
unfolding backers contains is_member peer_ids
contains-backers x s n =
    let me : ℕ = s.cfg.id in
    let peers = contains-matching x n s.match_index (peer_ids s) in
    let others = contains-without_id x me (keys s.members) in
    let all = contains-keys x s.members in
    elim (Bool-cases (x == me)) [
      | inl b ↦
          let same : x ≡ me = (==_iff x me).0 b in
          let mine : has x s.members ≡ has me s.members = ap (λ i. has i s.members) same in
          ground (arith, b, same, mine, peers, others, all, ==_iff me x)
      | inr b ↦ ground (arith, b, peers, others, all, ==_iff me x, ==_iff x me)
    ]

backers-IsUnique : (s : Core) (n : ℕ) → IsMap s.members → IsUnique (backers s n)
unfolding backers peer_ids
backers-IsUnique s n h =
    let rest : IsUnique (matching n s.match_index (peer_ids s)) =
      matching-IsUnique n s.match_index (peer_ids s)
        (without_id-IsUnique s.cfg.id (keys s.members) (keys-IsUnique s.members h)) in
    let out : contains s.cfg.id (matching n s.match_index (peer_ids s)) ≡ false = ground (
      arith,
      contains-matching s.cfg.id n s.match_index (peer_ids s),
      contains-without_id s.cfg.id s.cfg.id (keys s.members),
      ==_iff s.cfg.id s.cfg.id,
    ) in
    elim (Bool-cases (is_member s)) [ inl b ↦ rw b (out, rest) | inr b ↦ rw b rest ]

pub majority-Backed : (s : Core) (n : ℕ) → IsMap s.members → majority s ≤ stored_by s n → Backed s n
unfolding majority
majority-Backed s n h enough = record {
  ids = backers s n;
  distinct = backers-IsUnique s n h;
  members = λ x k. ground (arith, k, contains-backers x s n);
  stored = λ x k. elim (Bool-cases (x == s.cfg.id)) [
    | inl b ↦ inl ((==_iff x s.cfg.id).0 b)
    | inr b ↦ inr (ground (arith, b, k, contains-backers x s n))
  ];
  enough = omega (arith, enough, length-backers s n);
}

pub Backed-majority : (s : Core) (n : ℕ) → Backed s n → majority s ≤ stored_by s n
unfolding majority
Backed-majority s n b =
    let inside : Subset b.ids (backers s n) = λ x k. contains-backers x s n ∙ elim (b.stored x k) [
      | inl e ↦ ground (arith, b.members x k, (==_iff x s.cfg.id).1 e)
      | inr l ↦ ground (arith, b.members x k, l)
    ] in
    omega (arith, b.enough, length-Subset b.ids (backers s n) b.distinct inside, length-backers s n)
