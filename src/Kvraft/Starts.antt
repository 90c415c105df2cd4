-- ===== src/Kvraft/Starts.antt =====
-- internal/kvraft/sharding.go, `pinShardCount`: a data directory over several starts.
use raft_kv.Common.{ℕ, ◌≡◌, refl, sym, ap, ◌∙◌, Option, none, some, List, [], ◌∷◌, arith, ==_iff}
use raft_kv.Kvraft.Service.{Pin, missing, corrupt, pinned, pin_shard_count, check_shards}

-- The shard counts of several starts, each with what a write that fails leaves.
unfoldable pub starts : List (Option Pin × ℕ) → Pin → Pin
starts [] pin = pin
starts ((fault, count) ∷ ss) pin = starts ss (check_shards fault count pin).1

unfolded : (fault : Option Pin) (count n : ℕ) → (check_shards fault count (pinned n)).1 ≡ pinned n
unfolding check_shards pin_shard_count
unfolded none count n = ground arith
unfolded (some p) count n = ground arith

starts-pinned : (ss : List (Option Pin × ℕ)) (n : ℕ) → starts ss (pinned n) ≡ pinned n
unfolding starts
starts-pinned [] n = refl
starts-pinned ((fault, count) ∷ ss) n = ap (starts ss) (unfolded fault count n) ∙ starts-pinned ss n

works :
    (fault : Option Pin) (count : ℕ) (pin : Pin)
    → (check_shards fault count pin).0 ≡ none
    → (check_shards fault count pin).1 ≡ pinned count
unfolding check_shards pin_shard_count
works none count missing e = ground (arith, e)
works (some p) count missing e = ground (arith, e)
works none count corrupt e = ground (arith, e)
works (some p) count corrupt e = ground (arith, e)
works none count (pinned n) e = ground (arith, e, ==_iff n count)
works (some p) count (pinned n) e = ground (arith, e, ==_iff n count)

-- Once a start with some number of shards has worked, then after any further starts, with whatever
-- numbers and failures, a start that works has the same number.
pub starts-same_count :
    (fault fault' : Option Pin) (n m : ℕ) (pin : Pin) (ss : List (Option Pin × ℕ))
    → (check_shards fault n pin).0 ≡ none
    → (check_shards fault' m (starts ss (check_shards fault n pin).1)).0 ≡ none
    → m ≡ n
starts-same_count fault fault' n m pin ss first later =
    let kept = ap (starts ss) (works fault n pin first) ∙ starts-pinned ss n in
    let after = works fault' m (starts ss (check_shards fault n pin).1) later in
    let end : pinned n ≡ pinned m =
      sym (ap (λ t. (check_shards fault' m t).1) kept ∙ unfolded fault' m n) ∙ after in
    ground (arith, end)
