-- ===== src/Kvraft/Sharding.antt =====
-- internal/kvraft/sharding.go: the shard of a key, and the server that a request goes to.
use Prim.Native.Nat.{bit_xor}
use raft_kv.Common.{ℕ, ◌*◌, ◌%◌, Option, List, [], ◌∷◌, u64, length, get_elem?}
use raft_kv.Common.Bytes.{Bytes}

-- hash/fnv: the 64-bit FNV-1a hash, from its offset basis.
abbrev fnv_update : ℕ → Bytes → ℕ
fnv_update h [] = h
fnv_update h (b ∷ bs) = fnv_update (u64 (bit_xor h b * 0x100_0000_01b3)) bs

unfoldable pub fnv1a64 : Bytes → ℕ
fnv1a64 key = fnv_update 0xcbf2_9ce4_8422_2325 key

-- `shard_count` is at least 1: `NewSharded` refuses another.
unfoldable pub shard_for : Bytes → ℕ → ℕ
shard_for key shard_count = fnv1a64 key % shard_count

-- s.shards[ShardFor(key, len(s.shards))]; `none` is a panic.
unfoldable pub shard_of {ℓ} : {A : Type ℓ} → List A → Bytes → Option A
shard_of shards key = get_elem? shards (shard_for key (length shards))
