-- ===== src/Raft/Members.antt =====
-- internal/raft/membership.go, the codecs: one membership change, and the whole table.
pub mod RoundTrip
use raft_kv.Common.{
  ℕ, zero, suc, ◌+◌, ◌-◌, ◌^◌, ◌≡◌, Bool, true, false, not, ◌&&◌, Option, none, some, List, [], ◌∷◌,
  ◌++◌, ltb, leb, ◌==◌, if◌then◌else◌, u32, length, take, drop,
}
use raft_kv.Common.Bytes.{Bytes, le32, le64, read32, read64}
use raft_kv.Common.Assoc.{Map, keys, nat_eq, lookup, insert}
use raft_kv.Raft.Result.{Result, ok, err, bad_conf_change, bad_members}

abbrev pub conf_change_add : ℕ
conf_change_add = 1

abbrev pub conf_change_remove : ℕ
conf_change_remove = 2

pub record ConfChange : Type 0 where
  pub op : ℕ
  pub id : ℕ
  pub addr : Bytes

unfoldable pub encode_conf_change : ConfChange → Bytes
encode_conf_change cc = cc.op ∷ (le64 cc.id ++ (le32 (u32 (length cc.addr)) ++ cc.addr))

unfoldable pub decode_conf_change : Bytes → Result ConfChange
decode_conf_change b =
    let op : ℕ = elim b [ [] ↦ 0 | o ∷ _ ↦ o ] in
    if ltb (length b) 13
    then err bad_conf_change
    else if not (length b - 13 == read32 (drop 9 b))
    then err bad_conf_change
    else if not (op == conf_change_add) && not (op == conf_change_remove)
    then err bad_conf_change
    else ok (record { op = op; id = read64 (drop 1 b); addr = drop 13 b })

-- m[id]
unfoldable pub address : Map ℕ Bytes → ℕ → Bytes
unfolding lookup
address m id = elim (lookup id m) [ none ↦ [] | some a ↦ a ]

-- `sort.Slice` on the ids.
unfoldable pub insert_sorted : ℕ → List ℕ → List ℕ
insert_sorted a [] = a ∷ []
insert_sorted a (b ∷ bs) = if leb a b then a ∷ b ∷ bs else b ∷ insert_sorted a bs

unfoldable pub sort : List ℕ → List ℕ
unfolding insert_sorted
sort [] = []
sort (a ∷ as') = insert_sorted a (sort as')

unfoldable pub encode_ids : Map ℕ Bytes → List ℕ → Bytes
unfolding address
encode_ids m [] = []
encode_ids m (id ∷ ids) =
    le64 id ++ (le32 (u32 (length (address m id))) ++ (address m id ++ encode_ids m ids))

unfoldable pub encode_members : Map ℕ Bytes → Bytes
unfolding sort encode_ids
encode_members m = let ids = sort (keys m) in le32 (u32 (length ids)) ++ encode_ids m ids

-- The rounds left, the bytes left and the table so far.
unfoldable pub decode_entries : ℕ → Bytes → Map ℕ Bytes → Result (Map ℕ Bytes)
unfolding insert
decode_entries zero b m = ok m
decode_entries (suc n) b m =
    let alen = read32 (drop 8 b) in
    let body = drop 12 b in
    let rest = decode_entries n (drop alen body) (insert (read64 b) (take alen body) m) in
    if ltb (length b) 12
    then err bad_members
    else if ltb (length body) alen
    then err bad_members
    else rest

unfoldable pub decode_members : Bytes → Result (Map ℕ Bytes)
unfolding decode_entries
decode_members b =
    if ltb (length b) 4 then err bad_members else decode_entries (read32 b) (drop 4 b) []
