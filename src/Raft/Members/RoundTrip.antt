-- ===== src/Raft/Members/RoundTrip.antt =====
-- What the codecs of the membership write is what they read.
use raft_kv.Common.{
  ℕ, suc, ◌^◌, ◌<◌, ◌≡◌, refl, ap, ◌∙◌, Bool, false, ◌||◌, none, some, List, [], ◌∷◌, ◌++◌, arith,
  append_assoc, append-nil, ◌==◌, if◌then◌else◌, u32, length, length-append, All, take-append,
  drop-append, ◌⊎◌,
}
use raft_kv.Common.Bytes.{Bytes, le32, le64, read32, read64}
use raft_kv.Common.Assoc.{Map, keys, nat_eq, lookup, insert, lookup-insert}
use raft_kv.Raft.Result.{ok}
use raft_kv.Raft.Members.{
  ConfChange, encode_conf_change, decode_conf_change, address, insert_sorted, sort, encode_ids,
  encode_members, decode_entries, decode_members,
}

pub record IsConfChange (cc : ConfChange) : Type 0 where
  pub op : (cc.op ≡ 1) ⊎ (cc.op ≡ 2)
  pub id : cc.id < 2 ^ 64
  pub addr : length cc.addr < 2 ^ 32

-- An addition or a removal of a member is decoded as it was encoded, on the ranges of its Go
-- types.
pub decode-encode_conf_change :
    (cc : ConfChange) → IsConfChange cc → decode_conf_change (encode_conf_change cc) ≡ ok cc
unfolding decode_conf_change encode_conf_change le64 le32 read64 read32
decode-encode_conf_change cc h = ground arith

-- Every id and every address fits its field.
pub record IsTable (m : Map ℕ Bytes) : Type 0 where
  pub ids : All (λ k. k < 2 ^ 64) (keys m)
  pub addr : (k : ℕ) → length (address m k) < 2 ^ 32
  pub size : length m < 2 ^ 32

is_in : ℕ → List ℕ → Bool
is_in k [] = false
is_in k (j ∷ js) = (j == k) || is_in k js

is_in-insert_sorted : (k a : ℕ) (l : List ℕ) → is_in k (insert_sorted a l) ≡ ((a == k) || is_in k l)
unfolding is_in insert_sorted
is_in-insert_sorted k a [] = refl
is_in-insert_sorted k a (b ∷ l) = ground (arith, is_in-insert_sorted k a l)

is_in-sort : (k : ℕ) (l : List ℕ) → is_in k (sort l) ≡ is_in k l
unfolding is_in sort
is_in-sort k [] = refl
is_in-sort k (a ∷ l) = is_in-insert_sorted k a (sort l) ∙ ground (arith, is_in-sort k l)

length-insert_sorted : (a : ℕ) (l : List ℕ) → length (insert_sorted a l) ≡ suc (length l)
unfolding insert_sorted
length-insert_sorted a [] = refl
length-insert_sorted a (b ∷ l) = ground (arith, length-insert_sorted a l)

length-sort : (l : List ℕ) → length (sort l) ≡ length l
unfolding sort
length-sort [] = refl
length-sort (a ∷ l) = length-insert_sorted a (sort l) ∙ ap suc (length-sort l)

length-keys : (m : Map ℕ Bytes) → length (keys m) ≡ length m
length-keys [] = refl
length-keys ((k, v) ∷ m) = ap suc (length-keys m)

lookup-is_in :
    (k : ℕ) (m : Map ℕ Bytes) → lookup k m ≡ (if is_in k (keys m) then some (address m k) else none)
unfolding is_in address lookup
lookup-is_in k [] = refl
lookup-is_in k ((j, v) ∷ m) = ground (arith, lookup-is_in k m)

abbrev insert_all : Map ℕ Bytes → List ℕ → Map ℕ Bytes → Map ℕ Bytes
insert_all m [] acc = acc
insert_all m (id ∷ ids) acc = insert_all m ids (insert id (address m id) acc)

lookup-insert_all :
    (k : ℕ) (m : Map ℕ Bytes) (ids : List ℕ) (acc : Map ℕ Bytes)
    → lookup k (insert_all m ids acc) ≡ (if is_in k ids then some (address m k) else lookup k acc)
unfolding is_in
lookup-insert_all k m [] acc = refl
lookup-insert_all k m (id ∷ ids) acc = ground (
  arith,
  lookup-insert_all k m ids (insert id (address m id) acc),
  lookup-insert id k (address m id) acc,
)

-- One round of the decoder on what one round of the encoder wrote.
decode_entries_step :
    (n id : ℕ) (a rest : Bytes) (acc : Map ℕ Bytes)
    → id < 2 ^ 64
    → length a < 2 ^ 32
    → decode_entries (suc n) (le64 id ++ (le32 (u32 (length a)) ++ (a ++ rest))) acc
      ≡ decode_entries n rest (insert id a acc)
unfolding decode_entries le64 le32 read64 read32
decode_entries_step n id a rest acc hi ha =
    ground (arith, take-append a rest, drop-append a rest, length-append a rest)

decode_entries_done : (b : Bytes) (acc : Map ℕ Bytes) → decode_entries 0 b acc ≡ ok acc
unfolding decode_entries
decode_entries_done b acc = refl

decode_entries-encode_ids :
    (m : Map ℕ Bytes) (ids : List ℕ) (rest : Bytes) (acc : Map ℕ Bytes)
    → All (λ k. k < 2 ^ 64) ids
    → ((k : ℕ) → length (address m k) < 2 ^ 32)
    → decode_entries (length ids) (encode_ids m ids ++ rest) acc ≡ ok (insert_all m ids acc)
unfolding encode_ids
decode_entries-encode_ids m [] rest acc h addr = decode_entries_done rest acc
decode_entries-encode_ids m (id ∷ ids) rest acc h addr =
    rw (append_assoc, append_assoc, append_assoc)
      (decode_entries_step (length ids) id (address m id) (encode_ids m ids ++ rest) acc h.0
          (addr id)
        ∙ decode_entries-encode_ids m ids rest (insert id (address m id) acc) h.1 addr)

All-insert_sorted :
    (a : ℕ) (l : List ℕ)
    → a < 2 ^ 64
    → All (λ k. k < 2 ^ 64) l
    → All (λ k. k < 2 ^ 64) (insert_sorted a l)
unfolding insert_sorted
All-insert_sorted a [] ha h = (ha, h)
All-insert_sorted a (b ∷ l) ha h = ground (arith, All-insert_sorted a l ha h.1)

All-sort : (l : List ℕ) → All (λ k. k < 2 ^ 64) l → All (λ k. k < 2 ^ 64) (sort l)
unfolding sort
All-sort [] h = h
All-sort (a ∷ l) h = All-insert_sorted a (sort l) h.0 (All-sort l h.1)

header :
    (n : ℕ) (b : Bytes) → n < 2 ^ 32 → decode_members (le32 (u32 n) ++ b) ≡ decode_entries n b []
unfolding decode_members le32 read32
header n b h = ground arith

-- A membership table is decoded to a table with the same entries, if its ids are below 2 ^ 64 and
-- its size and its addresses' lengths below 2 ^ 32.
pub decode-encode_members :
    (m : Map ℕ Bytes)
    → IsTable m
    → (m' : Map ℕ Bytes) × (decode_members (encode_members m) ≡ ok m')
      × ((k : ℕ) → lookup k m' ≡ lookup k m)
unfolding encode_members
decode-encode_members m h =
    let ids = sort (keys m) in
    (
      insert_all m ids [],
      decodes,
      λ k. lookup-insert_all k m ids [] ∙ rw (is_in-sort, lookup-is_in k m) (unfold lookup in refl),
    )
  where
    decodes : decode_members (encode_members m) ≡ ok (insert_all m (sort (keys m)) [])
    decodes =
        let ids = sort (keys m) in
        let len : length ids ≡ length m = length-sort (keys m) ∙ length-keys m in
        header (length ids) (encode_ids m ids) (omega arith)
        ∙ rw (append-nil) at
            (decode_entries-encode_ids m ids [] [] (All-sort (keys m) h.ids) h.addr)
