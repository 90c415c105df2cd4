-- ===== src/Storage/Snapshot/RoundTrip.antt =====
-- internal/storage/snapshot.go: reading what was written.
use raft_kv.Common.{
  ℕ, suc, ◌+◌, ◌-◌, ◌^◌, ◌<◌, ◌≤◌, ◌≡◌, ◌≢◌, refl, sym, ap, ◌∙◌, inr, false, not, none, [], ◌∷◌,
  ◌++◌, arith, append_assoc, append-nil, ltb, ==_refl, if◌then◌else◌, u32, u64, length, take, drop,
  All, length-append, take-append, drop-append,
}
use raft_kv.Common.Bytes.{
  Bytes, le32, le64, read32, read32-le32, read64-le64, drop-le32, drop-le64, length-le32,
  length-le64, bytes_eq, bytes_eq_refl, bytes_eq_iff,
}
use raft_kv.Common.Assoc.{IsMap, bytes_key, lookup, insert}
use raft_kv.Record.{checksum}
use raft_kv.Record.Framing.{checksum-lt}
use raft_kv.Storage.MemStore.{Store, put, range, size}
use raft_kv.Storage.Snapshot.{
  snap_magic, encode_entry, write_entry, snapshot_body, with_crc, encode_snapshot, loaded,
  load_failed, bad_magic, entry, read_value, read_key, read_entry, read_entries, all_read,
  read_fields, read_body, read_snapshot,
}

-- What the file format holds.
pub record IsStorable (last_seq : ℕ) (m : Store) : Type 0 where
  pub seq : last_seq < 2 ^ 64
  pub size : length m < 2 ^ 64
  pub fits : All (λ (p : Bytes × Bytes). (length p.0 < 2 ^ 32) × (length p.1 < 2 ^ 32)) m
  pub table : IsMap m

unfoldable entries : Store → Bytes
entries [] = []
entries ((k, v) ∷ m) = encode_entry k v ++ entries m

range-entries : (m : Store) (b : Bytes) → range write_entry m b ≡ b ++ entries m
unfolding range write_entry entries
range-entries [] b = sym (append-nil b)
range-entries ((k, v) ∷ m) b =
    range-entries m (b ++ encode_entry k v) ∙ append_assoc b (encode_entry k v) (entries m)

read_value-eq :
    (i : ℕ) (key value rest : Bytes)
    → length value < 2 ^ 32
    → read_value i key (le32 (u32 (length value)) ++ (value ++ rest)) ≡ entry key value rest
unfolding read_value
read_value-eq i key value rest h =
    let small : u32 (length value) ≡ length value = omega arith in
    let fits : ltb (length (value ++ rest)) (length value) ≡ false =
      ground (arith, length-append value rest) in
    rw
      (
        small,
        read32-le32 (length value) (value ++ rest) h,
        drop-le32 (length value) (value ++ rest),
        fits,
        take-append value rest,
        drop-append value rest,
      )
      refl

read_entry-encode_entry :
    (i : ℕ) (key value rest : Bytes)
    → length key < 2 ^ 32
    → length value < 2 ^ 32
    → read_entry i (encode_entry key value ++ rest) ≡ entry key value rest
unfolding read_entry encode_entry read_key
read_entry-encode_entry i key value rest hk hv =
    let tail : Bytes = le32 (u32 (length value)) ++ (value ++ rest) in
    let small : u32 (length key) ≡ length key = omega arith in
    let whole : encode_entry key value ++ rest ≡ le32 (length key) ++ (key ++ tail) =
      unfold encode_entry in rw (small, append_assoc, append_assoc, append_assoc) refl in
    let long : ltb (length (le32 (length key) ++ (key ++ tail))) 4 ≡ false =
      ground (arith, length-append (le32 (length key)) (key ++ tail), length-le32 (length key)) in
    let room : ltb (length (key ++ tail)) (length key + 4) ≡ false = ground (
      arith,
      length-append key tail,
      length-append (le32 (u32 (length value))) (value ++ rest),
      length-le32 (u32 (length value)),
    ) in
    ap (read_entry i) whole
    ∙ rw
        (
          long,
          read32-le32 (length key) (key ++ tail) hk,
          drop-le32 (length key) (key ++ tail),
          room,
          take-append key tail,
          drop-append key tail,
        )
        (read_value-eq i key value rest hv)

-- A key that is not in the map is added at its end.
insert_new : (k v : Bytes) (m : Store) → lookup k m ≡ none → put k v m ≡ m ++ ((k, v) ∷ [])
unfolding insert lookup put
insert_new k v [] h = refl
insert_new k v ((j, w) ∷ m) h = ground (arith, h, insert_new k v m)

found_after : (acc : Store) (k v : Bytes) (m : Store) → lookup k (acc ++ ((k, v) ∷ m)) ≢ none
unfolding lookup
found_after [] k v m h = ground (arith, h, bytes_eq_refl k)
found_after ((j, w) ∷ acc) k v m h = ground (arith, h, found_after acc k v m)

not_before :
    (acc : Store) (k v : Bytes) (m : Store) → IsMap (acc ++ ((k, v) ∷ m)) → lookup k acc ≡ none
unfolding lookup
not_before [] k v m h = refl
not_before ((j, w) ∷ acc) k v m h =
    ground (arith, h.0, bytes_eq_iff j k, not_before acc k v m h.1, other h.0)
  where
    other : lookup j (acc ++ ((k, v) ∷ m)) ≡ none → j ≢ k
    other e same = found_after acc k v m (ap (λ t. lookup t (acc ++ ((k, v) ∷ m))) (sym same) ∙ e)

read_entries-entries :
    (m acc : Store) (i : ℕ)
    → All (λ (p : Bytes × Bytes). (length p.0 < 2 ^ 32) × (length p.1 < 2 ^ 32)) m
    → IsMap (acc ++ m)
    → read_entries (length m) i (entries m) acc ≡ inr ([], acc ++ m)
unfolding read_entries entries
read_entries-entries [] acc i f h = ap (λ t. inr ([], t)) (sym (append-nil acc))
read_entries-entries ((k, v) ∷ m) acc i f h =
    let first = read_entry-encode_entry i k v (entries m) f.0.0 f.0.1 in
    let new = insert_new k v acc (not_before acc k v m h) in
    rw (first, read_entries, new)
      (read_entries-entries m (acc ++ ((k, v) ∷ [])) (suc i) f.1
          (rw (append_assoc acc ((k, v) ∷ []) m) h)
        ∙ ap (λ t. inr ([], t)) (append_assoc acc ((k, v) ∷ []) m))

drop_twice : (a b : ℕ) (tail : Bytes) → drop 16 (le64 a ++ (le64 b ++ tail)) ≡ tail
unfolding le64
drop_twice a b tail = refl

read_fields-eq :
    (last_seq : ℕ) (m : Store)
    → IsStorable last_seq m
    → read_fields (le64 last_seq ++ (le64 (u64 (size m)) ++ entries m)) ≡ loaded m last_seq
unfolding read_fields size all_read
read_fields-eq last_seq m h =
    let tail : Bytes = entries m in
    let small : u64 (length m) ≡ length m = omega (arith, h.size) in
    rw
      (
        small,
        read64-le64 last_seq (le64 (length m) ++ tail) h.seq,
        drop-le64 last_seq (le64 (length m) ++ tail),
        read64-le64 (length m) tail h.size,
        drop_twice last_seq (length m) tail,
        read_entries-entries m [] 0 h.fits h.table,
      )
      refl

-- A body and its checksum.
read_framed :
    (body : Bytes)
    → 24 ≤ length body
    → read_snapshot (body ++ le32 (checksum body)) ≡ (
        if not (bytes_eq (take 8 body) snap_magic)
        then load_failed bad_magic
        else read_fields (drop 8 body))
unfolding read_snapshot read_body
read_framed body long =
    let tail : Bytes = le32 (checksum body) in
    let total : length (body ++ tail) ≡ length body + 4 =
      omega (arith, length-append body tail, length-le32 (checksum body)) in
    let cut : length (body ++ tail) - 4 ≡ length body = omega (arith, total) in
    let enough : ltb (length (body ++ tail)) 28 ≡ false = ground (arith, total, long) in
    let sum : read32 tail ≡ checksum body =
      ap read32 (sym (append-nil tail)) ∙ read32-le32 (checksum body) [] (checksum-lt body) in
    rw (enough, cut, take-append body tail, drop-append body tail, sum, ==_refl (checksum body))
      refl

-- A map on sizes that the format holds, with its sequence number, is read back from its snapshot.
pub read_snapshot-encode_snapshot :
    (last_seq : ℕ) (m : Store)
    → IsStorable last_seq m
    → read_snapshot (encode_snapshot last_seq m) ≡ loaded m last_seq
unfolding encode_snapshot with_crc snapshot_body
read_snapshot-encode_snapshot last_seq m h =
    let fields : Bytes = le64 last_seq ++ (le64 (u64 (size m)) ++ entries m) in
    let body : Bytes = snap_magic ++ fields in
    let whole : snap_magic ++ (le64 last_seq ++ (le64 (u64 (size m)) ++ range write_entry m []))
        ≡ body =
      ap (λ t. snap_magic ++ (le64 last_seq ++ (le64 (u64 (size m)) ++ t))) (range-entries m []) in
    let long : length fields ≡ 16 + length (entries m) = omega (
      arith,
      length-append (le64 last_seq) (le64 (u64 (size m)) ++ entries m),
      length-append (le64 (u64 (size m))) (entries m),
      length-le64 last_seq,
      length-le64 (u64 (size m)),
    ) in
    ap (λ b. read_snapshot (b ++ le32 (checksum b))) whole
    ∙ read_framed body (omega (arith, long))
    ∙ rw (bytes_eq_refl snap_magic) (read_fields-eq last_seq m h)
