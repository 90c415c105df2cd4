-- ===== src/Storage/Store/Reopen.antt =====
-- internal/storage/store.go, `Open`: what recovery makes of the disk.
use raft_kv.Common.{
  ℕ, suc, ◌+◌, ◌^◌, ◌<◌, ◌≤◌, ◌≡◌, refl, sym, ap, ◌∙◌, ◌⊎◌, inl, inr, false, Option, none, some,
  List, [], ◌∷◌, ◌++◌, arith, append-nil, ltb, u64, length, take, length-append, Bool-cases,
  take_all,
}
use raft_kv.Common.Bytes.{Bytes}
use raft_kv.Common.Assoc.{bytes_key}
use raft_kv.Storage.Command.{Command, encode_command}
use raft_kv.Storage.Wal.{wal_record, parse_record}
use raft_kv.Storage.Wal.Parse.{IsLogged, parse_record-torn}
use raft_kv.Storage.Wal.Replay.{records, logged_size}
use raft_kv.Storage.Wal.Recovery.{parse_record_empty}
use raft_kv.Storage.Wal.Chain.{flatten}
use raft_kv.Storage.Store.{DurableStore, list_segments, opened, open_store}
use raft_kv.Storage.Store.Durable.{Durable, IsDurable}
use raft_kv.Storage.Store.Writes.{written, written-Durable}
use raft_kv.Storage.Store.Reload.{reopened, reopen_lem, reopened-Durable}

-- What opening gives: the acknowledged commands, or those and the one whose append failed.
abbrev pub OpenResult : List Command → Option Command → DurableStore → Type 0
OpenResult cs pend t =
    IsDurable cs none t
    ⊎ ((d : Command) × (pend ≡ some d) × IsLogged d × IsDurable (cs ++ (d ∷ [])) none t)

-- The state as if the torn bytes were not there.
abbrev mended : Bytes → DurableStore → DurableStore
mended b s = record s { wal = record s.wal { content = b; failed = false } }

mended-Durable :
    (covered : ℕ) (cs : List Command) (pend : Option Command) (s : DurableStore)
    (h : Durable covered cs pend s)
    → Durable covered cs none (mended (records (h.base + length (flatten h.finished)) h.active) s)
mended-Durable covered cs pend s h = record {
  base = h.base;
  finished = h.finished;
  active = h.active;
  tail = [];
  logged = h.logged;
  base_le = h.base_le;
  covered_le = h.covered_le;
  history = h.history;
  older = h.older;
  content = sym (append-nil (records (h.base + length (flatten h.finished)) h.active));
  start = h.start;
  newer = h.newer;
  mem = h.mem;
  seq = h.seq;
  ordered = h.ordered;
  newest = h.newest;
  torn = (refl, refl);
}

reopen_torn :
    (threshold covered : ℕ) (cs : List Command) (pend : Option Command) (s : DurableStore)
    (h : Durable covered cs pend s)
    → length cs + 3 < 2 ^ 64
    → parse_record h.tail ≡ none
    → (t : DurableStore) × (open_store none threshold (list_segments s) s.snaps ≡ opened t)
      × IsDurable cs none t
reopen_torn threshold covered cs pend s h k torn = (
  reopened threshold cs (records (h.base + length (flatten h.finished)) h.active) s,
  reopen_lem threshold covered cs pend s h k torn,
  (covered, reopened-Durable threshold covered cs pend s h),
)

-- The record of the command that failed is whole.
reopen_whole :
    (threshold covered n : ℕ) (cs : List Command) (d : Command) (s : DurableStore)
    (h : Durable covered cs (some d) s)
    → IsLogged d
    → length cs + 4 < 2 ^ 64
    → h.tail ≡ take n (wal_record (suc (length cs)) (encode_command d))
    → length (wal_record (suc (length cs)) (encode_command d)) ≤ n
    → (t : DurableStore) × (open_store none threshold (list_segments s) s.snaps ≡ opened t)
      × IsDurable (cs ++ (d ∷ [])) none t
unfolding list_segments
reopen_whole threshold covered n cs d s h l k e long =
    let rec : Bytes = wal_record (suc (length cs)) (encode_command d) in
    let bare : Bytes = records (h.base + length (flatten h.finished)) h.active in
    let s' : DurableStore = written d (mended bare s) in
    let size : length (cs ++ (d ∷ [])) ≡ suc (length cs) =
      omega (arith, length-append cs (d ∷ [])) in
    let w =
      written-Durable covered d cs (mended bare s) l (omega arith)
        (mended-Durable covered cs (some d) s h) in
    let (t, o, r) =
      reopen_torn threshold covered (cs ++ (d ∷ [])) none s' w (omega (arith, size))
        (ap parse_record w.torn.1 ∙ parse_record_empty) in
    let next : u64 (s.seq + 1) ≡ suc (length cs) = omega (arith, h.seq, k) in
    let same : bare ++ wal_record (u64 (s.seq + 1)) (encode_command d) ≡ s.wal.content =
      ap (λ i. bare ++ wal_record i (encode_command d)) next
      ∙ ap (λ b. bare ++ b) (sym (e ∙ take_all n rec long))
      ∙ sym h.content in
    (t, ap (λ b. open_store none threshold (list_segments (mended b s)) s.snaps) (sym same) ∙ o, r)

-- A directory that was left by a store which holds the acknowledged commands can be opened. The
-- store that comes out holds them, and perhaps the command whose append failed.
pub open_store-IsDurable :
    (threshold : ℕ) (cs : List Command) (pend : Option Command) (s : DurableStore)
    → length cs + 4 < 2 ^ 64
    → IsDurable cs pend s
    → (t : DurableStore) × (open_store none threshold (list_segments s) s.snaps ≡ opened t)
      × OpenResult cs pend t
open_store-IsDurable threshold cs none s k (covered, h) =
    let (t, o, r) =
      reopen_torn threshold covered cs none s h (omega arith)
        (ap parse_record h.torn.1 ∙ parse_record_empty) in
    (t, o, inl r)
open_store-IsDurable threshold cs (some d) s k (covered, h) =
    let (up, l, (n, e)) = h.torn in
    let rec : Bytes = wal_record (suc (length cs)) (encode_command d) in
    elim (Bool-cases (ltb n (length rec))) [
      | inl b ↦
          let (t, o, r) = reopen_torn threshold covered cs (some d) s h (omega arith) (
            ap parse_record e
            ∙ parse_record-torn (suc (length cs)) n (encode_command d) (logged_size d l)
                (ground arith)) in
          (t, o, inl r)
      | inr b ↦
          let (t, o, r) = reopen_whole threshold covered n cs d s h l k e (ground arith) in
          (t, o, inr (d, refl, l, r))
    ]
