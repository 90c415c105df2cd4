-- ===== src/Storage/Store/Writes.antt =====
-- internal/storage/store.go, `logAndApply`: what the disk holds after a write, acknowledged or not.
use raft_kv.Common.{
  ℕ, zero, suc, ◌+◌, ◌^◌, ◌<◌, ◌≤◌, ◌≡◌, ◌≢◌, refl, sym, ap, ◌∙◌, Bool, true, false, Option, none,
  some, List, [], ◌∷◌, ◌++◌, arith, append_assoc, append-nil, u64, length, take, drop, All-append,
  length-append, take_all, length-drop,
}
use mathlib.Core.Path.{subst}
use raft_kv.Common.Bytes.{Bytes}
use raft_kv.Common.Assoc.{Map, bytes_key}
use raft_kv.Storage.Command.{Command, encode_command}
use raft_kv.Storage.MemStore.{apply_command}
use raft_kv.Storage.Wal.{Wal, Fault, at_write, at_sync, WalError, append, wal_record}
use raft_kv.Storage.Wal.Parse.{IsLogged}
use raft_kv.Storage.Wal.Replay.{records, run_command, run_all}
use raft_kv.Storage.Wal.Recovery.{records-append, appended}
use raft_kv.Storage.Wal.Chain.{flatten, run_all-append}
use raft_kv.Storage.Store.{
  DurableStore, SnapshotFaults, dir_unsynced, StoreError, apply_logged, after_append, log_and_apply,
  maybe_snapshot,
}
use raft_kv.Storage.Store.Durable.{Durable, IsDurable}
use raft_kv.Storage.Store.Snapshotting.{maybe_snapshot-IsDurable}

take-append_le : (n : ℕ) (cs ds : List Command) → n ≤ length cs → take n (cs ++ ds) ≡ take n cs
take-append_le zero cs ds h = refl
take-append_le (suc n) [] ds h = absurd (omega arith)
take-append_le (suc n) (c ∷ cs) ds h = ap (λ t. c ∷ t) (take-append_le n cs ds (omega arith))

drop-append_le :
    (n : ℕ) (cs ds : List Command) → n ≤ length cs → drop n (cs ++ ds) ≡ drop n cs ++ ds
drop-append_le zero cs ds h = refl
drop-append_le (suc n) [] ds h = absurd (omega arith)
drop-append_le (suc n) (c ∷ cs) ds h = drop-append_le n cs ds (omega arith)

apply_logged-eq :
    (c : Command) (s : DurableStore) → apply_logged c s ≡ record s { mem = run_command c s.mem }
unfolding apply_logged run_command
apply_logged-eq c s =
    elim (apply_command c s.mem)
      as (λ (o : Option (Bool × Map Bytes Bytes)).
        elim o [ none ↦ s | some (existed, m) ↦ record s { mem = m } ]
        ≡ record s { mem = elim o [ none ↦ s.mem | some (existed, m) ↦ m ] }) [
          | none ↦ refl
          | some (existed, m) ↦ refl
        ]

-- The state after a record is written and synced, and its command applied.
abbrev pub written : Command → DurableStore → DurableStore
written c s = record s {
  wal = record s.wal {
    content = s.wal.content ++ wal_record (u64 (s.seq + 1)) (encode_command c);
    size = s.wal.size + length (wal_record (u64 (s.seq + 1)) (encode_command c));
  };
  seq = u64 (s.seq + 1);
  mem = run_command c s.mem;
}

pub size_lem :
    (covered : ℕ) (cs : List Command) (pend : Option Command) (s : DurableStore)
    (h : Durable covered cs pend s)
    → h.base + length (flatten h.finished) + length h.active ≡ length cs
size_lem covered cs pend s h = omega (
  arith,
  length-drop h.base cs,
  ap length h.history,
  length-append (flatten h.finished) h.active,
  h.base_le,
  h.covered_le,
)

pub written-Durable :
    (covered : ℕ) (c : Command) (cs : List Command) (s : DurableStore)
    → IsLogged c
    → length cs + 3 < 2 ^ 64
    → Durable covered cs none s
    → Durable covered (cs ++ (c ∷ [])) none (written c s)
written-Durable covered c cs s l k h =
    let b : ℕ = h.base + length (flatten h.finished) in
    let total = size_lem covered cs none s h in
    let size : length (cs ++ (c ∷ [])) ≡ suc (length cs) =
      omega (arith, length-append cs (c ∷ [])) in
    let next : u64 (s.seq + 1) ≡ suc (b + length h.active) = omega (arith, total, h.seq, k) in
    let bare : s.wal.content ≡ records b h.active =
      h.content ∙ ap (λ t. records b h.active ++ t) h.torn.1 ∙ append-nil (records b h.active) in
    record {
      base = h.base;
      finished = h.finished;
      active = h.active ++ (c ∷ []);
      tail = [];
      logged = All-append IsLogged cs (c ∷ []) h.logged (l, tt);
      base_le = h.base_le;
      covered_le = omega (arith, size, h.covered_le);
      history =
          drop-append_le h.base cs (c ∷ []) (omega (arith, h.base_le, h.covered_le))
          ∙ ap (λ t. t ++ (c ∷ [])) h.history
          ∙ append_assoc (flatten h.finished) h.active (c ∷ []);
      older = h.older;
      content =
          ap (λ n. s.wal.content ++ wal_record n (encode_command c)) next
          ∙ ap (λ t. t ++ wal_record (suc (b + length h.active)) (encode_command c)) bare
          ∙ sym (records-append h.active b c)
          ∙ sym (append-nil (records b (h.active ++ (c ∷ []))));
      start = h.start;
      newer = h.newer;
      mem =
          ap (run_command c) h.mem ∙ sym (run_all-append cs (c ∷ []) [] ∙ (unfold run_all in refl));
      seq = omega (arith, size, h.seq, k);
      ordered = h.ordered;
      newest = rw (take-append_le covered cs (c ∷ []) h.covered_le) h.newest;
      torn = (h.torn.0, refl);
    }

-- The state after an append that fails and leaves `part` of its record.
abbrev broken : Bytes → DurableStore → DurableStore
broken part s = record s { wal = record s.wal { content = s.wal.content ++ part; failed = true } }

broken-Durable :
    (covered n : ℕ) (c : Command) (cs : List Command) (s : DurableStore)
    → IsLogged c
    → Durable covered cs none s
    → Durable covered cs
        (some c)
        (broken (take n (wal_record (suc (length cs)) (encode_command c))) s)
broken-Durable covered n c cs s l h =
    let b : ℕ = h.base + length (flatten h.finished) in
    let part : Bytes = take n (wal_record (suc (length cs)) (encode_command c)) in
    let bare : s.wal.content ≡ records b h.active =
      h.content ∙ ap (λ t. records b h.active ++ t) h.torn.1 ∙ append-nil (records b h.active) in
    record {
      base = h.base;
      finished = h.finished;
      active = h.active;
      tail = part;
      logged = h.logged;
      base_le = h.base_le;
      covered_le = h.covered_le;
      history = h.history;
      older = h.older;
      content = ap (λ t. t ++ part) bare;
      start = h.start;
      newer = h.newer;
      mem = h.mem;
      seq = h.seq;
      ordered = h.ordered;
      newest = h.newest;
      torn = (refl, l, (n, refl));
    }

-- The command whose record may be on disk without being acknowledged: the first that failed.
unfoldable pub pend_after : Command → Option Command → Option Command
pend_after c none = some c
pend_after c (some d) = some d

abbrev pub WriteResult :
    Command → List Command → Option Command → Option StoreError × DurableStore → Type 0
WriteResult c cs pend (none, t) = (pend ≡ none) × IsDurable (cs ++ (c ∷ [])) none t
WriteResult c cs pend (some e, t) = IsDurable cs (pend_after c pend) t

acknowledged :
    (f : SnapshotFaults) (c : Command) (s : DurableStore)
    → s.wal.failed ≡ false
    → log_and_apply none f c s ≡ (none, maybe_snapshot f (written c s))
unfolding log_and_apply after_append
acknowledged f c s up =
    ap (λ (r : Option WalError × Wal). after_append f c r.0 (record s { wal = r.1 }))
      (appended (u64 (s.seq + 1)) (encode_command c) s.wal up)
    ∙ ap (λ (t : DurableStore). (none, maybe_snapshot f t)) (apply_logged-eq c _)

-- An append to a log that works.
append_works :
    (fault : Option Fault) (f : SnapshotFaults) (c : Command) (cs : List Command) (s : DurableStore)
    → f.create ≢ some dir_unsynced
    → IsLogged c
    → length cs + 3 < 2 ^ 64
    → IsDurable cs none s
    → WriteResult c cs none (log_and_apply fault f c s)
unfolding log_and_apply append after_append pend_after
append_works none f c cs s d l k (covered, h) =
    let size : length (cs ++ (c ∷ [])) ≡ suc (length cs) =
      omega (arith, length-append cs (c ∷ [])) in
    subst (WriteResult c cs none) (sym (acknowledged f c s h.torn.0)) (
      refl,
      maybe_snapshot-IsDurable f (cs ++ (c ∷ [])) none (written c s) d (omega (arith, size))
          (covered, written-Durable covered c cs s l k h),
    )
append_works (some (at_write n)) f c cs s d l k (covered, h) =
    let next : u64 (s.seq + 1) ≡ suc (length cs) = omega (arith, h.seq, k) in
    simp (h.torn.0, next) (covered, broken-Durable covered n c cs s l h)
append_works (some at_sync) f c cs s d l k (covered, h) =
    let rec : Bytes = wal_record (suc (length cs)) (encode_command c) in
    let next : u64 (s.seq + 1) ≡ suc (length cs) = omega (arith, h.seq, k) in
    let whole : take (length rec) rec ≡ rec = take_all (length rec) rec (omega arith) in
    simp (h.torn.0, next) (covered, rw whole at (broken-Durable covered (length rec) c cs s l h))

-- One write to a store that holds the acknowledged commands, with any failure but the sync after
-- the next segment is created. If it is acknowledged, the disk holds its command as well, and no
-- write before it had failed. If it is not, the disk holds what it held, and perhaps the record of
-- the first command that failed.
pub log_and_apply-IsDurable :
    (fault : Option Fault) (f : SnapshotFaults) (c : Command) (cs : List Command)
    (pend : Option Command) (s : DurableStore)
    → f.create ≢ some dir_unsynced
    → IsLogged c
    → length cs + 3 < 2 ^ 64
    → IsDurable cs pend s
    → WriteResult c cs pend (log_and_apply fault f c s)
unfolding log_and_apply append after_append pend_after
log_and_apply-IsDurable fault f c cs none s d l k h = append_works fault f c cs s d l k h
log_and_apply-IsDurable fault f c cs (some p) s d l k (covered, h) = simp h.torn.0 (covered, h)
