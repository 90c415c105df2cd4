-- ===== src/Storage/Store/Refinement.antt =====
-- internal/storage/store.go: the durable store against a map that forgets nothing.
use raft_kv.Common.{
  ℕ, suc, ◌+◌, ◌^◌, ◌<◌, ◌≡◌, refl, sym, ap, ◌∙◌, ◌⊎◌, inl, inr, Option, none, some, List, [], ◌∷◌,
  ◌++◌, arith, length, length-append,
}
use mathlib.Core.Path.{subst}
use raft_kv.Common.Bytes.{Bytes}
use raft_kv.Common.Assoc.{bytes_key}
use raft_kv.Storage.Command.{Command}
use raft_kv.Storage.Snapshot.{load_newest_snapshot}
use raft_kv.Storage.Wal.{replay_wal}
use raft_kv.Storage.Wal.Replay.{records, run_all}
use raft_kv.Storage.Wal.Chain.{flatten, segments_of}
use raft_kv.Storage.Store.{
  DurableStore, list_segments, new_store, open_segments, open_loaded, open_replayed, get_key,
  opened, open_store,
}
use raft_kv.Storage.Store.View.{nothing_stored, effects}
use raft_kv.Storage.Store.Durable.{IsDurable}
use raft_kv.Storage.Store.Snapshotting.{snapshot-IsDurable}
use raft_kv.Storage.Store.Reopen.{OpenResult, open_store-IsDurable}
use raft_kv.Storage.Store.Calls.{
  started, acknowledged, refused, snapshotted, restarted, restarted_with, Op, view_of, Run,
  command_of, pending, effect-view_after, view_of-snoc, effects-snoc,
}
use raft_kv.Storage.Store.Kept.{Kept, Kept-view, view_after-same, Kept-acknowledged, Kept-refused}

-- What a restart gives.
record Reopened (s t : DurableStore) (os : List Op) (p : Option Op) : Type 0 where
  alone : t.seq ≡ s.seq → Kept t os none
  with_failed : (o : Op) → p ≡ some o → t.seq ≡ suc s.seq → Kept t (os ++ (o ∷ [])) none

seq-eq :
    {cs : List Command} {q : Option Command} {s : DurableStore}
    → IsDurable cs q s
    → s.seq ≡ length cs
seq-eq (covered, h) = h.seq

reopened_lem :
    (s t : DurableStore) (os : List Op) (p : Option Op) (k : Kept s os p)
    → OpenResult k.commands (pending p) t
    → Reopened s t os p
unfolding pending
reopened_lem s t os p k (inl r) = record {
  alone = λ e. record { commands = k.commands; durable = r; few = k.few; same = k.same };
  with_failed = λ o q e. absurd (omega (arith, e, seq-eq r, seq-eq k.durable));
}
reopened_lem s t os p k (inr (d, q, l, r)) = record {
  alone =
      λ e. absurd (omega (arith, e, seq-eq r, seq-eq k.durable, length-append k.commands (d ∷ [])));
  with_failed = λ o u e.
      let both : some (command_of o) ≡ some d = ap pending (sym u) ∙ q in
      let same : d ≡ command_of o = cc in
      record {
        commands = k.commands ++ (command_of o ∷ []);
        durable = rw (← same) r;
        few =
            omega (
              arith,
              k.few,
              length-append k.commands (command_of o ∷ []),
              length-append os (o ∷ []),
            );
        same = λ j.
            effects-snoc k.commands (command_of o) nothing_stored j
            ∙ effect-view_after o (effects k.commands nothing_stored) j
            ∙ view_after-same o (effects k.commands nothing_stored) (view_of os nothing_stored)
                k.same j
            ∙ sym (view_of-snoc os o nothing_stored j);
      };
}

abbrev pub first_store : ℕ → DurableStore
first_store threshold = new_store threshold [] 0 [] 1 [] []

pub first_store-IsDurable : (threshold : ℕ) → IsDurable [] none (first_store threshold)
first_store-IsDurable threshold = (
  0,
  record {
    base = 0;
    finished = [];
    active = [];
    tail = [];
    logged = tt;
    base_le = omega arith;
    covered_le = omega arith;
    history = unfold flatten in refl;
    older = unfold segments_of in refl;
    content = unfold flatten in unfold records in refl;
    start = unfold flatten in refl;
    newer = refl;
    mem = unfold run_all in refl;
    seq = refl;
    ordered = tt;
    newest = inl (refl, refl);
    torn = (refl, refl);
  },
)

first_store-Kept : (threshold : ℕ) → Kept (first_store threshold) [] none
unfolding pending effects view_of
first_store-Kept threshold = record {
  commands = [];
  durable = first_store-IsDurable threshold;
  few = omega arith;
  same = λ j. refl;
}

pub open_empty : (threshold : ℕ) → open_store none threshold [] [] ≡ opened (first_store threshold)
unfolding open_store open_loaded open_replayed open_segments load_newest_snapshot replay_wal
open_empty threshold = refl

opened-injective : (s t : DurableStore) → opened s ≡ opened t → s ≡ t
opened-injective s t e = cc

restart_lem :
    (threshold : ℕ) (s t : DurableStore) (os : List Op) (p : Option Op)
    → Kept s os p
    → length os + 4 < 2 ^ 64
    → open_store none threshold (list_segments s) s.snaps ≡ opened t
    → Reopened s t os p
restart_lem threshold s t os p k b e =
    let (u, opens, r) =
      open_store-IsDurable threshold k.commands (pending p) s (omega (arith, b, k.few)) k.durable in
    let same : u ≡ t = opened-injective u t (sym opens ∙ e) in
    subst (λ (x : DurableStore). Reopened s x os p) same (reopened_lem s u os p k r)

Run-Kept :
    {threshold : ℕ} {s : DurableStore} {os : List Op} {p : Option Op}
    → Run threshold s os p
    → length os + 4 < 2 ^ 64
    → Kept s os p
Run-Kept {threshold} (started {s} e) b =
    subst (λ (x : DurableStore). Kept x [] none)
      (opened-injective (first_store threshold) s (sym (open_empty threshold) ∙ e))
      (first_store-Kept threshold)
Run-Kept (acknowledged {s} {t} {os} {p} o fault f path h d e) b =
    let few = length-append os (o ∷ []) in
    Kept-acknowledged o fault f s t os p h d (omega (arith, b, few)) e
      (Run-Kept path (omega (arith, b, few)))
Run-Kept (refused {s} {t} {os} {p} o fault f x path h d e) b =
    Kept-refused o fault f x s t os p h d (omega (arith, b)) e (Run-Kept path b)
Run-Kept (snapshotted {s} {os} {p} f path d) b =
    let k = Run-Kept path b in
    record {
      commands = k.commands;
      durable = snapshot-IsDurable f k.commands (pending p) s d (omega (arith, b, k.few)) k.durable;
      few = k.few;
      same = k.same;
    }
Run-Kept {threshold} (restarted {s} {t} {os} {p} path e q) b =
    (restart_lem threshold s t os p (Run-Kept path b) b e).alone q
Run-Kept {threshold} (restarted_with {s} {t} {os} {p} o path e q u) b =
    let few : length os + 4 < 2 ^ 64 = omega (arith, b, length-append os (o ∷ [])) in
    (restart_lem threshold s t os p (Run-Kept path few) few e).with_failed o u q

found :
    (s t : DurableStore) (os : List Op) (p : Option Op) (k : Kept s os p)
    → OpenResult k.commands (pending p) t
    → ((j : Bytes) → get_key j t ≡ view_of os nothing_stored j)
      ⊎ ((o : Op) × (p ≡ some o)
          × ((j : Bytes) → get_key j t ≡ view_of (os ++ (o ∷ [])) nothing_stored j))
unfolding pending
found s t os p k (inl r) = inl (
    Kept-view t os none
      ((reopened_lem s t os p k (inl r)).alone (seq-eq r ∙ sym (seq-eq k.durable))))
found s t os none k (inr (d, q, l, r)) = absurd (ground (arith, q))
found s t os (some o) k (inr (d, q, l, r)) =
    let next : t.seq ≡ suc s.seq =
      omega (arith, seq-eq r, seq-eq k.durable, length-append k.commands (d ∷ [])) in
    inr (
      o,
      refl,
      Kept-view t (os ++ (o ∷ [])) none
          ((reopened_lem s t os (some o) k (inr (d, q, l, r))).with_failed o refl next),
    )

-- A store goes through calls that are acknowledged or fail at any point, snapshots that fail
-- anywhere but in the sync after a segment is created, and restarts; fewer than 2 ^ 64 - 4 calls
-- take effect in all, on sizes that the log can hold. It answers every key as a map does to which
-- the acknowledged calls were made, in order, and with them, in their places, those failed calls
-- that a restart found on disk, which is for each restart at most the first that failed since the
-- one before. At any moment of such a run its directory can be opened, and the store that comes out
-- answers as that map does, or as that map does after the first call that failed since the last
-- start.
pub Run-refines :
    {threshold : ℕ} {s : DurableStore} {os : List Op} {p : Option Op}
    → Run threshold s os p
    → length os + 4 < 2 ^ 64
    → ((j : Bytes) → get_key j s ≡ view_of os nothing_stored j)
      × ((t : DurableStore) × (open_store none threshold (list_segments s) s.snaps ≡ opened t)
          × (((j : Bytes) → get_key j t ≡ view_of os nothing_stored j)
              ⊎ ((o : Op) × (p ≡ some o)
                  × ((j : Bytes) → get_key j t ≡ view_of (os ++ (o ∷ [])) nothing_stored j))))
Run-refines {threshold} {s} {os} {p} path b =
    let k = Run-Kept path b in
    let (t, opens, r) =
      open_store-IsDurable threshold k.commands (pending p) s (omega (arith, b, k.few)) k.durable in
    (Kept-view s os p k, (t, opens, found s t os p k r))
