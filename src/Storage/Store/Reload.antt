-- ===== src/Storage/Store/Reload.antt =====
-- internal/storage/store.go, `Open`: the snapshot that is loaded and the segments that are replayed.
use raft_kv.Common.{
  ℕ, ◌+◌, ◌-◌, ◌^◌, ◌<◌, ◌≡◌, refl, sym, ap, ◌∙◌, inl, inr, Option, none, some, List, [], ◌∷◌, ◌++◌,
  arith, append_assoc, append-nil, length, take, drop, All, All-append_left, All-drop,
  length-append, get_last?, length-take, take-append, take-append-drop, drop-drop, ==_refl,
}
use raft_kv.Common.Bytes.{Bytes}
use raft_kv.Common.Assoc.{bytes_key}
use raft_kv.Storage.Command.{Command}
use raft_kv.Storage.MemStore.{Store}
use raft_kv.Storage.Wal.{Segment, parse_record, replayed, replay_wal}
use raft_kv.Storage.Wal.Parse.{IsLogged}
use raft_kv.Storage.Wal.Replay.{records, run_all, replayed_at}
use raft_kv.Storage.Wal.Segments.{left_over}
use raft_kv.Storage.Wal.Chain.{flatten, run_all-append, chain_lem}
use raft_kv.Storage.Snapshot.{SnapFile, loaded, check_seq, load_newest_snapshot, read_snapshot}
use raft_kv.Storage.Snapshot.RoundTrip.{read_snapshot-encode_snapshot}
use raft_kv.Storage.Store.{
  DurableStore, list_segments, opened, new_store, open_segments, open_replayed, open_loaded,
  open_store,
}
use raft_kv.Storage.Store.View.{run_all-IsStorable}
use raft_kv.Storage.Store.Durable.{Durable, snapshot_of}
use raft_kv.Storage.Store.Writes.{size_lem}

load_with :
    (dir : List SnapFile) (f : SnapFile)
    → get_last? dir ≡ some f
    → load_newest_snapshot dir ≡ check_seq f.seq (read_snapshot f.content)
unfolding load_newest_snapshot
load_with dir f e = rw (e, load_newest_snapshot) refl

-- The newest snapshot is loaded.
pub loads :
    (covered : ℕ) (cs : List Command) (pend : Option Command) (s : DurableStore)
    → length cs + 3 < 2 ^ 64
    → Durable covered cs pend s
    → load_newest_snapshot s.snaps ≡ loaded (run_all (take covered cs) []) covered
unfolding load_newest_snapshot check_seq
loads covered cs pend s k h = elim h.newest [
  | inl e ↦
      ap load_newest_snapshot e.0 ∙ rw e.1 (unfold load_newest_snapshot in unfold run_all in refl)
  | inr e ↦
      let part : All IsLogged (take covered cs) =
        All-append_left IsLogged (take covered cs) (drop covered cs)
          (rw (take-append-drop covered cs) h.logged) in
      let storable =
        run_all-IsStorable (take covered cs) covered part (omega (arith, h.covered_le))
          (omega (arith, length-take covered cs)) in
      load_with s.snaps (snapshot_of covered cs) e
      ∙ rw
          (
            read_snapshot-encode_snapshot covered (run_all (take covered cs) []) storable,
            ==_refl covered,
          )
          refl
]

-- The commands after the snapshot, on top of it.
caught_up :
    (covered : ℕ) (cs : List Command) (pend : Option Command) (s : DurableStore)
    (h : Durable covered cs pend s)
    → run_all
        (left_over covered h.base (flatten h.finished ++ h.active))
        (run_all (take covered cs) [])
      ≡ run_all cs []
caught_up covered cs pend s h =
    let rest : left_over covered h.base (flatten h.finished ++ h.active) ≡ drop covered cs =
      ap (drop (covered - h.base)) (sym h.history)
      ∙ sym (drop-drop h.base (covered - h.base) cs)
      ∙ ap (λ n. drop n cs) (omega (arith, h.base_le)) in
    ap (λ t. run_all t (run_all (take covered cs) [])) rest
    ∙ sym (run_all-append (take covered cs) (drop covered cs) [])
    ∙ ap (λ t. run_all t []) (take-append-drop covered cs)

last_open :
    (threshold : ℕ) (acc older : List Segment) (g : Segment) (last off : ℕ) (mem : Store)
    (snaps : List SnapFile)
    → open_segments none threshold acc (older ++ (g ∷ [])) last off mem snaps
      ≡ opened (new_store threshold mem last (acc ++ older) g.start_seq (take off g.content) snaps)
unfolding open_segments
last_open threshold acc [] g last off mem snaps =
    ap (λ t. opened (new_store threshold mem last t g.start_seq (take off g.content) snaps))
      (sym (append-nil acc))
last_open threshold acc (o ∷ []) g last off mem snaps = refl
last_open threshold acc (o ∷ p ∷ older) g last off mem snaps =
    last_open threshold (acc ++ (o ∷ [])) (p ∷ older) g last off mem snaps
    ∙ ap (λ t. opened (new_store threshold mem last t g.start_seq (take off g.content) snaps))
        (append_assoc acc (o ∷ []) (p ∷ older))

-- The store that is opened.
abbrev pub reopened : ℕ → List Command → Bytes → DurableStore → DurableStore
reopened threshold cs content s =
    new_store threshold (run_all cs []) (length cs) s.older s.wal_start content s.snaps

pub reopen_lem :
    (threshold covered : ℕ) (cs : List Command) (pend : Option Command) (s : DurableStore)
    (h : Durable covered cs pend s)
    → length cs + 3 < 2 ^ 64
    → parse_record h.tail ≡ none
    → open_store none threshold (list_segments s) s.snaps
      ≡ opened (reopened threshold cs (records (h.base + length (flatten h.finished)) h.active) s)
unfolding open_store open_loaded open_replayed list_segments
reopen_lem threshold covered cs pend s h k torn =
    let b : ℕ = h.base + length (flatten h.finished) in
    let g : Segment = record { start_seq = s.wal_start; content = s.wal.content } in
    let total = size_lem covered cs pend s h in
    let size = length-append (flatten h.finished) h.active in
    let logged : All IsLogged (flatten h.finished ++ h.active) =
      rw (← h.history) (All-drop IsLogged h.base cs h.logged) in
    let replay : replay_wal (s.older ++ (g ∷ s.newer)) covered (run_all (take covered cs) [])
        ≡ replayed (length cs) (length (records b h.active)) (run_all cs []) =
      ap (λ t. replay_wal (s.older ++ (g ∷ t)) covered (run_all (take covered cs) [])) h.newer
      ∙ ap (λ t. replay_wal (t ++ (g ∷ [])) covered (run_all (take covered cs) [])) h.older
      ∙ chain_lem h.finished h.active g h.tail h.base covered (run_all (take covered cs) []) logged
          h.base_le (omega (arith, size, total, k)) h.content torn
      ∙ replayed_at _ (omega (arith, size, total, h.covered_le)) refl
      ∙ ap (replayed (length cs) (length (records b h.active))) (caught_up covered cs pend s h) in
    let cut : take (length (records b h.active)) s.wal.content ≡ records b h.active =
      ap (take (length (records b h.active))) h.content ∙ take-append (records b h.active) h.tail in
    rw (loads covered cs pend s k h) (
      rw replay (
        ap
          (λ t.
            open_segments none threshold [] (s.older ++ (g ∷ t)) (length cs)
              (length (records b h.active)) (run_all cs []) s.snaps)
          h.newer
        ∙ last_open threshold [] s.older g (length cs) (length (records b h.active)) (run_all cs [])
            s.snaps
        ∙ ap (λ t. opened (reopened threshold cs t s)) cut))

pub reopened-Durable :
    (threshold covered : ℕ) (cs : List Command) (pend : Option Command) (s : DurableStore)
    (h : Durable covered cs pend s)
    → Durable covered cs none
        (reopened threshold cs (records (h.base + length (flatten h.finished)) h.active) s)
reopened-Durable threshold covered cs pend s h = record {
  base = h.base;
  finished = h.finished;
  active = h.active;
  tail = [];
  logged = h.logged;
  base_le = h.base_le;
  covered_le = h.covered_le;
  history = h.history;
  older = h.older;
  content = sym (append-nil (records (h.base + length (flatten h.finished)) h.active));
  start = h.start;
  newer = refl;
  mem = refl;
  seq = refl;
  ordered = h.ordered;
  newest = h.newest;
  torn = (refl, refl);
}
