-- ===== src/Storage/StoreTests.antt =====
-- internal/storage: the durable store and its files on concrete calls.
use raft_kv.Common.{ℕ, ◌≡◌, ◌≢◌, ◌⊎◌, inl, refl, true, false, none, some, [], ◌∷◌, arith}
use raft_kv.Common.Bytes.{Bytes, le32, le64}
use raft_kv.Common.Assoc.{bytes_key, lookup}
use raft_kv.Storage.Command.{Command, encode_command, op_put}
use raft_kv.Storage.MemStore.{Store, apply_command}
use raft_kv.Storage.Snapshot.{loaded, encode_snapshot, read_snapshot}
use raft_kv.Storage.Snapshot.RoundTrip.{IsStorable, read_snapshot-encode_snapshot}
use raft_kv.Storage.Wal.{at_write, append, wal_record, replay_segment, corrupt_record}
use raft_kv.Record.{frame}
use raft_kv.Storage.Wal.Parse.{IsLogged, length-wal_record}
use raft_kv.Storage.Wal.Termination.{replay_segment-enough}
use raft_kv.Storage.Store.{
  DurableStore, SnapshotFaults, dir_unsynced, opened, open_failed, replay_error, open_store,
  list_segments, get_key, put_key, log_and_apply, snapshot, after_append, apply_logged,
  maybe_snapshot, has_segment,
}
use raft_kv.Storage.Store.View.{nothing_stored}
use raft_kv.Storage.Store.Durable.{IsDurable}
use raft_kv.Storage.Store.Calls.{
  Op, put_op, perform, view_of, Run, started, acknowledged, snapshotted,
}
use raft_kv.Storage.Store.Writes.{log_and_apply-IsDurable}
use raft_kv.Storage.Store.Refinement.{first_store, open_empty, first_store-IsDurable, Run-refines}
use raft_kv.Storage.Store.Stray.{stray_segment-refuses}

abbrev store : Store
store = (107 ∷ [], 118 ∷ []) ∷ []

store-IsStorable : IsStorable 4 store
store-IsStorable = record {
  seq = omega arith;
  size = omega arith;
  fits = ((omega arith, omega arith), tt);
  table = unfold lookup in (refl, tt);
}

read_snapshot-encode_snapshot_example : read_snapshot (encode_snapshot 4 store) ≡ loaded store 4
read_snapshot-encode_snapshot_example = read_snapshot-encode_snapshot 4 store store-IsStorable

replay_segment-enough_example :
    replay_segment 3 true 1 0 (1 ∷ 2 ∷ 3 ∷ []) 0 store
    ≡ replay_segment 9 true 1 0 (1 ∷ 2 ∷ 3 ∷ []) 0 store
replay_segment-enough_example =
    replay_segment-enough 3 9 true 1 (1 ∷ 2 ∷ 3 ∷ []) 0 0 store (omega arith) (omega arith)

abbrev no_faults : SnapshotFaults
no_faults = record { write = none; create = none; close = false; remove = none; prune = none }

no_faults-create : no_faults.create ≢ some dir_unsynced
no_faults-create e = cc

-- A key is put, and the store takes a snapshot.
abbrev put_it : Op
put_it = put_op (107 ∷ []) (118 ∷ [])

abbrev after_put : DurableStore
after_put = (perform none no_faults put_it (first_store 0)).1

worked : perform none no_faults put_it (first_store 0) ≡ (none, after_put)
unfolding perform put_key log_and_apply append after_append encode_command
worked = refl

path : Run 0 (snapshot no_faults after_put).1 (put_it ∷ []) none
path =
    snapshotted no_faults
      (acknowledged put_it none no_faults (started (open_empty 0)) (omega arith, omega arith)
        no_faults-create worked)
      no_faults-create

Run-refines_example :
    ((j : Bytes)
      → get_key j (snapshot no_faults after_put).1 ≡ view_of (put_it ∷ []) nothing_stored j)
    × ((t : DurableStore) × (open_store none 0
            (list_segments (snapshot no_faults after_put).1)
            (snapshot no_faults after_put).1.snaps
          ≡ opened t)
        × (((j : Bytes) → get_key j t ≡ view_of (put_it ∷ []) nothing_stored j)
            ⊎ ((o : Op) × (none ≡ some o)
                × ((j : Bytes) → get_key j t ≡ view_of (put_it ∷ o ∷ []) nothing_stored j))))
Run-refines_example = Run-refines path (omega arith)

-- The next segment is left behind by a snapshot, and three bytes of a second put are written.
abbrev put_command : Command
put_command = record { op = op_put; key = 107 ∷ []; value = 118 ∷ [] }

put_command-IsLogged : IsLogged put_command
put_command-IsLogged = record {
  command = record { op = inl refl; key = omega arith; value = omega arith };
  key = omega arith;
  value = omega arith;
}

after_put-IsDurable : IsDurable (put_command ∷ []) none after_put
unfolding perform put_key log_and_apply append after_append encode_command
after_put-IsDurable =
    (log_and_apply-IsDurable none no_faults put_command [] none (first_store 0) no_faults-create
      put_command-IsLogged (omega arith) (first_store-IsDurable 0)).1

abbrev unsynced : SnapshotFaults
unsynced = record no_faults { create = some dir_unsynced }

after_put-seq : after_put.seq ≡ 1
unfolding perform put_key log_and_apply append after_append encode_command maybe_snapshot
    apply_logged apply_command wal_record frame le32 le64
after_put-seq = refl

stray_segment-refuses_example :
    (let t =
        (log_and_apply
          (some (at_write 3))
          no_faults
          put_command
          (snapshot unsynced after_put).1).1 in
      (off : ℕ) × (open_store none 0 (list_segments t) t.snaps
        ≡ open_failed (replay_error (corrupt_record after_put.wal_start off))))
unfolding perform put_key log_and_apply append after_append encode_command maybe_snapshot
    apply_logged apply_command wal_record frame le32 le64 has_segment list_segments
stray_segment-refuses_example =
    stray_segment-refuses 0 3 (put_command ∷ []) put_command unsynced no_faults after_put
      after_put-IsDurable (omega arith) refl refl (refl, refl) put_command-IsLogged (omega arith)
      (omega (arith, length-wal_record 2 (encode_command put_command)))
