-- ===== src/Storage/Tests.antt =====
-- internal/storage: the definitions and the theorems on concrete commands.
use raft_kv.Common.{◌<◌, ◌≡◌, inl, inr, refl, some, [], ◌∷◌, arith, length}
use raft_kv.Storage.Command.{
  Command, command, encode_command, decode_command, decode_command-encode_command,
}
use raft_kv.Storage.Wal.{at_write, at_sync, append, wal_record, replayed, disk_failed}
use raft_kv.Storage.Wal.Parse.{IsLogged, length-wal_record}
use raft_kv.Storage.Wal.Replay.{records, run_all}
use raft_kv.Storage.Wal.Recovery.{append_all, empty_wal, recover, recover_torn, recover_unsynced}

abbrev put_one : Command
put_one = record { op = 1; key = 107 ∷ []; value = 118 ∷ 49 ∷ [] }

abbrev delete_one : Command
delete_one = record { op = 2; key = 107 ∷ []; value = [] }

put_one-IsLogged : IsLogged put_one
put_one-IsLogged = record {
  command = record { op = inl refl; key = omega arith; value = omega arith };
  key = omega arith;
  value = omega arith;
}

delete_one-IsLogged : IsLogged delete_one
delete_one-IsLogged = record {
  command = record { op = inr refl; key = omega arith; value = omega arith };
  key = omega arith;
  value = omega arith;
}

decode_command-encode_command_example : decode_command (encode_command put_one) ≡ command put_one
decode_command-encode_command_example =
    decode_command-encode_command put_one put_one-IsLogged.command

delete_size : 5 < length (wal_record 2 (encode_command delete_one))
delete_size = omega (arith, length-wal_record 2 (encode_command delete_one))

-- A put is acknowledged, and five bytes of a delete are written.
recover_torn_example :
    recover
      (append
        (some (at_write 5))
        2
        (encode_command delete_one)
        (append_all 0 (put_one ∷ []) empty_wal)).1.content
    ≡ replayed 1
        (length (append_all 0 (put_one ∷ []) empty_wal).content)
        (run_all (put_one ∷ []) [])
recover_torn_example =
    recover_torn (put_one ∷ []) delete_one 5 (put_one-IsLogged, tt) delete_one-IsLogged
      (omega arith) delete_size

-- The delete is written and its sync fails.
recover_unsynced_example :
    ((append (some at_sync) 2 (encode_command delete_one) (append_all 0 (put_one ∷ []) empty_wal)).0
      ≡ some disk_failed)
    × (recover
          (append
            (some at_sync)
            2
            (encode_command delete_one)
            (append_all 0 (put_one ∷ []) empty_wal)).1.content
        ≡ replayed 2
            (length (records 0 (put_one ∷ delete_one ∷ [])))
            (run_all (put_one ∷ delete_one ∷ []) []))
recover_unsynced_example =
    recover_unsynced (put_one ∷ []) delete_one (put_one-IsLogged, tt) delete_one-IsLogged
      (omega arith)
