-- ===== src/Record/Tests.antt =====
-- internal/record/record.go: the definitions on concrete bytes.
use raft_kv.Common.{
  ◌+◌, ◌≡◌, ◌⊎◌, ◌≤◌, refl, true, false, none, some, [], ◌∷◌, ◌++◌, arith, length, take, drop, All,
}
use raft_kv.Common.Bytes.{Bytes, read32}
use raft_kv.Record.{
  AtomicFault, FileSlot, frame, parse, checksum, write_file_atomic, begin_writing, write_steps,
  run_steps,
}
use raft_kv.Record.Framing.{IsByte, parse-frame, parse_torn, parse_sound}
use raft_kv.Record.Replace.{crash, IsEither, write_file_atomic_lem}

-- The check value of CRC32-C.
checksum_check_value : checksum (49 ∷ 50 ∷ 51 ∷ 52 ∷ 53 ∷ 54 ∷ 55 ∷ 56 ∷ 57 ∷ []) ≡ 0xe306_9283
unfolding checksum
checksum_check_value = refl

parse-frame_example : parse (frame [] (7 ∷ 8 ∷ []) ++ (1 ∷ [])) 16 ≡ some (7 ∷ 8 ∷ [], 10)
parse-frame_example = parse-frame (7 ∷ 8 ∷ []) (1 ∷ []) 16 (omega arith) (omega arith)

parse_torn_example : parse (take 9 (frame [] (7 ∷ 8 ∷ []))) 16 ≡ none
parse_torn_example = parse_torn (7 ∷ 8 ∷ []) 16 9 (omega arith) (omega arith)

abbrev slot : FileSlot
slot = record { final = some (1 ∷ []); tmp = none }

write_file_atomic_lem_example :
    ((write_file_atomic (some AtomicFault.at_sync) (2 ∷ 3 ∷ []) slot
        ≡ (true, record { final = some (2 ∷ 3 ∷ []); tmp = none }))
      ⊎ (((write_file_atomic (some AtomicFault.at_sync) (2 ∷ 3 ∷ []) slot).0 ≡ false)
          × IsEither
              (2 ∷ 3 ∷ [])
              slot
              (write_file_atomic (some AtomicFault.at_sync) (2 ∷ 3 ∷ []) slot).1.final))
    × (crash 0 true slot.final (run_steps write_steps none 1 (2 ∷ 3 ∷ []) (begin_writing slot)).1
        ≡ some (2 ∷ 3 ∷ []))
    × IsEither (2 ∷ 3 ∷ []) slot (
        crash 0 true slot.final
          (run_steps write_steps (some 1) 1 (2 ∷ 3 ∷ []) (begin_writing slot)).1)
write_file_atomic_lem_example =
    write_file_atomic_lem (some AtomicFault.at_sync) 1 1 0 true (2 ∷ 3 ∷ []) slot

abbrev bytes : Bytes
bytes = 1 ∷ 0 ∷ 0 ∷ 0 ∷ 186 ∷ 55 ∷ 183 ∷ 134 ∷ 7 ∷ 3 ∷ []

parse-bytes : parse bytes 16 ≡ some (7 ∷ [], 9)
unfolding parse read32 checksum
parse-bytes = refl

are_bytes : All IsByte bytes
are_bytes = ground arith

abbrev payload : Bytes
payload = 7 ∷ []

parse_sound_example :
    (length payload ≤ 16)
    × (9 ≡ 8 + length payload)
    × (9 ≤ length bytes)
    × (frame [] payload ++ drop 9 bytes ≡ bytes)
parse_sound_example = parse_sound bytes payload 16 9 are_bytes (omega arith) parse-bytes
