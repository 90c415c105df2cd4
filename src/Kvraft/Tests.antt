-- ===== src/Kvraft/Tests.antt =====
-- internal/kvraft: the definitions and the theorems on concrete commands.
use raft_kv.Common.{
  ℕ, ◌<◌, ◌≡◌, ◌≢◌, inl, refl, Option, none, some, [], ◌∷◌, ◌++◌, arith, length, take, drop,
  take-append, drop-append,
}
use raft_kv.Common.Bytes.{Bytes, le32, le64, read32, read64, bytes_eq}
use raft_kv.Common.Assoc.{Map, nat_eq, bytes_key, lookup, insert, insert_all, value}
use raft_kv.Storage.MemStore.{Store, put, range, apply_command}
use raft_kv.Storage.Command.{
  Command, command, encode_command, decode_command, decode_body, decode_key, decode_value,
  decode_command-encode_command,
}
use raft_kv.Kvraft.StateMachine.{
  Envelope, IsEnvelope, encode_envelope, decode_envelope, decode_envelope-encode_envelope,
  StateMachine, new_state_machine, apply, apply_all, apply_envelope, apply_decoded, is_duplicate,
  note_serial, change_data,
}
use raft_kv.Kvraft.Session.{apply_once}
use raft_kv.Kvraft.Snapshot.{SnapshotImage, snapshot, snapshot_image, collect, restore}
use raft_kv.Kvraft.Snapshot.RoundTrip.{SameState, restore-snapshot}

abbrev put_one : Command
put_one = record { op = 1; key = 107 ∷ []; value = 118 ∷ [] }

abbrev first : Envelope
first = record { client_id = 5; serial = 3; inner = encode_command put_one }

-- An older command of the same client, whatever it holds.
abbrev older : Envelope
older = record { client_id = 5; serial = 2; inner = 0 ∷ [] }

first-IsEnvelope : IsEnvelope first
first-IsEnvelope = record { client_id = omega arith; serial = omega arith }

older-IsEnvelope : IsEnvelope older
older-IsEnvelope = record { client_id = omega arith; serial = omega arith }

decode_envelope-encode_envelope_example : decode_envelope (encode_envelope first) ≡ some first
decode_envelope-encode_envelope_example = decode_envelope-encode_envelope first first-IsEnvelope

has_session : first.client_id ≢ 0
has_session e = absurd (omega (arith, e))

inner_decodes : decode_command (encode_command put_one) ≡ command put_one
inner_decodes =
    decode_command-encode_command put_one
      (record { op = inl refl; key = omega arith; value = omega arith })

apply_once_example :
    apply
      (encode_envelope older)
      (apply_all ([] ∷ []) (apply (encode_envelope first) new_state_machine))
    ≡ apply_all ([] ∷ []) (apply (encode_envelope first) new_state_machine)
apply_once_example =
    apply_once first older put_one ([] ∷ []) new_state_machine first-IsEnvelope older-IsEnvelope
      has_session inner_decodes refl (omega arith)

-- A codec for the images of one key and one session.
abbrev encode_parts : Store → Map ℕ ℕ → Option Bytes
encode_parts ((k, v) ∷ []) ((id, serial) ∷ []) = some (id ∷ serial ∷ length k ∷ (k ++ v))
encode_parts _ _ = none

abbrev encode_image : SnapshotImage → Option Bytes
encode_image i = encode_parts i.store i.sessions

abbrev decode_image : Bytes → Option SnapshotImage
decode_image (id ∷ serial ∷ n ∷ b) =
    some (record { store = (take n b, drop n b) ∷ []; sessions = (id, serial) ∷ [] })
decode_image _ = none

some_injective : {a b : Bytes} → some a ≡ some b → a ≡ b
some_injective h = cc

decode_parts :
    (store : Store) (sessions : Map ℕ ℕ) (b : Bytes)
    → encode_parts store sessions ≡ some b
    → (decode_image b ≡ some (record { store = store; sessions = sessions })) × (0 < length b)
decode_parts [] sessions b h = cc
decode_parts ((k, v) ∷ []) [] b h = cc
decode_parts ((k, v) ∷ []) ((id, serial) ∷ []) b h =
    rw (← some_injective h, take-append k v, drop-append k v) (refl, omega arith)
decode_parts ((k, v) ∷ []) ((id, serial) ∷ x ∷ xs) b h = cc
decode_parts ((k, v) ∷ x ∷ xs) sessions b h = cc

decode_image-encode_image :
    (i : SnapshotImage) (b : Bytes)
    → encode_image i ≡ some b
    → (decode_image b ≡ some i) × (0 < length b)
decode_image-encode_image i b h = decode_parts i.store i.sessions b h

captured :
    snapshot encode_image decode_image (apply_all (encode_envelope first ∷ []) new_state_machine)
    ≡ some (5 ∷ 3 ∷ 1 ∷ 107 ∷ 118 ∷ [])
unfolding snapshot snapshot_image apply_all apply apply_envelope apply_decoded is_duplicate
    note_serial change_data encode_envelope decode_envelope encode_command decode_command
    decode_body decode_key decode_value apply_command put range collect insert_all insert lookup
    value le64 le32 read64 read32 bytes_eq
captured = refl

restore-snapshot_example :
    (t : StateMachine) × (restore encode_image decode_image
        (5 ∷ 3 ∷ 1 ∷ 107 ∷ 118 ∷ [])
        new_state_machine
      ≡ some t)
    × SameState
        (apply_all
          (encode_envelope older ∷ [])
          (apply_all (encode_envelope first ∷ []) new_state_machine))
        (apply_all (encode_envelope older ∷ []) t)
restore-snapshot_example =
    restore-snapshot encode_image decode_image decode_image-encode_image
      (encode_envelope first ∷ []) (encode_envelope older ∷ []) new_state_machine
      (5 ∷ 3 ∷ 1 ∷ 107 ∷ 118 ∷ []) captured
