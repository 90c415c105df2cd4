-- ===== src/Kvraft/StateMachine.antt =====
-- internal/kvraft/statemachine.go: the command envelope, the state machine and its session table.
-- Every method runs under the lock, so each is one step.
use raft_kv.Common.{
  ℕ, ◌^◌, ◌<◌, ◌≡◌, Bool, not, ◌&&◌, Option, none, some, List, [], ◌∷◌, ◌++◌, arith, ltb, leb, ◌==◌,
  if◌then◌else◌, length, drop,
}
use raft_kv.Common.Bytes.{Bytes, le64, read64}
use raft_kv.Common.Assoc.{Map, nat_eq, insert, value}
use raft_kv.Storage.Command.{Command, Decoded, command, failed, decode_command}
use raft_kv.Storage.MemStore.{Store, get, apply_command}

-- The type `command` of the package: `client_id` 0 has no session.
pub record Envelope : Type 0 where
  pub client_id : ℕ
  pub serial : ℕ
  pub inner : Bytes

unfoldable pub encode_envelope : Envelope → Bytes
encode_envelope c = le64 c.client_id ++ (le64 c.serial ++ c.inner)

unfoldable pub decode_envelope : Bytes → Option Envelope
decode_envelope b =
    if ltb (length b) 16
    then none
    else some (record { client_id = read64 b; serial = read64 (drop 8 b); inner = drop 16 b })

pub record StateMachine : Type 0 where
  pub store : Store
  pub sessions : Map ℕ ℕ

abbrev pub new_state_machine : StateMachine
new_state_machine = record { store = []; sessions = [] }

-- A serial of a session that has been applied.
unfoldable pub is_duplicate : Envelope → StateMachine → Bool
is_duplicate c s = not (c.client_id == 0) && leb c.serial (value c.client_id s.sessions)

unfoldable pub note_serial : Envelope → StateMachine → StateMachine
note_serial c s =
    if not (c.client_id == 0)
    then record s { sessions = insert c.client_id c.serial s.sessions }
    else s

-- The switch over the two operations has no default: another operation changes no data.
unfoldable pub change_data : Command → StateMachine → StateMachine
change_data cmd s = elim (apply_command cmd s.store) [
  | none ↦ s
  | some (existed, m) ↦ record s { store = m }
]

unfoldable pub apply_decoded : Envelope → Decoded → StateMachine → StateMachine
apply_decoded c (failed e) s = s
apply_decoded c (command cmd) s = note_serial c (change_data cmd s)

unfoldable pub apply_envelope : Envelope → StateMachine → StateMachine
apply_envelope c s = if is_duplicate c s then s else apply_decoded c (decode_command c.inner) s

-- `Apply`; the index of the entry is not used.
unfoldable pub apply : Bytes → StateMachine → StateMachine
apply b s = elim (decode_envelope b) [ none ↦ s | some c ↦ apply_envelope c s ]

unfoldable pub apply_all : List Bytes → StateMachine → StateMachine
apply_all [] s = s
apply_all (b ∷ bs) s = apply_all bs (apply b s)

unfoldable pub get_key : Bytes → StateMachine → Option Bytes
get_key key s = get key s.store

pub record IsEnvelope (c : Envelope) : Type 0 where
  pub client_id : c.client_id < 2 ^ 64
  pub serial : c.serial < 2 ^ 64

-- An envelope is read back as it was written, on the ranges of its Go types.
pub decode_envelope-encode_envelope :
    (c : Envelope) → IsEnvelope c → decode_envelope (encode_envelope c) ≡ some c
unfolding decode_envelope encode_envelope le64 read64
decode_envelope-encode_envelope c h = ground (arith, h.client_id, h.serial)
