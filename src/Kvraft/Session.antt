-- ===== src/Kvraft/Session.antt =====
-- internal/kvraft/statemachine.go, `Apply`: the serials of a session.
use raft_kv.Common.{
  ℕ, ◌≤◌, ◌≡◌, refl, ◌∙◌, ◌≢◌, true, false, Option, none, some, List, [], ◌∷◌, arith, ◌==◌,
  if◌then◌else◌, Bool-cases, inl, inr,
}
use raft_kv.Common.Bytes.{Bytes}
use raft_kv.Common.Assoc.{Map, nat_eq, insert, value, lookup-insert}
use raft_kv.Storage.Command.{Command, Decoded, command, failed, decode_command}
use raft_kv.Kvraft.StateMachine.{
  Envelope, encode_envelope, decode_envelope, decode_envelope-encode_envelope, IsEnvelope,
  StateMachine, is_duplicate, note_serial, change_data, apply_decoded, apply_envelope, apply,
  apply_all,
}

-- The highest serial that the session table holds for a client.
abbrev serial_of : ℕ → StateMachine → ℕ
serial_of id s = value id s.sessions

value-insert :
    (k j v : ℕ) (m : Map ℕ ℕ) → value j (insert k v m) ≡ (if k == j then v else value j m)
unfolding value
value-insert k j v m = ground (arith, lookup-insert k j v m)

change_data-sessions :
    (cmd : Command) (s : StateMachine) → (change_data cmd s).sessions ≡ s.sessions
unfolding change_data
change_data-sessions cmd s = ground arith

apply_decoded-serial_of :
    (id : ℕ) (c : Envelope) (d : Decoded) (s : StateMachine)
    → is_duplicate c s ≡ false
    → serial_of id s ≤ serial_of id (apply_decoded c d s)
unfolding apply_decoded note_serial is_duplicate
apply_decoded-serial_of id c (failed e) s h = omega arith
apply_decoded-serial_of id c (command cmd) s h = ground (
  arith,
  h,
  change_data-sessions cmd s,
  value-insert c.client_id id c.serial (change_data cmd s).sessions,
)

apply_envelope-serial_of :
    (id : ℕ) (c : Envelope) (s : StateMachine) → serial_of id s ≤ serial_of id (apply_envelope c s)
unfolding apply_envelope
apply_envelope-serial_of id c s = elim (Bool-cases (is_duplicate c s)) [
  | inl d ↦ rw d (omega arith)
  | inr d ↦ rw d (apply_decoded-serial_of id c (decode_command c.inner) s d)
]

apply-serial_of :
    (id : ℕ) (b : Bytes) (s : StateMachine) → serial_of id s ≤ serial_of id (apply b s)
unfolding apply
apply-serial_of id b s = go (decode_envelope b)
  where
    go :
        (r : Option Envelope)
        → serial_of id s ≤ serial_of id (elim r [ none ↦ s | some c ↦ apply_envelope c s ])
    go none = omega arith
    go (some c) = apply_envelope-serial_of id c s

apply_all-serial_of :
    (id : ℕ) (bs : List Bytes) (s : StateMachine) → serial_of id s ≤ serial_of id (apply_all bs s)
unfolding apply_all
apply_all-serial_of id [] s = omega arith
apply_all-serial_of id (b ∷ bs) s =
    omega (arith, apply-serial_of id b s, apply_all-serial_of id bs (apply b s))

pub apply-encode :
    (c : Envelope) (s : StateMachine)
    → IsEnvelope c
    → apply (encode_envelope c) s ≡ apply_envelope c s
unfolding apply
apply-encode c s h = rw (decode_envelope-encode_envelope c h, apply) refl

duplicate-serial :
    (c : Envelope) (s : StateMachine) → is_duplicate c s ≡ true → c.serial ≤ serial_of c.client_id s
unfolding is_duplicate
duplicate-serial c s b = ground (arith, b)

noted-serial :
    (c : Envelope) (cmd : Command) (s : StateMachine)
    → c.client_id ≢ 0
    → c.serial ≤ serial_of c.client_id (apply_decoded c (command cmd) s)
unfolding apply_decoded note_serial
noted-serial c cmd s n =
    ground (arith, n, value-insert c.client_id c.client_id c.serial (change_data cmd s).sessions)

-- A command of a session leaves its serial in the table, or found a higher one.
apply-serial :
    (c : Envelope) (cmd : Command) (s : StateMachine)
    → IsEnvelope c
    → c.client_id ≢ 0
    → decode_command c.inner ≡ command cmd
    → c.serial ≤ serial_of c.client_id (apply (encode_envelope c) s)
unfolding apply_envelope
apply-serial c cmd s h n d = rw (apply-encode c s h) (elim (Bool-cases (is_duplicate c s)) [
  | inl b ↦ rw b (duplicate-serial c s b)
  | inr b ↦ rw (b, d) (noted-serial c cmd s n)
])

again :
    (d : Envelope) (t : StateMachine)
    → IsEnvelope d
    → d.client_id ≢ 0
    → d.serial ≤ serial_of d.client_id t
    → apply (encode_envelope d) t ≡ t
unfolding apply_envelope is_duplicate
again d t k n a = apply-encode d t k ∙ ground (arith, n)

-- Once a command of a session that decodes has been applied, no envelope of that session with the
-- same or a lower serial changes anything again, whatever was applied in between; client ids and
-- serials are in the range of their types.
pub apply_once :
    (c d : Envelope) (cmd : Command) (bs : List Bytes) (s : StateMachine)
    → IsEnvelope c
    → IsEnvelope d
    → c.client_id ≢ 0
    → decode_command c.inner ≡ command cmd
    → d.client_id ≡ c.client_id
    → d.serial ≤ c.serial
    → apply (encode_envelope d) (apply_all bs (apply (encode_envelope c) s))
      ≡ apply_all bs (apply (encode_envelope c) s)
apply_once c d cmd bs s h k n e same l =
    let first : StateMachine = apply (encode_envelope c) s in
    again d (apply_all bs first) k (rw same n) (
      rw same
        (omega (arith, l, apply-serial c cmd s h n e, apply_all-serial_of c.client_id bs first)))
