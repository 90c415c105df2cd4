-- ===== src/Kvraft/Replicated.antt =====
-- internal/kvraft/service.go and statemachine.go over internal/raft/node.go: what a request comes to
-- once its command is committed.
use raft_kv.Common.{
  ℕ, ◌^◌, ◌<◌, ◌≡◌, ◌≢◌, refl, sym, ap, ◌∙◌, inl, not, ◌&&◌, Option, none, some, List, [], ◌∷◌,
  ◌++◌, arith, leb, ◌==◌, if◌then◌else◌, length,
}
use raft_kv.Common.Bytes.{Bytes, bytes_eq}
use raft_kv.Common.Assoc.{nat_eq, bytes_key, value, lookup-insert}
use raft_kv.Storage.Command.{
  Command, IsCommand, op_put, encode_command, decode_command, decode_command-encode_command,
}
use raft_kv.Storage.MemStore.{get, apply_command}
use raft_kv.Storage.MemStore as MemStore
use raft_kv.Raft.Entry.{Entry, entry_normal}
use raft_kv.Raft.Order.Shape.{Follows}
use raft_kv.Raft.Node.State.{Node}
use raft_kv.Raft.Node.State as Raft
use raft_kv.Raft.Node.Loop.{after_step}
use raft_kv.Raft.Node.Apply.{run_commands}
use raft_kv.Raft.Node.Reads.{ReadsShape}
use raft_kv.Raft.Node.Restoring.{base_machine, after_step_lem}
use raft_kv.Kvraft.StateMachine.{
  StateMachine, Envelope, IsEnvelope, is_duplicate, note_serial, change_data, apply_decoded,
  apply_envelope, apply, apply_all, get_key,
}
use raft_kv.Kvraft.Session.{apply_once, apply-encode}
use raft_kv.Kvraft.Snapshot.{SnapshotImage, snapshot, restore}
use raft_kv.Kvraft.Service.{PutRequest, put_command}

abbrev put_of : PutRequest → Command
put_of req = record { op = op_put; key = req.key; value = req.value }

abbrev envelope_of : PutRequest → Envelope
envelope_of req = record {
  client_id = req.client_id;
  serial = req.serial;
  inner = encode_command (put_of req);
}

-- The numbers and the sizes that the wire formats hold.
pub record IsPutRequest (req : PutRequest) : Type 0 where
  pub client_id : req.client_id < 2 ^ 64
  pub serial : req.serial < 2 ^ 64
  pub key : length req.key < 2 ^ 32
  pub value : length req.value < 2 ^ 32

put_of-IsCommand : (req : PutRequest) → IsPutRequest req → IsCommand (put_of req)
put_of-IsCommand req h = record { op = inl refl; key = h.key; value = h.value }

envelope_of-IsEnvelope : (req : PutRequest) → IsPutRequest req → IsEnvelope (envelope_of req)
envelope_of-IsEnvelope req h = record { client_id = h.client_id; serial = h.serial }

put_lem :
    (req : PutRequest) (s : StateMachine) (j : Bytes)
    → get_key j (note_serial (envelope_of req) (change_data (put_of req) s))
      ≡ (if bytes_eq req.key j then some req.value else get_key j s)
unfolding get_key get note_serial change_data apply_command MemStore.put
put_lem req s j = ground (arith, lookup-insert req.key j req.value s.store)

fresh_lem :
    (req : PutRequest) (s : StateMachine)
    → IsPutRequest req
    → apply_decoded (envelope_of req) (decode_command (encode_command (put_of req))) s
      ≡ note_serial (envelope_of req) (change_data (put_of req) s)
unfolding apply_decoded
fresh_lem req s h = rw (decode_command-encode_command (put_of req) (put_of-IsCommand req h)) refl

-- Applying the command of a put: a serial that the session has seen changes nothing, and else the
-- key has the value and all other keys have what they had.
pub apply-put_command :
    (req : PutRequest) (s : StateMachine) (j : Bytes)
    → IsPutRequest req
    → get_key j (apply (put_command req) s) ≡ (
        if not (req.client_id == 0) && leb req.serial (value req.client_id s.sessions)
        then get_key j s
        else if bytes_eq req.key j
        then some req.value
        else get_key j s)
unfolding put_command apply_envelope is_duplicate
apply-put_command req s j h =
    ap (get_key j) (apply-encode (envelope_of req) s (envelope_of-IsEnvelope req h))
    ∙ ground (arith, ap (get_key j) (fresh_lem req s h), put_lem req s j)

module _ (encode : SnapshotImage → Option Bytes) (decode : Bytes → Option SnapshotImage) where
  -- The state machine that `New` gives the node.
  abbrev pub kv_machine : Raft.StateMachine StateMachine
  kv_machine = record {
    apply = λ index b s. apply b s;
    snapshot = snapshot encode decode;
    restore = restore encode decode;
  }

  -- The commands of the normal entries.
  unfoldable pub commands : List Entry → List Bytes
  commands [] = []
  commands (e ∷ es) = if e.type == entry_normal then e.command ∷ commands es else commands es

  run_commands-apply_all :
      (es : List Entry) (s : StateMachine)
      → run_commands kv_machine es s ≡ apply_all (commands es) s
  unfolding run_commands commands apply_all
  run_commands-apply_all [] s = refl
  run_commands-apply_all (e ∷ es) s =
      ground (arith, run_commands-apply_all es s, run_commands-apply_all es (apply e.command s))

  commands-append : (es fs : List Entry) → commands (es ++ fs) ≡ commands es ++ commands fs
  unfolding commands
  commands-append [] fs = refl
  commands-append (e ∷ es) fs = ground (arith, commands-append es fs)

  apply_all-append :
      (bs cs : List Bytes) (s : StateMachine)
      → apply_all (bs ++ cs) s ≡ apply_all cs (apply_all bs s)
  unfolding apply_all
  apply_all-append [] cs s = refl
  apply_all-append (b ∷ bs) cs s = apply_all-append bs cs (apply b s)

  run-append :
      (es fs : List Entry) (s : StateMachine)
      → run_commands kv_machine (es ++ fs) s
        ≡ run_commands kv_machine fs (run_commands kv_machine es s)
  run-append es fs s =
      run_commands-apply_all (es ++ fs) s
      ∙ ap (λ t. apply_all t s) (commands-append es fs)
      ∙ apply_all-append (commands es) (commands fs) s
      ∙ sym (run_commands-apply_all fs (apply_all (commands es) s))
      ∙ ap (run_commands kv_machine fs) (sym (run_commands-apply_all es s))

  run_one :
      (e : Entry) (es : List Entry) (c : Bytes) (s : StateMachine)
      → e.type ≡ entry_normal
      → e.command ≡ c
      → run_commands kv_machine (e ∷ es) s ≡ run_commands kv_machine es (apply c s)
  unfolding run_commands
  run_one e es c s t h = rw t (ap (λ b. run_commands kv_machine es (apply b s)) h)

  -- A put of a session that is committed twice in one batch, the second time at its end.
  ends_twice :
      (req : PutRequest) (e d : Entry) (es fs : List Entry) (s : StateMachine)
      → IsPutRequest req
      → req.client_id ≢ 0
      → e.type ≡ entry_normal
      → d.type ≡ entry_normal
      → e.command ≡ put_command req
      → d.command ≡ put_command req
      → run_commands kv_machine (es ++ (e ∷ (fs ++ (d ∷ [])))) s
        ≡ run_commands kv_machine (es ++ (e ∷ fs)) s
  unfolding run_commands put_command
  ends_twice req e d es fs s h n et dt ec dc =
      let m : StateMachine = run_commands kv_machine es s in
      let c : Bytes = put_command req in
      let once =
        apply_once (envelope_of req) (envelope_of req) (put_of req) (commands fs) m
          (envelope_of-IsEnvelope req h) (envelope_of-IsEnvelope req h) n
          (decode_command-encode_command (put_of req) (put_of-IsCommand req h)) refl
          (omega arith) in
      run-append es (e ∷ (fs ++ (d ∷ []))) s
      ∙ run_one e (fs ++ (d ∷ [])) c m et ec
      ∙ run-append fs (d ∷ []) (apply c m)
      ∙ run_one d [] c (run_commands kv_machine fs (apply c m)) dt dc
      ∙ ap (apply c) (run_commands-apply_all fs (apply c m))
      ∙ once
      ∙ sym (run_commands-apply_all fs (apply c m))
      ∙ sym (run_one e fs c m et ec)
      ∙ sym (run-append es (e ∷ fs) s)

  twice :
      (req : PutRequest) (e d : Entry) (es fs gs : List Entry) (s : StateMachine)
      → IsPutRequest req
      → req.client_id ≢ 0
      → e.type ≡ entry_normal
      → d.type ≡ entry_normal
      → e.command ≡ put_command req
      → d.command ≡ put_command req
      → run_commands kv_machine ((es ++ (e ∷ (fs ++ (d ∷ [])))) ++ gs) s
        ≡ run_commands kv_machine ((es ++ (e ∷ fs)) ++ gs) s
  twice req e d es fs gs s h n et dt ec dc =
      run-append (es ++ (e ∷ (fs ++ (d ∷ [])))) gs s
      ∙ ap (run_commands kv_machine gs) (ends_twice req e d es fs s h n et dt ec dc)
      ∙ sym (run-append (es ++ (e ∷ fs)) gs s)

  -- A node runs the key-value state machine, and a round finds committed entries with consecutive
  -- indices among which a put of a session stands twice, as after a retry. The state machine comes
  -- out as if the second entry had not been there.
  pub after_step-once :
      (p : ℕ) (req : PutRequest) (e d : Entry) (es fs gs : List Entry) (n : Node StateMachine)
      → IsPutRequest req
      → req.client_id ≢ 0
      → e.type ≡ entry_normal
      → d.type ≡ entry_normal
      → e.command ≡ put_command req
      → d.command ≡ put_command req
      → n.core.committed ≡ (es ++ (e ∷ (fs ++ (d ∷ [])))) ++ gs
      → Follows p n.core.committed
      → ReadsShape n
      → n.core.pending_restore ≡ none
      → (after_step kv_machine n).machine
        ≡ run_commands kv_machine ((es ++ (e ∷ fs)) ++ gs) n.machine
  unfolding base_machine
  after_step-once p req e d es fs gs n h c et dt ec dc batch f r idle =
      (after_step_lem kv_machine p n.machine n f r (rw idle refl)).machine
      ∙ ap (λ t. run_commands kv_machine t n.machine) batch
      ∙ twice req e d es fs gs n.machine h c et dt ec dc
