-- ===== src/Kvraft/Snapshot/RoundTrip.antt =====
-- A restored state machine cannot be told from the one that was captured.
use raft_kv.Common.{
  ℕ, ◌<◌, ◌≡◌, refl, ◌∙◌, true, Option, none, some, List, [], ◌∷◌, arith, ltb, length,
}
use raft_kv.Common.Bytes.{Bytes}
use raft_kv.Common.Assoc.{
  Map, Eq, nat_eq, bytes_key, lookup, insert, value, insert_all, lookup-insert, lookup-erase,
  lookup-insert_all, IsMap, insert-IsMap, erase-IsMap,
}
use raft_kv.Storage.Command.{Command, Decoded, command, failed, decode_command}
use raft_kv.Storage.MemStore.{Store, put, delete, range, apply_command}
use raft_kv.Kvraft.StateMachine.{
  Envelope, decode_envelope, StateMachine, new_state_machine, is_duplicate, note_serial,
  change_data, apply_decoded, apply_envelope, apply, apply_all,
}
use raft_kv.Kvraft.Snapshot.{
  SnapshotImage, collect, put_all, snapshot_image, restore_image, snapshot, restore,
}

-- The two answer every read alike and know the same serials.
pub record SameState (s t : StateMachine) : Type 0 where
  pub store : (key : Bytes) → lookup key t.store ≡ lookup key s.store
  pub sessions : (id : ℕ) → value id t.sessions ≡ value id s.sessions

pub record IsState (s : StateMachine) : Type 0 where
  pub store : IsMap s.store
  pub sessions : IsMap s.sessions

note_serial-SameState :
    (c : Envelope) (s t : StateMachine)
    → SameState s t
    → SameState (note_serial c s) (note_serial c t)
unfolding note_serial value
note_serial-SameState c s t h = record {
  store = λ key. ground (arith, h.store key);
  sessions = λ id. ground (
    arith,
    h.sessions id,
    lookup-insert c.client_id id c.serial s.sessions,
    lookup-insert c.client_id id c.serial t.sessions,
  );
}

change_data-SameState :
    (cmd : Command) (s t : StateMachine)
    → SameState s t
    → SameState (change_data cmd s) (change_data cmd t)
unfolding change_data apply_command put delete
change_data-SameState cmd s t h = record {
  store = λ key. ground (
    arith,
    h.store key,
    lookup-insert cmd.key key cmd.value s.store,
    lookup-insert cmd.key key cmd.value t.store,
    lookup-erase cmd.key key s.store,
    lookup-erase cmd.key key t.store,
  );
  sessions = λ id. ground (arith, h.sessions id);
}

apply_decoded-SameState :
    (c : Envelope) (d : Decoded) (s t : StateMachine)
    → SameState s t
    → SameState (apply_decoded c d s) (apply_decoded c d t)
unfolding apply_decoded
apply_decoded-SameState c (failed e) s t h = h
apply_decoded-SameState c (command cmd) s t h =
    note_serial-SameState c (change_data cmd s) (change_data cmd t)
      (change_data-SameState cmd s t h)

apply_envelope-SameState :
    (c : Envelope) (s t : StateMachine)
    → SameState s t
    → SameState (apply_envelope c s) (apply_envelope c t)
unfolding apply_envelope is_duplicate
apply_envelope-SameState c s t h =
    ground
      (arith, h.sessions c.client_id, h, apply_decoded-SameState c (decode_command c.inner) s t h)

apply-SameState :
    (b : Bytes) (s t : StateMachine) → SameState s t → SameState (apply b s) (apply b t)
unfolding apply
apply-SameState b s t h = go (decode_envelope b)
  where
    go :
        (r : Option Envelope)
        → SameState
            (elim r [ none ↦ s | some c ↦ apply_envelope c s ])
            (elim r [ none ↦ t | some c ↦ apply_envelope c t ])
    go none = h
    go (some c) = apply_envelope-SameState c s t h

pub apply_all-SameState :
    (bs : List Bytes) (s t : StateMachine)
    → SameState s t
    → SameState (apply_all bs s) (apply_all bs t)
unfolding apply_all
apply_all-SameState [] s t h = h
apply_all-SameState (b ∷ bs) s t h =
    apply_all-SameState bs (apply b s) (apply b t) (apply-SameState b s t h)

apply_decoded-IsState :
    (c : Envelope) (d : Decoded) (s : StateMachine) → IsState s → IsState (apply_decoded c d s)
unfolding apply_decoded note_serial change_data apply_command put delete
apply_decoded-IsState c (failed e) s h = h
apply_decoded-IsState c (command cmd) s h = record {
  store = ground (
    arith,
    h.store,
    insert-IsMap cmd.key cmd.value s.store h.store,
    erase-IsMap cmd.key s.store h.store,
  );
  sessions = ground (arith, h.sessions, insert-IsMap c.client_id c.serial s.sessions h.sessions);
}

apply-IsState : (b : Bytes) (s : StateMachine) → IsState s → IsState (apply b s)
unfolding apply apply_envelope
apply-IsState b s h = go (decode_envelope b)
  where
    go : (r : Option Envelope) → IsState (elim r [ none ↦ s | some c ↦ apply_envelope c s ])
    go none = h
    go (some c) = ground (arith, h, apply_decoded-IsState c (decode_command c.inner) s h)

apply_all-IsState : (bs : List Bytes) (s : StateMachine) → IsState s → IsState (apply_all bs s)
unfolding apply_all
apply_all-IsState [] s h = h
apply_all-IsState (b ∷ bs) s h = apply_all-IsState bs (apply b s) (apply-IsState b s h)

range-insert_all : (m acc : Store) → range collect m acc ≡ insert_all m acc
unfolding range collect insert_all
range-insert_all [] acc = refl
range-insert_all ((k, v) ∷ m) acc = range-insert_all m (insert k v acc)

put_all-insert_all : (m acc : Store) → put_all m acc ≡ insert_all m acc
unfolding put_all put insert_all
put_all-insert_all [] acc = refl
put_all-insert_all ((k, v) ∷ m) acc = put_all-insert_all m (insert k v acc)

module _ {ℓ κ} {K : Type ℓ} {V : Type κ} ⦃e : Eq K⦄ where
  insert_all-IsMap : (m acc : Map K V) → IsMap acc → IsMap (insert_all m acc)
  unfolding insert_all
  insert_all-IsMap [] acc h = h
  insert_all-IsMap ((k, v) ∷ m) acc h = insert_all-IsMap m (insert k v acc) (insert-IsMap k v acc h)

  copied : (j : K) (m : Map K V) → IsMap m → lookup j (insert_all m []) ≡ lookup j m
  unfolding lookup
  copied j m h = lookup-insert_all j m [] h ∙ same (lookup j m)
    where
      same : (r : Option V) → elim r [ none ↦ lookup j [] | some v ↦ some v ] ≡ r
      same none = refl
      same (some v) = refl

image-SameState : (s : StateMachine) → IsState s → SameState s (restore_image (snapshot_image s))
unfolding snapshot_image restore_image value
image-SameState s h = record {
  store = λ key.
      rw (range-insert_all s.store [], put_all-insert_all (insert_all s.store []) [])
        (copied key (insert_all s.store []) (insert_all-IsMap s.store [] tt)
          ∙ copied key s.store h.store);
  sessions = λ id. rw (copied id s.sessions h.sessions, value) refl;
}

-- Where what gob encodes is not empty and is decoded again, a snapshot of a state that was reached
-- by applying commands restores, on any node, to a state that answers every read alike and knows
-- the same serials, also after any further commands.
pub restore-snapshot :
    (encode : SnapshotImage → Option Bytes) (decode : Bytes → Option SnapshotImage)
    (gob : (i : SnapshotImage) (b : Bytes)
      → encode i ≡ some b
      → (decode b ≡ some i) × (0 < length b))
    (bs cs : List Bytes) (old : StateMachine) (b : Bytes)
    → snapshot encode decode (apply_all bs new_state_machine) ≡ some b
    → (t : StateMachine) × (restore encode decode b old ≡ some t)
      × SameState (apply_all cs (apply_all bs new_state_machine)) (apply_all cs t)
unfolding snapshot restore
restore-snapshot encode decode gob bs cs old b h =
    let s : StateMachine = apply_all bs new_state_machine in
    let (back, size) = gob (snapshot_image s) b h in
    let some_bytes : ltb 0 (length b) ≡ true = ground (arith, size) in
    let fine : IsState s =
      apply_all-IsState bs new_state_machine (record { store = tt; sessions = tt }) in
    (
      restore_image (snapshot_image s),
      rw (some_bytes, back) refl,
      apply_all-SameState cs s (restore_image (snapshot_image s)) (image-SameState s fine),
    )
