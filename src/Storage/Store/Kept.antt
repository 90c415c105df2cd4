-- ===== src/Storage/Store/Kept.antt =====
-- internal/storage/store.go: the calls of a client and the commands on the disk.
use raft_kv.Common.{
  ◌+◌, ◌^◌, ◌<◌, ◌≤◌, ◌≡◌, ◌≢◌, refl, sym, ap, ◌∙◌, ◌⊎◌, inl, inr, false, Option, none, some, List,
  [], ◌∷◌, ◌++◌, arith, length, length-append, Bool-cases,
}
use mathlib.Core.Path.{subst}
use raft_kv.Common.Bytes.{Bytes, bytes_eq, bytes_eq_iff}
use raft_kv.Common.Assoc.{bytes_key, lookup, has}
use raft_kv.Storage.Command.{Command}
use raft_kv.Storage.MemStore.{get}
use raft_kv.Storage.Wal.{Fault}
use raft_kv.Storage.Store.{
  DurableStore, SnapshotFaults, dir_unsynced, StoreError, log_and_apply, put_key, delete_key,
  delete_result, get_key,
}
use raft_kv.Storage.Store.View.{View, nothing_stored, effects, run_all-view}
use raft_kv.Storage.Store.Durable.{IsDurable}
use raft_kv.Storage.Store.Writes.{WriteResult, pend_after, log_and_apply-IsDurable}
use raft_kv.Storage.Store.Calls.{
  put_op, delete_op, Op, IsOp, perform, view_after, view_of, first_failed, command_of, pending,
  command_of-IsLogged, effect-view_after, view_of-snoc, effects-snoc,
}

-- The calls and the commands that stand for them.
pub record Kept (s : DurableStore) (os : List Op) (p : Option Op) : Type 0 where
  pub commands : List Command
  pub durable : IsDurable commands (pending p) s
  pub few : length commands ≤ length os
  pub same : (j : Bytes) → effects commands nothing_stored j ≡ view_of os nothing_stored j

pub Kept-view :
    (s : DurableStore) (os : List Op) (p : Option Op)
    → Kept s os p
    → (j : Bytes) → get_key j s ≡ view_of os nothing_stored j
unfolding get_key get
Kept-view s os p k j =
    let (covered, h) = k.durable in
    ap (lookup j) h.mem
    ∙ run_all-view k.commands [] nothing_stored h.logged (λ i. (unfold lookup in refl)) j
    ∙ k.same j

pend_after-pending :
    (o : Op) (p : Option Op) → pend_after (command_of o) (pending p) ≡ pending (first_failed o p)
unfolding pend_after pending first_failed
pend_after-pending o none = refl
pend_after-pending o (some q) = refl

pub view_after-same :
    (o : Op) (f g : View)
    → ((j : Bytes) → f j ≡ g j)
    → (j : Bytes) → view_after o f j ≡ view_after o g j
unfolding view_after
view_after-same (put_op k v) f g h j = ground (arith, h j)
view_after-same (delete_op k) f g h j = ground (arith, h j)

-- A call that writes its command.
writes_acknowledged :
    (o : Op) (s t : DurableStore) (os : List Op) (p : Option Op) (k : Kept s os p)
    (r : Option StoreError × DurableStore)
    → WriteResult (command_of o) k.commands (pending p) r
    → r ≡ (none, t)
    → Kept t (os ++ (o ∷ [])) p
writes_acknowledged o s t os p k r w e =
    let (up, durable) = subst (WriteResult (command_of o) k.commands (pending p)) e w in
    record {
      commands = k.commands ++ (command_of o ∷ []);
      durable = rw up durable;
      few =
          omega
            (arith, k.few, length-append k.commands (command_of o ∷ []), length-append os (o ∷ []));
      same = λ j.
          effects-snoc k.commands (command_of o) nothing_stored j
          ∙ effect-view_after o (effects k.commands nothing_stored) j
          ∙ view_after-same o (effects k.commands nothing_stored) (view_of os nothing_stored) k.same
              j
          ∙ sym (view_of-snoc os o nothing_stored j);
    }

writes_refused :
    (o : Op) (s t : DurableStore) (os : List Op) (p : Option Op) (x : StoreError) (k : Kept s os p)
    (r : Option StoreError × DurableStore)
    → WriteResult (command_of o) k.commands (pending p) r
    → r ≡ (some x, t)
    → Kept t os (first_failed o p)
writes_refused o s t os p x k r w e =
    let durable = subst (WriteResult (command_of o) k.commands (pending p)) e w in
    record {
      commands = k.commands;
      durable = rw (← pend_after-pending o p) durable;
      few = k.few;
      same = k.same;
    }

not_found : (key : Bytes) (s : DurableStore) → has key s.mem ≡ false → get_key key s ≡ none
unfolding get_key get has
not_found key s e = ground (arith, e)

forgets :
    (key : Bytes) (f : View) → f key ≡ none → (j : Bytes) → view_after (delete_op key) f j ≡ f j
unfolding view_after
forgets key f e j = elim (Bool-cases (bytes_eq key j)) [
  | inl b ↦ rw b (sym (ap f (sym ((bytes_eq_iff key j).0 b)) ∙ e))
  | inr b ↦ rw b refl
]

-- Deleting an absent key writes nothing, and changes nothing in the view.
absent_acknowledged :
    (key : Bytes) (s : DurableStore) (os : List Op) (p : Option Op)
    → has key s.mem ≡ false
    → Kept s os p
    → Kept s (os ++ (delete_op key ∷ [])) p
absent_acknowledged key s os p none_there k = record {
  commands = k.commands;
  durable = k.durable;
  few = omega (arith, k.few, length-append os (delete_op key ∷ []));
  same = λ j.
      k.same j
      ∙ sym (
          forgets key (view_of os nothing_stored)
            (sym (Kept-view s os p k key) ∙ not_found key s none_there) j)
      ∙ sym (view_of-snoc os (delete_op key) nothing_stored j);
}

delete_result-same :
    (r : Option StoreError × DurableStore) → (let (e, existed, t) = delete_result r in (e, t)) ≡ r
delete_result-same (none, t) = refl
delete_result-same (some e, t) = refl

abbrev Absent : Op → DurableStore → Option StoreError × DurableStore → Type 0
Absent o s r = (key : Bytes) × (o ≡ delete_op key) × (has key s.mem ≡ false) × (r ≡ (none, s))

perform-cases :
    (fault : Option Fault) (f : SnapshotFaults) (o : Op) (s : DurableStore)
    → (perform fault f o s ≡ log_and_apply fault f (command_of o) s)
      ⊎ Absent o s (perform fault f o s)
unfolding perform put_key delete_key command_of
perform-cases fault f (put_op k v) s = inl refl
perform-cases fault f (delete_op k) s = elim (Bool-cases (has k s.mem)) [
  | inl b ↦ inl (rw b (delete_result-same _))
  | inr b ↦ inr (k, refl, b, rw b refl)
]

pub Kept-acknowledged :
    (o : Op) (fault : Option Fault) (f : SnapshotFaults) (s t : DurableStore) (os : List Op)
    (p : Option Op)
    → IsOp o
    → f.create ≢ some dir_unsynced
    → length os + 3 < 2 ^ 64
    → perform fault f o s ≡ (none, t)
    → Kept s os p
    → Kept t (os ++ (o ∷ [])) p
Kept-acknowledged o fault f s t os p h d b e k = elim (perform-cases fault f o s) [
  | inl q ↦
      writes_acknowledged o s t os p k _
        (log_and_apply-IsDurable fault f (command_of o) k.commands (pending p) s d
          (command_of-IsLogged o h) (omega (arith, b, k.few)) k.durable)
        (sym q ∙ e)
  | inr (key, q, gone, r) ↦
      let same : s ≡ t = ap (λ (x : Option StoreError × DurableStore). x.1) (sym r ∙ e) in
      subst (λ (x : DurableStore). Kept x (os ++ (o ∷ [])) p) same
        (rw q (absent_acknowledged key s os p gone k))
]

pub Kept-refused :
    (o : Op) (fault : Option Fault) (f : SnapshotFaults) (x : StoreError) (s t : DurableStore)
    (os : List Op) (p : Option Op)
    → IsOp o
    → f.create ≢ some dir_unsynced
    → length os + 3 < 2 ^ 64
    → perform fault f o s ≡ (some x, t)
    → Kept s os p
    → Kept t os (first_failed o p)
Kept-refused o fault f x s t os p h d b e k = elim (perform-cases fault f o s) [
  | inl q ↦
      writes_refused o s t os p x k _
        (log_and_apply-IsDurable fault f (command_of o) k.commands (pending p) s d
          (command_of-IsLogged o h) (omega (arith, b, k.few)) k.durable)
        (sym q ∙ e)
  | inr (key, q, gone, r) ↦
      absurd (ground (arith, ap (λ (x : Option StoreError × DurableStore). x.0) (sym r ∙ e)))
]
