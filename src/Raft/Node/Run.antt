-- ===== src/Raft/Node/Run.antt =====
-- internal/raft/node.go: the start of a node, the channels of `dispatch`, and the loop.
use raft_kv.Common.{
  ℕ, Bool, true, false, ◌≡◌, Option, none, some, List, [], ◌∷◌, ◌++◌, ◌==◌, if◌then◌else◌,
}
use raft_kv.Common.Bytes.{Bytes}
use raft_kv.Common.Assoc.{Map, nat_eq, insert}
use raft_kv.Raft.Result.{Error, Result, ok, err, panic}
use raft_kv.Raft.Disk.{Disk}
use raft_kv.Raft.Core.{Core, Config}
use raft_kv.Raft.Boot.{new_core, take_restore}
use raft_kv.Raft.Node.{
  Event, ev_tick, ev_request_vote, ev_append_entries, ev_install_snapshot, ev_timeout_now,
  ev_vote_resp, ev_append_resp, ev_snapshot_resp, ev_conf_change, ev_transfer, ev_read, ev_propose,
  Reply, nothing, vote, appended, installed, proposed, reading, rejected, dispatch,
}
use raft_kv.Raft.Node.State.{
  StateMachine, Node, Answer, replied, failed, running, halted, crashed, is_looping,
}
use raft_kv.Raft.Node.Loop.{sync_transport_config, publish_status, after_step}

-- The events whose sender waits on `respc`.
unfoldable pub has_sender : Event → Bool
has_sender ev_tick = false
has_sender (ev_request_vote _) = true
has_sender (ev_append_entries _) = true
has_sender (ev_install_snapshot _) = true
has_sender (ev_timeout_now _) = true
has_sender (ev_vote_resp _ _ _ _) = false
has_sender (ev_append_resp _ _ _) = false
has_sender (ev_snapshot_resp _ _ _) = false
has_sender (ev_conf_change _) = true
has_sender (ev_transfer _) = true
has_sender ev_read = true
has_sender (ev_propose _ _) = true

module _ {S : Type 0} where
  unfoldable pub tell : Bool → Answer → Node S → Node S
  tell b a n = if b then record n { answers = n.answers ++ (a ∷ []) } else n

  -- What `dispatch` does with the core's answer to the event of client `c`. A read that is taken is
  -- answered later.
  unfoldable pub answer_event : Event → ℕ → Reply → Node S → Node S
  answer_event ev c nothing n = tell (has_sender ev) (replied c nothing) n
  answer_event ev c (vote resp) n = tell (has_sender ev) (replied c (vote resp)) n
  answer_event ev c (appended resp) n = tell (has_sender ev) (replied c (appended resp)) n
  answer_event ev c (installed resp) n = tell (has_sender ev) (replied c (installed resp)) n
  answer_event ev c (proposed index term) n =
      tell (has_sender ev) (replied c (proposed index term))
        (record n { waiters = insert index (record { term = term; done = c }) n.waiters })
  answer_event ev c (reading id) n = record n { read_waiters = insert id c n.read_waiters }
  answer_event ev c (rejected e) n = tell (has_sender ev) (replied c (rejected e)) n

  unfoldable pub stop_with : Event → ℕ → Error → Node S → Node S
  stop_with ev c e n = tell (has_sender ev) (failed c e) (record n { condition = halted })

module _ {S : Type 0} (sm : StateMachine S) where
  -- What follows the call of the core.
  unfoldable pub finish_event : Event → ℕ → Result Reply → Node S → Node S
  finish_event ev c (ok r) n = after_step sm (answer_event ev c r n)
  finish_event ev c (err e) n = stop_with ev c e n
  finish_event ev c panic n = record n { condition = crashed }

  -- One round of `run` with the event of client `c`.
  unfoldable pub step : Event → ℕ → Node S → Node S
  step ev c n = let (r, core) = dispatch ev n.core in finish_event ev c r (record n { core = core })

  abbrev fresh_node : ℕ → ℕ → Option (Map ℕ Bytes) → S → Core → Node S
  fresh_node group threshold peers m core = record {
    group = group;
    core = core;
    machine = m;
    compact_at = if threshold == 0 then 4096 else threshold;
    status = none;
    waiters = [];
    synced_config_version = 0;
    transport_peers = peers;
    applied = core.snap_index;
    read_waiters = [];
    applied_waiters = [];
    condition = running;
    answers = [];
    sent = [];
  }

  unfoldable pub start_with : Option S → Node S → Option (Node S)
  start_with none n = none
  start_with (some m) n = some (publish_status (sync_transport_config (record n { machine = m })))

  unfoldable pub start_restored : Option Bytes → Node S → Option (Node S)
  start_restored none n = start_with (some n.machine) n
  start_restored (some image) n = start_with (sm.restore image n.machine) n

  unfoldable pub start : Node S → Option (Node S)
  start n =
      let (image, core) = take_restore n.core in start_restored image (record n { core = core })

  -- `none` is a restore that failed. The transport and the state machine are given, and the random
  -- numbers come from the seed.
  unfoldable pub new_node :
      ℕ → ℕ → Option (Map ℕ Bytes) → S → Config → List ℕ → Disk → Result (Option (Node S))
  new_node group threshold peers m cfg rng disk = elim (new_core cfg rng disk) [
    | ok core ↦ ok (start (fresh_node group threshold peers m core))
    | err e ↦ err e
    | panic ↦ panic
  ]

  -- The states between two rounds of the loop.
  pub data Reach (first : Node S) : Node S → Type 0 where
    here : Reach first first
    next :
        {n : Node S} (ev : Event) (c : ℕ)
        → is_looping n.condition ≡ true
        → Reach first n
        → Reach first (step ev c n)
