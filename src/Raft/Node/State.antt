-- ===== src/Raft/Node/State.antt =====
-- internal/raft/node.go: the state of a node and what it calls. A channel is the number of the
-- client that waits on it, and `answers` holds what was sent on channels, in order.
use raft_kv.Common.{ℕ, Bool, true, false, Option, List}
use raft_kv.Common.Bytes.{Bytes}
use raft_kv.Common.Assoc.{Map}
use raft_kv.Raft.Result.{Error}
use raft_kv.Raft.Core.{Core, Role, Message}
use raft_kv.Raft.Node.{Reply}

-- `none` is an error.
pub record StateMachine (S : Type 0) : Type 0 where
  pub apply : ℕ → Bytes → S → S
  pub snapshot : S → Option Bytes
  pub restore : Bytes → S → Option S

pub record Waiter : Type 0 where
  pub term : ℕ
  pub done : ℕ

pub record AppliedWaiter : Type 0 where
  pub index : ℕ
  pub c : ℕ

-- What is sent on a channel: an answer on `respc`, an error there, `nil` or `ErrProposalLost` on
-- `done`, and the two kinds of `readReply`.
pub data Answer : Type 0 where
  replied : ℕ → Reply → Answer
  failed : ℕ → Error → Answer
  applied : ℕ → Answer
  lost : ℕ → Answer
  read_ready : ℕ → ℕ → Answer
  read_lost : ℕ → Answer

pub record Status : Type 0 where
  pub id : ℕ
  pub group : ℕ
  pub term : ℕ
  pub leader_id : ℕ
  pub is_leader : Bool
  pub role : Role
  pub commit_index : ℕ
  pub last_applied : ℕ
  pub last_log_index : ℕ
  pub members : Map ℕ Bytes

-- A message as the transport gets it.
pub record Sent : Type 0 where
  pub group : ℕ
  pub to : ℕ
  pub message : Message

-- `stopping`: the channel `stopc` is closed. `halted`: the loop has returned as well.
pub data Condition : Type 0 where
  running stopping halted crashed : Condition

-- Whether the loop may take an event. When it is told to stop, `select` picks either of the stop
-- and an event that waits.
unfoldable pub is_looping : Condition → Bool
is_looping running = true
is_looping stopping = true
is_looping halted = false
is_looping crashed = false

-- `transport_peers` is nil where the transport does not track peers, and else the addresses that it
-- was given.
pub record Node (S : Type 0) : Type 0 where
  pub group : ℕ
  pub core : Core
  pub machine : S
  pub compact_at : ℕ
  pub status : Option Status
  pub waiters : Map ℕ Waiter
  pub synced_config_version : ℕ
  pub transport_peers : Option (Map ℕ Bytes)
  pub applied : ℕ
  pub read_waiters : Map ℕ ℕ
  pub applied_waiters : List AppliedWaiter
  pub condition : Condition
  pub answers : List Answer
  pub sent : List Sent
