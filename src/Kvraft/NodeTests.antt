-- ===== src/Kvraft/NodeTests.antt =====
-- internal/kvraft: a put that is committed twice on a node.
use raft_kv.Common.{
  ℕ, ◌≡◌, ◌≢◌, refl, not, ◌&&◌, Option, none, some, [], ◌∷◌, arith, leb, ◌==◌, if◌then◌else◌,
}
use raft_kv.Common.Bytes.{Bytes, bytes_eq}
use raft_kv.Common.Assoc.{nat_eq, value}
use raft_kv.Raft.Core.{Core}
use raft_kv.Raft.Entry.{Entry, entry_normal}
use raft_kv.Raft.Node.State.{Node, running}
use raft_kv.Raft.Node.Loop.{after_step}
use raft_kv.Raft.Node.Apply.{run_commands}
use raft_kv.Raft.Sample.{node}
use raft_kv.Kvraft.StateMachine.{StateMachine, new_state_machine, apply, get_key}
use raft_kv.Kvraft.Snapshot.{SnapshotImage}
use raft_kv.Kvraft.Service.{PutRequest, put_command}
use raft_kv.Kvraft.Replicated.{IsPutRequest, kv_machine, apply-put_command, after_step-once}
use raft_kv.Kvraft.Service.{pin_shard_count, missing, check_shards}
use raft_kv.Kvraft.Starts.{starts, starts-same_count}

abbrev req : PutRequest
req = record { key = 107 ∷ []; value = 118 ∷ []; client_id = 5; serial = 3 }

req-IsPutRequest : IsPutRequest req
req-IsPutRequest = record {
  client_id = omega arith;
  serial = omega arith;
  key = omega arith;
  value = omega arith;
}

apply-put_command_example : get_key (107 ∷ []) (apply (put_command req) new_state_machine) ≡ (
    if not (5 == 0) && leb 3 (value 5 new_state_machine.sessions)
    then get_key (107 ∷ []) new_state_machine
    else if bytes_eq (107 ∷ []) (107 ∷ [])
    then some (118 ∷ [])
    else get_key (107 ∷ []) new_state_machine)
apply-put_command_example = apply-put_command req new_state_machine (107 ∷ []) req-IsPutRequest

abbrev entry : ℕ → Entry
entry i = record { term = 1; index = i; type = entry_normal; command = put_command req }

abbrev last : Entry
last = record {
  term = 1;
  index = 4;
  type = entry_normal;
  command = put_command (record req { serial = 4 });
}

abbrev retried : Core
retried = record node { committed = entry 2 ∷ entry 3 ∷ last ∷ [] }

abbrev no_image : SnapshotImage → Option Bytes
no_image i = none

abbrev no_state : Bytes → Option SnapshotImage
no_state b = none

abbrev replica : Node StateMachine
replica = record {
  group = 0;
  core = retried;
  machine = new_state_machine;
  compact_at = 4096;
  status = none;
  waiters = [];
  synced_config_version = 0;
  transport_peers = none;
  applied = 1;
  read_waiters = [];
  applied_waiters = [];
  condition = running;
  answers = [];
  sent = [];
}

has_session : req.client_id ≢ 0
has_session e = absurd (omega (arith, e))

after_step-once_example :
    (after_step (kv_machine no_image no_state) replica).machine
    ≡ run_commands (kv_machine no_image no_state) (entry 2 ∷ last ∷ []) new_state_machine
after_step-once_example =
    after_step-once no_image no_state 1 req (entry 2) (entry 3) [] [] (last ∷ []) replica
      req-IsPutRequest has_session refl refl refl refl refl (refl, (refl, (refl, tt)))
      (record { table = tt; waiting = tt }) refl

abbrev three_shards : ℕ
three_shards = 3

-- A start with three shards, one with four that is refused, and one with three.
starts-same_count_example : three_shards ≡ three_shards
unfolding starts check_shards pin_shard_count
starts-same_count_example =
    starts-same_count none none three_shards three_shards missing ((none, 4) ∷ []) refl refl
