-- ===== src/Kvraft/Service.antt =====
-- internal/kvraft/service.go: the kv.v1 service of one shard, over the node's log; and the router of
-- sharding.go in front of it. What the node answers to `Propose` and `ReadBarrier` is an argument.
use raft_kv.Common.{ℕ, Bool, true, false, Option, none, some, List, [], ◌∷◌, ◌==◌, if◌then◌else◌}
use raft_kv.Common.Bytes.{Bytes}
use raft_kv.Common.Assoc.{Map, nat_eq, lookup}
use raft_kv.Storage.Command.{op_put, op_delete, encode_command}
use raft_kv.Kvraft.StateMachine.{StateMachine, encode_envelope, get_key}
use raft_kv.Kvraft.Sharding.{shard_of}

pub record PutRequest : Type 0 where
  pub client_id : ℕ
  pub serial : ℕ
  pub key : Bytes
  pub value : Bytes

pub record DeleteRequest : Type 0 where
  pub client_id : ℕ
  pub serial : ℕ
  pub key : Bytes

-- What a call of the node fails with: `NotLeaderError`, the context's end, or another error.
pub data NodeError : Type 0 where
  not_leader : ℕ → NodeError
  context_ended : NodeError
  node_failed : NodeError

-- The gRPC statuses. `failed_precondition` carries the shard, the leader's id and its address.
pub data Status : Type 0 where
  invalid_argument : Status
  failed_precondition : ℕ → ℕ → Bytes → Status
  from_context : Status
  unavailable : Status

pub data Response : Type 0 where
  put_response : Response
  delete_response : Bool → Response
  get_response : Option Bytes → Response
  refused : Status → Response

abbrev pub or_empty : Option Bytes → Bytes
or_empty none = []
or_empty (some b) = b

-- `members` is the table of the node's last status.
unfoldable pub to_status : Map ℕ Bytes → ℕ → NodeError → Status
to_status members shard (not_leader id) =
    failed_precondition shard id (if id == 0 then [] else or_empty (lookup id members))
to_status members shard context_ended = from_context
to_status members shard node_failed = unavailable

unfoldable pub put_command : PutRequest → Bytes
put_command req = encode_envelope (record {
  client_id = req.client_id;
  serial = req.serial;
  inner = encode_command (record { op = op_put; key = req.key; value = req.value });
})

unfoldable pub delete_command : DeleteRequest → Bytes
delete_command req = encode_envelope (record {
  client_id = req.client_id;
  serial = req.serial;
  inner = encode_command (record { op = op_delete; key = req.key; value = [] });
})

-- The service of a shard: its group, the members that its node published, and the switch that the
-- test harness sets to leave out the read barrier.
pub record KvService : Type 0 where
  pub shard : ℕ
  pub members : Map ℕ Bytes
  pub unsafe_no_read_barrier : Bool

unfoldable pub set_unsafe_no_read_barrier : Bool → KvService → KvService
set_unsafe_no_read_barrier v s = record s { unsafe_no_read_barrier = v }

abbrev pub answered : KvService → Response → Option NodeError → Response
answered s r none = r
answered s r (some e) = refused (to_status s.members s.shard e)

-- `propose` is the node's answer to a command: no error once it is applied.
unfoldable pub put : KvService → (Bytes → Option NodeError) → PutRequest → Response
put s propose req = elim req.key [
  | [] ↦ refused invalid_argument
  | _ ∷ _ ↦ answered s put_response (propose (put_command req))
]

-- The state machine is read before the command is proposed.
unfoldable pub delete :
    KvService → StateMachine → (Bytes → Option NodeError) → DeleteRequest → Response
delete s sm propose req = elim req.key [
  | [] ↦ refused invalid_argument
  | _ ∷ _ ↦
      answered s (delete_response (elim (get_key req.key sm) [ none ↦ false | some _ ↦ true ]))
        (propose (delete_command req))
]

-- `barrier` is the node's answer to the read barrier, `sm` the state machine after it.
unfoldable pub get : KvService → StateMachine → Option NodeError → Bytes → Response
get s sm barrier [] = refused invalid_argument
get s sm barrier (k ∷ key) =
    if s.unsafe_no_read_barrier
    then get_response (get_key (k ∷ key) sm)
    else answered s (get_response (get_key (k ∷ key) sm)) barrier

-- ShardedKV: the shard of the key serves the request. `none` is a panic.
unfoldable pub route {ℓ} : {A : Type ℓ} → List A → (A → Response) → Bytes → Option Response
route shards serve [] = some (refused invalid_argument)
route shards serve (k ∷ key) = elim (shard_of shards (k ∷ key)) [
  | none ↦ none
  | some shard ↦ some (serve shard)
]

-- pinShardCount. The file `shards` holds a number, or text that is none; a first start writes it.
pub data Pin : Type 0 where
  missing : Pin
  corrupt : Pin
  pinned : ℕ → Pin

pub data PinError : Type 0 where
  bad_shard_count : PinError
  pin_not_written : PinError
  corrupt_pin : PinError
  other_count : ℕ → ℕ → PinError

-- The first argument is what a first start leaves when its write fails, and `none` if the write
-- works: the file is not replaced in one step. Reading works.
unfoldable pub pin_shard_count : Option Pin → ℕ → Pin → Option PinError × Pin
pin_shard_count none count missing = (none, pinned count)
pin_shard_count (some left) count missing = (some pin_not_written, left)
pin_shard_count fault count corrupt = (some corrupt_pin, corrupt)
pin_shard_count fault count (pinned n) =
    (if n == count then none else some (other_count n count), pinned n)

-- `NewSharded` up to the start of the servers.
unfoldable pub check_shards : Option Pin → ℕ → Pin → Option PinError × Pin
check_shards fault count pin =
    if count == 0 then (some bad_shard_count, pin) else pin_shard_count fault count pin
