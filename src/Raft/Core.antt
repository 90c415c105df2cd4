-- ===== src/Raft/Core.antt =====
-- internal/raft/core.go: the state of one node, and the monad in which its methods run.
use raft_kv.Common.{ℕ, Bool, Option, List}
use raft_kv.Common.Bytes.{Bytes}
use raft_kv.Common.Assoc.{Map}
use raft_kv.Raft.Result.{Error, Result, ok, err, panic}
use raft_kv.Raft.Entry.{Entry}
use raft_kv.Raft.Disk.{Disk}

pub data Role : Type 0 where
  follower candidate leader : Role

-- Timing is in ticks. The counters are ints that start at 0 or at a configured value and move by
-- one a tick: they are numbers here, and no run comes near 2 ^ 63 ticks.
pub record Config : Type 0 where
  pub id : ℕ
  pub peer_ids : List ℕ
  pub members : Option (Map ℕ Bytes)
  pub election_ticks_min : ℕ
  pub election_ticks_max : ℕ
  pub heartbeat_ticks : ℕ
  pub disable_pre_vote : Bool

-- proto/raft/v1/raft.proto
pub record RequestVoteRequest : Type 0 where
  pub term : ℕ
  pub candidate_id : ℕ
  pub last_log_index : ℕ
  pub last_log_term : ℕ
  pub pre_vote : Bool

pub record RequestVoteResponse : Type 0 where
  pub term : ℕ
  pub vote_granted : Bool

pub record AppendEntriesRequest : Type 0 where
  pub term : ℕ
  pub leader_id : ℕ
  pub prev_log_index : ℕ
  pub prev_log_term : ℕ
  pub entries : List Entry
  pub leader_commit : ℕ
  pub seq : ℕ

pub record AppendEntriesResponse : Type 0 where
  pub term : ℕ
  pub success : Bool
  pub seq : ℕ
  pub conflict_term : ℕ
  pub conflict_index : ℕ

pub record InstallSnapshotRequest : Type 0 where
  pub term : ℕ
  pub leader_id : ℕ
  pub last_included_index : ℕ
  pub last_included_term : ℕ
  pub payload : Bytes
  pub config : Bytes

pub record InstallSnapshotResponse : Type 0 where
  pub term : ℕ

pub record TimeoutNowRequest : Type 0 where
  pub term : ℕ
  pub leader_id : ℕ

pub data Message : Type 0 where
  request_vote : RequestVoteRequest → Message
  append_entries : AppendEntriesRequest → Message
  install_snapshot : InstallSnapshotRequest → Message
  timeout_now : TimeoutNowRequest → Message

pub record Outbound : Type 0 where
  pub to : ℕ
  pub message : Message

-- readindex.go
pub record PendingRead : Type 0 where
  pub id : ℕ
  pub index : ℕ
  pub min_seq : ℕ
  pub acks : Map ℕ Bool

pub record ReadOutcome : Type 0 where
  pub id : ℕ
  pub index : ℕ
  pub confirmed : Bool

-- `rng` holds the numbers that the random source will give. A nil map is `none` where the code
-- tests for nil or where a write to it would panic, and empty elsewhere. `log_failed` is
-- `store.failed`.
pub record Core : Type 0 where
  pub cfg : Config
  pub role : Role
  pub term : ℕ
  pub voted_for : ℕ
  pub leader_id : ℕ
  pub entries : List Entry
  pub log_failed : Bool
  pub disk : Disk
  pub commit_index : ℕ
  pub election_elapsed : ℕ
  pub election_timeout : ℕ
  pub heartbeat_elapsed : ℕ
  pub rng : List ℕ
  pub ticks_since_leader : ℕ
  pub votes : Option (Map ℕ Bool)
  pub pre_votes : Option (Map ℕ Bool)
  pub outbox : List Outbound
  pub next_index : Map ℕ ℕ
  pub match_index : Map ℕ ℕ
  pub committed : List Entry
  pub last_delivered : ℕ
  pub snap_index : ℕ
  pub snap_term : ℕ
  pub snap_config : Map ℕ Bytes
  pub pending_restore : Option Bytes
  pub members : Map ℕ Bytes
  pub last_config_index : ℕ
  pub config_version : ℕ
  pub transfer_target : ℕ
  pub transfer_ticks : ℕ
  pub append_seq : ℕ
  pub read_counter : ℕ
  pub pending_reads : List PendingRead
  pub read_outcomes : List ReadOutcome

-- A method that mutates the core. What was written before an error stays written.
abbrev pub Exec : Type 0 → Type 0
Exec A = Core → Result A × Core

abbrev pub continue : {A B : Type 0} → Result A → (A → Exec B) → Exec B
continue (ok a) f s = f a s
continue (err e) f s = (err e, s)
continue panic f s = (panic, s)

infixl 5 ◌>>=◌ ◌>>◌
abbrev pub ◌>>=◌ : {A B : Type 0} → Exec A → (A → Exec B) → Exec B
◌>>=◌ m f s = let (r, s') = m s in continue r f s'

abbrev pub ◌>>◌ : {B : Type 0} → Exec (Unit {0}) → Exec B → Exec B
◌>>◌ m k = m >>= λ _. k

abbrev pub pure : {A : Type 0} → A → Exec A
pure a s = (ok a, s)

abbrev pub throw : {A : Type 0} → Error → Exec A
throw e s = (err e, s)

abbrev pub crash : {A : Type 0} → Exec A
crash s = (panic, s)

-- A method that only changes fields.
abbrev pub modify : (Core → Core) → Exec (Unit {0})
modify f s = (ok tt, f s)

abbrev pub gets : {A : Type 0} → (Core → A) → Exec A
gets f s = (ok (f s), s)
