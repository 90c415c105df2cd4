-- ===== src/Raft/Sample.antt =====
-- internal/raft: a node that the tests start from.
use raft_kv.Common.{ℕ, refl, false, none, some, [], ◌∷◌, arith}
use raft_kv.Common.Bytes.{Bytes}
use raft_kv.Common.Assoc.{Map, nat_eq}
use raft_kv.Record.{FileSlot}
use raft_kv.Raft.Entry.{Entry, IsEntry}
use raft_kv.Raft.StateFile.{encode_state}
use raft_kv.Raft.Members.{ConfChange}
use raft_kv.Raft.Disk.{Disk}
use raft_kv.Raft.Core.{Core, Config, follower}
use raft_kv.Raft.Persist.{frame_entries}
use raft_kv.Raft.Order.Shape.{IsLog}

-- A node of three that has voted for the second in term 1 and holds two entries, of which one is
-- committed.
abbrev pub entry : ℕ → Entry
entry i = record { term = 1; index = i; type = 1; command = 42 ∷ [] }

abbrev pub three : Map ℕ Bytes
three = (1, []) ∷ (2, []) ∷ (3, []) ∷ []

abbrev config : Config
config = record {
  id = 1;
  peer_ids = 2 ∷ 3 ∷ [];
  members = none;
  election_ticks_min = 20;
  election_ticks_max = 40;
  heartbeat_ticks = 2;
  disable_pre_vote = false;
}

abbrev no_file : FileSlot
no_file = record { final = none; tmp = none }

abbrev pub voted : Disk
voted = record {
  state_file = record { final = some (encode_state 1 2); tmp = none };
  snap_file = no_file;
  log_file = record { final = some (frame_entries (entry 1 ∷ entry 2 ∷ [])); tmp = none };
  faults = [];
}

abbrev pub node : Core
node = record {
  cfg = config;
  role = follower;
  term = 1;
  voted_for = 2;
  leader_id = 2;
  entries = entry 1 ∷ entry 2 ∷ [];
  log_failed = false;
  disk = voted;
  commit_index = 1;
  election_elapsed = 0;
  election_timeout = 25;
  heartbeat_elapsed = 0;
  rng = [];
  ticks_since_leader = 0;
  votes = none;
  pre_votes = none;
  outbox = [];
  next_index = [];
  match_index = [];
  committed = [];
  last_delivered = 1;
  snap_index = 0;
  snap_term = 0;
  snap_config = three;
  pending_restore = none;
  members = three;
  last_config_index = 0;
  config_version = 0;
  transfer_target = 0;
  transfer_ticks = 0;
  append_seq = 0;
  read_counter = 0;
  pending_reads = [];
  read_outcomes = [];
}

pub node-IsLog : IsLog node
node-IsLog = record {
  contiguous = (refl, (refl, tt));
  fits = omega arith;
  snap_le = omega arith;
  commit_le = omega arith;
  delivered_eq = refl;
}

pub entry-IsEntry : IsEntry (entry 1)
entry-IsEntry = record { term = omega arith; index = omega arith; type = omega arith }

-- The fourth node joins.
abbrev pub join : ConfChange
join = record { op = 1; id = 4; addr = [] }
