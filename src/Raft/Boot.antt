-- ===== src/Raft/Boot.antt =====
-- internal/raft: opening the log (log.go), building the core (core.go), and the queues that the
-- event loop drains.
use raft_kv.Common.{
  ℕ, zero, suc, ◌+◌, ◌-◌, false, ◌&&◌, Option, none, some, List, [], ◌∷◌, ◌++◌, leb, ◌==◌,
  if◌then◌else◌, u64, length, take, drop, get_last?,
}
use raft_kv.Common.Bytes.{Bytes}
use raft_kv.Common.Assoc.{Map, nat_eq, insert}
use raft_kv.Record.{parse}
use raft_kv.Raft.Result.{Result, ok, err, bad_log, bad_config, ◌>>=◌}
use raft_kv.Raft.Entry.{Entry, max_entry_payload, decode_entry}
use raft_kv.Raft.StateFile.{load_term_and_vote}
use raft_kv.Raft.Snapshot.{RaftSnapshot, load_raft_snapshot}
use raft_kv.Raft.Disk.{Disk, content}
use raft_kv.Raft.Core.{Core, Config, follower, Outbound}
use raft_kv.Raft.Log.{base_of}
use raft_kv.Raft.Membership.{recalc_config}
use raft_kv.Raft.Replication.{reset_election_timer}
use raft_kv.Raft.Install.{copy_bytes}

-- One entry that was read from the file joins those before it: the supersede rule.
unfoldable pub supersede : ℕ → List Entry → Entry → Result (List Entry)
supersede base es e = elim (get_last? es) [
  | none ↦ (if e.index == u64 (base + 1) then ok (e ∷ []) else err (bad_log e.index base))
  | some last ↦
      (if e.index == u64 (last.index + 1)
        then ok (es ++ (e ∷ []))
        else if leb (base_of es) e.index && leb e.index last.index
        then ok (take (e.index - base_of es) es ++ (e ∷ []))
        else err (bad_log e.index last.index))
]

-- The next entry and its length in the file; `none` is a torn tail.
unfoldable pub read_entry : Bytes → Option (Entry × ℕ)
read_entry b = elim (parse b max_entry_payload) [
  | none ↦ none
  | some (payload, n) ↦ elim (decode_entry payload) [ none ↦ none | some e ↦ some (e, n) ]
]

-- The loop of `openLog`: the fuel, the bytes from `off` on, `off` and the entries so far. The result
-- is the entries and the length of the valid part of the file.
unfoldable pub replay : ℕ → ℕ → Bytes → ℕ → List Entry → Result (List Entry × ℕ)
replay base zero b off es = ok (es, off)
replay base (suc fuel) b off es = elim (read_entry b) [
  | none ↦ ok (es, off)
  | some (e, n) ↦ (do es' ← supersede base es e; replay base fuel (drop n b) (off + n) es')
]

-- Every record takes a byte at least, so as many rounds as there are bytes are enough.
unfoldable pub open_log : ℕ → Bytes → Result (List Entry × Bytes)
open_log base b = do (es, valid) ← replay base (length b) b 0 []; ok (es, take valid b)

unfoldable pub default_to : ℕ → ℕ → ℕ
default_to d n = if n == 0 then d else n

unfoldable pub apply_defaults : Config → Config
apply_defaults cfg = record cfg {
  election_ticks_min = default_to 20 cfg.election_ticks_min;
  election_ticks_max = default_to 40 cfg.election_ticks_max;
  heartbeat_ticks = default_to 2 cfg.heartbeat_ticks;
}

unfoldable pub add_peers : ℕ → List ℕ → Map ℕ Bytes → Result (Map ℕ Bytes)
add_peers me [] m = ok m
add_peers me (p ∷ ps) m = if p == me then err bad_config else add_peers me ps (insert p [] m)

-- cfg.Members, from the flags where it is nil.
unfoldable pub initial_members : Config → Result (Map ℕ Bytes)
initial_members cfg = elim cfg.members [
  | some m ↦ ok m
  | none ↦ add_peers cfg.id cfg.peer_ids ((cfg.id, []) ∷ [])
]

-- A node with no snapshot has a nil configuration there, and trusts its flags. A snapshot file
-- always holds a table.
unfoldable pub base_config : Option Bytes → RaftSnapshot → Map ℕ Bytes → Map ℕ Bytes
base_config none snap flags = flags
base_config (some _) snap flags = snap.config

unfoldable pub base_restore : Option Bytes → RaftSnapshot → Option Bytes
base_restore none snap = none
base_restore (some _) snap = copy_bytes snap.payload

abbrev pub fresh_core :
    Config → List ℕ → Disk → ℕ → ℕ → RaftSnapshot → Map ℕ Bytes → List Entry → Bytes → Core
fresh_core cfg rng disk term voted_for snap flags es log = record {
  cfg = cfg;
  role = follower;
  term = term;
  voted_for = voted_for;
  leader_id = 0;
  entries = es;
  log_failed = false;
  disk = record disk { log_file = record { final = some log; tmp = none } };
  commit_index = snap.last_index;
  election_elapsed = 0;
  election_timeout = 0;
  heartbeat_elapsed = 0;
  rng = rng;
  ticks_since_leader = 0;
  votes = none;
  pre_votes = none;
  outbox = [];
  next_index = [];
  match_index = [];
  committed = [];
  last_delivered = snap.last_index;
  snap_index = snap.last_index;
  snap_term = snap.last_term;
  snap_config = base_config disk.snap_file.final snap flags;
  pending_restore = base_restore disk.snap_file.final snap;
  members = [];
  last_config_index = 0;
  config_version = 0;
  transfer_target = 0;
  transfer_ticks = 0;
  append_seq = 0;
  read_counter = 0;
  pending_reads = [];
  read_outcomes = [];
}

unfoldable pub settle : Core → Result Core
settle s = let (r, t) = reset_election_timer (recalc_config s) in r >>= λ _. ok t

-- The log, on top of the snapshot.
unfoldable pub boot_log : Config → List ℕ → Disk → Map ℕ Bytes → ℕ × ℕ → RaftSnapshot → Result Core
boot_log cfg rng disk flags ballot snap = do
  (es, log) ← open_log snap.last_index (content disk.log_file)
  settle (fresh_core cfg rng disk ballot.0 ballot.1 snap flags es log)

unfoldable pub boot_snapshot : Config → List ℕ → Disk → Map ℕ Bytes → ℕ × ℕ → Result Core
boot_snapshot cfg rng disk flags ballot = do
  snap ← load_raft_snapshot disk.snap_file.final
  boot_log cfg rng disk flags ballot snap

unfoldable pub boot : Config → List ℕ → Disk → Map ℕ Bytes → Result Core
boot cfg rng disk flags = do
  ballot ← load_term_and_vote disk.state_file.final
  boot_snapshot (record cfg { members = some flags }) rng disk flags ballot

-- Reading and opening the files is taken to work here; what they hold is checked.
unfoldable pub new_core : Config → List ℕ → Disk → Result Core
new_core cfg rng disk =
    if cfg.id == 0
    then err bad_config
    else do flags ← initial_members (apply_defaults cfg); boot (apply_defaults cfg) rng disk flags

unfoldable pub take_outbox : Core → List Outbound × Core
take_outbox s = (s.outbox, record s { outbox = [] })

unfoldable pub take_committed : Core → List Entry × Core
take_committed s = (s.committed, record s { committed = [] })

unfoldable pub take_restore : Core → Option Bytes × Core
take_restore s = (s.pending_restore, record s { pending_restore = none })
