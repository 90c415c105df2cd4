-- ===== src/Raft/NodeTests.antt =====
-- internal/raft/node.go: the theorems on a node that counts commands.
use raft_kv.Common.{ℕ, ◌+◌, ◌≡◌, ◌≢◌, refl, true, none, some, [], ◌∷◌, arith, All, ◌<◌}
use raft_kv.Common.Bytes.{Bytes}
use raft_kv.Common.Assoc.{Map, nat_eq, lookup, IsMap}
use raft_kv.Raft.Core.{Core, AppendEntriesRequest}
use raft_kv.Raft.Result.{ok}
use raft_kv.Raft.Node.{ev_read, ev_append_entries, Reply, appended, dispatch}
use raft_kv.Raft.Node.State.{StateMachine, Node, AppliedWaiter, running, is_looping}
use raft_kv.Raft.Node.Loop.{after_step, sync_transport_config}
use raft_kv.Raft.Node.Run.{step, here, next}
use raft_kv.Raft.Node.Apply.{run_commands, last_index}
use raft_kv.Raft.Node.Reads.{ReadsShape}
use raft_kv.Raft.Node.Round.{Round}
use raft_kv.Raft.Node.Restoring.{base_machine, base_cursor, after_step_lem}
use raft_kv.Raft.Node.Halting.{failed_restore-goes_on}
use raft_kv.Raft.Node.Peers.{member_address, sync_transport_config_lem}
use raft_kv.Raft.Node.Invariant.{Reach-waiting}
use raft_kv.Raft.Node.Loop.{restore_with, restored}
use raft_kv.Raft.Boot.{take_restore}
use raft_kv.Raft.Node.{reply_with, fatal}
use raft_kv.Raft.Follower.{
  handle_append_entries, current_append, recognize_leader, follow, match_log, note_contact,
  accept_entries, new_entries, truncate_and_append, append_at, overlaps, truncate_suffix,
  cut_suffix, push_entries, settle_config, follow_commit, reply, has_config,
}
use raft_kv.Raft.Replication.{
  adopt_term, reset_election_timer, deliver_committed, deliver_from, mark_delivered,
}
use raft_kv.Raft.Log.{last_log_index, term_at, entry_at}
use raft_kv.Raft.Persist.{store_append, append_checked, gap, write_entries, frame_entries}
use raft_kv.Raft.Disk.{append_file}
use raft_kv.Raft.Membership.{recalc_config, config_at, fold_configs}
use raft_kv.Raft.Membership.{note_appended_configs}
use raft_kv.Raft.Replication.{leave_if_removed}
use raft_kv.Raft.Sample.{entry, node}

-- It reads an image of one byte only.
abbrev counting : StateMachine ℕ
counting = record {
  apply = λ index command n. n + 1;
  snapshot = λ n. some (n ∷ []);
  restore = λ image n. elim image [ [] ↦ none | b ∷ bs ↦ elim bs [ [] ↦ some b | _ ∷ _ ↦ none ] ];
}

-- The second entry is committed, and a proposal waits on it.
abbrev busy : Core
busy = record node { commit_index = 2; committed = entry 2 ∷ []; last_delivered = 2 }

abbrev counter : Node ℕ
counter = record {
  group = 0;
  core = busy;
  machine = 1;
  compact_at = 4096;
  status = none;
  waiters = (2, record { term = 1; done = 7 }) ∷ [];
  synced_config_version = 3;
  transport_peers = some ((4, 44 ∷ []) ∷ []);
  applied = 1;
  read_waiters = (0, 5) ∷ [];
  applied_waiters = record { index = 2; c = 8 } ∷ [];
  condition = running;
  answers = [];
  sent = [];
}

counter-ReadsShape : ReadsShape counter
counter-ReadsShape = record { table = unfold lookup in (refl, tt); waiting = (omega arith, tt) }

after_step_lem_example : Round counting 1 1 counter (after_step counting counter)
unfolding base_machine base_cursor
after_step_lem_example = after_step_lem counting 1 1 counter (refl, tt) counter-ReadsShape refl

-- A client asks for a read.
Reach-waiting_example :
    All
      (λ (w : AppliedWaiter). (step counting ev_read 9 counter).applied < w.index)
      (step counting ev_read 9 counter).applied_waiters
unfolding is_looping
Reach-waiting_example = Reach-waiting counting (next ev_read 9 refl here) counter-ReadsShape

-- A snapshot through the second entry was installed, and its image has two bytes. The leader then
-- sends the third entry and says that it is committed.
abbrev restoring : Node ℕ
restoring = record counter {
  core = record node {
    entries = [];
    commit_index = 2;
    last_delivered = 2;
    snap_index = 2;
    snap_term = 1;
    pending_restore = some (1 ∷ 1 ∷ []);
  };
}

abbrev third : AppendEntriesRequest
third = record {
  term = 1;
  leader_id = 2;
  prev_log_index = 2;
  prev_log_term = 1;
  entries = entry 3 ∷ [];
  leader_commit = 3;
  seq = 5;
}

abbrev grown : Core
grown = (dispatch (ev_append_entries third) (after_step counting restoring).core).1

abbrev success : Reply
success =
    appended (record { term = 1; success = true; conflict_term = 0; conflict_index = 0; seq = 5 })

handled :
    dispatch (ev_append_entries third) (after_step counting restoring).core ≡ (ok success, grown)
unfolding dispatch after_step restore_with take_restore restored reply_with fatal
    handle_append_entries adopt_term current_append recognize_leader reset_election_timer follow
    match_log last_log_index note_contact term_at accept_entries new_entries truncate_and_append
    append_at overlaps truncate_suffix cut_suffix store_append append_checked gap write_entries
    push_entries settle_config follow_commit deliver_committed deliver_from mark_delivered entry_at
    append_file frame_entries reply has_config recalc_config config_at fold_configs
    note_appended_configs leave_if_removed
handled = refl

grown-committed : grown.committed ≡ entry 3 ∷ []
unfolding dispatch after_step restore_with take_restore restored reply_with fatal
    handle_append_entries adopt_term current_append recognize_leader reset_election_timer follow
    match_log last_log_index note_contact term_at accept_entries new_entries truncate_and_append
    append_at overlaps truncate_suffix cut_suffix store_append append_checked gap write_entries
    push_entries settle_config follow_commit deliver_committed deliver_from mark_delivered entry_at
    append_file frame_entries reply has_config recalc_config config_at fold_configs
    note_appended_configs leave_if_removed
grown-committed = refl

grown-idle : grown.pending_restore ≡ none
unfolding dispatch after_step restore_with take_restore restored reply_with fatal
    handle_append_entries adopt_term current_append recognize_leader reset_election_timer follow
    match_log last_log_index note_contact term_at accept_entries new_entries truncate_and_append
    append_at overlaps truncate_suffix cut_suffix store_append append_checked gap write_entries
    push_entries settle_config follow_commit deliver_committed deliver_from mark_delivered entry_at
    append_file frame_entries reply has_config recalc_config config_at fold_configs
    note_appended_configs leave_if_removed
grown-idle = refl

failed_restore-goes_on_example :
    (is_looping (after_step counting restoring).condition ≡ true)
    × ((step counting (ev_append_entries third) 6 (after_step counting restoring)).machine
        ≡ run_commands counting grown.committed 1)
    × ((step counting (ev_append_entries third) 6 (after_step counting restoring)).applied
        ≡ last_index 1 grown.committed)
failed_restore-goes_on_example =
    failed_restore-goes_on counting 2 6 (1 ∷ 1 ∷ []) (ev_append_entries third) success grown
      restoring (record { table = unfold lookup in (refl, tt); waiting = (omega arith, tt) }) refl
      refl handled (rw grown-committed (refl, tt)) grown-idle

table-IsMap : IsMap counter.core.members
table-IsMap = unfold lookup in (refl, (refl, (refl, tt)))

behind : counter.core.config_version ≢ counter.synced_config_version
behind e = absurd (omega (arith, e))

sync_transport_config_lem_example :
    (after : Map ℕ Bytes) × ((sync_transport_config counter).transport_peers ≡ some after)
    × ((sync_transport_config counter).synced_config_version ≡ 0)
    × ((id : ℕ)
        → lookup id after ≡ elim (member_address 1 id node.members) [
          | none ↦ lookup id ((4, 44 ∷ []) ∷ [])
          | some a ↦ some a
        ])
sync_transport_config_lem_example =
    sync_transport_config_lem counter ((4, 44 ∷ []) ∷ []) table-IsMap refl behind
