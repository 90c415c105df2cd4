-- ===== src/Raft/Replication.antt =====
-- internal/raft/replication.go, the leader's sends and the commit rule, and `stepDown` and the timer
-- of core.go.
use raft_kv.Common.{
  ℕ, zero, suc, ◌+◌, ◌-◌, ◌%◌, ◌^◌, not, ◌&&◌, Option, none, some, List, [], ◌∷◌, ◌++◌, ltb, leb,
  ◌==◌, if◌then◌else◌, u64, length, take, drop,
}
use raft_kv.Common.Assoc.{Map, nat_eq, value}
use raft_kv.Raft.Result.{ok, panic}
use raft_kv.Raft.Entry.{Entry, entry_config}
use raft_kv.Raft.StateFile.{no_vote}
use raft_kv.Raft.Members.{encode_members}
use raft_kv.Raft.Snapshot.{load_raft_snapshot}
use raft_kv.Raft.Core.{
  Core, follower, append_entries, install_snapshot, timeout_now, Exec, modify, ◌>>◌,
}
use raft_kv.Raft.Log.{last_log_index, base_of, entry_at, term_at, majority, is_member, peer_ids}
use raft_kv.Raft.Persist.{save_term_and_vote}
use raft_kv.Raft.Membership.{is_leader}
use raft_kv.Raft.ReadIndex.{abort_pending_reads}

abbrev next_draw : List ℕ → ℕ
next_draw [] = 0
next_draw (r ∷ _) = r

abbrev later_draws : List ℕ → List ℕ
later_draws [] = []
later_draws (_ ∷ rs) = rs

-- `rng.Intn(span)` panics unless `span` is positive.
unfoldable pub reset_election_timer : Exec (Unit {0})
reset_election_timer s =
    let span = s.cfg.election_ticks_max - s.cfg.election_ticks_min in
    if span == 0 then (panic, record s { election_elapsed = 0 }) else (
      ok tt,
      record s {
        election_elapsed = 0;
        election_timeout = s.cfg.election_ticks_min + next_draw s.rng % span;
        rng = later_draws s.rng;
      },
    )

-- Only the writes to memory of `stepDown`.
unfoldable pub stand_down : ℕ → Core → Core
stand_down term s = abort_pending_reads (record s {
  role = follower;
  term = term;
  voted_for = no_vote;
  leader_id = 0;
  votes = none;
  pre_votes = none;
  transfer_target = 0;
})

unfoldable pub step_down : ℕ → Exec (Unit {0})
step_down term s = save_term_and_vote term no_vote (stand_down term s)

-- The first lines of most handlers.
unfoldable pub adopt_term : ℕ → Exec (Unit {0})
adopt_term term s = if ltb s.term term then step_down term s else (ok tt, s)

abbrev pub max_append_bytes : ℕ
max_append_bytes = 2 ^ 20

-- Entries are taken until their commands reach the cap; the first argument is the sum so far.
unfoldable pub collect : ℕ → List Entry → List Entry
collect payload [] = []
collect payload (e ∷ es) =
    let rest = collect (payload + length e.command) es in
    if leb max_append_bytes (payload + length e.command) then e ∷ [] else e ∷ rest

unfoldable pub send_snapshot : ℕ → Core → Core
send_snapshot peer s = elim (load_raft_snapshot s.disk.snap_file.final) [
  | ok snap ↦ record s {
    outbox =
        s.outbox
        ++ (record {
          to = peer;
          message = install_snapshot (record {
            term = s.term;
            leader_id = s.cfg.id;
            last_included_index = snap.last_index;
            last_included_term = snap.last_term;
            payload = snap.payload;
            config = encode_members snap.config;
          });
        }
            ∷ []);
  }
  | _ ↦ s
]

-- The entries from `next` on: the slice of the log that the loop of `sendAppend` walks over. Go
-- panics where the log does not start after the snapshot and an index is out of range; the slice is
-- then shorter.
unfoldable pub entries_from : Core → ℕ → List Entry
entries_from s next =
    if leb next (last_log_index s)
    then collect 0 (take (last_log_index s + 1 - next) (drop (next - base_of s.entries) s.entries))
    else []

unfoldable pub send_entries : ℕ → ℕ → Core → Core
send_entries peer next s = record s {
  append_seq = u64 (s.append_seq + 1);
  outbox =
      s.outbox
      ++ (record {
        to = peer;
        message = append_entries (record {
          term = s.term;
          leader_id = s.cfg.id;
          prev_log_index = next - 1;
          prev_log_term = term_at s (next - 1);
          entries = entries_from s next;
          leader_commit = s.commit_index;
          seq = u64 (s.append_seq + 1);
        });
      }
          ∷ []);
}

unfoldable pub send_append : ℕ → Core → Core
send_append peer s =
    let stored = value peer s.next_index in
    let next = if stored == 0 then 1 else stored in
    if leb next s.snap_index then send_snapshot peer s else send_entries peer next s

unfoldable pub send_appends : List ℕ → Core → Core
send_appends [] s = s
send_appends (id ∷ ids) s = send_appends ids (send_append id s)

unfoldable pub broadcast_appends : Core → Core
broadcast_appends s = send_appends (peer_ids s) s

unfoldable pub send_timeout_now : ℕ → Core → Core
send_timeout_now to s = record s {
  outbox =
      s.outbox
      ++ (record { to = to; message = timeout_now (record { term = s.term; leader_id = s.cfg.id }) }
          ∷ []);
}

-- A committed removal of this node while it leads.
unfoldable pub leave_if_removed : Entry → Core → Core
leave_if_removed e s =
    if (e.type == entry_config) && is_leader s.role && not (is_member s)
    then abort_pending_reads (record s { role = follower; leader_id = 0; transfer_target = 0 })
    else s

-- The rounds left and the next index.
unfoldable pub deliver_from : ℕ → ℕ → Exec (Unit {0})
deliver_from zero i s = (ok tt, s)
deliver_from (suc n) i s = elim (entry_at s.entries i) [
  | none ↦ (panic, s)
  | some e ↦
      deliver_from n (i + 1) (leave_if_removed e (record s { committed = s.committed ++ (e ∷ []) }))
]

unfoldable pub mark_delivered : Core → Core
mark_delivered s =
    if ltb s.last_delivered s.commit_index then record s { last_delivered = s.commit_index } else s

unfoldable pub deliver_committed : Exec (Unit {0})
deliver_committed s =
    if length s.entries == 0
    then (ok tt, s)
    else (do
      deliver_from (s.commit_index - s.last_delivered) (s.last_delivered + 1)
      modify mark_delivered)
        s

unfoldable pub count_matches : ℕ → Map ℕ ℕ → List ℕ → ℕ
count_matches n m [] = 0
count_matches n m (id ∷ ids) = (if leb n (value id m) then 1 else 0) + count_matches n m ids

-- The nodes that store the entry at `n`, as the leader knows.
unfoldable pub stored_by : Core → ℕ → ℕ
stored_by s n = (if is_member s then 1 else 0) + count_matches n s.match_index (peer_ids s)

-- The loop of `maybeAdvanceCommit`, from `n` down: the index to commit, if there is one.
unfoldable pub commit_point : Core → ℕ → Option ℕ
commit_point s zero = none
commit_point s (suc n) =
    let rest = commit_point s n in
    if ltb s.commit_index (suc n) && (term_at s (suc n) == s.term)
    then (if leb (majority s) (stored_by s (suc n)) then some (suc n) else rest)
    else none

unfoldable pub maybe_advance_commit : Exec (Unit {0})
maybe_advance_commit s = elim (commit_point s (last_log_index s)) [
  | none ↦ (ok tt, s)
  | some n ↦ deliver_committed (record s { commit_index = n })
]
