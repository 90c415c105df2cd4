-- ===== src/Raft/Tests.antt =====
-- internal/raft: the definitions and the theorems on a concrete node.
use raft_kv.Common.{
  ℕ, ◌<◌, ◌≤◌, ◌≡◌, ◌≢◌, inr, refl, true, false, none, some, [], ◌∷◌, arith, length,
}
use raft_kv.Common.Bytes.{le32, le64}
use raft_kv.Common.Assoc.{nat_eq, lookup, insert, has, IsMap}
use raft_kv.Common.Sets.{contains}
use raft_kv.Raft.Result.{ok, err, bad_log}
use raft_kv.Raft.Entry.{encode_entry, max_entry_payload}
use raft_kv.Raft.StateFile.{load_term_and_vote-encode_state}
use raft_kv.Raft.Snapshot.{encode_snapshot}
use raft_kv.Raft.Disk.{content}
use raft_kv.Raft.Core.{Core, leader, AppendEntriesRequest, RequestVoteRequest}
use raft_kv.Raft.Log.{majority, log_up_to_date, last_log_index, last_log_term}
use raft_kv.Raft.Membership.{apply_conf_change, change_table, track}
use raft_kv.Raft.Replication.{deliver_committed, maybe_advance_commit, adopt_term}
use raft_kv.Raft.Follower.{handle_append_entries, follow_commit}
use raft_kv.Raft.Election.{
  handle_pre_vote, handle_request_vote, cast_vote, can_grant, grant_vote, record_vote,
}
use raft_kv.Raft.Install.{compact, snapshot_at}
use raft_kv.Raft.Boot.{open_log}
use raft_kv.Raft.Node.{ev_request_vote, vote, dispatch, reply_with, fatal}
use raft_kv.Raft.Ballot.Rules.{IsSaved}
use raft_kv.Raft.Ballot.Campaign.{InRange}
use raft_kv.Raft.Ballot.Safety.{here, next, Reach-one_vote, Reach-IsSaved}
use raft_kv.Raft.Order.Shape.{IsLog}
use raft_kv.Raft.Order.Deliver.{Delivered, deliver_committed_lem}
use raft_kv.Raft.Order.Request.{IsAppend, Followed}
use raft_kv.Raft.Order.Follow.{handle_append_entries-Followed}
use raft_kv.Raft.Order.Commit.{Committed, maybe_advance_commit_lem}
use raft_kv.Raft.Order.Regress.{follow_commit-regresses}
use raft_kv.Raft.Order.PreVote.{as_vote, handle_request_vote-granted}
use raft_kv.Raft.Quorum.{IsQuorum, apply_conf_change-quorums_meet}
use raft_kv.Raft.Compaction.{compact-no_restart}
use raft_kv.Raft.Replication.{reset_election_timer}
use raft_kv.Raft.Order.Compact.{CompactResult, compact_lem}
use raft_kv.Raft.Sample.{entry, three, voted, node, node-IsLog, entry-IsEntry, join}

node-IsSaved : IsSaved node
node-IsSaved = record { loads = load_term_and_vote-encode_state 1 2 (omega arith) (omega arith) }

node-InRange : InRange node
node-InRange = record { id = omega arith; term = omega arith }

-- Another candidate asks for a vote in the same term, and is refused.
abbrev ask : RequestVoteRequest
ask = record { term = 1; candidate_id = 3; last_log_index = 9; last_log_term = 1; pre_vote = false }

asked :
    (dispatch (ev_request_vote ask) node).0 ≡ ok (vote (record { term = 1; vote_granted = false }))
unfolding dispatch reply_with fatal handle_request_vote adopt_term cast_vote can_grant
asked = refl

two_is_no_zero : node.voted_for ≢ 0
two_is_no_zero e = absurd (omega (arith, e))

-- The second asks again, before and after that.
abbrev own : RequestVoteRequest
own = record ask { candidate_id = 2 }

granted :
    (dispatch (ev_request_vote own) node).0 ≡ ok (vote (record { term = 1; vote_granted = true }))
unfolding dispatch reply_with fatal handle_request_vote adopt_term cast_vote can_grant
    log_up_to_date last_log_term last_log_index grant_vote record_vote reset_election_timer
granted = refl

abbrev later : Core
later = (dispatch (ev_request_vote ask) (dispatch (ev_request_vote own) node).1).1

refused_later :
    (dispatch (ev_request_vote ask) (dispatch (ev_request_vote own) node).1).0
    ≡ ok (vote (record { term = 1; vote_granted = false }))
unfolding dispatch reply_with fatal handle_request_vote adopt_term cast_vote can_grant
    log_up_to_date last_log_term last_log_index grant_vote record_vote reset_election_timer
refused_later = refl

granted_later :
    (dispatch (ev_request_vote own) later).0 ≡ ok (vote (record { term = 1; vote_granted = true }))
unfolding dispatch reply_with fatal handle_request_vote adopt_term cast_vote can_grant
    log_up_to_date last_log_term last_log_index grant_vote record_vote reset_election_timer
granted_later = refl

in_between : InRange (dispatch (ev_request_vote own) node).1
unfolding dispatch reply_with fatal handle_request_vote adopt_term cast_vote can_grant
    log_up_to_date last_log_term last_log_index grant_vote record_vote reset_election_timer
in_between = record { id = omega arith; term = omega arith }

later-InRange : InRange later
unfolding dispatch reply_with fatal handle_request_vote adopt_term cast_vote can_grant
    log_up_to_date last_log_term last_log_index grant_vote record_vote reset_election_timer
later-InRange = record { id = omega arith; term = omega arith }

Reach-one_vote_example : own.candidate_id ≡ own.candidate_id
Reach-one_vote_example =
    Reach-one_vote own own (record { term = 1; vote_granted = true })
      (record { term = 1; vote_granted = true }) node-IsSaved
      ((omega arith, omega arith), node-InRange) ((omega arith, omega arith), later-InRange)
      (refl, refl) two_is_no_zero granted
      (next (ev_request_vote ask) (vote (record { term = 1; vote_granted = false })) here
        (omega arith, omega arith) in_between refused_later)
      granted_later (refl, refl) refl

Reach-IsSaved_example :
    (1 ≤ (dispatch (ev_request_vote ask) node).1.term)
    × IsSaved (dispatch (ev_request_vote ask) node).1
Reach-IsSaved_example =
    Reach-IsSaved
      (next (ev_request_vote ask) (vote (record { term = 1; vote_granted = false })) here
        (omega arith, omega arith) node-InRange asked)
      node-IsSaved

-- One of the entries is held, the other is new.
abbrev request : AppendEntriesRequest
request = record {
  term = 1;
  leader_id = 2;
  prev_log_index = 1;
  prev_log_term = 1;
  entries = entry 2 ∷ entry 3 ∷ [];
  leader_commit = 3;
  seq = 5;
}

request-IsAppend : IsAppend node request
request-IsAppend = record {
  consecutive = (refl, (refl, tt));
  fits = omega arith;
  current = inr (omega arith);
}

handle_append_entries-Followed_example : Followed request node (handle_append_entries request node)
handle_append_entries-Followed_example =
    handle_append_entries-Followed request node node-IsLog request-IsAppend (omega arith)

three-IsMap : IsMap three
unfolding lookup
three-IsMap = (refl, (refl, (refl, tt)))

-- The second node stores both entries.
abbrev leading : Core
leading = record node { role = leader; match_index = (2, 2) ∷ [] }

maybe_advance_commit_lem_example :
    ((maybe_advance_commit leading).0 ≡ ok tt) × Committed leading (maybe_advance_commit leading).1
maybe_advance_commit_lem_example = maybe_advance_commit_lem leading node-IsLog three-IsMap

abbrev behind : Core
behind = record node { commit_index = 2 }

deliver_committed_lem_example :
    ((deliver_committed behind).0 ≡ ok tt) × Delivered behind (deliver_committed behind).1
deliver_committed_lem_example =
    deliver_committed_lem behind (refl, (refl, tt)) (omega arith) (omega arith) (omega arith)
      (omega arith)

-- Two entries are committed, and a request covers the first only.
abbrev ahead : Core
ahead = record node { commit_index = 2; last_delivered = 2 }

ahead-IsLog : IsLog ahead
ahead-IsLog = record {
  contiguous = (refl, (refl, tt));
  fits = omega arith;
  snap_le = omega arith;
  commit_le = omega arith;
  delivered_eq = refl;
}

abbrev short_request : AppendEntriesRequest
short_request = record request {
  prev_log_index = 0;
  prev_log_term = 0;
  entries = entry 1 ∷ [];
  leader_commit = 5;
}

follow_commit-regresses_example :
    (follow_commit short_request ahead ≡ (ok tt, record ahead { commit_index = 1 }))
    × ((follow_commit short_request ahead).1.commit_index < 2)
follow_commit-regresses_example =
    follow_commit-regresses short_request ahead ahead-IsLog (omega arith) (omega arith)

-- A pre-vote for term 2, asked of a node without a leader.
abbrev leaderless : Core
leaderless = record node { leader_id = 0 }

abbrev pre_ask : RequestVoteRequest
pre_ask = record ask { term = 2; pre_vote = true }

pre_granted : (handle_pre_vote pre_ask leaderless).vote_granted ≡ true
unfolding handle_pre_vote log_up_to_date last_log_index last_log_term
pre_granted = refl

handle_request_vote-granted_example :
    (handle_request_vote (as_vote pre_ask) leaderless).0
    ≡ ok (record { term = 2; vote_granted = true })
handle_request_vote-granted_example =
    handle_request_vote-granted pre_ask leaderless (omega arith) refl pre_granted

before : IsQuorum node (1 ∷ 2 ∷ [])
unfolding contains has lookup majority
before = record {
  distinct = (refl, (refl, tt));
  members = λ x h. ground (arith, h);
  enough = omega arith;
}

after : IsQuorum (apply_conf_change join 3 node) (2 ∷ 3 ∷ 4 ∷ [])
unfolding contains has lookup majority apply_conf_change change_table track insert
after = record {
  distinct = (refl, (refl, (refl, tt)));
  members = λ x h. ground (arith, h);
  enough = omega arith;
}

apply_conf_change-quorums_meet_example :
    (x : ℕ) × (contains x (1 ∷ 2 ∷ []) ≡ true) × (contains x (2 ∷ 3 ∷ 4 ∷ []) ≡ true)
apply_conf_change-quorums_meet_example =
    apply_conf_change-quorums_meet join 3 node (1 ∷ 2 ∷ []) (2 ∷ 3 ∷ 4 ∷ []) three-IsMap before
      after

-- The snapshot through the first entry is written, and closing the log fails.
abbrev stopping : Core
stopping = record node { disk = record voted { faults = none ∷ some 0 ∷ [] } }

entry_size : length (encode_entry (entry 1)) ≤ max_entry_payload
unfolding encode_entry le64 le32
entry_size = omega arith

compact-no_restart_example :
    ((compact 1 (9 ∷ []) stopping).1.disk.snap_file.final
      ≡ some (encode_snapshot (snapshot_at 1 (9 ∷ []) stopping)))
    × (open_log 1 (content (compact 1 (9 ∷ []) stopping).1.disk.log_file) ≡ err (bad_log 1 1))
compact-no_restart_example =
    compact-no_restart 1 (9 ∷ []) stopping (entry 1) (entry 2 ∷ []) 0 [] node-IsLog refl
      entry-IsEntry entry_size (omega arith) (omega arith) refl refl refl

compact_lem_example : CompactResult 1 node (compact 1 (9 ∷ []) node)
compact_lem_example = compact_lem 1 (9 ∷ []) node node-IsLog (omega arith) (omega arith)
