-- ===== src/Raft/Follower.antt =====
-- internal/raft/replication.go, the follower's side: `handleAppendEntries`.
use raft_kv.Common.{
  ℕ, ◌+◌, ◌-◌, Bool, true, false, not, ◌&&◌, ◌||◌, none, List, [], ◌∷◌, ◌++◌, ltb, leb, ◌==◌,
  if◌then◌else◌, u64, length, take, drop, min,
}
use raft_kv.Raft.Result.{ok, err, panic, truncates_committed}
use raft_kv.Raft.Entry.{Entry, entry_config}
use raft_kv.Raft.Core.{
  Core, Role, follower, AppendEntriesRequest, AppendEntriesResponse, Exec, modify, gets, ◌>>=◌,
  ◌>>◌,
}
use raft_kv.Raft.Log.{last_log_index, base_of, term_at, first_index_of_term}
use raft_kv.Raft.Persist.{store_append}
use raft_kv.Raft.Membership.{note_appended_configs, recalc_config}
use raft_kv.Raft.Replication.{reset_election_timer, adopt_term, deliver_committed}

abbrev pub is_follower : Role → Bool
is_follower follower = true
is_follower _ = false

unfoldable pub follow : ℕ → Core → Core
follow leader_id s =
    if is_follower s.role
    then record s { leader_id = leader_id }
    else record s { role = follower; votes = none; leader_id = leader_id }

unfoldable pub note_contact : Core → Core
note_contact s = record s { ticks_since_leader = 0 }

-- A message at the node's own term from the leader of that term.
unfoldable pub recognize_leader : ℕ → Exec (Unit {0})
recognize_leader leader_id = do modify (follow leader_id); reset_election_timer; modify note_contact

-- The entries from the first one on that the log does not hold.
unfoldable pub new_entries : Core → List Entry → List Entry
new_entries s [] = []
new_entries s (e ∷ es) =
    if ltb (last_log_index s) e.index || not (term_at s e.index == e.term)
    then e ∷ es
    else new_entries s es

unfoldable pub has_config : List Entry → Bool
has_config [] = false
has_config (e ∷ es) = (e.type == entry_config) || has_config es

-- What `truncateAndAppend` does to memory before it writes: the cut, and whether a membership
-- change was cut off.
unfoldable pub cut_suffix : ℕ → Core → Bool × Core
cut_suffix first s =
    let kept = first - base_of s.entries in
    (has_config (drop kept s.entries), record s { entries = take kept s.entries })

unfoldable pub overlaps : ℕ → Core → Bool
overlaps first s = not (length s.entries == 0) && leb first (last_log_index s)

unfoldable pub truncate_suffix : ℕ → Exec Bool
truncate_suffix first s =
    if not (overlaps first s)
    then (ok false, s)
    else if ltb first (base_of s.entries)
    then (panic, s)
    else (let (undone, s') = cut_suffix first s in (ok undone, s'))

unfoldable pub push_entries : List Entry → Core → Core
push_entries es s = record s { entries = s.entries ++ es }

-- A cut that undid a membership change forces a full rebuild.
unfoldable pub settle_config : Bool → List Entry → Core → Core
settle_config undone es s = if undone then recalc_config s else note_appended_configs es s

-- `first` is the index of the first of the entries.
unfoldable pub append_at : ℕ → List Entry → Exec (Unit {0})
append_at first es s =
    if leb first s.commit_index
    then (err (truncates_committed first s.commit_index), s)
    else (do
      undone ← truncate_suffix first
      store_append es
      modify (push_entries es)
      modify (settle_config undone es))
        s

-- Called with at least one entry.
unfoldable pub truncate_and_append : List Entry → Exec (Unit {0})
truncate_and_append [] s = (panic, s)
truncate_and_append (e ∷ es) s = append_at e.index (e ∷ es) s

abbrev pub append_new : List Entry → Exec (Unit {0})
append_new [] s = (ok tt, s)
append_new (e ∷ es) s = truncate_and_append (e ∷ es) s

-- The commit index moves to what the leader says, bounded by what this request covers.
unfoldable pub follow_commit : AppendEntriesRequest → Exec (Unit {0})
follow_commit req s =
    if ltb s.commit_index req.leader_commit
    then deliver_committed (record s {
      commit_index = min req.leader_commit (u64 (req.prev_log_index + length req.entries));
    })
    else (ok tt, s)

unfoldable pub reply : AppendEntriesRequest → Bool → ℕ → ℕ → Core → AppendEntriesResponse
reply req success conflict_term conflict_index s = record {
  term = s.term;
  success = success;
  seq = req.seq;
  conflict_term = conflict_term;
  conflict_index = conflict_index;
}

-- The log holds the entry before the new ones.
unfoldable pub accept_entries : AppendEntriesRequest → Exec AppendEntriesResponse
accept_entries req s =
    (do append_new (new_entries s req.entries); follow_commit req; gets (reply req true 0 0)) s

-- The log-matching check and what follows it.
unfoldable pub match_log : AppendEntriesRequest → Exec AppendEntriesResponse
match_log req s =
    let prev = req.prev_log_index in
    if ltb 0 prev && ltb (last_log_index s) prev
    then (ok (reply req false 0 (u64 (last_log_index s + 1)) s), s)
    else if ltb 0 prev && not (term_at s prev == req.prev_log_term)
    then (ok (reply req false (term_at s prev) (first_index_of_term s (term_at s prev) prev) s), s)
    else accept_entries req s

unfoldable pub current_append : AppendEntriesRequest → Exec AppendEntriesResponse
current_append req s =
    if ltb req.term s.term
    then (ok (reply req false 0 0 s), s)
    else (do recognize_leader req.leader_id; match_log req) s

unfoldable pub handle_append_entries : AppendEntriesRequest → Exec AppendEntriesResponse
handle_append_entries req = do adopt_term req.term; current_append req
