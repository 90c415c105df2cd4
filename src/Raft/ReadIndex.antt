-- ===== src/Raft/ReadIndex.antt =====
-- internal/raft/readindex.go: read barriers, without the heartbeats (`Raft.Replication` sends them).
use raft_kv.Common.{ℕ, Bool, true, false, List, [], ◌∷◌, ◌++◌, leb, if◌then◌else◌, length}
use raft_kv.Common.Assoc.{nat_eq, insert}
use raft_kv.Raft.Core.{Core, PendingRead, ReadOutcome}
use raft_kv.Raft.Log.{majority}

unfoldable pub reached_majority : ℕ → PendingRead → Bool
reached_majority quorum r = leb quorum (length r.acks)

unfoldable pub still_pending : ℕ → List PendingRead → List PendingRead
still_pending quorum [] = []
still_pending quorum (r ∷ rs) =
    if reached_majority quorum r then still_pending quorum rs else r ∷ still_pending quorum rs

unfoldable pub confirmed_reads : ℕ → List PendingRead → List ReadOutcome
confirmed_reads quorum [] = []
confirmed_reads quorum (r ∷ rs) =
    if reached_majority quorum r
    then record { id = r.id; index = r.index; confirmed = true } ∷ confirmed_reads quorum rs
    else confirmed_reads quorum rs

-- The result, whether none remain pending, is `all_confirmed` of the new state.
unfoldable pub confirm_reads : Core → Core
confirm_reads s = record s {
  read_outcomes = s.read_outcomes ++ confirmed_reads (majority s) s.pending_reads;
  pending_reads = still_pending (majority s) s.pending_reads;
}

abbrev pub all_confirmed : Core → Bool
all_confirmed s = elim s.pending_reads [ [] ↦ true | _ ↦ false ]

abbrev is_fresh : ℕ → PendingRead → Bool
is_fresh seq r = leb r.min_seq seq

unfoldable pub count_ack : ℕ → ℕ → List PendingRead → List PendingRead
count_ack from seq [] = []
count_ack from seq (r ∷ rs) =
    (if is_fresh seq r then record r { acks = insert from true r.acks } else r)
    ∷ count_ack from seq rs

unfoldable pub touched : ℕ → List PendingRead → Bool
touched seq [] = false
touched seq (r ∷ rs) = if is_fresh seq r then true else touched seq rs

unfoldable pub note_fresh_ack : ℕ → ℕ → Core → Core
note_fresh_ack from seq s =
    let s' = record s { pending_reads = count_ack from seq s.pending_reads } in
    if touched seq s.pending_reads then confirm_reads s' else s'

unfoldable pub aborted_reads : List PendingRead → List ReadOutcome
aborted_reads [] = []
aborted_reads (r ∷ rs) = record { id = r.id; index = 0; confirmed = false } ∷ aborted_reads rs

unfoldable pub abort_pending_reads : Core → Core
abort_pending_reads s = record s {
  read_outcomes = s.read_outcomes ++ aborted_reads s.pending_reads;
  pending_reads = [];
}

unfoldable pub take_read_outcomes : Core → List ReadOutcome × Core
take_read_outcomes s = (s.read_outcomes, record s { read_outcomes = [] })
