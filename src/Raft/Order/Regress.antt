-- ===== src/Raft/Order/Regress.antt =====
-- internal/raft/replication.go, `handleAppendEntries`: the commit index that a short request sets.
use raft_kv.Common.{
  ℕ, zero, suc, ◌+◌, ◌-◌, ◌<◌, ◌≤◌, ◌≡◌, refl, true, false, inl, inr, arith, length, ltb, ◌==◌,
  Bool-cases, u64, min,
}
use raft_kv.Raft.Result.{ok}
use raft_kv.Raft.Core.{Core, AppendEntriesRequest}
use raft_kv.Raft.Replication.{deliver_from, mark_delivered, deliver_committed}
use raft_kv.Raft.Follower.{follow_commit}
use raft_kv.Raft.Order.Shape.{IsLog}

none_due : (n i : ℕ) (s : Core) → n ≡ 0 → deliver_from n i s ≡ (ok tt, s)
unfolding deliver_from
none_due zero i s h = refl
none_due (suc n) i s h = absurd (omega (arith, h))

deliver_nothing : (s : Core) → s.commit_index ≤ s.last_delivered → deliver_committed s ≡ (ok tt, s)
unfolding deliver_committed mark_delivered
deliver_nothing s h =
    let due = none_due (s.commit_index - s.last_delivered) (s.last_delivered + 1) s (omega arith) in
    let marked : ltb s.last_delivered s.commit_index ≡ false = ground arith in
    elim (Bool-cases (length s.entries == 0)) [
      | inl b ↦ rw b refl
      | inr b ↦ rw (b, due, marked) refl
    ]

-- On a well-formed log, a request whose last entry comes before the follower's commit index, from
-- a leader that has committed more than the follower knows, takes the follower's commit index back
-- to that entry.
pub follow_commit-regresses :
    (req : AppendEntriesRequest) (s : Core)
    → IsLog s
    → req.prev_log_index + length req.entries < s.commit_index
    → s.commit_index < req.leader_commit
    → (follow_commit req s
        ≡ (ok tt, record s { commit_index = req.prev_log_index + length req.entries }))
      × ((follow_commit req s).1.commit_index < s.commit_index)
unfolding follow_commit
follow_commit-regresses req s h l c =
    let b : ltb s.commit_index req.leader_commit ≡ true = ground arith in
    let new : min req.leader_commit (u64 (req.prev_log_index + length req.entries))
        ≡ req.prev_log_index + length req.entries =
      omega (arith, h.commit_le, h.fits) in
    let none =
      deliver_nothing (record s { commit_index = req.prev_log_index + length req.entries })
        (omega (arith, h.delivered_eq)) in
    rw (b, new, none) (refl, l)
