-- ===== src/Raft/Ballot/Answers.antt =====
-- internal/raft/replication.go and raftsnap.go: snapshots that arrive, and the answers that a leader gets.
use raft_kv.Common.{ℕ, ◌^◌, ◌<◌, Option, none, some, List, arith, Bool-cases, inl, inr, ltb, ltb→lt}
use raft_kv.Common.Bytes.{Bytes}
use raft_kv.Raft.Entry.{Entry}
use raft_kv.Raft.Snapshot.{RaftSnapshot}
use raft_kv.Raft.Members.{decode_members}
use raft_kv.Raft.Core.{
  Core, modify, gets, ◌>>=◌, AppendEntriesRequest, AppendEntriesResponse, InstallSnapshotRequest,
  InstallSnapshotResponse,
}
use raft_kv.Raft.Persist.{persist_raft_snapshot, log_step, replace_log, store_rewrite}
use raft_kv.Raft.Membership.{recalc_config}
use raft_kv.Raft.Replication.{adopt_term}
use raft_kv.Raft.Follower.{recognize_leader}
use raft_kv.Raft.Leader.{handle_append_response, handle_install_snapshot_response}
use raft_kv.Raft.Install.{
  suffix_after, set_base, move_base, move_to, raise_commit, received, drop_through, compact_through,
  snapshot_at, compact, kept_suffix, adopt_snapshot, replace_suffix, install_decoded, lift, install,
  current_install, handle_install_snapshot,
}
use raft_kv.Raft.Ballot.Frame.{
  SameBallot, SameBallot-refl, SameBallot-trans, bind_frame, recalc_frame,
}
use raft_kv.Raft.Ballot.Following.{recognize_frame}
use raft_kv.Raft.Ballot.Rules.{IsSafe, frame-IsSafe, bind-IsSafe}
use raft_kv.Raft.Ballot.Leading.{response_frame, installed_feed_frame}
use raft_kv.Raft.Ballot.Campaign.{step_down-IsSafe, adopt_term-IsSafe}

rewrite_frame : (es : List Entry) (s : Core) → SameBallot s (store_rewrite es s).1
unfolding store_rewrite
rewrite_frame es s = elim (Bool-cases s.log_failed) [
  | inl e ↦ simp e (SameBallot-refl s)
  | inr e ↦ simp e (
      bind_frame log_step (λ _. replace_log es >>= λ _. log_step) step_frame
        (λ _. bind_frame (replace_log es) (λ _. log_step) replace_frame (λ _. step_frame)) s)
]
  where
    step_frame : (u : Core) → SameBallot u (log_step u).1
    step_frame u = unfold log_step in ground arith

    replace_frame : (u : Core) → SameBallot u (replace_log es u).1
    replace_frame u = unfold replace_log in ground arith

persist_snapshot_frame :
    (snap : RaftSnapshot) (s : Core) → SameBallot s (persist_raft_snapshot snap s).1
unfolding persist_raft_snapshot
persist_snapshot_frame snap s = ground arith

move_frame :
    (snap : RaftSnapshot) (keep : List Entry) (s : Core) → SameBallot s (move_base snap keep s).1
unfolding move_base set_base
move_frame snap keep s =
    bind_frame (store_rewrite keep) (λ _. modify (set_base snap keep)) (rewrite_frame keep)
      (λ _ u. ground arith) s

-- `none` is a panic.
move_to_frame :
    (snap : RaftSnapshot) (keep : Option (List Entry)) (s : Core)
    → SameBallot s (move_to snap keep s).1
unfolding move_to
move_to_frame snap none s = SameBallot-refl s
move_to_frame snap (some keep) s = move_frame snap keep s

pub compact_frame : (i : ℕ) (b : Bytes) (s : Core) → SameBallot s (compact i b s).1
unfolding compact compact_through drop_through
compact_frame i b s =
    let snap : RaftSnapshot = snapshot_at i b s in
    ground (
      arith,
      SameBallot-refl s,
      bind_frame (persist_raft_snapshot snap)
          (λ _ u. move_to snap (suffix_after snap.last_index u.entries) u)
          (persist_snapshot_frame snap)
          (λ _ u. move_to_frame snap (suffix_after snap.last_index u.entries) u) s,
    )

adopt_frame : (snap : RaftSnapshot) (s : Core) → SameBallot s (adopt_snapshot snap s)
unfolding adopt_snapshot raise_commit
adopt_frame snap s =
    let t : Core = raise_commit snap s in
    SameBallot-trans {t = t} (ground arith)
      (SameBallot-trans {t = recalc_config t} (recalc_frame t) (ground arith))

install_decoded_frame : (snap : RaftSnapshot) (s : Core) → SameBallot s (install_decoded snap s).1
unfolding install_decoded replace_suffix
install_decoded_frame snap s =
    bind_frame (persist_raft_snapshot snap)
      (λ _. (λ u. move_to snap (kept_suffix snap.last_index snap.last_term u) u) >>= λ _.
        modify (adopt_snapshot snap))
      (persist_snapshot_frame snap)
      (λ _.
        bind_frame (λ u. move_to snap (kept_suffix snap.last_index snap.last_term u) u)
          (λ _. modify (adopt_snapshot snap))
          (λ u. move_to_frame snap (kept_suffix snap.last_index snap.last_term u) u)
          (λ _. adopt_frame snap))
      s

install_frame : (req : InstallSnapshotRequest) (s : Core) → SameBallot s (install req s).1
unfolding install
install_frame req s = ground (
  arith,
  SameBallot-refl s,
  bind_frame (lift (decode_members req.config)) (λ config. install_decoded (received req config))
      lift_frame (λ config. install_decoded_frame (received req config)) s,
)
  where
    lift_frame : (u : Core) → SameBallot u (lift (decode_members req.config) u).1
    lift_frame u = unfold lift in SameBallot-refl u

current_install_frame :
    (req : InstallSnapshotRequest) (s : Core) → SameBallot s (current_install req s).1
unfolding current_install
current_install_frame req s = elim (Bool-cases (ltb req.term s.term)) [
  | inl e ↦ rw e (SameBallot-refl s)
  | inr e ↦ rw e (
      bind_frame (recognize_leader req.leader_id)
        (λ _. install req >>= λ _. gets (λ t. record { term = t.term }))
        (recognize_frame req.leader_id)
        (λ _.
          bind_frame (install req) (λ _. gets (λ t. record { term = t.term })) (install_frame req)
            (λ _ u. SameBallot-refl u))
        s)
]

pub handle_install_snapshot-IsSafe :
    (req : InstallSnapshotRequest) (s : Core)
    → req.term < 2 ^ 64
    → IsSafe s (handle_install_snapshot req s)
unfolding handle_install_snapshot
handle_install_snapshot-IsSafe req s ht =
    bind-IsSafe (adopt_term req.term) (λ _. current_install req) s (adopt_term-IsSafe req.term s ht)
      (λ a _. frame-IsSafe _ (current_install_frame req (adopt_term req.term s).1))

pub handle_append_response-IsSafe :
    (from : ℕ) (req : AppendEntriesRequest) (resp : AppendEntriesResponse) (s : Core)
    → resp.term < 2 ^ 64
    → IsSafe s (handle_append_response from req resp s)
unfolding handle_append_response
handle_append_response-IsSafe from req resp s ht = elim (Bool-cases (ltb s.term resp.term)) [
  | inl e ↦ rw e (step_down-IsSafe resp.term s (ltb→lt _ _ e) ht)
  | inr e ↦ rw e (frame-IsSafe _ (response_frame from req resp s))
]

pub handle_install_snapshot_response-IsSafe :
    (from : ℕ) (req : InstallSnapshotRequest) (resp : InstallSnapshotResponse) (s : Core)
    → resp.term < 2 ^ 64
    → IsSafe s (handle_install_snapshot_response from req resp s)
unfolding handle_install_snapshot_response
handle_install_snapshot_response-IsSafe from req resp s ht =
    elim (Bool-cases (ltb s.term resp.term)) [
      | inl e ↦ rw e (step_down-IsSafe resp.term s (ltb→lt _ _ e) ht)
      | inr e ↦ rw e (
          frame-IsSafe _ (
            ground (arith, SameBallot-refl s, installed_feed_frame from req.last_included_index s)))
    ]
