-- ===== src/Raft/Ballot/Restart.antt =====
-- internal/raft/core.go, `newCore`: the ballot of a node that is started again.
use raft_kv.Common.{ℕ, ◌≡◌, refl, sym, ap, ◌∙◌, some, List, arith}
use raft_kv.Common.Bytes.{Bytes}
use raft_kv.Common.Assoc.{Map}
use raft_kv.Raft.Result
use raft_kv.Raft.Result.{Result, ok, err, panic, Error, persist_failure}
use raft_kv.Raft.Snapshot.{RaftSnapshot, load_raft_snapshot}
use raft_kv.Raft.Core.{Core, Config}
use raft_kv.Raft.Membership.{recalc_config}
use raft_kv.Raft.Replication.{reset_election_timer}
use raft_kv.Raft.Boot.{
  initial_members, apply_defaults, settle, open_log, fresh_core, boot_log, boot_snapshot, boot,
  new_core,
}
use raft_kv.Raft.Disk.{Disk, content}
use raft_kv.Raft.StateFile.{load_term_and_vote}
use raft_kv.Raft.Ballot.Frame.{SameBallot, SameBallot-trans, timer_frame, recalc_frame}
use raft_kv.Raft.Ballot.Rules.{IsSaved}

-- Where a chain succeeds, its first step did.
first_step :
    {A B : Type 0} (first : Result A) (next : A → Result B) {last : B}
    → (Result.◌>>=◌ first next) ≡ ok last
    → (value : A) × (first ≡ ok value) × (next value ≡ ok last)
first_step panic next h = cc
first_step (err e) next h = cc
first_step (ok value) next h = (value, refl, h)

ok_injective : {A : Type 0} {a b : A} → ok a ≡ ok b → a ≡ b
ok_injective h = cc

settle_ballot : (s u : Core) → settle s ≡ ok u → SameBallot s u
unfolding settle
settle_ballot s u h =
    let t : Core = recalc_config s in
    let (a, timed, e) =
      first_step (reset_election_timer t).0 (λ _. ok (reset_election_timer t).1) h in
    rw (← ok_injective e) (SameBallot-trans (recalc_frame s) (timer_frame t))

boot_log_ballot :
    (cfg : Config) (rng : List ℕ) (disk : Disk) (flags : Map ℕ Bytes) (ballot : ℕ × ℕ)
    (snap : RaftSnapshot) (u : Core)
    → boot_log cfg rng disk flags ballot snap ≡ ok u
    → (u.term ≡ ballot.0) × (u.voted_for ≡ ballot.1) × (u.disk.state_file ≡ disk.state_file)
unfolding boot_log
boot_log_ballot cfg rng disk flags ballot snap u h =
    let (opened, e, k) =
      first_step (open_log snap.last_index (content disk.log_file))
        (λ o. settle (fresh_core cfg rng disk ballot.0 ballot.1 snap flags o.0 o.1)) h in
    let f =
      settle_ballot (fresh_core cfg rng disk ballot.0 ballot.1 snap flags opened.0 opened.1) u k in
    (f.term, f.voted_for, f.state_file)

-- A restarted node has the term and the vote that the file holds.
pub restart_ballot :
    (cfg : Config) (rng : List ℕ) (t u : Core)
    → IsSaved t
    → new_core cfg rng t.disk ≡ ok u
    → (u.term ≡ t.term) × (u.voted_for ≡ t.voted_for) × IsSaved u
unfolding boot boot_snapshot
restart_ballot cfg rng t u sv h =
    let (flags, _, h1) =
      first_step (initial_members (apply_defaults cfg)) (boot (apply_defaults cfg) rng t.disk)
        (past_id h) in
    let cfg' : Config = record (apply_defaults cfg) { members = some flags } in
    let (ballot, loaded, h2) =
      first_step (load_term_and_vote t.disk.state_file.final) (boot_snapshot cfg' rng t.disk flags)
        h1 in
    let (snap, _, h3) =
      first_step (load_raft_snapshot t.disk.snap_file.final) (boot_log cfg' rng t.disk flags ballot)
        h2 in
    let (term, vote, file) = boot_log_ballot cfg' rng t.disk flags ballot snap u h3 in
    let same : ballot ≡ (t.term, t.voted_for) = ok_injective (sym loaded ∙ sv.loads) in
    let term' : u.term ≡ t.term = term ∙ ap (λ p. p.0) same in
    let vote' : u.voted_for ≡ t.voted_for = vote ∙ ap (λ p. p.1) same in
    (term', vote', record { loads = rw (file, term', vote') sv.loads })
  where
    past_id :
        new_core cfg rng t.disk ≡ ok u
        → (Result.◌>>=◌
            (initial_members (apply_defaults cfg))
            (boot (apply_defaults cfg) rng t.disk))
          ≡ ok u
    past_id k = unfold new_core in ground arith
