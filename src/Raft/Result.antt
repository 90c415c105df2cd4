-- ===== src/Raft/Result.antt =====
-- Go's `(value, error)` results of internal/raft, with the run-time panics of slices and maps.
use raft_kv.Common.{ℕ}

-- One constructor for each error that the package builds. `persist_failure` is what wraps
-- `errPersistFailure`; `disk_failed` is an error of the operating system.
pub data Error : Type 0 where
  not_leader : ℕ → Error
  leader_not_ready : Error
  persist_failure : Error
  disk_failed : Error
  log_failed : Error
  non_contiguous : ℕ → ℕ → Error
  truncates_committed : ℕ → ℕ → Error
  change_in_flight : ℕ → ℕ → Error
  already_member : ℕ → Error
  not_member : ℕ → Error
  bad_conf_change : Error
  bad_members : Error
  bad_state_file : Error
  bad_snapshot : Error
  bad_log : ℕ → ℕ → Error
  not_applied : ℕ → ℕ → Error
  bad_config : Error

pub data Result {ℓ} (A : Type ℓ) : Type ℓ where
  ok : A → Result A
  err : Error → Result A
  panic : Result A

infixl 5 ◌>>=◌
abbrev pub ◌>>=◌ : {A B : Type 0} (r : Result A) (next : A → Result B) → Result B
panic >>= next = panic
err e >>= next = err e
ok a >>= next = next a
