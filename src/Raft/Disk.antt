-- ===== src/Raft/Disk.antt =====
-- The files of one node's data directory, and the operating system's failures. Each write takes the
-- next element of `faults`: `none` works, `some n` fails at step `n` or after `n` bytes.
use raft_kv.Common.{ℕ, zero, suc, Bool, true, false, Option, none, some, List, [], ◌∷◌, ◌++◌, take}
use raft_kv.Common.Bytes.{Bytes}
use raft_kv.Record.{AtomicFault, FileSlot}

pub record Disk : Type 0 where
  pub state_file : FileSlot
  pub snap_file : FileSlot
  pub log_file : FileSlot
  pub faults : List (Option ℕ)

abbrev pub next_fault : List (Option ℕ) → Option ℕ
next_fault [] = none
next_fault (f ∷ _) = f

abbrev pub later_faults : List (Option ℕ) → List (Option ℕ)
later_faults [] = []
later_faults (_ ∷ fs) = fs

unfoldable pub atomic_fault : Option ℕ → Option AtomicFault
atomic_fault none = none
atomic_fault (some zero) = some AtomicFault.at_open
atomic_fault (some (suc zero)) = some (AtomicFault.at_write 0)
atomic_fault (some (suc (suc zero))) = some AtomicFault.at_sync
atomic_fault (some (suc (suc (suc zero)))) = some AtomicFault.at_close
atomic_fault (some (suc (suc (suc (suc zero))))) = some AtomicFault.at_rename
atomic_fault (some _) = some AtomicFault.at_sync_dir

abbrev pub content : FileSlot → Bytes
content f = elim f.final [ none ↦ [] | some b ↦ b ]

-- One `Write` and one `Sync` at the end of a file that is open for appending. When either fails, a
-- part of the bytes, or all of them, may have reached the file.
unfoldable pub append_file : Option ℕ → Bytes → FileSlot → Bool × FileSlot
append_file none b f = (true, record f { final = some (content f ++ b) })
append_file (some n) b f = (false, record f { final = some (content f ++ take n b) })
