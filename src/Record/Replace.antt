-- ===== src/Record/Replace.antt =====
-- internal/record/record.go, `WriteFileAtomic`: replacing a file.
use raft_kv.Common.{
  ℕ, zero, suc, ◌≡◌, refl, sym, ap, ◌∙◌, Bool, true, false, not, ◌&&◌, Option, none, some, ◌⊎◌, inl,
  inr, if◌then◌else◌, take,
}
use raft_kv.Common.Bytes.{Bytes}
use raft_kv.Record.{
  AtomicFault, FileSlot, Writing, begin_writing, write_steps, run_steps, write_file_atomic,
}

abbrev cut_to : ℕ → Option Bytes → Option Bytes
cut_to m none = none
cut_to m (some b) = some (take m b)

-- The path after the power is lost: of the new file's content any part may be missing unless it was
-- synced, and the rename may be undone unless the directory was synced.
abbrev pub crash : ℕ → Bool → Option Bytes → Writing → Option Bytes
crash m undone old w =
    if w.is_renamed && (undone && not w.dir_synced)
    then old
    else if w.is_renamed && not w.is_synced
    then cut_to m w.slot.final
    else w.slot.final

-- The old content or the new one.
abbrev pub IsEither : Bytes → FileSlot → Option Bytes → Type 0
IsEither content slot found = (found ≡ slot.final) ⊎ (found ≡ some content)

write_file_atomic_result :
    (fault : Option AtomicFault) (content : Bytes) (slot : FileSlot)
    → (write_file_atomic fault content slot ≡ (true, record { final = some content; tmp = none }))
      ⊎ (((write_file_atomic fault content slot).0 ≡ false)
          × IsEither content slot (write_file_atomic fault content slot).1.final)
unfolding write_file_atomic
write_file_atomic_result none content slot = inl refl
write_file_atomic_result (some AtomicFault.at_open) content slot = inr (refl, inl refl)
write_file_atomic_result (some (AtomicFault.at_write n)) content slot = inr (refl, inl refl)
write_file_atomic_result (some AtomicFault.at_sync) content slot = inr (refl, inl refl)
write_file_atomic_result (some AtomicFault.at_close) content slot = inr (refl, inl refl)
write_file_atomic_result (some AtomicFault.at_rename) content slot = inr (refl, inl refl)
write_file_atomic_result (some AtomicFault.at_sync_dir) content slot = inr (refl, inr refl)

-- The process stops at any step.
stopped :
    (k n m : ℕ) (undone : Bool) (content : Bytes) (slot : FileSlot)
    → IsEither content slot (
        crash m undone slot.final (run_steps write_steps (some k) n content (begin_writing slot)).1)
stopped zero n m undone content slot = inl refl
stopped (suc zero) n m undone content slot = inl refl
stopped (suc (suc zero)) n m undone content slot = inl refl
stopped (suc (suc (suc zero))) n m undone content slot = inl refl
stopped (suc (suc (suc (suc zero)))) n m undone content slot = inl refl
stopped (suc (suc (suc (suc (suc zero))))) n m true content slot = inl refl
stopped (suc (suc (suc (suc (suc zero))))) n m false content slot = inr refl
stopped (suc (suc (suc (suc (suc (suc k)))))) n m true content slot = inr refl
stopped (suc (suc (suc (suc (suc (suc k)))))) n m false content slot = inr refl

-- A call that returns has put the new content in place, which then outlives a loss of power, or it
-- has failed with the old content or the new one in place. If the power is lost at any step, with
-- any part of a write done, any part of what was not synced lost, and the rename undone or not,
-- the path holds the old content or the new one, and never a part of either.
pub write_file_atomic_lem :
    (fault : Option AtomicFault) (k n m : ℕ) (undone : Bool) (content : Bytes) (slot : FileSlot)
    → ((write_file_atomic fault content slot ≡ (true, record { final = some content; tmp = none }))
        ⊎ (((write_file_atomic fault content slot).0 ≡ false)
            × IsEither content slot (write_file_atomic fault content slot).1.final))
      × (crash m undone slot.final (run_steps write_steps none n content (begin_writing slot)).1
          ≡ some content)
      × IsEither content slot (
          crash m undone slot.final
            (run_steps write_steps (some k) n content (begin_writing slot)).1)
write_file_atomic_lem fault k n m true content slot =
    (write_file_atomic_result fault content slot, refl, stopped k n m true content slot)
write_file_atomic_lem fault k n m false content slot =
    (write_file_atomic_result fault content slot, refl, stopped k n m false content slot)

pub write_file_atomic-ok :
    (fault : Option AtomicFault) (content : Bytes) (slot : FileSlot)
    → (write_file_atomic fault content slot).0 ≡ true
    → (write_file_atomic fault content slot).1.final ≡ some content
write_file_atomic-ok fault content slot h = elim (write_file_atomic_result fault content slot) [
  | inl p ↦ ap (λ (r : Bool × FileSlot). r.1.final) p
  | inr p ↦ contradict (sym h ∙ p.0)
]
  where
    contradict : {A : Type 0} → true ≡ false → A
    contradict e = cc
