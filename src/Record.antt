-- ===== src/Record.antt =====
-- internal/record/record.go: the on-disk records that every durable file is made of.
-- A record is `uint32 length | uint32 crc32c | payload`. `hash/crc32` is the bitwise CRC32-C.
pub mod Framing
pub mod Replace
mod Tests
use Prim.Native.Nat.{bit_xor}
use raft_kv.Common.{
  ℕ, zero, suc, ◌+◌, ◌-◌, ◌/◌, ◌%◌, ◌^◌, Bool, true, false, Option, none, some, List, [], ◌∷◌, ◌++◌,
  ltb, leb, ◌==◌, if◌then◌else◌, u32, length, take, drop,
}
use raft_kv.Common.{◌≡◌, refl}
use raft_kv.Common.Bytes.{Bytes, le32, read32}

-- One bit of the reflected CRC32-C polynomial 0x1EDC6F41.
crc_bit : ℕ → ℕ
crc_bit c = if c % 2 == 1 then bit_xor (c / 2) 0x82f6_3b78 else c / 2

crc_bits : ℕ → ℕ → ℕ
crc_bits zero c = c
crc_bits (suc n) c = crc_bits n (crc_bit c)

crc_update : ℕ → Bytes → ℕ
crc_update c [] = c
crc_update c (b ∷ bs) = crc_update (crc_bits 8 (bit_xor c b)) bs

-- The final complement keeps the result below 2 ^ 32.
unfoldable pub checksum : Bytes → ℕ
unfolding crc_update crc_bits crc_bit
checksum b = 2 ^ 32 - 1 - crc_update (2 ^ 32 - 1) b

abbrev pub header_size : ℕ
header_size = 8

unfoldable pub frame : Bytes → Bytes → Bytes
frame buf payload = buf ++ (le32 (u32 (length payload)) ++ (le32 (checksum payload) ++ payload))

-- `none` is `ok == false`; otherwise the payload and the record's length.
unfoldable pub parse : Bytes → ℕ → Option (Bytes × ℕ)
parse b max_payload =
    let payload_len = read32 b in
    let crc = read32 (drop 4 b) in
    let end = header_size + payload_len in
    let payload = take payload_len (drop header_size b) in
    if ltb (length b) header_size
    then none
    else if ltb max_payload payload_len
    then none
    else if ltb (length b) end
    then none
    else if checksum payload == crc
    then some (payload, end)
    else none

-- The step of `write_file_atomic` that fails, if one does. A write that fails has written some bytes.
pub data AtomicFault : Type 0 where
  at_open : AtomicFault
  at_write : ℕ → AtomicFault
  at_sync at_close at_rename at_sync_dir : AtomicFault

-- A path and its `.tmp` sibling.
pub record FileSlot : Type 0 where
  pub final : Option Bytes
  pub tmp : Option Bytes

-- The calls that `WriteFileAtomic` makes, in its order.
pub data WriteStep : Type 0 where
  open_tmp write_tmp sync_tmp close_tmp rename_tmp sync_dir : WriteStep

abbrev pub write_steps : List WriteStep
write_steps = open_tmp ∷ write_tmp ∷ sync_tmp ∷ close_tmp ∷ rename_tmp ∷ sync_dir ∷ []

-- The files while the call runs. `is_open`: the `.tmp` file was opened, and an error removes it.
-- `is_synced`: its content is on disk. `dir_synced`: so is the rename.
pub record Writing : Type 0 where
  pub slot : FileSlot
  pub is_open : Bool
  pub is_synced : Bool
  pub is_renamed : Bool
  pub dir_synced : Bool

abbrev pub begin_writing : FileSlot → Writing
begin_writing slot = record {
  slot = slot;
  is_open = false;
  is_synced = false;
  is_renamed = false;
  dir_synced = false;
}

abbrev pub written_to : Bytes → Option Bytes → Option Bytes
written_to content none = none
written_to content (some b) = some (b ++ content)

-- A step that works.
abbrev pub do_step : WriteStep → Bytes → Writing → Writing
do_step open_tmp content w = record w {
  slot = record { final = w.slot.final; tmp = some [] };
  is_open = true;
  is_synced = false;
}
do_step write_tmp content w = record w {
  slot = record { final = w.slot.final; tmp = written_to content w.slot.tmp };
  is_synced = false;
}
do_step sync_tmp content w = record w { is_synced = true }
do_step close_tmp content w = w
do_step rename_tmp content w = record w {
  slot = record { final = w.slot.tmp; tmp = none };
  is_renamed = true;
}
do_step sync_dir content w = record w { dir_synced = true }

-- A step that fails, or in which the process stops: a write gets `n` bytes through.
abbrev pub fail_step : WriteStep → ℕ → Bytes → Writing → Writing
fail_step open_tmp n content w = w
fail_step write_tmp n content w = do_step write_tmp (take n content) w
fail_step sync_tmp n content w = w
fail_step close_tmp n content w = w
fail_step rename_tmp n content w = w
fail_step sync_dir n content w = w

-- The steps up to the one at the given place, which fails. `true` if none does.
abbrev pub run_steps : List WriteStep → Option ℕ → ℕ → Bytes → Writing → Bool × Writing
run_steps [] stop n content w = (true, w)
run_steps (s ∷ ss) none n content w = run_steps ss none n content (do_step s content w)
run_steps (s ∷ ss) (some zero) n content w = (false, fail_step s n content w)
run_steps (s ∷ ss) (some (suc k)) n content w =
    run_steps ss (some k) n content (do_step s content w)

abbrev pub place_of : Option AtomicFault → Option ℕ
place_of none = none
place_of (some at_open) = some 0
place_of (some (at_write n)) = some 1
place_of (some at_sync) = some 2
place_of (some at_close) = some 3
place_of (some at_rename) = some 4
place_of (some at_sync_dir) = some 5

abbrev pub bytes_through : Option AtomicFault → ℕ
bytes_through (some (at_write n)) = n
bytes_through _ = 0

-- The deferred function: on an error it removes the `.tmp` file. A failed open returns before it is
-- set up.
abbrev pub clean_up : Bool × Writing → Bool × FileSlot
clean_up (true, w) = (true, w.slot)
clean_up (false, w) =
    (false, if w.is_open then record { final = w.slot.final; tmp = none } else w.slot)

-- Whether the call succeeded, and the files after it.
unfoldable pub write_file_atomic : Option AtomicFault → Bytes → FileSlot → Bool × FileSlot
write_file_atomic fault content slot =
    clean_up
      (run_steps write_steps (place_of fault) (bytes_through fault) content (begin_writing slot))
