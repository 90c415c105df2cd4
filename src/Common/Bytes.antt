-- ===== src/Common/Bytes.antt =====
-- Byte sequences: Go's `[]byte` and `string` are lists of numbers below 256, and
-- `binary.LittleEndian` writes and reads fixed-width words.
use raft_kv.Common.Compare.{◌==◌}
use raft_kv.Common.Lists.{length, drop}
use Prim.Native.Nat.{ℕ, ◌+◌, ◌*◌, ◌/◌, ◌%◌, ◌^◌, ◌<◌}
use mathlib.Core.Path.{◌≡◌, refl}
use mathlib.Core.Logic.{◌↔◌}
use mathlib.Core.Bool.{Bool, true, false, ◌&&◌}
use mathlib.Core.List.{List, [], ◌∷◌, ◌++◌}
use native.Mathlib.Omega.{arith}

abbrev pub Bytes : Type 0
Bytes = List ℕ

-- `binary.LittleEndian.AppendUint32`, `AppendUint64`: the bytes that are appended.
unfoldable pub le32 : ℕ → Bytes
le32 n = n % 256 ∷ n / 2 ^ 8 % 256 ∷ n / 2 ^ 16 % 256 ∷ n / 2 ^ 24 % 256 ∷ []

unfoldable pub le64 : ℕ → Bytes
unfolding le32
le64 n = le32 n ++ le32 (n / 2 ^ 32)

-- `binary.LittleEndian.Uint32`, `Uint64`. Every call in the program stands behind a length test;
-- the value on a shorter slice, where Go panics, is never used.
unfoldable pub read32 : Bytes → ℕ
read32 (a ∷ b ∷ c ∷ d ∷ _) = a + b * 2 ^ 8 + c * 2 ^ 16 + d * 2 ^ 24
read32 _ = 0

unfoldable pub read64 : Bytes → ℕ
unfolding read32
read64 b = read32 b + read32 (drop 4 b) * 2 ^ 32

pub length-le32 : (n : ℕ) → length (le32 n) ≡ 4
unfolding le32
length-le32 n = refl

pub length-le64 : (n : ℕ) → length (le64 n) ≡ 8
unfolding le64
length-le64 n = refl

pub read32-le32 : (n : ℕ) (rest : Bytes) → n < 2 ^ 32 → read32 (le32 n ++ rest) ≡ n
unfolding le32 read32
read32-le32 n rest h = omega arith

pub read64-le64 : (n : ℕ) (rest : Bytes) → n < 2 ^ 64 → read64 (le64 n ++ rest) ≡ n
unfolding le64 read64
read64-le64 n rest h = omega arith

pub drop-le32 : (n : ℕ) (rest : Bytes) → drop 4 (le32 n ++ rest) ≡ rest
unfolding le32
drop-le32 n rest = refl

pub drop-le64 : (n : ℕ) (rest : Bytes) → drop 8 (le64 n ++ rest) ≡ rest
unfolding le64
drop-le64 n rest = refl

-- Equality of byte strings.
unfoldable pub bytes_eq : Bytes → Bytes → Bool
bytes_eq [] [] = true
bytes_eq (a ∷ as') (b ∷ bs) = (a == b) && bytes_eq as' bs
bytes_eq _ _ = false

pub bytes_eq_refl : (b : Bytes) → bytes_eq b b ≡ true
unfolding bytes_eq
bytes_eq_refl [] = refl
bytes_eq_refl (a ∷ b) = ground (arith, bytes_eq_refl b)

pub bytes_eq→eq : (a b : Bytes) → bytes_eq a b ≡ true → a ≡ b
unfolding bytes_eq
bytes_eq→eq [] [] h = refl
bytes_eq→eq [] (b ∷ bs) h = cc
bytes_eq→eq (a ∷ as') [] h = cc
bytes_eq→eq (a ∷ as') (b ∷ bs) h = ground (arith, bytes_eq→eq as' bs)

pub bytes_eq_iff : (a b : Bytes) → (bytes_eq a b ≡ true) ↔ (a ≡ b)
bytes_eq_iff a b = (bytes_eq→eq a b, λ e. rw e (bytes_eq_refl b))
