-- ===== src/Storage/Command.antt =====
-- internal/storage/command.go: one mutation of the key-value state and its wire form.
use raft_kv.Common.{
  ℕ, suc, ◌+◌, ◌%◌, ◌^◌, ◌<◌, ◌≡◌, false, not, ◌&&◌, ◌⊎◌, [], ◌∷◌, ◌++◌, arith, ltb, ◌==◌,
  if◌then◌else◌, u32, length, take, drop, length-append, take-append, drop-append,
}
use raft_kv.Common.Bytes.{Bytes, le32, read32, read32-le32, drop-le32, length-le32}

abbrev pub op_put : ℕ
op_put = 1

abbrev pub op_delete : ℕ
op_delete = 2

-- A key is a string of bytes.
pub record Command : Type 0 where
  pub op : ℕ
  pub key : Bytes
  pub value : Bytes

pub data DecodeError : Type 0 where
  truncated : ℕ → DecodeError
  unknown_op : ℕ → DecodeError
  truncated_in_key : ℕ → ℕ → DecodeError
  value_length : ℕ → ℕ → DecodeError

pub data Decoded : Type 0 where
  command : Command → Decoded
  failed : DecodeError → Decoded

-- What `encodeCommand` appends to its buffer.
unfoldable pub encode_command : Command → Bytes
encode_command c =
    c.op % 256 ∷ (le32 (u32 (length c.key)) ++ (c.key ++ (le32 (u32 (length c.value)) ++ c.value)))

-- `b` is what follows the key.
unfoldable pub decode_value : ℕ → Bytes → Bytes → Decoded
decode_value op key b =
    let value_len = read32 b in
    let value = drop 4 b in
    if not (length value == value_len)
    then failed (value_length value_len (length value))
    else command (record { op = op; key = key; value = value })

-- `b` is what follows the length of the key.
unfoldable pub decode_key : ℕ → ℕ → Bytes → Decoded
decode_key op key_len b =
    if ltb (length b) (key_len + 4)
    then failed (truncated_in_key key_len (length b))
    else decode_value op (take key_len b) (drop key_len b)

unfoldable pub decode_body : ℕ → Bytes → Decoded
decode_body op b =
    if not (op == op_put) && not (op == op_delete)
    then failed (unknown_op op)
    else decode_key op (read32 b) (drop 4 b)

unfoldable pub decode_command : Bytes → Decoded
decode_command [] = failed (truncated 0)
decode_command (op ∷ b) =
    if ltb (length (op ∷ b)) 5 then failed (truncated (length (op ∷ b))) else decode_body op b

pub record IsCommand (c : Command) : Type 0 where
  pub op : (c.op ≡ op_put) ⊎ (c.op ≡ op_delete)
  pub key : length c.key < 2 ^ 32
  pub value : length c.value < 2 ^ 32

decode_value_lem :
    (op : ℕ) (key value : Bytes)
    → length value < 2 ^ 32
    → decode_value op key (le32 (u32 (length value)) ++ value)
      ≡ command (record { op = op; key = key; value = value })
unfolding decode_value
decode_value_lem op key value h =
    let small : u32 (length value) ≡ length value = omega arith in
    rw (small, read32-le32 (length value) value h, drop-le32 (length value) value) (ground arith)

decode_key_lem :
    (op : ℕ) (key value : Bytes)
    → length value < 2 ^ 32
    → decode_key op (length key) (key ++ (le32 (u32 (length value)) ++ value))
      ≡ command (record { op = op; key = key; value = value })
unfolding decode_key
decode_key_lem op key value h =
    let rest : Bytes = le32 (u32 (length value)) ++ value in
    let long : ltb (length (key ++ rest)) (length key + 4) ≡ false = ground (
      arith,
      length-append key rest,
      length-append (le32 (u32 (length value))) value,
      length-le32 (u32 (length value)),
    ) in
    rw (long, take-append key rest, drop-append key rest) (decode_value_lem op key value h)

-- A put or a delete whose key and value are shorter than 2 ^ 32 bytes is read back as it was
-- written.
pub decode_command-encode_command :
    (c : Command) → IsCommand c → decode_command (encode_command c) ≡ command c
unfolding decode_command encode_command decode_body
decode_command-encode_command c h =
    let rest : Bytes = c.key ++ (le32 (u32 (length c.value)) ++ c.value) in
    let known : (not (c.op % 256 == op_put) && not (c.op % 256 == op_delete)) ≡ false =
      ground (arith, h.op) in
    let byte : c.op % 256 ≡ c.op = ground (arith, h.op) in
    let small : u32 (length c.key) ≡ length c.key = omega (arith, h.key) in
    let long : ltb (suc (length (le32 (u32 (length c.key)) ++ rest))) 5 ≡ false =
      ground
        (arith, length-append (le32 (u32 (length c.key))) rest, length-le32 (u32 (length c.key))) in
    rw
      (
        long,
        known,
        small,
        read32-le32 (length c.key) rest h.key,
        drop-le32 (length c.key) rest,
        byte,
      )
      (decode_key_lem c.op c.key c.value h.value)
