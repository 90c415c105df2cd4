-- ===== src/Raft/StateFile.antt =====
-- internal/raft/state.go: the file that holds the current term and the vote.
use raft_kv.Common.{
  ℕ, ◌-◌, ◌^◌, ◌<◌, ◌≡◌, not, Option, none, some, [], ◌∷◌, ◌++◌, arith, ◌==◌, ==_refl,
  if◌then◌else◌, length, take, drop,
}
use raft_kv.Common.Bytes.{Bytes, le32, le64, read32, read64, bytes_eq}
use raft_kv.Record.{checksum}
use raft_kv.Record.Framing.{checksum-lt}
use raft_kv.Raft.Result.{Result, ok, err, bad_state_file}

-- "RKVVOTE1"
abbrev pub state_magic : Bytes
state_magic = b'R' ∷ b'K' ∷ b'V' ∷ b'V' ∷ b'O' ∷ b'T' ∷ b'E' ∷ b'1' ∷ []

abbrev pub state_file_size : ℕ
state_file_size = 28

-- Node IDs are 1-based.
abbrev pub no_vote : ℕ
no_vote = 0

-- What every file with a trailing checksum ends in.
abbrev pub with_checksum : Bytes → Bytes
with_checksum b = b ++ le32 (checksum b)

-- The bytes that `saveTermAndVote` writes.
unfoldable pub encode_state : ℕ → ℕ → Bytes
encode_state term voted_for = with_checksum (state_magic ++ (le64 term ++ le64 voted_for))

-- The content of the file, `none` if there is no file.
unfoldable pub load_term_and_vote : Option Bytes → Result (ℕ × ℕ)
load_term_and_vote none = ok (0, no_vote)
load_term_and_vote (some content) =
    let body = take (length content - 4) content in
    let tail = drop (length content - 4) content in
    if not (length content == state_file_size)
    then err bad_state_file
    else if not (checksum body == read32 tail)
    then err bad_state_file
    else if not (bytes_eq (take 8 body) state_magic)
    then err bad_state_file
    else ok (read64 (drop 8 body), read64 (drop 16 body))

-- The term and the vote that were saved are loaded, if they are below 2 ^ 64.
pub load_term_and_vote-encode_state :
    (term voted_for : ℕ)
    → term < 2 ^ 64
    → voted_for < 2 ^ 64
    → load_term_and_vote (some (encode_state term voted_for)) ≡ ok (term, voted_for)
unfolding load_term_and_vote encode_state le64 le32 read32 read64 bytes_eq
load_term_and_vote-encode_state t v ht hv =
    let body : Bytes = state_magic ++ (le64 t ++ le64 v) in
    ground (arith, ==_refl (checksum body), checksum-lt body)
