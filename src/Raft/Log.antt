-- ===== src/Raft/Log.antt =====
-- internal/raft: what the core reads off its log, its membership and its counters.
use raft_kv.Common.{
  ℕ, zero, suc, ◌+◌, ◌-◌, ◌/◌, ◌^◌, Bool, not, ◌||◌, Option, none, some, List, [], ◌∷◌, ltb, leb,
  ◌==◌, if◌then◌else◌, u64, length, get_elem?, get_last?,
}
use raft_kv.Common.Assoc.{keys, has, nat_eq}
use raft_kv.Raft.Entry.{Entry}
use raft_kv.Raft.Core.{Core}

unfoldable pub last_log_index : Core → ℕ
last_log_index s = elim (get_last? s.entries) [ none ↦ s.snap_index | some e ↦ e.index ]

unfoldable pub last_log_term : Core → ℕ
last_log_term s = elim (get_last? s.entries) [ none ↦ s.snap_term | some e ↦ e.term ]

-- c.entries[0].Index
abbrev pub base_of : List Entry → ℕ
base_of [] = 0
base_of (e ∷ _) = e.index

-- c.entries[i-base]; `none` is a panic. The difference of two `uint64` wraps around.
unfoldable pub entry_at : List Entry → ℕ → Option Entry
entry_at es i = get_elem? es (u64 (i + 2 ^ 64 - base_of es))

-- The last branch reads a slice; an index out of range, where Go panics, counts as term 0 here.
unfoldable pub term_at : Core → ℕ → ℕ
term_at s index =
    if index == s.snap_index
    then s.snap_term
    else if (index == 0) || (length s.entries == 0)
    then 0
    else if ltb index (base_of s.entries) || ltb (last_log_index s) index
    then 0
    else elim (entry_at s.entries index) [ none ↦ 0 | some e ↦ e.term ]

unfoldable pub majority : Core → ℕ
majority s = length s.members / 2 + 1

unfoldable pub is_member : Core → Bool
is_member s = has s.cfg.id s.members

abbrev pub without_id : ℕ → List ℕ → List ℕ
without_id me [] = []
without_id me (id ∷ ids) = if id == me then without_id me ids else id ∷ without_id me ids

-- The order is that of the table; Go leaves it open.
unfoldable pub peer_ids : Core → List ℕ
peer_ids s = without_id s.cfg.id (keys s.members)

unfoldable pub log_up_to_date : Core → ℕ → ℕ → Bool
log_up_to_date s last_index last_term =
    if not (last_term == last_log_term s)
    then ltb (last_log_term s) last_term
    else leb (last_log_index s) last_index

-- The loop walks down from `from`, the last argument.
unfoldable pub first_index_of_term : Core → ℕ → ℕ → ℕ
first_index_of_term s term zero = 0
first_index_of_term s term (suc zero) = 1
first_index_of_term s term (suc (suc i)) =
    if term_at s (suc i) == term then first_index_of_term s term (suc i) else suc (suc i)

unfoldable pub index_of_term_from : Core → ℕ → ℕ → ℕ
index_of_term_from s term zero = 0
index_of_term_from s term (suc i) =
    let t = term_at s (suc i) in
    let rest = index_of_term_from s term i in
    if t == term then suc i else if ltb t term || (t == 0) then 0 else rest

unfoldable pub last_index_of_term : Core → ℕ → ℕ
last_index_of_term s term = index_of_term_from s term (last_log_index s)
