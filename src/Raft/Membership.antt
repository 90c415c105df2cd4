-- ===== src/Raft/Membership.antt =====
-- internal/raft/membership.go: the membership that the core acts on.
use raft_kv.Common.{
  ℕ, ◌+◌, Bool, true, false, not, ◌&&◌, List, [], ◌∷◌, ltb, ◌==◌, if◌then◌else◌, u64,
}
use raft_kv.Common.Bytes.{Bytes}
use raft_kv.Common.Assoc.{Map, nat_eq, insert, erase, has}
use raft_kv.Raft.Result.{Result, ok, err, panic}
use raft_kv.Raft.Entry.{Entry, entry_config}
use raft_kv.Raft.Members.{ConfChange, conf_change_add, conf_change_remove, decode_conf_change}
use raft_kv.Raft.Core.{Core, Role, leader}
use raft_kv.Raft.Log.{last_log_index}

abbrev pub is_leader : Role → Bool
is_leader leader = true
is_leader _ = false

-- The table after a change; an unknown operation changes nothing.
unfoldable pub change_table : ConfChange → Map ℕ Bytes → Map ℕ Bytes
change_table cc m =
    if cc.op == conf_change_add
    then insert cc.id cc.addr m
    else if cc.op == conf_change_remove
    then erase cc.id m
    else m

unfoldable pub track : ConfChange → Core → Core
track cc s =
    if cc.op == conf_change_add
    then (if is_leader s.role && not (has cc.id s.next_index)
        then record s {
          next_index = insert cc.id (u64 (last_log_index s + 1)) s.next_index;
          match_index = insert cc.id 0 s.match_index;
        }
        else s)
    else if cc.op == conf_change_remove
    then record s { next_index = erase cc.id s.next_index; match_index = erase cc.id s.match_index }
    else s

unfoldable pub apply_conf_change : ConfChange → ℕ → Core → Core
apply_conf_change cc index s =
    let t = track cc (record s { members = change_table cc s.members }) in
    record t { last_config_index = index; config_version = u64 (t.config_version + 1) }

unfoldable pub apply_decoded : Result ConfChange → ℕ → Core → Core
apply_decoded (ok cc) index s = apply_conf_change cc index s
apply_decoded (err e) index s = s
apply_decoded panic index s = s

unfoldable pub note_appended_configs : List Entry → Core → Core
note_appended_configs [] s = s
note_appended_configs (e ∷ es) s =
    note_appended_configs es
      (if e.type == entry_config then apply_decoded (decode_conf_change e.command) e.index s else s)

unfoldable pub change_decoded : Result ConfChange → Map ℕ Bytes → Map ℕ Bytes
change_decoded (ok cc) m = change_table cc m
change_decoded (err e) m = m
change_decoded panic m = m

-- One log entry's effect on a membership table.
unfoldable pub change_by : Entry → Map ℕ Bytes → Map ℕ Bytes
change_by e m =
    if e.type == entry_config then change_decoded (decode_conf_change e.command) m else m

unfoldable pub decodes : Result ConfChange → Bool
decodes (ok _) = true
decodes _ = false

-- The table and the index of the last configuration entry, from the entries in order.
unfoldable pub fold_configs : List Entry → Map ℕ Bytes → ℕ → Map ℕ Bytes × ℕ
fold_configs [] m last = (m, last)
fold_configs (e ∷ es) m last =
    fold_configs es (change_by e m)
      (if (e.type == entry_config) && decodes (decode_conf_change e.command) then e.index else last)

unfoldable pub recalc_config : Core → Core
recalc_config s =
    let (m, last) = fold_configs s.entries s.snap_config 0 in
    record s { members = m; last_config_index = last; config_version = u64 (s.config_version + 1) }

unfoldable pub config_upto : List Entry → ℕ → Map ℕ Bytes → Map ℕ Bytes
config_upto [] index m = m
config_upto (e ∷ es) index m =
    let rest = config_upto es index (change_by e m) in if ltb index e.index then m else rest

unfoldable pub config_at : Core → ℕ → Map ℕ Bytes
config_at s index = config_upto s.entries index s.snap_config
