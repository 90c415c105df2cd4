-- ===== src/Storage/Wal/Recovery.antt =====
-- internal/storage/wal.go and store.go: what recovery finds after appends.
use raft_kv.Common.{
  ℕ, suc, ◌+◌, ◌^◌, ◌<◌, ◌≡◌, refl, sym, ap, ◌∙◌, true, false, none, some, List, [], ◌∷◌, ◌++◌,
  arith, append_assoc, append-nil, length, take, All, All-append, length-append,
}
use raft_kv.Common.Bytes.{Bytes}
use raft_kv.Common.Assoc.{bytes_key}
use raft_kv.Record.{parse}
use raft_kv.Storage.Command.{Command, encode_command}
use raft_kv.Storage.Wal.{
  disk_failed, Wal, at_write, at_sync, append, wal_record, parse_record, Replayed, replayed,
  is_newest, replay_wal,
}
use raft_kv.Storage.Wal.Parse.{IsLogged, parse_record-torn}
use raft_kv.Storage.Wal.Replay.{records, run_all, logged_size, replayed_at, segment_lem}

-- Appends that all succeed, with consecutive sequence numbers.
unfoldable pub append_all : ℕ → List Command → Wal → Wal
append_all last [] w = w
append_all last (c ∷ cs) w =
    append_all (suc last) cs (append none (suc last) (encode_command c) w).1

abbrev pub empty_wal : Wal
empty_wal = record { content = []; size = 0; failed = false }

pub appended :
    (seq : ℕ) (cmd : Bytes) (w : Wal)
    → w.failed ≡ false
    → append none seq cmd w ≡ (
      none,
      record w {
        content = w.content ++ wal_record seq cmd;
        size = w.size + length (wal_record seq cmd);
      },
    )
unfolding append
appended seq cmd w h = rw h refl

append_all-records :
    (cs : List Command) (last : ℕ) (w : Wal)
    → w.failed ≡ false
    → ((append_all last cs w).content ≡ w.content ++ records last cs)
      × ((append_all last cs w).failed ≡ false)
unfolding append_all records
append_all-records [] last w h = (sym (append-nil w.content), h)
append_all-records (c ∷ cs) last w h =
    let rec : Bytes = wal_record (suc last) (encode_command c) in
    let w' : Wal = record w { content = w.content ++ rec; size = w.size + length rec } in
    let (same, up) = append_all-records cs (suc last) w' h in
    rw (appended (suc last) (encode_command c) w h, append_all)
      (same ∙ append_assoc w.content rec (records (suc last) cs), up)

-- Recovery of a directory that holds one segment, from its start.
abbrev pub recover : Bytes → Replayed
recover b = replay_wal (record { start_seq = 1; content = b } ∷ []) 0 []

recover_lem :
    (cs : List Command) (tail : Bytes)
    → All IsLogged cs
    → length cs + 1 < 2 ^ 64
    → parse_record tail ≡ none
    → recover (records 0 cs ++ tail) ≡ replayed (length cs) (length (records 0 cs)) (run_all cs [])
unfolding replay_wal is_newest
recover_lem cs tail a f h =
    let all =
      segment_lem cs (length (records 0 cs ++ tail)) 1 0 tail 0 [] a (omega arith) (omega arith) h
      ∙ replayed_at (run_all cs []) (omega arith) (omega arith) in
    rw (all, replay_wal) refl

acknowledged : (cs : List Command) → (append_all 0 cs empty_wal).content ≡ records 0 cs
acknowledged cs = (append_all-records cs 0 empty_wal refl).0

append-torn :
    (n seq : ℕ) (cmd : Bytes) (w : Wal)
    → w.failed ≡ false
    → (append (some (at_write n)) seq cmd w).1.content ≡ w.content ++ take n (wal_record seq cmd)
unfolding append
append-torn n seq cmd w h = rw h refl

append-unsynced :
    (seq : ℕ) (cmd : Bytes) (w : Wal)
    → w.failed ≡ false
    → append (some at_sync) seq cmd w
      ≡ (some disk_failed, record w { content = w.content ++ wal_record seq cmd; failed = true })
unfolding append
append-unsynced seq cmd w h = rw h refl

-- Commands of a size that the log holds were appended one after the other from an empty segment,
-- and a last append failed before all of its record was written: recovery gives the state after
-- exactly the acknowledged commands, the number of the last of them, and the offset where its
-- record ends.
pub recover_torn :
    (cs : List Command) (d : Command) (n : ℕ)
    → All IsLogged cs
    → IsLogged d
    → length cs + 2 < 2 ^ 64
    → n < length (wal_record (suc (length cs)) (encode_command d))
    → recover
        (append
          (some (at_write n))
          (suc (length cs))
          (encode_command d)
          (append_all 0 cs empty_wal)).1.content
      ≡ replayed (length cs) (length (append_all 0 cs empty_wal).content) (run_all cs [])
recover_torn cs d n a k f l =
    let up = (append_all-records cs 0 empty_wal refl).1 in
    let torn = append-torn n (suc (length cs)) (encode_command d) (append_all 0 cs empty_wal) up in
    let cut = parse_record-torn (suc (length cs)) n (encode_command d) (logged_size d k) l in
    rw (torn, acknowledged cs)
      (recover_lem cs (take n (wal_record (suc (length cs)) (encode_command d))) a (omega arith)
        cut)

pub parse_record_empty : parse_record [] ≡ none
unfolding parse_record parse
parse_record_empty = refl

pub records-append :
    (cs : List Command) (last : ℕ) (d : Command)
    → records last (cs ++ (d ∷ []))
      ≡ records last cs ++ wal_record (suc (last + length cs)) (encode_command d)
unfolding records
records-append [] last d =
    append-nil (wal_record (suc last) (encode_command d))
    ∙ ap (λ n. wal_record (suc n) (encode_command d)) (omega arith)
records-append (c ∷ cs) last d =
    ap (λ b. wal_record (suc last) (encode_command c) ++ b)
      (records-append cs (suc last) d
        ∙ ap (λ n. records (suc last) cs ++ wal_record (suc n) (encode_command d)) (omega arith))
    ∙ sym (
        append_assoc (wal_record (suc last) (encode_command c)) (records (suc last) cs)
          (wal_record (suc (last + suc (length cs))) (encode_command d)))

-- Commands of a size that the log holds were appended one after the other from an empty segment,
-- and a last append wrote its record and failed to sync it: it returns an error, and recovery that
-- finds the record applies its command all the same.
pub recover_unsynced :
    (cs : List Command) (d : Command)
    → All IsLogged cs
    → IsLogged d
    → length cs + 2 < 2 ^ 64
    → ((append (some at_sync) (suc (length cs)) (encode_command d) (append_all 0 cs empty_wal)).0
        ≡ some disk_failed)
      × (recover
            (append
              (some at_sync)
              (suc (length cs))
              (encode_command d)
              (append_all 0 cs empty_wal)).1.content
          ≡ replayed
              (suc (length cs))
              (length (records 0 (cs ++ (d ∷ []))))
              (run_all (cs ++ (d ∷ [])) []))
recover_unsynced cs d a k f =
    let up = (append_all-records cs 0 empty_wal refl).1 in
    let kept =
      append-unsynced (suc (length cs)) (encode_command d) (append_all 0 cs empty_wal) up in
    let size : length (cs ++ (d ∷ [])) ≡ suc (length cs) =
      omega (arith, length-append cs (d ∷ [])) in
    let whole =
      recover_lem (cs ++ (d ∷ [])) [] (All-append IsLogged cs (d ∷ []) a (k, tt))
        (omega (arith, size)) parse_record_empty in
    let same : records 0 cs ++ wal_record (suc (length cs)) (encode_command d)
        ≡ records 0 (cs ++ (d ∷ [])) ++ [] =
      ap (λ n. records 0 cs ++ wal_record (suc n) (encode_command d)) (omega arith)
      ∙ sym (append-nil (records 0 (cs ++ (d ∷ []))) ∙ records-append cs 0 d) in
    rw (kept, acknowledged cs)
      (refl, ap recover same ∙ whole ∙ replayed_at (run_all (cs ++ (d ∷ [])) []) size refl)
