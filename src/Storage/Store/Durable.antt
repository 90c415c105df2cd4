-- ===== src/Storage/Store/Durable.antt =====
-- internal/storage/store.go: what the disk holds of the commands that were acknowledged.
use raft_kv.Common.{
  ℕ, zero, suc, ◌+◌, ◌≤◌, ◌≡◌, refl, sym, ap, ◌∙◌, ◌⊎◌, Bool, true, false, Option, none, some, List,
  [], ◌∷◌, ◌++◌, arith, append_assoc, append-nil, length, take, drop, All, length-append, get_last?,
}
use raft_kv.Common.Bytes.{Bytes}
use raft_kv.Common.Assoc.{bytes_key}
use raft_kv.Storage.Command.{Command, encode_command}
use raft_kv.Storage.Wal.{wal_record}
use raft_kv.Storage.Wal.Parse.{IsLogged}
use raft_kv.Storage.Wal.Replay.{records, run_all}
use raft_kv.Storage.Wal.Chain.{segments_of, flatten}
use raft_kv.Storage.Snapshot.{SnapFile, encode_snapshot}
use raft_kv.Storage.Snapshot.Order.{IsOrdered}
use raft_kv.Storage.Store.{DurableStore}

-- What stands behind the acknowledged records of the open segment: nothing while the log works, and
-- part of the record of the command whose append failed.
abbrev pub IsTail : Option Command → ℕ → Bytes → Bool → Type 0
IsTail none seq tail failed = (failed ≡ false) × (tail ≡ [])
IsTail (some d) seq tail failed =
    (failed ≡ true)
    × IsLogged d
    × ((n : ℕ) × (tail ≡ take n (wal_record (suc seq) (encode_command d))))

abbrev pub snapshot_of : ℕ → List Command → SnapFile
snapshot_of n cs = record { seq = n; content = encode_snapshot n (run_all (take n cs) []) }

-- The newest snapshot covers the first `covered` commands, and the segments hold the commands after
-- `base`.
pub record Durable (covered : ℕ) (cs : List Command) (pend : Option Command) (s : DurableStore)
    : Type 0 where
  pub base : ℕ
  pub finished : List (List Command)
  pub active : List Command
  pub tail : Bytes
  pub logged : All IsLogged cs
  pub base_le : base ≤ covered
  pub covered_le : covered ≤ length cs
  pub history : drop base cs ≡ flatten finished ++ active
  pub older : s.older ≡ segments_of base finished
  pub content : s.wal.content ≡ records (base + length (flatten finished)) active ++ tail
  pub start : s.wal_start ≡ suc (base + length (flatten finished))
  pub newer : s.newer ≡ []
  pub mem : s.mem ≡ run_all cs []
  pub seq : s.seq ≡ length cs
  pub ordered : IsOrdered covered s.snaps
  pub newest :
      ((s.snaps ≡ []) × (covered ≡ 0)) ⊎ (get_last? s.snaps ≡ some (snapshot_of covered cs))
  pub torn : IsTail pend (length cs) tail s.wal.failed

abbrev pub IsDurable : List Command → Option Command → DurableStore → Type 0
IsDurable cs pend s = (covered : ℕ) × Durable covered cs pend s

pub segments_of-snoc :
    (a : ℕ) (css : List (List Command)) (c : List Command)
    → segments_of a css
        ++ (record {
          start_seq = suc (a + length (flatten css));
          content = records (a + length (flatten css)) c;
        }
            ∷ [])
      ≡ segments_of a (css ++ (c ∷ []))
unfolding segments_of flatten
segments_of-snoc a [] c = let e : a + 0 ≡ a = omega arith in rw e refl
segments_of-snoc a (d ∷ css) c =
    let e : a + length (d ++ flatten css) ≡ a + length d + length (flatten css) =
      omega (arith, length-append d (flatten css)) in
    rw e (
      ap (λ t. record { start_seq = suc a; content = records a d } ∷ t)
        (segments_of-snoc (a + length d) css c))

pub flatten-snoc :
    (css : List (List Command)) (c : List Command) → flatten (css ++ (c ∷ [])) ≡ flatten css ++ c
unfolding flatten
flatten-snoc [] c = append-nil c
flatten-snoc (d ∷ css) c =
    ap (λ t. d ++ t) (flatten-snoc css c) ∙ sym (append_assoc d (flatten css) c)

-- The segments are dropped from the front.
pub segments_of-drop :
    (k a : ℕ) (css : List (List Command))
    → drop k (segments_of a css) ≡ segments_of (a + length (flatten (take k css))) (drop k css)
unfolding segments_of flatten
segments_of-drop zero a css = let e : a + 0 ≡ a = omega arith in rw e refl
segments_of-drop (suc k) a [] = refl
segments_of-drop (suc k) a (c ∷ css) =
    let e : a + length (c ++ flatten (take k css)) ≡ a + length c + length (flatten (take k css)) =
      omega (arith, length-append c (flatten (take k css))) in
    rw e (segments_of-drop k (a + length c) css)

pub flatten-drop :
    (k : ℕ) (css : List (List Command)) → flatten css ≡ flatten (take k css) ++ flatten (drop k css)
unfolding flatten
flatten-drop zero css = refl
flatten-drop (suc k) [] = refl
flatten-drop (suc k) (c ∷ css) =
    ap (λ t. c ++ t) (flatten-drop k css)
    ∙ sym (append_assoc c (flatten (take k css)) (flatten (drop k css)))
