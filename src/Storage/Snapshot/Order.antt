-- ===== src/Storage/Snapshot/Order.antt =====
-- internal/storage/snapshot.go: which file is the newest after a snapshot and after pruning.
use raft_kv.Common.{
  ℕ, zero, suc, ◌-◌, ◌<◌, ◌≤◌, ◌≡◌, refl, sym, ap, ◌∙◌, ◌⊎◌, inl, inr, true, Option, none, some,
  List, [], ◌∷◌, ◌++◌, arith, ltb, ◌==◌, length, take, drop, get_last?, Bool-cases,
  take-append-drop, length-take,
}
use raft_kv.Storage.Snapshot.{SnapFile, place, remove_files, prune_snapshots}

-- The sequence numbers rise, up to `top`.
abbrev pub IsOrdered : ℕ → List SnapFile → Type 0
IsOrdered top [] = Unit {0}
IsOrdered top (g ∷ []) = g.seq ≤ top
IsOrdered top (g ∷ h ∷ gs) = (g.seq < h.seq) × IsOrdered top (h ∷ gs)

pub IsOrdered-raise :
    (top top' : ℕ) (dir : List SnapFile) → top ≤ top' → IsOrdered top dir → IsOrdered top' dir
IsOrdered-raise top top' [] h o = tt
IsOrdered-raise top top' (g ∷ []) h o = omega arith
IsOrdered-raise top top' (g ∷ k ∷ gs) h o = (o.0, IsOrdered-raise top top' (k ∷ gs) h o.1)

first-le : (top : ℕ) (g : SnapFile) (gs : List SnapFile) → IsOrdered top (g ∷ gs) → g.seq ≤ top
first-le top g [] o = o
first-le top g (h ∷ gs) o = omega (arith, o.0, first-le top h gs o.1)

-- The first file after a file is placed.
place-first :
    (f h : SnapFile) (gs : List SnapFile)
    → (k : SnapFile) × (ks : List SnapFile) × (place f (h ∷ gs) ≡ k ∷ ks)
      × ((k.seq ≡ h.seq) ⊎ (k.seq ≡ f.seq))
unfolding place
place-first f h gs = elim (Bool-cases (ltb h.seq f.seq)) [
  | inl b ↦ (h, place f gs, rw b refl, inl refl)
  | inr b ↦ elim (Bool-cases (h.seq == f.seq)) [
    | inl e ↦ (f, gs, rw (b, e) refl, inr refl)
    | inr e ↦ (f, h ∷ gs, rw (b, e) refl, inr refl)
  ]
]

-- The file with the highest number is placed at the end.
pub place-newest :
    (f : SnapFile) (dir : List SnapFile)
    → IsOrdered f.seq dir
    → (get_last? (place f dir) ≡ some f) × IsOrdered f.seq (place f dir)
unfolding place
place-newest f [] o = (refl, omega arith)
place-newest f (g ∷ []) o = elim (Bool-cases (ltb g.seq f.seq)) [
  | inl b ↦ rw b (refl, ground arith)
  | inr b ↦ let e : (g.seq == f.seq) ≡ true = ground arith in rw (b, e) (refl, omega arith)
]
place-newest f (g ∷ h ∷ gs) o =
    let below : ltb g.seq f.seq ≡ true = ground (arith, o.0, first-le f.seq h gs o.1) in
    let (k, ks, e, up) = place-first f h gs in
    let (last, ordered) = place-newest f (h ∷ gs) o.1 in
    let first : g.seq < k.seq = ground (arith, up, o.0) in
    rw below (before g k ks (place f (h ∷ gs)) e first last ordered)
  where
    before :
        (g k : SnapFile) (ks fs : List SnapFile)
        → fs ≡ k ∷ ks
        → g.seq < k.seq
        → get_last? fs ≡ some f
        → IsOrdered f.seq fs
        → (get_last? (g ∷ fs) ≡ some f) × IsOrdered f.seq (g ∷ fs)
    before g k ks fs e l p q =
        let p' : get_last? (k ∷ ks) ≡ some f = rw e at p in
        let q' : IsOrdered f.seq (k ∷ ks) = rw e at q in rw e (p', (l, q'))

drop_all {ℓ} : {A : Type ℓ} (fs : List A) → drop (length fs) fs ≡ []
drop_all [] = refl
drop_all (f ∷ fs) = drop_all fs

pub remove_files-drop {ℓ} :
    {A : Type ℓ} (fault : Option ℕ) (fs : List A)
    → (k : ℕ) × (k ≤ length fs) × ((remove_files fault fs).1 ≡ drop k fs)
unfolding remove_files
remove_files-drop none fs = (length fs, omega arith, sym (drop_all fs))
remove_files-drop (some k) [] = (0, omega arith, refl)
remove_files-drop (some zero) (f ∷ fs) = (0, omega arith, refl)
remove_files-drop (some (suc k)) (f ∷ fs) =
    let (n, l, e) = remove_files-drop (some k) fs in (suc n, omega arith, e)

drop-IsOrdered : (top k : ℕ) (dir : List SnapFile) → IsOrdered top dir → IsOrdered top (drop k dir)
drop-IsOrdered top zero dir o = o
drop-IsOrdered top (suc k) [] o = tt
drop-IsOrdered top (suc k) (g ∷ []) o = drop-IsOrdered top k [] tt
drop-IsOrdered top (suc k) (g ∷ h ∷ gs) o = drop-IsOrdered top k (h ∷ gs) o.1

drop-last : (k : ℕ) (dir : List SnapFile) → k < length dir → get_last? (drop k dir) ≡ get_last? dir
drop-last zero dir l = refl
drop-last (suc k) [] l = absurd (omega arith)
drop-last (suc k) (g ∷ []) l = absurd (omega arith)
drop-last (suc k) (g ∷ h ∷ gs) l = drop-last k (h ∷ gs) (omega arith)

drop-take :
    (k n : ℕ) (dir : List SnapFile)
    → k ≤ length (take n dir)
    → drop k (take n dir) ++ drop n dir ≡ drop k dir
drop-take zero n dir l = take-append-drop n dir
drop-take (suc k) zero dir l = absurd (omega arith)
drop-take (suc k) (suc n) [] l = absurd (omega arith)
drop-take (suc k) (suc n) (g ∷ gs) l = drop-take k n gs (omega arith)

-- Pruning keeps the newest file, whatever fails.
pub prune-last :
    (fault : Option ℕ) (top : ℕ) (dir : List SnapFile)
    → IsOrdered top dir
    → (get_last? (prune_snapshots fault 2 dir).1 ≡ get_last? dir)
      × IsOrdered top (prune_snapshots fault 2 dir).1
unfolding prune_snapshots
prune-last fault top dir o =
    let n : ℕ = length dir - 2 in
    let (k, l, e) = remove_files-drop fault (take n dir) in
    let whole : (remove_files fault (take n dir)).1 ++ drop n dir ≡ drop k dir =
      ap (λ t. t ++ drop n dir) e ∙ drop-take k n dir l in
    let few : k ≤ n = omega (arith, l, length-take n dir) in
    rw whole (kept k (dir) few, drop-IsOrdered top k dir o)
  where
    kept : (k : ℕ) (fs : List SnapFile) → k ≤ length fs - 2 → get_last? (drop k fs) ≡ get_last? fs
    kept zero fs l = refl
    kept (suc k) [] l = absurd (omega arith)
    kept (suc k) (f ∷ fs) l = drop-last (suc k) (f ∷ fs) (omega arith)
