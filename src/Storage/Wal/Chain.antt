-- ===== src/Storage/Wal/Chain.antt =====
-- internal/storage/wal.go, `replayWAL` over segments that follow one another.
use raft_kv.Common.{
  ℕ, zero, suc, ◌+◌, ◌-◌, ◌^◌, ◌<◌, ◌≤◌, ◌≡◌, refl, sym, ap, ◌∙◌, inl, inr, true, false, none, List,
  [], ◌∷◌, ◌++◌, arith, append_assoc, append-nil, length, drop, All, All-append_left,
  All-append_right, length-append, max,
}
use raft_kv.Common.Bytes.{Bytes}
use raft_kv.Common.Assoc.{bytes_key}
use raft_kv.Storage.Command.{Command}
use raft_kv.Storage.MemStore.{Store}
use raft_kv.Storage.Wal.{
  Segment, parse_record, Replayed, replayed, replay_failed, replay_segment, is_newest, replay_wal,
}
use raft_kv.Storage.Wal.Parse.{IsLogged}
use raft_kv.Storage.Wal.Replay.{records, run_command, run_all, replayed_at}
use raft_kv.Storage.Wal.Segments.{left_over, chain_segment_lem}

pub run_all-append :
    (cs ds : List Command) (m : Store) → run_all (cs ++ ds) m ≡ run_all ds (run_all cs m)
unfolding run_all
run_all-append [] ds m = refl
run_all-append (c ∷ cs) ds m = run_all-append cs ds (run_command c m)

drop-append_gen :
    (n : ℕ) (cs ds : List Command) → drop n (cs ++ ds) ≡ drop n cs ++ drop (n - length cs) ds
drop-append_gen zero cs ds = let e : 0 - length cs ≡ 0 = omega arith in rw e refl
drop-append_gen (suc n) [] ds = let e : suc n - 0 ≡ suc n = omega arith in rw e refl
drop-append_gen (suc n) (c ∷ cs) ds =
    let e : suc n - suc (length cs) ≡ n - length cs = omega arith in rw e (drop-append_gen n cs ds)

-- Segments that hold commands one after the other, from the one after `a` on.
unfoldable pub segments_of : ℕ → List (List Command) → List Segment
segments_of a [] = []
segments_of a (c ∷ cs) =
    record { start_seq = suc a; content = records a c } ∷ segments_of (a + length c) cs

unfoldable pub flatten : List (List Command) → List Command
flatten [] = []
flatten (c ∷ cs) = c ++ flatten cs

is_newest-after : (gs : List Segment) (g : Segment) → is_newest (gs ++ (g ∷ [])) ≡ false
unfolding is_newest
is_newest-after [] g = refl
is_newest-after (h ∷ gs) g = refl

replay_wal-cons :
    (g : Segment) (gs : List Segment) (h : Segment) (last : ℕ) (m : Store) (last' off : ℕ)
    (m' : Store)
    → replay_segment (length g.content) false g.start_seq 0 g.content last m ≡ replayed last' off m'
    → replay_wal (g ∷ (gs ++ (h ∷ []))) last m ≡ replay_wal (gs ++ (h ∷ [])) last' m'
unfolding replay_wal is_newest
replay_wal-cons g [] h last m last' off m' e = rw (e, replay_wal) refl
replay_wal-cons g (k ∷ gs) h last m last' off m' e = rw (e, replay_wal) refl

replay_wal-single :
    (g : Segment) (last : ℕ) (m : Store) (r : Replayed)
    → replay_segment (length g.content) true g.start_seq 0 g.content last m ≡ r
    → replay_wal (g ∷ []) last m ≡ r
unfolding replay_wal is_newest
replay_wal-single g last m (replayed l off m') e = rw (e, replay_wal) refl
replay_wal-single g last m (replay_failed x) e = rw (e, replay_wal) refl

-- The commands left over of a list and what follows it.
left_over-append :
    (last a : ℕ) (cs ds : List Command) (m : Store)
    → a ≤ last
    → run_all
        (left_over (max last (a + length cs)) (a + length cs) ds)
        (run_all (left_over last a cs) m)
      ≡ run_all (left_over last a (cs ++ ds)) m
left_over-append last a cs ds m h =
    let e : max last (a + length cs) - (a + length cs) ≡ last - a - length cs = omega arith in
    rw (e, drop-append_gen (last - a) cs ds)
      (sym (run_all-append (left_over last a cs) (drop (last - a - length cs) ds) m))

-- Segments with the commands after `a`, the newest with a torn record or nothing at its end, are
-- replayed on top of a state that covers the commands up to `last`.
pub chain_lem :
    (css : List (List Command)) (cs : List Command) (g : Segment) (tail : Bytes) (a last : ℕ)
    (m : Store)
    → All IsLogged (flatten css ++ cs)
    → a ≤ last
    → a + length (flatten css ++ cs) + 1 < 2 ^ 64
    → g.content ≡ records (a + length (flatten css)) cs ++ tail
    → parse_record tail ≡ none
    → replay_wal (segments_of a css ++ (g ∷ [])) last m
      ≡ replayed
          (max last (a + length (flatten css ++ cs)))
          (length (records (a + length (flatten css)) cs))
          (run_all (left_over last a (flatten css ++ cs)) m)
unfolding segments_of flatten
chain_lem [] cs g tail a last m l h f e t =
    let zero_off : a + 0 ≡ a = omega arith in
    let e' : g.content ≡ records a cs ++ tail = rw zero_off at e in
    replay_wal-single g last m _ (
      ap (λ b. replay_segment (length b) true g.start_seq 0 b last m) e'
      ∙ chain_segment_lem cs (length (records a cs ++ tail)) true g.start_seq 0 tail a last m l h f
          (omega arith) (inr (refl, t))
      ∙ replayed_at (run_all (left_over last a cs) m) refl (rw zero_off (omega arith)))
chain_lem (c ∷ css) cs g tail a last m l h f e t =
    let b : ℕ = a + length c in
    let top : ℕ = max last b in
    let m' : Store = run_all (left_over last a c) m in
    let rest : List Command = flatten css ++ cs in
    let whole : (c ++ flatten css) ++ cs ≡ c ++ rest = append_assoc c (flatten css) cs in
    let l' : All IsLogged (c ++ rest) = rw whole at l in
    let size : length ((c ++ flatten css) ++ cs) ≡ length c + length rest =
      ap length whole ∙ length-append c rest in
    let place : a + length (c ++ flatten css) ≡ b + length (flatten css) =
      omega (arith, length-append c (flatten css)) in
    let first =
      chain_segment_lem c (length (records a c)) false (suc a) 0 [] a last m
        (All-append_left IsLogged c rest l') h (omega (arith, f, size))
        (omega (arith, ap length (append-nil (records a c)))) (inl refl) in
    let bare =
      ap (λ t. replay_segment (length (records a c)) false (suc a) 0 t last m)
        (sym (append-nil (records a c))) in
    replay_wal-cons (record { start_seq = suc a; content = records a c }) (segments_of b css) g last
      m top (length (records a c)) m' (bare ∙ first ∙ replayed_at m' refl (omega arith))
    ∙ chain_lem css cs g tail b top m' (All-append_right IsLogged c rest l') (omega arith)
        (omega (arith, f, size)) (e ∙ ap (λ n. records n cs ++ tail) place) t
    ∙ replayed_at (run_all (left_over top b rest) m') (omega (arith, size))
        (ap (λ n. length (records n cs)) (sym place))
    ∙ ap
        (replayed (max last (a + length ((c ++ flatten css) ++ cs)))
          (length (records (a + length (c ++ flatten css)) cs)))
        (left_over-append last a c rest m h ∙ ap (λ t. run_all (left_over last a t) m) (sym whole))
