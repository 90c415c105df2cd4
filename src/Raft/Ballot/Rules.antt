-- ===== src/Raft/Ballot/Rules.antt =====
-- What a method may do to the term and the vote, and how that composes.
use raft_kv.Common.{ℕ, ◌^◌, ◌<◌, ◌≤◌, ◌≡◌, ◌≢◌, refl, sym, ◌∙◌, some, Bool, true, false, arith}
use raft_kv.Raft.Result.{Result, ok, err, panic}
use raft_kv.Raft.StateFile.{load_term_and_vote, encode_state, load_term_and_vote-encode_state}
use raft_kv.Raft.Core.{Core, Exec, continue, ◌>>=◌}
use raft_kv.Raft.Persist.{done, save_term_and_vote}
use raft_kv.Raft.Disk.{next_fault, atomic_fault}
use raft_kv.Raft.Ballot.Frame.{SameBallot}
use raft_kv.Record.Replace.{write_file_atomic-ok}

-- The file holds what memory holds.
pub record IsSaved (s : Core) : Type 0 where
  pub loads : load_term_and_vote s.disk.state_file.final ≡ ok (s.term, s.voted_for)

-- A run from `s`: the term does not fall, a vote that was cast in it stays, and, unless an error is
-- returned, term and vote are on disk at the end.
pub record IsSafe {A : Type 0} (s : Core) (o : Result A × Core) : Type 0 where
  pub cfg : o.1.cfg ≡ s.cfg
  pub term : s.term ≤ o.1.term
  pub vote : o.1.term ≡ s.term → s.voted_for ≢ 0 → o.1.voted_for ≡ s.voted_for
  pub saved : (a : A) → o.0 ≡ ok a → IsSaved s → IsSaved o.1

pub frame-IsSafe : {A : Type 0} {s : Core} (o : Result A × Core) → SameBallot s o.1 → IsSafe s o
frame-IsSafe o h = record {
  cfg = h.cfg;
  term = omega (arith, h.term);
  vote = λ _ _. h.voted_for;
  saved = λ a _ sv. record { loads = rw (h.state_file, h.term, h.voted_for) sv.loads };
}

continue-IsSafe :
    {A B : Type 0} (s t : Core) (r : Result A) (f : A → Exec B)
    → IsSafe s (r, t)
    → ((a : A) → r ≡ ok a → IsSafe t (f a t))
    → IsSafe s (continue r f t)
continue-IsSafe s t (ok a) f h k =
    let n = k a refl in
    record {
      cfg = n.cfg ∙ h.cfg;
      term = omega (arith, h.term, n.term);
      vote = λ e v.
          let same : t.term ≡ s.term = omega (arith, h.term, n.term, e) in
          let kept = h.vote same v in n.vote (e ∙ sym same) (λ z. v (sym kept ∙ z)) ∙ kept;
      saved = λ b e sv. n.saved b e (h.saved a refl sv);
    }
continue-IsSafe s t (err e) f h k = record {
  cfg = h.cfg;
  term = h.term;
  vote = h.vote;
  saved = λ b e _. cc;
}
continue-IsSafe s t panic f h k = record {
  cfg = h.cfg;
  term = h.term;
  vote = h.vote;
  saved = λ b e _. cc;
}

pub bind-IsSafe :
    {A B : Type 0} (m : Exec A) (f : A → Exec B) (s : Core)
    → IsSafe s (m s)
    → ((a : A) → (m s).0 ≡ ok a → IsSafe (m s).1 (f a (m s).1))
    → IsSafe s ((m >>= f) s)
bind-IsSafe m f s h k = continue-IsSafe s (m s).1 (m s).0 f h k

-- A run after which term and vote are those of `s`, and on disk if no error is returned.
pub record Settles {A : Type 0} (s : Core) (o : Result A × Core) : Type 0 where
  pub cfg : o.1.cfg ≡ s.cfg
  pub term : o.1.term ≡ s.term
  pub voted_for : o.1.voted_for ≡ s.voted_for
  pub saved : (a : A) → o.0 ≡ ok a → IsSaved o.1

done-true : (b : Bool) (a : Unit {0}) → done b ≡ ok a → b ≡ true
done-true true a h = refl
done-true false a h = cc

saved_final :
    (term vote : ℕ) (s : Core) (a : Unit {0})
    → (save_term_and_vote term vote s).0 ≡ ok a
    → (save_term_and_vote term vote s).1.disk.state_file.final ≡ some (encode_state term vote)
unfolding save_term_and_vote
saved_final term vote s a h =
    let fault = atomic_fault (next_fault s.disk.faults) in
    write_file_atomic-ok fault (encode_state term vote) s.disk.state_file (done-true _ a h)

pub save-Settles :
    (s : Core)
    → s.term < 2 ^ 64
    → s.voted_for < 2 ^ 64
    → Settles s (save_term_and_vote s.term s.voted_for s)
unfolding save_term_and_vote
save-Settles s ht hv = record {
  cfg = refl;
  term = refl;
  voted_for = refl;
  saved = λ a e. record {
    loads =
        rw (saved_final s.term s.voted_for s a e)
          (load_term_and_vote-encode_state s.term s.voted_for ht hv);
  };
}

-- Steps that leave the ballot alone may stand before and behind such a run.
Settles-continue :
    {A B : Type 0} (s t : Core) (r : Result A) (f : A → Exec B)
    → Settles s (r, t)
    → ((a : A) (u : Core) → SameBallot u (f a u).1)
    → Settles s (continue r f t)
Settles-continue s t (ok a) f h k =
    let n = k a t in
    record {
      cfg = n.cfg ∙ h.cfg;
      term = n.term ∙ h.term;
      voted_for = n.voted_for ∙ h.voted_for;
      saved =
          λ b e. record { loads = rw (n.state_file, n.term, n.voted_for) (h.saved a refl).loads };
    }
Settles-continue s t (err e) f h k = record {
  cfg = h.cfg;
  term = h.term;
  voted_for = h.voted_for;
  saved = λ b e. cc;
}
Settles-continue s t panic f h k = record {
  cfg = h.cfg;
  term = h.term;
  voted_for = h.voted_for;
  saved = λ b e. cc;
}

pub Settles-bind :
    {A B : Type 0} (m : Exec A) (f : A → Exec B) (s : Core)
    → Settles s (m s)
    → ((a : A) (u : Core) → SameBallot u (f a u).1)
    → Settles s ((m >>= f) s)
Settles-bind m f s h k = Settles-continue s (m s).1 (m s).0 f h k

continue-Settles :
    {A B : Type 0} (s t : Core) (r : Result A) (f : A → Exec B)
    → SameBallot s t
    → ((a : A) → Settles t (f a t))
    → Settles s (continue r f t)
continue-Settles s t (ok a) f h k =
    let n = k a in
    record {
      cfg = n.cfg ∙ h.cfg;
      term = n.term ∙ h.term;
      voted_for = n.voted_for ∙ h.voted_for;
      saved = n.saved;
    }
continue-Settles s t (err e) f h k = record {
  cfg = h.cfg;
  term = h.term;
  voted_for = h.voted_for;
  saved = λ b e. cc;
}
continue-Settles s t panic f h k = record {
  cfg = h.cfg;
  term = h.term;
  voted_for = h.voted_for;
  saved = λ b e. cc;
}

pub frame-Settles :
    {A B : Type 0} (m : Exec A) (f : A → Exec B) (s : Core)
    → SameBallot s (m s).1
    → ((a : A) → Settles (m s).1 (f a (m s).1))
    → Settles s ((m >>= f) s)
frame-Settles m f s h k = continue-Settles s (m s).1 (m s).0 f h k

-- A run that raises the term, or that casts a vote where there was none.
pub Settles-IsSafe :
    {A : Type 0} (s c : Core) (o : Result A × Core)
    → c.cfg ≡ s.cfg
    → s.term ≤ c.term
    → (c.term ≡ s.term → s.voted_for ≢ 0 → c.voted_for ≡ s.voted_for)
    → Settles c o
    → IsSafe s o
Settles-IsSafe s c o same term vote h = record {
  cfg = h.cfg ∙ same;
  term = omega (arith, h.term);
  vote = λ e v. h.voted_for ∙ vote (sym h.term ∙ e) v;
  saved = λ a e _. h.saved a e;
}

pub after_frame :
    {A : Type 0} (s t : Core) (o : Result A × Core) → SameBallot s t → IsSafe t o → IsSafe s o
after_frame s t o h k =
    continue-IsSafe s t (ok tt) (λ _ _. o) (frame-IsSafe (ok tt, t) h) (λ _ _. k)
