-- ===== src/Raft/Order/Follow.antt =====
-- internal/raft/replication.go, `handleAppendEntries`: the log of a follower after any request.
use raft_kv.Common.{
  ℕ, ◌+◌, ◌<◌, ◌≤◌, ◌≡◌, refl, sym, ap, ◌∙◌, true, false, not, ◌&&◌, ◌⊎◌, inl, inr, arith, length,
  ltb, ◌==◌, Bool-cases, u64,
}
use raft_kv.Raft.Result.{Result, ok, err, panic}
use raft_kv.Raft.Core.{
  Core, AppendEntriesRequest, AppendEntriesResponse, Exec, continue, ◌>>◌, gets,
}
use raft_kv.Raft.ReadIndex.{abort_pending_reads}
use raft_kv.Raft.Persist.{save_term_and_vote}
use raft_kv.Raft.Log.{last_log_index, term_at, first_index_of_term}
use raft_kv.Raft.Replication.{reset_election_timer, adopt_term, step_down, stand_down}
use raft_kv.Raft.Follower.{
  follow, note_contact, new_entries, append_new, follow_commit, reply, accept_entries, match_log,
  current_append, recognize_leader, handle_append_entries,
}
use raft_kv.Raft.Order.Shape.{IsLog, last_log_index-eq}
use raft_kv.Raft.Order.Frame.{SameLog, SameLog-refl, IsLog-same, adopt_log, recognize_log}
use raft_kv.Raft.Order.Append.{IsHandled, AppendResult, append_new_lem}
use raft_kv.Raft.Order.Terms.{Replaced-end, Replaced-Holds, term_at-kept}
use raft_kv.Raft.Order.Fresh.{Fresh, new_entries_lem}
use raft_kv.Raft.Order.Request.{
  Advanced, IsAppend, Advanced-same, Advanced-Replaced, Followed, Advanced-trans, answer_lem,
  MatchesIf-from,
}

rest_of_answer : AppendEntriesRequest → Exec AppendEntriesResponse
rest_of_answer req = follow_commit req >> gets (reply req true 0 0)

-- All that is new is appended, or nothing is.
after_append :
    (req : AppendEntriesRequest) (s : Core)
    → IsLog s
    → IsAppend s req
    → (f : Fresh s req.prev_log_index req.entries (new_entries s req.entries))
    → (req.prev_log_index ≡ 0) ⊎ (term_at s req.prev_log_index ≡ req.prev_log_term)
    → 0 < length (new_entries s req.entries)
    → (r : Result (Unit {0})) (t : Core) → AppendResult f.start (new_entries s req.entries) s (r, t)
    → Followed req s (continue r (λ _. rest_of_answer req) t)
unfolding rest_of_answer
after_append req s h a f m z (ok u) t p =
    let g : Advanced s t =
      Advanced-Replaced h p f.consecutive (omega (arith, f.same_end, a.fits)) in
    let kept : (i : ℕ) → i ≤ f.start → term_at t i ≡ term_at s i =
      λ i l. term_at-kept i h g.log p l in
    answer_lem req s t h a g p.commit_index (record {
      previous = elim m [ inl z ↦ inl z | inr z ↦ inr (kept req.prev_log_index f.start_ge ∙ z) ];
      held = f.held t kept (Replaced-Holds h g.log p f.consecutive);
      written = record {
        known = f.known;
        new = new_entries s req.entries;
        split = f.split;
        before = f.before;
        conflict = f.conflict;
        entries = inr (z, rw (← f.start_eq) p.entries);
      };
      reached = omega (arith, f.same_end, Replaced-end h p);
    })
after_append req s h a f m z (err e) t (inl p) =
    Advanced-Replaced h p tt (omega (arith, p.reached, h.fits))
after_append req s h a f m z (err e) t (inr p) = Advanced-same h p
after_append req s h a f m z panic t p = elim p [ ]

accept_lem :
    (req : AppendEntriesRequest) (s : Core)
    → IsLog s
    → IsAppend s req
    → req.prev_log_index ≤ s.snap_index + length s.entries
    → (req.prev_log_index ≡ 0) ⊎ (term_at s req.prev_log_index ≡ req.prev_log_term)
    → Followed req s (accept_entries req s)
unfolding accept_entries rest_of_answer
accept_lem req s h a l m =
    let f : Fresh s req.prev_log_index req.entries (new_entries s req.entries) =
      new_entries_lem s req.prev_log_index req.entries h.contiguous a.consecutive l in
    elim (append_new_lem f.start (new_entries s req.entries) s h f.consecutive f.start_le) [
      | inl (none_new, same) ↦ rw same (
          answer_lem req s s h a (Advanced-same h (SameLog-refl s)) refl (record {
            previous = m;
            held = f.held s (λ i k. refl) (rw none_new tt);
            written = record {
              known = f.known;
              new = new_entries s req.entries;
              split = f.split;
              before = f.before;
              conflict = f.conflict;
              entries = inl (none_new, refl);
            };
            reached =
                (let e : length (new_entries s req.entries) ≡ 0 = ap length none_new in
                  omega (arith, f.same_end, f.start_le, e));
          }))
      | inr (z, p) ↦
          after_append req s h a f m z (append_new (new_entries s req.entries) s).0
            (append_new (new_entries s req.entries) s).1 p
    ]

refused :
    (req : AppendEntriesRequest) (conflict_term conflict_index : ℕ) (s : Core)
    → IsLog s
    → Followed req s (ok (reply req false conflict_term conflict_index s), s)
unfolding reply
refused req i j s h = (Advanced-same h (SameLog-refl s), tt)

match_lem :
    (req : AppendEntriesRequest) (s : Core)
    → IsLog s
    → IsAppend s req
    → Followed req s (match_log req s)
unfolding match_log
match_lem req s h a =
    elim (Bool-cases (ltb 0 req.prev_log_index && ltb (last_log_index s) req.prev_log_index)) [
      | inl b ↦ rw b (refused req 0 (u64 (last_log_index s + 1)) s h)
      | inr b ↦
          elim (Bool-cases
            (ltb 0 req.prev_log_index && not (term_at s req.prev_log_index == req.prev_log_term))) [
              | inl c ↦
                  rw (b, c)
                    (refused req (term_at s req.prev_log_index)
                      (first_index_of_term s (term_at s req.prev_log_index) req.prev_log_index) s h)
              | inr c ↦
                  rw (b, c)
                    (accept_lem req s h a (ground (arith, b, last_log_index-eq s h.contiguous))
                      (ground (arith, c)))
            ]
    ]

recognize_fine :
    (id : ℕ) (s : Core)
    → s.cfg.election_ticks_min < s.cfg.election_ticks_max
    → (recognize_leader id s).0 ≡ ok tt
unfolding recognize_leader follow note_contact reset_election_timer
recognize_fine id s h = ground arith

adopt-IsHandled : (t : ℕ) (s : Core) → IsHandled (adopt_term t s).0
unfolding adopt_term step_down stand_down abort_pending_reads save_term_and_vote
adopt-IsHandled t s = ground arith

IsAppend-same :
    {req : AppendEntriesRequest} {s t : Core} → SameLog s t → IsAppend s req → IsAppend t req
IsAppend-same f a = record {
  consecutive = a.consecutive;
  fits = a.fits;
  current = rw f.commit_index a.current;
}

Followed-same :
    (req : AppendEntriesRequest) {s t : Core}
    → IsLog s
    → SameLog s t
    → (r : Result AppendEntriesResponse) (u : Core) → Followed req t (r, u)
    → Followed req s (r, u)
Followed-same req {s} {t} h f (ok resp) u p = (
  Advanced-trans h (Advanced-same h f) f.commit_index p.0,
  MatchesIf-from resp.success req s t u
      (record {
        entries = sym f.entries;
        snap_index = sym f.snap_index;
        snap_term = sym f.snap_term;
      })
      p.1,
)
Followed-same req h f (err e) u p = Advanced-trans h (Advanced-same h f) f.commit_index p
Followed-same req h f panic u p = elim p [ ]

-- Timing that `rng.Intn` can use.
abbrev pub HasTiming : Core → Type 0
HasTiming s = s.cfg.election_ticks_min < s.cfg.election_ticks_max

current_lem :
    (req : AppendEntriesRequest) (s : Core)
    → IsLog s
    → IsAppend s req
    → HasTiming s
    → Followed req s (current_append req s)
unfolding current_append
current_lem req s h a k = elim (Bool-cases (ltb req.term s.term)) [
  | inl b ↦ rw b (refused req 0 0 s h)
  | inr b ↦
      let t : Core = (recognize_leader req.leader_id s).1 in
      let f : SameLog s t = recognize_log req.leader_id s in
      rw (b, recognize_fine req.leader_id s k)
        (Followed-same req h f (match_log req t).0 (match_log req t).1
          (match_lem req t (IsLog-same f h) (IsAppend-same f a)))
]

then_lem :
    (req : AppendEntriesRequest) (s : Core) (r : Result (Unit {0})) (t : Core)
    → IsLog s
    → SameLog s t
    → IsHandled r
    → Followed req t (current_append req t)
    → Followed req s (continue r (λ _. current_append req) t)
then_lem req s (ok u) t h f g p =
    Followed-same req h f (current_append req t).0 (current_append req t).1 p
then_lem req s (err e) t h f g p = Advanced-same h f
then_lem req s panic t h f g p = elim g [ ]

-- On a well-formed log, with an election timeout range that is not empty, a request with
-- consecutive entries and a commit index that the follower has reached or that the entries do not
-- fall short of is handled without a panic, whatever fails on disk. The log stays well formed, no
-- committed entry changes and the commit index does not go back; and after an answer of success
-- the log holds the entry before the new ones and all of them, with the leader's terms, and from
-- the first one that it did not hold on, if there is one, it ends with exactly those entries.
pub handle_append_entries-Followed :
    (req : AppendEntriesRequest) (s : Core)
    → IsLog s
    → IsAppend s req
    → HasTiming s
    → Followed req s (handle_append_entries req s)
unfolding handle_append_entries
handle_append_entries-Followed req s h a k =
    let t : Core = (adopt_term req.term s).1 in
    let f : SameLog s t = adopt_log req.term s in
    then_lem req s (adopt_term req.term s).0 t h f (adopt-IsHandled req.term s)
      (current_lem req t (IsLog-same f h) (IsAppend-same f a) (simp f.cfg k))
