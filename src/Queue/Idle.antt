-- ===== src/Queue/Idle.antt =====
-- When the loop of the worker has nothing left to do.
use mathlib.Core.List.{Memᴰ}
use mathlib.Core.List.Memᴰ.{head, tail}
use rookery.Base.{
  subst, ◌⊎◌, ℕ, ◌≡◌, ◌≢◌, ◌<◌, refl, Bool, true, false, Option, none, some, List, [], ◌∷◌, arith,
  Text, All, Bool-cases, inl, inr, sym, ap, ◌∙◌, length,
}
use rookery.Queue.{delivering, update_row, sooner, QueueRow, Rows, is_due, claim_row, HasUniqueIds}
use rookery.Queue.State.{Worker, Round, QueueState}
use rookery.Queue.Worker.{
  commit_claim, Processed, idle, worked, process_one, begin_claim, with_claim, after_round,
  drain_queue,
}
use rookery.Queue.Transport.{load_job}
use rookery.Queue.Progress.{remaining, process_one-lt}
use rookery.Queue.Drain.{attempt-eq-worked, process_one-IsKeyed}

-- No row is due at this time.
abbrev pub NothingDue : ℕ → Rows → Type 0
NothingDue now rows = All (λ x. is_due now x.1 ≡ false) rows

claim_row-NothingDue : (now : ℕ) (rows : Rows) → claim_row now rows ≡ none → NothingDue now rows
unfolding claim_row
claim_row-NothingDue now [] h = tt
claim_row-NothingDue now ((id, r) ∷ rows) h = elim (Bool-cases (is_due now r)) [
  | inl e ↦ absurd (some_due (claim_row now rows) (rw e at h))
  | inr e ↦ (e, claim_row-NothingDue now rows (rw e at h))
]
  where
    some_due : (o : Option (ℕ × QueueRow)) → sooner (id, r) o ≢ none
    some_due none h = cc
    some_due (some (j, q)) h = ground arith

-- The database answers the claims of this round.
abbrev pub Answers : Worker × Round → Type 0
Answers (w, r) =
    (r.begin_err ≡ none)
    × (r.claim_err ≡ none)
    × (r.mark_err ≡ none)
    × (r.commit_err ≡ none)
    × (r.marks ≡ true)

-- Such a round finds nothing due and changes nothing, or works on a row.
process_one-cases :
    (w : Worker) (r : Round) (s : QueueState)
    → Answers (w, r)
    → ((process_one w r s ≡ (idle, s)) × NothingDue r.now s.rows) ⊎ ((process_one w r s).0 ≡ worked)
unfolding process_one begin_claim with_claim commit_claim
process_one-cases w r s (begins, claims, marks, commits, later) =
    begun r.begin_err r.claim_err begins claims
  where
    commit :
        (id : ℕ) (row : QueueRow) (m c : Option Text)
        → m ≡ none
        → c ≡ none
        → (commit_claim w r id row s m c).0 ≡ worked
    commit id row (some e) c h k = cc
    commit id row none (some e) h k = cc
    commit id row none none h k =
        attempt-eq-worked w r id row (load_job w r s.messages row)
          (record s { rows = update_row id (λ row. record row { status = delivering }) s.rows })

    go :
        (c : Option (ℕ × QueueRow))
        → claim_row r.now s.rows ≡ c
        → ((with_claim w r c s ≡ (idle, s)) × NothingDue r.now s.rows)
          ⊎ ((with_claim w r c s).0 ≡ worked)
    go none none_due = inl (refl, claim_row-NothingDue r.now s.rows none_due)
    go (some (id, row)) claimed = inr (commit id row r.mark_err r.commit_err marks commits)

    begun :
        (b c : Option Text)
        → b ≡ none
        → c ≡ none
        → ((begin_claim w r b c s ≡ (idle, s)) × NothingDue r.now s.rows)
          ⊎ ((begin_claim w r b c s).0 ≡ worked)
    begun (some e) c h k = cc
    begun none (some e) h k = cc
    begun none none h k = go (claim_row r.now s.rows) refl

-- Where the loop stops: in one of the rounds, at whose time no row is due.
abbrev pub StopsIdle : List (Worker × Round) → Bool × QueueState → Type 0
StopsIdle rounds out =
    (out.0 ≡ true) × ((x : Worker × Round) × Memᴰ x rounds × NothingDue x.1.now out.1.rows)

-- The loop gets to a round at whose time no row is due, whatever the transports answer: it does not
-- return before, and it does return within as many rounds as the rows have attempts left, and one more.
-- The database answers the claims of each round and makes its updates, and the ids of the rows are a key.
pub drain_queue_idle :
    (rounds : List (Worker × Round)) (s : QueueState)
    → HasUniqueIds s.rows
    → All Answers rounds
    → remaining s.rows < length rounds
    → StopsIdle rounds (drain_queue rounds s)
unfolding drain_queue after_round
drain_queue_idle [] s u m h = absurd (omega arith)
drain_queue_idle ((w, r) ∷ rounds) s u m h =
    go (process_one w r s) refl (process_one-cases w r s m.0)
      (drain_queue_idle rounds (process_one w r s).1 (process_one-IsKeyed w r s u) m.1)
  where
    later :
        (s' : QueueState)
        → StopsIdle rounds (drain_queue rounds s')
        → StopsIdle ((w, r) ∷ rounds) (drain_queue rounds s')
    later s' (back, (x, there, quiet)) = (back, (x, tail there, quiet))

    go :
        (p : Processed × QueueState)
        → process_one w r s ≡ p
        → ((p ≡ (idle, s)) × NothingDue r.now s.rows) ⊎ (p.0 ≡ worked)
        → (remaining (process_one w r s).1.rows < length rounds
            → StopsIdle rounds (drain_queue rounds (process_one w r s).1))
        → StopsIdle ((w, r) ∷ rounds) (after_round p.0 p.1 (drain_queue rounds p.1))
    go p e (inl (quiet, due)) rest =
        subst (λ p. StopsIdle ((w, r) ∷ rounds) (after_round p.0 p.1 (drain_queue rounds p.1)))
          (sym quiet) (refl, ((w, r), head refl, due))
    go p e (inr works) rest =
        let fewer = process_one-lt w r m.0.4 s u (ap (λ p. p.0) e ∙ works) in
        let stopped = rest (omega (arith, fewer)) in
        subst (λ k. StopsIdle ((w, r) ∷ rounds) (after_round k p.1 (drain_queue rounds p.1)))
          (sym works) (later p.1 (subst (λ q. StopsIdle rounds (drain_queue rounds q.1)) e stopped))
