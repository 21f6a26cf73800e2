-- ===== src/Queue/Drain.antt =====
-- internal/queue/queue.go: the end of the loop of drainQueue, and the index into the table of delays.
use rookery.Base.{
  get_elem?-some, Option-cases, ℕ, ◌+◌, ◌<◌, ◌≡◌, ◌≢◌, refl, true, Option, none, some, List, [],
  ◌∷◌, arith, Text, length, get_elem?, lookup, insert, Eq_number, All, Bool-cases, inl, inr,
}
use rookery.Store.{read_blob}
use rookery.Queue.{
  delivering, QueueRow, Rows, claim_row, update_row, IsFresh, HasUniqueIds, retry_delays,
}
use rookery.Queue.Errors.{truncate_err}
use rookery.Queue.State.{DeliveryError, Worker, Round, QueueState, Job}
use rookery.Queue.Transport.{load_job, Sent, transport}
use rookery.Queue.Marks.{mark, mark_delivered, mark_retry, mark_failed, mark_bounced}
use rookery.Queue.Worker.{
  Processed, idle, worked, panicked, broken, retry_with, is_final, settle, after_transport, run_job,
  attempt, commit_claim, with_claim, begin_claim, process_one, after_round, drain_queue,
}
use rookery.Queue.Progress.{remaining, process_one-lt, store_bounce-rows, lt_of_not_final}

IsFresh-insert :
    (j id : ℕ) (r : QueueRow) (rows : Rows)
    → (id ≡ j → ⊥)
    → IsFresh j rows
    → IsFresh j (insert id r rows)
unfolding insert
IsFresh-insert j id r [] n h = (n, tt)
IsFresh-insert j id r ((i, q) ∷ rows) n h = ground (arith, IsFresh-insert j id r rows n h.1)

HasUniqueIds-insert :
    (id : ℕ) (r : QueueRow) (rows : Rows) → HasUniqueIds rows → HasUniqueIds (insert id r rows)
unfolding insert
HasUniqueIds-insert id r [] h = (tt, tt)
HasUniqueIds-insert id r ((i, q) ∷ rows) h =
    ground (arith, IsFresh-insert i id r rows, HasUniqueIds-insert id r rows h.1)

update_row-HasUniqueIds :
    (id : ℕ) (f : QueueRow → QueueRow) (rows : Rows)
    → HasUniqueIds rows
    → HasUniqueIds (update_row id f rows)
unfolding update_row
update_row-HasUniqueIds id f rows h = elim (Option-cases (lookup id rows)) [
  | inl e ↦ rw e h
  | inr (r, e) ↦ rw e (HasUniqueIds-insert id (f r) rows h)
]

abbrev IsKeyed : QueueState → Type 0
IsKeyed s = HasUniqueIds s.rows

module _ (w : Worker) (r : Round) (id : ℕ) where
  mark-IsKeyed : (f : QueueRow → QueueRow) (s : QueueState) → IsKeyed s → IsKeyed (mark r id f s)
  mark-IsKeyed f s h = ground (arith, update_row-HasUniqueIds id f s.rows h)

  mark_failed-IsKeyed :
      (reason : Text) (s : QueueState) → IsKeyed s → IsKeyed (mark_failed r id reason s)
  unfolding mark_failed
  mark_failed-IsKeyed reason s h = mark-IsKeyed _ s h

  mark_bounced-IsKeyed :
      (m : Option ℕ) (from to reason : Text) (s : QueueState)
      → IsKeyed s
      → IsKeyed (mark_bounced w r id m from to reason s)
  unfolding mark_bounced
  mark_bounced-IsKeyed m from to reason s h = rw store_bounce-rows (mark-IsKeyed _ s h)

  retry_with-IsKeyed :
      (n : ℕ) (text : Text) (delay : Option ℕ) (s : QueueState)
      → IsKeyed s
      → IsKeyed (retry_with r id n text delay s).1
  unfolding retry_with mark_retry
  retry_with-IsKeyed n text none s h = h
  retry_with-IsKeyed n text (some d) s h = mark-IsKeyed _ s h

  settle-IsKeyed :
      (row : QueueRow) (job : Job) (answer : Option DeliveryError) (s : QueueState)
      → IsKeyed s
      → IsKeyed (settle w r id row job answer s).1
  unfolding settle mark_delivered
  settle-IsKeyed row job none s h = mark-IsKeyed _ s h
  settle-IsKeyed row job (some e) s h = ground (
    arith,
    mark_failed-IsKeyed (truncate_err e.text) s h,
    mark_bounced-IsKeyed row.message_id job.from row.recipient e.text s h,
    retry_with-IsKeyed (row.attempts + 1) e.text (get_elem? retry_delays (row.attempts + 1)) s h,
  )

  after_transport-IsKeyed :
      (row : QueueRow) (job : Job) (sent : Sent) (s : QueueState)
      → IsKeyed s
      → IsKeyed (after_transport w r id row job sent s).1
  unfolding after_transport
  after_transport-IsKeyed row job none s h = mark_failed-IsKeyed _ s h
  after_transport-IsKeyed row job (some (x, answer)) s h = settle-IsKeyed row job answer _ h

  run_job-IsKeyed :
      (row : QueueRow) (job : Job) (raw : Option Text) (s : QueueState)
      → IsKeyed s
      → IsKeyed (run_job w r id row job raw s).1
  unfolding run_job
  run_job-IsKeyed row job none s h = mark_failed-IsKeyed _ s h
  run_job-IsKeyed row job (some raw) s h = after_transport-IsKeyed row job _ s h

  attempt-IsKeyed :
      (row : QueueRow) (job : Option Job) (s : QueueState)
      → IsKeyed s
      → IsKeyed (attempt w r id row job s).1
  unfolding attempt
  attempt-IsKeyed row none s h = mark_failed-IsKeyed _ s h
  attempt-IsKeyed row (some job) s h = run_job-IsKeyed row job _ s h

  commit_claim-IsKeyed :
      (row : QueueRow) (s : QueueState) (mark commit : Option Text)
      → IsKeyed s
      → IsKeyed (commit_claim w r id row s mark commit).1
  unfolding commit_claim
  commit_claim-IsKeyed row s (some e) c h = h
  commit_claim-IsKeyed row s none (some e) h = h
  commit_claim-IsKeyed row s none none h =
      attempt-IsKeyed row _ _ (update_row-HasUniqueIds id _ s.rows h)

  -- A retry always finds its delay in the table: no transport answer leads out of range.
  settle-eq-worked :
      (row : QueueRow) (job : Job) (answer : Option DeliveryError) (s : QueueState)
      → (settle w r id row job answer s).0 ≡ worked
  unfolding settle retry_with
  settle-eq-worked row job none s = refl
  settle-eq-worked row job (some e) s = elim (Bool-cases (is_final r row e)) [
    | inl final ↦ rw final
    | inr more ↦
        let young = lt_of_not_final r row e more in
        let (delay, found) = get_elem?-some retry_delays (row.attempts + 1) (omega arith) in
        rw (more, found)
  ]

  pub attempt-eq-worked :
      (row : QueueRow) (job : Option Job) (s : QueueState) → (attempt w r id row job s).0 ≡ worked
  unfolding attempt run_job after_transport
  attempt-eq-worked row none s = refl
  attempt-eq-worked row (some job) s = run (read_blob job.blob s.files)
    where
      sent : (x : Sent) → (after_transport w r id row job x s).0 ≡ worked
      sent none = refl
      sent (some (x, answer)) = settle-eq-worked row job answer _

      run : (raw : Option Text) → (run_job w r id row job raw s).0 ≡ worked
      run none = refl
      run (some raw) = sent (transport w row job raw)

-- The index into the table of delays is never out of range, in any state and round.
pub process_one-ne-panicked :
    (w : Worker) (r : Round) (s : QueueState) → (process_one w r s).0 ≢ panicked
unfolding process_one begin_claim with_claim commit_claim
process_one-ne-panicked w r s = go r.begin_err r.claim_err
  where
    commit :
        (id : ℕ) (row : QueueRow) (m c : Option Text) → (commit_claim w r id row s m c).0 ≢ panicked
    commit id row (some e) c h = cc
    commit id row none (some e) h = cc
    commit id row none none h = cc (
        attempt-eq-worked w r id row (load_job w r s.messages row)
          (record s { rows = update_row id (λ row. record row { status = delivering }) s.rows }))

    claim : (c : Option (ℕ × QueueRow)) → (with_claim w r c s).0 ≢ panicked
    claim none h = cc
    claim (some (id, row)) h = commit id row r.mark_err r.commit_err h

    go : (b c : Option Text) → (begin_claim w r b c s).0 ≢ panicked
    go (some e) c h = cc
    go none (some e) h = cc
    go none none h = claim (claim_row r.now s.rows) h

-- The ids stay a key of the table.
pub process_one-IsKeyed :
    (w : Worker) (r : Round) (s : QueueState)
    → HasUniqueIds s.rows
    → HasUniqueIds (process_one w r s).1.rows
unfolding process_one begin_claim with_claim
process_one-IsKeyed w r s h = go r.begin_err r.claim_err
  where
    claim : (c : Option (ℕ × QueueRow)) → HasUniqueIds (with_claim w r c s).1.rows
    claim none = h
    claim (some (id, row)) = commit_claim-IsKeyed w r id row s r.mark_err r.commit_err h

    go : (b c : Option Text) → HasUniqueIds (begin_claim w r b c s).1.rows
    go (some e) c = h
    go none (some e) = h
    go none none = claim (claim_row r.now s.rows)

-- However the clock runs between the rounds and whatever the transports answer in each of them, the
-- loop ends within as many rounds as the rows have attempts left, and one more, if the database makes
-- the last updates and the ids of the rows are a key.
pub drain_queue_total :
    (rounds : List (Worker × Round)) (s : QueueState)
    → HasUniqueIds s.rows
    → All (λ x. x.1.marks ≡ true) rounds
    → remaining s.rows < length rounds
    → (drain_queue rounds s).0 ≡ true
unfolding drain_queue after_round
drain_queue_total [] s u m h = absurd (omega arith)
drain_queue_total ((w, r) ∷ rounds) s u m h =
    go (process_one w r s).0 refl
      (drain_queue_total rounds (process_one w r s).1 (process_one-IsKeyed w r s u) m.1)
  where
    go :
        (p : Processed)
        → (process_one w r s).0 ≡ p
        → (remaining (process_one w r s).1.rows < length rounds
            → (drain_queue rounds (process_one w r s).1).0 ≡ true)
        → (after_round p (process_one w r s).1 (drain_queue rounds (process_one w r s).1)).0 ≡ true
    go worked e rest = rest (omega (arith, process_one-lt w r m.0 s u e))
    go idle e rest = refl
    go (broken x) e rest = refl
    go panicked e rest = refl
