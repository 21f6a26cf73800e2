-- ===== src/Queue/Progress.antt =====
-- internal/queue/queue.go: the attempts that the rows of the queue have left, before and after a round.
use rookery.Base.{
  ℕ, suc, ◌+◌, ◌-◌, ◌<◌, ◌≡◌, refl, true, false, Option, none, some, [], ◌∷◌, ◌++◌, arith, Text,
  if◌then◌else◌, get_elem?, get_elem?-some, lookup, insert, lookup-insert_self, Eq_number, Result,
  ok, err, Option-cases, Bool-cases, inl, inr,
}
use rookery.Store.{Files, read_blob}
use rookery.Queue.{
  delivering, QueueRow, Rows, is_open, is_due, claim_row, update_row, IsFresh, HasUniqueIds,
  retry_delays,
}
use rookery.Queue.Errors.{truncate_err}
use rookery.Queue.State.{DeliveryError, Worker, Round, QueueState, Job}
use rookery.Queue.Transport.{load_job, Sent, transport}
use rookery.Queue.Marks.{mark, mark_delivered, mark_retry, mark_failed, mark_bounced, store_bounce}
use rookery.Queue.Worker.{
  worked, retry_with, is_final, settle, after_transport, run_job, attempt, commit_claim, with_claim,
  begin_claim, process_one,
}

-- The attempts that a row has left, at most seven; a closed row has none.
abbrev pub weight : QueueRow → ℕ
weight row = if is_open row.status then suc (6 - row.attempts) else 0

abbrev pub remaining : Rows → ℕ
remaining [] = 0
remaining ((id, row) ∷ rows) = weight row + remaining rows

fresh_lookup : (id : ℕ) (rows : Rows) → IsFresh id rows → lookup id rows ≡ none
unfolding lookup
fresh_lookup id [] h = refl
fresh_lookup id ((j, r) ∷ rows) h = ground (arith, fresh_lookup id rows h.1)

pub claim_row-lookup :
    (now : ℕ) (rows : Rows) (id : ℕ) (row : QueueRow)
    → HasUniqueIds rows
    → claim_row now rows ≡ some (id, row)
    → (lookup id rows ≡ some row) × (is_due now row ≡ true)
unfolding claim_row lookup
claim_row-lookup now [] id row h k = cc
claim_row-lookup now ((j, q) ∷ rows) id row h k = elim (Option-cases (claim_row now rows)) [
  | inl e ↦ ground arith
  | inr ((i, p), e) ↦
      let (found, due) = claim_row-lookup now rows i p h.1 e in
      ground (arith, fresh_lookup j rows h.0)
]

remaining-insert :
    (id : ℕ) (r q : QueueRow) (rows : Rows)
    → lookup id rows ≡ some r
    → remaining (insert id q rows) + weight r ≡ remaining rows + weight q
unfolding lookup insert
remaining-insert id r q [] h = cc
remaining-insert id r q ((j, p) ∷ rows) h = ground (arith, remaining-insert id r q rows)

remaining-update_row :
    (id : ℕ) (f : QueueRow → QueueRow) (r : QueueRow) (rows : Rows)
    → lookup id rows ≡ some r
    → remaining (update_row id f rows) + weight r ≡ remaining rows + weight (f r)
unfolding update_row
remaining-update_row id f r rows h = rw h (remaining-insert id r (f r) rows h)

lookup-update_row :
    (id : ℕ) (f : QueueRow → QueueRow) (r : QueueRow) (rows : Rows)
    → lookup id rows ≡ some r
    → lookup id (update_row id f rows) ≡ some (f r)
unfolding update_row
lookup-update_row id f r rows h = rw h (lookup-insert_self id (f r) rows)

-- A row that is retried has had fewer than six attempts: the next delay exists.
pub lt_of_not_final :
    (r : Round) (row : QueueRow) (e : DeliveryError) → is_final r row e ≡ false → row.attempts < 6
unfolding is_final
lt_of_not_final r row e h = ground arith

-- The final updates lower what remains.
remaining-mark :
    (r : Round) (id : ℕ) (f : QueueRow → QueueRow) (q : QueueRow) (s : QueueState)
    → r.marks ≡ true
    → lookup id s.rows ≡ some q
    → weight (f q) < weight q
    → remaining (mark r id f s).rows < remaining s.rows
remaining-mark r id f q s m h k = ground (arith, remaining-update_row id f q s.rows h)

pub store_bounce-rows :
    (r : Round) (m : Option ℕ) (to dsn : Text) (w : Result Text × Files) (s : QueueState)
    → (store_bounce r m to dsn w s).rows ≡ s.rows
unfolding store_bounce
store_bounce-rows r m to dsn (err e, fs) s = refl
store_bounce-rows r m to dsn (ok d, fs) s = refl

-- A row as the claim leaves it.
abbrev pub claimed : QueueRow → QueueRow
claimed row = record row { status = delivering }

module _ (w : Worker) (r : Round) (id : ℕ) (row : QueueRow) (marks : r.marks ≡ true) where
  mark_failed-lt :
      (reason : Text) (s : QueueState)
      → lookup id s.rows ≡ some (claimed row)
      → remaining (mark_failed r id reason s).rows < remaining s.rows
  unfolding mark_failed
  mark_failed-lt reason s h =
      remaining-mark r id _ (claimed row) s marks h (unfold is_open in ground arith)

  mark_delivered-lt :
      (s : QueueState)
      → lookup id s.rows ≡ some (claimed row)
      → remaining (mark_delivered r id s).rows < remaining s.rows
  unfolding mark_delivered
  mark_delivered-lt s h =
      remaining-mark r id _ (claimed row) s marks h (unfold is_open in ground arith)

  mark_bounced-lt :
      (m : Option ℕ) (from to reason : Text) (s : QueueState)
      → lookup id s.rows ≡ some (claimed row)
      → remaining (mark_bounced w r id m from to reason s).rows < remaining s.rows
  unfolding mark_bounced
  mark_bounced-lt m from to reason s h =
      rw store_bounce-rows
        (remaining-mark r id _ (claimed row) s marks h (unfold is_open in ground arith))

  mark_retry-lt :
      (delay : ℕ) (text : Text) (s : QueueState)
      → row.attempts < 6
      → lookup id s.rows ≡ some (claimed row)
      → remaining (mark_retry r id (row.attempts + 1) delay text s).rows < remaining s.rows
  unfolding mark_retry
  mark_retry-lt delay text s young h =
      remaining-mark r id _ (claimed row) s marks h (unfold is_open in ground arith)

  retry_with-lt :
      (text : Text) (s : QueueState)
      → row.attempts < 6
      → lookup id s.rows ≡ some (claimed row)
      → let (p, s') =
          retry_with r id (row.attempts + 1) text (get_elem? retry_delays (row.attempts + 1)) s in
        (p ≡ worked) × (remaining s'.rows < remaining s.rows)
  unfolding retry_with
  retry_with-lt text s young h =
      let (delay, e) = get_elem?-some retry_delays (row.attempts + 1) (omega arith) in
      rw e (refl, mark_retry-lt delay text s young h)

  -- Whatever the transport answered, the row is closed or has one attempt less.
  settle-lt :
      (job : Job) (answer : Option DeliveryError) (s : QueueState)
      → lookup id s.rows ≡ some (claimed row)
      → let (p, s') = settle w r id row job answer s in
        (p ≡ worked) × (remaining s'.rows < remaining s.rows)
  unfolding settle
  settle-lt job none s h = (refl, mark_delivered-lt s h)
  settle-lt job (some e) s h = elim (Bool-cases (is_final r row e)) [
    | inl final ↦ rw final (
        ground (
          arith,
          mark_failed-lt (truncate_err e.text) s h,
          mark_bounced-lt row.message_id job.from row.recipient e.text s h,
        ))
    | inr more ↦ rw more (retry_with-lt e.text s (lt_of_not_final r row e more) h)
  ]

  after_transport-lt :
      (job : Job) (sent : Sent) (s : QueueState)
      → lookup id s.rows ≡ some (claimed row)
      → let (p, s') = after_transport w r id row job sent s in
        (p ≡ worked) × (remaining s'.rows < remaining s.rows)
  unfolding after_transport
  after_transport-lt job none s h = (refl, mark_failed-lt _ s h)
  after_transport-lt job (some (x, answer)) s h =
      settle-lt job answer (record s { handed = s.handed ++ x ∷ [] }) h

  run_job-lt :
      (job : Job) (raw : Option Text) (s : QueueState)
      → lookup id s.rows ≡ some (claimed row)
      → let (p, s') = run_job w r id row job raw s in
        (p ≡ worked) × (remaining s'.rows < remaining s.rows)
  unfolding run_job
  run_job-lt job none s h = (refl, mark_failed-lt _ s h)
  run_job-lt job (some raw) s h = after_transport-lt job (transport w row job raw) s h

  attempt-lt :
      (job : Option Job) (s : QueueState)
      → lookup id s.rows ≡ some (claimed row)
      → let (p, s') = attempt w r id row job s in
        (p ≡ worked) × (remaining s'.rows < remaining s.rows)
  unfolding attempt
  attempt-lt none s h = (refl, mark_failed-lt _ s h)
  attempt-lt (some job) s h = run_job-lt job (read_blob job.blob s.files) s h

weight-claimed :
    (now : ℕ) (row : QueueRow) → is_due now row ≡ true → weight (claimed row) ≡ weight row
unfolding is_due is_open
weight-claimed now row h = ground arith

module _ (w : Worker) (r : Round) (marks : r.marks ≡ true) where
  commit_claim-lt :
      (id : ℕ) (row : QueueRow) (s : QueueState) (mark commit : Option Text)
      → lookup id s.rows ≡ some row
      → is_due r.now row ≡ true
      → let (p, s') = commit_claim w r id row s mark commit in
        p ≡ worked → remaining s'.rows < remaining s.rows
  unfolding commit_claim
  commit_claim-lt id row s (some e) c h due = λ k. cc
  commit_claim-lt id row s none (some e) h due = λ k. cc
  commit_claim-lt id row s none none h due = λ k.
      let rows = update_row id claimed s.rows in
      let (_, lower) =
        attempt-lt w r id row marks (load_job w r s.messages row) (record s { rows = rows })
          (lookup-update_row id claimed row s.rows h) in
      omega
        (arith, lower, remaining-update_row id claimed row s.rows h, weight-claimed r.now row due)

  with_claim-lt :
      (claim : Option (ℕ × QueueRow)) (s : QueueState)
      → HasUniqueIds s.rows
      → claim_row r.now s.rows ≡ claim
      → let (p, s') = with_claim w r claim s in p ≡ worked → remaining s'.rows < remaining s.rows
  unfolding with_claim
  with_claim-lt none s u e = λ k. cc
  with_claim-lt (some (id, row)) s u e =
      let (found, due) = claim_row-lookup r.now s.rows id row u e in
      commit_claim-lt id row s r.mark_err r.commit_err found due

  -- A round that works on a row, where the ids are a key and the database makes the last update,
  -- lowers the number of attempts that are left in the whole queue.
  pub process_one-lt :
      (s : QueueState)
      → HasUniqueIds s.rows
      → (process_one w r s).0 ≡ worked
      → remaining (process_one w r s).1.rows < remaining s.rows
  unfolding process_one begin_claim
  process_one-lt s u = go r.begin_err r.claim_err
    where
      go :
          (b c : Option Text)
          → (begin_claim w r b c s).0 ≡ worked
          → remaining (begin_claim w r b c s).1.rows < remaining s.rows
      go (some e) c h = cc
      go none (some e) h = cc
      go none none h = with_claim-lt (claim_row r.now s.rows) s u refl h
