-- ===== src/Queue/Resend.antt =====
-- The mark functions drop the error of their update. What that means for the loop of drainQueue.
use rookery.Base.{
  ◌∙◌, sym, ap, ℕ, zero, suc, ◌≤◌, ◌≡◌, refl, false, none, some, List, [], ◌∷◌, ◌++◌, append_assoc,
  append-nil, arith, Text, Eq_number, lookup, insert,
}
use rookery.Store.{read_blob}
use rookery.Queue.{delivering, QueueRow, is_open, is_due, claim_row, update_row}
use rookery.Queue.State.{Worker, Round, QueueState, Job, Handover}
use rookery.Queue.Transport.{load_job, transport}
use rookery.Queue.Marks.{mark_delivered}
use rookery.Queue.Worker.{
  Processed, worked, attempt, run_job, after_transport, settle, commit_claim, with_claim,
  begin_claim, process_one, after_round, drain_queue,
}

abbrev pub replicate {ℓ} : {A : Type ℓ} → ℕ → A → List A
replicate zero a = []
replicate (suc n) a = a ∷ replicate n a

-- A round in which the claim succeeds and the last update is lost.
pub record IsLossy (r : Round) : Type 0 where
  pub begins : r.begin_err ≡ none
  pub claims : r.claim_err ≡ none
  pub takes : r.mark_err ≡ none
  pub commits : r.commit_err ≡ none
  pub loses : r.marks ≡ false

-- The only row of the queue is due and claimed, and its delivery succeeds.
pub record IsDeliverable (w : Worker) (r : Round) (id : ℕ) (row : QueueRow) (job : Job) (raw : Text)
    (x : Handover) (s : QueueState) : Type 0 where
  pub rows : s.rows ≡ (id, row) ∷ []
  pub claimed : row.status ≡ delivering
  pub due : row.next_retry_at ≤ r.now
  pub loads : load_job w r s.messages row ≡ some job
  pub reads : read_blob job.blob s.files ≡ some raw
  pub sends : transport w row job raw ≡ some (x, none)

update_only :
    (id : ℕ) (f : QueueRow → QueueRow) (row : QueueRow)
    → update_row id f ((id, row) ∷ []) ≡ (id, f row) ∷ []
unfolding update_row lookup insert
update_only id f row = ground arith

module _ (w : Worker) (r : Round) (id : ℕ) (row : QueueRow) (job : Job) (raw : Text)
    (x : Handover) where
  claim_lossy :
      (s : QueueState)
      → IsDeliverable w r id row job raw x s
      → claim_row r.now s.rows ≡ some (id, row)
  unfolding claim_row is_due is_open
  claim_lossy s d = rw (d.rows) (ground arith)

  attempt_lossy :
      (s : QueueState)
      → IsLossy r
      → load_job w r s.messages row ≡ some job
      → read_blob job.blob s.files ≡ some raw
      → transport w row job raw ≡ some (x, none)
      → attempt w r id row (some job) s ≡ (worked, record s { handed = s.handed ++ x ∷ [] })
  unfolding attempt run_job after_transport settle mark_delivered
  attempt_lossy s lossy loads reads sends = rw reads (rw sends (rw (lossy.loses) refl))

  claim_again :
      (s : QueueState)
      → IsDeliverable w r id row job raw x s
      → update_row id (λ row. record row { status = delivering }) s.rows ≡ s.rows
  claim_again s d =
      ap (update_row id (λ row. record row { status = delivering })) (d.rows)
      ∙ update_only id _ row
      ∙ (λ i. (id, record row { status = sym (d.claimed) i }) ∷ [])
      ∙ sym (d.rows)

  process_one_lossy :
      (s : QueueState)
      → IsLossy r
      → IsDeliverable w r id row job raw x s
      → process_one w r s ≡ (worked, record s { handed = s.handed ++ x ∷ [] })
  unfolding process_one begin_claim with_claim commit_claim
  process_one_lossy s lossy d =
      (λ i. begin_claim w r (lossy.begins i) (lossy.claims i) s)
      ∙ ap (λ c. with_claim w r c s) (claim_lossy s d)
      ∙ (λ i. commit_claim w r id row s (lossy.takes i) (lossy.commits i))
      ∙ ap (λ rows. attempt w r id row (load_job w r s.messages row) (record s { rows = rows }))
          (claim_again s d)
      ∙ ap (λ j. attempt w r id row j s) (d.loads)
      ∙ attempt_lossy s lossy (d.loads) (d.reads) (d.sends)

  -- While the only row of the queue is due and claimed, its delivery succeeds, and the update after it
  -- is lost in each round, the loop does not return, and every round hands the same message to the
  -- transport once more.
  pub drain_queue_lossy :
      (n : ℕ) (s : QueueState)
      → IsLossy r
      → IsDeliverable w r id row job raw x s
      → drain_queue (replicate n (w, r)) s
        ≡ (false, record s { handed = s.handed ++ replicate n x })
  unfolding drain_queue after_round
  drain_queue_lossy zero s lossy d =
      λ i. (false, record s { handed = sym (append-nil (s.handed)) i })
  drain_queue_lossy (suc n) s lossy d =
      let s' : QueueState = record s { handed = s.handed ++ x ∷ [] } in
      ap
        (λ (p : Processed × QueueState). after_round p.0 p.1 (drain_queue (replicate n (w, r)) p.1))
        (process_one_lossy s lossy d)
      ∙ drain_queue_lossy n s' lossy (record {
        rows = d.rows;
        claimed = d.claimed;
        due = d.due;
        loads = d.loads;
        reads = d.reads;
        sends = d.sends;
      })
      ∙ (λ i. (false, record s { handed = append_assoc (s.handed) (x ∷ []) (replicate n x) i }))
