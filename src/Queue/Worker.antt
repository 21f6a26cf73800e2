-- ===== src/Queue/Worker.antt =====
-- processOne and drainQueue of internal/queue/queue.go.
use rookery.Base.{
  ℕ, ◌+◌, ◌-◌, Bool, true, false, ◌||◌, Option, none, some, List, [], ◌∷◌, ◌++◌, Text, codes, leb,
  if◌then◌else◌, length, get_elem?, Eq_number,
}
use rookery.Store.{read_blob}
use rookery.Queue.{delivering, QueueRow, retry_delays, max_delivery_age, claim_row, update_row}
use rookery.Queue.Errors.{is_hard_failure, truncate_err}
use rookery.Queue.State.{DeliveryError, Worker, Round, QueueState, Job}
use rookery.Queue.Transport.{is_relayed, load_job, Sent, transport}
use rookery.Queue.Marks.{mark_delivered, mark_retry, mark_failed, mark_bounced}

-- What processOne returns: (false, nil), (true, nil), an error, or an index out of range.
pub data Processed : Type 0 where
  idle worked panicked : Processed
  broken : Text → Processed

unfoldable pub retry_with : Round → ℕ → ℕ → Text → Option ℕ → QueueState → Processed × QueueState
retry_with r id attempts text none s = (panicked, s)
retry_with r id attempts text (some delay) s = (worked, mark_retry r id attempts delay text s)

unfoldable pub is_final : Round → QueueRow → DeliveryError → Bool
is_final r row e =
    (e.no_such_user || is_hard_failure e.text)
    || (leb max_delivery_age (r.later - row.created_at)
        || leb (length retry_delays - 1) row.attempts)

-- After a transport answered.
unfoldable pub settle :
    Worker → Round → ℕ → QueueRow → Job → Option DeliveryError → QueueState → Processed × QueueState
settle w r id row job none s = (worked, mark_delivered r id s)
settle w r id row job (some e) s =
    if is_final r row e
    then (
      worked,
      if is_relayed row
          then mark_failed r id (truncate_err e.text) s
          else mark_bounced w r id row.message_id job.from row.recipient e.text s,
    )
    else retry_with r id (row.attempts + 1) e.text (get_elem? retry_delays (row.attempts + 1)) s

unfoldable pub after_transport :
    Worker → Round → ℕ → QueueRow → Job → Sent → QueueState → Processed × QueueState
after_transport w r id row job none s =
    (worked, mark_failed r id (codes "internal: could not buffer signed message") s)
after_transport w r id row job (some (handover, answer)) s =
    settle w r id row job answer (record s { handed = s.handed ++ handover ∷ [] })

unfoldable pub run_job :
    Worker → Round → ℕ → QueueRow → Job → Option Text → QueueState → Processed × QueueState
run_job w r id row job none s =
    (worked, mark_failed r id (codes "internal: could not read message blob") s)
run_job w r id row job (some raw) s = after_transport w r id row job (transport w row job raw) s

unfoldable pub attempt :
    Worker → Round → ℕ → QueueRow → Option Job → QueueState → Processed × QueueState
attempt w r id row none s = (worked, mark_failed r id (codes "internal: could not load message") s)
attempt w r id row (some job) s = run_job w r id row job (read_blob job.blob s.files) s

-- The claim is committed before the row is worked on.
unfoldable pub commit_claim :
    Worker → Round → ℕ → QueueRow → QueueState → Option Text → Option Text → Processed × QueueState
commit_claim w r id row s (some e) commit = (broken (codes "queue: mark delivering: " ++ e), s)
commit_claim w r id row s none (some e) = (broken (codes "queue: commit claim: " ++ e), s)
commit_claim w r id row s none none =
    attempt w r id row (load_job w r s.messages row)
      (record s { rows = update_row id (λ row. record row { status = delivering }) s.rows })

unfoldable pub with_claim :
    Worker → Round → Option (ℕ × QueueRow) → QueueState → Processed × QueueState
with_claim w r none s = (idle, s)
with_claim w r (some (id, row)) s = commit_claim w r id row s r.mark_err r.commit_err

unfoldable pub begin_claim :
    Worker → Round → Option Text → Option Text → QueueState → Processed × QueueState
begin_claim w r (some e) claim s = (broken (codes "queue: begin tx: " ++ e), s)
begin_claim w r none (some e) s = (broken (codes "queue: claim row: " ++ e), s)
begin_claim w r none none s = with_claim w r (claim_row r.now s.rows) s

unfoldable pub process_one : Worker → Round → QueueState → Processed × QueueState
process_one w r s = begin_claim w r r.begin_err r.claim_err s

-- The loop goes on after a row that was worked on, and returns otherwise.
unfoldable pub after_round : Processed → QueueState → Bool × QueueState → Bool × QueueState
after_round worked s rest = rest
after_round idle s rest = (true, s)
after_round (broken e) s rest = (true, s)
after_round panicked s rest = (true, s)

-- drainQueue over the rounds that the environment gives, each with what the calls of the worker answer
-- in it. The Boolean says that the loop returned.
unfoldable pub drain_queue : List (Worker × Round) → QueueState → Bool × QueueState
drain_queue [] s = (false, s)
drain_queue ((w, r) ∷ rounds) s =
    let (p, s') = process_one w r s in after_round p s' (drain_queue rounds s')
