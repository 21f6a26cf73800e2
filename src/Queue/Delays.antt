-- ===== src/Queue/Delays.antt =====
-- What a failed delivery leads to: the next try, or the end.
use rookery.Base.{
  Bool-cases, if◌then◌else◌, ℕ, ◌+◌, ◌≡◌, refl, true, false, Option, some, List, [], ◌∷◌, ◌++◌,
  arith, Text, codes, contains, length, get_elem?, get_elem?-some, Eq_number, lookup, cut,
  lookup-insert_self, contains-mono_left, contains-mono_right, ok, err, Result, inl, inr, ◌∙◌,
}
use rookery.Store.{write_blob, Files}
use rookery.Smtp.Sts.Resolve.{PolicyCache}
use rookery.Smtp.Outbound.{Net, Mx, deliver, deliver_to, try_all}
use rookery.Queue.{pending, failed, bounced, QueueRow, retry_delays, update_row}
use rookery.Queue.State.{DeliveryError, Worker, Round, QueueState, Job, MessageRow}
use rookery.Queue.Transport.{is_relayed}
use rookery.Queue.Errors.{is_hard_failure, is_hard_failure_iff, truncate_err}
use rookery.Queue.Marks.{
  mark, mark_retry, mark_failed, mark_bounced, build_bounce_dsn, store_bounce, insert_bounce,
  add_bounce, message_of,
}
use rookery.Queue.Worker.{is_final, retry_with, settle}
use rookery.Queue.Progress.{store_bounce-rows, lt_of_not_final}

lookup-mark :
    (r : Round) (id : ℕ) (f : QueueRow → QueueRow) (row : QueueRow) (s : QueueState)
    → r.marks ≡ true
    → lookup id s.rows ≡ some row
    → lookup id (mark r id f s).rows ≡ some (f row)
unfolding update_row
lookup-mark r id f row s m h = rw (m, h) (lookup-insert_self id (f row) s.rows)

-- After a failure that is not final, of a row that is in the table and whose update the database
-- makes, the row waits, with one attempt more, for the delay that the table gives for that attempt,
-- counted from the time of the update.
pub settle_retry :
    (w : Worker) (r : Round) (id : ℕ) (row q : QueueRow) (job : Job) (e : DeliveryError)
    (s : QueueState)
    → r.marks ≡ true
    → lookup id s.rows ≡ some q
    → is_final r row e ≡ false
    → (delay : ℕ) × (get_elem? retry_delays (row.attempts + 1) ≡ some delay)
      × (lookup id (settle w r id row job (some e) s).1.rows
          ≡ some (record q {
            status = pending;
            attempts = row.attempts + 1;
            next_retry_at = r.later + delay;
            last_error = some (truncate_err e.text);
          }))
unfolding settle retry_with mark_retry
settle_retry w r id row q job e s m h f =
    let young = lt_of_not_final r row e f in
    let (delay, found) = get_elem?-some retry_delays (row.attempts + 1) (omega arith) in
    (delay, found, rw (f, found) (lookup-mark r id _ q s m h))

-- A final failure of mail that was relayed ends the row as failed, and nobody gets a message.
pub settle_relayed_final :
    (w : Worker) (r : Round) (id : ℕ) (row q : QueueRow) (job : Job) (e : DeliveryError)
    (s : QueueState)
    → r.marks ≡ true
    → lookup id s.rows ≡ some q
    → is_final r row e ≡ true
    → is_relayed row ≡ true
    → let s' = (settle w r id row job (some e) s).1 in
      (lookup id s'.rows
        ≡ some (record q { status = failed; last_error = some (truncate_err e.text) }))
      × (s'.bounces ≡ s.bounces)
unfolding settle mark_failed
settle_relayed_final w r id row q job e s m h f rel =
    rw (f, rel) (lookup-mark r id _ q s m h, ground arith)

store_bounce-bounces :
    (r : Round) (m : Option ℕ) (to dsn : Text) (wr : Result Text × Files) (s : QueueState)
    (digest : Text)
    → r.inserts ≡ true
    → wr.0 ≡ ok digest
    → (store_bounce r m to dsn wr s).bounces
      ≡ insert_bounce (message_of m s.messages) to (length dsn) digest s.bounces
unfolding store_bounce
store_bounce-bounces r m to dsn (err e, fs) s digest ins h = cc
store_bounce-bounces r m to dsn (ok x, fs) s digest ins h = ground arith

-- A final failure of a user's own mail, where the database makes its updates, the report is written to
-- disk and the owner has an address, ends the row as bounced, and the owner finds one bounce more:
-- from the postmaster of the owner's domain, with that report.
pub settle_bounced :
    (w : Worker) (r : Round) (id m : ℕ) (row q : QueueRow) (job : Job) (e : DeliveryError)
    (s : QueueState) (owner : MessageRow) (d digest : Text)
    → r.marks ≡ true
    → r.inserts ≡ true
    → lookup id s.rows ≡ some q
    → is_final r row e ≡ true
    → is_relayed row ≡ false
    → row.message_id ≡ some m
    → lookup m s.messages ≡ some owner
    → owner.domain ≡ some d
    → let dsn = build_bounce_dsn job.from row.recipient e.text (w.date r.later) in
      (write_blob w.sha256_hex r.disk dsn s.files).0 ≡ ok digest
      → let s' = (settle w r id row job (some e) s).1 in
        (lookup id s'.rows
          ≡ some (record q { status = bounced; last_error = some (truncate_err e.text) }))
        × (s'.bounces
            ≡ s.bounces
              ++ record {
                user = owner.user;
                from_address = codes "postmaster@" ++ d;
                to_address = row.recipient;
                subject = codes "Delivery failure: " ++ row.recipient;
                size_bytes = length dsn;
                blob_sha256 = digest;
              }
                ∷ [])
unfolding settle mark_bounced
settle_bounced w r id m row q job e s owner d digest marks ins h f rel msg found dom written =
    let dsn = build_bounce_dsn job.from row.recipient e.text (w.date r.later) in
    let s' =
      mark r id (λ row. record row { status = bounced; last_error = some (truncate_err e.text) })
        s in
    let wr = write_blob w.sha256_hex r.disk dsn s.files in
    rw (f, rel)
      (
        rw store_bounce-rows (lookup-mark r id _ q s marks h),
        store_bounce-bounces r row.message_id row.recipient dsn wr s' digest ins written
            ∙ rw marks (rw msg (rw found (unfold insert_bounce add_bounce in rw dom refl))),
      )

-- An error whose text has "5." somewhere is final at the first attempt, whatever its meaning.
is_final_of_hard :
    (r : Round) (row : QueueRow) (e : DeliveryError)
    → is_hard_failure e.text ≡ true
    → is_final r row e ≡ true
unfolding is_final
is_final_of_hard r row e h = ground arith

mx_failure-is_final :
    {C : Type 0} (net : Net) (cache : PolicyCache C) (c : Option C)
    (from_domain from to message local domain why : Text) (ms : List Mx) (r : Round)
    (row : QueueRow)
    → cut b'@' to ≡ some (local, domain)
    → net.mx domain ≡ (some why, ms)
    → contains domain (codes "5.") ≡ true
    → (text : Text) × ((deliver net cache c from_domain from to message).0.0 ≡ some text)
      × (is_final r row (record { no_such_user = false; text = text }) ≡ true)
unfolding deliver deliver_to try_all
mx_failure-is_final net cache c from_domain from to message local domain why ms r row split mx
      five =
    (
      codes "outbound: MX lookup for " ++ domain ++ codes " failed: " ++ why,
      rw split (rw mx refl),
      is_final_of_hard r row _ (
          (is_hard_failure_iff _).1 (
            inr (
              inr (
                inr (
                  inr (
                    inr (
                      inl (
                        contains-mono_left
                          (codes "outbound: MX lookup for " ++ domain ++ codes " failed: ") why
                          (codes "5.")
                          (contains-mono_left (codes "outbound: MX lookup for " ++ domain)
                            (codes " failed: ") (codes "5.")
                            (contains-mono_right (codes "outbound: MX lookup for ") domain
                              (codes "5.") five)))))))))),
    )

settle_final :
    (w : Worker) (r : Round) (id : ℕ) (row q : QueueRow) (job : Job) (e : DeliveryError)
    (s : QueueState)
    → r.marks ≡ true
    → lookup id s.rows ≡ some q
    → is_final r row e ≡ true
    → lookup id (settle w r id row job (some e) s).1.rows
      ≡ some (record q {
        status = if is_relayed row then failed else bounced;
        last_error = some (truncate_err e.text);
      })
unfolding settle mark_failed mark_bounced
settle_final w r id row q job e s marks h f = elim (Bool-cases (is_relayed row)) [
  | inl rel ↦ rw (f, rel) (lookup-mark r id _ q s marks h)
  | inr own ↦ rw (f, own) (rw store_bounce-rows (lookup-mark r id _ q s marks h))
]

-- When the MX look-up of the recipient's domain fails, for whatever reason, and "5." stands somewhere
-- in the domain's name, the settlement of that failure ends the row, whatever the number of its
-- attempts: a user's own mail as bounced, relayed mail as failed. The row is in the table, and the
-- database makes its update.
pub mx_failure_ends :
    {C : Type 0} (net : Net) (cache : PolicyCache C) (c : Option C)
    (message local domain why : Text) (ms : List Mx) (w : Worker) (r : Round) (id : ℕ)
    (row q : QueueRow) (job : Job) (s : QueueState)
    → cut b'@' row.recipient ≡ some (local, domain)
    → net.mx domain ≡ (some why, ms)
    → contains domain (codes "5.") ≡ true
    → r.marks ≡ true
    → lookup id s.rows ≡ some q
    → (text : Text) × ((deliver net cache c job.domain job.from row.recipient message).0.0
        ≡ some text)
      × (lookup id
            (settle w r id row job (some (record { no_such_user = false; text = text })) s).1.rows
          ≡ some (record q {
            status = if is_relayed row then failed else bounced;
            last_error = some (truncate_err text);
          }))
mx_failure_ends net cache c message local domain why ms w r id row q job s split mx five marks
      there =
    let (text, answer, final) =
      mx_failure-is_final net cache c job.domain job.from row.recipient message local domain why ms
        r row split mx five in
    (text, answer, settle_final w r id row q job _ s marks there final)
