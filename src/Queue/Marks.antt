-- ===== src/Queue/Marks.antt =====
-- The mark functions of internal/queue/queue.go and the bounce message.
use rookery.Base.{
  ℕ, ◌+◌, Option, none, some, List, [], ◌∷◌, ◌++◌, Text, codes, if◌then◌else◌, length, lookup,
  Result, ok, err, Eq_number,
}
use rookery.Store.{Files, write_blob}
use rookery.Queue.{pending, delivered, failed, bounced, QueueRow, update_row}
use rookery.Queue.Errors.{truncate_err}
use rookery.Queue.State.{Worker, Round, MessageRow, Bounce, QueueState}

-- UPDATE of a row, unless the database fails.
abbrev pub mark : Round → ℕ → (QueueRow → QueueRow) → QueueState → QueueState
mark r id f s = if r.marks then record s { rows = update_row id f s.rows } else s

unfoldable pub mark_delivered : Round → ℕ → QueueState → QueueState
mark_delivered r id =
    mark r id (λ row. record row { status = delivered; delivered_at = some r.later })

unfoldable pub mark_retry : Round → ℕ → ℕ → ℕ → Text → QueueState → QueueState
mark_retry r id attempts delay last_err = mark r id (λ row. record row {
  status = pending;
  attempts = attempts;
  next_retry_at = r.later + delay;
  last_error = some (truncate_err last_err);
})

unfoldable pub mark_failed : Round → ℕ → Text → QueueState → QueueState
mark_failed r id reason =
    mark r id (λ row. record row { status = failed; last_error = some reason })

unfoldable pub build_bounce_dsn : (from to reason date : Text) → Text
build_bounce_dsn from to reason date =
    codes "From: Mail Delivery System <mailer-daemon@localhost>\r\nTo: "
    ++ from
    ++ codes "\r\nSubject: Delivery failure: message to "
    ++ to
    ++ codes "\r\nDate: "
    ++ date
    ++ codes
        "\r\nMIME-Version: 1.0\r\nContent-Type: text/plain; charset=utf-8\r\n\r\nYour message to "
    ++ to
    ++ codes " could not be delivered.\r\n\r\nReason: "
    ++ reason
    ++ codes "\r\n"

-- INSERT ... SELECT: a row only where the message has an owner with a domain.
unfoldable pub add_bounce : Option Text → ℕ → Text → ℕ → Text → List Bounce → List Bounce
add_bounce none user to size digest bounces = bounces
add_bounce (some d) user to size digest bounces =
    bounces
    ++ record {
      user = user;
      from_address = codes "postmaster@" ++ d;
      to_address = to;
      subject = codes "Delivery failure: " ++ to;
      size_bytes = size;
      blob_sha256 = digest;
    }
      ∷ []

unfoldable pub insert_bounce : Option MessageRow → Text → ℕ → Text → List Bounce → List Bounce
insert_bounce none to size digest bounces = bounces
insert_bounce (some m) to size digest bounces = add_bounce m.domain m.user to size digest bounces

abbrev pub message_of : Option ℕ → List (ℕ × MessageRow) → Option MessageRow
message_of none messages = none
message_of (some id) messages = lookup id messages

unfoldable pub store_bounce :
    Round → Option ℕ → Text → Text → Result Text × Files → QueueState → QueueState
store_bounce r message_id to dsn (err e, files) s = record s { files = files }
store_bounce r message_id to dsn (ok digest, files) s = record s {
  files = files;
  bounces =
      if r.inserts
      then insert_bounce (message_of message_id s.messages) to (length dsn) digest s.bounces
      else s.bounces;
}

unfoldable pub mark_bounced :
    Worker → Round → ℕ → Option ℕ → (from to reason : Text) → QueueState → QueueState
mark_bounced w r id message_id from to reason s =
    let dsn = build_bounce_dsn from to reason (w.date r.later) in
    let s' =
      mark r id (λ row. record row { status = bounced; last_error = some (truncate_err reason) })
        s in
    store_bounce r message_id to dsn (write_blob w.sha256_hex r.disk dsn s.files) s'
