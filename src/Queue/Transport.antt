-- ===== src/Queue/Transport.antt =====
-- What is delivered for a row, and by which way: processOne from the load of the message to the
-- transport, and deliverExternal, of internal/queue/queue.go.
use rookery.Base.{
  ℕ, Bool, not, Option, none, some, List, [], Text, if◌then◌else◌, text_eq, after_last, lookup,
  is_none, Eq_number,
}
use rookery.Queue.{QueueRow}
use rookery.Queue.State.{
  DeliveryError, Signed, signed, sign_error, unreadable, Worker, Round, MessageRow, Handover,
  to_local, to_mx, to_smarthost, Job,
}

abbrev pub get_or_empty : Option Text → Text
get_or_empty none = []
get_or_empty (some s) = s

abbrev pub job_of : Option MessageRow → Option Job
job_of none = none
job_of (some m) =
    some (record { from = m.from_address; blob = m.blob_sha256; domain = get_or_empty m.domain })

-- A row without a message and without a relay client asks for the message with the id '', an error.
unfoldable pub load_message : Round → List (ℕ × MessageRow) → Option ℕ → Option Job
load_message r messages none = none
load_message r messages (some id) = if r.loads then job_of (lookup id messages) else none

abbrev pub is_relayed : QueueRow → Bool
is_relayed row = not (is_none row.relay_client_id)

unfoldable pub load_job : Worker → Round → List (ℕ × MessageRow) → QueueRow → Option Job
load_job w r messages row =
    if is_relayed row
    then some (record { from = row.mail_from; blob = row.blob_sha256; domain = w.domain })
    else load_message r messages row.message_id

-- `none` is the internal error of a signed message that cannot be read.
abbrev pub Sent : Type 0
Sent = Option (Handover × Option DeliveryError)

unfoldable pub hand_external :
    Worker → (domain from to message : Text) → Handover × Option DeliveryError
hand_external w domain from to message =
    if w.smarthost_enabled
    then (to_smarthost domain from to message, w.smarthost domain from to message)
    else (to_mx domain from to message, w.deliver domain from to message)

-- deliverExternal: a message that cannot be signed is delivered unsigned.
unfoldable pub deliver_signed : Worker → Signed → (domain from to raw : Text) → Sent
deliver_signed w (signed message) domain from to raw = some (hand_external w domain from to message)
deliver_signed w (sign_error e) domain from to raw = some (hand_external w domain from to raw)
deliver_signed w (unreadable e) domain from to raw = none

unfoldable pub deliver_external : Worker → (domain from to raw : Text) → Sent
deliver_external w domain from to raw = deliver_signed w (w.sign domain raw) domain from to raw

unfoldable pub recipient_domain : Text → Text
recipient_domain recipient = get_or_empty (after_last b'@' recipient)

unfoldable pub transport : Worker → QueueRow → Job → Text → Sent
transport w row job raw =
    if text_eq (recipient_domain row.recipient) w.domain
    then some (to_local job.from row.recipient raw, w.deliver_local job.from row.recipient raw)
    else if is_relayed row
    then some (
      to_mx job.domain job.from row.recipient raw,
      w.deliver job.domain job.from row.recipient raw,
    )
    else deliver_external w job.domain job.from row.recipient raw
