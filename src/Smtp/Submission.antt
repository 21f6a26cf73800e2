-- ===== src/Smtp/Submission.antt =====
-- internal/smtp/submission.go: the session of a relay client, and the tables that it reads and fills.
-- The proofs are in the children.
pub mod Access
pub mod Limits
use rookery.Base.{
  ℕ, ◌+◌, ◌-◌, Bool, true, false, not, ◌&&◌, Option, none, some, List, [], ◌∷◌, ◌++◌, map, Text,
  codes, to_lower, trim_space, ltb, leb, ◌==◌, if◌then◌else◌, length, lookup, select, Eq_text,
  Result, ok, err,
}
use rookery.Store.{Files, Disk, write_blob}
use rookery.Smtp.Reply.{
  Reply, accepted, smtp_error, auth_required, auth_failed, plain_error, max_recipients,
}

pub record RelayClient : Type 0 where
  pub id : ℕ
  pub secret_hash : Text
  pub enabled : Bool
  pub rate_per_hour : ℕ

-- A row that is put in outbound_queue for a relay client.
pub record RelayedRow : Type 0 where
  pub recipient : Text
  pub relay_client_id : ℕ
  pub mail_from : Text
  pub blob_sha256 : Text
  pub created_at : ℕ

-- The table relay_clients by username, the relayed rows of outbound_queue, the blobs, and the ids
-- whose last_used_at was set.
pub record RelayStore : Type 0 where
  pub clients : List (Text × RelayClient)
  pub queued : List RelayedRow
  pub files : Files
  pub touched : List ℕ

pub record Session : Type 0 where
  pub client : Option RelayClient
  pub from : Text
  pub recipients : List Text

abbrev pub new_session : Session
new_session = record { client = none; from = []; recipients = [] }

-- What the outside does during one command: the clock, the database and the disk.
pub record Env : Type 0 where
  pub now : ℕ
  pub lookup_err : Option Text
  pub touch_fails : Bool
  pub count_err : Option Text
  pub enqueue_err : Option Text
  pub read_err : Option Text
  pub disk : Disk

pub data Command : Type 0 where
  auth : (username password : Text) → Command
  mail : Text → Command
  rcpt : Text → Command
  message : Text → Command
  reset : Command

abbrev pub Step : Type 0
Step = Reply × Session × RelayStore

-- LookupRelayClient: an error of the database, or no such client.
unfoldable pub lookup_relay_client : Option Text → Text → RelayStore → Option RelayClient
lookup_relay_client (some e) username st = none
lookup_relay_client none username st = lookup username st.clients

unfoldable pub touch : Bool → ℕ → RelayStore → RelayStore
touch true id st = st
touch false id st = record st { touched = id ∷ st.touched }

-- CountRelayQueuedSince(id, since)
unfoldable pub count_since : ℕ → ℕ → List RelayedRow → ℕ
count_since id since rows =
    length (select (λ row. row.relay_client_id == id && leb since row.created_at) rows)

abbrev pub hour : ℕ
hour = 3600

unfoldable pub over_limit : Env → RelayClient → List Text → RelayStore → Bool
over_limit env rc recipients st =
    ltb 0 rc.rate_per_hour
    && (ltb rc.rate_per_hour (count_since rc.id (env.now - hour) st.queued + length recipients))

-- A count that fails lets the message pass.
unfoldable pub is_limited : Option Text → Env → RelayClient → List Text → RelayStore → Bool
is_limited (some e) env rc recipients st = false
is_limited none env rc recipients st = over_limit env rc recipients st

abbrev pub row_for : ℕ → RelayClient → Text → Text → Text → RelayedRow
row_for now rc from blob to = record {
  recipient = to;
  relay_client_id = rc.id;
  mail_from = from;
  blob_sha256 = blob;
  created_at = now;
}

-- EnqueueRelayed: one batch, which the database makes whole or not at all.
unfoldable pub enqueue : Option Text → ℕ → RelayClient → Session → Text → RelayStore → Step
enqueue (some e) now rc s blob st = (smtp_error 451 4 0 0 (codes "Temporary queue error"), s, st)
enqueue none now rc s blob st =
    (accepted, s, record st { queued = st.queued ++ map (row_for now rc s.from blob) s.recipients })

unfoldable pub store_and_enqueue :
    Env → RelayClient → Session → Result Text × Files → RelayStore → Step
store_and_enqueue env rc s (err e, files) st =
    (smtp_error 451 4 0 0 (codes "Temporary storage error"), s, record st { files = files })
store_and_enqueue env rc s (ok blob, files) st =
    enqueue env.enqueue_err env.now rc s blob (record st { files = files })

module _ (sha256_hex : Text → Text) (matches : (secret_hash password : Text) → Bool) where
  unfoldable pub check_secret : Env → Text → Option RelayClient → Session → RelayStore → Step
  check_secret env password none s st = (auth_failed, s, st)
  check_secret env password (some rc) s st =
      if rc.enabled && matches rc.secret_hash password
      then (accepted, record s { client = some rc }, touch env.touch_fails rc.id st)
      else (auth_failed, s, st)

  unfoldable pub read_and_store :
      Option Text → Env → RelayClient → Session → Text → RelayStore → Step
  read_and_store (some e) env rc s raw st =
      (plain_error (codes "submission: read data: " ++ e), s, st)
  read_and_store none env rc s raw st =
      store_and_enqueue env rc s (write_blob sha256_hex env.disk raw st.files) st

  -- Data, once the session has a client.
  unfoldable pub data_of : Env → RelayClient → List Text → Session → Text → RelayStore → Step
  data_of env rc [] s raw st = (plain_error (codes "no recipients"), s, st)
  data_of env rc (to ∷ more) s raw st =
      if is_limited env.count_err env rc (to ∷ more) st
      then (smtp_error 451 4 7 0 (codes "Rate limit exceeded, retry later"), s, st)
      else read_and_store env.read_err env rc s raw st

  unfoldable pub mail_as : Option RelayClient → Text → Session → RelayStore → Step
  mail_as none from s st = (auth_required, s, st)
  mail_as (some rc) from s st = (accepted, record s { from = to_lower (trim_space from) }, st)

  unfoldable pub rcpt_as : Option RelayClient → Text → Session → RelayStore → Step
  rcpt_as none to s st = (auth_required, s, st)
  rcpt_as (some rc) to s st =
      if leb max_recipients (length s.recipients)
      then (smtp_error 452 4 5 3 (codes "Too many recipients"), s, st)
      else (accepted, record s { recipients = s.recipients ++ to_lower (trim_space to) ∷ [] }, st)

  unfoldable pub data_as : Env → Option RelayClient → Text → Session → RelayStore → Step
  data_as env none raw s st = (auth_required, s, st)
  data_as env (some rc) raw s st = data_of env rc s.recipients s raw st

  unfoldable pub step : Env → Command → Session → RelayStore → Step
  step env (auth username password) s st =
      check_secret env password (lookup_relay_client env.lookup_err username st) s st
  step env (mail from) s st = mail_as s.client from s st
  step env (rcpt to) s st = rcpt_as s.client to s st
  step env (message raw) s st = data_as env s.client raw s st
  step env reset s st = (accepted, record s { from = []; recipients = [] }, st)

  unfoldable pub run : List (Env × Command) → Session → RelayStore → Session × RelayStore
  run [] s st = (s, st)
  run ((env, c) ∷ cs) s st = let (reply, s', st') = step env c s st in run cs s' st'
