-- ===== src/Queue/Tests.antt =====
-- The worker of internal/queue on small queues: a message of a user, and one of a relay client.
use rookery.Base.{
  ap, ◌<◌, ◌≡◌, refl, true, false, none, some, [], ◌∷◌, ◌++◌, arith, Text, codes, length, lookup,
  insert, Eq_number, contains, has_prefix, text_eq, after_last, cut,
}
use rookery.Store.{
  Files, healthy, blob_path, path_eq, Eq_path, write_blob, write_new, write_missing, read_blob,
}
use rookery.Queue.{pending, delivering, bounced, QueueRow, is_open, is_due, claim_row, update_row}
use rookery.Queue.Errors.{hard_code, is_hard_failure, truncate_at, truncate_err}
use rookery.Queue.State.{
  DeliveryError, signed, Worker, Round, MessageRow, QueueState, Job, to_local, to_mx,
}
use rookery.Queue.Transport.{
  load_message, load_job, hand_external, deliver_signed, deliver_external, recipient_domain,
  transport,
}
use rookery.Queue.Marks.{mark_retry, build_bounce_dsn}
use rookery.Queue.Worker.{
  worked, is_final, retry_with, settle, after_transport, run_job, attempt, commit_claim, with_claim,
  begin_claim, process_one, drain_queue,
}
use rookery.Queue.Progress.{remaining, process_one-lt}
use rookery.Queue.Drain.{drain_queue_total}
use rookery.Queue.Idle.{Answers, StopsIdle, drain_queue_idle}
use rookery.Queue.Delays.{settle_bounced, mx_failure_ends}
use rookery.Smtp.Sts.{HttpReply}
use rookery.Smtp.Sts.Resolve.{PolicyCache, CacheReply}
use rookery.Smtp.Client.{Peer}
use rookery.Smtp.Outbound.{Net, deliver}
use rookery.Queue.Resend.{replicate, drain_queue_lossy}

abbrev busy : DeliveryError
busy = record { no_such_user = false; text = codes "busy" }

abbrev gone : DeliveryError
gone = record { no_such_user = true; text = codes "gone" }

-- The other servers are busy; local delivery succeeds.
abbrev worker : Worker
worker = record {
  domain = codes "a.b";
  smarthost_enabled = false;
  deliver_local = λ from to message. none;
  deliver = λ domain from to message. some busy;
  smarthost = λ domain from to message. none;
  sign = λ domain message. signed (b'S' ∷ message);
  date = λ t. codes "now";
  sha256_hex = λ bytes. codes "cafe";
}

abbrev round : Round
round = record {
  now = 100;
  later = 101;
  begin_err = none;
  claim_err = none;
  mark_err = none;
  commit_err = none;
  loads = true;
  marks = true;
  disk = healthy;
  inserts = true;
}

abbrev own_row : QueueRow
own_row = record {
  message_id = some 4;
  recipient = codes "u@c.d";
  status = pending;
  attempts = 0;
  next_retry_at = 50;
  created_at = 50;
  relay_client_id = none;
  mail_from = [];
  blob_sha256 = [];
  last_error = none;
  delivered_at = none;
}

abbrev relayed_row : QueueRow
relayed_row = record own_row {
  message_id = none;
  relay_client_id = some 9;
  mail_from = codes "r@e.f";
  blob_sha256 = codes "beef";
}

abbrev owner : MessageRow
owner = record {
  user = 7;
  from_address = codes "me@a.b";
  blob_sha256 = codes "beef";
  domain = some (codes "a.b");
}

abbrev files : Files
files = (blob_path (codes "beef"), codes "hi") ∷ []

abbrev queue_of : QueueRow → QueueState
queue_of row = record {
  rows = (1, row) ∷ [];
  messages = (4, owner) ∷ [];
  files = files;
  bounces = [];
  handed = [];
}

abbrev job : Job
job = record { from = codes "me@a.b"; blob = codes "beef"; domain = codes "a.b" }

-- The first round hands the signed message to the servers of the recipient, which are busy: the row
-- waits for five minutes from the update.
first_round : process_one worker round (queue_of own_row) ≡ (
  worked,
  record (queue_of own_row) {
    rows =
        (1, record own_row { attempts = 1; next_retry_at = 401; last_error = some (codes "busy") })
        ∷ [];
    handed = to_mx (codes "a.b") (codes "me@a.b") (codes "u@c.d") (codes "Shi") ∷ [];
  },
)
unfolding process_one begin_claim claim_row is_due is_open with_claim commit_claim load_job
    load_message update_row lookup insert attempt read_blob blob_path path_eq text_eq run_job
    transport recipient_domain after_last deliver_external deliver_signed hand_external
    after_transport settle is_final is_hard_failure hard_code contains has_prefix retry_with
    mark_retry truncate_err truncate_at
first_round = refl

drain_queue_total_example : (drain_queue (replicate 8 (worker, round)) (queue_of own_row)).0 ≡ true
drain_queue_total_example =
    drain_queue_total (replicate 8 (worker, round)) (queue_of own_row) (tt, tt)
      (refl, (refl, (refl, (refl, (refl, (refl, (refl, (refl, tt))))))))
      (unfold is_open in omega arith)

process_one-lt_example :
    remaining (process_one worker round (queue_of own_row)).1.rows
    < remaining (queue_of own_row).rows
process_one-lt_example =
    process_one-lt worker round refl (queue_of own_row) (tt, tt) (ap (λ x. x.0) first_round)

drain_queue_lossy_example :
    let x = to_local (codes "me@a.b") (codes "u@a.b") (codes "hi") in
    let row = record own_row { recipient = codes "u@a.b"; status = delivering } in
    drain_queue (replicate 3 (worker, record round { marks = false })) (queue_of row)
    ≡ (false, record (queue_of row) { handed = [] ++ replicate 3 x })
drain_queue_lossy_example =
    let x = to_local (codes "me@a.b") (codes "u@a.b") (codes "hi") in
    let row = record own_row { recipient = codes "u@a.b"; status = delivering } in
    drain_queue_lossy worker (record round { marks = false }) 1 row job (codes "hi") x 3
      (queue_of row)
      (record { begins = refl; claims = refl; takes = refl; commits = refl; loses = refl })
      (record {
        rows = refl;
        claimed = refl;
        due = omega arith;
        loads = unfold load_job load_message lookup in refl;
        reads = unfold read_blob lookup blob_path path_eq text_eq in refl;
        sends = unfold transport recipient_domain after_last text_eq in refl;
      })

settle_bounced_example :
    let dsn = build_bounce_dsn (codes "me@a.b") (codes "u@c.d") (codes "gone") (codes "now") in
    let s = (settle worker round 1 own_row job (some gone) (queue_of own_row)).1 in
    (lookup 1 s.rows
      ≡ some (record own_row { status = bounced; last_error = some (truncate_err (codes "gone")) }))
    × (s.bounces
        ≡ []
          ++ record {
            user = 7;
            from_address = codes "postmaster@" ++ codes "a.b";
            to_address = codes "u@c.d";
            subject = codes "Delivery failure: " ++ codes "u@c.d";
            size_bytes = length dsn;
            blob_sha256 = codes "cafe";
          }
            ∷ [])
settle_bounced_example =
    settle_bounced worker round 1 4 own_row own_row job gone (queue_of own_row) owner (codes "a.b")
      (codes "cafe") refl refl (unfold lookup in refl) (unfold is_final in refl) refl refl
      (unfold lookup in refl) refl
      (unfold write_blob write_missing write_new lookup blob_path path_eq text_eq in refl)

-- A network whose name server does not answer.
abbrev dark : Net
dark = record {
  txt = λ name. none;
  mx = λ name. (some (codes "timeout"), []);
  web = λ url. HttpReply.failed (codes "timeout");
  peer = λ addr name. unreachable;
  quote = λ s. s;
}
  where
    unreachable : Peer
    unreachable = record {
      dial = some (codes "timeout");
      greeting = none;
      hello = none;
      offers_starttls = false;
      starttls = none;
      tls_state = false;
      auth_offer = none;
      auth = none;
      mail = none;
      rcpt = none;
      command_data = none;
      write = none;
      close = none;
    }

abbrev no_cache : PolicyCache Unit
no_cache = record { get = λ c d. CacheReply.miss; put = λ c d p ttl. c }

-- A message at its first attempt, for a domain with a label that ends in 5.
abbrev unlucky : QueueRow
unlucky = record own_row { recipient = codes "u@mail5.d" }

mx_failure_ends_example :
    (text : Text) × ((deliver dark no_cache none
        (codes "a.b")
        (codes "me@a.b")
        (codes "u@mail5.d")
        (codes "hi")).0.0
      ≡ some text)
    × (lookup 1
          (settle worker round 1 unlucky job
            (some (record { no_such_user = false; text = text }))
            (queue_of unlucky)).1.rows
        ≡ some (record unlucky { status = bounced; last_error = some (truncate_err text) }))
mx_failure_ends_example =
    mx_failure_ends dark no_cache none (codes "hi") (codes "u") (codes "mail5.d") (codes "timeout")
      [] worker round 1 unlucky unlucky job (queue_of unlucky) (unfold cut in refl) refl
      (unfold contains has_prefix in refl) refl (unfold lookup in refl)

drain_queue_idle_example :
    StopsIdle
      (replicate 8 (worker, round))
      (drain_queue (replicate 8 (worker, round)) (queue_of own_row))
drain_queue_idle_example =
    drain_queue_idle (replicate 8 (worker, round)) (queue_of own_row) (tt, tt)
      (fine, (fine, (fine, (fine, (fine, (fine, (fine, (fine, tt))))))))
      (unfold is_open in omega arith)
  where
    fine : Answers (worker, round)
    fine = (refl, refl, refl, refl, refl)
