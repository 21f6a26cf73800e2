-- ===== src/Smtp/Inbound/Data.antt =====
-- internal/smtp/inbound.go: the end of DATA, which stores a message for each recipient, and the local
-- delivery of the queue worker.
use rookery.Base.{
  ℕ, suc, ◌+◌, Bool, true, false, ◌&&◌, ◌||◌, Option, none, some, List, [], ◌∷◌, ◌++◌, Text, codes,
  text_eq, contains, ◌==◌, if◌then◌else◌, length, lookup, insert, Eq_number, Result, ok, err,
}
use rookery.Store.{Files, Disk, write_blob}
use rookery.Discovery.{KnownKey}
use rookery.Smtp.Reply.{Reply, accepted, smtp_error, plain_error}
use rookery.Smtp.Inbound.{
  AttachmentMeta, MsgMeta, User, MailStore, Lookups, Resolution, found, no_such_user,
  account_suspended, lookup_failed, resolve_recipient,
}

-- What rspamd says: it is not configured, it fails, or it names an action.
pub data Spam : Type 0 where
  unchecked : Spam
  check_failed : Text → Spam
  action : Text → Spam

unfoldable pub spam_reply : Spam → Option Reply
spam_reply unchecked = none
spam_reply (check_failed e) = none
spam_reply (action a) =
    if text_eq a (codes "reject")
    then some (smtp_error 550 5 7 1 (codes "Message rejected as spam"))
    else if text_eq a (codes "greylist") || text_eq a (codes "soft reject")
    then some (smtp_error 451 4 7 0 (codes "Please try again later"))
    else none

-- What the database does while one recipient's copy is stored.
pub record Delivery : Type 0 where
  pub lookups : Lookups
  pub message_id : ℕ
  pub store_err : Option Text
  pub usage_fails : Bool
  pub attachment_fails : AttachmentMeta → Bool
  pub harvest_fails : Bool
  pub now : ℕ

-- UPDATE users SET used_bytes = used_bytes + $1 WHERE id = $2
abbrev pub grown : Option User → ℕ → ℕ → List (ℕ × User) → List (ℕ × User)
grown none uid size users = users
grown (some u) uid size users = insert uid (record u { used_bytes = u.used_bytes + size }) users

unfoldable pub add_usage : Bool → ℕ → ℕ → MailStore → MailStore
add_usage true uid size st = st
add_usage false uid size st = record st { users = grown (lookup uid st.users) uid size st.users }

-- A row of message_attachments for each attachment whose INSERT works.
unfoldable pub add_attachments :
    (AttachmentMeta → Bool) → ℕ → List AttachmentMeta → MailStore → MailStore
add_attachments fails id [] st = st
add_attachments fails id (a ∷ rest) st =
    add_attachments fails id rest
      (if fails a then st else record st { attachments = st.attachments ++ (id, a) ∷ [] })

unfoldable pub store_message : Delivery → ℕ → Text → MsgMeta → Text → ℕ → MailStore → MailStore
store_message d uid from meta blob size st =
    add_attachments d.attachment_fails d.message_id meta.attachments (
      add_usage d.usage_fails uid size (record st {
        messages =
            st.messages
            ++ record {
              id = d.message_id;
              user_id = uid;
              from_address = from;
              meta = meta;
              size_bytes = size;
              blob_sha256 = blob;
            }
              ∷ [];
      }))

-- ON CONFLICT (user_id, fingerprint): the key and the time of the last sight are new.
unfoldable pub harvest_row : ℕ → ℕ → (address fp armored : Text) → List KnownKey → List KnownKey
harvest_row now user address fp armored [] =
    record {
      user_id = user;
      address = address;
      fingerprint = fp;
      armored_public_key = armored;
      source = codes "auto_attach";
      first_seen_at = now;
      last_seen_at = now;
    }
    ∷ []
harvest_row now user address fp armored (k ∷ ks) =
    let rest = harvest_row now user address fp armored ks in
    if k.user_id == user && text_eq k.fingerprint fp
    then record k { armored_public_key = armored; last_seen_at = now } ∷ ks
    else k ∷ rest

unfoldable pub harvest_parsed :
    Delivery → ℕ → (from armored : Text) → Option Text → MailStore → MailStore
harvest_parsed d uid from armored none st = st
harvest_parsed d uid from armored (some fp) st =
    if d.harvest_fails
    then st
    else record st { known_keys = harvest_row d.now uid from fp armored st.known_keys }

-- The reader of OpenPGP keys, the digest, and what is found in a message.
pub record Readers : Type 0 where
  pub sha256_hex : Text → Text
  pub fingerprint : Text → Option Text
  pub parse_meta : Text → MsgMeta
  pub attached_key : Text → Text

-- Not every text that a message has in place of a key is one.
unfoldable pub harvest_key : Readers → Delivery → ℕ → (from armored : Text) → MailStore → MailStore
harvest_key rd d uid from armored st =
    if contains armored (codes "BEGIN PGP PUBLIC KEY BLOCK")
    then harvest_parsed d uid from armored (rd.fingerprint armored) st
    else st

-- The message as the loop has it.
pub record Incoming : Type 0 where
  pub from : Text
  pub raw : Text
  pub blob : Text

-- The body of the loop: a copy that cannot be stored is left out.
unfoldable pub store_copy : Readers → Delivery → Incoming → ℕ → Option Text → MailStore → MailStore
store_copy rd d m uid (some e) st = st
store_copy rd d m uid none st =
    harvest_key rd d uid m.from (rd.attached_key m.raw)
      (store_message d uid m.from (rd.parse_meta m.raw) m.blob (length m.raw) st)

unfoldable pub deliver_resolved : Readers → Delivery → Incoming → Resolution → MailStore → MailStore
deliver_resolved rd d m (found uid canonical) st = store_copy rd d m uid d.store_err st
deliver_resolved rd d m no_such_user st = st
deliver_resolved rd d m account_suspended st = st
deliver_resolved rd d m (lookup_failed e) st = st

-- The loop over the recipients; `ds i` is what the database does for the i-th.
unfoldable pub deliver_each :
    Readers → (ℕ → Delivery) → ℕ → Incoming → List Text → MailStore → MailStore
deliver_each rd ds i m [] st = st
deliver_each rd ds i m (to ∷ tos) st =
    deliver_each rd ds (suc i) m tos
      (deliver_resolved rd (ds i) m (resolve_recipient (ds i).lookups st to) st)

unfoldable pub store_incoming :
    Readers
    → (ℕ → Delivery)
    → (from raw : Text) → List Text
    → Result Text × Files
    → MailStore
    → Reply × MailStore
store_incoming rd ds from raw tos (err e, files) st =
    (smtp_error 451 4 0 0 (codes "Temporary storage error"), record st { files = files })
store_incoming rd ds from raw tos (ok blob, files) st = (
  accepted,
  deliver_each rd ds 0 (record { from = from; raw = raw; blob = blob }) tos
      (record st { files = files }),
)

unfoldable pub after_spam :
    Option Reply
    → Readers
    → (ℕ → Delivery)
    → Disk
    → (from raw : Text) → List Text
    → MailStore
    → Reply × MailStore
after_spam (some reply) rd ds disk from raw tos st = (reply, st)
after_spam none rd ds disk from raw tos st =
    store_incoming rd ds from raw tos (write_blob rd.sha256_hex disk raw st.files) st

unfoldable pub after_read :
    Option Text
    → Spam
    → Readers
    → (ℕ → Delivery)
    → Disk
    → (from raw : Text) → List Text
    → MailStore
    → Reply × MailStore
after_read (some e) spam rd ds disk from raw tos st =
    (plain_error (codes "smtp: read data: " ++ e), st)
after_read none spam rd ds disk from raw tos st =
    after_spam (spam_reply spam) rd ds disk from raw tos st

unfoldable pub data_of :
    Option Text
    → Spam
    → Readers
    → (ℕ → Delivery)
    → Disk
    → (from raw : Text) → List Text
    → MailStore
    → Reply × MailStore
data_of read_err spam rd ds disk from raw [] st = (plain_error (codes "no recipients"), st)
data_of read_err spam rd ds disk from raw (to ∷ tos) st =
    after_read read_err spam rd ds disk from raw (to ∷ tos) st

-- What DeliverLocal returns.
pub data Delivered : Type 0 where
  delivered : Delivered
  unknown_user : Delivered
  suspended : Delivered
  failed : Text → Delivered

unfoldable pub store_local :
    Readers
    → Delivery
    → (from raw : Text) → ℕ
    → Option Text
    → Result Text × Files
    → MailStore
    → Delivered × MailStore
store_local rd d from raw uid e (err x, files) st =
    (failed (codes "local delivery: write blob: " ++ x), record st { files = files })
store_local rd d from raw uid (some e) (ok blob, files) st =
    (failed (codes "storeMessage: " ++ e), record st { files = files })
store_local rd d from raw uid none (ok blob, files) st = (
  delivered,
  store_message d uid from (rd.parse_meta raw) blob (length raw) (record st { files = files }),
)

unfoldable pub local_resolved :
    Readers → Delivery → Disk → (from raw : Text) → Resolution → MailStore → Delivered × MailStore
local_resolved rd d disk from raw (found uid canonical) st =
    store_local rd d from raw uid d.store_err (write_blob rd.sha256_hex disk raw st.files) st
local_resolved rd d disk from raw no_such_user st = (unknown_user, st)
local_resolved rd d disk from raw account_suspended st = (suspended, st)
local_resolved rd d disk from raw (lookup_failed e) st = (failed e, st)

unfoldable pub deliver_local :
    Readers → Delivery → Disk → (from to raw : Text) → MailStore → Delivered × MailStore
deliver_local rd d disk from to raw st =
    local_resolved rd d disk from raw (resolve_recipient d.lookups st to) st
