-- ===== src/Smtp/Inbound.antt =====
-- internal/smtp/inbound.go: the session of the MX listener, the resolution of recipients and the storing
-- of messages. The MIME reader, the search for an attached key and rspamd are parameters.
pub mod Data
pub mod Recipients
pub mod Rcpt
pub mod Tables
pub mod Copies
pub mod Stored
use rookery.Base.{
  ℕ, suc, ◌+◌, Bool, true, false, ◌&&◌, Option, none, some, List, [], ◌∷◌, ◌++◌, Text, codes,
  text_eq, contains, cut, to_lower, trim_space, ltb, leb, ◌==◌, if◌then◌else◌, length, find_first,
  lookup, insert, Eq_number, Result, ok, err,
}
use rookery.Store.{Files, Disk, write_blob}
use rookery.Discovery.{KnownKey}
use rookery.Smtp.Reply.{Reply, accepted, smtp_error, auth_unsupported, plain_error, max_recipients}

pub record DomainRow : Type 0 where
  pub id : ℕ
  pub domain : Text
  pub is_verified : Bool
  pub catch_all_enabled : Bool
  pub catch_all_address_id : Option ℕ

pub record AddressRow : Type 0 where
  pub id : ℕ
  pub local_part : Text
  pub domain_id : ℕ
  pub user_id : ℕ

-- A quota of 0 is no quota.
pub record User : Type 0 where
  pub quota_bytes : ℕ
  pub used_bytes : ℕ
  pub is_suspended : Bool

pub record AttachmentMeta : Type 0 where
  pub part_index : ℕ
  pub filename : Text
  pub content_type : Text
  pub size_bytes : ℕ

-- What is kept of a message's MIME structure, without its date.
pub record MsgMeta : Type 0 where
  pub subject : Text
  pub to : List Text
  pub cc : List Text
  pub security_state : Text
  pub signature_status : Text
  pub has_attachments : Bool
  pub attachments : List AttachmentMeta

-- A row of messages in the folder 'inbox'.
pub record InboxRow : Type 0 where
  pub id : ℕ
  pub user_id : ℕ
  pub from_address : Text
  pub meta : MsgMeta
  pub size_bytes : ℕ
  pub blob_sha256 : Text

pub record MailStore : Type 0 where
  pub domains : List DomainRow
  pub addresses : List AddressRow
  pub users : List (ℕ × User)
  pub messages : List InboxRow
  pub attachments : List (ℕ × AttachmentMeta)
  pub known_keys : List KnownKey
  pub files : Files

-- The errors of the three queries of a resolution.
pub record Lookups : Type 0 where
  pub domain_err : Option Text
  pub address_err : Option Text
  pub catch_all_err : Option Text

pub data Resolution : Type 0 where
  found : (user_id : ℕ) (canonical : Text) → Resolution
  no_such_user : Resolution
  account_suspended : Resolution
  lookup_failed : Text → Resolution

abbrev with_id : ℕ → Option User → Option (ℕ × User)
with_id id none = none
with_id id (some u) = some (id, u)

-- addresses a JOIN users u ON u.id = a.user_id
unfoldable pub user_of : MailStore → Option AddressRow → Option (ℕ × User)
user_of st none = none
user_of st (some a) = with_id a.user_id (lookup a.user_id st.users)

unfoldable pub unless_suspended : Text → Option (ℕ × User) → Resolution
unless_suspended canonical none = no_such_user
unless_suspended canonical (some (uid, u)) =
    if u.is_suspended then account_suspended else found uid canonical

unfoldable pub catch_all : Option Text → MailStore → Text → Bool → Option ℕ → Resolution
catch_all e st canonical false target = no_such_user
catch_all e st canonical true none = no_such_user
catch_all (some e) st canonical true (some id) = lookup_failed e
catch_all none st canonical true (some id) =
    unless_suspended canonical (user_of st (find_first (λ a. a.id == id) st.addresses))

unfoldable pub at_address :
    Lookups → MailStore → DomainRow → Text → Option Text → Option (ℕ × User) → Resolution
at_address q st d canonical (some e) hit = lookup_failed e
at_address q st d canonical none (some hit) = unless_suspended canonical (some hit)
at_address q st d canonical none none =
    catch_all q.catch_all_err st canonical d.catch_all_enabled d.catch_all_address_id

-- The local part without its "+" tag.
abbrev before_plus : Text → Option (Text × Text) → Text
before_plus raw none = raw
before_plus raw (some (head, tag)) = head

unfoldable pub base_local : Text → Text
base_local raw = before_plus raw (cut b'+' raw)

unfoldable pub at_domain :
    Lookups → MailStore → (local domain : Text) → Option Text → Option DomainRow → Resolution
at_domain q st local domain (some e) hit = lookup_failed e
at_domain q st local domain none none = no_such_user
at_domain q st local domain none (some d) =
    at_address q st d (local ++ b'@' ∷ domain) q.address_err (
      user_of st (find_first (λ a. text_eq a.local_part local && a.domain_id == d.id) st.addresses))

unfoldable pub resolve_parts : Lookups → MailStore → Option (Text × Text) → Resolution
resolve_parts q st none = no_such_user
resolve_parts q st (some (raw, domain)) =
    at_domain q st (base_local raw) domain q.domain_err
      (find_first (λ d. text_eq d.domain domain && d.is_verified) st.domains)

unfoldable pub resolve_recipient : Lookups → MailStore → Text → Resolution
resolve_recipient q st to = resolve_parts q st (cut b'@' to)

pub record InboundSession : Type 0 where
  pub from : Text
  pub recipients : List Text

abbrev pub empty_session : InboundSession
empty_session = record { from = []; recipients = [] }

unfoldable pub mail : Text → InboundSession → InboundSession
mail from s = record s { from = to_lower (trim_space from) }

unfoldable pub reset : InboundSession → InboundSession
reset s = empty_session

-- The MX port has no AUTH.
unfoldable pub auth_plain : (username password : Text) → InboundSession → Reply × InboundSession
auth_plain username password s = (auth_unsupported, s)

abbrev add_recipient : Text → InboundSession → Reply × InboundSession
add_recipient to s = (accepted, record s { recipients = s.recipients ++ to ∷ [] })

-- The quota, if its query works.
unfoldable pub within_quota :
    Option Text → Option User → Text → InboundSession → Reply × InboundSession
within_quota (some e) u to s = add_recipient to s
within_quota none none to s = add_recipient to s
within_quota none (some u) to s =
    if ltb 0 u.quota_bytes && leb u.quota_bytes u.used_bytes
    then (smtp_error 452 4 2 2 (codes "Mailbox full"), s)
    else add_recipient to s

unfoldable pub rcpt_of :
    Option Text → MailStore → Resolution → Text → InboundSession → Reply × InboundSession
rcpt_of quota_err st (found uid canonical) to s = within_quota quota_err (lookup uid st.users) to s
rcpt_of quota_err st no_such_user to s = (smtp_error 550 5 1 1 (codes "No such user"), s)
rcpt_of quota_err st account_suspended to s =
    (smtp_error 451 4 0 0 (codes "Temporary error, try again later"), s)
rcpt_of quota_err st (lookup_failed e) to s =
    (smtp_error 451 4 0 0 (codes "Temporary error, try again later"), s)

unfoldable pub rcpt :
    Lookups → Option Text → MailStore → Text → InboundSession → Reply × InboundSession
rcpt q quota_err st raw s =
    let to = to_lower (trim_space raw) in
    if leb max_recipients (length s.recipients)
    then (smtp_error 452 4 5 3 (codes "Too many recipients"), s)
    else rcpt_of quota_err st (resolve_recipient q st to) to s
