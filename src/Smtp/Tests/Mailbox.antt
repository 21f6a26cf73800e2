-- ===== src/Smtp/Tests/Mailbox.antt =====
-- internal/smtp/inbound.go: a mailbox under a verified domain, an address with a tag, and an unknown one.
use mathlib.Core.List.{Memᴰ}
use rookery.Base.{
  ℕ, zero, suc, ◌≡◌, refl, true, false, none, some, [], ◌∷◌, ◌++◌, Text, codes, text_eq, cut,
  lookup, Eq_number,
}
use rookery.Store.{healthy, write_blob, write_missing, write_new, Eq_path}
use rookery.Smtp.Reply.{accepted}
use rookery.Smtp.Inbound.{
  DomainRow, MsgMeta, MailStore, Lookups, found, user_of, unless_suspended, at_address, base_local,
  at_domain, resolve_parts, resolve_recipient,
}
use rookery.Smtp.Inbound.Data.{
  unchecked, spam_reply, Delivery, Readers, store_incoming, after_spam, after_read, data_of,
}
use rookery.Smtp.Inbound.Recipients.{IsActive, resolve_recipient-IsActive}
use rookery.Smtp.Inbound.Stored.{StoresCopies, data_of-StoresCopies, data_of_lost}

abbrev lookups : Lookups
lookups = record { domain_err = none; address_err = none; catch_all_err = none }

abbrev domain : DomainRow
domain = record {
  id = 1;
  domain = codes "a.b";
  is_verified = true;
  catch_all_enabled = false;
  catch_all_address_id = none;
}

abbrev boxes : MailStore
boxes = record {
  domains = domain ∷ [];
  addresses = record { id = 5; local_part = codes "u"; domain_id = 1; user_id = 7 } ∷ [];
  users = (7, record { quota_bytes = 100; used_bytes = 0; is_suspended = false }) ∷ [];
  messages = [];
  attachments = [];
  known_keys = [];
  files = [];
}

abbrev delivery : Delivery
delivery = record {
  lookups = lookups;
  message_id = 11;
  store_err = none;
  usage_fails = false;
  attachment_fails = λ a. false;
  harvest_fails = false;
  now = 3;
}

abbrev letters : ℕ → Text
letters zero = []
letters (suc n) = b'a' ∷ letters n

abbrev readers : Readers
readers = record {
  sha256_hex = λ bytes. letters 64;
  fingerprint = λ armored. none;
  parse_meta = λ raw. empty;
  attached_key = λ raw. [];
}
  where
    empty : MsgMeta
    empty = record {
      subject = [];
      to = [];
      cc = [];
      security_state = codes "plaintext";
      signature_status = codes "none";
      has_attachments = false;
      attachments = [];
    }

tagged : resolve_recipient lookups boxes (codes "u+shop@a.b") ≡ found 7 (codes "u@a.b")
unfolding resolve_recipient resolve_parts cut base_local at_domain text_eq user_of lookup at_address
    unless_suspended
tagged = refl

resolve_recipient-IsActive_example :
    (raw : Text) × (d : DomainRow) × (cut b'@' (codes "u+shop@a.b") ≡ some (raw, d.domain))
    × Memᴰ d (domain ∷ [])
    × (d.is_verified ≡ true)
    × IsActive boxes 7
    × (codes "u@a.b" ≡ base_local raw ++ b'@' ∷ d.domain)
resolve_recipient-IsActive_example =
    resolve_recipient-IsActive lookups boxes (codes "u+shop@a.b") 7 (codes "u@a.b") tagged

stored :
    (data_of none unchecked readers
      (λ i. delivery)
      healthy
      (codes "me@c.d")
      (codes "hi")
      (codes "u@a.b" ∷ [])
      boxes).0
    ≡ accepted
unfolding data_of after_read after_spam spam_reply store_incoming write_blob write_missing write_new
    lookup
stored = refl

data_of-StoresCopies_example :
    (spam_reply unchecked ≡ none)
    × StoresCopies readers
        (λ i. delivery)
        healthy
        (codes "me@c.d")
        (codes "hi")
        (codes "u@a.b" ∷ [])
        boxes
        (data_of none unchecked readers
          (λ i. delivery)
          healthy
          (codes "me@c.d")
          (codes "hi")
          (codes "u@a.b" ∷ [])
          boxes).1
data_of-StoresCopies_example =
    data_of-StoresCopies readers (λ i. delivery) healthy (codes "me@c.d") (codes "hi") none
      unchecked (codes "u@a.b" ∷ []) boxes (λ b. refl) (λ p b h. unfold lookup in cc) stored

data_of_lost_example :
    let (reply, st) =
      data_of none unchecked readers
        (λ i. record delivery { store_err = some (codes "down") })
        healthy
        (codes "me@c.d")
        (codes "hi")
        (codes "u@a.b" ∷ [])
        boxes in
    (reply ≡ accepted) × (st.messages ≡ [])
data_of_lost_example =
    data_of_lost readers (λ i. record delivery { store_err = some (codes "down") }) healthy
      (codes "me@c.d") (codes "hi") unchecked (codes "u@a.b") [] boxes (letters 64)
      (unfold spam_reply in refl) (unfold write_blob write_missing write_new lookup in refl)
      (λ i. (codes "down", refl))
