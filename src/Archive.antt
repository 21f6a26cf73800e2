-- ===== src/Archive.antt =====
-- internal/archive/archive.go: the rows and files of an archive, and the queries of an export. What an
-- export writes is in Export; what an import reads and stores is in Read,
-- Insert and Import. An archive is the
-- list of its tar entries; JSON, SHA-256, OpenPGP and the database's errors are parameters.
pub mod Export
pub mod Read
pub mod Insert
pub mod Import
pub mod Again
pub mod Accepted
pub mod RoundTrip
mod Tests
use rookery.Base.{
  ℕ, Bool, true, false, ◌&&◌, ◌||◌, not, Option, none, some, List, [], ◌∷◌, Text, text_eq, leb, ltb,
  ◌==◌, if◌then◌else◌, any, select, map, sort_by, Result,
}

abbrev pub schema_version : ℕ
schema_version = 1

abbrev pub max_tar_entries : ℕ
max_tar_entries = 1000000

pub record Manifest : Type 0 where
  pub schema_version : ℕ
  pub exported_at : ℕ
  pub source_instance : Text
  pub key_fingerprint : Text
  pub display_name : Text
  pub message_count : ℕ
  pub blob_count : ℕ
  pub known_key_count : ℕ
  pub key_rotation_count : ℕ
  pub draft_count : ℕ
  pub addresses : List Text
  pub custom_domains : List Text

pub record Message : Type 0 where
  pub id : Text
  pub thread_id : Option Text
  pub folder : Text
  pub from_address : Text
  pub to_addresses : List Text
  pub cc_addresses : List Text
  pub subject : Text
  pub message_date : ℕ
  pub size_bytes : ℕ
  pub blob_sha256 : Text
  pub is_read : Bool
  pub is_starred : Bool
  pub security_state : Text
  pub signature_status : Text
  pub has_attachments : Bool
  pub message_id_header : Option Text
  pub deleted_at : Option ℕ
  pub received_at : ℕ

pub record Attachment : Type 0 where
  pub message_id : Text
  pub part_index : ℕ
  pub filename : Text
  pub content_type : Text
  pub size_bytes : ℕ

pub record ExportedKey : Type 0 where
  pub address : Text
  pub fingerprint : Text
  pub armored_public_key : Text
  pub source : Text
  pub first_seen_at : ℕ
  pub last_seen_at : ℕ

pub record ExportedRotation : Type 0 where
  pub old_fingerprint : Text
  pub new_fingerprint : Text
  pub old_armored_public_key : Text
  pub new_armored_public_key : Text
  pub attestation : Text
  pub statement : Text
  pub created_at : ℕ

pub record Draft : Type 0 where
  pub from_address : Text
  pub to_addresses : List Text
  pub cc_addresses : List Text
  pub bcc_addresses : List Text
  pub subject : Text
  pub body_text : Text
  pub in_reply_to : Option Text
  pub references_hdr : Option Text
  pub created_at : ℕ
  pub updated_at : ℕ

-- What a row says besides its `user_id`.
pub record Owned {ℓ} (A : Type ℓ) : Type ℓ where
  pub user_id : ℕ
  pub row : A

-- A name in the tables of addresses and domains, with its age.
pub record Named : Type 0 where
  pub name : Text
  pub is_primary : Bool
  pub created_at : ℕ

-- The user's active key.
pub record ActiveKey : Type 0 where
  pub armored_public_key : Text
  pub fingerprint : Text
  pub display_name : Text

pub record Db : Type 0 where
  pub active_keys : List (Owned ActiveKey)
  pub messages : List (Owned Message)
  pub attachments : List Attachment
  pub known_keys : List (Owned ExportedKey)
  pub key_rotations : List (Owned ExportedRotation)
  pub drafts : List (Owned Draft)
  pub addresses : List (Owned Named)
  pub domains : List (Owned Named)

pub record Entry : Type 0 where
  pub name : Text
  pub content : Text

-- encoding/json on the values of an archive.
pub record Json : Type 0 where
  pub manifest_out : Manifest → Text
  pub manifest_in : Text → Result Manifest
  pub messages_out : List Message → Text
  pub messages_in : Text → Result (List Message)
  pub attachments_out : List Attachment → Text
  pub attachments_in : Text → Result (List Attachment)
  pub known_keys_out : List ExportedKey → Text
  pub known_keys_in : Text → Result (List ExportedKey)
  pub rotations_out : List ExportedRotation → Text
  pub rotations_in : Text → Result (List ExportedRotation)
  pub drafts_out : List Draft → Text
  pub drafts_in : Text → Result (List Draft)

-- Texts in the order of their bytes.
unfoldable pub text_leb : Text → Text → Bool
text_leb [] t = true
text_leb (c ∷ s) [] = false
text_leb (c ∷ s) (d ∷ t) = ltb c d || (c == d && text_leb s t)

abbrev owned_rows {ℓ} : {A : Type ℓ} → ℕ → List (Owned A) → List A
owned_rows user rows = map (λ r. r.row) (select (λ r. r.user_id == user) rows)

-- ORDER BY received_at ASC, id ASC
abbrev received_before : Message → Message → Bool
received_before m n =
    ltb m.received_at n.received_at || (m.received_at == n.received_at && text_leb m.id n.id)

unfoldable pub fetch_messages : ℕ → Db → List Message
fetch_messages user db = sort_by received_before (owned_rows user db.messages)

-- ORDER BY ma.message_id, ma.part_index
abbrev part_before : Attachment → Attachment → Bool
part_before a b =
    if text_eq a.message_id b.message_id
    then leb a.part_index b.part_index
    else text_leb a.message_id b.message_id

unfoldable pub fetch_attachments : ℕ → Db → List Attachment
fetch_attachments user db =
    let mine = owned_rows user db.messages in
    sort_by part_before (select (λ a. any (λ m. text_eq m.id a.message_id) mine) db.attachments)

unfoldable pub fetch_known_keys : ℕ → Db → List ExportedKey
fetch_known_keys user db =
    sort_by (λ a b. leb a.first_seen_at b.first_seen_at) (owned_rows user db.known_keys)

unfoldable pub fetch_key_rotations : ℕ → Db → List ExportedRotation
fetch_key_rotations user db =
    sort_by (λ a b. leb a.created_at b.created_at) (owned_rows user db.key_rotations)

unfoldable pub fetch_drafts : ℕ → Db → List Draft
fetch_drafts user db = sort_by (λ a b. leb a.created_at b.created_at) (owned_rows user db.drafts)

abbrev names_by_age : List Named → List Text
names_by_age rows = map (λ r. r.name) (sort_by (λ a b. leb a.created_at b.created_at) rows)

unfoldable pub fetch_addresses : ℕ → Db → List Text
fetch_addresses user db = names_by_age (owned_rows user db.addresses)

unfoldable pub fetch_custom_domains : ℕ → Db → List Text
fetch_custom_domains user db =
    names_by_age (select (λ r. not r.is_primary) (owned_rows user db.domains))
