-- ===== src/Archive/Tests.antt =====
-- internal/archive on a mailbox with one message.
use rookery.Base.{
  Lacks, arith, ℕ, suc, ◌≡◌, refl, false, none, List, [], ◌∷◌, ◌++◌, Text, codes, length, zero, ok,
  ◌⊎◌, Eq_text, lookup, insert, text_eq, sort_by,
}
use rookery.Store.{Files, healthy, blob_path, path_eq, Eq_path, read_blob}
use rookery.Store.Blobs.{IsAddressed}
use rookery.Archive.{
  Manifest, Message, ActiveKey, Owned, Db, Entry, Json, fetch_messages, fetch_attachments,
  fetch_known_keys, fetch_key_rotations, fetch_drafts, fetch_addresses, fetch_custom_domains,
}
use rookery.Archive.Export.{
  ExportFaults, entry, export_rows, manifest_of, export_user, distinct_blobs, present, has_blob,
  present_attachments, table_entries, blob_name, write_entries, write_blobs,
}
use rookery.Archive.Read.{nothing_read, read_entries}
use rookery.Archive.RoundTrip.{export_user-read_entries}
use rookery.Archive.RoundTrip.Tables.{read_of}
use rookery.Archive.Insert.{
  Answers, Progress, import_messages, insert_message_if_absent, is_same, skipped,
}
use rookery.Archive.Again.{import_messages_again}
use rookery.Archive.Import.{import_user}
use rookery.Archive.Accepted.{IsOwnArchive, import_user-IsOwn}

abbrev letters : ℕ → Text
letters zero = []
letters (suc n) = b'a' ∷ letters n

letters-Lacks : (n : ℕ) → Lacks b'/' (letters n)
letters-Lacks zero = tt
letters-Lacks (suc n) = (omega arith, letters-Lacks n)

abbrev digest : Text → Text
digest bytes = letters 64

abbrev message : Message
message = record {
  id = codes "m1";
  thread_id = none;
  folder = codes "inbox";
  from_address = codes "x@y.z";
  to_addresses = [];
  cc_addresses = [];
  subject = codes "hi";
  message_date = 1;
  size_bytes = 3;
  blob_sha256 = letters 64;
  is_read = false;
  is_starred = false;
  security_state = codes "plaintext";
  signature_status = codes "none";
  has_attachments = false;
  message_id_header = none;
  deleted_at = none;
  received_at = 2;
}

abbrev key : Owned ActiveKey
key = record {
  user_id = 7;
  row = record {
    armored_public_key = codes "KEY";
    fingerprint = codes "AB";
    display_name = codes "U";
  };
}

abbrev db_of : List (Owned Message) → Db
db_of rows = record {
  active_keys = key ∷ [];
  messages = rows;
  attachments = [];
  known_keys = [];
  key_rotations = [];
  drafts = [];
  addresses = [];
  domains = [];
}

abbrev mailbox : Db
mailbox = db_of (record { user_id = 7; row = message } ∷ [])

abbrev files : Files
files = (blob_path (letters 64), codes "raw") ∷ []

-- The instance of the manifest that the codec below reads back.
abbrev answers : Answers
answers = record {
  new_id = λ m. codes "n1";
  key_err = none;
  select_err = λ m. none;
  insert_err = λ m. none;
  attachment_err = λ a. none;
  known_key_err = λ k. none;
  rotation_err = λ k. none;
  draft_err = λ d. none;
}

abbrev start : Progress
start = record {
  db = db_of [];
  ids = [];
  summary = record {
    imported_messages = 0;
    imported_blobs = 0;
    imported_known_keys = 0;
    imported_key_rotations = 0;
    imported_drafts = 0;
    skipped_messages = 0;
  };
}

abbrev first_import : Progress
first_import = (import_messages answers 7 (message ∷ []) start).1

import_messages_again_example :
    import_messages answers 7 (message ∷ []) first_import
    ≡ (none, record first_import { summary = skipped first_import.summary })
unfolding import_messages insert_message_if_absent is_same lookup insert text_eq
import_messages_again_example =
    import_messages_again answers answers 7 (message ∷ []) start first_import refl (λ m. refl) refl

abbrev manifest : Manifest
manifest = record {
  schema_version = 1;
  exported_at = 5;
  source_instance = codes "a.b";
  key_fingerprint = codes "AB";
  display_name = codes "U";
  message_count = 1;
  blob_count = 1;
  known_key_count = 0;
  key_rotation_count = 0;
  draft_count = 0;
  addresses = [];
  custom_domains = [];
}

-- A codec for this one archive.
abbrev codec : Json
codec = record {
  manifest_out = λ m. codes "manifest";
  manifest_in = λ t. ok manifest;
  messages_out = λ ms. codes "messages";
  messages_in = λ t. ok (message ∷ []);
  attachments_out = λ xs. [];
  attachments_in = λ t. ok [];
  known_keys_out = λ ks. [];
  known_keys_in = λ t. ok [];
  rotations_out = λ ks. [];
  rotations_in = λ t. ok [];
  drafts_out = λ ds. [];
  drafts_in = λ t. ok [];
}

abbrev no_faults : ExportFaults
no_faults = record {
  key_err = none;
  encrypt_err = none;
  query_err = none;
  read_err = λ d. none;
  write_err = λ name. none;
}

abbrev entries : List Entry
entries =
    entry (codes "manifest.json") (codes "manifest")
    ∷ entry (codes "public_key.asc") (codes "KEY")
    ∷ entry (codes "known_keys.json") []
    ∷ entry (codes "key_rotations.json") []
    ∷ entry (codes "drafts.json") []
    ∷ entry (codes "messages.json") (codes "messages")
    ∷ entry (codes "message_attachments.json") []
    ∷ entry (codes "blobs/" ++ letters 64 ++ codes ".eml") (codes "raw")
    ∷ []

export_user-read_entries_example :
    (read_entries digest codec (codes "AB") healthy 0 entries none nothing_read []).0 ≡ (
      none,
      read_of
          (manifest_of 5 (codes "a.b") key.row (export_rows 7 mailbox files))
          (export_rows 7 mailbox files)
          (length (export_rows 7 mailbox files).blobs),
    )
unfolding export_user export_rows manifest_of fetch_messages fetch_attachments fetch_known_keys
    fetch_key_rotations fetch_drafts fetch_addresses fetch_custom_domains distinct_blobs present
    has_blob present_attachments table_entries blob_name write_entries write_blobs read_blob lookup
    blob_path path_eq text_eq sort_by
export_user-read_entries_example =
    export_user-read_entries digest codec no_faults 5 7 (codes "a.b") key mailbox files [] entries
      (record {
        manifest = refl;
        messages = refl;
        attachments = refl;
        known_keys = refl;
        rotations = refl;
        drafts = refl;
      })
      refl ((letters-Lacks 64, refl, λ b h. refl), tt) (omega arith) refl

import_user-IsOwn_example :
    (((import_user digest codec answers healthy 7 entries none mailbox []).db ≡ mailbox)
      ⊎ IsOwnArchive digest codec 7 mailbox entries)
    × IsAddressed digest (import_user digest codec answers healthy 7 entries none mailbox []).files
import_user-IsOwn_example =
    import_user-IsOwn digest codec answers healthy 7 entries none mailbox []
      (λ p b h. unfold lookup in cc)
