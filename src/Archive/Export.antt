-- ===== src/Archive/Export.antt =====
-- internal/archive/archive.go: `ExportUser`.
use rookery.Base.{
  ℕ, Bool, true, false, not, Option, none, some, List, [], ◌∷◌, ◌++◌, Text, codes, text_eq,
  if◌then◌else◌, any, select, length, find_first, ◌==◌, Result, ok, err,
}
use rookery.Store.{Files, read_blob}
use rookery.Archive.{
  Manifest, Message, Attachment, ExportedKey, ExportedRotation, Draft, ActiveKey, Owned, Db, Entry,
  Json, schema_version, fetch_messages, fetch_attachments, fetch_known_keys, fetch_key_rotations,
  fetch_drafts, fetch_addresses, fetch_custom_domains,
}

-- Each digest once, where it first occurs; `seen` are those before.
unfoldable pub distinct_blobs : (seen : List Text) → List Message → List Text
distinct_blobs seen [] = []
distinct_blobs seen (m ∷ ms) =
    let same = distinct_blobs seen ms in
    let more = distinct_blobs (m.blob_sha256 ∷ seen) ms in
    if any (λ d. text_eq d m.blob_sha256) seen then same else m.blob_sha256 ∷ more

abbrev is_there : Option Text → Bool
is_there none = false
is_there (some b) = true

-- os.Stat(st.BlobPath(digest))
unfoldable pub has_blob : Files → Text → Bool
has_blob fs d = is_there (read_blob d fs)

-- The messages whose blob is on disk.
unfoldable pub present : Files → List Message → List Message
present fs ms = select (λ m. has_blob fs m.blob_sha256) ms

-- Where blobs are missing, the attachments of dropped messages are dropped.
unfoldable pub present_attachments :
    Files → (all : List Message) → List Attachment → List Attachment
present_attachments fs all rows =
    if any (λ m. not (has_blob fs m.blob_sha256)) all
    then select (λ a. any (λ m. text_eq m.id a.message_id) (present fs all)) rows
    else rows

-- The rows of an export.
pub record Rows : Type 0 where
  pub messages : List Message
  pub blobs : List Text
  pub attachments : List Attachment
  pub known_keys : List ExportedKey
  pub key_rotations : List ExportedRotation
  pub drafts : List Draft
  pub addresses : List Text
  pub custom_domains : List Text

unfoldable pub export_rows : ℕ → Db → Files → Rows
export_rows user db fs =
    let all = fetch_messages user db in
    record {
      messages = present fs all;
      blobs = distinct_blobs [] (present fs all);
      attachments = present_attachments fs all (fetch_attachments user db);
      known_keys = fetch_known_keys user db;
      key_rotations = fetch_key_rotations user db;
      drafts = fetch_drafts user db;
      addresses = fetch_addresses user db;
      custom_domains = fetch_custom_domains user db;
    }

unfoldable pub manifest_of : (now : ℕ) → (instance_domain : Text) → ActiveKey → Rows → Manifest
manifest_of now domain key rows = record {
  schema_version = schema_version;
  exported_at = now;
  source_instance = domain;
  key_fingerprint = key.fingerprint;
  display_name = key.display_name;
  message_count = length rows.messages;
  blob_count = length rows.blobs;
  known_key_count = length rows.known_keys;
  key_rotation_count = length rows.key_rotations;
  draft_count = length rows.drafts;
  addresses = rows.addresses;
  custom_domains = rows.custom_domains;
}

abbrev pub entry : Text → Text → Entry
entry name content = record { name = name; content = content }

unfoldable pub blob_name : Text → Text
blob_name d = codes "blobs/" ++ d ++ codes ".eml"

-- The entries before the blobs.
unfoldable pub table_entries : Json → Manifest → ActiveKey → Rows → List Entry
table_entries js m key rows =
    entry (codes "manifest.json") (js.manifest_out m)
    ∷ entry (codes "public_key.asc") key.armored_public_key
    ∷ entry (codes "known_keys.json") (js.known_keys_out rows.known_keys)
    ∷ entry (codes "key_rotations.json") (js.rotations_out rows.key_rotations)
    ∷ entry (codes "drafts.json") (js.drafts_out rows.drafts)
    ∷ entry (codes "messages.json") (js.messages_out rows.messages)
    ∷ entry (codes "message_attachments.json") (js.attachments_out rows.attachments)
    ∷ []

-- What fails outside: the queries, the set-up of the encryption, the reading of a blob, and the writing
-- of an entry. The errors of the queries after the first and of the writer are whole, as the caller of
-- the export gets them; the first query that fails is the one that counts.
pub record ExportFaults : Type 0 where
  pub key_err : Option Text
  pub encrypt_err : Option Text
  pub query_err : Option Text
  pub read_err : Text → Option Text
  pub write_err : Text → Option Text

abbrev pub and_entry : Entry → Option Text → Result (List Entry) → Result (List Entry)
and_entry x (some e) rest = err e
and_entry x none (err e) = err e
and_entry x none (ok xs) = ok (x ∷ xs)

-- Entries are written up to the first error.
unfoldable pub write_entries :
    (Text → Option Text) → List Entry → Result (List Entry) → Result (List Entry)
write_entries f [] rest = rest
write_entries f (x ∷ xs) rest = and_entry x (f x.name) (write_entries f xs rest)

abbrev pub write_read :
    (Text → Option Text)
    → Text
    → Option Text
    → Option Text
    → Result (List Entry)
    → Result (List Entry)
write_read f d (some e) b rest = err (codes "archive: read blob " ++ d ++ codes ": " ++ e)
write_read f d none none rest = err (codes "archive: read blob " ++ d ++ codes ": no such file")
write_read f d none (some b) rest = and_entry (entry (blob_name d) b) (f (blob_name d)) rest

unfoldable pub write_blobs : ExportFaults → Files → List Text → Result (List Entry)
write_blobs f fs [] = ok []
write_blobs f fs (d ∷ ds) =
    write_read f.write_err d (f.read_err d) (read_blob d fs) (write_blobs f fs ds)

abbrev pub export_for :
    ExportFaults
    → Json
    → (now user : ℕ) → Text
    → ActiveKey
    → Option Text
    → Db
    → Files
    → Result (List Entry)
export_for f js now user domain key (some e) db fs = err e
export_for f js now user domain key none db fs =
    let rows = export_rows user db fs in
    write_entries f.write_err (table_entries js (manifest_of now domain key rows) key rows)
      (write_blobs f fs rows.blobs)

abbrev pub export_with :
    ExportFaults
    → Json
    → (now user : ℕ) → Text
    → Option Text
    → Option Text
    → Option (Owned ActiveKey)
    → Db
    → Files
    → Result (List Entry)
export_with f js now user domain (some e) enc key db fs =
    err (codes "archive: fetch user key: " ++ e)
export_with f js now user domain none enc none db fs =
    err (codes "archive: fetch user key: no rows in result set")
export_with f js now user domain none (some e) (some k) db fs =
    err (codes "archive: set up PGP encryption: " ++ e)
export_with f js now user domain none none (some k) db fs =
    export_for f js now user domain k.row f.query_err db fs

-- The entries, in their order, that are encrypted to the user's key.
unfoldable pub export_user :
    ExportFaults → Json → (now user : ℕ) → Text → Db → Files → Result (List Entry)
export_user f js now user domain db fs =
    export_with f js now user domain f.key_err f.encrypt_err
      (find_first (λ k. k.user_id == user) db.active_keys) db fs
