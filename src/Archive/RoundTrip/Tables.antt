-- ===== src/Archive/RoundTrip/Tables.antt =====
-- The entries of the tables, as an import reads them.
use rookery.Base.{
  ℕ, suc, ◌≤◌, ◌≡◌, refl, true, false, none, some, List, ◌∷◌, ◌++◌, arith, Text, codes, text_eq,
  text_eq_refl, equal_fold, ◌==◌, ap, ◌∙◌, Result, ok, has_prefix, split, ltb, to_lower,
}
use rookery.Store.{Eq_path, Files, healthy}
use rookery.Archive.{
  Manifest, Message, Attachment, ExportedKey, ExportedRotation, Draft, ActiveKey, Entry, Json,
  schema_version, max_tar_entries,
}
use rookery.Archive.Export.{Rows, entry, table_entries}
use rookery.Archive.Read.{
  goes_on, Archived, nothing_read, accept_manifest, read_named, read_entry, read_entries,
  validate_entry_name,
}

-- Decoding undoes encoding, for what an export writes.
pub record IsFaithful (js : Json) (m : Manifest) (rows : Rows) : Type 0 where
  pub manifest : js.manifest_in (js.manifest_out m) ≡ ok m
  pub messages : js.messages_in (js.messages_out rows.messages) ≡ ok rows.messages
  pub attachments : js.attachments_in (js.attachments_out rows.attachments) ≡ ok rows.attachments
  pub known_keys : js.known_keys_in (js.known_keys_out rows.known_keys) ≡ ok rows.known_keys
  pub rotations : js.rotations_in (js.rotations_out rows.key_rotations) ≡ ok rows.key_rotations
  pub drafts : js.drafts_in (js.drafts_out rows.drafts) ≡ ok rows.drafts

-- What a reader has collected of the tables.
abbrev pub read_of : Manifest → Rows → (blobs : ℕ) → Archived
read_of m rows n = record {
  manifest = some m;
  messages = rows.messages;
  attachments = rows.attachments;
  known_keys = rows.known_keys;
  key_rotations = rows.key_rotations;
  drafts = rows.drafts;
  imported_blobs = n;
}

accept_manifest_fine :
    (m : Manifest) (mine : Text) (r : Result Manifest) (a : Archived) (fs : Files)
    → r ≡ ok m
    → m.schema_version ≡ schema_version
    → m.key_fingerprint ≡ mine
    → accept_manifest mine r a fs ≡ goes_on (record a { manifest = some m }) fs
unfolding accept_manifest equal_fold
accept_manifest_fine m mine r a fs read schema same =
    let e1 : (m.schema_version == schema_version) ≡ true = ground arith in
    let e2 : equal_fold m.key_fingerprint mine ≡ true =
      ap (λ t. equal_fold t mine) same ∙ text_eq_refl (to_lower mine) in
    ap (λ r. accept_manifest mine r a fs) read ∙ rw (e1, e2) refl

module _ (sha256_hex : Text → Text) (js : Json) (mine : Text) (gs : Files) where
  read_entries_step :
      (count : ℕ) (x : Entry) (xs : List Entry) (a b : Archived)
      → suc count ≤ max_tar_entries
      → read_entry sha256_hex js mine healthy x a gs ≡ goes_on b gs
      → read_entries sha256_hex js mine healthy count (x ∷ xs) none a gs
        ≡ read_entries sha256_hex js mine healthy (suc count) xs none b gs
  unfolding read_entries
  read_entries_step count x xs a b few h =
      let room : ltb max_tar_entries (suc count) ≡ false = ground arith in rw (room, h) refl

  read-manifest :
      (m : Manifest) (a : Archived)
      → js.manifest_in (js.manifest_out m) ≡ ok m
      → m.schema_version ≡ schema_version
      → m.key_fingerprint ≡ mine
      → read_entry sha256_hex js mine healthy
          (entry (codes "manifest.json") (js.manifest_out m))
          a
          gs
        ≡ goes_on (record a { manifest = some m }) gs
  unfolding read_entry read_named validate_entry_name split text_eq has_prefix
  read-manifest m a exact schema same =
      accept_manifest_fine m mine (js.manifest_in (js.manifest_out m)) a gs exact schema same

  read-public_key :
      (armored : Text) (a : Archived)
      → read_entry sha256_hex js mine healthy (entry (codes "public_key.asc") armored) a gs
        ≡ goes_on a gs
  unfolding read_entry read_named validate_entry_name split text_eq has_prefix
  read-public_key armored a = refl

  read-known_keys :
      (v : List ExportedKey) (a : Archived)
      → js.known_keys_in (js.known_keys_out v) ≡ ok v
      → read_entry sha256_hex js mine healthy
          (entry (codes "known_keys.json") (js.known_keys_out v))
          a
          gs
        ≡ goes_on (record a { known_keys = v }) gs
  unfolding read_entry read_named validate_entry_name split text_eq has_prefix
  read-known_keys v a exact = rw exact refl

  read-key_rotations :
      (v : List ExportedRotation) (a : Archived)
      → js.rotations_in (js.rotations_out v) ≡ ok v
      → read_entry sha256_hex js mine healthy
          (entry (codes "key_rotations.json") (js.rotations_out v))
          a
          gs
        ≡ goes_on (record a { key_rotations = v }) gs
  unfolding read_entry read_named validate_entry_name split text_eq has_prefix
  read-key_rotations v a exact = rw exact refl

  read-drafts :
      (v : List Draft) (a : Archived)
      → js.drafts_in (js.drafts_out v) ≡ ok v
      → read_entry sha256_hex js mine healthy (entry (codes "drafts.json") (js.drafts_out v)) a gs
        ≡ goes_on (record a { drafts = v }) gs
  unfolding read_entry read_named validate_entry_name split text_eq has_prefix
  read-drafts v a exact = rw exact refl

  read-messages :
      (v : List Message) (a : Archived)
      → js.messages_in (js.messages_out v) ≡ ok v
      → read_entry sha256_hex js mine healthy
          (entry (codes "messages.json") (js.messages_out v))
          a
          gs
        ≡ goes_on (record a { messages = v }) gs
  unfolding read_entry read_named validate_entry_name split text_eq has_prefix
  read-messages v a exact = rw exact refl

  read-attachments :
      (v : List Attachment) (a : Archived)
      → js.attachments_in (js.attachments_out v) ≡ ok v
      → read_entry sha256_hex js mine healthy
          (entry (codes "message_attachments.json") (js.attachments_out v))
          a
          gs
        ≡ goes_on (record a { attachments = v }) gs
  unfolding read_entry read_named validate_entry_name split text_eq has_prefix
  read-attachments v a exact = rw exact refl

  pub read_entries-tables :
      (m : Manifest) (key : ActiveKey) (rows : Rows) (bs : List Entry)
      → IsFaithful js m rows
      → m.schema_version ≡ schema_version
      → m.key_fingerprint ≡ mine
      → read_entries sha256_hex js mine healthy 0
          (table_entries js m key rows ++ bs)
          none
          nothing_read
          gs
        ≡ read_entries sha256_hex js mine healthy 7 bs none (read_of m rows 0) gs
  unfolding table_entries
  read_entries-tables m key rows bs exact schema same =
      read_entries_step 0 _ _ _ _ (omega arith) (read-manifest m _ exact.manifest schema same)
      ∙ read_entries_step 1 _ _ _ _ (omega arith) (read-public_key key.armored_public_key _)
      ∙ read_entries_step 2 _ _ _ _ (omega arith)
          (read-known_keys rows.known_keys _ exact.known_keys)
      ∙ read_entries_step 3 _ _ _ _ (omega arith)
          (read-key_rotations rows.key_rotations _ exact.rotations)
      ∙ read_entries_step 4 _ _ _ _ (omega arith) (read-drafts rows.drafts _ exact.drafts)
      ∙ read_entries_step 5 _ _ _ _ (omega arith) (read-messages rows.messages _ exact.messages)
      ∙ read_entries_step 6 _ _ _ _ (omega arith)
          (read-attachments rows.attachments _ exact.attachments)
