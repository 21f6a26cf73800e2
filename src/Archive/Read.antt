-- ===== src/Archive/Read.antt =====
-- internal/archive/archive.go: the loop of `ImportUser` over the entries of an archive. Rows are
-- collected, blobs are written to disk at once.
use rookery.Base.{
  ℕ, suc, Bool, ◌&&◌, not, Option, none, some, List, [], ◌∷◌, Text, codes, text_eq, has_prefix,
  has_suffix, equal_fold, split, trim_suffix, cut_prefix, ltb, ◌==◌, if◌then◌else◌, any, length,
  Result, ok, err,
}
use rookery.Store.{Files, Disk, write_blob}
use rookery.Archive.{
  Manifest, Message, Attachment, ExportedKey, ExportedRotation, Draft, Entry, Json, schema_version,
  max_tar_entries,
}

pub data ImportError : Type 0 where
  tar_failed : Text → ImportError
  too_many_entries : ImportError
  empty_name : ImportError
  absolute_name path_traversal : Text → ImportError
  parse_failed : (entry error : Text) → ImportError
  unsupported_schema : ℕ → ImportError
  foreign_archive : (fingerprint mine : Text) → ImportError
  bad_blob_name : Text → ImportError
  hash_mismatch : (digest computed : Text) → ImportError
  write_failed : (digest error : Text) → ImportError
  no_manifest : ImportError
  no_active_key : Text → ImportError
  database_failed : Text → ImportError

-- `validateEntryName`: no error is `none`.
unfoldable pub validate_entry_name : Text → Option ImportError
validate_entry_name name =
    if text_eq name []
    then some empty_name
    else if has_prefix name (codes "/")
    then some (absolute_name name)
    else if any (λ part. text_eq part (codes "..")) (split b'/' name)
    then some (path_traversal name)
    else none

-- What the loop has read so far.
pub record Archived : Type 0 where
  pub manifest : Option Manifest
  pub messages : List Message
  pub attachments : List Attachment
  pub known_keys : List ExportedKey
  pub key_rotations : List ExportedRotation
  pub drafts : List Draft
  pub imported_blobs : ℕ

abbrev pub nothing_read : Archived
nothing_read = record {
  manifest = none;
  messages = [];
  attachments = [];
  known_keys = [];
  key_rotations = [];
  drafts = [];
  imported_blobs = 0;
}

-- An entry is read, or ends the import; the files are those after it.
abbrev pub Outcome : Type 0
Outcome = (Option ImportError × Archived) × Files

abbrev pub goes_on : Archived → Files → Outcome
goes_on a fs = ((none, a), fs)

abbrev pub stops : ImportError → Archived → Files → Outcome
stops e a fs = ((some e, a), fs)

unfoldable pub accept_manifest : (mine : Text) → Result Manifest → Archived → Files → Outcome
accept_manifest mine (err e) a fs = stops (parse_failed (codes "manifest") e) a fs
accept_manifest mine (ok m) a fs =
    if not (m.schema_version == schema_version)
    then stops (unsupported_schema m.schema_version) a fs
    else if equal_fold m.key_fingerprint mine
    then goes_on (record a { manifest = some m }) fs
    else stops (foreign_archive m.key_fingerprint mine) a fs

abbrev pub accept : {A : Type 0} → Text → Result A → (A → Archived) → Archived → Files → Outcome
accept name (err e) put a fs = stops (parse_failed name e) a fs
accept name (ok x) put a fs = goes_on (put x) fs

-- strings.TrimPrefix: the text, if it has no such prefix.
abbrev text_or : Text → Option Text → Text
text_or s none = s
text_or s (some t) = t

-- The digest in a name of a blob.
unfoldable pub digest_of : Text → Text
digest_of name = trim_suffix (text_or name (cut_prefix name (codes "blobs/"))) (codes ".eml")

abbrev pub is_blob_name : Text → Bool
is_blob_name name = has_prefix name (codes "blobs/") && has_suffix name (codes ".eml")

module _ (sha256_hex : Text → Text) where
  abbrev pub blob_written : Text → Archived → Result Text × Files → Outcome
  blob_written d a (ok w, fs) = goes_on (record a { imported_blobs = suc a.imported_blobs }) fs
  blob_written d a (err e, fs) = stops (write_failed d e) a fs

  unfoldable pub accept_blob : Disk → (digest content : Text) → Archived → Files → Outcome
  accept_blob disk d content a fs =
      if text_eq (sha256_hex content) d
      then blob_written d a (write_blob sha256_hex disk content fs)
      else stops (hash_mismatch d (sha256_hex content)) a fs

  unfoldable pub read_blob_entry : Disk → Entry → Archived → Files → Outcome
  read_blob_entry disk x a fs =
      if length (digest_of x.name) == 64
      then accept_blob disk (digest_of x.name) x.content a fs
      else stops (bad_blob_name x.name) a fs

  -- The switch on the name of an entry.
  unfoldable pub read_named : Json → (mine : Text) → Disk → Entry → Archived → Files → Outcome
  read_named js mine disk x a fs =
      if text_eq x.name (codes "manifest.json")
      then accept_manifest mine (js.manifest_in x.content) a fs
      else if text_eq x.name (codes "public_key.asc")
      then goes_on a fs
      else if text_eq x.name (codes "known_keys.json")
      then accept (codes "known_keys") (js.known_keys_in x.content)
          (λ v. record a { known_keys = v }) a fs
      else if text_eq x.name (codes "key_rotations.json")
      then accept (codes "key_rotations") (js.rotations_in x.content)
          (λ v. record a { key_rotations = v }) a fs
      else if text_eq x.name (codes "drafts.json")
      then accept (codes "drafts") (js.drafts_in x.content) (λ v. record a { drafts = v }) a fs
      else if text_eq x.name (codes "messages.json")
      then accept (codes "messages") (js.messages_in x.content) (λ v. record a { messages = v }) a
          fs
      else if text_eq x.name (codes "message_attachments.json")
      then accept (codes "message_attachments") (js.attachments_in x.content)
          (λ v. record a { attachments = v }) a fs
      else if is_blob_name x.name
      then read_blob_entry disk x a fs
      else goes_on a fs

  abbrev pub read_valid :
      Json → Text → Disk → Entry → Option ImportError → Archived → Files → Outcome
  read_valid js mine disk x (some e) a fs = stops e a fs
  read_valid js mine disk x none a fs = read_named js mine disk x a fs

  unfoldable pub read_entry : Json → Text → Disk → Entry → Archived → Files → Outcome
  read_entry js mine disk x a fs = read_valid js mine disk x (validate_entry_name x.name) a fs

  abbrev pub then_read : (Archived → Files → Outcome) → Outcome → Outcome
  then_read rest ((some e, a), fs) = ((some e, a), fs)
  then_read rest ((none, a), fs) = rest a fs

  abbrev pub at_end : Option Text → Archived → Files → Outcome
  at_end none a fs = goes_on a fs
  at_end (some e) a fs = stops (tar_failed e) a fs

  -- The entries up to the end, or to the tar reader's error; `count` were read before.
  unfoldable pub read_entries :
      Json → Text → Disk → (count : ℕ) → List Entry → Option Text → Archived → Files → Outcome
  read_entries js mine disk count [] end a fs = at_end end a fs
  read_entries js mine disk count (x ∷ xs) end a fs =
      if ltb max_tar_entries (suc count)
      then stops too_many_entries a fs
      else then_read (λ b gs. read_entries js mine disk (suc count) xs end b gs)
          (read_entry js mine disk x a fs)
