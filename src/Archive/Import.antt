-- ===== src/Archive/Import.antt =====
-- internal/archive/archive.go: `ImportUser`, over the loop of Read and the inserts of Insert.
use rookery.Base.{ℕ, Option, none, some, List, [], Text, codes, ◌==◌, Eq_text, find_first}
use rookery.Store.{Files, Disk}
use rookery.Archive.{ActiveKey, Owned, Db, Entry, Json, Manifest}
use rookery.Archive.Read.{
  ImportError, no_manifest, no_active_key, Archived, nothing_read, Outcome, read_entries,
}
use rookery.Archive.Insert.{
  ImportSummary, Answers, Progress, Step, then_step, import_messages, import_attachments,
  import_known_keys, import_rotations, import_drafts,
}

abbrev summary_of : Archived → ImportSummary
summary_of r = record {
  imported_messages = 0;
  imported_blobs = r.imported_blobs;
  imported_known_keys = 0;
  imported_key_rotations = 0;
  imported_drafts = 0;
  skipped_messages = 0;
}

-- All that was read is stored, table by table.
abbrev after_keys : Answers → ℕ → Archived → Progress → Step
after_keys a user r p =
    then_step (λ q. import_drafts a user r.drafts q) (import_rotations a user r.key_rotations p)

abbrev after_attachments : Answers → ℕ → Archived → Progress → Step
after_attachments a user r p =
    then_step (λ q. after_keys a user r q) (import_known_keys a user r.known_keys p)

abbrev after_messages : Answers → ℕ → Archived → Progress → Step
after_messages a user r p =
    then_step (λ q. after_attachments a user r q) (import_attachments a r.attachments p)

unfoldable pub import_rows : Answers → ℕ → Archived → Progress → Step
import_rows a user r p =
    then_step (λ q. after_messages a user r q) (import_messages a user r.messages p)

abbrev pub begin : Archived → Db → Progress
begin r db = record { db = db; ids = []; summary = summary_of r }

-- Rows are stored only behind an archive that was read to its end and has a manifest.
abbrev pub store_read : Answers → ℕ → Option ImportError → Option Manifest → Archived → Db → Step
store_read a user (some e) m r db = (some e, begin r db)
store_read a user none none r db = (some no_manifest, begin r db)
store_read a user none (some m) r db = import_rows a user r (begin r db)

pub record Imported : Type 0 where
  pub error : Option ImportError
  pub summary : ImportSummary
  pub db : Db
  pub files : Files

abbrev imported : Step → Files → Imported
imported (e, p) fs = record { error = e; summary = p.summary; db = p.db; files = fs }

abbrev pub import_read : Answers → ℕ → Db → Outcome → Imported
import_read a user db ((e, r), fs) = imported (store_read a user e r.manifest r db) fs

module _ (sha256_hex : Text → Text) (js : Json) where
  abbrev pub import_with :
      Answers
      → Disk
      → ℕ
      → List Entry
      → Option Text
      → Option Text
      → Option (Owned ActiveKey)
      → Db
      → Files
      → Imported
  import_with a disk user xs end (some e) key db fs =
      imported (some (no_active_key e), begin nothing_read db) fs
  import_with a disk user xs end none none db fs =
      imported (some (no_active_key (codes "no rows in result set")), begin nothing_read db) fs
  import_with a disk user xs end none (some k) db fs =
      import_read a user db
        (read_entries sha256_hex js k.row.fingerprint disk 0 xs end nothing_read fs)

  unfoldable pub import_user : Answers → Disk → ℕ → List Entry → Option Text → Db → Files → Imported
  import_user a disk user xs end db fs =
      import_with a disk user xs end a.key_err (find_first (λ k. k.user_id == user) db.active_keys)
        db fs
