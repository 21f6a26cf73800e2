-- ===== src/Archive/Insert.antt =====
-- internal/archive/archive.go: the inserts of `ImportUser`, table by table. The ids of new rows and the
-- database's errors are parameters.
use rookery.Base.{
  ℕ, suc, Bool, true, false, ◌&&◌, Option, none, some, List, [], ◌∷◌, ◌++◌, Text, codes, text_eq,
  leb, ◌==◌, if◌then◌else◌, any, lookup, insert, Eq_text,
}
use rookery.Archive.{Message, Attachment, ExportedKey, ExportedRotation, Draft, Owned, Db}
use rookery.Archive.Read.{ImportError, database_failed}

pub record ImportSummary : Type 0 where
  pub imported_messages : ℕ
  pub imported_blobs : ℕ
  pub imported_known_keys : ℕ
  pub imported_key_rotations : ℕ
  pub imported_drafts : ℕ
  pub skipped_messages : ℕ

-- The database's answers: its errors, and the ids that it draws for new rows.
pub record Answers : Type 0 where
  pub new_id : Message → Text
  pub key_err : Option Text
  pub select_err : Message → Option Text
  pub insert_err : Message → Option Text
  pub attachment_err : Attachment → Option Text
  pub known_key_err : ExportedKey → Option Text
  pub rotation_err : ExportedRotation → Option Text
  pub draft_err : Draft → Option Text

-- The state of the inserts; `ids` is `msgIDMap`.
pub record Progress : Type 0 where
  pub db : Db
  pub ids : List (Text × Text)
  pub summary : ImportSummary

abbrev pub Step : Type 0
Step = Option ImportError × Progress

abbrev pub fails : Text → Progress → Step
fails e p = (some (database_failed e), p)

abbrev pub then_step : (Progress → Step) → Step → Step
then_step rest (some e, p) = (some e, p)
then_step rest (none, p) = rest p

abbrev pub header_of : Option Text → Text
header_of none = []
header_of (some h) = h

-- A row that makes the insert of this message needless.
unfoldable pub is_same : ℕ → Message → Owned Message → Bool
is_same user m r =
    r.user_id == user
    && (if text_eq (header_of m.message_id_header) []
        then text_eq r.row.blob_sha256 m.blob_sha256 && r.row.received_at == m.received_at
        else text_eq (header_of r.row.message_id_header) (header_of m.message_id_header))

abbrev pub own {ℓ} : {A : Type ℓ} → ℕ → A → Owned A
own user a = record { user_id = user; row = a }

abbrev pub stored_as : Text → Message → Message
stored_as id m = record m { id = id }

abbrev pub skipped : ImportSummary → ImportSummary
skipped s = record s { skipped_messages = suc s.skipped_messages }

abbrev inserted : ImportSummary → ImportSummary
inserted s = record s { imported_messages = suc s.imported_messages }

abbrev pub with_message : ℕ → Text → Message → Db → Db
with_message user id m db = record db { messages = db.messages ++ own user (stored_as id m) ∷ [] }

-- `insertMessageIfAbsent` and what its caller does with the answer.
abbrev pub insert_absent : Option Text → Text → ℕ → Message → Progress → Step
insert_absent (some e) id user m p = fails (codes "insert message: " ++ e) p
insert_absent none id user m p = (
  none,
  record {
    db = with_message user id m p.db;
    ids = insert m.id id p.ids;
    summary = inserted p.summary;
  },
)

abbrev pub insert_if : Answers → ℕ → Message → Bool → Progress → Step
insert_if a user m true p = (none, record p { summary = skipped p.summary })
insert_if a user m false p = insert_absent (a.insert_err m) (a.new_id m) user m p

abbrev pub insert_selected : Answers → ℕ → Message → Option Text → Progress → Step
insert_selected a user m (some e) p = fails (codes "insert message: " ++ e) p
insert_selected a user m none p = insert_if a user m (any (is_same user m) p.db.messages) p

unfoldable pub insert_message_if_absent : Answers → ℕ → Message → Progress → Step
insert_message_if_absent a user m p = insert_selected a user m (a.select_err m) p

unfoldable pub import_messages : Answers → ℕ → List Message → Progress → Step
import_messages a user [] p = (none, p)
import_messages a user (m ∷ ms) p =
    then_step (λ q. import_messages a user ms q) (insert_message_if_absent a user m p)

-- The primary key of message_attachments.
unfoldable pub is_part : Text → ℕ → Attachment → Bool
is_part id part r = text_eq r.message_id id && r.part_index == part

abbrev moved_to : Text → Attachment → Attachment
moved_to id x = record x { message_id = id }

abbrev with_attachment : Text → Attachment → Db → Db
with_attachment id x db =
    if any (is_part id x.part_index) db.attachments
    then db
    else record db { attachments = db.attachments ++ moved_to id x ∷ [] }

-- An attachment follows its message, if that was inserted now.
abbrev pub insert_attachment : Attachment → Option Text → Option Text → Progress → Step
insert_attachment x none e p = (none, p)
insert_attachment x (some id) (some e) p = fails (codes "insert attachment: " ++ e) p
insert_attachment x (some id) none p = (none, record p { db = with_attachment id x p.db })

unfoldable pub import_attachments : Answers → List Attachment → Progress → Step
import_attachments a [] p = (none, p)
import_attachments a (x ∷ xs) p =
    then_step (λ q. import_attachments a xs q)
      (insert_attachment x (lookup x.message_id p.ids) (a.attachment_err x) p)

abbrev max : ℕ → ℕ → ℕ
max a b = if leb a b then b else a

abbrev newer_key : ExportedKey → ExportedKey → ExportedKey
newer_key k old = record old {
  armored_public_key = k.armored_public_key;
  last_seen_at = max old.last_seen_at k.last_seen_at;
}

-- ON CONFLICT (user_id, fingerprint) DO UPDATE
unfoldable pub upsert_key : ℕ → ExportedKey → List (Owned ExportedKey) → List (Owned ExportedKey)
upsert_key user k [] = own user k ∷ []
upsert_key user k (r ∷ rs) =
    let rest = upsert_key user k rs in
    if r.user_id == user && text_eq r.row.fingerprint k.fingerprint
    then own user (newer_key k r.row) ∷ rs
    else r ∷ rest

abbrev key_imported : ImportSummary → ImportSummary
key_imported s = record s { imported_known_keys = suc s.imported_known_keys }

abbrev pub insert_key : ℕ → ExportedKey → Option Text → Progress → Step
insert_key user k (some e) p = fails (codes "upsert known_key: " ++ e) p
insert_key user k none p = (
  none,
  record p {
    db = record p.db { known_keys = upsert_key user k p.db.known_keys };
    summary = key_imported p.summary;
  },
)

unfoldable pub import_known_keys : Answers → ℕ → List ExportedKey → Progress → Step
import_known_keys a user [] p = (none, p)
import_known_keys a user (k ∷ ks) p =
    then_step (λ q. import_known_keys a user ks q) (insert_key user k (a.known_key_err k) p)

unfoldable pub is_rotation : ℕ → ExportedRotation → Owned ExportedRotation → Bool
is_rotation user k r =
    r.user_id == user
    && text_eq r.row.old_fingerprint k.old_fingerprint
    && text_eq r.row.new_fingerprint k.new_fingerprint

-- ON CONFLICT (user_id, old_fingerprint, new_fingerprint) DO NOTHING
unfoldable pub add_rotation :
    ℕ → ExportedRotation → List (Owned ExportedRotation) → List (Owned ExportedRotation)
add_rotation user k rs = if any (is_rotation user k) rs then rs else rs ++ own user k ∷ []

abbrev rotation_imported : ImportSummary → ImportSummary
rotation_imported s = record s { imported_key_rotations = suc s.imported_key_rotations }

abbrev pub insert_rotation : ℕ → ExportedRotation → Option Text → Progress → Step
insert_rotation user k (some e) p = fails (codes "insert key_rotation: " ++ e) p
insert_rotation user k none p = (
  none,
  record p {
    db = record p.db { key_rotations = add_rotation user k p.db.key_rotations };
    summary = rotation_imported p.summary;
  },
)

unfoldable pub import_rotations : Answers → ℕ → List ExportedRotation → Progress → Step
import_rotations a user [] p = (none, p)
import_rotations a user (k ∷ ks) p =
    then_step (λ q. import_rotations a user ks q) (insert_rotation user k (a.rotation_err k) p)

abbrev draft_imported : ImportSummary → ImportSummary
draft_imported s = record s { imported_drafts = suc s.imported_drafts }

abbrev pub insert_draft : ℕ → Draft → Option Text → Progress → Step
insert_draft user d (some e) p = fails (codes "insert draft: " ++ e) p
insert_draft user d none p = (
  none,
  record p {
    db = record p.db { drafts = p.db.drafts ++ own user d ∷ [] };
    summary = draft_imported p.summary;
  },
)

unfoldable pub import_drafts : Answers → ℕ → List Draft → Progress → Step
import_drafts a user [] p = (none, p)
import_drafts a user (d ∷ ds) p =
    then_step (λ q. import_drafts a user ds q) (insert_draft user d (a.draft_err d) p)
