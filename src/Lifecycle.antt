-- ===== src/Lifecycle.antt =====
-- internal/lifecycle/lifecycle.go: the deletion of an account. The database's errors are a parameter.
-- The transaction is a state that is thrown away unless the commit works.
pub mod Shared
pub mod Dropped
pub mod Complete
mod Tests
use rookery.Base.{
  ℕ, Bool, true, false, ◌&&◌, not, Option, none, some, List, [], ◌∷◌, ◌++◌, Text, codes, text_eq,
  ◌==◌, if◌then◌else◌, any, select, map,
}
use rookery.Store.{Files, delete_blob}

pub record MessageRow : Type 0 where
  pub user_id : ℕ
  pub blob_sha256 : Text

pub record AddressRow : Type 0 where
  pub user_id : ℕ
  pub domain_id : ℕ

pub record DomainRow : Type 0 where
  pub id : ℕ
  pub owner_user_id : Option ℕ
  pub is_primary : Bool

pub record Db : Type 0 where
  pub users : List ℕ
  pub messages : List MessageRow
  pub addresses : List AddressRow
  pub domains : List DomainRow

pub data DeleteError : Type 0 where
  query_failed : Text → DeleteError
  user_not_found : DeleteError
  domain_restricted : ℕ → DeleteError

pub record Faults : Type 0 where
  pub begin_err : Option Text
  pub blobs_err : Option Text
  pub domains_err : Option Text
  pub delete_err : Option Text
  pub domain_err : ℕ → Option Text
  pub commit_err : Option Text
  pub remove_fails : Text → Bool

-- Another user has a message with this blob.
unfoldable pub is_shared : ℕ → List MessageRow → Text → Bool
is_shared user rows d = any (λ m. text_eq m.blob_sha256 d && not (m.user_id == user)) rows

-- Each text once.
unfoldable pub distinct : List Text → List Text
distinct [] = []
distinct (d ∷ ds) = let rest = distinct ds in if any (λ e. text_eq e d) ds then rest else d ∷ rest

unfoldable pub exclusive_blobs : ℕ → Db → List Text
exclusive_blobs user db = distinct (
    map (λ m. m.blob_sha256)
      (select (λ m. m.user_id == user && not (is_shared user db.messages m.blob_sha256))
        db.messages))

abbrev is_owned_by : ℕ → Option ℕ → Bool
is_owned_by user none = false
is_owned_by user (some o) = o == user

unfoldable pub is_exclusive : ℕ → Db → DomainRow → Bool
is_exclusive user db d =
    is_owned_by user d.owner_user_id
    && not d.is_primary
    && not (any (λ a. a.domain_id == d.id && not (a.user_id == user)) db.addresses)

unfoldable pub exclusive_domains : ℕ → Db → List ℕ
exclusive_domains user db = map (λ d. d.id) (select (is_exclusive user db) db.domains)

-- ON DELETE SET NULL
abbrev disowned : ℕ → DomainRow → DomainRow
disowned user d = if is_owned_by user d.owner_user_id then record d { owner_user_id = none } else d

-- The row of the user goes, and what refers to it by ON DELETE CASCADE.
unfoldable pub delete_row : ℕ → Db → Db
delete_row user db = record {
  users = select (λ u. not (u == user)) db.users;
  messages = select (λ m. not (m.user_id == user)) db.messages;
  addresses = select (λ a. not (a.user_id == user)) db.addresses;
  domains = map (disowned user) db.domains;
}

abbrev pub TxResult : Type 0
TxResult = Option DeleteError × Db

abbrev pub then_tx : (Db → TxResult) → TxResult → TxResult
then_tx rest (some e, db) = (some e, db)
then_tx rest (none, db) = rest db

-- addresses.domain_id is ON DELETE RESTRICT.
abbrev pub delete_domain : Option Text → ℕ → Db → TxResult
delete_domain (some e) id db = (some (query_failed e), db)
delete_domain none id db =
    if any (λ a. a.domain_id == id) db.addresses
    then (some (domain_restricted id), db)
    else (none, record db { domains = select (λ d. not (d.id == id)) db.domains })

unfoldable pub delete_domains : Faults → List ℕ → Db → TxResult
delete_domains f [] db = (none, db)
delete_domains f (id ∷ ids) db =
    then_tx (λ db. delete_domains f ids db) (delete_domain (f.domain_err id) id db)

unfoldable pub delete_in_tx : Faults → ℕ → Option Text → Db → TxResult
delete_in_tx f user (some e) db = (some (query_failed e), db)
delete_in_tx f user none db =
    if any (λ u. u == user) db.users
    then delete_domains f (exclusive_domains user db) (delete_row user db)
    else (some user_not_found, db)

-- A blob that cannot be removed is logged and stays.
unfoldable pub remove_blobs : Faults → List Text → Files → Files
remove_blobs f [] fs = fs
remove_blobs f (d ∷ ds) fs =
    if f.remove_fails d then remove_blobs f ds fs else remove_blobs f ds (delete_blob d fs)

pub record Deleted : Type 0 where
  pub error : Option DeleteError
  pub db : Db
  pub files : Files

abbrev rolled_back : DeleteError → Db → Files → Deleted
rolled_back e db fs = record { error = some e; db = db; files = fs }

-- Blobs are removed only behind the commit.
abbrev pub committed : Faults → Option Text → TxResult → List Text → Db → Files → Deleted
committed f commit_err (some e, tx) blobs db fs = rolled_back e db fs
committed f (some e) (none, tx) blobs db fs = rolled_back (query_failed e) db fs
committed f none (none, tx) blobs db fs = record {
  error = none;
  db = tx;
  files = remove_blobs f blobs fs;
}

abbrev pub begun : Faults → ℕ → Option Text → Option Text → Option Text → Db → Files → Deleted
begun f user (some e) e2 e3 db fs = rolled_back (query_failed e) db fs
begun f user none (some e) e3 db fs = rolled_back (query_failed e) db fs
begun f user none none (some e) db fs = rolled_back (query_failed e) db fs
begun f user none none none db fs =
    committed f f.commit_err (delete_in_tx f user f.delete_err db) (exclusive_blobs user db) db fs

unfoldable pub delete_user : Faults → ℕ → Db → Files → Deleted
delete_user f user db fs = begun f user f.begin_err f.blobs_err f.domains_err db fs
