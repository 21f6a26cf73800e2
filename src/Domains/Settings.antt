-- ===== src/Domains/Settings.antt =====
-- internal/domains/domains.go: what the owner of a domain sets, its catch-all and its MTA-STS mode.
use rookery.Base.{
  [], ℕ, Bool, true, false, not, ◌&&◌, ◌||◌, Option, none, some, ◌++◌, Text, codes, text_eq, leb,
  ◌==◌, ◌+◌, ◌*◌, if◌then◌else◌, any,
}
use rookery.Domains.{
  Domain, Address, Db, DomainError, other, forbidden, Outcome, done, failed, Faults,
  write_catch_all, count_targets, write_mode, get, update, is_owner,
}

-- A change by the owner: the error of reading the domain, the guard, and then the change.
unfoldable pub as_owner :
    (user : ℕ) → Outcome Domain → Option DomainError × Db → Db → Option DomainError × Db
as_owner user (failed e) change db = (some e, db)
as_owner user (done d) change db =
    if is_owner user d.owner_user_id then change else (some forbidden, db)

unfoldable pub exec : Option Text → Db → Db → Option DomainError × Db
exec (some e) after db = (some (other e), db)
exec none after db = (none, after)

-- An address of this user on this domain that is no alias.
unfoldable pub is_target : (address user domain : ℕ) → Address → Bool
is_target address user domain a =
    a.id == address && a.user_id == user && a.domain_id == domain && not a.is_alias

abbrev no_target : DomainError
no_target = other (codes "domains: catch-all target address not found on this domain")

abbrev clear_catch_all : Domain → Domain
clear_catch_all d = record d { catch_all_enabled = false; catch_all_address_id = none }

abbrev pub catch_all_to : ℕ → Domain → Domain
catch_all_to address d = record d { catch_all_enabled = true; catch_all_address_id = some address }

abbrev set_target : Option Text → Faults → (id user target : ℕ) → Db → Option DomainError × Db
set_target (some e) f id user target db = (some (other e), db)
set_target none f id user target db =
    if any (is_target target user id) db.addresses
    then exec (f write_catch_all) (update id (catch_all_to target) db) db
    else (some no_target, db)

unfoldable pub change_catch_all :
    Faults → (id user : ℕ) → Bool → (target : ℕ) → Db → Option DomainError × Db
change_catch_all f id user false target db =
    exec (f write_catch_all) (update id clear_catch_all db) db
change_catch_all f id user true target db = set_target (f count_targets) f id user target db

unfoldable pub set_catch_all :
    Faults → (id user : ℕ) → Bool → (target : ℕ) → Db → Option DomainError × Db
set_catch_all f id user enabled target db =
    as_owner user (get f id db) (change_catch_all f id user enabled target db) db

abbrev is_mode : Text → Bool
is_mode mode =
    text_eq mode (codes "testing")
    || text_eq mode (codes "enforce")
    || text_eq mode (codes "disabled")

abbrev automatic : Domain → Domain
automatic d = record d { mta_sts_mode = none }

abbrev with_mode : ℕ → Text → Domain → Domain
with_mode now mode d = record d { mta_sts_mode = some mode; mta_sts_mode_changed_at = some now }

unfoldable pub change_mode : Faults → (now id : ℕ) → Text → Db → Option DomainError × Db
change_mode f now id mode db =
    if text_eq mode []
    then exec (f write_mode) (update id automatic db) db
    else if is_mode mode
    then exec (f write_mode) (update id (with_mode now mode) db) db
    else (some (other (codes "domains: invalid mta_sts_mode " ++ mode)), db)

unfoldable pub set_mta_sts_mode : Faults → (now id user : ℕ) → Text → Db → Option DomainError × Db
set_mta_sts_mode f now id user mode db =
    as_owner user (get f id db) (change_mode f now id mode db) db

abbrev pub testing_time : ℕ
testing_time = 48 * 3600

unfoldable pub mode_since : ℕ → Option ℕ → Text
mode_since now none = codes "testing"
mode_since now (some at) = if leb (at + testing_time) now then codes "enforce" else codes "testing"

abbrev pub mode_or : Text → Option Text → Text
mode_or auto none = auto
mode_or auto (some mode) = mode

unfoldable pub effective_mta_sts_mode : ℕ → Domain → Text
effective_mta_sts_mode now d = mode_or (mode_since now d.mta_sts_mode_changed_at) d.mta_sts_mode
