-- ===== src/Domains.antt =====
-- internal/domains/domains.go: the custom domains of users. The rows and the plain queries are here; the
-- checks of DNS records are in Dns, the verification in Verify, what the owner sets in Settings, and the
-- periodic jobs in Jobs. A table is a list of rows; the random tokens and the new row ids are
-- parameters, and `Faults` says which calls of the outside fail. Times are seconds.
pub mod Rows
pub mod Names
pub mod Dns
pub mod Reserved
pub mod Verify
pub mod Settings
pub mod Jobs
mod Tests
use rookery.Base.{
  ℕ, ◌+◌, ◌*◌, Bool, true, false, ◌&&◌, ◌||◌, not, Option, none, some, List, [], ◌∷◌, ◌++◌, Text,
  codes, text_eq, contains, to_lower, trim_space, leb, ◌==◌, if◌then◌else◌, any, select, find_first,
  take, map,
}

pub record Domain : Type 0 where
  pub id : ℕ
  pub domain : Text
  pub is_primary : Bool
  pub owner_user_id : Option ℕ
  pub verified_at : Option ℕ
  pub wkd_active : Bool
  pub created_at : ℕ
  pub verification_token : Option Text
  pub verification_expires_at : Option ℕ
  pub verification_checked_at : Option ℕ
  pub mta_sts_mode : Option Text
  pub mta_sts_id : Option Text
  pub mta_sts_mode_changed_at : Option ℕ
  pub catch_all_enabled : Bool
  pub catch_all_address_id : Option ℕ
  pub dns_last_checked_at : Option ℕ
  pub dns_status : List (Text × Text)

-- A row of addresses.
pub record Address : Type 0 where
  pub id : ℕ
  pub user_id : ℕ
  pub domain_id : ℕ
  pub local_part : Text
  pub address : Text
  pub is_alias : Bool
  pub alias_target_id : Option ℕ
  pub is_reserved : Bool
  pub delivery_method : Text

-- The tables; of a user there is `primary_address_id`.
pub record Db : Type 0 where
  pub domains : List Domain
  pub addresses : List Address
  pub primary_addresses : List (ℕ × ℕ)

pub data DomainError : Type 0 where
  not_found conflict forbidden addresses_exist : DomainError
  other : Text → DomainError

pub data Outcome {ℓ} (A : Type ℓ) : Type ℓ where
  done : A → Outcome A
  failed : DomainError → Outcome A

-- The calls that can fail: of the random source, and of the database.
pub data Call : Type 0 where
  random_token random_id : Call
  insert_domain get_domain list_domains count_addresses delete_domain : Call
  refresh_token mark_verified mark_checked : Call
  fetch_primary fetch_name insert_owner : Call
  insert_reserved : Text → Call
  query_jobs : Call
  write_catch_all count_targets write_mode : Call
  update_domain : ℕ → Call

abbrev pub Faults : Type 0
Faults = Call → Option Text

abbrev pub token_ttl : ℕ
token_ttl = 7 * 24 * 3600

abbrev pub or_else_not_found : Option Domain → Outcome Domain
or_else_not_found none = failed not_found
or_else_not_found (some d) = done d

abbrev pub scan_one : Option Text → Option Domain → Outcome Domain
scan_one (some e) row = failed (other e)
scan_one none row = or_else_not_found row

unfoldable pub get : Faults → ℕ → Db → Outcome Domain
get f id db = scan_one (f get_domain) (find_first (λ d. d.id == id) db.domains)

unfoldable pub get_by_name : Faults → Text → Db → Outcome Domain
get_by_name f name db = scan_one (f get_domain) (find_first (λ d. text_eq d.domain name) db.domains)

unfoldable pub is_owner : ℕ → Option ℕ → Bool
is_owner user none = false
is_owner user (some o) = o == user

-- ORDER BY created_at ASC
unfoldable pub insert_by_age : Domain → List Domain → List Domain
insert_by_age d [] = d ∷ []
insert_by_age d (e ∷ es) =
    let rest = insert_by_age d es in if leb d.created_at e.created_at then d ∷ e ∷ es else e ∷ rest

unfoldable pub by_age : List Domain → List Domain
by_age [] = []
by_age (d ∷ ds) = insert_by_age d (by_age ds)

abbrev listed : Option Text → List Domain → Outcome (List Domain)
listed (some e) rows = failed (other (codes "domains: list: " ++ e))
listed none rows = done rows

unfoldable pub list_for_user : Faults → ℕ → Db → Outcome (List Domain)
list_for_user f user db =
    listed (f list_domains)
      (by_age (select (λ d. is_owner user d.owner_user_id && not d.is_primary) db.domains))

-- What one registration takes from outside: the clock, the new row's id and the random tokens.
pub record Fresh : Type 0 where
  pub now : ℕ
  pub row_id : ℕ
  pub token : Text
  pub sts_token : Text

unfoldable pub new_domain : Fresh → (user : ℕ) → (name : Text) → Domain
new_domain fr user name = record {
  id = fr.row_id;
  domain = name;
  is_primary = false;
  owner_user_id = some user;
  verified_at = none;
  wkd_active = false;
  created_at = fr.now;
  verification_token = some fr.token;
  verification_expires_at = some (fr.now + token_ttl);
  verification_checked_at = none;
  mta_sts_mode = none;
  mta_sts_id = some (take 16 fr.sts_token);
  mta_sts_mode_changed_at = some fr.now;
  catch_all_enabled = false;
  catch_all_address_id = none;
  dns_last_checked_at = none;
  dns_status = [];
}

unfoldable pub insert_error : Text → DomainError
insert_error e =
    if contains e (codes "duplicate") || contains e (codes "unique")
    then conflict
    else other (codes "domains: insert: " ++ e)

abbrev pub unique_violation : Text
unique_violation = codes "duplicate key value violates unique constraint"

-- The row is inserted, unless its name is taken, and read again.
unfoldable pub insert_row : Faults → Option Text → Domain → Db → Outcome Domain × Db
insert_row f (some e) row db = (failed (insert_error e), db)
insert_row f none row db =
    if any (λ d. text_eq d.domain row.domain) db.domains
    then (failed (insert_error unique_violation), db)
    else let after = record db { domains = db.domains ++ row ∷ [] } in (get f row.id after, after)

unfoldable pub register_named :
    Option Text → Option Text → Faults → Fresh → ℕ → Text → Db → Outcome Domain × Db
register_named (some e) id_err f fr user name db =
    (failed (other (codes "domains: generate token: " ++ e)), db)
register_named none (some e) f fr user name db =
    (failed (other (codes "domains: generate mta-sts id: " ++ e)), db)
register_named none none f fr user name db =
    insert_row f (f insert_domain) (new_domain fr user name) db

abbrev pub normal_name : Text → Text
normal_name name = to_lower (trim_space name)

unfoldable pub register : Faults → Fresh → ℕ → Text → Db → Outcome Domain × Db
register f fr user name db =
    if text_eq (normal_name name) []
    then (failed (other (codes "domains: empty domain name")), db)
    else register_named (f random_token) (f random_id) f fr user (normal_name name) db

-- An address that keeps its domain from being deleted.
unfoldable pub is_kept : ℕ → Address → Bool
is_kept id a = a.domain_id == id && not a.is_reserved && not a.is_alias

abbrev pub restrict_violation : Text
restrict_violation = codes "update or delete on table \"domains\" violates foreign key constraint"

-- addresses.domain_id REFERENCES domains(id) ON DELETE RESTRICT
unfoldable pub delete_row : Option Text → ℕ → Db → Option DomainError × Db
delete_row (some e) id db = (some (other e), db)
delete_row none id db =
    if any (λ a. a.domain_id == id) db.addresses
    then (some (other restrict_violation), db)
    else (none, record db { domains = select (λ d. not (d.id == id)) db.domains })

abbrev count_kept : Faults → Option Text → ℕ → Db → Option DomainError × Db
count_kept f (some e) id db = (some (other (codes "domains: check addresses: " ++ e)), db)
count_kept f none id db =
    if any (is_kept id) db.addresses
    then (some addresses_exist, db)
    else delete_row (f delete_domain) id db

unfoldable pub delete_got : Faults → ℕ → ℕ → Outcome Domain → Db → Option DomainError × Db
delete_got f id user (failed e) db = (some e, db)
delete_got f id user (done d) db =
    if d.is_primary
    then (some forbidden, db)
    else if is_owner user d.owner_user_id
    then count_kept f (f count_addresses) id db
    else (some forbidden, db)

-- `Delete`: no error is `none`.
unfoldable pub delete : Faults → ℕ → ℕ → Db → Option DomainError × Db
delete f id user db = delete_got f id user (get f id db) db

-- UPDATE domains SET ... WHERE id = $1
unfoldable pub set_row : (Domain → Domain) → ℕ → List Domain → List Domain
set_row g id [] = []
set_row g id (d ∷ ds) = let rest = set_row g id ds in if d.id == id then g d ∷ rest else d ∷ rest

abbrev pub update : ℕ → (Domain → Domain) → Db → Db
update id g db = record db { domains = set_row g id db.domains }
