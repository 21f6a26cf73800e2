-- ===== src/Domains/Reserved.antt =====
-- internal/domains/domains.go: the addresses of a verified domain, the owner's own and the reserved ones.
pub mod Owned
pub mod Delivery
use rookery.Base.{
  ◌≡◌, refl, ℕ, Bool, true, false, not, ◌&&◌, Option, none, some, List, [], ◌∷◌, ◌++◌, Text, codes,
  text_eq, ◌==◌, if◌then◌else◌, find_first, any, map, lookup, Eq_number,
}
use rookery.Domains.{
  Domain, Address, Db, DomainError, other, Faults, fetch_primary, fetch_name, insert_owner,
  insert_reserved, query_jobs, not_found,
}

abbrev pub reserved_local_parts : List Text
reserved_local_parts =
    codes "postmaster" ∷ codes "abuse" ∷ codes "hostmaster" ∷ codes "webmaster" ∷ []

unfoldable pub is_at : (domain_id : ℕ) → (local_part : Text) → Address → Bool
is_at domain local a = text_eq a.local_part local && a.domain_id == domain

-- INSERT ... ON CONFLICT (local_part, domain_id) DO NOTHING
unfoldable pub insert_address : Address → List Address → List Address
insert_address a rows = if any (is_at a.domain_id a.local_part) rows then rows else rows ++ a ∷ []

abbrev pub address_at : (local_part name : Text) → Text
address_at local name = local ++ b'@' ∷ name

abbrev pub owner_address : (id user domain : ℕ) → (local_part name : Text) → Address
owner_address id user domain local name = record {
  id = id;
  user_id = user;
  domain_id = domain;
  local_part = local;
  address = address_at local name;
  is_alias = false;
  alias_target_id = none;
  is_reserved = false;
  delivery_method = codes "direct";
}

abbrev pub reserved_address : (id user domain target : ℕ) → (local_part name : Text) → Address
reserved_address id user domain target local name = record {
  id = id;
  user_id = user;
  domain_id = domain;
  local_part = local;
  address = address_at local name;
  is_alias = true;
  alias_target_id = some target;
  is_reserved = true;
  delivery_method = codes "alias";
}

-- What the inserts for one domain share; `new_id` gives the id of the row of a local part.
pub record Owner : Type 0 where
  pub user : ℕ
  pub domain : ℕ
  pub name : Text
  pub primary : Address
  pub new_id : Text → ℕ

abbrev pub of_owner : Owner → Text → Address
of_owner o local = owner_address (o.new_id local) o.user o.domain local o.name

abbrev pub of_alias : Owner → Text → Address
of_alias o local = reserved_address (o.new_id local) o.user o.domain o.primary.id local o.name

-- The loop over `reservedLocalParts`; the first error ends it.
abbrev pub insert_next :
    Option Text
    → Address
    → (List Address → Option DomainError × List Address)
    → List Address
    → Option DomainError × List Address
insert_next (some e) a rest rows =
    (some (other (codes "domains: insert reserved address " ++ a.address ++ codes ": " ++ e)), rows)
insert_next none a rest rows = rest (insert_address a rows)

unfoldable pub insert_all :
    Faults → Owner → List Text → List Address → Option DomainError × List Address
insert_all f o [] rows = (none, rows)
insert_all f o (local ∷ locals) rows =
    insert_next (f (insert_reserved local)) (of_alias o local) (insert_all f o locals) rows

abbrev pub insert_addresses :
    Faults → Option Text → Owner → List Address → Option DomainError × List Address
insert_addresses f (some e) o rows =
    let address = address_at o.primary.local_part o.name in
    (some (other (codes "domains: insert owner address " ++ address ++ codes ": " ++ e)), rows)
insert_addresses f none o rows =
    insert_all f o reserved_local_parts (insert_address (of_owner o o.primary.local_part) rows)

-- users u JOIN addresses a ON a.id = u.primary_address_id WHERE u.id = $1
abbrev address_with : List Address → Option ℕ → Option Address
address_with rows none = none
address_with rows (some id) = find_first (λ a. a.id == id) rows

unfoldable pub primary_of : ℕ → Db → Option Address
primary_of user db = address_with db.addresses (lookup user db.primary_addresses)

abbrev pub no_rows : Text
no_rows = codes "no rows in result set"

abbrev no_primary : Text → DomainError
no_primary e = other (codes "domains: reserved: fetch owner primary address: " ++ e)

abbrev pub with_name :
    Faults
    → (Text → ℕ)
    → (domain user : ℕ) → Address
    → Option Text
    → Option Domain
    → List Address
    → Option DomainError × List Address
with_name f new_id domain user a (some e) row rows = (some (other e), rows)
with_name f new_id domain user a none none rows = (some (other no_rows), rows)
with_name f new_id domain user a none (some d) rows =
    insert_addresses f (f insert_owner)
      (record { user = user; domain = domain; name = d.domain; primary = a; new_id = new_id }) rows

abbrev pub with_primary :
    Faults
    → (Text → ℕ)
    → (domain user : ℕ) → Option Text
    → Option Address
    → Db
    → Option DomainError × List Address
with_primary f new_id domain user (some e) a db = (some (no_primary e), db.addresses)
with_primary f new_id domain user none none db = (some (no_primary no_rows), db.addresses)
with_primary f new_id domain user none (some a) db =
    with_name f new_id domain user a (f fetch_name) (find_first (λ d. d.id == domain) db.domains)
      db.addresses

-- The error, and the table of addresses afterwards.
unfoldable pub ensure_rows :
    Faults → (Text → ℕ) → (domain user : ℕ) → Db → Option DomainError × List Address
ensure_rows f new_id domain user db =
    with_primary f new_id domain user (f fetch_primary) (primary_of user db) db

unfoldable pub ensure_reserved_addresses :
    Faults → (Text → ℕ) → (domain user : ℕ) → Db → Option DomainError × Db
ensure_reserved_addresses f new_id domain user db =
    let (e, rows) = ensure_rows f new_id domain user db in (e, record db { addresses = rows })

abbrev pair_of : Bool → Option ℕ → Option ℕ → ℕ → List (ℕ × ℕ) → List (ℕ × ℕ)
pair_of false (some at) (some owner) id rest = (id, owner) ∷ rest
pair_of _ _ _ id rest = rest

-- The verified domains of users: each with its owner.
unfoldable pub verified_pairs : List Domain → List (ℕ × ℕ)
verified_pairs [] = []
verified_pairs (d ∷ ds) =
    pair_of d.is_primary d.verified_at d.owner_user_id d.id (verified_pairs ds)

-- The ids of the new rows depend on the domain too; an error of one domain is only logged.
unfoldable pub backfill_all : (ℕ → Faults) → (ℕ → Text → ℕ) → List (ℕ × ℕ) → Db → Db
backfill_all f new_id [] db = db
backfill_all f new_id ((domain, owner) ∷ pairs) db =
    backfill_all f new_id pairs
      (ensure_reserved_addresses (f domain) (new_id domain) domain owner db).1

unfoldable pub backfill_owner_addresses :
    Option Text → (ℕ → Faults) → (ℕ → Text → ℕ) → Db → Option DomainError × Db
backfill_owner_addresses (some e) f new_id db =
    (some (other (codes "domains: backfill query: " ++ e)), db)
backfill_owner_addresses none f new_id db =
    (none, backfill_all f new_id (verified_pairs db.domains) db)

pub ensure_reserved_addresses-domains :
    (f : Faults) (new_id : Text → ℕ) (domain user : ℕ) (db : Db)
    → (ensure_reserved_addresses f new_id domain user db).1.domains ≡ db.domains
unfolding ensure_reserved_addresses
ensure_reserved_addresses-domains f new_id domain user db = refl
