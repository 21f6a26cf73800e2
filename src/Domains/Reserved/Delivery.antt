-- ===== src/Domains/Reserved/Delivery.antt =====
-- The reserved addresses, the deletion of the domain, and the mail that reaches it.
use rookery.Base.{
  any-found, find_first-map, ℕ, ◌≡◌, refl, true, false, ◌&&◌, Option, none, some, List, ◌∷◌, ◌++◌,
  arith, Text, text_eq, cut_complete, cut-none, Lacks, ◌==◌, ==_refl, find_first, any, map, sym, ap,
  ◌∙◌, subst, lookup, Eq_number,
}
use rookery.Domains.{
  insert_owner, Domain, Address, Db, addresses_exist, Faults, count_addresses, get_domain, get,
  is_kept, delete, delete_got, is_owner,
}
use rookery.Domains.Rows.{row_at}
use rookery.Domains.Reserved.{is_at, reserved_local_parts, primary_of, ensure_reserved_addresses}
use rookery.Domains.Reserved.Owned.{
  owner_of, address_of, insert_addresses-owner, insert_addresses-IsOwned, ensure_rows_ran,
}
use rookery.Domains.Jobs.{is_present}
use rookery.Smtp.Inbound.{
  DomainRow, AddressRow, User, MailStore, Lookups, found, resolve_recipient, resolve_parts,
  base_local, at_domain, at_address, user_of, unless_suspended,
}

-- The tables as the listener for mail reads them.
abbrev pub domain_row : Domain → DomainRow
domain_row d = record {
  id = d.id;
  domain = d.domain;
  is_verified = is_present d.verified_at;
  catch_all_enabled = d.catch_all_enabled;
  catch_all_address_id = d.catch_all_address_id;
}

-- The three queries of a resolution work.
abbrev pub no_lookup_error : Lookups
no_lookup_error = record { domain_err = none; address_err = none; catch_all_err = none }

abbrev pub address_row : Address → AddressRow
address_row a = record {
  id = a.id;
  local_part = a.local_part;
  domain_id = a.domain_id;
  user_id = a.user_id;
}

abbrev pub with_tables : Db → MailStore → MailStore
with_tables db st = record st {
  domains = map domain_row db.domains;
  addresses = map address_row db.addresses;
}

-- The first verified domain of a name.
abbrev pub verified_named : Text → List Domain → Option Domain
verified_named name ds = find_first (λ d. text_eq d.domain name && is_present d.verified_at) ds

-- A user's address at a verified domain is where its mail goes.
resolve_recipient-address :
    (db : Db) (st : MailStore) (d : Domain) (a : Address) (u : User) (local : Text)
    → verified_named d.domain db.domains ≡ some d
    → address_of d.id local db.addresses ≡ some a
    → lookup a.user_id st.users ≡ some u
    → u.is_suspended ≡ false
    → Lacks b'@' local
    → Lacks b'+' local
    → resolve_recipient no_lookup_error (with_tables db st) (local ++ b'@' ∷ d.domain)
      ≡ found a.user_id (local ++ b'@' ∷ d.domain)
unfolding resolve_recipient resolve_parts base_local at_domain at_address user_of unless_suspended
    is_at
resolve_recipient-address db st d a u local named addressed has active at plus =
    rw
      (
        cut_complete b'@' local d.domain at,
        cut-none b'+' local plus,
        find_first-map domain_row (λ r. text_eq r.domain d.domain && r.is_verified) db.domains d
            named,
        find_first-map address_row (λ r. text_eq r.local_part local && r.domain_id == d.id)
            db.addresses a addressed,
        has,
        active,
      )
      refl

-- Once the reserved addresses of a verified domain are there, mail to the owner's local part and to
-- postmaster, abuse, hostmaster and webmaster at the domain reaches the owner. The domain is the first
-- verified one of its name, the local part was free and has no "@" and no "+", and the owner's
-- account is there and not suspended.
pub ensure_reserved_addresses-resolve_recipient :
    (f : Faults) (new_id : Text → ℕ) (user : ℕ) (db : Db) (st : MailStore) (d : Domain)
    (a : Address) (u : User) (local : Text)
    → (ensure_reserved_addresses f new_id d.id user db).0 ≡ none
    → row_at d.id db.domains ≡ some d
    → verified_named d.domain db.domains ≡ some d
    → primary_of user db ≡ some a
    → any (λ l. text_eq l local) (a.local_part ∷ reserved_local_parts) ≡ true
    → address_of d.id local db.addresses ≡ none
    → lookup user st.users ≡ some u
    → u.is_suspended ≡ false
    → Lacks b'@' local
    → Lacks b'+' local
    → resolve_recipient no_lookup_error
        (with_tables (ensure_reserved_addresses f new_id d.id user db).1 st)
        (local ++ b'@' ∷ d.domain)
      ≡ found user (local ++ b'@' ∷ d.domain)
unfolding ensure_reserved_addresses
ensure_reserved_addresses-resolve_recipient f new_id user db st d a u local fine here named primary
      listed free has active at plus =
    let (b, e, is_primary, there, ran) = ensure_rows_ran f new_id d.id user db fine in
    let same : a ≡ b = ground arith in
    let (x, at_local, owned) =
      insert_addresses-IsOwned f (f insert_owner) (owner_of new_id user d.id e.domain b) local
        db.addresses
        (subst (λ y. any (λ l. text_eq l local) (y.local_part ∷ reserved_local_parts) ≡ true) same
          listed)
        free (sym (ap (λ y. y.0) ran) ∙ fine) in
    let here_after = ap (λ y. address_of d.id local y.1) ran ∙ at_local in
    subst
      (λ w.
        resolve_recipient no_lookup_error
          (with_tables (ensure_reserved_addresses f new_id d.id user db).1 st)
          (local ++ b'@' ∷ d.domain)
        ≡ found w (local ++ b'@' ∷ d.domain))
      owned
      (resolve_recipient-address (ensure_reserved_addresses f new_id d.id user db).1 st d x u local
        named here_after (ap (λ w. lookup w st.users) owned ∙ has) active at plus)

-- A domain cannot be deleted once its reserved addresses are there: the owner's own address is
-- neither an alias nor reserved, so the guard of `Delete` counts it. The owner's local part was free
-- at the domain, the domain is not the primary one and is the user's, and the two queries work.
pub ensure_reserved_addresses-delete :
    (f g : Faults) (new_id : Text → ℕ) (user : ℕ) (db : Db) (d : Domain) (a : Address)
    → (ensure_reserved_addresses f new_id d.id user db).0 ≡ none
    → row_at d.id db.domains ≡ some d
    → d.is_primary ≡ false
    → d.owner_user_id ≡ some user
    → primary_of user db ≡ some a
    → address_of d.id a.local_part db.addresses ≡ none
    → g get_domain ≡ none
    → g count_addresses ≡ none
    → delete g d.id user (ensure_reserved_addresses f new_id d.id user db).1
      ≡ (some addresses_exist, (ensure_reserved_addresses f new_id d.id user db).1)
unfolding ensure_reserved_addresses delete delete_got get is_owner is_kept
ensure_reserved_addresses-delete f g new_id user db d a fine here custom mine primary free got
      counted =
    let (b, e, is_primary, there, ran) = ensure_rows_ran f new_id d.id user db fine in
    let same : a ≡ b = ground arith in
    let left =
      insert_addresses-owner f (f insert_owner) (owner_of new_id user d.id e.domain b) db.addresses
        (subst (λ y. address_of d.id y.local_part db.addresses ≡ none) same free)
        (sym (ap (λ y. y.0) ran) ∙ fine) in
    let rows = (ensure_reserved_addresses f new_id d.id user db).1.addresses in
    let found_it = ap (λ y. address_of d.id b.local_part y.1) ran ∙ left in
    let kept : any (is_kept d.id) rows ≡ true =
      any-found (is_at d.id b.local_part) (is_kept d.id) rows _ found_it (rw (==_refl d.id) refl) in
    rw (got, here, custom, mine, ==_refl user, counted, kept) refl
