-- ===== src/Domains/Reserved/Owned.antt =====
-- The addresses that `EnsureReservedAddresses` leaves in the table.
use rookery.Base.{
  ◌⊎◌, subst, any-find_first-none, ℕ, ◌≡◌, refl, true, false, Option, none, some, List, [], ◌∷◌,
  arith, Text, text_eq, text_eq_iff, text_eq_refl, find_first, any, Bool-cases, inl, inr, sym,
  find_first-append_some, find_first-append_none,
}
use rookery.Domains.{
  insert_reserved, Domain, Address, Db, Faults, insert_owner, fetch_primary, fetch_name,
}
use rookery.Domains.Rows.{row_at}
use rookery.Domains.Reserved.{
  is_at, insert_address, Owner, of_owner, of_alias, insert_next, insert_all, insert_addresses,
  with_name, with_primary, primary_of, ensure_rows, reserved_local_parts,
}

-- The address of a local part at a domain.
abbrev pub address_of : (domain : ℕ) → (local_part : Text) → List Address → Option Address
address_of domain local rows = find_first (is_at domain local) rows

-- An address stays what it is when others are inserted.
insert_address-keeps :
    (domain : ℕ) (local : Text) (a x : Address) (rows : List Address)
    → address_of domain local rows ≡ some x
    → address_of domain local (insert_address a rows) ≡ some x
unfolding insert_address
insert_address-keeps domain local a x rows h =
    let grown = find_first-append_some (is_at domain local) rows (a ∷ []) x h in ground arith

-- A free local part gets the inserted row.
insert_address-adds :
    (a : Address) (rows : List Address)
    → address_of a.domain_id a.local_part rows ≡ none
    → address_of a.domain_id a.local_part (insert_address a rows) ≡ some a
unfolding insert_address is_at
insert_address-adds a rows h =
    let free = any-find_first-none (is_at a.domain_id a.local_part) rows h in
    let last = find_first-append_none (is_at a.domain_id a.local_part) rows (a ∷ []) h in
    ground (arith, text_eq_refl a.local_part)

insert_all-keeps :
    (f : Faults) (o : Owner) (locals : List Text) (local : Text) (x : Address) (rows : List Address)
    → address_of o.domain local rows ≡ some x
    → address_of o.domain local (insert_all f o locals rows).1 ≡ some x
unfolding insert_all
insert_all-keeps f o [] local x rows h = h
insert_all-keeps f o (l ∷ locals) local x rows h = go (f (insert_reserved l)) (
    insert_all-keeps f o locals local x (insert_address (of_alias o l) rows)
      (insert_address-keeps o.domain local (of_alias o l) x rows h))
  where
    go :
        (e : Option Text)
        → address_of o.domain local (insert_all f o locals (insert_address (of_alias o l) rows)).1
          ≡ some x
        → address_of o.domain local (insert_next e (of_alias o l) (insert_all f o locals) rows).1
          ≡ some x
    go (some e) rest = h
    go none rest = rest

-- A row of the owner.
abbrev pub IsOwned : ℕ → Option Address → Type 0
IsOwned user o = (a : Address) × (o ≡ some a) × (a.user_id ≡ user)

insert_address-other :
    (a : Address) (domain : ℕ) (local : Text) (rows : List Address)
    → text_eq a.local_part local ≡ false
    → address_of domain local rows ≡ none
    → address_of domain local (insert_address a rows) ≡ none
unfolding insert_address is_at
insert_address-other a domain local rows other free =
    let last = find_first-append_none (is_at domain local) rows (a ∷ []) free in ground arith

-- A free local part of the list becomes the owner's.
insert_all-IsOwned :
    (f : Faults) (o : Owner) (locals : List Text) (local : Text) (rows : List Address)
    → any (λ l. text_eq l local) locals ≡ true
    → address_of o.domain local rows ≡ none
    → (insert_all f o locals rows).0 ≡ none
    → IsOwned o.user (address_of o.domain local (insert_all f o locals rows).1)
unfolding insert_all
insert_all-IsOwned f o [] local rows listed free fine = cc
insert_all-IsOwned f o (l ∷ locals) local rows listed free fine =
    go (f (insert_reserved l)) (Bool-cases (text_eq l local)) fine
      (insert_all-IsOwned f o locals local (insert_address (of_alias o l) rows))
  where
    after : List Address
    after = insert_address (of_alias o l) rows

    go :
        (e : Option Text)
        → (text_eq l local ≡ true) ⊎ (text_eq l local ≡ false)
        → (insert_next e (of_alias o l) (insert_all f o locals) rows).0 ≡ none
        → (any (λ l. text_eq l local) locals ≡ true
            → address_of o.domain local after ≡ none
            → (insert_all f o locals after).0 ≡ none
            → IsOwned o.user (address_of o.domain local (insert_all f o locals after).1))
        → IsOwned o.user (
            address_of o.domain local (insert_next e (of_alias o l) (insert_all f o locals) rows).1)
    go (some e) eq fine rest = cc
    go none (inr differs) fine rest =
        rest (ground arith) (insert_address-other (of_alias o l) o.domain local rows differs free)
          fine
    go none (inl same) fine rest =
        let is = (text_eq_iff l local).0 same in
        let added : address_of o.domain l after ≡ some (of_alias o l) =
          insert_address-adds (of_alias o l) rows
            (subst (λ x. address_of o.domain x rows ≡ none) (sym is) free) in
        (
          of_alias o l,
          insert_all-keeps f o locals local (of_alias o l) after
              (subst (λ x. address_of o.domain x after ≡ some (of_alias o l)) is added),
          refl,
        )

-- What the inserts leave at the owner's own local part, where that was free.
pub insert_addresses-owner :
    (f : Faults) (e : Option Text) (o : Owner) (rows : List Address)
    → address_of o.domain o.primary.local_part rows ≡ none
    → (insert_addresses f e o rows).0 ≡ none
    → address_of o.domain o.primary.local_part (insert_addresses f e o rows).1
      ≡ some (of_owner o o.primary.local_part)
insert_addresses-owner f (some e) o rows free fine = cc
insert_addresses-owner f none o rows free fine =
    insert_all-keeps f o reserved_local_parts o.primary.local_part (of_owner o o.primary.local_part)
      _ (insert_address-adds (of_owner o o.primary.local_part) rows free)

pub insert_addresses-IsOwned :
    (f : Faults) (e : Option Text) (o : Owner) (local : Text) (rows : List Address)
    → any (λ l. text_eq l local) (o.primary.local_part ∷ reserved_local_parts) ≡ true
    → address_of o.domain local rows ≡ none
    → (insert_addresses f e o rows).0 ≡ none
    → IsOwned o.user (address_of o.domain local (insert_addresses f e o rows).1)
insert_addresses-IsOwned f (some e) o local rows listed free fine = cc
insert_addresses-IsOwned f none o local rows listed free fine =
    elim (Bool-cases (text_eq o.primary.local_part local)) [
      | inl same ↦
          let is = (text_eq_iff o.primary.local_part local).0 same in
          (
            of_owner o o.primary.local_part,
            subst
                (λ x.
                  address_of o.domain x (insert_addresses f none o rows).1
                  ≡ some (of_owner o o.primary.local_part))
                is
                (insert_addresses-owner f none o rows
                  (subst (λ x. address_of o.domain x rows ≡ none) (sym is) free) fine),
            refl,
          )
      | inr differs ↦
          insert_all-IsOwned f o reserved_local_parts local _ (ground arith)
            (insert_address-other (of_owner o o.primary.local_part) o.domain local rows differs
              free)
            fine
    ]

-- The owner that a successful run of the inserts is for.
abbrev pub owner_of : (new_id : Text → ℕ) → (user domain : ℕ) → Text → Address → Owner
owner_of new_id user domain name a = record {
  user = user;
  domain = domain;
  name = name;
  primary = a;
  new_id = new_id;
}

with_name_ran :
    (f : Faults) (new_id : Text → ℕ) (domain user : ℕ) (a : Address) (e : Option Text)
    (o : Option Domain) (rows : List Address)
    → (with_name f new_id domain user a e o rows).0 ≡ none
    → (d : Domain) × (o ≡ some d)
      × (with_name f new_id domain user a e o rows
          ≡ insert_addresses f (f insert_owner) (owner_of new_id user domain d.domain a) rows)
with_name_ran f new_id domain user a (some e) o rows h = cc
with_name_ran f new_id domain user a none none rows h = cc
with_name_ran f new_id domain user a none (some d) rows h = (d, refl, refl)

-- Without an error, the inserts ran for the user's primary address and the domain's name.
pub ensure_rows_ran :
    (f : Faults) (new_id : Text → ℕ) (domain user : ℕ) (db : Db)
    → (ensure_rows f new_id domain user db).0 ≡ none
    → (a : Address) × (d : Domain) × (primary_of user db ≡ some a)
      × (row_at domain db.domains ≡ some d)
      × (ensure_rows f new_id domain user db
          ≡ insert_addresses f
              (f insert_owner)
              (owner_of new_id user domain d.domain a)
              db.addresses)
unfolding ensure_rows
ensure_rows_ran f new_id domain user db fine = go (f fetch_primary) (primary_of user db) fine
  where
    go :
        (e : Option Text) (p : Option Address)
        → (with_primary f new_id domain user e p db).0 ≡ none
        → (a : Address) × (d : Domain) × (p ≡ some a)
          × (row_at domain db.domains ≡ some d)
          × (with_primary f new_id domain user e p db
              ≡ insert_addresses f
                  (f insert_owner)
                  (owner_of new_id user domain d.domain a)
                  db.addresses)
    go (some e) p h = cc
    go none none h = cc
    go none (some a) h =
        let (d, here, ran) =
          with_name_ran f new_id domain user a (f fetch_name) (row_at domain db.domains)
            db.addresses h in
        (a, d, refl, here, ran)
