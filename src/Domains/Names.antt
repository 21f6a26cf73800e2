-- ===== src/Domains/Names.antt =====
-- The names of registered domains.
use rookery.Base.{
  ℕ, ◌≡◌, refl, true, Option, none, some, List, [], ◌∷◌, ◌++◌, arith, Text, text_eq, text_eq_refl,
  contains, has_prefix, any, Bool-cases, inl, inr,
}
use rookery.Domains.{
  Domain, Db, done, failed, conflict, Faults, random_token, random_id, insert_domain, Fresh,
  new_domain, insert_error, unique_violation, insert_row, register_named, normal_name, register,
}

abbrev IsTaken : Text → Db → Type 0
IsTaken name db = any (λ d. text_eq d.domain name) db.domains ≡ true

any-last :
    (name : Text) (rows : List Domain) (row : Domain)
    → row.domain ≡ name
    → any (λ d. text_eq d.domain name) (rows ++ row ∷ []) ≡ true
any-last name [] row same = rw same (ground (arith, text_eq_refl name))
any-last name (d ∷ rows) row same = ground (arith, any-last name rows row same)

insert_row-IsTaken :
    (f : Faults) (e : Option Text) (row : Domain) (db : Db) (d : Domain)
    → (insert_row f e row db).0 ≡ done d
    → IsTaken row.domain (insert_row f e row db).1
unfolding insert_row
insert_row-IsTaken f (some e) row db d h = cc
insert_row-IsTaken f none row db d h =
    elim (Bool-cases (any (λ d. text_eq d.domain row.domain) db.domains)) [
      | inl e ↦ rw e e
      | inr e ↦ rw e (any-last row.domain db.domains row refl)
    ]

register_named-IsTaken :
    (e1 e2 : Option Text) (f : Faults) (fr : Fresh) (user : ℕ) (name : Text) (db : Db) (d : Domain)
    → (register_named e1 e2 f fr user name db).0 ≡ done d
    → IsTaken name (register_named e1 e2 f fr user name db).1
unfolding register_named new_domain
register_named-IsTaken (some e) e2 f fr user name db d h = cc
register_named-IsTaken none (some e) f fr user name db d h = cc
register_named-IsTaken none none f fr user name db d h =
    insert_row-IsTaken f (f insert_domain) (new_domain fr user name) db d h

unique_violation-conflict : insert_error unique_violation ≡ conflict
unfolding insert_error contains has_prefix
unique_violation-conflict = refl

register_named_taken :
    (f : Faults) (fr : Fresh) (user : ℕ) (name : Text) (db : Db)
    → f insert_domain ≡ none
    → IsTaken name db
    → register_named none none f fr user name db ≡ (failed conflict, db)
unfolding register_named insert_row new_domain
register_named_taken f fr user name db fine taken = rw (fine, taken, unique_violation-conflict) refl

-- A domain that was registered is refused to whoever registers it again, in whatever case and with
-- whatever white space around it, and nothing is changed. The random source and the INSERT of the
-- second registration work.
pub register_again :
    (f g : Faults) (fr gr : Fresh) (user other_user : ℕ) (name again : Text) (db : Db) (d : Domain)
    → (register f fr user name db).0 ≡ done d
    → normal_name again ≡ normal_name name
    → g random_token ≡ none
    → g random_id ≡ none
    → g insert_domain ≡ none
    → register g gr other_user again (register f fr user name db).1
      ≡ (failed conflict, (register f fr user name db).1)
unfolding register
register_again f g fr gr user other_user name again db d fine same token id insert =
    elim (Bool-cases (text_eq (normal_name name) [])) [
      | inl empty ↦ absurd (ground arith)
      | inr named ↦
          let h : (register_named (f random_token) (f random_id) f fr user (normal_name name) db).0
              ≡ done d =
            ground arith in
          rw (same, named, token, id)
            (register_named_taken g gr other_user (normal_name name) _ insert (
              register_named-IsTaken (f random_token) (f random_id) f fr user (normal_name name) db
                d h))
    ]
