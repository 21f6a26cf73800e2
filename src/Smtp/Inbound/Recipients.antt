-- ===== src/Smtp/Inbound/Recipients.antt =====
-- Who can receive mail.
use mathlib.Core.List.{Memᴰ}
use rookery.Base.{
  Lacks-append, find_first-Memᴰ, text_eq_iff, cut-none, ℕ, ◌≡◌, refl, Bool, true, false, ◌&&◌,
  Option, none, some, ◌∷◌, ◌++◌, arith, Text, text_eq, cut, cut_complete, Lacks, find_first, lookup,
  Eq_number, if◌then◌else◌, Bool-cases, inl, inr, ◌==◌, ap, ◌∙◌,
}
use rookery.Smtp.Inbound.{
  DomainRow, AddressRow, User, MailStore, Lookups, found, account_suspended, with_id, user_of,
  unless_suspended, catch_all, at_address, base_local, at_domain, resolve_parts, resolve_recipient,
}

-- A user that is there and not suspended.
abbrev pub IsActive : MailStore → ℕ → Type 0
IsActive st uid = (u : User) × (lookup uid st.users ≡ some u) × (u.is_suspended ≡ false)

unless_suspended-IsActive :
    (st : MailStore) (a : Option AddressRow) (canonical : Text) (uid : ℕ) (c : Text)
    → unless_suspended canonical (user_of st a) ≡ found uid c
    → IsActive st uid × (c ≡ canonical)
unfolding unless_suspended user_of
unless_suspended-IsActive st none canonical uid c h = cc
unless_suspended-IsActive st (some a) canonical uid c h = go (lookup a.user_id st.users) refl h
  where
    active :
        (u : User)
        → lookup a.user_id st.users ≡ some u
        → (if u.is_suspended then account_suspended else found a.user_id canonical) ≡ found uid c
        → IsActive st uid × (c ≡ canonical)
    active u has e = elim (Bool-cases (u.is_suspended)) [
      | inl bad ↦ absurd (ground arith)
      | inr good ↦ ((u, ground arith, good), ground arith)
    ]

    go :
        (o : Option User)
        → lookup a.user_id st.users ≡ o
        → unless_suspended canonical (with_id a.user_id o) ≡ found uid c
        → IsActive st uid × (c ≡ canonical)
    go none has e = cc
    go (some u) has e = active u has e

catch_all-IsActive :
    (e : Option Text) (st : MailStore) (canonical : Text) (on : Bool) (target : Option ℕ) (uid : ℕ)
    (c : Text)
    → catch_all e st canonical on target ≡ found uid c
    → IsActive st uid × (c ≡ canonical)
unfolding catch_all
catch_all-IsActive e st canonical false target uid c h = cc
catch_all-IsActive e st canonical true none uid c h = cc
catch_all-IsActive (some e) st canonical true (some id) uid c h = cc
catch_all-IsActive none st canonical true (some id) uid c h =
    unless_suspended-IsActive st _ canonical uid c h

at_address-IsActive :
    (q : Lookups) (st : MailStore) (d : DomainRow) (canonical : Text) (e : Option Text)
    (a : Option AddressRow) (uid : ℕ) (c : Text)
    → at_address q st d canonical e (user_of st a) ≡ found uid c
    → IsActive st uid × (c ≡ canonical)
unfolding at_address
at_address-IsActive q st d canonical e a uid c =
    go e (user_of st a) (unless_suspended-IsActive st a canonical uid c)
  where
    go :
        (e : Option Text) (hit : Option (ℕ × User))
        → (unless_suspended canonical hit ≡ found uid c → IsActive st uid × (c ≡ canonical))
        → at_address q st d canonical e hit ≡ found uid c
        → IsActive st uid × (c ≡ canonical)
    go (some e) hit direct h = cc
    go none (some hit) direct h = direct h
    go none none direct h =
        catch_all-IsActive q.catch_all_err st canonical d.catch_all_enabled d.catch_all_address_id
          uid c h

at_domain-IsActive :
    (q : Lookups) (st : MailStore) (local domain : Text) (e : Option Text) (uid : ℕ) (c : Text)
    → at_domain q st local domain e
        (find_first (λ d. text_eq d.domain domain && d.is_verified) st.domains)
      ≡ found uid c
    → (d : DomainRow) × (domain ≡ d.domain)
      × Memᴰ d st.domains
      × (d.is_verified ≡ true)
      × IsActive st uid
      × (c ≡ local ++ b'@' ∷ domain)
unfolding at_domain
at_domain-IsActive q st local domain e uid c =
    go e (find_first (λ d. text_eq d.domain domain && d.is_verified) st.domains)
      (find_first-Memᴰ (λ d. text_eq d.domain domain && d.is_verified) st.domains)
  where
    go :
        (e : Option Text) (hit : Option DomainRow)
        → ((d : DomainRow)
            → hit ≡ some d
            → ((text_eq d.domain domain && d.is_verified) ≡ true) × Memᴰ d st.domains)
        → at_domain q st local domain e hit ≡ found uid c
        → (d : DomainRow) × (domain ≡ d.domain)
          × Memᴰ d st.domains
          × (d.is_verified ≡ true)
          × IsActive st uid
          × (c ≡ local ++ b'@' ∷ domain)
    go (some e) hit has h = cc
    go none none has h = cc
    go none (some d) has h =
        let (good, there) = has d refl in
        let (active, same) =
          at_address-IsActive q st d (local ++ b'@' ∷ domain) q.address_err
            (find_first (λ a. text_eq a.local_part local && a.domain_id == d.id) st.addresses) uid c
            h in
        (d, ground (arith, text_eq_iff d.domain domain), there, ground (arith, good), active, same)

-- An address that is resolved has a verified domain of the table behind its first "@"; its user is
-- there and not suspended, and the canonical address is the local part up to its first "+" with that
-- domain.
pub resolve_recipient-IsActive :
    (q : Lookups) (st : MailStore) (to : Text) (uid : ℕ) (c : Text)
    → resolve_recipient q st to ≡ found uid c
    → (raw : Text) × (d : DomainRow) × (cut b'@' to ≡ some (raw, d.domain))
      × Memᴰ d st.domains
      × (d.is_verified ≡ true)
      × IsActive st uid
      × (c ≡ base_local raw ++ b'@' ∷ d.domain)
unfolding resolve_recipient resolve_parts
resolve_recipient-IsActive q st to uid c = go (cut b'@' to)
  where
    go :
        (parts : Option (Text × Text))
        → resolve_parts q st parts ≡ found uid c
        → (raw : Text) × (d : DomainRow) × (parts ≡ some (raw, d.domain))
          × Memᴰ d st.domains
          × (d.is_verified ≡ true)
          × IsActive st uid
          × (c ≡ base_local raw ++ b'@' ∷ d.domain)
    go none h = cc
    go (some (raw, domain)) h =
        let (d, same, there, good, active, canonical) =
          at_domain-IsActive q st (base_local raw) domain q.domain_err uid c h in
        (
          raw,
          d,
          ap (λ x. some (raw, x)) same,
          there,
          good,
          active,
          canonical ∙ ap (λ x. base_local raw ++ b'@' ∷ x) same,
        )

base_local-tag :
    (local tag : Text) → Lacks b'+' local → base_local (local ++ b'+' ∷ tag) ≡ base_local local
unfolding base_local
base_local-tag local tag h = rw (cut_complete b'+' local tag h, cut-none b'+' local h) refl

-- A tag behind a "+" does not change who receives the mail, where the local part has no "+" and
-- neither it nor the tag has an "@".
pub resolve_recipient-tag :
    (q : Lookups) (st : MailStore) (local tag domain : Text)
    → Lacks b'+' local
    → Lacks b'@' local
    → Lacks b'@' tag
    → resolve_recipient q st ((local ++ b'+' ∷ tag) ++ b'@' ∷ domain)
      ≡ resolve_recipient q st (local ++ b'@' ∷ domain)
unfolding resolve_recipient resolve_parts
resolve_recipient-tag q st local tag domain plus at_local at_tag =
    let whole = Lacks-append b'@' local (b'+' ∷ tag) at_local (omega arith, at_tag) in
    rw
      (
        cut_complete b'@' (local ++ b'+' ∷ tag) domain whole,
        cut_complete b'@' local domain at_local,
        base_local-tag local tag plus,
      )
      refl
