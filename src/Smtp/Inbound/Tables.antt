-- ===== src/Smtp/Inbound/Tables.antt =====
-- The tables that the resolution of a recipient reads: where they are the same, so is its result. What
-- the storing of a copy changes in the tables is said field by field.
use rookery.Base.{
  ℕ, ◌+◌, ◌==◌, ◌≡◌, refl, ap, ◌∙◌, Bool, true, false, ◌&&◌, Option, none, some, List, [], ◌∷◌,
  ◌++◌, arith, Text, codes, contains, text_eq, lookup, lookup-insert, Eq_number, if◌then◌else◌,
  find_first, cut,
}
use rookery.Discovery.{KnownKey}
use rookery.Smtp.Inbound.{
  AttachmentMeta, AddressRow, DomainRow, User, MailStore, Lookups, with_id, user_of,
  unless_suspended, catch_all, at_address, at_domain, resolve_parts, base_local, resolve_recipient,
}
use rookery.Smtp.Inbound.Data.{
  Delivery, grown, add_usage, add_attachments, harvest_parsed, Readers, harvest_key,
}

-- What the resolution of recipients reads of a user.
abbrev pub standing : Option User → Option Bool
standing none = none
standing (some u) = some u.is_suspended

abbrev pub HaveSameUsers : (us vs : List (ℕ × User)) → Type 0
HaveSameUsers us vs = (id : ℕ) → standing (lookup id us) ≡ standing (lookup id vs)

abbrev pub HaveSameTables : (st st' : MailStore) → Type 0
HaveSameTables st st' =
    (st.domains ≡ st'.domains) × (st.addresses ≡ st'.addresses) × HaveSameUsers st.users st'.users

unless_suspended_same :
    (canonical : Text) (id : ℕ) (u v : Option User)
    → standing u ≡ standing v
    → unless_suspended canonical (with_id id u) ≡ unless_suspended canonical (with_id id v)
unfolding unless_suspended
unless_suspended_same canonical id none none h = refl
unless_suspended_same canonical id none (some v) h = cc
unless_suspended_same canonical id (some u) none h = cc
unless_suspended_same canonical id (some u) (some v) h = ground arith

module _ (st st' : MailStore) (same : HaveSameTables st st') where
  user_same :
      (canonical : Text) (a : Option AddressRow)
      → unless_suspended canonical (user_of st a) ≡ unless_suspended canonical (user_of st' a)
  unfolding user_of
  user_same canonical none = refl
  user_same canonical (some a) = unless_suspended_same canonical a.user_id _ _ (same.2 a.user_id)

  catch_all_same :
      (e : Option Text) (canonical : Text) (on : Bool) (target : Option ℕ)
      → catch_all e st canonical on target ≡ catch_all e st' canonical on target
  unfolding catch_all
  catch_all_same e canonical false target = refl
  catch_all_same e canonical true none = refl
  catch_all_same (some x) canonical true (some id) = refl
  catch_all_same none canonical true (some id) =
      user_same canonical (find_first (λ a. a.id == id) st.addresses)
      ∙ ap (λ rows. unless_suspended canonical (user_of st' (find_first (λ a. a.id == id) rows)))
          same.1

  at_address_same :
      (q : Lookups) (d : DomainRow) (canonical : Text) (e : Option Text) (a : Option AddressRow)
      → at_address q st d canonical e (user_of st a)
        ≡ at_address q st' d canonical e (user_of st' a)
  unfolding at_address user_of
  at_address_same q d canonical (some x) a = refl
  at_address_same q d canonical none none =
      catch_all_same q.catch_all_err canonical d.catch_all_enabled d.catch_all_address_id
  at_address_same q d canonical none (some a) =
      go (lookup a.user_id st.users) (lookup a.user_id st'.users) (same.2 a.user_id)
    where
      go :
          (u v : Option User)
          → standing u ≡ standing v
          → at_address q st d canonical none (with_id a.user_id u)
            ≡ at_address q st' d canonical none (with_id a.user_id v)
      go none none h =
          catch_all_same q.catch_all_err canonical d.catch_all_enabled d.catch_all_address_id
      go none (some v) h = cc
      go (some u) none h = cc
      go (some u) (some v) h = unless_suspended_same canonical a.user_id (some u) (some v) h

  pub resolve_recipient_same :
      (q : Lookups) (to : Text) → resolve_recipient q st to ≡ resolve_recipient q st' to
  unfolding resolve_recipient
  resolve_recipient_same q to = parts (cut b'@' to)
    where
      hit :
          (local domain : Text) (e : Option Text) (d : Option DomainRow)
          → at_domain q st local domain e d ≡ at_domain q st' local domain e d
      hit local domain (some x) d = unfold at_domain in refl
      hit local domain none none = unfold at_domain in refl
      hit local domain none (some d) =
          unfold at_domain in
          at_address_same q d (local ++ b'@' ∷ domain) q.address_err (at_row d st.addresses)
          ∙ ap
              (λ rows.
                at_address q st' d (local ++ b'@' ∷ domain) q.address_err
                  (user_of st' (at_row d rows)))
              same.1
        where
          at_row : DomainRow → List AddressRow → Option AddressRow
          at_row d rows = find_first (λ a. text_eq a.local_part local && a.domain_id == d.id) rows

      parts : (p : Option (Text × Text)) → resolve_parts q st p ≡ resolve_parts q st' p
      parts none = unfold resolve_parts in refl
      parts (some (raw, domain)) =
          unfold resolve_parts in
          hit (base_local raw) domain q.domain_err
            (find_first (λ d. text_eq d.domain domain && d.is_verified) st.domains)
          ∙ ap
              (λ rows.
                at_domain q st' (base_local raw) domain q.domain_err
                  (find_first (λ d. text_eq d.domain domain && d.is_verified) rows))
              same.0

pub add_attachments_shape :
    (fails : AttachmentMeta → Bool) (id : ℕ) (attachments : List AttachmentMeta) (st : MailStore)
    → (metas : List (ℕ × AttachmentMeta)) × (add_attachments fails id attachments st
        ≡ record st { attachments = metas })
unfolding add_attachments
add_attachments_shape fails id [] st = (st.attachments, refl)
add_attachments_shape fails id (a ∷ rest) st =
    go (fails a) (λ st. add_attachments_shape fails id rest st)
  where
    go :
        (b : Bool)
        → ((st : MailStore)
            → (metas : List (ℕ × AttachmentMeta)) × (add_attachments fails id rest st
                ≡ record st { attachments = metas }))
        → (metas : List (ℕ × AttachmentMeta)) × (add_attachments fails id rest
              (if b then st else record st { attachments = st.attachments ++ (id, a) ∷ [] })
            ≡ record st { attachments = metas })
    go true later = later st
    go false later = later (record st { attachments = st.attachments ++ (id, a) ∷ [] })

pub harvest_key_shape :
    (rd : Readers) (d : Delivery) (uid : ℕ) (from armored : Text) (st : MailStore)
    → (ks : List KnownKey) × (harvest_key rd d uid from armored st ≡ record st { known_keys = ks })
unfolding harvest_key
harvest_key_shape rd d uid from armored st =
    go (contains armored (codes "BEGIN PGP PUBLIC KEY BLOCK")) (rd.fingerprint armored)
  where
    parsed :
        (b : Bool) (new : List KnownKey)
        → (ks : List KnownKey) × ((if b then st else record st { known_keys = new })
            ≡ record st { known_keys = ks })
    parsed true new = (st.known_keys, refl)
    parsed false new = (new, refl)

    go :
        (b : Bool) (fp : Option Text)
        → (ks : List KnownKey) × ((if b then harvest_parsed d uid from armored fp st else st)
            ≡ record st { known_keys = ks })
    go false fp = (st.known_keys, refl)
    go true none = (st.known_keys, unfold harvest_parsed in refl)
    go true (some fp) = unfold harvest_parsed in parsed d.harvest_fails _

grown_same :
    (uid size : ℕ) (users : List (ℕ × User))
    → HaveSameUsers users (grown (lookup uid users) uid size users)
grown_same uid size users id = go (lookup uid users) refl
  where
    go :
        (o : Option User)
        → lookup uid users ≡ o
        → standing (lookup id users) ≡ standing (lookup id (grown o uid size users))
    go none h = refl
    go (some u) h =
        ground (arith, lookup-insert uid id (record u { used_bytes = u.used_bytes + size }) users)

pub add_usage_shape :
    (fails : Bool) (uid size : ℕ) (st : MailStore)
    → (us : List (ℕ × User)) × HaveSameUsers st.users us
      × (add_usage fails uid size st ≡ record st { users = us })
unfolding add_usage
add_usage_shape true uid size st = (st.users, (λ id. refl), refl)
add_usage_shape false uid size st = (_, grown_same uid size st.users, refl)
