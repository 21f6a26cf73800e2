-- ===== src/Domains/Verify/Verified.antt =====
-- When a domain becomes verified.
use rookery.Base.{
  ℕ, ◌≡◌, refl, Bool, true, false, Option, none, some, List, arith, Text, if◌then◌else◌, sym, ap,
  subst,
}
use rookery.Domains.{get_domain, refresh_token, scan_one, random_token, Domain, Db, get, set_row}
use rookery.Domains.Reserved.{ensure_reserved_addresses-domains}
use rookery.Domains.Rows.{row_at, row_at-set_row, row_at-id}
use rookery.Domains.Dns.{check_dns_records, all_ok}
use rookery.Domains.Verify.{
  VerificationResult, Check, set_token, set_checked, store_checked, store_result, check_records,
  refreshed, is_expired, check_got, check_row, check_verification, with_addresses,
}
use rookery.Domains.Verify.Published.{IsPublished, IsPublished-check}

-- The row that a check leaves, for a row that was read before.
abbrev Turned : Domain → List Domain → Type 0
Turned d rows = (e : Domain) × (at : ℕ) × (row_at d.id rows ≡ some e) × (e.verified_at ≡ some at)

with_addresses-domains :
    (c : Check) (id : ℕ) (o : Option ℕ) (db : Db) → (with_addresses c id o db).domains ≡ db.domains
with_addresses-domains c id none db = refl
with_addresses-domains c id (some u) db =
    ensure_reserved_addresses-domains c.faults c.new_id id u db

unverified :
    (d : Domain) (rows : List Domain) (row : Domain)
    → row.verified_at ≡ none
    → row_at d.id rows ≡ some row
    → Turned d rows
    → ⊥
unverified d rows row plain here (e, at, there, turned) =
    let same : row ≡ e = ground arith in absurd (ground (arith, ap (λ r. r.verified_at) same))

store_checked-unverified :
    (c : Check) (d row : Domain) (r : VerificationResult) (e : Option Text) (db : Db)
    → row_at d.id db.domains ≡ some row
    → row.verified_at ≡ none
    → Turned d (store_checked c d r e db).1.domains
    → ⊥
unfolding store_checked
store_checked-unverified c d row r (some e) db here plain t =
    unverified d db.domains row plain here t
store_checked-unverified c d row r none db here plain t =
    unverified d (set_row (set_checked c) d.id db.domains) (set_checked c row) plain
      (row_at-set_row (set_checked c) d.id db.domains row (λ _. refl) here) t

-- The records are right where the row has become verified.
check_records-all_ok :
    (c : Check) (d row : Domain) (token : Text) (db : Db)
    → row_at d.id db.domains ≡ some row
    → row.verified_at ≡ none
    → d.verified_at ≡ none
    → Turned d (check_records c d token db).1.domains
    → all_ok (check_dns_records c.net c.primary d.domain d.mta_sts_id token) ≡ true
unfolding check_records store_result
check_records-all_ok c d row token db here plain old t =
    go (all_ok (check_dns_records c.net c.primary d.domain d.mta_sts_id token)) refl t
  where
    go :
        (b : Bool)
        → all_ok (check_dns_records c.net c.primary d.domain d.mta_sts_id token) ≡ b
        → Turned d
            (store_result c d
              (record {
                verified = b;
                records = check_dns_records c.net c.primary d.domain d.mta_sts_id token;
              })
              b
              d.verified_at
              db).1.domains
        → all_ok (check_dns_records c.net c.primary d.domain d.mta_sts_id token) ≡ true
    go true e t = e
    go false e t = absurd (store_checked-unverified c d row _ _ db here plain t)

refreshed-all_ok :
    (c : Check) (d : Domain) (e1 e2 : Option Text) (db : Db)
    → row_at d.id db.domains ≡ some d
    → d.verified_at ≡ none
    → Turned d (refreshed c d e1 e2 db).1.domains
    → all_ok (check_dns_records c.net c.primary d.domain d.mta_sts_id c.new_token) ≡ true
unfolding refreshed
refreshed-all_ok c d (some e) e2 db here plain t = absurd (unverified d db.domains d plain here t)
refreshed-all_ok c d none (some e) db here plain t = absurd (unverified d db.domains d plain here t)
refreshed-all_ok c d none none db here plain t =
    check_records-all_ok c d (set_token c d) c.new_token _
      (row_at-set_row (set_token c) d.id db.domains d (λ _. refl) here) plain plain t

-- The token that a check looks for.
abbrev pub wanted : Check → Domain → Option Text → Option Text
wanted c d stored = if is_expired c.now d.verification_expires_at then some c.new_token else stored

check_got-IsPublished :
    (c : Check) (d : Domain) (stored : Option Text) (db : Db)
    → row_at d.id db.domains ≡ some d
    → d.verified_at ≡ none
    → Turned d (check_got c stored d db).1.domains
    → (token : Text) × (wanted c d stored ≡ some token) × IsPublished c.net c.primary d.domain token
unfolding check_got
check_got-IsPublished c d none db here plain t = absurd (unverified d db.domains d plain here t)
check_got-IsPublished c d (some token) db here plain t =
    go (is_expired c.now d.verification_expires_at) t
  where
    go :
        (b : Bool)
        → Turned d
            (if b
              then refreshed c d (c.faults random_token) (c.faults refresh_token) db
              else check_records c d token db).1.domains
        → (used : Text) × ((if b then some c.new_token else some token) ≡ some used)
          × IsPublished c.net c.primary d.domain used
    go true t = (
      c.new_token,
      refl,
      IsPublished-check c.net c.primary d.domain d.mta_sts_id c.new_token
          (refreshed-all_ok c d _ _ db here plain t),
    )
    go false t = (
      token,
      refl,
      IsPublished-check c.net c.primary d.domain d.mta_sts_id token
          (check_records-all_ok c d d token db here plain plain t),
    )

-- When a check leaves a row verified that was not verified before, DNS showed what it must at the
-- check: the challenge with the token looked for (the stored one, or the new one where that had
-- expired), and MX, DKIM, key directory and policy names that point to the primary domain.
pub check_verification-IsPublished :
    (c : Check) (id : ℕ) (db : Db) (d e : Domain) (at : ℕ)
    → row_at id db.domains ≡ some d
    → d.verified_at ≡ none
    → row_at id (check_verification c id db).1.domains ≡ some e
    → e.verified_at ≡ some at
    → (token : Text) × (wanted c d d.verification_token ≡ some token)
      × IsPublished c.net c.primary d.domain token
unfolding check_verification get
check_verification-IsPublished c id db d e at here plain after turned = go (c.faults get_domain) (
    subst (λ o. Turned d (check_row c (scan_one (c.faults get_domain) o) db).1.domains) here
      (
        e,
        at,
        subst (λ x. row_at x (check_verification c id db).1.domains ≡ some e) (sym same) after,
        turned,
      ))
  where
    same : d.id ≡ id
    same = row_at-id id db.domains d here

    kept : row_at d.id db.domains ≡ some d
    kept = subst (λ x. row_at x db.domains ≡ some d) (sym same) here

    go :
        (f : Option Text)
        → Turned d (check_row c (scan_one f (some d)) db).1.domains
        → (token : Text) × (wanted c d d.verification_token ≡ some token)
          × IsPublished c.net c.primary d.domain token
    go (some f) t = absurd (unverified d db.domains d plain kept t)
    go none t = check_got-IsPublished c d d.verification_token db kept plain t
