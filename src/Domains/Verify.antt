-- ===== src/Domains/Verify.antt =====
-- internal/domains/domains.go: `CheckVerification`. A failure of the reserved addresses is only logged.
pub mod Published
pub mod Verified
use rookery.Base.{
  ℕ, ◌+◌, Bool, true, false, not, ◌&&◌, Option, none, some, List, [], ◌∷◌, ◌++◌, Text, codes, ltb,
  ◌==◌, if◌then◌else◌,
}
use rookery.Domains.{
  Domain, Db, DomainError, other, Outcome, done, failed, Faults, random_token, refresh_token,
  mark_verified, mark_checked, token_ttl, get, update,
}
use rookery.Domains.Dns.{Resolver, RecordStatus, check_dns_records, all_ok}
use rookery.Domains.Reserved.{ensure_reserved_addresses}

pub record VerificationResult : Type 0 where
  pub verified : Bool
  pub records : List RecordStatus

-- What one check takes from outside.
pub record Check : Type 0 where
  pub faults : Faults
  pub net : Resolver
  pub primary : Text
  pub now : ℕ
  pub new_token : Text
  pub new_id : Text → ℕ

abbrev pub set_token : Check → Domain → Domain
set_token c d = record d {
  verification_token = some c.new_token;
  verification_expires_at = some (c.now + token_ttl);
}

abbrev pub set_verified : Check → Domain → Domain
set_verified c d = record d {
  verified_at = some c.now;
  wkd_active = true;
  verification_checked_at = some c.now;
}

abbrev pub set_checked : Check → Domain → Domain
set_checked c d = record d { verification_checked_at = some c.now }

abbrev pub Checked : Type 0
Checked = Outcome VerificationResult × Db

abbrev pub with_addresses : Check → ℕ → Option ℕ → Db → Db
with_addresses c id none db = db
with_addresses c id (some owner) db = (ensure_reserved_addresses c.faults c.new_id id owner db).1

unfoldable pub store_verified : Check → Domain → VerificationResult → Option Text → Db → Checked
store_verified c d r (some e) db = (failed (other (codes "domains: mark verified: " ++ e)), db)
store_verified c d r none db =
    (done r, with_addresses c d.id d.owner_user_id (update d.id (set_verified c) db))

unfoldable pub store_checked : Check → Domain → VerificationResult → Option Text → Db → Checked
store_checked c d r (some e) db = (failed (other e), db)
store_checked c d r none db = (done r, update d.id (set_checked c) db)

-- A domain is marked as verified once: when all records are right and it was not verified before.
unfoldable pub store_result : Check → Domain → VerificationResult → Bool → Option ℕ → Db → Checked
store_result c d r true none db = store_verified c d r (c.faults mark_verified) db
store_result c d r true (some at) db = store_checked c d r (c.faults mark_checked) db
store_result c d r false at db = store_checked c d r (c.faults mark_checked) db

unfoldable pub check_records : Check → Domain → Text → Db → Checked
check_records c d token db =
    let records = check_dns_records c.net c.primary d.domain d.mta_sts_id token in
    let r : VerificationResult = record { verified = all_ok records; records = records } in
    store_result c d r (all_ok records) d.verified_at db

unfoldable pub refreshed : Check → Domain → Option Text → Option Text → Db → Checked
refreshed c d (some e) update_err db = (failed (other (codes "domains: refresh token: " ++ e)), db)
refreshed c d none (some e) db = (failed (other e), db)
refreshed c d none none db = check_records c d c.new_token (update d.id (set_token c) db)

unfoldable pub is_expired : ℕ → Option ℕ → Bool
is_expired now none = false
is_expired now (some at) = ltb at now

abbrev no_token : DomainError
no_token = other (codes "domains: no verification token")

-- An expired token is replaced first, and the new one is what the challenge is compared with.
unfoldable pub check_got : Check → Option Text → Domain → Db → Checked
check_got c none d db = (failed no_token, db)
check_got c (some token) d db =
    if is_expired c.now d.verification_expires_at
    then refreshed c d (c.faults random_token) (c.faults refresh_token) db
    else check_records c d token db

abbrev pub check_row : Check → Outcome Domain → Db → Checked
check_row c (failed e) db = (failed e, db)
check_row c (done d) db = check_got c d.verification_token d db

unfoldable pub check_verification : Check → ℕ → Db → Checked
check_verification c id db = check_row c (get c.faults id db) db
