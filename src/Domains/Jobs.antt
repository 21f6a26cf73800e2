-- ===== src/Domains/Jobs.antt =====
-- internal/domains/domains.go and certcheck.go: the periodic jobs over the verified domains. The
-- delivery, the TLS connections and the clock are parameters. Of the log lines only the warnings of
-- an expiry are there, as a list of names.
pub mod Modes
use rookery.Base.{
  ◌||◌, ℕ, Bool, true, false, not, ◌&&◌, Option, none, some, List, [], ◌∷◌, ◌++◌, Text, codes,
  text_eq, ltb, leb, ◌==◌, ◌+◌, ◌-◌, ◌*◌, ◌/◌, if◌then◌else◌, select, map, take, Eq_text, insert,
}
use rookery.Domains.{
  Domain, Db, DomainError, other, Outcome, done, failed, Faults, query_jobs, update_domain,
  random_id, set_row, update,
}
use rookery.Domains.Dns.{
  Resolver, RecordStatus, CheckStatus, is_ok, drifted, missing, unknown, check_dns_records,
}
use rookery.Domains.Settings.{testing_time}

abbrev pub is_present : {A : Type 0} → Option A → Bool
is_present none = false
is_present (some a) = true

unfoldable pub was_changed_before : ℕ → Option ℕ → Bool
was_changed_before now none = false
was_changed_before now (some at) = ltb (at + testing_time) now

-- The WHERE of the upgrade's query.
unfoldable pub is_upgradable : ℕ → Domain → Bool
is_upgradable now d =
    not (is_present d.mta_sts_mode)
    && was_changed_before now d.mta_sts_mode_changed_at
    && is_present d.verified_at

abbrev pub enforced : (now : ℕ) → (sts_token : Text) → Domain → Domain
enforced now token d = record d {
  mta_sts_mode = some (codes "enforce");
  mta_sts_id = some (take 16 token);
  mta_sts_mode_changed_at = some now;
}

-- What is handed to the local delivery: a message to postmaster at the domain.
pub record Notice : Type 0 where
  pub from : Text
  pub to : Text
  pub raw_msg : Text

abbrev crlf : Text
crlf = 13 ∷ 10 ∷ []

-- U+2014 in UTF-8.
abbrev em_dash : Text
em_dash = 226 ∷ 128 ∷ 148 ∷ []

unfoldable pub notice_body : (domain sts_id : Text) → Text
notice_body domain id =
    codes "Your domain "
    ++ domain
    ++ codes " has been running MTA-STS in testing"
    ++ crlf
    ++ codes "mode for 48 hours."
    ++ crlf
    ++ crlf
    ++ codes "MTA-STS has been automatically upgraded to enforce mode. External"
    ++ crlf
    ++ codes "mail servers are now required to use TLS when delivering mail to"
    ++ crlf
    ++ codes "@"
    ++ domain
    ++ codes "."
    ++ crlf
    ++ crlf
    ++ codes "ACTION REQUIRED "
    ++ em_dash
    ++ codes " update the following DNS record so that senders"
    ++ crlf
    ++ codes "detect the policy change and refresh their cached copy:"
    ++ crlf
    ++ crlf
    ++ codes "  Name:  _mta-sts."
    ++ domain
    ++ crlf
    ++ codes "  Type:  TXT"
    ++ crlf
    ++ codes "  Value: v=STSv1; id="
    ++ id
    ++ crlf
    ++ crlf
    ++ codes "Leaving the old id= value in place is harmless "
    ++ em_dash
    ++ codes " senders still"
    ++ crlf
    ++ codes "enforce TLS "
    ++ em_dash
    ++ codes " but updating it allows them to detect and re-fetch"
    ++ crlf
    ++ codes "the updated policy sooner."
    ++ crlf

-- The message, with the date in its header's format.
unfoldable pub notice : (primary date domain sts_id : Text) → Notice
notice primary date domain id =
    let sender = codes "postmaster@" ++ primary in
    let owner = codes "postmaster@" ++ domain in
    record {
      from = sender;
      to = owner;
      raw_msg =
          codes "From: "
          ++ sender
          ++ crlf
          ++ codes "To: "
          ++ owner
          ++ crlf
          ++ codes "Date: "
          ++ date
          ++ crlf
          ++ codes "Subject: MTA-STS upgraded to enforce for "
          ++ domain
          ++ crlf
          ++ codes "Content-Type: text/plain; charset=utf-8"
          ++ crlf
          ++ crlf
          ++ notice_body domain id;
    }

-- What the upgrade of one row takes from outside.
pub record Upgrade : Type 0 where
  pub now : ℕ
  pub primary : Text
  pub date : Text
  pub has_delivery : Bool
  pub faults : Faults
  pub token : ℕ → Text
  pub token_err : ℕ → Option Text

abbrev Upgraded : Type 0
Upgraded = List Notice × Db

-- `sendMTASTSEnforceNotice`: nothing where no delivery is wired.
unfoldable pub send_notice : Upgrade → (domain sts_id : Text) → List Notice
send_notice u domain id = if u.has_delivery then notice u.primary u.date domain id ∷ [] else []

-- A row that cannot be upgraded is skipped.
unfoldable pub upgrade_row : Upgrade → Domain → Option Text → Option Text → Db → Upgraded
upgrade_row u d (some e) update_err db = ([], db)
upgrade_row u d none (some e) db = ([], db)
upgrade_row u d none none db = (
  send_notice u d.domain (take 16 (u.token d.id)),
  update d.id (enforced u.now (u.token d.id)) db,
)

unfoldable pub upgrade_all : Upgrade → List Domain → Db → Upgraded
upgrade_all u [] db = ([], db)
upgrade_all u (d ∷ ds) db =
    let (sent, after) = upgrade_row u d (u.token_err d.id) (u.faults (update_domain d.id)) db in
    let (more, last) = upgrade_all u ds after in (sent ++ more, last)

abbrev pub upgrade_found : Upgrade → Option Text → Db → Option DomainError × Upgraded
upgrade_found u (some e) db =
    (some (other (codes "domains: mta-sts upgrade query: " ++ e)), ([], db))
upgrade_found u none db = (none, upgrade_all u (select (is_upgradable u.now) db.domains) db)

unfoldable pub upgrade_mta_sts_modes : Upgrade → Db → Option DomainError × Upgraded
upgrade_mta_sts_modes u db = upgrade_found u (u.faults query_jobs) db

-- ORDER BY dns_last_checked_at ASC NULLS FIRST
unfoldable pub checked_before : Option ℕ → Option ℕ → Bool
checked_before none b = true
checked_before (some a) none = false
checked_before (some a) (some b) = leb a b

unfoldable pub insert_by_check : Domain → List Domain → List Domain
insert_by_check d [] = d ∷ []
insert_by_check d (e ∷ es) =
    let rest = insert_by_check d es in
    if checked_before d.dns_last_checked_at e.dns_last_checked_at then d ∷ e ∷ es else e ∷ rest

unfoldable pub by_check : List Domain → List Domain
by_check [] = []
by_check (d ∷ ds) = insert_by_check d (by_check ds)

unfoldable pub is_custom : Domain → Bool
is_custom d = not d.is_primary && is_present d.verified_at

unfoldable pub status_name : CheckStatus → Text
status_name is_ok = codes "ok"
status_name drifted = codes "drifted"
status_name missing = codes "missing"
status_name unknown = codes "unknown"

unfoldable pub status_map : List (Text × Text) → List RecordStatus → List (Text × Text)
status_map m [] = m
status_map m (r ∷ rs) = status_map (insert r.key (status_name r.status) m) rs

abbrev token_or_empty : Option Text → Text
token_or_empty none = []
token_or_empty (some t) = t

abbrev with_status : ℕ → List (Text × Text) → Domain → Domain
with_status now m d = record d { dns_status = m; dns_last_checked_at = some now }

abbrev store_status : Option Text → Db → Db → Db
store_status (some e) after db = db
store_status none after db = after

unfoldable pub dns_check_each : Faults → Resolver → Text → ℕ → List Domain → Db → Db
dns_check_each f net primary now [] db = db
dns_check_each f net primary now (d ∷ ds) db =
    let token = token_or_empty d.verification_token in
    let m = status_map [] (check_dns_records net primary d.domain d.mta_sts_id token) in
    dns_check_each f net primary now ds
      (store_status (f (update_domain d.id)) (update d.id (with_status now m) db) db)

abbrev dns_check_found : Faults → Resolver → Text → ℕ → Option Text → Db → Option DomainError × Db
dns_check_found f net primary now (some e) db =
    (some (other (codes "domains: drift query: " ++ e)), db)
dns_check_found f net primary now none db =
    (none, dns_check_each f net primary now (by_check (select is_custom db.domains)) db)

unfoldable pub dns_check_all : Faults → Resolver → Text → ℕ → Db → Option DomainError × Db
dns_check_all f net primary now db = dns_check_found f net primary now (f query_jobs) db

abbrev pub cert_expiry_warn_days : ℕ
cert_expiry_warn_days = 14

-- The end of the leaf's validity, if a connection was made and it showed a certificate.
unfoldable pub warns : ℕ → Option ℕ → Bool
warns now none = false
warns now (some not_after) =
    ltb not_after now || leb ((not_after - now) / (24 * 3600)) cert_expiry_warn_days

abbrev expiry_found : (Text → Option ℕ) → ℕ → Option Text → List Text → Outcome (List Text)
expiry_found leaf now (some e) names = failed (other (codes "certcheck: query domains: " ++ e))
expiry_found leaf now none names =
    done (select (λ name. warns now (leaf (codes "mta-sts." ++ name ++ codes ":443"))) names)

-- The domains that `CheckCertExpiry` warns of.
unfoldable pub check_cert_expiry : Faults → (leaf : Text → Option ℕ) → ℕ → Db → Outcome (List Text)
check_cert_expiry f leaf now db =
    expiry_found leaf now (f query_jobs) (map (λ d. d.domain) (select is_custom db.domains))
