-- ===== src/Domains/Dns.antt =====
-- internal/domains/domains.go: the checks of a domain's DNS records. The resolver is a parameter.
use rookery.Base.{
  ℕ, Bool, true, false, Option, none, some, List, [], ◌∷◌, ◌++◌, Text, codes, text_eq, equal_fold,
  has_prefix, trim_last, if◌then◌else◌, find_first, map, all,
}
use rookery.Smtp.Client.{itoa}

-- An answer of the resolver; `nxdomain` is an error with IsNotFound.
pub data Answer (A : Type 0) : Type 0 where
  answered : A → Answer A
  nxdomain : Answer A
  lookup_error : Answer A

pub record Resolver : Type 0 where
  pub lookup_txt : Text → Answer (List Text)
  pub lookup_mx : Text → Answer (List (ℕ × Text))
  pub lookup_cname : Text → Answer Text

pub data RecordKind : Type 0 where
  txt mx cname : RecordKind

pub data CheckStatus : Type 0 where
  is_ok drifted missing unknown : CheckStatus

pub record RecordStatus : Type 0 where
  pub name : Text
  pub kind : RecordKind
  pub key : Text
  pub expected : Text
  pub actual : Text
  pub status : CheckStatus

unfoldable pub checked : RecordKind → (name key expected actual : Text) → CheckStatus → RecordStatus
checked kind name key expected actual status = record {
  name = name;
  kind = kind;
  key = key;
  expected = expected;
  actual = actual;
  status = status;
}

abbrev first_or_empty : List Text → Text
first_or_empty [] = []
first_or_empty (r ∷ rs) = r

-- Of the TXT records, one that passes the test, or else the first.
abbrev pub txt_found : (name key expected : Text) → List Text → Option Text → RecordStatus
txt_found name key expected rs (some r) = checked txt name key expected r is_ok
txt_found name key expected rs none = checked txt name key expected (first_or_empty rs) drifted

unfoldable pub txt_answer :
    (name key expected : Text) → (Text → Bool) → Answer (List Text) → RecordStatus
txt_answer name key expected p (answered rs) = txt_found name key expected rs (find_first p rs)
txt_answer name key expected p nxdomain = checked txt name key expected [] missing
txt_answer name key expected p lookup_error = checked txt name key expected [] unknown

unfoldable pub check_txt : Resolver → (name expected key : Text) → RecordStatus
check_txt net name expected key =
    txt_answer name key expected (λ r. text_eq r expected) (net.lookup_txt name)

unfoldable pub check_txt_prefix : Resolver → (name prefix suggested key : Text) → RecordStatus
check_txt_prefix net name prefix suggested key =
    txt_answer name key suggested (λ r. has_prefix r prefix) (net.lookup_txt name)

abbrev pub host_of : ℕ × Text → Text
host_of r = trim_last b'.' r.1

abbrev shown_mx : ℕ × Text → Text
shown_mx r = itoa r.0 ++ b' ' ∷ host_of r

abbrev pub mx_found : (name suggested : Text) → List (ℕ × Text) → Option (ℕ × Text) → RecordStatus
mx_found name suggested rs (some r) = checked mx name (codes "MX") suggested (shown_mx r) is_ok
mx_found name suggested rs none =
    checked mx name (codes "MX") suggested (first_or_empty (map shown_mx rs)) drifted

unfoldable pub mx_answer :
    (name expected_host suggested : Text) → Answer (List (ℕ × Text)) → RecordStatus
mx_answer name host suggested (answered rs) =
    mx_found name suggested rs (find_first (λ r. equal_fold (host_of r) host) rs)
mx_answer name host suggested nxdomain = checked mx name (codes "MX") suggested [] missing
mx_answer name host suggested lookup_error = checked mx name (codes "MX") suggested [] unknown

unfoldable pub check_mx : Resolver → (name expected_host suggested : Text) → RecordStatus
check_mx net name host suggested = mx_answer name host suggested (net.lookup_mx name)

-- The resolver returns the name itself where there is no CNAME.
unfoldable pub cname_found : (name expected key target : Text) → RecordStatus
cname_found name expected key target =
    if equal_fold target name
    then checked cname name key expected [] drifted
    else if equal_fold target expected
    then checked cname name key expected target is_ok
    else checked cname name key expected target drifted

unfoldable pub cname_answer : (name expected key : Text) → Answer Text → RecordStatus
cname_answer name expected key (answered target) =
    cname_found name expected key (trim_last b'.' target)
cname_answer name expected key nxdomain = checked cname name key expected [] missing
cname_answer name expected key lookup_error = checked cname name key expected [] unknown

unfoldable pub check_cname : Resolver → (name expected key : Text) → RecordStatus
check_cname net name expected key = cname_answer name expected key (net.lookup_cname name)

-- The record of the MTA-STS id, where the domain has one.
unfoldable pub check_sts : Resolver → Text → Option Text → List RecordStatus
check_sts net domain none = []
check_sts net domain (some id) =
    if text_eq id []
    then []
    else check_txt net (codes "_mta-sts." ++ domain) (codes "v=STSv1; id=" ++ id)
        (codes "MTA_STS_TXT")
      ∷ []

-- A record that is delegated to the primary domain.
abbrev delegated : Resolver → (primary domain label key : Text) → RecordStatus
delegated net primary domain label key = check_cname net (label ++ domain) (label ++ primary) key

unfoldable pub check_dns_records :
    Resolver → (primary domain : Text) → Option Text → (token : Text) → List RecordStatus
check_dns_records net primary domain sts_id token =
    let spf = codes "v=spf1 include:_spf." ++ primary in
    let rua = codes " rua=mailto:postmaster@" ++ domain in
    (check_txt net (codes "_rookery-challenge." ++ domain) token (codes "CHALLENGE")
      ∷ check_mx net domain primary (codes "10 " ++ primary)
      ∷ check_txt_prefix net domain spf (spf ++ codes " ~all") (codes "SPF")
      ∷ delegated net primary domain (codes "rookery-ed25519._domainkey.")
          (codes "DKIM_ED25519_CNAME")
      ∷ delegated net primary domain (codes "rookery-rsa._domainkey.") (codes "DKIM_RSA_CNAME")
      ∷ delegated net primary domain (codes "openpgpkey.") (codes "WKD_CNAME")
      ∷ delegated net primary domain (codes "mta-sts.") (codes "MTA_STS_CNAME")
      ∷ [])
    ++ check_sts net domain sts_id
    ++ check_txt_prefix net (codes "_dmarc." ++ domain) (codes "v=DMARC1")
        (codes "v=DMARC1; p=quarantine;" ++ rua) (codes "DMARC")
      ∷ check_txt_prefix net (codes "_smtp._tls." ++ domain) (codes "v=TLSRPTv1")
          (codes "v=TLSRPTv1;" ++ rua) (codes "TLS_RPT")
      ∷ []

unfoldable pub has_passed : RecordStatus → Bool
has_passed r = elim r.status [ is_ok ↦ true | _ ↦ false ]

-- `allOK`: there are records, and each has passed.
unfoldable pub all_ok : List RecordStatus → Bool
all_ok [] = false
all_ok (r ∷ rs) = all has_passed (r ∷ rs)
