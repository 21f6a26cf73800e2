-- ===== src/Domains/Verify/Published.antt =====
-- What the DNS of a domain that becomes verified holds.
use mathlib.Core.List.{Memᴰ}
use rookery.Base.{
  subst, all-All, ℕ, ◌≡◌, refl, true, Option, none, some, List, ◌++◌, arith, Text, codes, text_eq,
  text_eq_iff, equal_fold, trim_last, find_first, find_first-Memᴰ,
}
use rookery.Domains.Dns.{
  txt_found, mx_found, Answer, answered, nxdomain, lookup_error, Resolver, host_of, checked,
  txt_answer, check_txt, mx_answer, check_mx, cname_found, cname_answer, check_cname,
  check_dns_records, has_passed, all_ok,
}

abbrev HasTxt : Resolver → (name value : Text) → Type 0
HasTxt net name value = (rs : List Text) × (net.lookup_txt name ≡ answered rs) × Memᴰ value rs

abbrev HasMx : Resolver → (name host : Text) → Type 0
HasMx net name host =
    (rs : List (ℕ × Text)) × (r : ℕ × Text) × (net.lookup_mx name ≡ answered rs)
    × Memᴰ r rs
    × (equal_fold (host_of r) host ≡ true)

abbrev HasCname : Resolver → (name target : Text) → Type 0
HasCname net name target =
    (t : Text) × (net.lookup_cname name ≡ answered t)
    × (equal_fold (trim_last b'.' t) target ≡ true)

-- The domain shows the token, sends its mail to the primary domain, and leaves keys and policy to it.
pub record IsPublished (net : Resolver) (primary domain token : Text) : Type 0 where
  pub challenge : HasTxt net (codes "_rookery-challenge." ++ domain) token
  pub mail : HasMx net domain primary
  pub ed25519 :
      HasCname net
        (codes "rookery-ed25519._domainkey." ++ domain)
        (codes "rookery-ed25519._domainkey." ++ primary)
  pub rsa :
      HasCname net
        (codes "rookery-rsa._domainkey." ++ domain)
        (codes "rookery-rsa._domainkey." ++ primary)
  pub wkd : HasCname net (codes "openpgpkey." ++ domain) (codes "openpgpkey." ++ primary)
  pub policy : HasCname net (codes "mta-sts." ++ domain) (codes "mta-sts." ++ primary)

txt_passed :
    (name key expected value : Text) (a : Answer (List Text))
    → has_passed (txt_answer name key expected (λ r. text_eq r value) a) ≡ true
    → (rs : List Text) × (a ≡ answered rs) × Memᴰ value rs
unfolding has_passed txt_answer checked
txt_passed name key expected value nxdomain h = cc
txt_passed name key expected value lookup_error h = cc
txt_passed name key expected value (answered rs) h =
    go (find_first (λ r. text_eq r value) rs) (find_first-Memᴰ (λ r. text_eq r value) rs) h
  where
    go :
        (o : Option Text)
        → ((r : Text) → o ≡ some r → (text_eq r value ≡ true) × Memᴰ r rs)
        → has_passed (txt_found name key expected rs o) ≡ true
        → (ss : List Text) × (answered rs ≡ answered ss) × Memᴰ value ss
    go none hit h = cc
    go (some r) hit h =
        let (same, there) = hit r refl in
        (rs, refl, subst (λ x. Memᴰ x rs) ((text_eq_iff r value).0 same) there)

mx_passed :
    (name host suggested : Text) (a : Answer (List (ℕ × Text)))
    → has_passed (mx_answer name host suggested a) ≡ true
    → (rs : List (ℕ × Text)) × (r : ℕ × Text) × (a ≡ answered rs)
      × Memᴰ r rs
      × (equal_fold (host_of r) host ≡ true)
unfolding has_passed mx_answer checked
mx_passed name host suggested nxdomain h = cc
mx_passed name host suggested lookup_error h = cc
mx_passed name host suggested (answered rs) h =
    go (find_first (λ r. equal_fold (host_of r) host) rs)
      (find_first-Memᴰ (λ r. equal_fold (host_of r) host) rs) h
  where
    go :
        (o : Option (ℕ × Text))
        → ((r : ℕ × Text) → o ≡ some r → (equal_fold (host_of r) host ≡ true) × Memᴰ r rs)
        → has_passed (mx_found name suggested rs o) ≡ true
        → (ss : List (ℕ × Text)) × (r : ℕ × Text) × (answered rs ≡ answered ss)
          × Memᴰ r ss
          × (equal_fold (host_of r) host ≡ true)
    go none hit h = cc
    go (some r) hit h = let (same, there) = hit r refl in (rs, r, refl, there, same)

cname_passed :
    (name expected key : Text) (a : Answer Text)
    → has_passed (cname_answer name expected key a) ≡ true
    → (t : Text) × (a ≡ answered t) × (equal_fold (trim_last b'.' t) expected ≡ true)
unfolding has_passed cname_answer cname_found checked
cname_passed name expected key nxdomain h = cc
cname_passed name expected key lookup_error h = cc
cname_passed name expected key (answered t) h = (t, refl, ground arith)

pub IsPublished-check :
    (net : Resolver) (primary domain : Text) (sts : Option Text) (token : Text)
    → all_ok (check_dns_records net primary domain sts token) ≡ true
    → IsPublished net primary domain token
unfolding all_ok check_dns_records check_txt check_mx check_cname
IsPublished-check net primary domain sts token h =
    let (c, (m, (spf, (e, (r, (w, (t, rest))))))) =
      all-All has_passed (check_dns_records net primary domain sts token) h in
    record {
      challenge = txt_passed _ _ _ token (net.lookup_txt _) c;
      mail = mx_passed _ _ _ (net.lookup_mx _) m;
      ed25519 = cname_passed _ _ _ (net.lookup_cname _) e;
      rsa = cname_passed _ _ _ (net.lookup_cname _) r;
      wkd = cname_passed _ _ _ (net.lookup_cname _) w;
      policy = cname_passed _ _ _ (net.lookup_cname _) t;
    }
