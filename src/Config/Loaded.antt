-- ===== src/Config/Loaded.antt =====
-- What a configuration that was loaded satisfies.
use rookery.Base.{
  subst, ◌≡◌, refl, Bool, true, false, not, ◌&&◌, ◌||◌, Option, none, some, List, ◌∷◌, arith, Text,
  codes, contains, has_suffix, Result, ok, err,
}
use rookery.Config.{
  domain_required, session_key_required, master_key_required, db_password_required, Toml, Settings,
  Smtp, Smarthost, Secrets, ConfigError, validate_onion_address, validate_submission,
  validate_smarthost, first, required, validate, loaded, checked, load, defaults, is_empty,
}

-- What the program relies on, as one condition.
abbrev onion_is_bare : Text → Bool
onion_is_bare a = is_empty a || (has_suffix a (codes ".onion") && not (contains a (codes "/")))

abbrev smarthost_is_usable : Smarthost → Secrets → Bool
smarthost_is_usable h env =
    not h.enabled
    || (not (is_empty h.host)
        && (not h.auth || (not (is_empty h.username) && not (is_empty env.smtp_relay_password))))

-- A pair of files, or neither and a directory.
abbrev certs_are_usable : Smtp → Bool
certs_are_usable s =
    not s.submission_enabled
    || (not (is_empty s.submission_cert_file) && not (is_empty s.submission_key_file))
    || (is_empty s.submission_cert_file
        && is_empty s.submission_key_file
        && not (is_empty s.submission_certs_dir))

abbrev secrets_are_set : Secrets → Bool
secrets_are_set env =
    not (is_empty env.db_password)
    && not (is_empty env.master_key)
    && not (is_empty env.session_key)

validate_onion_address-none :
    (c : Settings) → validate_onion_address c ≡ none → onion_is_bare c.onion_address ≡ true
unfolding validate_onion_address
validate_onion_address-none c h = ground arith

validate_smarthost-none :
    (h : Smarthost) (env : Secrets)
    → validate_smarthost h env ≡ none
    → smarthost_is_usable h env ≡ true
unfolding validate_smarthost
validate_smarthost-none h env e = ground arith

validate_submission-none : (s : Smtp) → validate_submission s ≡ none → certs_are_usable s ≡ true
unfolding validate_submission
validate_submission-none s h = ground arith

first-none :
    (e : Option ConfigError) (es : List (Option ConfigError))
    → first (e ∷ es) ≡ none
    → (e ≡ none) × (first es ≡ none)
first-none none es h = (refl, h)
first-none (some e) es h = cc

required-none : (e : ConfigError) (s : Text) → required e s ≡ none → is_empty s ≡ false
required-none e s h = ground arith

-- A usable configuration.
pub record IsUsable (c : Settings) : Type 0 where
  pub domain : is_empty c.domain ≡ false
  pub onion : onion_is_bare c.onion_address ≡ true
  pub secrets : secrets_are_set c.secrets ≡ true
  pub smarthost : smarthost_is_usable c.smtp.smarthost c.secrets ≡ true
  pub certs : certs_are_usable c.smtp ≡ true

validate-IsUsable : (c : Settings) → validate c ≡ none → IsUsable c
unfolding validate
validate-IsUsable c h =
    let (domain, r1) = first-none _ _ h in
    let (onion, r2) = first-none _ _ r1 in
    let (db, r3) = first-none _ _ r2 in
    let (master, r4) = first-none _ _ r3 in
    let (session, r5) = first-none _ _ r4 in
    let (smarthost, r6) = first-none _ _ r5 in
    let (submission, r7) = first-none _ _ r6 in
    let e1 = required-none db_password_required c.secrets.db_password db in
    let e2 = required-none master_key_required c.secrets.master_key master in
    let e3 = required-none session_key_required c.secrets.session_key session in
    record {
      domain = required-none domain_required c.domain domain;
      onion = validate_onion_address-none c onion;
      secrets = rw (e1, e2, e3) refl;
      smarthost = validate_smarthost-none c.smtp.smarthost c.secrets smarthost;
      certs = validate_submission-none c.smtp submission;
    }

-- A configuration that is loaded has a domain and the three secrets; its onion address is absent or a
-- bare host name; an enabled smarthost has a host and, with authentication, user name and password; an
-- enabled submission listener has both files of a pair, or neither and a directory.
pub load-IsUsable :
    (empty : Toml) (file : Option (Result Toml)) (env : Secrets) (c : Settings)
    → load empty file env ≡ loaded c
    → IsUsable c
unfolding load
load-IsUsable empty file env c h = go file h
  where
    valid :
        (d : Settings) (e : Option ConfigError)
        → validate d ≡ e
        → checked d e ≡ loaded c
        → IsUsable c
    valid d (some e) is h = cc
    valid d none is h =
        let same : d ≡ c = ground arith in subst IsUsable same (validate-IsUsable d is)

    go : (file : Option (Result Toml)) → load empty file env ≡ loaded c → IsUsable c
    go none h = valid (defaults empty env) (validate (defaults empty env)) refl h
    go (some (err e)) h = cc
    go (some (ok t)) h = valid (defaults t env) (validate (defaults t env)) refl h
