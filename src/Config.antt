-- ===== src/Config.antt =====
-- internal/config/config.go: the defaults and the checks of the configuration. The decoded file is a record
-- in which `none` stands for a key that is not defined; environment variables are a parameter.
pub mod Loaded
mod Tests
use rookery.Base.{
  ℕ, ◌+◌, ◌*◌, Bool, true, false, ◌&&◌, ◌||◌, not, Option, none, some, List, [], ◌∷◌, ◌++◌, Text,
  codes, text_eq, contains, has_suffix, ◌==◌, if◌then◌else◌, Result, ok, err,
}
use rookery.Smtp.Client.{itoa}

-- The keys of rookery.toml.
pub record Toml : Type 0 where
  pub domain : Text
  pub instance_name : Text
  pub contact_email : Text
  pub onion_address : Text
  pub http_host : Option Text
  pub http_port : Option ℕ
  pub log_level : Option Text
  pub message_dir : Option Text
  pub max_message_bytes : Option ℕ
  pub outbound_rate_limit_per_user : Option ℕ
  pub outbound_rate_limit_per_domain : Option ℕ
  pub outbound_daily_limit_per_user : Option ℕ
  pub smarthost_enabled : Bool
  pub smarthost_host : Text
  pub smarthost_port : Option ℕ
  pub smarthost_username : Text
  pub smarthost_require_tls : Option Bool
  pub smarthost_auth : Option Bool
  pub submission_enabled : Bool
  pub submission_certs_dir : Option Text
  pub submission_cert_file : Text
  pub submission_key_file : Text
  pub default_quota_bytes : Option ℕ
  pub trash_retention_days : Option ℕ
  pub session_expiry_days : Option ℕ
  pub log_connecting_ips : Bool
  pub resolver : Option Text
  pub rspamd_url : Option Text
  pub redis_addr : Option Text

pub record Smarthost : Type 0 where
  pub enabled : Bool
  pub host : Text
  pub port : ℕ
  pub username : Text
  pub require_tls : Bool
  pub auth : Bool

pub record Smtp : Type 0 where
  pub max_message_bytes : ℕ
  pub outbound_rate_limit_per_user : ℕ
  pub outbound_rate_limit_per_domain : ℕ
  pub outbound_daily_limit_per_user : ℕ
  pub smarthost : Smarthost
  pub submission_enabled : Bool
  pub submission_certs_dir : Text
  pub submission_cert_file : Text
  pub submission_key_file : Text

pub record Policy : Type 0 where
  pub default_quota_bytes : ℕ
  pub trash_retention_days : ℕ
  pub session_expiry_days : ℕ
  pub log_connecting_ips : Bool

-- The environment, of which an unset variable is empty.
pub record Secrets : Type 0 where
  pub db_password : Text
  pub master_key : Text
  pub session_key : Text
  pub smtp_relay_password : Text

pub record Settings : Type 0 where
  pub domain : Text
  pub instance_name : Text
  pub contact_email : Text
  pub onion_address : Text
  pub http_host : Text
  pub http_port : ℕ
  pub log_level : Text
  pub message_dir : Text
  pub smtp : Smtp
  pub policy : Policy
  pub resolver : Text
  pub rspamd_url : Text
  pub redis_addr : Text
  pub secrets : Secrets

-- A value that is defined stays, also a zero.
abbrev or_default {ℓ} : {A : Type ℓ} → A → Option A → A
or_default d none = d
or_default d (some a) = a

unfoldable pub smarthost_of : Toml → Smarthost
smarthost_of t = record {
  enabled = t.smarthost_enabled;
  host = t.smarthost_host;
  port = or_default 587 t.smarthost_port;
  username = t.smarthost_username;
  require_tls = or_default true t.smarthost_require_tls;
  auth = or_default true t.smarthost_auth;
}

unfoldable pub smtp_of : Toml → Smtp
smtp_of t = record {
  max_message_bytes = or_default (25 * 1024 * 1024) t.max_message_bytes;
  outbound_rate_limit_per_user = or_default 200 t.outbound_rate_limit_per_user;
  outbound_rate_limit_per_domain = or_default 5000 t.outbound_rate_limit_per_domain;
  outbound_daily_limit_per_user = or_default 1000 t.outbound_daily_limit_per_user;
  smarthost = smarthost_of t;
  submission_enabled = t.submission_enabled;
  submission_certs_dir = or_default (codes "/data/caddy/certificates") t.submission_certs_dir;
  submission_cert_file = t.submission_cert_file;
  submission_key_file = t.submission_key_file;
}

unfoldable pub policy_of : Toml → Policy
policy_of t = record {
  default_quota_bytes = or_default (5 * 1024 * 1024 * 1024) t.default_quota_bytes;
  trash_retention_days = or_default 30 t.trash_retention_days;
  session_expiry_days = or_default 7 t.session_expiry_days;
  log_connecting_ips = t.log_connecting_ips;
}

unfoldable pub defaults : Toml → Secrets → Settings
defaults t env = record {
  domain = t.domain;
  instance_name = if text_eq t.instance_name [] then t.domain else t.instance_name;
  contact_email = t.contact_email;
  onion_address = t.onion_address;
  http_host = or_default (codes "0.0.0.0") t.http_host;
  http_port = or_default 8080 t.http_port;
  log_level = or_default (codes "info") t.log_level;
  message_dir = or_default (codes "/var/lib/rookery/messages") t.message_dir;
  smtp = smtp_of t;
  policy = policy_of t;
  resolver = or_default (codes "9.9.9.9:53") t.resolver;
  rspamd_url = or_default (codes "http://rspamd:11333") t.rspamd_url;
  redis_addr = or_default (codes "redis:6379") t.redis_addr;
  secrets = env;
}

pub data ConfigError : Type 0 where
  parse_failed : Text → ConfigError
  domain_required onion_not_bare onion_suffix : ConfigError
  db_password_required master_key_required session_key_required : ConfigError
  smarthost_host_required smarthost_username_required relay_password_required : ConfigError
  half_cert_pair certs_dir_required : ConfigError

unfoldable pub validate_onion_address : Settings → Option ConfigError
validate_onion_address c =
    if text_eq c.onion_address []
    then none
    else if contains c.onion_address (codes "/") || contains c.onion_address (codes "://")
    then some onion_not_bare
    else if has_suffix c.onion_address (codes ".onion")
    then none
    else some onion_suffix

abbrev pub is_empty : Text → Bool
is_empty s = text_eq s []

abbrev differs : Bool → Bool → Bool
differs true b = not b
differs false b = b

unfoldable pub validate_submission : Smtp → Option ConfigError
validate_submission s =
    if not s.submission_enabled
    then none
    else if differs (is_empty s.submission_cert_file) (is_empty s.submission_key_file)
    then some half_cert_pair
    else if is_empty s.submission_cert_file && is_empty s.submission_certs_dir
    then some certs_dir_required
    else none

unfoldable pub validate_smarthost : Smarthost → Secrets → Option ConfigError
validate_smarthost h env =
    if not h.enabled
    then none
    else if is_empty h.host
    then some smarthost_host_required
    else if h.auth && is_empty h.username
    then some smarthost_username_required
    else if h.auth && is_empty env.smtp_relay_password
    then some relay_password_required
    else none

-- The first check that fails.
abbrev pub first : List (Option ConfigError) → Option ConfigError
first [] = none
first (some e ∷ es) = some e
first (none ∷ es) = first es

abbrev pub required : ConfigError → Text → Option ConfigError
required e s = if is_empty s then some e else none

unfoldable pub validate : Settings → Option ConfigError
validate c = first (
    required domain_required c.domain
    ∷ validate_onion_address c
    ∷ required db_password_required c.secrets.db_password
    ∷ required master_key_required c.secrets.master_key
    ∷ required session_key_required c.secrets.session_key
    ∷ validate_smarthost c.smtp.smarthost c.secrets
    ∷ validate_submission c.smtp
    ∷ [])

pub data Loading : Type 0 where
  loaded : Settings → Loading
  refused : ConfigError → Loading

abbrev pub checked : Settings → Option ConfigError → Loading
checked c none = loaded c
checked c (some e) = refused e

-- The file: absent, or what its decoding gives.
unfoldable pub load : (empty : Toml) → Option (Result Toml) → Secrets → Loading
load empty none env = checked (defaults empty env) (validate (defaults empty env))
load empty (some (err e)) env = refused (parse_failed e)
load empty (some (ok t)) env = checked (defaults t env) (validate (defaults t env))

unfoldable pub external_url : Settings → Text
external_url c =
    if text_eq c.domain (codes "localhost") || has_suffix c.domain (codes ".localhost")
    then if c.http_port == 80
      then codes "http://" ++ c.domain
      else codes "http://" ++ c.domain ++ codes ":" ++ itoa c.http_port
    else codes "https://" ++ c.domain
