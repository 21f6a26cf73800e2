-- ===== src/Config/Tests.antt =====
-- internal/config: a file with a smarthost and a submission listener.
use rookery.Base.{
  refl, true, false, none, some, [], codes, ok, text_eq, contains, has_prefix, has_suffix,
}
use rookery.Config.{
  Toml, Secrets, load, defaults, validate, validate_onion_address, validate_smarthost,
  validate_submission, smtp_of, smarthost_of,
}
use rookery.Config.Loaded.{IsUsable, load-IsUsable}

abbrev file : Toml
file = record {
  domain = codes "a.b";
  instance_name = [];
  contact_email = [];
  onion_address = codes "x.onion";
  http_host = none;
  http_port = none;
  log_level = none;
  message_dir = none;
  max_message_bytes = none;
  outbound_rate_limit_per_user = some 0;
  outbound_rate_limit_per_domain = none;
  outbound_daily_limit_per_user = none;
  smarthost_enabled = true;
  smarthost_host = codes "relay";
  smarthost_port = none;
  smarthost_username = codes "u";
  smarthost_require_tls = none;
  smarthost_auth = none;
  submission_enabled = true;
  submission_certs_dir = none;
  submission_cert_file = [];
  submission_key_file = [];
  default_quota_bytes = none;
  trash_retention_days = none;
  session_expiry_days = none;
  log_connecting_ips = false;
  resolver = none;
  rspamd_url = none;
  redis_addr = none;
}

abbrev environment : Secrets
environment = record {
  db_password = codes "d";
  master_key = codes "m";
  session_key = codes "s";
  smtp_relay_password = codes "r";
}

load-IsUsable_example : IsUsable (defaults file environment)
load-IsUsable_example =
    load-IsUsable file (some (ok file)) environment (defaults file environment) (
      unfold load defaults validate validate_onion_address validate_smarthost validate_submission
        smtp_of smarthost_of text_eq contains has_prefix has_suffix in
      refl)
