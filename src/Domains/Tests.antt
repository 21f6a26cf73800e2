-- ===== src/Domains/Tests.antt =====
-- internal/domains on one user's domain "c.d" of the instance "a.b".
use rookery.Base.{
  is_space, trim_left, trim_space, arith, text_eq, has_prefix, to_lower, lower_byte, equal_fold,
  trim_last, cut_prefix, Eq_number, ◌≡◌, refl, true, false, none, some, [], ◌∷◌, ◌++◌, Text, codes,
  trim_suffix, lookup, map,
}
use rookery.Domains.Names.{register_again}
use rookery.Domains.{
  conflict, failed, new_domain, insert_row, register_named, register, set_row, is_owner, Domain,
  Address, Db, Faults, Fresh, addresses_exist, delete, get,
}
use rookery.Domains.Dns.{
  all_ok, check_dns_records, has_passed, check_txt, txt_answer, checked, check_mx, mx_answer,
  check_txt_prefix, check_cname, check_sts, cname_answer, cname_found, Resolver, answered,
}
use rookery.Domains.Verify.{
  check_verification, check_got, is_expired, check_records, store_result, store_verified, Check,
  set_verified,
}
use rookery.Domains.Verify.Published.{IsPublished}
use rookery.Domains.Verify.Verified.{wanted, check_verification-IsPublished}
use rookery.Domains.Reserved.{
  ensure_rows, insert_address, insert_all, is_at, primary_of, ensure_reserved_addresses,
}
use rookery.Domains.Reserved.Delivery.{
  no_lookup_error, with_tables, ensure_reserved_addresses-resolve_recipient,
  ensure_reserved_addresses-delete,
}
use rookery.Domains.Settings.{effective_mta_sts_mode}
use rookery.Domains.Jobs.{Upgrade, upgrade_mta_sts_modes}
use rookery.Domains.Jobs.Modes.{upgrade_mta_sts_modes-modes}
use rookery.Smtp.Inbound.{MailStore, found, resolve_recipient}

abbrev token : Text
token = codes "token"

abbrev row : Domain
row = record {
  id = 1;
  domain = codes "c.d";
  is_primary = false;
  owner_user_id = some 7;
  verified_at = none;
  wkd_active = false;
  created_at = 0;
  verification_token = some token;
  verification_expires_at = some 1000;
  verification_checked_at = none;
  mta_sts_mode = none;
  mta_sts_id = some (codes "1");
  mta_sts_mode_changed_at = some 0;
  catch_all_enabled = false;
  catch_all_address_id = none;
  dns_last_checked_at = none;
  dns_status = [];
}

abbrev verified_row : Domain
verified_row = record row { verified_at = some 5 }

abbrev primary : Address
primary = record {
  id = 20;
  user_id = 7;
  domain_id = 9;
  local_part = codes "u";
  address = codes "u@a.b";
  is_alias = false;
  alias_target_id = none;
  is_reserved = false;
  delivery_method = codes "direct";
}

abbrev db_of : Domain → Db
db_of d = record { domains = d ∷ []; addresses = primary ∷ []; primary_addresses = (7, 20) ∷ [] }

abbrev fine : Faults
fine c = none

abbrev fresh : Fresh
fresh = record { now = 3; row_id = 1; token = token; sts_token = codes "sts" }

abbrev empty : Db
empty = record { domains = []; addresses = []; primary_addresses = [] }

-- Every record is published: one list of TXT records serves all names.
abbrev resolver : Resolver
resolver = record {
  lookup_txt = λ name. answered (
      token
      ∷ codes "v=spf1 include:_spf.a.b -all"
      ∷ codes "v=STSv1; id=1"
      ∷ codes "v=DMARC1; p=none"
      ∷ codes "v=TLSRPTv1; rua=x"
      ∷ []);
  lookup_mx = λ name. answered ((10, codes "a.b.") ∷ []);
  lookup_cname = λ name. answered (trim_suffix name (codes "c.d") ++ codes "a.b.");
}

abbrev check : Check
check = record {
  faults = fine;
  net = resolver;
  primary = codes "a.b";
  now = 50;
  new_token = codes "new";
  new_id = λ local. 30;
}

check_verification-IsPublished_example :
    (t : Text) × (wanted check row (some token) ≡ some t)
    × IsPublished resolver (codes "a.b") (codes "c.d") t
unfolding check_verification get check_got is_expired check_records store_result all_ok
    check_dns_records has_passed check_txt txt_answer text_eq checked check_mx mx_answer equal_fold
    trim_last check_txt_prefix lookup has_prefix lower_byte to_lower check_cname check_sts
    cname_answer cname_found ensure_reserved_addresses ensure_rows insert_address insert_all is_at
    primary_of store_verified set_row trim_suffix cut_prefix is_owner
check_verification-IsPublished_example =
    check_verification-IsPublished check 1 (db_of row) row (set_verified check row) 50 refl refl
      refl refl

register_again_example :
    register fine fresh 8 (codes " C.D ") (register fine fresh 7 (codes "c.d") empty).1
    ≡ (failed conflict, (register fine fresh 7 (codes "c.d") empty).1)
unfolding register register_named insert_row get new_domain text_eq to_lower trim_space trim_left
    is_space lower_byte
register_again_example =
    register_again fine fine fresh fresh 7 8 (codes "c.d") (codes " C.D ") empty
      (new_domain fresh 7 (codes "c.d")) refl refl refl refl refl

abbrev boxes : MailStore
boxes = record {
  domains = [];
  addresses = [];
  users = (7, record { quota_bytes = 0; used_bytes = 0; is_suspended = false }) ∷ [];
  messages = [];
  attachments = [];
  known_keys = [];
  files = [];
}

ensure_reserved_addresses-resolve_recipient_example :
    resolve_recipient no_lookup_error
      (with_tables (ensure_reserved_addresses fine (λ local. 30) 1 7 (db_of verified_row)).1 boxes)
      (codes "abuse" ++ b'@' ∷ codes "c.d")
    ≡ found 7 (codes "abuse" ++ b'@' ∷ codes "c.d")
unfolding ensure_reserved_addresses ensure_rows primary_of lookup insert_all text_eq is_at
ensure_reserved_addresses-resolve_recipient_example =
    ensure_reserved_addresses-resolve_recipient fine (λ local. 30) 7 (db_of verified_row) boxes
      verified_row primary (record { quota_bytes = 0; used_bytes = 0; is_suspended = false })
      (codes "abuse") refl refl refl refl refl refl refl refl
      (omega arith, (omega arith, (omega arith, (omega arith, (omega arith, tt)))))
      (omega arith, (omega arith, (omega arith, (omega arith, (omega arith, tt)))))

ensure_reserved_addresses-delete_example :
    delete fine 1 7 (ensure_reserved_addresses fine (λ local. 30) 1 7 (db_of verified_row)).1 ≡ (
      some addresses_exist,
      (ensure_reserved_addresses fine (λ local. 30) 1 7 (db_of verified_row)).1,
    )
unfolding ensure_reserved_addresses ensure_rows primary_of lookup insert_all is_at text_eq
ensure_reserved_addresses-delete_example =
    ensure_reserved_addresses-delete fine fine (λ local. 30) 7 (db_of verified_row) verified_row
      primary refl refl refl refl refl refl refl refl

abbrev upgrade : Upgrade
upgrade = record {
  now = 500000;
  primary = codes "a.b";
  date = codes "now";
  has_delivery = true;
  faults = fine;
  token = λ id. codes "fresh";
  token_err = λ id. none;
}

upgrade_mta_sts_modes-modes_example :
    map
      (effective_mta_sts_mode 500000)
      (upgrade_mta_sts_modes upgrade (db_of verified_row)).1.1.domains
    ≡ map (effective_mta_sts_mode 500000) (verified_row ∷ [])
upgrade_mta_sts_modes-modes_example =
    upgrade_mta_sts_modes-modes upgrade (db_of verified_row) (tt, tt)
