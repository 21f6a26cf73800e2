-- ===== src/Smtp/Tests.antt =====
-- Policies, deliveries and a relay session, on small inputs.
pub mod Relay
pub mod Mailbox
pub mod Parts
use mathlib.Core.List.{Perm}
use rookery.Base.{
  ap, ℕ, ◌≤◌, ◌<◌, ◌≡◌, ◌≢◌, ◌⊎◌, ◌↔◌, inl, inr, refl, Bool, true, false, Option, none, some, List,
  [], ◌∷◌, ◌++◌, map, arith, Text, codes, All, any, text_eq, cut, cut_prefix, contains, has_prefix,
  split, trim_space, trim_last, to_lower, lower_byte, lookup, insert, Eq_text, Lacks, is_none, leb,
  if◌then◌else◌,
}
use rookery.Smtp.Sts.{
  StsPolicy, HttpReply, answered, Found, fetch_policy, first_id, record_id, sts_fields, sts_field,
  parse_policy, scan_lines, scan_pair, scan_field, positive_int, digits_from, finish_scan,
  clamp_max_age, match_mx_pattern, match_wildcard, policy_allows_mx, sts_max_age_cap,
  sts_max_age_floor,
}
use rookery.Smtp.Sts.Match.{match_mx_pattern_wildcard}
use rookery.Smtp.Sts.Parse.{clamp_max_age_bounds, parse_policy_sound, IsPattern}
use rookery.Smtp.Sts.Resolve.{
  PolicyCache, CacheReply, hit, miss, Resolved, resolved, lookup_sts_id, cached_of, cached,
  store_policy, store_found, resolve_id, resolve_published, resolve_policy, resolve_policy-id,
  resolve_policy_again,
}
use rookery.Smtp.Client.{Peer, IsPrivate, IsAccepted, join_host_port, itoa, send_message}
use rookery.Smtp.Outbound.{
  Net, Mx, is_enforce, is_refused, mx_error, after_tls, after_starttls, negotiate, try_deliver,
  sort_mx, insert_mx, try_each, after_attempt, deliver,
}
use rookery.Smtp.Outbound.Enforce.{IsGuarded, try_deliver_enforced, deliver-IsGuarded}
use rookery.Smtp.Outbound.Attempts.{IsSorted, sort_mx_lem, up_to, host_of, takes, try_each_lem}
use rookery.Smtp.Smarthost.{Smarthost, deliver_via_smarthost}
use rookery.Smtp.Smarthost.Privacy.{
  KeepsSecret, deliver_via_smarthost-IsPrivate, deliver_via_smarthost-KeepsSecret,
}

abbrev policy_text : Text
policy_text = codes "version: STSv1\nmode: enforce\nmx: *.C.D\nmax_age: 600\n"

abbrev enforced : StsPolicy
enforced = record { mode = codes "enforce"; mx = codes "*.c.d" ∷ []; id = codes "7" }

-- A server that offers TLS and accepts everything.
abbrev willing : Peer
willing = record {
  dial = none;
  greeting = none;
  hello = none;
  offers_starttls = true;
  starttls = none;
  tls_state = true;
  auth_offer = some (codes "PLAIN LOGIN");
  auth = none;
  mail = none;
  rcpt = none;
  command_data = none;
  write = none;
  close = none;
}

abbrev net : Net
net = record {
  txt = λ name. some (codes "v=STSv1; id=7" ∷ []);
  mx = λ name. (
    none,
    record { pref = 20; host = codes "mx.c.d." }
        ∷ record { pref = 10; host = codes "evil.e." }
        ∷ [],
  );
  web = λ url. answered 200 (some policy_text);
  peer = λ addr name. willing;
  quote = λ s. s;
}

-- A cache that returns what was put.
abbrev memory : PolicyCache (Option (Text × StsPolicy))
memory = record { get = get; put = λ c d p ttl. some (d, p) }
  where
    reply : Option (Text × StsPolicy) → CacheReply
    reply none = miss
    reply (some (d, p)) = hit p

    get : Option (Text × StsPolicy) → Text → CacheReply
    get c d = reply c

first_resolution :
    resolve_policy memory net.txt net.web (some none) (codes "c.d")
    ≡ (resolved (some enforced), some (some (codes "c.d", enforced)))
unfolding resolve_policy lookup_sts_id first_id record_id sts_fields sts_field split cut trim_space
    text_eq resolve_published cached cached_of resolve_id fetch_policy parse_policy scan_lines
    scan_pair scan_field to_lower positive_int finish_scan store_found store_policy digits_from
    lower_byte
first_resolution = refl

resolve_policy_again_example :
    let c = (resolve_policy memory net.txt net.web (some none) (codes "c.d")).1 in
    resolve_policy memory net.txt (λ url. HttpReply.failed (codes "down")) c (codes "c.d")
    ≡ (resolved (some enforced), c)
resolve_policy_again_example =
    resolve_policy_again memory net.txt net.web (λ url. HttpReply.failed (codes "down")) none
      (codes "c.d") {p = enforced} (λ c d p ttl. refl) (ap (λ x. x.0) first_resolution)

deliver-IsGuarded_example :
    All
      (IsGuarded net enforced)
      (deliver net memory
        (some none)
        (codes "a.b")
        (codes "me@a.b")
        (codes "u@c.d")
        (codes "hi")).0.1
deliver-IsGuarded_example =
    deliver-IsGuarded net memory (some none) (codes "a.b") (codes "me@a.b") (codes "u@c.d")
      (codes "hi") (codes "u") (codes "c.d") enforced (unfold cut in refl)
      (ap (λ x. x.0) first_resolution) (unfold is_enforce text_eq in refl)

abbrev smarthost : Smarthost
smarthost = record {
  host = codes "relay.e";
  port = 0;
  username = codes "me";
  password = codes "secret";
  require_tls = true;
  auth = true;
}

deliver_via_smarthost-IsPrivate_example :
    All IsPrivate
      (deliver_via_smarthost
        (λ s. s)
        (λ addr name. willing)
        (codes "a.b")
        smarthost
        (codes "me@a.b")
        (codes "u@c.d")
        (codes "hi")).1
deliver_via_smarthost-IsPrivate_example =
    deliver_via_smarthost-IsPrivate (λ s. s) (λ addr name. willing) (codes "a.b") smarthost
      (codes "me@a.b") (codes "u@c.d") (codes "hi") refl

deliver_via_smarthost-KeepsSecret_example :
    All
      (KeepsSecret (λ s. s) smarthost.host)
      (deliver_via_smarthost
        (λ s. s)
        (λ addr name. willing)
        (codes "a.b")
        smarthost
        (codes "me@a.b")
        (codes "u@c.d")
        (codes "hi")).1
deliver_via_smarthost-KeepsSecret_example =
    deliver_via_smarthost-KeepsSecret (λ s. s) (λ addr name. willing) (codes "a.b") smarthost
      (codes "me@a.b") (codes "u@c.d") (codes "hi")
