-- ===== src/Discovery/Tests.antt =====
-- One rotation from the key "AA" to the key "BB", and a cached key.
use rookery.Base.{
  false, ℕ, ◌<◌, ◌≡◌, refl, true, none, some, [], ◌∷◌, codes, text_eq, text_eq_refl, ok, contains,
  has_prefix, equal_fold, to_upper, upper_byte, to_lower, trim_space,
}
use rookery.Discovery.{
  LookUp, discover, Sources, Pgp, Rotation, KnownKey, latest_rotation, is_attested, hop_of, hop,
  after_hop, walk, max_rotation_hops, verify_rotation_chain,
}
use rookery.Discovery.{
  Discovered, from_local, annotate_rotation, annotate_with, latest_known, annotate_from, rotated,
}
use rookery.Base.{lower_byte}
use rookery.Discovery.Continuity.{Succeeds, discover-Succeeds}
use rookery.Discovery.Chain.{Link, Chain, here, link, verify_rotation_chain_sound}

-- The armored text is the fingerprint, and a good signature is the key.
abbrev pgp : Pgp
pgp = record {
  fingerprint = λ armored. some armored;
  verify_detached = λ armored plaintext sig. text_eq armored sig;
}

abbrev rotation : Rotation
rotation = record {
  old_fingerprint = codes "AA";
  new_fingerprint = codes "bb";
  old_armored = codes "AA";
  attestation = codes "AA";
  statement = codes "old:AA new:BB";
  created_at = 1;
}

rotated_once :
    verify_rotation_chain pgp (λ fp. none) (rotation ∷ []) (codes " aa") (codes "BB") ≡ ok true
unfolding verify_rotation_chain walk text_eq after_hop hop latest_rotation hop_of is_attested
    equal_fold contains has_prefix to_upper upper_byte to_lower trim_space
rotated_once = refl

verify_rotation_chain_sound_example :
    (k : ℕ) × (k < max_rotation_hops)
    × Chain pgp
        (rotation ∷ [])
        k
        (to_upper (trim_space (codes " aa")))
        (to_upper (trim_space (codes "BB")))
verify_rotation_chain_sound_example =
    verify_rotation_chain_sound pgp (rotation ∷ []) (λ fp. none) (codes " aa") (codes "BB")
      rotated_once

only-Link : Link pgp (rotation ∷ []) (codes "AA") (codes "BB")
only-Link = record {
  row = rotation;
  newest = unfold latest_rotation text_eq in refl;
  names_next = unfold to_upper upper_byte in refl;
  key = (codes "AA", refl, unfold equal_fold text_eq to_lower in refl);
  binds_old = unfold contains has_prefix in refl;
  binds_new = unfold contains has_prefix in refl;
  signed = text_eq_refl (codes "AA");
}

only-Chain :
    Chain pgp
      (rotation ∷ [])
      1
      (to_upper (trim_space (codes "aa")))
      (to_upper (trim_space (codes "BB")))
unfolding to_upper upper_byte trim_space
only-Chain = link only-Link here

abbrev known : KnownKey
known = record {
  user_id = 3;
  address = codes "u@c.d";
  fingerprint = codes "AA";
  armored_public_key = codes "old";
  source = codes "wkd";
  first_seen_at = 10;
  last_seen_at = 20;
}

-- The owner of the address is a local user, whose key was rotated.
abbrev outside : Sources
outside = record {
  now = 40;
  local = λ address. LookUp.key (codes "armored") (codes "BB");
  wkd = λ address. LookUp.nothing;
  known_err = none;
  annotate_err = none;
  chain_err = λ fp. none;
  cache_fails = false;
  rotations = rotation ∷ [];
}

abbrev successor : Discovered
successor = record {
  armored_public_key = codes "armored";
  fingerprint = codes "BB";
  source = codes "local";
  first_seen_at = some 10;
  rotated_from = codes "AA";
}

successor_found : (discover pgp outside 3 (codes " U@c.d") (known ∷ [])).0 ≡ ok (some successor)
unfolding discover to_lower lower_byte trim_space from_local annotate_rotation annotate_with
    latest_known text_eq annotate_from rotated verify_rotation_chain walk after_hop hop
    latest_rotation hop_of is_attested equal_fold contains has_prefix to_upper upper_byte
successor_found = refl

discover-Succeeds_example :
    (prev : KnownKey) × Succeeds pgp outside
      (known ∷ [])
      3
      (to_lower (trim_space (codes " U@c.d")))
      prev
      successor
discover-Succeeds_example =
    discover-Succeeds pgp outside (known ∷ []) 3 (codes " U@c.d") successor successor_found
      (λ e. cc)
