-- ===== src/Discovery.antt =====
-- internal/discovery/discovery.go: the chain of key rotations, and where a recipient's key is found.
-- OpenPGP is a parameter. The proofs are in the children.
pub mod Chain
pub mod Cache
pub mod Continuity
mod Tests
use rookery.Base.{
  ℕ, zero, suc, ◌+◌, ◌-◌, ◌*◌, Bool, true, false, not, ◌&&◌, ◌||◌, Option, none, some, List, [],
  ◌∷◌, ◌++◌, Text, codes, text_eq, equal_fold, contains, to_upper, to_lower, trim_space, cut, leb,
  ltb, ◌==◌, if◌then◌else◌, Result, ok, err, insert, find_first,
}

-- What the code asks of OpenPGP: the fingerprint of an armored key, and whether a detached signature
-- is good.
pub record Pgp : Type 0 where
  pub fingerprint : Text → Option Text
  pub verify_detached : (armored_key plaintext armored_sig : Text) → Bool

-- A row of key_rotations.
pub record Rotation : Type 0 where
  pub old_fingerprint : Text
  pub new_fingerprint : Text
  pub old_armored : Text
  pub attestation : Text
  pub statement : Text
  pub created_at : ℕ

abbrev newer : Rotation → Option Rotation → Option Rotation
newer r none = some r
newer r (some q) = if leb q.created_at r.created_at then some r else some q

-- WHERE old_fingerprint = $1 ORDER BY created_at DESC LIMIT 1
unfoldable pub latest_rotation : Text → List Rotation → Option Rotation
latest_rotation cur [] = none
latest_rotation cur (r ∷ rs) =
    let rest = latest_rotation cur rs in
    if text_eq r.old_fingerprint cur then newer r rest else rest

abbrev pub max_rotation_hops : ℕ
max_rotation_hops = 16

abbrev pub fp_matches : Option Text → Text → Bool
fp_matches none cur = false
fp_matches (some fp) cur = equal_fold fp cur

module _ (pgp : Pgp) where
  -- The attesting key is the current one, and it signed a statement that binds both fingerprints.
  unfoldable pub is_attested : Text → Text → Rotation → Bool
  is_attested cur new_fp r =
      fp_matches (pgp.fingerprint r.old_armored) cur
      && ((contains r.statement (codes "old:" ++ cur)
            && contains r.statement (codes "new:" ++ new_fp))
          && pgp.verify_detached r.old_armored r.statement r.attestation)

  -- One hop from the current fingerprint.
  unfoldable pub hop_of : Text → Option Rotation → Option Text
  hop_of cur none = none
  hop_of cur (some r) =
      let new_fp = to_upper r.new_fingerprint in
      if is_attested cur new_fp r then some new_fp else none

  unfoldable pub hop : List Rotation → Text → Option Text
  hop rows cur = hop_of cur (latest_rotation cur rows)

  -- After the query and the checks of one round: the error, the end of the chain, or the next round.
  unfoldable pub after_hop : Option Text → Option Text → (Text → Result Bool) → Result Bool
  after_hop (some e) next rest = err (codes "discovery: rotation chain lookup: " ++ e)
  after_hop none none rest = ok false
  after_hop none (some new_fp) rest = rest new_fp

  -- The loop, with its rounds left. `db cur` is an error of the query in the round of `cur`.
  unfoldable pub walk : ℕ → (Text → Option Text) → List Rotation → (cur target : Text) → Result Bool
  walk zero db rows cur target = ok false
  walk (suc n) db rows cur target =
      if text_eq cur target
      then ok true
      else after_hop (db cur) (hop rows cur) (λ next. walk n db rows next target)

  unfoldable pub verify_rotation_chain :
      (Text → Option Text) → List Rotation → (from_fp to_fp : Text) → Result Bool
  verify_rotation_chain db rows from_fp to_fp =
      walk max_rotation_hops db rows (to_upper (trim_space from_fp)) (to_upper (trim_space to_fp))

pub record KnownKey : Type 0 where
  pub user_id : ℕ
  pub address : Text
  pub fingerprint : Text
  pub armored_public_key : Text
  pub source : Text
  pub first_seen_at : ℕ
  pub last_seen_at : ℕ

-- Result of the source, without the name of the standard one.
pub record Discovered : Type 0 where
  pub armored_public_key : Text
  pub fingerprint : Text
  pub source : Text
  pub first_seen_at : Option ℕ
  pub rotated_from : Text

abbrev later_seen : KnownKey → Option KnownKey → Option KnownKey
later_seen k none = some k
later_seen k (some q) = if leb q.last_seen_at k.last_seen_at then some k else some q

-- ORDER BY last_seen_at DESC LIMIT 1, of the rows that pass a test
unfoldable pub latest_known : (KnownKey → Bool) → List KnownKey → Option KnownKey
latest_known p [] = none
latest_known p (k ∷ ks) = let rest = latest_known p ks in if p k then later_seen k rest else rest

abbrev pub week : ℕ
week = 7 * 24 * 3600

-- Cached keys expire after seven days; those that were entered by hand do not.
unfoldable pub known_result : ℕ → Option KnownKey → Option Discovered
known_result now none = none
known_result now (some k) =
    if not (text_eq k.source (codes "manual")) && ltb week (now - k.last_seen_at)
    then none
    else some (record {
      armored_public_key = k.armored_public_key;
      fingerprint = k.fingerprint;
      source = codes "known_keys";
      first_seen_at = some k.first_seen_at;
      rotated_from = [];
    })

unfoldable pub lookup_known_keys : ℕ → ℕ → Text → List KnownKey → Option Discovered
lookup_known_keys now user address ks =
    known_result now (latest_known (λ k. k.user_id == user && text_eq k.address address) ks)

-- ON CONFLICT (user_id, fingerprint): the key, the source and the time of the last sight are new.
unfoldable pub cache_key :
    ℕ → (user : ℕ) (address armored fp source : Text) → List KnownKey → List KnownKey
cache_key now user address armored fp source [] =
    record {
      user_id = user;
      address = address;
      fingerprint = fp;
      armored_public_key = armored;
      source = source;
      first_seen_at = now;
      last_seen_at = now;
    }
    ∷ []
cache_key now user address armored fp source (k ∷ ks) =
    let rest = cache_key now user address armored fp source ks in
    if k.user_id == user && text_eq k.fingerprint fp
    then record k { armored_public_key = armored; last_seen_at = now; source = source } ∷ ks
    else k ∷ rest

-- A key that a lookup found, nothing, or an error.
pub data LookUp : Type 0 where
  key : (armored fingerprint : Text) → LookUp
  nothing : LookUp
  lookup_error : Text → LookUp

-- The outside of one discovery: the clock, the local users' keys, WKD, and the database's errors.
pub record Sources : Type 0 where
  pub now : ℕ
  pub local : Text → LookUp
  pub wkd : Text → LookUp
  pub known_err : Option Text
  pub annotate_err : Option Text
  pub chain_err : Text → Option Text
  pub cache_fails : Bool
  pub rotations : List Rotation

module _ (pgp : Pgp) where
  unfoldable pub rotated : Result Bool → KnownKey → Discovered → Discovered
  rotated (ok true) prev r = record r {
    rotated_from = prev.fingerprint;
    first_seen_at = some prev.first_seen_at;
  }
  rotated (ok false) prev r = r
  rotated (err e) prev r = r

  unfoldable pub annotate_from : Sources → Option KnownKey → Discovered → Discovered
  annotate_from src none r = r
  annotate_from src (some prev) r =
      rotated (verify_rotation_chain pgp src.chain_err src.rotations prev.fingerprint r.fingerprint)
        prev r

  unfoldable pub annotate_with :
      Option Text → Sources → ℕ → Text → List KnownKey → Discovered → Discovered
  annotate_with (some e) src user address ks r = r
  annotate_with none src user address ks r =
      annotate_from src
        (latest_known
          (λ k.
            (k.user_id == user && text_eq k.address address)
            && not (text_eq k.fingerprint r.fingerprint))
          ks)
        r

  unfoldable pub annotate_rotation : Sources → ℕ → Text → List KnownKey → Discovered → Discovered
  annotate_rotation src = annotate_with src.annotate_err src

  abbrev pub fresh_result : (armored fp source : Text) → Discovered
  fresh_result armored fp source = record {
    armored_public_key = armored;
    fingerprint = fp;
    source = source;
    first_seen_at = none;
    rotated_from = [];
  }

  abbrev pub Answer : Type 0
  Answer = Result (Option Discovered) × List KnownKey

  unfoldable pub from_wkd : Sources → ℕ → Text → List KnownKey → LookUp → Answer
  from_wkd src user address ks (lookup_error e) = (ok none, ks)
  from_wkd src user address ks nothing = (ok none, ks)
  from_wkd src user address ks (key armored fp) = (
    ok (some (annotate_rotation src user address ks (fresh_result armored fp (codes "wkd")))),
    if src.cache_fails then ks else cache_key src.now user address armored fp (codes "wkd") ks,
  )

  unfoldable pub from_known :
      Sources → ℕ → Text → List KnownKey → Option Text → Option Discovered → Answer
  from_known src user address ks (some e) found =
      (err (codes "discovery: known_keys lookup: " ++ e), ks)
  from_known src user address ks none (some r) = (ok (some r), ks)
  from_known src user address ks none none = from_wkd src user address ks (src.wkd address)

  unfoldable pub from_local : Sources → ℕ → Text → List KnownKey → LookUp → Answer
  from_local src user address ks (lookup_error e) =
      (err (codes "discovery: local lookup: " ++ e), ks)
  from_local src user address ks (key armored fp) = (
    ok (some (annotate_rotation src user address ks (fresh_result armored fp (codes "local")))),
    ks,
  )
  from_local src user address ks nothing =
      from_known src user address ks src.known_err (lookup_known_keys src.now user address ks)

  unfoldable pub discover : Sources → ℕ → Text → List KnownKey → Answer
  discover src user raw ks =
      let address = to_lower (trim_space raw) in from_local src user address ks (src.local address)
