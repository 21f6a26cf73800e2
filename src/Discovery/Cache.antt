-- ===== src/Discovery/Cache.antt =====
-- internal/discovery/discovery.go: the cache of keys.
use rookery.Base.{
  subst, ℕ, ◌-◌, ◌<◌, ◌≡◌, refl, Bool, true, false, not, ◌&&◌, Option, none, some, List, [], ◌∷◌,
  arith, Text, codes, text_eq, text_eq_iff, text_eq_refl, Bool-cases, inl, inr, if◌then◌else◌, sym,
  All, ltb, ◌==◌,
}
use rookery.Discovery.{
  KnownKey, Discovered, latest_known, later_seen, known_result, lookup_known_keys, cache_key, week,
}

-- All rows of the user with this fingerprint are rows of this address.
abbrev pub IsAbout : ℕ → (address fp : Text) → KnownKey → Type 0
IsAbout user address fp k =
    (k.user_id == user && text_eq k.fingerprint fp) ≡ true → k.address ≡ address

abbrev pub IsBefore : ℕ → KnownKey → Type 0
IsBefore now k = k.last_seen_at < now

latest_known-IsBefore :
    (now : ℕ) (p : KnownKey → Bool) (ks : List KnownKey)
    → All (IsBefore now) ks
    → (q : KnownKey) → latest_known p ks ≡ some q
    → q.last_seen_at < now
unfolding latest_known
latest_known-IsBefore now p [] old q h = cc
latest_known-IsBefore now p (k ∷ ks) old q h =
    go (latest_known p ks) (latest_known-IsBefore now p ks old.1) h
  where
    go :
        (o : Option KnownKey)
        → ((q : KnownKey) → o ≡ some q → q.last_seen_at < now)
        → (if p k then later_seen k o else o) ≡ some q
        → q.last_seen_at < now
    go none ih e = elim (Bool-cases (p k)) [ inl t ↦ grind (arith, old.0) | inr f ↦ grind arith ]
    go (some r) ih e = grind (arith, old.0, ih r refl)

newest_head :
    (p : KnownKey → Bool) (k : KnownKey) (ks : List KnownKey)
    → p k ≡ true
    → ((q : KnownKey) → latest_known p ks ≡ some q → q.last_seen_at < k.last_seen_at)
    → latest_known p (k ∷ ks) ≡ some k
unfolding latest_known
newest_head p k ks t h = go (latest_known p ks) h
  where
    go :
        (o : Option KnownKey)
        → ((q : KnownKey) → o ≡ some q → q.last_seen_at < k.last_seen_at)
        → (if p k then later_seen k o else o) ≡ some k
    go none h = rw t refl
    go (some q) h = grind (arith, h q refl)

newest_tail :
    (p : KnownKey → Bool) (k : KnownKey) (ks : List KnownKey) (q : KnownKey)
    → latest_known p ks ≡ some q
    → k.last_seen_at < q.last_seen_at
    → latest_known p (k ∷ ks) ≡ some q
unfolding latest_known
newest_tail p k ks q e h = rw e (grind arith)

module _ (now user : ℕ) (address armored fp source : Text) where
  -- The test that a lookup of the address makes.
  abbrev is_row : KnownKey → Bool
  is_row k = k.user_id == user && text_eq k.address address

  abbrev Cached : List KnownKey → Type 0
  Cached rows =
      (k : KnownKey) × (latest_known is_row rows ≡ some k)
      × ((k.last_seen_at ≡ now) × (k.armored_public_key ≡ armored) × (k.fingerprint ≡ fp))

  cache_key_same :
      (k : KnownKey) (ks : List KnownKey)
      → (k.user_id == user && text_eq k.fingerprint fp) ≡ true
      → cache_key now user address armored fp source (k ∷ ks)
        ≡ record k { armored_public_key = armored; last_seen_at = now; source = source } ∷ ks
  unfolding cache_key
  cache_key_same k ks same = rw same refl

  cache_key_other :
      (k : KnownKey) (ks : List KnownKey)
      → (k.user_id == user && text_eq k.fingerprint fp) ≡ false
      → cache_key now user address armored fp source (k ∷ ks)
        ≡ k ∷ cache_key now user address armored fp source ks
  unfolding cache_key
  cache_key_other k ks other = rw other refl

  is_row_same :
      (k : KnownKey)
      → (k.user_id == user && text_eq k.fingerprint fp) ≡ true
      → k.address ≡ address
      → is_row k ≡ true
  is_row_same k same at = grind (arith, text_eq_iff k.address address)

  is_fp :
      (k : KnownKey) → (k.user_id == user && text_eq k.fingerprint fp) ≡ true → k.fingerprint ≡ fp
  is_fp k same = grind (arith, text_eq_iff k.fingerprint fp)

  abbrev first_row : KnownKey
  first_row = record {
    user_id = user;
    address = address;
    fingerprint = fp;
    armored_public_key = armored;
    source = source;
    first_seen_at = now;
    last_seen_at = now;
  }

  cache_key_new : cache_key now user address armored fp source [] ≡ first_row ∷ []
  unfolding cache_key
  cache_key_new = refl

  nothing_known : (q : KnownKey) → latest_known is_row [] ≡ some q → q.last_seen_at < now
  unfolding latest_known
  nothing_known q h = cc

  -- After a key was cached, the newest known key of its address is the one that was cached.
  latest_known-cache_key :
      (ks : List KnownKey)
      → All (IsBefore now) ks
      → All (IsAbout user address fp) ks
      → Cached (cache_key now user address armored fp source ks)
  latest_known-cache_key [] old about = (
    first_row,
    subst (λ rows. latest_known is_row rows ≡ some first_row) (sym cache_key_new)
        (newest_head is_row first_row [] (ground (arith, text_eq_refl address)) nothing_known),
    (refl, refl, refl),
  )
  latest_known-cache_key (k ∷ ks) old about =
      elim (Bool-cases (k.user_id == user && text_eq k.fingerprint fp)) [
        | inl same ↦ subst Cached (sym (cache_key_same k ks same)) (
          record k { armored_public_key = armored; last_seen_at = now; source = source },
          newest_head is_row
              (record k { armored_public_key = armored; last_seen_at = now; source = source }) ks
              (is_row_same k same (about.0 same)) (latest_known-IsBefore now is_row ks old.1),
          (refl, refl, is_fp k same),
        )
        | inr other ↦
            subst Cached (sym (cache_key_other k ks other))
              (grown (latest_known-cache_key ks old.1 about.1))
      ]
    where
      grown :
          Cached (cache_key now user address armored fp source ks)
          → Cached (k ∷ cache_key now user address armored fp source ks)
      grown (q, e, (seen, armor, key)) = (
        q,
        newest_tail is_row k (cache_key now user address armored fp source ks) q e
            (omega (arith, old.0, seen)),
        (seen, armor, key),
      )

abbrev pub found_key : ℕ → (armored fp : Text) → Discovered
found_key first armored fp = record {
  armored_public_key = armored;
  fingerprint = fp;
  source = codes "known_keys";
  first_seen_at = some first;
  rotated_from = [];
}

fresh_result :
    (now : ℕ) (armored fp : Text) (k : KnownKey)
    → k.last_seen_at ≡ now
    → k.armored_public_key ≡ armored
    → k.fingerprint ≡ fp
    → known_result now (some k) ≡ some (found_key k.first_seen_at armored fp)
unfolding known_result
fresh_result now armored fp k seen armor key =
    go (text_eq k.source (codes "manual")) (ltb week (now - k.last_seen_at)) recent
  where
    recent : ltb week (now - k.last_seen_at) ≡ false
    recent = ground (arith, seen)

    go :
        (manual old : Bool)
        → old ≡ false
        → (if not manual && old
            then none
            else some (found_key k.first_seen_at k.armored_public_key k.fingerprint))
          ≡ some (found_key k.first_seen_at armored fp)
    go true old e = grind (arith, armor, key)
    go false old e = grind (arith, armor, key)

-- A key that is cached, where every older row of the user was seen before now and the rows of the same
-- user with the same fingerprint are rows of this address, is what the next lookup of the address
-- returns at that time: the same armored key and fingerprint, from known_keys.
pub lookup_known_keys-cache_key :
    (now user : ℕ) (address armored fp source : Text) (ks : List KnownKey)
    → All (IsBefore now) ks
    → All (IsAbout user address fp) ks
    → (first : ℕ) × (lookup_known_keys now user address
          (cache_key now user address armored fp source ks)
        ≡ some (found_key first armored fp))
unfolding lookup_known_keys
lookup_known_keys-cache_key now user address armored fp source ks old about =
    done (latest_known-cache_key now user address armored fp source ks old about)
  where
    done :
        Cached now user address armored fp source (cache_key now user address armored fp source ks)
        → (first : ℕ) × (known_result now (
              latest_known
                (is_row now user address armored fp source)
                (cache_key now user address armored fp source ks))
            ≡ some (found_key first armored fp))
    done (k, e, (seen, armor, key)) =
        (k.first_seen_at, rw e (fresh_result now armored fp k seen armor key))
