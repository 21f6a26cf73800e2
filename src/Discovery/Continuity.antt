-- ===== src/Discovery/Continuity.antt =====
-- When a discovered key is presented as the successor of one that was trusted.
use mathlib.Core.List.{Memᴰ}
use mathlib.Core.List.Memᴰ.{head, tail}
use rookery.Base.{
  ℕ, subst, ap, ◌∙◌, text_eq_iff, ◌≡◌, ◌≢◌, inl, inr, refl, sym, Bool, true, false, not, ◌&&◌,
  Option, none, some, List, [], ◌∷◌, arith, Text, codes, text_eq, to_lower, trim_space, Result, ok,
  err, Bool-cases, if◌then◌else◌, ◌==◌, leb,
}
use rookery.Discovery.{
  Pgp, KnownKey, Discovered, later_seen, latest_known, known_result, lookup_known_keys,
  verify_rotation_chain, LookUp, key, nothing, lookup_error, Sources, rotated, annotate_from,
  annotate_with, annotate_rotation, fresh_result, from_wkd, from_known, from_local, discover,
}

latest_known-Memᴰ :
    (p : KnownKey → Bool) (ks : List KnownKey) (q : KnownKey)
    → latest_known p ks ≡ some q
    → Memᴰ q ks × (p q ≡ true)
unfolding latest_known
latest_known-Memᴰ p [] q h = cc
latest_known-Memᴰ p (k ∷ ks) q h = go (latest_known p ks) (latest_known-Memᴰ p ks) h
  where
    go :
        (o : Option KnownKey)
        → ((q : KnownKey) → o ≡ some q → Memᴰ q ks × (p q ≡ true))
        → (if p k then later_seen k o else o) ≡ some q
        → Memᴰ q (k ∷ ks) × (p q ≡ true)
    go none ih e = let same : q ≡ k = grind arith in (head same, ap p same ∙ grind arith)
    go (some r) ih e = elim (Bool-cases (p k && leb r.last_seen_at k.last_seen_at)) [
      | inl t ↦ let same : q ≡ k = grind arith in (head same, ap p same ∙ grind arith)
      | inr f ↦ let (there, good) = ih q (grind arith) in (tail there, good)
    ]

-- The row is of this user and address, and of another key.
abbrev pub IsForAddress : ℕ → (address fp : Text) → KnownKey → Type 0
IsForAddress user address fp k = (k.user_id ≡ user) × (k.address ≡ address) × (k.fingerprint ≢ fp)

IsForAddress-of_test :
    (user : ℕ) (address fp : Text) (k : KnownKey)
    → ((k.user_id == user && text_eq k.address address) && not (text_eq k.fingerprint fp)) ≡ true
    → IsForAddress user address fp k
IsForAddress-of_test user address fp k h = (
  grind (arith, text_eq_iff k.address address, text_eq_iff k.fingerprint fp),
  grind (arith, text_eq_iff k.address address, text_eq_iff k.fingerprint fp),
  λ e.
      let same : text_eq k.fingerprint fp ≡ true = (text_eq_iff k.fingerprint fp).1 e in
      ground (arith, same),
)

module _ (pgp : Pgp) (src : Sources) (ks : List KnownKey) (user : ℕ) (address : Text) where
  -- The key follows one that the user knew for the address: a verified chain leads from the one to the
  -- other, and the date of the first sight is that of the known key.
  pub record Succeeds (prev : KnownKey) (r : Discovered) : Type 0 where
    pub known : Memᴰ prev ks
    pub same_address : IsForAddress user address r.fingerprint prev
    pub chain :
        verify_rotation_chain pgp src.chain_err src.rotations prev.fingerprint r.fingerprint
        ≡ ok true
    pub first_seen : r.first_seen_at ≡ some prev.first_seen_at
    pub rotated_from : r.rotated_from ≡ prev.fingerprint

  rotated-Succeeds :
      (prev : KnownKey) (r : Discovered)
      → Memᴰ prev ks
      → IsForAddress user address r.fingerprint prev
      → r.rotated_from ≡ []
      → (annotate_from pgp src (some prev) r).rotated_from ≢ []
      → Succeeds prev (annotate_from pgp src (some prev) r)
  unfolding annotate_from rotated
  rotated-Succeeds prev r known whose clean h =
      go (verify_rotation_chain pgp src.chain_err src.rotations prev.fingerprint r.fingerprint) refl
        h
    where
      go :
          (v : Result Bool)
          → verify_rotation_chain pgp src.chain_err src.rotations prev.fingerprint r.fingerprint ≡ v
          → (rotated pgp v prev r).rotated_from ≢ []
          → Succeeds prev (rotated pgp v prev r)
      go (ok true) e h = record {
        known = known;
        same_address = whose;
        chain = e;
        first_seen = refl;
        rotated_from = refl;
      }
      go (ok false) e h = absurd (h clean)
      go (err x) e h = absurd (h clean)

  annotate_rotation-Succeeds :
      (r : Discovered)
      → r.rotated_from ≡ []
      → (annotate_rotation pgp src user address ks r).rotated_from ≢ []
      → (prev : KnownKey) × Succeeds prev (annotate_rotation pgp src user address ks r)
  unfolding annotate_rotation annotate_with
  annotate_rotation-Succeeds r clean = go src.annotate_err
    where
      before : KnownKey → Bool
      before k =
          (k.user_id == user && text_eq k.address address)
          && not (text_eq k.fingerprint r.fingerprint)

      from :
          (o : Option KnownKey)
          → ((q : KnownKey) → o ≡ some q → Memᴰ q ks × (before q ≡ true))
          → (annotate_from pgp src o r).rotated_from ≢ []
          → (prev : KnownKey) × Succeeds prev (annotate_from pgp src o r)
      from none has h = absurd (h (unfold annotate_from in clean))
      from (some prev) has h =
          let (known, test) = has prev refl in
          (
            prev,
            rotated-Succeeds prev r known
                (IsForAddress-of_test user address r.fingerprint prev test) clean h,
          )

      go :
          (e : Option Text)
          → (annotate_with pgp e src user address ks r).rotated_from ≢ []
          → (prev : KnownKey) × Succeeds prev (annotate_with pgp e src user address ks r)
      go (some e) h = absurd (h clean)
      go none h = from (latest_known before ks) (latest_known-Memᴰ before ks) h

  known_result_clean :
      (now : ℕ) (o : Option KnownKey) (r : Discovered)
      → known_result now o ≡ some r
      → r.rotated_from ≡ []
  unfolding known_result
  known_result_clean now none r h = cc
  known_result_clean now (some k) r h = grind arith

  lookup_known_keys_clean :
      (now : ℕ) (r : Discovered)
      → lookup_known_keys now user address ks ≡ some r
      → r.rotated_from ≡ []
  unfolding lookup_known_keys
  lookup_known_keys_clean now r h = known_result_clean now _ r h

  discover-Succeeds_at :
      (raw : Text) (r : Discovered)
      → to_lower (trim_space raw) ≡ address
      → (discover pgp src user raw ks).0 ≡ ok (some r)
      → r.rotated_from ≢ []
      → (prev : KnownKey) × Succeeds prev r
  unfolding discover from_local from_known from_wkd
  discover-Succeeds_at raw r normal h rot = local (src.local address) (rw normal at h)
    where
      fresh :
          (f : Discovered)
          → f.rotated_from ≡ []
          → annotate_rotation pgp src user address ks f ≡ r
          → (prev : KnownKey) × Succeeds prev r
      fresh f clean same =
          subst (λ x. (prev : KnownKey) × Succeeds prev x) same
            (annotate_rotation-Succeeds f clean
              (subst (λ (x : Discovered). x.rotated_from ≢ []) (sym same) rot))

      wkd :
          (x : LookUp)
          → (from_wkd pgp src user address ks x).0 ≡ ok (some r)
          → (prev : KnownKey) × Succeeds prev r
      wkd (lookup_error e) h = cc
      wkd nothing h = cc
      wkd (key armored fp) h = fresh (fresh_result pgp armored fp (codes "wkd")) refl cc

      known :
          (e : Option Text) (o : Option Discovered)
          → ((q : Discovered) → o ≡ some q → q.rotated_from ≡ [])
          → (from_known pgp src user address ks e o).0 ≡ ok (some r)
          → (prev : KnownKey) × Succeeds prev r
      known (some e) o clean h = cc
      known none (some q) clean h = absurd (rot (clean r cc))
      known none none clean h = wkd (src.wkd address) h

      local :
          (x : LookUp)
          → (from_local pgp src user address ks x).0 ≡ ok (some r)
          → (prev : KnownKey) × Succeeds prev r
      local (lookup_error e) h = cc
      local (key armored fp) h = fresh (fresh_result pgp armored fp (codes "local")) refl cc
      local nothing h =
          known src.known_err (lookup_known_keys src.now user address ks)
            (lookup_known_keys_clean src.now) h

-- A key that is discovered for a user and an address, in lower case and without white space around it,
-- with the name of an older key is bound to that key: the older one is another key that this user knew
-- for this address, a verified chain of rotations leads from it, and its first sight is kept.
pub discover-Succeeds :
    (pgp : Pgp) (src : Sources) (ks : List KnownKey) (user : ℕ) (raw : Text) (r : Discovered)
    → (discover pgp src user raw ks).0 ≡ ok (some r)
    → r.rotated_from ≢ []
    → (prev : KnownKey) × Succeeds pgp src ks user (to_lower (trim_space raw)) prev r
discover-Succeeds pgp src ks user raw r h rot =
    discover-Succeeds_at pgp src ks user (to_lower (trim_space raw)) raw r refl h rot
