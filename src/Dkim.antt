-- ===== src/Dkim.antt =====
-- internal/dkim/dkim.go: the keys of the domains, kept encrypted, and the signing of mail. AES-GCM, the
-- random source, the key generators, the key formats and the signature itself are parameters. The
-- sealing of keys and the queries are here; Signatures has `Sign`, Generated the making of keys, and
-- Renewed their re-encryption.
pub mod Sealed
mod Tests
pub mod Signatures
pub mod Generated
pub mod Renewed
use rookery.Base.{
  ◌||◌, ℕ, suc, ◌+◌, Bool, true, false, ◌&&◌, not, Option, none, some, List, [], ◌∷◌, ◌++◌, Text,
  codes, text_eq, ltb, leb, ◌==◌, if◌then◌else◌, any, select, find_first, map, length, take, drop,
  sort_by, Result, ok, err,
}

pub record DomainRow : Type 0 where
  pub id : ℕ
  pub domain : Text
  pub is_primary : Bool

-- A row of dkim_keys.
pub record DkimKey : Type 0 where
  pub id : ℕ
  pub domain_id : ℕ
  pub selector : Text
  pub algorithm : Text
  pub public_key_der : Text
  pub private_key_enc : Text
  pub is_active : Bool

pub record Db : Type 0 where
  pub domains : List DomainRow
  pub keys : List DkimKey

-- AES-256-GCM under a key; `unseal` is its `Open`.
pub record Gcm : Type 0 where
  pub nonce_size : ℕ
  pub seal : (key nonce plaintext : Text) → Text
  pub unseal : (key nonce ciphertext : Text) → Option Text

abbrev sealed : Gcm → Text → Text → Result Text → Result Text
sealed gcm key plaintext (err e) = err e
sealed gcm key plaintext (ok nonce) = ok (nonce ++ gcm.seal key nonce plaintext)

-- `random` is what the random source gives for the nonce.
unfoldable pub encrypt_key :
    Gcm → (key : Text) → (random : Result Text) → (plaintext : Text) → Result Text
encrypt_key gcm key random plaintext = sealed gcm key plaintext random

abbrev opened : Option Text → Result Text
opened none = err (codes "cipher: message authentication failed")
opened (some p) = ok p

unfoldable pub decrypt_key : Gcm → (key bytes : Text) → Result Text
decrypt_key gcm key bytes =
    if ltb (length bytes) gcm.nonce_size
    then err (codes "dkim: ciphertext too short")
    else opened (gcm.unseal key (take gcm.nonce_size bytes) (drop gcm.nonce_size bytes))

-- Two algorithms: "ed25519" stands before "rsa2048".
abbrev by_algorithm : List DkimKey → List DkimKey
by_algorithm keys =
    sort_by
      (λ a b. text_eq a.algorithm (codes "ed25519") || not (text_eq b.algorithm (codes "ed25519")))
      keys

abbrev is_key_of : (DomainRow → Bool) → Db → DkimKey → Bool
is_key_of p db k = k.is_active && any (λ d. d.id == k.domain_id && p d) db.domains

unfoldable pub domain_keys : Text → Db → List DkimKey
domain_keys name db = by_algorithm (select (is_key_of (λ d. text_eq d.domain name) db) db.keys)

unfoldable pub primary_keys : Db → List DkimKey
primary_keys db = by_algorithm (select (is_key_of (λ d. d.is_primary) db) db.keys)
