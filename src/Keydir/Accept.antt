-- ===== src/Keydir/Accept.antt =====
-- Which armored texts are accepted as a public key.
use rookery.Base.{
  ℕ, ◌≤◌, ◌≡◌, ◌⊎◌, inl, inr, refl, false, Option, none, some, List, [], ◌∷◌, arith, Text, codes,
  text_eq, text_eq_iff, Result, ok, err, Bool-cases,
}
use rookery.Keydir.{
  with_fingerprint, Algorithm, eddsa, rsa, rsa_encrypt_only, rsa_sign_only, other, PublicKey,
  Entity, Block, rsa_string, algorithm_string, parse_primary, parse_entities, parse_public_key,
}

-- EdDSA, or RSA with a known size of at least 3072 bits.
abbrev pub IsStrong : PublicKey → Type 0
IsStrong pk =
    (pk.algorithm ≡ eddsa)
    ⊎ (((pk.algorithm ≡ rsa) ⊎ (pk.algorithm ≡ rsa_encrypt_only) ⊎ (pk.algorithm ≡ rsa_sign_only))
        × ((bits : ℕ) × (pk.bit_length ≡ ok bits) × (3072 ≤ bits)))

rsa_string_ok :
    (b : Result ℕ) (algo : Text) → rsa_string b ≡ ok algo → (n : ℕ) × (b ≡ ok n) × (3072 ≤ n)
unfolding rsa_string
rsa_string_ok (err e) algo h = cc
rsa_string_ok (ok n) algo h = (n, refl, ground arith)

algorithm_ok :
    (a : Algorithm) (b : Result ℕ) (fp algo : Text)
    → algorithm_string a b ≡ ok algo
    → IsStrong (record { algorithm = a; bit_length = b; fingerprint = fp })
unfolding algorithm_string
algorithm_ok eddsa b fp algo h = inl refl
algorithm_ok rsa b fp algo h = inr (inl refl, rsa_string_ok b algo h)
algorithm_ok rsa_encrypt_only b fp algo h = inr (inr (inl refl), rsa_string_ok b algo h)
algorithm_ok rsa_sign_only b fp algo h = inr (inr (inr refl), rsa_string_ok b algo h)
algorithm_ok (other n) b fp algo h = cc

parse_primary_ok :
    (o : Option PublicKey) (fp algo : Text)
    → parse_primary o ≡ ok (fp, algo)
    → (pk : PublicKey) × (o ≡ some pk) × IsStrong pk × (fp ≡ pk.fingerprint)
unfolding parse_primary
parse_primary_ok none fp algo h = cc
parse_primary_ok (some pk) fp algo h = go (algorithm_string pk.algorithm pk.bit_length) refl h
  where
    go :
        (r : Result Text)
        → algorithm_string pk.algorithm pk.bit_length ≡ r
        → with_fingerprint pk.fingerprint r ≡ ok (fp, algo)
        → (k : PublicKey) × (◌≡◌ {A = Option PublicKey} (some pk) (some k))
          × IsStrong k
          × (fp ≡ k.fingerprint)
    go (err e) q k = cc
    go (ok a) q k =
        (pk, refl, algorithm_ok pk.algorithm pk.bit_length pk.fingerprint a q, ground arith)

parse_entities_ok :
    (r : Result (List Entity)) (fp algo : Text)
    → parse_entities r ≡ ok (fp, algo)
    → (e : Entity) × (r ≡ ok (e ∷ []))
      × (e.has_private_key ≡ false)
      × ((pk : PublicKey) × (e.primary_key ≡ some pk) × IsStrong pk × (fp ≡ pk.fingerprint))
unfolding parse_entities
parse_entities_ok (err e) fp algo h = cc
parse_entities_ok (ok []) fp algo h = cc
parse_entities_ok (ok (e ∷ f ∷ es)) fp algo h = cc
parse_entities_ok (ok (e ∷ [])) fp algo h = elim (Bool-cases (e.has_private_key)) [
  | inl secret ↦ absurd (ground arith)
  | inr clear ↦ (e, refl, clear, parse_primary_ok (e.primary_key) fp algo (ground arith))
]

-- A text that is accepted is one armored public-key block with exactly one key in it, without its
-- secret part, and that key is EdDSA or RSA of at least 3072 bits; the fingerprint is the key's.
pub parse_public_key_ok :
    (quote : Text → Text) (r : Result Block) {fp algo : Text}
    → parse_public_key quote r ≡ ok (fp, algo)
    → (b : Block) × (e : Entity) × (pk : PublicKey) × (r ≡ ok b)
      × (b.kind ≡ codes "PGP PUBLIC KEY BLOCK")
      × (b.entities ≡ ok (e ∷ []))
      × (e.has_private_key ≡ false)
      × (e.primary_key ≡ some pk)
      × IsStrong pk
      × (fp ≡ pk.fingerprint)
unfolding parse_public_key
parse_public_key_ok quote (err e) h = cc
parse_public_key_ok quote (ok b) {fp} {algo} h =
    elim (Bool-cases (text_eq b.kind (codes "PGP PUBLIC KEY BLOCK"))) [
      | inr wrong ↦ absurd (ground arith)
      | inl right ↦
          let (e, only, clear, (pk, has, strong, same)) =
            parse_entities_ok (b.entities) fp algo (rw right at h) in
          (b, e, pk, refl, (text_eq_iff _ _).0 right, only, clear, has, strong, same)
    ]
