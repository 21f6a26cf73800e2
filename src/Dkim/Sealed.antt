-- ===== src/Dkim/Sealed.antt =====
-- Keys at rest, and what signing does to a message.
use rookery.Base.{
  subst, ◌≡◌, refl, false, Option, none, some, List, [], ◌∷◌, ◌++◌, arith, Text, length, take, drop,
  ltb, Result, ok, err, append_assoc, sym, ap, ◌∙◌, length-append,
}
use rookery.Dkim.{Gcm, encrypt_key, decrypt_key, DkimKey, Db, domain_keys, primary_keys}
use rookery.Dkim.Signatures.{
  Signer, Signing, signed_or, sign_loaded, sign_with, sign_all, sign_read, sign_fallback,
  sign_found, sign, load_signer,
}

take-append : (a b : Text) → take (length a) (a ++ b) ≡ a
take-append [] b = refl
take-append (x ∷ a) b = ap (λ s. x ∷ s) (take-append a b)

drop-append : (a b : Text) → drop (length a) (a ++ b) ≡ b
drop-append [] b = refl
drop-append (x ∷ a) b = drop-append a b

-- A sealed key is opened again with the key that it was sealed with: what is stored is read back.
-- The cipher opens what it has sealed, and the nonce has the cipher's length.
pub decrypt_key-encrypt_key :
    (gcm : Gcm) (key nonce plaintext bytes : Text)
    → ((k n p : Text) → gcm.unseal k n (gcm.seal k n p) ≡ some p)
    → length nonce ≡ gcm.nonce_size
    → encrypt_key gcm key (ok nonce) plaintext ≡ ok bytes
    → decrypt_key gcm key bytes ≡ ok plaintext
unfolding encrypt_key decrypt_key
decrypt_key-encrypt_key gcm key nonce plaintext bytes opens size h =
    let sealed : nonce ++ gcm.seal key nonce plaintext ≡ bytes = ground arith in
    let long = length-append nonce (gcm.seal key nonce plaintext) in
    let enough : ltb (length (nonce ++ gcm.seal key nonce plaintext)) gcm.nonce_size ≡ false =
      ground (arith, long) in
    subst (λ b. decrypt_key gcm key b ≡ ok plaintext) sealed
      (rw
        (
          enough,
          sym size,
          take-append nonce (gcm.seal key nonce plaintext),
          drop-append nonce (gcm.seal key nonce plaintext),
          opens key nonce plaintext,
        )
        refl)

-- A message with something before it.
abbrev pub IsExtended : Text → Text → Type 0
IsExtended message out = (headers : Text) × (out ≡ headers ++ message)

IsExtended-trans : (a b c : Text) → IsExtended a b → IsExtended b c → IsExtended a c
IsExtended-trans a b c (g, e) (h, f) = (h ++ g, f ∙ ap (λ s. h ++ s) e ∙ sym (append_assoc h g a))

module _ (s : Signing) (domain : Text)
    (prepends : (selector : Text) (signer : Signer) (m out : Text)
      → s.sign domain selector signer m ≡ ok out
      → IsExtended m out) where
  sign_with-IsExtended : (k : DkimKey) (m : Text) → IsExtended m (sign_with s domain k m)
  unfolding sign_with
  sign_with-IsExtended k m = go (load_signer s.gcm s.key s.parse_pkcs8 k)
    where
      signed :
          (r : Result Text)
          → ((out : Text) → r ≡ ok out → IsExtended m out)
          → IsExtended m (signed_or m r)
      signed (err e) h = ([], refl)
      signed (ok out) h = h out refl

      go : (r : Result Signer) → IsExtended m (sign_loaded s domain k m r)
      go (err e) = ([], refl)
      go (ok signer) = signed (s.sign domain k.selector signer m) (prepends k.selector signer m)

  sign_all-IsExtended : (ks : List DkimKey) (m : Text) → IsExtended m (sign_all s domain ks m)
  unfolding sign_all
  sign_all-IsExtended [] m = ([], refl)
  sign_all-IsExtended (k ∷ ks) m =
      IsExtended-trans m (sign_with s domain k m) (sign_all s domain ks (sign_with s domain k m))
        (sign_with-IsExtended k m) (sign_all-IsExtended ks (sign_with s domain k m))

  -- What is signed ends in the message as it was, whichever keys there are, and also where a key cannot
  -- be loaded or a signature fails. The signing library puts a signature before the message it is given.
  pub sign-IsExtended :
      (message out : Text) (db : Db) → sign s domain message db ≡ ok out → IsExtended message out
  unfolding sign
  sign-IsExtended message out db h = go s.load_err (domain_keys domain db) h
    where
      read :
          (ks : List DkimKey) (e : Option Text)
          → sign_read s domain ks message e ≡ ok out
          → IsExtended message out
      read ks (some e) h = cc
      read ks none h =
          let (headers, is) = sign_all-IsExtended ks message in
          let same : sign_all s domain ks message ≡ out = ground arith in (headers, sym same ∙ is)

      fallback :
          (e : Option Text) (ks : List DkimKey)
          → sign_fallback s domain message e ks ≡ ok out
          → IsExtended message out
      fallback (some e) ks h = cc
      fallback none [] h = let same : message ≡ out = ground arith in ([], sym same)
      fallback none (k ∷ ks) h = read (k ∷ ks) s.read_err h

      go :
          (e : Option Text) (ks : List DkimKey)
          → sign_found s domain message db e ks ≡ ok out
          → IsExtended message out
      go (some e) ks h = cc
      go none [] h = fallback s.fallback_err (primary_keys db) h
      go none (k ∷ ks) h = read (k ∷ ks) s.read_err h
