-- ===== src/Dkim/Signatures.antt =====
-- internal/dkim/dkim.go: `Sign` and the loading of private keys.
use rookery.Base.{
  ℕ, Option, none, some, List, [], ◌∷◌, ◌++◌, Text, codes, text_eq, ◌==◌, if◌then◌else◌, length,
  Result, ok, err,
}
use rookery.Dkim.{DkimKey, Db, Gcm, decrypt_key, domain_keys, primary_keys}

-- A private key that signs.
pub data Signer : Type 0 where
  ed25519_signer rsa_signer : Text → Signer

abbrev rsa_parsed : Result (Option Text) → Result Signer
rsa_parsed (err e) = err (codes "dkim: parse rsa private key: " ++ e)
rsa_parsed (ok none) = err (codes "dkim: expected *rsa.PrivateKey")
rsa_parsed (ok (some k)) = ok (rsa_signer k)

abbrev pub ed25519_size : ℕ
ed25519_size = 64

-- `parse_pkcs8` gives the RSA key, or none for a key of another kind.
unfoldable pub signer_of :
    (parse_pkcs8 : Text → Result (Option Text)) → (algorithm : Text) → (raw : Text) → Result Signer
signer_of parse_pkcs8 algorithm raw =
    if text_eq algorithm (codes "ed25519")
    then if length raw == ed25519_size
      then ok (ed25519_signer raw)
      else err (codes "dkim: ed25519 key wrong size")
    else if text_eq algorithm (codes "rsa2048")
    then rsa_parsed (parse_pkcs8 raw)
    else err (codes "dkim: unknown algorithm " ++ algorithm)

abbrev with_raw : (Text → Result Signer) → Result Text → Result Signer
with_raw f (err e) = err (codes "dkim: decrypt key: " ++ e)
with_raw f (ok raw) = f raw

unfoldable pub load_signer :
    Gcm → (key : Text) → (Text → Result (Option Text)) → DkimKey → Result Signer
load_signer gcm key parse k =
    with_raw (signer_of parse k.algorithm) (decrypt_key gcm key k.private_key_enc)

-- What signing takes from outside; `sign` puts a signature before a message.
pub record Signing : Type 0 where
  pub gcm : Gcm
  pub key : Text
  pub parse_pkcs8 : Text → Result (Option Text)
  pub sign : (domain selector : Text) → Signer → (message : Text) → Result Text
  pub load_err : Option Text
  pub fallback_err : Option Text
  pub read_err : Option Text

abbrev pub signed_or : Text → Result Text → Text
signed_or message (err e) = message
signed_or message (ok signed) = signed

-- A key that cannot be loaded, or whose signature fails, is skipped.
abbrev pub sign_loaded : Signing → Text → DkimKey → Text → Result Signer → Text
sign_loaded s domain k message (err e) = message
sign_loaded s domain k message (ok signer) =
    signed_or message (s.sign domain k.selector signer message)

unfoldable pub sign_with : Signing → Text → DkimKey → Text → Text
sign_with s domain k message =
    sign_loaded s domain k message (load_signer s.gcm s.key s.parse_pkcs8 k)

unfoldable pub sign_all : Signing → Text → List DkimKey → Text → Text
sign_all s domain [] message = message
sign_all s domain (k ∷ ks) message = sign_all s domain ks (sign_with s domain k message)

abbrev pub sign_read : Signing → Text → List DkimKey → Text → Option Text → Result Text
sign_read s domain keys message (some e) = err (codes "dkim: read message: " ++ e)
sign_read s domain keys message none = ok (sign_all s domain keys message)

-- Without keys at all the message is left as it is.
abbrev pub sign_fallback : Signing → Text → Text → Option Text → List DkimKey → Result Text
sign_fallback s domain message (some e) keys = err (codes "dkim: load primary fallback keys: " ++ e)
sign_fallback s domain message none [] = ok message
sign_fallback s domain message none (k ∷ ks) = sign_read s domain (k ∷ ks) message s.read_err

abbrev pub sign_found : Signing → Text → Text → Db → Option Text → List DkimKey → Result Text
sign_found s domain message db (some e) keys = err (codes "dkim: load keys: " ++ e)
sign_found s domain message db none [] =
    sign_fallback s domain message s.fallback_err (primary_keys db)
sign_found s domain message db none (k ∷ ks) = sign_read s domain (k ∷ ks) message s.read_err

-- `Sign`: a domain without keys of its own is signed for with those of the primary domain.
unfoldable pub sign : Signing → Text → Text → Db → Result Text
sign s domain message db = sign_found s domain message db s.load_err (domain_keys domain db)
