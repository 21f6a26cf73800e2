-- ===== src/Dkim/Tests.antt =====
-- internal/dkim with a cipher that puts the key before the text, and a library that writes one header.
use rookery.Base.{
  Text, ℕ, List, arith, ◌≡◌, refl, true, none, some, [], ◌∷◌, ◌++◌, codes, cut_prefix,
  cut_prefix-append, ok, text_eq, sort_by,
}
use rookery.Dkim.{DkimKey, Gcm, encrypt_key, decrypt_key, Db, domain_keys, primary_keys}
use rookery.Dkim.Signatures.{Signing, sign, sign_all, sign_with, load_signer, signer_of}
use rookery.Dkim.Renewed.{Rotation, collect, set_enc, update_all, re_encrypt_keys}
use rookery.Dkim.Renewed.Kept.{opened_with, re_encrypt_keys_opens}
use rookery.Dkim.Sealed.{IsExtended, decrypt_key-encrypt_key, sign-IsExtended}

abbrev cipher : Gcm
cipher = record {
  nonce_size = 2;
  seal = λ key nonce plaintext. key ++ plaintext;
  unseal = λ key nonce ciphertext. cut_prefix ciphertext key;
}

decrypt_key-encrypt_key_example :
    decrypt_key cipher (codes "k") (codes "nnksecret") ≡ ok (codes "secret")
decrypt_key-encrypt_key_example =
    decrypt_key-encrypt_key cipher (codes "k") (codes "nn") (codes "secret") (codes "nnksecret")
      (λ k n p. cut_prefix-append k p) refl (unfold encrypt_key in refl)

abbrev sealed_key : ℕ → Text → DkimKey
sealed_key id enc = record {
  id = id;
  domain_id = 1;
  selector = codes "rookery-rsa";
  algorithm = codes "rsa2048";
  public_key_der = codes "pub";
  private_key_enc = enc;
  is_active = true;
}

abbrev tables : Db
tables = record {
  domains = record { id = 1; domain = codes "a.b"; is_primary = true } ∷ [];
  keys = sealed_key 2 (codes "nnksecret") ∷ [];
}

abbrev signing : Signing
signing = record {
  gcm = cipher;
  key = codes "k";
  parse_pkcs8 = λ raw. ok (some raw);
  sign = λ domain selector signer message. ok (codes "S" ++ message);
  load_err = none;
  fallback_err = none;
  read_err = none;
}

signed_message : sign signing (codes "c.d") (codes "mail") tables ≡ ok (codes "Smail")
unfolding sign domain_keys primary_keys sign_all sign_with load_signer signer_of decrypt_key text_eq
    cut_prefix sort_by
signed_message = refl

sign-IsExtended_example : IsExtended (codes "mail") (codes "Smail")
sign-IsExtended_example =
    sign-IsExtended signing (codes "c.d") (λ selector signer m out h. (codes "S", ground arith))
      (codes "mail") (codes "Smail") tables signed_message

abbrev sealed_keys : List DkimKey
sealed_keys = sealed_key 2 (codes "nnksecret") ∷ sealed_key 3 (codes "mmkother") ∷ []

abbrev rotation : Rotation
rotation = record {
  gcm = cipher;
  old_key = codes "k";
  new_key = codes "q";
  random = λ id. ok (codes "pp");
  id_text = λ id. codes "id";
  query_err = none;
  iterate_err = none;
  update_err = λ id. none;
}

re_encrypt_keys_opens_example :
    opened_with cipher (codes "q") (re_encrypt_keys rotation sealed_keys).1
    ≡ opened_with cipher (codes "k") sealed_keys
re_encrypt_keys_opens_example =
    re_encrypt_keys_opens rotation sealed_keys 2 (λ k n p. cut_prefix-append k p)
      (λ i nonce h. ground arith) (((λ e. ground arith), tt), (tt, tt))
      (unfold re_encrypt_keys collect set_enc update_all decrypt_key encrypt_key cut_prefix in refl)
