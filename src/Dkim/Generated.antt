-- ===== src/Dkim/Generated.antt =====
-- internal/dkim/dkim.go: `EnsureKeys` and the DNS records of the keys.
use rookery.Base.{
  ℕ, Bool, true, ◌&&◌, Option, none, some, List, [], ◌∷◌, ◌++◌, Text, codes, text_eq, leb, ◌==◌,
  if◌then◌else◌, any, select, map, length, Result, ok, err,
}
use rookery.Dkim.{DkimKey, Db, Gcm, encrypt_key, domain_keys}

-- What the generation of a pair takes from outside: the nonce, the public and the private key.
pub record KeyPair : Type 0 where
  pub random : Result Text
  pub public_key : Text
  pub private_key : Text

abbrev has_selector : ℕ → Text → DkimKey → Bool
has_selector domain selector k = k.domain_id == domain && text_eq k.selector selector

-- ON CONFLICT (domain_id, selector) DO NOTHING
unfoldable pub insert_key : DkimKey → List DkimKey → List DkimKey
insert_key k keys = if any (has_selector k.domain_id k.selector) keys then keys else keys ++ k ∷ []

abbrev stored : Option Text → DkimKey → Db → Option Text × Db
stored (some e) k db = (some e, db)
stored none k db = (none, record db { keys = insert_key k db.keys })

abbrev key_row : (id domain : ℕ) → (selector algorithm public_key enc : Text) → DkimKey
key_row id domain selector algorithm public_key enc = record {
  id = id;
  domain_id = domain;
  selector = selector;
  algorithm = algorithm;
  public_key_der = public_key;
  private_key_enc = enc;
  is_active = true;
}

abbrev store_sealed :
    (id domain : ℕ)
    → (selector algorithm : Text) → KeyPair
    → Option Text
    → Result Text
    → Db
    → Option Text × Db
store_sealed id domain selector algorithm p e (err x) db =
    (some (codes "dkim: encrypt key: " ++ x), db)
store_sealed id domain selector algorithm p e (ok enc) db =
    stored e (key_row id domain selector algorithm p.public_key enc) db

unfoldable pub store_key :
    Gcm
    → (key : Text) → (id domain : ℕ) → (selector algorithm : Text) → KeyPair
    → Option Text
    → Db
    → Option Text × Db
store_key gcm key id domain selector algorithm p e db =
    store_sealed id domain selector algorithm p e (encrypt_key gcm key p.random p.private_key) db

-- What `EnsureKeys` takes from outside: the generators, the ids of the rows, the database's errors.
pub record Generation : Type 0 where
  pub gcm : Gcm
  pub key : Text
  pub count_err : Option Text
  pub ed25519 : Result KeyPair
  pub rsa2048 : Result KeyPair
  pub ed25519_id : ℕ
  pub rsa_id : ℕ
  pub ed25519_err : Option Text
  pub rsa_err : Option Text

abbrev rsa_stored : Option Text × Db → Option Text × Db
rsa_stored (some e, db) = (some (codes "dkim: store rsa key: " ++ e), db)
rsa_stored (none, db) = (none, db)

abbrev add_rsa : Generation → ℕ → Result KeyPair → Db → Option Text × Db
add_rsa g domain (err e) db = (some (codes "dkim: generate rsa2048: " ++ e), db)
add_rsa g domain (ok p) db =
    rsa_stored
      (store_key g.gcm g.key g.rsa_id domain (codes "rookery-rsa") (codes "rsa2048") p g.rsa_err db)

abbrev ed25519_stored : Generation → ℕ → Option Text × Db → Option Text × Db
ed25519_stored g domain (some e, db) = (some (codes "dkim: store ed25519 key: " ++ e), db)
ed25519_stored g domain (none, db) = add_rsa g domain g.rsa2048 db

abbrev add_ed25519 : Generation → ℕ → Result KeyPair → Db → Option Text × Db
add_ed25519 g domain (err e) db = (some (codes "dkim: generate ed25519: " ++ e), db)
add_ed25519 g domain (ok p) db = ed25519_stored g domain (
    store_key g.gcm g.key g.ed25519_id domain (codes "rookery-ed25519") (codes "ed25519") p
      g.ed25519_err db)

abbrev ensure_counted : Generation → ℕ → Option Text → Db → Option Text × Db
ensure_counted g domain (some e) db = (some (codes "dkim: check keys: " ++ e), db)
ensure_counted g domain none db =
    if leb 2 (length (select (λ k. k.domain_id == domain && k.is_active) db.keys))
    then (none, db)
    else add_ed25519 g domain g.ed25519 db

unfoldable pub ensure_keys : Generation → (domain : ℕ) → Db → Option Text × Db
ensure_keys g domain db = ensure_counted g domain g.count_err db

abbrev record_text : (Text → Text) → DkimKey → Text
record_text base64 k =
    codes "v=DKIM1; k="
    ++ (if text_eq k.algorithm (codes "ed25519") then codes "ed25519" else codes "rsa")
    ++ codes "; p="
    ++ base64 k.public_key_der

-- The selector and the text of the TXT record, for each active key.
unfoldable pub dns_records : (base64 : Text → Text) → Text → Db → List (Text × Text)
dns_records base64 name db = map (λ k. (k.selector, record_text base64 k)) (domain_keys name db)
