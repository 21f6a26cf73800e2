-- ===== src/Dkim/Renewed.antt =====
-- internal/dkim/dkim.go: `ReEncryptKeys`.
pub mod Kept
use rookery.Base.{
  ◌||◌, ℕ, suc, ◌+◌, Bool, true, false, ◌&&◌, not, Option, none, some, List, [], ◌∷◌, ◌++◌, Text,
  codes, text_eq, ltb, leb, ◌==◌, if◌then◌else◌, any, select, find_first, map, length, take, drop,
  sort_by, Result, ok, err,
}
use rookery.Dkim.{DomainRow, DkimKey, Db, Gcm, encrypt_key, decrypt_key, domain_keys, primary_keys}

-- A key under re-encryption: its new ciphertext, which `UPDATE ... WHERE id = $2` is to write.
pub record Pending : Type 0 where
  pub id : ℕ
  pub new_enc : Text

-- What a re-encryption takes from outside: the two managers' cipher and keys, the nonce of each row,
-- how an id is printed, and the database's errors.
pub record Rotation : Type 0 where
  pub gcm : Gcm
  pub old_key : Text
  pub new_key : Text
  pub random : ℕ → Result Text
  pub id_text : ℕ → Text
  pub query_err : Option Text
  pub iterate_err : Option Text
  pub update_err : ℕ → Option Text

abbrev pub and_pending : ℕ → Result Text → Result (List Pending) → Result (List Pending)
and_pending id (err e) rest = err e
and_pending id (ok enc) (err e) = err e
and_pending id (ok enc) (ok work) = ok (record { id = id; new_enc = enc } ∷ work)

abbrev pub with_key : (prefix id : Text) → Result Text → Result Text
with_key prefix id (err e) = err (prefix ++ id ++ codes ": " ++ e)
with_key prefix id (ok r) = ok r

abbrev pub again : Rotation → ℕ → Result Text → Result Text
again r id (err e) = err (codes "dkim: re-encrypt: decrypt key " ++ r.id_text id ++ codes ": " ++ e)
again r id (ok plain) =
    with_key (codes "dkim: re-encrypt: re-encrypt key ") (r.id_text id)
      (encrypt_key r.gcm r.new_key (r.random id) plain)

-- The first pass: every key is decrypted with the old key and sealed with the new one.
unfoldable pub collect : Rotation → List DkimKey → Result (List Pending)
collect r [] = ok []
collect r (k ∷ ks) =
    and_pending k.id (again r k.id (decrypt_key r.gcm r.old_key k.private_key_enc)) (collect r ks)

unfoldable pub set_enc : Pending → List DkimKey → List DkimKey
set_enc w [] = []
set_enc w (k ∷ ks) =
    let rest = set_enc w ks in
    if k.id == w.id then record k { private_key_enc = w.new_enc } ∷ rest else k ∷ rest

-- The second pass; an error leaves the updates before it.
abbrev pub update_next :
    Rotation
    → Option Text
    → (List DkimKey → Option Text × List DkimKey)
    → Pending
    → List DkimKey
    → Option Text × List DkimKey
update_next r (some e) rest w keys =
    (some (codes "dkim: re-encrypt: update key " ++ r.id_text w.id ++ codes ": " ++ e), keys)
update_next r none rest w keys = rest (set_enc w keys)

unfoldable pub update_all : Rotation → List Pending → List DkimKey → Option Text × List DkimKey
update_all r [] keys = (none, keys)
update_all r (w ∷ ws) keys = update_next r (r.update_err w.id) (λ keys. update_all r ws keys) w keys

abbrev pub counted : ℕ → Option Text × List DkimKey → Result ℕ × List DkimKey
counted n (some e, keys) = (err e, keys)
counted n (none, keys) = (ok n, keys)

abbrev pub re_encrypt_collected :
    Rotation → Option Text → Result (List Pending) → List DkimKey → Result ℕ × List DkimKey
re_encrypt_collected r iterate (err e) keys = (err e, keys)
re_encrypt_collected r (some e) (ok work) keys =
    (err (codes "dkim: re-encrypt: iterate: " ++ e), keys)
re_encrypt_collected r none (ok work) keys = counted (length work) (update_all r work keys)

abbrev pub re_encrypt_queried : Rotation → Option Text → List DkimKey → Result ℕ × List DkimKey
re_encrypt_queried r (some e) keys = (err (codes "dkim: re-encrypt: query: " ++ e), keys)
re_encrypt_queried r none keys = re_encrypt_collected r r.iterate_err (collect r keys) keys

-- `ReEncryptKeys`, on the rows of the table.
unfoldable pub re_encrypt_keys : Rotation → List DkimKey → Result ℕ × List DkimKey
re_encrypt_keys r keys = re_encrypt_queried r r.query_err keys
