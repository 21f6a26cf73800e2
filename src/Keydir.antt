-- ===== src/Keydir.antt =====
-- internal/keydir/keydir.go: the name under which a key is published (internal/discovery has a copy of
-- it), and which public keys are accepted. The OpenPGP reader is a parameter.
pub mod ZBase32
pub mod Accept
mod Tests
use rookery.Base.{
  ℕ, zero, suc, ◌+◌, ◌-◌, ◌*◌, ◌/◌, ◌%◌, ◌^◌, Bool, true, false, Option, none, some, List, [], ◌∷◌,
  ◌++◌, Text, codes, length, take, get_elem?, text_eq, to_lower, ltb, if◌then◌else◌, Result, ok,
  err, is_none, not,
}
use rookery.Smtp.Client.{itoa}

abbrev pub z_base32_alphabet : Text
z_base32_alphabet = codes "ybndrfg8ejkmcpqxot1uwisza345h769"

abbrev char_or_zero : Option ℕ → ℕ
char_or_zero none = 0
char_or_zero (some c) = c

-- zBase32Alphabet[i]
unfoldable pub z_char : ℕ → ℕ
z_char i = char_or_zero (get_elem? z_base32_alphabet i)

abbrev pub replicate_zero : ℕ → Text
replicate_zero zero = []
replicate_zero (suc n) = 0 ∷ replicate_zero n

-- make([]byte, (len(src)+4)/5*5), filled from the front with src
unfoldable pub pad : Text → Text
pad src = src ++ replicate_zero ((length src + 4) / 5 * 5 - length src)

-- The big-endian number of five bytes.
abbrev pub group_number : (a b c d e : ℕ) → ℕ
group_number a b c d e = (((a * 256 + b) * 256 + c) * 256 + d) * 256 + e

-- The five bits of n from position 5 * j.
abbrev pub quintet : ℕ → ℕ → ℕ
quintet n p = n / p % 32

unfoldable pub encode_group : ℕ → Text
encode_group n =
    z_char (quintet n 34359738368)
    ∷ z_char (quintet n 1073741824)
    ∷ z_char (quintet n 33554432)
    ∷ z_char (quintet n 1048576)
    ∷ z_char (quintet n 32768)
    ∷ z_char (quintet n 1024)
    ∷ z_char (quintet n 32)
    ∷ z_char (quintet n 1)
    ∷ []

unfoldable pub encode_groups : Text → Text
encode_groups (a ∷ b ∷ c ∷ d ∷ e ∷ rest) =
    encode_group (group_number a b c d e) ++ encode_groups rest
encode_groups _ = []

unfoldable pub z_base32_encode : Text → Text
z_base32_encode src = take ((length src * 8 + 4) / 5) (encode_groups (pad src))

-- WKDHash; SHA-1 is the standard library's.
unfoldable pub wkd_hash : (Text → Text) → Text → Text
wkd_hash sha1 local_part = z_base32_encode (sha1 (to_lower local_part))

-- What the OpenPGP reader says of an entity.
pub data Algorithm : Type 0 where
  eddsa rsa rsa_encrypt_only rsa_sign_only : Algorithm
  other : ℕ → Algorithm

pub record PublicKey : Type 0 where
  pub algorithm : Algorithm
  pub bit_length : Result ℕ
  pub fingerprint : Text

pub record Entity : Type 0 where
  pub has_private_key : Bool
  pub primary_key : Option PublicKey

pub record Block : Type 0 where
  pub kind : Text
  pub entities : Result (List Entity)

unfoldable pub rsa_string : Result ℕ → Result Text
rsa_string (err e) = err (codes "keydir: could not determine RSA key size: " ++ e)
rsa_string (ok bits) =
    if ltb bits 3072
    then err (
        codes "keydir: RSA keys must be at least 3072 bits (got "
        ++ itoa bits
        ++ codes "); generate a new Curve25519 key instead")
    else ok (codes "rsa" ++ itoa bits)

unfoldable pub algorithm_string : Algorithm → Result ℕ → Result Text
algorithm_string eddsa bits = ok (codes "cv25519+ed25519")
algorithm_string rsa bits = rsa_string bits
algorithm_string rsa_encrypt_only bits = rsa_string bits
algorithm_string rsa_sign_only bits = rsa_string bits
algorithm_string (other n) bits =
    err (
      codes "keydir: unsupported algorithm "
      ++ itoa n
      ++ codes "; use Curve25519 (ed25519+cv25519)")

abbrev pub with_fingerprint : Text → Result Text → Result (Text × Text)
with_fingerprint fp (err e) = err e
with_fingerprint fp (ok algo) = ok (fp, algo)

unfoldable pub parse_primary : Option PublicKey → Result (Text × Text)
parse_primary none = err (codes "keydir: key has no primary key packet")
parse_primary (some pk) =
    with_fingerprint pk.fingerprint (algorithm_string pk.algorithm pk.bit_length)

unfoldable pub parse_entities : Result (List Entity) → Result (Text × Text)
parse_entities (err e) = err (codes "keydir: read key ring: " ++ e)
parse_entities (ok []) = err (codes "keydir: no keys found in armored block")
parse_entities (ok (e ∷ [])) =
    if e.has_private_key
    then err (codes "keydir: refusing to store a private key")
    else parse_primary e.primary_key
parse_entities (ok (e ∷ f ∷ es)) =
    err (
      codes "keydir: armored block must contain exactly one key, got "
      ++ itoa (length (e ∷ f ∷ es)))

-- The armor reader gives a block or an error; `quote` is %q.
unfoldable pub parse_public_key : (quote : Text → Text) → Result Block → Result (Text × Text)
parse_public_key quote (err e) = err (codes "keydir: parse armor: " ++ e)
parse_public_key quote (ok block) =
    if text_eq block.kind (codes "PGP PUBLIC KEY BLOCK")
    then parse_entities block.entities
    else err (codes "keydir: expected PUBLIC KEY BLOCK, got " ++ quote block.kind)
