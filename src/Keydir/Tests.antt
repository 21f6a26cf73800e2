-- ===== src/Keydir/Tests.antt =====
-- Keys and names of internal/keydir.
use rookery.Base.{◌≡◌, refl, false, some, [], ◌∷◌, codes, text_eq, Result, ok, err}
use rookery.Keydir.{
  eddsa, PublicKey, Entity, Block, algorithm_string, parse_primary, parse_entities,
  parse_public_key, z_base32_encode, encode_groups, encode_group, z_char, pad,
}
use rookery.Keydir.Accept.{IsStrong, parse_public_key_ok}

abbrev key : PublicKey
key = record { algorithm = eddsa; bit_length = err (codes "no RSA"); fingerprint = codes "AB" }

abbrev entity : Entity
entity = record { has_private_key = false; primary_key = some key }

abbrev block : Block
block = record { kind = codes "PGP PUBLIC KEY BLOCK"; entities = ok (entity ∷ []) }

parse_public_key_ok_example :
    (b : Block) × (e : Entity) × (pk : PublicKey) × (◌≡◌ {A = Result Block} (ok block) (ok b))
    × (b.kind ≡ codes "PGP PUBLIC KEY BLOCK")
    × (b.entities ≡ ok (e ∷ []))
    × (e.has_private_key ≡ false)
    × (e.primary_key ≡ some pk)
    × IsStrong pk
    × (codes "AB" ≡ pk.fingerprint)
parse_public_key_ok_example =
    parse_public_key_ok (λ s. s) (ok block) {fp = codes "AB"} {algo = codes "cv25519+ed25519"}
      (unfold parse_public_key text_eq parse_entities parse_primary algorithm_string in refl)

-- One byte is two characters.
encode_byte : z_base32_encode (codes "\n") ≡ codes "be"
unfolding z_base32_encode encode_groups encode_group z_char pad
encode_byte = refl
