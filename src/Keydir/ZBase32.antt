-- ===== src/Keydir/ZBase32.antt =====
-- internal/keydir/keydir.go: the z-base-32 text of bytes, its length and a reader for it.
use rookery.Base.{
  inr, inl, Bool-cases, ℕ, zero, suc, ◌+◌, ◌-◌, ◌*◌, ◌/◌, ◌%◌, ◌<◌, ◌≡◌, refl, Bool, true, ◌&&◌, [],
  ◌∷◌, ◌++◌, arith, Text, length, All, ◌==◌, ==_iff, if◌then◌else◌, append-nil, ap, ◌∙◌,
  length-append, length-take_eq, take_all,
}
use rookery.Keydir.{
  z_base32_alphabet, z_char, pad, replicate_zero, group_number, quintet, encode_group,
  encode_groups, z_base32_encode,
}

-- The position of a byte in a text, or the text's length.
abbrev pub index_of : ℕ → Text → ℕ
index_of c [] = 0
index_of c (d ∷ s) = let rest = index_of c s in if d == c then 0 else suc rest

-- A reader for groups of eight characters.
pub z_value : ℕ → ℕ
z_value c = index_of c z_base32_alphabet

-- The first characters of the alphabet are read as their positions.
reads_back : ℕ → Bool
reads_back zero = true
reads_back (suc n) = reads_back n && (z_value (z_char n) == n)

value-char : (n i : ℕ) → i < n → reads_back n ≡ true → z_value (z_char i) ≡ i
unfolding reads_back
value-char zero i below h = absurd (omega arith)
value-char (suc n) i below h = elim (Bool-cases (i == n)) [
  | inl last ↦ rw ((==_iff i n).0 last) ((==_iff _ n).0 (ground arith))
  | inr before ↦ value-char n i (ground arith) (ground arith)
]

alphabet_reads_back : reads_back 32 ≡ true
unfolding reads_back z_value z_char
alphabet_reads_back = refl

z_value-z_char : (i : ℕ) → i < 32 → z_value (z_char i) ≡ i
z_value-z_char i h = value-char 32 i h alphabet_reads_back

pub recompose : (x7 x6 x5 x4 x3 x2 x1 x0 : ℕ) → ℕ
recompose x7 x6 x5 x4 x3 x2 x1 x0 =
    ((((((x7 * 32 + x6) * 32 + x5) * 32 + x4) * 32 + x3) * 32 + x2) * 32 + x1) * 32 + x0

-- Eight characters are five bytes.
unfoldable pub decode_groups : Text → Text
decode_groups (c7 ∷ c6 ∷ c5 ∷ c4 ∷ c3 ∷ c2 ∷ c1 ∷ c0 ∷ rest) =
    let n =
      recompose (z_value c7) (z_value c6) (z_value c5) (z_value c4) (z_value c3) (z_value c2)
        (z_value c1) (z_value c0) in
    (n / 4294967296)
    ∷ (n / 16777216 % 256)
    ∷ (n / 65536 % 256)
    ∷ (n / 256 % 256)
    ∷ (n % 256)
    ∷ decode_groups rest
decode_groups _ = []

recompose-quintet :
    (n : ℕ)
    → n < 1099511627776
    → recompose
        (quintet n 34359738368)
        (quintet n 1073741824)
        (quintet n 33554432)
        (quintet n 1048576)
        (quintet n 32768)
        (quintet n 1024)
        (quintet n 32)
        (quintet n 1)
      ≡ n
unfolding recompose
recompose-quintet n h = omega arith

decode-encode_group :
    (a b c d e : ℕ) (rest : Text)
    → a < 256
    → b < 256
    → c < 256
    → d < 256
    → e < 256
    → decode_groups (encode_group (group_number a b c d e) ++ rest)
      ≡ a ∷ b ∷ c ∷ d ∷ e ∷ decode_groups rest
unfolding decode_groups encode_group
decode-encode_group a b c d e rest ha hb hc hd he =
    let n = group_number a b c d e in
    let small : n < 1099511627776 = omega arith in
    rw
      (
        z_value-z_char (quintet n 34359738368) (omega arith),
        z_value-z_char (quintet n 1073741824) (omega arith),
        z_value-z_char (quintet n 33554432) (omega arith),
        z_value-z_char (quintet n 1048576) (omega arith),
        z_value-z_char (quintet n 32768) (omega arith),
        z_value-z_char (quintet n 1024) (omega arith),
        z_value-z_char (quintet n 32) (omega arith),
        z_value-z_char (quintet n 1) (omega arith),
        recompose-quintet n small,
      )
      (ground arith)

length-encode_group : (n : ℕ) (rest : Text) → length (encode_group n ++ rest) ≡ 8 + length rest
unfolding encode_group
length-encode_group n rest = omega arith

length-encode_groups : (s : Text) → length (encode_groups s) ≡ length s / 5 * 8
unfolding encode_groups
length-encode_groups (a ∷ b ∷ c ∷ d ∷ e ∷ rest) = omega (
  arith,
  length-encode_group (group_number a b c d e) (encode_groups rest),
  length-encode_groups rest,
)
length-encode_groups [] = omega arith
length-encode_groups (a ∷ []) = omega arith
length-encode_groups (a ∷ b ∷ []) = omega arith
length-encode_groups (a ∷ b ∷ c ∷ []) = omega arith
length-encode_groups (a ∷ b ∷ c ∷ d ∷ []) = omega arith

length-replicate_zero : (n : ℕ) → length (replicate_zero n) ≡ n
length-replicate_zero zero = refl
length-replicate_zero (suc n) = ap suc (length-replicate_zero n)

length-pad : (s : Text) → length (pad s) ≡ (length s + 4) / 5 * 5
unfolding pad
length-pad s =
    let n = (length s + 4) / 5 * 5 - length s in
    omega (arith, length-append s (replicate_zero n), length-replicate_zero n)

-- The text has one character for each five bits, the last ones filled up.
pub length-z_base32_encode : (s : Text) → length (z_base32_encode s) ≡ (length s * 8 + 4) / 5
unfolding z_base32_encode
length-z_base32_encode s =
    length-take_eq _ (encode_groups (pad s))
      (omega (arith, length-encode_groups (pad s), length-pad s))

abbrev pub IsByte : ℕ → Type 0
IsByte b = b < 256

decode-encode_groups :
    (s : Text) → All IsByte s → length s % 5 ≡ 0 → decode_groups (encode_groups s) ≡ s
unfolding encode_groups
decode-encode_groups (a ∷ b ∷ c ∷ d ∷ e ∷ rest) h k =
    decode-encode_group a b c d e (encode_groups rest) h.0 h.1.0 h.1.1.0 h.1.1.1.0 h.1.1.1.1.0
    ∙ ap (λ l. a ∷ b ∷ c ∷ d ∷ e ∷ l) (decode-encode_groups rest h.1.1.1.1.1 (omega arith))
decode-encode_groups [] h k = unfold decode_groups in refl
decode-encode_groups (a ∷ []) h k = absurd (omega arith)
decode-encode_groups (a ∷ b ∷ []) h k = absurd (omega arith)
decode-encode_groups (a ∷ b ∷ c ∷ []) h k = absurd (omega arith)
decode-encode_groups (a ∷ b ∷ c ∷ d ∷ []) h k = absurd (omega arith)

-- Bytes whose number is a multiple of five, as the twenty of SHA-1, are read back from their text.
pub decode-z_base32_encode :
    (s : Text) → All IsByte s → length s % 5 ≡ 0 → decode_groups (z_base32_encode s) ≡ s
unfolding z_base32_encode pad
decode-z_base32_encode s h k =
    let none_left : (length s + 4) / 5 * 5 - length s ≡ 0 = omega arith in
    rw none_left (
      rw append-nil (
        rw
          (take_all ((length s * 8 + 4) / 5) (encode_groups s)
            (omega (arith, length-encode_groups s)))
          (decode-encode_groups s h k)))
