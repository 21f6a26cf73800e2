-- ===== src/Base/Strings.antt =====
-- Go strings as lists of bytes, with the functions of package `strings` that the program calls.
-- Letters are ASCII: a byte above 127 is left alone by `to_lower`, and is no white space.
use Prim.Native.Nat.{ℕ, ◌+◌, ◌-◌}
use Prim.Native.Char.{code}
use Prim.Native.String.{String}
use mathlib.Core.Path.{◌≡◌, refl}
use mathlib.Core.Logic.{◌≢◌, ◌↔◌}
use mathlib.Core.Bool.{Bool, true, false, ◌&&◌, ◌||◌}
use mathlib.Core.Option.{Option, none, some}
use mathlib.Core.List.{List, [], ◌∷◌, ◌++◌, map, reverse, reverse-append, reverse-reverse}
use native.Mathlib.Omega.{arith}
use rookery.Base.Tests.{leb, ◌==◌, if◌then◌else◌, ==_refl}

abbrev pub Text : Type 0
Text = List ℕ

abbrev pub codes : String → Text
codes String.[] = []
codes (String.◌∷◌ c s) = code c ∷ codes s

-- `a == b` on strings.
unfoldable pub text_eq : Text → Text → Bool
text_eq [] [] = true
text_eq (a ∷ s) (b ∷ t) = a == b && text_eq s t
text_eq _ _ = false

pub text_eq_iff : (s t : Text) → (text_eq s t ≡ true) ↔ (s ≡ t)
unfolding text_eq
text_eq_iff [] [] = (λ _. refl, λ _. refl)
text_eq_iff (a ∷ s) (b ∷ t) =
    ((λ h. ground (arith, (text_eq_iff s t).0)), (λ h. ground (arith, (text_eq_iff s t).1)))
text_eq_iff [] (b ∷ t) = ((λ h. cc), (λ h. cc))
text_eq_iff (a ∷ s) [] = ((λ h. cc), (λ h. cc))

pub text_eq_refl : (s : Text) → text_eq s s ≡ true
text_eq_refl s = (text_eq_iff s s).1 refl

unfoldable pub lower_byte : ℕ → ℕ
lower_byte c = if leb b'A' c && leb c b'Z' then c + 32 else c

-- strings.ToLower
unfoldable pub to_lower : Text → Text
to_lower = map lower_byte

unfoldable pub upper_byte : ℕ → ℕ
upper_byte c = if leb b'a' c && leb c b'z' then c - 32 else c

-- strings.ToUpper
unfoldable pub to_upper : Text → Text
to_upper = map upper_byte

-- strings.EqualFold
unfoldable pub equal_fold : Text → Text → Bool
unfolding to_lower lower_byte text_eq
equal_fold s t = text_eq (to_lower s) (to_lower t)

unfoldable pub is_space : ℕ → Bool
is_space c = (leb 9 c && leb c 13) || c == 32

unfoldable pub trim_left : Text → Text
trim_left [] = []
trim_left (c ∷ s) = let rest = trim_left s in if is_space c then rest else c ∷ s

-- strings.TrimSpace
unfoldable pub trim_space : Text → Text
unfolding trim_left is_space
trim_space s = reverse (trim_left (reverse (trim_left s)))

-- strings.HasPrefix
unfoldable pub has_prefix : Text → Text → Bool
has_prefix s [] = true
has_prefix [] (c ∷ p) = false
has_prefix (d ∷ s) (c ∷ p) = d == c && has_prefix s p

-- strings.HasSuffix
unfoldable pub has_suffix : Text → Text → Bool
unfolding has_prefix
has_suffix s p = has_prefix (reverse s) (reverse p)

-- strings.Contains
unfoldable pub contains : Text → Text → Bool
unfolding has_prefix
contains [] sub = has_prefix [] sub
contains (c ∷ s) sub = has_prefix (c ∷ s) sub || contains s sub

abbrev cut_cons : ℕ → Option (Text × Text) → Option (Text × Text)
cut_cons c none = none
cut_cons c (some (a, b)) = some (c ∷ a, b)

-- strings.Cut at a one-byte separator: what stands before the first one, and what stands after.
unfoldable pub cut : ℕ → Text → Option (Text × Text)
cut sep [] = none
cut sep (c ∷ s) = let rest = cut sep s in if c == sep then some ([], s) else cut_cons c rest

abbrev or_else {ℓ} : {A : Type ℓ} → Option A → Option A → Option A
or_else (some a) b = some a
or_else none b = b

-- `s[strings.LastIndex(s, sep)+1:]` at a one-byte separator, if there is one.
unfoldable pub after_last : ℕ → Text → Option Text
after_last sep [] = none
after_last sep (c ∷ s) = or_else (after_last sep s) (if c == sep then some s else none)

abbrev split_cons : ℕ → List Text → List Text
split_cons c [] = (c ∷ []) ∷ []
split_cons c (p ∷ ps) = (c ∷ p) ∷ ps

-- strings.Split at a one-byte separator.
unfoldable pub split : ℕ → Text → List Text
split sep [] = [] ∷ []
split sep (c ∷ s) = let rest = split sep s in if c == sep then [] ∷ rest else split_cons c rest

-- strings.TrimSuffix of one byte.
unfoldable pub trim_last : ℕ → Text → Text
trim_last c [] = []
trim_last c (d ∷ []) = if d == c then [] else d ∷ []
trim_last c (d ∷ e ∷ s) = d ∷ trim_last c (e ∷ s)

-- strings.CutPrefix
unfoldable pub cut_prefix : Text → Text → Option Text
cut_prefix s [] = some s
cut_prefix [] (c ∷ p) = none
cut_prefix (d ∷ s) (c ∷ p) = let rest = cut_prefix s p in if d == c then rest else none

abbrev reverse_or : Text → Option Text → Text
reverse_or s none = s
reverse_or s (some t) = reverse t

-- strings.TrimSuffix
unfoldable pub trim_suffix : Text → Text → Text
unfolding cut_prefix
trim_suffix s p = reverse_or s (cut_prefix (reverse s) (reverse p))

pub has_prefix-append : (p s : Text) → has_prefix (p ++ s) p ≡ true
unfolding has_prefix
has_prefix-append [] s = refl
has_prefix-append (c ∷ p) s = ground (arith, has_prefix-append p s)

-- A text that has a part contains it.
pub contains-append : (a b c : Text) → contains (a ++ b ++ c) b ≡ true
unfolding contains
contains-append [] [] [] = refl
contains-append [] [] (x ∷ c) = refl
contains-append [] (y ∷ b) c = ground (arith, has_prefix-append (y ∷ b) c)
contains-append (x ∷ a) b c = ground (arith, contains-append a b c)

has_prefix-grows : (s t p : Text) → has_prefix s p ≡ true → has_prefix (s ++ t) p ≡ true
unfolding has_prefix
has_prefix-grows s t [] h = refl
has_prefix-grows (d ∷ s) t (c ∷ p) h = ground (arith, has_prefix-grows s t p)
has_prefix-grows [] t (c ∷ p) h = cc

pub contains-mono_left : (s t p : Text) → contains s p ≡ true → contains (s ++ t) p ≡ true
unfolding contains
contains-mono_left [] [] p h = h
contains-mono_left [] (x ∷ t) [] h = refl
contains-mono_left [] (x ∷ t) (c ∷ p) h = cc
contains-mono_left (x ∷ s) t p h =
    ground (arith, has_prefix-grows (x ∷ s) t p, contains-mono_left s t p)

pub contains-mono_right : (a s p : Text) → contains s p ≡ true → contains (a ++ s) p ≡ true
unfolding contains
contains-mono_right [] s p h = h
contains-mono_right (x ∷ a) s p h = ground (arith, contains-mono_right a s p h)

abbrev pub Lacks : ℕ → Text → Type 0
Lacks sep [] = Unit
Lacks sep (c ∷ s) = (c ≢ sep) × Lacks sep s

-- What `cut` returns: the text is put together again, and the first part lacks the separator.
pub cut_sound :
    (sep : ℕ) (s a b : Text) → cut sep s ≡ some (a, b) → (s ≡ a ++ sep ∷ b) × Lacks sep a
unfolding cut
cut_sound sep [] a b h = cc
cut_sound sep (c ∷ s) [] b h = ground arith
cut_sound sep (c ∷ s) (d ∷ a) b h = ground (arith, cut_sound sep s a b)

-- A text whose first part lacks the separator is cut there.
pub cut_complete : (sep : ℕ) (a b : Text) → Lacks sep a → cut sep (a ++ sep ∷ b) ≡ some (a, b)
unfolding cut
cut_complete sep [] b h = rw (==_refl sep)
cut_complete sep (c ∷ a) b h = ground (arith, cut_complete sep a b h.1)

pub cut-none : (sep : ℕ) (s : Text) → Lacks sep s → cut sep s ≡ none
unfolding cut
cut-none sep [] h = refl
cut-none sep (c ∷ s) h = ground (arith, cut-none sep s h.1)

after_last-none : (sep : ℕ) (s : Text) → Lacks sep s → after_last sep s ≡ none
unfolding after_last
after_last-none sep [] h = refl
after_last-none sep (c ∷ s) h = ground (arith, after_last-none sep s h.1)

-- What stands behind the last separator.
pub after_last_lem : (sep : ℕ) (a b : Text) → Lacks sep b → after_last sep (a ++ sep ∷ b) ≡ some b
unfolding after_last
after_last_lem sep [] b h = ground (arith, after_last-none sep b h)
after_last_lem sep (c ∷ a) b h = ground (arith, after_last_lem sep a b h)

pub cut_prefix-append : (p s : Text) → cut_prefix (p ++ s) p ≡ some s
unfolding cut_prefix
cut_prefix-append [] s = refl
cut_prefix-append (c ∷ p) s = ground (arith, cut_prefix-append p s)

pub trim_suffix-append : (s p : Text) → trim_suffix (s ++ p) p ≡ s
unfolding trim_suffix
trim_suffix-append s p =
    rw (reverse-append s p, cut_prefix-append (reverse p) (reverse s)) (reverse-reverse s)

pub has_suffix-append : (s p : Text) → has_suffix (s ++ p) p ≡ true
unfolding has_suffix
has_suffix-append s p = rw (reverse-append s p) (has_prefix-append (reverse p) (reverse s))

pub split-Lacks : (sep : ℕ) (s : Text) → Lacks sep s → split sep s ≡ s ∷ []
unfolding split
split-Lacks sep [] h = refl
split-Lacks sep (c ∷ s) h = ground (arith, split-Lacks sep s h.1)

pub Lacks-append : (sep : ℕ) (a b : Text) → Lacks sep a → Lacks sep b → Lacks sep (a ++ b)
Lacks-append sep [] b h k = k
Lacks-append sep (x ∷ a) b h k = (h.0, Lacks-append sep a b h.1 k)
