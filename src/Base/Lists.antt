-- ===== src/Base/Lists.antt =====
-- Lists over the native numbers, under the library's names, and Boolean folds over them.
use Prim.Native.Nat.{ℕ, zero, suc, ◌+◌, ◌≤◌, ◌<◌}
use mathlib.Core.Path.{◌≡◌, refl, ap, sym, ◌∙◌}
use mathlib.Core.Bool.{Bool, true, false, ◌&&◌, ◌||◌}
use mathlib.Core.List.{Memᴰ, List, [], ◌∷◌, ◌++◌, map}
use mathlib.Core.List.Memᴰ.{head, tail}
use mathlib.Core.Logic.{inl, inr}
use mathlib.Core.Option.{Option, none, some}
use native.Mathlib.Omega.{arith}
use rookery.Base.Tests.{if◌then◌else◌, Bool-cases}

module _ {ℓ} {A : Type ℓ} where
  abbrev pub length : List A → ℕ
  length [] = 0
  length (x ∷ xs) = suc (length xs)

  abbrev pub get_elem? : List A → ℕ → Option A
  get_elem? [] i = none
  get_elem? (x ∷ xs) zero = some x
  get_elem? (x ∷ xs) (suc i) = get_elem? xs i

  abbrev pub take : ℕ → List A → List A
  take zero xs = []
  take (suc n) [] = []
  take (suc n) (x ∷ xs) = x ∷ take n xs

  abbrev pub drop : ℕ → List A → List A
  drop zero xs = xs
  drop (suc n) [] = []
  drop (suc n) (x ∷ xs) = drop n xs

  -- Some element passes the test; every element does.
  abbrev pub any : (A → Bool) → List A → Bool
  any p [] = false
  any p (x ∷ xs) = p x || any p xs

  abbrev pub all : (A → Bool) → List A → Bool
  all p [] = true
  all p (x ∷ xs) = p x && all p xs

  -- The elements that pass a test, and the first of them.
  abbrev pub select : (A → Bool) → List A → List A
  select p [] = []
  select p (x ∷ xs) = let rest = select p xs in if p x then x ∷ rest else rest

  abbrev pub find_first : (A → Bool) → List A → Option A
  find_first p [] = none
  find_first p (x ∷ xs) = let rest = find_first p xs in if p x then some x else rest

  abbrev pub All {κ} : (A → Type κ) → List A → Type κ
  All P [] = Unit
  All P (x ∷ xs) = P x × All P xs

module _ {ℓ} {A : Type ℓ} where
  pub length-append : (xs ys : List A) → length (xs ++ ys) ≡ length xs + length ys
  length-append [] ys = omega arith
  length-append (x ∷ xs) ys = omega (arith, length-append xs ys)

  pub length-map {κ} : {B : Type κ} (f : A → B) (xs : List A) → length (map f xs) ≡ length xs
  length-map f [] = refl
  length-map f (x ∷ xs) = ap suc (length-map f xs)

  pub length-select : (p : A → Bool) (xs : List A) → length (select p xs) ≤ length xs
  length-select p [] = omega arith
  length-select p (x ∷ xs) = ground (arith, length-select p xs)

  pub length-take : (n : ℕ) (xs : List A) → length (take n xs) ≤ n
  length-take zero xs = omega arith
  length-take (suc n) [] = omega arith
  length-take (suc n) (x ∷ xs) = omega (arith, length-take n xs)

  pub length-take_eq : (n : ℕ) (xs : List A) → n ≤ length xs → length (take n xs) ≡ n
  length-take_eq zero xs h = refl
  length-take_eq (suc n) [] h = absurd (omega arith)
  length-take_eq (suc n) (x ∷ xs) h = omega (arith, length-take_eq n xs)

  pub take_all : (n : ℕ) (xs : List A) → length xs ≤ n → take n xs ≡ xs
  take_all zero [] h = refl
  take_all (suc n) [] h = refl
  take_all zero (x ∷ xs) h = absurd (omega arith)
  take_all (suc n) (x ∷ xs) h = ap (λ l. x ∷ l) (take_all n xs (omega arith))

  pub All-take {κ} : (P : A → Type κ) (n : ℕ) (xs : List A) → All P xs → All P (take n xs)
  All-take P zero xs h = tt
  All-take P (suc n) [] h = tt
  All-take P (suc n) (x ∷ xs) h = (h.0, All-take P n xs h.1)

  pub get_elem?-some : (xs : List A) (i : ℕ) → i < length xs → (a : A) × (get_elem? xs i ≡ some a)
  get_elem?-some [] i h = elim h [ ]
  get_elem?-some (x ∷ xs) zero h = (x, refl)
  get_elem?-some (x ∷ xs) (suc i) h = get_elem?-some xs i (omega arith)

  pub All-append {κ} : (P : A → Type κ) (xs ys : List A) → All P xs → All P ys → All P (xs ++ ys)
  All-append P [] ys hx hy = hy
  All-append P (x ∷ xs) ys hx hy = (hx.0, All-append P xs ys hx.1 hy)

  pub All-map {κ μ} :
      (P : A → Type κ) (Q : A → Type μ) (xs : List A) → ((x : A) → P x → Q x) → All P xs → All Q xs
  All-map P Q [] f h = tt
  All-map P Q (x ∷ xs) f h = (f x h.0, All-map P Q xs f h.1)

  pub any_witness : (p : A → Bool) (xs : List A) → any p xs ≡ true → (x : A) × (p x ≡ true)
  any_witness p [] h = absurd (ground arith)
  any_witness p (x ∷ xs) h = elim (Bool-cases (p x)) [
    | inl e ↦ (x, e)
    | inr e ↦ any_witness p xs (ground arith)
  ]

  pub select-All : (p : A → Bool) (xs : List A) → All (λ x. p x ≡ true) (select p xs)
  select-All p [] = tt
  select-All p (x ∷ xs) = elim (Bool-cases (p x)) [
    | inl e ↦ rw e (e, select-All p xs)
    | inr e ↦ rw e (select-All p xs)
  ]

module _ {ℓ} {A : Type ℓ} where
  -- Of two lists, the first hit is that of the first list, or else that of the second.
  pub find_first-append_some :
      (p : A → Bool) (xs ys : List A) (x : A)
      → find_first p xs ≡ some x
      → find_first p (xs ++ ys) ≡ some x
  find_first-append_some p [] ys x h = cc
  find_first-append_some p (z ∷ xs) ys x h = ground (arith, find_first-append_some p xs ys x)

  pub find_first-append_none :
      (p : A → Bool) (xs ys : List A)
      → find_first p xs ≡ none
      → find_first p (xs ++ ys) ≡ find_first p ys
  find_first-append_none p [] ys h = refl
  find_first-append_none p (z ∷ xs) ys h = ground (arith, find_first-append_none p xs ys)

  pub find_first-none : (p : A → Bool) (xs : List A) → any p xs ≡ false → find_first p xs ≡ none
  find_first-none p [] h = refl
  find_first-none p (z ∷ xs) h = ground (arith, find_first-none p xs)

  pub any-find_first :
      (p : A → Bool) (xs : List A) (x : A) → find_first p xs ≡ some x → any p xs ≡ true
  any-find_first p [] x h = cc
  any-find_first p (z ∷ xs) x h = ground (arith, any-find_first p xs x)

  -- A found element passes any test that follows from the search's.
  pub any-implied :
      (p q : A → Bool) (xs : List A)
      → ((x : A) → p x ≡ true → q x ≡ true)
      → any p xs ≡ true
      → any q xs ≡ true
  any-implied p q [] f h = h
  any-implied p q (z ∷ xs) f h = ground (arith, f z, any-implied p q xs f)

  -- What is found passes the test and is in the list.
  pub find_first-Memᴰ :
      (p : A → Bool) (xs : List A) (x : A) → find_first p xs ≡ some x → (p x ≡ true) × Memᴰ x xs
  find_first-Memᴰ p [] x h = cc
  find_first-Memᴰ p (y ∷ ys) x h = elim (Bool-cases (p y)) [
    | inl e ↦ let same : y ≡ x = ground arith in (ap p (sym same) ∙ e, head (sym same))
    | inr e ↦ let (good, there) = find_first-Memᴰ p ys x (ground arith) in (good, tail there)
  ]

  pub all-All : (p : A → Bool) (xs : List A) → all p xs ≡ true → All (λ x. p x ≡ true) xs
  all-All p [] h = tt
  all-All p (x ∷ xs) h = (ground arith, all-All p xs (ground arith))

  pub any-find_first-none : (p : A → Bool) (xs : List A) → find_first p xs ≡ none → any p xs ≡ false
  any-find_first-none p [] h = refl
  any-find_first-none p (z ∷ xs) h = ground (arith, any-find_first-none p xs)

  pub find_first-map {κ} :
      {B : Type κ} (f : A → B) (q : B → Bool) (xs : List A) (x : A)
      → find_first (λ a. q (f a)) xs ≡ some x
      → find_first q (map f xs) ≡ some (f x)
  find_first-map f q [] x h = cc
  find_first-map f q (z ∷ xs) x h = elim (Bool-cases (q (f z))) [
    | inl e ↦ let same : z ≡ x = ground arith in rw e (ap (λ y. some (f y)) same)
    | inr e ↦
        let rest : find_first (λ a. q (f a)) xs ≡ some x = ground arith in
        rw e (find_first-map f q xs x rest)
  ]

  -- What is found is an element for any other test that it passes.
  pub any-found :
      (p q : A → Bool) (xs : List A) (x : A)
      → find_first p xs ≡ some x
      → q x ≡ true
      → any q xs ≡ true
  any-found p q [] x h good = cc
  any-found p q (z ∷ xs) x h good = elim (Bool-cases (p z)) [
    | inl e ↦ let same : z ≡ x = ground arith in rw (ap q same, good) refl
    | inr e ↦ let rest = any-found p q xs x (ground arith) good in rw rest (ground arith)
  ]

module _ {ℓ} {A : Type ℓ} where
  -- ORDER BY: a stable sort by a test "not after".
  insert_by : (A → A → Bool) → A → List A → List A
  insert_by before x [] = x ∷ []
  insert_by before x (y ∷ ys) =
      let rest = insert_by before x ys in if before x y then x ∷ y ∷ ys else y ∷ rest

  unfoldable pub sort_by : (A → A → Bool) → List A → List A
  unfolding insert_by
  sort_by before [] = []
  sort_by before (x ∷ xs) = insert_by before x (sort_by before xs)
