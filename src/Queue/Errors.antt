-- ===== src/Queue/Errors.antt =====
-- Which delivery errors are permanent, and what is stored of an error's text.
use rookery.Base.{
  ◌⊎◌, length-take, [], ◌↔◌, ◌∷◌, arith, true, ◌≡◌, ℕ, ◌≤◌, ◌<◌, Bool, ◌&&◌, ◌||◌, Text, codes,
  contains, has_prefix, take, ltb, if◌then◌else◌, length,
}

unfoldable pub hard_code : Text → Bool
hard_code s =
    contains s (codes "550")
    || contains s (codes "551")
    || contains s (codes "552")
    || contains s (codes "553")
    || contains s (codes "554")
    || contains s (codes "5.")
    || has_prefix s (codes "5")

-- isHardFailure, on the text of a non-nil error.
unfoldable pub is_hard_failure : Text → Bool
is_hard_failure s = contains s (codes "5") && hard_code s

unfoldable pub truncate_at : ℕ → Text → Text
truncate_at n s = if ltb n (length s) then take n s else s

-- truncateErr: at most 500 bytes.
unfoldable pub truncate_err : Text → Text
truncate_err s = truncate_at 500 s

first_of_prefix : (s p : Text) (c : ℕ) → has_prefix s (c ∷ p) ≡ true → has_prefix s (c ∷ []) ≡ true
unfolding has_prefix
first_of_prefix [] p c h = cc
first_of_prefix (d ∷ s) p c h = ground arith

first_of_contains : (s p : Text) (c : ℕ) → contains s (c ∷ p) ≡ true → contains s (c ∷ []) ≡ true
unfolding contains
first_of_contains [] p c h = first_of_prefix [] p c h
first_of_contains (d ∷ s) p c h =
    ground (arith, first_of_prefix (d ∷ s) p c, first_of_contains s p c)

contains_of_prefix : (s p : Text) → has_prefix s p ≡ true → contains s p ≡ true
unfolding contains
contains_of_prefix [] p h = h
contains_of_prefix (d ∷ s) p h = ground arith

-- The test for a "5" before the others decides nothing: an error is permanent exactly when its text
-- has one of the codes 550 to 554, has "5." anywhere, or begins with "5".
pub is_hard_failure_iff :
    (s : Text)
    → (is_hard_failure s ≡ true) ↔ (
        (contains s (codes "550") ≡ true)
        ⊎ (contains s (codes "551") ≡ true)
        ⊎ (contains s (codes "552") ≡ true)
        ⊎ (contains s (codes "553") ≡ true)
        ⊎ (contains s (codes "554") ≡ true)
        ⊎ (contains s (codes "5.") ≡ true)
        ⊎ (has_prefix s (codes "5") ≡ true))
unfolding is_hard_failure hard_code
is_hard_failure_iff s = (
  λ h. ground arith,
  λ h. ground (
    arith,
    first_of_contains s (codes "50") b'5',
    first_of_contains s (codes "51") b'5',
    first_of_contains s (codes "52") b'5',
    first_of_contains s (codes "53") b'5',
    first_of_contains s (codes "54") b'5',
    first_of_contains s (codes ".") b'5',
    contains_of_prefix s (codes "5"),
  ),
)

truncate_at_lem :
    (n : ℕ) (s : Text) → (length (truncate_at n s) ≤ n) × ((truncate_at n s ≡ s) ⊎ (n < length s))
unfolding truncate_at
truncate_at_lem n s = ground (arith, length-take n s)

-- At most 500 bytes of an error are stored, and a shorter text is stored whole.
pub truncate_err_lem :
    (s : Text) → (length (truncate_err s) ≤ 500) × ((truncate_err s ≡ s) ⊎ (500 < length s))
unfolding truncate_err
truncate_err_lem s = truncate_at_lem 500 s
