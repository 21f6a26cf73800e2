-- ===== src/Smtp/Sts/Parse.antt =====
-- What parsing a policy text gives, and for how long it is cached.
use mathlib.Core.List.{cons-ne-nil}
use rookery.Base.{
  ℕ, ◌≤◌, ◌<◌, ◌≡◌, ◌≢◌, refl, ◌⊎◌, ◌∷◌, List, [], none, some, Option, arith, Text, codes,
  text_eq_iff, All, All-append, split, cut, to_lower, lower_byte, trim_space, ◌∙◌,
}
use rookery.Smtp.Sts.{
  StsPolicy, PolicyScan, clamp_max_age, sts_max_age_cap, sts_max_age_floor, parse_policy,
  finish_scan, scan_lines, scan_pair, scan_field, empty_scan,
}

-- Whatever 64-bit pattern the multiplication by a second leaves, the time for which a policy is
-- cached lies between five minutes and a day; a pattern in that range is kept.
pub clamp_max_age_bounds :
    (d : ℕ)
    → (sts_max_age_floor ≤ clamp_max_age d)
      × (clamp_max_age d ≤ sts_max_age_cap)
      × ((clamp_max_age d ≡ d) ⊎ (d < sts_max_age_floor) ⊎ (sts_max_age_cap < d))
unfolding clamp_max_age
clamp_max_age_bounds d = ground arith

lower_byte_idem : (c : ℕ) → lower_byte (lower_byte c) ≡ lower_byte c
unfolding lower_byte
lower_byte_idem c = ground arith

to_lower_idem : (s : Text) → to_lower (to_lower s) ≡ to_lower s
unfolding to_lower
to_lower_idem [] = refl
to_lower_idem (c ∷ s) = cc (lower_byte_idem c, to_lower_idem s)

abbrev pub IsLower : Text → Type 0
IsLower s = to_lower s ≡ s

abbrev pub IsPattern : Text → Type 0
IsPattern s = IsLower s × (s ≢ [])

scan_field-mx :
    (k v : Text) (s : PolicyScan)
    → All IsPattern s.policy.mx
    → All IsPattern (scan_field k v s).policy.mx
unfolding scan_field
scan_field-mx k [] s h = ground arith
scan_field-mx k (c ∷ v) s h = ground (
  arith,
  All-append IsPattern s.policy.mx (to_lower (c ∷ v) ∷ []) h
      ((to_lower_idem (c ∷ v), unfold to_lower in cons-ne-nil _ _), tt),
)

scan_field-id : (k v : Text) (s : PolicyScan) → (scan_field k v s).policy.id ≡ s.policy.id
unfolding scan_field
scan_field-id k [] s = ground arith
scan_field-id k (c ∷ v) s = ground arith

abbrev IsClean : PolicyScan → Type 0
IsClean s = All IsPattern s.policy.mx × (s.policy.id ≡ [])

scan_pair-IsClean :
    (kv : Option (Text × Text)) (s : PolicyScan) → IsClean s → IsClean (scan_pair kv s)
unfolding scan_pair
scan_pair-IsClean none s h = h
scan_pair-IsClean (some (k, v)) s h =
    (scan_field-mx (trim_space k) (trim_space v) s h.0, scan_field-id _ _ s ∙ h.1)

scan_lines-IsClean : (lines : List Text) (s : PolicyScan) → IsClean s → IsClean (scan_lines lines s)
unfolding scan_lines
scan_lines-IsClean [] s h = h
scan_lines-IsClean (line ∷ lines) s h =
    scan_lines-IsClean lines _ (scan_pair-IsClean (cut b':' line) s h)

finish_scan_sound :
    (s : PolicyScan) (p : StsPolicy) (age : ℕ)
    → finish_scan s ≡ some (p, age)
    → (s.version ≡ codes "STSv1") × (p ≡ s.policy) × (p.mode ≢ [])
unfolding finish_scan
finish_scan_sound s p age h =
    ground (arith, text_eq_iff s.version (codes "STSv1"), text_eq_iff s.policy.mode [])

-- A policy that is parsed has a mode, and each of its MX patterns is non-empty and in lower case,
-- whatever the case of the text; its id is left for the TXT record.
pub parse_policy_sound :
    (body : Text) {p : StsPolicy} {age : ℕ}
    → parse_policy body ≡ some (p, age)
    → (p.mode ≢ []) × All IsPattern p.mx × (p.id ≡ [])
unfolding parse_policy
parse_policy_sound body {p} {age} h =
    let s = scan_lines (split 10 body) empty_scan in
    let (_, same, mode) = finish_scan_sound s p age h in
    let (mx, id) = scan_lines-IsClean (split 10 body) empty_scan (tt, refl) in
    (mode, rw same mx, rw same id)
