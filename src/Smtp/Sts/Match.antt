-- ===== src/Smtp/Sts/Match.antt =====
-- Which hosts a policy's patterns allow.
use rookery.Base.{
  ◌≡◌, refl, ◌↔◌, inl, inr, true, ◌∷◌, ◌++◌, some, arith, Text, codes, cut, cut_prefix, text_eq_iff,
  text_eq_refl, cut_sound, cut_complete, Lacks, Option-cases,
}
use rookery.Smtp.Sts.{match_mx_pattern, match_wildcard}

cut_prefix_star : (suffix : Text) → cut_prefix (b'*' ∷ b'.' ∷ suffix) (codes "*.") ≡ some suffix
unfolding cut_prefix
cut_prefix_star suffix = refl

wildcard_sound :
    (suffix pattern host : Text)
    → match_wildcard (some suffix) pattern host ≡ true
    → (label : Text) × Lacks b'.' label × (host ≡ label ++ b'.' ∷ suffix)
unfolding match_wildcard
wildcard_sound suffix pattern host h = elim (Option-cases (cut b'.' host)) [
  | inl e ↦ absurd (ground arith)
  | inr ((label, rest), e) ↦
      let (whole, free) = cut_sound b'.' host label rest e in
      (label, free, ground (arith, text_eq_iff rest suffix))
]

wildcard_complete :
    (suffix pattern label : Text)
    → Lacks b'.' label
    → match_wildcard (some suffix) pattern (label ++ b'.' ∷ suffix) ≡ true
unfolding match_wildcard
wildcard_complete suffix pattern label h =
    rw (cut_complete b'.' label suffix h, match_wildcard) (text_eq_refl suffix)

-- A pattern "*.suffix" allows a host exactly when the host is one label, without a dot, and the
-- suffix behind a dot.
pub match_mx_pattern_wildcard :
    (suffix host : Text)
    → (match_mx_pattern (b'*' ∷ b'.' ∷ suffix) host ≡ true)
      ↔ ((label : Text) × Lacks b'.' label × (host ≡ label ++ b'.' ∷ suffix))
unfolding match_mx_pattern cut_prefix
match_mx_pattern_wildcard suffix host = (
  λ h. wildcard_sound suffix _ host h,
  λ (label, free, whole). rw whole (wildcard_complete suffix _ label free),
)
