-- ===== src/Base/Results.antt =====
-- Results with the text of an error.
use rookery.Base.Strings.{Text}

pub data Result {ℓ} (A : Type ℓ) : Type ℓ where
  ok : A → Result A
  err : Text → Result A
