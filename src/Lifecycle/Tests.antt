-- ===== src/Lifecycle/Tests.antt =====
-- internal/lifecycle: two users share a blob, and one of them goes.
use mathlib.Core.List.Memᴰ.{head, tail}
use rookery.Base.{ℕ, zero, suc, refl, arith, false, none, some, [], ◌∷◌, Text, codes}
use rookery.Store.{Files, blob_path}
use rookery.Lifecycle.{MessageRow, Db, Faults, delete_user}
use rookery.Lifecycle.Shared.{Keeps, delete_user-Keeps}

abbrev letters : ℕ → Text
letters zero = []
letters (suc n) = b'a' ∷ letters n

abbrev mine : MessageRow
mine = record { user_id = 1; blob_sha256 = letters 64 }

abbrev yours : MessageRow
yours = record { user_id = 2; blob_sha256 = letters 64 }

abbrev tables : Db
tables = record {
  users = 1 ∷ 2 ∷ [];
  messages = mine ∷ yours ∷ [];
  addresses = record { user_id = 1; domain_id = 3 } ∷ [];
  domains = record { id = 3; owner_user_id = some 1; is_primary = false } ∷ [];
}

abbrev files : Files
files = (blob_path (letters 64), codes "raw") ∷ []

abbrev fine : Faults
fine = record {
  begin_err = none;
  blobs_err = none;
  domains_err = none;
  delete_err = none;
  domain_err = λ id. none;
  commit_err = none;
  remove_fails = λ d. false;
}

delete_user-Keeps_example : Keeps tables files yours (delete_user fine 1 tables files)
delete_user-Keeps_example =
    delete_user-Keeps fine 1 tables files yours (refl, (refl, tt)) (tail (head refl))
      (λ h. omega arith)
