-- ===== src/Store/Tests.antt =====
-- The blobs of internal/store with a digest of fixed length.
use rookery.Base.{List, none, ℕ, zero, suc, ◌≡◌, refl, some, [], ◌∷◌, Text, codes, lookup, Eq_text}
use rookery.Store.{
  Files, healthy, Eq_path, blob_path, write_new, write_missing, write_blob, read_blob,
}
use rookery.Store.Refines.{Operation, write, delete, run_contents, run_files, run_files-Holds}
use rookery.Store.Blobs.{write_blob_read}

abbrev letters : ℕ → Text
letters zero = []
letters (suc n) = b'a' ∷ letters n

-- A digest that is the same for each text.
abbrev digest : Text → Text
digest bytes = letters 64

abbrev stored : Files
stored = (blob_path (letters 64), codes "old") ∷ []

write_blob_read_example :
    (letters 64 ≡ digest (codes "new"))
    × ((b : Text) × (read_blob (letters 64) (write_blob digest healthy (codes "new") []).1 ≡ some b)
        × (digest b ≡ letters 64))
write_blob_read_example =
    write_blob_read digest healthy (codes "new") [] (λ b. refl) (λ p b h. unfold lookup in cc)
      (unfold write_blob write_missing write_new lookup in refl)

abbrev operations : List Operation
operations = write (codes "new") ∷ delete (letters 64) ∷ write (codes "again") ∷ []

run_files-Holds_example :
    read_blob (letters 64) (run_files digest operations [])
    ≡ run_contents digest operations (λ e. none) (letters 64)
run_files-Holds_example =
    run_files-Holds digest operations (λ e. none) [] (λ b. refl) (refl, tt)
      (λ e h. unfold read_blob lookup in refl) (letters 64) refl
