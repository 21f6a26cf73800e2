-- ===== src/Store.antt =====
-- internal/store/store.go: the blobs on disk, a file for each digest. The proofs are in the child.
pub mod Blobs
pub mod Refines
mod Tests
use rookery.Base.{
  ℕ, Bool, true, false, ◌&&◌, ◌||◌, Option, none, some, List, [], ◌∷◌, ◌++◌, Text, codes, text_eq,
  text_eq_iff, length, take, drop, ltb, if◌then◌else◌, ◌≡◌, refl, ◌↔◌, arith, Eq, lookup, insert,
  erase, Result, ok, err,
}

-- A path below the message directory, by its segments: a digest is a hex text, and `filepath.Join`
-- has nothing to clean.
abbrev pub BlobPath : Type 0
BlobPath = List Text

unfoldable pub path_eq : BlobPath → BlobPath → Bool
path_eq [] [] = true
path_eq (a ∷ p) (b ∷ q) = text_eq a b && path_eq p q
path_eq _ _ = false

pub path_eq_iff : (p q : BlobPath) → (path_eq p q ≡ true) ↔ (p ≡ q)
unfolding path_eq
path_eq_iff [] [] = (λ _. refl, λ _. refl)
path_eq_iff (a ∷ p) (b ∷ q) = (
  λ h. ground (arith, text_eq_iff a b, (path_eq_iff p q).0),
  λ h. ground (arith, text_eq_iff a b, (path_eq_iff p q).1),
)
path_eq_iff [] (b ∷ q) = (λ h. cc, λ h. cc)
path_eq_iff (a ∷ p) [] = (λ h. cc, λ h. cc)

instance abbrev pub Eq_path : Eq BlobPath
Eq_path = record { eq = path_eq; eq_iff = path_eq_iff }

abbrev pub Files : Type 0
Files = List (BlobPath × Text)

unfoldable pub blob_path : Text → BlobPath
blob_path digest =
    if ltb (length digest) 4
    then codes "sha256" ∷ (digest ++ codes ".eml") ∷ []
    else codes "sha256" ∷ take 2 digest ∷ take 2 (drop 2 digest) ∷ (digest ++ codes ".eml") ∷ []

-- What the disk does at a write: a step may fail. A failed rename removes the temporary file.
pub data Disk : Type 0 where
  healthy : Disk
  mkdir_fails : Text → Disk
  write_fails : Text → Disk
  rename_fails : Text → Disk

-- The digest: SHA-256 in hex.
module _ (sha256_hex : Text → Text) where
  unfoldable pub write_new : Disk → Text → Files → Result Text × Files
  write_new healthy bytes fs =
      (ok (sha256_hex bytes), insert (blob_path (sha256_hex bytes)) bytes fs)
  write_new (mkdir_fails e) bytes fs = (err (codes "store: blob mkdir: " ++ e), fs)
  write_new (write_fails e) bytes fs = (err (codes "store: blob write: " ++ e), fs)
  write_new (rename_fails e) bytes fs = (err (codes "store: blob rename: " ++ e), fs)

  unfoldable pub write_missing : Option Text → Disk → Text → Files → Result Text × Files
  write_missing (some old) disk bytes fs = (ok (sha256_hex bytes), fs)
  write_missing none disk bytes fs = write_new disk bytes fs

  unfoldable pub write_blob : Disk → Text → Files → Result Text × Files
  write_blob disk bytes fs = write_missing (lookup (blob_path (sha256_hex bytes)) fs) disk bytes fs

unfoldable pub read_blob : Text → Files → Option Text
read_blob digest fs = lookup (blob_path digest) fs

-- A missing file is no error.
unfoldable pub delete_blob : Text → Files → Files
delete_blob digest fs = erase (blob_path digest) fs
