-- ===== src/Store/Refines.antt =====
-- The files on disk as an implementation of contents by digest.
use rookery.Base.{
  Bool-cases, ◌≡◌, refl, sym, ap, ◌∙◌, Option, none, some, List, [], ◌∷◌, arith, Text, text_eq_iff,
  length, if◌then◌else◌, lookup, lookup-insert, ◌=?◌, Eq_text, inl, inr,
}
use rookery.Store.{
  Eq_path, Files, blob_path, path_eq_iff, healthy, write_new, write_missing, write_blob, read_blob,
  delete_blob,
}
use rookery.Store.Blobs.{blob_path-injective, read_blob-delete_blob}

-- What the store promises: contents by digest. The first content of a digest stays until it is deleted.
abbrev pub Contents : Type 0
Contents = Text → Option Text

abbrev or_new : Option Text → Text → Option Text
or_new none b = some b
or_new (some old) b = some old

abbrev put : Text → Text → Contents → Contents
put d b c = λ e. if d =? e then or_new (c e) b else c e

abbrev remove : Text → Contents → Contents
remove d c = λ e. if d =? e then none else c e

pub data Operation : Type 0 where
  write : Text → Operation
  delete : Text → Operation

module _ (sha256_hex : Text → Text) where
  abbrev pub run_contents : List Operation → Contents → Contents
  run_contents [] c = c
  run_contents (write b ∷ ops) c = run_contents ops (put (sha256_hex b) b c)
  run_contents (delete d ∷ ops) c = run_contents ops (remove d c)

  abbrev pub run_files : List Operation → Files → Files
  run_files [] fs = fs
  run_files (write b ∷ ops) fs = run_files ops (write_blob sha256_hex healthy b fs).1
  run_files (delete d ∷ ops) fs = run_files ops (delete_blob d fs)

  -- The operations name digests of 64 characters.
  abbrev pub HasDigests : List Operation → Type 0
  HasDigests [] = Unit
  HasDigests (write b ∷ ops) = HasDigests ops
  HasDigests (delete d ∷ ops) = (length d ≡ 64) × HasDigests ops

  -- The files hold the contents, as far as digests of 64 characters go.
  abbrev pub Holds : Contents → Files → Type 0
  Holds c fs = (e : Text) → length e ≡ 64 → read_blob e fs ≡ c e

  write_blob-Holds :
      (b : Text) (c : Contents) (fs : Files)
      → length (sha256_hex b) ≡ 64
      → Holds c fs
      → Holds (put (sha256_hex b) b c) (write_blob sha256_hex healthy b fs).1
  unfolding write_blob write_missing write_new read_blob
  write_blob-Holds b c fs long holds e le = go (lookup (blob_path (sha256_hex b)) fs) refl
    where
      paths : blob_path (sha256_hex b) ≡ blob_path e → sha256_hex b ≡ e
      paths = blob_path-injective (sha256_hex b) e (long ∙ sym le)

      go :
          (o : Option Text)
          → lookup (blob_path (sha256_hex b)) fs ≡ o
          → lookup (blob_path e) (write_missing sha256_hex o healthy b fs).1
            ≡ put (sha256_hex b) b c e
      go none is =
          let grown = lookup-insert (blob_path (sha256_hex b)) (blob_path e) b fs in
          elim (Bool-cases (sha256_hex b =? e)) [
            | inl y ↦
                let same = (text_eq_iff (sha256_hex b) e).0 y in
                let free : c e ≡ none =
                  sym (holds e le) ∙ ap (λ d. lookup (blob_path d) fs) (sym same) ∙ is in
                rw (y, free) (grown ∙ rw ((path_eq_iff _ _).1 (ap blob_path same)) refl)
            | inr n ↦ rw n (
                grown
                ∙ ground (
                  arith,
                  path_eq_iff (blob_path (sha256_hex b)) (blob_path e),
                  paths,
                  text_eq_iff (sha256_hex b) e,
                  holds e le,
                ))
          ]
      go (some old) is = elim (Bool-cases (sha256_hex b =? e)) [
        | inl y ↦
            let same = (text_eq_iff (sha256_hex b) e).0 y in
            let there : c e ≡ some old =
              sym (holds e le) ∙ ap (λ d. lookup (blob_path d) fs) (sym same) ∙ is in
            rw (y, there) (ap (λ d. lookup (blob_path d) fs) (sym same) ∙ is)
        | inr n ↦ rw n (holds e le)
      ]

  delete_blob-Holds :
      (d : Text) (c : Contents) (fs : Files)
      → length d ≡ 64
      → Holds c fs
      → Holds (remove d c) (delete_blob d fs)
  delete_blob-Holds d c fs long holds e le =
      read_blob-delete_blob sha256_hex d e fs (long ∙ sym le)
      ∙ ap (λ o. if d =? e then none else o) (holds e le)

  -- Whatever is written and deleted, the files hold what the contents are after the same operations: each
  -- digest has what was first written under it since it was last deleted. Digests have 64 characters, the
  -- disk works, and the files held the contents at the start.
  pub run_files-Holds :
      (ops : List Operation) (c : Contents) (fs : Files)
      → ((b : Text) → length (sha256_hex b) ≡ 64)
      → HasDigests ops
      → Holds c fs
      → Holds (run_contents ops c) (run_files ops fs)
  run_files-Holds [] c fs long h holds = holds
  run_files-Holds (write b ∷ ops) c fs long h holds =
      run_files-Holds ops (put (sha256_hex b) b c) (write_blob sha256_hex healthy b fs).1 long h
        (write_blob-Holds b c fs (long b) holds)
  run_files-Holds (delete d ∷ ops) c fs long h holds =
      run_files-Holds ops (remove d c) (delete_blob d fs) long h.1
        (delete_blob-Holds d c fs h.0 holds)
