-- ===== src/Archive/RoundTrip/Blobs.antt =====
-- The entries of blobs, as an import reads them.
use rookery.Base.{
  split-Lacks, has_suffix-append, trim_suffix-append, length-append, has_prefix-append,
  Lacks-append, lookup, cut_prefix-append, ℕ, suc, ◌+◌, ◌≤◌, ◌≡◌, refl, true, false, Option, none,
  some, List, [], ◌∷◌, ◌++◌, arith, Text, codes, text_eq, text_eq_refl, ap, ◌∙◌, Result, ok, err,
  has_prefix, split, Lacks, length, ltb, All,
}
use rookery.Store.{
  Eq_path, blob_path, Files, healthy, write_blob, write_new, write_missing, read_blob,
}
use rookery.Archive.{Entry, Json, max_tar_entries}
use rookery.Archive.Export.{entry, blob_name}
use rookery.Archive.Read.{
  then_read, Outcome, blob_written, Archived, accept_blob, read_blob_entry, read_named, read_entry,
  read_entries, validate_entry_name, digest_of, is_blob_name,
}

-- A digest of the blob store: a hex text of SHA-256, at which stands what has this digest.
abbrev pub IsBlob : (Text → Text) → Files → Text → Type 0
IsBlob sha256_hex fs d =
    Lacks b'/' d × (length d ≡ 64) × ((b : Text) → read_blob d fs ≡ some b → sha256_hex b ≡ d)

digest_of-blob_name : (d : Text) → digest_of (blob_name d) ≡ d
unfolding digest_of blob_name
digest_of-blob_name d =
    rw (cut_prefix-append (codes "blobs/") (d ++ codes ".eml"))
      (trim_suffix-append d (codes ".eml"))

is_blob_name-blob_name : (d : Text) → is_blob_name (blob_name d) ≡ true
unfolding blob_name
is_blob_name-blob_name d =
    rw
      (
        has_prefix-append (codes "blobs/") (d ++ codes ".eml"),
        has_suffix-append (codes "blobs/" ++ d) (codes ".eml"),
      )
      refl

dots-false : (s : Text) → 4 ≤ length s → text_eq s (codes "..") ≡ false
unfolding text_eq
dots-false [] h = absurd (omega arith)
dots-false (a ∷ []) h = absurd (omega arith)
dots-false (a ∷ b ∷ []) h = absurd (omega arith)
dots-false (a ∷ b ∷ c ∷ s) h = ground arith

validate_entry_name-blob_name : (d : Text) → Lacks b'/' d → validate_entry_name (blob_name d) ≡ none
unfolding validate_entry_name blob_name split text_eq has_prefix
validate_entry_name-blob_name d h =
    let plain =
      Lacks-append b'/' d (codes ".eml") h
        (omega arith, (omega arith, (omega arith, (omega arith, tt)))) in
    let long = length-append d (codes ".eml") in
    rw
      (
        split-Lacks b'/' (d ++ codes ".eml") plain,
        dots-false (d ++ codes ".eml") (omega (arith, long)),
      )
      refl

-- The entries of the blobs, in the order of their digests, each with what was on disk.
abbrev pub Wrote : Files → List Text → List Entry → Type 0
Wrote fs [] [] = Unit
Wrote fs (d ∷ ds) (x ∷ xs) =
    (b : Text) × (x ≡ entry (blob_name d) b) × (read_blob d fs ≡ some b) × Wrote fs ds xs
Wrote fs _ _ = ⊥

abbrev table_names : List Text
table_names =
    codes "manifest.json"
    ∷ codes "public_key.asc"
    ∷ codes "known_keys.json"
    ∷ codes "key_rotations.json"
    ∷ codes "drafts.json"
    ∷ codes "messages.json"
    ∷ codes "message_attachments.json"
    ∷ []

blob_name-others : (d : Text) → All (λ n. text_eq (blob_name d) n ≡ false) table_names
unfolding blob_name text_eq
blob_name-others d = (refl, (refl, (refl, (refl, (refl, (refl, (refl, tt)))))))

module _ (sha256_hex : Text → Text) where
  write_blob_fine :
      (bytes : Text) (fs : Files)
      → (write_blob sha256_hex healthy bytes fs).0 ≡ ok (sha256_hex bytes)
  unfolding write_blob write_missing write_new
  write_blob_fine bytes fs = go (lookup ⦃e = Eq_path⦄ (blob_path (sha256_hex bytes)) fs)
    where
      go :
          (o : Option Text)
          → (write_missing sha256_hex o healthy bytes fs).0 ≡ ok (sha256_hex bytes)
      go none = refl
      go (some b) = refl

  blob_written-fine :
      (d y : Text) (a : Archived) (w : Result Text × Files)
      → w.0 ≡ ok y
      → (blob_written sha256_hex d a w).0
        ≡ (none, record a { imported_blobs = suc a.imported_blobs })
  blob_written-fine d y a (ok z, fs) h = refl
  blob_written-fine d y a (err e, fs) h = cc

  -- One blob is read and counted.
  read_entry-blob :
      (js : Json) (mine d b : Text) (a : Archived) (fs : Files)
      → Lacks b'/' d
      → length d ≡ 64
      → sha256_hex b ≡ d
      → (read_entry sha256_hex js mine healthy (entry (blob_name d) b) a fs).0
        ≡ (none, record a { imported_blobs = suc a.imported_blobs })
  unfolding read_entry read_named read_blob_entry accept_blob
  read_entry-blob js mine d b a fs plain long same =
      let (n1, (n2, (n3, (n4, (n5, (n6, (n7, n8))))))) = blob_name-others d in
      rw
        (
          validate_entry_name-blob_name d plain,
          n1,
          n2,
          n3,
          n4,
          n5,
          n6,
          n7,
          is_blob_name-blob_name d,
          digest_of-blob_name d,
          long,
          same,
          text_eq_refl d,
        )
        (blob_written-fine d (sha256_hex b) a (write_blob sha256_hex healthy b fs)
          (write_blob_fine b fs))

  then_read-fine :
      (rest : Archived → Files → Outcome) (o : Outcome) (a : Archived)
      → o.0 ≡ (none, a)
      → (then_read sha256_hex rest o).0 ≡ (rest a o.1).0
  then_read-fine rest o a h = ap (λ p. (then_read sha256_hex rest (p, o.1)).0) h

  -- The blobs of an export are read to their end.
  pub read_entries-blobs :
      (js : Json) (mine : Text) (fs : Files) (ds : List Text) (bs : List Entry) (count : ℕ)
      (a : Archived) (gs : Files)
      → Wrote fs ds bs
      → All (IsBlob sha256_hex fs) ds
      → count + length ds ≤ max_tar_entries
      → (read_entries sha256_hex js mine healthy count bs none a gs).0
        ≡ (none, record a { imported_blobs = a.imported_blobs + length ds })
  unfolding read_entries
  read_entries-blobs js mine fs [] [] count a gs wrote good few =
      ap (λ n. (none, record a { imported_blobs = n })) (omega arith)
  read_entries-blobs js mine fs [] (x ∷ bs) count a gs wrote good few = absurd wrote
  read_entries-blobs js mine fs (d ∷ ds) [] count a gs wrote good few = absurd wrote
  read_entries-blobs js mine fs (d ∷ ds) (x ∷ bs) count a gs (b, is, has, wrote)
        ((plain, long, same), good) few =
      let room : ltb max_tar_entries (suc count) ≡ false = ground arith in
      let one =
        ap (λ y. (read_entry sha256_hex js mine healthy y a gs).0) is
        ∙ read_entry-blob js mine d b a gs plain long (same b has) in
      let counted : Archived = record a { imported_blobs = suc a.imported_blobs } in
      let after = (read_entry sha256_hex js mine healthy x a gs).1 in
      let rest =
        read_entries-blobs js mine fs ds bs (suc count) counted after wrote good (omega arith) in
      rw room (
        then_read-fine (λ b gs. read_entries sha256_hex js mine healthy (suc count) bs none b gs)
          (read_entry sha256_hex js mine healthy x a gs) counted one
        ∙ rest
        ∙ ap (λ n. (none, record a { imported_blobs = n })) (omega arith))
