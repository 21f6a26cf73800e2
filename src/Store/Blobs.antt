-- ===== src/Store/Blobs.antt =====
-- What reading, writing and deleting blobs do to one another.
use rookery.Base.{
  ◌≡◌, inl, inr, refl, sym, ap, none, some, [], ◌∷◌, ◌++◌, ◌∙◌, text_eq_iff, Eq_text, arith, Text,
  codes, length, if◌then◌else◌, lookup, lookup-insert, lookup-erase, lookup-insert_self, ◌=?◌,
  Option-cases, ok,
}
use rookery.Store.{
  BlobPath, Eq_path, Files, blob_path, path_eq_iff, Disk, healthy, mkdir_fails, write_fails,
  rename_fails, write_new, write_missing, write_blob, read_blob, delete_blob,
}

append_cancel : (s t u : Text) → s ++ u ≡ t ++ u → length s ≡ length t → s ≡ t
append_cancel [] [] u h k = refl
append_cancel (a ∷ s) (b ∷ t) u h k = ground (arith, append_cancel s t u)
append_cancel [] (b ∷ t) u h k = absurd (omega arith)
append_cancel (a ∷ s) [] u h k = absurd (omega arith)

-- What path a digest gets, as far as proofs need it: the last segment.
last_segment : BlobPath → Text
last_segment [] = []
last_segment (s ∷ []) = s
last_segment (s ∷ t ∷ p) = last_segment (t ∷ p)

last_segment-blob_path : (d : Text) → last_segment (blob_path d) ≡ d ++ codes ".eml"
unfolding blob_path last_segment
last_segment-blob_path d = ground arith

-- Digests of the same length have different paths.
pub blob_path-injective : (d e : Text) → length d ≡ length e → blob_path d ≡ blob_path e → d ≡ e
blob_path-injective d e k h =
    append_cancel d e (codes ".eml")
      (sym (last_segment-blob_path d) ∙ ap last_segment h ∙ last_segment-blob_path e) k

module _ (sha256_hex : Text → Text) where
  -- Each file stands where the digest of its content says.
  abbrev pub IsAddressed : Files → Type 0
  IsAddressed fs = (p : BlobPath) (b : Text) → lookup p fs ≡ some b → p ≡ blob_path (sha256_hex b)

  write_new-IsAddressed :
      (disk : Disk) (bytes : Text) (fs : Files)
      → IsAddressed fs
      → IsAddressed (write_new sha256_hex disk bytes fs).1
  unfolding write_new
  write_new-IsAddressed healthy bytes fs h p b k =
      let q = blob_path (sha256_hex bytes) in
      ground (arith, lookup-insert q p bytes fs, path_eq_iff q p, h p b)
  write_new-IsAddressed (mkdir_fails e) bytes fs h p b k = h p b k
  write_new-IsAddressed (write_fails e) bytes fs h p b k = h p b k
  write_new-IsAddressed (rename_fails e) bytes fs h p b k = h p b k

  -- Writing keeps every file at the address that its content determines.
  pub write_blob-IsAddressed :
      (disk : Disk) (bytes : Text) (fs : Files)
      → IsAddressed fs
      → IsAddressed (write_blob sha256_hex disk bytes fs).1
  unfolding write_blob write_missing
  write_blob-IsAddressed disk bytes fs h =
      elim (Option-cases (lookup (blob_path (sha256_hex bytes)) fs)) [
        | inl e ↦ rw e (write_new-IsAddressed disk bytes fs h)
        | inr (old, e) ↦ rw e h
      ]

  write_new_keeps :
      (disk : Disk) (bytes e : Text) (fs : Files) (b : Text)
      → lookup (blob_path (sha256_hex bytes)) fs ≡ none
      → read_blob e fs ≡ some b
      → read_blob e (write_new sha256_hex disk bytes fs).1 ≡ some b
  unfolding write_new read_blob
  write_new_keeps healthy bytes e fs b h k =
      let q = blob_path (sha256_hex bytes) in
      ground (arith, lookup-insert q (blob_path e) bytes fs, path_eq_iff q (blob_path e))
  write_new_keeps (mkdir_fails x) bytes e fs b h k = k
  write_new_keeps (write_fails x) bytes e fs b h k = k
  write_new_keeps (rename_fails x) bytes e fs b h k = k

  -- A write, whether it succeeds or not, changes no blob that is there.
  pub write_blob_keeps :
      (disk : Disk) (bytes e : Text) (fs : Files) (b : Text)
      → read_blob e fs ≡ some b
      → read_blob e (write_blob sha256_hex disk bytes fs).1 ≡ some b
  unfolding write_blob write_missing
  write_blob_keeps disk bytes e fs b k =
      elim (Option-cases (lookup (blob_path (sha256_hex bytes)) fs)) [
        | inl q ↦ rw q (write_new_keeps disk bytes e fs b q k)
        | inr (old, q) ↦ rw q k
      ]

  write_new_read :
      (disk : Disk) (bytes : Text) (fs : Files) (d : Text)
      → (write_new sha256_hex disk bytes fs).0 ≡ ok d
      → (d ≡ sha256_hex bytes) × (read_blob d (write_new sha256_hex disk bytes fs).1 ≡ some bytes)
  unfolding write_new read_blob
  write_new_read healthy bytes fs d h =
      let e : d ≡ sha256_hex bytes = ground arith in (e, rw e (lookup-insert_self _ bytes fs))
  write_new_read (mkdir_fails x) bytes fs d h = cc
  write_new_read (write_fails x) bytes fs d h = cc
  write_new_read (rename_fails x) bytes fs d h = cc

  -- In a store where each file stands where its content says, with digests of 64 characters: after a
  -- successful write the returned digest is that of the data, and reading it gives content with that
  -- digest, also where a file was there already.
  pub write_blob_read :
      (disk : Disk) (bytes : Text) (fs : Files) {d : Text}
      → ((b : Text) → length (sha256_hex b) ≡ 64)
      → IsAddressed fs
      → (write_blob sha256_hex disk bytes fs).0 ≡ ok d
      → (d ≡ sha256_hex bytes)
        × ((b : Text) × (read_blob d (write_blob sha256_hex disk bytes fs).1 ≡ some b)
            × (sha256_hex b ≡ d))
  unfolding write_blob write_missing read_blob
  write_blob_read disk bytes fs {d} len h k =
      let q = blob_path (sha256_hex bytes) in
      elim (Option-cases (lookup q fs)) [
        | inl e ↦
            let (same, back) = write_new_read disk bytes fs d (rw e at k) in
            (same, rw e (bytes, back, sym same))
        | inr (old, e) ↦
            let same : d ≡ sha256_hex bytes = ground arith in
            let back : sha256_hex bytes ≡ sha256_hex old =
              blob_path-injective _ _ (len bytes ∙ sym (len old)) (h q old e) in
            (same, rw e (old, ap (λ x. lookup (blob_path x) fs) same ∙ e, sym back ∙ sym same))
      ]

  -- Deleting a blob removes it, and no blob with another digest.
  pub read_blob-delete_blob :
      (d e : Text) (fs : Files)
      → length d ≡ length e
      → read_blob e (delete_blob d fs) ≡ (if d =? e then none else read_blob e fs)
  unfolding read_blob delete_blob
  read_blob-delete_blob d e fs len = ground (
    arith,
    lookup-erase (blob_path d) (blob_path e) fs,
    path_eq_iff (blob_path d) (blob_path e),
    blob_path-injective d e len,
    text_eq_iff d e,
  )
