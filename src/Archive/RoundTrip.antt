-- ===== src/Archive/RoundTrip.antt =====
-- An import reads what an export wrote.
pub mod Blobs
pub mod Written
pub mod Tables
use rookery.Base.{
  find_first, split-Lacks, has_suffix-append, trim_suffix-append, length-append, has_prefix-append,
  Lacks-append, lookup, cut_prefix-append, ℕ, suc, ◌+◌, ◌≤◌, ◌≡◌, refl, Bool, true, false, not,
  ◌&&◌, Option, none, some, List, [], ◌∷◌, ◌++◌, arith, Text, codes, text_eq, text_eq_refl,
  text_eq_iff, equal_fold, ◌==◌, if◌then◌else◌, Option-cases, inl, inr, sym, ap, ◌∙◌, subst, Result,
  ok, err, has_prefix, has_suffix, cut_prefix, trim_suffix, split, Lacks, length, ltb, All,
  to_lower, lower_byte,
}
use rookery.Store.{
  Eq_path, blob_path, Files, Disk, healthy, write_blob, write_new, write_missing, read_blob,
}
use rookery.Archive.{
  Manifest, Message, Attachment, ExportedKey, ExportedRotation, Draft, ActiveKey, Owned, Db, Entry,
  Json, schema_version, max_tar_entries,
}
use rookery.Archive.Export.{
  export_with, export_user, Rows, export_rows, manifest_of, entry, blob_name, table_entries,
  ExportFaults, and_entry, write_entries, write_read, write_blobs, export_for,
}
use rookery.Archive.Read.{
  goes_on, then_read, Outcome, blob_written, ImportError, Archived, nothing_read, accept_manifest,
  accept_blob, read_blob_entry, read_named, read_entry, read_entries, validate_entry_name,
  digest_of, is_blob_name,
}
use rookery.Archive.RoundTrip.Blobs.{IsBlob, read_entries-blobs}
use rookery.Archive.RoundTrip.Written.{write_blobs-Wrote, write_entries_ok}
use rookery.Archive.RoundTrip.Tables.{IsFaithful, read_of, read_entries-tables}

-- What an export wrote is read by an import without an error: the manifest, the rows of each table as
-- they were exported, and as many blobs as there are. Decoding undoes the encoding of what is
-- written, each exported digest is
-- one of SHA-256 in hex at which the right file stands, there are at most a million entries, the key
-- is the one that the export was for, and the disk works.
pub export_user-read_entries :
    (sha256_hex : Text → Text) (js : Json) (f : ExportFaults) (now user : ℕ) (domain : Text)
    (k : Owned ActiveKey) (db : Db) (fs gs : Files) (xs : List Entry)
    → IsFaithful js (manifest_of now domain k.row (export_rows user db fs)) (export_rows user db fs)
    → find_first (λ k. k.user_id == user) db.active_keys ≡ some k
    → All (IsBlob sha256_hex fs) (export_rows user db fs).blobs
    → 7 + length (export_rows user db fs).blobs ≤ max_tar_entries
    → export_user f js now user domain db fs ≡ ok xs
    → (read_entries sha256_hex js k.row.fingerprint healthy 0 xs none nothing_read gs).0 ≡ (
      none,
      read_of
          (manifest_of now domain k.row (export_rows user db fs))
          (export_rows user db fs)
          (length (export_rows user db fs).blobs),
    )
unfolding export_user write_blobs
export_user-read_entries sha256_hex js f now user domain k db fs gs xs exact active good few h =
    go f.key_err f.encrypt_err f.query_err (
      subst (λ o. export_with f js now user domain f.key_err f.encrypt_err o db fs ≡ ok xs) active
        h)
  where
    rows : Rows
    rows = export_rows user db fs

    m : Manifest
    m = manifest_of now domain k.row rows

    schema : m.schema_version ≡ schema_version
    schema = unfold manifest_of in refl

    mine : m.key_fingerprint ≡ k.row.fingerprint
    mine = unfold manifest_of in refl

    Reads : Type 0
    Reads =
        (read_entries sha256_hex js k.row.fingerprint healthy 0 xs none nothing_read gs).0
        ≡ (none, read_of m rows (length rows.blobs))

    whole :
        write_entries f.write_err (table_entries js m k.row rows) (write_blobs f fs rows.blobs)
          ≡ ok xs
        → Reads
    whole e =
        let (bs, blobs, is) =
          write_entries_ok f.write_err (table_entries js m k.row rows) (write_blobs f fs rows.blobs)
            xs e in
        ap
          (λ ys. (read_entries sha256_hex js k.row.fingerprint healthy 0 ys none nothing_read gs).0)
          is
        ∙ ap (λ o. o.0)
            (read_entries-tables sha256_hex js k.row.fingerprint gs m k.row rows bs exact schema
              mine)
        ∙ read_entries-blobs sha256_hex js k.row.fingerprint fs rows.blobs bs 7 (read_of m rows 0)
            gs (write_blobs-Wrote f fs rows.blobs bs blobs) good few
        ∙ ap (λ n. (none, read_of m rows n)) (omega arith)

    go :
        (e1 e2 e3 : Option Text)
        → export_with (record f { query_err = e3 }) js now user domain e1 e2 (some k) db fs ≡ ok xs
        → Reads
    go (some x) e2 e3 e = cc
    go none (some x) e3 e = cc
    go none none (some x) e = cc
    go none none none e = whole e
