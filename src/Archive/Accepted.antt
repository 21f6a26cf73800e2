-- ===== src/Archive/Accepted.antt =====
-- Which archives an import stores, and what it leaves on disk.
use mathlib.Core.List.{Memᴰ}
use mathlib.Core.List.Memᴰ.{head, tail}
use rookery.Base.{
  ◌≢◌, ℕ, suc, ◌≡◌, refl, Bool, true, false, ◌⊎◌, inl, inr, Option, none, some, List, [], ◌∷◌,
  arith, Text, codes, text_eq, text_eq_iff, equal_fold, ◌==◌, if◌then◌else◌, Bool-cases, ◌∙◌,
  find_first, Result, ok, err, length, ltb,
}
use rookery.Store.{Files, Disk, write_blob}
use rookery.Store.Blobs.{IsAddressed, write_blob-IsAddressed}
use rookery.Archive.{Manifest, ActiveKey, Owned, Db, Entry, Json, schema_version, max_tar_entries}
use rookery.Archive.Read.{
  is_blob_name, too_many_entries, digest_of, ImportError, Archived, nothing_read, Outcome, stops,
  accept_manifest, accept, accept_blob, blob_written, read_blob_entry, read_named, read_valid,
  read_entry, then_read, read_entries, validate_entry_name,
}
use rookery.Archive.Insert.{Answers}
use rookery.Archive.Import.{import_read, import_with, import_user, store_read}

module _ (sha256_hex : Text → Text) (js : Json) (mine : Text) where
  -- An entry that is the manifest of an archive of this key.
  abbrev pub IsOwnManifest : Entry → Type 0
  IsOwnManifest x =
      (m : Manifest) × (x.name ≡ codes "manifest.json")
      × (js.manifest_in x.content ≡ ok m)
      × (m.schema_version ≡ schema_version)
      × (equal_fold m.key_fingerprint mine ≡ true)

  -- What may change at an entry: the manifest only to that of an own one, the files only to addressed ones.
  record IsKept (x : Entry) (a : Archived) (fs : Files) (out : Outcome) : Type 0 where
    own : (out.0.1.manifest ≡ a.manifest) ⊎ IsOwnManifest x
    addressed : IsAddressed sha256_hex fs → IsAddressed sha256_hex out.1

  kept :
      {x : Entry} {a : Archived} {fs : Files} {out : Outcome}
      → ((out.0.1.manifest ≡ a.manifest) ⊎ IsOwnManifest x)
      → (IsAddressed sha256_hex fs → IsAddressed sha256_hex out.1)
      → IsKept x a fs out
  kept own addressed = record { own = own; addressed = addressed }

  accept-IsKept :
      {A : Type 0} (name : Text) (r : Result A) (put : A → Archived) (x : Entry) (a : Archived)
      (fs : Files)
      → ((v : A) → (put v).manifest ≡ a.manifest)
      → IsKept x a fs (accept name r put a fs)
  accept-IsKept name (err e) put x a fs keeps = kept (inl refl) (λ h. h)
  accept-IsKept name (ok v) put x a fs keeps = kept (inl (keeps v)) (λ h. h)

  accept_manifest-IsKept :
      (r : Result Manifest) (x : Entry) (a : Archived) (fs : Files)
      → x.name ≡ codes "manifest.json"
      → js.manifest_in x.content ≡ r
      → IsKept x a fs (accept_manifest mine r a fs)
  unfolding accept_manifest
  accept_manifest-IsKept (err e) x a fs named read = kept (inl refl) (λ h. h)
  accept_manifest-IsKept (ok m) x a fs named read =
      go (Bool-cases (m.schema_version == schema_version))
        (Bool-cases (equal_fold m.key_fingerprint mine))
    where
      go :
          ((m.schema_version == schema_version) ≡ true)
            ⊎ ((m.schema_version == schema_version) ≡ false)
          → (equal_fold m.key_fingerprint mine ≡ true) ⊎ (equal_fold m.key_fingerprint mine ≡ false)
          → IsKept x a fs (accept_manifest mine (ok m) a fs)
      go (inr e) f = rw e (kept (inl refl) (λ h. h))
      go (inl e) (inr f) = rw (e, f) (kept (inl refl) (λ h. h))
      go (inl e) (inl f) = rw (e, f) (kept (inr (m, named, read, ground arith, f)) (λ h. h))

  if-IsKept :
      (b : Bool) (x : Entry) (a : Archived) (fs : Files) (o p : Outcome)
      → (b ≡ true → IsKept x a fs o)
      → IsKept x a fs p
      → IsKept x a fs (if b then o else p)
  if-IsKept true x a fs o p f g = f refl
  if-IsKept false x a fs o p f g = g

  blob_written-IsKept :
      (d : Text) (x : Entry) (a : Archived) (fs : Files) (w : Result Text × Files)
      → (IsAddressed sha256_hex fs → IsAddressed sha256_hex w.1)
      → IsKept x a fs (blob_written sha256_hex d a w)
  blob_written-IsKept d x a fs (ok w, gs) h = kept (inl refl) h
  blob_written-IsKept d x a fs (err e, gs) h = kept (inl refl) h

  read_blob_entry-IsKept :
      (disk : Disk) (x : Entry) (a : Archived) (fs : Files)
      → IsKept x a fs (read_blob_entry sha256_hex disk x a fs)
  unfolding read_blob_entry accept_blob
  read_blob_entry-IsKept disk x a fs =
      if-IsKept (length (digest_of x.name) == 64) x a fs _ _
        (λ _.
          if-IsKept (text_eq (sha256_hex x.content) (digest_of x.name)) x a fs _ _
            (λ _.
              blob_written-IsKept (digest_of x.name) x a fs
                (write_blob sha256_hex disk x.content fs)
                (write_blob-IsAddressed sha256_hex disk x.content fs))
            (kept (inl refl) (λ h. h)))
        (kept (inl refl) (λ h. h))

  read_named-IsKept :
      (disk : Disk) (x : Entry) (a : Archived) (fs : Files)
      → IsKept x a fs (read_named sha256_hex js mine disk x a fs)
  unfolding read_named
  read_named-IsKept disk x a fs =
      let is : Text → Bool = λ name. text_eq x.name name in
      if-IsKept (is (codes "manifest.json")) x a fs _ _
        (λ e. accept_manifest-IsKept (js.manifest_in x.content) x a fs ((text_eq_iff _ _).0 e) refl)
        (if-IsKept (is (codes "public_key.asc")) x a fs _ _ (λ _. kept (inl refl) (λ h. h))
          (if-IsKept (is (codes "known_keys.json")) x a fs _ _
            (λ _. accept-IsKept _ _ _ x a fs (λ _. refl))
            (if-IsKept (is (codes "key_rotations.json")) x a fs _ _
              (λ _. accept-IsKept _ _ _ x a fs (λ _. refl))
              (if-IsKept (is (codes "drafts.json")) x a fs _ _
                (λ _. accept-IsKept _ _ _ x a fs (λ _. refl))
                (if-IsKept (is (codes "messages.json")) x a fs _ _
                  (λ _. accept-IsKept _ _ _ x a fs (λ _. refl))
                  (if-IsKept (is (codes "message_attachments.json")) x a fs _ _
                    (λ _. accept-IsKept _ _ _ x a fs (λ _. refl))
                    (if-IsKept (is_blob_name x.name) x a fs _ _
                      (λ _. read_blob_entry-IsKept disk x a fs) (kept (inl refl) (λ h. h)))))))))

  read_entry-IsKept :
      (disk : Disk) (x : Entry) (a : Archived) (fs : Files)
      → IsKept x a fs (read_entry sha256_hex js mine disk x a fs)
  unfolding read_entry
  read_entry-IsKept disk x a fs = go (validate_entry_name x.name)
    where
      go : (e : Option ImportError) → IsKept x a fs (read_valid sha256_hex js mine disk x e a fs)
      go (some e) = kept (inl refl) (λ h. h)
      go none = read_named-IsKept disk x a fs

  -- What reading entries may change.
  abbrev IsRead : List Entry → Archived → Files → Outcome → Type 0
  IsRead xs a fs out =
      ((out.0.1.manifest ≡ a.manifest) ⊎ ((x : Entry) × Memᴰ x xs × IsOwnManifest x))
      × (IsAddressed sha256_hex fs → IsAddressed sha256_hex out.1)

  then_read-IsRead :
      (rest : Archived → Files → Outcome) (x : Entry) (xs : List Entry) (a : Archived) (fs : Files)
      (o : Outcome)
      → IsKept x a fs o
      → IsRead xs o.0.1 o.1 (rest o.0.1 o.1)
      → IsRead (x ∷ xs) a fs (then_read sha256_hex rest o)
  then_read-IsRead rest x xs a fs ((some e, b), gs) k r =
      (elim k.own [ inl same ↦ inl same | inr own ↦ inr (x, head refl, own) ], k.addressed)
  then_read-IsRead rest x xs a fs ((none, b), gs) k (r, later) =
      (go k.own r, λ h. later (k.addressed h))
    where
      go :
          ((b.manifest ≡ a.manifest) ⊎ IsOwnManifest x)
          → ((rest b gs).0.1.manifest ≡ b.manifest) ⊎ ((x : Entry) × Memᴰ x xs × IsOwnManifest x)
          → ((rest b gs).0.1.manifest ≡ a.manifest)
            ⊎ ((y : Entry) × Memᴰ y (x ∷ xs) × IsOwnManifest y)
      go k (inr (y, there, mine)) = inr (y, tail there, mine)
      go (inr own) (inl same) = inr (x, head refl, own)
      go (inl before) (inl same) = inl (same ∙ before)

  if-IsRead :
      (b : Bool) (xs : List Entry) (a : Archived) (fs : Files) (o : Outcome)
      → IsRead xs a fs o
      → IsRead xs a fs (if b then stops too_many_entries a fs else o)
  if-IsRead true xs a fs o h = (inl refl, λ h. h)
  if-IsRead false xs a fs o h = h

  read_entries-IsRead :
      (disk : Disk) (count : ℕ) (xs : List Entry) (end : Option Text) (a : Archived) (fs : Files)
      → IsRead xs a fs (read_entries sha256_hex js mine disk count xs end a fs)
  unfolding read_entries
  read_entries-IsRead disk count [] none a fs = (inl refl, λ h. h)
  read_entries-IsRead disk count [] (some e) a fs = (inl refl, λ h. h)
  read_entries-IsRead disk count (x ∷ xs) end a fs =
      if-IsRead (ltb max_tar_entries (suc count)) (x ∷ xs) a fs _ (
        then_read-IsRead (λ b gs. read_entries sha256_hex js mine disk (suc count) xs end b gs) x xs
          a fs (read_entry sha256_hex js mine disk x a fs) (read_entry-IsKept disk x a fs)
          (read_entries-IsRead disk (suc count) xs end _ _))

module _ (sha256_hex : Text → Text) (js : Json) where
  -- An archive that is the user's: it has a manifest entry of the user's active key.
  abbrev pub IsOwnArchive : ℕ → Db → List Entry → Type 0
  IsOwnArchive user db xs =
      (k : Owned ActiveKey) × (find_first (λ k. k.user_id == user) db.active_keys ≡ some k)
      × (x : Entry) × Memᴰ x xs
      × IsOwnManifest sha256_hex js k.row.fingerprint x

  store_read-IsOwn :
      (a : Answers) (user : ℕ) (e : Option ImportError) (r : Archived) (db : Db)
      → ((store_read a user e r.manifest r db).1.db ≡ db) ⊎ (r.manifest ≢ none)
  store_read-IsOwn a user (some e) r db = inl refl
  store_read-IsOwn a user none r db = go r.manifest
    where
      go : (m : Option Manifest) → ((store_read a user none m r db).1.db ≡ db) ⊎ (m ≢ none)
      go none = inl refl
      go (some m) = inr (λ h. cc)

  -- An import changes the database only for an archive that has a manifest of the known schema with
  -- the fingerprint of the user's active key; whatever is uploaded, and however the import ends, each
  -- file of the blob store stands at the digest of its content, if it did so before.
  pub import_user-IsOwn :
      (a : Answers) (disk : Disk) (user : ℕ) (xs : List Entry) (end : Option Text) (db : Db)
      (fs : Files)
      → IsAddressed sha256_hex fs
      → (((import_user sha256_hex js a disk user xs end db fs).db ≡ db) ⊎ IsOwnArchive user db xs)
        × IsAddressed sha256_hex (import_user sha256_hex js a disk user xs end db fs).files
  unfolding import_user
  import_user-IsOwn a disk user xs end db fs addressed =
      go a.key_err (find_first (λ k. k.user_id == user) db.active_keys) refl
    where
      read :
          (k : Owned ActiveKey) (o : Outcome)
          → find_first (λ k. k.user_id == user) db.active_keys ≡ some k
          → IsRead sha256_hex js k.row.fingerprint xs nothing_read fs o
          → (((import_read a user db o).db ≡ db) ⊎ IsOwnArchive user db xs)
            × IsAddressed sha256_hex (import_read a user db o).files
      read k ((e, r), gs) active (inr (x, there, own), later) =
          (inr (k, active, x, there, own), later addressed)
      read k ((e, r), gs) active (inl same, later) = (
        elim (store_read-IsOwn a user e r db) [ inl u ↦ inl u | inr n ↦ absurd (n same) ],
        later addressed,
      )

      go :
          (e : Option Text) (key : Option (Owned ActiveKey))
          → find_first (λ k. k.user_id == user) db.active_keys ≡ key
          → (((import_with sha256_hex js a disk user xs end e key db fs).db ≡ db)
              ⊎ IsOwnArchive user db xs)
            × IsAddressed sha256_hex
                (import_with sha256_hex js a disk user xs end e key db fs).files
      go (some e) key active = (inl refl, addressed)
      go none none active = (inl refl, addressed)
      go none (some k) active =
          read k (read_entries sha256_hex js k.row.fingerprint disk 0 xs end nothing_read fs) active
            (read_entries-IsRead sha256_hex js k.row.fingerprint disk 0 xs end nothing_read fs)
