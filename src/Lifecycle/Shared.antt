-- ===== src/Lifecycle/Shared.antt =====
-- What the deletion of an account leaves to the others.
use mathlib.Core.List.{Memᴰ}
use mathlib.Core.List.Memᴰ.{head, tail}
use rookery.Base.{
  ℕ, ◌≡◌, ◌≢◌, refl, Bool, true, false, ◌&&◌, not, Option, none, some, List, [], ◌∷◌, arith, Text,
  text_eq, text_eq_refl, text_eq_iff, ◌==◌, any, select, map, length, All, Bool-cases, inl, inr,
  sym, ap, ◌∙◌, subst,
}
use rookery.Store.Blobs.{read_blob-delete_blob}
use rookery.Store.{Files, read_blob, delete_blob}
use rookery.Lifecycle.{
  delete_domain, delete_row, Deleted, then_tx, exclusive_domains, delete_domains, MessageRow, Db,
  Faults, is_shared, distinct, exclusive_blobs, remove_blobs, TxResult, committed, begun,
  delete_in_tx, delete_user,
}

distinct-All : (P : Text → Type 0) (ds : List Text) → All P ds → All P (distinct ds)
unfolding distinct
distinct-All P [] h = tt
distinct-All P (d ∷ ds) h = elim (Bool-cases (any (λ e. text_eq e d) ds)) [
  | inl e ↦ rw e (distinct-All P ds h.1)
  | inr e ↦ rw e (h.0, distinct-All P ds h.1)
]

-- What is removed is a blob of nobody else, and a digest of the right length.
abbrev IsExclusive : ℕ → Db → Text → Type 0
IsExclusive user db d = (is_shared user db.messages d ≡ false) × (length d ≡ 64)

selected-IsExclusive :
    (user : ℕ) (db : Db) (rows : List MessageRow)
    → All (λ m. length m.blob_sha256 ≡ 64) rows
    → All (IsExclusive user db) (
        map
          (λ m. m.blob_sha256)
          (select (λ m. m.user_id == user && not (is_shared user db.messages m.blob_sha256)) rows))
selected-IsExclusive user db [] h = tt
selected-IsExclusive user db (m ∷ rows) h =
    elim (Bool-cases (m.user_id == user && not (is_shared user db.messages m.blob_sha256))) [
      | inl e ↦ rw e ((ground arith, h.0), selected-IsExclusive user db rows h.1)
      | inr e ↦ rw e (selected-IsExclusive user db rows h.1)
    ]

remove_blobs-keeps :
    (f : Faults) (d : Text) (ds : List Text) (fs : Files)
    → length d ≡ 64
    → All (λ e. (e ≢ d) × (length e ≡ 64)) ds
    → read_blob d (remove_blobs f ds fs) ≡ read_blob d fs
unfolding remove_blobs
remove_blobs-keeps f d [] fs long h = refl
remove_blobs-keeps f d (e ∷ ds) fs long h =
    let kept = remove_blobs-keeps f d ds fs long h.1 in
    let gone = remove_blobs-keeps f d ds (delete_blob e fs) long h.1 in
    let other = read_blob-delete_blob (λ t. t) e d fs (h.0.1 ∙ sym long) in
    ground (arith, h.0.0, text_eq_iff e d)

any-Memᴰ :
    (p : MessageRow → Bool) (rows : List MessageRow) (m : MessageRow)
    → Memᴰ m rows
    → p m ≡ true
    → any p rows ≡ true
any-Memᴰ p [] m there h = elim there [ ]
any-Memᴰ p (n ∷ rows) m (head same) h = let good : p n ≡ true = ap p (sym same) ∙ h in ground arith
any-Memᴰ p (n ∷ rows) m (tail there) h = ground (arith, any-Memᴰ p rows m there h)

select-Memᴰ :
    (p : MessageRow → Bool) (rows : List MessageRow) (m : MessageRow)
    → Memᴰ m rows
    → p m ≡ true
    → Memᴰ m (select p rows)
select-Memᴰ p [] m there h = elim there [ ]
select-Memᴰ p (n ∷ rows) m (head same) h =
    let good : p n ≡ true = ap p (sym same) ∙ h in rw good (head same)
select-Memᴰ p (n ∷ rows) m (tail there) h = elim (Bool-cases (p n)) [
  | inl e ↦ rw e (tail (select-Memᴰ p rows m there h))
  | inr e ↦ rw e (select-Memᴰ p rows m there h)
]

All-Memᴰ :
    (P : MessageRow → Type 0) (rows : List MessageRow) (m : MessageRow)
    → All P rows
    → Memᴰ m rows
    → P m
All-Memᴰ P [] m h there = elim there [ ]
All-Memᴰ P (n ∷ rows) m h (head same) = subst P (sym same) h.0
All-Memᴰ P (n ∷ rows) m h (tail there) = All-Memᴰ P rows m h.1 there

-- What is removed is no blob of a message of another user.
exclusive-differs :
    (user : ℕ) (db : Db) (m : MessageRow) (ds : List Text)
    → Memᴰ m db.messages
    → m.user_id ≢ user
    → All (IsExclusive user db) ds
    → All (λ e. (e ≢ m.blob_sha256) × (length e ≡ 64)) ds
unfolding is_shared
exclusive-differs user db m [] there other h = tt
exclusive-differs user db m (d ∷ ds) there other h = (
  (
    λ same.
        let shared =
          any-Memᴰ (λ n. text_eq n.blob_sha256 d && not (n.user_id == user)) db.messages m there
            (rw (sym same, text_eq_refl d) (ground arith)) in
        ground arith,
    h.0.1,
  ),
  exclusive-differs user db m ds there other h.1,
)

delete_domains-messages :
    (f : Faults) (ids : List ℕ) (db : Db) → (delete_domains f ids db).1.messages ≡ db.messages
unfolding delete_domains
delete_domains-messages f [] db = refl
delete_domains-messages f (id ∷ ids) db =
    go (f.domain_err id) (any (λ a. a.domain_id == id) db.addresses)
      (λ db. delete_domains-messages f ids db)
  where
    gone : Db
    gone = record db { domains = select (λ d. not (d.id == id)) db.domains }

    go :
        (e : Option Text) (b : Bool)
        → ((db : Db) → (delete_domains f ids db).1.messages ≡ db.messages)
        → (then_tx (λ db. delete_domains f ids db) (delete_domain e id db)).1.messages ≡ db.messages
    go (some e) b rest = refl
    go none b rest = elim (Bool-cases (any (λ a. a.domain_id == id) db.addresses)) [
      | inl e ↦ rw e refl
      | inr e ↦ rw e (rest gone)
    ]

-- What a deletion keeps of another user's message: the row, and the blob as it was.
abbrev pub Keeps : Db → Files → MessageRow → Deleted → Type 0
Keeps db fs m out =
    Memᴰ m out.db.messages × (read_blob m.blob_sha256 out.files ≡ read_blob m.blob_sha256 fs)

delete_in_tx-Memᴰ :
    (f : Faults) (user : ℕ) (e : Option Text) (db : Db) (m : MessageRow)
    → Memᴰ m db.messages
    → m.user_id ≢ user
    → Memᴰ m (delete_in_tx f user e db).1.messages
unfolding delete_in_tx
delete_in_tx-Memᴰ f user (some e) db m there other = there
delete_in_tx-Memᴰ f user none db m there other = elim (Bool-cases (any (λ u. u == user) db.users)) [
  | inr e ↦ rw e there
  | inl e ↦ rw e (
      subst (λ rows. Memᴰ m rows)
        (sym (delete_domains-messages f (exclusive_domains user db) (delete_row user db)))
        (unfold delete_row in
          select-Memᴰ (λ m. not (m.user_id == user)) db.messages m there (ground arith)))
]

-- However the deletion of an account ends, each message of another user is still there, and its blob
-- reads as before, also where the deleted user had a message with the same blob. Digests are 64 bytes
-- long.
pub delete_user-Keeps :
    (f : Faults) (user : ℕ) (db : Db) (fs : Files) (m : MessageRow)
    → All (λ m. length m.blob_sha256 ≡ 64) db.messages
    → Memᴰ m db.messages
    → m.user_id ≢ user
    → Keeps db fs m (delete_user f user db fs)
unfolding delete_user
delete_user-Keeps f user db fs m long there other = go f.begin_err f.blobs_err f.domains_err
  where
    removed : All (λ e. (e ≢ m.blob_sha256) × (length e ≡ 64)) (exclusive_blobs user db)
    removed = exclusive-differs user db m (exclusive_blobs user db) there other (
        unfold exclusive_blobs in
        distinct-All (IsExclusive user db) _ (selected-IsExclusive user db db.messages long))

    end :
        (c : Option Text) (tx : TxResult)
        → Memᴰ m tx.1.messages
        → Keeps db fs m (committed f c tx (exclusive_blobs user db) db fs)
    end c (some e, tx) left = (there, refl)
    end (some e) (none, tx) left = (there, refl)
    end none (none, tx) left = (
      left,
      remove_blobs-keeps f m.blob_sha256 (exclusive_blobs user db) fs
          (All-Memᴰ _ db.messages m long there) removed,
    )

    go : (e1 e2 e3 : Option Text) → Keeps db fs m (begun f user e1 e2 e3 db fs)
    go (some e) e2 e3 = (there, refl)
    go none (some e) e3 = (there, refl)
    go none none (some e) = (there, refl)
    go none none none =
        end f.commit_err (delete_in_tx f user f.delete_err db)
          (delete_in_tx-Memᴰ f user f.delete_err db m there other)
