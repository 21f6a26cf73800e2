-- ===== src/Dkim/Renewed/Kept.antt =====
-- The private keys behind a re-encryption.
use rookery.Base.{
  codes, ℕ, ◌≡◌, ◌≢◌, refl, true, false, Option, none, some, List, [], ◌∷◌, arith, Text, length,
  map, All, ◌==◌, Result, ok, err, sym, ap, ◌∙◌, subst,
}
use rookery.Dkim.{DkimKey, Gcm, encrypt_key, decrypt_key}
use rookery.Dkim.Sealed.{decrypt_key-encrypt_key}
use rookery.Dkim.Renewed.{
  Pending, and_pending, again, collect, set_enc, update_next, update_all, counted, with_key,
  Rotation, re_encrypt_queried, re_encrypt_collected, re_encrypt_keys,
}

-- No two rows have the same id.
abbrev pub HasUniqueIds : List DkimKey → Type 0
HasUniqueIds [] = Unit
HasUniqueIds (k ∷ ks) = All (λ j. j.id ≢ k.id) ks × HasUniqueIds ks

set_enc-fresh : (w : Pending) (ks : List DkimKey) → All (λ k. k.id ≢ w.id) ks → set_enc w ks ≡ ks
unfolding set_enc
set_enc-fresh w [] h = refl
set_enc-fresh w (k ∷ ks) h = ground (arith, h.0, set_enc-fresh w ks h.1)

abbrev set_all : List Pending → List DkimKey → List DkimKey
set_all [] ks = ks
set_all (w ∷ ws) ks = set_all ws (set_enc w ks)

set_all-cons :
    (ws : List Pending) (k : DkimKey) (ks : List DkimKey)
    → All (λ w. w.id ≢ k.id) ws
    → set_all ws (k ∷ ks) ≡ k ∷ set_all ws ks
unfolding set_enc
set_all-cons [] k ks h = refl
set_all-cons (w ∷ ws) k ks h =
    let other : (k.id == w.id) ≡ false = ground (arith, h.0) in
    rw other (set_all-cons ws k (set_enc w ks) h.1)

-- What the rows' private keys open to under a master key.
abbrev pub opened_with : Gcm → Text → List DkimKey → List (Result Text)
opened_with gcm key ks = map (λ k. decrypt_key gcm key k.private_key_enc) ks

module _ (t : Rotation) where
  -- Each row with its new ciphertext.
  abbrev Resealed : List DkimKey → List Pending → Type 0
  Resealed [] [] = Unit
  Resealed (k ∷ ks) (w ∷ ws) =
      (w.id ≡ k.id)
      × (decrypt_key t.gcm t.new_key w.new_enc ≡ decrypt_key t.gcm t.old_key k.private_key_enc)
      × Resealed ks ws
  Resealed _ _ = ⊥

  Resealed-fresh :
      (i : ℕ) (ks : List DkimKey) (ws : List Pending)
      → Resealed ks ws
      → All (λ k. k.id ≢ i) ks
      → All (λ w. w.id ≢ i) ws
  Resealed-fresh i [] [] r h = tt
  Resealed-fresh i [] (w ∷ ws) r h = absurd r
  Resealed-fresh i (k ∷ ks) [] r h = absurd r
  Resealed-fresh i (k ∷ ks) (w ∷ ws) (same, opens, r) h =
      ((λ e. h.0 (sym same ∙ e)), Resealed-fresh i ks ws r h.1)

  set_all-Resealed :
      (ks : List DkimKey) (ws : List Pending)
      → HasUniqueIds ks
      → Resealed ks ws
      → opened_with t.gcm t.new_key (set_all ws ks) ≡ opened_with t.gcm t.old_key ks
  unfolding set_enc
  set_all-Resealed [] [] u r = refl
  set_all-Resealed [] (w ∷ ws) u r = absurd r
  set_all-Resealed (k ∷ ks) [] u r = absurd r
  set_all-Resealed (k ∷ ks) (w ∷ ws) (fresh, u) (same, opens, r) =
      let hit : (k.id == w.id) ≡ true = ground arith in
      let quiet = set_enc-fresh w ks (subst (λ i. All (λ j. j.id ≢ i) ks) (sym same) fresh) in
      let set : DkimKey = record k { private_key_enc = w.new_enc } in
      ap (λ xs. opened_with t.gcm t.new_key (set_all ws xs)) (rw (hit, quiet) refl)
      ∙ ap (opened_with t.gcm t.new_key)
          (set_all-cons ws set ks (Resealed-fresh k.id ks ws r fresh))
      ∙ ap (λ xs. decrypt_key t.gcm t.new_key w.new_enc ∷ xs) (set_all-Resealed ks ws u r)
      ∙ ap (λ x. x ∷ opened_with t.gcm t.old_key ks) opens

  module _ (opens : (k n p : Text) → t.gcm.unseal k n (t.gcm.seal k n p) ≡ some p)
      (sized : (i : ℕ) (nonce : Text)
        → t.random i ≡ ok nonce
        → length nonce ≡ t.gcm.nonce_size) where
    again_ok :
        (i : ℕ) (plain : Result Text) (enc : Text)
        → again t i plain ≡ ok enc
        → decrypt_key t.gcm t.new_key enc ≡ plain
    again_ok i (err e) enc h = cc
    again_ok i (ok p) enc h = go (t.random i) refl h
      where
        go :
            (r : Result Text)
            → t.random i ≡ r
            → with_key
                (codes "dkim: re-encrypt: re-encrypt key ")
                (t.id_text i)
                (encrypt_key t.gcm t.new_key r p)
              ≡ ok enc
            → decrypt_key t.gcm t.new_key enc ≡ ok p
        go (err e) is h = unfold encrypt_key in cc
        go (ok nonce) is h =
            decrypt_key-encrypt_key t.gcm t.new_key nonce p enc opens (sized i nonce is)
              (ground arith)

    collect-Resealed :
        (ks : List DkimKey) (ws : List Pending) → collect t ks ≡ ok ws → Resealed ks ws
    unfolding collect
    collect-Resealed [] [] h = tt
    collect-Resealed [] (w ∷ ws) h = cc
    collect-Resealed (k ∷ ks) ws h =
        go (again t k.id (decrypt_key t.gcm t.old_key k.private_key_enc))
          (again_ok k.id (decrypt_key t.gcm t.old_key k.private_key_enc)) (collect t ks)
          (collect-Resealed ks) h
      where
        go :
            (r : Result Text)
            → ((enc : Text)
                → r ≡ ok enc
                → decrypt_key t.gcm t.new_key enc ≡ decrypt_key t.gcm t.old_key k.private_key_enc)
            → (rest : Result (List Pending)) → ((vs : List Pending) → rest ≡ ok vs → Resealed ks vs)
            → and_pending k.id r rest ≡ ok ws
            → Resealed (k ∷ ks) ws
        go (err e) f rest later h = cc
        go (ok enc) f (err e) later h = cc
        go (ok enc) f (ok vs) later h =
            let first : Pending = record { id = k.id; new_enc = enc } in
            let same : first ∷ vs ≡ ws = ground arith in
            subst (Resealed (k ∷ ks)) same (refl, f enc refl, later vs refl)

update_all-none :
    (t : Rotation) (ws : List Pending) (ks : List DkimKey)
    → (update_all t ws ks).0 ≡ none
    → (update_all t ws ks).1 ≡ set_all ws ks
unfolding update_all
update_all-none t [] ks h = refl
update_all-none t (w ∷ ws) ks h = go (t.update_err w.id) h (update_all-none t ws (set_enc w ks))
  where
    go :
        (e : Option Text)
        → (update_next t e (λ keys. update_all t ws keys) w ks).0 ≡ none
        → ((update_all t ws (set_enc w ks)).0 ≡ none
            → (update_all t ws (set_enc w ks)).1 ≡ set_all ws (set_enc w ks))
        → (update_next t e (λ keys. update_all t ws keys) w ks).1 ≡ set_all ws (set_enc w ks)
    go (some e) h rest = cc
    go none h rest = rest h

counted_ok :
    (n m : ℕ) (u : Option Text × List DkimKey)
    → (counted n u).0 ≡ ok m
    → (u.0 ≡ none) × ((counted n u).1 ≡ u.1) × (n ≡ m)
counted_ok n m (some e, ks) h = cc
counted_ok n m (none, ks) h = (refl, refl, ground arith)

-- After a re-encryption that reports success, each private key opens with the new master key to what it
-- opened to with the old one. The cipher opens what it has sealed, nonces have its length, and the ids
-- of the rows are distinct.
pub re_encrypt_keys_opens :
    (t : Rotation) (keys : List DkimKey) (m : ℕ)
    → ((k n p : Text) → t.gcm.unseal k n (t.gcm.seal k n p) ≡ some p)
    → ((i : ℕ) (nonce : Text) → t.random i ≡ ok nonce → length nonce ≡ t.gcm.nonce_size)
    → HasUniqueIds keys
    → (re_encrypt_keys t keys).0 ≡ ok m
    → opened_with t.gcm t.new_key (re_encrypt_keys t keys).1 ≡ opened_with t.gcm t.old_key keys
unfolding re_encrypt_keys
re_encrypt_keys_opens t keys m opens sized unique h = queried t.query_err h
  where
    go :
        (iterate : Option Text) (c : Result (List Pending))
        → ((ws : List Pending) → c ≡ ok ws → Resealed t keys ws)
        → (re_encrypt_collected t iterate c keys).0 ≡ ok m
        → opened_with t.gcm t.new_key (re_encrypt_collected t iterate c keys).1
          ≡ opened_with t.gcm t.old_key keys
    go iterate (err e) r h = cc
    go (some e) (ok ws) r h = cc
    go none (ok ws) r h =
        let (fine, kept, count) = counted_ok (length ws) m (update_all t ws keys) h in
        ap (opened_with t.gcm t.new_key) (kept ∙ update_all-none t ws keys fine)
        ∙ set_all-Resealed t keys ws unique (r ws refl)

    queried :
        (q : Option Text)
        → (re_encrypt_queried t q keys).0 ≡ ok m
        → opened_with t.gcm t.new_key (re_encrypt_queried t q keys).1
          ≡ opened_with t.gcm t.old_key keys
    queried (some e) h = cc
    queried none h = go t.iterate_err (collect t keys) (collect-Resealed t opens sized keys) h
