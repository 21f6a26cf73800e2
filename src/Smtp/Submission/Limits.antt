-- ===== src/Smtp/Submission/Limits.antt =====
-- How much a relay client can queue.
use rookery.Base.{
  ap, subst, ◌∙◌, ℕ, ◌+◌, ◌-◌, ◌≤◌, ◌<◌, ◌≡◌, refl, Bool, false, Option, none, some, List, [], ◌∷◌,
  ◌++◌, map, arith, Text, length, select, Result, ok, err, Bool-cases, inl, inr,
}
use rookery.Store.{Files, write_blob, read_blob}
use rookery.Store.Blobs.{IsAddressed, write_blob_read}
use rookery.Smtp.Reply.{accepted}
use rookery.Smtp.Submission.{
  RelayClient, RelayedRow, RelayStore, Session, Env, count_since, hour, over_limit, is_limited,
  row_for, enqueue, store_and_enqueue, read_and_store, data_of,
}

length-select_append :
    {A : Type 0} (p : A → Bool) (xs ys : List A)
    → length (select p (xs ++ ys)) ≡ length (select p xs) + length (select p ys)
length-select_append p [] ys = omega arith
length-select_append p (x ∷ xs) ys = ground (arith, length-select_append p xs ys)

count_since-append :
    (id since : ℕ) (xs ys : List RelayedRow)
    → count_since id since (xs ++ ys) ≡ count_since id since xs + count_since id since ys
unfolding count_since
count_since-append id since xs ys = length-select_append _ xs ys

count_since-row_for :
    (since now : ℕ) (rc : RelayClient) (from blob : Text) (tos : List Text)
    → count_since rc.id since (map (row_for now rc from blob) tos) ≤ length tos
unfolding count_since
count_since-row_for since now rc from blob [] = omega arith
count_since-row_for since now rc from blob (to ∷ tos) =
    ground (arith, count_since-row_for since now rc from blob tos)

within_limit :
    (o : Option Text) (env : Env) (rc : RelayClient) (tos : List Text) (st : RelayStore)
    → is_limited o env rc tos st ≡ false
    → o ≡ none
    → 0 < rc.rate_per_hour
    → count_since rc.id (env.now - hour) st.queued + length tos ≤ rc.rate_per_hour
unfolding is_limited over_limit
within_limit (some e) env rc tos st h k p = cc
within_limit none env rc tos st h k p = ground arith

queue_within :
    (id since cap now : ℕ) (rc : RelayClient) (from blob : Text) (tos : List Text)
    (old new : List RelayedRow)
    → id ≡ rc.id
    → new ≡ old ++ map (row_for now rc from blob) tos
    → count_since id since old + length tos ≤ cap
    → count_since id since new ≤ cap
queue_within id since cap now rc from blob tos old new i e h =
    rw (e, i)
      (omega (
        arith,
        count_since-append rc.id since old (map (row_for now rc from blob) tos),
        count_since-row_for since now rc from blob tos,
        ap (λ x. count_since x since old) i,
      ))

module _ (sha256_hex : Text → Text) (matches : (secret_hash password : Text) → Bool) where
  store_and_enqueue_ok :
      (env : Env) (rc : RelayClient) (s : Session) (w : Result Text × Files) (st : RelayStore)
      → (store_and_enqueue env rc s w st).0 ≡ accepted
      → (blob : Text) × (w.0 ≡ ok blob)
        × ((store_and_enqueue env rc s w st).2.queued
            ≡ st.queued ++ map (row_for env.now rc s.from blob) s.recipients)
        × ((store_and_enqueue env rc s w st).2.files ≡ w.1)
  unfolding store_and_enqueue
  store_and_enqueue_ok env rc s (err e, fs) st h = cc
  store_and_enqueue_ok env rc s (ok blob, fs) st h =
      let (rows, files) = go env.enqueue_err h in (blob, refl, rows, files)
    where
      go :
          (e : Option Text)
          → (enqueue e env.now rc s blob (record st { files = fs })).0 ≡ accepted
          → ((enqueue e env.now rc s blob (record st { files = fs })).2.queued
              ≡ st.queued ++ map (row_for env.now rc s.from blob) s.recipients)
            × ((enqueue e env.now rc s blob (record st { files = fs })).2.files ≡ fs)
      go (some x) = unfold enqueue in λ k. cc
      go none = unfold enqueue in λ k. (refl, refl)

  read_and_store_ok :
      (r : Option Text) (env : Env) (rc : RelayClient) (s : Session) (raw : Text) (st : RelayStore)
      → (read_and_store sha256_hex matches r env rc s raw st).0 ≡ accepted
      → (blob : Text) × ((write_blob sha256_hex env.disk raw st.files).0 ≡ ok blob)
        × ((read_and_store sha256_hex matches r env rc s raw st).2.queued
            ≡ st.queued ++ map (row_for env.now rc s.from blob) s.recipients)
        × ((read_and_store sha256_hex matches r env rc s raw st).2.files
            ≡ (write_blob sha256_hex env.disk raw st.files).1)
  unfolding read_and_store
  read_and_store_ok (some e) env rc s raw st h = cc
  read_and_store_ok none env rc s raw st h =
      store_and_enqueue_ok env rc s (write_blob sha256_hex env.disk raw st.files) st h

  data_of_passed :
      (env : Env) (rc : RelayClient) (tos : List Text) (s : Session) (raw : Text) (st : RelayStore)
      → (data_of sha256_hex matches env rc tos s raw st).0 ≡ accepted
      → (is_limited env.count_err env rc tos st ≡ false)
        × (data_of sha256_hex matches env rc tos s raw st
            ≡ read_and_store sha256_hex matches env.read_err env rc s raw st)
  unfolding data_of
  data_of_passed env rc [] s raw st h = cc
  data_of_passed env rc (to ∷ more) s raw st h =
      elim (Bool-cases (is_limited env.count_err env rc (to ∷ more) st)) [
        | inl over ↦ absurd (ground arith)
        | inr under ↦ (under, rw under refl)
      ]

  data_of_stored :
      (env : Env) (rc : RelayClient) (tos : List Text) (s : Session) (raw : Text) (st : RelayStore)
      → (data_of sha256_hex matches env rc tos s raw st).0 ≡ accepted
      → (blob : Text) × ((write_blob sha256_hex env.disk raw st.files).0 ≡ ok blob)
        × ((data_of sha256_hex matches env rc tos s raw st).2.queued
            ≡ st.queued ++ map (row_for env.now rc s.from blob) s.recipients)
        × ((data_of sha256_hex matches env rc tos s raw st).2.files
            ≡ (write_blob sha256_hex env.disk raw st.files).1)
  data_of_stored env rc tos s raw st h =
      let (under, same) = data_of_passed env rc tos s raw st h in
      let (blob, written, rows, files) =
        read_and_store_ok env.read_err env rc s raw st (rw same at h) in
      (blob, written, rw same rows, rw same files)

  -- After a message was accepted from a client that has a limit and could be counted, the client's
  -- rows of the last hour, the new ones included, are within the limit.
  pub data_of-limit :
      (env : Env) (rc : RelayClient) (s : Session) (raw : Text) (st : RelayStore)
      → env.count_err ≡ none
      → 0 < rc.rate_per_hour
      → (data_of sha256_hex matches env rc s.recipients s raw st).0 ≡ accepted
      → count_since rc.id
          (env.now - hour)
          (data_of sha256_hex matches env rc s.recipients s raw st).2.queued
        ≤ rc.rate_per_hour
  data_of-limit env rc s raw st counted limited h =
      let (under, same) = data_of_passed env rc s.recipients s raw st h in
      let (blob, written, rows, files) = data_of_stored env rc s.recipients s raw st h in
      queue_within rc.id (env.now - hour) rc.rate_per_hour env.now rc s.from blob s.recipients
        st.queued _ refl rows
        (within_limit env.count_err env rc s.recipients st under counted limited)

  -- A row of the queue for each recipient, in order: whose it is, from whom, to whom, with which blob
  -- and since when.
  abbrev pub AreRowsOf : ℕ → ℕ → (from blob : Text) → List Text → List RelayedRow → Type 0
  AreRowsOf now id from blob [] [] = Unit
  AreRowsOf now id from blob (to ∷ tos) (row ∷ rows) =
      (row.recipient ≡ to)
      × (row.relay_client_id ≡ id)
      × (row.mail_from ≡ from)
      × (row.blob_sha256 ≡ blob)
      × (row.created_at ≡ now)
      × AreRowsOf now id from blob tos rows
  AreRowsOf now id from blob _ _ = ⊥

  AreRowsOf-row_for :
      (now : ℕ) (rc : RelayClient) (from blob : Text) (tos : List Text)
      → AreRowsOf now rc.id from blob tos (map (row_for now rc from blob) tos)
  AreRowsOf-row_for now rc from blob [] = tt
  AreRowsOf-row_for now rc from blob (to ∷ tos) =
      (refl, refl, refl, refl, refl, AreRowsOf-row_for now rc from blob tos)

  -- When a message is accepted, the rows of the queue are those from before and behind them one for
  -- each recipient, in order: the client's, from the session's sender, made at the time of the
  -- command, with the digest of the message; and that digest is read back from the disk with content
  -- that has it. Before, each file stands where its content says, and digests have 64 characters.
  pub data_of_ok :
      (env : Env) (rc : RelayClient) (s : Session) (raw : Text) (st : RelayStore)
      → ((b : Text) → length (sha256_hex b) ≡ 64)
      → IsAddressed sha256_hex st.files
      → (data_of sha256_hex matches env rc s.recipients s raw st).0 ≡ accepted
      → let st' = (data_of sha256_hex matches env rc s.recipients s raw st).2 in
        ((rows : List RelayedRow) × (st'.queued ≡ st.queued ++ rows)
          × AreRowsOf env.now rc.id s.from (sha256_hex raw) s.recipients rows)
        × ((b : Text) × (read_blob (sha256_hex raw) st'.files ≡ some b)
            × (sha256_hex b ≡ sha256_hex raw))
  data_of_ok env rc s raw st long addressed h =
      let (blob, written, rows, files) = data_of_stored env rc s.recipients s raw st h in
      let (same, (b, there, digest)) =
        write_blob_read sha256_hex env.disk raw st.files long addressed written in
      (
        (
          map (row_for env.now rc s.from (sha256_hex raw)) s.recipients,
          rows ∙ ap (λ d. st.queued ++ map (row_for env.now rc s.from d) s.recipients) same,
          AreRowsOf-row_for env.now rc s.from (sha256_hex raw) s.recipients,
        ),
        (
          b,
          rw files (
              subst (λ d. read_blob d (write_blob sha256_hex env.disk raw st.files).1 ≡ some b) same
                there),
          digest ∙ same,
        ),
      )
