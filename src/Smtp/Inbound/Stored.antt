-- ===== src/Smtp/Inbound/Stored.antt =====
-- What DATA leaves in the mailboxes.
use rookery.Base.{
  subst, ℕ, suc, ◌≢◌, Option-cases, ◌≡◌, inl, inr, refl, sym, ap, ◌∙◌, Option, none, some, List, [],
  ◌∷◌, ◌++◌, arith, Text, length, Eq_number, Result, ok, err,
}
use rookery.Store.{Files, Disk, write_blob, read_blob}
use rookery.Store.Blobs.{IsAddressed, write_blob_read}
use rookery.Smtp.Inbound.Copies.{AreShares, AreShares-same, deliver_each-AreShares}
use rookery.Smtp.Reply.{accepted}
use rookery.Smtp.Inbound.{
  InboxRow, MailStore, Resolution, found, no_such_user, account_suspended, lookup_failed,
  resolve_recipient,
}
use rookery.Smtp.Inbound.Data.{
  Spam, unchecked, check_failed, action, spam_reply, Delivery, Readers, Incoming, store_copy,
  deliver_resolved, deliver_each, store_incoming, after_spam, after_read, data_of,
}

module _ (rd : Readers) (m : Incoming) where
  -- No copy can be stored.
  deliver_each_lost :
      (ds : ℕ → Delivery) (i : ℕ) (tos : List Text) (st : MailStore)
      → ((i : ℕ) → (e : Text) × ((ds i).store_err ≡ some e))
      → deliver_each rd ds i m tos st ≡ st
  unfolding deliver_each
  deliver_each_lost ds i [] st fails = refl
  deliver_each_lost ds i (to ∷ tos) st fails =
      ap (deliver_each rd ds (suc i) m tos) (one (resolve_recipient (ds i).lookups st to))
      ∙ deliver_each_lost ds (suc i) tos st fails
    where
      copy : (uid : ℕ) → store_copy rd (ds i) m uid (ds i).store_err st ≡ st
      copy uid =
          let (e, h) = fails i in
          ap (λ o. store_copy rd (ds i) m uid o st) h ∙ (unfold store_copy in refl)

      one : (r : Resolution) → deliver_resolved rd (ds i) m r st ≡ st
      one (found uid c) = unfold deliver_resolved in copy uid
      one no_such_user = unfold deliver_resolved in refl
      one account_suspended = unfold deliver_resolved in refl
      one (lookup_failed e) = unfold deliver_resolved in refl

spam_reply-ne-accepted : (s : Spam) → spam_reply s ≢ some accepted
unfolding spam_reply
spam_reply-ne-accepted unchecked h = cc
spam_reply-ne-accepted (check_failed e) h = cc
spam_reply-ne-accepted (action a) h = ground arith

module _ (rd : Readers) (ds : ℕ → Delivery) (disk : Disk) (from raw : Text) where
  abbrev pub incoming : Text → Incoming
  incoming blob = record { from = from; raw = raw; blob = blob }

  store_incoming_ok :
      (tos : List Text) (w : Result Text × Files) (st : MailStore)
      → (store_incoming rd ds from raw tos w st).0 ≡ accepted
      → (blob : Text) × (w.0 ≡ ok blob)
        × ((rows : List InboxRow) × ((store_incoming rd ds from raw tos w st).1.messages
              ≡ st.messages ++ rows)
            × ((store_incoming rd ds from raw tos w st).1.files ≡ w.1)
            × AreShares rd (incoming blob) ds 0 (record st { files = w.1 }) tos rows)
  unfolding store_incoming
  store_incoming_ok tos (err e, fs) st h = cc
  store_incoming_ok tos (ok blob, fs) st h =
      (blob, refl, deliver_each-AreShares rd (incoming blob) ds 0 tos (record st { files = fs }))

  -- The message can be read from the disk under its digest, and behind the old rows there are the
  -- recipients' shares of it.
  abbrev pub StoresCopies : List Text → MailStore → MailStore → Type 0
  StoresCopies tos st st' =
      ((rows : List InboxRow) × (st'.messages ≡ st.messages ++ rows)
        × AreShares rd (incoming (rd.sha256_hex raw)) ds 0 st tos rows)
      × ((b : Text) × (read_blob (rd.sha256_hex raw) st'.files ≡ some b)
          × (rd.sha256_hex b ≡ rd.sha256_hex raw))

  store_incoming-StoresCopies :
      (tos : List Text) (st : MailStore)
      → ((b : Text) → length (rd.sha256_hex b) ≡ 64)
      → IsAddressed rd.sha256_hex st.files
      → (store_incoming rd ds from raw tos (write_blob rd.sha256_hex disk raw st.files) st).0
        ≡ accepted
      → StoresCopies tos st
          (store_incoming rd ds from raw tos (write_blob rd.sha256_hex disk raw st.files) st).1
  store_incoming-StoresCopies tos st long addressed h =
      let w = write_blob rd.sha256_hex disk raw st.files in
      let (blob, written, (rows, grown, files, shares)) = store_incoming_ok tos w st h in
      let (same, (b, there, digest)) =
        write_blob_read rd.sha256_hex disk raw st.files long addressed written in
      (
        (
          rows,
          grown,
          AreShares-same rd (incoming (rd.sha256_hex raw)) ds 0 st (record st { files = w.1 }) tos
              rows (refl, refl, λ id. refl)
              (subst (λ d. AreShares rd (incoming d) ds 0 (record st { files = w.1 }) tos rows) same
                shares),
        ),
        (
          b,
          subst (λ fs. read_blob (rd.sha256_hex raw) fs ≡ some b) (sym files)
              (subst (λ d. read_blob d w.1 ≡ some b) same there),
          digest ∙ same,
        ),
      )

  -- When DATA is accepted, it was not refused as spam, the digest of the message is read back from the
  -- disk with content that has it, and behind the older rows each recipient, in order, has one row:
  -- for the user that the address resolves to, with the digest, the size, the sender and the structure
  -- of this message. A recipient has none only where the address resolves to no user who can receive
  -- mail, its look-up fails, or the INSERT fails. Before, each file stands where its content says, and digests have 64 characters.
  pub data_of-StoresCopies :
      (read_err : Option Text) (spam : Spam) (tos : List Text) (st : MailStore)
      → ((b : Text) → length (rd.sha256_hex b) ≡ 64)
      → IsAddressed rd.sha256_hex st.files
      → (data_of read_err spam rd ds disk from raw tos st).0 ≡ accepted
      → (spam_reply spam ≡ none)
        × StoresCopies tos st (data_of read_err spam rd ds disk from raw tos st).1
  unfolding data_of after_read after_spam
  data_of-StoresCopies read_err spam [] st long addressed h = cc
  data_of-StoresCopies (some e) spam (to ∷ tos) st long addressed h = cc
  data_of-StoresCopies none spam (to ∷ tos) st long addressed h =
      elim (Option-cases (spam_reply spam)) [
        | inl clean ↦ (
          clean,
          rw clean (store_incoming-StoresCopies (to ∷ tos) st long addressed (rw clean at h)),
        )
        | inr (reply, refused) ↦
            absurd (spam_reply-ne-accepted spam (refused ∙ ap some (rw refused at h)))
      ]

  -- When a message for at least one recipient is no spam and is written to disk, but no copy can be
  -- stored, DATA is accepted all the same, and no mailbox has the message.
  pub data_of_lost :
      (spam : Spam) (to : Text) (tos : List Text) (st : MailStore) (blob : Text)
      → spam_reply spam ≡ none
      → (write_blob rd.sha256_hex disk raw st.files).0 ≡ ok blob
      → ((i : ℕ) → (e : Text) × ((ds i).store_err ≡ some e))
      → let (reply, st') = data_of none spam rd ds disk from raw (to ∷ tos) st in
        (reply ≡ accepted) × (st'.messages ≡ st.messages)
  unfolding data_of after_read after_spam store_incoming
  data_of_lost spam to tos st blob clean written fails =
      rw clean (go (write_blob rd.sha256_hex disk raw st.files) written)
    where
      go :
          (w : Result Text × Files)
          → w.0 ≡ ok blob
          → let (reply, st') = store_incoming rd ds from raw (to ∷ tos) w st in
            (reply ≡ accepted) × (st'.messages ≡ st.messages)
      go (err e, fs) h = cc
      go (ok b, fs) h = (
        refl,
        ap (λ (x : MailStore). x.messages)
            (deliver_each_lost rd (incoming b) ds 0 (to ∷ tos) (record st { files = fs }) fails),
      )
