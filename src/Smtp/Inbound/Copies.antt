-- ===== src/Smtp/Inbound/Copies.antt =====
-- The loop of DATA over the recipients, as the rows that it adds to the mailboxes. Storing one copy does
-- not change how the next recipient is resolved.
use rookery.Base.{
  ℕ, suc, ◌≡◌, ◌⊎◌, inl, inr, refl, sym, ap, subst, ◌∙◌, Option, none, some, List, [], ◌∷◌, ◌++◌,
  append_assoc, append-nil, Text, length, lookup, Eq_number,
}
use rookery.Smtp.Inbound.{
  InboxRow, MailStore, Resolution, found, no_such_user, account_suspended, lookup_failed,
  resolve_recipient,
}
use rookery.Smtp.Inbound.Data.{
  Delivery, add_usage, add_attachments, store_message, Readers, Incoming, store_copy,
  deliver_resolved, deliver_each,
}
use rookery.Smtp.Inbound.Tables.{
  add_attachments_shape, harvest_key_shape, add_usage_shape, standing, HaveSameTables,
  resolve_recipient_same,
}

-- The address is nobody's who can receive mail, or that is not known.
abbrev pub IsUnresolved : Resolution → Type 0
IsUnresolved r =
    (r ≡ no_such_user) ⊎ ((r ≡ account_suspended) ⊎ ((e : Text) × (r ≡ lookup_failed e)))

module _ (rd : Readers) (m : Incoming) where
  -- A row that stands for the message in a user's mailbox.
  abbrev pub IsCopyFor : ℕ → InboxRow → Type 0
  IsCopyFor uid row =
      (row.user_id ≡ uid)
      × (row.blob_sha256 ≡ m.blob)
      × (row.size_bytes ≡ length m.raw)
      × (row.from_address ≡ m.from)
      × (row.meta ≡ rd.parse_meta m.raw)

  -- What a recipient gets: one row, for the user that the address resolves to, where it resolves to one
  -- and the INSERT works; and otherwise none.
  abbrev pub IsShare : Delivery → MailStore → Text → List InboxRow → Type 0
  IsShare d st to rows =
      ((uid : ℕ) × (canonical : Text) × (resolve_recipient d.lookups st to ≡ found uid canonical)
        × (d.store_err ≡ none)
        × ((row : InboxRow) × (rows ≡ row ∷ []) × IsCopyFor uid row))
      ⊎ ((rows ≡ [])
          × (((e : Text) × (d.store_err ≡ some e))
              ⊎ IsUnresolved (resolve_recipient d.lookups st to)))

  -- The shares of the recipients, in order.
  abbrev pub AreShares : (ℕ → Delivery) → ℕ → MailStore → List Text → List InboxRow → Type 0
  AreShares ds i st [] rows = rows ≡ []
  AreShares ds i st (to ∷ tos) rows =
      (share rest : List InboxRow) × (rows ≡ share ++ rest)
      × IsShare (ds i) st to share
      × AreShares ds (suc i) st tos rest

  -- What the delivery of one copy changes: the tables that resolution reads and the files stay.
  abbrev IsDelivered : (rows : List InboxRow) → (st st' : MailStore) → Type 0
  IsDelivered rows st st' =
      (st'.messages ≡ st.messages ++ rows) × (st'.files ≡ st.files) × HaveSameTables st st'

  IsDelivered-none : (st : MailStore) → IsDelivered [] st st
  IsDelivered-none st = (sym (append-nil st.messages), refl, (refl, refl, λ id. refl))

  store_copy-IsDelivered :
      (d : Delivery) (uid : ℕ) (st : MailStore)
      → (row : InboxRow) × IsDelivered (row ∷ []) st (store_copy rd d m uid none st)
        × IsCopyFor uid row
  unfolding store_copy store_message
  store_copy-IsDelivered d uid st =
      let stored : InboxRow = record {
        id = d.message_id;
        user_id = uid;
        from_address = m.from;
        meta = rd.parse_meta m.raw;
        size_bytes = length m.raw;
        blob_sha256 = m.blob;
      } in
      let put : MailStore = record st { messages = st.messages ++ stored ∷ [] } in
      let (us, same_users, used) = add_usage_shape d.usage_fails uid (length m.raw) put in
      let (metas, attached) =
        add_attachments_shape d.attachment_fails d.message_id (rd.parse_meta m.raw).attachments
          (add_usage d.usage_fails uid (length m.raw) put) in
      let (ks, harvested) = harvest_key_shape rd d uid m.from (rd.attached_key m.raw) (
        add_attachments d.attachment_fails d.message_id (rd.parse_meta m.raw).attachments
          (add_usage d.usage_fails uid (length m.raw) put)) in
      let whole =
        harvested
        ∙ ap (λ (x : MailStore). record x { known_keys = ks })
            (attached ∙ ap (λ (x : MailStore). record x { attachments = metas }) used) in
      (
        stored,
        (
          ap (λ (x : MailStore). x.messages) whole,
          ap (λ (x : MailStore). x.files) whole,
          (
            sym (ap (λ (x : MailStore). x.domains) whole),
            sym (ap (λ (x : MailStore). x.addresses) whole),
            λ id. same_users id ∙ sym (ap (λ (x : MailStore). standing (lookup id x.users)) whole),
          ),
        ),
        (refl, refl, refl, refl, refl),
      )

  deliver_resolved-IsShare :
      (d : Delivery) (to : Text) (st : MailStore)
      → (rows : List InboxRow) × IsDelivered rows st
          (deliver_resolved rd d m (resolve_recipient d.lookups st to) st)
        × IsShare d st to rows
  unfolding deliver_resolved
  deliver_resolved-IsShare d to st = go (resolve_recipient d.lookups st to) refl d.store_err refl
    where
      go :
          (r : Resolution)
          → resolve_recipient d.lookups st to ≡ r
          → (e : Option Text) → d.store_err ≡ e
          → (rows : List InboxRow) × IsDelivered rows st (deliver_resolved rd d m r st)
            × IsShare d st to rows
      go (found uid c) is none fine =
          let (row, delivered, copy) = store_copy-IsDelivered d uid st in
          (
            row ∷ [],
            subst (λ o. IsDelivered (row ∷ []) st (store_copy rd d m uid o st)) (sym fine)
                delivered,
            inl (uid, c, is, fine, (row, refl, copy)),
          )
      go (found uid c) is (some e) fails = (
        [],
        subst (λ o. IsDelivered [] st (store_copy rd d m uid o st)) (sym fails)
            (unfold store_copy in IsDelivered-none st),
        inr (refl, inl (e, fails)),
      )
      go no_such_user is e h = ([], IsDelivered-none st, inr (refl, inr (inl is)))
      go account_suspended is e h = ([], IsDelivered-none st, inr (refl, inr (inr (inl is))))
      go (lookup_failed x) is e h = ([], IsDelivered-none st, inr (refl, inr (inr (inr (x, is)))))

  pub AreShares-same :
      (ds : ℕ → Delivery) (i : ℕ) (st st' : MailStore) (tos : List Text) (rows : List InboxRow)
      → HaveSameTables st st'
      → AreShares ds i st' tos rows
      → AreShares ds i st tos rows
  AreShares-same ds i st st' [] rows same h = h
  AreShares-same ds i st st' (to ∷ tos) rows same (share, rest, e, first, later) = (
    share,
    rest,
    e,
    rw (resolve_recipient_same st st' same (ds i).lookups to) first,
    AreShares-same ds (suc i) st st' tos rest same later,
  )

  -- The loop adds to the mailboxes the shares of the recipients, as they resolve at its beginning.
  pub deliver_each-AreShares :
      (ds : ℕ → Delivery) (i : ℕ) (tos : List Text) (st : MailStore)
      → (rows : List InboxRow) × ((deliver_each rd ds i m tos st).messages ≡ st.messages ++ rows)
        × ((deliver_each rd ds i m tos st).files ≡ st.files)
        × AreShares ds i st tos rows
  unfolding deliver_each
  deliver_each-AreShares ds i [] st = ([], sym (append-nil st.messages), refl, refl)
  deliver_each-AreShares ds i (to ∷ tos) st =
      let (share, (put, kept, same), first) = deliver_resolved-IsShare (ds i) to st in
      let next = deliver_resolved rd (ds i) m (resolve_recipient (ds i).lookups st to) st in
      let (rest, behind, files, later) = deliver_each-AreShares ds (suc i) tos next in
      (
        share ++ rest,
        behind ∙ ap (λ l. l ++ rest) put ∙ append_assoc st.messages share rest,
        files ∙ kept,
        (share, rest, refl, first, AreShares-same ds (suc i) st next tos rest same later),
      )
