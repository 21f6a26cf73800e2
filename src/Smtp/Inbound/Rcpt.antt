-- ===== src/Smtp/Inbound/Rcpt.antt =====
-- internal/smtp/inbound.go: how RCPT answers.
use rookery.Base.{
  ℕ, ◌<◌, ◌≡◌, refl, Option, none, some, [], ◌∷◌, ◌++◌, arith, Text, length, lookup, Eq_number, leb,
  to_lower, trim_space, Bool-cases, inl, inr,
}
use rookery.Smtp.Reply.{accepted, max_recipients}
use rookery.Smtp.Inbound.{
  User, MailStore, Lookups, Resolution, found, no_such_user, account_suspended, lookup_failed,
  resolve_recipient, InboundSession, within_quota, rcpt_of, rcpt,
}

-- RCPT takes a recipient only if the address, trimmed and in lower case, is resolved, and keeps to
-- the limit of a hundred recipients.
pub rcpt_accepted :
    (q : Lookups) (quota_err : Option Text) (st : MailStore) (raw : Text) (s : InboundSession)
    → (rcpt q quota_err st raw s).0 ≡ accepted
    → (uid : ℕ) × (c : Text) × (resolve_recipient q st (to_lower (trim_space raw)) ≡ found uid c)
      × (length s.recipients < max_recipients)
      × ((rcpt q quota_err st raw s).1.recipients ≡ s.recipients ++ to_lower (trim_space raw) ∷ [])
unfolding rcpt rcpt_of within_quota
rcpt_accepted q quota_err st raw s h =
    elim (Bool-cases (leb max_recipients (length s.recipients))) [
      | inl full ↦ absurd (ground arith)
      | inr room ↦
          let (uid, c, hit, added) =
            go (resolve_recipient q st (to_lower (trim_space raw))) (rw room at h) in
          (uid, c, hit, ground arith, rw room added)
    ]
  where
    quota :
        (e : Option Text) (u : Option User)
        → (within_quota e u (to_lower (trim_space raw)) s).0 ≡ accepted
        → (within_quota e u (to_lower (trim_space raw)) s).1.recipients
          ≡ s.recipients ++ to_lower (trim_space raw) ∷ []
    quota (some e) u h = refl
    quota none none h = refl
    quota none (some u) h = ground arith

    go :
        (r : Resolution)
        → (rcpt_of quota_err st r (to_lower (trim_space raw)) s).0 ≡ accepted
        → (uid : ℕ) × (c : Text) × (r ≡ found uid c)
          × ((rcpt_of quota_err st r (to_lower (trim_space raw)) s).1.recipients
              ≡ s.recipients ++ to_lower (trim_space raw) ∷ [])
    go (found uid c) h = (uid, c, refl, quota quota_err (lookup uid st.users) h)
    go no_such_user h = cc
    go account_suspended h = cc
    go (lookup_failed e) h = cc
