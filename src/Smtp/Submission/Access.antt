-- ===== src/Smtp/Submission/Access.antt =====
-- Who can queue mail for relaying.
use rookery.Base.{
  ◌↔◌, ◌∙◌, ap, sym, ℕ, ◌≡◌, ◌≢◌, ◌⊎◌, inl, inr, refl, Bool, true, false, Option, none, some, List,
  [], ◌∷◌, map, arith, Text, All, All-append, lookup, Eq_text, Bool-cases, Result, ok, err, ◌&&◌,
}
use rookery.Store.{Files, write_blob}
use rookery.Smtp.Reply.{accepted, auth_failed}
use rookery.Smtp.Submission.{
  RelayClient, RelayedRow, RelayStore, Session, Env, Command, auth, mail, rcpt, message, reset,
  lookup_relay_client, touch, check_secret, mail_as, rcpt_as, data_as, data_of, read_and_store,
  store_and_enqueue, enqueue, is_limited, row_for, step, run, new_session,
}

module _ (sha256_hex : Text → Text) (matches : (secret_hash password : Text) → Bool)
    (table : List (Text × RelayClient)) where
  -- A client of the table that is enabled, with a password that its secret matches.
  abbrev pub IsVerified : RelayClient → Type 0
  IsVerified rc =
      (username : Text) × (password : Text) × (lookup username table ≡ some rc)
      × (rc.enabled ≡ true)
      × (matches rc.secret_hash password ≡ true)

  -- A row that a verified client put in the queue.
  abbrev pub IsAuthorised : RelayedRow → Type 0
  IsAuthorised row = (rc : RelayClient) × IsVerified rc × (row.relay_client_id ≡ rc.id)

  abbrev IsVerifiedOption : Option RelayClient → Type 0
  IsVerifiedOption none = Unit
  IsVerifiedOption (some rc) = IsVerified rc

  -- The table of clients stays; the session's client is verified, and so is the sender of each row.
  pub record Inv (s : Session) (st : RelayStore) : Type 0 where
    pub clients : st.clients ≡ table
    pub session : IsVerifiedOption s.client
    pub rows : All IsAuthorised st.queued

  rows-All :
      (now : ℕ) (rc : RelayClient) (from blob : Text) (tos : List Text)
      → IsVerified rc
      → All IsAuthorised (map (row_for now rc from blob) tos)
  rows-All now rc from blob [] v = tt
  rows-All now rc from blob (to ∷ tos) v = ((rc, v, refl), rows-All now rc from blob tos v)

  enqueue-Inv :
      (e : Option Text) (now : ℕ) (rc : RelayClient) (s : Session) (blob : Text) (st : RelayStore)
      → IsVerified rc
      → Inv s st
      → Inv (enqueue e now rc s blob st).1 (enqueue e now rc s blob st).2
  unfolding enqueue
  enqueue-Inv (some e) now rc s blob st v h = h
  enqueue-Inv none now rc s blob st v h = record {
    clients = h.clients;
    session = h.session;
    rows =
        All-append IsAuthorised st.queued _ (h.rows) (rows-All now rc s.from blob s.recipients v);
  }

  store-Inv :
      (env : Env) (rc : RelayClient) (s : Session) (w : Result Text × Files) (st : RelayStore)
      → IsVerified rc
      → Inv s st
      → Inv (store_and_enqueue env rc s w st).1 (store_and_enqueue env rc s w st).2
  unfolding store_and_enqueue
  store-Inv env rc s (err e, fs) st v h = record {
    clients = h.clients;
    session = h.session;
    rows = h.rows;
  }
  store-Inv env rc s (ok blob, fs) st v h =
      enqueue-Inv env.enqueue_err env.now rc s blob (record st { files = fs }) v
        (record { clients = h.clients; session = h.session; rows = h.rows })

  data_of-Inv :
      (env : Env) (rc : RelayClient) (tos : List Text) (s : Session) (raw : Text) (st : RelayStore)
      → IsVerified rc
      → Inv s st
      → Inv
          (data_of sha256_hex matches env rc tos s raw st).1
          (data_of sha256_hex matches env rc tos s raw st).2
  unfolding data_of
  data_of-Inv env rc [] s raw st v h = h
  data_of-Inv env rc (to ∷ more) s raw st v h =
      elim (Bool-cases (is_limited env.count_err env rc (to ∷ more) st)) [
        | inl e ↦ rw e h
        | inr e ↦ rw e (go env.read_err)
      ]
    where
      go :
          (r : Option Text)
          → Inv
              (read_and_store sha256_hex matches r env rc s raw st).1
              (read_and_store sha256_hex matches r env rc s raw st).2
      go (some e) = unfold read_and_store in h
      go none =
          unfold read_and_store in
          store-Inv env rc s (write_blob sha256_hex env.disk raw st.files) st v h

  check_secret-Inv :
      (env : Env) (username password : Text) (o : Option RelayClient) (s : Session)
      (st : RelayStore)
      → (o ≡ none) ⊎ (o ≡ lookup username table)
      → Inv s st
      → let (reply, s', st') = check_secret sha256_hex matches env password o s st in Inv s' st'
  unfolding check_secret touch
  check_secret-Inv env username password none s st e h = h
  check_secret-Inv env username password (some rc) s st e h =
      elim (Bool-cases (rc.enabled && matches rc.secret_hash password)) [
        | inr no_match ↦ rw no_match h
        | inl good ↦
            rw good (go env.touch_fails (username, password, found e, ground arith, ground arith))
      ]
    where
      found :
          (◌≡◌ {A = Option RelayClient} (some rc) none)
            ⊎ (◌≡◌ {A = Option RelayClient} (some rc) (lookup username table))
          → lookup username table ≡ some rc
      found (inl x) = cc
      found (inr x) = sym x

      go : (b : Bool) → IsVerified rc → Inv (record s { client = some rc }) (touch b rc.id st)
      go true v = record { clients = h.clients; session = v; rows = h.rows }
      go false v = record { clients = h.clients; session = v; rows = h.rows }

  lookup_source :
      (e : Option Text) (username : Text) (st : RelayStore)
      → st.clients ≡ table
      → (lookup_relay_client e username st ≡ none)
        ⊎ (lookup_relay_client e username st ≡ lookup username table)
  unfolding lookup_relay_client
  lookup_source (some x) username st h = inl refl
  lookup_source none username st h = inr (ap (lookup username) h)

  step-Inv :
      (env : Env) (c : Command) (s : Session) (st : RelayStore)
      → Inv s st
      → let (reply, s', st') = step sha256_hex matches env c s st in Inv s' st'
  unfolding step
  step-Inv env (auth username password) s st h =
      check_secret-Inv env username password (lookup_relay_client env.lookup_err username st) s st
        (lookup_source env.lookup_err username st (h.clients)) h
  step-Inv env (mail from) s st h = go s.client (h.session)
    where
      go :
          (o : Option RelayClient)
          → IsVerifiedOption o
          → Inv
              (mail_as sha256_hex matches o from s st).1
              (mail_as sha256_hex matches o from s st).2
      go none v = unfold mail_as in h
      go (some rc) v =
          unfold mail_as in record { clients = h.clients; session = h.session; rows = h.rows }
  step-Inv env (rcpt to) s st h = go s.client
    where
      go :
          (o : Option RelayClient)
          → Inv (rcpt_as sha256_hex matches o to s st).1 (rcpt_as sha256_hex matches o to s st).2
      go none = unfold rcpt_as in h
      go (some rc) = unfold rcpt_as in ground arith
  step-Inv env (message raw) s st h = go s.client (h.session)
    where
      go :
          (o : Option RelayClient)
          → IsVerifiedOption o
          → Inv
              (data_as sha256_hex matches env o raw s st).1
              (data_as sha256_hex matches env o raw s st).2
      go none v = unfold data_as in h
      go (some rc) v = unfold data_as in data_of-Inv env rc s.recipients s raw st v h
  step-Inv env reset s st h = record { clients = h.clients; session = h.session; rows = h.rows }

  run-Inv :
      (cs : List (Env × Command)) (s : Session) (st : RelayStore)
      → Inv s st
      → let (s', st') = run sha256_hex matches cs s st in Inv s' st'
  unfolding run
  run-Inv [] s st h = h
  run-Inv ((env, c) ∷ cs) s st h =
      let (reply, s', st') = step sha256_hex matches env c s st in
      run-Inv cs s' st' (step-Inv env c s st h)

module _ (sha256_hex : Text → Text) (matches : (secret_hash password : Text) → Bool) where
  -- Whatever commands a connection sends, every row that it leaves in the queue stands for a client of
  -- the table that is enabled and one of whose passwords matches, if that holds of the rows before.
  pub run-IsAuthorised :
      (cs : List (Env × Command)) (st : RelayStore)
      → All (IsAuthorised sha256_hex matches st.clients) st.queued
      → All
          (IsAuthorised sha256_hex matches st.clients)
          (run sha256_hex matches cs new_session st).1.queued
  run-IsAuthorised cs st h =
      (run-Inv sha256_hex matches st.clients cs new_session st
        (record { clients = refl; session = tt; rows = h })).rows

  check_secret_refused :
      (env : Env) (password : Text) (o : Option RelayClient) (s : Session) (st : RelayStore)
      → (check_secret sha256_hex matches env password o s st).0 ≢ accepted
      → check_secret sha256_hex matches env password o s st ≡ (auth_failed, s, st)
  unfolding check_secret
  check_secret_refused env password none s st h = refl
  check_secret_refused env password (some rc) s st h =
      elim (Bool-cases (rc.enabled && matches rc.secret_hash password)) [
        | inl good ↦ absurd (h (rw good refl))
        | inr bad ↦ rw bad refl
      ]

  -- An AUTH that is not accepted is answered by one and the same error, whatever the cause, and
  -- changes nothing.
  pub auth_refused :
      (env : Env) (username password : Text) (s : Session) (st : RelayStore)
      → (step sha256_hex matches env (auth username password) s st).0 ≢ accepted
      → step sha256_hex matches env (auth username password) s st ≡ (auth_failed, s, st)
  unfolding step
  auth_refused env username password s st h = check_secret_refused env password _ s st h

  -- AUTH succeeds exactly for a name of the table whose client is enabled and whose secret the
  -- password matches, if the look-up works.
  pub auth_accepted :
      (env : Env) (username password : Text) (s : Session) (st : RelayStore)
      → env.lookup_err ≡ none
      → ((step sha256_hex matches env (auth username password) s st).0 ≡ accepted) ↔ (
          (rc : RelayClient) × (lookup username st.clients ≡ some rc)
          × (rc.enabled ≡ true)
          × (matches rc.secret_hash password ≡ true))
  unfolding step check_secret
  auth_accepted env username password s st e = (
    λ h. to (lookup_relay_client env.lookup_err username st) source h,
    λ (rc, found, enabled, good). rw (source, found, enabled, good) refl,
  )
    where
      source : lookup_relay_client env.lookup_err username st ≡ lookup username st.clients
      source = ap (λ o. lookup_relay_client o username st) e ∙ (unfold lookup_relay_client in refl)

      to :
          (o : Option RelayClient)
          → o ≡ lookup username st.clients
          → (check_secret sha256_hex matches env password o s st).0 ≡ accepted
          → (rc : RelayClient) × (lookup username st.clients ≡ some rc)
            × (rc.enabled ≡ true)
            × (matches rc.secret_hash password ≡ true)
      to none q h = cc
      to (some rc) q h = (rc, sym q, ground arith, ground arith)
