-- ===== src/Smtp/Tests/Relay.antt =====
-- A relay client that logs in and sends a message to two recipients.
use rookery.Base.{
  ℕ, zero, suc, List, ◌-◌, ◌≤◌, ◌≡◌, refl, true, false, none, some, [], ◌∷◌, ◌++◌, arith, Text,
  codes, All, text_eq, lookup, Eq_text,
}
use rookery.Store.{read_blob, healthy, write_blob, write_missing, write_new, Eq_path}
use rookery.Smtp.Reply.{accepted}
use rookery.Smtp.Submission.{
  RelayClient, RelayedRow, RelayStore, Session, Env, auth, mail, rcpt, message, new_session,
  count_since, hour, over_limit, is_limited, enqueue, store_and_enqueue, read_and_store, data_of,
  run,
}
use rookery.Smtp.Submission.Access.{IsAuthorised, run-IsAuthorised}
use rookery.Smtp.Submission.Limits.{AreRowsOf, data_of_ok, data_of-limit}

abbrev letters : ℕ → Text
letters zero = []
letters (suc n) = b'a' ∷ letters n

abbrev digest : Text → Text
digest bytes = letters 64

abbrev client : RelayClient
client = record { id = 9; secret_hash = codes "pw"; enabled = true; rate_per_hour = 5 }

abbrev store : RelayStore
store = record { clients = (codes "app", client) ∷ []; queued = []; files = []; touched = [] }

abbrev env : Env
env = record {
  now = 9000;
  lookup_err = none;
  touch_fails = false;
  count_err = none;
  enqueue_err = none;
  read_err = none;
  disk = healthy;
}

abbrev session : Session
session = record {
  client = some client;
  from = codes "app@e.f";
  recipients = codes "u@c.d" ∷ codes "v@c.d" ∷ [];
}

run-IsAuthorised_example :
    All
      (IsAuthorised digest text_eq store.clients)
      (run digest text_eq
        ((env, auth (codes "app") (codes "pw"))
          ∷ (env, mail (codes "app@e.f"))
          ∷ (env, rcpt (codes "u@c.d"))
          ∷ (env, message (codes "hi"))
          ∷ [])
        new_session
        store).1.queued
run-IsAuthorised_example =
    run-IsAuthorised digest text_eq
      ((env, auth (codes "app") (codes "pw"))
        ∷ (env, mail (codes "app@e.f"))
        ∷ (env, rcpt (codes "u@c.d"))
        ∷ (env, message (codes "hi"))
        ∷ [])
      store tt

two_recipients :
    (data_of digest text_eq env client session.recipients session (codes "hi") store).0 ≡ accepted
unfolding data_of is_limited over_limit count_since read_and_store write_blob write_missing
    write_new lookup store_and_enqueue enqueue
two_recipients = refl

data_of_ok_example :
    let st = (data_of digest text_eq env client session.recipients session (codes "hi") store).2 in
    ((rows : List RelayedRow) × (st.queued ≡ [] ++ rows)
      × AreRowsOf digest text_eq 9000 9
          (codes "app@e.f")
          (digest (codes "hi"))
          session.recipients
          rows)
    × ((b : Text) × (read_blob (digest (codes "hi")) st.files ≡ some b)
        × (digest b ≡ digest (codes "hi")))
data_of_ok_example =
    data_of_ok digest text_eq env client session (codes "hi") store (λ b. refl)
      (λ p b h. unfold lookup in cc) two_recipients

data_of-limit_example :
    count_since 9
      (9000 - hour)
      (data_of digest text_eq env client session.recipients session (codes "hi") store).2.queued
    ≤ 5
data_of-limit_example =
    data_of-limit digest text_eq env client session (codes "hi") store refl (omega arith)
      two_recipients
