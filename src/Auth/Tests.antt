-- ===== src/Auth/Tests.antt =====
-- A session from its creation to its end, and a form that is posted.
use rookery.Base.{◌≡◌, ◌≢◌, refl, true, Option, none, some, [], ◌∷◌, Text, codes, text_eq, arith}
use rookery.Auth.{
  Session, done, Env, create, get, got, returned, scanned, is_found, is_live, seen_at, Request,
}
use rookery.Auth.Guard.{
  token_from_request, value_of, non_empty, with_token, answer, is_synced, middleware,
  csrf_middleware, is_safe_method, matches, sent_token, first_token,
}
use rookery.Auth.Sessions.{IsStored, created, get-create}
use rookery.Auth.Guard.Passed.{IsSent, middleware-IsStored, csrf_middleware_guard}

abbrev digest : Text → Text
digest s = b'#' ∷ s

abbrev env : Env
env = record { now = 1000; session_expiry_days = 30; db = none }

abbrev later : Env
later = record { now = 5000; session_expiry_days = 30; db = none }

abbrev session : Session
session = record {
  id = 1;
  user_id = 7;
  token_hash = codes "#tok";
  csrf_token = codes "csrf";
  last_seen = 1000;
  created_at = 1000;
}

abbrev request : Request
request = record {
  method = codes "POST";
  session_cookie = some (codes "tok");
  csrf_cookie = some (codes "csrf");
  csrf_header = [];
  csrf_form = codes "csrf";
  is_tls = true;
  forwarded_proto = [];
}

get-create_example :
    (token guard : Text) × ((create digest env 1 7 (some (codes "tok")) (some (codes "csrf")) []).0
      ≡ done (token, guard))
    × ((get digest later token
          (create digest env 1 7 (some (codes "tok")) (some (codes "csrf")) []).1).0
        ≡ done (created env 1 7 (digest token) guard 5000))
get-create_example =
    get-create digest env later 1 7 (codes "tok") (codes "csrf") [] refl refl (omega arith)

middleware-IsStored_example :
    (raw : Text) × ((◌≡◌ {A = Option Text} (some (codes "tok")) (some raw)) × (raw ≢ []))
    × IsStored 5000 30 (digest raw) (record session { last_seen = 5000 }) (session ∷ [])
middleware-IsStored_example =
    middleware-IsStored digest later request (session ∷ []) (record session { last_seen = 5000 }) []
      (unfold middleware token_from_request value_of non_empty with_token get got returned is_found
          is_live text_eq seen_at scanned answer is_synced in
        refl)

csrf_middleware_guard_example :
    (t : Text) × (((◌≡◌ {A = Option Text} (some (codes "csrf")) (some t)) × (t ≢ []))
      × IsSent request t)
csrf_middleware_guard_example =
    csrf_middleware_guard request
      (unfold csrf_middleware is_safe_method text_eq matches value_of sent_token non_empty
          first_token in
        refl)
      (unfold is_safe_method text_eq in refl)
