-- ===== src/Auth/Guard.antt =====
-- internal/auth/middleware.go: what a request passes before its handler runs.
pub mod Passed
use rookery.Base.{
  ℕ, ◌+◌, ◌*◌, Bool, true, false, not, ◌&&◌, ◌||◌, Option, none, some, List, [], ◌∷◌, ◌++◌, Text,
  codes, text_eq, if◌then◌else◌,
}
use rookery.Auth.{
  Session, Outcome, done, failed, Env, get, Request, Cookie, clear_cookie, set_csrf_cookie,
}

-- A cookie that is absent and one that is empty are the same to the code.
unfoldable pub non_empty : Text → Option Text
non_empty [] = none
non_empty (c ∷ cs) = some (c ∷ cs)

unfoldable pub value_of : Option Text → Option Text
value_of none = none
value_of (some v) = non_empty v

unfoldable pub token_from_request : Request → Option Text
token_from_request r = value_of r.session_cookie

-- Who answers the request, and the cookies that are set: the next handler, with the session of the
-- context, or the callback for a request without one.
pub data Answer : Type 0 where
  served : Session → List Cookie → Answer
  on_unauth : List Cookie → Answer

unfoldable pub is_synced : Option Text → Text → Bool
is_synced none token = false
is_synced (some v) token = text_eq v token

unfoldable pub answer : Request → Outcome Session → Answer
answer r (failed e) = on_unauth (clear_cookie r ∷ [])
answer r (done s) =
    served s
      (if is_synced r.csrf_cookie s.csrf_token then [] else set_csrf_cookie r s.csrf_token ∷ [])

module _ (sha256_hex : Text → Text) where
  unfoldable pub with_token : Env → Request → List Session → Option Text → Answer × List Session
  with_token env r ss none = (on_unauth [], ss)
  with_token env r ss (some raw) =
      let found = get sha256_hex env raw ss in (answer r found.0, found.1)

  unfoldable pub middleware : Env → Request → List Session → Answer × List Session
  middleware env r ss = with_token env r ss (token_from_request r)

unfoldable pub is_safe_method : Text → Bool
is_safe_method m =
    text_eq m (codes "GET") || (text_eq m (codes "HEAD") || text_eq m (codes "OPTIONS"))

-- The token of the header, or else of the form.
unfoldable pub first_token : Option Text → Option Text → Option Text
first_token (some t) form = some t
first_token none form = form

unfoldable pub sent_token : Request → Option Text
sent_token r = first_token (non_empty r.csrf_header) (non_empty r.csrf_form)

unfoldable pub matches : Option Text → Option Text → Bool
matches none sent = false
matches (some c) none = false
matches (some c) (some t) = text_eq t c

-- Whether the next handler runs; otherwise onFail does.
unfoldable pub csrf_middleware : Request → Bool
csrf_middleware r = is_safe_method r.method || matches (value_of r.csrf_cookie) (sent_token r)
