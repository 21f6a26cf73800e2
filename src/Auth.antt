-- ===== src/Auth.antt =====
-- internal/auth: sessions, the session middleware and the CSRF middleware. The digest of a token is a
-- parameter, as the random bytes and the database's errors are; times are seconds, in UTC.
pub mod Guard
pub mod Sessions
mod Tests
use rookery.Base.{
  ℕ, ◌+◌, ◌*◌, Bool, true, false, not, ◌&&◌, ◌||◌, Option, none, some, List, [], ◌∷◌, ◌++◌, Text,
  codes, text_eq, ltb, leb, ◌==◌, if◌then◌else◌, any,
}

-- A row of sessions.
pub record Session : Type 0 where
  pub id : ℕ
  pub user_id : ℕ
  pub token_hash : Text
  pub csrf_token : Text
  pub last_seen : ℕ
  pub created_at : ℕ

pub data SessionError : Type 0 where
  session_not_found : SessionError
  random_failed : Text → SessionError
  database_failed : Text → SessionError

pub data Outcome {ℓ} (A : Type ℓ) : Type ℓ where
  done : A → Outcome A
  failed : SessionError → Outcome A

abbrev pub day : ℕ
day = 86400

-- last_seen > now() - make_interval(days => $2)
unfoldable pub is_live : (now days : ℕ) → Session → Bool
is_live now days s = ltb now (s.last_seen + days * day)

unfoldable pub is_found : (now days : ℕ) → Text → Session → Bool
is_found now days hash s = text_eq s.token_hash hash && is_live now days s

unfoldable pub seen_at : ℕ → Session → Session
seen_at now s = record s { last_seen = now }

-- The UPDATE of Get, and the first row it returns.
unfoldable pub refresh : (now days : ℕ) → Text → List Session → List Session
refresh now days hash [] = []
refresh now days hash (s ∷ ss) =
    let rest = refresh now days hash ss in
    if is_found now days hash s then seen_at now s ∷ rest else s ∷ rest

unfoldable pub returned : (now days : ℕ) → Text → List Session → Option Session
returned now days hash [] = none
returned now days hash (s ∷ ss) =
    let rest = returned now days hash ss in
    if is_found now days hash s then some (seen_at now s) else rest

unfoldable pub scanned : Option Session → Outcome Session
scanned (some s) = done s
scanned none = failed session_not_found

unfoldable pub keep : (Session → Bool) → List Session → List Session
keep p [] = []
keep p (s ∷ ss) = let rest = keep p ss in if p s then s ∷ rest else rest

-- ORDER BY last_seen DESC
unfoldable pub insert_session : Session → List Session → List Session
insert_session s [] = s ∷ []
insert_session s (t ∷ ts) =
    let rest = insert_session s ts in if leb t.last_seen s.last_seen then s ∷ t ∷ ts else t ∷ rest

unfoldable pub by_last_seen : List Session → List Session
by_last_seen [] = []
by_last_seen (s ∷ ss) = insert_session s (by_last_seen ss)

unfoldable pub list_by_user : (now days user : ℕ) → List Session → List Session
list_by_user now days user ss =
    by_last_seen (keep (λ s. s.user_id == user && is_live now days s) ss)

-- The outside of one call: the clock, the configured expiry and an error of the database.
pub record Env : Type 0 where
  pub now : ℕ
  pub session_expiry_days : ℕ
  pub db : Option Text

unfoldable pub got : Env → Text → List Session → Option Text → Outcome Session × List Session
got env hash ss (some e) = (failed (database_failed (codes "session: get: " ++ e)), ss)
got env hash ss none = (
  scanned (returned env.now env.session_expiry_days hash ss),
  refresh env.now env.session_expiry_days hash ss,
)

module _ (sha256_hex : Text → Text) where
  unfoldable pub insert_row :
      Env
      → (id user : ℕ) → (raw csrf : Text) → List Session
      → Option Text
      → Outcome (Text × Text) × List Session
  insert_row env id user raw csrf ss (some e) =
      (failed (database_failed (codes "session: create: " ++ e)), ss)
  insert_row env id user raw csrf ss none = (
    done (raw, csrf),
    record {
      id = id;
      user_id = user;
      token_hash = sha256_hex raw;
      csrf_token = csrf;
      last_seen = env.now;
      created_at = env.now;
    }
        ∷ ss,
  )

  -- The two tokens are random, or the source of them fails.
  unfoldable pub create :
      Env
      → (id user : ℕ) → (raw csrf : Option Text) → List Session
      → Outcome (Text × Text) × List Session
  create env id user none csrf ss = (failed (random_failed (codes "auth: generate token")), ss)
  create env id user (some raw) none ss =
      (failed (random_failed (codes "auth: generate token")), ss)
  create env id user (some raw) (some csrf) ss = insert_row env id user raw csrf ss env.db

  unfoldable pub get : Env → Text → List Session → Outcome Session × List Session
  get env raw ss = got env (sha256_hex raw) ss env.db

  unfoldable pub delete_by_token :
      Option Text → Text → List Session → Option SessionError × List Session
  delete_by_token (some e) raw ss =
      (some (database_failed (codes "session: delete by token: " ++ e)), ss)
  delete_by_token none raw ss = (none, keep (λ s. not (text_eq s.token_hash (sha256_hex raw))) ss)

unfoldable pub delete : Option Text → ℕ → List Session → Option SessionError × List Session
delete (some e) id ss = (some (database_failed (codes "session: delete: " ++ e)), ss)
delete none id ss = (none, keep (λ s. not (s.id == id)) ss)

-- What the middleware reads of a request.
pub record Request : Type 0 where
  pub method : Text
  pub session_cookie : Option Text
  pub csrf_cookie : Option Text
  pub csrf_header : Text
  pub csrf_form : Text
  pub is_tls : Bool
  pub forwarded_proto : Text

pub data MaxAge : Type 0 where
  seconds : ℕ → MaxAge
  unset : MaxAge
  expire_now : MaxAge

pub record Cookie : Type 0 where
  pub name : Text
  pub value : Text
  pub max_age : MaxAge
  pub http_only : Bool
  pub secure : Bool

unfoldable pub is_secure : Request → Bool
is_secure r = r.is_tls || text_eq r.forwarded_proto (codes "https")

unfoldable pub set_cookie : Request → Text → ℕ → Cookie
set_cookie r raw days = record {
  name = codes "rookery_session";
  value = raw;
  max_age = seconds (days * day);
  http_only = true;
  secure = is_secure r;
}

unfoldable pub clear_cookie : Request → Cookie
clear_cookie r = record {
  name = codes "rookery_session";
  value = [];
  max_age = expire_now;
  http_only = true;
  secure = is_secure r;
}

unfoldable pub set_csrf_cookie : Request → Text → Cookie
set_csrf_cookie r token = record {
  name = codes "rookery_csrf";
  value = token;
  max_age = unset;
  http_only = false;
  secure = is_secure r;
}
