-- ===== src/Auth/Sessions.antt =====
-- internal/auth/session.go: which sessions Get returns.
use rookery.Base.{
  ◌⊎◌, ℕ, ◌+◌, ◌*◌, ◌<◌, ◌≡◌, refl, true, false, not, Option, none, some, List, [], ◌∷◌, Text,
  text_eq, text_eq_iff, text_eq_refl, if◌then◌else◌, arith, Bool-cases, inl, inr,
}
use mathlib.Core.List.{Memᴰ}
use mathlib.Core.List.Memᴰ.{head, tail}
use rookery.Auth.{
  insert_row, create, Session, done, failed, session_not_found, Env, is_live, is_found, seen_at,
  returned, scanned, keep, got, get, delete_by_token, day,
}

-- The stored row that a request's session is: it has the token's digest, and the expiry is not over.
pub record IsStored (now days : ℕ) (hash : Text) (s : Session) (ss : List Session) : Type 0 where
  pub row : Session
  pub same : s ≡ seen_at now row
  pub has_token : row.token_hash ≡ hash
  pub unexpired : now < row.last_seen + days * day
  pub present : Memᴰ row ss

found_lem :
    (now days : ℕ) (hash : Text) (s : Session)
    → is_found now days hash s ≡ true
    → (s.token_hash ≡ hash) × (now < s.last_seen + days * day)
unfolding is_found is_live
found_lem now days hash s h =
    (grind (arith, text_eq_iff s.token_hash hash), grind (arith, text_eq_iff s.token_hash hash))

returned-IsStored :
    (now days : ℕ) (hash : Text) (ss : List Session) (s : Session)
    → returned now days hash ss ≡ some s
    → IsStored now days hash s ss
unfolding returned
returned-IsStored now days hash [] s h = cc
returned-IsStored now days hash (t ∷ ts) s h =
    go (Bool-cases (is_found now days hash t)) (returned-IsStored now days hash ts s) h
  where
    go :
        (is_found now days hash t ≡ true) ⊎ (is_found now days hash t ≡ false)
        → (returned now days hash ts ≡ some s → IsStored now days hash s ts)
        → (if is_found now days hash t then some (seen_at now t) else returned now days hash ts)
          ≡ some s
        → IsStored now days hash s (t ∷ ts)
    go (inl y) ih e = record {
      row = t;
      same = grind (arith, y);
      has_token = (found_lem now days hash t y).0;
      unexpired = (found_lem now days hash t y).1;
      present = head refl;
    }
    go (inr n) ih e = later (ih (grind arith))
      where
        later : IsStored now days hash s ts → IsStored now days hash s (t ∷ ts)
        later i = record {
          row = i.row;
          same = i.same;
          has_token = i.has_token;
          unexpired = i.unexpired;
          present = tail i.present;
        }

-- A session that Get returns is a stored one: its row has the digest of the token, it was seen within
-- the expiry, and only the time of its last sight is new.
pub get-IsStored :
    (sha256_hex : Text → Text) (env : Env) (raw : Text) (ss : List Session) (s : Session)
    → (get sha256_hex env raw ss).0 ≡ done s
    → IsStored env.now env.session_expiry_days (sha256_hex raw) s ss
unfolding get got scanned
get-IsStored sha256_hex env raw ss s = go env.db
  where
    found : (o : Option Session) → scanned o ≡ done s → o ≡ some s
    found none e = cc
    found (some t) e = grind arith

    go :
        (db : Option Text)
        → (got env (sha256_hex raw) ss db).0 ≡ done s
        → IsStored env.now env.session_expiry_days (sha256_hex raw) s ss
    go (some e) h = cc
    go none h =
        returned-IsStored env.now env.session_expiry_days (sha256_hex raw) ss s
          (found (returned env.now env.session_expiry_days (sha256_hex raw) ss) h)

abbrev pub created : Env → (id user : ℕ) → (hash csrf : Text) → ℕ → Session
created env id user hash csrf seen = record {
  id = id;
  user_id = user;
  token_hash = hash;
  csrf_token = csrf;
  last_seen = seen;
  created_at = env.now;
}

-- Where the random source and the database work, Create returns a token and a CSRF token, and the token
-- that it returns opens the session of its user, which has that CSRF token, at every time before the
-- expiry, which counts from the creation, at which the database answers.
pub get-create :
    (sha256_hex : Text → Text) (env later : Env) (id user : ℕ) (raw csrf : Text) (ss : List Session)
    → env.db ≡ none
    → later.db ≡ none
    → later.now < env.now + later.session_expiry_days * day
    → (token guard : Text) × ((create sha256_hex env id user (some raw) (some csrf) ss).0
        ≡ done (token, guard))
      × ((get sha256_hex later token (create sha256_hex env id user (some raw) (some csrf) ss).1).0
          ≡ done (created env id user (sha256_hex token) guard later.now))
unfolding create insert_row get got returned is_found is_live seen_at scanned
get-create sha256_hex env later id user raw csrf ss up up_later in_time =
    (raw, csrf, rw up refl, rw (up, up_later, fresh) refl)
  where
    fresh :
        is_found later.now later.session_expiry_days
          (sha256_hex raw)
          (created env id user (sha256_hex raw) csrf env.now)
        ≡ true
    fresh = ground (arith, text_eq_refl (sha256_hex raw), in_time)

returned_removed :
    (now days : ℕ) (hash : Text) (ss : List Session)
    → returned now days hash (keep (λ s. not (text_eq s.token_hash hash)) ss) ≡ none
unfolding returned keep is_found
returned_removed now days hash [] = refl
returned_removed now days hash (s ∷ ss) = ground (arith, returned_removed now days hash ss)

-- After a logout by the token, Get knows no session of that token at any time at which the database
-- answers.
pub get-delete_by_token :
    (sha256_hex : Text → Text) (env : Env) (raw : Text) (ss : List Session)
    → env.db ≡ none
    → (get sha256_hex env raw (delete_by_token sha256_hex none raw ss).1).0
      ≡ failed session_not_found
unfolding get got scanned delete_by_token
get-delete_by_token sha256_hex env raw ss up =
    rw (up, returned_removed env.now env.session_expiry_days (sha256_hex raw) ss) refl
