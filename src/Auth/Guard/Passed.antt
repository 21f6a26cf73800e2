-- ===== src/Auth/Guard/Passed.antt =====
-- What the guards of a request let through.
use rookery.Base.{
  ◌≡◌, ◌≢◌, ◌⊎◌, refl, true, false, Option, none, some, List, [], ◌∷◌, Text, text_eq_iff, arith,
  inl, inr, ap,
}
use rookery.Auth.{Session, Outcome, done, failed, Env, get, Request, Cookie}
use rookery.Auth.Guard.{
  non_empty, value_of, token_from_request, served, answer, with_token, middleware, is_safe_method,
  first_token, sent_token, matches, csrf_middleware,
}
use rookery.Auth.Sessions.{IsStored, get-IsStored}

value_of_lem : (o : Option Text) (v : Text) → value_of o ≡ some v → (o ≡ some v) × (v ≢ [])
unfolding value_of non_empty
value_of_lem none v h = cc
value_of_lem (some []) v h = cc
value_of_lem (some (c ∷ cs)) v h = (h, λ e. cc)

-- A request that reaches its handler carries a session cookie that is not empty, and the session of its
-- context is a stored one of that token which is not expired.
pub middleware-IsStored :
    (sha256_hex : Text → Text) (env : Env) (r : Request) (ss : List Session) (s : Session)
    (cookies : List Cookie)
    → (middleware sha256_hex env r ss).0 ≡ served s cookies
    → (raw : Text) × ((r.session_cookie ≡ some raw) × (raw ≢ []))
      × IsStored env.now env.session_expiry_days (sha256_hex raw) s ss
unfolding middleware token_from_request with_token answer
middleware-IsStored sha256_hex env r ss s cookies =
    go (value_of r.session_cookie) (value_of_lem r.session_cookie)
  where
    answered : (o : Outcome Session) → answer r o ≡ served s cookies → o ≡ done s
    answered (failed e) h = cc
    answered (done t) h = grind arith

    go :
        (token : Option Text)
        → ((v : Text) → token ≡ some v → (r.session_cookie ≡ some v) × (v ≢ []))
        → (with_token sha256_hex env r ss token).0 ≡ served s cookies
        → (raw : Text) × ((r.session_cookie ≡ some raw) × (raw ≢ []))
          × IsStored env.now env.session_expiry_days (sha256_hex raw) s ss
    go none has h = cc
    go (some raw) has h = (
      raw,
      has raw refl,
      get-IsStored sha256_hex env raw ss s (answered (get sha256_hex env raw ss).0 h),
    )

-- The token that a request sends: that of the header, or that of the form when the header has none.
abbrev pub IsSent : Request → Text → Type 0
IsSent r t = (r.csrf_header ≡ t) ⊎ ((r.csrf_header ≡ []) × (r.csrf_form ≡ t))

matches_lem : (c s : Option Text) → matches c s ≡ true → (t : Text) × ((c ≡ some t) × (s ≡ some t))
unfolding matches
matches_lem none s h = cc
matches_lem (some c) none h = cc
matches_lem (some c) (some t) h = (c, (refl, ap some ((text_eq_iff t c).0 h)))

sent_token_lem : (r : Request) (t : Text) → sent_token r ≡ some t → IsSent r t
unfolding sent_token first_token non_empty
sent_token_lem r t = go r.csrf_header r.csrf_form
  where
    go :
        (header form : Text)
        → first_token (non_empty header) (non_empty form) ≡ some t
        → (header ≡ t) ⊎ ((header ≡ []) × (form ≡ t))
    go [] [] h = cc
    go [] (c ∷ cs) h = inr (refl, grind arith)
    go (c ∷ cs) form h = inl (grind arith)

-- A request whose method is not a safe one passes the CSRF check only with a token that is not empty,
-- in the header or, without one there, in the form, and the same token in the cookie.
pub csrf_middleware_guard :
    (r : Request)
    → csrf_middleware r ≡ true
    → is_safe_method r.method ≡ false
    → (t : Text) × (((r.csrf_cookie ≡ some t) × (t ≢ [])) × IsSent r t)
unfolding csrf_middleware
csrf_middleware_guard r h unsafe =
    token (matches_lem (value_of r.csrf_cookie) (sent_token r) (ground arith))
  where
    token :
        ((t : Text) × ((value_of r.csrf_cookie ≡ some t) × (sent_token r ≡ some t)))
        → (t : Text) × (((r.csrf_cookie ≡ some t) × (t ≢ [])) × IsSent r t)
    token (t, (c, s)) = (t, (value_of_lem r.csrf_cookie t c, sent_token_lem r t s))
