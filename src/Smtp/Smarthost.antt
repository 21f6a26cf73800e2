-- ===== src/Smtp/Smarthost.antt =====
-- internal/smtp/outbound.go: delivery through a smarthost, and AUTH LOGIN.
pub mod Privacy
use rookery.Base.{
  ℕ, Bool, true, false, not, ◌&&◌, ◌||◌, Option, none, some, List, [], ◌∷◌, ◌++◌, Text, codes,
  text_eq, contains, to_lower, trim_space, ◌==◌, if◌then◌else◌,
}
use rookery.Smtp.Client.{
  Peer, Action, ehlo, start_tls, credentials, Mechanism, plain, login, Outcome, fail, send, check,
  send_message, join_host_port, itoa,
}

-- A port at or below 0 selects 587; it is written 0.
pub record Smarthost : Type 0 where
  pub host : Text
  pub port : ℕ
  pub username : Text
  pub password : Text
  pub require_tls : Bool
  pub auth : Bool

unfoldable pub smarthost_port : ℕ → ℕ
smarthost_port p = if p == 0 then 587 else p

-- The steps of `loginAuth`: `Start` refuses a connection without TLS, and `Next` answers the
-- server's two challenges.
unfoldable pub login_start : Bool → Option Text
login_start true = none
login_start false =
    some (codes "loginAuth: refusing to send credentials over unencrypted connection")

pub data Answer : Type 0 where
  answer : Text → Answer
  done : Answer
  unexpected : Text → Answer

unfoldable pub login_next : (username password from_server : Text) → Bool → Answer
login_next username password from_server more =
    if not more
    then done
    else let challenge = to_lower (trim_space from_server) in
      if text_eq challenge (codes "username:")
      then answer username
      else if text_eq challenge (codes "password:")
      then answer password
      else unexpected from_server

-- `smtp.PlainAuth` of the standard library refuses a connection without TLS, unless it is local.
unfoldable pub is_localhost : Text → Bool
is_localhost name =
    text_eq name (codes "localhost")
    || text_eq name (codes "127.0.0.1")
    || text_eq name (codes "::1")

unfoldable pub plain_start : Bool → Text → Option Text
plain_start tls host =
    if tls || is_localhost host then none else some (codes "unencrypted connection")

-- `c.Auth`: the mechanism's start decides whether the credentials are sent.
unfoldable pub run_auth : Option Text → Mechanism → Peer → Text → Outcome → Outcome
run_auth (some e) m c username rest = fail (codes "AUTH: " ++ e)
run_auth none m c username rest =
    send (credentials c.tls_state m username) c.auth (codes "AUTH: ") rest

module _ (quote : Text → Text) where
  -- `smarthostAuth` and the call of `c.Auth` behind it.
  unfoldable pub authenticate : Smarthost → Peer → Option Text → Outcome → Outcome
  authenticate sh c none rest = fail (codes "smarthost " ++ sh.host ++ codes " does not offer AUTH")
  authenticate sh c (some mechs) rest =
      if contains mechs (codes "PLAIN")
      then run_auth (plain_start c.tls_state sh.host) plain c sh.username rest
      else if contains mechs (codes "LOGIN")
      then run_auth (login_start c.tls_state) login c sh.username rest
      else fail (
          codes "smarthost "
          ++ sh.host
          ++ codes " offers no supported AUTH mechanism (advertised: "
          ++ quote mechs
          ++ codes ")")

  unfoldable pub upgrade : Bool → Smarthost → Peer → Outcome → Outcome
  upgrade true sh c rest = rest
  upgrade false sh c rest =
      if c.offers_starttls
      then send start_tls c.starttls (codes "STARTTLS: ") rest
      else if sh.require_tls
      then fail
          (codes "smarthost " ++ sh.host ++ codes " does not offer STARTTLS but require_tls is set")
      else rest

  unfoldable pub require : Smarthost → Peer → Outcome → Outcome
  require sh c rest =
      if sh.require_tls && not c.tls_state
      then fail (codes "smarthost " ++ sh.host ++ codes ": TLS required but not established")
      else rest

  unfoldable pub deliver_via_smarthost :
      (Text → Text → Peer) → Text → Smarthost → (from to message : Text) → Outcome
  deliver_via_smarthost peer from_domain sh from to message =
      let port = smarthost_port sh.port in
      let addr = join_host_port sh.host (itoa port) in
      let c = peer addr sh.host in
      let sent = send_message c from to message in
      check c.dial (codes "dial smarthost " ++ addr ++ codes ": ") (
        check c.greeting (codes "smtp client: ") (
          send (ehlo from_domain) c.hello (codes "EHLO: ") (
            upgrade (port == 465) sh c
              (require sh c (if sh.auth then authenticate sh c c.auth_offer sent else sent)))))
