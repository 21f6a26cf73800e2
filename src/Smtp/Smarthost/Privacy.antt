-- ===== src/Smtp/Smarthost/Privacy.antt =====
-- When a smarthost is sent mail and credentials.
use rookery.Base.{
  ◌≡◌, ◌⊎◌, true, false, Bool, Option, none, some, arith, Text, All, if◌then◌else◌, ◌==◌,
}
use rookery.Smtp.Client.{
  Peer, Action, credentials, plain, login, Outcome, send_message, IsPrivate, IsAccepted,
  send_message-IsPrivate, send_message_ok, join_host_port, itoa,
}
use rookery.Smtp.Smarthost.{
  Smarthost, smarthost_port, is_localhost, plain_start, login_start, run_auth, authenticate,
  upgrade, require, deliver_via_smarthost,
}

module _ (quote : Text → Text) where
  authenticate-IsPrivate :
      (sh : Smarthost) (c : Peer) (offer : Option Text) (rest : Outcome)
      → c.tls_state ≡ true
      → All IsPrivate rest.1
      → All IsPrivate (authenticate quote sh c offer rest).1
  unfolding authenticate run_auth
  authenticate-IsPrivate sh c none rest h k = tt
  authenticate-IsPrivate sh c (some mechs) rest h k = ground arith

  require-IsPrivate :
      (sh : Smarthost) (c : Peer) (rest : Outcome)
      → sh.require_tls ≡ true
      → (c.tls_state ≡ true → All IsPrivate rest.1)
      → All IsPrivate (require quote sh c rest).1
  unfolding require
  require-IsPrivate sh c rest h k = ground arith

  upgrade-IsPrivate :
      (implicit : Bool) (sh : Smarthost) (c : Peer) (rest : Outcome)
      → All IsPrivate rest.1
      → All IsPrivate (upgrade quote implicit sh c rest).1
  unfolding upgrade
  upgrade-IsPrivate true sh c rest h = h
  upgrade-IsPrivate false sh c rest h = ground arith

  -- With `require_tls`, mail and credentials are sent over TLS only, whatever the smarthost offers
  -- and answers.
  pub deliver_via_smarthost-IsPrivate :
      (peer : Text → Text → Peer) (from_domain : Text) (sh : Smarthost) (from to message : Text)
      → sh.require_tls ≡ true
      → All IsPrivate (deliver_via_smarthost quote peer from_domain sh from to message).1
  unfolding deliver_via_smarthost
  deliver_via_smarthost-IsPrivate peer from_domain sh from to message h =
      let port = smarthost_port sh.port in
      let c = peer (join_host_port sh.host (itoa port)) sh.host in
      let sent = send_message c from to message in
      let rest = if sh.auth then authenticate quote sh c c.auth_offer sent else sent in
      let safe : (c.tls_state ≡ true → All IsPrivate rest.1) = λ t. ground (
        arith,
        send_message-IsPrivate c from to message t,
        authenticate-IsPrivate sh c c.auth_offer sent t,
      ) in
      ground (
        arith,
        upgrade-IsPrivate (port == 465) sh c (require quote sh c rest)
            (require-IsPrivate sh c rest h safe),
      )

  -- Credentials are on TLS, or PLAIN to the local host.
  abbrev pub KeepsSecret : Text → Action → Type 0
  KeepsSecret host (credentials tls plain user) = (tls ≡ true) ⊎ (is_localhost host ≡ true)
  KeepsSecret host (credentials tls login user) = tls ≡ true
  KeepsSecret host a = Unit

  send_message-KeepsSecret :
      (host : Text) (c : Peer) (from to message : Text)
      → All (KeepsSecret host) (send_message c from to message).1
  unfolding send_message
  send_message-KeepsSecret host c from to message = ground arith

  -- Whatever the configuration, credentials are never sent in the clear to another host.
  pub deliver_via_smarthost-KeepsSecret :
      (peer : Text → Text → Peer) (from_domain : Text) (sh : Smarthost) (from to message : Text)
      → All
          (KeepsSecret sh.host)
          (deliver_via_smarthost quote peer from_domain sh from to message).1
  unfolding deliver_via_smarthost upgrade require authenticate run_auth plain_start login_start
  deliver_via_smarthost-KeepsSecret peer from_domain sh from to message =
      let c = peer (join_host_port sh.host (itoa (smarthost_port sh.port))) sh.host in
      ground (arith, send_message-KeepsSecret sh.host c from to message)

  -- A delivery that succeeds was accepted by the smarthost, over TLS if that is required, and with
  -- `auth` set the smarthost took the credentials.
  pub deliver_via_smarthost_ok :
      (peer : Text → Text → Peer) (from_domain : Text) (sh : Smarthost) (from to message : Text)
      → (deliver_via_smarthost quote peer from_domain sh from to message).0 ≡ none
      → let c = peer (join_host_port sh.host (itoa (smarthost_port sh.port))) sh.host in
        IsAccepted c
        × ((sh.require_tls ≡ false) ⊎ (c.tls_state ≡ true))
        × ((sh.auth ≡ false) ⊎ (c.auth ≡ none))
  unfolding deliver_via_smarthost upgrade require authenticate run_auth
  deliver_via_smarthost_ok peer from_domain sh from to message h =
      let c = peer (join_host_port sh.host (itoa (smarthost_port sh.port))) sh.host in
      ground (arith, send_message_ok c from to message)
