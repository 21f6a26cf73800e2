-- ===== src/Smtp/Client.antt =====
-- The SMTP client side that outbound.go drives: the commands sent on a connection, in order, each
-- with the answer of the other side, and `sendMessage`. Errors are their texts.
use rookery.Base.{
  ℕ, suc, zero, ◌+◌, ◌/◌, ◌%◌, Bool, true, Option, none, some, List, [], ◌∷◌, ◌++◌, Text, codes,
  contains, ◌==◌, if◌then◌else◌, ◌≡◌, All, arith,
}

-- How a remote server behaves in one session. `none` is success. `tls_state` is what
-- `TLSConnectionState` reports once the greeting and any STARTTLS are over.
pub record Peer : Type 0 where
  pub dial : Option Text
  pub greeting : Option Text
  pub hello : Option Text
  pub offers_starttls : Bool
  pub starttls : Option Text
  pub tls_state : Bool
  pub auth_offer : Option Text
  pub auth : Option Text
  pub mail : Option Text
  pub rcpt : Option Text
  pub command_data : Option Text
  pub write : Option Text
  pub close : Option Text

pub data Mechanism : Type 0 where
  plain login : Mechanism

-- What the client sends. The Boolean says whether the connection is TLS at that point.
pub data Action : Type 0 where
  ehlo : Text → Action
  start_tls : Action
  credentials : Bool → Mechanism → Text → Action
  mail_from : Bool → Text → Action
  rcpt_to : Bool → Text → Action
  begin_data : Bool → Action
  body : Bool → Text → Action

-- A session's error, if any, and what was sent.
abbrev pub Outcome : Type 0
Outcome = Option Text × List Action

abbrev pub fail : Text → Outcome
fail e = (some e, [])

-- Send, and go on unless the answer is an error, which is wrapped.
abbrev pub send : Action → Option Text → Text → Outcome → Outcome
send a none prefix rest = (rest.0, a ∷ rest.1)
send a (some e) prefix rest = (some (prefix ++ e), a ∷ [])

-- A step that sends nothing.
abbrev pub check : Option Text → Text → Outcome → Outcome
check none prefix rest = rest
check (some e) prefix rest = fail (prefix ++ e)

-- The end of DATA: the error of the last dot comes back as it is.
unfoldable pub send_message : Peer → Text → Text → Text → Outcome
send_message c from to message = send (mail_from c.tls_state from) c.mail (codes "MAIL FROM: ") (
    send (rcpt_to c.tls_state to) c.rcpt (codes "RCPT TO: ") (
      send (begin_data c.tls_state) c.command_data (codes "DATA cmd: ")
        (send (body c.tls_state message) c.write (codes "DATA write: ") (c.close, []))))

-- The body was handed over and the server took it.
abbrev pub IsAccepted : Peer → Type 0
IsAccepted c =
    (c.mail ≡ none)
    × (c.rcpt ≡ none)
    × (c.command_data ≡ none)
    × (c.write ≡ none)
    × (c.close ≡ none)

-- The actions that give away mail or credentials are on a TLS connection.
abbrev pub IsPrivate : Action → Type 0
IsPrivate (ehlo d) = Unit
IsPrivate start_tls = Unit
IsPrivate (credentials tls m user) = tls ≡ true
IsPrivate (mail_from tls from) = tls ≡ true
IsPrivate (rcpt_to tls to) = tls ≡ true
IsPrivate (begin_data tls) = tls ≡ true
IsPrivate (body tls message) = tls ≡ true

pub send_message-IsPrivate :
    (c : Peer) (from to message : Text)
    → c.tls_state ≡ true
    → All IsPrivate (send_message c from to message).1
unfolding send_message
send_message-IsPrivate c from to message h = ground arith

pub send_message_ok :
    (c : Peer) (from to message : Text) → (send_message c from to message).0 ≡ none → IsAccepted c
unfolding send_message
send_message_ok c from to message h = ground arith

-- Decimal digits of a number, with a digit for each unit of fuel.
unfoldable pub decimal_digits : ℕ → ℕ → Text → Text
decimal_digits zero n out = out
decimal_digits (suc fuel) n out =
    let rest = decimal_digits fuel (n / 10) ((b'0' + n % 10) ∷ out) in
    if n / 10 == 0 then (b'0' + n % 10) ∷ out else rest

-- strconv.Itoa, for numbers below 10 ^ 20.
unfoldable pub itoa : ℕ → Text
itoa n = decimal_digits 20 n []

-- net.JoinHostPort
unfoldable pub join_host_port : Text → Text → Text
join_host_port host port =
    (if contains host (codes ":") then codes "[" ++ host ++ codes "]" else host)
    ++ codes ":"
    ++ port
