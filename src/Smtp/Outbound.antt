-- ===== src/Smtp/Outbound.antt =====
-- internal/smtp/outbound.go: delivery to the recipient's own mail servers. The proofs are below.
pub mod Enforce
pub mod Attempts
use rookery.Base.{
  ℕ, Bool, true, false, not, ◌&&◌, Option, none, some, List, [], ◌∷◌, ◌++◌, Text, codes, cut,
  text_eq, trim_last, leb, if◌then◌else◌,
}
use rookery.Smtp.Sts.{StsPolicy, HttpReply, policy_allows_mx}
use rookery.Smtp.Sts.Resolve.{PolicyCache, Resolved, resolved, transient, resolve_policy}
use rookery.Smtp.Client.{
  Peer, Action, ehlo, start_tls, Outcome, fail, send, check, send_message, join_host_port,
}

-- A host of a domain's MX records, with its preference.
pub record Mx : Type 0 where
  pub pref : ℕ
  pub host : Text

-- The network: TXT and MX look-ups, HTTPS, the servers by address and name, and the quoting of %q.
pub record Net : Type 0 where
  pub txt : Text → Option (List Text)
  pub mx : Text → Option Text × List Mx
  pub web : Text → HttpReply
  pub peer : Text → Text → Peer
  pub quote : Text → Text

unfoldable pub is_enforce : Option StsPolicy → Bool
is_enforce none = false
is_enforce (some p) = text_eq p.mode (codes "enforce")

-- `enforce && !policyAllowsMX(policy, serverName)`
unfoldable pub is_refused : Option StsPolicy → Text → Bool
is_refused none server_name = false
is_refused (some p) server_name = is_enforce (some p) && not (policy_allows_mx p server_name)

unfoldable pub mx_error : Text → Text → Text
mx_error name tail = codes "mta-sts: enforce mode, MX " ++ name ++ tail

module _ (net : Net) where
  -- The TLS state is checked once more in enforce mode, before the message is sent.
  unfoldable pub after_tls : Bool → Peer → Text → Text → Text → Text → Outcome
  after_tls enforce c server_name from to message =
      if enforce && not c.tls_state
      then fail (codes "mta-sts: enforce mode, TLS not established with " ++ net.quote server_name)
      else send_message c from to message

  unfoldable pub after_starttls : Option Text → Bool → Text → Outcome → Outcome
  after_starttls none enforce server_name rest = (rest.0, start_tls ∷ rest.1)
  after_starttls (some e) enforce server_name rest =
      if enforce
      then (
        some (
            codes "mta-sts: enforce mode, STARTTLS to "
            ++ net.quote server_name
            ++ codes " failed: "
            ++ e),
        start_tls ∷ [],
      )
      else (rest.0, start_tls ∷ rest.1)

  unfoldable pub negotiate : Bool → Peer → Text → Outcome → Outcome
  negotiate enforce c server_name rest =
      if c.offers_starttls
      then after_starttls c.starttls enforce server_name rest
      else if enforce
      then fail (mx_error (net.quote server_name) (codes " does not offer STARTTLS"))
      else rest

  unfoldable pub try_deliver :
      Option StsPolicy → (from_domain addr server_name from to message : Text) → Outcome
  try_deliver policy from_domain addr server_name from to message =
      let c = net.peer addr server_name in
      let enforce = is_enforce policy in
      if is_refused policy server_name
      then fail (mx_error (net.quote server_name) (codes " not authorized by policy"))
      else check c.dial (codes "dial " ++ addr ++ codes ": ") (
          check c.greeting (codes "smtp client: ") (
            send (ehlo from_domain) c.hello (codes "EHLO: ")
              (negotiate enforce c server_name (after_tls enforce c server_name from to message))))

-- `sort.Slice` by preference, as an insertion sort.
unfoldable pub insert_mx : Mx → List Mx → List Mx
insert_mx m [] = m ∷ []
insert_mx m (n ∷ ns) =
    let rest = insert_mx m ns in if leb m.pref n.pref then m ∷ n ∷ ns else n ∷ rest

unfoldable pub sort_mx : List Mx → List Mx
sort_mx [] = []
sort_mx (m ∷ ms) = insert_mx m (sort_mx ms)

-- One attempt: the host and what was sent to it.
abbrev pub Attempt : Type 0
Attempt = Text × List Action

abbrev nil_error : Text
nil_error = codes "%!w(<nil>)"

abbrev error_text : Option Text → Text
error_text none = nil_error
error_text (some e) = e

-- What an attempt leaves: the loop ends at a success, and goes on to `rest` after an error.
unfoldable pub after_attempt :
    Option Text
    → Attempt
    → Option (Option Text) × List Attempt
    → Option (Option Text) × List Attempt
after_attempt none a rest = (none, a ∷ [])
after_attempt (some e) a rest = (rest.0, a ∷ rest.1)

module _ (net : Net) where
  -- The loop over the MX hosts: `last` is the error of the attempt before.
  unfoldable pub try_each :
      Option StsPolicy
      → (from_domain from to message : Text) → List Mx
      → Option Text
      → Option (Option Text) × List Attempt
  try_each policy from_domain from to message [] last = (some last, [])
  try_each policy from_domain from to message (m ∷ ms) last =
      let host = trim_last b'.' m.host in
      let (err, sent) =
        try_deliver net policy from_domain (join_host_port host (codes "25")) host from to
          message in
      let rest = try_each policy from_domain from to message ms err in
      after_attempt err (host, sent) rest

  unfoldable pub try_all :
      Option StsPolicy
      → (domain from_domain from to message : Text) → Option Text × List Mx
      → Option Text × List Attempt
  try_all policy domain from_domain from to message (some e, ms) =
      (some (codes "outbound: MX lookup for " ++ domain ++ codes " failed: " ++ e), [])
  try_all policy domain from_domain from to message (none, []) =
      (some (codes "outbound: MX lookup for " ++ domain ++ codes " failed: " ++ nil_error), [])
  try_all policy domain from_domain from to message (none, m ∷ ms) =
      let (result, attempts) =
        try_each policy from_domain from to message (sort_mx (m ∷ ms)) none in
      elim result [
        | none ↦ (none, attempts)
        | some last ↦ (
          some (
              codes "outbound: all MX hosts for "
              ++ domain
              ++ codes " failed: "
              ++ error_text last),
          attempts,
        )
      ]

  -- A failed discovery falls back to opportunistic delivery.
  unfoldable pub policy_of : Resolved → Option StsPolicy
  policy_of (resolved p) = p
  policy_of (transient e) = none

  module _ {C : Type 0} (cache : PolicyCache C) where
    unfoldable pub deliver_to :
        Option C
        → (from_domain from to message : Text) → Option (Text × Text)
        → (Option Text × List Attempt) × Option C
    deliver_to c from_domain from to message none =
        ((some (codes "outbound: invalid recipient address " ++ net.quote to), []), c)
    deliver_to c from_domain from to message (some (local, domain)) =
        let (found, c') = resolve_policy cache net.txt net.web c domain in
        (try_all (policy_of found) domain from_domain from to message (net.mx domain), c')

    unfoldable pub deliver :
        Option C → (from_domain from to message : Text) → (Option Text × List Attempt) × Option C
    deliver c from_domain from to message = deliver_to c from_domain from to message (cut b'@' to)
