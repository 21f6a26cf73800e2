-- ===== src/Smtp/Outbound/Enforce.antt =====
-- internal/smtp/outbound.go: what an `enforce` policy means for the attempts that are made under it.
use rookery.Base.{
  ◌≡◌, ◌⊎◌, inl, inr, true, false, Option, none, some, List, [], ◌∷◌, arith, Text, codes, All,
  trim_last, Bool-cases, cut,
}
use rookery.Smtp.Sts.{StsPolicy, policy_allows_mx}
use rookery.Smtp.Sts.Resolve.{PolicyCache, resolved, resolve_policy}
use rookery.Smtp.Client.{
  Peer, Outcome, IsPrivate, IsAccepted, send_message-IsPrivate, send_message_ok, join_host_port,
}
use rookery.Smtp.Outbound.{
  Net, Mx, Attempt, is_enforce, is_refused, after_tls, after_starttls, negotiate, try_deliver,
  after_attempt, try_each, try_all, policy_of, deliver_to, deliver, sort_mx,
}

module _ (net : Net) where
  after_tls-IsPrivate :
      (c : Peer) (name from to message : Text)
      → All IsPrivate (after_tls net true c name from to message).1
  unfolding after_tls
  after_tls-IsPrivate c name from to message =
      ground (arith, send_message-IsPrivate c from to message)

  negotiate-IsPrivate :
      (c : Peer) (name : Text) (rest : Outcome)
      → All IsPrivate rest.1
      → All IsPrivate (negotiate net true c name rest).1
  unfolding negotiate after_starttls
  negotiate-IsPrivate c name rest h = ground arith

  -- Under an enforced policy nothing of a message is ever sent on a connection that is not TLS.
  pub try_deliver-IsPrivate :
      (policy : Option StsPolicy) (from_domain addr name from to message : Text)
      → is_enforce policy ≡ true
      → All IsPrivate (try_deliver net policy from_domain addr name from to message).1
  unfolding try_deliver
  try_deliver-IsPrivate policy from_domain addr name from to message h =
      let c = net.peer addr name in
      ground (
        arith,
        negotiate-IsPrivate c name (after_tls net true c name from to message)
            (after_tls-IsPrivate c name from to message),
      )

  -- Under an enforced policy a host that the policy does not name is sent nothing.
  pub try_deliver_refused :
      (p : StsPolicy) (from_domain addr name from to message : Text)
      → is_enforce (some p) ≡ true
      → policy_allows_mx p name ≡ false
      → (try_deliver net (some p) from_domain addr name from to message).1 ≡ []
  unfolding try_deliver is_refused
  try_deliver_refused p from_domain addr name from to message h k = ground arith

  -- A delivery under an enforced policy that succeeds went to a host that the policy names, which
  -- offered STARTTLS, completed it, and accepted the message over TLS.
  pub try_deliver_enforced :
      (p : StsPolicy) (from_domain addr name from to message : Text)
      → is_enforce (some p) ≡ true
      → (try_deliver net (some p) from_domain addr name from to message).0 ≡ none
      → let c = net.peer addr name in
        (policy_allows_mx p name ≡ true)
        × (c.offers_starttls ≡ true)
        × (c.starttls ≡ none)
        × (c.tls_state ≡ true)
        × IsAccepted c
  unfolding try_deliver is_refused negotiate after_starttls after_tls
  try_deliver_enforced p from_domain addr name from to message h k =
      let c = net.peer addr name in ground (arith, send_message_ok c from to message)

  -- An attempt that keeps to the policy: sender, recipient, message and credentials are sent on TLS
  -- only, while EHLO and STARTTLS may go before it, and a host that the policy does not name is sent
  -- nothing.
  abbrev pub IsGuarded : StsPolicy → Attempt → Type 0
  IsGuarded p (host, sent) = All IsPrivate sent × ((sent ≡ []) ⊎ (policy_allows_mx p host ≡ true))

  try_deliver-IsGuarded :
      (p : StsPolicy) (from_domain addr name from to message : Text)
      → is_enforce (some p) ≡ true
      → IsGuarded p (name, (try_deliver net (some p) from_domain addr name from to message).1)
  try_deliver-IsGuarded p from_domain addr name from to message h = (
    try_deliver-IsPrivate (some p) from_domain addr name from to message h,
    elim (Bool-cases (policy_allows_mx p name)) [
      | inl e ↦ inr e
      | inr e ↦ inl (try_deliver_refused p from_domain addr name from to message h e)
    ],
  )

  try_each-IsGuarded :
      (p : StsPolicy) (from_domain from to message : Text) (ms : List Mx) (last : Option Text)
      → is_enforce (some p) ≡ true
      → All (IsGuarded p) (try_each net (some p) from_domain from to message ms last).1
  unfolding try_each after_attempt
  try_each-IsGuarded p from_domain from to message [] last h = tt
  try_each-IsGuarded p from_domain from to message (m ∷ ms) last h =
      let host = trim_last b'.' m.host in
      let addr = join_host_port host (codes "25") in
      ground (
        arith,
        try_deliver-IsGuarded p from_domain addr host from to message h,
        try_each-IsGuarded p from_domain from to message ms
            (try_deliver net (some p) from_domain addr host from to message).0 h,
      )

  try_all-IsGuarded :
      (p : StsPolicy) (domain from_domain from to message : Text) (found : Option Text × List Mx)
      → is_enforce (some p) ≡ true
      → All (IsGuarded p) (try_all net (some p) domain from_domain from to message found).1
  unfolding try_all
  try_all-IsGuarded p domain from_domain from to message (some e, ms) h = tt
  try_all-IsGuarded p domain from_domain from to message (none, []) h = tt
  try_all-IsGuarded p domain from_domain from to message (none, m ∷ ms) h =
      ground (arith, try_each-IsGuarded p from_domain from to message (sort_mx (m ∷ ms)) none h)

  -- When the policy of the recipient's domain is resolved and enforced, every attempt of a delivery
  -- keeps to it, whatever the servers answer and however the delivery ends: the sender, the recipient,
  -- DATA, the message and credentials are sent on TLS only (EHLO and STARTTLS may be sent before it),
  -- and a host that the policy does not name is sent nothing at all.
  pub deliver-IsGuarded :
      {C : Type 0} (cache : PolicyCache C) (c : Option C)
      (from_domain from to message local domain : Text) (p : StsPolicy)
      → cut b'@' to ≡ some (local, domain)
      → (resolve_policy cache net.txt net.web c domain).0 ≡ resolved (some p)
      → is_enforce (some p) ≡ true
      → All (IsGuarded p) (deliver net cache c from_domain from to message).0.1
  unfolding deliver deliver_to policy_of
  deliver-IsGuarded cache c from_domain from to message local domain p e r h =
      rw e (rw r (try_all-IsGuarded p domain from_domain from to message (net.mx domain) h))
