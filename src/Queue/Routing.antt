-- ===== src/Queue/Routing.antt =====
-- By which way, and as which bytes, a queued message leaves.
use rookery.Base.{
  Bool-cases, ◌≡◌, ◌≢◌, ◌⊎◌, inl, inr, refl, true, false, Option, none, some, arith, Text, text_eq,
  text_eq_iff, Eq_number,
}
use rookery.Queue.{QueueRow}
use rookery.Queue.State.{
  DeliveryError, Signed, signed, sign_error, unreadable, Worker, Handover, to_local, to_mx,
  to_smarthost, Job,
}
use rookery.Queue.Transport.{
  is_relayed, hand_external, deliver_signed, deliver_external, recipient_domain, transport,
}

-- The bytes that a transport is given.
abbrev pub bytes_of : Handover → Text
bytes_of (to_local from to message) = message
bytes_of (to_mx from_domain from to message) = message
bytes_of (to_smarthost from_domain from to message) = message

abbrev pub recipient_of : Handover → Text
recipient_of (to_local from to message) = to
recipient_of (to_mx from_domain from to message) = to
recipient_of (to_smarthost from_domain from to message) = to

-- Relayed mail is forwarded as it came: for a row of a relay client the stored bytes are handed to
-- the local inbox or to the recipient's own servers, never signed and never given to the smarthost.
pub transport_relayed :
    (w : Worker) (row : QueueRow) (job : Job) (raw : Text)
    → is_relayed row ≡ true
    → (x : Handover) × (answer : Option DeliveryError) × (transport w row job raw
        ≡ some (x, answer))
      × (bytes_of x ≡ raw)
      × (recipient_of x ≡ row.recipient)
      × ((x ≡ to_local job.from row.recipient raw)
          ⊎ (x ≡ to_mx job.domain job.from row.recipient raw))
unfolding transport
transport_relayed w row job raw h =
    elim (Bool-cases (text_eq (recipient_domain row.recipient) w.domain)) [
      | inl e ↦ rw e (_, _, refl, refl, refl, inl refl)
      | inr e ↦ rw (e, h) (_, _, refl, refl, refl, inr refl)
    ]

-- Mail to the server's own domain is stored locally and is handed to no other server.
pub transport_local :
    (w : Worker) (row : QueueRow) (job : Job) (raw : Text)
    → recipient_domain row.recipient ≡ w.domain
    → transport w row job raw
      ≡ some (to_local job.from row.recipient raw, w.deliver_local job.from row.recipient raw)
unfolding transport
transport_local w row job raw h =
    ground (arith, text_eq_iff (recipient_domain row.recipient) w.domain)

-- For a row that is not relayed and a recipient of another domain, the signed message is handed on, or
-- the stored one where signing fails, or none where the signed one cannot be read; the signing domain
-- is also the EHLO domain, with a smarthost and without.
pub transport_external :
    (w : Worker) (row : QueueRow) (job : Job) (raw : Text)
    → is_relayed row ≡ false
    → recipient_domain row.recipient ≢ w.domain
    → (transport w row job raw ≡ none) × ((e : Text) × (w.sign job.domain raw ≡ unreadable e))
      ⊎ ((message : Text) × (transport w row job raw
            ≡ some (hand_external w job.domain job.from row.recipient message))
          × ((w.sign job.domain raw ≡ signed message)
              ⊎ ((e : Text) × (w.sign job.domain raw ≡ sign_error e) × (message ≡ raw))))
unfolding transport deliver_external
transport_external w row job raw h k = rw (miss, h) (go (w.sign job.domain raw) refl)
  where
    miss : text_eq (recipient_domain row.recipient) w.domain ≡ false
    miss = ground (arith, text_eq_iff (recipient_domain row.recipient) w.domain)

    go :
        (x : Signed)
        → w.sign job.domain raw ≡ x
        → (deliver_signed w x job.domain job.from row.recipient raw ≡ none)
            × ((e : Text) × (x ≡ unreadable e))
          ⊎ ((message : Text) × (deliver_signed w x job.domain job.from row.recipient raw
                ≡ some (hand_external w job.domain job.from row.recipient message))
              × ((x ≡ signed message) ⊎ ((e : Text) × (x ≡ sign_error e) × (message ≡ raw))))
    go (signed m) e = inr (m, unfold deliver_signed in refl, inl refl)
    go (sign_error t) e = inr (raw, unfold deliver_signed in refl, inr (t, refl, refl))
    go (unreadable t) e = inl (unfold deliver_signed in refl, (t, refl))
