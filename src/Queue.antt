-- ===== src/Queue.antt =====
-- internal/queue/queue.go: the delivery worker over the table outbound_queue. The data is here; what
-- the worker does is in State, Transport, Marks and Worker, and the proofs are in the other children.
pub mod Errors
pub mod State
pub mod Transport
pub mod Marks
pub mod Worker
pub mod Progress
pub mod Drain
pub mod Routing
pub mod Delays
pub mod Resend
pub mod Idle
mod Tests
use rookery.Base.{
  ℕ, ◌+◌, ◌*◌, ◌≡◌, Bool, true, false, Option, none, some, List, [], ◌∷◌, ◌++◌, Text, codes, leb,
  ltb, if◌then◌else◌, ◌&&◌, insert, lookup, Eq_number,
}

pub data Status : Type 0 where
  pending delivering delivered failed bounced : Status

-- Times are in seconds. `none` stands for NULL.
pub record QueueRow : Type 0 where
  pub message_id : Option ℕ
  pub recipient : Text
  pub status : Status
  pub attempts : ℕ
  pub next_retry_at : ℕ
  pub created_at : ℕ
  pub relay_client_id : Option ℕ
  pub mail_from : Text
  pub blob_sha256 : Text
  pub last_error : Option Text
  pub delivered_at : Option ℕ

-- The table, by row id.
abbrev pub Rows : Type 0
Rows = List (ℕ × QueueRow)

abbrev pub minute : ℕ
minute = 60

abbrev pub hour : ℕ
hour = 3600

abbrev pub retry_delays : List ℕ
retry_delays =
    0 ∷ (5 * minute) ∷ (30 * minute) ∷ (2 * hour) ∷ (8 * hour) ∷ (24 * hour) ∷ (48 * hour) ∷ []

abbrev pub max_delivery_age : ℕ
max_delivery_age = 5 * 24 * hour

-- status IN ('pending', 'delivering')
unfoldable pub is_open : Status → Bool
is_open pending = true
is_open delivering = true
is_open delivered = false
is_open failed = false
is_open bounced = false

unfoldable pub is_due : ℕ → QueueRow → Bool
is_due now r = is_open r.status && leb r.next_retry_at now

abbrev pub sooner : ℕ × QueueRow → Option (ℕ × QueueRow) → Option (ℕ × QueueRow)
sooner (id, r) none = some (id, r)
sooner (id, r) (some (j, q)) =
    if leb r.next_retry_at q.next_retry_at then some (id, r) else some (j, q)

-- The row that the claim selects: of those that are due, one with the least `next_retry_at`.
unfoldable pub claim_row : ℕ → Rows → Option (ℕ × QueueRow)
claim_row now [] = none
claim_row now ((id, r) ∷ rows) =
    let rest = claim_row now rows in if is_due now r then sooner (id, r) rest else rest

-- UPDATE outbound_queue SET ... WHERE id = $1
abbrev updated : Option QueueRow → (QueueRow → QueueRow) → ℕ → Rows → Rows
updated none f id rows = rows
updated (some r) f id rows = insert id (f r) rows

unfoldable pub update_row : ℕ → (QueueRow → QueueRow) → Rows → Rows
update_row id f rows = updated (lookup id rows) f id rows

-- `id` is a primary key.
abbrev pub IsFresh : ℕ → Rows → Type 0
IsFresh id [] = Unit
IsFresh id ((j, r) ∷ rows) = ((j ≡ id) → ⊥) × IsFresh id rows

abbrev pub HasUniqueIds : Rows → Type 0
HasUniqueIds [] = Unit
HasUniqueIds ((id, r) ∷ rows) = IsFresh id rows × HasUniqueIds rows
