-- ===== src/Queue/State.antt =====
-- The worker of internal/queue/queue.go and the state that it works on. What the worker calls outside
-- its package are the functions of the record `Worker`; what the database, the clock and the disk
-- do in one round is a `Round`. Updates whose errors the code drops are made or not by a Boolean of
-- the round.
use rookery.Base.{ℕ, Bool, Option, List, Text, Eq_number}
use rookery.Store.{Files, Disk}
use rookery.Queue.{Rows}

pub record DeliveryError : Type 0 where
  -- errors.Is(err, ErrNoSuchUser)
  pub no_such_user : Bool
  pub text : Text

-- signFn: signed bytes, an error, or a reader that fails when it is read.
pub data Signed : Type 0 where
  signed : Text → Signed
  sign_error : Text → Signed
  unreadable : Text → Signed

pub record Worker : Type 0 where
  pub domain : Text
  pub smarthost_enabled : Bool
  pub deliver_local : (from to message : Text) → Option DeliveryError
  pub deliver : (from_domain from to message : Text) → Option DeliveryError
  pub smarthost : (from_domain from to message : Text) → Option DeliveryError
  pub sign : (domain message : Text) → Signed
  pub date : ℕ → Text
  pub sha256_hex : Text → Text

pub record Round : Type 0 where
  pub now : ℕ
  pub later : ℕ
  pub begin_err : Option Text
  pub claim_err : Option Text
  pub mark_err : Option Text
  pub commit_err : Option Text
  pub loads : Bool
  pub marks : Bool
  pub disk : Disk
  pub inserts : Bool

-- A message, with the domain of its owner's primary address where the joins find one.
pub record MessageRow : Type 0 where
  pub user : ℕ
  pub from_address : Text
  pub blob_sha256 : Text
  pub domain : Option Text

-- A message in the folder 'bounced'.
pub record Bounce : Type 0 where
  pub user : ℕ
  pub from_address : Text
  pub to_address : Text
  pub subject : Text
  pub size_bytes : ℕ
  pub blob_sha256 : Text

-- A message that was given to a transport, with the bytes that it was given.
pub data Handover : Type 0 where
  to_local : (from to message : Text) → Handover
  to_mx : (from_domain from to message : Text) → Handover
  to_smarthost : (from_domain from to message : Text) → Handover

pub record QueueState : Type 0 where
  pub rows : Rows
  pub messages : List (ℕ × MessageRow)
  pub files : Files
  pub bounces : List Bounce
  pub handed : List Handover

-- What is delivered for a row: sender, blob and the EHLO or signing domain.
pub record Job : Type 0 where
  pub from : Text
  pub blob : Text
  pub domain : Text
