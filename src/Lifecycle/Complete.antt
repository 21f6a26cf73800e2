-- ===== src/Lifecycle/Complete.antt =====
-- What the deletion of an account leaves behind of it.
use mathlib.Core.List.{Memᴰ}
use rookery.Base.{◌⊎◌, ℕ, ◌≡◌, ◌≢◌, true, some, List, All}
use rookery.Lifecycle.{AddressRow, DomainRow, Db}

-- A domain that is not the user's alone: it is owned by another, or the primary one, or somebody else
-- has an address in it.
abbrev pub IsKeptFor : ℕ → Db → DomainRow → Type 0
IsKeptFor user db d =
    (d.owner_user_id ≢ some user)
    ⊎ ((d.is_primary ≡ true)
        ⊎ ((a : AddressRow) × Memᴰ a db.addresses × (a.domain_id ≡ d.id) × (a.user_id ≢ user)))

-- Nothing of the user is left in the tables: neither the row, nor messages or addresses, nor a domain
-- that the user owns, nor a domain that was the user's alone.
abbrev pub IsForgotten : ℕ → Db → Db → Type 0
IsForgotten user db db' =
    All (λ u. u ≢ user) db'.users
    × All (λ m. m.user_id ≢ user) db'.messages
    × All (λ a. a.user_id ≢ user) db'.addresses
    × All (λ d. d.owner_user_id ≢ some user) db'.domains
    × All (λ d. IsKeptFor user db d ⊎ All (λ e. e.id ≢ d.id) db'.domains) db.domains
