-- ===== src/Lifecycle/Dropped.antt =====
-- The domains that go with an account: no RESTRICT holds them.
use mathlib.Core.List.{Memᴰ}
use mathlib.Core.List.Memᴰ.{head, tail}
use rookery.Base.{
  ℕ, ◌≡◌, ◌≢◌, refl, Bool, true, false, ◌&&◌, not, none, List, [], ◌∷◌, arith, ◌==◌, any, select,
  map, All, Bool-cases, inl, inr,
}
use rookery.Lifecycle.{
  AddressRow, DomainRow, Db, Faults, is_exclusive, exclusive_domains, delete_row, delete_domains,
}

pub All-select {ℓ} :
    {A : Type ℓ} (P : A → Type 0) (p : A → Bool) (xs : List A)
    → ((x : A) → p x ≡ true → P x)
    → All P (select p xs)
All-select P p [] h = tt
All-select P p (x ∷ xs) h = elim (Bool-cases (p x)) [
  | inl e ↦ rw e (h x e, All-select P p xs h)
  | inr e ↦ rw e (All-select P p xs h)
]

All-select_of {ℓ} :
    {A : Type ℓ} (P : A → Type 0) (p : A → Bool) (xs : List A) → All P xs → All P (select p xs)
All-select_of P p [] h = tt
All-select_of P p (x ∷ xs) h = elim (Bool-cases (p x)) [
  | inl e ↦ rw e (h.0, All-select_of P p xs h.1)
  | inr e ↦ rw e (All-select_of P p xs h.1)
]

pub All-map {ℓ κ} :
    {A : Type ℓ} {B : Type κ} (P : B → Type 0) (f : A → B) (xs : List A)
    → ((x : A) → P (f x))
    → All P (map f xs)
All-map P f [] h = tt
All-map P f (x ∷ xs) h = (h x, All-map P f xs h)

All-map-select {ℓ κ} :
    {A : Type ℓ} {B : Type κ} (P : B → Type 0) (f : A → B) (p : A → Bool) (xs : List A)
    → ((x : A) → p x ≡ true → P (f x))
    → All P (map f (select p xs))
All-map-select P f p [] h = tt
All-map-select P f p (x ∷ xs) h = elim (Bool-cases (p x)) [
  | inl e ↦ rw e (h x e, All-map-select P f p xs h)
  | inr e ↦ rw e (All-map-select P f p xs h)
]

pub any-Memᴰ : (user : ℕ) (us : List ℕ) → Memᴰ user us → any (λ u. u == user) us ≡ true
any-Memᴰ user [] there = elim there [ ]
any-Memᴰ user (u ∷ us) (head same) = ground arith
any-Memᴰ user (u ∷ us) (tail there) = ground (arith, any-Memᴰ user us there)

-- ON DELETE RESTRICT does not hold a domain whose addresses were all of the deleted user.
any-select_others :
    (user id : ℕ) (rows : List AddressRow)
    → any (λ a. a.domain_id == id && not (a.user_id == user)) rows ≡ false
    → any (λ a. a.domain_id == id) (select (λ a. not (a.user_id == user)) rows) ≡ false
any-select_others user id [] h = refl
any-select_others user id (a ∷ rows) h = elim (Bool-cases (a.user_id == user)) [
  | inl e ↦ ground (arith, e, any-select_others user id rows)
  | inr e ↦ ground (arith, e, any-select_others user id rows)
]

pub exclusive_domains-IsFree :
    (user : ℕ) (db : Db)
    → All
        (λ id. any (λ a. a.domain_id == id) (delete_row user db).addresses ≡ false)
        (exclusive_domains user db)
unfolding exclusive_domains is_exclusive delete_row
exclusive_domains-IsFree user db =
    All-map-select _ (λ d. d.id) (is_exclusive user db) db.domains
      (λ d h. any-select_others user d.id db.addresses (ground arith))

-- The domains without those of the ids.
abbrev pub drop_ids : List ℕ → List DomainRow → List DomainRow
drop_ids [] ds = ds
drop_ids (id ∷ ids) ds = drop_ids ids (select (λ d. not (d.id == id)) ds)

pub drop_ids-All :
    (P : DomainRow → Type 0) (ids : List ℕ) (ds : List DomainRow)
    → All P ds
    → All P (drop_ids ids ds)
drop_ids-All P [] ds h = h
drop_ids-All P (id ∷ ids) ds h = drop_ids-All P ids _ (All-select_of P _ ds h)

pub drop_ids-gone :
    (ids : List ℕ) (ds : List DomainRow) → All (λ id. All (λ d. d.id ≢ id) (drop_ids ids ds)) ids
drop_ids-gone [] ds = tt
drop_ids-gone (id ∷ ids) ds = (
  drop_ids-All (λ d. d.id ≢ id) ids _
      (All-select (λ d. d.id ≢ id) (λ d. not (d.id == id)) ds (λ d h. λ e. ground arith)),
  drop_ids-gone ids (select (λ d. not (d.id == id)) ds),
)

pub delete_domains_fine :
    (f : Faults) (ids : List ℕ) (db : Db)
    → ((id : ℕ) → f.domain_err id ≡ none)
    → All (λ id. any (λ a. a.domain_id == id) db.addresses ≡ false) ids
    → delete_domains f ids db ≡ (none, record db { domains = drop_ids ids db.domains })
unfolding delete_domains
delete_domains_fine f [] db works free = refl
delete_domains_fine f (id ∷ ids) db works free =
    let gone : Db = record db { domains = select (λ d. not (d.id == id)) db.domains } in
    rw (works id, free.0) (delete_domains_fine f ids gone works free.1)
