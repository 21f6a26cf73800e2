-- ===== src/Domains/Rows.antt =====
-- The table of domains under the updates of one row.
use rookery.Base.{
  ℕ, ◌≡◌, Option, none, some, List, [], ◌∷◌, ◌==◌, arith, find_first, find_first-Memᴰ,
}
use rookery.Domains.{scan_one, Domain, Db, done, Faults, get, get_domain, set_row}

abbrev pub row_at : ℕ → List Domain → Option Domain
row_at id rows = find_first (λ d. d.id == id) rows

-- An update that keeps the ids changes the row that it names.
pub row_at-set_row :
    (g : Domain → Domain) (id : ℕ) (rows : List Domain) (d : Domain)
    → ((d : Domain) → (g d).id ≡ d.id)
    → row_at id rows ≡ some d
    → row_at id (set_row g id rows) ≡ some (g d)
unfolding set_row
row_at-set_row g id [] d keeps h = cc
row_at-set_row g id (e ∷ rows) d keeps h = ground (arith, keeps e, row_at-set_row g id rows d keeps)

pub row_at-id : (id : ℕ) (rows : List Domain) (d : Domain) → row_at id rows ≡ some d → d.id ≡ id
row_at-id id rows d h = ground (arith, (find_first-Memᴰ (λ d. d.id == id) rows d h).0)

-- A row that was read is in the table.
pub get-row_at :
    (f : Faults) (id : ℕ) (db : Db) (d : Domain)
    → get f id db ≡ done d
    → row_at id db.domains ≡ some d
unfolding get
get-row_at f id db d h = go (f get_domain) (row_at id db.domains) h
  where
    go : (e : Option _) (o : Option Domain) → scan_one e o ≡ done d → o ≡ some d
    go (some e) o h = cc
    go none none h = cc
    go none (some x) h = ground arith
