-- ===== src/Domains/Jobs/Modes.antt =====
-- The upgrade of MTA-STS modes.
use rookery.Domains.Jobs.{is_present}
use rookery.Base.{
  All-map, ℕ, ◌≡◌, ◌≢◌, refl, Bool, true, ◌&&◌, not, Option, none, some, List, [], ◌∷◌, arith, Text,
  codes, map, select, ◌==◌, Bool-cases, inl, inr, sym, ◌∙◌, All,
}
use rookery.Domains.{update_domain, query_jobs, Domain, Db, set_row, update}
use rookery.Domains.Settings.{mode_or, mode_since, effective_mta_sts_mode}
use rookery.Domains.Jobs.{
  was_changed_before, is_upgradable, enforced, Upgrade, upgrade_row, upgrade_all, upgrade_found,
  upgrade_mta_sts_modes,
}

-- No two rows have the same id.
abbrev pub HasUniqueIds : List Domain → Type 0
HasUniqueIds [] = Unit
HasUniqueIds (d ∷ ds) = All (λ e. e.id ≢ d.id) ds × HasUniqueIds ds

-- Each row of this id is served with the mode "enforce".
abbrev Enforces : ℕ → ℕ → List Domain → Type 0
Enforces now id [] = Unit
Enforces now id (d ∷ ds) =
    (d.id ≡ id → effective_mta_sts_mode now d ≡ codes "enforce") × Enforces now id ds

upgradable-enforces :
    (now : ℕ) (d : Domain)
    → is_upgradable now d ≡ true
    → effective_mta_sts_mode now d ≡ codes "enforce"
unfolding is_upgradable was_changed_before effective_mta_sts_mode mode_since
upgradable-enforces now d h = go d.mta_sts_mode d.mta_sts_mode_changed_at (ground arith)
  where
    go :
        (m : Option Text) (at : Option ℕ)
        → (not (is_present m) && was_changed_before now at) ≡ true
        → mode_or (mode_since now at) m ≡ codes "enforce"
    go (some m) at h = cc
    go none none h = cc
    go none (some at) h = ground arith

enforced-enforces :
    (now : ℕ) (token : Text) (d : Domain)
    → effective_mta_sts_mode now (enforced now token d) ≡ codes "enforce"
unfolding effective_mta_sts_mode
enforced-enforces now token d = refl

set_row-Enforces :
    (now id j : ℕ) (token : Text) (rows : List Domain)
    → Enforces now j rows
    → Enforces now j (set_row (enforced now token) id rows)
unfolding set_row
set_row-Enforces now id j token [] h = tt
set_row-Enforces now id j token (d ∷ rows) h = elim (Bool-cases (d.id == id)) [
  | inl e ↦ rw e ((λ _. enforced-enforces now token d), set_row-Enforces now id j token rows h.1)
  | inr e ↦ rw e (h.0, set_row-Enforces now id j token rows h.1)
]

set_row-modes :
    (now id : ℕ) (token : Text) (rows : List Domain)
    → Enforces now id rows
    → map (effective_mta_sts_mode now) (set_row (enforced now token) id rows)
      ≡ map (effective_mta_sts_mode now) rows
unfolding set_row
set_row-modes now id token [] h = refl
set_row-modes now id token (d ∷ rows) h =
    ground (arith, enforced-enforces now token d, set_row-modes now id token rows h.1)

-- The rows still to upgrade, each of which enforces already.
upgrade_all-modes :
    (u : Upgrade) (ds : List Domain) (db : Db)
    → All (λ d. Enforces u.now d.id db.domains) ds
    → map (effective_mta_sts_mode u.now) (upgrade_all u ds db).1.domains
      ≡ map (effective_mta_sts_mode u.now) db.domains
unfolding upgrade_all upgrade_row
upgrade_all-modes u [] db h = refl
upgrade_all-modes u (d ∷ ds) db h =
    go (u.token_err d.id) (u.faults (update_domain d.id)) (upgrade_all-modes u ds db h.1) (
      upgrade_all-modes u ds (update d.id (enforced u.now (u.token d.id)) db)
        (All-map _ _ ds (λ x. set_row-Enforces u.now d.id x.id (u.token d.id) db.domains) h.1))
  where
    modes : Db → List Text
    modes db = map (effective_mta_sts_mode u.now) db.domains

    go :
        (e1 e2 : Option Text)
        → modes (upgrade_all u ds db).1 ≡ modes db
        → modes (upgrade_all u ds (update d.id (enforced u.now (u.token d.id)) db)).1
          ≡ modes (update d.id (enforced u.now (u.token d.id)) db)
        → modes (upgrade_all u ds (upgrade_row u d e1 e2 db).1).1 ≡ modes db
    go (some e) e2 same changed = same
    go none (some e) same changed = same
    go none none same changed = changed ∙ set_row-modes u.now d.id (u.token d.id) db.domains h.0

Enforces-fresh :
    (now id : ℕ) (rows : List Domain) → All (λ e. e.id ≢ id) rows → Enforces now id rows
Enforces-fresh now id [] h = tt
Enforces-fresh now id (d ∷ rows) h = ((λ e. absurd (h.0 e)), Enforces-fresh now id rows h.1)

select-fresh :
    (p : Domain → Bool) (id : ℕ) (rows : List Domain)
    → All (λ e. e.id ≢ id) rows
    → All (λ e. e.id ≢ id) (select p rows)
select-fresh p id [] h = tt
select-fresh p id (d ∷ rows) h = elim (Bool-cases (p d)) [
  | inl e ↦ rw e (h.0, select-fresh p id rows h.1)
  | inr e ↦ rw e (select-fresh p id rows h.1)
]

select-Enforces :
    (now : ℕ) (rows : List Domain)
    → HasUniqueIds rows
    → All (λ d. Enforces now d.id rows) (select (is_upgradable now) rows)
select-Enforces now [] h = tt
select-Enforces now (d ∷ rows) h =
    let later : All (λ x. Enforces now x.id (d ∷ rows)) (select (is_upgradable now) rows) =
      add (select (is_upgradable now) rows) (select-fresh (is_upgradable now) d.id rows h.0)
        (select-Enforces now rows h.1) in
    elim (Bool-cases (is_upgradable now d)) [
      | inl e ↦ rw e (((λ _. upgradable-enforces now d e), Enforces-fresh now d.id rows h.0), later)
      | inr e ↦ rw e later
    ]
  where
    add :
        (ds : List Domain)
        → All (λ e. e.id ≢ d.id) ds
        → All (λ x. Enforces now x.id rows) ds
        → All (λ x. Enforces now x.id (d ∷ rows)) ds
    add [] fresh k = tt
    add (x ∷ ds) fresh k = (((λ same. absurd (fresh.0 (sym same))), k.0), add ds fresh.1 k.1)

-- The upgrade changes for no domain the mode that is served at its time: it turns into a setting
-- what the age of the policy has made of it. The ids of the rows are distinct.
pub upgrade_mta_sts_modes-modes :
    (u : Upgrade) (db : Db)
    → HasUniqueIds db.domains
    → map (effective_mta_sts_mode u.now) (upgrade_mta_sts_modes u db).1.1.domains
      ≡ map (effective_mta_sts_mode u.now) db.domains
unfolding upgrade_mta_sts_modes
upgrade_mta_sts_modes-modes u db h = go (u.faults query_jobs)
  where
    go :
        (e : Option Text)
        → map (effective_mta_sts_mode u.now) (upgrade_found u e db).1.1.domains
          ≡ map (effective_mta_sts_mode u.now) db.domains
    go (some e) = refl
    go none = upgrade_all-modes u _ db (select-Enforces u.now db.domains h)
