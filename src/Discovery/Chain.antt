-- ===== src/Discovery/Chain.antt =====
-- What a verified rotation chain is.
use rookery.Base.{
  ℕ, zero, suc, ◌<◌, ◌≡◌, refl, true, ◌&&◌, Option, none, some, List, ◌++◌, arith, Text, codes,
  text_eq, text_eq_iff, text_eq_refl, equal_fold, contains, to_upper, trim_space, ok, Bool-cases,
  Option-cases, inl, inr, sym, ap, subst,
}
use rookery.Discovery.{
  fp_matches, Pgp, Rotation, latest_rotation, max_rotation_hops, is_attested, hop_of, hop,
  after_hop, walk, verify_rotation_chain,
}

module _ (pgp : Pgp) (rows : List Rotation) where
  -- A link from a trusted fingerprint: the newest rotation of that key, whose old key has this very
  -- fingerprint and signed a statement that names both.
  pub record Link (cur next : Text) : Type 0 where
    pub row : Rotation
    pub newest : latest_rotation cur rows ≡ some row
    pub names_next : next ≡ to_upper row.new_fingerprint
    pub key : (fp : Text) × (pgp.fingerprint row.old_armored ≡ some fp) × (equal_fold fp cur ≡ true)
    pub binds_old : contains row.statement (codes "old:" ++ cur) ≡ true
    pub binds_new : contains row.statement (codes "new:" ++ next) ≡ true
    pub signed : pgp.verify_detached row.old_armored row.statement row.attestation ≡ true

  -- A number of links, one behind the other.
  pub data Chain : ℕ → Text → Text → Type 0 where
    here : {cur : Text} → Chain 0 cur cur
    link :
        {n : ℕ} {cur next target : Text}
        → Link cur next
        → Chain n next target
        → Chain (suc n) cur target

  matched :
      (o : Option Text) (cur : Text)
      → fp_matches o cur ≡ true
      → (fp : Text) × (o ≡ some fp) × (equal_fold fp cur ≡ true)
  matched none cur h = cc
  matched (some fp) cur h = (fp, refl, h)

  attested-Link :
      (cur next : Text) (r : Rotation)
      → latest_rotation cur rows ≡ some r
      → hop_of pgp cur (some r) ≡ some next
      → Link cur next
  unfolding hop_of
  attested-Link cur next r newest h =
      elim (Bool-cases (is_attested pgp cur (to_upper r.new_fingerprint) r)) [
        | inr bad ↦ absurd (ground arith)
        | inl good ↦ parts (ground arith) (unfold is_attested in good)
      ]
    where
      parts :
          next ≡ to_upper r.new_fingerprint
          → (fp_matches (pgp.fingerprint r.old_armored) cur
              && ((contains r.statement (codes "old:" ++ cur)
                    && contains r.statement (codes "new:" ++ to_upper r.new_fingerprint))
                  && pgp.verify_detached r.old_armored r.statement r.attestation))
            ≡ true
          → Link cur next
      parts e g = record {
        row = r;
        newest = newest;
        names_next = e;
        key = matched (pgp.fingerprint r.old_armored) cur (ground arith);
        binds_old = ground arith;
        binds_new = rw e (ground arith);
        signed = ground arith;
      }

  hop-Link : (cur next : Text) → hop pgp rows cur ≡ some next → Link cur next
  unfolding hop
  hop-Link cur next h = elim (Option-cases (latest_rotation cur rows)) [
    | inl e ↦ absurd (unfold hop_of in ground arith)
    | inr (r, e) ↦ attested-Link cur next r e (rw e at h)
  ]

  Link-attested :
      {cur next : Text} (l : Link cur next)
      → is_attested pgp cur (to_upper (l.row).new_fingerprint) (l.row) ≡ true
  unfolding is_attested
  Link-attested {cur} {next} l =
      let (fp, has, same) = l.key in
      rw (has, same, l.binds_old, sym (l.names_next), l.binds_new, l.signed)

  Link-hop : {cur next : Text} → Link cur next → hop pgp rows cur ≡ some next
  unfolding hop hop_of
  Link-hop l = rw (l.newest) (rw (Link-attested l) (ap some (sym (l.names_next))))

  walk_sound :
      (n : ℕ) (db : Text → Option Text) (cur target : Text)
      → walk pgp n db rows cur target ≡ ok true
      → (k : ℕ) × (k < n) × Chain k cur target
  unfolding walk after_hop
  walk_sound zero db cur target h = cc
  walk_sound (suc n) db cur target h = elim (Bool-cases (text_eq cur target)) [
    | inl same ↦ (0, omega arith, subst (Chain 0 cur) ((text_eq_iff cur target).0 same) here)
    | inr other ↦
        go (db cur) (hop pgp rows cur) refl (λ next. walk_sound n db next target) (rw other at h)
  ]
    where
      go :
          (e o : Option Text)
          → hop pgp rows cur ≡ o
          → ((next : Text)
              → walk pgp n db rows next target ≡ ok true
              → (k : ℕ) × (k < n) × Chain k next target)
          → after_hop pgp e o (λ next. walk pgp n db rows next target) ≡ ok true
          → (k : ℕ) × (k < suc n) × Chain k cur target
      go (some e) o q ih r = cc
      go none none q ih r = cc
      go none (some next) q ih r =
          let (k, below, chain) = ih next r in
          (suc k, omega arith, link (hop-Link cur next q) chain)

  walk_complete :
      (n k : ℕ) (db : Text → Option Text) {cur target : Text}
      → ((fp : Text) → db fp ≡ none)
      → k < n
      → Chain k cur target
      → walk pgp n db rows cur target ≡ ok true
  unfolding walk after_hop
  walk_complete zero k db works below c = absurd (omega arith)
  walk_complete (suc n) k db works below (here {cur}) = rw (text_eq_refl cur)
  walk_complete (suc n) k db works below (link {n = m} {cur} {next} {target} l c) =
      let ih = walk_complete n m db works (omega arith) c in
      elim (Bool-cases (text_eq cur target)) [
        | inl e ↦ rw e
        | inr e ↦ rw (e, works cur, Link-hop l) ih
      ]

  -- A key is accepted as the successor of a trusted one only if a chain of at most fifteen attested
  -- links leads from the one to the other: each link is signed by the key that the one before named.
  pub verify_rotation_chain_sound :
      (db : Text → Option Text) (from_fp to_fp : Text)
      → verify_rotation_chain pgp db rows from_fp to_fp ≡ ok true
      → (k : ℕ) × (k < max_rotation_hops)
        × Chain k (to_upper (trim_space from_fp)) (to_upper (trim_space to_fp))
  unfolding verify_rotation_chain
  verify_rotation_chain_sound db from_fp to_fp h = walk_sound max_rotation_hops db _ _ h

  -- A chain of fewer than sixteen attested links from the one fingerprint to the other is found, if
  -- the queries work.
  pub verify_rotation_chain_complete :
      (db : Text → Option Text) (k : ℕ) (from_fp to_fp : Text)
      → ((fp : Text) → db fp ≡ none)
      → k < max_rotation_hops
      → Chain k (to_upper (trim_space from_fp)) (to_upper (trim_space to_fp))
      → verify_rotation_chain pgp db rows from_fp to_fp ≡ ok true
  unfolding verify_rotation_chain
  verify_rotation_chain_complete db k from_fp to_fp works below c =
      walk_complete max_rotation_hops k db works below c
