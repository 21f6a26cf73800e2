-- ===== src/Smtp/Outbound/Attempts.antt =====
-- Which hosts a delivery tries, in which order, and when it succeeds.
use mathlib.Core.List.{Perm}
use mathlib.Core.List.Perm
use rookery.Base.{
  ◌≤◌, ◌≡◌, ◌↔◌, inl, inr, refl, ap, true, Bool, Option, none, some, List, [], ◌∷◌, arith, Text,
  codes, All, All-map, any, trim_last, Bool-cases, Option-cases, is_none, if◌then◌else◌, map, leb,
}
use rookery.Smtp.Sts.{StsPolicy}
use rookery.Smtp.Client.{join_host_port}
use rookery.Smtp.Outbound.{Net, Mx, try_deliver, try_each, after_attempt, insert_mx, sort_mx}

-- Every preference is at most those behind it.
abbrev pub IsSorted : List Mx → Type 0
IsSorted [] = Unit
IsSorted (m ∷ ms) = All (λ n. m.pref ≤ n.pref) ms × IsSorted ms

insert_mx-All : (P : Mx → Type 0) (m : Mx) (ms : List Mx) → P m → All P ms → All P (insert_mx m ms)
unfolding insert_mx
insert_mx-All P m [] h k = (h, tt)
insert_mx-All P m (n ∷ ns) h k = ground (arith, insert_mx-All P m ns h k.1)

insert_mx-IsSorted : (m : Mx) (ms : List Mx) → IsSorted ms → IsSorted (insert_mx m ms)
unfolding insert_mx
insert_mx-IsSorted m [] h = (tt, tt)
insert_mx-IsSorted m (n ∷ ns) h = elim (Bool-cases (leb m.pref n.pref)) [
  | inl e ↦ rw e ((ground arith, All-map _ _ ns (λ x (k : n.pref ≤ x.pref). ground arith) h.0), h)
  | inr e ↦ rw e (insert_mx-All _ m ns (ground arith) h.0, insert_mx-IsSorted m ns h.1)
]

insert_mx-perm : (m : Mx) (ms : List Mx) → Perm (insert_mx m ms) (m ∷ ms)
unfolding insert_mx
insert_mx-perm m [] = Perm.refl (m ∷ [])
insert_mx-perm m (n ∷ ns) = elim (Bool-cases (leb m.pref n.pref)) [
  | inl e ↦ rw e (Perm.refl (m ∷ n ∷ ns))
  | inr e ↦ rw e (Perm.trans (Perm.cons n (insert_mx-perm m ns)) (Perm.swap _ _ ns))
]

-- The hosts are tried in the order of their preferences, and all of them stand in that order.
pub sort_mx_lem : (ms : List Mx) → IsSorted (sort_mx ms) × Perm (sort_mx ms) ms
unfolding sort_mx
sort_mx_lem [] = (tt, Perm.refl [])
sort_mx_lem (m ∷ ms) = (
  insert_mx-IsSorted m (sort_mx ms) (sort_mx_lem ms).0,
  Perm.trans (insert_mx-perm m (sort_mx ms)) (Perm.cons m (sort_mx_lem ms).1),
)

-- A list up to the first element that passes a test, that element included.
abbrev pub up_to {ℓ} : {A : Type ℓ} → (A → Bool) → List A → List A
up_to p [] = []
up_to p (x ∷ xs) = let rest = up_to p xs in if p x then x ∷ [] else x ∷ rest

module _ (net : Net) (policy : Option StsPolicy) (from_domain from to message : Text) where
  abbrev pub host_of : Mx → Text
  host_of m = trim_last b'.' m.host

  -- A host takes the message.
  abbrev pub takes : Mx → Bool
  takes m =
      is_none
        (try_deliver net policy from_domain (join_host_port (host_of m) (codes "25")) (host_of m)
          from to message).0

  -- The loop succeeds exactly when some host takes the message, and it tries the hosts in order up
  -- to the first that does: no host after it is contacted.
  pub try_each_lem :
      (ms : List Mx) (last : Option Text)
      → let (result, attempts) = try_each net policy from_domain from to message ms last in
        ((result ≡ none) ↔ (any takes ms ≡ true))
        × (map (λ a. a.0) attempts ≡ map host_of (up_to takes ms))
  unfolding try_each after_attempt
  try_each_lem [] last = ((λ h. cc, λ h. cc), refl)
  try_each_lem (m ∷ ms) last =
      let err =
        (try_deliver net policy from_domain (join_host_port (host_of m) (codes "25")) (host_of m)
          from to message).0 in
      elim (Option-cases err) [
        | inl e ↦ rw e ((λ h. refl, λ h. refl), refl)
        | inr (x, e) ↦
            let ih = try_each_lem ms (some x) in rw e (ih.0, ap (λ l. host_of m ∷ l) ih.1)
      ]
