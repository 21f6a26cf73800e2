-- ===== src/Smtp/Sts/Resolve.antt =====
-- ResolvePolicy: the published id, the cache, the fetch. The cache is what implements the
-- `PolicyCache` interface: `get` answers an error, a miss or a policy, and `put` ignores its error.
use rookery.Base.{
  ℕ, ◌≡◌, refl, sym, ap, ◌∙◌, ◌++◌, List, none, some, Option, arith, Text, codes, text_eq,
  text_eq_iff, text_eq_refl, if◌then◌else◌,
}
use rookery.Smtp.Sts.{
  StsPolicy, HttpReply, Found, policy, no_policy, fetch_error, fetch_policy, first_id,
  clamp_max_age,
}

pub data CacheReply : Type 0 where
  hit : StsPolicy → CacheReply
  miss : CacheReply
  cache_error : CacheReply

pub record PolicyCache (C : Type 0) : Type 0 where
  pub get : C → Text → CacheReply
  pub put : C → Text → StsPolicy → ℕ → C

pub data Resolved : Type 0 where
  resolved : Option StsPolicy → Resolved
  transient : Text → Resolved

-- The id in the TXT record of `_mta-sts.<domain>`.
unfoldable pub lookup_sts_id : (Text → Option (List Text)) → Text → Option Text
lookup_sts_id txt domain = elim (txt (codes "_mta-sts." ++ domain)) [
  | none ↦ none
  | some records ↦ first_id records
]

unfoldable pub cached_of : CacheReply → Text → Option StsPolicy
cached_of (hit p) id = if text_eq p.id id then some p else none
cached_of miss id = none
cached_of cache_error id = none

cached_of-id : (r : CacheReply) (id : Text) (p : StsPolicy) → cached_of r id ≡ some p → p.id ≡ id
unfolding cached_of
cached_of-id (hit q) id p h = ground (arith, text_eq_iff q.id id)
cached_of-id miss id p h = cc
cached_of-id cache_error id p h = cc

cached_of_hit : (p : StsPolicy) → cached_of (hit p) p.id ≡ some p
unfolding cached_of
cached_of_hit p = rw (text_eq_refl p.id)

module _ {C : Type 0} (cache : PolicyCache C) where
  unfoldable pub cached : Option C → Text → Text → Option StsPolicy
  cached none domain id = none
  cached (some c) domain id = cached_of (cache.get c domain) id

  unfoldable pub store_policy : Option C → Text → StsPolicy → ℕ → Option C
  store_policy none domain p age = none
  store_policy (some c) domain p age = some (cache.put c domain p (clamp_max_age age))

  -- What the fetch found, with the id of the TXT record, cached unless it is an error or nothing.
  unfoldable pub store_found : Found → Option C → Text → Text → Resolved × Option C
  store_found (fetch_error e) c domain id = (transient e, c)
  store_found no_policy c domain id = (resolved none, c)
  store_found (policy p age) c domain id =
      let p' = record p { id = id } in (resolved (some p'), store_policy c domain p' age)

  unfoldable pub resolve_id :
      (Text → HttpReply) → Option C → Text → Text → Option StsPolicy → Resolved × Option C
  resolve_id web c domain id (some p) = (resolved (some p), c)
  resolve_id web c domain id none = store_found (fetch_policy web domain) c domain id

  unfoldable pub resolve_published :
      (Text → HttpReply) → Option C → Text → Option Text → Resolved × Option C
  resolve_published web c domain none = (resolved none, c)
  resolve_published web c domain (some id) = resolve_id web c domain id (cached c domain id)

  unfoldable pub resolve_policy :
      (Text → Option (List Text)) → (Text → HttpReply) → Option C → Text → Resolved × Option C
  resolve_policy txt web c domain = resolve_published web c domain (lookup_sts_id txt domain)

  cached-id :
      (c : Option C) (domain id : Text) (p : StsPolicy) → cached c domain id ≡ some p → p.id ≡ id
  unfolding cached
  cached-id none domain id p h = cc
  cached-id (some c) domain id p h = cached_of-id (cache.get c domain) id p h

  store_found-id :
      (f : Found) (c : Option C) (domain id : Text) (p : StsPolicy)
      → (store_found f c domain id).0 ≡ resolved (some p)
      → p.id ≡ id
  unfolding store_found
  store_found-id (fetch_error e) c domain id p h = cc
  store_found-id no_policy c domain id p h = cc
  store_found-id (policy q age) c domain id p h = ground arith

  resolve_id-id :
      (web : Text → HttpReply) (c : Option C) (domain id : Text) (o : Option StsPolicy)
      (p : StsPolicy)
      → cached c domain id ≡ o
      → (resolve_id web c domain id o).0 ≡ resolved (some p)
      → p.id ≡ id
  unfolding resolve_id
  resolve_id-id web c domain id (some q) p e h = ground (arith, cached-id c domain id q e)
  resolve_id-id web c domain id none p e h = store_found-id _ c domain id p h

  resolve_published-id :
      (web : Text → HttpReply) (c : Option C) (domain : Text) (o : Option Text) (p : StsPolicy)
      → (resolve_published web c domain o).0 ≡ resolved (some p)
      → o ≡ some p.id
  unfolding resolve_published
  resolve_published-id web c domain none p h = cc
  resolve_published-id web c domain (some id) p h =
      ap some (sym (resolve_id-id web c domain id (cached c domain id) p refl h))

  -- A policy that is resolved, from the cache or from the web, carries the id that the domain's TXT
  -- record publishes now: a cached policy with an older id is never returned.
  pub resolve_policy-id :
      (txt : Text → Option (List Text)) (web : Text → HttpReply) (c : Option C) (domain : Text)
      {p : StsPolicy}
      → (resolve_policy txt web c domain).0 ≡ resolved (some p)
      → lookup_sts_id txt domain ≡ some p.id
  unfolding resolve_policy
  resolve_policy-id txt web c domain {p} h = resolve_published-id web c domain _ p h

  abbrev ReturnsPut : Type 0
  ReturnsPut =
      (c : C) (d : Text) (p : StsPolicy) (ttl : ℕ) → cache.get (cache.put c d p ttl) d ≡ hit p

  cached-store_found :
      (f : Found) (c : C) (domain id : Text) (p : StsPolicy)
      → ReturnsPut
      → (store_found f (some c) domain id).0 ≡ resolved (some p)
      → cached (store_found f (some c) domain id).1 domain id ≡ some p
  unfolding store_found store_policy cached
  cached-store_found (fetch_error e) c domain id p law h = cc
  cached-store_found no_policy c domain id p law h = cc
  cached-store_found (policy q age) c domain id p law h =
      rw (law c domain (record q { id = id }) (clamp_max_age age))
        (cached_of_hit (record q { id = id }) ∙ ground arith)

  cached-resolve_id :
      (web : Text → HttpReply) (c : C) (domain id : Text) (o : Option StsPolicy) (p : StsPolicy)
      → ReturnsPut
      → cached (some c) domain id ≡ o
      → (resolve_id web (some c) domain id o).0 ≡ resolved (some p)
      → cached (resolve_id web (some c) domain id o).1 domain id ≡ some p
  unfolding resolve_id
  cached-resolve_id web c domain id (some q) p law e h = e ∙ ground arith
  cached-resolve_id web c domain id none p law e h = cached-store_found _ c domain id p law h

  resolve_published_again :
      (web later : Text → HttpReply) (c : C) (domain : Text) (o : Option Text) (p : StsPolicy)
      → ReturnsPut
      → (resolve_published web (some c) domain o).0 ≡ resolved (some p)
      → let c' = (resolve_published web (some c) domain o).1 in
        resolve_published later c' domain o ≡ (resolved (some p), c')
  unfolding resolve_published
  resolve_published_again web later c domain none p law h = cc
  resolve_published_again web later c domain (some id) p law h =
      rw (cached-resolve_id web c domain id (cached (some c) domain id) p law refl h)
        (unfold resolve_id in refl)

  -- After a policy was resolved through a cache that returns what was put, resolving again gives
  -- the same policy and leaves the cache alone, whatever the web answers then.
  pub resolve_policy_again :
      (txt : Text → Option (List Text)) (web later : Text → HttpReply) (c : C) (domain : Text)
      {p : StsPolicy}
      → ((c : C) (d : Text) (p : StsPolicy) (ttl : ℕ) → cache.get (cache.put c d p ttl) d ≡ hit p)
      → (resolve_policy txt web (some c) domain).0 ≡ resolved (some p)
      → let c' = (resolve_policy txt web (some c) domain).1 in
        resolve_policy txt later c' domain ≡ (resolved (some p), c')
  unfolding resolve_policy
  resolve_policy_again txt web later c domain {p} law h =
      resolve_published_again web later c domain (lookup_sts_id txt domain) p law h
