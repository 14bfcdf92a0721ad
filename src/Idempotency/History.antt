-- ===== src/Idempotency/History.antt =====
-- src/gateway/idempotency.rs: any sequence of calls on a new cache.
use llmshim.Common.{
  ℕ, String, Option, some, List, ◌∷◌, ◌≡◌, refl, leb, if_cases, Option-cases, inl, inr, arith,
  string_key, ◌>>=◌,
}
use mathlib.Core.List.{[]}
use llmshim.Common.Map.{get}
use llmshim.Idempotency.Footprint.{RetainedFootprint, CacheLimits}
use llmshim.Idempotency.{
  IdempotencyContext, IdempotencyLookup, IdempotencyCacheState, no_entries, store, put, lookup,
  get_generic, found_scoped, found_generic,
}
use llmshim.Idempotency.Removal.{IsWithin, remove_scoped-IsWithin, remove_generic-IsWithin}
use llmshim.Idempotency.Storage.{store-IsWithin}
use llmshim.Idempotency.Generic.{put-IsWithin}

-- The calls, each at its time.
pub data Call (V : Type 0) : Type 0 where
  stores : IdempotencyContext → V → (now : ℕ) → Call V
  looks_up : IdempotencyContext → (now : ℕ) → Call V
  puts : String → V → (now : ℕ) → Call V
  gets : String → (now : ℕ) → Call V

module _ {V : Type 0} (limits : CacheLimits) (ttl : ℕ)
    (size : IdempotencyContext → V → Option RetainedFootprint)
    (generic_size : String → V → Option RetainedFootprint) where
  lookup-IsWithin :
      (s : IdempotencyCacheState V) (c : IdempotencyContext) (now : ℕ)
      → IsWithin limits s
      → IsWithin limits (lookup s c now).1
  unfolding lookup found_scoped
  lookup-IsWithin s c now v = elim (Option-cases (get s.scoped_entries c.storage_key)) [
    | inl gone ↦ rw gone v
    | inr (e, kept) ↦ rw kept (
        if_cases (λ (r : IdempotencyLookup V × IdempotencyCacheState V). IsWithin limits r.1)
          (leb e.expires_at now) _ _ (λ _. remove_scoped-IsWithin limits s c.storage_key v)
          (λ _. v))
  ]

  get_generic-IsWithin :
      (s : IdempotencyCacheState V) (key : String) (now : ℕ)
      → IsWithin limits s
      → IsWithin limits (get_generic s key now).1
  unfolding get_generic found_generic
  get_generic-IsWithin s key now v = elim (Option-cases (get s.generic_entries key)) [
    | inl gone ↦ rw gone v
    | inr (e, kept) ↦ rw kept (
        if_cases (λ (r : Option V × IdempotencyCacheState V). IsWithin limits r.1)
          (leb e.expires_at now) _ _ (λ _. remove_generic-IsWithin limits s key v) (λ _. v))
  ]

  abbrev pub call : IdempotencyCacheState V → Call V → Option (IdempotencyCacheState V)
  call s (stores c response now) = store limits ttl size s c response now
  call s (looks_up c now) = some (lookup s c now).1
  call s (puts key value now) = put limits ttl generic_size s key value now
  call s (gets key now) = some (get_generic s key now).1

  abbrev pub run : IdempotencyCacheState V → List (Call V) → Option (IdempotencyCacheState V)
  run s [] = some s
  run s (k ∷ ks) = call s k >>= λ s'. run s' ks

  call-IsWithin :
      (s : IdempotencyCacheState V) (k : Call V)
      → IsWithin limits s
      → (s' : IdempotencyCacheState V) × ((call s k ≡ some s') × IsWithin limits s')
  call-IsWithin s (stores c response now) v = store-IsWithin limits ttl size s c response now v
  call-IsWithin s (looks_up c now) v = ((lookup s c now).1, (refl, lookup-IsWithin s c now v))
  call-IsWithin s (puts key value now) v = put-IsWithin limits ttl generic_size s key value now v
  call-IsWithin s (gets key now) v =
      ((get_generic s key now).1, (refl, get_generic-IsWithin s key now v))

  run-IsWithin_from :
      (ks : List (Call V)) (s : IdempotencyCacheState V)
      → IsWithin limits s
      → (s' : IdempotencyCacheState V) × ((run s ks ≡ some s') × IsWithin limits s')
  run-IsWithin_from [] s v = (s, (refl, v))
  run-IsWithin_from (k ∷ ks) s v =
      let (s1, (called, v1)) = call-IsWithin s k v in
      let (s2, (ran, v2)) = run-IsWithin_from ks s1 v1 in (s2, (rw called ran, v2))

  -- No sequence of calls on a new cache fails the test that was made before an insertion. After
  -- it no key has two entries, the retained bytes and nodes are the sums over the entries and
  -- within the limits, and there are at most as many entries as are allowed, for whatever the
  -- values retain.
  pub run-IsWithin :
      (ks : List (Call V))
      → (s : IdempotencyCacheState V) × ((run no_entries ks ≡ some s) × IsWithin limits s)
  run-IsWithin ks = run-IsWithin_from ks no_entries (record {
    unique_scoped = tt;
    unique_generic = tt;
    bytes = refl;
    nodes = refl;
    bytes_fit = omega arith;
    nodes_fit = omega arith;
    entries_fit = omega arith;
  })
