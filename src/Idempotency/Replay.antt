-- ===== src/Idempotency/Replay.antt =====
-- src/gateway/idempotency.rs: what a stored response is to the requests after it.
use llmshim.Common.{ℕ, ◌+◌, ◌<◌, false, Option, some, ◌≡◌, refl, ◌∙◌, arith, string_key, ◌==◌, leb}
use llmshim.Common.Map.{get, insert, get-insert, ==_refl}
use llmshim.Idempotency.Footprint.{RetainedFootprint, CacheLimits, checked_add}
use llmshim.Idempotency.{
  IdempotencyContext, replay, conflict, IdempotencyCacheState, CacheEntry, footprint_of,
  remove_scoped, CachedResponse, purge_expired, refuses, put_scoped, store_sized, store, lookup,
  found_scoped, lookup_response, new_response,
}
use llmshim.Idempotency.Removal.{IsWithin, purge_expired-IsWithin}
use llmshim.Idempotency.Room.{room}
use llmshim.Idempotency.Storage.{removed_scoped}

module _ {V : Type 0} (limits : CacheLimits) where
  -- What the requests with the storage key of a stored response are told.
  abbrev pub Answers : IdempotencyContext → V → (expires_at : ℕ) → IdempotencyCacheState V → Type 0
  Answers c response at s =
      ((later : ℕ) → later < at → lookup s c later ≡ (replay response, s))
      × ((other : IdempotencyContext) (later : ℕ)
          → other.storage_key ≡ c.storage_key
          → (c.request_fingerprint == other.request_fingerprint) ≡ false
          → later < at
          → lookup s other later ≡ (conflict, s))

  put_scoped-Answers :
      (s : IdempotencyCacheState V) (c : IdempotencyContext) (response : V) (at : ℕ)
      (f t : RetainedFootprint)
      → (s' : IdempotencyCacheState V) × ((put_scoped s c response at f (some t) ≡ some s')
          × Answers c response at s')
  unfolding put_scoped lookup found_scoped lookup_response new_response
  put_scoped-Answers s c response at f t =
      let entry : CacheEntry (CachedResponse V) = record {
        value = new_response c response;
        expires_at = at;
        footprint = f;
      } in
      let kept : get (insert s.scoped_entries c.storage_key entry) c.storage_key ≡ some entry =
        get-insert s.scoped_entries c.storage_key c.storage_key entry
        ∙ rw (==_refl c.storage_key) refl in
      (
        _,
        (
          refl,
          (
            λ later early.
                let fresh : leb at later ≡ false = ground arith in
                rw (kept, fresh, ==_refl c.request_fingerprint) refl,
            λ other later same differs early.
                let fresh : leb at later ≡ false = ground arith in
                rw (same, kept, fresh, differs) refl,
          ),
        ),
      )

  -- On a cache within its limits, a response that has a footprint and is not refused is replayed
  -- to a request with its storage key and fingerprint until it expires, and until then a request
  -- with the same storage key and another fingerprint is a conflict.
  pub store-Answers :
      (ttl : ℕ) (size : IdempotencyContext → V → Option RetainedFootprint)
      (s : IdempotencyCacheState V) (c : IdempotencyContext) (response : V) (now : ℕ)
      (f : RetainedFootprint)
      → IsWithin limits s
      → size c response ≡ some f
      → refuses
          (purge_expired s now)
          f
          (footprint_of (get (purge_expired s now).scoped_entries c.storage_key))
          limits
        ≡ false
      → (s' : IdempotencyCacheState V) × ((store limits ttl size s c response now ≡ some s')
          × Answers c response (now + ttl) s')
  unfolding store store_sized
  store-Answers ttl size s c response now f v sized taken =
      let s1 : IdempotencyCacheState V = purge_expired s now in
      let v1 : IsWithin limits s1 = purge_expired-IsWithin limits s now v in
      let s2 : IdempotencyCacheState V = remove_scoped s1 c.storage_key in
      let (t, (adds, (fits, few))) =
        room limits s1 f (footprint_of (get s1.scoped_entries c.storage_key)) taken in
      let (gone, (left, fewer)) = removed_scoped limits s1 c.storage_key v1 in
      let adds' : checked_add s2.retained_footprint f ≡ some t = rw left adds in
      let (s3, (put_in, answers)) = put_scoped-Answers s2 c response (now + ttl) f t in
      (s3, (rw sized (rw taken (rw adds' put_in)), answers))
