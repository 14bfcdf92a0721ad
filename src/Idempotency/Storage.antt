-- ===== src/Idempotency/Storage.antt =====
-- src/gateway/idempotency.rs: storing a response keeps the cache within its limits.
use llmshim.Common.{
  ℕ, ◌+◌, ◌<◌, String, true, Option, none, some, ◌≡◌, refl, ap, ◌∙◌, sym, Option-cases, Bool-cases,
  inl, inr, arith, string_key,
}
use llmshim.Common.Map.{get, get-remove, ==_refl}
use llmshim.Common.MapSum.{worth, sum-insert, insert-IsUnique}
use llmshim.Idempotency.Footprint.{
  RetainedFootprint, CacheLimits, checked_add, without, fits_within,
}
use llmshim.Idempotency.{
  IdempotencyContext, IdempotencyCacheState, CacheEntry, CachedResponse, or_nothing, footprint_of,
  is_absent, remove_scoped, drop_scoped, purge_expired, refuses, entry_count, put_scoped,
  store_sized, store, new_response,
}
use llmshim.Idempotency.Removal.{
  IsWithin, bytes_of, nodes_of, length-remove, remove_scoped-IsWithin, purge_expired-IsWithin,
}
use llmshim.Idempotency.Room.{checked_add-eq_some, without-nothing, length-insert, room}

module _ {V : Type 0} (limits : CacheLimits) where
  put_scoped-IsWithin :
      (s : IdempotencyCacheState V) (c : IdempotencyContext) (response : V) (at : ℕ)
      (f t : RetainedFootprint)
      → IsWithin limits s
      → get s.scoped_entries c.storage_key ≡ none
      → entry_count s < limits.max_entries
      → checked_add s.retained_footprint f ≡ some t
      → fits_within t limits ≡ true
      → (s' : IdempotencyCacheState V) × ((put_scoped s c response at f (some t) ≡ some s')
          × IsWithin limits s')
  unfolding put_scoped entry_count fits_within
  put_scoped-IsWithin s c response at f t v fresh few adds fits =
      let key : String = c.storage_key in
      let (total_bytes, total_nodes) = checked_add-eq_some s.retained_footprint f t adds in
      (
        _,
        (
          refl,
          record {
            unique_scoped = insert-IsUnique s.scoped_entries key _ v.unique_scoped;
            unique_generic = v.unique_generic;
            bytes = omega (
              arith,
              v.bytes,
              total_bytes,
              sum-insert bytes_of s.scoped_entries key
                  (record { value = new_response c response; expires_at = at; footprint = f })
                  v.unique_scoped,
              ap (worth bytes_of) fresh,
            );
            nodes = omega (
              arith,
              v.nodes,
              total_nodes,
              sum-insert nodes_of s.scoped_entries key
                  (record { value = new_response c response; expires_at = at; footprint = f })
                  v.unique_scoped,
              ap (worth nodes_of) fresh,
            );
            bytes_fit = ground (arith, fits);
            nodes_fit = ground (arith, fits);
            entries_fit = omega (
              arith,
              few,
              length-insert s.scoped_entries key
                  (record { value = new_response c response; expires_at = at; footprint = f })
                  v.unique_scoped,
              ap (worth {V = CacheEntry (CachedResponse V)} (λ x. 1)) fresh,
            );
          },
        ),
      )

  -- After the entry that was there is taken out.
  pub removed_scoped :
      (s : IdempotencyCacheState V) (key : String)
      → IsWithin limits s
      → let s' = remove_scoped s key in
        let replaced = footprint_of (get s.scoped_entries key) in
        (get s'.scoped_entries key ≡ none)
        × ((s'.retained_footprint ≡ without s.retained_footprint (or_nothing replaced))
            × ((is_absent replaced ≡ true → entry_count s < limits.max_entries)
                → entry_count s' < limits.max_entries))
  unfolding remove_scoped drop_scoped entry_count without
  removed_scoped s key v = elim (Option-cases (get s.scoped_entries key)) [
    | inl gone ↦
        rw (gone, remove_scoped) (gone, (sym (without-nothing s.retained_footprint), λ h. h refl))
    | inr (e, kept) ↦
        rw (kept, remove_scoped)
          (
            get-remove s.scoped_entries key key ∙ rw (==_refl key) refl,
            (
              refl,
              λ h. omega (
                arith,
                v.entries_fit,
                length-remove s.scoped_entries key v.unique_scoped,
                ap (worth {V = CacheEntry (CachedResponse V)} (λ x. 1)) kept,
              ),
            ),
          )
  ]

  store_sized-IsWithin :
      (s : IdempotencyCacheState V) (c : IdempotencyContext) (response : V) (at : ℕ)
      (size : Option RetainedFootprint)
      → IsWithin limits s
      → (s' : IdempotencyCacheState V) × ((store_sized limits s c response at size ≡ some s')
          × IsWithin limits s')
  unfolding store_sized
  store_sized-IsWithin s c response at none v = (s, (refl, v))
  store_sized-IsWithin s c response at (some f) v =
      let replaced : Option RetainedFootprint = footprint_of (get s.scoped_entries c.storage_key) in
      let s1 : IdempotencyCacheState V = remove_scoped s c.storage_key in
      elim (Bool-cases (refuses s f replaced limits)) [
        | inl refused ↦ rw refused (s, (refl, v))
        | inr taken ↦
            let (t, (adds, (fits, few))) = room limits s f replaced taken in
            let (gone, (left, fewer)) = removed_scoped s c.storage_key v in
            let adds' : checked_add s1.retained_footprint f ≡ some t = rw left adds in
            let (s2, (put_in, v2)) =
              put_scoped-IsWithin s1 c response at f t
                (remove_scoped-IsWithin limits s c.storage_key v) gone (fewer few) adds' fits in
            (s2, (rw (taken, adds') put_in, v2))
      ]

  -- Storing a response does not panic, and leaves the cache within its limits.
  pub store-IsWithin :
      (ttl : ℕ) (size : IdempotencyContext → V → Option RetainedFootprint)
      (s : IdempotencyCacheState V) (c : IdempotencyContext) (response : V) (now : ℕ)
      → IsWithin limits s
      → (s' : IdempotencyCacheState V) × ((store limits ttl size s c response now ≡ some s')
          × IsWithin limits s')
  unfolding store
  store-IsWithin ttl size s c response now v =
      store_sized-IsWithin (purge_expired s now) c response (now + ttl) (size c response)
        (purge_expired-IsWithin limits s now v)
