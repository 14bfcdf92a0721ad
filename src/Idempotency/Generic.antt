-- ===== src/Idempotency/Generic.antt =====
-- src/gateway/idempotency.rs: putting a value keeps the cache within its limits.
use llmshim.Common.{
  ℕ, ◌+◌, ◌<◌, String, true, Option, none, some, ◌≡◌, refl, ap, ◌∙◌, sym, Option-cases, Bool-cases,
  inl, inr, arith, string_key,
}
use llmshim.Common.Map.{get, get-remove, ==_refl}
use llmshim.Common.MapSum.{worth, sum-insert, insert-IsUnique}
use llmshim.Idempotency.Footprint.{
  RetainedFootprint, CacheLimits, checked_add, without, fits_within,
}
use llmshim.Idempotency.{
  IdempotencyCacheState, CacheEntry, or_nothing, footprint_of, is_absent, remove_generic,
  drop_generic, remove_generic, drop_generic, purge_expired, refuses, entry_count, put_generic,
  put_sized, put_generic, put_sized, put,
}
use llmshim.Idempotency.Removal.{
  IsWithin, bytes_of, nodes_of, length-remove, remove_generic-IsWithin, remove_generic-IsWithin,
  purge_expired-IsWithin,
}
use llmshim.Idempotency.Room.{checked_add-eq_some, without-nothing, length-insert, room}

module _ {V : Type 0} (limits : CacheLimits) where
  put_generic-IsWithin :
      (s : IdempotencyCacheState V) (key : String) (response : V) (at : ℕ) (f t : RetainedFootprint)
      → IsWithin limits s
      → get s.generic_entries key ≡ none
      → entry_count s < limits.max_entries
      → checked_add s.retained_footprint f ≡ some t
      → fits_within t limits ≡ true
      → (s' : IdempotencyCacheState V) × ((put_generic s key response at f (some t) ≡ some s')
          × IsWithin limits s')
  unfolding put_generic entry_count fits_within
  put_generic-IsWithin s key response at f t v fresh few adds fits =
      let (total_bytes, total_nodes) = checked_add-eq_some s.retained_footprint f t adds in
      (
        _,
        (
          refl,
          record {
            unique_generic = insert-IsUnique s.generic_entries key _ v.unique_generic;
            unique_scoped = v.unique_scoped;
            bytes = omega (
              arith,
              v.bytes,
              total_bytes,
              sum-insert bytes_of s.generic_entries key
                  (record { value = response; expires_at = at; footprint = f }) v.unique_generic,
              ap (worth bytes_of) fresh,
            );
            nodes = omega (
              arith,
              v.nodes,
              total_nodes,
              sum-insert nodes_of s.generic_entries key
                  (record { value = response; expires_at = at; footprint = f }) v.unique_generic,
              ap (worth nodes_of) fresh,
            );
            bytes_fit = ground (arith, fits);
            nodes_fit = ground (arith, fits);
            entries_fit = omega (
              arith,
              few,
              length-insert s.generic_entries key
                  (record { value = response; expires_at = at; footprint = f }) v.unique_generic,
              ap (worth {V = CacheEntry V} (λ x. 1)) fresh,
            );
          },
        ),
      )

  -- After the entry that was there is taken out.
  removed_generic :
      (s : IdempotencyCacheState V) (key : String)
      → IsWithin limits s
      → let s' = remove_generic s key in
        let replaced = footprint_of (get s.generic_entries key) in
        (get s'.generic_entries key ≡ none)
        × ((s'.retained_footprint ≡ without s.retained_footprint (or_nothing replaced))
            × ((is_absent replaced ≡ true → entry_count s < limits.max_entries)
                → entry_count s' < limits.max_entries))
  unfolding remove_generic drop_generic entry_count without
  removed_generic s key v = elim (Option-cases (get s.generic_entries key)) [
    | inl gone ↦
        rw (gone, remove_generic) (gone, (sym (without-nothing s.retained_footprint), λ h. h refl))
    | inr (e, kept) ↦
        rw (kept, remove_generic)
          (
            get-remove s.generic_entries key key ∙ rw (==_refl key) refl,
            (
              refl,
              λ h. omega (
                arith,
                v.entries_fit,
                length-remove s.generic_entries key v.unique_generic,
                ap (worth {V = CacheEntry V} (λ x. 1)) kept,
              ),
            ),
          )
  ]

  put_sized-IsWithin :
      (s : IdempotencyCacheState V) (key : String) (response : V) (at : ℕ)
      (size : Option RetainedFootprint)
      → IsWithin limits s
      → (s' : IdempotencyCacheState V) × ((put_sized limits s key response at size ≡ some s')
          × IsWithin limits s')
  unfolding put_sized
  put_sized-IsWithin s key response at none v = (s, (refl, v))
  put_sized-IsWithin s key response at (some f) v =
      let replaced : Option RetainedFootprint = footprint_of (get s.generic_entries key) in
      let s1 : IdempotencyCacheState V = remove_generic s key in
      elim (Bool-cases (refuses s f replaced limits)) [
        | inl refused ↦ rw refused (s, (refl, v))
        | inr taken ↦
            let (t, (adds, (fits, few))) = room limits s f replaced taken in
            let (gone, (left, fewer)) = removed_generic s key v in
            let adds' : checked_add s1.retained_footprint f ≡ some t = rw left adds in
            let (s2, (put_in, v2)) =
              put_generic-IsWithin s1 key response at f t (remove_generic-IsWithin limits s key v)
                gone (fewer few) adds' fits in
            (s2, (rw (taken, adds') put_in, v2))
      ]

  -- Putting a value does not panic, and leaves the cache within its limits.
  pub put-IsWithin :
      (ttl : ℕ) (size : String → V → Option RetainedFootprint) (s : IdempotencyCacheState V)
      (key : String) (response : V) (now : ℕ)
      → IsWithin limits s
      → (s' : IdempotencyCacheState V) × ((put limits ttl size s key response now ≡ some s')
          × IsWithin limits s')
  unfolding put
  put-IsWithin ttl size s key response now v =
      put_sized-IsWithin (purge_expired s now) key response (now + ttl) (size key response)
        (purge_expired-IsWithin limits s now v)
