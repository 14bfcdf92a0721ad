-- ===== src/Idempotency/Removal.antt =====
-- src/gateway/idempotency.rs: what the cache retains is the sum of its entries, within the limits.
use llmshim.Common.{
  ℕ, zero, suc, ◌+◌, ◌≤◌, String, List, ◌∷◌, ◌≡◌, refl, ap, leb, if_cases, Option-cases, inl, inr,
  arith, length, string_key,
}
use mathlib.Core.List.{[]}
use llmshim.Common.Map.{Map, get, remove}
use llmshim.Common.MapSum.{IsUnique, sum, worth, sum-remove, remove-IsUnique}
use llmshim.Idempotency.Footprint.{CacheLimits, without}
use llmshim.Idempotency.{
  IdempotencyCacheState, CacheEntry, CacheNamespace, scoped, generic, ExpiryRecord, drop_scoped,
  drop_generic, remove_scoped, remove_generic, remove_in, purge_rounds, purge_expired,
}

abbrev pub bytes_of : {T : Type 0} → CacheEntry T → ℕ
bytes_of e = e.footprint.bytes

abbrev pub nodes_of : {T : Type 0} → CacheEntry T → ℕ
nodes_of e = e.footprint.nodes

-- No key has two entries, what is retained is the sum of the entries and within the limits, and
-- there are not too many of them.
pub record IsWithin {V : Type 0} (limits : CacheLimits) (s : IdempotencyCacheState V) : Type 0 where
  pub unique_scoped : IsUnique s.scoped_entries
  pub unique_generic : IsUnique s.generic_entries
  pub bytes :
      s.retained_footprint.bytes ≡ sum bytes_of s.scoped_entries + sum bytes_of s.generic_entries
  pub nodes :
      s.retained_footprint.nodes ≡ sum nodes_of s.scoped_entries + sum nodes_of s.generic_entries
  pub bytes_fit : s.retained_footprint.bytes ≤ limits.max_retained_bytes
  pub nodes_fit : s.retained_footprint.nodes ≤ limits.max_retained_nodes
  pub entries_fit : length s.scoped_entries + length s.generic_entries ≤ limits.max_entries

pub length-sum : {T : Type 0} (m : Map String T) → length m ≡ sum (λ e. 1) m
length-sum [] = refl
length-sum ((k, e) ∷ m) = omega (arith, length-sum m)

-- Removing a key takes away one entry, if the key has one.
pub length-remove :
    {T : Type 0} (m : Map String T) (key : String)
    → IsUnique m
    → length (remove m key) + worth (λ e. 1) (get m key) ≡ length m
length-remove m key u =
    omega (arith, length-sum m, length-sum (remove m key), sum-remove (λ e. 1) m key u)

module _ {V : Type 0} (limits : CacheLimits) where
  pub remove_scoped-IsWithin :
      (s : IdempotencyCacheState V) (key : String)
      → IsWithin limits s
      → IsWithin limits (remove_scoped s key)
  unfolding remove_scoped drop_scoped without
  remove_scoped-IsWithin s key v = elim (Option-cases (get s.scoped_entries key)) [
    | inl gone ↦ rw (gone, remove_scoped) v
    | inr (e, kept) ↦
        rw (kept, remove_scoped)
          (record {
            unique_scoped = remove-IsUnique s.scoped_entries key v.unique_scoped;
            unique_generic = v.unique_generic;
            bytes = omega (
              arith,
              v.bytes,
              sum-remove bytes_of s.scoped_entries key v.unique_scoped,
              ap (worth bytes_of) kept,
            );
            nodes = omega (
              arith,
              v.nodes,
              sum-remove nodes_of s.scoped_entries key v.unique_scoped,
              ap (worth nodes_of) kept,
            );
            bytes_fit = omega (arith, v.bytes_fit);
            nodes_fit = omega (arith, v.nodes_fit);
            entries_fit =
                omega (arith, v.entries_fit, length-remove s.scoped_entries key v.unique_scoped);
          })
  ]

  pub remove_generic-IsWithin :
      (s : IdempotencyCacheState V) (key : String)
      → IsWithin limits s
      → IsWithin limits (remove_generic s key)
  unfolding remove_generic drop_generic without
  remove_generic-IsWithin s key v = elim (Option-cases (get s.generic_entries key)) [
    | inl gone ↦ rw (gone, remove_generic) v
    | inr (e, kept) ↦
        rw (kept, remove_generic)
          (record {
            unique_scoped = v.unique_scoped;
            unique_generic = remove-IsUnique s.generic_entries key v.unique_generic;
            bytes = omega (
              arith,
              v.bytes,
              sum-remove bytes_of s.generic_entries key v.unique_generic,
              ap (worth bytes_of) kept,
            );
            nodes = omega (
              arith,
              v.nodes,
              sum-remove nodes_of s.generic_entries key v.unique_generic,
              ap (worth nodes_of) kept,
            );
            bytes_fit = omega (arith, v.bytes_fit);
            nodes_fit = omega (arith, v.nodes_fit);
            entries_fit =
                omega (arith, v.entries_fit, length-remove s.generic_entries key v.unique_generic);
          })
  ]

  index_changed :
      (s : IdempotencyCacheState V) (index : List ExpiryRecord)
      → IsWithin limits s
      → IsWithin limits (record s { expiry_index = index })
  index_changed s index v = record {
    unique_scoped = v.unique_scoped;
    unique_generic = v.unique_generic;
    bytes = v.bytes;
    nodes = v.nodes;
    bytes_fit = v.bytes_fit;
    nodes_fit = v.nodes_fit;
    entries_fit = v.entries_fit;
  }

  remove_in-IsWithin :
      (n : CacheNamespace) (s : IdempotencyCacheState V) (key : String)
      → IsWithin limits s
      → IsWithin limits (remove_in n s key)
  unfolding remove_in
  remove_in-IsWithin scoped s key v = remove_scoped-IsWithin s key v
  remove_in-IsWithin generic s key v = remove_generic-IsWithin s key v

  purge_rounds-IsWithin :
      (n : ℕ) (s : IdempotencyCacheState V) (now : ℕ) (index : List ExpiryRecord)
      → IsWithin limits s
      → IsWithin limits (purge_rounds n s now index)
  unfolding purge_rounds
  purge_rounds-IsWithin zero s now index v = v
  purge_rounds-IsWithin (suc n) s now [] v = v
  purge_rounds-IsWithin (suc n) s now (r ∷ rest) v =
      let s' : IdempotencyCacheState V =
        remove_in r.namespace (record s { expiry_index = rest }) r.storage_key in
      if_cases (IsWithin limits) (leb r.expires_at now) _ _
        (λ _. purge_rounds-IsWithin n s' now s'.expiry_index (
          remove_in-IsWithin r.namespace (record s { expiry_index = rest }) r.storage_key
            (index_changed s rest v)))
        (λ _. v)

  pub purge_expired-IsWithin :
      (s : IdempotencyCacheState V) (now : ℕ)
      → IsWithin limits s
      → IsWithin limits (purge_expired s now)
  unfolding purge_expired
  purge_expired-IsWithin s now v =
      purge_rounds-IsWithin (length s.expiry_index) s now s.expiry_index v
