-- ===== src/Idempotency.antt =====
-- src/gateway/idempotency.rs: the bounded cache of completed responses. A response is a value of
-- `V`; the digests of a context are texts; what a value retains is an argument, as is the clock.
-- The expiry index is its records by time; those of one instant stand as they were inserted.
pub mod Footprint
pub mod Removal
pub mod Room
pub mod Storage
pub mod Generic
pub mod Replay
pub mod History
pub mod Digest
pub mod Estimate
mod Examples
use llmshim.Common.{
  ℕ, zero, suc, ◌+◌, String, Bool, true, false, not, ◌&&◌, ◌||◌, Option, none, some, List, ◌∷◌, eqb,
  ltb, leb, if◌then◌else◌, string_key, ◌==◌, length,
}
use mathlib.Core.List.{[]}
use llmshim.Common.Map.{Map, get, insert, remove}
use llmshim.Idempotency.Footprint.{
  RetainedFootprint, CacheLimits, nothing, checked_add, without, fits_within,
}

pub record IdempotencyContext : Type 0 where
  pub storage_key : String
  pub request_fingerprint : String

pub data IdempotencyLookup (V : Type 0) : Type 0 where
  miss : IdempotencyLookup V
  replay : V → IdempotencyLookup V
  conflict : IdempotencyLookup V

pub record CachedResponse (V : Type 0) : Type 0 where
  pub version : ℕ
  pub request_fingerprint : String
  pub response : V

pub record CacheEntry (T : Type 0) : Type 0 where
  pub value : T
  pub expires_at : ℕ
  pub footprint : RetainedFootprint

pub data CacheNamespace : Type 0 where
  scoped generic : CacheNamespace

pub record ExpiryRecord : Type 0 where
  pub expires_at : ℕ
  pub namespace : CacheNamespace
  pub storage_key : String

pub record IdempotencyCacheState (V : Type 0) : Type 0 where
  pub scoped_entries : Map String (CacheEntry (CachedResponse V))
  pub generic_entries : Map String (CacheEntry V)
  pub expiry_index : List ExpiryRecord
  pub retained_footprint : RetainedFootprint

abbrev pub same_namespace : CacheNamespace → CacheNamespace → Bool
same_namespace scoped scoped = true
same_namespace scoped generic = false
same_namespace generic scoped = false
same_namespace generic generic = true

abbrev pub same_record : ExpiryRecord → ExpiryRecord → Bool
same_record a b =
    eqb a.expires_at b.expires_at
    && (same_namespace a.namespace b.namespace && (a.storage_key == b.storage_key))

unfoldable pub remove_record : ExpiryRecord → List ExpiryRecord → List ExpiryRecord
remove_record r [] = []
remove_record r (x ∷ rest) =
    let kept = remove_record r rest in if same_record r x then kept else x ∷ kept

unfoldable pub insert_record : ExpiryRecord → List ExpiryRecord → List ExpiryRecord
insert_record r [] = r ∷ []
insert_record r (x ∷ rest) =
    let later = insert_record r rest in
    if ltb r.expires_at x.expires_at then r ∷ x ∷ rest else x ∷ later

abbrev pub or_nothing : Option RetainedFootprint → RetainedFootprint
or_nothing none = nothing
or_nothing (some f) = f

abbrev pub is_within : CacheLimits → Option RetainedFootprint → Bool
is_within limits none = false
is_within limits (some total) = fits_within total limits

abbrev pub footprint_of : {T : Type 0} → Option (CacheEntry T) → Option RetainedFootprint
footprint_of none = none
footprint_of (some e) = some e.footprint

abbrev pub is_absent : Option RetainedFootprint → Bool
is_absent none = true
is_absent (some f) = false

module _ {V : Type 0} where
  abbrev pub no_entries : IdempotencyCacheState V
  no_entries = record {
    scoped_entries = [];
    generic_entries = [];
    expiry_index = [];
    retained_footprint = nothing;
  }

  unfoldable pub new_response : IdempotencyContext → V → CachedResponse V
  new_response c response = record {
    version = 1;
    request_fingerprint = c.request_fingerprint;
    response = response;
  }

  unfoldable pub lookup_response : CachedResponse V → IdempotencyContext → IdempotencyLookup V
  lookup_response r c =
      if not (eqb r.version 1)
      then miss
      else if r.request_fingerprint == c.request_fingerprint
      then replay r.response
      else conflict

  unfoldable pub entry_count : IdempotencyCacheState V → ℕ
  entry_count s = length s.scoped_entries + length s.generic_entries

  unfoldable pub can_retain :
      IdempotencyCacheState V
      → RetainedFootprint
      → (replaced : Option RetainedFootprint) → CacheLimits
      → Bool
  can_retain s candidate replaced limits =
      is_within limits (checked_add (without s.retained_footprint (or_nothing replaced)) candidate)

  unfoldable pub drop_scoped :
      IdempotencyCacheState V
      → String
      → Option (CacheEntry (CachedResponse V))
      → IdempotencyCacheState V
  drop_scoped s key none = s
  drop_scoped s key (some e) = record s {
    scoped_entries = remove s.scoped_entries key;
    expiry_index =
        remove_record (record { expires_at = e.expires_at; namespace = scoped; storage_key = key })
          s.expiry_index;
    retained_footprint = without s.retained_footprint e.footprint;
  }

  unfoldable pub remove_scoped : IdempotencyCacheState V → String → IdempotencyCacheState V
  unfolding drop_scoped
  remove_scoped s key = drop_scoped s key (get s.scoped_entries key)

  unfoldable pub drop_generic :
      IdempotencyCacheState V → String → Option (CacheEntry V) → IdempotencyCacheState V
  drop_generic s key none = s
  drop_generic s key (some e) = record s {
    generic_entries = remove s.generic_entries key;
    expiry_index =
        remove_record (record { expires_at = e.expires_at; namespace = generic; storage_key = key })
          s.expiry_index;
    retained_footprint = without s.retained_footprint e.footprint;
  }

  unfoldable pub remove_generic : IdempotencyCacheState V → String → IdempotencyCacheState V
  unfolding drop_generic
  remove_generic s key = drop_generic s key (get s.generic_entries key)

  unfoldable pub remove_in :
      CacheNamespace → IdempotencyCacheState V → String → IdempotencyCacheState V
  unfolding remove_scoped remove_generic
  remove_in scoped s key = remove_scoped s key
  remove_in generic s key = remove_generic s key

  -- One round for each record that there is at most.
  unfoldable pub purge_rounds :
      ℕ → IdempotencyCacheState V → (now : ℕ) → List ExpiryRecord → IdempotencyCacheState V
  unfolding remove_in
  purge_rounds zero s now index = s
  purge_rounds (suc n) s now [] = s
  purge_rounds (suc n) s now (r ∷ rest) =
      let s' = remove_in r.namespace (record s { expiry_index = rest }) r.storage_key in
      let later = purge_rounds n s' now s'.expiry_index in if leb r.expires_at now then later else s

  unfoldable pub purge_expired : IdempotencyCacheState V → (now : ℕ) → IdempotencyCacheState V
  unfolding purge_rounds
  purge_expired s now = purge_rounds (length s.expiry_index) s now s.expiry_index

  unfoldable pub found_scoped :
      IdempotencyCacheState V
      → IdempotencyContext
      → (now : ℕ) → Option (CacheEntry (CachedResponse V))
      → IdempotencyLookup V × IdempotencyCacheState V
  unfolding lookup_response
  found_scoped s c now none = (miss, s)
  found_scoped s c now (some e) =
      if leb e.expires_at now
      then (miss, remove_scoped s c.storage_key)
      else (lookup_response e.value c, s)

  unfoldable pub lookup :
      IdempotencyCacheState V
      → IdempotencyContext
      → (now : ℕ) → IdempotencyLookup V × IdempotencyCacheState V
  unfolding found_scoped
  lookup s c now = found_scoped s c now (get s.scoped_entries c.storage_key)

  unfoldable pub found_generic :
      IdempotencyCacheState V
      → String
      → (now : ℕ) → Option (CacheEntry V)
      → Option V × IdempotencyCacheState V
  found_generic s key now none = (none, s)
  found_generic s key now (some e) =
      if leb e.expires_at now then (none, remove_generic s key) else (some e.value, s)

  -- `key` is the digest of the client's key.
  unfoldable pub get_generic :
      IdempotencyCacheState V → String → (now : ℕ) → Option V × IdempotencyCacheState V
  unfolding found_generic
  get_generic s key now = found_generic s key now (get s.generic_entries key)

  -- No entry is replaced and there are as many as may be, or the footprints do not fit.
  unfoldable pub refuses :
      IdempotencyCacheState V
      → RetainedFootprint
      → (replaced : Option RetainedFootprint) → CacheLimits
      → Bool
  unfolding entry_count can_retain
  refuses s footprint replaced limits =
      (is_absent replaced && leb limits.max_entries (entry_count s))
      || not (can_retain s footprint replaced limits)

  -- `none` is the panic of the `expect`.
  unfoldable pub put_scoped :
      IdempotencyCacheState V
      → IdempotencyContext
      → V
      → (expires_at : ℕ) → RetainedFootprint
      → Option RetainedFootprint
      → Option (IdempotencyCacheState V)
  unfolding new_response
  put_scoped s c response at footprint none = none
  put_scoped s c response at footprint (some total) = some (record s {
    retained_footprint = total;
    expiry_index =
        insert_record (record { expires_at = at; namespace = scoped; storage_key = c.storage_key })
          s.expiry_index;
    scoped_entries =
        insert s.scoped_entries c.storage_key
          (record { value = new_response c response; expires_at = at; footprint = footprint });
  })

  unfoldable pub store_sized :
      CacheLimits
      → IdempotencyCacheState V
      → IdempotencyContext
      → V
      → (expires_at : ℕ) → Option RetainedFootprint
      → Option (IdempotencyCacheState V)
  unfolding refuses put_scoped
  store_sized limits s c response at none = some s
  store_sized limits s c response at (some footprint) =
      if refuses s footprint (footprint_of (get s.scoped_entries c.storage_key)) limits
      then some s
      else (let s' = remove_scoped s c.storage_key in
          put_scoped s' c response at footprint (checked_add s'.retained_footprint footprint))

  -- `size` is `scoped_entry_footprint` for the limits.
  unfoldable pub store :
      CacheLimits
      → (ttl : ℕ) → (size : IdempotencyContext → V → Option RetainedFootprint)
      → IdempotencyCacheState V
      → IdempotencyContext
      → V
      → (now : ℕ) → Option (IdempotencyCacheState V)
  unfolding store_sized
  store limits ttl size s c response now =
      store_sized limits (purge_expired s now) c response (now + ttl) (size c response)

  unfoldable pub put_generic :
      IdempotencyCacheState V
      → String
      → V
      → (expires_at : ℕ) → RetainedFootprint
      → Option RetainedFootprint
      → Option (IdempotencyCacheState V)
  put_generic s key value at footprint none = none
  put_generic s key value at footprint (some total) = some (record s {
    retained_footprint = total;
    expiry_index =
        insert_record (record { expires_at = at; namespace = generic; storage_key = key })
          s.expiry_index;
    generic_entries =
        insert s.generic_entries key
          (record { value = value; expires_at = at; footprint = footprint });
  })

  unfoldable pub put_sized :
      CacheLimits
      → IdempotencyCacheState V
      → String
      → V
      → (expires_at : ℕ) → Option RetainedFootprint
      → Option (IdempotencyCacheState V)
  unfolding refuses put_generic
  put_sized limits s key value at none = some s
  put_sized limits s key value at (some footprint) =
      if refuses s footprint (footprint_of (get s.generic_entries key)) limits
      then some s
      else (let s' = remove_generic s key in
          put_generic s' key value at footprint (checked_add s'.retained_footprint footprint))

  -- `key` is the digest of the client's key, `size` is `generic_entry_footprint` for the limits.
  unfoldable pub put :
      CacheLimits
      → (ttl : ℕ) → (size : String → V → Option RetainedFootprint) → IdempotencyCacheState V
      → String
      → V
      → (now : ℕ) → Option (IdempotencyCacheState V)
  unfolding put_sized
  put limits ttl size s key value now =
      put_sized limits (purge_expired s now) key value (now + ttl) (size key value)
