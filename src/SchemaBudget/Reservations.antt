-- ===== src/SchemaBudget/Reservations.antt =====
-- src/schema/budget.rs: one reservation at a time.
use llmshim.Common.{ℕ, ◌≤◌, true, false, ◌≡◌, refl, Option, none, some, arith, string_key}
use llmshim.Common.Word.{checked_add, saturating_add}
use llmshim.Json.{Value}
use llmshim.SchemaBudget.{Amounts, Footprint, RequestBudget, measure, reserve}
use llmshim.SchemaBudget.Request.{
  take_schema_copies, take_retained_nodes, take_retained_literal_bytes, take_retained_owned_bytes,
  take_work_passes, take_work_nodes, take_work_literal_bytes, take_validators, take_prompt_bytes,
  Reserved, then_reserve, stored, measured, reserve_retained_footprint, reserve_work_footprint,
  reserve_prompt_footprint, reserve_retained, reserve_work, reserve_prompt_schema,
  reserve_validator,
}

-- Each amount is within its limit.
abbrev pub AtMost : (a l : Amounts) → Type 0
AtMost a l =
    ((a.schema_copies ≤ l.schema_copies)
      × ((a.retained_nodes ≤ l.retained_nodes)
          × ((a.retained_literal_bytes ≤ l.retained_literal_bytes)
              × (a.retained_owned_bytes ≤ l.retained_owned_bytes))))
    × (((a.work_passes ≤ l.work_passes)
          × ((a.work_nodes ≤ l.work_nodes) × (a.work_literal_bytes ≤ l.work_literal_bytes)))
        × ((a.validators ≤ l.validators) × (a.prompt_bytes ≤ l.prompt_bytes)))

-- A budget under fixed limits.
abbrev pub IsWithin : Amounts → RequestBudget → Type 0
IsWithin limits b = (b.limits ≡ limits) × AtMost b.used b.limits

reserve_bound : (used amount limit n : ℕ) → reserve used amount limit ≡ some n → n ≤ limit
unfolding reserve checked_add
reserve_bound used amount limit n e = ground (arith, e)

module _ (limits : Amounts) where
  abbrev pub Keeps : Reserved → Type 0
  Keeps r = IsWithin limits r.1

  pub then_reserve-Keeps :
      (r : Reserved) (f : RequestBudget → Reserved)
      → Keeps r
      → ((b : RequestBudget) → IsWithin limits b → Keeps (f b))
      → Keeps (then_reserve r f)
  then_reserve-Keeps (true, b) f h k = k b h
  then_reserve-Keeps (false, b) f h k = h

  stored-Keeps :
      (b : RequestBudget) (set : ℕ → Amounts) (o : Option ℕ)
      → IsWithin limits b
      → ((n : ℕ) → o ≡ some n → IsWithin limits (record b { used = set n }))
      → Keeps (stored b set o)
  stored-Keeps b set none h k = h
  stored-Keeps b set (some n) h k = k n refl

  schema_copies-Keeps :
      (b : RequestBudget) (amount : ℕ) → IsWithin limits b → Keeps (take_schema_copies b amount)
  unfolding take_schema_copies
  schema_copies-Keeps b amount h =
      stored-Keeps b (λ n. record b.used { schema_copies = n })
        (reserve b.used.schema_copies amount b.limits.schema_copies) h
        (λ n e.
          ground (arith, h, reserve_bound b.used.schema_copies amount b.limits.schema_copies n e))

  retained_nodes-Keeps :
      (b : RequestBudget) (amount : ℕ) → IsWithin limits b → Keeps (take_retained_nodes b amount)
  unfolding take_retained_nodes
  retained_nodes-Keeps b amount h =
      stored-Keeps b (λ n. record b.used { retained_nodes = n })
        (reserve b.used.retained_nodes amount b.limits.retained_nodes) h
        (λ n e.
          ground (arith, h, reserve_bound b.used.retained_nodes amount b.limits.retained_nodes n e))

  retained_literal_bytes-Keeps :
      (b : RequestBudget) (amount : ℕ)
      → IsWithin limits b
      → Keeps (take_retained_literal_bytes b amount)
  unfolding take_retained_literal_bytes
  retained_literal_bytes-Keeps b amount h =
      stored-Keeps b (λ n. record b.used { retained_literal_bytes = n })
        (reserve b.used.retained_literal_bytes amount b.limits.retained_literal_bytes) h
        (λ n e. ground (
          arith,
          h,
          reserve_bound b.used.retained_literal_bytes amount b.limits.retained_literal_bytes n e,
        ))

  retained_owned_bytes-Keeps :
      (b : RequestBudget) (amount : ℕ)
      → IsWithin limits b
      → Keeps (take_retained_owned_bytes b amount)
  unfolding take_retained_owned_bytes
  retained_owned_bytes-Keeps b amount h =
      stored-Keeps b (λ n. record b.used { retained_owned_bytes = n })
        (reserve b.used.retained_owned_bytes amount b.limits.retained_owned_bytes) h
        (λ n e. ground (
          arith,
          h,
          reserve_bound b.used.retained_owned_bytes amount b.limits.retained_owned_bytes n e,
        ))

  work_passes-Keeps :
      (b : RequestBudget) (amount : ℕ) → IsWithin limits b → Keeps (take_work_passes b amount)
  unfolding take_work_passes
  work_passes-Keeps b amount h =
      stored-Keeps b (λ n. record b.used { work_passes = n })
        (reserve b.used.work_passes amount b.limits.work_passes) h
        (λ n e. ground (arith, h, reserve_bound b.used.work_passes amount b.limits.work_passes n e))

  work_nodes-Keeps :
      (b : RequestBudget) (amount : ℕ) → IsWithin limits b → Keeps (take_work_nodes b amount)
  unfolding take_work_nodes
  work_nodes-Keeps b amount h =
      stored-Keeps b (λ n. record b.used { work_nodes = n })
        (reserve b.used.work_nodes amount b.limits.work_nodes) h
        (λ n e. ground (arith, h, reserve_bound b.used.work_nodes amount b.limits.work_nodes n e))

  work_literal_bytes-Keeps :
      (b : RequestBudget) (amount : ℕ)
      → IsWithin limits b
      → Keeps (take_work_literal_bytes b amount)
  unfolding take_work_literal_bytes
  work_literal_bytes-Keeps b amount h =
      stored-Keeps b (λ n. record b.used { work_literal_bytes = n })
        (reserve b.used.work_literal_bytes amount b.limits.work_literal_bytes) h
        (λ n e. ground (
          arith,
          h,
          reserve_bound b.used.work_literal_bytes amount b.limits.work_literal_bytes n e,
        ))

  validators-Keeps :
      (b : RequestBudget) (amount : ℕ) → IsWithin limits b → Keeps (take_validators b amount)
  unfolding take_validators
  validators-Keeps b amount h =
      stored-Keeps b (λ n. record b.used { validators = n })
        (reserve b.used.validators amount b.limits.validators) h
        (λ n e. ground (arith, h, reserve_bound b.used.validators amount b.limits.validators n e))

  prompt_bytes-Keeps :
      (b : RequestBudget) (amount : ℕ) → IsWithin limits b → Keeps (take_prompt_bytes b amount)
  unfolding take_prompt_bytes
  prompt_bytes-Keeps b amount h =
      stored-Keeps b (λ n. record b.used { prompt_bytes = n })
        (reserve b.used.prompt_bytes amount b.limits.prompt_bytes) h
        (λ n e.
          ground (arith, h, reserve_bound b.used.prompt_bytes amount b.limits.prompt_bytes n e))

  reserve_retained_footprint-Keeps :
      (b : RequestBudget) (f : Footprint)
      → IsWithin limits b
      → Keeps (reserve_retained_footprint b f)
  unfolding reserve_retained_footprint
  reserve_retained_footprint-Keeps b f h =
      then_reserve-Keeps (take_schema_copies b 1)
        (λ b1. then_reserve (take_retained_nodes b1 f.nodes) (λ b2.
          then_reserve (take_retained_literal_bytes b2 f.literal_bytes)
            (λ b3. take_retained_owned_bytes b3 f.owned_bytes)))
        (schema_copies-Keeps b 1 h)
        (λ b1 h1.
          then_reserve-Keeps (take_retained_nodes b1 f.nodes)
            (λ b2.
              then_reserve (take_retained_literal_bytes b2 f.literal_bytes)
                (λ b3. take_retained_owned_bytes b3 f.owned_bytes))
            (retained_nodes-Keeps b1 f.nodes h1)
            (λ b2 h2.
              then_reserve-Keeps (take_retained_literal_bytes b2 f.literal_bytes)
                (λ b3. take_retained_owned_bytes b3 f.owned_bytes)
                (retained_literal_bytes-Keeps b2 f.literal_bytes h2)
                (λ b3 h3. retained_owned_bytes-Keeps b3 f.owned_bytes h3)))

  reserve_work_footprint-Keeps :
      (b : RequestBudget) (f : Footprint) → IsWithin limits b → Keeps (reserve_work_footprint b f)
  unfolding reserve_work_footprint
  reserve_work_footprint-Keeps b f h =
      then_reserve-Keeps (take_work_passes b 1)
        (λ b1.
          then_reserve (take_work_nodes b1 f.nodes)
            (λ b2. take_work_literal_bytes b2 f.literal_bytes))
        (work_passes-Keeps b 1 h)
        (λ b1 h1.
          then_reserve-Keeps (take_work_nodes b1 f.nodes)
            (λ b2. take_work_literal_bytes b2 f.literal_bytes) (work_nodes-Keeps b1 f.nodes h1)
            (λ b2 h2. work_literal_bytes-Keeps b2 f.literal_bytes h2))

  reserve_prompt_footprint-Keeps :
      (b : RequestBudget) (f : Footprint) → IsWithin limits b → Keeps (reserve_prompt_footprint b f)
  unfolding reserve_prompt_footprint
  reserve_prompt_footprint-Keeps b f h = prompt_bytes-Keeps b (saturating_add f.owned_bytes 128) h

  measured-Keeps :
      (b : RequestBudget) (o : Option Footprint) (f : RequestBudget → Footprint → Reserved)
      → IsWithin limits b
      → ((p : Footprint) → Keeps (f b p))
      → Keeps (measured b o f)
  measured-Keeps b none f h k = h
  measured-Keeps b (some p) f h k = k p

  pub reserve_retained-Keeps :
      (b : RequestBudget) (v : Value) → IsWithin limits b → Keeps (reserve_retained b v)
  unfolding reserve_retained
  reserve_retained-Keeps b v h =
      measured-Keeps b (measure v) _ h (λ p. reserve_retained_footprint-Keeps b p h)

  pub reserve_work-Keeps :
      (b : RequestBudget) (v : Value) → IsWithin limits b → Keeps (reserve_work b v)
  unfolding reserve_work
  reserve_work-Keeps b v h =
      measured-Keeps b (measure v) _ h (λ p. reserve_work_footprint-Keeps b p h)

  pub reserve_prompt_schema-Keeps :
      (b : RequestBudget) (v : Value) → IsWithin limits b → Keeps (reserve_prompt_schema b v)
  unfolding reserve_prompt_schema
  reserve_prompt_schema-Keeps b v h =
      measured-Keeps b (measure v) _ h (λ p. reserve_prompt_footprint-Keeps b p h)

  pub reserve_validator-Keeps :
      (b : RequestBudget) (v : Value) → IsWithin limits b → Keeps (reserve_validator b v)
  unfolding reserve_validator
  reserve_validator-Keeps b v h =
      then_reserve-Keeps (take_validators b 1)
        (λ b1. then_reserve (reserve_work b1 v) (λ b2. reserve_retained b2 v))
        (validators-Keeps b 1 h)
        (λ b1 h1.
          then_reserve-Keeps (reserve_work b1 v) (λ b2. reserve_retained b2 v)
            (reserve_work-Keeps b1 v h1) (λ b2 h2. reserve_retained-Keeps b2 v h2))
