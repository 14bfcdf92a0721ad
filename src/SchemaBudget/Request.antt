-- ===== src/SchemaBudget/Request.antt =====
-- src/schema/budget.rs: RequestBudget. Every error is `exhausted()`; it leaves what was reserved before
-- it in place.
use llmshim.Common.{
  ℕ, Bool, true, false, String, Option, none, some, List, [], ◌∷◌, if◌then◌else◌, string_key, ◌==◌,
  ◌>>=◌,
}
use llmshim.Common.Word.{saturating_add}
use llmshim.Error.{ShimError, provider_error}
use llmshim.Json.{
  Value, null, boolean, number, text, array, object, Items, nil, cons, Fields, end, field,
  get_field,
}
use llmshim.SchemaBudget.{Amounts, Footprint, RequestBudget, measure, reserve}

abbrev pub exhausted : ShimError
exhausted = provider_error 400 "request schema budget exceeded" none

-- Whether it is `Ok`, and the budget after it.
abbrev pub Reserved : Type 0
Reserved = Bool × RequestBudget

-- `?`
abbrev pub then_reserve : Reserved → (RequestBudget → Reserved) → Reserved
then_reserve (true, b) f = f b
then_reserve (false, b) f = (false, b)

abbrev pub stored : RequestBudget → (set : ℕ → Amounts) → Option ℕ → Reserved
stored b set none = (false, b)
stored b set (some n) = (true, record b { used = set n })

-- `reserve` for each field.
unfoldable pub take_schema_copies : RequestBudget → ℕ → Reserved
unfolding reserve
take_schema_copies b amount =
    stored b (λ n. record b.used { schema_copies = n })
      (reserve b.used.schema_copies amount b.limits.schema_copies)

unfoldable pub take_retained_nodes : RequestBudget → ℕ → Reserved
unfolding reserve
take_retained_nodes b amount =
    stored b (λ n. record b.used { retained_nodes = n })
      (reserve b.used.retained_nodes amount b.limits.retained_nodes)

unfoldable pub take_retained_literal_bytes : RequestBudget → ℕ → Reserved
unfolding reserve
take_retained_literal_bytes b amount =
    stored b (λ n. record b.used { retained_literal_bytes = n })
      (reserve b.used.retained_literal_bytes amount b.limits.retained_literal_bytes)

unfoldable pub take_retained_owned_bytes : RequestBudget → ℕ → Reserved
unfolding reserve
take_retained_owned_bytes b amount =
    stored b (λ n. record b.used { retained_owned_bytes = n })
      (reserve b.used.retained_owned_bytes amount b.limits.retained_owned_bytes)

unfoldable pub take_work_passes : RequestBudget → ℕ → Reserved
unfolding reserve
take_work_passes b amount =
    stored b (λ n. record b.used { work_passes = n })
      (reserve b.used.work_passes amount b.limits.work_passes)

unfoldable pub take_work_nodes : RequestBudget → ℕ → Reserved
unfolding reserve
take_work_nodes b amount =
    stored b (λ n. record b.used { work_nodes = n })
      (reserve b.used.work_nodes amount b.limits.work_nodes)

unfoldable pub take_work_literal_bytes : RequestBudget → ℕ → Reserved
unfolding reserve
take_work_literal_bytes b amount =
    stored b (λ n. record b.used { work_literal_bytes = n })
      (reserve b.used.work_literal_bytes amount b.limits.work_literal_bytes)

unfoldable pub take_validators : RequestBudget → ℕ → Reserved
unfolding reserve
take_validators b amount =
    stored b (λ n. record b.used { validators = n })
      (reserve b.used.validators amount b.limits.validators)

unfoldable pub take_prompt_bytes : RequestBudget → ℕ → Reserved
unfolding reserve
take_prompt_bytes b amount =
    stored b (λ n. record b.used { prompt_bytes = n })
      (reserve b.used.prompt_bytes amount b.limits.prompt_bytes)

unfoldable pub reserve_retained_footprint : RequestBudget → Footprint → Reserved
unfolding take_schema_copies take_retained_nodes take_retained_literal_bytes
    take_retained_owned_bytes
reserve_retained_footprint b f = then_reserve (take_schema_copies b 1) λ b1.
    then_reserve (take_retained_nodes b1 f.nodes) λ b2.
      then_reserve (take_retained_literal_bytes b2 f.literal_bytes)
        λ b3. take_retained_owned_bytes b3 f.owned_bytes

unfoldable pub reserve_work_footprint : RequestBudget → Footprint → Reserved
unfolding take_work_passes take_work_nodes take_work_literal_bytes
reserve_work_footprint b f =
    then_reserve (take_work_passes b 1) λ b1.
      then_reserve (take_work_nodes b1 f.nodes) λ b2. take_work_literal_bytes b2 f.literal_bytes

unfoldable pub reserve_prompt_footprint : RequestBudget → Footprint → Reserved
unfolding take_prompt_bytes saturating_add
reserve_prompt_footprint b f = take_prompt_bytes b (saturating_add f.owned_bytes 128)

abbrev pub measured :
    RequestBudget → Option Footprint → (RequestBudget → Footprint → Reserved) → Reserved
measured b none f = (false, b)
measured b (some footprint) f = f b footprint

unfoldable pub reserve_retained : RequestBudget → Value → Reserved
unfolding measure reserve_retained_footprint
reserve_retained b v = measured b (measure v) reserve_retained_footprint

unfoldable pub reserve_work : RequestBudget → Value → Reserved
unfolding measure reserve_work_footprint
reserve_work b v = measured b (measure v) reserve_work_footprint

unfoldable pub reserve_prompt_schema : RequestBudget → Value → Reserved
unfolding measure reserve_prompt_footprint
reserve_prompt_schema b v = measured b (measure v) reserve_prompt_footprint

unfoldable pub reserve_validator : RequestBudget → Value → Reserved
unfolding take_validators reserve_work reserve_retained
reserve_validator b v =
    then_reserve (take_validators b 1)
      λ b1. then_reserve (reserve_work b1 v) λ b2. reserve_retained b2 v

unfoldable pub reserve_found : RequestBudget → Option Value → Reserved
unfolding reserve_retained
reserve_found b none = (true, b)
reserve_found b (some schema) = reserve_retained b schema

-- Value::pointer, of keys.
abbrev pub pointer : Value → List String → Option Value
pointer v [] = some v
pointer v (key ∷ keys) = get_field v key >>= λ found. pointer found keys

unfoldable pub reserve_pointers : RequestBudget → Value → List (List String) → Reserved
unfolding reserve_found
reserve_pointers b v [] = (true, b)
reserve_pointers b v (p ∷ ps) =
    then_reserve (reserve_found b (pointer v p)) λ b'. reserve_pointers b' v ps

abbrev pub tool_pointers : List (List String)
tool_pointers =
    ("inputSchema" ∷ [])
    ∷ ("input_schema" ∷ [])
    ∷ ("parameters" ∷ [])
    ∷ ("function" ∷ "parameters" ∷ [])
    ∷ []

abbrev pub location_pointers : List (List String)
location_pointers =
    ("response_format" ∷ "json_schema" ∷ "schema" ∷ [])
    ∷ ("text" ∷ "format" ∷ "schema" ∷ [])
    ∷ ("output_config" ∷ "format" ∷ "schema" ∷ [])
    ∷ ("generationConfig" ∷ "responseSchema" ∷ [])
    ∷ ("generationConfig" ∷ "responseJsonSchema" ∷ [])
    ∷ ("responseSchema" ∷ [])
    ∷ ("response_json_schema" ∷ [])
    ∷ []

abbrev pub items_of : Option Value → Items
items_of (some (array c xs)) = xs
items_of _ = nil

unfoldable pub reserve_declarations : RequestBudget → Items → Reserved
unfolding reserve_found
reserve_declarations b nil = (true, b)
reserve_declarations b (cons x xs) =
    then_reserve (reserve_found b (get_field x "parameters")) λ b'. reserve_declarations b' xs

-- The schemas of a tool but for those of the tools in it.
unfoldable pub reserve_own_schemas : RequestBudget → Value → Reserved
unfolding reserve_pointers reserve_declarations
reserve_own_schemas b tool =
    then_reserve (reserve_pointers b tool tool_pointers)
      λ b'. reserve_declarations b' (items_of (get_field tool "functionDeclarations"))

-- The recursion goes into the first member named `tools`, as `get` does.
unfoldable mutual
  pub reserve_tool_schemas : Value → RequestBudget → Reserved
  reserve_tool_schemas null b = reserve_own_schemas b null
  reserve_tool_schemas (boolean x) b = reserve_own_schemas b (boolean x)
  reserve_tool_schemas (number n) b = reserve_own_schemas b (number n)
  reserve_tool_schemas (text s c) b = reserve_own_schemas b (text s c)
  reserve_tool_schemas (array c xs) b = reserve_own_schemas b (array c xs)
  reserve_tool_schemas (object fs) b =
      then_reserve (reserve_own_schemas b (object fs)) λ b'. reserve_member_tools fs b'

  pub reserve_member_tools : Fields → RequestBudget → Reserved
  reserve_member_tools end b = (true, b)
  reserve_member_tools (field k c v fs) b =
      let rest = reserve_member_tools fs b in
      let here = reserve_tools v b in if k == "tools" then here else rest

  pub reserve_tools : Value → RequestBudget → Reserved
  reserve_tools null b = (true, b)
  reserve_tools (boolean x) b = (true, b)
  reserve_tools (number n) b = (true, b)
  reserve_tools (text s c) b = (true, b)
  reserve_tools (object fs) b = (true, b)
  reserve_tools (array c xs) b = reserve_each_tool xs b

  pub reserve_each_tool : Items → RequestBudget → Reserved
  reserve_each_tool nil b = (true, b)
  reserve_each_tool (cons x xs) b =
      then_reserve (reserve_tool_schemas x b) λ b'. reserve_each_tool xs b'
