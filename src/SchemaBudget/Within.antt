-- ===== src/SchemaBudget/Within.antt =====
-- src/schema/budget.rs: no reservation goes past a limit.
use llmshim.Common.{
  true, String, Option, none, some, List, [], ◌∷◌, arith, if◌then◌else◌, if_cases, string_key, ◌==◌,
}
use llmshim.Json.{
  Value, null, boolean, number, text, array, object, Items, nil, cons, Fields, end, field,
  get_field,
}
use llmshim.SchemaBudget.{Amounts, RequestBudget, with_limits}
use llmshim.SchemaBudget.Request.{
  Reserved, then_reserve, reserve_retained, reserve_work, reserve_prompt_schema, reserve_validator,
  reserve_found, reserve_pointers, tool_pointers, location_pointers, pointer, items_of,
  reserve_declarations, reserve_own_schemas, reserve_tool_schemas, reserve_member_tools,
  reserve_tools, reserve_each_tool,
}
use llmshim.SchemaBudget.Locations.{
  reserve_schema_locations, reserve_member_messages, reserve_messages, reserve_each_message,
  reserve_message, reserve_member_item, reserve_extension, reserve_extensions, members_of,
  holds_tools, reserve_request_schemas,
}
use package.text.Mathlib.Text.{starts_with}
use llmshim.SchemaBudget.Reservations.{
  IsWithin, Keeps, then_reserve-Keeps, reserve_retained-Keeps, reserve_work-Keeps,
  reserve_prompt_schema-Keeps, reserve_validator-Keeps,
}

module _ (limits : Amounts) where
  reserve_found-Keeps :
      (b : RequestBudget) (o : Option Value) → IsWithin limits b → Keeps limits (reserve_found b o)
  unfolding reserve_found
  reserve_found-Keeps b none h = h
  reserve_found-Keeps b (some v) h = reserve_retained-Keeps limits b v h

  reserve_pointers-Keeps :
      (b : RequestBudget) (v : Value) (ps : List (List String))
      → IsWithin limits b
      → Keeps limits (reserve_pointers b v ps)
  unfolding reserve_pointers
  reserve_pointers-Keeps b v [] h = h
  reserve_pointers-Keeps b v (p ∷ ps) h =
      then_reserve-Keeps limits (reserve_found b (pointer v p)) (λ b1. reserve_pointers b1 v ps)
        (reserve_found-Keeps b (pointer v p) h) (λ b1 h1. reserve_pointers-Keeps b1 v ps h1)

  reserve_declarations-Keeps :
      (b : RequestBudget) (xs : Items)
      → IsWithin limits b
      → Keeps limits (reserve_declarations b xs)
  unfolding reserve_declarations
  reserve_declarations-Keeps b nil h = h
  reserve_declarations-Keeps b (cons x xs) h =
      then_reserve-Keeps limits (reserve_found b (get_field x "parameters"))
        (λ b1. reserve_declarations b1 xs) (reserve_found-Keeps b (get_field x "parameters") h)
        (λ b1 h1. reserve_declarations-Keeps b1 xs h1)

  reserve_own_schemas-Keeps :
      (b : RequestBudget) (v : Value) → IsWithin limits b → Keeps limits (reserve_own_schemas b v)
  unfolding reserve_own_schemas
  reserve_own_schemas-Keeps b v h =
      then_reserve-Keeps limits (reserve_pointers b v tool_pointers)
        (λ b1. reserve_declarations b1 (items_of (get_field v "functionDeclarations")))
        (reserve_pointers-Keeps b v tool_pointers h)
        (λ b1 h1. reserve_declarations-Keeps b1 (items_of (get_field v "functionDeclarations")) h1)

  mutual
    unfolding reserve_tool_schemas

    tool-Keeps :
        (v : Value) (b : RequestBudget)
        → IsWithin limits b
        → Keeps limits (reserve_tool_schemas v b)
    tool-Keeps null b h = reserve_own_schemas-Keeps b null h
    tool-Keeps (boolean x) b h = reserve_own_schemas-Keeps b (boolean x) h
    tool-Keeps (number n) b h = reserve_own_schemas-Keeps b (number n) h
    tool-Keeps (text s c) b h = reserve_own_schemas-Keeps b (text s c) h
    tool-Keeps (array c xs) b h = reserve_own_schemas-Keeps b (array c xs) h
    tool-Keeps (object fs) b h =
        then_reserve-Keeps limits (reserve_own_schemas b (object fs)) (reserve_member_tools fs)
          (reserve_own_schemas-Keeps b (object fs) h) (λ b1 h1. member_tools-Keeps fs b1 h1)

    member_tools-Keeps :
        (fs : Fields) (b : RequestBudget)
        → IsWithin limits b
        → Keeps limits (reserve_member_tools fs b)
    member_tools-Keeps end b h = h
    member_tools-Keeps (field k c v fs) b h =
        if_cases (Keeps limits) (k == "tools") _ _ (λ _. tools-Keeps v b h)
          (λ _. member_tools-Keeps fs b h)

    tools-Keeps :
        (v : Value) (b : RequestBudget) → IsWithin limits b → Keeps limits (reserve_tools v b)
    tools-Keeps null b h = h
    tools-Keeps (boolean x) b h = h
    tools-Keeps (number n) b h = h
    tools-Keeps (text s c) b h = h
    tools-Keeps (object fs) b h = h
    tools-Keeps (array c xs) b h = each_tool-Keeps xs b h

    each_tool-Keeps :
        (xs : Items) (b : RequestBudget) → IsWithin limits b → Keeps limits (reserve_each_tool xs b)
    each_tool-Keeps nil b h = h
    each_tool-Keeps (cons x xs) b h =
        then_reserve-Keeps limits (reserve_tool_schemas x b) (reserve_each_tool xs)
          (tool-Keeps x b h) (λ b1 h1. each_tool-Keeps xs b1 h1)

  mutual
    unfolding reserve_schema_locations

    locations-Keeps :
        (v : Value) (b : RequestBudget)
        → IsWithin limits b
        → Keeps limits (reserve_schema_locations v b)
    locations-Keeps null b h = h
    locations-Keeps (boolean x) b h = h
    locations-Keeps (number n) b h = h
    locations-Keeps (text s c) b h = h
    locations-Keeps (array c xs) b h = h
    locations-Keeps (object fs) b h =
        then_reserve-Keeps limits (reserve_each_tool (items_of (get_field (object fs) "tools")) b)
          (λ b1.
            then_reserve (reserve_member_messages fs b1)
              (λ b2. reserve_pointers b2 (object fs) location_pointers))
          (each_tool-Keeps (items_of (get_field (object fs) "tools")) b h)
          (λ b1 h1.
            then_reserve-Keeps limits (reserve_member_messages fs b1)
              (λ b2. reserve_pointers b2 (object fs) location_pointers)
              (member_messages-Keeps fs b1 h1)
              (λ b2 h2. reserve_pointers-Keeps b2 (object fs) location_pointers h2))

    member_messages-Keeps :
        (fs : Fields) (b : RequestBudget)
        → IsWithin limits b
        → Keeps limits (reserve_member_messages fs b)
    member_messages-Keeps end b h = h
    member_messages-Keeps (field k c v fs) b h =
        if_cases (Keeps limits) (k == "messages") _ _ (λ _. messages-Keeps v b h)
          (λ _. member_messages-Keeps fs b h)

    messages-Keeps :
        (v : Value) (b : RequestBudget) → IsWithin limits b → Keeps limits (reserve_messages v b)
    messages-Keeps null b h = h
    messages-Keeps (boolean x) b h = h
    messages-Keeps (number n) b h = h
    messages-Keeps (text s c) b h = h
    messages-Keeps (object fs) b h = h
    messages-Keeps (array c xs) b h = each_message-Keeps xs b h

    each_message-Keeps :
        (xs : Items) (b : RequestBudget)
        → IsWithin limits b
        → Keeps limits (reserve_each_message xs b)
    each_message-Keeps nil b h = h
    each_message-Keeps (cons x xs) b h =
        then_reserve-Keeps limits (reserve_message x b) (reserve_each_message xs)
          (message-Keeps x b h) (λ b1 h1. each_message-Keeps xs b1 h1)

    message-Keeps :
        (v : Value) (b : RequestBudget) → IsWithin limits b → Keeps limits (reserve_message v b)
    message-Keeps null b h = h
    message-Keeps (boolean x) b h = h
    message-Keeps (number n) b h = h
    message-Keeps (text s c) b h = h
    message-Keeps (array c xs) b h = h
    message-Keeps (object fs) b h = member_item-Keeps fs b h

    member_item-Keeps :
        (fs : Fields) (b : RequestBudget)
        → IsWithin limits b
        → Keeps limits (reserve_member_item fs b)
    member_item-Keeps end b h = h
    member_item-Keeps (field k c v fs) b h =
        if_cases (Keeps limits) (k == "x-responses-item") _ _ (λ _. locations-Keeps v b h)
          (λ _. member_item-Keeps fs b h)

  reserve_extension-Keeps :
      (k : String) (v : Value) (b : RequestBudget)
      → IsWithin limits b
      → Keeps limits (reserve_extension k v b)
  unfolding reserve_extension
  reserve_extension-Keeps k v b h =
      if_cases (Keeps limits) (starts_with k "x-") _ _
        (λ _.
          then_reserve-Keeps limits
            (if holds_tools k then reserve_each_tool (items_of (some v)) b else (true, b))
            (reserve_schema_locations v)
            (if_cases (Keeps limits) (holds_tools k) (reserve_each_tool (items_of (some v)) b)
              (true, b) (λ _. each_tool-Keeps (items_of (some v)) b h) (λ _. h))
            (λ b1 h1. locations-Keeps v b1 h1))
        (λ _. h)

  reserve_extensions-Keeps :
      (fs : Fields) (b : RequestBudget) → IsWithin limits b → Keeps limits (reserve_extensions fs b)
  unfolding reserve_extensions
  reserve_extensions-Keeps end b h = h
  reserve_extensions-Keeps (field k c v fs) b h =
      then_reserve-Keeps limits (reserve_extension k v b) (reserve_extensions fs)
        (reserve_extension-Keeps k v b h) (λ b1 h1. reserve_extensions-Keeps fs b1 h1)

  reserve_request_schemas-Keeps :
      (b : RequestBudget) (v : Value)
      → IsWithin limits b
      → Keeps limits (reserve_request_schemas b v)
  unfolding reserve_request_schemas
  reserve_request_schemas-Keeps b v h =
      then_reserve-Keeps limits (reserve_schema_locations v b) (reserve_extensions (members_of v))
        (locations-Keeps v b h) (λ b1 h1. reserve_extensions-Keeps (members_of v) b1 h1)

pub data Call : Type 0 where
  retains works validates prompts requests : Value → Call

abbrev pub perform : RequestBudget → Call → Reserved
perform b (retains v) = reserve_retained b v
perform b (works v) = reserve_work b v
perform b (validates v) = reserve_validator b v
perform b (prompts v) = reserve_prompt_schema b v
perform b (requests v) = reserve_request_schemas b v

-- The calls, whatever each returns.
abbrev pub run : RequestBudget → List Call → RequestBudget
run b [] = b
run b (c ∷ cs) = run (perform b c).1 cs

perform-IsWithin :
    (limits : Amounts) (b : RequestBudget) (c : Call)
    → IsWithin limits b
    → IsWithin limits (perform b c).1
perform-IsWithin limits b (retains v) h = reserve_retained-Keeps limits b v h
perform-IsWithin limits b (works v) h = reserve_work-Keeps limits b v h
perform-IsWithin limits b (validates v) h = reserve_validator-Keeps limits b v h
perform-IsWithin limits b (prompts v) h = reserve_prompt_schema-Keeps limits b v h
perform-IsWithin limits b (requests v) h = reserve_request_schemas-Keeps limits b v h

after_calls :
    (limits : Amounts) (b : RequestBudget) (cs : List Call)
    → IsWithin limits b
    → IsWithin limits (run b cs)
after_calls limits b [] h = h
after_calls limits b (c ∷ cs) h =
    after_calls limits (perform b c).1 cs (perform-IsWithin limits b c h)

-- Whatever is reserved from a new budget, by whatever calls for whatever values, whether they
-- succeed or fail on the way, each of the nine amounts in use is within its limit, and the
-- limits are those that were given.
pub run-with_limits-IsWithin :
    (limits : Amounts) (cs : List Call) → IsWithin limits (run (with_limits limits) cs)
run-with_limits-IsWithin limits cs = after_calls limits (with_limits limits) cs (ground arith)
