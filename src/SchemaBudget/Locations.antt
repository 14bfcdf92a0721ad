-- ===== src/SchemaBudget/Locations.antt =====
-- src/schema/budget.rs: the places of a request that hold schemas.
use llmshim.Common.{Bool, true, ◌||◌, String, some, if◌then◌else◌, string_key, ◌==◌}
use llmshim.Json.{
  Value, null, boolean, number, text, array, object, Items, nil, cons, Fields, end, field,
  get_field,
}
use llmshim.SchemaBudget.{RequestBudget}
use llmshim.SchemaBudget.Request.{
  Reserved, then_reserve, reserve_pointers, location_pointers, items_of, reserve_each_tool,
}
use package.text.Mathlib.Text.{starts_with}

-- The recursion goes into the messages and their items, as indexing does.
unfoldable mutual
  pub reserve_schema_locations : Value → RequestBudget → Reserved
  reserve_schema_locations null b = (true, b)
  reserve_schema_locations (boolean x) b = (true, b)
  reserve_schema_locations (number n) b = (true, b)
  reserve_schema_locations (text s c) b = (true, b)
  reserve_schema_locations (array c xs) b = (true, b)
  reserve_schema_locations (object fs) b =
      then_reserve (reserve_each_tool (items_of (get_field (object fs) "tools")) b) λ b1.
        then_reserve (reserve_member_messages fs b1)
          λ b2. reserve_pointers b2 (object fs) location_pointers

  pub reserve_member_messages : Fields → RequestBudget → Reserved
  reserve_member_messages end b = (true, b)
  reserve_member_messages (field k c v fs) b =
      let rest = reserve_member_messages fs b in
      let here = reserve_messages v b in if k == "messages" then here else rest

  pub reserve_messages : Value → RequestBudget → Reserved
  reserve_messages null b = (true, b)
  reserve_messages (boolean x) b = (true, b)
  reserve_messages (number n) b = (true, b)
  reserve_messages (text s c) b = (true, b)
  reserve_messages (object fs) b = (true, b)
  reserve_messages (array c xs) b = reserve_each_message xs b

  pub reserve_each_message : Items → RequestBudget → Reserved
  reserve_each_message nil b = (true, b)
  reserve_each_message (cons x xs) b =
      then_reserve (reserve_message x b) λ b'. reserve_each_message xs b'

  pub reserve_message : Value → RequestBudget → Reserved
  reserve_message null b = (true, b)
  reserve_message (boolean x) b = (true, b)
  reserve_message (number n) b = (true, b)
  reserve_message (text s c) b = (true, b)
  reserve_message (array c xs) b = (true, b)
  reserve_message (object fs) b = reserve_member_item fs b

  pub reserve_member_item : Fields → RequestBudget → Reserved
  reserve_member_item end b = (true, b)
  reserve_member_item (field k c v fs) b =
      let rest = reserve_member_item fs b in
      let here = reserve_schema_locations v b in if k == "x-responses-item" then here else rest

abbrev pub holds_tools : String → Bool
holds_tools key = key == "x-responses-tools" || key == "x-responses-loaded-tools"

-- One member of the request, where it is an extension.
unfoldable pub reserve_extension : String → Value → RequestBudget → Reserved
unfolding reserve_each_tool reserve_schema_locations
reserve_extension key extension b =
    if starts_with key "x-"
    then then_reserve
        (if holds_tools key then reserve_each_tool (items_of (some extension)) b else (true, b))
        (reserve_schema_locations extension)
    else (true, b)

unfoldable pub reserve_extensions : Fields → RequestBudget → Reserved
unfolding reserve_extension
reserve_extensions end b = (true, b)
reserve_extensions (field k c v fs) b =
    then_reserve (reserve_extension k v b) λ b'. reserve_extensions fs b'

abbrev pub members_of : Value → Fields
members_of (object fs) = fs
members_of _ = end

unfoldable pub reserve_request_schemas : RequestBudget → Value → Reserved
unfolding reserve_schema_locations reserve_extensions
reserve_request_schemas b request =
    then_reserve (reserve_schema_locations request b)
      λ b'. reserve_extensions (members_of request) b'
