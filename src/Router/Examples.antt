-- ===== src/Router/Examples.antt =====
-- src/router.rs: the route `fast`, for a request that sets its own temperature.
use llmshim.Common.{
  ℕ, Bool, true, false, String, Option, none, some, List, [], ◌∷◌, ◌≡◌, refl, string_key,
}
use llmshim.Common.Map.{Map, get}
use llmshim.Error.{ok}
use llmshim.Json.{Value, number, text, object, Fields, end, field, get_field}
use llmshim.Router.{
  Texts, Route, Router, new, register, route, alias, parse_model, route_target, expand_route,
  resolve_key, resolve,
}
use llmshim.Router.Routes.{member_of, expand_route-members, resolve_key-route}

abbrev plain : Texts
plain = record { to_lowercase = λ s. s; debug = λ s. s; debug_list = λ names. "" }

abbrev fast : Route
fast = record {
  model = "openai/gpt-5";
  settings = field "max_tokens" 10 (number "64") (field "temperature" 11 (number "0") end);
}

abbrev router : Router ℕ
router = alias (route (register new "openai" 7) "fast" fast) "small" "xai/grok-4"

abbrev request : Fields
request = field "model" 10 (text "route/fast" 10) (field "temperature" 11 (number "1") end)

expand_route-members_example :
    (e : Value) × ((expand_route plain router (object request) ≡ ok e)
      × (((key : String) → get_field e key ≡ member_of fast request key)
          × (expand_route plain router e ≡ ok e)))
unfolding get llmshim.Common.Map.insert
expand_route-members_example =
    expand_route-members plain router request "fast" 10 fast refl refl refl

abbrev no_rows : String → Option (String × String)
no_rows requested = none

abbrev no_aliases : (other canonical : String) → Bool
no_aliases other canonical = false

resolve_key-route_example :
    resolve_key plain none no_rows no_aliases router "route/fast"
    ≡ resolve_key plain none no_rows no_aliases router "openai/gpt-5"
unfolding get llmshim.Common.Map.insert
resolve_key-route_example =
    resolve_key-route plain router none no_rows no_aliases "fast" fast refl refl

resolved : resolve plain none no_rows no_aliases router "route/fast" ≡ ok (7, "gpt-5")
unfolding resolve route_target parse_model llmshim.Router.get_provider get llmshim.Common.Map.insert
resolved = refl

of_alias : resolve_key plain none no_rows no_aliases router "small" ≡ ok ("xai", "grok-4")
unfolding resolve_key route_target parse_model get llmshim.Common.Map.insert
of_alias = refl

inferred : parse_model plain "claude-4" [] ≡ ok ("anthropic", "claude-4")
unfolding parse_model
inferred = refl
