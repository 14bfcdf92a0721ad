-- ===== src/Router.antt =====
-- src/router.rs: from the name of a model to a provider and its model. The catalog, lower case and
-- the text of `{:?}` are parameters; a provider is whatever is registered.
pub mod Routes
mod Examples
use llmshim.Common.{
  ℕ, Bool, true, false, ◌||◌, String, Option, none, some, List, [], ◌∷◌, map, eqb, if◌then◌else◌,
  ◌<>◌, string_key, ◌==◌, ◌>>=◌,
}
use llmshim.Common.Map.{Map, get, insert}
use llmshim.Error.{ShimError, unknown_provider, provider_error, Result, ok, err}
use llmshim.Json.{
  Value, text, object, Fields, end, field, find_field, get_field, as_str, set_field, cloned,
  cloned_fields,
}
use Prim.Native.Char.{Char, code}
use Prim.Native.String.{len, slice}
use Prim.Native.String
use package.text.Mathlib.Text.{starts_with}

-- src/config.rs
pub record Route : Type 0 where
  pub model : String
  pub settings : Fields

pub record Router (P : Type 0) : Type 0 where
  pub providers : Map String P
  pub aliases : Map String String
  pub routes : Map String Route

abbrev pub new : {P : Type 0} → Router P
new = record { providers = []; aliases = []; routes = [] }

abbrev pub register : {P : Type 0} → Router P → String → P → Router P
register r key provider = record r { providers = insert r.providers key provider }

abbrev pub alias : {P : Type 0} → Router P → (from to : String) → Router P
alias r from to = record r { aliases = insert r.aliases from to }

abbrev pub route : {P : Type 0} → Router P → String → Route → Router P
route r name target = record r { routes = insert r.routes name target }

abbrev pub route_prefix : String
route_prefix = "route/"

-- str::strip_prefix
abbrev pub strip_prefix : String → String → Option String
strip_prefix s prefix = if starts_with s prefix then some (slice s (len prefix) (len s)) else none

-- str::split_once('/'), with what is before it so far.
abbrev pub beside_first : Char → Option (String × String) → Option (String × String)
beside_first c none = none
beside_first c (some (a, b)) = some (String.◌∷◌ c a, b)

abbrev pub split_slash : String → Option (String × String)
split_slash String.[] = none
split_slash (String.◌∷◌ c s) =
    let rest = beside_first c (split_slash s) in if eqb (code c) 47 then some ("", s) else rest

abbrev pub unwrap_or : Option String → String → String
unwrap_or (some s) other = s
unwrap_or none other = other

abbrev pub names_of : {V : Type 0} → Map String V → List String
names_of [] = []
names_of ((name, v) ∷ rest) = name ∷ names_of rest

-- The settings that the request does not carry.
abbrev pub is_set : Option Value → Bool
is_set (some v) = true
is_set none = false

unfoldable pub apply_settings : (settings expanded : Fields) → Fields
apply_settings end expanded = expanded
apply_settings (field key c v settings) expanded = apply_settings settings (
    if key == "model" || is_set (find_field expanded key)
    then expanded
    else set_field expanded key (len key) (cloned v))

abbrev pub expanded_with : Route → Fields → Value
expanded_with target fs = object (
    set_field (apply_settings target.settings (cloned_fields fs)) "model" 5
      (text target.model (len target.model)))

-- The request as it is, or expanded; only an object has a model.
abbrev pub expand_to : (request : Value) → Result (Option Route) → Result Value
expand_to request (err e) = err e
expand_to request (ok none) = ok request
expand_to (object fs) (ok (some target)) = ok (expanded_with target fs)
expand_to request (ok (some target)) = ok request

-- The row of the catalog counts where the name has no provider, or that of the row, or an
-- alias of it.
module _ (is_provider_alias : (alias canonical : String) → Bool) where
  abbrev pub names_row : Option (String × String) → (provider : String) → Bool
  names_row none provider = true
  names_row (some (prefix, rest)) provider = prefix == provider || is_provider_alias prefix provider

  abbrev pub filtered : (requested : String) → Option (String × String) → Option (String × String)
  filtered requested none = none
  filtered requested (some (provider, name)) =
      if names_row (split_slash requested) provider then some (provider, name) else none

-- What the standard library says of texts: `to_lowercase`, and `{:?}` of a text and of a list.
pub record Texts : Type 0 where
  pub to_lowercase : String → String
  pub debug : String → String
  pub debug_list : List String → String

module _ (t : Texts) where
  abbrev pub infer_provider : (resolved lower : String) → Result (String × String)
  infer_provider resolved lower =
      if starts_with lower "gpt"
        || (starts_with lower "o1" || (starts_with lower "o3" || starts_with lower "o4"))
      then ok ("openai", resolved)
      else if lower == "qwen-3.8-27b"
      then ok ("cerebras", resolved)
      else if starts_with lower "claude"
      then ok ("anthropic", resolved)
      else if starts_with lower "gemini"
      then ok ("gemini", resolved)
      else if starts_with lower "grok"
      then ok ("xai", resolved)
      else err (unknown_provider resolved)

  abbrev pub split_or_infer :
      Option (String × String) → (resolved : String) → Result (String × String)
  split_or_infer (some (provider, model)) resolved = ok (provider, model)
  split_or_infer none resolved = infer_provider resolved (t.to_lowercase resolved)

  unfoldable pub parse_model : (model : String) → Map String String → Result (String × String)
  unfolding get
  parse_model model aliases =
      let resolved = unwrap_or (get aliases model) model in
      split_or_infer (split_slash resolved) resolved

  abbrev pub unknown_route : (name : String) → List String → ShimError
  unknown_route name configured =
      provider_error 400
        ("unknown named route: "
          <> t.debug name
          <> " (configured: "
          <> t.debug_list configured
          <> ")")
        none

  abbrev pub chained_route : (name : String) → ShimError
  chained_route name =
      provider_error 400
        ("named route " <> t.debug name <> " targets another route; routes do not chain") none

  module _ {P : Type 0} where
    abbrev pub route_found : Router P → (name : String) → Option Route → Result (Option Route)
    route_found r name none = err (unknown_route name (names_of r.routes))
    route_found r name (some target) =
        if starts_with target.model route_prefix then err (chained_route name) else ok (some target)

    abbrev pub route_named : Router P → Option String → Result (Option Route)
    route_named r none = ok none
    route_named r (some name) = route_found r name (get r.routes name)

    unfoldable pub route_target : Router P → (model : String) → Result (Option Route)
    unfolding get
    route_target r model = route_named r (strip_prefix model route_prefix)

    abbrev pub expand_named : Router P → (request : Value) → (model : Option String) → Result Value
    expand_named r request none = ok request
    expand_named r request (some model) = expand_to request (route_target r model)

    unfoldable pub expand_route : Router P → (request : Value) → Result Value
    unfolding route_target
    expand_route r request = expand_named r request (get_field request "model" >>= as_str)

    abbrev pub found_provider : (key : String) → Option P → Result P
    found_provider key (some p) = ok p
    found_provider key none = err (unknown_provider key)

    unfoldable pub get_provider : Router P → (key : String) → Result P
    unfolding get
    get_provider r key = found_provider key (get r.providers key)

    module _ (catalog_error : Option String) (catalog : String → Option (String × String))
        (is_provider_alias : (alias canonical : String) → Bool) where
      abbrev pub row_or_parsed :
          Router P → (model : String) → Option (String × String) → Result (String × String)
      row_or_parsed r model (some row) = ok row
      row_or_parsed r model none = parse_model model r.aliases

      abbrev pub resolve_in_catalog :
          Router P → (model : String) → Option String → Result (String × String)
      resolve_in_catalog r model (some error) =
          err (provider_error 400 ("invalid model catalog configuration: " <> error) none)
      resolve_in_catalog r model none =
          let requested = unwrap_or (get r.aliases model) model in
          row_or_parsed r model (filtered is_provider_alias requested (catalog requested))

      abbrev pub resolve_routed :
          Router P → (model : String) → Result (Option Route) → Result (String × String)
      resolve_routed r model (err e) = err e
      resolve_routed r model (ok none) = resolve_in_catalog r model catalog_error
      resolve_routed r model (ok (some target)) = resolve_in_catalog r target.model catalog_error

      unfoldable pub resolve_key : Router P → (model : String) → Result (String × String)
      unfolding get parse_model route_target
      resolve_key r model = resolve_routed r model (route_target r model)

      abbrev pub resolve_with : Router P → Result (String × String) → Result (P × String)
      resolve_with r (err e) = err e
      resolve_with r (ok (key, model)) = elim (get_provider r key) [
        | ok p ↦ ok (p, model)
        | err e ↦ err e
      ]

      unfoldable pub resolve : Router P → (model : String) → Result (P × String)
      unfolding resolve_key get_provider
      resolve r model = resolve_with r (resolve_key r model)
