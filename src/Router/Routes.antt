-- ===== src/Router/Routes.antt =====
-- src/router.rs: named routes, as a client that asks sees them.
use llmshim.Common.{
  ℕ, Bool, false, ◌≡◌, ◌∙◌, sym, ap, refl, String, Option, none, some, arith, if◌then◌else◌, ◌<>◌,
  string_key, ◌==◌, ◌>>=◌,
}
use llmshim.Common.Map.{get}
use llmshim.Error.{ok, err}
use llmshim.Json.{
  Value, text, object, Fields, end, field, find_field, get_field, as_str, set_field, cloned,
  cloned_fields,
}
use Prim.Native.String.{len, slice}
use package.text.Mathlib.Text.{starts_with}
use package.text.Mathlib.TextPositions.{starts_with-append, slice-append_right, len-append}
use llmshim.Router.{
  Route, Router, route_prefix, chained_route, strip_prefix, Texts, route_found, route_named,
  route_target, apply_settings, expanded_with, expand_to, expand_named, expand_route, resolve_key,
  resolve_routed,
}

find-set_field :
    (fs : Fields) (k : String) (c : ℕ) (v : Value) (j : String)
    → find_field (set_field fs k c v) j ≡ (if k == j then some v else find_field fs j)
find-set_field end k c v j = refl
find-set_field (field k' c' w fs) k c v j = ground (
  arith,
  find-set_field fs k c v j,
  string_key.same_key_iff k' k,
  string_key.same_key_iff k' j,
  string_key.same_key_iff k j,
)

abbrev pub clone_of : Option Value → Option Value
clone_of none = none
clone_of (some v) = some (cloned v)

find-cloned :
    (fs : Fields) (k : String) → find_field (cloned_fields fs) k ≡ clone_of (find_field fs k)
unfolding cloned
find-cloned end k = refl
find-cloned (field k' c v fs) k = ground (arith, find-cloned fs k)

abbrev pub or_else : Option Value → Option Value → Option Value
or_else (some v) other = some v
or_else none other = other

-- A setting counts where the request has none.
find-apply_settings :
    (settings fs : Fields) (k : String)
    → (k == "model") ≡ false
    → find_field (apply_settings settings fs) k
      ≡ or_else (find_field fs k) (clone_of (find_field settings k))
unfolding apply_settings
find-apply_settings end fs k h = ground arith
find-apply_settings (field k' c v settings) fs k h = ground (
  arith,
  h,
  find-apply_settings settings fs k h,
  find-apply_settings settings (set_field fs k' (len k') (cloned v)) k h,
  find-set_field fs k' (len k') (cloned v) k,
  string_key.same_key_iff k' k,
  string_key.same_key_iff k "model",
)

-- What a member of the expanded request is.
abbrev pub member_of : Route → Fields → (key : String) → Option Value
member_of target fs key =
    if key == "model"
    then some (text target.model (len target.model))
    else clone_of (or_else (find_field fs key) (find_field target.settings key))

clone-or_else : (a b : Option Value) → clone_of (or_else a b) ≡ or_else (clone_of a) (clone_of b)
clone-or_else none b = refl
clone-or_else (some v) b = refl

find-expanded_with :
    (target : Route) (fs : Fields) (key : String)
    → get_field (expanded_with target fs) key ≡ member_of target fs key
find-expanded_with target fs key = ground (
  arith,
  find-set_field (apply_settings target.settings (cloned_fields fs)) "model" 5
      (text target.model (len target.model)) key,
  find-apply_settings target.settings (cloned_fields fs) key,
  find-cloned fs key,
  clone-or_else (find_field fs key) (find_field target.settings key),
  string_key.same_key_iff key "model",
  string_key.same_key_iff "model" key,
)

strip_prefix-append : (name : String) → strip_prefix (route_prefix <> name) route_prefix ≡ some name
strip_prefix-append name =
    rw (starts_with-append route_prefix name, len-append route_prefix name)
      (ap some (slice-append_right route_prefix name))

module _ (t : Texts) {P : Type 0} (r : Router P) where
  -- A model that is no route is left alone.
  route_target-plain :
      (model : String) → starts_with model route_prefix ≡ false → route_target t r model ≡ ok none
  unfolding route_target
  route_target-plain model h =
      ap
        (λ b.
          route_named t r (if b then some (slice model (len route_prefix) (len model)) else none))
        h

  route_target-route :
      (name : String) (target : Route)
      → get r.routes name ≡ some target
      → starts_with target.model route_prefix ≡ false
      → route_target t r (route_prefix <> name) ≡ ok (some target)
  unfolding route_target
  route_target-route name target h k =
      ap (route_named t r) (strip_prefix-append name)
      ∙ ap (route_found t r name) h
      ∙ ap (λ b. if b then err (chained_route t name) else ok (some target)) k

  -- A request whose model names a configured route that does not target another route is
  -- expanded to a value in which the model is that of the route, and every other member is that
  -- of the request, or, where the request has none, the setting of the route; and expanding that
  -- value again changes nothing.
  pub expand_route-members :
      (fs : Fields) (name : String) (capacity : ℕ) (target : Route)
      → find_field fs "model" ≡ some (text (route_prefix <> name) capacity)
      → get r.routes name ≡ some target
      → starts_with target.model route_prefix ≡ false
      → (e : Value) × ((expand_route t r (object fs) ≡ ok e)
          × (((key : String) → get_field e key ≡ member_of target fs key)
              × (expand_route t r e ≡ ok e)))
  unfolding expand_route
  expand_route-members fs name capacity target m h k = (
    expanded_with target fs,
    (
      ap (λ o. expand_named t r (object fs) (o >>= as_str)) m
          ∙ ap (expand_to (object fs)) (route_target-route name target h k),
      (
        (λ key. find-expanded_with target fs key),
        ap (λ o. expand_named t r (expanded_with target fs) (o >>= as_str))
              (find-expanded_with target fs "model")
            ∙ ap (expand_to (expanded_with target fs)) (route_target-plain target.model k),
      ),
    ),
  )

  module _ (catalog_error : Option String) (catalog : String → Option (String × String))
      (is_provider_alias : (alias canonical : String) → Bool) where
    -- The name of a configured route that does not target another route resolves to what its
    -- model resolves to by itself: the same provider and model, or the same error, whatever the
    -- catalog holds.
    pub resolve_key-route :
        (name : String) (target : Route)
        → get r.routes name ≡ some target
        → starts_with target.model route_prefix ≡ false
        → resolve_key t catalog_error catalog is_provider_alias r (route_prefix <> name)
          ≡ resolve_key t catalog_error catalog is_provider_alias r target.model
    unfolding resolve_key
    resolve_key-route name target h k =
        ap (resolve_routed t catalog_error catalog is_provider_alias r (route_prefix <> name))
          (route_target-route name target h k)
        ∙ sym (
            ap (resolve_routed t catalog_error catalog is_provider_alias r target.model)
              (route_target-plain target.model k))
