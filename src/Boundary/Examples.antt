-- ===== src/Boundary/Examples.antt =====
-- src/proxy/lifetime.rs: a stream that is cut in an event.
use llmshim.Common.{ℕ, List, ◌∷◌, ◌≡◌, false}
use mathlib.Core.List.{[]}
use llmshim.Boundary.{new, observe, is_safe}
use llmshim.Boundary.Lines.{normalize, ends_blank, is_safe-observe}

abbrev text : List ℕ
text = 100 ∷ 58 ∷ 13 ∷ 10 ∷ 13 ∷ []

is_safe-observe_example : is_safe (observe new text) ≡ ends_blank (normalize false text)
is_safe-observe_example = is_safe-observe text
