-- ===== src/SchemaBudget/Examples.antt =====
-- src/schema/budget.rs: a request with one tool, whose schema has two members.
use llmshim.Common.{◌&&◌, true, leb, if◌then◌else◌, some, none, List, [], ◌∷◌, ◌≡◌, refl}
use llmshim.Json.{Value, text, boolean, array, object, nil, cons, end, field, total, one}
use llmshim.SchemaBudget.{
  measure, with_limits, default_limits, max_measure_nodes, max_measure_literal_bytes,
  max_measure_owned_bytes,
}
use llmshim.SchemaBudget.Measure.{own_literal, own_bytes, measure-total}
use llmshim.SchemaBudget.Reservations.{IsWithin}
use llmshim.SchemaBudget.Within.{
  Call, retains, validates, prompts, requests, run, run-with_limits-IsWithin,
}

abbrev schema : Value
schema = object (field "type" 4 (text "object" 6) (field "strict" 6 (boolean true) end))

abbrev request : Value
request = object (
    field "tools" 5
      (array 1
        (cons (object (field "function" 8 (object (field "parameters" 10 schema end)) end)) nil))
      end)

measure-total_example : measure schema ≡ (
    if leb (total one schema) max_measure_nodes
      && (leb (total own_literal schema) max_measure_literal_bytes
          && leb (total own_bytes schema) max_measure_owned_bytes)
    then some (record {
      nodes = total one schema;
      literal_bytes = total own_literal schema;
      owned_bytes = total own_bytes schema;
    })
    else none)
measure-total_example = measure-total schema

measured : measure schema ≡ some (record { nodes = 3; literal_bytes = 16; owned_bytes = 880 })
unfolding measure total
measured = refl

abbrev calls : List Call
calls = requests request ∷ validates schema ∷ prompts schema ∷ retains schema ∷ []

run-with_limits-IsWithin_example : IsWithin default_limits (run (with_limits default_limits) calls)
run-with_limits-IsWithin_example = run-with_limits-IsWithin default_limits calls
