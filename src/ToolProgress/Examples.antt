-- ===== src/ToolProgress/Examples.antt =====
-- src/toolcall/progress.rs: a call whose name and arguments arrive in pieces.
use llmshim.Common.{true, false, String, some, List, [], ◌∷◌, ◌≡◌, refl}
use llmshim.ToolProgress.{
  CallView, ArgumentsBefore, ToolCallProgressEvent, started, arguments, ended, ProgressReporter,
  new, updated, contains,
}
use llmshim.ToolProgress.Protocol.{Call, updates, ends, abandons, run, follow, follow-run, events}
use llmshim.ToolProgress.Reader.{read, read-updated}

abbrev call : String → CallView
call text = record {
  key = "a";
  choice = 0;
  index = 0;
  id = "call_1";
  name = "read";
  arguments = text;
}

abbrev calls : List Call
calls =
    updates (call "") false (record { len = 0; kept = true })
    ∷ updates (call "{") true (record { len = 0; kept = true })
    ∷ updates (call "{}") true (record { len = 1; kept = true })
    ∷ ends (call "{}")
    ∷ abandons (call "{}")
    ∷ []

follow-run_example :
    follow (contains [] "a") (run "a" new calls).1
    ≡ some (contains (run "a" new calls).0.open_calls "a")
follow-run_example = follow-run "a" new calls

in_order :
    (run "a" new calls).1
    ≡ (started "read" ∷ arguments "{" (some "{") ∷ arguments "{}" (some "}") ∷ ended ∷ [])
unfolding updated llmshim.ToolProgress.start llmshim.ToolProgress.ended_at
    llmshim.ToolProgress.abandoned_at
in_order = refl

abbrev open_reporter : ProgressReporter
open_reporter = record { open_calls = "a" ∷ [] }

read-updated_example :
    read "{" (events (updated open_reporter (call "{}") true (record { len = 1; kept = true })).1)
    ≡ "{}"
unfolding updated
read-updated_example =
    read-updated open_reporter (call "{}") true (record { len = 1; kept = true }) "{" refl
      (λ _. ("}", (refl, refl)))
