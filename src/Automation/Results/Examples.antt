-- ===== src/Automation/Results/Examples.antt =====
-- Runs of the completion history of src/automation_dnd.rs.
use minde.Base.{ℕ, ◌≡◌, ◌≢◌, refl, List, [], ◌∷◌, none, some, take, arith}
use minde.Automation.{
  AutomationResult, drop_files, drop_text, no_target, cancelled, accepted, unsupported_target,
}
use minde.Automation.Results.{
  AutomationResults, new_results, allocate, record_result, get, get_from,
}
use minde.Automation.{pending}
use minde.Automation.Results.Latest.{latest}
use minde.Automation.Results.Tokens.{allocate-get}
use minde.Automation.Results.History.{record_history, record_history_lem, get-record_history}
use mathlib.Core.List.{reverse}

abbrev second_accepted : AutomationResult
second_accepted = record { token = 1; operation = drop_files; status = accepted }

-- The history of the unit test of the source, newest first.
abbrev tested : List AutomationResult
tested =
    record { token = 3; operation = drop_files; status = unsupported_target }
    ∷ second_accepted
    ∷ record { token = 2; operation = drop_files; status = cancelled }
    ∷ record { token = 1; operation = drop_files; status = no_target }
    ∷ []

tested_evicts : get (record_history (new_results 2) tested) 2 ≡ none
unfolding get record_history record_result new_results
tested_evicts = refl

tested_updates : get (record_history (new_results 2) tested) 1 ≡ some second_accepted
unfolding get record_history record_result new_results
tested_updates = refl

record_history_lem_example :
    (record_history (new_results 2) tested).inner ≡ reverse (take 2 (latest tested))
record_history_lem_example = record_history_lem 2 tested

get-record_history_example : get (record_history (new_results 3) tested) 1 ≡ some second_accepted
unfolding get_from
get-record_history_example = get-record_history 3 1 tested (omega arith)

allocate-get_example :
    (token : ℕ) × (s' : AutomationResults) × (allocate (new_results 128) drop_text
      ≡ some (token, s'))
    × (token ≢ 0)
    × (get s' token ≡ some (record { token = token; operation = drop_text; status = pending }))
unfolding new_results
allocate-get_example = allocate-get (new_results 128) drop_text (omega arith) tt (omega arith)
