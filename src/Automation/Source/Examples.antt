-- ===== src/Automation/Source/Examples.antt =====
-- Runs of the drag-and-drop source of src/automation_dnd.rs.
use minde.Base.{◌≡◌, refl, List, [], ◌∷◌, some, false}
use minde.Automation.{drop_text, accepted}
use minde.Automation.Results.{new_results, record_result, get}
use minde.Automation.Source.{
  new_source, copy, Call, choose_action, drop_performed, cancel, finished, handle_all,
}
use minde.Automation.Source.Terminal.{with_verdict, handle_all-verdict}

-- The unit test of the source: a late cancellation changes nothing.
abbrev dragged : List Call
dragged = choose_action copy ∷ drop_performed ∷ finished ∷ cancel ∷ []

dragged_accepts :
    get (handle_all (new_source [] [] drop_text 1) (new_results 4) dragged).1 1
    ≡ some (record { token = 1; operation = drop_text; status = accepted })
unfolding get handle_all new_source new_results record_result
dragged_accepts = refl

handle_all-verdict_example :
    let s = new_source [] [] drop_text 1 in
    ((handle_all s (new_results 4) dragged).1 ≡ with_verdict s (new_results 4) (some accepted))
    × ((handle_all s (new_results 4) dragged).0.alive ≡ false)
handle_all-verdict_example = handle_all-verdict [] [] drop_text 1 (new_results 4) dragged
