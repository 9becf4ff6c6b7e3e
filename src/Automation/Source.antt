-- ===== src/Automation/Source.antt =====
-- src/automation_dnd.rs: a drag-and-drop source owned by the compositor (`AutomationDndSource`).
-- The source and its clones share one state, and the registry of results.
pub mod Terminal
mod Examples
use minde.Base.{ℕ, List, [], ◌∷◌, Bool, true, false, ◌&&◌, if◌then◌else◌}
use minde.Automation.{
  AutomationOperation, AutomationStatus, AutomationResult, cancelled, accepted, rejected,
}
use minde.Automation.Results.{AutomationResults, record_result}

-- Smithay's `DndAction`.
pub data DndAction : Type 0 where
  none_action copy move ask : DndAction

-- Source.
pub record SourceState : Type 0 where
  pub selected_action : DndAction
  pub dropped : Bool
  pub terminal : Bool

-- The payload and the offered types are fixed when the source is made.
pub record AutomationDndSource : Type 0 where
  pub payload : List ℕ
  pub mime_types : List (List ℕ)
  pub operation : AutomationOperation
  pub token : ℕ
  pub alive : Bool
  pub state : SourceState

unfoldable pub new_source : List ℕ → List (List ℕ) → AutomationOperation → ℕ → AutomationDndSource
new_source payload mime_types operation token = record {
  payload = payload;
  mime_types = mime_types;
  operation = operation;
  token = token;
  alive = true;
  state = record { selected_action = none_action; dropped = false; terminal = false };
}

abbrev pub is_copy : DndAction → Bool
is_copy copy = true
is_copy _ = false

-- `complete`: the first terminal status is recorded, and no other.
unfoldable pub complete :
    AutomationDndSource
    → AutomationResults
    → AutomationStatus
    → AutomationDndSource × AutomationResults
complete s results status = if s.state.terminal then (s, results) else (
  record s { state = record s.state { terminal = true }; alive = false },
  record_result results (record { token = s.token; operation = s.operation; status = status }),
)

-- The calls that Smithay makes during a drag.
pub data Call : Type 0 where
  choose_action : DndAction → Call
  drop_performed cancel finished : Call

unfoldable pub handle :
    AutomationDndSource → AutomationResults → Call → AutomationDndSource × AutomationResults
unfolding complete
handle s results (choose_action action) =
    (record s { state = record s.state { selected_action = action } }, results)
handle s results drop_performed = (record s { state = record s.state { dropped = true } }, results)
handle s results cancel = complete s results cancelled
handle s results finished =
    complete s results
      (if s.state.dropped && is_copy s.state.selected_action then accepted else rejected)

unfoldable pub handle_all :
    AutomationDndSource → AutomationResults → List Call → AutomationDndSource × AutomationResults
unfolding handle
handle_all s results [] = (s, results)
handle_all s results (c ∷ cs) = let (s', results') = handle s results c in handle_all s' results' cs
