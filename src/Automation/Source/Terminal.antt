-- ===== src/Automation/Source/Terminal.antt =====
-- src/automation_dnd.rs: a drag has one outcome, which its first terminal call decides.
use minde.Base.{
  ℕ, ◌≡◌, refl, List, [], ◌∷◌, Option, none, some, Bool, true, false, ◌&&◌, if◌then◌else◌, arith,
}
use minde.Automation.{AutomationOperation, AutomationStatus, cancelled, accepted, rejected}
use minde.Automation.Results.{AutomationResults, record_result}
use minde.Automation.Source.{
  DndAction, AutomationDndSource, new_source, none_action, is_copy, Call, choose_action,
  drop_performed, cancel, finished, complete, handle_all,
}

-- The outcome of a drag: a cancellation before any end of it, or, at its end, whether a drop was
-- performed while the action then selected is a copy.
abbrev pub verdict : DndAction → Bool → List Call → Option AutomationStatus
verdict action dropped [] = none
verdict action dropped (choose_action a ∷ cs) = verdict a dropped cs
verdict action dropped (drop_performed ∷ cs) = verdict action true cs
verdict action dropped (cancel ∷ cs) = some cancelled
verdict action dropped (finished ∷ cs) =
    some (if dropped && is_copy action then accepted else rejected)

abbrev pub with_verdict :
    AutomationDndSource → AutomationResults → Option AutomationStatus → AutomationResults
with_verdict s results none = results
with_verdict s results (some status) =
    record_result results (record { token = s.token; operation = s.operation; status = status })

-- After a terminal call nothing more is recorded.
terminal_handle_all :
    (cs : List Call) (s : AutomationDndSource) (results : AutomationResults)
    → s.state.terminal ≡ true
    → s.alive ≡ false
    → ((handle_all s results cs).1 ≡ results) × ((handle_all s results cs).0.alive ≡ false)
unfolding handle_all
terminal_handle_all [] s results e a = (refl, a)
terminal_handle_all (choose_action x ∷ cs) s results e a = terminal_handle_all cs _ results e a
terminal_handle_all (drop_performed ∷ cs) s results e a = terminal_handle_all cs _ results e a
terminal_handle_all (cancel ∷ cs) s results e a =
    ground (arith, terminal_handle_all cs s results e a)
terminal_handle_all (finished ∷ cs) s results e a =
    ground (arith, terminal_handle_all cs s results e a)

abbrev pub is_pending {ℓ} : {A : Type ℓ} → Option A → Bool
is_pending none = true
is_pending (some a) = false

complete_open :
    (s : AutomationDndSource) (results : AutomationResults) (status : AutomationStatus)
    → s.state.terminal ≡ false
    → complete s results status ≡ (
      record s { state = record s.state { terminal = true }; alive = false },
      with_verdict s results (some status),
    )
unfolding complete
complete_open s results status e = ground arith

completed :
    (cs : List Call) (s : AutomationDndSource) (results : AutomationResults)
    (status : AutomationStatus)
    → s.state.terminal ≡ false
    → let r = complete s results status in
      ((handle_all r.0 r.1 cs).1 ≡ with_verdict s results (some status))
      × ((handle_all r.0 r.1 cs).0.alive ≡ false)
completed cs s results status e =
    rw (complete_open s results status e) (terminal_handle_all cs _ _ refl refl)

open_handle_all :
    (cs : List Call) (s : AutomationDndSource) (results : AutomationResults)
    → s.state.terminal ≡ false
    → s.alive ≡ true
    → let v = verdict s.state.selected_action s.state.dropped cs in
      ((handle_all s results cs).1 ≡ with_verdict s results v)
      × ((handle_all s results cs).0.alive ≡ is_pending v)
unfolding handle_all
open_handle_all [] s results e a = (refl, a)
open_handle_all (choose_action x ∷ cs) s results e a =
    open_handle_all cs (record s { state = record s.state { selected_action = x } }) results e a
open_handle_all (drop_performed ∷ cs) s results e a =
    open_handle_all cs (record s { state = record s.state { dropped = true } }) results e a
open_handle_all (cancel ∷ cs) s results e a = completed cs s results cancelled e
open_handle_all (finished ∷ cs) s results e a = completed cs s results _ e

-- Whatever calls a drag makes, exactly the outcome of its first terminal call is recorded, under
-- the token and operation of its source, and the source is alive exactly as long as there is none.
pub handle_all-verdict :
    (payload : List ℕ) (mime_types : List (List ℕ)) (operation : AutomationOperation) (token : ℕ)
    (results : AutomationResults) (cs : List Call)
    → let s = new_source payload mime_types operation token in
      let v = verdict none_action false cs in
      ((handle_all s results cs).1 ≡ with_verdict s results v)
      × ((handle_all s results cs).0.alive ≡ is_pending v)
unfolding new_source
handle_all-verdict payload mime_types operation token results cs =
    open_handle_all cs (new_source payload mime_types operation token) results refl refl
