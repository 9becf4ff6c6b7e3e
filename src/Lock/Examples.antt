-- ===== src/Lock/Examples.antt =====
-- Runs of the session lock of src/handlers/session_lock.rs.
use minde.Base.{ℕ, ◌≡◌, refl, [], ◌∷◌, none, some, true, false, ◌==◌, if◌then◌else◌, arith}
use minde.Lock.{
  contains, owner_alive, add_presented, ready, drop_pending, Clients, Keyboard, locked_event,
  session_locked, session_lock_confirmed, on_session_lock, redraw, lock_redraw, Session,
}
use minde.Lock.Focus.{surface_listed, valid, find_valid, chosen, enforce_lock_focus}
use minde.Lock.Requests.{
  enter, take_lock, lock_session, unlock, delegate, LockRequest, unlock_and_destroy,
  get_lock_surface, destroy, Smithay, Callback, calls_unlock, calls_nothing, calls_new_surface,
  dispatch_lock_request,
}
use minde.Lock.Confirm.{
  winit, lock_confirmation_outputs, lock_frame_presented, confirm, confirm_ready, confirm_pending,
  maybe_confirm_lock,
}
use minde.Lock.Frames.{
  desktop, System, render_surface, acknowledge, flip, queue_frame, frame_finish, after_request,
  dispatch_request, locks, requests, renders, finishes, confirms, Reach, here, later,
}
use minde.Lock.Guarantee.{Fresh, Outcome, Reach-Outcome}
use minde.Lock.Unlock.{Unlocks, Reach-Unlocks}
use minde.Lock.Surfaces.{Enforced, enforce_lock_focus-Enforced}
use minde.Lock.Progress.{present_all, maybe_confirm_lock-present_all}

-- Client 7 has the lock object 1 and the surface 20; client 8 the lock object 2.
abbrev clients : Clients
clients = record {
  destroyed = [];
  client = λ lock. if lock == 1 then some 7 else some 8;
  surface_client = λ surface. some 7;
  surface_alive = λ surface. true;
  output_of = λ wl_output. some wl_output;
}

abbrev call_back : ℕ → LockRequest → Callback
call_back lock destroy = calls_nothing
call_back lock unlock_and_destroy = calls_unlock
call_back lock (get_lock_surface surface wl_output) = calls_new_surface surface wl_output

only_unlocks :
    (lock : ℕ) (r : LockRequest) → call_back lock r ≡ calls_unlock → r ≡ unlock_and_destroy
only_unlocks lock destroy e = cc
only_unlocks lock unlock_and_destroy e = refl
only_unlocks lock (get_lock_surface surface wl_output) e = cc

abbrev smithay : Smithay
smithay = record { request = call_back; unlocks = only_unlocks }

abbrev desktop_session : Session
desktop_session = record {
  session_lock = record {
    owner = none;
    owner_client = none;
    pending = none;
    confirmed = false;
    presentation = record { generation = 0; presented = [] };
  };
  lock_surfaces = [];
  locked = false;
  keyboard = some (record { focus = some 5; grabbed = true });
  pointer = none;
  touch = none;
  text_input_focus = some 5;
  shortcuts_inhibitor = none;
  focused_window = some 5;
  key_repeat = none;
  absolute_motion = none;
  messages = [];
}

abbrev started : System
started = record {
  session = desktop_session;
  clients = clients;
  flips = λ o. [];
  screen = λ o. desktop;
}

started-Fresh : Fresh started
started-Fresh = record {
  unlocked = refl;
  no_pending = refl;
  no_owner = refl;
  presentation = refl;
  no_flips = λ o. refl;
}

abbrev step_lock : System → System
step_lock a = record a { session = lock_session a.clients 1 a.session }

abbrev step_confirm : System → System
step_confirm a = record a { session = maybe_confirm_lock a.clients (winit (3 ∷ [])) a.session }

-- The lock is taken, a frame is drawn on output 3 and shown, and the lock is confirmed.
abbrev shown : System
shown = frame_finish 3 (queue_frame 3 (step_lock started))

shown-Reach : Reach started 3 shown
shown-Reach = later (later (later here (locks 1 refl)) (renders 3 refl)) (finishes 3 refl)

abbrev settled : System
settled = step_confirm shown

settled-Reach : Reach started 4 settled
settled-Reach = later shown-Reach (confirms (winit (3 ∷ [])) refl)

abbrev opened_again : System
opened_again = dispatch_request smithay 1 unlock_and_destroy settled

settled_locked : settled.session.locked ≡ true
unfolding lock_session take_lock enter drop_pending enforce_lock_focus chosen valid find_valid
    surface_listed contains owner_alive queue_frame render_surface frame_finish flip acknowledge
    lock_frame_presented add_presented maybe_confirm_lock confirm_pending confirm_ready confirm
    ready lock_confirmation_outputs
settled_locked = refl

settled_messages :
    settled.session.messages
    ≡ session_locked true
      ∷ lock_redraw
      ∷ redraw
      ∷ locked_event 1
      ∷ session_lock_confirmed true
      ∷ on_session_lock
      ∷ []
unfolding lock_session take_lock enter drop_pending enforce_lock_focus chosen valid find_valid
    surface_listed contains owner_alive queue_frame render_surface frame_finish flip acknowledge
    lock_frame_presented add_presented maybe_confirm_lock confirm_pending confirm_ready confirm
    ready lock_confirmation_outputs
settled_messages = refl

opened_unlocked : opened_again.session.locked ≡ false
unfolding lock_session take_lock enter drop_pending enforce_lock_focus chosen valid find_valid
    surface_listed contains owner_alive queue_frame render_surface frame_finish flip acknowledge
    lock_frame_presented add_presented maybe_confirm_lock confirm_pending confirm_ready confirm
    ready lock_confirmation_outputs dispatch_request after_request dispatch_lock_request delegate
    unlock
opened_unlocked = refl

-- The other client's lock object cannot open the session.
refused : (dispatch_request smithay 2 unlock_and_destroy settled).session.locked ≡ true
unfolding lock_session take_lock enter drop_pending enforce_lock_focus chosen valid find_valid
    surface_listed contains owner_alive queue_frame render_surface frame_finish flip acknowledge
    lock_frame_presented add_presented maybe_confirm_lock confirm_pending confirm_ready confirm
    ready lock_confirmation_outputs dispatch_request after_request dispatch_lock_request delegate
    unlock
refused = refl

Reach-Outcome_example :
    Outcome shown (winit (3 ∷ [])) (maybe_confirm_lock shown.clients (winit (3 ∷ [])) shown.session)
Reach-Outcome_example =
    Reach-Outcome 3 started shown (winit (3 ∷ [])) (omega arith) started-Fresh shown-Reach

Reach-Unlocks_example : Unlocks settled opened_again
unfolding contains frame_finish queue_frame
Reach-Unlocks_example =
    Reach-Unlocks 4 started settled opened_again started-Fresh settled-Reach
      (requests smithay 1 unlock_and_destroy refl refl) settled_locked opened_unlocked

-- Output 3 has the owner's surface 20; the focus is a window.
abbrev with_surface : Session
with_surface = record desktop_session {
  session_lock = record desktop_session.session_lock { owner = some 1; pending = some 1 };
  lock_surfaces = (3, 20) ∷ [];
  locked = true;
}

enforce_lock_focus-Enforced_example :
    (k : Keyboard) × ((enforce_lock_focus clients with_surface).keyboard ≡ some k)
    × (k.grabbed ≡ false)
    × Enforced clients with_surface (some 5) k.focus
enforce_lock_focus-Enforced_example =
    enforce_lock_focus-Enforced clients with_surface (record { focus = some 5; grabbed = true })
      refl refl

owner_is_alive : owner_alive clients (some 1) ≡ true
unfolding owner_alive contains
owner_is_alive = refl

two_outputs : lock_confirmation_outputs (winit (3 ∷ 4 ∷ [])) ≡ some (3 ∷ 4 ∷ [])
unfolding lock_confirmation_outputs
two_outputs = refl

maybe_confirm_lock-present_all_example :
    maybe_confirm_lock clients (winit (3 ∷ 4 ∷ [])) (present_all (3 ∷ 4 ∷ []) with_surface)
    ≡ confirm 1 (present_all (3 ∷ 4 ∷ []) with_surface)
maybe_confirm_lock-present_all_example =
    maybe_confirm_lock-present_all clients (winit (3 ∷ 4 ∷ [])) 1 (3 ∷ 4 ∷ []) with_surface refl
      owner_is_alive two_outputs
