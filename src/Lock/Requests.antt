-- ===== src/Lock/Requests.antt =====
-- src/handlers/session_lock.rs: the requests of the clients.
use minde.Base.{
  ℕ, ◌≡◌, List, [], ◌∷◌, ◌++◌, Option, none, some, Bool, true, false, not, ◌&&◌, ◌||◌, ◌==◌,
  if◌then◌else◌,
}
use minde.Lock.{
  reset, Clients, same, is_some, owner_alive, Pointer, Touch, finished_event, invalid_unlock,
  duplicate_output, session_locked, session_lock_confirmed, on_session_unlock, redraw, lock_redraw,
  Session, say, drop_pending,
}
use minde.Lock.Focus.{enforce_lock_focus}

abbrev pub released : Option Pointer → Option Pointer
released none = none
released (some p) = some (record { focus = none; grabbed = false })

abbrev pub cancelled : Option Touch → Option Touch
cancelled none = none
cancelled (some t) = some (record { points = []; grabbed = false })

-- The new owner is taken.
unfoldable pub enter : Clients → ℕ → Session → Session
unfolding drop_pending
enter c lock s =
    let dropped = drop_pending s in
    record dropped {
      session_lock = record dropped.session_lock {
        owner = some lock;
        owner_client = c.client lock;
        pending = some lock;
        presentation = reset dropped.session_lock.presentation;
      };
      lock_surfaces = [];
      locked = true;
      absolute_motion = none;
      messages = dropped.messages ++ session_locked true ∷ [];
      key_repeat = none;
    }

-- The desktop loses the focus, the pointer and the touch points.
unfoldable pub take_lock : Clients → ℕ → Session → Session
unfolding enter enforce_lock_focus
take_lock c lock s =
    let focused = enforce_lock_focus c (enter c lock s) in
    record focused {
      text_input_focus = none;
      shortcuts_inhibitor = none;
      pointer = released focused.pointer;
      touch = cancelled focused.touch;
      messages = focused.messages ++ lock_redraw ∷ redraw ∷ [];
    }

-- `SessionLockHandler::lock`: the confirmation that is not kept is dropped.
unfoldable pub lock_session : Clients → ℕ → Session → Session
unfolding take_lock owner_alive
lock_session c lock s =
    if owner_alive c s.session_lock.owner
    then say (finished_event lock) s
    else if is_some (c.client lock) && same (c.client lock) s.session_lock.owner_client
    then say (finished_event lock) s
    else take_lock c lock s

-- `SessionLockHandler::unlock`.
unfoldable pub unlock : Session → Session
unfolding drop_pending
unlock s =
    let dropped = drop_pending (say (session_lock_confirmed false) s) in
    record dropped {
      session_lock = record dropped.session_lock {
        owner = none;
        owner_client = none;
        confirmed = false;
      };
      lock_surfaces = [];
      locked = false;
      absolute_motion = none;
      keyboard = elim dropped.keyboard [
        | none ↦ none
        | some k ↦ some (record { focus = dropped.focused_window; grabbed = false })
      ];
      text_input_focus = dropped.focused_window;
      messages = dropped.messages ++ redraw ∷ session_locked false ∷ on_session_unlock ∷ [];
    }

-- `SessionLockHandler::new_surface`.
unfoldable pub new_surface : Clients → ℕ → ℕ → Session → Session
unfolding enforce_lock_focus
new_surface c surface wl_output s = elim (c.output_of wl_output) [
  | none ↦ s
  | some output ↦ say redraw (
      enforce_lock_focus c (record s { lock_surfaces = s.lock_surfaces ++ (output, surface) ∷ [] }))
]

-- The requests of `ext_session_lock_v1`; the surface of `get_lock_surface` comes with its output.
pub data LockRequest : Type 0 where
  destroy unlock_and_destroy : LockRequest
  get_lock_surface : ℕ → ℕ → LockRequest

-- What Smithay's own dispatch of a request calls back.
pub data Callback : Type 0 where
  calls_unlock calls_nothing : Callback
  calls_new_surface : ℕ → ℕ → Callback

-- Smithay's `SessionLockState`, which calls `unlock` for no request but that to unlock.
pub record Smithay : Type 0 where
  pub request : ℕ → LockRequest → Callback
  pub unlocks :
      (lock : ℕ) (r : LockRequest) → request lock r ≡ calls_unlock → r ≡ unlock_and_destroy

unfoldable pub delegate : Clients → Callback → Session → Session
unfolding unlock new_surface
delegate c calls_unlock s = unlock s
delegate c calls_nothing s = s
delegate c (calls_new_surface surface wl_output) s = new_surface c surface wl_output s

pub has_surface : List (ℕ × ℕ) → Option ℕ → Bool
has_surface surfaces none = false
has_surface [] (some output) = false
has_surface ((o, surface) ∷ rest) (some output) =
    let later = has_surface rest (some output) in if o == output then true else later

abbrev pub owns_lock : ℕ → Session → Bool
owns_lock lock s = s.locked && same s.session_lock.owner (some lock)

-- `dispatch_lock_request`.
unfoldable pub dispatch_lock_request : Smithay → Clients → ℕ → LockRequest → Session → Session
unfolding has_surface delegate
dispatch_lock_request smithay c lock unlock_and_destroy s =
    if not (owns_lock lock s) || is_some s.session_lock.pending
    then say (invalid_unlock lock) s
    else delegate c (smithay.request lock unlock_and_destroy) s
dispatch_lock_request smithay c lock (get_lock_surface surface wl_output) s =
    if not (owns_lock lock s)
    then s
    else if has_surface s.lock_surfaces (c.output_of wl_output)
    then say (duplicate_output lock) s
    else delegate c (smithay.request lock (get_lock_surface surface wl_output)) s
dispatch_lock_request smithay c lock destroy s = delegate c (smithay.request lock destroy) s
