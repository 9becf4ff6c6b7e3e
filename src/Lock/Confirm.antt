-- ===== src/Lock/Confirm.antt =====
-- src/handlers/session_lock.rs and src/udev.rs: frames are presented, and the lock is confirmed.
use minde.Base.{ℕ, List, [], ◌∷◌, ◌++◌, Option, none, some, Bool, true, ◌&&◌, if◌then◌else◌}
use minde.Lock.{
  reset, add_presented, ready, Clients, owner_alive, locked_event, session_lock_confirmed,
  on_session_lock, redraw, lock_redraw, Session, drop_pending, is_some,
}

-- A connected connector, as far as the lock is concerned.
pub record HeadEntry : Type 0 where
  pub output : ℕ
  pub enabled : Bool
  pub power_on : Bool

pub data Backend : Type 0 where
  udev : Bool → List HeadEntry → Backend
  winit : List ℕ → Backend

pub active_outputs : List HeadEntry → List ℕ
active_outputs [] = []
active_outputs (h ∷ hs) =
    let rest = active_outputs hs in if h.enabled && h.power_on then h.output ∷ rest else rest

-- `lock_confirmation_outputs`, with whether the seat is paused.
unfoldable pub lock_confirmation_outputs : Backend → Option (List ℕ)
unfolding active_outputs
lock_confirmation_outputs (udev paused heads) = if paused then none else some (active_outputs heads)
lock_confirmation_outputs (winit heads) = some heads

unfoldable pub lock_frame_presented : ℕ → ℕ → Session → Session
unfolding add_presented
lock_frame_presented output generation s =
    if is_some s.session_lock.pending
    then record s {
      session_lock = record s.session_lock {
        presentation = add_presented s.session_lock.presentation output generation;
      };
    }
    else s

unfoldable pub invalidate_lock_presentation : Session → Session
invalidate_lock_presentation s =
    if is_some s.session_lock.pending
    then record s {
      session_lock = record s.session_lock { presentation = reset s.session_lock.presentation };
      messages = s.messages ++ lock_redraw ∷ redraw ∷ [];
    }
    else s

-- The pending `SessionLocker` sends `locked`.
abbrev pub send_locked : ℕ → Session → Session
send_locked lock s = record s {
  session_lock = record s.session_lock { pending = none; confirmed = true };
  messages = s.messages ++ locked_event lock ∷ [];
}

abbrev pub tell_scheme : Session → Session
tell_scheme s = record s {
  messages = s.messages ++ session_lock_confirmed true ∷ on_session_lock ∷ [];
}

-- Scheme is told unless it knows from an earlier lock.
unfoldable pub confirm : ℕ → Session → Session
confirm lock s =
    if s.session_lock.confirmed then send_locked lock s else tell_scheme (send_locked lock s)

-- `maybe_confirm_lock` of a pending lock, once its owner is known to be alive.
unfoldable pub confirm_ready : ℕ → Option (List ℕ) → Session → Session
unfolding confirm ready
confirm_ready lock none s = s
confirm_ready lock (some outputs) s =
    if ready s.session_lock.presentation outputs then confirm lock s else s

unfoldable pub confirm_pending : Clients → Backend → Option ℕ → Session → Session
unfolding confirm_ready owner_alive drop_pending lock_confirmation_outputs
confirm_pending c b none s = s
confirm_pending c b (some lock) s =
    if owner_alive c s.session_lock.owner
    then confirm_ready lock (lock_confirmation_outputs b) s
    else drop_pending s

unfoldable pub maybe_confirm_lock : Clients → Backend → Session → Session
unfolding confirm_pending
maybe_confirm_lock c b s = confirm_pending c b s.session_lock.pending s
