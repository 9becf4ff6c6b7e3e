-- ===== src/Lock/Frames.antt =====
-- src/udev.rs: what is rendered and presented while the lock changes (`render_surface` and
-- `frame_finish`), together with the requests of src/handlers/session_lock.rs.
use minde.Base.{
  ℕ, suc, ◌≡◌, List, [], ◌∷◌, ◌++◌, Option, none, some, true, ◌==◌, false, if◌then◌else◌,
}
use minde.Lock.{contains, Clients, is_alive, same, Keyboard, Session, say, redraw, lock_surface_for}
use minde.Lock.Focus.{enforce_lock_focus}
use minde.Lock.Requests.{lock_session, LockRequest, Smithay, dispatch_lock_request}
use minde.Lock.Confirm.{
  Backend, lock_frame_presented, invalidate_lock_presentation, maybe_confirm_lock,
}

-- A lock scene is the output's lock surface, or solid black.
pub data Content : Type 0 where
  desktop : Content
  lock_scene : Option ℕ → Content

-- A queued frame, with the part of its `FrameUserData` that the lock reads.
pub record Frame : Type 0 where
  pub content : Content
  pub lock_generation : Option ℕ

-- `render_surface`.
unfoldable pub render_surface : Clients → Session → ℕ → Frame
unfolding lock_surface_for
render_surface c s output =
    if s.locked
    then record {
      content = lock_scene (lock_surface_for c s.lock_surfaces output);
      lock_generation = some s.session_lock.presentation.generation;
    }
    else record { content = desktop; lock_generation = none }

-- The session, the frames that wait for the vblank of each output, and what each output shows.
pub record System : Type 0 where
  pub session : Session
  pub clients : Clients
  pub flips : ℕ → List Frame
  pub screen : ℕ → Content

abbrev pub set_at {ℓ} : {A : Type ℓ} → (ℕ → A) → ℕ → A → ℕ → A
set_at f i x j = if i == j then x else f j

-- A frame that has damage is queued.
unfoldable pub queue_frame : ℕ → System → System
unfolding render_surface
queue_frame output a = record a {
  flips = set_at a.flips output (a.flips output ++ render_surface a.clients a.session output ∷ []);
}

unfoldable pub acknowledge : ℕ → Option ℕ → Session → Session
unfolding lock_frame_presented
acknowledge output none s = s
acknowledge output (some generation) s = lock_frame_presented output generation s

unfoldable pub flip : ℕ → List Frame → System → System
unfolding acknowledge
flip output [] a = a
flip output (f ∷ fs) a = record a {
  session = acknowledge output f.lock_generation a.session;
  flips = set_at a.flips output fs;
  screen = set_at a.screen output f.content;
}

-- `frame_finish`: the oldest queued frame of the output is on the screen.
unfoldable pub frame_finish : ℕ → System → System
unfolding flip
frame_finish output a = flip output (a.flips output) a

abbrev pub tail {ℓ} : {A : Type ℓ} → List A → List A
tail [] = []
tail (x ∷ xs) = xs

-- A flip that never completes.
abbrev pub lose_flip : ℕ → System → System
lose_flip output a = record a { flips = set_at a.flips output (tail (a.flips output)) }

-- `request` of src/handlers/dispatch.rs enforces the focus after each request.
unfoldable pub after_request : Clients → Session → Session
unfolding enforce_lock_focus
after_request c s = if s.locked then enforce_lock_focus c s else s

unfoldable pub dispatch_request : Smithay → ℕ → LockRequest → System → System
unfolding dispatch_lock_request after_request
dispatch_request smithay lock r a = record a {
  session = after_request a.clients (dispatch_lock_request smithay a.clients lock r a.session);
}

abbrev pub without_surface : ℕ → List (ℕ × ℕ) → List (ℕ × ℕ)
without_surface surface [] = []
without_surface surface ((o, lock) ∷ rest) =
    let kept = without_surface surface rest in if lock == surface then kept else (o, lock) ∷ kept

-- A keyboard whose focus is the surface loses its focus and its grab.
abbrev pub left : ℕ → Option Keyboard → Option Keyboard
left surface none = none
left surface (some k) =
    if same k.focus (some surface) then some (record { focus = none; grabbed = false }) else some k

-- The destruction of a surface, before it is dispatched.
unfoldable pub forget_surface : ℕ → Session → Session
forget_surface surface s =
    if s.locked
    then say redraw (record s {
      lock_surfaces = without_surface surface s.lock_surfaces;
      keyboard = left surface s.keyboard;
    })
    else s

-- `wl_surface.destroy`, which leaves the clients `c`.
unfoldable pub dispatch_surface_destroy : ℕ → Clients → System → System
unfolding forget_surface after_request
dispatch_surface_destroy surface c a = record a {
  clients = c;
  session = after_request c (forget_surface surface a.session);
}

-- What was destroyed stays so.
abbrev pub Outlived : Clients → Clients → Type 0
Outlived c c' = (lock : ℕ) → contains lock c.destroyed ≡ true → contains lock c'.destroyed ≡ true

pub data Step (a b : System) : Type 0 where
  locks : (lock : ℕ) → b ≡ record a { session = lock_session a.clients lock a.session } → Step a b
  requests :
      (smithay : Smithay) (lock : ℕ) (r : LockRequest)
      → is_alive a.clients lock ≡ true
      → b ≡ dispatch_request smithay lock r a
      → Step a b
  destroys_surface :
      (surface : ℕ) (c : Clients)
      → Outlived a.clients c
      → b ≡ dispatch_surface_destroy surface c a
      → Step a b
  enforces : b ≡ record a { session = enforce_lock_focus a.clients a.session } → Step a b
  renders : (output : ℕ) → b ≡ queue_frame output a → Step a b
  finishes : (output : ℕ) → b ≡ frame_finish output a → Step a b
  loses : (output : ℕ) → b ≡ lose_flip output a → Step a b
  invalidates : b ≡ record a { session = invalidate_lock_presentation a.session } → Step a b
  confirms :
      (backend : Backend)
      → b ≡ record a { session = maybe_confirm_lock a.clients backend a.session }
      → Step a b
  clients_change : (c : Clients) → Outlived a.clients c → b ≡ record a { clients = c } → Step a b

-- Reached in a number of steps.
pub data Reach (a : System) : ℕ → System → Type 0 where
  here : Reach a 0 a
  later : {n : ℕ} {b c : System} → Reach a n b → Step b c → Reach a (suc n) c
