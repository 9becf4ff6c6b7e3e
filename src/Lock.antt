-- ===== src/Lock.antt =====
-- src/handlers/session_lock.rs: the state of the session lock and of what it guards.
pub mod Focus
pub mod Requests
pub mod Confirm
pub mod Frames
pub mod Destroyed
pub mod Display
pub mod Guard
pub mod Shown
pub mod Guarantee
pub mod Ownership
pub mod Unlock
pub mod Surfaces
pub mod Progress
mod Examples
use minde.Base.{
  ℕ, ◌+◌, ◌%◌, List, [], ◌∷◌, ◌++◌, Option, none, some, Bool, true, false, not, ◌&&◌, ◌==◌,
  if◌then◌else◌, word64,
}

pub contains : ℕ → List ℕ → Bool
contains x [] = false
contains x (y ∷ ys) = let rest = contains x ys in if x == y then true else rest

abbrev pub is_some : Option ℕ → Bool
is_some none = false
is_some (some x) = true

-- `==` on two optional identities.
abbrev pub same : Option ℕ → Option ℕ → Bool
same none none = true
same (some x) (some y) = x == y
same none (some y) = false
same (some x) none = false

pub record LockPresentation : Type 0 where
  pub generation : ℕ
  pub presented : List ℕ

-- `LockPresentation::reset`.
abbrev pub reset : LockPresentation → LockPresentation
reset p = record { generation = (p.generation + 1) % word64; presented = [] }

-- `LockPresentation::presented`.
unfoldable pub add_presented : LockPresentation → ℕ → ℕ → LockPresentation
unfolding contains
add_presented p output generation =
    if (generation == p.generation) && not (contains output p.presented)
    then record p { presented = p.presented ++ output ∷ [] }
    else p

-- `LockPresentation::ready`.
unfoldable pub ready : LockPresentation → List ℕ → Bool
unfolding contains
ready p [] = true
ready p (output ∷ outputs) = contains output p.presented && ready p outputs

-- A lock object, and the `SessionLocker` that was created with it, are one number.
pub record LockState : Type 0 where
  pub owner : Option ℕ
  pub owner_client : Option ℕ
  pub pending : Option ℕ
  pub confirmed : Bool
  pub presentation : LockPresentation

-- What Wayland knows of its objects at the time of a call: the lock objects that were destroyed, the
-- clients of lock objects and surfaces, `LockSurface::alive`, and `Output::from_resource`.
pub record Clients : Type 0 where
  pub destroyed : List ℕ
  pub client : ℕ → Option ℕ
  pub surface_client : ℕ → Option ℕ
  pub surface_alive : ℕ → Bool
  pub output_of : ℕ → Option ℕ

abbrev pub is_alive : Clients → ℕ → Bool
unfolding contains
is_alive c lock = not (contains lock c.destroyed)

pub owner_alive : Clients → Option ℕ → Bool
owner_alive c none = false
owner_alive c (some owner) = is_alive c owner

pub record Keyboard : Type 0 where
  pub focus : Option ℕ
  pub grabbed : Bool

pub record Pointer : Type 0 where
  pub focus : Option ℕ
  pub grabbed : Bool

pub record Touch : Type 0 where
  pub points : List ℕ
  pub grabbed : Bool

-- What is sent, in order: to the lock's client, to the renderer and to Scheme. A `SessionLocker`
-- that is dropped sends `finished`.
pub data Message : Type 0 where
  locked_event finished_event invalid_unlock duplicate_output : ℕ → Message
  session_locked session_lock_confirmed : Bool → Message
  on_session_lock on_session_unlock redraw lock_redraw : Message

-- The part of `MindeState` that the lock reads or changes.
pub record Session : Type 0 where
  pub session_lock : LockState
  pub lock_surfaces : List (ℕ × ℕ)
  pub locked : Bool
  pub keyboard : Option Keyboard
  pub pointer : Option Pointer
  pub touch : Option Touch
  pub text_input_focus : Option ℕ
  pub shortcuts_inhibitor : Option ℕ
  pub focused_window : Option ℕ
  pub key_repeat : Option ℕ
  pub absolute_motion : Option ℕ
  pub messages : List Message

abbrev pub say : Message → Session → Session
say m s = record s { messages = s.messages ++ m ∷ [] }

-- The pending `SessionLocker` is dropped.
pub drop_pending : Session → Session
drop_pending s = elim s.session_lock.pending [
  | none ↦ s
  | some lock ↦ record s {
    session_lock = record s.session_lock { pending = none };
    messages = s.messages ++ finished_event lock ∷ [];
  }
]

-- `lock_surface_for`: the first surface of the output, if it is alive.
pub lock_surface_for : Clients → List (ℕ × ℕ) → ℕ → Option ℕ
lock_surface_for c [] output = none
lock_surface_for c ((o, surface) ∷ rest) output =
    let other = lock_surface_for c rest output in
    if o == output then (if c.surface_alive surface then some surface else none) else other
