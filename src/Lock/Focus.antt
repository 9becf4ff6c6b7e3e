-- ===== src/Lock/Focus.antt =====
-- src/handlers/session_lock.rs: `enforce_lock_focus`.
use minde.Base.{ℕ, List, [], ◌∷◌, Option, none, some, Bool, true, false, ◌&&◌, ◌==◌, if◌then◌else◌}
use minde.Lock.{Clients, is_alive, same, Session}

unfoldable pub surface_listed : Clients → List (ℕ × ℕ) → ℕ → Bool
surface_listed c [] surface = false
surface_listed c ((o, lock) ∷ rest) surface =
    let later = surface_listed c rest surface in
    if c.surface_alive lock && lock == surface then true else later

-- The closure `valid`.
unfoldable pub valid : Clients → Session → ℕ → Bool
unfolding surface_listed
valid c s surface = elim s.session_lock.owner [
  | none ↦ false
  | some owner ↦
      (is_alive c owner && same (c.client owner) (c.surface_client surface))
      && surface_listed c s.lock_surfaces surface
]

unfoldable pub find_valid : Clients → Session → List (ℕ × ℕ) → Option ℕ
unfolding valid
find_valid c s [] = none
find_valid c s ((o, lock) ∷ rest) =
    let later = find_valid c s rest in if valid c s lock then some lock else later

-- The focus that is kept, or else the first valid lock surface.
unfoldable pub chosen : Clients → Session → Option ℕ → Option ℕ
unfolding valid find_valid
chosen c s none = find_valid c s s.lock_surfaces
chosen c s (some surface) =
    if valid c s surface then some surface else find_valid c s s.lock_surfaces

unfoldable pub enforce_lock_focus : Clients → Session → Session
unfolding chosen
enforce_lock_focus c s =
    if s.locked
    then elim s.keyboard [
      | none ↦ s
      | some k ↦ record s {
        keyboard = some (record { focus = chosen c s k.focus; grabbed = false });
      }
    ]
    else s
