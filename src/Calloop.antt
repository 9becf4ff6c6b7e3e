-- ===== src/Calloop.antt =====
-- calloop, the event loop that src/events.rs and src/udev.rs register their sources with.
pub mod Table
use minde.Base.{ℕ, ◌≡◌, ◌≢◌, ◌⊎◌, Option, some}

-- calloop's `LoopHandle`: `Live t` says that the source with the token `t` is registered.
pub record LoopHandle : Type 1 where
  pub Sources : Type 0
  pub Live : Sources → ℕ → Type 0
  pub insert_source : Sources → Option (ℕ × Sources)
  pub remove : ℕ → Sources → Sources
  pub insert_live :
      (s s' : Sources) (t u : ℕ) → insert_source s ≡ some (t, s') → Live s' u → (u ≡ t) ⊎ Live s u
  pub remove_live : (s : Sources) (t u : ℕ) → Live (remove t s) u → Live s u × (u ≢ t)
