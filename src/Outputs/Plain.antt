-- ===== src/Outputs/Plain.antt =====
-- A small desktop for the runs of src/handlers/output_management.rs and src/udev.rs.
use minde.Base.{ℕ, refl, [], ◌∷◌, Option, some, none, ◌==◌, if◌then◌else◌, ℤ, pos}
use minde.Outputs.{Mode, Transform, integer}
use minde.Outputs.Layer.{OutputState, Desktop, updated}

-- A desktop as two functions.
pub record Plain : Type 0 where
  pub states : ℕ → OutputState
  pub spots : ℕ → Option (ℤ × ℤ)

abbrev pub mode800 : Mode
mode800 = record { width = pos 800; height = pos 600; refresh = pos 60000 }

abbrev pub mode1280 : Mode
mode1280 = record { width = pos 1280; height = pos 800; refresh = pos 60000 }

abbrev pub plain_desktop : Desktop
plain_desktop = record {
  World = Plain;
  state = λ w p. w.states p;
  mapped = λ w p. w.spots p;
  modes = λ w p. mode800 ∷ mode1280 ∷ [];
  preferred_mode = λ w p. some mode1280;
  change_current_state = λ w o m t s l. record w {
    states = λ p. if o == p then updated m t s l (w.states p) else w.states p;
  };
  map_output = λ w o l. record w { spots = λ p. if o == p then some l else w.spots p };
  unmap_output = λ w o. record w { spots = λ p. if o == p then none else w.spots p };
  state-change = λ w o p m t s l. refl;
  mapped-change = λ w o p m t s l. refl;
  state-map = λ w o p l. refl;
  mapped-map = λ w o p l. refl;
  state-unmap = λ w o p. refl;
  mapped-unmap = λ w o p. refl;
}

abbrev pub at_origin : OutputState
at_origin = record {
  current_mode = some mode1280;
  location = (pos 0, pos 0);
  scale = integer (pos 1);
  transform = Transform.normal;
}
