-- ===== src/Modes/Examples.antt =====
-- Modes of src/udev.rs.
use minde.Base.{ℕ, ◌≡◌, refl, List, [], ◌∷◌, Option, none, some, true, ℤ, pos, ◌-ℤ◌}
use minde.Outputs.{Mode}
use minde.Modes.{find_exact, nearest, mode_of, resolve_connector_mode}
use minde.Modes.Nearest.{Nearest, resolve_connector_mode-Nearest}

abbrev hd : ℕ → Mode
hd refresh = record { width = pos 1920; height = pos 1080; refresh = pos refresh }

abbrev advertised : List (Mode × ℕ)
advertised = (hd 59000, 1) ∷ (hd 59940, 2) ∷ (hd 144000, 3) ∷ []

hd_60 : resolve_connector_mode advertised (hd 60000) true ≡ some 2
unfolding resolve_connector_mode find_exact nearest ◌-ℤ◌
hd_60 = refl

hd_60_exact : find_exact (hd 60000) advertised ≡ none
unfolding find_exact
hd_60_exact = refl

resolve_connector_mode-Nearest_example :
    (best : Option (ℤ × ℕ)) × (resolve_connector_mode advertised (hd 60000) true ≡ mode_of best)
    × Nearest (hd 60000) advertised best
resolve_connector_mode-Nearest_example =
    resolve_connector_mode-Nearest advertised (hd 60000) hd_60_exact
