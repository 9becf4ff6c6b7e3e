-- ===== src/Gamma/Examples.antt =====
-- Runs of src/handlers/gamma_control.rs on a device with one CRTC.
use minde.Base.{All, ℕ, ◌≡◌, ◌≢◌, refl, List, [], ◌∷◌, none, some, true, length}
use minde.Gamma.{
  Ramps, parse_ramps, Drm, GammaState, gamma_size, GammaFile, readable, gamma_info_for_output,
  create_gamma_control, control_destroyed,
}
use minde.Gamma.Ramp.{table, parse_ramps-table}
use minde.Gamma.Restoring.{Of, set_all, control_destroyed-restores}
use minde.Gamma.Second.{TakenAway, control_destroyed-second}

-- The ramps of the CRTC, which can always be written.
abbrev one_crtc : Drm
one_crtc = record {
  Device = Ramps;
  gamma_length = λ d crtc. some 2;
  get_gamma = λ d crtc size. some d;
  set_gamma = λ d crtc r. (r, true);
  get-set = λ old d crtc size r read written. refl;
}

abbrev linear : Ramps
linear = (0 ∷ 65535 ∷ [], 0 ∷ 65535 ∷ [], 0 ∷ 65535 ∷ [])

abbrev idle : GammaState Ramps
idle = record {
  device = linear;
  heads = record { output = 3; surface = some 7 } ∷ [];
  gamma_controls = λ o. none;
  user_data = λ c. none;
}

created : (create_gamma_control one_crtc idle (some 3) 20).1 ≡ gamma_size 2 ∷ []
unfolding create_gamma_control gamma_info_for_output
created = refl

parse_ramps-table_example :
    (parse_ramps (table (1 ∷ 2 ∷ []) (3 ∷ 4 ∷ []) (5 ∷ 600 ∷ [])) 2
      ≡ some (1 ∷ 2 ∷ [], 3 ∷ 4 ∷ [], 5 ∷ 600 ∷ []))
    × ((bytes : List ℕ) → length bytes ≢ 12 → parse_ramps bytes 2 ≡ none)
parse_ramps-table_example =
    parse_ramps-table 2 (1 ∷ 2 ∷ []) (3 ∷ 4 ∷ []) (5 ∷ 600 ∷ []) refl refl refl

-- A table is set and another is refused before the control goes away.
abbrev tables : List (ℕ × GammaFile)
tables =
    (20, readable (table (9 ∷ 9 ∷ []) (9 ∷ 9 ∷ []) (9 ∷ 9 ∷ []))) ∷ (20, readable (1 ∷ [])) ∷ []

abbrev first_created : GammaState Ramps
first_created = (create_gamma_control one_crtc idle (some 3) 20).0

tables-Of_it : All (Of one_crtc first_created 3) tables
unfolding create_gamma_control gamma_info_for_output
tables-Of_it = (refl, (refl, tt))

abbrev used : GammaState Ramps
used = set_all one_crtc first_created tables

control_destroyed-restores_example :
    ((control_destroyed one_crtc used 20).gamma_controls 3 ≡ none)
    × (crtc : ℕ) × (r : Ramps) × (d : Ramps) × ((control_destroyed one_crtc used 20).device ≡ r)
    × (true ≡ true → some (control_destroyed one_crtc used 20).device ≡ some linear)
control_destroyed-restores_example =
    control_destroyed-restores one_crtc idle 3 20 2 tables created tables-Of_it

control_destroyed-second_example :
    TakenAway one_crtc idle first_created 3 20 21 2
      (readable (1 ∷ []))
      (create_gamma_control one_crtc first_created (some 3) 21)
control_destroyed-second_example =
    control_destroyed-second one_crtc idle 3 20 21 2 (readable (1 ∷ [])) created
