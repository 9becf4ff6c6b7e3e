-- ===== src/Modes.antt =====
-- src/udev.rs: `resolve_connector_mode`. A connector mode is a number.
pub mod Nearest
mod Examples
use minde.Base.{
  ℕ, ◌+◌, ◌-◌, List, [], ◌∷◌, Option, none, some, Bool, true, false, ◌&&◌, leb, ◌==◌, if◌then◌else◌,
  ℤ, pos, leb_ℤ,
}
use minde.Outputs.{Mode, same_size, same_mode}
use minde.Outputs.Validate.{refresh_difference}

unfoldable pub find_exact : Mode → List (Mode × ℕ) → Option ℕ
find_exact wanted [] = none
find_exact wanted ((wl, drm) ∷ modes) =
    let later = find_exact wanted modes in if same_mode wl wanted then some drm else later

-- The filters of a custom mode.
abbrev pub near : Mode → Mode → Bool
near wanted wl = same_size wl wanted && leb_ℤ (refresh_difference wl wanted) (pos 1000)

abbrev pub nearer : ℤ × ℕ → Option (ℤ × ℕ) → Option (ℤ × ℕ)
nearer (d, drm) none = some (d, drm)
nearer (d, drm) (some (d', drm')) = if leb_ℤ d d' then some (d, drm) else some (d', drm')

-- `min_by_key`: the first of the least differences.
unfoldable pub nearest : Mode → List (Mode × ℕ) → Option (ℤ × ℕ)
nearest wanted [] = none
nearest wanted ((wl, drm) ∷ modes) =
    let later = nearest wanted modes in
    if near wanted wl then nearer (refresh_difference wl wanted, drm) later else later

abbrev pub mode_of : Option (ℤ × ℕ) → Option ℕ
mode_of none = none
mode_of (some (d, drm)) = some drm

abbrev pub or_custom : Option ℕ → Bool → Option (ℤ × ℕ) → Option ℕ
or_custom (some drm) custom best = some drm
or_custom none custom best = if custom then mode_of best else none

unfoldable pub resolve_connector_mode : List (Mode × ℕ) → Mode → Bool → Option ℕ
unfolding find_exact nearest
resolve_connector_mode modes wanted custom =
    or_custom (find_exact wanted modes) custom (nearest wanted modes)
