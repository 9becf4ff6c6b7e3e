-- ===== src/Heads/Realize.antt =====
-- src/udev.rs: `udev_realize_head` with the mode and adaptive sync of a head, and its power.
use minde.Base.{
  ℕ, List, [], ◌∷◌, Option, none, some, Bool, true, false, not, if◌then◌else◌, ℤ, pos, ◌+ℤ◌, ltb_ℤ,
}
use minde.Outputs.{Mode, same_mode, or_else, HeadChange, requested_mode}
use minde.Outputs.Layer.{Desktop, value_or}
use minde.Outputs.Apply.{is_some, with_world}
use minde.Modes.{resolve_connector_mode}
use minde.Heads.{
  Drm, on, off, is_on, HeadEntry, render_now, park_redraw, unknown_head, no_mode, no_connector_mode,
  initialize_failed, modeset_failed, sync_failed, is_disabled, init_surface, Minde, put_head,
  with_device, call, enable_head, disable_head,
}

-- `Some(a) == b`.
abbrev pub is_mode : Option Mode → Mode → Bool
is_mode none m = false
is_mode (some n) m = same_mode n m

-- The largest right edge, from the position and the width of each output of the space.
unfoldable pub right_edge_of_outputs : List (ℤ × ℤ) → Option ℤ
right_edge_of_outputs [] = none
right_edge_of_outputs ((x, width) ∷ outputs) = elim (right_edge_of_outputs outputs) [
  | none ↦ some (x +ℤ width)
  | some right ↦ if ltb_ℤ right (x +ℤ width) then some (x +ℤ width) else some right
]

unfoldable pub find_mode : Mode → List (Mode × ℕ) → Option (Mode × ℕ)
find_mode wanted [] = none
find_mode wanted ((wl, drm) ∷ modes) =
    let later = find_mode wanted modes in if same_mode wl wanted then some (wl, drm) else later

module _ (d : Desktop) (drm : Drm) where
  abbrev pub modeset : Minde d drm → ℕ → Mode → drm.Device × Bool → Minde d drm × Option ℕ
  modeset s o mode (device, done) =
      if done
      then (
        call d drm
            (with_device d drm
              (with_world d s (d.change_current_state s.world o (some mode) none none none)) device)
            (render_now o ∷ []),
        none,
      )
      else (s, some modeset_failed)

  abbrev pub set_drm_mode : Minde d drm → ℕ → HeadEntry → Mode → Option ℕ → Minde d drm × Option ℕ
  set_drm_mode s o e mode none = (s, some no_connector_mode)
  set_drm_mode s o e mode (some m) =
      if e.surface
      then if is_mode (d.state s.world o).current_mode mode
        then (s, none)
        else modeset s o mode (drm.use_mode s.backend.device e.crtc m)
      else (with_world d s (d.change_current_state s.world o (some mode) none none none), none)

  abbrev pub set_entry_mode :
      Minde d drm → ℕ → Mode → Bool → Option HeadEntry → Minde d drm × Option ℕ
  set_entry_mode s o mode custom none = (s, some unknown_head)
  set_entry_mode s o mode custom (some e) =
      set_drm_mode s o e mode (resolve_connector_mode e.modes mode custom)

  unfoldable pub udev_set_mode : Minde d drm → ℕ → Mode → Bool → Minde d drm × Option ℕ
  udev_set_mode s o mode custom = set_entry_mode s o mode custom (s.backend.heads o)

  abbrev pub sync_set :
      Minde d drm → ℕ → HeadEntry → Bool → drm.Device × Bool → Minde d drm × Option ℕ
  sync_set s o e wanted (device, done) =
      if done
      then (
        call d drm (with_device d drm (put_head d drm s o (record e { vrr = wanted })) device)
            (render_now o ∷ []),
        none,
      )
      else (s, some sync_failed)

  abbrev pub set_entry_sync : Minde d drm → ℕ → Bool → Option HeadEntry → Minde d drm × Option ℕ
  set_entry_sync s o wanted none = (s, some unknown_head)
  set_entry_sync s o wanted (some e) =
      if e.surface
      then if e.vrr_support
        then sync_set s o e wanted (drm.use_vrr s.backend.device e.crtc wanted)
        else if wanted
        then (s, some sync_failed)
        else (put_head d drm s o (record e { vrr = false }), none)
      else (put_head d drm s o (record e { vrr = wanted }), none)

  unfoldable pub udev_set_adaptive_sync : Minde d drm → ℕ → Bool → Minde d drm × Option ℕ
  udev_set_adaptive_sync s o wanted = set_entry_sync s o wanted (s.backend.heads o)

  abbrev pub entry_sync : Minde d drm → Option HeadEntry → Option Bool
  entry_sync s none = none
  entry_sync s (some e) =
      if e.vrr_support
      then if e.surface then some (drm.vrr_enabled s.backend.device e.crtc) else some e.vrr
      else none

  unfoldable pub udev_output_adaptive_sync : Minde d drm → ℕ → Option Bool
  udev_output_adaptive_sync s o = entry_sync s (s.backend.heads o)

  -- The last part of `udev_realize_head`, after one that succeeded.
  abbrev pub then_sync : ℕ → Option Bool → Minde d drm × Option ℕ → Minde d drm × Option ℕ
  then_sync o sync (s, some msg) = (s, some msg)
  then_sync o none (s, none) = (s, none)
  then_sync o (some wanted) (s, none) = udev_set_adaptive_sync s o wanted

  -- A disabled head is enabled, at its connector mode.
  abbrev pub enable_at : Minde d drm → ℕ → ℤ × ℤ → Option ℕ → Minde d drm × Option ℕ
  enable_at s o position none = (s, some no_connector_mode)
  enable_at s o position (some m) = enable_head d drm s o m position

  abbrev pub enable_in :
      Minde d drm → ℕ → HeadEntry → Bool → ℤ × ℤ → Option Mode → Minde d drm × Option ℕ
  enable_in s o e custom position none = (s, some no_mode)
  enable_in s o e custom position (some mode) =
      enable_at s o position (resolve_connector_mode e.modes mode custom)

  abbrev pub set_requested : Minde d drm → ℕ → Bool → Option Mode → Minde d drm × Option ℕ
  set_requested s o custom none = (s, none)
  set_requested s o custom (some mode) =
      if is_mode (d.state s.world o).current_mode mode
      then (s, none)
      else udev_set_mode s o mode custom

  -- `geometries` has the outputs of the space.
  module _ (geometries : d.World → List (ℤ × ℤ)) where
    abbrev pub edge_position : Minde d drm → ℤ × ℤ
    edge_position s = (value_or (pos 0) (right_edge_of_outputs (geometries s.world)), pos 0)

    abbrev pub realize_entry :
        Minde d drm → ℕ → HeadChange → Option HeadEntry → Minde d drm × Option ℕ
    realize_entry s o c none = (s, some unknown_head)
    realize_entry s o c (some e) =
        let mapped = is_some (d.mapped s.world o) in
        let wanted =
          or_else (requested_mode c)
            (or_else (d.preferred_mode s.world o) (d.state s.world o).current_mode) in
        if c.enabled
        then then_sync o c.adaptive_sync (
            if mapped
            then set_requested s o (is_some c.custom_mode) (requested_mode c)
            else enable_in s o e (is_some c.custom_mode) (value_or (edge_position s) c.position)
                wanted)
        else (if mapped then disable_head d drm s o else s, none)

    unfoldable pub udev_realize_head : Minde d drm → ℕ → HeadChange → Minde d drm × Option ℕ
    unfolding requested_mode right_edge_of_outputs
    udev_realize_head s o c = realize_entry s o c (s.backend.heads o)

  -- Power: the CRTC is released, or made again at the current mode, or else at the preferred one.
  abbrev pub powered : Minde d drm → ℕ → drm.Device × HeadEntry → Minde d drm
  powered s o (device, e) =
      call d drm (with_device d drm (put_head d drm s o (record e { power = on })) device)
        (render_now o ∷ [])

  abbrev pub power_preferred :
      Minde d drm → ℕ → Mode → Option (drm.Device × HeadEntry) → Minde d drm × Option ℕ
  power_preferred s o wl none = (s, some initialize_failed)
  power_preferred s o wl (some x) = (
    powered (with_world d s (d.change_current_state s.world o (some wl) none none none)) o x,
    none,
  )

  abbrev pub retry_power : Minde d drm → ℕ → HeadEntry → Option (Mode × ℕ) → Minde d drm × Option ℕ
  retry_power s o e none = (s, some initialize_failed)
  retry_power s o e (some (wl, m)) = power_preferred s o wl (init_surface drm s.backend.device e m)

  abbrev pub preferred_other : Option Mode → Mode → List (Mode × ℕ) → Option (Mode × ℕ)
  preferred_other none wl modes = none
  preferred_other (some p) wl modes = if same_mode p wl then none else find_mode p modes

  abbrev pub power_at :
      Minde d drm → ℕ → HeadEntry → Mode → Option (drm.Device × HeadEntry) → Minde d drm × Option ℕ
  power_at s o e wl none =
      retry_power s o e (preferred_other (d.preferred_mode s.world o) wl e.modes)
  power_at s o e wl (some x) = (powered s o x, none)

  abbrev pub power_mode :
      Minde d drm → ℕ → HeadEntry → Mode → Option (Mode × ℕ) → Minde d drm × Option ℕ
  power_mode s o e wl none = (s, some no_connector_mode)
  power_mode s o e wl (some (found, m)) = power_at s o e wl (init_surface drm s.backend.device e m)

  abbrev pub power_current : Minde d drm → ℕ → HeadEntry → Option Mode → Minde d drm × Option ℕ
  power_current s o e none = (s, some no_mode)
  power_current s o e (some wl) = power_mode s o e wl (find_mode wl e.modes)

  abbrev pub power_off : Minde d drm → ℕ → HeadEntry → Minde d drm
  power_off s o e =
      call d drm
        (with_device d drm (put_head d drm s o (record e { power = off; surface = false }))
          (if e.surface then drm.release s.backend.device e.crtc else s.backend.device))
        (if e.surface then (park_redraw o ∷ []) else [])

  abbrev pub power_entry : Minde d drm → ℕ → Bool → Option HeadEntry → Minde d drm × Option ℕ
  power_entry s o wanted none = (s, some unknown_head)
  power_entry s o true (some e) =
      if not e.global
      then (s, some is_disabled)
      else if is_on e.power
      then (s, none)
      else power_current s o e (d.state s.world o).current_mode
  power_entry s o false (some e) =
      if not e.global
      then (s, some is_disabled)
      else if is_on e.power
      then (power_off s o e, none)
      else (s, none)

  unfoldable pub udev_set_output_power : Minde d drm → ℕ → Bool → Minde d drm × Option ℕ
  unfolding find_mode init_surface
  udev_set_output_power s o wanted = power_entry s o wanted (s.backend.heads o)
