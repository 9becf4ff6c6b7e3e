-- ===== src/Heads.antt =====
-- src/udev.rs: the heads of the DRM backend. A head is named by its output, which is made for it; the
-- source finds it by its device and CRTC. What is asked of other parts of the compositor is recorded
-- in the order in which it is asked: `clamp_pointer` also resets the absolute pointer motion.
pub mod Realize
mod Local
mod Switch
mod Steps
mod Power
pub mod Runs
mod Enabled
mod Configured
mod Examples
use minde.Base.{
  ℕ, List, [], ◌∷◌, ◌++◌, Option, none, some, Bool, true, false, not, ◌&&◌, ◌||◌, ◌==◌,
  if◌then◌else◌, ℤ, pos, ◌+ℤ◌, ltb_ℤ, ◌==ℤ◌,
}
use minde.Outputs.{Mode, same_mode, or_else}
use minde.Outputs.Layer.{OutputState, Desktop, Compositor}
use minde.Outputs.Apply.{is_some, with_world}

-- The drm crate and smithay's DRM output: making an output for a CRTC (which needs a renderer),
-- setting its mode, its adaptive sync, and its release. The Boolean is whether the call succeeds; one
-- that fails leaves the device as it was.
pub record Drm : Type 1 where
  pub Device : Type 0
  pub wl_mode_from_drm : ℕ → Mode
  pub initialize_output : Device → ℕ → ℕ → Device × Bool
  pub use_mode : Device → ℕ → ℕ → Device × Bool
  pub vrr_supported : Device → ℕ → Bool
  pub use_vrr : Device → ℕ → Bool → Device × Bool
  pub vrr_enabled : Device → ℕ → Bool
  pub release : Device → ℕ → Device
  pub try_to_restore_modifiers : Device → Device

pub data PowerState : Type 0 where
  on off : PowerState

abbrev pub is_on : PowerState → Bool
is_on on = true
is_on off = false

-- `global` and `surface` are whether the head has one, `vrr_support` whether it is supported.
pub record HeadEntry : Type 0 where
  pub crtc : ℕ
  pub modes : List (Mode × ℕ)
  pub global : Bool
  pub surface : Bool
  pub power : PowerState
  pub vrr_support : Bool
  pub vrr : Bool

pub data Call : Type 0 where
  update_usable_area update_fractional_scales clamp_pointer on_startup retire_output_global : Call
  render_now park_redraw gamma_output_removed leave_all : ℕ → Call

pub record Udev (D : Type 0) : Type 0 where
  pub device : D
  pub heads : ℕ → Option HeadEntry
  pub started : Bool
  pub calls : List Call

-- The messages of the backend.
abbrev pub unknown_head : ℕ
unknown_head = 0

abbrev pub no_mode : ℕ
no_mode = 1

abbrev pub no_connector_mode : ℕ
no_connector_mode = 2

abbrev pub initialize_failed : ℕ
initialize_failed = 3

abbrev pub modeset_failed : ℕ
modeset_failed = 4

abbrev pub sync_failed : ℕ
sync_failed = 5

abbrev pub is_disabled : ℕ
is_disabled = 6

-- The second part of `init_surface`: the adaptive sync that the head should have.
module _ (drm : Drm) where
  abbrev pub resume_vrr : drm.Device → HeadEntry → drm.Device × HeadEntry
  resume_vrr device e =
      let supported = drm.vrr_supported device e.crtc in
      let (device', set) = drm.use_vrr device e.crtc true in
      if e.vrr
      then if supported
        then (device', record e { surface = true; vrr_support = true; vrr = set })
        else (device, record e { surface = true; vrr_support = false; vrr = false })
      else (device, record e { surface = true; vrr_support = supported })

  abbrev pub initialized : HeadEntry → drm.Device × Bool → Option (drm.Device × HeadEntry)
  initialized e (device, ready) = if ready then some (resume_vrr device e) else none

  unfoldable pub init_surface : drm.Device → HeadEntry → ℕ → Option (drm.Device × HeadEntry)
  init_surface device e mode = initialized e (drm.initialize_output device e.crtc mode)

abbrev pub same_place : ℤ × ℤ → ℤ × ℤ → Bool
same_place (x, y) (x', y') = (x ==ℤ x') && (y ==ℤ y')

module _ (d : Desktop) where
  -- The mode and the position of a head that cannot be enabled are taken off again.
  abbrev pub take_back : d.World → ℕ → OutputState → ℤ × ℤ → d.World
  take_back w o previous position =
      if is_some previous.current_mode || not (same_place previous.location position)
      then d.change_current_state w o previous.current_mode none none (some previous.location)
      else w

module _ (d : Desktop) (drm : Drm) where
  abbrev pub Minde : Type 0
  Minde = Compositor d.World (Udev drm.Device)

  abbrev pub put_head : Minde → ℕ → HeadEntry → Minde
  put_head s o e = record s {
    backend = record (s.backend) { heads = λ p. if o == p then some e else s.backend.heads p };
  }

  abbrev pub with_device : Minde → drm.Device → Minde
  with_device s device = record s { backend = record (s.backend) { device = device } }

  abbrev pub call : Minde → List Call → Minde
  call s cs = record s { backend = record (s.backend) { calls = s.backend.calls ++ cs } }

  abbrev pub unless_applying : Minde → List Call → List Call
  unless_applying s cs = if s.applying_output_config then [] else cs

  abbrev pub enabled_head :
      Minde
      → ℕ
      → HeadEntry
      → OutputState
      → ℤ × ℤ
      → Option (drm.Device × HeadEntry)
      → Minde × Option ℕ
  enabled_head s o e previous position none = (
    call
        (put_head (with_world d s (take_back d (d.unmap_output s.world o) o previous position)) o
          (record e { global = false }))
        (retire_output_global ∷ []),
    some initialize_failed,
  )
  enabled_head s o e previous position (some (device, e')) =
      let s' = record s {
        backend = record (s.backend) {
          device = device;
          heads = λ p. if o == p then some e' else s.backend.heads p;
          started = true;
        };
      } in
      (
        call s' (
            unless_applying s (update_usable_area ∷ update_fractional_scales ∷ clamp_pointer ∷ [])
            ++ (if s.backend.started then [] else (on_startup ∷ []))
            ++ render_now o ∷ []),
        none,
      )

  abbrev pub enable_entry : Minde → ℕ → ℕ → ℤ × ℤ → Option HeadEntry → Minde × Option ℕ
  enable_entry s o mode position none = (s, some unknown_head)
  enable_entry s o mode position (some e) =
      let e' = record e { global = true; power = on } in
      let w =
        d.map_output
          (d.change_current_state s.world o (some (drm.wl_mode_from_drm mode)) none none
            (some position))
          o position in
      if e.global
      then (s, none)
      else enabled_head (with_world d s w) o e' (d.state s.world o) position
          (init_surface drm s.backend.device e' mode)

  unfoldable pub enable_head : Minde → ℕ → ℕ → ℤ × ℤ → Minde × Option ℕ
  unfolding init_surface
  enable_head s o mode position = enable_entry s o mode position (s.backend.heads o)

  abbrev pub disable_entry : Minde → ℕ → Option HeadEntry → Minde
  disable_entry s o none = s
  disable_entry s o (some e) =
      let released = if e.surface then drm.release s.backend.device e.crtc else s.backend.device in
      if e.global
      then call
          (with_device
            (put_head (with_world d s (d.unmap_output s.world o)) o
              (record e { global = false; surface = false; power = on }))
            (drm.try_to_restore_modifiers released))
          ((if e.surface then (park_redraw o ∷ []) else [])
            ++ gamma_output_removed o
              ∷ leave_all o
              ∷ retire_output_global
              ∷ unless_applying s (update_usable_area ∷ clamp_pointer ∷ []))
      else s

  unfoldable pub disable_head : Minde → ℕ → Minde
  disable_head s o = disable_entry s o (s.backend.heads o)
