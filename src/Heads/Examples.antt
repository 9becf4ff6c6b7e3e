-- ===== src/Heads/Examples.antt =====
-- Runs of src/udev.rs with one head.
use minde.Base.{
  ok, ℕ, ◌≡◌, refl, List, [], ◌∷◌, none, some, true, false, if-both, ◌==◌, if◌then◌else◌, ℤ, pos,
}
use minde.Outputs.{new_change, requested_mode}
use minde.Outputs.Layer.{Compositor}
use minde.Outputs.Apply.{
  is_some, apply_output_configuration, apply_loop, commit_head, commit_enabled, revert,
  restore_head, mark_position_auto, position_is_explicit,
}
use minde.Outputs.Validate.{
  validate, validate_loop, check_change, find_facts, find_resolved, resolve_change, resolve_mode,
  contains_mode, enabled_after,
}
use minde.Outputs.Plain.{Plain, mode1280, plain_desktop, at_origin}
use minde.Heads.{Drm, on, HeadEntry, Udev, init_surface, enable_head, disable_head}
use minde.Heads.Realize.{udev_output_adaptive_sync, udev_realize_head, udev_set_output_power}
use minde.Modes.{resolve_connector_mode}
use minde.Heads.Local.{HeadOk}
use minde.Heads.Configured.{apply_output_configuration-InOrder}
use minde.Heads.Runs.{InOrder, udev, enables, sets_power, stays, then_step, Runs-InOrder}
use minde.Heads.Enabled.{udev_realize_head-enabled}

-- A device that does what it is told, with the number of the CRTCs that it drives.
abbrev willing : Drm
willing = record {
  Device = ℕ;
  wl_mode_from_drm = λ m. mode1280;
  initialize_output = λ device crtc mode. (1, true);
  use_mode = λ device crtc mode. (device, true);
  vrr_supported = λ device crtc. true;
  use_vrr = λ device crtc wanted. (device, true);
  vrr_enabled = λ device crtc. false;
  release = λ device crtc. 0;
  try_to_restore_modifiers = λ device. device;
}

abbrev unplugged : HeadEntry
unplugged = record {
  crtc = 40;
  modes = (mode1280, 7) ∷ [];
  global = false;
  surface = false;
  power = on;
  vrr_support = false;
  vrr = false;
}

abbrev one_head : Compositor Plain (Udev ℕ)
one_head = record {
  world = record { states = λ p. at_origin; spots = λ p. none };
  explicit = λ p. none;
  heads_all = 0 ∷ [];
  allow_no_heads = false;
  applying_output_config = false;
  backend = record {
    device = 0;
    heads = λ p. if 0 == p then some unplugged else none;
    started = false;
    calls = [];
  };
}

one_head-InOrder : InOrder plain_desktop willing one_head
unfolding InOrder
one_head-InOrder p = if-both (HeadOk none) (0 == p) (some unplugged) none (refl, refl) tt

abbrev nowhere : Plain → List (ℤ × ℤ)
nowhere w = []

abbrev enabled_once : Compositor Plain (Udev ℕ)
enabled_once = (enable_head plain_desktop willing one_head 0 7 (pos 0, pos 0)).0

abbrev dimmed : Compositor Plain (Udev ℕ)
dimmed = (udev_set_output_power plain_desktop willing enabled_once 0 false).0

Runs-InOrder_example : InOrder plain_desktop willing dimmed
Runs-InOrder_example =
    Runs-InOrder plain_desktop willing nowhere one_head dimmed
      (then_step one_head enabled_once dimmed
        (then_step one_head one_head enabled_once (stays one_head)
          (enables one_head 0 7 (pos 0, pos 0)))
        (sets_power enabled_once 0 false))
      one_head-InOrder

realized : (udev_realize_head plain_desktop willing nowhere one_head 0 (new_change 0 true)).1 ≡ none
unfolding udev_realize_head requested_mode resolve_connector_mode enable_head init_surface
realized = refl

udev_realize_head-enabled_example :
    is_some (
      plain_desktop.mapped
        (udev_realize_head plain_desktop willing nowhere one_head 0 (new_change 0 true)).0.world
        0)
    ≡ true
udev_realize_head-enabled_example =
    udev_realize_head-enabled plain_desktop willing nowhere one_head 0 (new_change 0 true)
      (refl, refl) realized

-- The configuration that enables the head, through the whole of `apply_output_configuration`.
configured :
    (apply_output_configuration plain_desktop
      (udev plain_desktop willing nowhere)
      one_head
      (new_change 0 true ∷ [])
      false).1
    ≡ ok tt
unfolding apply_output_configuration validate validate_loop check_change find_facts find_resolved
    resolve_change resolve_mode requested_mode contains_mode enabled_after apply_loop commit_head
    commit_enabled udev_realize_head resolve_connector_mode enable_head init_surface
    udev_output_adaptive_sync
configured = refl

apply_output_configuration-InOrder_example :
    InOrder plain_desktop willing
      (apply_output_configuration plain_desktop
        (udev plain_desktop willing nowhere)
        one_head
        (new_change 0 true ∷ [])
        false).0
apply_output_configuration-InOrder_example =
    apply_output_configuration-InOrder plain_desktop willing nowhere one_head
      (new_change 0 true ∷ []) one_head-InOrder configured

-- A device that drives no further CRTC, with a head that it drives and one that is disabled.
abbrev exhausted : Drm
exhausted = record willing { initialize_output = λ device crtc mode. (device, false) }

abbrev swapping : Compositor Plain (Udev ℕ)
swapping = record one_head {
  world = record {
    states = λ p. at_origin;
    spots = λ p. if 0 == p then some (pos 0, pos 0) else none;
  };
  heads_all = 0 ∷ 1 ∷ [];
  backend = record (one_head.backend) {
    heads = λ p.
        if 0 == p
        then some (record unplugged { global = true; surface = true })
        else if 1 == p
        then some unplugged
        else none;
  };
}

abbrev reverted : Compositor Plain (Udev ℕ)
reverted =
    (apply_output_configuration plain_desktop (udev plain_desktop exhausted nowhere) swapping
      (new_change 0 false ∷ new_change 1 true ∷ []) false).0

-- The second head cannot be enabled, nor the first one again: it is mapped all the same.
mapped_dark :
    (reverted.world.spots 0 ≡ some (pos 0, pos 0)) × (reverted.backend.heads 0 ≡ some unplugged)
unfolding apply_output_configuration validate validate_loop check_change find_facts find_resolved
    resolve_change resolve_mode requested_mode contains_mode enabled_after apply_loop commit_head
    commit_enabled udev_realize_head resolve_connector_mode enable_head init_surface disable_head
    udev_output_adaptive_sync revert restore_head mark_position_auto position_is_explicit
mapped_dark = (refl, refl)
