-- ===== src/Heads/Enabled.antt =====
-- src/udev.rs: a `udev_realize_head` that succeeds leaves the head as enabled as it was asked to be.
use minde.Base.{
  if-own, ℕ, ◌≡◌, refl, sym, ap, subst, ◌∙◌, List, Option, none, some, some-ne-none, Bool, true,
  false, if-both, if-split, if◌then◌else◌, ℤ,
}
use minde.Outputs.{Mode, or_else, HeadChange, requested_mode}
use minde.Outputs.Layer.{OutputState, Desktop, value_or}
use minde.Outputs.Apply.{is_some, with_world}
use minde.Modes.{resolve_connector_mode}
use minde.Heads.{
  Drm, on, HeadEntry, unknown_head, no_mode, no_connector_mode, initialize_failed, sync_failed,
  init_surface, Minde, enabled_head, enable_entry, enable_head, disable_entry, disable_head,
}
use minde.Heads.Realize.{
  is_mode, modeset, set_drm_mode, set_entry_mode, udev_set_mode, sync_set, set_entry_sync,
  udev_set_adaptive_sync, then_sync, enable_at, enable_in, set_requested, edge_position,
  realize_entry, udev_realize_head,
}
use minde.Heads.Local.{HeadOk, Ok}
use minde.Heads.Switch.{disabled}
use minde.Heads.Steps.{Answer, moded, wished}

module _ (d : Desktop) (drm : Drm) where
  -- The outputs that are mapped do not change.
  abbrev Placed : ℕ → Minde d drm → Answer d drm → Type 0
  Placed o s x = d.mapped x.0.world o ≡ d.mapped s.world o

  moded-Placed :
      (s : Minde d drm) (o : ℕ) (mode : Mode)
      → d.mapped (moded d drm s o mode).world o ≡ d.mapped s.world o
  moded-Placed s o mode = d.mapped-change s.world o o (some mode) none none none

  modeset-Placed :
      (s : Minde d drm) (o : ℕ) (mode : Mode) (r : drm.Device × Bool)
      → Placed o s (modeset d drm s o mode r)
  modeset-Placed s o mode (device, true) = moded-Placed s o mode
  modeset-Placed s o mode (device, false) = refl

  set_drm_mode-Placed :
      (s : Minde d drm) (o : ℕ) (e : HeadEntry) (mode : Mode) (m : Option ℕ)
      → Placed o s (set_drm_mode d drm s o e mode m)
  set_drm_mode-Placed s o e mode none = refl
  set_drm_mode-Placed s o e mode (some m) =
      let set = drm.use_mode s.backend.device e.crtc m in
      let done = modeset d drm s o mode set in
      let same = is_mode (d.state s.world o).current_mode mode in
      if-both (Placed o s) e.surface (if same then (s, none) else done) (moded d drm s o mode, none)
        (if-both (Placed o s) same (s, none) done refl (modeset-Placed s o mode set))
        (moded-Placed s o mode)

  set_entry_mode-Placed :
      (s : Minde d drm) (o : ℕ) (mode : Mode) (custom : Bool) (entry : Option HeadEntry)
      → Placed o s (set_entry_mode d drm s o mode custom entry)
  set_entry_mode-Placed s o mode custom none = refl
  set_entry_mode-Placed s o mode custom (some e) =
      set_drm_mode-Placed s o e mode (resolve_connector_mode e.modes mode custom)

  set_requested-Placed :
      (s : Minde d drm) (o : ℕ) (custom : Bool) (m : Option Mode)
      → Placed o s (set_requested d drm s o custom m)
  unfolding udev_set_mode
  set_requested-Placed s o custom none = refl
  set_requested-Placed s o custom (some mode) =
      if-both (Placed o s) (is_mode (d.state s.world o).current_mode mode) (s, none)
        (udev_set_mode d drm s o mode custom) refl
        (set_entry_mode-Placed s o mode custom (s.backend.heads o))

  sync_set-Placed :
      (s : Minde d drm) (o : ℕ) (e : HeadEntry) (wanted : Bool) (r : drm.Device × Bool)
      → Placed o s (sync_set d drm s o e wanted r)
  sync_set-Placed s o e wanted (device, true) = refl
  sync_set-Placed s o e wanted (device, false) = refl

  set_entry_sync-Placed :
      (s : Minde d drm) (o : ℕ) (wanted : Bool) (entry : Option HeadEntry)
      → Placed o s (set_entry_sync d drm s o wanted entry)
  set_entry_sync-Placed s o wanted none = refl
  set_entry_sync-Placed s o wanted (some e) =
      let used = drm.use_vrr s.backend.device e.crtc wanted in
      let done = sync_set d drm s o e wanted used in
      let without = if wanted then (s, some sync_failed) else (wished d drm s o e false, none) in
      if-both (Placed o s) e.surface (if e.vrr_support then done else without)
        (wished d drm s o e wanted, none)
        (if-both (Placed o s) e.vrr_support done without (sync_set-Placed s o e wanted used) (
          if-both (Placed o s) wanted (s, some sync_failed) (wished d drm s o e false, none) refl
            refl))
        refl

  -- A request that succeeds leaves the head enabled exactly if `b`.
  abbrev pub Ends : ℕ → Bool → Answer d drm → Type 0
  Ends o b x = x.1 ≡ none → is_some (d.mapped x.0.world o) ≡ b

  then_sync-Ends :
      (o : ℕ) (b : Bool) (sync : Option Bool) (x : Answer d drm)
      → Ends o b x
      → Ends o b (then_sync d drm o sync x)
  unfolding udev_set_adaptive_sync
  then_sync-Ends o b sync (s, some msg) ends = ends
  then_sync-Ends o b none (s, none) ends = ends
  then_sync-Ends o b (some wanted) (s, none) ends =
      λ _. ap is_some (set_entry_sync-Placed s o wanted (s.backend.heads o)) ∙ ends refl

  enabled_head-Ends :
      (s : Minde d drm) (o : ℕ) (e : HeadEntry) (previous : OutputState) (position : ℤ × ℤ)
      (x : Option (drm.Device × HeadEntry))
      → d.mapped s.world o ≡ some position
      → Ends o true (enabled_head d drm s o e previous position x)
  enabled_head-Ends s o e previous position none at fails =
      absurd (some-ne-none initialize_failed fails)
  enabled_head-Ends s o e previous position (some (device, e')) at _ = ap is_some at

  enable_entry-Ends :
      (s : Minde d drm) (o mode : ℕ) (position : ℤ × ℤ) (entry : Option HeadEntry)
      → HeadOk (d.mapped s.world o) entry
      → Ends o true (enable_entry d drm s o mode position entry)
  enable_entry-Ends s o mode position none ok = λ fails. absurd (some-ne-none unknown_head fails)
  enable_entry-Ends s o mode position (some e) (_, placed) =
      let e' = record e { global = true; power = on } in
      let w1 =
        d.change_current_state s.world o (some (drm.wl_mode_from_drm mode)) none none
          (some position) in
      let w = d.map_output w1 o position in
      let made = init_surface drm s.backend.device e' mode in
      let before = d.state s.world o in
      if-split (Ends o true) e.global (s, none)
        (enabled_head d drm (with_world d s w) o e' before position made) (λ live _. placed ∙ live)
        (λ _.
          enabled_head-Ends (with_world d s w) o e' before position made
            (d.mapped-map w1 o o position ∙ if-own o (some position) (d.mapped w1 o)))

  enable_at-Ends :
      (s : Minde d drm) (o : ℕ) (position : ℤ × ℤ) (m : Option ℕ)
      → Ok d drm o s
      → Ends o true (enable_at d drm s o position m)
  unfolding enable_head
  enable_at-Ends s o position none ok = λ fails. absurd (some-ne-none no_connector_mode fails)
  enable_at-Ends s o position (some m) ok = enable_entry-Ends s o m position (s.backend.heads o) ok

  enable_in-Ends :
      (s : Minde d drm) (o : ℕ) (e : HeadEntry) (custom : Bool) (position : ℤ × ℤ)
      (wanted : Option Mode)
      → Ok d drm o s
      → Ends o true (enable_in d drm s o e custom position wanted)
  enable_in-Ends s o e custom position none ok = λ fails. absurd (some-ne-none no_mode fails)
  enable_in-Ends s o e custom position (some mode) ok =
      enable_at-Ends s o position (resolve_connector_mode e.modes mode custom) ok

  disable_entry-Ends :
      (s : Minde d drm) (o : ℕ) (entry : Option HeadEntry)
      → HeadOk (d.mapped s.world o) entry
      → (entry ≡ none → is_some (d.mapped s.world o) ≡ false)
      → is_some (d.mapped (disable_entry d drm s o entry).world o) ≡ false
  disable_entry-Ends s o none ok without = without refl
  disable_entry-Ends s o (some e) (_, placed) without =
      if-split (λ (x : Minde d drm). is_some (d.mapped x.world o) ≡ false) e.global
        (disabled d drm s o e) s
        (λ _. ap is_some (d.mapped-unmap s.world o o ∙ if-own o none (d.mapped s.world o)))
        (λ closed. placed ∙ closed)

  module _ (geometries : d.World → List (ℤ × ℤ)) where
    realize_entry-Ends :
        (s : Minde d drm) (o : ℕ) (c : HeadChange) (entry : Option HeadEntry)
        → s.backend.heads o ≡ entry
        → Ok d drm o s
        → Ends o c.enabled (realize_entry d drm geometries s o c entry)
    unfolding disable_head
    realize_entry-Ends s o c none at ok = λ fails. absurd (some-ne-none unknown_head fails)
    realize_entry-Ends s o c (some e) at ok =
        let mapped = is_some (d.mapped s.world o) in
        let custom = is_some c.custom_mode in
        let wanted =
          or_else (requested_mode c)
            (or_else (d.preferred_mode s.world o) (d.state s.world o).current_mode) in
        let position = value_or (edge_position d drm geometries s) c.position in
        let setting = set_requested d drm s o custom (requested_mode c) in
        let enabling = enable_in d drm s o e custom position wanted in
        let first = if mapped then setting else enabling in
        if-split (Ends o c.enabled) c.enabled (then_sync d drm o c.adaptive_sync first)
          (if mapped then disable_head d drm s o else s, none)
          (λ asked.
            subst (λ b. Ends o b (then_sync d drm o c.adaptive_sync first)) (sym asked)
              (then_sync-Ends o true c.adaptive_sync first (
                if-split (Ends o true) mapped setting enabling
                  (λ placed _.
                    ap is_some (set_requested-Placed s o custom (requested_mode c)) ∙ placed)
                  (λ _. enable_in-Ends s o e custom position wanted ok))))
          (λ asked _.
            if-split (λ (x : Minde d drm). is_some (d.mapped x.world o) ≡ false) mapped
              (disable_head d drm s o) s
              (λ _.
                disable_entry-Ends s o (s.backend.heads o) ok
                  (λ none_at. absurd (some-ne-none e (sym at ∙ none_at))))
              (λ off. off)
            ∙ sym asked)

    -- For a head that is enabled exactly when its output is mapped, and driven exactly when enabled and
    -- powered on: if the change is realised without an error, the output is mapped afterwards exactly if
    -- the change asks for an enabled head.
    pub udev_realize_head-enabled :
        (s : Minde d drm) (o : ℕ) (c : HeadChange)
        → Ok d drm o s
        → (udev_realize_head d drm geometries s o c).1 ≡ none
        → is_some (d.mapped (udev_realize_head d drm geometries s o c).0.world o) ≡ c.enabled
    unfolding udev_realize_head
    udev_realize_head-enabled s o c ok = realize_entry-Ends s o c (s.backend.heads o) refl ok
