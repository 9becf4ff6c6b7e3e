-- ===== src/Heads/Steps.antt =====
-- src/udev.rs: setting a head's mode and adaptive sync, and `udev_realize_head`, keep the heads in
-- order.
use minde.Base.{
  ℕ, ◌≡◌, refl, sym, ap, subst, List, [], ◌∷◌, Option, none, some, Bool, true, false, if-both, ◌==◌,
  if◌then◌else◌, ℤ,
}
use minde.Outputs.{Mode, or_else, HeadChange, requested_mode}
use minde.Outputs.Layer.{Desktop, value_or}
use minde.Outputs.Apply.{is_some, with_world}
use minde.Modes.{resolve_connector_mode}
use minde.Heads.{
  Drm, HeadEntry, render_now, sync_failed, Minde, put_head, with_device, call, disable_head,
}
use minde.Heads.Realize.{
  is_mode, modeset, set_drm_mode, set_entry_mode, udev_set_mode, sync_set, set_entry_sync,
  udev_set_adaptive_sync, then_sync, enable_at, enable_in, set_requested, edge_position,
  realize_entry, udev_realize_head,
}
use minde.Heads.Local.{HeadOk, WorldLocal, world-change, Good, Good-refl, Good-trans, put-Good}
use minde.Heads.Switch.{enable_head-Good, disable_head-Good}

module _ (d : Desktop) (drm : Drm) where
  abbrev pub Answer : Type 0
  Answer = Minde d drm × Option ℕ

  abbrev pub Answered : ℕ → Minde d drm → Answer → Type 0
  Answered o s x = Good d drm o s x.0

  -- A step that changes no head, and maps or unmaps no output.
  pub kept-Good :
      (o : ℕ) (s t : Minde d drm)
      → WorldLocal d o s.world t.world
      → t.backend.heads ≡ s.backend.heads
      → t.explicit ≡ s.explicit
      → d.mapped t.world o ≡ d.mapped s.world o
      → Good d drm o s t
  kept-Good o s t local heads explicit mapped = (
    (local, (λ p ne. ap (λ (f : ℕ → Option HeadEntry). f p) heads), explicit),
    (λ ok.
        subst (λ m. HeadOk m (t.backend.heads o)) (sym mapped)
          (subst (HeadOk (d.mapped s.world o)) (sym (ap (λ (f : ℕ → Option HeadEntry). f o) heads))
            ok)),
  )

  -- A new entry that is as enabled, powered and driven as the old one.
  pub entry-Good :
      (o : ℕ) (s t : Minde d drm) (e e' : HeadEntry)
      → s.backend.heads o ≡ some e
      → t.backend.heads ≡ (λ p. if o == p then some e' else s.backend.heads p)
      → t.world ≡ s.world
      → t.explicit ≡ s.explicit
      → (HeadOk (d.mapped s.world o) (some e) → HeadOk (d.mapped s.world o) (some e'))
      → Good d drm o s t
  entry-Good o s t e e' at heads world explicit keeps =
      put-Good d drm o s t e' (subst (WorldLocal d o s.world) (sym world) (λ p ne. (refl, refl)))
        heads explicit
        (λ ok.
          subst (λ w. HeadOk (d.mapped w o) (some e')) (sym world)
            (keeps (subst (HeadOk (d.mapped s.world o)) at ok)))

  -- The state with the mode recorded on the output.
  abbrev pub moded : Minde d drm → ℕ → Mode → Minde d drm
  moded s o mode = with_world d s (d.change_current_state s.world o (some mode) none none none)

  abbrev pub shown : Minde d drm → ℕ → drm.Device → Minde d drm
  shown s o device = call d drm (with_device d drm s device) (render_now o ∷ [])

  modeset-Good :
      (s : Minde d drm) (o : ℕ) (mode : Mode) (r : drm.Device × Bool)
      → Answered o s (modeset d drm s o mode r)
  modeset-Good s o mode (device, true) =
      kept-Good o s (shown (moded s o mode) o device)
        (world-change d s.world o (some mode) none none none) refl refl
        (d.mapped-change s.world o o (some mode) none none none)
  modeset-Good s o mode (device, false) = Good-refl d drm o s

  set_drm_mode-Good :
      (s : Minde d drm) (o : ℕ) (e : HeadEntry) (mode : Mode) (m : Option ℕ)
      → Answered o s (set_drm_mode d drm s o e mode m)
  set_drm_mode-Good s o e mode none = Good-refl d drm o s
  set_drm_mode-Good s o e mode (some m) =
      let done = modeset d drm s o mode (drm.use_mode s.backend.device e.crtc m) in
      let same = is_mode (d.state s.world o).current_mode mode in
      if-both (Answered o s) e.surface (if same then (s, none) else done) (moded s o mode, none)
        (if-both (Answered o s) same (s, none) done (Good-refl d drm o s)
          (modeset-Good s o mode (drm.use_mode s.backend.device e.crtc m)))
        (kept-Good o s (moded s o mode) (world-change d s.world o (some mode) none none none) refl
          refl (d.mapped-change s.world o o (some mode) none none none))

  set_entry_mode-Good :
      (s : Minde d drm) (o : ℕ) (mode : Mode) (custom : Bool) (entry : Option HeadEntry)
      → Answered o s (set_entry_mode d drm s o mode custom entry)
  set_entry_mode-Good s o mode custom none = Good-refl d drm o s
  set_entry_mode-Good s o mode custom (some e) =
      set_drm_mode-Good s o e mode (resolve_connector_mode e.modes mode custom)

  pub udev_set_mode-Good :
      (s : Minde d drm) (o : ℕ) (mode : Mode) (custom : Bool)
      → Answered o s (udev_set_mode d drm s o mode custom)
  unfolding udev_set_mode
  udev_set_mode-Good s o mode custom = set_entry_mode-Good s o mode custom (s.backend.heads o)

  abbrev pub wished : Minde d drm → ℕ → HeadEntry → Bool → Minde d drm
  wished s o e wanted = put_head d drm s o (record e { vrr = wanted })

  wished-Good :
      (s : Minde d drm) (o : ℕ) (e : HeadEntry) (wanted : Bool)
      → s.backend.heads o ≡ some e
      → Good d drm o s (wished s o e wanted)
  wished-Good s o e wanted at =
      entry-Good o s (wished s o e wanted) e (record e { vrr = wanted }) at refl refl refl
        (λ ok. ok)

  sync_set-Good :
      (s : Minde d drm) (o : ℕ) (e : HeadEntry) (wanted : Bool) (r : drm.Device × Bool)
      → s.backend.heads o ≡ some e
      → Answered o s (sync_set d drm s o e wanted r)
  sync_set-Good s o e wanted (device, true) at =
      entry-Good o s (shown (wished s o e wanted) o device) e (record e { vrr = wanted }) at refl
        refl refl (λ ok. ok)
  sync_set-Good s o e wanted (device, false) at = Good-refl d drm o s

  set_entry_sync-Good :
      (s : Minde d drm) (o : ℕ) (wanted : Bool) (entry : Option HeadEntry)
      → s.backend.heads o ≡ entry
      → Answered o s (set_entry_sync d drm s o wanted entry)
  set_entry_sync-Good s o wanted none at = Good-refl d drm o s
  set_entry_sync-Good s o wanted (some e) at =
      let done = sync_set d drm s o e wanted (drm.use_vrr s.backend.device e.crtc wanted) in
      let without = if wanted then (s, some sync_failed) else (wished s o e false, none) in
      if-both (Answered o s) e.surface (if e.vrr_support then done else without)
        (wished s o e wanted, none)
        (if-both (Answered o s) e.vrr_support done without
          (sync_set-Good s o e wanted (drm.use_vrr s.backend.device e.crtc wanted) at)
          (if-both (Answered o s) wanted (s, some sync_failed) (wished s o e false, none)
            (Good-refl d drm o s) (wished-Good s o e false at)))
        (wished-Good s o e wanted at)

  pub udev_set_adaptive_sync-Good :
      (s : Minde d drm) (o : ℕ) (wanted : Bool)
      → Answered o s (udev_set_adaptive_sync d drm s o wanted)
  unfolding udev_set_adaptive_sync
  udev_set_adaptive_sync-Good s o wanted = set_entry_sync-Good s o wanted (s.backend.heads o) refl

  then_sync-Good :
      (s : Minde d drm) (o : ℕ) (sync : Option Bool) (x : Answer)
      → Answered o s x
      → Answered o s (then_sync d drm o sync x)
  then_sync-Good s o sync (t, some msg) good = good
  then_sync-Good s o none (t, none) good = good
  then_sync-Good s o (some wanted) (t, none) good =
      Good-trans d drm o s t (udev_set_adaptive_sync d drm t o wanted).0 good
        (udev_set_adaptive_sync-Good t o wanted)

  enable_at-Good :
      (s : Minde d drm) (o : ℕ) (position : ℤ × ℤ) (m : Option ℕ)
      → Answered o s (enable_at d drm s o position m)
  enable_at-Good s o position none = Good-refl d drm o s
  enable_at-Good s o position (some m) = enable_head-Good d drm s o m position

  enable_in-Good :
      (s : Minde d drm) (o : ℕ) (e : HeadEntry) (custom : Bool) (position : ℤ × ℤ) (m : Option Mode)
      → Answered o s (enable_in d drm s o e custom position m)
  enable_in-Good s o e custom position none = Good-refl d drm o s
  enable_in-Good s o e custom position (some mode) =
      enable_at-Good s o position (resolve_connector_mode e.modes mode custom)

  set_requested-Good :
      (s : Minde d drm) (o : ℕ) (custom : Bool) (m : Option Mode)
      → Answered o s (set_requested d drm s o custom m)
  set_requested-Good s o custom none = Good-refl d drm o s
  set_requested-Good s o custom (some mode) =
      if-both (Answered o s) (is_mode (d.state s.world o).current_mode mode) (s, none)
        (udev_set_mode d drm s o mode custom) (Good-refl d drm o s)
        (udev_set_mode-Good s o mode custom)

  module _ (geometries : d.World → List (ℤ × ℤ)) where
    realize_entry-Good :
        (s : Minde d drm) (o : ℕ) (c : HeadChange) (entry : Option HeadEntry)
        → Answered o s (realize_entry d drm geometries s o c entry)
    realize_entry-Good s o c none = Good-refl d drm o s
    realize_entry-Good s o c (some e) =
        let mapped = is_some (d.mapped s.world o) in
        let custom = is_some c.custom_mode in
        let wanted =
          or_else (requested_mode c)
            (or_else (d.preferred_mode s.world o) (d.state s.world o).current_mode) in
        let position = value_or (edge_position d drm geometries s) c.position in
        let setting = set_requested d drm s o custom (requested_mode c) in
        let enabling = enable_in d drm s o e custom position wanted in
        let first = if mapped then setting else enabling in
        if-both (Answered o s) c.enabled (then_sync d drm o c.adaptive_sync first)
          (if mapped then disable_head d drm s o else s, none)
          (then_sync-Good s o c.adaptive_sync first (
            if-both (Answered o s) mapped setting enabling
              (set_requested-Good s o custom (requested_mode c))
              (enable_in-Good s o e custom position wanted)))
          (if-both (Good d drm o s) mapped (disable_head d drm s o) s (disable_head-Good d drm s o)
            (Good-refl d drm o s))

    pub udev_realize_head-Good :
        (s : Minde d drm) (o : ℕ) (c : HeadChange)
        → Answered o s (udev_realize_head d drm geometries s o c)
    unfolding udev_realize_head
    udev_realize_head-Good s o c = realize_entry-Good s o c (s.backend.heads o)
