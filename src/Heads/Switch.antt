-- ===== src/Heads/Switch.antt =====
-- src/udev.rs: `enable_head` and `disable_head` keep the heads in order.
use minde.Base.{
  if-own, ℕ, ◌≡◌, refl, sym, ap, subst, ◌∙◌, [], ◌∷◌, ◌++◌, Option, none, some, true, false, ◌&&◌,
  if-both, if-split, if◌then◌else◌, ℤ,
}
use minde.Outputs.Layer.{OutputState, Desktop}
use minde.Outputs.Apply.{is_some, with_world}
use minde.Heads.{
  Drm, on, is_on, HeadEntry, gamma_output_removed, leave_all, retire_output_global,
  update_usable_area, clamp_pointer, park_redraw, unless_applying, init_surface, Minde, put_head,
  with_device, call, take_back, enabled_head, enable_entry, enable_head, disable_entry,
  disable_head,
}
use minde.Heads.Local.{
  HeadOk, WorldLocal, world_trans, world-change, world-map, world-unmap, take_back-Local,
  take_back-mapped, Ok, Good, Good-refl, put-Good, init_surface-driven,
}

driven-HeadOk :
    (m : Option (ℤ × ℤ)) (l : ℤ × ℤ) (e : HeadEntry)
    → m ≡ some l
    → e.surface ≡ true
    → e.global ≡ true
    → e.power ≡ on
    → HeadOk m (some e)
driven-HeadOk m l e at surface global power = (
  surface ∙ sym (ap (λ p. true && is_on p) power) ∙ ap (λ g. g && is_on e.power) (sym global),
  ap is_some at ∙ sym global,
)

module _ (d : Desktop) (drm : Drm) where
  enabled_head-Good :
      (s : Minde d drm) (o : ℕ) (e : HeadEntry) (previous : OutputState) (position : ℤ × ℤ)
      (w : d.World) (x : Option (drm.Device × HeadEntry))
      → WorldLocal d o s.world w
      → d.mapped w o ≡ some position
      → (Ok d drm o s → e.surface ≡ false)
      → ((y : drm.Device × HeadEntry)
          → x ≡ some y
          → (y.1.surface ≡ true) × (y.1.global ≡ true) × (y.1.power ≡ on))
      → Good d drm o s (enabled_head d drm (with_world d s w) o e previous position x).0
  enabled_head-Good s o e previous position w none local at dark ready =
      let w1 = d.unmap_output w o in
      let w2 = take_back d w1 o previous position in
      let gone : d.mapped w2 o ≡ none =
        take_back-mapped d w1 o previous position
        ∙ d.mapped-unmap w o o
        ∙ if-own o none (d.mapped w o) in
      put-Good d drm o s (enabled_head d drm (with_world d s w) o e previous position none).0
        (record e { global = false })
        (world_trans d o s.world w w2 local
          (world_trans d o w w1 w2 (world-unmap d w o) (take_back-Local d w1 o previous position)))
        refl refl (λ ok. (dark ok, ap is_some gone))
  enabled_head-Good s o e previous position w (some (device, e')) local at dark ready =
      let (surface, global, power) = ready (device, e') refl in
      put-Good d drm o s
        (enabled_head d drm (with_world d s w) o e previous position (some (device, e'))).0 e' local
        refl refl (λ ok. driven-HeadOk (d.mapped w o) position e' at surface global power)

  enable_entry-Good :
      (s : Minde d drm) (o mode : ℕ) (position : ℤ × ℤ) (entry : Option HeadEntry)
      → s.backend.heads o ≡ entry
      → Good d drm o s (enable_entry d drm s o mode position entry).0
  enable_entry-Good s o mode position none h = Good-refl d drm o s
  enable_entry-Good s o mode position (some e) h =
      let e' = record e { global = true; power = on } in
      let w1 =
        d.change_current_state s.world o (some (drm.wl_mode_from_drm mode)) none none
          (some position) in
      let w = d.map_output w1 o position in
      if-split (λ (x : Minde d drm × Option ℕ). Good d drm o s x.0) e.global (s, none)
        (enabled_head d drm (with_world d s w) o e' (d.state s.world o) position
          (init_surface drm s.backend.device e' mode))
        (λ _. Good-refl d drm o s)
        (λ closed.
          enabled_head-Good s o e' (d.state s.world o) position w
            (init_surface drm s.backend.device e' mode)
            (world_trans d o s.world w1 w (world-change d s.world o _ _ _ _)
              (world-map d w1 o position))
            (d.mapped-map w1 o o position ∙ if-own o (some position) (d.mapped w1 o))
            (λ ok.
              let (surface, _) = subst (HeadOk (d.mapped s.world o)) h ok in
              surface ∙ ap (λ g. g && is_on e.power) closed)
            (λ y r.
              let (surface, global, power) =
                init_surface-driven d drm s.backend.device e' mode y r in
              (surface, global, power)))

  pub enable_head-Good :
      (s : Minde d drm) (o mode : ℕ) (position : ℤ × ℤ)
      → Good d drm o s (enable_head d drm s o mode position).0
  unfolding enable_head
  enable_head-Good s o mode position = enable_entry-Good s o mode position (s.backend.heads o) refl

  -- The state once a head is disabled.
  abbrev pub disabled : Minde d drm → ℕ → HeadEntry → Minde d drm
  disabled s o e =
      let released = if e.surface then drm.release s.backend.device e.crtc else s.backend.device in
      call d drm
        (with_device d drm
          (put_head d drm (with_world d s (d.unmap_output s.world o)) o
            (record e { global = false; surface = false; power = on }))
          (drm.try_to_restore_modifiers released))
        ((if e.surface then (park_redraw o ∷ []) else [])
          ++ gamma_output_removed o
            ∷ leave_all o
            ∷ retire_output_global
            ∷ unless_applying d drm s (update_usable_area ∷ clamp_pointer ∷ []))

  disable_entry-Good :
      (s : Minde d drm) (o : ℕ) (entry : Option HeadEntry)
      → s.backend.heads o ≡ entry
      → Good d drm o s (disable_entry d drm s o entry)
  disable_entry-Good s o none h = Good-refl d drm o s
  disable_entry-Good s o (some e) h =
      if-both (Good d drm o s) e.global (disabled s o e) s
        (put-Good d drm o s (disabled s o e)
          (record e { global = false; surface = false; power = on }) (world-unmap d s.world o) refl
          refl
          (λ ok.
            (refl, ap is_some (d.mapped-unmap s.world o o ∙ if-own o none (d.mapped s.world o)))))
        (Good-refl d drm o s)

  pub disable_head-Good : (s : Minde d drm) (o : ℕ) → Good d drm o s (disable_head d drm s o)
  unfolding disable_head
  disable_head-Good s o = disable_entry-Good s o (s.backend.heads o) refl
