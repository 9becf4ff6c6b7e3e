-- ===== src/Heads/Local.antt =====
-- src/udev.rs: enabling and disabling a head changes only that head, and drives it exactly if it is
-- enabled and powered on.
use minde.Base.{
  ℕ, ◌≡◌, refl, sym, ap, subst, ◌∙◌, Option, none, some, none-ne-some, some-injective, Bool, true,
  false, not, ◌&&◌, ◌||◌, if-both, ◌==◌, if◌then◌else◌, if-own, ℤ,
}
use minde.Outputs.{Mode, Scale, Transform}
use minde.Outputs.Layer.{OutputState, Desktop}
use minde.Outputs.Apply.{is_some}
use minde.Outputs.Frame.{other-change, other-map, other-unmap}
use minde.Heads.{
  Drm, is_on, HeadEntry, resume_vrr, initialized, init_surface, Minde, same_place, take_back,
}

-- A head is driven if it is enabled and powered on, and enabled if its output is mapped.
abbrev pub HeadOk : Option (ℤ × ℤ) → Option HeadEntry → Type 0
HeadOk m none = Unit
HeadOk m (some e) = (e.surface ≡ (e.global && is_on e.power)) × (is_some m ≡ e.global)

module _ (d : Desktop) where
  abbrev pub WorldLocal : ℕ → d.World → d.World → Type 0
  WorldLocal o w w' =
      (p : ℕ) → (o == p) ≡ false → (d.state w' p ≡ d.state w p) × (d.mapped w' p ≡ d.mapped w p)

  pub world_trans :
      (o : ℕ) (u v w : d.World) → WorldLocal o u v → WorldLocal o v w → WorldLocal o u w
  world_trans o u v w h k p ne = ((k p ne).0 ∙ (h p ne).0, (k p ne).1 ∙ (h p ne).1)

  pub world-change :
      (w : d.World) (o : ℕ) (m : Option Mode) (t : Option Transform) (s : Option Scale)
      (l : Option (ℤ × ℤ))
      → WorldLocal o w (d.change_current_state w o m t s l)
  world-change w o m t s l p ne = (other-change d w o p m t s l ne, d.mapped-change w o p m t s l)

  pub world-map : (w : d.World) (o : ℕ) (l : ℤ × ℤ) → WorldLocal o w (d.map_output w o l)
  world-map w o l p ne = (d.state-map w o p l, other-map d w o p l ne)

  pub world-unmap : (w : d.World) (o : ℕ) → WorldLocal o w (d.unmap_output w o)
  world-unmap w o p ne = (d.state-unmap w o p, other-unmap d w o p ne)

  pub take_back-Local :
      (w : d.World) (o : ℕ) (previous : OutputState) (position : ℤ × ℤ)
      → WorldLocal o w (take_back d w o previous position)
  take_back-Local w o previous position =
      if-both (WorldLocal o w)
        (is_some previous.current_mode || not (same_place previous.location position))
        (d.change_current_state w o previous.current_mode none none (some previous.location)) w
        (world-change w o previous.current_mode none none (some previous.location))
        (λ p ne. (refl, refl))

  pub take_back-mapped :
      (w : d.World) (o : ℕ) (previous : OutputState) (position : ℤ × ℤ)
      → d.mapped (take_back d w o previous position) o ≡ d.mapped w o
  take_back-mapped w o previous position =
      if-both (λ x. d.mapped x o ≡ d.mapped w o)
        (is_some previous.current_mode || not (same_place previous.location position))
        (d.change_current_state w o previous.current_mode none none (some previous.location)) w
        (d.mapped-change w o o previous.current_mode none none (some previous.location)) refl

module _ (d : Desktop) (drm : Drm) where
  -- A step of the backend on the head `o`.
  abbrev pub Local : ℕ → Minde d drm → Minde d drm → Type 0
  Local o s s' =
      WorldLocal d o s.world s'.world
      × ((p : ℕ) → (o == p) ≡ false → s'.backend.heads p ≡ s.backend.heads p)
      × (s'.explicit ≡ s.explicit)

  abbrev pub Ok : ℕ → Minde d drm → Type 0
  Ok o s = HeadOk (d.mapped s.world o) (s.backend.heads o)

  abbrev pub Good : ℕ → Minde d drm → Minde d drm → Type 0
  Good o s s' = Local o s s' × (Ok o s → Ok o s')

  pub Good-refl : (o : ℕ) (s : Minde d drm) → Good o s s
  Good-refl o s = (((λ p ne. (refl, refl)), (λ p ne. refl), refl), (λ h. h))

  pub Good-trans : (o : ℕ) (s t u : Minde d drm) → Good o s t → Good o t u → Good o s u
  Good-trans o s t u ((w, h, e), k) ((w', h', e'), k') = (
    (world_trans d o s.world t.world u.world w w', (λ p ne. h' p ne ∙ h p ne), e' ∙ e),
    (λ x. k' (k x)),
  )

  -- The head's new entry and the world fit together.
  pub put-Good :
      (o : ℕ) (s t : Minde d drm) (e : HeadEntry)
      → WorldLocal d o s.world t.world
      → t.backend.heads ≡ (λ p. if o == p then some e else s.backend.heads p)
      → t.explicit ≡ s.explicit
      → (Ok o s → HeadOk (d.mapped t.world o) (some e))
      → Good o s t
  put-Good o s t e local heads explicit ok = (
    (local, (λ p ne. ap (λ (f : ℕ → Option HeadEntry). f p) heads ∙ rw ne refl), explicit),
    (λ h.
        subst (HeadOk (d.mapped t.world o))
          (sym
            (ap (λ (f : ℕ → Option HeadEntry). f o) heads ∙ if-own o (some e) (s.backend.heads o)))
          (ok h)),
  )

  -- A head whose CRTC is initialised is driven.
  pub init_surface-driven :
      (device : drm.Device) (e : HeadEntry) (mode : ℕ) (x : drm.Device × HeadEntry)
      → init_surface drm device e mode ≡ some x
      → (x.1.surface ≡ true) × (x.1.global ≡ e.global) × (x.1.power ≡ e.power)
  unfolding init_surface
  init_surface-driven device e mode x h = ready (drm.initialize_output device e.crtc mode) h
    where
      Resumed : drm.Device × HeadEntry → Type 0
      Resumed y = (y.1.surface ≡ true) × (y.1.global ≡ e.global) × (y.1.power ≡ e.power)

      resumed : (dev : drm.Device) → Resumed (resume_vrr drm dev e)
      resumed dev =
          if-both Resumed e.vrr
            (if drm.vrr_supported dev e.crtc
              then (
                (drm.use_vrr dev e.crtc true).0,
                record e {
                  surface = true;
                  vrr_support = true;
                  vrr = (drm.use_vrr dev e.crtc true).1;
                },
              )
              else (dev, record e { surface = true; vrr_support = false; vrr = false }))
            (dev, record e { surface = true; vrr_support = drm.vrr_supported dev e.crtc })
            (if-both Resumed (drm.vrr_supported dev e.crtc)
              (
                (drm.use_vrr dev e.crtc true).0,
                record e {
                  surface = true;
                  vrr_support = true;
                  vrr = (drm.use_vrr dev e.crtc true).1;
                },
              )
              (dev, record e { surface = true; vrr_support = false; vrr = false })
              (refl, refl, refl) (refl, refl, refl))
            (refl, refl, refl)

      ready : (y : drm.Device × Bool) → initialized drm e y ≡ some x → Resumed x
      ready (dev, true) h = subst Resumed (some-injective (resume_vrr drm dev e) x h) (resumed dev)
      ready (dev, false) h = absurd (none-ne-some x h)
