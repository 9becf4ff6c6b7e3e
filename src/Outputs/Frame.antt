-- ===== src/Outputs/Frame.antt =====
-- src/handlers/output_management.rs: what the steps of `apply_output_configuration` change.
use minde.Base.{ℕ, ◌≡◌, refl, ◌∙◌, Option, none, some, false, ◌==◌, if-both, ℤ}
use minde.Outputs.{Mode, Scale, Transform, wl_to_transform, to_scale, HeadChange}
use minde.Outputs.Layer.{Desktop, Compositor, value_or, Same}
use minde.Outputs.Apply.{
  map_option, mark_position_explicit, mark_if_placed, commit_enabled, commit_head,
}

module _ (d : Desktop) where
  -- The operations of smithay leave another output alone.
  pub other-change :
      (w : d.World) (o p : ℕ) (m : Option Mode) (t : Option Transform) (s : Option Scale)
      (l : Option (ℤ × ℤ))
      → (o == p) ≡ false
      → d.state (d.change_current_state w o m t s l) p ≡ d.state w p
  other-change w o p m t s l ne = rw (d.state-change w o p m t s l, ne) refl

  pub other-map :
      (w : d.World) (o p : ℕ) (l : ℤ × ℤ)
      → (o == p) ≡ false
      → d.mapped (d.map_output w o l) p ≡ d.mapped w p
  other-map w o p l ne = rw (d.mapped-map w o p l, ne) refl

  pub other-unmap :
      (w : d.World) (o p : ℕ) → (o == p) ≡ false → d.mapped (d.unmap_output w o) p ≡ d.mapped w p
  other-unmap w o p ne = rw (d.mapped-unmap w o p, ne) refl

module _ (d : Desktop) {B : Type 0} where
  pub Same-refl : (p : ℕ) (s : Compositor d.World B) → Same d p s s
  Same-refl p s = (refl, refl, refl)

  pub Same-trans :
      (p : ℕ) (s t u : Compositor d.World B) → Same d p s t → Same d p t u → Same d p s u
  Same-trans p s t u h k = (k.0 ∙ h.0, k.1 ∙ h.1, k.2 ∙ h.2)

  mark-Same :
      (s : Compositor d.World B) (o p : ℕ) (l : Option (ℤ × ℤ))
      → (o == p) ≡ false
      → Same d p s (mark_if_placed d s o l)
  unfolding mark_position_explicit
  mark-Same s o p none ne = (refl, refl, refl)
  mark-Same s o p (some l) ne = (refl, refl, rw ne refl)

  pub commit_head-Same :
      (s : Compositor d.World B) (c : HeadChange) (p : ℕ)
      → (c.output == p) ≡ false
      → Same d p s (commit_head d s c)
  unfolding commit_head commit_enabled
  commit_head-Same s c p ne =
      let marked = mark_if_placed d s c.output c.position in
      let m = mark-Same s c.output p c.position ne in
      let w =
        d.change_current_state marked.world c.output c.mode (map_option wl_to_transform c.transform)
          (map_option to_scale c.scale) c.position in
      let l = value_or ((d.state w c.output).location) c.position in
      let changed : d.state w p ≡ d.state s.world p = other-change d _ _ _ _ _ _ _ ne ∙ m.0 in
      let kept : d.mapped w p ≡ d.mapped s.world p = d.mapped-change _ _ _ _ _ _ _ ∙ m.1 in
      if-both (Same d p s) c.enabled _ _
        (if-both (Same d p s) _ _ _
          (d.state-map w c.output p l ∙ changed, other-map d w c.output p l ne ∙ kept, m.2)
          (changed, kept, m.2))
        (d.state-unmap s.world c.output p, other-unmap d s.world c.output p ne, refl)
