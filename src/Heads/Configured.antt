-- ===== src/Heads/Configured.antt =====
-- src/handlers/output_management.rs over src/udev.rs: an output configuration that is applied by the DRM
-- backend keeps the heads in order.
use minde.Base.{
  ℕ, ◌≡◌, refl, sym, ap, subst, ◌∙◌, inl, inr, List, [], ◌∷◌, Option, none, some, true, false,
  Bool-cases, not, ◌||◌, ◌==◌, if-both, ℤ, Result, ok, err, err-ne-ok, arith,
}
use minde.Outputs.{HeadChange, ResolvedChange, OutputConfigError}
use minde.Outputs.Layer.{Desktop, Compositor, value_or}
use minde.Outputs.Apply.{
  is_some, HeadBackup, with_world, mark_if_placed, mark_position_explicit, map_committed,
  commit_enabled, commit_head, backup_of, resolved_change, after_realize, apply_loop, set_applying,
  finish_apply, apply_resolved, apply_output_configuration,
}
use minde.Outputs.Frame.{commit_head-Same}
use minde.Outputs.Commit.{commit_head-Realized}
use minde.Heads.{Drm, HeadEntry, Udev, Minde}
use minde.Heads.Realize.{udev_realize_head}
use minde.Heads.Local.{HeadOk}
use minde.Heads.Steps.{udev_realize_head-Good}
use minde.Heads.Enabled.{udev_realize_head-enabled}
use minde.Heads.Runs.{InOrder, Good-InOrder, udev}

module _ (d : Desktop) {B : Type 0} where
  mark-backend :
      (s : Compositor d.World B) (o : ℕ) (l : Option (ℤ × ℤ))
      → (mark_if_placed d s o l).backend ≡ s.backend
  unfolding mark_position_explicit
  mark-backend s o none = refl
  mark-backend s o (some l) = refl

  map_committed-backend :
      (s : Compositor d.World B) (o : ℕ) (l : Option (ℤ × ℤ))
      → (map_committed d s o l).backend ≡ s.backend
  map_committed-backend s o l =
      if-both (λ (t : Compositor d.World B). t.backend ≡ s.backend)
        (not (is_some (d.mapped s.world o)) || is_some l)
        (with_world d s (d.map_output s.world o (value_or ((d.state s.world o).location) l))) s refl
        refl

  -- `commit_head` does not touch the backend.
  commit_head-backend :
      (s : Compositor d.World B) (c : HeadChange) → (commit_head d s c).backend ≡ s.backend
  unfolding commit_head commit_enabled
  commit_head-backend s c =
      if-both (λ (t : Compositor d.World B). t.backend ≡ s.backend) c.enabled (commit_enabled d s c)
        (with_world d s (d.unmap_output s.world c.output))
        (map_committed-backend _ c.output c.position ∙ mark-backend s c.output c.position) refl

  -- The output is mapped afterwards exactly if the change enables it.
  commit_head-mapped :
      (s : Compositor d.World B) (c : HeadChange)
      → is_some (d.mapped (commit_head d s c).world c.output) ≡ c.enabled
  commit_head-mapped s c =
      let (off, on) = commit_head-Realized d s c in
      elim (Bool-cases c.enabled) [ inl e ↦ (on e).0 ∙ sym e | inr e ↦ ap is_some (off e) ∙ sym e ]

HeadOk-is_some :
    (m n : Option (ℤ × ℤ)) (entry : Option HeadEntry)
    → is_some n ≡ is_some m
    → HeadOk m entry
    → HeadOk n entry
HeadOk-is_some m n none e h = tt
HeadOk-is_some m n (some x) e (driven, placed) = (driven, e ∙ placed)

module _ (d : Desktop) (drm : Drm) where
  -- A head that the backend has realised stays in order when it is committed.
  commit_head-InOrder :
      (s : Minde d drm) (c : HeadChange)
      → is_some (d.mapped s.world c.output) ≡ c.enabled
      → InOrder d drm s
      → InOrder d drm (commit_head d s c)
  unfolding InOrder
  commit_head-InOrder s c as_asked all p =
      let t = commit_head d s c in
      let backend = ap (λ (b : Udev drm.Device). b.heads p) (commit_head-backend d s c) in
      subst (HeadOk (d.mapped t.world p)) (sym backend) (
        HeadOk-is_some (d.mapped s.world p) (d.mapped t.world p) (s.backend.heads p)
          (elim (Bool-cases (c.output == p)) [
            | inl e ↦
                let named : c.output ≡ p = ground arith in
                subst (λ q. is_some (d.mapped t.world q) ≡ is_some (d.mapped s.world q)) named
                  (commit_head-mapped d s c ∙ sym as_asked)
            | inr e ↦ ap is_some (commit_head-Same d s c p e).1
          ])
          (all p))

  module _ (geometries : d.World → List (ℤ × ℤ)) where
    -- What the loop leaves when no head failed.
    abbrev Fine : Minde d drm × List HeadBackup × Option ℕ → Type 0
    Fine (t, ks, some msg) = Unit
    Fine (t, ks, none) = InOrder d drm t

    after_realize-Fine :
        (next : Minde d drm → Minde d drm × List HeadBackup × Option ℕ) (c : HeadChange)
        (ks : List HeadBackup) (x : Minde d drm × Option ℕ)
        → (x.1 ≡ none → Fine (next (commit_head d x.0 c)))
        → Fine (after_realize d (udev d drm geometries) next c ks x)
    after_realize-Fine next c ks (t, some msg) h = tt
    after_realize-Fine next c ks (t, none) h = h refl

    apply_loop-Fine :
        (s : Minde d drm) (rs : List ResolvedChange) (ks : List HeadBackup)
        → InOrder d drm s
        → Fine (apply_loop d (udev d drm geometries) rs ks s)
    unfolding apply_loop InOrder
    apply_loop-Fine s [] ks all = all
    apply_loop-Fine s (r ∷ rs) ks all =
        let b = udev d drm geometries in
        let o = r.change.output in
        let c = resolved_change d b r in
        let k = backup_of d b s r in
        let x = udev_realize_head d drm geometries s o c in
        after_realize-Fine (apply_loop d b rs (k ∷ ks)) c (k ∷ ks) x (λ done.
          apply_loop-Fine (commit_head d x.0 c) rs (k ∷ ks) (
            commit_head-InOrder x.0 c
              (udev_realize_head-enabled d drm geometries s o c (all o) done)
              (Good-InOrder d drm o s x.0 (udev_realize_head-Good d drm geometries s o c) all)))

    finish_apply-InOrder :
        (x : Minde d drm × List HeadBackup × Option ℕ)
        → Fine x
        → (finish_apply d (udev d drm geometries) x).1 ≡ ok tt
        → InOrder d drm (finish_apply d (udev d drm geometries) x).0
    unfolding InOrder
    finish_apply-InOrder (t, ks, none) fine e = fine
    finish_apply-InOrder (t, ks, some msg) fine e = absurd (err-ne-ok e)

    apply_resolved-InOrder :
        (s : Minde d drm) (v : Result (List ResolvedChange) OutputConfigError)
        → InOrder d drm s
        → (apply_resolved d (udev d drm geometries) s false v).1 ≡ ok tt
        → InOrder d drm (apply_resolved d (udev d drm geometries) s false v).0
    unfolding InOrder
    apply_resolved-InOrder s (err x) all e = absurd (err-ne-ok e)
    apply_resolved-InOrder s (ok rs) all e =
        let b = udev d drm geometries in
        finish_apply-InOrder (apply_loop d b rs [] (set_applying d b true s))
          (apply_loop-Fine (set_applying d b true s) rs [] all) e

    -- If every head of the DRM backend is driven exactly when enabled and powered on, and enabled exactly
    -- when its output is mapped, the same holds after a configuration that is applied without an error.
    pub apply_output_configuration-InOrder :
        (s : Minde d drm) (changes : List HeadChange)
        → InOrder d drm s
        → (apply_output_configuration d (udev d drm geometries) s changes false).1 ≡ ok tt
        → InOrder d drm (apply_output_configuration d (udev d drm geometries) s changes false).0
    unfolding apply_output_configuration
    apply_output_configuration-InOrder s changes all e = apply_resolved-InOrder s _ all e
