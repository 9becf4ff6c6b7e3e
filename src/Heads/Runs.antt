-- ===== src/Heads/Runs.antt =====
-- src/udev.rs: what the other parts of the compositor ask of the heads, in any order.
use minde.Base.{ℕ, sym, ap, subst, Option, Bool, Bool-cases, ◌==◌, ℤ, List, arith}
use minde.Base.{inl, inr}
use minde.Outputs.{Mode, HeadChange}
use minde.Outputs.Layer.{Desktop, Backend}
use minde.Heads.{Drm, Udev, Minde, enable_head, disable_head}
use minde.Heads.Realize.{
  udev_realize_head, udev_output_adaptive_sync, udev_set_mode, udev_set_adaptive_sync,
  udev_set_output_power,
}
use minde.Heads.Local.{HeadOk, Ok, Good}
use minde.Heads.Switch.{enable_head-Good, disable_head-Good}
use minde.Heads.Steps.{udev_set_mode-Good, udev_set_adaptive_sync-Good, udev_realize_head-Good}
use minde.Heads.Power.{udev_set_output_power-Good}

module _ (d : Desktop) (drm : Drm) where
  -- Every head is driven exactly if it is enabled and powered on, and enabled exactly if its output is
  -- mapped.
  unfoldable pub InOrder : Minde d drm → Type 0
  InOrder s = (p : ℕ) → Ok d drm p s

  pub Good-InOrder : (o : ℕ) (s t : Minde d drm) → Good d drm o s t → InOrder s → InOrder t
  unfolding InOrder
  Good-InOrder o s t ((world, heads, _), ok) all p = elim (Bool-cases (o == p)) [
    | inl same ↦ subst (λ q. Ok d drm q t) (ground arith) (ok (all o))
    | inr other ↦
        subst (λ m. HeadOk m (t.backend.heads p)) (sym (world p other).1)
          (subst (HeadOk (d.mapped s.world p)) (sym (heads p other)) (all p))
  ]

module _ (d : Desktop) (drm : Drm) (geometries : d.World → List (ℤ × ℤ)) where
  -- One request, whatever it answers.
  pub data Step : Minde d drm → Minde d drm → Type 0 where
    enables :
        (s : Minde d drm) (o mode : ℕ) (position : ℤ × ℤ)
        → Step s (enable_head d drm s o mode position).0
    disables : (s : Minde d drm) (o : ℕ) → Step s (disable_head d drm s o)
    realizes :
        (s : Minde d drm) (o : ℕ) (c : HeadChange)
        → Step s (udev_realize_head d drm geometries s o c).0
    sets_mode :
        (s : Minde d drm) (o : ℕ) (mode : Mode) (custom : Bool)
        → Step s (udev_set_mode d drm s o mode custom).0
    sets_sync :
        (s : Minde d drm) (o : ℕ) (wanted : Bool)
        → Step s (udev_set_adaptive_sync d drm s o wanted).0
    sets_power :
        (s : Minde d drm) (o : ℕ) (wanted : Bool)
        → Step s (udev_set_output_power d drm s o wanted).0

  pub data Runs : Minde d drm → Minde d drm → Type 0 where
    stays : (s : Minde d drm) → Runs s s
    then_step : (s t u : Minde d drm) → Runs s t → Step t u → Runs s u

  Step-InOrder : (s t : Minde d drm) → Step s t → InOrder d drm s → InOrder d drm t
  Step-InOrder s _ (enables _ o mode position) =
      Good-InOrder d drm o s (enable_head d drm s o mode position).0
        (enable_head-Good d drm s o mode position)
  Step-InOrder s _ (disables _ o) =
      Good-InOrder d drm o s (disable_head d drm s o) (disable_head-Good d drm s o)
  Step-InOrder s _ (realizes _ o c) =
      Good-InOrder d drm o s (udev_realize_head d drm geometries s o c).0
        (udev_realize_head-Good d drm geometries s o c)
  Step-InOrder s _ (sets_mode _ o mode custom) =
      Good-InOrder d drm o s (udev_set_mode d drm s o mode custom).0
        (udev_set_mode-Good d drm s o mode custom)
  Step-InOrder s _ (sets_sync _ o wanted) =
      Good-InOrder d drm o s (udev_set_adaptive_sync d drm s o wanted).0
        (udev_set_adaptive_sync-Good d drm s o wanted)
  Step-InOrder s _ (sets_power _ o wanted) =
      Good-InOrder d drm o s (udev_set_output_power d drm s o wanted).0
        (udev_set_output_power-Good d drm s o wanted)

  -- Whatever is asked of the heads and in whatever order, and whether or not it succeeds: if every
  -- head was driven exactly when enabled and powered on, and enabled exactly when its output is
  -- mapped, the same holds afterwards.
  pub Runs-InOrder : (s t : Minde d drm) → Runs s t → InOrder d drm s → InOrder d drm t
  Runs-InOrder s _ (stays _) all = all
  Runs-InOrder s u (then_step _ t _ before step) all =
      Step-InOrder t u step (Runs-InOrder s t before all)

  -- The DRM backend, as the generic part of an output configuration sees it.
  abbrev pub udev : Backend d (Udev drm.Device)
  udev = record {
    realize_head = udev_realize_head d drm geometries;
    adaptive_sync = udev_output_adaptive_sync d drm;
    realize-Same = λ s o p c ne.
        let ((world, _, explicit), _) = udev_realize_head-Good d drm geometries s o c in
        ((world p ne).0, (world p ne).1, ap (λ (f : ℕ → Option Bool). f p) explicit);
    realize-explicit = λ s o c.
        let ((_, _, explicit), _) = udev_realize_head-Good d drm geometries s o c in explicit;
  }
