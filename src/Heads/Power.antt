-- ===== src/Heads/Power.antt =====
-- src/udev.rs: `udev_set_output_power` keeps the heads in order.
use minde.Base.{
  ℕ, ◌≡◌, refl, sym, ap, subst, ◌∙◌, Option, none, some, Bool, true, false, not, if-both, if-split,
  ◌&&◌, if◌then◌else◌, arith,
}
use minde.Outputs.{Mode}
use minde.Outputs.Layer.{Desktop}
use minde.Outputs.Apply.{is_some, with_world}
use minde.Heads.{Drm, on, off, is_on, HeadEntry, is_disabled, init_surface, Minde}
use minde.Heads.Realize.{
  find_mode, powered, power_preferred, retry_power, preferred_other, power_at, power_mode,
  power_current, power_off, power_entry, udev_set_output_power,
}
use minde.Heads.Local.{
  HeadOk, WorldLocal, world-change, Good, Good-refl, put-Good, init_surface-driven,
}
use minde.Heads.Steps.{Answered, entry-Good}

not-false : (b : Bool) → not b ≡ false → b ≡ true
not-false true h = refl
not-false false h = absurd (ground arith)

module _ (d : Desktop) (drm : Drm) where
  -- An initialised head, as enabled as the head that it replaces.
  abbrev Ready : HeadEntry → Option (drm.Device × HeadEntry) → Type 0
  Ready e x =
      (y : drm.Device × HeadEntry)
      → x ≡ some y
      → (y.1.surface ≡ true) × (y.1.global ≡ e.global) × (y.1.power ≡ e.power)

  powered-Good :
      (s : Minde d drm) (o : ℕ) (e : HeadEntry) (w : d.World) (y : drm.Device × HeadEntry)
      → s.backend.heads o ≡ some e
      → e.global ≡ true
      → WorldLocal d o s.world w
      → d.mapped w o ≡ d.mapped s.world o
      → (y.1.surface ≡ true) × (y.1.global ≡ e.global) × (y.1.power ≡ e.power)
      → Good d drm o s (powered d drm (with_world d s w) o y)
  powered-Good s o e w (device, e') at global local mapped (surface, kept, _) =
      put-Good d drm o s (powered d drm (with_world d s w) o (device, e'))
        (record e' { power = on }) local refl refl
        (λ ok.
          let (_, placed) = subst (HeadOk (d.mapped s.world o)) at ok in
          (
            surface ∙ sym (ap (λ g. g && true) (kept ∙ global)),
            ap is_some mapped ∙ placed ∙ sym kept,
          ))

  power_preferred-Good :
      (s : Minde d drm) (o : ℕ) (e : HeadEntry) (wl : Mode) (x : Option (drm.Device × HeadEntry))
      → s.backend.heads o ≡ some e
      → e.global ≡ true
      → Ready e x
      → Answered d drm o s (power_preferred d drm s o wl x)
  power_preferred-Good s o e wl none at global ready = Good-refl d drm o s
  power_preferred-Good s o e wl (some y) at global ready =
      powered-Good s o e (d.change_current_state s.world o (some wl) none none none) y at global
        (world-change d s.world o (some wl) none none none)
        (d.mapped-change s.world o o (some wl) none none none) (ready y refl)

  retry_power-Good :
      (s : Minde d drm) (o : ℕ) (e : HeadEntry) (m : Option (Mode × ℕ))
      → s.backend.heads o ≡ some e
      → e.global ≡ true
      → Answered d drm o s (retry_power d drm s o e m)
  retry_power-Good s o e none at global = Good-refl d drm o s
  retry_power-Good s o e (some (wl, m)) at global =
      power_preferred-Good s o e wl (init_surface drm s.backend.device e m) at global
        (init_surface-driven d drm s.backend.device e m)

  power_at-Good :
      (s : Minde d drm) (o : ℕ) (e : HeadEntry) (wl : Mode) (x : Option (drm.Device × HeadEntry))
      → s.backend.heads o ≡ some e
      → e.global ≡ true
      → Ready e x
      → Answered d drm o s (power_at d drm s o e wl x)
  power_at-Good s o e wl none at global ready =
      retry_power-Good s o e (preferred_other d drm (d.preferred_mode s.world o) wl e.modes) at
        global
  power_at-Good s o e wl (some y) at global ready =
      powered-Good s o e s.world y at global (λ p ne. (refl, refl)) refl (ready y refl)

  power_mode-Good :
      (s : Minde d drm) (o : ℕ) (e : HeadEntry) (wl : Mode) (m : Option (Mode × ℕ))
      → s.backend.heads o ≡ some e
      → e.global ≡ true
      → Answered d drm o s (power_mode d drm s o e wl m)
  power_mode-Good s o e wl none at global = Good-refl d drm o s
  power_mode-Good s o e wl (some (found, m)) at global =
      power_at-Good s o e wl (init_surface drm s.backend.device e m) at global
        (init_surface-driven d drm s.backend.device e m)

  power_current-Good :
      (s : Minde d drm) (o : ℕ) (e : HeadEntry) (m : Option Mode)
      → s.backend.heads o ≡ some e
      → e.global ≡ true
      → Answered d drm o s (power_current d drm s o e m)
  power_current-Good s o e none at global = Good-refl d drm o s
  power_current-Good s o e (some wl) at global =
      power_mode-Good s o e wl (find_mode wl e.modes) at global

  power_off-Good :
      (s : Minde d drm) (o : ℕ) (e : HeadEntry)
      → s.backend.heads o ≡ some e
      → e.global ≡ true
      → Good d drm o s (power_off d drm s o e)
  power_off-Good s o e at global =
      entry-Good d drm o s (power_off d drm s o e) e (record e { power = off; surface = false }) at
        refl refl refl (λ (_, placed). (sym (ap (λ g. g && false) global), placed))

  power_entry-Good :
      (s : Minde d drm) (o : ℕ) (wanted : Bool) (entry : Option HeadEntry)
      → s.backend.heads o ≡ entry
      → Answered d drm o s (power_entry d drm s o wanted entry)
  power_entry-Good s o wanted none at = Good-refl d drm o s
  power_entry-Good s o true (some e) at =
      let waking = power_current d drm s o e (d.state s.world o).current_mode in
      if-split (Answered d drm o s) (not e.global) (s, some is_disabled)
        (if is_on e.power then (s, none) else waking) (λ _. Good-refl d drm o s)
        (λ live.
          if-both (Answered d drm o s) (is_on e.power) (s, none) waking (Good-refl d drm o s)
            (power_current-Good s o e (d.state s.world o).current_mode at
              (not-false e.global live)))
  power_entry-Good s o false (some e) at =
      if-split (Answered d drm o s) (not e.global) (s, some is_disabled)
        (if is_on e.power then (power_off d drm s o e, none) else (s, none))
        (λ _. Good-refl d drm o s)
        (λ live.
          if-both (Answered d drm o s) (is_on e.power) (power_off d drm s o e, none) (s, none)
            (power_off-Good s o e at (not-false e.global live)) (Good-refl d drm o s))

  pub udev_set_output_power-Good :
      (s : Minde d drm) (o : ℕ) (wanted : Bool)
      → Answered d drm o s (udev_set_output_power d drm s o wanted)
  unfolding udev_set_output_power
  udev_set_output_power-Good s o wanted = power_entry-Good s o wanted (s.backend.heads o) refl
