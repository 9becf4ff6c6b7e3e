-- ===== src/Gamma/Second.antt =====
-- src/handlers/gamma_control.rs: a second control on an output that has one.
use minde.Base.{
  ℕ, ◌≡◌, refl, subst, sym, ap, ◌∙◌, inl, inr, List, [], ◌∷◌, Option, none, some, Bool-cases, ◌==◌,
  if◌then◌else◌, if-own, if-both,
}
use minde.Gamma.{
  Ramps, Drm, GammaControlEntry, GammaState, GammaEvent, failed, gamma_size, GammaFile, set_at,
  restore_entry, finish_gamma_control, gamma_info_for_output, create_with, create_gamma_control,
  write_entry, request_for, request_set_gamma, destroyed_for, control_destroyed, with_data,
}
use minde.Gamma.Restoring.{create_gamma_control-Created}

module _ (drm : Drm) where
  -- The control that comes second fails, with its user data.
  create_second :
      (s : GammaState drm.Device) (output second : ℕ) (e : GammaControlEntry)
      → s.gamma_controls output ≡ some e
      → create_gamma_control drm s (some output) second
        ≡ (with_data drm s second (some output), failed ∷ [])
  unfolding create_gamma_control
  create_second s output second e held =
      ap
        (λ h.
          create_with drm (with_data drm s second (some output)) output second h
            (gamma_info_for_output drm s.device s.heads output))
        held

  -- Its destruction ends the first one's entry.
  destroy_second :
      (s : GammaState drm.Device) (output second : ℕ) (e : GammaControlEntry)
      → s.gamma_controls output ≡ some e
      → s.user_data second ≡ some output
      → ((control_destroyed drm s second).gamma_controls output ≡ none)
        × ((control_destroyed drm s second).device ≡ (drm.set_gamma s.device e.crtc e.original).0)
        × ((control_destroyed drm s second).user_data ≡ set_at s.user_data second none)
  unfolding control_destroyed finish_gamma_control
  destroy_second s output second e held mine =
      subst
        (λ o.
          ((destroyed_for drm s o).gamma_controls output ≡ none)
          × ((destroyed_for drm s o).device ≡ (drm.set_gamma s.device e.crtc e.original).0)
          × (set_at (destroyed_for drm s o).user_data second none ≡ set_at s.user_data second none))
        (sym mine)
        (subst
          (λ h.
            ((restore_entry drm s output h).gamma_controls output ≡ none)
            × ((restore_entry drm s output h).device ≡ (drm.set_gamma s.device e.crtc e.original).0)
            × (set_at (restore_entry drm s output h).user_data second none
                ≡ set_at s.user_data second none))
          (sym held) (if-own output none (s.gamma_controls output), refl, refl))

  -- Nothing comes of the requests of a control whose output has no entry, or that is gone.
  ignored :
      (s : GammaState drm.Device) (output first second : ℕ) (f : ℕ → Option ℕ) (file : GammaFile)
      → s.gamma_controls output ≡ none
      → s.user_data ≡ set_at f second none
      → f first ≡ some output
      → request_set_gamma drm s first file ≡ (s, [])
  unfolding request_set_gamma
  ignored s output first second f file free kept mine = elim (Bool-cases (second == first)) [
    | inl same ↦
        ap (λ o. request_for drm s o file)
          (ap (λ (g : ℕ → Option ℕ). g first) kept ∙ ap (λ b. if b then none else f first) same)
    | inr other ↦
        ap (λ o. request_for drm s o file)
          (ap (λ (g : ℕ → Option ℕ). g first) kept
            ∙ ap (λ b. if b then none else f first) other
            ∙ mine)
        ∙ ap (write_entry drm s output file) free
  ]

  -- The second control failed with this result, and is destroyed.
  abbrev pub TakenAway :
      GammaState drm.Device
      → GammaState drm.Device
      → ℕ
      → ℕ
      → ℕ
      → ℕ
      → GammaFile
      → GammaState drm.Device × List GammaEvent
      → Type 0
  TakenAway s s1 output first second n file (s2, told) =
      (told ≡ failed ∷ [])
      × (s2.gamma_controls ≡ s1.gamma_controls)
      × (s2.device ≡ s.device)
      × ((control_destroyed drm s2 second).gamma_controls output ≡ none)
      × ((crtc : ℕ) × (r : Ramps) × (drm.get_gamma s.device crtc n ≡ some r)
          × ((control_destroyed drm s2 second).device ≡ (drm.set_gamma s.device crtc r).0))
      × (request_set_gamma drm (control_destroyed drm s2 second) first file
          ≡ (control_destroyed drm s2 second, []))

  -- After a control was told the size of its ramps, a second control on the same output is told that it
  -- failed, and changes neither the entry nor the ramps. But its destruction takes the first one's entry
  -- away and writes the ramps back that were there before the first, whose requests are ignored from
  -- then on.
  pub control_destroyed-second :
      (s : GammaState drm.Device) (output first second n : ℕ) (file : GammaFile)
      → (create_gamma_control drm s (some output) first).1 ≡ gamma_size n ∷ []
      → TakenAway s (create_gamma_control drm s (some output) first).0 output first second n file (
          create_gamma_control drm
            (create_gamma_control drm s (some output) first).0
            (some output)
            second)
  control_destroyed-second s output first second n file h =
      let s1 = (create_gamma_control drm s (some output) first).0 in
      let (e, held, size, read, device, kept) =
        create_gamma_control-Created drm s output first n h in
      let s2 = with_data drm s1 second (some output) in
      let s3 = control_destroyed drm s2 second in
      let (gone, wrote, cleared) =
        destroy_second s2 output second e held
          (if-own second (some output) (s1.user_data second)) in
      let mine : s2.user_data first ≡ some output =
        if-both (λ o. o ≡ some output) (second == first) (some output) (s1.user_data first) refl
          (ap (λ (f : ℕ → Option ℕ). f first) kept
            ∙ if-own first (some output) (s.user_data first)) in
      subst (TakenAway s s1 output first second n file)
        (sym (create_second s1 output second e held))
        (
          refl,
          refl,
          device,
          gone,
          (
            e.crtc,
            e.original,
            read,
            wrote ∙ ap (λ x. (drm.set_gamma x e.crtc e.original).0) device,
          ),
          ignored s3 output first second s2.user_data file gone cleared mine,
        )
