-- ===== src/Gamma/Restoring.antt =====
-- src/handlers/gamma_control.rs: a control that goes away leaves the ramps that it found.
use minde.Base.{
  ℕ, ◌*◌, ◌≡◌, refl, sym, ap, subst, ◌∙◌, ◌⊎◌, inl, inr, List, [], ◌∷◌, Option, none, some, true,
  ◌==◌, if-split, if-both, if-own, All, All-map, arith,
}
use mathlib.Core.Path.{Path}
use minde.Gamma.{
  Ramps, parse_ramps, Drm, GammaControlEntry, GammaState, GammaEvent, failed, gamma_size, GammaFile,
  read_table, set_at, restore_entry, finish_gamma_control, gamma_info_for_output, insert_entry,
  create_with, create_gamma_control, write_ramps, write_table, write_entry, request_set_gamma,
  control_destroyed, request_for, destroyed_for, with_data,
}

silent : {n : ℕ} → Path (List GammaEvent) (failed ∷ []) (gamma_size n ∷ []) → ⊥
silent h = absurd (ground arith)

announced : {m n : ℕ} → Path (List GammaEvent) (gamma_size m ∷ []) (gamma_size n ∷ []) → m ≡ n
announced h = cc

module _ (drm : Drm) where
  -- The requests of controls, one after the other.
  abbrev pub set_all : GammaState drm.Device → List (ℕ × GammaFile) → GammaState drm.Device
  set_all s [] = s
  set_all s ((control, file) ∷ files) = set_all (request_set_gamma drm s control file).0 files

  -- The last write on the device was of the entry's original ramps.
  abbrev pub WroteBack : GammaControlEntry → drm.Device → Type 0
  WroteBack e device =
      (d : drm.Device) × (device ≡ (drm.set_gamma d e.crtc e.original).0)
      × ((old : drm.Device)
          → drm.get_gamma old e.crtc e.size ≡ some e.original
          → (drm.set_gamma d e.crtc e.original).1 ≡ true
          → drm.get_gamma device e.crtc e.size ≡ some e.original)

  abbrev Held : ℕ → GammaControlEntry → GammaState drm.Device → Type 0
  Held output e s =
      (s.gamma_controls output ≡ some e) ⊎ ((s.gamma_controls output ≡ none) × WroteBack e s.device)

  set_at-own :
      (f : ℕ → Option GammaControlEntry) (i : ℕ) (x : Option GammaControlEntry) → set_at f i x i ≡ x
  set_at-own f i x = let e : (i == i) ≡ true = ground arith in rw e refl

  finish-Held :
      (s : GammaState drm.Device) (output : ℕ) (e : GammaControlEntry)
      → s.gamma_controls output ≡ some e
      → ((finish_gamma_control drm s output).gamma_controls output ≡ none)
        × WroteBack e (finish_gamma_control drm s output).device
  unfolding finish_gamma_control
  finish-Held s output e held = rw held (
    set_at-own s.gamma_controls output none,
    (s.device, refl, (λ old r w. drm.get-set old s.device e.crtc e.size e.original r w)),
  )

  -- A request keeps the entry, or ends with its original ramps written.
  request-Held :
      (s : GammaState drm.Device) (output : ℕ) (e : GammaControlEntry) (file : GammaFile)
      → Held output e s
      → Held output e (request_for drm s (some output) file).0
  request-Held s output e file (inr (gone, back)) =
      subst (λ o. Held output e (write_entry drm s output file o).0) (sym gone) (inr (gone, back))
  request-Held s output e file (inl held) =
      subst (λ o. Held output e (write_entry drm s output file o).0) (sym held)
        (table (read_table (e.size * 3 * 2) file))
    where
      ramps : (r : Option Ramps) → Held output e (write_ramps drm s output e r).0
      ramps none = inl held
      ramps (some r) =
          if-split (λ (x : GammaState drm.Device × List GammaEvent). Held output e x.0)
            (drm.set_gamma s.device e.crtc r).1
            (record s { device = (drm.set_gamma s.device e.crtc r).0 }, [])
            (
              finish_gamma_control drm (record s { device = (drm.set_gamma s.device e.crtc r).0 })
                  output,
              failed ∷ [],
            )
            (λ _. inl held)
            (λ _. inr (
              finish-Held (record s { device = (drm.set_gamma s.device e.crtc r).0 }) output e
                held))

      table : (b : Option (List ℕ)) → Held output e (write_table drm s output e b).0
      table none = inr (finish-Held s output e held)
      table (some bytes) = ramps (parse_ramps bytes e.size)

  -- The user data of the controls stay as they are.
  finish_data :
      (s : GammaState drm.Device) (output : ℕ)
      → (finish_gamma_control drm s output).user_data ≡ s.user_data
  unfolding finish_gamma_control
  finish_data s output = restored (s.gamma_controls output)
    where
      restored :
          (o : Option GammaControlEntry) → (restore_entry drm s output o).user_data ≡ s.user_data
      restored none = refl
      restored (some e) = refl

  request_data :
      (s : GammaState drm.Device) (target : Option ℕ) (file : GammaFile)
      → (request_for drm s target file).0.user_data ≡ s.user_data
  request_data s none file = refl
  request_data s (some output) file = entry (s.gamma_controls output)
    where
      ramps :
          (e : GammaControlEntry) (r : Option Ramps)
          → (write_ramps drm s output e r).0.user_data ≡ s.user_data
      ramps e none = refl
      ramps e (some r) =
          let s' : GammaState drm.Device = record s {
            device = (drm.set_gamma s.device e.crtc r).0;
          } in
          if-both (λ (x : GammaState drm.Device × List GammaEvent). x.0.user_data ≡ s.user_data)
            (drm.set_gamma s.device e.crtc r).1 (s', [])
            (finish_gamma_control drm s' output, failed ∷ []) refl (finish_data s' output)

      table :
          (e : GammaControlEntry) (b : Option (List ℕ))
          → (write_table drm s output e b).0.user_data ≡ s.user_data
      table e none = finish_data s output
      table e (some bytes) = ramps e (parse_ramps bytes e.size)

      entry :
          (o : Option GammaControlEntry)
          → (write_entry drm s output file o).0.user_data ≡ s.user_data
      entry none = refl
      entry (some e) = table e (read_table (e.size * 3 * 2) file)

  -- A control of the output.
  abbrev pub Of : GammaState drm.Device → ℕ → ℕ × GammaFile → Type 0
  Of s output q = s.user_data q.0 ≡ some output

  set_all-Held :
      (s : GammaState drm.Device) (output : ℕ) (e : GammaControlEntry)
      (files : List (ℕ × GammaFile))
      → All (Of s output) files
      → Held output e s
      → Held output e (set_all s files) × ((set_all s files).user_data ≡ s.user_data)
  unfolding request_set_gamma
  set_all-Held s output e [] of h = (h, refl)
  set_all-Held s output e ((c, file) ∷ files) (mine, of) h =
      let t = (request_set_gamma drm s c file).0 in
      let kept_data = request_data s (s.user_data c) file in
      let (held, later) =
        set_all-Held t output e files
          (All-map (Of s output) (Of t output) files
            (λ q m. ap (λ (f : ℕ → Option ℕ). f q.0) kept_data ∙ m) of)
          (subst (λ o. Held output e (request_for drm s o file).0) (sym mine)
            (request-Held s output e file h)) in
      (held, later ∙ kept_data)

  destroyed-WroteBack :
      (s : GammaState drm.Device) (output control : ℕ) (e : GammaControlEntry)
      → s.user_data control ≡ some output
      → Held output e s
      → ((control_destroyed drm s control).gamma_controls output ≡ none)
        × WroteBack e (control_destroyed drm s control).device
  unfolding control_destroyed finish_gamma_control
  destroyed-WroteBack s output control e mine h =
      subst
        (λ o.
          ((destroyed_for drm s o).gamma_controls output ≡ none)
          × WroteBack e (destroyed_for drm s o).device)
        (sym mine)
        (elim h [
          | inl held ↦ finish-Held s output e held
          | inr (gone, back) ↦
              subst
                (λ o.
                  ((restore_entry drm s output o).gamma_controls output ≡ none)
                  × WroteBack e (restore_entry drm s output o).device)
                (sym gone) (gone, back)
        ])

  -- What a created control found on its CRTC.
  abbrev pub Created : GammaState drm.Device → ℕ → ℕ → GammaState drm.Device → Type 0
  Created s output n s1 =
      (e : GammaControlEntry) × (s1.gamma_controls output ≡ some e)
      × (e.size ≡ n)
      × (drm.get_gamma s.device e.crtc n ≡ some e.original)
      × (s1.device ≡ s.device)
      × (s1.user_data ≡ s.user_data)

  -- A result that announces the size is of a created control.
  abbrev Announces :
      GammaState drm.Device → ℕ → ℕ → GammaState drm.Device × List GammaEvent → Type 0
  Announces s output n x = x.1 ≡ gamma_size n ∷ [] → Created s output n x.0

  insert_entry-Announces :
      (s : GammaState drm.Device) (output control n crtc size : ℕ) (r : Option Ramps)
      → drm.get_gamma s.device crtc size ≡ r
      → Announces s output n (insert_entry drm s output control crtc size r)
  insert_entry-Announces s output control n crtc size none er h = absurd (silent h)
  insert_entry-Announces s output control n crtc size (some r) er h = (
    record { control = control; crtc = crtc; size = size; original = r },
    set_at-own s.gamma_controls output _,
    announced h,
    ap (drm.get_gamma s.device crtc) (sym (announced h)) ∙ er,
    refl,
    refl,
  )

  create_with-Announces :
      (s : GammaState drm.Device) (output control n : ℕ) (held : Option GammaControlEntry)
      (info : Option (ℕ × ℕ))
      → Announces s output n (create_with drm s output control held info)
  create_with-Announces s output control n (some e) info h = absurd (silent h)
  create_with-Announces s output control n none none h = absurd (silent h)
  create_with-Announces s output control n none (some (crtc, size)) h =
      if-split (Announces s output n) (size == 0) (s, failed ∷ [])
        (insert_entry drm s output control crtc size (drm.get_gamma s.device crtc size))
        (λ _ h. absurd (silent h))
        (λ _.
          insert_entry-Announces s output control n crtc size (drm.get_gamma s.device crtc size)
            refl)
        h

  -- A control that is told the size of its ramps has an entry with what it found, and its user data.
  pub create_gamma_control-Created :
      (s : GammaState drm.Device) (output control n : ℕ)
      → (create_gamma_control drm s (some output) control).1 ≡ gamma_size n ∷ []
      → Created
          (with_data drm s control (some output))
          output
          n
          (create_gamma_control drm s (some output) control).0
  unfolding create_gamma_control
  create_gamma_control-Created s output control n h =
      create_with-Announces (with_data drm s control (some output)) output control n
        (s.gamma_controls output) (gamma_info_for_output drm s.device s.heads output) h

  -- From the moment a control is told the size of its ramps, and whatever tables are then asked for
  -- by the controls of its output, its destruction leaves the output free and ends with a write to its
  -- CRTC; if that write succeeds, the CRTC has the ramps that it had when the control was created.
  pub control_destroyed-restores :
      (s : GammaState drm.Device) (output control n : ℕ) (files : List (ℕ × GammaFile))
      → (create_gamma_control drm s (some output) control).1 ≡ gamma_size n ∷ []
      → All (Of (create_gamma_control drm s (some output) control).0 output) files
      → ((control_destroyed drm
              (set_all (create_gamma_control drm s (some output) control).0 files)
              control).gamma_controls
            output
          ≡ none)
        × (crtc : ℕ) × (r : Ramps) × (d : drm.Device) × ((control_destroyed drm
              (set_all (create_gamma_control drm s (some output) control).0 files)
              control).device
            ≡ (drm.set_gamma d crtc r).0)
        × ((drm.set_gamma d crtc r).1 ≡ true
            → drm.get_gamma
                (control_destroyed drm
                  (set_all (create_gamma_control drm s (some output) control).0 files)
                  control).device
                crtc
                n
              ≡ drm.get_gamma s.device crtc n)
  control_destroyed-restores s output control n files h of =
      let s1 = (create_gamma_control drm s (some output) control).0 in
      let (e, held, size, read, _, kept_data) = create_gamma_control-Created s output control n h in
      let (still, kept) = set_all-Held s1 output e files of (inl held) in
      let mine : (set_all s1 files).user_data control ≡ some output =
        ap (λ (f : ℕ → Option ℕ). f control) (kept ∙ kept_data)
        ∙ if-own control (some output) (s.user_data control) in
      let (gone, (d, wrote, back)) =
        destroyed-WroteBack (set_all s1 files) output control e mine still in
      let read' : drm.get_gamma s.device e.crtc e.size ≡ some e.original =
        ap (drm.get_gamma s.device e.crtc) size ∙ read in
      (
        gone,
        e.crtc,
        e.original,
        d,
        wrote,
        (λ w. ap (drm.get_gamma _ e.crtc) (sym size) ∙ back s.device read' w ∙ sym read),
      )
