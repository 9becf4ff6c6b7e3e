-- ===== src/Outputs/Faults.antt =====
-- src/handlers/output_management.rs: what is wrong with a change that does not pass `validate`.
use minde.Base.{
  ◌≡◌, refl, sym, subst, ◌⊎◌, inl, inr, Option, none, some, Bool, true, false, ◌||◌, if◌then◌else◌,
  if-cases, ℤ, pos, ◌≤ℤ◌, leb_ℤ, Result, ok, err, and_then-err, err_inj, err-ne-ok, arith,
}
use minde.Outputs.{
  Mode, or_else, HeadChange, requested_mode, HeadFacts, Advertised, OutputConfigError,
  mode_not_advertised, custom_mode_not_positive, no_mode_to_enable, scale_not_positive,
  sync_not_supported,
}
use minde.Outputs.Validate.{
  contains_mode, resolve_mode, default_mode, bad_scale, bad_sync, resolve_rest, resolve_change,
}
use minde.Outputs.Near.{or-true}

-- A change that has no acceptable mode, and why.
abbrev pub ModeFault : Advertised → Bool → Option Mode → Option Mode → OutputConfigError → Type 0
ModeFault head enabled mode custom mode_not_advertised =
    (m : Mode) × (mode ≡ some m) × (contains_mode head.modes m ≡ false)
ModeFault head enabled mode custom custom_mode_not_positive =
    (mode ≡ none) × (w : Mode) × (custom ≡ some w) × ((w.width ≤ℤ pos 0) ⊎ (w.height ≤ℤ pos 0))
ModeFault head enabled mode custom no_mode_to_enable =
    (enabled ≡ false)
    × (mode ≡ none)
    × (custom ≡ none)
    × (head.preferred_mode ≡ none)
    × (head.current_mode ≡ none)
ModeFault head enabled mode custom _ = ⊥

-- What is wrong with a change of a head with these facts.
abbrev pub Fault : Advertised → HeadFacts → HeadChange → OutputConfigError → Type 0
Fault head facts c e =
    ModeFault head facts.enabled c.mode c.custom_mode e
    ⊎ (((e ≡ scale_not_positive) × (bad_scale c.scale ≡ true))
        ⊎ ((e ≡ sync_not_supported) × (bad_sync c.adaptive_sync facts.adaptive_sync ≡ true)))

pub if-err {ℓ κ} :
    {A : Type ℓ} {E : Type κ} (b : Bool) (x : E) (y : Result A E) (e : E)
    → (if b then err x else y) ≡ err e
    → ((b ≡ true) × (e ≡ x)) ⊎ ((b ≡ false) × (y ≡ err e))
if-err true x y e h = inl (refl, sym (err_inj h))
if-err false x y e h = inr (refl, h)

pub ok-ne-err {ℓ κ} : {A : Type ℓ} {E : Type κ} (a : A) (e : E) → ok a ≡ err e → ⊥
ok-ne-err a e h = err-ne-ok (sym h)

default_mode-err :
    (preferred current : Option Mode) (e : OutputConfigError)
    → default_mode (or_else preferred current) ≡ err e
    → (e ≡ no_mode_to_enable) × (preferred ≡ none) × (current ≡ none)
default_mode-err none none e h = (sym (err_inj h), refl, refl)
default_mode-err none (some m) e h = absurd (ok-ne-err _ e h)
default_mode-err (some m) current e h = absurd (ok-ne-err _ e h)

not_positive : (z : ℤ) → leb_ℤ z (pos 0) ≡ true → z ≤ℤ pos 0
not_positive z e = ground arith

resolve_mode-ModeFault :
    (head : Advertised) (enabled : Bool) (mode custom : Option Mode) (e : OutputConfigError)
    → resolve_mode head enabled mode (or_else mode custom) ≡ err e
    → ModeFault head enabled mode custom e
unfolding resolve_mode
resolve_mode-ModeFault head enabled (some m) custom e h =
    elim (if-cases (contains_mode head.modes m) _ _ _ h) [
      | inl c ↦ absurd (ok-ne-err _ e c.1)
      | inr c ↦ subst (ModeFault head enabled (some m) custom) (err_inj c.1) (m, refl, c.0)
    ]
resolve_mode-ModeFault head enabled none (some w) e h =
    elim (if-err (leb_ℤ w.width (pos 0) || leb_ℤ w.height (pos 0)) _ _ e h) [
      | inl c ↦ subst (ModeFault head enabled none (some w)) (sym c.1) (
        refl,
        w,
        refl,
        elim (or-true (leb_ℤ w.width (pos 0)) (leb_ℤ w.height (pos 0)) c.0) [
          | inl x ↦ inl (not_positive w.width x)
          | inr y ↦ inr (not_positive w.height y)
        ],
      )
      | inr c ↦ absurd (ok-ne-err _ e c.1)
    ]
resolve_mode-ModeFault head true none none e h = absurd (ok-ne-err _ e h)
resolve_mode-ModeFault head false none none e h =
    let (same, no_preferred, no_current) =
      default_mode-err head.preferred_mode head.current_mode e h in
    subst (ModeFault head false none none) (sym same) (refl, refl, refl, no_preferred, no_current)

resolve_rest-err :
    (facts : HeadFacts) (change : HeadChange) (mode : Option Mode) (e : OutputConfigError)
    → resolve_rest facts change mode ≡ err e
    → ((e ≡ scale_not_positive) × (bad_scale change.scale ≡ true))
      ⊎ ((e ≡ sync_not_supported) × (bad_sync change.adaptive_sync facts.adaptive_sync ≡ true))
resolve_rest-err facts change mode e h = elim (if-err (bad_scale change.scale) _ _ e h) [
  | inl c ↦ inl (c.1, c.0)
  | inr c ↦ elim (if-err (bad_sync change.adaptive_sync facts.adaptive_sync) _ _ e c.1) [
    | inl d ↦ inr (d.1, d.0)
    | inr d ↦ absurd (ok-ne-err _ e d.1)
  ]
]

pub resolve_change-Fault :
    (head : Advertised) (facts : HeadFacts) (change : HeadChange) (e : OutputConfigError)
    → resolve_change head facts change ≡ err e
    → (change.enabled ≡ true) × Fault head facts change e
unfolding resolve_change requested_mode
resolve_change-Fault head facts change e h = elim (if-cases change.enabled _ _ _ h) [
  | inl on ↦
      elim (and_then-err
        (resolve_mode head facts.enabled change.mode (or_else change.mode change.custom_mode))
        (resolve_rest facts change) e on.1) [
          | inl m ↦ (
            on.0,
            inl (resolve_mode-ModeFault head facts.enabled change.mode change.custom_mode e m),
          )
          | inr (mode, _, rest) ↦ (on.0, inr (resolve_rest-err facts change mode e rest))
        ]
  | inr off ↦ absurd (ok-ne-err _ e off.1)
]
