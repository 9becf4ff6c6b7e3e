-- ===== src/Outputs/Sound.antt =====
-- src/handlers/output_management.rs: the change that passes the checks of one turn of `validate`'s loop.
use minde.Base.{
  ◌≡◌, refl, sym, subst, inl, inr, Option, none, some, Bool, true, false, ◌||◌, if◌then◌else◌,
  if-cases, true-ne-false, ℤ, pos, ◌<ℤ◌, leb_ℤ, Result, ok, err, and_then-ok, ok_inj, err-ne-ok,
  Any, arith,
}
use minde.Outputs.{Mode, or_else, HeadChange, requested_mode, HeadFacts, ResolvedChange, Advertised}
use minde.Outputs.Validate.{
  nearest_advertised_mode, contains_mode, unwrap_or, resolve_mode, default_mode, bad_scale,
  bad_sync, resolve_rest, resolve_change,
}
use minde.Outputs.Near.{StandsFor, contains_mode-Any, nearest_advertised_mode-StandsFor}

-- The mode to set on a head that is to be enabled.
abbrev pub ModeRule : Advertised → Bool → Option Mode → Option Mode → Option Mode → Type 0
ModeRule head enabled (some m) custom mode = Any (λ n. n ≡ m) head.modes × (mode ≡ some m)
ModeRule head enabled none (some w) mode =
    (pos 0 <ℤ w.width)
    × (pos 0 <ℤ w.height)
    × (m : Mode) × StandsFor head.modes w m
    × (mode ≡ some m)
ModeRule head true none none mode = mode ≡ none
ModeRule head false none none mode =
    (m : Mode) × (or_else head.preferred_mode head.current_mode ≡ some m) × (mode ≡ some m)

abbrev pub EnableRule : Advertised → HeadFacts → ResolvedChange → Type 0
EnableRule head facts r =
    ModeRule head facts.enabled r.change.mode r.change.custom_mode r.mode
    × (bad_scale r.change.scale ≡ false)
    × (bad_sync r.change.adaptive_sync facts.adaptive_sync ≡ false)

pub if-ok {ℓ κ} :
    {A : Type ℓ} {E : Type κ} (b : Bool) (x : E) (y : Result A E) (a : A)
    → (if b then err x else y) ≡ ok a
    → (b ≡ false) × (y ≡ ok a)
if-ok true x y a e = absurd (err-ne-ok e)
if-ok false x y a e = (refl, e)

positive : (z : ℤ) → leb_ℤ z (pos 0) ≡ false → pos 0 <ℤ z
positive z e = ground arith

or-false : (a b : Bool) → (a || b) ≡ false → (a ≡ false) × (b ≡ false)
or-false true b e = absurd (ground arith)
or-false false b e = (refl, e)

default_mode-ModeRule :
    (o mode : Option Mode) → default_mode o ≡ ok mode → (m : Mode) × (o ≡ some m) × (mode ≡ some m)
default_mode-ModeRule none mode e = absurd (err-ne-ok e)
default_mode-ModeRule (some m) mode e = (m, refl, sym (ok_inj e))

resolve_mode-ModeRule :
    (head : Advertised) (enabled : Bool) (mode custom resolved : Option Mode)
    → resolve_mode head enabled mode (or_else mode custom) ≡ ok resolved
    → ModeRule head enabled mode custom resolved
unfolding resolve_mode
resolve_mode-ModeRule head enabled (some m) custom resolved e =
    elim (if-cases (contains_mode head.modes m) _ _ _ e) [
      | inl c ↦ (contains_mode-Any head.modes m c.0, sym (ok_inj c.1))
      | inr c ↦ absurd (err-ne-ok c.1)
    ]
resolve_mode-ModeRule head enabled none (some w) resolved e =
    let (small, same) = if-ok (leb_ℤ w.width (pos 0) || leb_ℤ w.height (pos 0)) _ _ resolved e in
    let (wide, high) = or-false (leb_ℤ w.width (pos 0)) (leb_ℤ w.height (pos 0)) small in
    (
      positive w.width wide,
      positive w.height high,
      unwrap_or (nearest_advertised_mode head.modes w) w,
      nearest_advertised_mode-StandsFor head.modes w,
      sym (ok_inj same),
    )
resolve_mode-ModeRule head true none none resolved e = sym (ok_inj e)
resolve_mode-ModeRule head false none none resolved e =
    default_mode-ModeRule (or_else head.preferred_mode head.current_mode) resolved e

resolve_rest-ok :
    (facts : HeadFacts) (change : HeadChange) (mode : Option Mode) (r : ResolvedChange)
    → resolve_rest facts change mode ≡ ok r
    → (bad_scale change.scale ≡ false)
      × (bad_sync change.adaptive_sync facts.adaptive_sync ≡ false)
      × (record { change = change; mode = mode; was_enabled = facts.enabled } ≡ r)
resolve_rest-ok facts change mode r e =
    let (scale, e') = if-ok (bad_scale change.scale) _ _ r e in
    let (sync, e'') = if-ok (bad_sync change.adaptive_sync facts.adaptive_sync) _ _ r e' in
    (scale, sync, ok_inj e'')

-- `Checked` but for the facts, as the clauses of `resolve_change` make it.
abbrev pub Sound : Advertised → HeadFacts → HeadChange → ResolvedChange → Type 0
Sound head facts change r =
    (r.change ≡ change)
    × (r.was_enabled ≡ facts.enabled)
    × (r.change.enabled ≡ true → EnableRule head facts r)
    × (r.change.enabled ≡ false → r.mode ≡ none)

pub resolve_change-Sound :
    (head : Advertised) (facts : HeadFacts) (change : HeadChange) (r : ResolvedChange)
    → resolve_change head facts change ≡ ok r
    → Sound head facts change r
unfolding resolve_change requested_mode
resolve_change-Sound head facts change r e = elim (if-cases change.enabled _ _ _ e) [
  | inl on ↦
      let (mode, resolved, rest) =
        and_then-ok
          (resolve_mode head facts.enabled change.mode (or_else change.mode change.custom_mode))
          (resolve_rest facts change) r on.1 in
      let rule =
        resolve_mode-ModeRule head facts.enabled change.mode change.custom_mode mode resolved in
      let (scale, sync, same) = resolve_rest-ok facts change mode r rest in
      subst (Sound head facts change) same
        (refl, refl, (λ _. (rule, scale, sync)), (λ off. absurd (true-ne-false on.0 off)))
  | inr off ↦
      subst (Sound head facts change) (ok_inj off.1)
        (refl, refl, (λ on. absurd (true-ne-false on off.0)), (λ _. refl))
]
