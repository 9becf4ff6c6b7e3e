-- ===== src/Modes/Nearest.antt =====
-- src/udev.rs: the mode that is set for a requested one.
use minde.Base.{
  ℕ, ◌≡◌, refl, ap, ◌⊎◌, inl, inr, List, [], ◌∷◌, Option, none, some, Bool, true, false, leb_ℤ, ℤ,
  ◌≤ℤ◌, if◌then◌else◌, All, Bool-cases, arith,
}
use minde.Outputs.{Mode}
use minde.Outputs.Validate.{refresh_difference}
use minde.Modes.{find_exact, near, nearer, nearest, mode_of, or_custom, resolve_connector_mode}

-- A mode of the list that is near enough, at this refresh_difference.
abbrev pub Offers : Mode → ℤ → ℕ → List (Mode × ℕ) → Type 0
Offers wanted d drm [] = ⊥
Offers wanted d drm ((wl, drm') ∷ modes) =
    ((near wanted wl ≡ true) × (refresh_difference wl wanted ≡ d) × (drm' ≡ drm))
    ⊎ Offers wanted d drm modes

-- The list has no mode that is near enough, or this is one of those at the least refresh_difference.
abbrev pub Nearest : Mode → List (Mode × ℕ) → Option (ℤ × ℕ) → Type 0
Nearest wanted modes none = All (λ m. near wanted m.0 ≡ false) modes
Nearest wanted modes (some (d, drm)) =
    Offers wanted d drm modes
    × All (λ m. near wanted m.0 ≡ true → d ≤ℤ refresh_difference m.0 wanted) modes

All-weaken :
    (wanted : Mode) (d d' : ℤ) (modes : List (Mode × ℕ))
    → d ≤ℤ d'
    → All (λ m. near wanted m.0 ≡ true → d' ≤ℤ refresh_difference m.0 wanted) modes
    → All (λ m. near wanted m.0 ≡ true → d ≤ℤ refresh_difference m.0 wanted) modes
All-weaken wanted d d' [] le a = tt
All-weaken wanted d d' (m ∷ ms) le a = (
  λ e. let far : d' ≤ℤ refresh_difference m.0 wanted = a.0 e in omega arith,
  All-weaken wanted d d' ms le a.1,
)

clash : {b : Bool} → b ≡ true → b ≡ false → ⊥
clash t f = absurd (ground arith)

All-far :
    (wanted : Mode) (d : ℤ) (modes : List (Mode × ℕ))
    → All (λ m. near wanted m.0 ≡ false) modes
    → All (λ m. near wanted m.0 ≡ true → d ≤ℤ refresh_difference m.0 wanted) modes
All-far wanted d [] a = tt
All-far wanted d (m ∷ ms) a = (λ e. absurd (clash e a.0), All-far wanted d ms a.1)

nearer-Nearest :
    (wanted wl : Mode) (drm : ℕ) (modes : List (Mode × ℕ)) (later : Option (ℤ × ℕ))
    → near wanted wl ≡ true
    → Nearest wanted modes later
    → Nearest wanted ((wl, drm) ∷ modes) (nearer (refresh_difference wl wanted, drm) later)
nearer-Nearest wanted wl drm modes none e v =
    (inl (e, refl, refl), (λ f. omega arith, All-far wanted (refresh_difference wl wanted) modes v))
nearer-Nearest wanted wl drm modes (some (d, drm')) e v =
    elim (Bool-cases (leb_ℤ (refresh_difference wl wanted) d)) [
      | inl le ↦
          let small : refresh_difference wl wanted ≤ℤ d = ground arith in
          rw le (
            inl (e, refl, refl),
            (λ f. omega arith, All-weaken wanted (refresh_difference wl wanted) d modes small v.1),
          )
      | inr gt ↦
          let small : d ≤ℤ refresh_difference wl wanted = ground arith in
          rw gt (inr v.0, (λ f. small, v.1))
    ]

further-Nearest :
    (wanted wl : Mode) (drm : ℕ) (modes : List (Mode × ℕ)) (later : Option (ℤ × ℕ))
    → near wanted wl ≡ false
    → Nearest wanted modes later
    → Nearest wanted ((wl, drm) ∷ modes) later
further-Nearest wanted wl drm modes none e v = (e, v)
further-Nearest wanted wl drm modes (some (d, drm')) e v = (inr v.0, (λ f. absurd (clash f e), v.1))

if-Nearest :
    (wanted : Mode) (modes : List (Mode × ℕ)) (b : Bool) (x y : Option (ℤ × ℕ))
    → (b ≡ true → Nearest wanted modes x)
    → (b ≡ false → Nearest wanted modes y)
    → Nearest wanted modes (if b then x else y)
if-Nearest wanted modes true x y h k = h refl
if-Nearest wanted modes false x y h k = k refl

nearest-Nearest :
    (wanted : Mode) (modes : List (Mode × ℕ)) → Nearest wanted modes (nearest wanted modes)
unfolding nearest
nearest-Nearest wanted [] = tt
nearest-Nearest wanted ((wl, drm) ∷ modes) =
    if-Nearest wanted ((wl, drm) ∷ modes) (near wanted wl)
      (nearer (refresh_difference wl wanted, drm) (nearest wanted modes)) (nearest wanted modes)
      (λ e.
        nearer-Nearest wanted wl drm modes (nearest wanted modes) e (nearest-Nearest wanted modes))
      (λ e.
        further-Nearest wanted wl drm modes (nearest wanted modes) e (nearest-Nearest wanted modes))

-- A custom mode that is not advertised resolves to a connector mode of its size whose refresh rate
-- is nearest to the wanted one, at most 1000 mHz away by a difference that wraps around as an `i32`,
-- and to nothing exactly if there is none.
pub resolve_connector_mode-Nearest :
    (modes : List (Mode × ℕ)) (wanted : Mode)
    → find_exact wanted modes ≡ none
    → (best : Option (ℤ × ℕ)) × (resolve_connector_mode modes wanted true ≡ mode_of best)
      × Nearest wanted modes best
unfolding resolve_connector_mode
resolve_connector_mode-Nearest modes wanted e = (
  nearest wanted modes,
  ap (λ x. or_custom x true (nearest wanted modes)) e,
  nearest-Nearest wanted modes,
)
