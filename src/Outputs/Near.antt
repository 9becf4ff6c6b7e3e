-- ===== src/Outputs/Near.antt =====
-- src/handlers/output_management.rs: the advertised mode that a custom one stands for.
use minde.Base.{
  ◌≡◌, refl, ap, ◌∙◌, ◌⊎◌, inl, inr, List, [], ◌∷◌, Option, none, some, Bool, true, false, ◌||◌,
  if◌then◌else◌, ℤ, ==ℤ_eq, All, Any, arith,
}
use minde.Outputs.{Mode, same_mode}
use minde.Outputs.Validate.{
  nearest_advertised_mode, near_mode, nearer_mode, contains_mode, unwrap_or,
}

-- The mode that a wanted custom mode stands for: an advertised one that is near, or itself if there
-- is none.
abbrev pub StandsFor : List Mode → Mode → Mode → Type 0
StandsFor modes wanted m =
    (Any (λ n. n ≡ m) modes × (near_mode wanted m ≡ true))
    ⊎ (All (λ n. near_mode wanted n ≡ false) modes × (m ≡ wanted))

pub same_mode-eq : (a b : Mode) → same_mode a b ≡ true → a ≡ b
same_mode-eq a b e =
    let w : a.width ≡ b.width = ==ℤ_eq a.width b.width (ground arith) in
    let h : a.height ≡ b.height = ==ℤ_eq a.height b.height (ground arith) in
    let r : a.refresh ≡ b.refresh = ==ℤ_eq a.refresh b.refresh (ground arith) in
    ap (λ (x : ℤ). record { width = x; height = a.height; refresh = a.refresh }) w
    ∙ ap (λ (x : ℤ). record { width = b.width; height = x; refresh = a.refresh }) h
    ∙ ap (λ (x : ℤ). record { width = b.width; height = b.height; refresh = x }) r

pub or-true : (a b : Bool) → (a || b) ≡ true → (a ≡ true) ⊎ (b ≡ true)
or-true true b e = inl refl
or-true false b e = inr e

pub contains_mode-Any :
    (modes : List Mode) (m : Mode) → contains_mode modes m ≡ true → Any (λ n. n ≡ m) modes
unfolding contains_mode
contains_mode-Any [] m e = absurd (ground arith)
contains_mode-Any (n ∷ modes) m e = elim (or-true (same_mode n m) (contains_mode modes m) e) [
  | inl s ↦ inl (same_mode-eq n m s)
  | inr k ↦ inr (contains_mode-Any modes m k)
]

-- The nearest mode is one of the list that is near, and there is none exactly if none is near.
abbrev NearRule : List Mode → Mode → Option Mode → Type 0
NearRule modes wanted none = All (λ n. near_mode wanted n ≡ false) modes
NearRule modes wanted (some m) = Any (λ n. n ≡ m) modes × (near_mode wanted m ≡ true)

if-NearRule :
    (modes : List Mode) (wanted : Mode) (b : Bool) (x y : Option Mode)
    → (b ≡ true → NearRule modes wanted x)
    → (b ≡ false → NearRule modes wanted y)
    → NearRule modes wanted (if b then x else y)
if-NearRule modes wanted true x y h k = h refl
if-NearRule modes wanted false x y h k = k refl

later-NearRule :
    (m : Mode) (modes : List Mode) (wanted : Mode) (o : Option Mode)
    → near_mode wanted m ≡ false
    → NearRule modes wanted o
    → NearRule (m ∷ modes) wanted o
later-NearRule m modes wanted none e h = (e, h)
later-NearRule m modes wanted (some n) e h = (inr h.0, h.1)

nearer_mode-NearRule :
    (m : Mode) (modes : List Mode) (wanted : Mode) (o : Option Mode)
    → near_mode wanted m ≡ true
    → NearRule modes wanted o
    → NearRule (m ∷ modes) wanted (nearer_mode wanted m o)
nearer_mode-NearRule m modes wanted none e h = (inl refl, e)
nearer_mode-NearRule m modes wanted (some n) e h =
    if-NearRule (m ∷ modes) wanted _ (some m) (some n) (λ _. (inl refl, e)) (λ _. (inr h.0, h.1))

nearest_advertised_mode-NearRule :
    (modes : List Mode) (wanted : Mode)
    → NearRule modes wanted (nearest_advertised_mode modes wanted)
unfolding nearest_advertised_mode
nearest_advertised_mode-NearRule [] wanted = tt
nearest_advertised_mode-NearRule (m ∷ modes) wanted =
    if-NearRule (m ∷ modes) wanted (near_mode wanted m) _ _
      (λ e.
        nearer_mode-NearRule m modes wanted (nearest_advertised_mode modes wanted) e
          (nearest_advertised_mode-NearRule modes wanted))
      (λ e.
        later-NearRule m modes wanted (nearest_advertised_mode modes wanted) e
          (nearest_advertised_mode-NearRule modes wanted))

unwrap_or-StandsFor :
    (modes : List Mode) (wanted : Mode) (o : Option Mode)
    → NearRule modes wanted o
    → StandsFor modes wanted (unwrap_or o wanted)
unwrap_or-StandsFor modes wanted none h = inr (h, refl)
unwrap_or-StandsFor modes wanted (some m) h = inl h

pub nearest_advertised_mode-StandsFor :
    (modes : List Mode) (wanted : Mode)
    → StandsFor modes wanted (unwrap_or (nearest_advertised_mode modes wanted) wanted)
nearest_advertised_mode-StandsFor modes wanted =
    unwrap_or-StandsFor modes wanted (nearest_advertised_mode modes wanted)
      (nearest_advertised_mode-NearRule modes wanted)
