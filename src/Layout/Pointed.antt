-- ===== src/Layout/Pointed.antt =====
-- src/state.rs: the output that `screenshot_output_index` chooses without a window, and the choice in both
-- cases.
use minde.Base.{
  ℕ, suc, ◌≤◌, ◌≡◌, ◌≢◌, cons≢nil, refl, ◌⊎◌, inl, inr, List, [], ◌∷◌, Option, none, some, Bool,
  true, false, if-split, arith,
}
use minde.Layout.{Geometry}
use minde.Layout.Screenshot.{candidates, position_of, or_first, screenshot_output_index}
use minde.Layout.Captured.{AllFrom, AnyFrom, Choice, max_by_key-Choice}

-- The first output that contains the pointer, or none does.
module _ (contains : Geometry → Bool) where
  abbrev pub Before : ℕ → ℕ → Geometry → Type 0
  Before r j other = (r ≤ j) ⊎ (contains other ≡ false)

  abbrev pub First : ℕ → List Geometry → Option ℕ → Type 0
  First i os none = AllFrom (λ k output. contains output ≡ false) i os
  First i os (some r) =
      AnyFrom (λ k output. (k ≡ r) × (contains output ≡ true)) i os × AllFrom (Before r) i os

  above-Before : (r i : ℕ) (os : List Geometry) → r ≤ i → AllFrom (Before r) i os
  above-Before r i [] le = tt
  above-Before r i (o ∷ os) le = (inl le, above-Before r (suc i) os (omega arith))

  later-First :
      (i : ℕ) (o : Geometry) (os : List Geometry) (r : Option ℕ)
      → contains o ≡ false
      → First (suc i) os r
      → First i (o ∷ os) r
  later-First i o os none out h = (out, h)
  later-First i o os (some r) out (at, before) = (inr at, (inr out, before))

  position_of-First : (i : ℕ) (os : List Geometry) → First i os (position_of contains i os)
  unfolding position_of
  position_of-First i [] = tt
  position_of-First i (o ∷ os) =
      let later = position_of contains (suc i) os in
      if-split (First i (o ∷ os)) (contains o) (some i) later
        (λ inside.
          (inl (refl, inside), (inl (omega arith), above-Before i (suc i) os (omega arith))))
        (λ out. later-First i o os later out (position_of-First (suc i) os))

  -- No output contains the pointer, and there is one.
  abbrev pub Fallback : List Geometry → ℕ → Type 0
  Fallback os r = (r ≡ 0) × (os ≢ []) × AllFrom (λ k output. contains output ≡ false) 0 os

  abbrev pub Pointed : List Geometry → Option ℕ → Type 0
  Pointed os none = os ≡ []
  Pointed os (some r) = First 0 os (some r) ⊎ Fallback os r

  or_first-Pointed : (os : List Geometry) (r : Option ℕ) → First 0 os r → Pointed os (or_first r os)
  or_first-Pointed os (some r) h = inl h
  or_first-Pointed [] none h = refl
  or_first-Pointed (o ∷ os) none h = inr (refl, cons≢nil, h)

abbrev pub Chosen :
    (Geometry → Geometry → Option Geometry)
    → (Geometry → Bool)
    → Option Geometry
    → List Geometry
    → Option ℕ
    → Type 0
Chosen intersection contains (some window) os r = Choice intersection window os r
Chosen intersection contains none os r = Pointed contains os r

-- A screenshot of a window captures the first of the outputs that share most of it, by the area of the
-- intersection, and no output exactly if none shares any. Without a window it captures the first
-- output that contains the pointer, or the first of all if none does, and no output if there is none.
pub screenshot_output_index-Chosen :
    (intersection : Geometry → Geometry → Option Geometry) (contains : Geometry → Bool)
    (window : Option Geometry) (os : List Geometry)
    → Chosen intersection contains window os
        (screenshot_output_index intersection contains window os)
unfolding screenshot_output_index
screenshot_output_index-Chosen intersection contains (some window) os =
    max_by_key-Choice intersection window os (candidates intersection window 0 os) refl
screenshot_output_index-Chosen intersection contains none os =
    or_first-Pointed contains os (position_of contains 0 os) (position_of-First contains 0 os)
