-- ===== src/Layout/Collected.antt =====
-- src/state.rs: what `repack_auto_outputs` reads of the outputs before it moves any.
use minde.Base.{
  ℕ, ◌≡◌, ◌≢◌, refl, ◌⊎◌, inl, inr, List, [], ◌∷◌, Option, none, some, Bool, true, false, if-split,
  if-both, ℤ, pos, ◌+ℤ◌, ◌≤ℤ◌, leb_ℤ, All, All-map, Any, Distinct, arith,
}
use minde.Outputs.Layer.{Desktop, Compositor}
use minde.Outputs.Apply.{position_is_explicit}
use minde.Layout.{Geometry, Space, max_ℤ, geometry, add_output, collect}
use minde.Layout.Sorted.{of_output}

max_ℤ-left : (a b : ℤ) → a ≤ℤ max_ℤ a b
max_ℤ-left a b = if-split (λ c. a ≤ℤ c) (leb_ℤ a b) b a (λ e. ground arith) (λ _. omega arith)

max_ℤ-right : (a b : ℤ) → b ≤ℤ max_ℤ a b
max_ℤ-right a b = if-split (λ c. b ≤ℤ c) (leb_ℤ a b) b a (λ _. omega arith) (λ e. ground arith)

abbrev pub Collected : Type 0
Collected = ℤ × List (ℤ × ℕ)

add_output-All :
    (P : ℕ → Type 0) (o : ℕ) (explicit : Bool) (geo : Option Geometry) (c : Collected)
    → P o
    → All (λ a. P (of_output a)) c.1
    → All (λ a. P (of_output a)) (add_output o explicit geo c).1
add_output-All P o explicit none c p h = h
add_output-All P o true (some geo) c p h = h
add_output-All P o false (some geo) c p h = (p, h)

add_output-Distinct :
    (o : ℕ) (explicit : Bool) (geo : Option Geometry) (c : Collected)
    → All (λ a. of_output a ≢ o) c.1
    → Distinct of_output c.1
    → Distinct of_output (add_output o explicit geo c).1
add_output-Distinct o explicit none c own h = h
add_output-Distinct o true (some geo) c own h = h
add_output-Distinct o false (some geo) c own h = (own, h)

add_output-grows :
    (o : ℕ) (explicit : Bool) (geo : Option Geometry) (c : Collected)
    → c.0 ≤ℤ (add_output o explicit geo c).0
add_output-grows o explicit none c = omega arith
add_output-grows o true (some geo) c = max_ℤ-left c.0 (geo.x +ℤ geo.w)
add_output-grows o false (some geo) c = omega arith

add_output-Any :
    (P : ℤ × ℕ → Type 0) (o : ℕ) (explicit : Bool) (geo : Option Geometry) (c : Collected)
    → Any P c.1
    → Any P (add_output o explicit geo c).1
add_output-Any P o explicit none c p = p
add_output-Any P o true (some geo) c p = p
add_output-Any P o false (some geo) c p = inr p

-- The right edge of a head is at most `right`.
abbrev pub Within : Option Geometry → ℤ → Type 0
Within none right = Unit
Within (some g) right = (g.x +ℤ g.w) ≤ℤ right

-- A collected output is explicit and left of the edge, has no geometry, or is to be placed.
abbrev pub Counted : ℕ → Bool → Option Geometry → Collected → Type 0
Counted o explicit geo c =
    ((explicit ≡ true) × Within geo c.0) ⊎ ((geo ≡ none) ⊎ Any (λ a. of_output a ≡ o) c.1)

add_output-Counted :
    (o : ℕ) (explicit : Bool) (geo : Option Geometry) (c : Collected)
    → Counted o explicit geo (add_output o explicit geo c)
add_output-Counted o explicit none c = inr (inl refl)
add_output-Counted o true (some geo) c = inl (refl, max_ℤ-right c.0 (geo.x +ℤ geo.w))
add_output-Counted o false (some geo) c = inr (inr (inl refl))

Within-le : (geo : Option Geometry) (a b : ℤ) → a ≤ℤ b → Within geo a → Within geo b
Within-le none a b le h = tt
Within-le (some g) a b le h = omega arith

module _ (d : Desktop) (space : Space d) {B : Type 0} where
  -- An output of the list is not explicit, and its left edge stands beside it.
  abbrev pub Auto : Compositor d.World B → ℤ × ℕ → Type 0
  Auto s (left, o) =
      (position_is_explicit d s o ≡ false)
      × ((g : Geometry) × (geometry d space s.world o ≡ some g) × (g.x ≡ left))

  add_output-Auto :
      (s : Compositor d.World B) (o : ℕ) (explicit : Bool) (geo : Option Geometry) (c : Collected)
      → position_is_explicit d s o ≡ explicit
      → geometry d space s.world o ≡ geo
      → All (Auto s) c.1
      → All (Auto s) (add_output o explicit geo c).1
  add_output-Auto s o explicit none c he hg h = h
  add_output-Auto s o true (some geo) c he hg h = h
  add_output-Auto s o false (some geo) c he hg h = ((he, (geo, hg, refl)), h)

  abbrev pub Seen : Compositor d.World B → Collected → ℕ → Type 0
  Seen s c o = Counted o (position_is_explicit d s o) (geometry d space s.world o) c

  Seen-more :
      (s : Compositor d.World B) (o p : ℕ) (explicit : Bool) (geo : Option Geometry) (c : Collected)
      → Seen s c p
      → Seen s (add_output o explicit geo c) p
  Seen-more s o p explicit geo c (inl (e, h)) = inl (
    e,
    Within-le (geometry d space s.world p) c.0 (add_output o explicit geo c).0
        (add_output-grows o explicit geo c) h,
  )
  Seen-more s o p explicit geo c (inr (inl e)) = inr (inl e)
  Seen-more s o p explicit geo c (inr (inr h)) =
      inr (inr (add_output-Any (λ a. of_output a ≡ p) o explicit geo c h))

  pub collect-All :
      (P : ℕ → Type 0) (s : Compositor d.World B) (os : List ℕ)
      → All P os
      → All (λ a. P (of_output a)) (collect d space s os).1
  unfolding collect
  collect-All P s [] h = tt
  collect-All P s (o ∷ os) (p, h) =
      add_output-All P o (position_is_explicit d s o) (geometry d space s.world o)
        (collect d space s os) p (collect-All P s os h)

  pub collect-Distinct :
      (s : Compositor d.World B) (os : List ℕ)
      → Distinct (λ n. n) os
      → Distinct of_output (collect d space s os).1
  unfolding collect
  collect-Distinct s [] h = tt
  collect-Distinct s (o ∷ os) (own, h) =
      add_output-Distinct o (position_is_explicit d s o) (geometry d space s.world o)
        (collect d space s os) (collect-All (λ n. n ≢ o) s os own) (collect-Distinct s os h)

  pub collect-Auto :
      (s : Compositor d.World B) (os : List ℕ) → All (Auto s) (collect d space s os).1
  unfolding collect
  collect-Auto s [] = tt
  collect-Auto s (o ∷ os) =
      add_output-Auto s o (position_is_explicit d s o) (geometry d space s.world o)
        (collect d space s os) refl refl (collect-Auto s os)

  pub collect-Seen :
      (s : Compositor d.World B) (os : List ℕ) → All (Seen s (collect d space s os)) os
  unfolding collect
  collect-Seen s [] = tt
  collect-Seen s (o ∷ os) =
      let explicit = position_is_explicit d s o in
      let geo = geometry d space s.world o in
      let c = collect d space s os in
      (
        add_output-Counted o explicit geo c,
        All-map (Seen s c) (Seen s (add_output o explicit geo c)) os
            (λ p. Seen-more s o p explicit geo c) (collect-Seen s os),
      )

  -- The edge is that of an explicit output, or 0.
  abbrev pub EdgeOf : Compositor d.World B → ℤ → ℕ → Type 0
  EdgeOf s right o =
      (position_is_explicit d s o ≡ true)
      × ((g : Geometry) × (geometry d space s.world o ≡ some g) × ((g.x +ℤ g.w) ≡ right))

  abbrev pub Reached : Compositor d.World B → List ℕ → ℤ → Type 0
  Reached s os right = (right ≡ pos 0) ⊎ Any (EdgeOf s right) os

  later-Reached :
      (s : Compositor d.World B) (o : ℕ) (os : List ℕ) (right : ℤ)
      → Reached s os right
      → Reached s (o ∷ os) right
  later-Reached s o os right (inl e) = inl e
  later-Reached s o os right (inr h) = inr (inr h)

  add_output-Reached :
      (s : Compositor d.World B) (o : ℕ) (os : List ℕ) (explicit : Bool) (geo : Option Geometry)
      (c : Collected)
      → position_is_explicit d s o ≡ explicit
      → geometry d space s.world o ≡ geo
      → Reached s os c.0
      → Reached s (o ∷ os) (add_output o explicit geo c).0
  add_output-Reached s o os explicit none c he hg h = later-Reached s o os c.0 h
  add_output-Reached s o os true (some geo) c he hg h =
      if-both (Reached s (o ∷ os)) (leb_ℤ c.0 (geo.x +ℤ geo.w)) (geo.x +ℤ geo.w) c.0
        (inr (inl (he, (geo, hg, refl)))) (later-Reached s o os c.0 h)
  add_output-Reached s o os false (some geo) c he hg h = later-Reached s o os c.0 h

  pub collect-Reached :
      (s : Compositor d.World B) (os : List ℕ) → Reached s os (collect d space s os).0
  unfolding collect
  collect-Reached s [] = inl refl
  collect-Reached s (o ∷ os) =
      add_output-Reached s o os (position_is_explicit d s o) (geometry d space s.world o)
        (collect d space s os) refl refl (collect-Reached s os)
