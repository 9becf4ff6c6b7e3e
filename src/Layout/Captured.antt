-- ===== src/Layout/Captured.antt =====
-- src/state.rs: the output that `screenshot_output_index` chooses.
use minde.Base.{
  ℕ, suc, ◌≤◌, ◌≡◌, cons≢nil, refl, sym, subst, ◌∙◌, ap, ◌⊎◌, inl, inr, List, [], ◌∷◌, Option, none,
  some, if-split, leb, if◌then◌else◌, ℤ, pos, ◌≤ℤ◌, ◌<ℤ◌, ltb_ℤ, All, Any, arith,
}
use minde.Layout.{Geometry}
use minde.Layout.Screenshot.{product, keep_max, max_of, max_by_key, if_positive, candidates}

-- Each output, and one of them, with its number.
module _ (P : ℕ → Geometry → Type 0) where
  abbrev pub AllFrom : ℕ → List Geometry → Type 0
  AllFrom i [] = Unit
  AllFrom i (o ∷ rest) = P i o × AllFrom (suc i) rest

  abbrev pub AnyFrom : ℕ → List Geometry → Type 0
  AnyFrom i [] = ⊥
  AnyFrom i (o ∷ rest) = P i o ⊎ AnyFrom (suc i) rest

AnyFrom-map :
    (P Q : ℕ → Geometry → Type 0) (i : ℕ) (os : List Geometry)
    → ((k : ℕ) (o : Geometry) → P k o → Q k o)
    → AnyFrom P i os
    → AnyFrom Q i os
AnyFrom-map P Q i [] f p = elim p [ ]
AnyFrom-map P Q i (o ∷ os) f (inl p) = inl (f i o p)
AnyFrom-map P Q i (o ∷ os) f (inr p) = inr (AnyFrom-map P Q (suc i) os f p)

-- More is shared, or as much with a smaller number.
abbrev pub Beats : ℕ × ℤ → ℕ × ℤ → Type 0
Beats (j, b) (i, a) = (a <ℤ b) ⊎ ((a ≤ℤ b) × (j ≤ i))

Beats-trans : (x y z : ℕ × ℤ) → Beats x y → Beats y z → Beats x z
Beats-trans (i, a) (j, b) (k, c) (inl p) (inl q) = inl (omega arith)
Beats-trans (i, a) (j, b) (k, c) (inl p) (inr q) = inl (omega arith)
Beats-trans (i, a) (j, b) (k, c) (inr p) (inl q) = inl (omega arith)
Beats-trans (i, a) (j, b) (k, c) (inr p) (inr q) = inr (omega arith, omega arith)

Beats-refl : (x : ℕ × ℤ) → Beats x x
Beats-refl (i, a) = inr (omega arith, omega arith)

-- The greater of two is one of them, and beats both.
abbrev Chooses : ℕ × ℤ → ℕ × ℤ → ℕ × ℤ → Type 0
Chooses x y r = Beats r x × Beats r y × ((r ≡ x) ⊎ (r ≡ y))

keep_max-Chooses : (x y : ℕ × ℤ) → Chooses x y (keep_max x y)
keep_max-Chooses (i, a) (j, b) =
    if-split (Chooses (i, a) (j, b)) (ltb_ℤ b a) (i, a)
      (if ltb_ℤ a b then (j, b) else if leb j i then (j, b) else (i, a))
      (λ e. (Beats-refl (i, a), inl (ground arith), inl refl))
      (λ e.
        if-split (Chooses (i, a) (j, b)) (ltb_ℤ a b) (j, b) (if leb j i then (j, b) else (i, a))
          (λ f. (inl (ground arith), Beats-refl (j, b), inr refl))
          (λ f.
            if-split (Chooses (i, a) (j, b)) (leb j i) (j, b) (i, a)
              (λ g. (inr (ground arith, ground arith), Beats-refl (j, b), inr refl))
              (λ g. (Beats-refl (i, a), inr (ground arith, ground arith), inl refl))))

max_of-Beats :
    (best : ℕ × ℤ) (cs : List (ℕ × ℤ))
    → Beats (max_of best cs) best
      × All (Beats (max_of best cs)) cs
      × ((max_of best cs ≡ best) ⊎ Any (λ c. max_of best cs ≡ c) cs)
unfolding max_of
max_of-Beats best [] = (Beats-refl best, tt, inl refl)
max_of-Beats best (c ∷ cs) =
    let kept = keep_max best c in
    let (left, right, from) = keep_max-Chooses best c in
    let (first, all, found) = max_of-Beats kept cs in
    let r = max_of kept cs in
    (
      Beats-trans r kept best first left,
      (Beats-trans r kept c first right, all),
      elim found [
        | inl e ↦ elim from [ inl f ↦ inl (e ∙ f) | inr f ↦ inr (inl (e ∙ f)) ]
        | inr p ↦ inr (inr p)
      ],
    )

-- What a window shares with an output.
abbrev pub area_of : Option Geometry → ℤ
area_of none = pos 0
area_of (some g) = product g.w g.h

positive-cases :
    (i : ℕ) (a : ℤ) (rest : List (ℕ × ℤ))
    → ((a ≤ℤ pos 0) × ((if ltb_ℤ (pos 0) a then (i, a) ∷ rest else rest) ≡ rest))
      ⊎ ((pos 0 <ℤ a) × ((if ltb_ℤ (pos 0) a then (i, a) ∷ rest else rest) ≡ (i, a) ∷ rest))
positive-cases i a rest =
    if-split (λ cs. ((a ≤ℤ pos 0) × (cs ≡ rest)) ⊎ ((pos 0 <ℤ a) × (cs ≡ (i, a) ∷ rest)))
      (ltb_ℤ (pos 0) a) ((i, a) ∷ rest) rest (λ e. inr (ground arith, refl))
      (λ e. inl (ground arith, refl))

-- An output either shares nothing or is a candidate.
if_positive-cases :
    (i : ℕ) (g : Option Geometry) (rest : List (ℕ × ℤ))
    → ((area_of g ≤ℤ pos 0) × (if_positive i g rest ≡ rest))
      ⊎ ((pos 0 <ℤ area_of g) × (if_positive i g rest ≡ (i, area_of g) ∷ rest))
if_positive-cases i none rest = inl (omega arith, refl)
if_positive-cases i (some g) rest = positive-cases i (product g.w g.h) rest

below-Beats : (r : ℕ × ℤ) (j : ℕ) (a : ℤ) → pos 0 <ℤ r.1 → a ≤ℤ pos 0 → Beats r (j, a)
below-Beats (i, b) j a up low = inl (omega arith)

not-empty : (c : ℕ × ℤ) (cs : List (ℕ × ℤ)) → c ∷ cs ≡ [] → ⊥
not-empty c cs e = cons≢nil e

module _ (intersection : Geometry → Geometry → Option Geometry) (window : Geometry) where
  abbrev pub shared : Geometry → ℤ
  shared output = area_of (intersection output window)

  -- The output number `k` shares a part of the window, more than those before it and at least as much as
  -- any other.
  abbrev pub Captured : List Geometry → ℕ → ℕ → Geometry → Type 0
  Captured outputs r k output =
      (k ≡ r)
      × (pos 0 <ℤ shared output)
      × AllFrom (λ j other. Beats (k, shared output) (j, shared other)) 0 outputs

  abbrev pub Choice : List Geometry → Option ℕ → Type 0
  Choice outputs none = AllFrom (λ k output. shared output ≤ℤ pos 0) 0 outputs
  Choice outputs (some r) = AnyFrom (Captured outputs r) 0 outputs

  candidates-All :
      (r : ℕ × ℤ) (i : ℕ) (os : List Geometry)
      → pos 0 <ℤ r.1
      → All (Beats r) (candidates intersection window i os)
      → AllFrom (λ j other. Beats r (j, shared other)) i os
  unfolding candidates
  candidates-All r i [] up all = tt
  candidates-All r i (o ∷ os) up all =
      let rest = candidates intersection window (suc i) os in
      elim (if_positive-cases i (intersection o window) rest) [
        | inl (low, e) ↦ (
          below-Beats r i (shared o) up low,
          candidates-All r (suc i) os up (subst (All (Beats r)) e all),
        )
        | inr (high, e) ↦
            let (first, later) = subst (All (Beats r)) e all in
            (first, candidates-All r (suc i) os up later)
      ]

  abbrev Is : ℕ × ℤ → ℕ → Geometry → Type 0
  Is r k o = ((k, shared o) ≡ r) × (pos 0 <ℤ shared o)

  candidates-Any :
      (r : ℕ × ℤ) (i : ℕ) (os : List Geometry)
      → Any (λ c. r ≡ c) (candidates intersection window i os)
      → AnyFrom (Is r) i os
  unfolding candidates
  candidates-Any r i [] p = elim p [ ]
  candidates-Any r i (o ∷ os) p =
      let rest = candidates intersection window (suc i) os in
      elim (if_positive-cases i (intersection o window) rest) [
        | inl (low, e) ↦ inr (candidates-Any r (suc i) os (subst (Any (λ c. r ≡ c)) e p))
        | inr (high, e) ↦ elim (subst (Any (λ c. r ≡ c)) e p) [
          | inl same ↦ inl (sym same, high)
          | inr q ↦ inr (candidates-Any r (suc i) os q)
        ]
      ]

  candidates-none :
      (i : ℕ) (os : List Geometry)
      → candidates intersection window i os ≡ []
      → AllFrom (λ k output. shared output ≤ℤ pos 0) i os
  unfolding candidates
  candidates-none i [] e = tt
  candidates-none i (o ∷ os) e =
      let rest = candidates intersection window (suc i) os in
      elim (if_positive-cases i (intersection o window) rest) [
        | inl (low, f) ↦ (low, candidates-none (suc i) os (sym f ∙ e))
        | inr (high, f) ↦ absurd (not-empty (i, shared o) rest (sym f ∙ e))
      ]

  pub max_by_key-Choice :
      (os : List Geometry) (cs : List (ℕ × ℤ))
      → candidates intersection window 0 os ≡ cs
      → Choice os (max_by_key cs)
  max_by_key-Choice os [] e = candidates-none 0 os e
  max_by_key-Choice os (c ∷ cs) e =
      let r = max_of c cs in
      let (first, later, found) = max_of-Beats c cs in
      AnyFrom-map (Is r) (Captured os r.0) 0 os
        (λ k o (same, high).
          let up = subst (λ (x : ℕ × ℤ). pos 0 <ℤ x.1) same high in
          (
            ap (λ (x : ℕ × ℤ). x.0) same,
            high,
            subst (λ x. AllFrom (λ j other. Beats x (j, shared other)) 0 os) (sym same)
                (candidates-All r 0 os up (subst (All (Beats r)) (sym e) (first, later))),
          ))
        (candidates-Any r 0 os (subst (Any (λ x. r ≡ x)) (sym e) found))
