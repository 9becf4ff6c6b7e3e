-- ===== src/Layout/Sound.antt =====
-- src/state.rs: `layout_needs_repack` against what it means for a layout to be sound.
use minde.Base.{
  ℕ, suc, ◌+◌, ◌≡◌, ◌↔◌, refl, sym, ap, ◌∙◌, ◌⊎◌, inl, inr, List, [], ◌∷◌, ◌++◌, Bool, true, false,
  not, ◌&&◌, ◌||◌, ◌==◌, if◌then◌else◌, pos, ◌+ℤ◌, ◌<ℤ◌, ◌≤◌, append_assoc, length-append, ◌==ℤ◌,
  ==ℤ_eq, ==ℤ_refl, All, Any, length, Bool-cases, arith,
}
use minde.Layout.{
  Geometry, any, Placement, any_overlap, anchors, anchored_from, is_detached, any_detached,
  layout_needs_repack,
}

-- No head overlaps a later one.
module _ (overlaps : Geometry → Geometry → Bool) where
  abbrev pub Apart : List Placement → Type 0
  Apart [] = Unit
  Apart (a ∷ rest) = All (λ (b : Placement). overlaps a.1 b.1 ≡ false) rest × Apart rest

-- The head begins where the other ends, and they have a height in common.
abbrev pub Anchored : Geometry → Placement → Type 0
Anchored geo (_, other) =
    (other.x +ℤ other.w ≡ geo.x) × (other.y <ℤ (geo.y +ℤ geo.h)) × (geo.y <ℤ (other.y +ℤ other.h))

-- The head was placed by the user, or is at the left, or is at another head.
abbrev pub Attached : Placement → List Placement → Type 0
Attached head others = (head.0 ≡ true) ⊎ ((head.1.x ≡ pos 0) ⊎ Any (Anchored head.1) others)

abbrev pub AllAttached : List Placement → Type 0
AllAttached heads =
    (before after : List Placement) (head : Placement)
    → heads ≡ before ++ (head ∷ after)
    → Attached head (before ++ after)

or-false : (a b : Bool) → (a || b) ≡ false → (a ≡ false) × (b ≡ false)
or-false a b e = ground arith

any-All {ℓ} :
    {A : Type ℓ} (test : A → Bool) (xs : List A)
    → (any test xs ≡ false) ↔ All (λ a. test a ≡ false) xs
any-All test [] = (λ _. tt, λ _. refl)
any-All test (a ∷ rest) = (
  (λ e. let (h, k) = or-false (test a) (any test rest) e in (h, (any-All test rest).0 k)),
  (λ (h, k). let k' = (any-All test rest).1 k in ground arith),
)

anchors-Anchored : (geo : Geometry) (o : Placement) → (anchors geo o.1 ≡ true) ↔ Anchored geo o
unfolding anchors
anchors-Anchored geo (explicit, other) = (
  (λ e. (==ℤ_eq (other.x +ℤ other.w) geo.x (ground arith), ground arith, ground arith)),
  (λ (edge, low, high).
      let same = ==ℤ_refl geo.x in let at = ap (λ e. e ==ℤ geo.x) edge ∙ same in ground arith),
)

or-Sum : (a b : Bool) → ((a || b) ≡ true) ↔ ((a ≡ true) ⊎ (b ≡ true))
or-Sum true b = ((λ _. inl refl), (λ _. refl))
or-Sum false b = ((λ e. inr e), (λ p. elim p [ inl e ↦ absurd (ground arith) | inr e ↦ e ]))

-- A head of another number counts.
other-Any :
    (i j : ℕ) (geo : Geometry) (other : Placement) (rest : List Placement) (P : Type 0)
    → (j == i) ≡ false
    → (anchored_from i geo (suc j) rest ≡ true) ↔ P
    → (anchored_from i geo j (other ∷ rest) ≡ true) ↔ (Anchored geo other ⊎ P)
unfolding anchored_from
other-Any i j geo other rest P ne later =
    let whole = or-Sum (not (j == i) && anchors geo other.1) (anchored_from i geo (suc j) rest) in
    let first : (not (j == i) && anchors geo other.1) ≡ anchors geo other.1 = rw ne refl in
    (
      (λ e. elim (whole.0 e) [
        | inl h ↦ inl ((anchors-Anchored geo other).0 (sym first ∙ h))
        | inr h ↦ inr (later.0 h)
      ]),
      (λ p. elim p [
        | inl h ↦ whole.1 (inl (first ∙ (anchors-Anchored geo other).1 h))
        | inr h ↦ whole.1 (inr (later.1 h))
      ]),
    )

beyond-Any :
    (i j : ℕ) (geo : Geometry) (rest : List Placement)
    → i ≤ j
    → (anchored_from i geo (suc j) rest ≡ true) ↔ Any (Anchored geo) rest
unfolding anchored_from
beyond-Any i j geo [] le = ((λ e. absurd (ground arith)), (λ p. elim p [ ]))
beyond-Any i j geo (other ∷ rest) le =
    let ne : (suc j == i) ≡ false = ground arith in
    other-Any i (suc j) geo other rest (Any (Anchored geo) rest) ne
      (beyond-Any i (suc j) geo rest (omega arith))

skipped : (own test rest : Bool) → own ≡ true → ((not own && test) || rest) ≡ rest
skipped own test rest e = ground arith

around-Any :
    (i j : ℕ) (geo : Geometry) (before after : List Placement) (head : Placement)
    → j + length before ≡ i
    → (anchored_from i geo j (before ++ (head ∷ after)) ≡ true)
      ↔ Any (Anchored geo) (before ++ after)
unfolding anchored_from
around-Any i j geo [] after head at =
    let same : (j == i) ≡ true = ground arith in
    let skip = skipped (j == i) (anchors geo head.1) (anchored_from i geo (suc j) after) same in
    let later = beyond-Any i j geo after (omega arith) in
    ((λ e. later.0 (sym skip ∙ e)), (λ p. skip ∙ later.1 p))
around-Any i j geo (other ∷ before) after head at =
    let ne : (j == i) ≡ false = ground arith in
    other-Any i j geo other (before ++ (head ∷ after)) (Any (Anchored geo) (before ++ after)) ne
      (around-Any i (suc j) geo before after head (omega arith))

is_detached-Attached :
    (before after : List Placement) (head : Placement)
    → (is_detached (before ++ (head ∷ after)) (length before) head ≡ false)
      ↔ Attached head (before ++ after)
unfolding is_detached
is_detached-Attached before after (explicit, geo) =
    let heads = before ++ ((explicit, geo) ∷ after) in
    let anchored = anchored_from (length before) geo 0 heads in
    let around = around-Any (length before) 0 geo before after (explicit, geo) (omega arith) in
    (
      (λ e. elim (Bool-cases explicit) [
        | inl user ↦ inl user
        | inr auto ↦ elim (Bool-cases (geo.x ==ℤ pos 0)) [
          | inl left ↦ inr (inl (==ℤ_eq geo.x (pos 0) left))
          | inr away ↦ inr (inr (around.0 (here explicit (geo.x ==ℤ pos 0) anchored auto away e)))
        ]
      ]),
      (λ p. elim p [
        | inl user ↦ there explicit (geo.x ==ℤ pos 0) anchored (inl user)
        | inr (inl left) ↦
            there explicit (geo.x ==ℤ pos 0) anchored
              (inr (inl (ap (λ x. x ==ℤ pos 0) left ∙ ==ℤ_refl (pos 0))))
        | inr (inr near) ↦ there explicit (geo.x ==ℤ pos 0) anchored (inr (inr (around.1 near)))
      ]),
    )
  where
    here :
        (a b c : Bool)
        → a ≡ false
        → b ≡ false
        → (if a || b then false else not c) ≡ false
        → c ≡ true
    here a b c ha hb e = ground arith

    there :
        (a b c : Bool)
        → (a ≡ true) ⊎ ((b ≡ true) ⊎ (c ≡ true))
        → (if a || b then false else not c) ≡ false
    there a b c p = ground arith

detached-at :
    (heads before after : List Placement) (head : Placement) (i n : ℕ)
    → i + length before ≡ n
    → any_detached heads i (before ++ (head ∷ after)) ≡ false
    → is_detached heads n head ≡ false
unfolding any_detached
detached-at heads [] after head i n at e =
    let here : i ≡ n = omega arith in
    ap (λ m. is_detached heads m head) (sym here)
    ∙ (or-false (is_detached heads i head) (any_detached heads (suc i) after) e).0
detached-at heads (other ∷ before) after head i n at e =
    detached-at heads before after head (suc i) n (omega arith)
      (or-false (is_detached heads i other) (any_detached heads (suc i) (before ++ (head ∷ after)))
        e).1

none-detached :
    (heads before rest : List Placement)
    → AllAttached heads
    → heads ≡ before ++ rest
    → any_detached heads (length before) rest ≡ false
unfolding any_detached
none-detached heads before [] all e = refl
none-detached heads before (head ∷ after) all e =
    let first : is_detached heads (length before) head ≡ false =
      ap (λ hs. is_detached hs (length before) head) e
      ∙ (is_detached-Attached before after head).1 (all before after head e) in
    let later =
      none-detached heads (before ++ (head ∷ [])) after all
        (e ∙ sym (append_assoc before (head ∷ []) after)) in
    let at : length (before ++ (head ∷ [])) ≡ suc (length before) =
      omega (arith, length-append before (head ∷ [])) in
    let later' = sym (ap (λ n. any_detached heads n after) at) ∙ later in ground arith

any_overlap-Apart :
    (overlaps : Geometry → Geometry → Bool) (heads : List Placement)
    → (any_overlap overlaps heads ≡ false) ↔ Apart overlaps heads
unfolding any_overlap
any_overlap-Apart overlaps [] = ((λ _. tt), (λ _. refl))
any_overlap-Apart overlaps (a ∷ rest) =
    let test = any (λ (b : Placement). overlaps a.1 b.1) rest in
    let first = any-All (λ (b : Placement). overlaps a.1 b.1) rest in
    let later = any_overlap-Apart overlaps rest in
    (
      (λ e. let (h, k) = or-false test (any_overlap overlaps rest) e in (first.0 h, later.0 k)),
      (λ (h, k). let h' = first.1 h in let k' = later.1 k in ground arith),
    )

-- A layout needs no repacking exactly if no head overlaps a later one, and each head that the user did
-- not place is at the left, or begins where another ends that has a height in common with it.
pub layout_needs_repack_lem :
    (overlaps : Geometry → Geometry → Bool) (heads : List Placement)
    → (layout_needs_repack overlaps heads ≡ false) ↔ (Apart overlaps heads × AllAttached heads)
unfolding layout_needs_repack
layout_needs_repack_lem overlaps heads = (
  (λ e.
      let (apart, attached) = both (any_overlap overlaps heads) (any_detached heads 0 heads) e in
      (
        (any_overlap-Apart overlaps heads).0 apart,
        (λ before after head at. (is_detached-Attached before after head).0 (
            ap (λ hs. is_detached hs (length before) head) (sym at)
            ∙ detached-at heads before after head 0 (length before) (omega arith)
                (ap (any_detached heads 0) (sym at) ∙ attached))),
      )),
  (λ (apart, attached).
      let h = (any_overlap-Apart overlaps heads).1 apart in
      let k = none-detached heads [] heads attached refl in
      neither (any_overlap overlaps heads) (any_detached heads 0 heads) h k),
)
  where
    both : (a b : Bool) → (if a then true else b) ≡ false → (a ≡ false) × (b ≡ false)
    both a b e = ground arith

    neither : (a b : Bool) → a ≡ false → b ≡ false → (if a then true else b) ≡ false
    neither a b h k = ground arith
