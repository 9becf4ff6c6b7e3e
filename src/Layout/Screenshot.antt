-- ===== src/Layout/Screenshot.antt =====
-- src/state.rs: `screenshot_output_index`, the output whose scene a screenshot captures.
use minde.Base.{
  ℕ, suc, ◌+◌, ◌*◌, List, [], ◌∷◌, Option, none, some, Bool, leb, if◌then◌else◌, ℤ, pos, pos_part,
  neg_part, sub_ℕ, ltb_ℤ,
}
use minde.Layout.{Geometry}

-- The product of two 32-bit sizes, which a 64-bit integer holds.
abbrev pub product : ℤ → ℤ → ℤ
product a b =
    sub_ℕ (pos_part a * pos_part b + neg_part a * neg_part b)
      (pos_part a * neg_part b + neg_part a * pos_part b)

-- `max_by_key` of the standard library: of two equal keys the later one is taken.
abbrev pub keep_max : ℕ × ℤ → ℕ × ℤ → ℕ × ℤ
keep_max (i, a) (j, b) =
    if ltb_ℤ b a then (i, a) else if ltb_ℤ a b then (j, b) else if leb j i then (j, b) else (i, a)

unfoldable pub max_of : ℕ × ℤ → List (ℕ × ℤ) → ℕ × ℤ
max_of best [] = best
max_of best (c ∷ rest) = max_of (keep_max best c) rest

abbrev pub max_by_key : List (ℕ × ℤ) → Option ℕ
max_by_key [] = none
max_by_key (c ∷ rest) = some ((max_of c rest).0)

abbrev pub if_positive : ℕ → Option Geometry → List (ℕ × ℤ) → List (ℕ × ℤ)
if_positive i none rest = rest
if_positive i (some g) rest =
    if ltb_ℤ (pos 0) (product g.w g.h) then (i, product g.w g.h) ∷ rest else rest

-- `intersection` is smithay's, and `contains` whether a rectangle contains the pointer.
module _ (intersection : Geometry → Geometry → Option Geometry) where
  unfoldable pub candidates : Geometry → ℕ → List Geometry → List (ℕ × ℤ)
  candidates window i [] = []
  candidates window i (output ∷ rest) =
      if_positive i (intersection output window) (candidates window (suc i) rest)

unfoldable pub position_of : (Geometry → Bool) → ℕ → List Geometry → Option ℕ
position_of contains i [] = none
position_of contains i (output ∷ rest) =
    let later = position_of contains (suc i) rest in if contains output then some i else later

abbrev pub or_first : Option ℕ → List Geometry → Option ℕ
or_first (some i) outputs = some i
or_first none [] = none
or_first none (output ∷ rest) = some 0

module _ (intersection : Geometry → Geometry → Option Geometry) where
  unfoldable pub screenshot_output_index :
      (Geometry → Bool) → Option Geometry → List Geometry → Option ℕ
  unfolding candidates max_of position_of
  screenshot_output_index contains (some window) outputs =
      max_by_key (candidates intersection window 0 outputs)
  screenshot_output_index contains none outputs = or_first (position_of contains 0 outputs) outputs
