-- ===== src/Layout.antt =====
-- src/state.rs: `layout_needs_repack` and `repack_auto_outputs`, which lay the outputs without a position
-- of their own out from left to right.
mod Sound
mod Sorted
mod Placed
mod Collected
mod Repacked
mod Screenshot
mod Captured
mod Pointed
mod Examples
use minde.Base.{
  ℕ, suc, ◌≡◌, List, [], ◌∷◌, Option, none, some, Bool, true, false, not, ◌&&◌, ◌||◌, ◌==◌,
  if◌then◌else◌, ℤ, pos, ◌+ℤ◌, ltb_ℤ, leb_ℤ, ◌==ℤ◌,
}
use minde.Outputs.Layer.{OutputState, Desktop, Compositor}
use minde.Outputs.Apply.{map_option, with_world, position_is_explicit}

pub record Geometry : Type 0 where
  pub x : ℤ
  pub y : ℤ
  pub w : ℤ
  pub h : ℤ

abbrev pub any {ℓ} : {A : Type ℓ} → (A → Bool) → List A → Bool
any test [] = false
any test (a ∷ rest) = test a || any test rest

-- A head is whether its position is explicit, and its geometry.
abbrev pub Placement : Type 0
Placement = Bool × Geometry

-- `overlaps` is smithay's `Rectangle::overlaps`.
module _ (overlaps : Geometry → Geometry → Bool) where
  unfoldable pub any_overlap : List Placement → Bool
  any_overlap [] = false
  any_overlap (a ∷ rest) = any (λ (b : Placement). overlaps a.1 b.1) rest || any_overlap rest

-- The head ends where the other begins, at a common height.
unfoldable pub anchors : Geometry → Geometry → Bool
anchors geo other =
    (other.x +ℤ other.w ==ℤ geo.x)
    && (ltb_ℤ other.y (geo.y +ℤ geo.h) && ltb_ℤ geo.y (other.y +ℤ other.h))

-- The heads are numbered from `j`.
unfoldable pub anchored_from : ℕ → Geometry → ℕ → List Placement → Bool
anchored_from i geo j [] = false
anchored_from i geo j (other ∷ rest) =
    (not (j == i) && anchors geo other.1) || anchored_from i geo (suc j) rest

unfoldable pub is_detached : List Placement → ℕ → Placement → Bool
is_detached heads i (explicit, geo) =
    if explicit || (geo.x ==ℤ pos 0) then false else not (anchored_from i geo 0 heads)

unfoldable pub any_detached : List Placement → ℕ → List Placement → Bool
any_detached heads i [] = false
any_detached heads i (head ∷ rest) = is_detached heads i head || any_detached heads (suc i) rest

module _ (overlaps : Geometry → Geometry → Bool) where
  unfoldable pub layout_needs_repack : List Placement → Bool
  unfolding any_overlap any_detached
  layout_needs_repack heads =
      if any_overlap overlaps heads then true else any_detached heads 0 heads

-- The outputs of smithay's `Space`, and the size of one, which its position does not change.
pub record Space (d : Desktop) : Type 0 where
  pub outputs : d.World → List ℕ
  pub size : d.World → ℕ → Option (ℤ × ℤ)
  pub size-change :
      (w : d.World) (o p : ℕ) (l : Option (ℤ × ℤ))
      → size (d.change_current_state w o none none none l) p ≡ size w p
  pub size-map : (w : d.World) (o p : ℕ) (l : ℤ × ℤ) → size (d.map_output w o l) p ≡ size w p

abbrev pub placed_at : Option (ℤ × ℤ) → Option (ℤ × ℤ) → Option Geometry
placed_at none size = none
placed_at (some l) none = none
placed_at (some (x, y)) (some (w, h)) = some (record { x = x; y = y; w = w; h = h })

abbrev pub max_ℤ : ℤ → ℤ → ℤ
max_ℤ a b = if leb_ℤ a b then b else a

abbrev pub insert_by : ℤ × ℕ → List (ℤ × ℕ) → List (ℤ × ℕ)
insert_by a [] = a ∷ []
insert_by a (b ∷ rest) =
    let later = insert_by a rest in if leb_ℤ a.0 b.0 then a ∷ b ∷ rest else b ∷ later

-- `sort_by_key` of the standard library, which is stable.
unfoldable pub sort_by_key : List (ℤ × ℕ) → List (ℤ × ℕ)
sort_by_key [] = []
sort_by_key (a ∷ rest) = insert_by a (sort_by_key rest)

abbrev pub add_head : Bool → Option Geometry → List Placement → List Placement
add_head explicit none heads = heads
add_head explicit (some geo) heads = (explicit, geo) ∷ heads

-- The right edge of the explicit heads, and the others with their left edges.
abbrev pub add_output : ℕ → Bool → Option Geometry → ℤ × List (ℤ × ℕ) → ℤ × List (ℤ × ℕ)
add_output o explicit none (right, auto) = (right, auto)
add_output o true (some geo) (right, auto) = (max_ℤ right (geo.x +ℤ geo.w), auto)
add_output o false (some geo) (right, auto) = (right, (geo.x, o) ∷ auto)

abbrev pub at_target : Geometry → ℤ → Bool
at_target geo x = (geo.x ==ℤ x) && (geo.y ==ℤ pos 0)

module _ (d : Desktop) (space : Space d) where
  -- `output_geometry`.
  abbrev pub geometry : d.World → ℕ → Option Geometry
  geometry w o = placed_at (d.mapped w o) (space.size w o)

module _ (d : Desktop) (space : Space d) {B : Type 0} where
  unfoldable pub heads_of : Compositor d.World B → List ℕ → List Placement
  heads_of s [] = []
  heads_of s (o ∷ rest) =
      add_head (position_is_explicit d s o) (geometry d space s.world o) (heads_of s rest)

  unfoldable pub collect : Compositor d.World B → List ℕ → ℤ × List (ℤ × ℕ)
  collect s [] = (pos 0, [])
  collect s (o ∷ rest) =
      add_output o (position_is_explicit d s o) (geometry d space s.world o) (collect s rest)

  abbrev pub move_to : Compositor d.World B → ℕ → ℤ → Compositor d.World B
  move_to s o x = with_world d s (
      d.map_output (d.change_current_state s.world o none none none (some (x, pos 0))) o (x, pos 0))

  abbrev pub place_one : Compositor d.World B → ℕ → ℤ → Option Geometry → Compositor d.World B × ℤ
  place_one s o x none = (s, x)
  place_one s o x (some geo) = (if at_target geo x then s else move_to s o x, x +ℤ geo.w)

  unfoldable pub place : Compositor d.World B → ℤ → List (ℤ × ℕ) → Compositor d.World B
  place s x [] = s
  place s x ((_, o) ∷ rest) =
      let (s', x') = place_one s o x (geometry d space s.world o) in place s' x' rest

  module _ (overlaps : Geometry → Geometry → Bool) where
    unfoldable pub repack_auto_outputs : Compositor d.World B → Compositor d.World B
    unfolding layout_needs_repack heads_of collect sort_by_key place
    repack_auto_outputs s =
        let outputs = space.outputs s.world in
        let (right, auto) = collect s outputs in
        if layout_needs_repack overlaps (heads_of s outputs)
        then place s right (sort_by_key auto)
        else s
