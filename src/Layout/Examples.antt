-- ===== src/Layout/Examples.antt =====
-- Runs of the layout of src/state.rs.
use minde.Base.{
  ◌-ℤ◌, Option, ℕ, ◌≡◌, ◌↔◌, refl, ◌⊎◌, List, [], ◌∷◌, none, some, Bool, true, false, ◌&&◌, ltb_ℤ,
  ◌==◌, if◌then◌else◌, ℤ, pos, negsuc, ◌+ℤ◌, arith,
}
use minde.Outputs.Layer.{Compositor}
use minde.Outputs.Apply.{position_is_explicit}
use minde.Outputs.Plain.{Plain, plain_desktop, at_origin}
use minde.Layout.{
  Geometry, Placement, Space, layout_needs_repack, any_overlap, any_detached, is_detached,
  anchored_from, anchors, heads_of, collect, sort_by_key, place, repack_auto_outputs,
}
use minde.Layout.Sound.{Apart, AllAttached, layout_needs_repack_lem}
use minde.Layout.Screenshot.{screenshot_output_index, candidates, max_of}
use minde.Layout.Pointed.{Chosen, screenshot_output_index-Chosen}
use minde.Layout.Repacked.{Repacked, repack_auto_outputs-Repacked}

-- Two intervals with a common point.
abbrev crosses : ℤ → ℤ → ℤ → ℤ → Bool
crosses a la b lb = ltb_ℤ a (b +ℤ lb) && ltb_ℤ b (a +ℤ la)

abbrev crossing : Geometry → Geometry → Bool
crossing a b = crosses a.x a.w b.x b.w && crosses a.y a.h b.y b.h

abbrev screen : ℤ → Geometry
screen x = record { x = x; y = pos 0; w = pos 100; h = pos 80 }

-- A hole of 20 between the second and the third.
abbrev with_hole : List Placement
with_hole = (true, screen (negsuc 99)) ∷ (false, screen (pos 0)) ∷ (false, screen (pos 120)) ∷ []

hole_found : layout_needs_repack crossing with_hole ≡ true
unfolding layout_needs_repack ◌+ℤ◌ any_overlap any_detached is_detached anchored_from anchors
hole_found = refl

layout_needs_repack_lem_example :
    (layout_needs_repack crossing with_hole ≡ false)
    ↔ (Apart crossing with_hole × AllAttached with_hole)
layout_needs_repack_lem_example = layout_needs_repack_lem crossing with_hole

-- Three outputs of one size.
abbrev three : Space plain_desktop
three = record {
  outputs = λ w. 0 ∷ 1 ∷ 2 ∷ [];
  size = λ w o. some (pos 100, pos 80);
  size-change = λ w o p l. refl;
  size-map = λ w o p l. refl;
}

abbrev scattered : Compositor Plain ℕ
scattered = record {
  world = record {
    states = λ p. at_origin;
    spots =
        λ p. if p == 0 then some (pos 120, pos 0) else if p == 1 then some (pos 0, pos 0) else none;
  };
  explicit = λ p. if p == 1 then some true else none;
  heads_all = 0 ∷ 1 ∷ 2 ∷ [];
  allow_no_heads = false;
  applying_output_config = false;
  backend = 0;
}

-- The first output moves against the second, and the third is not mapped.
closed_up :
    (repack_auto_outputs plain_desktop three crossing scattered).world.spots 0
    ≡ some (pos 100, pos 0)
unfolding repack_auto_outputs layout_needs_repack heads_of collect sort_by_key place ◌+ℤ◌
    any_overlap any_detached is_detached anchored_from anchors position_is_explicit
closed_up = refl

repack_auto_outputs-Repacked_example :
    ((layout_needs_repack crossing (heads_of plain_desktop three scattered (0 ∷ 1 ∷ 2 ∷ []))
        ≡ false)
      × (repack_auto_outputs plain_desktop three crossing scattered ≡ scattered))
    ⊎ ((layout_needs_repack crossing (heads_of plain_desktop three scattered (0 ∷ 1 ∷ 2 ∷ []))
          ≡ true)
        × Repacked plain_desktop three scattered
            (repack_auto_outputs plain_desktop three crossing scattered))
repack_auto_outputs-Repacked_example =
    repack_auto_outputs-Repacked plain_desktop three crossing scattered
      ((ground arith, (ground arith, tt)), ((ground arith, tt), (tt, tt)))

-- The part of an output that a window of its height covers from the left.
abbrev left_part : Geometry → Geometry → Option Geometry
left_part output window =
    if crossing output window
    then some (record output { w = window.x +ℤ window.w -ℤ output.x })
    else none

abbrev two_screens : List Geometry
two_screens = screen (pos 0) ∷ screen (pos 100) ∷ []

-- The window reaches 30 into the first output and 60 into the second, seen from their left edges.
second_chosen :
    screenshot_output_index left_part
      (λ o. false)
      (some (record (screen (pos 80)) { w = pos 80 }))
      (screen (pos 130) ∷ screen (pos 100) ∷ [])
    ≡ some 1
unfolding screenshot_output_index candidates max_of ◌+ℤ◌ ◌-ℤ◌
second_chosen = refl

screenshot_output_index-Chosen_example :
    Chosen left_part
      (λ o. false)
      (some (screen (pos 20)))
      two_screens
      (screenshot_output_index left_part (λ o. false) (some (screen (pos 20))) two_screens)
screenshot_output_index-Chosen_example =
    screenshot_output_index-Chosen left_part (λ o. false) (some (screen (pos 20))) two_screens
