-- ===== src/Layout/Repacked.antt =====
-- src/state.rs: the layout that `repack_auto_outputs` leaves.
use minde.Base.{
  ℕ, ◌≡◌, ◌≢◌, refl, sym, ap, ◌∙◌, ◌⊎◌, inl, inr, List, none, none-ne-some, Bool, true, false,
  true-ne-false, if-split, ℤ, All, All-map, Any, Distinct,
}
use minde.Outputs.Layer.{Desktop, Compositor, Same}
use minde.Outputs.Apply.{position_is_explicit}
use minde.Layout.{
  Geometry, Space, geometry, collect, sort_by_key, place, heads_of, layout_needs_repack,
  repack_auto_outputs,
}
use minde.Layout.Sorted.{
  of_output, Ordered, sort_by_key-All, sort_by_key-Any, sort_by_key-Ordered, sort_by_key-Distinct,
}
use minde.Layout.Placed.{Packed, Measured, place-Result}
use minde.Layout.Collected.{
  Within, Collected, Auto, Seen, collect-Distinct, collect-Auto, collect-Seen, Reached,
  collect-Reached,
}

module _ (d : Desktop) (space : Space d) {B : Type 0} where
  -- An output is explicit, left of the edge and as it was; or has no geometry, and is as it was; or was
  -- placed.
  abbrev pub Handled : Compositor d.World B → Compositor d.World B → ℤ → List (ℤ × ℕ) → ℕ → Type 0
  Handled s t right auto o =
      ((position_is_explicit d s o ≡ true)
        × Within (geometry d space s.world o) right
        × Same d o s t)
      ⊎ (((geometry d space s.world o ≡ none) × Same d o s t) ⊎ Any (λ a. of_output a ≡ o) auto)

  abbrev pub Repacked : Compositor d.World B → Compositor d.World B → Type 0
  Repacked s t =
      (right : ℤ) × (auto : List (ℤ × ℕ)) × Reached d space s (space.outputs s.world) right
      × All (Auto d space s) auto
      × Distinct of_output auto
      × Ordered auto
      × All (Handled s t right auto) (space.outputs s.world)
      × Packed d space t right auto

  Seen-Handled :
      (s t : Compositor d.World B) (c : Collected) (o : ℕ)
      → All (Auto d space s) (sort_by_key c.1)
      → ((p : ℕ) → All (λ a. of_output a ≢ p) (sort_by_key c.1) → Same d p s t)
      → Seen d space s c o
      → Handled s t c.0 (sort_by_key c.1) o
  Seen-Handled s t c o autos others (inl (explicit, within)) = inl (
    explicit,
    within,
    others o (
        All-map (Auto d space s) (λ a. of_output a ≢ o) (sort_by_key c.1)
          (λ a (auto, _) e. true-ne-false (ap (position_is_explicit d s) e ∙ explicit) auto) autos),
  )
  Seen-Handled s t c o autos others (inr (inl unknown)) = inr (
      inl (
        unknown,
        others o (
            All-map (Auto d space s) (λ a. of_output a ≢ o) (sort_by_key c.1)
              (λ a (_, (g, known, _)) e.
                none-ne-some g (sym unknown ∙ ap (geometry d space s.world) (sym e) ∙ known))
              autos),
      ))
  Seen-Handled s t c o autos others (inr (inr placed)) =
      inr (inr (sort_by_key-Any (λ a. of_output a ≡ o) c.1 placed))

  place-Repacked :
      (s : Compositor d.World B)
      → Distinct (λ n. n) (space.outputs s.world)
      → Repacked s (
          place d space s
            (collect d space s (space.outputs s.world)).0
            (sort_by_key (collect d space s (space.outputs s.world)).1))
  place-Repacked s distinct =
      let os = space.outputs s.world in
      let c = collect d space s os in
      let auto = sort_by_key c.1 in
      let t = place d space s c.0 auto in
      let autos = sort_by_key-All (Auto d space s) c.1 (collect-Auto d space s os) in
      let measured =
        All-map (Auto d space s) (Measured d space s) auto (λ a (_, (g, known, _)). (g, known))
          autos in
      let once = sort_by_key-Distinct c.1 (collect-Distinct d space s os distinct) in
      let (packed, others, _) = place-Result d space auto c.0 s once measured in
      (
        c.0,
        auto,
        collect-Reached d space s os,
        autos,
        once,
        sort_by_key-Ordered c.1,
        All-map (Seen d space s c) (Handled s t c.0 auto) os
            (λ o. Seen-Handled s t c o autos others) (collect-Seen d space s os),
        packed,
      )

  -- For a space whose outputs are different, and any `overlaps`: a layout that needs no repacking is left
  -- as it is, and one that needs it is repacked. An explicit output then ends at or left of a right edge,
  -- which is the end of one of them or 0, and nothing of it has changed, nor of an output without a
  -- geometry. Every other output is once in a list that is ordered by the left edges before, whose
  -- outputs now stand at the top from that right edge on, each where the one before it ends.
  pub repack_auto_outputs-Repacked :
      (overlaps : Geometry → Geometry → Bool) (s : Compositor d.World B)
      → Distinct (λ n. n) (space.outputs s.world)
      → ((layout_needs_repack overlaps (heads_of d space s (space.outputs s.world)) ≡ false)
          × (repack_auto_outputs d space overlaps s ≡ s))
        ⊎ ((layout_needs_repack overlaps (heads_of d space s (space.outputs s.world)) ≡ true)
            × Repacked s (repack_auto_outputs d space overlaps s))
  unfolding repack_auto_outputs
  repack_auto_outputs-Repacked overlaps s distinct =
      let os = space.outputs s.world in
      let c = collect d space s os in
      let needs = layout_needs_repack overlaps (heads_of d space s os) in
      if-split (λ t. ((needs ≡ false) × (t ≡ s)) ⊎ ((needs ≡ true) × Repacked s t)) needs
        (place d space s c.0 (sort_by_key c.1)) s
        (λ unsound. inr (unsound, place-Repacked s distinct)) (λ sound. inl (sound, refl))
