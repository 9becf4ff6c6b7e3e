-- ===== src/Layout/Placed.antt =====
-- src/state.rs: the outputs that `repack_auto_outputs` places, edge to edge.
use minde.Base.{
  ℕ, ◌≡◌, ◌≢◌, refl, sym, ap, subst, ◌∙◌, List, [], ◌∷◌, Option, none, some, none-ne-some,
  some-injective, true, false, ◌==◌, if-own, if-split, ℤ, pos, ◌+ℤ◌, ==ℤ_eq, All, All-map, All-zip,
  Bool-cases, ==_iff, inl, inr, Distinct, arith,
}
use minde.Outputs.Layer.{Desktop, Compositor, Same}
use minde.Outputs.Frame.{other-change, other-map, Same-refl, Same-trans}
use minde.Layout.{Geometry, Space, placed_at, geometry, at_target, move_to, place_one, place}
use minde.Layout.Sorted.{of_output}

pub placed_at-some :
    (m z : Option (ℤ × ℤ)) (g : Geometry)
    → placed_at m z ≡ some g
    → (m ≡ some (g.x, g.y)) × (z ≡ some (g.w, g.h))
placed_at-some none z g e = absurd (none-ne-some g e)
placed_at-some (some l) none g e = absurd (none-ne-some g e)
placed_at-some (some (x, y)) (some (w, h)) g e =
    let same = some-injective (record { x = x; y = y; w = w; h = h }) g e in
    (ap (λ (k : Geometry). some (k.x, k.y)) same, ap (λ (k : Geometry). some (k.w, k.h)) same)

abbrev width_of : Option (ℤ × ℤ) → ℤ
width_of none = pos 0
width_of (some (w, h)) = w

different : (o p : ℕ) → o ≢ p → (o == p) ≡ false
different o p ne = elim (Bool-cases (o == p)) [ inl e ↦ absurd (ne ((==_iff o p).0 e)) | inr e ↦ e ]

module _ (d : Desktop) (space : Space d) {B : Type 0} where
  -- Each output begins where the one before it ends, at the top.
  abbrev pub Packed : Compositor d.World B → ℤ → List (ℤ × ℕ) → Type 0
  Packed s x [] = Unit
  Packed s x ((_, o) ∷ rest) =
      (d.mapped s.world o ≡ some (x, pos 0)) × Packed s (x +ℤ width_of (space.size s.world o)) rest

  abbrev Sized : Compositor d.World B → Compositor d.World B → Type 0
  Sized s t = (p : ℕ) → space.size t.world p ≡ space.size s.world p

  move_to-Same :
      (s : Compositor d.World B) (o : ℕ) (x : ℤ) (p : ℕ)
      → (o == p) ≡ false
      → Same d p s (move_to d space s o x)
  move_to-Same s o x p ne =
      let w = d.change_current_state s.world o none none none (some (x, pos 0)) in
      (
        d.state-map w o p (x, pos 0)
            ∙ other-change d s.world o p none none none (some (x, pos 0)) ne,
        other-map d w o p (x, pos 0) ne
            ∙ d.mapped-change s.world o p none none none (some (x, pos 0)),
        refl,
      )

  -- One output is placed.
  abbrev Moved : Compositor d.World B → ℕ → ℤ → Compositor d.World B → Type 0
  Moved s o x t =
      (d.mapped t.world o ≡ some (x, pos 0))
      × ((p : ℕ) → (o == p) ≡ false → Same d p s t)
      × Sized s t

  one-Moved :
      (s : Compositor d.World B) (o : ℕ) (x : ℤ) (g : Geometry)
      → geometry d space s.world o ≡ some g
      → Moved s o x (place_one d space s o x (some g)).0
  one-Moved s o x g e =
      let w = d.change_current_state s.world o none none none (some (x, pos 0)) in
      let (at, _) = placed_at-some (d.mapped s.world o) (space.size s.world o) g e in
      if-split (Moved s o x) (at_target g x) s (move_to d space s o x)
        (λ there. (at ∙ target g x there, (λ p _. Same-refl d p s), (λ p. refl)))
        (λ _. (
          d.mapped-map w o o (x, pos 0) ∙ if-own o (some (x, pos 0)) (d.mapped w o),
          move_to-Same s o x,
          (λ p. space.size-map w o p (x, pos 0) ∙ space.size-change s.world o p (some (x, pos 0))),
        ))
    where
      target :
          (g : Geometry) (x : ℤ)
          → at_target g x ≡ true
          → ◌≡◌ {A = Option (ℤ × ℤ)} (some (g.x, g.y)) (some (x, pos 0))
      target g x e =
          let ex = ==ℤ_eq g.x x (ground arith) in
          let ey = ==ℤ_eq g.y (pos 0) (ground arith) in
          ap (λ l. some (l, g.y)) ex ∙ ap (λ l. some (x, l)) ey

  -- The outputs of the list have a geometry.
  abbrev pub Measured : Compositor d.World B → ℤ × ℕ → Type 0
  Measured s a = (g : Geometry) × (geometry d space s.world a.1 ≡ some g)

  abbrev pub Result : Compositor d.World B → ℤ → List (ℤ × ℕ) → Compositor d.World B → Type 0
  Result s x auto t =
      Packed t x auto × ((p : ℕ) → All (λ a. of_output a ≢ p) auto → Same d p s t) × Sized s t

  pub place-Result :
      (auto : List (ℤ × ℕ)) (x : ℤ) (s : Compositor d.World B)
      → Distinct of_output auto
      → All (Measured s) auto
      → Result s x auto (place d space s x auto)
  unfolding place
  place-Result [] x s distinct measured = (tt, (λ p _. Same-refl d p s), (λ p. refl))
  place-Result ((k, o) ∷ rest) x s (own, distinct) ((g, e), measured) =
      let s' = (place_one d space s o x (some g)).0 in
      let (at, same, sized) = one-Moved s o x g e in
      let measured' =
        All-map (λ a. (of_output a ≢ o) × Measured s a) (Measured s') rest
          (λ a (ne, (h, m)).
            let apart = different o a.1 (λ e. ne (sym e)) in
            (
              h,
              ap (λ l. placed_at l (space.size s'.world a.1)) (same a.1 apart).1
                  ∙ ap (placed_at (d.mapped s.world a.1)) (sized a.1)
                  ∙ m,
            ))
          (All-zip (λ a. of_output a ≢ o) (Measured s) rest own measured) in
      let (_, measure) = placed_at-some (d.mapped s.world o) (space.size s.world o) g e in
      let (packed, others, sizes) = place-Result rest (x +ℤ g.w) s' distinct measured' in
      subst
        (λ q.
          Result s x ((k, o) ∷ rest)
            (place d space (place_one d space s o x q).0 (place_one d space s o x q).1 rest))
        (sym e)
        (
          (
            (others o own).1 ∙ at,
            subst (λ w. Packed (place d space s' (x +ℤ g.w) rest) (x +ℤ w) rest)
                (sym (ap width_of (sizes o ∙ sized o ∙ measure))) packed,
          ),
          (λ p (ne, nes).
              Same-trans d p s s' (place d space s' (x +ℤ g.w) rest) (same p (different o p ne))
                (others p nes)),
          (λ p. sizes p ∙ sized p),
        )
