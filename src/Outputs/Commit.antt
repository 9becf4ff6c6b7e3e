-- ===== src/Outputs/Commit.antt =====
-- src/handlers/output_management.rs: what `commit_head` makes of an output.
use minde.Base.{
  ℕ, ◌≡◌, refl, ap, ◌∙◌, Option, none, some, Bool, true, false, not, ◌||◌, if-both, if-own,
  if-split, true-ne-false, ℤ,
}
use minde.Outputs.{Mode, WlTransform, F64, wl_to_transform, to_scale, HeadChange, or_else}
use minde.Outputs.Layer.{OutputState, Desktop, Compositor, value_or, updated, Same}
use minde.Outputs.Apply.{
  is_some, map_option, set_mark, insert_mark, mark_position_explicit, with_world, mark_if_placed,
  map_committed, commit_enabled, commit_head, position_is_explicit,
}

or_true : (b : Bool) → (b || true) ≡ true
or_true true = refl
or_true false = refl

module _ (d : Desktop) {B : Type 0} where
  -- An enabled output is mapped, with what the change gives.
  abbrev pub AsAsked : Compositor d.World B → HeadChange → Type 0
  AsAsked s c =
      (is_some (d.mapped s.world c.output) ≡ true)
      × ((m : Mode) → c.mode ≡ some m → (d.state s.world c.output).current_mode ≡ some m)
      × ((l : ℤ × ℤ)
          → c.position ≡ some l
          → ((d.state s.world c.output).location ≡ l)
            × (d.mapped s.world c.output ≡ some l)
            × (position_is_explicit d s c.output ≡ true))
      × ((t : WlTransform)
          → c.transform ≡ some t
          → (d.state s.world c.output).transform ≡ wl_to_transform t)
      × ((f : F64) → c.scale ≡ some f → (d.state s.world c.output).scale ≡ to_scale f)

  abbrev pub Realized : Compositor d.World B → HeadChange → Type 0
  Realized s c =
      (c.enabled ≡ false → d.mapped s.world c.output ≡ none) × (c.enabled ≡ true → AsAsked s c)

  pub Same-Realized :
      (s t : Compositor d.World B) (c : HeadChange)
      → Same d c.output s t
      → Realized s c
      → Realized t c
  unfolding position_is_explicit
  Same-Realized s t c (state, mapped, explicit) (off, on) = (
    (λ e. mapped ∙ off e),
    (λ e.
        let (is_mapped, mode, position, transform, scale) = on e in
        (
          ap is_some mapped ∙ is_mapped,
          (λ m q. ap (λ (x : OutputState). x.current_mode) state ∙ mode m q),
          (λ l q.
              let (here, there, marked) = position l q in
              (
                ap (λ (x : OutputState). x.location) state ∙ here,
                mapped ∙ there,
                ap (value_or false) explicit ∙ marked,
              )),
          (λ f q. ap (λ (x : OutputState). x.transform) state ∙ transform f q),
          (λ f q. ap (λ (x : OutputState). x.scale) state ∙ scale f q),
        )),
  )

  map_committed-state :
      (s : Compositor d.World B) (o p : ℕ) (l : Option (ℤ × ℤ))
      → d.state (map_committed d s o l).world p ≡ d.state s.world p
  map_committed-state s o p l =
      if-both (λ (t : Compositor d.World B). d.state t.world p ≡ d.state s.world p)
        (not (is_some (d.mapped s.world o)) || is_some l)
        (with_world d s (d.map_output s.world o (value_or ((d.state s.world o).location) l))) s
        (d.state-map s.world o p _) refl

  -- The output is mapped, and where the change says.
  map_committed-mapped :
      (s : Compositor d.World B) (o : ℕ) (l : Option (ℤ × ℤ))
      → (is_some (d.mapped (map_committed d s o l).world o) ≡ true)
        × ((x : ℤ × ℤ) → l ≡ some x → d.mapped (map_committed d s o l).world o ≡ some x)
  map_committed-mapped s o (some l) =
      let e : (not (is_some (d.mapped s.world o)) || true) ≡ true = or_true _ in
      let m : d.mapped (d.map_output s.world o l) o ≡ some l =
        d.mapped-map s.world o o l ∙ if-own o (some l) (d.mapped s.world o) in
      rw e (ap is_some m, (λ x q. m ∙ q))
  map_committed-mapped s o none = (mapped_or_not (d.mapped s.world o) refl, λ x q. absurd cc)
    where
      mapped_or_not :
          (m : Option (ℤ × ℤ))
          → d.mapped s.world o ≡ m
          → is_some (d.mapped (map_committed d s o none).world o) ≡ true
      mapped_or_not none e =
          rw e (ap is_some (d.mapped-map s.world o o _ ∙ if-own o _ (d.mapped s.world o)))
      mapped_or_not (some l) e = rw e (ap is_some e)

  mark-state :
      (s : Compositor d.World B) (o : ℕ) (l : Option (ℤ × ℤ))
      → (mark_if_placed d s o l).world ≡ s.world
  unfolding mark_position_explicit
  mark-state s o none = refl
  mark-state s o (some l) = refl

  -- The position of a change that gives one is explicit.
  map_committed-explicit :
      (s : Compositor d.World B) (o p : ℕ) (l : Option (ℤ × ℤ))
      → (map_committed d s o l).explicit p ≡ s.explicit p
  map_committed-explicit s o p l =
      if-both (λ (t : Compositor d.World B). t.explicit p ≡ s.explicit p)
        (not (is_some (d.mapped s.world o)) || is_some l)
        (with_world d s (d.map_output s.world o (value_or ((d.state s.world o).location) l))) s refl
        refl

  mark-explicit :
      (s : Compositor d.World B) (o : ℕ) (l : Option (ℤ × ℤ)) (x : ℤ × ℤ)
      → l ≡ some x
      → position_is_explicit d (mark_if_placed d s o l) o ≡ true
  unfolding mark_position_explicit position_is_explicit
  mark-explicit s o none x e = absurd cc
  mark-explicit s o (some l) x e =
      ap (value_or false) (if-own o (set_mark (insert_mark (s.explicit o)) true) (s.explicit o))
      ∙ set (s.explicit o)
    where
      set : (m : Option Bool) → value_or false (set_mark (insert_mark m) true) ≡ true
      set none = refl
      set (some old) = refl

  -- The state of an output that `commit_head` enables.
  commit_enabled-state :
      (s : Compositor d.World B) (c : HeadChange)
      → d.state (commit_enabled d s c).world c.output
        ≡ updated c.mode
            (map_option wl_to_transform c.transform)
            (map_option to_scale c.scale)
            c.position
            (d.state s.world c.output)
  unfolding commit_enabled
  commit_enabled-state s c =
      map_committed-state _ c.output c.output c.position
      ∙ d.state-change (mark_if_placed d s c.output c.position).world c.output c.output _ _ _ _
      ∙ if-own c.output _ _
      ∙ ap
          (λ w.
            updated c.mode (map_option wl_to_transform c.transform) (map_option to_scale c.scale)
              c.position (d.state w c.output))
          (mark-state s c.output c.position)

  commit_enabled-AsAsked :
      (s : Compositor d.World B) (c : HeadChange) → AsAsked (commit_enabled d s c) c
  unfolding commit_enabled position_is_explicit
  commit_enabled-AsAsked s c =
      let state = commit_enabled-state s c in
      let (is_mapped, placed) = map_committed-mapped _ c.output c.position in
      (
        is_mapped,
        (λ m e. ap (λ (x : OutputState). x.current_mode) state ∙ first c.mode _ m e),
        (λ l e. (
          ap (λ (x : OutputState). x.location) state ∙ value c.position _ l e,
          placed l e,
          ap (value_or false) (map_committed-explicit _ c.output c.output c.position)
              ∙ mark-explicit s c.output c.position l e,
        )),
        (λ t e.
            ap (λ (x : OutputState). x.transform) state
            ∙ value (map_option wl_to_transform c.transform) _ (wl_to_transform t)
                (ap (map_option wl_to_transform) e)),
        (λ f e.
            ap (λ (x : OutputState). x.scale) state
            ∙ value (map_option to_scale c.scale) _ (to_scale f) (ap (map_option to_scale) e)),
      )
    where
      first : (o : Option Mode) (p : Option Mode) (m : Mode) → o ≡ some m → or_else o p ≡ some m
      first o p m e = rw e refl

      value : {A : Type 0} (o : Option A) (a x : A) → o ≡ some x → value_or a o ≡ x
      value o a x e = rw e refl

  pub commit_head-Realized :
      (s : Compositor d.World B) (c : HeadChange) → Realized (commit_head d s c) c
  unfolding commit_head
  commit_head-Realized s c =
      if-split (λ t. Realized t c) c.enabled (commit_enabled d s c)
        (with_world d s (d.unmap_output s.world c.output))
        (λ on. ((λ e. absurd (true-ne-false on e)), (λ e. commit_enabled-AsAsked s c)))
        (λ off. (
          (λ e. d.mapped-unmap s.world c.output c.output ∙ if-own c.output _ _),
          (λ e. absurd (true-ne-false e off)),
        ))
