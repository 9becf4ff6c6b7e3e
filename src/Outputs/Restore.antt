-- ===== src/Outputs/Restore.antt =====
-- src/handlers/output_management.rs: what the revert of a failed `apply_output_configuration` brings
-- back.
use minde.Base.{
  ℕ, ◌≡◌, refl, sym, ap, ◌∙◌, inl, inr, Option, none, some, Bool, true, false, ◌==◌, if◌then◌else◌,
  if-both, ℤ, Bool-cases, arith,
}
use minde.Outputs.{Mode, or_else}
use minde.Outputs.Layer.{OutputState, Desktop, Compositor, value_or, updated, Same}
use minde.Outputs.Apply.{
  is_some, set_mark, HeadBackup, with_world, mark_position_auto, restore_world, restore_head,
  position_is_explicit,
}
use minde.Outputs.Frame.{other-change, other-map, other-unmap}

if-true {ℓ} : {A : Type ℓ} (b : Bool) (x y : A) → b ≡ true → (if b then x else y) ≡ x
if-true b x y e = rw e refl

mapped_at :
    (m : Option (ℤ × ℤ)) (l : ℤ × ℤ)
    → ((x : ℤ × ℤ) → m ≡ some x → l ≡ x)
    → (if is_some m then some l else none) ≡ m
mapped_at none l h = refl
mapped_at (some x) l h = ap some (h x refl)

mode_back : (m : Mode) (old now : Option Mode) → old ≡ some m → or_else old now ≡ some m
mode_back m old now e = rw e refl

module _ (d : Desktop) where
  restore_world-state :
      (w : d.World) (k : HeadBackup)
      → d.state (restore_world d w k) k.output
        ≡ updated k.state.current_mode
            (some k.state.transform)
            (some k.state.scale)
            (some k.state.location)
            (d.state w k.output)
  restore_world-state w k =
      let own : (k.output == k.output) ≡ true = ground arith in
      let w' =
        d.change_current_state w k.output k.state.current_mode (some k.state.transform)
          (some k.state.scale) (some k.state.location) in
      let changed : d.state w' k.output
          ≡ updated k.state.current_mode (some k.state.transform) (some k.state.scale)
              (some k.state.location) (d.state w k.output) =
        d.state-change w k.output k.output _ _ _ _
        ∙ ap
            (λ b.
              if b
              then updated k.state.current_mode (some k.state.transform) (some k.state.scale)
                  (some k.state.location) (d.state w k.output)
              else d.state w k.output)
            own in
      elim (Bool-cases k.enabled) [
        | inl on ↦ rw on (d.state-map w' k.output k.output k.state.location ∙ changed)
        | inr off ↦ rw off (d.state-unmap w' k.output k.output ∙ changed)
      ]

  restore_world-mapped :
      (w : d.World) (k : HeadBackup)
      → d.mapped (restore_world d w k) k.output
        ≡ (if k.enabled then some k.state.location else none)
  restore_world-mapped w k =
      let own : (k.output == k.output) ≡ true = ground arith in
      elim (Bool-cases k.enabled) [
        | inl on ↦ rw on (d.mapped-map _ k.output k.output k.state.location ∙ if-true _ _ _ own)
        | inr off ↦ rw off (d.mapped-unmap _ k.output k.output ∙ if-true _ _ _ own)
      ]

module _ (d : Desktop) {B : Type 0} where
  -- A mapped output is mapped where it says that it is.
  abbrev pub Aligned : Compositor d.World B → ℕ → Type 0
  Aligned s p = (l : ℤ × ℤ) → d.mapped s.world p ≡ some l → (d.state s.world p).location ≡ l

  -- An output is as it was, but that a mode cannot be taken away.
  abbrev pub Restored : ℕ → Compositor d.World B → Compositor d.World B → Type 0
  Restored p s s' =
      ((d.state s'.world p).location ≡ (d.state s.world p).location)
      × ((d.state s'.world p).scale ≡ (d.state s.world p).scale)
      × ((d.state s'.world p).transform ≡ (d.state s.world p).transform)
      × (d.mapped s'.world p ≡ d.mapped s.world p)
      × (position_is_explicit d s' p ≡ position_is_explicit d s p)
      × ((m : Mode)
          → (d.state s.world p).current_mode ≡ some m
          → (d.state s'.world p).current_mode ≡ some m)

  pub Same-Restored :
      (p : ℕ) (s t u : Compositor d.World B) → Restored p s t → Same d p t u → Restored p s u
  unfolding position_is_explicit
  Same-Restored p s t u (l, c, f, m, e, k) (st, mp, ex) = (
    ap (λ (x : OutputState). x.location) st ∙ l,
    ap (λ (x : OutputState). x.scale) st ∙ c,
    ap (λ (x : OutputState). x.transform) st ∙ f,
    mp ∙ m,
    ap (value_or false) ex ∙ e,
    (λ n q. ap (λ (x : OutputState). x.current_mode) st ∙ k n q),
  )

  pub Restored-refl : (p : ℕ) (s : Compositor d.World B) → Restored p s s
  Restored-refl p s = (refl, refl, refl, refl, refl, (λ m e. e))

  -- A backup of the output's state in `s`.
  abbrev pub Recorded : Compositor d.World B → HeadBackup → Type 0
  Recorded s k =
      (k.state ≡ d.state s.world k.output)
      × (k.enabled ≡ is_some (d.mapped s.world k.output))
      × (k.position_explicit ≡ position_is_explicit d s k.output)

  abbrev pub Marked : Compositor d.World B → Compositor d.World B → Type 0
  Marked s s' = (p : ℕ) → position_is_explicit d s p ≡ true → position_is_explicit d s' p ≡ true

  auto-Same :
      (s : Compositor d.World B) (o p : ℕ)
      → (o == p) ≡ false
      → Same d p s (mark_position_auto d s o)
  unfolding mark_position_auto
  auto-Same s o p ne = (refl, refl, rw ne refl)

  auto-mark :
      (s : Compositor d.World B) (o : ℕ)
      → value_or false (if o == o then set_mark (s.explicit o) false else s.explicit o) ≡ false
  auto-mark s o = let own : (o == o) ≡ true = ground arith in rw own (unset (s.explicit o))
    where
      unset : (m : Option Bool) → value_or false (set_mark m false) ≡ false
      unset none = refl
      unset (some old) = refl

  restore_world-Same :
      (s : Compositor d.World B) (k : HeadBackup) (p : ℕ)
      → (k.output == p) ≡ false
      → Same d p s (with_world d s (restore_world d s.world k))
  restore_world-Same s k p ne =
      let w =
        d.change_current_state s.world k.output k.state.current_mode (some k.state.transform)
          (some k.state.scale) (some k.state.location) in
      let changed : d.state w p ≡ d.state s.world p = other-change d _ _ _ _ _ _ _ ne in
      let kept : d.mapped w p ≡ d.mapped s.world p = d.mapped-change _ _ _ _ _ _ _ in
      elim (Bool-cases k.enabled) [
        | inl on ↦ rw on (
          d.state-map w k.output p k.state.location ∙ changed,
          other-map d w k.output p k.state.location ne ∙ kept,
          refl,
        )
        | inr off ↦
            rw off
              (d.state-unmap w k.output p ∙ changed, other-unmap d w k.output p ne ∙ kept, refl)
      ]

  pub restore_head-Same :
      (k : HeadBackup) (s : Compositor d.World B) (p : ℕ)
      → (k.output == p) ≡ false
      → Same d p s (restore_head d k s)
  unfolding restore_head
  restore_head-Same k s p ne =
      let restored = with_world d s (restore_world d s.world k) in
      let r = restore_world-Same s k p ne in
      let a = auto-Same restored k.output p ne in
      if-both (Same d p s) k.position_explicit _ _ r (a.0 ∙ r.0, a.1 ∙ r.1, a.2 ∙ r.2)

  -- A head is brought back from its backup, whatever was done to it in between.
  pub restore_head-Restored :
      (s0 s : Compositor d.World B) (k : HeadBackup)
      → Recorded s0 k
      → Aligned s0 k.output
      → (position_is_explicit d s0 k.output ≡ true → position_is_explicit d s k.output ≡ true)
      → Restored k.output s0 (restore_head d k s)
  unfolding restore_head position_is_explicit
  restore_head-Restored s0 s k (recorded, enabled, explicit) aligned marked =
      let w = restore_world d s.world k in
      let placed : d.state w k.output
          ≡ updated k.state.current_mode (some k.state.transform) (some k.state.scale)
              (some k.state.location) (d.state s.world k.output) =
        restore_world-state d s.world k in
      let at : (x : ℤ × ℤ) → d.mapped s0.world k.output ≡ some x → k.state.location ≡ x =
        λ x e. ap (λ (t : OutputState). t.location) recorded ∙ aligned x e in
      let mapped : d.mapped w k.output ≡ d.mapped s0.world k.output =
        restore_world-mapped d s.world k
        ∙ ap (λ b. if b then some k.state.location else none) enabled
        ∙ mapped_at (d.mapped s0.world k.output) k.state.location at in
      let mode : (m : Mode)
          → (d.state s0.world k.output).current_mode ≡ some m
          → (d.state w k.output).current_mode ≡ some m =
        λ m e.
          ap (λ (t : OutputState). t.current_mode) placed
          ∙ mode_back m k.state.current_mode (d.state s.world k.output).current_mode
              (ap (λ (t : OutputState). t.current_mode) recorded ∙ e) in
      let location : (d.state w k.output).location ≡ (d.state s0.world k.output).location =
        ap (λ (t : OutputState). t.location) placed
        ∙ ap (λ (t : OutputState). t.location) recorded in
      let scale : (d.state w k.output).scale ≡ (d.state s0.world k.output).scale =
        ap (λ (t : OutputState). t.scale) placed ∙ ap (λ (t : OutputState). t.scale) recorded in
      let transform : (d.state w k.output).transform ≡ (d.state s0.world k.output).transform =
        ap (λ (t : OutputState). t.transform) placed
        ∙ ap (λ (t : OutputState). t.transform) recorded in
      elim (Bool-cases k.position_explicit) [
        | inl on ↦
            let was : position_is_explicit d s0 k.output ≡ true = sym explicit ∙ on in
            rw on (location, scale, transform, mapped, marked was ∙ sym was, mode)
        | inr off ↦
            rw off
              (location, scale, transform, mapped, auto-mark s k.output ∙ sym off ∙ explicit, mode)
      ]
