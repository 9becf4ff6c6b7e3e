-- ===== src/Outputs/Revert.antt =====
-- src/handlers/output_management.rs: the revert of a failed `apply_output_configuration`.
use minde.Base.{
  ℕ, ◌≡◌, refl, sym, subst, ap, ◌∙◌, ◌⊎◌, inl, inr, List, [], ◌∷◌, Option, none, some, Bool, true,
  false, not, ◌||◌, ◌==◌, if-both, true-ne-false, ℤ, All, Any, Bool-cases, arith,
}
use minde.Outputs.{HeadChange}
use minde.Outputs.Layer.{Desktop, Compositor, Backend, value_or, Same}
use minde.Outputs.Apply.{
  is_some, set_mark, insert_mark, HeadBackup, mark_position_explicit, mark_position_auto,
  mark_if_placed, map_committed, with_world, commit_enabled, commit_head, restore_head,
  position_is_explicit, revert_change, revert,
}
use minde.Outputs.Frame.{Same-trans}
use minde.Outputs.Restore.{
  Aligned, Restored, Same-Restored, Recorded, Marked, restore_head-Same, restore_head-Restored,
}

pub equal_cases : (a b : ℕ) → ((a ≡ b) ⊎ ((a == b) ≡ false))
equal_cases a b = ground arith

module _ (d : Desktop) {B : Type 0} where
  mark-explicit :
      (s : Compositor d.World B) (o p : ℕ) (l : Option (ℤ × ℤ))
      → position_is_explicit d s p ≡ true
      → position_is_explicit d (mark_if_placed d s o l) p ≡ true
  unfolding mark_position_explicit position_is_explicit
  mark-explicit s o p none e = e
  mark-explicit s o p (some l) e =
      if-both (λ m. value_or false m ≡ true) (o == p) _ _ (set (s.explicit p)) e
    where
      set : (m : Option Bool) → value_or false (set_mark (insert_mark m) true) ≡ true
      set none = refl
      set (some old) = refl

  map_committed-explicit :
      (s : Compositor d.World B) (o p : ℕ) (l : Option (ℤ × ℤ))
      → position_is_explicit d s p ≡ true
      → position_is_explicit d (map_committed d s o l) p ≡ true
  unfolding position_is_explicit
  map_committed-explicit s o p l e =
      if-both (λ (t : Compositor d.World B). value_or false (t.explicit p) ≡ true)
        (not (is_some (d.mapped s.world o)) || is_some l)
        (with_world d s (d.map_output s.world o (value_or ((d.state s.world o).location) l))) s e e

  commit_enabled-explicit :
      (s : Compositor d.World B) (c : HeadChange) (p : ℕ)
      → position_is_explicit d s p ≡ true
      → position_is_explicit d (commit_enabled d s c) p ≡ true
  unfolding commit_enabled position_is_explicit
  commit_enabled-explicit s c p e =
      map_committed-explicit _ c.output p c.position (mark-explicit s c.output p c.position e)

  -- An explicit position stays explicit.
  pub commit_head-explicit :
      (s : Compositor d.World B) (c : HeadChange) (p : ℕ)
      → position_is_explicit d s p ≡ true
      → position_is_explicit d (commit_head d s c) p ≡ true
  unfolding commit_head position_is_explicit
  commit_head-explicit s c p e =
      if-both (λ (t : Compositor d.World B). value_or false (t.explicit p) ≡ true) c.enabled
        (commit_enabled d s c) (with_world d s (d.unmap_output s.world c.output))
        (commit_enabled-explicit s c p e) e

  restore_head-Marked :
      (s0 s : Compositor d.World B) (k : HeadBackup)
      → Recorded d s0 k
      → Marked d s0 s
      → Marked d s0 (restore_head d k s)
  unfolding restore_head mark_position_auto position_is_explicit
  restore_head-Marked s0 s k (_, _, recorded) marked p e = elim (Bool-cases k.position_explicit) [
    | inl on ↦ rw on (marked p e)
    | inr off ↦ rw off (elim (equal_cases k.output p) [
      | inl same ↦
          let was : position_is_explicit d s0 p ≡ false =
            ap (position_is_explicit d s0) (sym same) ∙ sym recorded ∙ off in
          absurd (true-ne-false e was)
      | inr ne ↦ rw ne (marked p e)
    ])
  ]

module _ (d : Desktop) {B : Type 0} (b : Backend d B) where
  -- A backup of a head as it was in `s0`, mapped where it said.
  abbrev pub Backed : Compositor d.World B → HeadBackup → Type 0
  Backed s0 k = Recorded d s0 k × Aligned d s0 k.output

  pub revert-Restored :
      (s0 s : Compositor d.World B) (ks : List HeadBackup) (p : ℕ)
      → All (Backed s0) ks
      → Marked d s0 s
      → Any (λ (k : HeadBackup). k.output ≡ p) ks ⊎ Restored d p s0 s
      → Restored d p s0 (revert d b ks s)
  unfolding revert position_is_explicit
  revert-Restored s0 s [] p back marked (inl none_left) = elim none_left [ ]
  revert-Restored s0 s [] p back marked (inr r) = r
  revert-Restored s0 s (k ∷ ks) p back marked h =
      let ((recorded, aligned), rest) = back in
      let s1 = (b.realize_head s k.output (revert_change d b k)).0 in
      let marked1 : Marked d s0 s1 = λ q e.
        subst (λ (x : ℕ → Option Bool). value_or false (x q) ≡ true)
          (sym (b.realize-explicit s k.output (revert_change d b k))) (marked q e) in
      let marked2 = restore_head-Marked d s0 s1 k recorded marked1 in
      let own = restore_head-Restored d s0 s1 k recorded aligned (marked1 k.output) in
      revert-Restored s0 (restore_head d k s1) ks p rest marked2 (elim (equal_cases k.output p) [
        | inl same ↦ inr (subst (λ q. Restored d q s0 (restore_head d k s1)) same own)
        | inr ne ↦
            let frame =
              Same-trans d p s s1 (restore_head d k s1)
                (b.realize-Same s k.output p (revert_change d b k) ne)
                (restore_head-Same d k s1 p ne) in
            still s (restore_head d k s1) k ks p ne frame h
      ])
    where
      still :
          (s t : Compositor d.World B) (k : HeadBackup) (ks : List HeadBackup) (p : ℕ)
          → (k.output == p) ≡ false
          → Same d p s t
          → Any (λ (k : HeadBackup). k.output ≡ p) (k ∷ ks) ⊎ Restored d p s0 s
          → Any (λ (k : HeadBackup). k.output ≡ p) ks ⊎ Restored d p s0 t
      still s t k ks p ne frame (inl (inl same)) = absurd (ground arith)
      still s t k ks p ne frame (inl (inr a)) = inl a
      still s t k ks p ne frame (inr r) = inr (Same-Restored d p s0 s t r frame)
