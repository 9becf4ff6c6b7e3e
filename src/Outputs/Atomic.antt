-- ===== src/Outputs/Atomic.antt =====
-- src/handlers/output_management.rs: a failed `apply_output_configuration` is undone.
use minde.Base.{
  ℕ, ◌≡◌, ◌≢◌, refl, sym, subst, ap, ◌∙◌, ◌⊎◌, inl, inr, List, [], ◌∷◌, map, Option, none, some,
  Bool, true, false, ◌==◌, Result, ok, err, err-ne-ok, All, All-map, Any, Distinct,
}
use minde.Outputs.{HeadChange, HeadFacts, ResolvedChange, OutputConfigError}
use minde.Outputs.Layer.{Desktop, Compositor, Backend, value_or, Same}
use minde.Outputs.Apply.{
  is_some, HeadBackup, commit_head, position_is_explicit, facts_of, head_facts, advertised_of,
  backup_of, resolved_change, after_realize, apply_loop, set_applying, finish_apply, apply_resolved,
  apply_output_configuration,
}
use minde.Outputs.Accepted.{Checked, validate-Accepted}
use minde.Outputs.Frame.{Same-trans, commit_head-Same}
use minde.Outputs.Restore.{Aligned, Restored, Same-Restored, Restored-refl, Marked}
use minde.Outputs.Revert.{equal_cases, commit_head-explicit, Backed, revert-Restored}

module _ (d : Desktop) {B : Type 0} (b : Backend d B) where
  -- Every head that differs from `s0` has a backup.
  abbrev Undoable :
      Compositor d.World B → Compositor d.World B × List HeadBackup × Option ℕ → Type 0
  Undoable s0 (s, ks, failure) =
      All (Backed d b s0) ks
      × Marked d s0 s
      × ((p : ℕ) → Any (λ (k : HeadBackup). k.output ≡ p) ks ⊎ Same d p s0 s)

  -- The changes that are left are of heads without a backup, enabled as they are in `s0`.
  abbrev Pending : Compositor d.World B → List HeadBackup → ResolvedChange → Type 0
  Pending s0 ks r =
      All (λ (k : HeadBackup). k.output ≢ r.change.output) ks
      × (r.was_enabled ≡ is_some (d.mapped s0.world r.change.output))

  no_backup :
      (ks : List HeadBackup) (p : ℕ)
      → All (λ (k : HeadBackup). k.output ≢ p) ks
      → Any (λ (k : HeadBackup). k.output ≡ p) ks
      → ⊥
  no_backup [] p h a = a
  no_backup (k ∷ ks) p h (inl e) = h.0 e
  no_backup (k ∷ ks) p h (inr a) = no_backup ks p h.1 a

  -- The backup of the next head is of its state in `s0`.
  backup_of-Backed :
      (s0 s : Compositor d.World B) (ks : List HeadBackup) (r : ResolvedChange)
      → Pending s0 ks r
      → Aligned d s0 r.change.output
      → Any (λ (k : HeadBackup). k.output ≡ r.change.output) ks ⊎ Same d r.change.output s0 s
      → Backed d b s0 (backup_of d b s r)
  unfolding position_is_explicit
  backup_of-Backed s0 s ks r (fresh, was) aligned (inl a) =
      absurd (no_backup ks r.change.output fresh a)
  backup_of-Backed s0 s ks r (fresh, was) aligned (inr (state, mapped, explicit)) =
      ((state, was, ap (value_or false) explicit), aligned)

  realized-Marked :
      (s0 s t : Compositor d.World B) → t.explicit ≡ s.explicit → Marked d s0 s → Marked d s0 t
  unfolding position_is_explicit
  realized-Marked s0 s t e marked p h =
      subst (λ (x : ℕ → Option Bool). value_or false (x p) ≡ true) (sym e) (marked p h)

  -- A step that changes only the head of the newest backup.
  wider :
      (s0 s t : Compositor d.World B) (k : HeadBackup) (ks : List HeadBackup)
      → ((p : ℕ) → (k.output == p) ≡ false → Same d p s t)
      → ((p : ℕ) → Any (λ (k : HeadBackup). k.output ≡ p) ks ⊎ Same d p s0 s)
      → (p : ℕ) → Any (λ (k : HeadBackup). k.output ≡ p) (k ∷ ks) ⊎ Same d p s0 t
  wider s0 s t k ks step same p = elim (equal_cases k.output p) [
    | inl e ↦ inl (inl e)
    | inr ne ↦ elim (same p) [
      | inl a ↦ inl (inr a)
      | inr h ↦ inr (Same-trans d p s0 s t h (step p ne))
    ]
  ]

  after_realize-Undoable :
      (s0 : Compositor d.World B)
      (next : Compositor d.World B → Compositor d.World B × List HeadBackup × Option ℕ)
      (c : HeadChange) (ks : List HeadBackup) (x : Compositor d.World B × Option ℕ)
      → Undoable s0 (x.0, ks, none)
      → Undoable s0 (next (commit_head d x.0 c))
      → Undoable s0 (after_realize d b next c ks x)
  after_realize-Undoable s0 next c ks (s, some msg) failed going = failed
  after_realize-Undoable s0 next c ks (s, none) failed going = going

  Pending-cons :
      (s0 : Compositor d.World B) (k : HeadBackup) (ks : List HeadBackup) (rs : List ResolvedChange)
      → All (λ (r : ResolvedChange). r.change.output ≢ k.output) rs
      → All (Pending s0 ks) rs
      → All (Pending s0 (k ∷ ks)) rs
  Pending-cons s0 k ks [] ne h = tt
  Pending-cons s0 k ks (r ∷ rs) ne ((fresh, was), h) =
      ((((λ e. ne.0 (sym e)), fresh), was), Pending-cons s0 k ks rs ne.1 h)

  apply_loop-Undoable :
      (s0 s : Compositor d.World B) (rs : List ResolvedChange) (ks : List HeadBackup)
      → ((p : ℕ) → Aligned d s0 p)
      → Distinct (λ (r : ResolvedChange). r.change.output) rs
      → All (Pending s0 ks) rs
      → Undoable s0 (s, ks, none)
      → Undoable s0 (apply_loop d b rs ks s)
  unfolding apply_loop
  apply_loop-Undoable s0 s [] ks aligned distinct pending u = u
  apply_loop-Undoable s0 s (r ∷ rs) ks aligned distinct pending (back, marked, same) =
      let o = r.change.output in
      let k = backup_of d b s r in
      let c = resolved_change d b r in
      let s1 = (b.realize_head s o c).0 in
      let s2 = commit_head d s1 c in
      let backed : Backed d b s0 k = backup_of-Backed s0 s ks r pending.0 (aligned o) (same o) in
      let marked1 = realized-Marked s0 s s1 (b.realize-explicit s o c) marked in
      let marked2 : Marked d s0 s2 = λ p h. commit_head-explicit d s1 c p (marked1 p h) in
      let step1 : (p : ℕ) → (o == p) ≡ false → Same d p s s1 = λ p. b.realize-Same s o p c in
      let step2 : (p : ℕ) → (o == p) ≡ false → Same d p s s2 =
        λ p ne. Same-trans d p s s1 s2 (step1 p ne) (commit_head-Same d s1 c p ne) in
      after_realize-Undoable s0 (apply_loop d b rs (k ∷ ks)) c (k ∷ ks) (b.realize_head s o c)
        ((backed, back), marked1, wider s0 s s1 k ks step1 same)
        (apply_loop-Undoable s0 s2 rs (k ∷ ks) aligned distinct.1
          (Pending-cons s0 k ks rs distinct.0 pending.1)
          ((backed, back), marked2, wider s0 s s2 k ks step2 same))

  facts_of-enabled :
      (s : Compositor d.World B) (heads : List ℕ) (f : HeadFacts)
      → Any (λ h. h ≡ f) (map (facts_of d b s) heads)
      → f.enabled ≡ is_some (d.mapped s.world f.output)
  facts_of-enabled s [] f a = elim a [ ]
  facts_of-enabled s (o ∷ heads) f (inl e) =
      ap (λ (h : HeadFacts). h.enabled) (sym e)
      ∙ ap (λ p. is_some (d.mapped s.world p)) (ap (λ (h : HeadFacts). h.output) e)
  facts_of-enabled s (o ∷ heads) f (inr a) = facts_of-enabled s heads f a

  Checked-Pending :
      (s : Compositor d.World B) (r : ResolvedChange)
      → Checked (advertised_of d s.world) (head_facts d b s) r
      → Pending s [] r
  Checked-Pending s r (f, known, named, was, _, _) = (
    tt,
    was ∙ facts_of-enabled s s.heads_all f known ∙ ap (λ p. is_some (d.mapped s.world p)) named,
  )

  finish_apply-Restored :
      (s0 : Compositor d.World B) (x : Compositor d.World B × List HeadBackup × Option ℕ)
      (e : OutputConfigError)
      → Undoable s0 x
      → (finish_apply d b x).1 ≡ err e
      → (p : ℕ) → Restored d p s0 (finish_apply d b x).0
  unfolding position_is_explicit
  finish_apply-Restored s0 (s, ks, none) e u h p = absurd (err-ne-ok (sym h))
  finish_apply-Restored s0 (s, ks, some msg) e (back, marked, same) h p =
      revert-Restored d b s0 s ks p back marked (elim (same p) [
        | inl a ↦ inl a
        | inr k ↦ inr (Same-Restored d p s0 s0 s (Restored-refl d p s0) k)
      ])

  apply_resolved-Restored :
      (s : Compositor d.World B) (test_only : Bool)
      (v : Result (List ResolvedChange) OutputConfigError) (e : OutputConfigError)
      → ((p : ℕ) → Aligned d s p)
      → ((rs : List ResolvedChange)
          → v ≡ ok rs
          → Distinct (λ (r : ResolvedChange). r.change.output) rs × All (Pending s []) rs)
      → (apply_resolved d b s test_only v).1 ≡ err e
      → (p : ℕ) → Restored d p s (apply_resolved d b s test_only v).0
  unfolding position_is_explicit
  apply_resolved-Restored s test_only (err x) e aligned valid h p = Restored-refl d p s
  apply_resolved-Restored s true (ok rs) e aligned valid h p = Restored-refl d p s
  apply_resolved-Restored s false (ok rs) e aligned valid h p =
      let (distinct, pending) = valid rs refl in
      finish_apply-Restored s (apply_loop d b rs [] (set_applying d b true s)) e
        (apply_loop-Undoable s (set_applying d b true s) rs [] aligned distinct pending
          (tt, (λ q m. m), (λ q. inr (refl, refl, refl))))
        h p

  -- A configuration that is refused, by validation or by the backend at any head, leaves every
  -- output where and as it was: its location, scale, transform, mapping, mode (unless it had none)
  -- and whether its position is explicit, if every mapped output is mapped at its location.
  pub apply_output_configuration-Restored :
      (s : Compositor d.World B) (changes : List HeadChange) (test_only : Bool)
      (e : OutputConfigError)
      → ((p : ℕ) → Aligned d s p)
      → (apply_output_configuration d b s changes test_only).1 ≡ err e
      → (p : ℕ) → Restored d p s (apply_output_configuration d b s changes test_only).0
  unfolding apply_output_configuration
  apply_output_configuration-Restored s changes test_only e aligned h p =
      apply_resolved-Restored s test_only _ e aligned
        (λ rs v.
          let (_, distinct, checked, _) =
            validate-Accepted (advertised_of d s.world) (head_facts d b s) changes s.allow_no_heads
              rs v in
          (
            distinct,
            All-map (Checked (advertised_of d s.world) (head_facts d b s)) (Pending s []) rs
                (Checked-Pending s) checked,
          ))
        h p
