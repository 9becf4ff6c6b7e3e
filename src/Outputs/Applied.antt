-- ===== src/Outputs/Applied.antt =====
-- src/handlers/output_management.rs: what a successful `apply_output_configuration` makes of the
-- outputs.
use minde.Base.{
  ℕ, ◌≡◌, ◌≢◌, refl, ◌⊎◌, List, [], ◌∷◌, map, Option, none, some, true, false, ◌==◌, Result, ok,
  err, err-ne-ok, All, Distinct, arith,
}
use minde.Outputs.{HeadChange, ResolvedChange, OutputConfigError}
use minde.Outputs.Layer.{Desktop, Compositor, Backend, Same}
use minde.Outputs.Apply.{
  HeadBackup, commit_head, position_is_explicit, head_facts, advertised_of, backup_of,
  resolved_change, after_realize, apply_loop, set_applying, finish_apply, apply_resolved,
  apply_output_configuration,
}
use minde.Outputs.Accepted.{Checked, output_of, change_of, LeavesHead, validate-Accepted}
use minde.Outputs.Frame.{Same-refl, Same-trans, commit_head-Same}
use minde.Outputs.Commit.{Realized, Same-Realized, commit_head-Realized}

module _ (d : Desktop) {B : Type 0} (b : Backend d B) where
  -- After the loop each change is realized and the other outputs are as they were.
  abbrev pub Reached :
      Compositor d.World B
      → List ResolvedChange
      → Compositor d.World B × List HeadBackup × Option ℕ
      → Type 0
  Reached s rs (t, ks, some msg) = Unit
  Reached s rs (t, ks, none) =
      All (λ r. Realized d t (resolved_change d b r)) rs
      × ((p : ℕ) → All (λ (r : ResolvedChange). r.change.output ≢ p) rs → Same d p s t)

  different : (a p : ℕ) → a ≢ p → (a == p) ≡ false
  different a p ne = ground arith

  Reached-cons :
      (s s1 s2 : Compositor d.World B) (r : ResolvedChange) (rs : List ResolvedChange)
      (x : Compositor d.World B × List HeadBackup × Option ℕ)
      → Realized d s2 (resolved_change d b r)
      → ((p : ℕ) → r.change.output ≢ p → Same d p s s2)
      → All (λ (q : ResolvedChange). q.change.output ≢ r.change.output) rs
      → Reached s2 rs x
      → Reached s (r ∷ rs) x
  Reached-cons s s1 s2 r rs (t, ks, some msg) h frame fresh k = tt
  Reached-cons s s1 s2 r rs (t, ks, none) h frame fresh (all, same) = (
    (Same-Realized d s2 t (resolved_change d b r) (same r.change.output fresh) h, all),
    (λ p ne. Same-trans d p s s2 t (frame p ne.0) (same p ne.1)),
  )

  after_realize-Reached :
      (s : Compositor d.World B) (rs : List ResolvedChange)
      (next : Compositor d.World B → Compositor d.World B × List HeadBackup × Option ℕ)
      (c : HeadChange) (ks : List HeadBackup) (x : Compositor d.World B × Option ℕ)
      → Reached s rs (next (commit_head d x.0 c))
      → Reached s rs (after_realize d b next c ks x)
  after_realize-Reached s rs next c ks (t, some msg) h = tt
  after_realize-Reached s rs next c ks (t, none) h = h

  apply_loop-Reached :
      (s : Compositor d.World B) (rs : List ResolvedChange) (ks : List HeadBackup)
      → Distinct (λ (r : ResolvedChange). r.change.output) rs
      → Reached s rs (apply_loop d b rs ks s)
  unfolding apply_loop
  apply_loop-Reached s [] ks distinct = (tt, (λ p _. Same-refl d p s))
  apply_loop-Reached s (r ∷ rs) ks distinct =
      let o = r.change.output in
      let c = resolved_change d b r in
      let k = backup_of d b s r in
      let s1 = (b.realize_head s o c).0 in
      let s2 = commit_head d s1 c in
      after_realize-Reached s (r ∷ rs) (apply_loop d b rs (k ∷ ks)) c (k ∷ ks)
        (b.realize_head s o c)
        (Reached-cons s s1 s2 r rs (apply_loop d b rs (k ∷ ks) s2) (commit_head-Realized d s1 c)
          (λ p ne.
            Same-trans d p s s1 s2 (b.realize-Same s o p c (different o p ne))
              (commit_head-Same d s1 c p (different o p ne)))
          distinct.0 (apply_loop-Reached s2 rs (k ∷ ks) distinct.1))

  -- What validation made of the changes, and the state that they are made in.
  abbrev pub Accepted : Compositor d.World B → List HeadChange → List ResolvedChange → Type 0
  Accepted s changes rs =
      (map change_of rs ≡ changes)
      × Distinct output_of rs
      × All (Checked (advertised_of d s.world) (head_facts d b s)) rs
      × ((s.allow_no_heads ≡ true) ⊎ ((head_facts d b s ≡ []) ⊎ LeavesHead rs (head_facts d b s)))

  finish_apply-Reached :
      (s : Compositor d.World B) (rs : List ResolvedChange)
      (x : Compositor d.World B × List HeadBackup × Option ℕ)
      → Reached s rs x
      → (finish_apply d b x).1 ≡ ok tt
      → Reached s rs ((finish_apply d b x).0, [], none)
  unfolding position_is_explicit
  finish_apply-Reached s rs (t, ks, none) h e = h
  finish_apply-Reached s rs (t, ks, some msg) h e = absurd (err-ne-ok e)

  apply_resolved-Reached :
      (s : Compositor d.World B) (changes : List HeadChange)
      (v : Result (List ResolvedChange) OutputConfigError)
      → ((rs : List ResolvedChange) → v ≡ ok rs → Accepted s changes rs)
      → (apply_resolved d b s false v).1 ≡ ok tt
      → (rs : List ResolvedChange) × Accepted s changes rs
        × Reached s rs ((apply_resolved d b s false v).0, [], none)
  unfolding position_is_explicit
  apply_resolved-Reached s changes (err x) valid e = absurd (err-ne-ok e)
  apply_resolved-Reached s changes (ok rs) valid e =
      let a = valid rs refl in
      (
        rs,
        a,
        finish_apply-Reached s rs (apply_loop d b rs [] (set_applying d b true s))
            (apply_loop-Reached (set_applying d b true s) rs [] a.1) e,
      )

  pub apply_output_configuration-Reached :
      (s : Compositor d.World B) (changes : List HeadChange)
      → (apply_output_configuration d b s changes false).1 ≡ ok tt
      → (rs : List ResolvedChange) × Accepted s changes rs
        × Reached s rs ((apply_output_configuration d b s changes false).0, [], none)
  unfolding apply_output_configuration
  apply_output_configuration-Reached s changes e =
      apply_resolved-Reached s changes _
        (λ rs v.
          validate-Accepted (advertised_of d s.world) (head_facts d b s) changes s.allow_no_heads rs
            v)
        e

  -- If a configuration is applied, the changes that were asked for are resolved in their order, each of
  -- a different known head. The resolved mode of a head to be enabled is the requested one, which is
  -- advertised; or an advertised one that is near the requested custom mode, which is taken itself if
  -- none is near; or without a request the preferred or else the current one if the head was disabled,
  -- and none if it was enabled. Each head is then as its resolved change asks, disabled or enabled with
  -- the mode, position, scale and transform that it gives, and every other output is as it was.
  pub apply_output_configuration-Realized :
      (s : Compositor d.World B) (changes : List HeadChange)
      → (apply_output_configuration d b s changes false).1 ≡ ok tt
      → (rs : List ResolvedChange) × (map change_of rs ≡ changes)
        × Distinct output_of rs
        × All (Checked (advertised_of d s.world) (head_facts d b s)) rs
        × All
            (λ r.
              Realized d (apply_output_configuration d b s changes false).0 (resolved_change d b r))
            rs
        × ((p : ℕ)
            → All (λ (r : ResolvedChange). r.change.output ≢ p) rs
            → Same d p s (apply_output_configuration d b s changes false).0)
  apply_output_configuration-Realized s changes e =
      let (rs, (order, distinct, checked, _), (realized, same)) =
        apply_output_configuration-Reached s changes e in
      (rs, order, distinct, checked, realized, same)
