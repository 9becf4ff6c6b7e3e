-- ===== src/Outputs/Kept.antt =====
-- src/handlers/output_management.rs: an applied configuration leaves a head enabled.
use minde.Base.{
  ℕ, ◌≡◌, ◌≢◌, refl, sym, ap, ◌∙◌, inl, inr, List, [], ◌∷◌, map, Option, none, some, true, false,
  ◌==◌, if-cases, true-ne-false, none-ne-some, some-injective, cons≢nil, ok, All, Any, arith,
}
use minde.Outputs.{HeadChange, ResolvedChange}
use minde.Outputs.Layer.{Desktop, Compositor, Backend}
use minde.Outputs.Apply.{is_some, facts_of, head_facts, resolved_change, apply_output_configuration}
use minde.Outputs.Validate.{find_resolved, enabled_by}
use minde.Outputs.Accepted.{LeavesHead, find_resolved-All}
use minde.Outputs.Commit.{Realized}
use minde.Outputs.Applied.{Reached, apply_output_configuration-Reached}

module _ (d : Desktop) {B : Type 0} (b : Backend d B) where
  Realized-head :
      (t : Compositor d.World B) (rs : List ResolvedChange) (r : ResolvedChange) (o : ℕ)
      → All (λ r. Realized d t (resolved_change d b r)) rs
      → find_resolved rs o ≡ some r
      → r.change.enabled ≡ true
      → is_some (d.mapped t.world o) ≡ true
  unfolding find_resolved
  Realized-head t [] r o all e l = absurd (none-ne-some r e)
  Realized-head t (q ∷ rs) r o (h, all) e l = elim (if-cases (q.change.output == o) _ _ _ e) [
    | inl c ↦
        let named : q.change.output ≡ o = ground arith in
        let same : q ≡ r = some-injective q r c.1 in
        let on : q.change.enabled ≡ true = ap (λ (x : ResolvedChange). x.change.enabled) same ∙ l in
        ap (λ p. is_some (d.mapped t.world p)) (sym named) ∙ (h.1 on).0
    | inr c ↦ Realized-head t rs r o all c.1 l
  ]

  kept_head :
      (s t : Compositor d.World B) (rs : List ResolvedChange) (o : ℕ) (f : Option ResolvedChange)
      → Reached d b s rs (t, [], none)
      → find_resolved rs o ≡ f
      → enabled_by f (is_some (d.mapped s.world o)) ≡ true
      → is_some (d.mapped t.world o) ≡ true
  kept_head s t rs o none (all, same) e l =
      let (_, mapped, _) = same o (find_resolved-All rs o e) in ap is_some mapped ∙ l
  kept_head s t rs o (some r) (all, same) e l = Realized-head t rs r o all e l

  -- The head that the resolved changes leave enabled is enabled once they are made.
  LeavesHead-enabled :
      (s t : Compositor d.World B) (rs : List ResolvedChange) (heads : List ℕ)
      → Reached d b s rs (t, [], none)
      → LeavesHead rs (map (facts_of d b s) heads)
      → Any (λ o. is_some (d.mapped t.world o) ≡ true) heads
  LeavesHead-enabled s t rs [] h l = l
  LeavesHead-enabled s t rs (o ∷ heads) h (inl l) =
      inl (kept_head s t rs o (find_resolved rs o) h refl l)
  LeavesHead-enabled s t rs (o ∷ heads) h (inr l) = inr (LeavesHead-enabled s t rs heads h l)

  heads_known : (s : Compositor d.World B) → s.heads_all ≢ [] → head_facts d b s ≢ []
  heads_known s ne e = ne (unmap s.heads_all e)
    where
      unmap : (l : List ℕ) → map (facts_of d b s) l ≡ [] → l ≡ []
      unmap [] e = refl
      unmap (o ∷ l) e = absurd (cons≢nil e)

  -- An applied configuration leaves one of the known heads enabled, unless there are none or the
  -- test override is set.
  pub apply_output_configuration-enabled :
      (s : Compositor d.World B) (changes : List HeadChange)
      → s.allow_no_heads ≡ false
      → s.heads_all ≢ []
      → (apply_output_configuration d b s changes false).1 ≡ ok tt
      → Any
          (λ o.
            is_some (d.mapped (apply_output_configuration d b s changes false).0.world o) ≡ true)
          s.heads_all
  apply_output_configuration-enabled s changes strict known e =
      let (rs, (_, _, _, left), reached) = apply_output_configuration-Reached d b s changes e in
      elim left [
        | inl allowed ↦ absurd (true-ne-false allowed strict)
        | inr (inl empty) ↦ absurd (heads_known s known empty)
        | inr (inr l) ↦
            LeavesHead-enabled s (apply_output_configuration d b s changes false).0 rs s.heads_all
              reached l
      ]
