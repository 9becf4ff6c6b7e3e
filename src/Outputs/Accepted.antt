-- ===== src/Outputs/Accepted.antt =====
-- src/handlers/output_management.rs: what `validate` accepts, and what it makes of it.
use minde.Base.{
  ℕ, ◌≡◌, ◌≢◌, refl, sym, subst, ap, ◌∙◌, ◌⊎◌, inl, inr, List, [], ◌∷◌, ◌++◌, map, map-append,
  append-nil, append_assoc, Option, none, some, Bool, true, false, ◌&&◌, ◌==◌, if-cases,
  some-ne-none, ok, and_then-ok, ok_inj, err-ne-ok, All, All-append, Any, Distinct, Distinct-snoc,
  Bool-cases, arith,
}
use minde.Outputs.{HeadChange, HeadFacts, ResolvedChange, Advertised}
use minde.Outputs.Validate.{
  find_facts, find_resolved, check_change, check_new, validate_loop, enabled_by, enabled_after,
  keep_a_head, validate,
}
use minde.Outputs.Sound.{EnableRule, if-ok, resolve_change-Sound}

-- A resolved change of a known head.
abbrev pub Checked : (ℕ → Advertised) → List HeadFacts → ResolvedChange → Type 0
Checked outputs heads r =
    (facts : HeadFacts) × Any (λ h. h ≡ facts) heads
    × (facts.output ≡ r.change.output)
    × (r.was_enabled ≡ facts.enabled)
    × (r.change.enabled ≡ true → EnableRule (outputs r.change.output) facts r)
    × (r.change.enabled ≡ false → r.mode ≡ none)

abbrev pub output_of : ResolvedChange → ℕ
output_of r = r.change.output

abbrev pub change_of : ResolvedChange → HeadChange
change_of r = r.change

-- A head is enabled once the changes are made.
abbrev pub LeavesHead : List ResolvedChange → List HeadFacts → Type 0
LeavesHead resolved heads =
    Any (λ h. enabled_by (find_resolved resolved h.output) h.enabled ≡ true) heads

pub find_facts-Any :
    (heads : List HeadFacts) (output : ℕ) (facts : HeadFacts)
    → find_facts heads output ≡ some facts
    → Any (λ h. h ≡ facts) heads × (facts.output ≡ output)
unfolding find_facts
find_facts-Any [] output facts e = absurd (ground arith)
find_facts-Any (h ∷ heads) output facts e = elim (if-cases (h.output == output) _ _ _ e) [
  | inl c ↦ let same : h ≡ facts = cc in (inl same, rw (sym same) (ground arith))
  | inr c ↦ let (a, o) = find_facts-Any heads output facts c.1 in (inr a, o)
]

pub find_resolved-All :
    (resolved : List ResolvedChange) (output : ℕ)
    → find_resolved resolved output ≡ none
    → All (λ r. output_of r ≢ output) resolved
unfolding find_resolved
find_resolved-All [] output e = tt
find_resolved-All (r ∷ resolved) output e = elim (if-cases (r.change.output == output) _ _ _ e) [
  | inl c ↦ absurd (some-ne-none r c.1)
  | inr c ↦ ((λ same. ground arith), find_resolved-All resolved output c.1)
]

-- A change that passed the loop's checks is sound, of a known head and of no earlier change's.
pub check_change-Checked :
    (outputs : ℕ → Advertised) (heads : List HeadFacts) (resolved : List ResolvedChange)
    (change : HeadChange) (r : ResolvedChange)
    → check_change outputs heads resolved change ≡ ok r
    → (r.change ≡ change) × Checked outputs heads r × All (λ q. output_of q ≢ output_of r) resolved
unfolding check_change
check_change-Checked outputs heads resolved change r e =
    go (find_facts heads change.output) (find_resolved resolved change.output) refl refl e
  where
    go :
        (f : Option HeadFacts) (q : Option ResolvedChange)
        → find_facts heads change.output ≡ f
        → find_resolved resolved change.output ≡ q
        → check_new (outputs change.output) change f q ≡ ok r
        → (r.change ≡ change)
          × Checked outputs heads r
          × All (λ q. output_of q ≢ output_of r) resolved
    go none q ef eq e = absurd (err-ne-ok e)
    go (some facts) (some q) ef eq e = absurd (err-ne-ok e)
    go (some facts) none ef eq e =
        let (same, was, on, off) = resolve_change-Sound (outputs change.output) facts change r e in
        let (known, named) = find_facts-Any heads change.output facts ef in
        let out : change.output ≡ r.change.output = ap (λ (c : HeadChange). c.output) (sym same) in
        (
          same,
          (
            facts,
            known,
            named ∙ out,
            was,
            (λ h. subst (λ o. EnableRule (outputs o) facts r) out (on h)),
            off,
          ),
          subst (λ o. All (λ q. output_of q ≢ o) resolved) out
              (find_resolved-All resolved change.output eq),
        )

-- The loop appends one checked change for each that was asked for.
pub validate_loop-Checked :
    (outputs : ℕ → Advertised) (heads : List HeadFacts) (resolved : List ResolvedChange)
    (changes : List HeadChange) (rs : List ResolvedChange)
    → validate_loop outputs heads resolved changes ≡ ok rs
    → Distinct output_of resolved
    → All (Checked outputs heads) resolved
    → (map change_of rs ≡ map change_of resolved ++ changes)
      × Distinct output_of rs
      × All (Checked outputs heads) rs
unfolding validate_loop
validate_loop-Checked outputs heads resolved [] rs e d a =
    let same : resolved ≡ rs = ok_inj e in
    subst
      (λ q.
        (map change_of q ≡ map change_of resolved ++ [])
        × Distinct output_of q
        × All (Checked outputs heads) q)
      same (sym (append-nil (map change_of resolved)), d, a)
validate_loop-Checked outputs heads resolved (change ∷ changes) rs e d a =
    let (r, checked, rest) =
      and_then-ok (check_change outputs heads resolved change)
        (λ r. validate_loop outputs heads (resolved ++ (r ∷ [])) changes) rs e in
    let (same, sound, fresh) = check_change-Checked outputs heads resolved change r checked in
    let (order, distinct, all) =
      validate_loop-Checked outputs heads (resolved ++ (r ∷ [])) changes rs rest
        (Distinct-snoc output_of resolved r d fresh)
        (All-append (Checked outputs heads) resolved (r ∷ []) a (sound, tt)) in
    (
      order
          ∙ ap (λ l. l ++ changes) (map-append change_of resolved (r ∷ []))
          ∙ append_assoc (map change_of resolved) (r.change ∷ []) changes
          ∙ ap (λ c. map change_of resolved ++ (c ∷ changes)) same,
      distinct,
      all,
    )

enabled_after-LeavesHead :
    (resolved : List ResolvedChange) (heads : List HeadFacts)
    → enabled_after resolved heads ≢ 0
    → LeavesHead resolved heads
unfolding enabled_after
enabled_after-LeavesHead resolved [] h = h refl
enabled_after-LeavesHead resolved (f ∷ heads) h =
    elim (Bool-cases (enabled_by (find_resolved resolved f.output) f.enabled)) [
      | inl on ↦ inl on
      | inr off ↦ inr (enabled_after-LeavesHead resolved heads (λ z. h (rw off z)))
    ]

keep_a_head-LeavesHead :
    (heads : List HeadFacts) (allow_no_heads : Bool) (resolved rs : List ResolvedChange)
    → keep_a_head heads allow_no_heads resolved ≡ ok rs
    → (resolved ≡ rs) × ((allow_no_heads ≡ true) ⊎ ((heads ≡ []) ⊎ LeavesHead resolved heads))
keep_a_head-LeavesHead [] allow_no_heads resolved rs e =
    let (_, same) = if-ok _ _ _ rs e in (ok_inj same, inr (inl refl))
keep_a_head-LeavesHead (h ∷ heads) true resolved rs e =
    let (_, same) = if-ok _ _ _ rs e in (ok_inj same, inl refl)
keep_a_head-LeavesHead (h ∷ heads) false resolved rs e =
    let (some_left, same) = if-ok _ _ _ rs e in
    (
      ok_inj same,
      inr (inr (enabled_after-LeavesHead resolved (h ∷ heads) (λ z. none_left z some_left))),
    )
  where
    none_left : {n : ℕ} → n ≡ 0 → ((n == 0) && true) ≡ false → ⊥
    none_left z e = absurd (ground arith)

-- An accepted configuration has the changes that were asked for in their order, each of a different
-- known head whose mode is resolved by the rules, and unless it is allowed or no head is known it
-- leaves an enabled head.
pub validate-Accepted :
    (outputs : ℕ → Advertised) (heads : List HeadFacts) (changes : List HeadChange)
    (allow_no_heads : Bool) (rs : List ResolvedChange)
    → validate outputs heads changes allow_no_heads ≡ ok rs
    → (map change_of rs ≡ changes)
      × Distinct output_of rs
      × All (Checked outputs heads) rs
      × ((allow_no_heads ≡ true) ⊎ ((heads ≡ []) ⊎ LeavesHead rs heads))
unfolding validate
validate-Accepted outputs heads changes allow_no_heads rs e =
    let (resolved, looped, kept) =
      and_then-ok (validate_loop outputs heads [] changes) (keep_a_head heads allow_no_heads) rs
        e in
    let (same, left) = keep_a_head-LeavesHead heads allow_no_heads resolved rs kept in
    let (order, distinct, all) =
      validate_loop-Checked outputs heads [] changes resolved looped tt tt in
    subst
      (λ q.
        (map change_of q ≡ changes)
        × Distinct output_of q
        × All (Checked outputs heads) q
        × ((allow_no_heads ≡ true) ⊎ ((heads ≡ []) ⊎ LeavesHead q heads)))
      same (order, distinct, all, left)
