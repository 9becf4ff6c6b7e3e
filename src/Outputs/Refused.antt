-- ===== src/Outputs/Refused.antt =====
-- src/handlers/output_management.rs: why `validate` refuses a configuration.
use minde.Base.{
  ℕ, ◌≡◌, ◌≢◌, refl, sym, subst, ap, ◌∙◌, ◌⊎◌, inl, inr, List, [], ◌∷◌, ◌++◌, map, map-append,
  append_assoc, Option, none, some, Bool, true, false, not, ◌&&◌, ◌==◌, if-cases, true-ne-false,
  some-ne-none, cons≢nil, ok, err, and_then-err, err_inj, All, Any, Distinct, arith,
}
use minde.Outputs.{
  HeadChange, HeadFacts, ResolvedChange, Advertised, OutputConfigError, unknown_head,
  configured_twice, no_enabled_head,
}
use minde.Outputs.Validate.{
  find_facts, find_resolved, check_change, check_new, validate_loop, enabled_by, enabled_after,
  is_empty, keep_a_head, validate,
}
use minde.Outputs.Accepted.{change_of, find_facts-Any, check_change-Checked, validate_loop-Checked}
use minde.Outputs.Faults.{Fault, if-err, ok-ne-err, resolve_change-Fault}

-- What is wrong with a change by itself: its head is unknown, or it enables one with a fault.
abbrev pub Wrong : (ℕ → Advertised) → List HeadFacts → HeadChange → OutputConfigError → Type 0
Wrong outputs heads c e =
    ((e ≡ unknown_head) × All (λ (h : HeadFacts). h.output ≢ c.output) heads)
    ⊎ ((c.enabled ≡ true)
        × (facts : HeadFacts) × Any (λ h. h ≡ facts) heads
        × (facts.output ≡ c.output)
        × Fault (outputs c.output) facts c e)

abbrev pub change_output : HeadChange → ℕ
change_output c = c.output

-- What is wrong with a configuration that is refused with an error.
abbrev pub Explains :
    (ℕ → Advertised) → List HeadFacts → List HeadChange → Bool → OutputConfigError → Type 0
Explains outputs heads changes allow e =
    ((e ≡ configured_twice) × (Distinct change_output changes → ⊥))
    ⊎ (Any (λ c. Wrong outputs heads c e) changes
        ⊎ ((e ≡ no_enabled_head)
            × (allow ≡ false)
            × (heads ≢ [])
            × (rs : List ResolvedChange) × (map change_of rs ≡ changes)
            × All (λ h. enabled_by (find_resolved rs h.output) h.enabled ≡ false) heads))

find_facts-All :
    (heads : List HeadFacts) (output : ℕ)
    → find_facts heads output ≡ none
    → All (λ (h : HeadFacts). h.output ≢ output) heads
unfolding find_facts
find_facts-All [] output e = tt
find_facts-All (h ∷ heads) output e = elim (if-cases (h.output == output) _ _ _ e) [
  | inl c ↦ absurd (some-ne-none h c.1)
  | inr c ↦ ((λ same. ground arith), find_facts-All heads output c.1)
]

find_resolved-Any :
    (resolved : List ResolvedChange) (output : ℕ) (q : ResolvedChange)
    → find_resolved resolved output ≡ some q
    → Any (λ (r : ResolvedChange). r.change.output ≡ output) resolved
unfolding find_resolved
find_resolved-Any [] output q e = absurd (ground arith)
find_resolved-Any (r ∷ resolved) output q e = elim (if-cases (r.change.output == output) _ _ _ e) [
  | inl c ↦ inl (ground arith)
  | inr c ↦ inr (find_resolved-Any resolved output q c.1)
]

All-middle :
    (o : ℕ) (c : HeadChange) (cs : List HeadChange) (resolved : List ResolvedChange)
    → c.output ≡ o
    → All (λ (d : HeadChange). d.output ≢ o) (map change_of resolved ++ (c ∷ cs))
    → ⊥
All-middle o c cs [] same h = h.0 same
All-middle o c cs (r ∷ resolved) same h = All-middle o c cs resolved same h.1

repeated :
    (c : HeadChange) (cs : List HeadChange) (resolved : List ResolvedChange)
    → Any (λ (r : ResolvedChange). r.change.output ≡ c.output) resolved
    → Distinct change_output (map change_of resolved ++ (c ∷ cs))
    → ⊥
repeated c cs [] a d = elim a [ ]
repeated c cs (r ∷ resolved) (inl same) d = All-middle r.change.output c cs resolved (sym same) d.0
repeated c cs (r ∷ resolved) (inr a) d = repeated c cs resolved a d.1

check_change-Wrong :
    (outputs : ℕ → Advertised) (heads : List HeadFacts) (resolved : List ResolvedChange)
    (change : HeadChange) (e : OutputConfigError)
    → check_change outputs heads resolved change ≡ err e
    → ((e ≡ configured_twice)
        × Any (λ (r : ResolvedChange). r.change.output ≡ change.output) resolved)
      ⊎ Wrong outputs heads change e
unfolding check_change
check_change-Wrong outputs heads resolved change e h =
    go (find_facts heads change.output) (find_resolved resolved change.output) refl refl h
  where
    go :
        (f : Option HeadFacts) (q : Option ResolvedChange)
        → find_facts heads change.output ≡ f
        → find_resolved resolved change.output ≡ q
        → check_new (outputs change.output) change f q ≡ err e
        → ((e ≡ configured_twice)
            × Any (λ (r : ResolvedChange). r.change.output ≡ change.output) resolved)
          ⊎ Wrong outputs heads change e
    go none q ef eq h = inr (inl (sym (err_inj h), find_facts-All heads change.output ef))
    go (some facts) (some q) ef eq h =
        inl (sym (err_inj h), find_resolved-Any resolved change.output q eq)
    go (some facts) none ef eq h =
        let (known, named) = find_facts-Any heads change.output facts ef in
        let (on, fault) = resolve_change-Fault (outputs change.output) facts change e h in
        inr (inr (on, facts, known, named, fault))

-- The loop stops at a change that is wrong or repeats a head.
validate_loop-Wrong :
    (outputs : ℕ → Advertised) (heads : List HeadFacts) (resolved : List ResolvedChange)
    (changes : List HeadChange) (e : OutputConfigError)
    → validate_loop outputs heads resolved changes ≡ err e
    → ((e ≡ configured_twice) × (Distinct change_output (map change_of resolved ++ changes) → ⊥))
      ⊎ Any (λ c. Wrong outputs heads c e) changes
unfolding validate_loop
validate_loop-Wrong outputs heads resolved [] e h = absurd (ok-ne-err _ e h)
validate_loop-Wrong outputs heads resolved (c ∷ changes) e h =
    elim (and_then-err (check_change outputs heads resolved c)
      (λ r. validate_loop outputs heads (resolved ++ (r ∷ [])) changes) e h) [
        | inl stop ↦ elim (check_change-Wrong outputs heads resolved c e stop) [
          | inl twice ↦ inl (twice.0, repeated c changes resolved twice.1)
          | inr wrong ↦ inr (inl wrong)
        ]
        | inr (r, checked, rest) ↦
            elim (validate_loop-Wrong outputs heads (resolved ++ (r ∷ [])) changes e rest) [
              | inl twice ↦
                  let (same, _, _) = check_change-Checked outputs heads resolved c r checked in
                  inl (
                    twice.0,
                    (λ d. twice.1 (
                        subst (Distinct change_output)
                          (sym (
                            ap (λ l. l ++ changes) (map-append change_of resolved (r ∷ []))
                            ∙ append_assoc (map change_of resolved) (r.change ∷ []) changes
                            ∙ ap (λ d. map change_of resolved ++ (d ∷ changes)) same))
                          d)),
                  )
              | inr wrong ↦ inr (inr wrong)
            ]
      ]

enabled_after-zero :
    (rs : List ResolvedChange) (heads : List HeadFacts)
    → enabled_after rs heads ≡ 0
    → All (λ h. enabled_by (find_resolved rs h.output) h.enabled ≡ false) heads
unfolding enabled_after
enabled_after-zero rs [] z = tt
enabled_after-zero rs (h ∷ heads) z =
    elim (if-cases (enabled_by (find_resolved rs h.output) h.enabled) _ _ _ z) [
      | inl on ↦ absurd (ground arith)
      | inr off ↦ (off.0, enabled_after-zero rs heads off.1)
    ]

keep_a_head-err :
    (heads : List HeadFacts) (allow : Bool) (rs : List ResolvedChange) (e : OutputConfigError)
    → keep_a_head heads allow rs ≡ err e
    → (e ≡ no_enabled_head)
      × (allow ≡ false)
      × (heads ≢ [])
      × All (λ h. enabled_by (find_resolved rs h.output) h.enabled ≡ false) heads
keep_a_head-err heads allow rs e h =
    elim (if-err ((enabled_after rs heads == 0) && (not allow && not (is_empty heads)))
      no_enabled_head (ok rs) e h) [
        | inl c ↦
            let (zero_left, rest) = and-true (enabled_after rs heads == 0) _ c.0 in
            let (refused, filled) = and-true (not allow) (not (is_empty heads)) rest in
            let z : enabled_after rs heads ≡ 0 = ground arith in
            (c.1, not-true allow refused, nonempty heads filled, enabled_after-zero rs heads z)
        | inr c ↦ absurd (ok-ne-err _ e c.1)
      ]
  where
    and-true : (a b : Bool) → (a && b) ≡ true → (a ≡ true) × (b ≡ true)
    and-true true b h = (refl, h)
    and-true false b h = absurd (true-ne-false h refl)

    not-true : (a : Bool) → not a ≡ true → a ≡ false
    not-true true h = absurd (true-ne-false h refl)
    not-true false h = refl

    nonempty : (l : List HeadFacts) → not (is_empty l) ≡ true → l ≢ []
    nonempty [] h = absurd (true-ne-false h refl)
    nonempty (x ∷ l) h = cons≢nil

-- A configuration is refused only with an error that explains what is wrong with it.
pub validate-Explains :
    (outputs : ℕ → Advertised) (heads : List HeadFacts) (changes : List HeadChange)
    (allow_no_heads : Bool) (e : OutputConfigError)
    → validate outputs heads changes allow_no_heads ≡ err e
    → Explains outputs heads changes allow_no_heads e
unfolding validate
validate-Explains outputs heads changes allow_no_heads e h =
    elim (and_then-err (validate_loop outputs heads [] changes) (keep_a_head heads allow_no_heads) e
      h) [
        | inl looped ↦ elim (validate_loop-Wrong outputs heads [] changes e looped) [
          | inl twice ↦ inl twice
          | inr wrong ↦ inr (inl wrong)
        ]
        | inr (rs, looped, kept) ↦
            let (same, off, filled, dark) = keep_a_head-err heads allow_no_heads rs e kept in
            let (order, _, _) = validate_loop-Checked outputs heads [] changes rs looped tt tt in
            inr (inr (same, off, filled, rs, order, dark))
      ]
