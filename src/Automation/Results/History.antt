-- ===== src/Automation/Results/History.antt =====
-- src/automation_dnd.rs: the queue holds the latest result of each of the most recent tokens.
use mathlib.Core.List.{reverse, reverse-cons}
use minde.Base.{
  ℕ, zero, suc, ◌≤◌, ◌≡◌, ◌≢◌, refl, ap, ◌∙◌, inl, inr, List, [], ◌∷◌, ◌++◌, none, some, false,
  length, take, ◌==◌, Bool-cases, arith,
}
use minde.Automation.{AutomationResult}
use minde.Automation.Results.{
  AutomationResults, new_results, remove_token, pop_to, record_result, get_from, get,
}
use minde.Automation.Results.Latest.{
  without, latest, Absent, Distinct, latest-Distinct, remove_token_all,
}
use minde.Automation.Results.Reversed.{
  without-reverse, pop_to-drop, length-reverse, reverse-take, Distinct-take, take-without,
  Distinct-reverse,
}

-- Recording a history, given newest first.
unfoldable pub record_history : AutomationResults → List AutomationResult → AutomationResults
record_history s [] = s
record_history s (r ∷ h) = record_result (record_history s h) r

-- One step on the list of results, newest first.
record_step :
    (n : ℕ) (r : AutomationResult) (xs : List AutomationResult)
    → Distinct xs
    → pop_to (suc n) (remove_token r.token (reverse (take (suc n) xs)) ++ r ∷ [])
      ≡ reverse (take (suc n) (r ∷ without r.token xs))
record_step n r xs d =
    let kept = take (suc n) xs in
    let all =
      remove_token_all r.token (reverse kept)
        (Distinct-reverse kept (Distinct-take (suc n) xs d)) in
    let new = r ∷ without r.token kept in
    let cut = reverse-take (suc n) new in
    rw
      (
        all,
        without-reverse r.token kept,
        ← reverse-cons r (without r.token kept),
        pop_to-drop,
        length-reverse,
        ← cut,
      )
      (ap (λ t. reverse (r ∷ t)) (take-without r.token n xs d))

record_history_limit :
    (n : ℕ) (h : List AutomationResult) → (record_history (new_results n) h).limit ≡ n
unfolding record_history record_result new_results
record_history_limit n [] = refl
record_history_limit n (r ∷ h) = ground (arith, record_history_limit n h)

record_result_inner :
    (s : AutomationResults) (r : AutomationResult) (n : ℕ)
    → s.limit ≡ suc n
    → (record_result s r).inner ≡ pop_to (suc n) (remove_token r.token s.inner ++ r ∷ [])
unfolding record_result
record_result_inner s r n e =
    let nonzero : (s.limit == 0) ≡ false = ground arith in rw (nonzero, e) refl

-- After any history the queue, read from its newest end, is the latest result of each token, the
-- most recent token first, cut off at the limit.
pub record_history_lem :
    (n : ℕ) (h : List AutomationResult)
    → (record_history (new_results n) h).inner ≡ reverse (take n (latest h))
unfolding record_history record_result new_results
record_history_lem zero [] = refl
record_history_lem zero (r ∷ h) =
    ground (arith, record_history_limit zero h, record_history_lem zero h)
record_history_lem (suc n) [] = refl
record_history_lem (suc n) (r ∷ h) =
    let s = record_history (new_results (suc n)) h in
    record_result_inner s r n (record_history_limit (suc n) h)
    ∙ (ap (λ q. pop_to (suc n) (remove_token r.token q ++ r ∷ [])) (record_history_lem (suc n) h)
        ∙ record_step n r (latest h) (latest-Distinct h))

pub get_from-Absent : (t : ℕ) (xs : List AutomationResult) → Absent t xs → get_from t xs ≡ none
unfolding get_from
get_from-Absent t [] a = refl
get_from-Absent t (x ∷ xs) a = ground (arith, a.0, get_from-Absent t xs a.1)

get_from-append :
    (t : ℕ) (xs ys : List AutomationResult)
    → get_from t (xs ++ ys) ≡ elim (get_from t xs) [ none ↦ get_from t ys | some r ↦ some r ]
unfolding get_from
get_from-append t [] ys = refl
get_from-append t (x ∷ xs) ys = ground (arith, get_from-append t xs ys)

get_from-reverse :
    (t : ℕ) (xs : List AutomationResult) → Distinct xs → get_from t (reverse xs) ≡ get_from t xs
unfolding get_from
get_from-reverse t [] d = refl
get_from-reverse t (x ∷ xs) d =
    rw (reverse-cons x xs, get_from-append t (reverse xs) (x ∷ []), get_from-reverse t xs d.1)
      (elim (Bool-cases (x.token == t)) [
        | inl hit ↦
            let e : x.token ≡ t = ground arith in
            let gone : get_from t xs ≡ none = get_from-Absent t xs (rw e at d.0) in
            ground (arith, gone)
        | inr miss ↦ ground arith
      ])

get_from-without :
    (t u : ℕ) (xs : List AutomationResult) → t ≢ u → get_from t (without u xs) ≡ get_from t xs
unfolding get_from
get_from-without t u [] ne = refl
get_from-without t u (x ∷ xs) ne = ground (arith, get_from-without t u xs ne)

get_from-latest : (t : ℕ) (h : List AutomationResult) → get_from t (latest h) ≡ get_from t h
unfolding get_from
get_from-latest t [] = refl
get_from-latest t (r ∷ h) = elim (Bool-cases (r.token == t)) [
  | inl hit ↦ ground arith
  | inr miss ↦
      let ne : t ≢ r.token = λ e. ground arith in
      ground (arith, get_from-without t r.token (latest h) ne, get_from-latest t h)
]

take_all {ℓ} : {A : Type ℓ} (n : ℕ) (xs : List A) → length xs ≤ n → take n xs ≡ xs
take_all zero [] h = refl
take_all zero (x ∷ xs) h = absurd (omega arith)
take_all (suc n) [] h = refl
take_all (suc n) (x ∷ xs) h = ap (◌∷◌ x) (take_all n xs (omega arith))

get_kept :
    (n t : ℕ) (h : List AutomationResult)
    → get (record_history (new_results n) h) t ≡ get_from t (take n (latest h))
unfolding get
get_kept n t h =
    rw (record_history_lem n h)
      (get_from-reverse t (take n (latest h)) (Distinct-take n (latest h) (latest-Distinct h)))

-- As long as no more tokens were recorded than the limit, every token has its latest result.
pub get-record_history :
    (n t : ℕ) (h : List AutomationResult)
    → length (latest h) ≤ n
    → get (record_history (new_results n) h) t ≡ get_from t h
get-record_history n t h le =
    get_kept n t h ∙ (ap (get_from t) (take_all n (latest h) le) ∙ get_from-latest t h)
