-- ===== src/Automation/Results/Reversed.antt =====
-- src/automation_dnd.rs: lemmas on the queue read from its newest end.
use mathlib.Core.List.{reverse, reverse-cons}
use minde.Base.{
  ℕ, zero, suc, ◌-◌, ◌≡◌, ◌≢◌, refl, sym, ap, inl, inr, List, [], ◌∷◌, ◌++◌, append-nil, length,
  length-append, take, drop, drop-nil, drop-append, drop-length, ltb, ◌==◌, Bool-cases, All-append,
  arith,
}
use minde.Automation.{AutomationResult}
use minde.Automation.Results.{pop_to}
use minde.Automation.Results.Latest.{without, Absent, Distinct, without-Absent}

pub without-append :
    (t : ℕ) (xs ys : List AutomationResult) → without t (xs ++ ys) ≡ without t xs ++ without t ys
without-append t [] ys = refl
without-append t (x ∷ xs) ys = ground (arith, without-append t xs ys)

pub without-reverse :
    (t : ℕ) (xs : List AutomationResult) → without t (reverse xs) ≡ reverse (without t xs)
without-reverse t [] = refl
without-reverse t (x ∷ xs) =
    rw (reverse-cons x xs, without-append t (reverse xs) (x ∷ []), without-reverse t xs)
      (ground (arith, reverse-cons x (without t xs), append-nil (reverse (without t xs))))

pub pop_to-drop : (n : ℕ) (rs : List AutomationResult) → pop_to n rs ≡ drop (length rs - n) rs
unfolding pop_to
pop_to-drop n [] = rw (drop-nil (0 - n))
pop_to-drop n (r ∷ rs) = elim (Bool-cases (ltb n (length (r ∷ rs)))) [
  | inl over ↦
      let e : suc (length rs) - n ≡ suc (length rs - n) = ground arith in
      rw (over, e) (pop_to-drop n rs)
  | inr fine ↦ let e : suc (length rs) - n ≡ 0 = ground arith in rw (fine, e)
]

pub length-reverse {ℓ} : {A : Type ℓ} (xs : List A) → length (reverse xs) ≡ length xs
length-reverse [] = refl
length-reverse (x ∷ xs) =
    omega
      (arith, ap length (reverse-cons x xs), length-append (reverse xs) (x ∷ []), length-reverse xs)

pub reverse-take {ℓ} :
    {A : Type ℓ} (n : ℕ) (xs : List A) → reverse (take n xs) ≡ drop (length xs - n) (reverse xs)
reverse-take zero xs =
    let e : length xs - 0 ≡ length (reverse xs) = omega (arith, length-reverse xs) in
    rw e (sym (drop-length (reverse xs)))
reverse-take (suc n) [] = rw (drop-nil (0 - suc n))
reverse-take (suc n) (x ∷ xs) =
    let e : suc (length xs) - suc n ≡ length xs - n = omega arith in
    rw (reverse-cons x (take n xs), reverse-cons x xs, e, reverse-take n xs)
      (sym (drop-append (length xs - n) (reverse xs) (x ∷ []) (omega (arith, length-reverse xs))))

Absent-take : (t n : ℕ) (xs : List AutomationResult) → Absent t xs → Absent t (take n xs)
Absent-take t zero xs a = tt
Absent-take t (suc n) [] a = tt
Absent-take t (suc n) (x ∷ xs) a = (a.0, Absent-take t n xs a.1)

pub Distinct-take : (n : ℕ) (xs : List AutomationResult) → Distinct xs → Distinct (take n xs)
Distinct-take zero xs d = tt
Distinct-take (suc n) [] d = tt
Distinct-take (suc n) (x ∷ xs) d = (Absent-take x.token n xs d.0, Distinct-take n xs d.1)

take-take {ℓ} : {A : Type ℓ} (n : ℕ) (xs : List A) → take n (take n xs) ≡ take n xs
take-take zero xs = refl
take-take (suc n) [] = refl
take-take (suc n) (x ∷ xs) = ap (◌∷◌ x) (take-take n xs)

-- To drop one token before the cut or after it is the same, if one more is cut off later.
pub take-without :
    (t n : ℕ) (xs : List AutomationResult)
    → Distinct xs
    → take n (without t (take (suc n) xs)) ≡ take n (without t xs)
take-without t n [] d = refl
take-without t zero (x ∷ xs) d = refl
take-without t (suc m) (x ∷ xs) d =
    let n = suc m in
    elim (Bool-cases (x.token == t)) [
      | inl hit ↦
          let e : x.token ≡ t = ground arith in
          let a : Absent t xs = rw (← e) d.0 in
          rw
            (
              hit,
              without,
              without-Absent t xs a,
              without-Absent t (take n xs) (Absent-take t n xs a),
            )
            (take-take n xs)
      | inr miss ↦ rw (miss, without) (ap (◌∷◌ x) (take-without t m xs d.1))
    ]

Absent-snoc :
    (t : ℕ) (xs : List AutomationResult) (r : AutomationResult)
    → Absent t xs
    → r.token ≢ t
    → Absent t (xs ++ r ∷ [])
Absent-snoc t xs r a ne = All-append (λ r. r.token ≢ t) xs (r ∷ []) a (ne, tt)

Absent-reverse : (t : ℕ) (xs : List AutomationResult) → Absent t xs → Absent t (reverse xs)
Absent-reverse t [] a = tt
Absent-reverse t (x ∷ xs) a =
    rw (reverse-cons x xs) (Absent-snoc t (reverse xs) x (Absent-reverse t xs a.1) a.0)

Distinct-snoc :
    (xs : List AutomationResult) (r : AutomationResult)
    → Absent r.token xs
    → Distinct xs
    → Distinct (xs ++ r ∷ [])
Distinct-snoc [] r a d = (tt, tt)
Distinct-snoc (x ∷ xs) r a d =
    (Absent-snoc x.token xs r d.0 (λ e. a.0 (sym e)), Distinct-snoc xs r a.1 d.1)

pub Distinct-reverse : (xs : List AutomationResult) → Distinct xs → Distinct (reverse xs)
Distinct-reverse [] d = tt
Distinct-reverse (x ∷ xs) d =
    rw (reverse-cons x xs)
      (Distinct-snoc (reverse xs) x (Absent-reverse x.token xs d.0) (Distinct-reverse xs d.1))
