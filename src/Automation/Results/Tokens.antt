-- ===== src/Automation/Results/Tokens.antt =====
-- src/automation_dnd.rs: tokens are not zero, and a fresh one is pending at once.
use minde.Base.{
  ℕ, zero, suc, drop, drop-append, ◌+◌, ◌-◌, ◌%◌, ◌≤◌, ◌<◌, ◌≡◌, ◌≢◌, refl, ap, inl, inr, List, [],
  ◌∷◌, ◌++◌, Option, none, some, false, length, length-append, ◌==◌, Bool-cases, word64, arith,
}
use minde.Automation.{AutomationOperation, AutomationResult, pending}
use minde.Automation.Results.{
  AutomationResults, next_token_loop, next_token, allocate, record_result, get_from, get,
}
use minde.Automation.Results.Latest.{without, Absent, Distinct, remove_token_all, Absent-removed}
use minde.Automation.Results.Reversed.{pop_to-drop}
use minde.Automation.Results.History.{get_from-Absent}

get_from_last :
    (t : ℕ) (xs : List AutomationResult) (r : AutomationResult)
    → r.token ≡ t
    → get_from t xs ≡ none
    → get_from t (xs ++ r ∷ []) ≡ some r
unfolding get_from
get_from_last t [] r e n = ground arith
get_from_last t (x ∷ xs) r e n = ground (arith, get_from_last t xs r e)

Absent-drop : (t n : ℕ) (xs : List AutomationResult) → Absent t xs → Absent t (drop n xs)
Absent-drop t zero xs a = a
Absent-drop t (suc n) [] a = tt
Absent-drop t (suc n) (x ∷ xs) a = Absent-drop t n xs a.1

-- What is recorded is found, where the queue holds each token once and the limit is not zero.
pub get-record_result :
    (s : AutomationResults) (r : AutomationResult)
    → Distinct s.inner
    → 0 < s.limit
    → get (record_result s r) r.token ≡ some r
unfolding get record_result
get-record_result s r d pos =
    let nonzero : (s.limit == 0) ≡ false = ground arith in
    let rest = without r.token s.inner in
    let n = length (rest ++ r ∷ []) - s.limit in
    let within : n ≤ length rest = omega (arith, length-append rest (r ∷ [])) in
    rw
      (nonzero, remove_token_all r.token s.inner d, pop_to-drop, drop-append n rest (r ∷ []) within)
      (get_from_last r.token (drop n rest) r refl (
        get_from-Absent r.token (drop n rest)
          (Absent-drop r.token n rest (Absent-removed r.token s.inner))))

next_token_first :
    (fuel next : ℕ)
    → (next == 0) ≡ false
    → next_token_loop (suc fuel) next ≡ some (next, (next + 1) % word64)
unfolding next_token_loop
next_token_first fuel next e = rw e

with_counter : AutomationResults → Option (ℕ × ℕ) → Option (ℕ × AutomationResults)
with_counter s none = none
with_counter s (some (token, next)) = some (token, record s { next_token = next })

-- `next_token` always returns, and never the token zero.
pub next_token_lem :
    (s : AutomationResults)
    → s.next_token < word64
    → (token : ℕ) × (s' : AutomationResults) × (next_token s ≡ some (token, s'))
      × (token ≢ 0)
      × (s'.inner ≡ s.inner)
      × (s'.limit ≡ s.limit)
unfolding next_token with_counter
next_token_lem s h = elim (Bool-cases (s.next_token == 0)) [
  | inl zero_token ↦
      let e : s.next_token ≡ 0 = ground arith in
      (1, record s { next_token = 2 }, rw e refl, (λ z. omega arith), refl, refl)
  | inr nonzero ↦ (
    s.next_token,
    record s { next_token = (s.next_token + 1) % word64 },
    ap (with_counter s) (next_token_first 1 s.next_token nonzero),
    (λ z. ground arith),
    refl,
    refl,
  )
]

-- Where the queue holds each token once and the limit is not zero, a request is given a token other
-- than zero, and is pending at once.
pub allocate-get :
    (s : AutomationResults) (operation : AutomationOperation)
    → s.next_token < word64
    → Distinct s.inner
    → 0 < s.limit
    → (token : ℕ) × (s' : AutomationResults) × (allocate s operation ≡ some (token, s'))
      × (token ≢ 0)
      × (get s' token ≡ some (record { token = token; operation = operation; status = pending }))
unfolding allocate
allocate-get s operation h d pos =
    let (token, s', e, nonzero, same, limit) = next_token_lem s h in
    let r : AutomationResult = record { token = token; operation = operation; status = pending } in
    (
      token,
      record_result s' r,
      rw (e, allocate),
      nonzero,
      get-record_result s' r (rw same d) (rw limit pos),
    )
