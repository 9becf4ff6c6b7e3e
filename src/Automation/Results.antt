-- ===== src/Automation/Results.antt =====
-- src/automation_dnd.rs: the bounded history of completions (`AutomationResults`).
-- `inner` is the queue, its front first.
pub mod Latest
pub mod Reversed
pub mod History
pub mod Tokens
mod Examples
use minde.Base.{
  ℕ, zero, suc, ◌+◌, ◌%◌, List, [], ◌∷◌, ◌++◌, Option, none, some, length, ltb, ◌==◌, if◌then◌else◌,
  word64,
}
use minde.Automation.{AutomationOperation, AutomationResult, pending}

abbrev pub automation_result_limit : ℕ
automation_result_limit = 128

pub record AutomationResults : Type 0 where
  pub inner : List AutomationResult
  pub next_token : ℕ
  pub limit : ℕ

unfoldable pub new_results : ℕ → AutomationResults
new_results limit = record { inner = []; next_token = 1; limit = limit }

-- The loop of `next_token`, which skips the token zero: the token and the counter after it.
pub next_token_loop : ℕ → ℕ → Option (ℕ × ℕ)
next_token_loop zero next = none
next_token_loop (suc fuel) next =
    let again = next_token_loop fuel ((next + 1) % word64) in
    if next == 0 then again else some (next, (next + 1) % word64)

-- Two rounds are enough: after zero comes one.
unfoldable pub next_token : AutomationResults → Option (ℕ × AutomationResults)
unfolding next_token_loop
next_token s = elim (next_token_loop 2 s.next_token) [
  | none ↦ none
  | some (token, next) ↦ some (token, record s { next_token = next })
]

-- `position` and `remove`: the first result of the token goes.
pub remove_token : ℕ → List AutomationResult → List AutomationResult
remove_token token [] = []
remove_token token (r ∷ rs) = if r.token == token then rs else r ∷ remove_token token rs

-- `while results.len() > limit { results.pop_front(); }`
pub pop_to : ℕ → List AutomationResult → List AutomationResult
pop_to limit [] = []
pop_to limit (r ∷ rs) =
    let rest = pop_to limit rs in if ltb limit (length (r ∷ rs)) then rest else r ∷ rs

-- `AutomationResults::record`.
unfoldable pub record_result : AutomationResults → AutomationResult → AutomationResults
unfolding remove_token pop_to
record_result s r =
    if s.limit == 0
    then s
    else record s { inner = pop_to s.limit (remove_token r.token s.inner ++ r ∷ []) }

unfoldable pub allocate : AutomationResults → AutomationOperation → Option (ℕ × AutomationResults)
allocate s operation = elim (next_token s) [
  | none ↦ none
  | some (token, s') ↦
      some (
        token,
        record_result s' (record { token = token; operation = operation; status = pending }),
      )
]

pub get_from : ℕ → List AutomationResult → Option AutomationResult
get_from token [] = none
get_from token (r ∷ rs) = if r.token == token then some r else get_from token rs

unfoldable pub get : AutomationResults → ℕ → Option AutomationResult
unfolding get_from
get s token = get_from token s.inner
