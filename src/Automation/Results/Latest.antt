-- ===== src/Automation/Results/Latest.antt =====
-- src/automation_dnd.rs: the latest result of each token of a history.
use minde.Base.{
  ℕ, ◌≡◌, ◌≢◌, refl, sym, ap, inl, inr, List, [], ◌∷◌, ◌==◌, if◌then◌else◌, Bool-cases, All, arith,
}
use minde.Automation.{AutomationResult}
use minde.Automation.Results.{remove_token}

-- Without the results of a token.
abbrev pub without : ℕ → List AutomationResult → List AutomationResult
without token [] = []
without token (r ∷ rs) = if r.token == token then without token rs else r ∷ without token rs

-- The latest result of each token, the most recent token first; `h` is a history, newest first.
abbrev pub latest : List AutomationResult → List AutomationResult
latest [] = []
latest (r ∷ h) = r ∷ without r.token (latest h)

-- No result of the token.
abbrev pub Absent : ℕ → List AutomationResult → Type 0
Absent token = All (λ r. r.token ≢ token)

abbrev pub Distinct : List AutomationResult → Type 0
Distinct [] = Unit {0}
Distinct (r ∷ rs) = Absent r.token rs × Distinct rs

pub without-Absent : (t : ℕ) (rs : List AutomationResult) → Absent t rs → without t rs ≡ rs
without-Absent t [] a = refl
without-Absent t (r ∷ rs) a = ground (arith, a.0, without-Absent t rs a.1)

pub Absent-without : (t u : ℕ) (rs : List AutomationResult) → Absent u rs → Absent u (without t rs)
Absent-without t u [] a = tt
Absent-without t u (r ∷ rs) a = elim (Bool-cases (r.token == t)) [
  | inl hit ↦ rw (hit, without) (Absent-without t u rs a.1)
  | inr miss ↦ rw (miss, without) (a.0, Absent-without t u rs a.1)
]

pub Absent-removed : (t : ℕ) (rs : List AutomationResult) → Absent t (without t rs)
Absent-removed t [] = tt
Absent-removed t (r ∷ rs) = elim (Bool-cases (r.token == t)) [
  | inl hit ↦ rw (hit, without) (Absent-removed t rs)
  | inr miss ↦ rw (miss, without) ((λ e. ground arith), Absent-removed t rs)
]

Distinct-without : (t : ℕ) (rs : List AutomationResult) → Distinct rs → Distinct (without t rs)
Distinct-without t [] d = tt
Distinct-without t (r ∷ rs) d = elim (Bool-cases (r.token == t)) [
  | inl hit ↦ rw (hit, without) (Distinct-without t rs d.1)
  | inr miss ↦ rw (miss, without) (Absent-without t r.token rs d.0, Distinct-without t rs d.1)
]

pub latest-Distinct : (h : List AutomationResult) → Distinct (latest h)
latest-Distinct [] = tt
latest-Distinct (r ∷ h) =
    (Absent-removed r.token (latest h), Distinct-without r.token (latest h) (latest-Distinct h))

-- Removing the first result of a token removes all of them where tokens are distinct.
pub remove_token_all :
    (t : ℕ) (rs : List AutomationResult) → Distinct rs → remove_token t rs ≡ without t rs
unfolding remove_token
remove_token_all t [] d = refl
remove_token_all t (r ∷ rs) d = elim (Bool-cases (r.token == t)) [
  | inl hit ↦
      rw (hit, without)
        (sym (without-Absent t rs (let e : r.token ≡ t = ground arith in rw (← e) d.0)))
  | inr miss ↦ rw (miss, without) (ap (◌∷◌ r) (remove_token_all t rs d.1))
]
