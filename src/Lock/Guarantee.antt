-- ===== src/Lock/Guarantee.antt =====
-- src/handlers/session_lock.rs: when a lock is confirmed.
use minde.Base.{
  ℕ, ◌<◌, ◌≡◌, refl, inl, inr, List, [], ◌∷◌, Option, none, some, true, false, All, count,
  Bool-cases, word64, arith,
}
use minde.Lock.{contains, LockPresentation, ready, owner_alive, Session, drop_pending}
use minde.Lock.Confirm.{
  Backend, lock_confirmation_outputs, confirm, confirm_ready, confirm_pending, maybe_confirm_lock,
}
use minde.Lock.Frames.{System, Reach}
use minde.Lock.Display.{ShowsLock, LockFrame}
use minde.Lock.Shown.{SystemDisplay, Reach-Display}

-- Before the first lock, with nothing queued.
pub record Fresh (a : System) : Type 0 where
  pub unlocked : a.session.locked ≡ false
  pub no_pending : a.session.session_lock.pending ≡ none
  pub no_owner : a.session.session_lock.owner ≡ none
  pub presentation : a.session.session_lock.presentation ≡ record { generation = 0; presented = [] }
  pub no_flips : (o : ℕ) → a.flips o ≡ []

Fresh-Display : (a : System) → Fresh a → SystemDisplay 0 a
unfolding contains
Fresh-Display a f = record {
  guarded = rw f.no_pending (λ e. absurd (ground arith));
  bound = rw f.presentation (omega arith);
  tagged = λ o. rw (f.no_flips o) tt;
  settled = λ l o. rw (f.no_flips o) tt;
  shown = λ l o c. absurd (ground (arith, f.unlocked));
}

-- The output shows a lock scene, and nothing else is queued for it.
abbrev pub Covered : System → ℕ → Type 0
Covered a o = ShowsLock (a.screen o) × All LockFrame (a.flips o)

-- What `maybe_confirm_lock` does: it waits for an output that has no receipt (or for the seat to
-- resume), gives up on a dead owner, and confirms when everything active is covered.
pub data Outcome (a : System) (backend : Backend) (s : Session) : Type 0 where
  nothing_pending : a.session.session_lock.pending ≡ none → s ≡ a.session → Outcome a backend s
  abandoned :
      (lock : ℕ)
      → a.session.session_lock.pending ≡ some lock
      → owner_alive a.clients a.session.session_lock.owner ≡ false
      → s ≡ drop_pending a.session
      → Outcome a backend s
  paused :
      owner_alive a.clients a.session.session_lock.owner ≡ true
      → lock_confirmation_outputs backend ≡ none
      → s ≡ a.session
      → Outcome a backend s
  waiting :
      (outputs : List ℕ) (o : ℕ)
      → owner_alive a.clients a.session.session_lock.owner ≡ true
      → lock_confirmation_outputs backend ≡ some outputs
      → 0 < count o outputs
      → contains o a.session.session_lock.presentation.presented ≡ false
      → s ≡ a.session
      → Outcome a backend s
  confirmed :
      (lock : ℕ) (outputs : List ℕ)
      → a.session.session_lock.pending ≡ some lock
      → owner_alive a.clients a.session.session_lock.owner ≡ true
      → lock_confirmation_outputs backend ≡ some outputs
      → All (Covered a) outputs
      → s ≡ confirm lock a.session
      → Outcome a backend s

ready-All :
    (a : System) (p : LockPresentation) (outputs : List ℕ)
    → ((o : ℕ) → contains o p.presented ≡ true → Covered a o)
    → ready p outputs ≡ true
    → All (Covered a) outputs
unfolding ready
ready-All a p [] f h = tt
ready-All a p (o ∷ os) f h = (f o (ground arith), ready-All a p os f (ground arith))

-- Either there is an output without a receipt, or all have one.
missing :
    (p : LockPresentation) (outputs : List ℕ)
    → ready p outputs ≡ false
    → (o : ℕ) × (0 < count o outputs) × (contains o p.presented ≡ false)
unfolding ready
missing p [] h = absurd (ground arith)
missing p (o ∷ os) h = elim (Bool-cases (contains o p.presented)) [
  | inl e ↦ let (x, c, n) = missing p os (ground arith) in (x, omega arith, n)
  | inr e ↦ (o, ground arith, e)
]

module _ (n : ℕ) (a : System) (backend : Backend) (d : SystemDisplay n a) where
  covered :
      a.session.locked ≡ true
      → (o : ℕ) → contains o a.session.session_lock.presentation.presented ≡ true
      → Covered a o
  covered l o c = d.shown l o c

  ready-Outcome :
      (lock : ℕ) (outputs : Option (List ℕ))
      → lock_confirmation_outputs backend ≡ outputs
      → a.session.session_lock.pending ≡ some lock
      → owner_alive a.clients a.session.session_lock.owner ≡ true
      → Outcome a backend (confirm_ready lock outputs a.session)
  unfolding confirm_ready
  ready-Outcome lock none e p alive = paused alive e refl
  ready-Outcome lock (some os) e p alive =
      elim (Bool-cases (ready a.session.session_lock.presentation os)) [
        | inl r ↦
            let l : a.session.locked ≡ true = d.guarded (ground arith) in
            rw (r, confirm_ready)
              (confirmed lock os p alive e
                (ready-All a a.session.session_lock.presentation os (d.shown l) r) refl)
        | inr r ↦
            let (o, c, m) = missing a.session.session_lock.presentation os r in
            rw (r, confirm_ready) (waiting os o alive e c m refl)
      ]

  pending-Outcome :
      (pending : Option ℕ)
      → a.session.session_lock.pending ≡ pending
      → Outcome a backend (confirm_pending a.clients backend pending a.session)
  unfolding confirm_pending
  pending-Outcome none p = nothing_pending p refl
  pending-Outcome (some lock) p =
      elim (Bool-cases (owner_alive a.clients a.session.session_lock.owner)) [
        | inl alive ↦
            rw (alive, confirm_pending)
              (ready-Outcome lock (lock_confirmation_outputs backend) refl p alive)
        | inr dead ↦ rw (dead, confirm_pending) (abandoned lock p dead refl)
      ]

-- From a fresh start, after fewer than 2^64 steps (requests, frames, lost flips, confirmations, deaths
-- of clients), `maybe_confirm_lock` sends `locked` only to a live owner's pending lock, and only if
-- every active output shows a lock scene and has only lock scenes queued; without a pending lock,
-- while the seat is paused, or as long as an active output has no receipt it changes nothing, and of
-- a dead owner it forgets the confirmation.
pub Reach-Outcome :
    (n : ℕ) (a b : System) (backend : Backend)
    → n < word64
    → Fresh a
    → Reach a n b
    → Outcome b backend (maybe_confirm_lock b.clients backend b.session)
unfolding maybe_confirm_lock
Reach-Outcome n a b backend h f r =
    pending-Outcome n b backend (Reach-Display n a b h (Fresh-Display a f) r)
      b.session.session_lock.pending refl
