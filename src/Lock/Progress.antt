-- ===== src/Lock/Progress.antt =====
-- src/handlers/session_lock.rs: the confirmation comes when the frames have come.
use minde.Base.{ℕ, ◌≡◌, refl, ap, ◌∙◌, List, [], ◌∷◌, ◌++◌, some, true, All, arith}
use minde.Lock.{
  contains, is_some, LockPresentation, add_presented, ready, Clients, owner_alive, Session,
}
use minde.Lock.Confirm.{
  Backend, lock_confirmation_outputs, lock_frame_presented, confirm, confirm_ready, confirm_pending,
  maybe_confirm_lock,
}

-- Each output presents a frame of the current generation.
unfoldable pub present_all : List ℕ → Session → Session
unfolding lock_frame_presented
present_all [] s = s
present_all (o ∷ os) s =
    present_all os (lock_frame_presented o s.session_lock.presentation.generation s)

contains-append : (x : ℕ) (xs ys : List ℕ) → contains x xs ≡ true → contains x (xs ++ ys) ≡ true
unfolding contains
contains-append x [] ys h = absurd (ground arith)
contains-append x (z ∷ xs) ys h = ground (arith, contains-append x xs ys)

contains_last : (x : ℕ) (xs : List ℕ) → contains x (xs ++ x ∷ []) ≡ true
unfolding contains
contains_last x [] = ground arith
contains_last x (z ∷ xs) = ground (arith, contains_last x xs)

add_presented_mono :
    (p : LockPresentation) (o g j : ℕ)
    → contains j p.presented ≡ true
    → contains j (add_presented p o g).presented ≡ true
unfolding add_presented
add_presented_mono p o g j h = ground (arith, contains-append j p.presented (o ∷ []))

add_presented_own :
    (p : LockPresentation) (o : ℕ) → contains o (add_presented p o p.generation).presented ≡ true
unfolding add_presented
add_presented_own p o = ground (arith, contains_last o p.presented)

presented_mono :
    (o g j : ℕ) (s : Session)
    → contains j s.session_lock.presentation.presented ≡ true
    → contains j (lock_frame_presented o g s).session_lock.presentation.presented ≡ true
unfolding lock_frame_presented
presented_mono o g j s h = ground (arith, add_presented_mono s.session_lock.presentation o g j h)

presented_pending :
    (o g : ℕ) (s : Session)
    → (lock_frame_presented o g s).session_lock.pending ≡ s.session_lock.pending
unfolding lock_frame_presented
presented_pending o g s = ground arith

presented_owner :
    (o g : ℕ) (s : Session) → (lock_frame_presented o g s).session_lock.owner ≡ s.session_lock.owner
unfolding lock_frame_presented
presented_owner o g s = ground arith

presented_own :
    (o : ℕ) (s : Session)
    → is_some s.session_lock.pending ≡ true
    → let g = s.session_lock.presentation.generation in
      contains o (lock_frame_presented o g s).session_lock.presentation.presented ≡ true
unfolding lock_frame_presented
presented_own o s e = rw (e, lock_frame_presented) (add_presented_own s.session_lock.presentation o)

present_all_mono :
    (os : List ℕ) (j : ℕ) (s : Session)
    → contains j s.session_lock.presentation.presented ≡ true
    → contains j (present_all os s).session_lock.presentation.presented ≡ true
unfolding present_all
present_all_mono [] j s h = h
present_all_mono (o ∷ os) j s h =
    let g = s.session_lock.presentation.generation in
    present_all_mono os j (lock_frame_presented o g s) (presented_mono o g j s h)

present_all_pending :
    (os : List ℕ) (s : Session) → (present_all os s).session_lock.pending ≡ s.session_lock.pending
unfolding present_all
present_all_pending [] s = refl
present_all_pending (o ∷ os) s =
    let g = s.session_lock.presentation.generation in
    present_all_pending os (lock_frame_presented o g s) ∙ presented_pending o g s

present_all_owner :
    (os : List ℕ) (s : Session) → (present_all os s).session_lock.owner ≡ s.session_lock.owner
unfolding present_all
present_all_owner [] s = refl
present_all_owner (o ∷ os) s =
    let g = s.session_lock.presentation.generation in
    present_all_owner os (lock_frame_presented o g s) ∙ presented_owner o g s

ready_all :
    (p : LockPresentation) (os : List ℕ)
    → All (λ o. contains o p.presented ≡ true) os
    → ready p os ≡ true
unfolding ready
ready_all p [] h = refl
ready_all p (o ∷ os) h = rw (h.0, ready) (ready_all p os h.1)

present_all_all :
    (os : List ℕ) (s : Session)
    → is_some s.session_lock.pending ≡ true
    → All (λ o. contains o (present_all os s).session_lock.presentation.presented ≡ true) os
unfolding present_all
present_all_all [] s e = tt
present_all_all (o ∷ os) s e =
    let t = lock_frame_presented o s.session_lock.presentation.generation s in
    (
      present_all_mono os o t (presented_own o s e),
      present_all_all os t (ap is_some (presented_pending o _ s) ∙ e),
    )

-- A pending lock of a live owner is confirmed once each active output has presented a frame of the
-- current generation, whatever was presented before.
pub maybe_confirm_lock-present_all :
    (c : Clients) (b : Backend) (lock : ℕ) (os : List ℕ) (s : Session)
    → s.session_lock.pending ≡ some lock
    → owner_alive c s.session_lock.owner ≡ true
    → lock_confirmation_outputs b ≡ some os
    → maybe_confirm_lock c b (present_all os s) ≡ confirm lock (present_all os s)
unfolding maybe_confirm_lock confirm_pending confirm_ready
maybe_confirm_lock-present_all c b lock os s p alive e =
    let t = present_all os s in
    let pending : t.session_lock.pending ≡ some lock = present_all_pending os s ∙ p in
    let alive' : owner_alive c t.session_lock.owner ≡ true =
      ap (owner_alive c) (present_all_owner os s) ∙ alive in
    let all : ready t.session_lock.presentation os ≡ true =
      ready_all t.session_lock.presentation os (present_all_all os s (ap is_some p)) in
    ap (λ o. confirm_pending c b o t) pending
    ∙ rw (alive', e, all, confirm_pending, confirm_ready) refl
