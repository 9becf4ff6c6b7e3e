-- ===== src/Lock/Guard.antt =====
-- src/handlers/session_lock.rs: how each operation may change the lock.
use minde.Base.{
  ℕ, ◌≡◌, refl, ap, ◌∙◌, ◌⊎◌, inl, inr, List, [], ◌∷◌, ◌++◌, Option, none, some, Bool, true, false,
  not, ◌&&◌, ◌||◌, if◌then◌else◌, Bool-cases, Option-cases, arith,
}
use minde.Lock.{
  same, is_some, reset, Clients, owner_alive, Session, say, drop_pending, ready, Message,
  invalid_unlock, duplicate_output,
}
use minde.Lock.Focus.{enforce_lock_focus}
use minde.Lock.Requests.{
  enter, take_lock, lock_session, unlock, new_surface, LockRequest, destroy, unlock_and_destroy,
  get_lock_surface, Smithay, Callback, calls_unlock, calls_nothing, calls_new_surface, delegate,
  has_surface, owns_lock, dispatch_lock_request,
}
use minde.Lock.Confirm.{
  Backend, lock_confirmation_outputs, invalidate_lock_presentation, send_locked, tell_scheme,
  confirm, confirm_ready, confirm_pending, maybe_confirm_lock,
}

-- Nothing but the focus differs.
pub record Refocused (s s' : Session) : Type 0 where
  pub locked : s'.locked ≡ s.locked
  pub session_lock : s'.session_lock ≡ s.session_lock
  pub messages : s'.messages ≡ s.messages
  pub surfaces : s'.lock_surfaces ≡ s.lock_surfaces

pub enforce_lock_focus-Refocused :
    (c : Clients) (s : Session) → Refocused s (enforce_lock_focus c s)
unfolding enforce_lock_focus
enforce_lock_focus-Refocused c s = record {
  locked = ground arith;
  session_lock = ground arith;
  messages = ground arith;
  surfaces = ground arith;
}

-- How an operation may change the lock.
pub data Moved (s s' : Session) : Type 0 where
  kept :
      s'.locked ≡ s.locked
      → (s'.session_lock.pending ≡ s.session_lock.pending) ⊎ (s'.session_lock.pending ≡ none)
      → s'.session_lock.presentation ≡ s.session_lock.presentation
      → Moved s s'
  restarted :
      s'.locked ≡ true
      → s'.session_lock.presentation ≡ reset s.session_lock.presentation
      → Moved s s'
  opened :
      s'.locked ≡ false
      → s'.session_lock.pending ≡ none
      → s'.session_lock.presentation ≡ s.session_lock.presentation
      → Moved s s'

pub Refocused-Moved : (s s' : Session) → Refocused s s' → Moved s s'
Refocused-Moved s s' r =
    kept r.locked (inl (ap (λ l. l.pending) r.session_lock))
      (ap (λ l. l.presentation) r.session_lock)

drop_pending_presentation :
    (s : Session) → (drop_pending s).session_lock.presentation ≡ s.session_lock.presentation
unfolding drop_pending
drop_pending_presentation s = elim (Option-cases s.session_lock.pending) [
  | inl e ↦ rw (e, drop_pending) refl
  | inr (l, e) ↦ rw (e, drop_pending) refl
]

pub drop_pending_locked : (s : Session) → (drop_pending s).locked ≡ s.locked
unfolding drop_pending
drop_pending_locked s = elim (Option-cases s.session_lock.pending) [
  | inl e ↦ rw (e, drop_pending) refl
  | inr (l, e) ↦ rw (e, drop_pending) refl
]

pub drop_pending_pending : (s : Session) → (drop_pending s).session_lock.pending ≡ none
unfolding drop_pending
drop_pending_pending s = elim (Option-cases s.session_lock.pending) [
  | inl e ↦ rw (e, drop_pending) e
  | inr (l, e) ↦ rw (e, drop_pending) refl
]

take_lock-Moved : (c : Clients) (lock : ℕ) (s : Session) → Moved s (take_lock c lock s)
unfolding take_lock enter
take_lock-Moved c lock s =
    let r = enforce_lock_focus-Refocused c (enter c lock s) in
    restarted r.locked
      (ap (λ l. l.presentation) r.session_lock ∙ ap reset (drop_pending_presentation s))

pub lock_session-Moved : (c : Clients) (lock : ℕ) (s : Session) → Moved s (lock_session c lock s)
unfolding lock_session
lock_session-Moved c lock s = elim (Bool-cases (owner_alive c s.session_lock.owner)) [
  | inl e ↦ rw (e, lock_session) (kept refl (inl refl) refl)
  | inr e ↦
      elim (Bool-cases
        (is_some (c.client lock) && same (c.client lock) s.session_lock.owner_client)) [
          | inl f ↦ rw (e, f, lock_session) (kept refl (inl refl) refl)
          | inr f ↦ rw (e, f, lock_session) (take_lock-Moved c lock s)
        ]
]

pub Moved-Refocused : (s t u : Session) → Moved s t → Refocused t u → Moved s u
Moved-Refocused s t u (kept l p q) r =
    kept (cc) (rw (ap (λ x. x.pending) r.session_lock) p)
      (ap (λ x. x.presentation) r.session_lock ∙ q)
Moved-Refocused s t u (restarted l q) r =
    restarted (r.locked ∙ l) (ap (λ x. x.presentation) r.session_lock ∙ q)
Moved-Refocused s t u (opened l p q) r =
    opened (r.locked ∙ l) (ap (λ x. x.pending) r.session_lock ∙ p)
      (ap (λ x. x.presentation) r.session_lock ∙ q)

new_surface-Moved :
    (c : Clients) (surface o : ℕ) (s : Session) → Moved s (new_surface c surface o s)
unfolding new_surface
new_surface-Moved c surface o s = elim (Option-cases (c.output_of o)) [
  | inl e ↦ rw (e, new_surface) (kept refl (inl refl) refl)
  | inr (output, e) ↦
      let r =
        enforce_lock_focus-Refocused c
          (record s { lock_surfaces = s.lock_surfaces ++ (output, surface) ∷ [] }) in
      rw (e, new_surface)
        (kept r.locked (inl (ap (λ x. x.pending) r.session_lock))
          (ap (λ x. x.presentation) r.session_lock))
]

unlock-Moved : (s : Session) → Moved s (unlock s)
unfolding unlock
unlock-Moved s =
    let t = say (Message.session_lock_confirmed false) s in
    opened refl (drop_pending_pending t) (drop_pending_presentation t)

delegate-Moved : (c : Clients) (k : Callback) (s : Session) → Moved s (delegate c k s)
unfolding delegate
delegate-Moved c calls_unlock s = unlock-Moved s
delegate-Moved c calls_nothing s = kept refl (inl refl) refl
delegate-Moved c (calls_new_surface surface o) s = new_surface-Moved c surface o s

if-Moved : (b : Bool) (s t u : Session) → Moved s t → Moved s u → Moved s (if b then t else u)
if-Moved true s t u h k = h
if-Moved false s t u h k = k

say-Moved : (m : Message) (s : Session) → Moved s (say m s)
say-Moved m s = kept refl (inl refl) refl

pub dispatch-Moved :
    (smithay : Smithay) (c : Clients) (lock : ℕ) (r : LockRequest) (s : Session)
    → Moved s (dispatch_lock_request smithay c lock r s)
unfolding dispatch_lock_request
dispatch-Moved smithay c lock unlock_and_destroy s =
    if-Moved (not (owns_lock lock s) || is_some s.session_lock.pending) s
      (say (invalid_unlock lock) s) (delegate c (smithay.request lock unlock_and_destroy) s)
      (say-Moved (invalid_unlock lock) s)
      (delegate-Moved c (smithay.request lock unlock_and_destroy) s)
dispatch-Moved smithay c lock (get_lock_surface surface o) s =
    let k = smithay.request lock (get_lock_surface surface o) in
    if-Moved (not (owns_lock lock s)) s s
      (if has_surface s.lock_surfaces (c.output_of o)
        then say (duplicate_output lock) s
        else delegate c k s)
      (kept refl (inl refl) refl)
      (if-Moved (has_surface s.lock_surfaces (c.output_of o)) s (say (duplicate_output lock) s)
        (delegate c k s) (say-Moved (duplicate_output lock) s) (delegate-Moved c k s))
dispatch-Moved smithay c lock destroy s = delegate-Moved c (smithay.request lock destroy) s

pub invalidate-Moved :
    (s : Session)
    → (is_some s.session_lock.pending ≡ true → s.locked ≡ true)
    → Moved s (invalidate_lock_presentation s)
unfolding invalidate_lock_presentation
invalidate-Moved s h = elim (Bool-cases (is_some s.session_lock.pending)) [
  | inl e ↦ rw (e, invalidate_lock_presentation) (restarted (h e) refl)
  | inr e ↦ rw (e, invalidate_lock_presentation) (kept refl (inl refl) refl)
]

confirm-Moved : (lock : ℕ) (s : Session) → Moved s (confirm lock s)
unfolding confirm
confirm-Moved lock s =
    if-Moved s.session_lock.confirmed s (send_locked lock s) (tell_scheme (send_locked lock s))
      (kept refl (inr refl) refl) (kept refl (inr refl) refl)

confirm_ready-Moved :
    (lock : ℕ) (outputs : Option (List ℕ)) (s : Session) → Moved s (confirm_ready lock outputs s)
unfolding confirm_ready
confirm_ready-Moved lock none s = kept refl (inl refl) refl
confirm_ready-Moved lock (some outputs) s =
    if-Moved (ready s.session_lock.presentation outputs) s (confirm lock s) s (confirm-Moved lock s)
      (kept refl (inl refl) refl)

confirm_pending-Moved :
    (c : Clients) (b : Backend) (pending : Option ℕ) (s : Session)
    → Moved s (confirm_pending c b pending s)
unfolding confirm_pending
confirm_pending-Moved c b none s = kept refl (inl refl) refl
confirm_pending-Moved c b (some lock) s =
    if-Moved (owner_alive c s.session_lock.owner) s
      (confirm_ready lock (lock_confirmation_outputs b) s) (drop_pending s)
      (confirm_ready-Moved lock (lock_confirmation_outputs b) s)
      (kept (drop_pending_locked s) (inr (drop_pending_pending s)) (drop_pending_presentation s))

pub maybe_confirm-Moved :
    (c : Clients) (b : Backend) (s : Session) → Moved s (maybe_confirm_lock c b s)
unfolding maybe_confirm_lock
maybe_confirm-Moved c b s = confirm_pending-Moved c b s.session_lock.pending s
