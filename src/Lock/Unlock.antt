-- ===== src/Lock/Unlock.antt =====
-- src/handlers/session_lock.rs: the session is unlocked by nobody but the owner it told.
use minde.Base.{
  ℕ, zero, suc, ◌≡◌, ◌≢◌, refl, sym, ap, ◌∙◌, inl, inr, List, [], ◌∷◌, ◌++◌, Option, none, some,
  Bool, true, false, not, ◌&&◌, ◌||◌, if◌then◌else◌, Bool-cases, Option-cases, ==_iff, arith,
}
use minde.Lock.{
  contains, is_some, is_alive, same, Clients, owner_alive, Session, say, drop_pending,
  finished_event, duplicate_output, ready,
}
use minde.Lock.Focus.{enforce_lock_focus}
use minde.Lock.Requests.{
  enter, take_lock, lock_session, new_surface, LockRequest, destroy, unlock_and_destroy,
  get_lock_surface, Smithay, Callback, calls_unlock, calls_nothing, calls_new_surface, delegate,
  has_surface, owns_lock, dispatch_lock_request,
}
use minde.Lock.Confirm.{
  Backend, lock_confirmation_outputs, invalidate_lock_presentation, send_locked, tell_scheme,
  confirm, confirm_ready, confirm_pending, maybe_confirm_lock,
}
use minde.Lock.Frames.{
  Frame, System, queue_frame, flip, frame_finish, after_request, dispatch_request,
  dispatch_surface_destroy, forget_surface, destroys_surface, Step, locks, requests, enforces,
  renders, finishes, loses, invalidates, confirms, clients_change, Reach, here, later,
}
use minde.Lock.Guard.{drop_pending_locked, enforce_lock_focus-Refocused}
use minde.Lock.Shown.{acknowledge-Receipt, after_request-Refocused}
use minde.Lock.Destroyed.{Outlived-Ownership, forget_surface-Ownership, forget_surface_locked}
use minde.Lock.Guarantee.{Fresh}
use minde.Lock.Ownership.{
  Told, SessionOwnership, Refocused-Ownership, lock_session-Ownership, dispatch-Ownership,
  invalidate-Ownership, maybe_confirm-Ownership,
}

abbrev pub SystemOwnership : System → Type 0
SystemOwnership a = SessionOwnership a.clients.destroyed a.session

flip-Ownership :
    (o : ℕ) (fs : List Frame) (a : System) → SystemOwnership a → SystemOwnership (flip o fs a)
unfolding flip
flip-Ownership o [] a v = v
flip-Ownership o (f ∷ fs) a v =
    let r = acknowledge-Receipt o f.lock_generation a.session in
    rw (r.owner, r.pending, r.messages) v

Step-Ownership : (a b : System) → Step a b → SystemOwnership a → SystemOwnership b
unfolding queue_frame frame_finish dispatch_request dispatch_surface_destroy
Step-Ownership a b (locks lock e) v = rw e (lock_session-Ownership a.clients lock a.session v)
Step-Ownership a b (requests smithay lock r alive e) v =
    let s = dispatch_lock_request smithay a.clients lock r a.session in
    rw e (
      Refocused-Ownership a.clients.destroyed s (after_request a.clients s)
        (after_request-Refocused a.clients s)
        (dispatch-Ownership a.clients smithay lock r a.session v))
Step-Ownership a b (destroys_surface surface c o e) v =
    let s = forget_surface surface a.session in
    rw e (
      Refocused-Ownership c.destroyed s (after_request c s) (after_request-Refocused c s) (
        Outlived-Ownership a.clients c s o
          (forget_surface-Ownership a.clients.destroyed surface a.session v)))
Step-Ownership a b (enforces e) v = rw e (
    Refocused-Ownership a.clients.destroyed a.session (enforce_lock_focus a.clients a.session)
      (enforce_lock_focus-Refocused a.clients a.session) v)
Step-Ownership a b (renders o e) v = rw e v
Step-Ownership a b (finishes o e) v = rw e (flip-Ownership o (a.flips o) a v)
Step-Ownership a b (loses o e) v = rw e v
Step-Ownership a b (invalidates e) v = rw e (invalidate-Ownership a.clients a.session v)
Step-Ownership a b (confirms backend e) v =
    rw e (maybe_confirm-Ownership a.clients backend a.session v)
Step-Ownership a b (clients_change c o e) v = rw e (Outlived-Ownership a.clients c a.session o v)

Reach-Ownership : (n : ℕ) (a b : System) → Reach a n b → SystemOwnership a → SystemOwnership b
Reach-Ownership zero a b here v = v
Reach-Ownership (suc n) a b (later {b = c} r st) v =
    Step-Ownership c b st (Reach-Ownership n a c r v)

-- The step is the request to unlock of the live owner, which was told that the session is locked.
pub record Unlocks (a b : System) : Type 0 where
  pub smithay : Smithay
  pub lock : ℕ
  pub alive : is_alive a.clients lock ≡ true
  pub request : b ≡ dispatch_request smithay lock unlock_and_destroy a
  pub owner : a.session.session_lock.owner ≡ some lock
  pub confirmed : Told lock a.session.messages

if-locked :
    (b : Bool) (s t : Session)
    → s.locked ≡ true
    → t.locked ≡ true
    → (if b then s else t).locked ≡ true
if-locked true s t h k = h
if-locked false s t h k = k

lock_session_locked :
    (c : Clients) (lock : ℕ) (s : Session) → s.locked ≡ true → (lock_session c lock s).locked ≡ true
unfolding lock_session take_lock enter
lock_session_locked c lock s l =
    let r = enforce_lock_focus-Refocused c (enter c lock s) in
    if-locked (owner_alive c s.session_lock.owner) (say (finished_event lock) s)
      (if is_some (c.client lock) && same (c.client lock) s.session_lock.owner_client
        then say (finished_event lock) s
        else take_lock c lock s)
      l
      (if-locked (is_some (c.client lock) && same (c.client lock) s.session_lock.owner_client)
        (say (finished_event lock) s) (take_lock c lock s) l r.locked)

delegate_locked :
    (c : Clients) (k : Callback) (s : Session)
    → k ≢ calls_unlock
    → s.locked ≡ true
    → (delegate c k s).locked ≡ true
unfolding delegate new_surface
delegate_locked c calls_unlock s n l = absurd (n refl)
delegate_locked c calls_nothing s n l = l
delegate_locked c (calls_new_surface surface o) s n l = elim (Option-cases (c.output_of o)) [
  | inl e ↦ rw (e, new_surface) l
  | inr (output, e) ↦
      let t : Session = record s { lock_surfaces = s.lock_surfaces ++ (output, surface) ∷ [] } in
      rw (e, new_surface) ((enforce_lock_focus-Refocused c t).locked ∙ l)
]

-- A request that is not to unlock leaves the session locked.
other_request_locked :
    (smithay : Smithay) (c : Clients) (lock : ℕ) (r : LockRequest) (s : Session)
    → r ≢ unlock_and_destroy
    → s.locked ≡ true
    → (dispatch_lock_request smithay c lock r s).locked ≡ true
unfolding dispatch_lock_request
other_request_locked smithay c lock unlock_and_destroy s n l = absurd (n refl)
other_request_locked smithay c lock (get_lock_surface surface o) s n l =
    let k = smithay.request lock (get_lock_surface surface o) in
    if-locked (not (owns_lock lock s)) s
      (if has_surface s.lock_surfaces (c.output_of o)
        then say (duplicate_output lock) s
        else delegate c k s)
      l
      (if-locked (has_surface s.lock_surfaces (c.output_of o)) (say (duplicate_output lock) s)
        (delegate c k s) l
        (delegate_locked c k s (λ e. n (smithay.unlocks lock (get_lock_surface surface o) e)) l))
other_request_locked smithay c lock destroy s n l =
    delegate_locked c (smithay.request lock destroy) s (λ e. n (smithay.unlocks lock destroy e)) l

same_owner : (o : Option ℕ) (lock : ℕ) → same o (some lock) ≡ true → o ≡ some lock
same_owner none lock e = absurd (ground arith)
same_owner (some x) lock e = ap some ((==_iff x lock).0 e)

-- An unlock is refused unless the owner asks and nothing is pending.
unlock_request :
    (smithay : Smithay) (c : Clients) (lock : ℕ) (s : Session)
    → s.locked ≡ true
    → (dispatch_lock_request smithay c lock unlock_and_destroy s).locked ≡ false
    → (s.session_lock.owner ≡ some lock) × (s.session_lock.pending ≡ none)
unfolding dispatch_lock_request
unlock_request smithay c lock s l freed =
    elim (Bool-cases (not (owns_lock lock s) || is_some s.session_lock.pending)) [
      | inl refused ↦ absurd (let still : s.locked ≡ false = rw refused at freed in cc)
      | inr granted ↦ (same_owner s.session_lock.owner lock (ground arith), ground arith)
    ]

confirm_ready_locked :
    (lock : ℕ) (outputs : Option (List ℕ)) (s : Session)
    → s.locked ≡ true
    → (confirm_ready lock outputs s).locked ≡ true
unfolding confirm_ready confirm
confirm_ready_locked lock none s l = l
confirm_ready_locked lock (some os) s l =
    if-locked (ready s.session_lock.presentation os) (confirm lock s) s
      (if-locked s.session_lock.confirmed (send_locked lock s) (tell_scheme (send_locked lock s)) l
        l)
      l

confirm_pending_locked :
    (c : Clients) (b : Backend) (pending : Option ℕ) (s : Session)
    → s.locked ≡ true
    → (confirm_pending c b pending s).locked ≡ true
unfolding confirm_pending
confirm_pending_locked c b none s l = l
confirm_pending_locked c b (some lock) s l =
    if-locked (owner_alive c s.session_lock.owner)
      (confirm_ready lock (lock_confirmation_outputs b) s) (drop_pending s)
      (confirm_ready_locked lock (lock_confirmation_outputs b) s l) (drop_pending_locked s ∙ l)

flip_locked :
    (o : ℕ) (fs : List Frame) (a : System) → (flip o fs a).session.locked ≡ a.session.locked
unfolding flip
flip_locked o [] a = refl
flip_locked o (f ∷ fs) a = (acknowledge-Receipt o f.lock_generation a.session).locked

invalidate_locked : (s : Session) → (invalidate_lock_presentation s).locked ≡ s.locked
unfolding invalidate_lock_presentation
invalidate_locked s = ground arith

pending_idle : {o : Option ℕ} {lock : ℕ} → o ≡ none → o ≡ some lock → ⊥
pending_idle e p = absurd (ground arith)

alive_gone :
    (c : Clients) (lock : ℕ) → is_alive c lock ≡ true → contains lock c.destroyed ≡ true → ⊥
unfolding is_alive contains
alive_gone c lock h d = absurd (ground arith)

absurd_locked {ℓ} : {A : Type ℓ} (s : Session) → s.locked ≡ true → s.locked ≡ false → A
absurd_locked s l f = absurd (ground arith)

Step-Unlocks :
    (a b : System)
    → SystemOwnership a
    → Step a b
    → a.session.locked ≡ true
    → b.session.locked ≡ false
    → Unlocks a b
unfolding queue_frame frame_finish maybe_confirm_lock dispatch_request dispatch_surface_destroy
Step-Unlocks a b v (locks lock e) l f =
    absurd_locked b.session (rw e (lock_session_locked a.clients lock a.session l)) f
Step-Unlocks a b v (requests smithay lock unlock_and_destroy alive e) l f =
    let s = dispatch_lock_request smithay a.clients lock unlock_and_destroy a.session in
    let freed : s.locked ≡ false =
      sym (after_request-Refocused a.clients s).locked ∙ (ap (λ x. x.session.locked) (sym e) ∙ f) in
    let (owner, idle) = unlock_request smithay a.clients lock a.session l freed in
    record {
      smithay = smithay;
      lock = lock;
      alive = alive;
      request = e;
      owner = owner;
      confirmed = elim (v.told lock owner) [
        | inl p ↦ absurd (pending_idle idle p)
        | inr (inl t) ↦ t
        | inr (inr d) ↦ absurd (alive_gone a.clients lock alive d)
      ];
    }
Step-Unlocks a b v (requests smithay lock destroy alive e) l f =
    let s = dispatch_lock_request smithay a.clients lock destroy a.session in
    absurd_locked b.session
      (ap (λ x. x.session.locked) e
        ∙ ((after_request-Refocused a.clients s).locked
            ∙ other_request_locked smithay a.clients lock destroy a.session
                (λ x. absurd (ground arith)) l))
      f
Step-Unlocks a b v (requests smithay lock (get_lock_surface x y) alive e) l f =
    let s = dispatch_lock_request smithay a.clients lock (get_lock_surface x y) a.session in
    absurd_locked b.session
      (ap (λ x. x.session.locked) e
        ∙ ((after_request-Refocused a.clients s).locked
            ∙ other_request_locked smithay a.clients lock (get_lock_surface x y) a.session
                (λ x. absurd (ground arith)) l))
      f
Step-Unlocks a b v (destroys_surface surface c o e) l f =
    let s = forget_surface surface a.session in
    absurd_locked b.session
      (rw e ((after_request-Refocused c s).locked ∙ (forget_surface_locked surface a.session ∙ l)))
      f
Step-Unlocks a b v (enforces e) l f =
    absurd_locked b.session (rw e ((enforce_lock_focus-Refocused a.clients a.session).locked ∙ l)) f
Step-Unlocks a b v (renders o e) l f = absurd_locked b.session (rw e l) f
Step-Unlocks a b v (finishes o e) l f =
    absurd_locked b.session (rw e (flip_locked o (a.flips o) a ∙ l)) f
Step-Unlocks a b v (loses o e) l f = absurd_locked b.session (rw e l) f
Step-Unlocks a b v (invalidates e) l f =
    absurd_locked b.session (rw e (invalidate_locked a.session ∙ l)) f
Step-Unlocks a b v (confirms backend e) l f =
    absurd_locked b.session
      (rw e (confirm_pending_locked a.clients backend a.session.session_lock.pending a.session l)) f
Step-Unlocks a b v (clients_change c o e) l f = absurd_locked b.session (rw e l) f

Fresh-Ownership : (a : System) → Fresh a → SystemOwnership a
Fresh-Ownership a f = record {
  owner_pending = rw f.no_pending (λ lock e. absurd (ground arith));
  told = rw f.no_owner (λ lock e. absurd (ground arith));
}

-- From a fresh start and after any steps, a step that opens the locked session is the request to
-- unlock of a live lock object that owns the session and was sent `locked`: neither the death of the
-- locker, nor a second lock, nor any other request or event opens it.
pub Reach-Unlocks :
    (n : ℕ) (a b c : System)
    → Fresh a
    → Reach a n b
    → Step b c
    → b.session.locked ≡ true
    → c.session.locked ≡ false
    → Unlocks b c
Reach-Unlocks n a b c f r st l u =
    Step-Unlocks b c (Reach-Ownership n a b r (Fresh-Ownership a f)) st l u
