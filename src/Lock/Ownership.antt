-- ===== src/Lock/Ownership.antt =====
-- src/handlers/session_lock.rs: who may unlock the session.
use minde.Base.{
  ℕ, ◌≡◌, refl, ◌⊎◌, inl, inr, List, [], ◌∷◌, ◌++◌, append_assoc, Option, none, some, Bool, true,
  false, not, ◌&&◌, ◌||◌, if◌then◌else◌, Bool-cases, Option-cases, arith,
}
use minde.Lock.{
  contains, is_some, is_alive, same, Clients, owner_alive, Message, locked_event, finished_event,
  invalid_unlock, duplicate_output, session_lock_confirmed, redraw, lock_redraw, Session, say,
  drop_pending, ready,
}
use minde.Lock.Focus.{enforce_lock_focus}
use minde.Lock.Requests.{
  enter, take_lock, lock_session, unlock, new_surface, LockRequest, destroy, unlock_and_destroy,
  get_lock_surface, Smithay, Callback, calls_unlock, calls_nothing, calls_new_surface, delegate,
  has_surface, owns_lock, dispatch_lock_request,
}
use minde.Lock.Confirm.{
  Backend, lock_confirmation_outputs, invalidate_lock_presentation, send_locked, tell_scheme,
  confirm, confirm_ready, confirm_pending, maybe_confirm_lock,
}
use minde.Lock.Guard.{drop_pending_pending, Refocused, enforce_lock_focus-Refocused}

-- The lock was told that the session is locked.
pub Told : ℕ → List Message → Type 0
Told lock ms =
    (before : List Message) × (after : List Message) × (ms ≡ before ++ locked_event lock ∷ after)

Told-append : (lock : ℕ) (ms more : List Message) → Told lock ms → Told lock (ms ++ more)
unfolding Told
Told-append lock ms more (before, after, e) =
    (before, after ++ more, rw e (append_assoc before (locked_event lock ∷ after) more))

-- The rules of ownership: a pending lock is the owner's, and an owner whose lock is not pending was
-- told of it, or is gone.
pub record Ownership (destroyed : List ℕ) (owner pending : Option ℕ) (messages : List Message)
    : Type 0 where
  pub owner_pending : (lock : ℕ) → pending ≡ some lock → owner ≡ some lock
  pub told :
      (lock : ℕ)
      → owner ≡ some lock
      → (pending ≡ some lock) ⊎ (Told lock messages ⊎ (contains lock destroyed ≡ true))

abbrev pub SessionOwnership : List ℕ → Session → Type 0
SessionOwnership destroyed s =
    Ownership destroyed s.session_lock.owner s.session_lock.pending s.messages

pub Ownership-say :
    (destroyed : List ℕ) (owner pending : Option ℕ) (ms more : List Message)
    → Ownership destroyed owner pending ms
    → Ownership destroyed owner pending (ms ++ more)
Ownership-say destroyed owner pending ms more v = record {
  owner_pending = v.owner_pending;
  told = λ lock e. elim (v.told lock e) [
    | inl p ↦ inl p
    | inr (inl t) ↦ inr (inl (Told-append lock ms more t))
    | inr (inr d) ↦ inr (inr d)
  ];
}

Ownership-taken :
    (destroyed : List ℕ) (lock : ℕ) (ms : List Message)
    → Ownership destroyed (some lock) (some lock) ms
Ownership-taken destroyed lock ms = record { owner_pending = λ l e. e; told = λ l e. inl e }

Ownership-none : (destroyed : List ℕ) (ms : List Message) → Ownership destroyed none none ms
Ownership-none destroyed ms = record {
  owner_pending = λ l e. e;
  told = λ l e. absurd (ground arith);
}

pub Refocused-Ownership :
    (destroyed : List ℕ) (s t : Session)
    → Refocused s t
    → SessionOwnership destroyed s
    → SessionOwnership destroyed t
Refocused-Ownership destroyed s t r v = rw (r.session_lock, r.messages) v

if-Ownership :
    (destroyed : List ℕ) (b : Bool) (t u : Session)
    → SessionOwnership destroyed t
    → (b ≡ false → SessionOwnership destroyed u)
    → SessionOwnership destroyed (if b then t else u)
if-Ownership destroyed true t u h k = h
if-Ownership destroyed false t u h k = k refl

not-false : {b : Bool} → not b ≡ false → b ≡ true
not-false {b = true} e = refl
not-false {b = false} e = absurd (ground arith)

module _ (c : Clients) where
  abbrev Held : Session → Type 0
  Held = SessionOwnership c.destroyed

  take_lock-Ownership : (lock : ℕ) (s : Session) → Held (take_lock c lock s)
  unfolding take_lock enter
  take_lock-Ownership lock s =
      let focused = enforce_lock_focus c (enter c lock s) in
      Ownership-say c.destroyed focused.session_lock.owner focused.session_lock.pending
        focused.messages (lock_redraw ∷ redraw ∷ [])
        (Refocused-Ownership c.destroyed (enter c lock s) focused
          (enforce_lock_focus-Refocused c (enter c lock s))
          (Ownership-taken c.destroyed lock (enter c lock s).messages))

  pub lock_session-Ownership : (lock : ℕ) (s : Session) → Held s → Held (lock_session c lock s)
  unfolding lock_session
  lock_session-Ownership lock s v =
      let said =
        Ownership-say c.destroyed s.session_lock.owner s.session_lock.pending s.messages
          (finished_event lock ∷ []) v in
      if-Ownership c.destroyed (owner_alive c s.session_lock.owner) (say (finished_event lock) s)
        (if is_some (c.client lock) && same (c.client lock) s.session_lock.owner_client
          then say (finished_event lock) s
          else take_lock c lock s)
        said
        (λ _.
          if-Ownership c.destroyed
            (is_some (c.client lock) && same (c.client lock) s.session_lock.owner_client)
            (say (finished_event lock) s) (take_lock c lock s) said
            (λ _. take_lock-Ownership lock s))

  unlock-Ownership : (s : Session) → Held (unlock s)
  unfolding unlock
  unlock-Ownership s =
      rw (drop_pending_pending (say (session_lock_confirmed false) s), unlock)
        (Ownership-none c.destroyed _)

  new_surface-Ownership : (surface o : ℕ) (s : Session) → Held s → Held (new_surface c surface o s)
  unfolding new_surface
  new_surface-Ownership surface o s v = elim (Option-cases (c.output_of o)) [
    | inl e ↦ rw (e, new_surface) v
    | inr (output, e) ↦
        let t : Session = record s { lock_surfaces = s.lock_surfaces ++ (output, surface) ∷ [] } in
        let focused = enforce_lock_focus c t in
        rw (e, new_surface)
          (Ownership-say c.destroyed focused.session_lock.owner focused.session_lock.pending
            focused.messages (redraw ∷ [])
            (Refocused-Ownership c.destroyed t focused (enforce_lock_focus-Refocused c t) v))
  ]

  delegate-Ownership : (k : Callback) (s : Session) → Held s → Held (delegate c k s)
  unfolding delegate
  delegate-Ownership calls_unlock s v = unlock-Ownership s
  delegate-Ownership calls_nothing s v = v
  delegate-Ownership (calls_new_surface surface o) s v = new_surface-Ownership surface o s v

  say-Ownership : (m : Message) (s : Session) → Held s → Held (say m s)
  say-Ownership m s v =
      Ownership-say c.destroyed s.session_lock.owner s.session_lock.pending s.messages (m ∷ []) v

  pub dispatch-Ownership :
      (smithay : Smithay) (lock : ℕ) (r : LockRequest) (s : Session)
      → Held s
      → Held (dispatch_lock_request smithay c lock r s)
  unfolding dispatch_lock_request
  dispatch-Ownership smithay lock unlock_and_destroy s v =
      if-Ownership c.destroyed (not (owns_lock lock s) || is_some s.session_lock.pending)
        (say (invalid_unlock lock) s) (delegate c (smithay.request lock unlock_and_destroy) s)
        (say-Ownership (invalid_unlock lock) s v)
        (λ _. delegate-Ownership (smithay.request lock unlock_and_destroy) s v)
  dispatch-Ownership smithay lock (get_lock_surface surface o) s v =
      let k = smithay.request lock (get_lock_surface surface o) in
      if-Ownership c.destroyed (not (owns_lock lock s)) s
        (if has_surface s.lock_surfaces (c.output_of o)
          then say (duplicate_output lock) s
          else delegate c k s)
        v
        (λ _.
          if-Ownership c.destroyed (has_surface s.lock_surfaces (c.output_of o))
            (say (duplicate_output lock) s) (delegate c k s)
            (say-Ownership (duplicate_output lock) s v) (λ _. delegate-Ownership k s v))
  dispatch-Ownership smithay lock destroy s v =
      delegate-Ownership (smithay.request lock destroy) s v

  pub invalidate-Ownership : (s : Session) → Held s → Held (invalidate_lock_presentation s)
  unfolding invalidate_lock_presentation
  invalidate-Ownership s v = elim (Bool-cases (is_some s.session_lock.pending)) [
    | inl e ↦
        rw (e, invalidate_lock_presentation)
          (Ownership-say c.destroyed s.session_lock.owner s.session_lock.pending s.messages
            (lock_redraw ∷ redraw ∷ []) v)
    | inr e ↦ rw (e, invalidate_lock_presentation) v
  ]

  confirm-Ownership :
      (lock : ℕ) (s : Session) → s.session_lock.pending ≡ some lock → Held s → Held (confirm lock s)
  unfolding confirm Told
  confirm-Ownership lock s p v =
      let owned : s.session_lock.owner ≡ some lock = v.owner_pending lock p in
      let sent : Held (send_locked lock s) = record {
        owner_pending = λ l e. absurd (ground arith);
        told = λ l e. let it : l ≡ lock = cc in inr (inl (rw it (s.messages, [], refl)));
      } in
      if-Ownership c.destroyed s.session_lock.confirmed (send_locked lock s)
        (tell_scheme (send_locked lock s)) sent
        (λ _.
          Ownership-say c.destroyed s.session_lock.owner none (send_locked lock s).messages
            (session_lock_confirmed true ∷ Message.on_session_lock ∷ []) sent)

  -- The owner is gone.
  abandoned-Ownership :
      (s : Session) → owner_alive c s.session_lock.owner ≡ false → Held s → Held (drop_pending s)
  unfolding drop_pending owner_alive contains is_alive
  abandoned-Ownership s dead v = elim (Option-cases s.session_lock.pending) [
    | inl e ↦ rw (e, drop_pending) v
    | inr (lock, e) ↦
        let owned : s.session_lock.owner ≡ some lock = v.owner_pending lock e in
        let gone : not (contains lock c.destroyed) ≡ false = rw owned at dead in
        let destroyed : contains lock c.destroyed ≡ true = not-false gone in
        rw (e, drop_pending)
          (record {
            owner_pending = λ l x. absurd (ground arith);
            told = λ l x. let it : l ≡ lock = cc in inr (inr (rw it destroyed));
          })
  ]

  confirm_ready-Ownership :
      (lock : ℕ) (outputs : Option (List ℕ)) (s : Session)
      → s.session_lock.pending ≡ some lock
      → Held s
      → Held (confirm_ready lock outputs s)
  unfolding confirm_ready
  confirm_ready-Ownership lock none s e v = v
  confirm_ready-Ownership lock (some os) s e v =
      if-Ownership c.destroyed (ready s.session_lock.presentation os) (confirm lock s) s
        (confirm-Ownership lock s e v) (λ _. v)

  confirm_pending-Ownership :
      (b : Backend) (pending : Option ℕ) (s : Session)
      → s.session_lock.pending ≡ pending
      → Held s
      → Held (confirm_pending c b pending s)
  unfolding confirm_pending
  confirm_pending-Ownership b none s e v = v
  confirm_pending-Ownership b (some lock) s e v =
      if-Ownership c.destroyed (owner_alive c s.session_lock.owner)
        (confirm_ready lock (lock_confirmation_outputs b) s) (drop_pending s)
        (confirm_ready-Ownership lock (lock_confirmation_outputs b) s e v)
        (λ dead. abandoned-Ownership s dead v)

  pub maybe_confirm-Ownership :
      (b : Backend) (s : Session) → Held s → Held (maybe_confirm_lock c b s)
  unfolding maybe_confirm_lock
  maybe_confirm-Ownership b s v = confirm_pending-Ownership b s.session_lock.pending s refl v
