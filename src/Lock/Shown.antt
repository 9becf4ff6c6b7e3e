-- ===== src/Lock/Shown.antt =====
-- src/handlers/session_lock.rs and src/udev.rs: the display after any number of steps.
use minde.Base.{
  ℕ, zero, suc, ◌+◌, ◌<◌, ◌≡◌, refl, ◌⊎◌, inl, inr, List, [], ◌∷◌, ◌++◌, Option, none, some, Bool,
  true, false, if◌then◌else◌, Bool-cases, word64, arith,
}
use minde.Lock.{contains, LockPresentation, add_presented, Clients, Session}
use minde.Lock.Focus.{enforce_lock_focus}
use minde.Lock.Requests.{LockRequest, Smithay, dispatch_lock_request}
use minde.Lock.Confirm.{lock_frame_presented}
use minde.Lock.Frames.{
  Content, Frame, render_surface, System, queue_frame, acknowledge, flip, frame_finish,
  after_request, forget_surface, dispatch_surface_destroy, destroys_surface, dispatch_request, Step,
  locks, requests, enforces, renders, finishes, loses, invalidates, confirms, clients_change, Reach,
  here, later,
}
use minde.Lock.Display.{
  LockFrame, Tagged, Display, Display-wait, Display-drop, Display-unlock, Display-reset,
  Display-queue, Display-lose, Display-flip,
}
use minde.Lock.Destroyed.{forget_surface-Moved}
use minde.Lock.Guard.{
  Refocused, enforce_lock_focus-Refocused, Moved, kept, restarted, opened, Refocused-Moved,
  Moved-Refocused, lock_session-Moved, dispatch-Moved, invalidate-Moved, maybe_confirm-Moved,
}

-- The rules of the display, of a session.
abbrev pub SessionDisplay : ℕ → Session → (ℕ → List Frame) → (ℕ → Content) → Type 0
SessionDisplay n s flips screen =
    Display n s.locked s.session_lock.pending s.session_lock.presentation flips screen

Display-Moved :
    (n : ℕ) (s t : Session) (flips : ℕ → List Frame) (screen : ℕ → Content)
    → n + 1 < word64
    → Moved s t
    → SessionDisplay n s flips screen
    → SessionDisplay (suc n) t flips screen
Display-Moved n s t flips screen h (kept l (inl p) q) d =
    rw (l, p, q)
      (Display-wait n flips screen s.locked s.session_lock.pending s.session_lock.presentation d)
Display-Moved n s t flips screen h (kept l (inr p) q) d =
    rw (l, p, q)
      (Display-wait n flips screen s.locked none s.session_lock.presentation
        (Display-drop n flips screen s.locked s.session_lock.pending s.session_lock.presentation d))
Display-Moved n s t flips screen h (restarted l q) d =
    rw (l, q)
      (Display-reset n flips screen s.locked s.session_lock.pending t.session_lock.pending
        s.session_lock.presentation h d)
Display-Moved n s t flips screen h (opened l p q) d =
    rw (l, p, q)
      (Display-wait n flips screen false none s.session_lock.presentation (
        Display-unlock n flips screen s.locked s.session_lock.pending s.session_lock.presentation
          d))

contains-snoc :
    (x y : ℕ) (xs : List ℕ) → contains x (xs ++ y ∷ []) ≡ true → (contains x xs ≡ true) ⊎ (x ≡ y)
unfolding contains
contains-snoc x y [] h = ground arith
contains-snoc x y (z ∷ xs) h = ground (arith, contains-snoc x y xs)

-- A receipt is only ever added for the output and the generation it names.
add_presented-contains :
    (p : LockPresentation) (o g j : ℕ)
    → contains j (add_presented p o g).presented ≡ true
    → (contains j p.presented ≡ true) ⊎ ((j ≡ o) × (g ≡ p.generation))
unfolding add_presented
add_presented-contains p o g j h = ground (arith, contains-snoc j o p.presented)

add_presented_generation :
    (p : LockPresentation) (o g : ℕ) → (add_presented p o g).generation ≡ p.generation
unfolding add_presented
add_presented_generation p o g = ground arith

-- What a presented frame with this tag changes.
pub record Receipt (o : ℕ) (tag : Option ℕ) (s t : Session) : Type 0 where
  pub locked : t.locked ≡ s.locked
  pub pending : t.session_lock.pending ≡ s.session_lock.pending
  pub owner : t.session_lock.owner ≡ s.session_lock.owner
  pub messages : t.messages ≡ s.messages
  pub generation : t.session_lock.presentation.generation ≡ s.session_lock.presentation.generation
  pub presented :
      (j : ℕ)
      → contains j t.session_lock.presentation.presented ≡ true
      → (contains j s.session_lock.presentation.presented ≡ true)
        ⊎ ((j ≡ o) × (tag ≡ some s.session_lock.presentation.generation))

pub acknowledge-Receipt :
    (o : ℕ) (tag : Option ℕ) (s : Session) → Receipt o tag s (acknowledge o tag s)
unfolding acknowledge lock_frame_presented
acknowledge-Receipt o none s = record {
  locked = refl;
  pending = refl;
  owner = refl;
  messages = refl;
  generation = refl;
  presented = λ j h. inl h;
}
acknowledge-Receipt o (some g) s =
    let p = s.session_lock.presentation in
    record {
      locked = ground arith;
      pending = ground arith;
      owner = ground arith;
      messages = ground arith;
      generation = ground (arith, add_presented_generation p o g);
      presented = λ j h. ground (arith, add_presented-contains p o g j);
    }

abbrev pub SystemDisplay : ℕ → System → Type 0
SystemDisplay n a = SessionDisplay n a.session a.flips a.screen

flip-Display :
    (n o : ℕ) (fs : List Frame) (a : System)
    → a.flips o ≡ fs
    → SystemDisplay n a
    → SystemDisplay n (flip o fs a)
unfolding flip
flip-Display n o [] a e d = d
flip-Display n o (f ∷ fs) a e d =
    let r = acknowledge-Receipt o f.lock_generation a.session in
    rw (r.locked, r.pending)
      (Display-flip n a.session.locked a.session.session_lock.pending
        a.session.session_lock.presentation a.flips a.screen o f fs _ e r.generation r.presented d)

rendered :
    (n o : ℕ) (a : System) (d : SystemDisplay n a)
    → let f = render_surface a.clients a.session o in
      (a.session.locked ≡ true → LockFrame f)
      × Tagged a.session.session_lock.presentation.generation f
unfolding render_surface
rendered n o a d = elim (Bool-cases a.session.locked) [
  | inl l ↦ rw (l, render_surface) (λ _. tt, λ k e. (ground arith, tt))
  | inr l ↦ rw (l, render_surface) (λ e. absurd (ground arith), λ k e. absurd (ground arith))
]

if-Refocused : (b : Bool) (s t : Session) → Refocused s t → Refocused s (if b then t else s)
if-Refocused true s t r = r
if-Refocused false s t r = record {
  locked = refl;
  session_lock = refl;
  messages = refl;
  surfaces = refl;
}

pub after_request-Refocused : (c : Clients) (s : Session) → Refocused s (after_request c s)
unfolding after_request
after_request-Refocused c s =
    if-Refocused s.locked s (enforce_lock_focus c s) (enforce_lock_focus-Refocused c s)

dispatch_request-Moved :
    (smithay : Smithay) (lock : ℕ) (r : LockRequest) (a : System)
    → Moved a.session (dispatch_request smithay lock r a).session
unfolding dispatch_request
dispatch_request-Moved smithay lock r a =
    let s = dispatch_lock_request smithay a.clients lock r a.session in
    Moved-Refocused a.session s (after_request a.clients s)
      (dispatch-Moved smithay a.clients lock r a.session) (after_request-Refocused a.clients s)

surface_destroy-Moved :
    (surface : ℕ) (c : Clients) (a : System)
    → Moved a.session (dispatch_surface_destroy surface c a).session
unfolding dispatch_surface_destroy
surface_destroy-Moved surface c a =
    let s = forget_surface surface a.session in
    Moved-Refocused a.session s (after_request c s) (forget_surface-Moved surface a.session)
      (after_request-Refocused c s)

Step-Display :
    (n : ℕ) (a b : System) → n + 1 < word64 → Step a b → SystemDisplay n a → SystemDisplay (suc n) b
unfolding queue_frame frame_finish dispatch_request dispatch_surface_destroy
Step-Display n a b h (locks lock e) d =
    rw e (
      Display-Moved n a.session _ a.flips a.screen h (lock_session-Moved a.clients lock a.session)
        d)
Step-Display n a b h (requests smithay lock r alive e) d =
    rw e
      (Display-Moved n a.session _ a.flips a.screen h (dispatch_request-Moved smithay lock r a) d)
Step-Display n a b h (destroys_surface surface c o e) d =
    rw e (Display-Moved n a.session _ a.flips a.screen h (surface_destroy-Moved surface c a) d)
Step-Display n a b h (enforces e) d = rw e (
    Display-Moved n a.session _ a.flips a.screen h
      (Refocused-Moved a.session _ (enforce_lock_focus-Refocused a.clients a.session)) d)
Step-Display n a b h (renders o e) d =
    let (l, t) = rendered n o a d in
    rw e (
      Display-wait n _ a.screen a.session.locked a.session.session_lock.pending
        a.session.session_lock.presentation
        (Display-queue n a.session.locked a.session.session_lock.pending
          a.session.session_lock.presentation a.flips a.screen o _ l t d))
Step-Display n a b h (finishes o e) d =
    let c = flip o (a.flips o) a in
    rw e (
      Display-wait n c.flips c.screen c.session.locked c.session.session_lock.pending
        c.session.session_lock.presentation (flip-Display n o (a.flips o) a refl d))
Step-Display n a b h (loses o e) d = rw e (
    Display-wait n _ a.screen a.session.locked a.session.session_lock.pending
      a.session.session_lock.presentation
      (Display-lose n a.session.locked a.session.session_lock.pending
        a.session.session_lock.presentation a.flips a.screen o d))
Step-Display n a b h (invalidates e) d =
    rw e (Display-Moved n a.session _ a.flips a.screen h (invalidate-Moved a.session d.guarded) d)
Step-Display n a b h (confirms backend e) d = rw e (
    Display-Moved n a.session _ a.flips a.screen h (maybe_confirm-Moved a.clients backend a.session)
      d)
Step-Display n a b h (clients_change c o e) d = rw e (
    Display-wait n a.flips a.screen a.session.locked a.session.session_lock.pending
      a.session.session_lock.presentation d)

pub Reach-Display :
    (n : ℕ) (a b : System) → n < word64 → SystemDisplay 0 a → Reach a n b → SystemDisplay n b
Reach-Display zero a b h d here = d
Reach-Display (suc n) a b h d (later {b = c} r st) =
    Step-Display n c b (omega arith) st (Reach-Display n a c (omega arith) d r)
