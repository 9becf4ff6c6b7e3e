-- ===== src/Lock/Display.antt =====
-- src/handlers/session_lock.rs and src/udev.rs: what the outputs show while the session is locked.
use minde.Base.{
  ℕ, suc, ◌+◌, ◌%◌, ◌≤◌, ◌<◌, ◌≡◌, refl, sym, ◌⊎◌, inl, inr, List, [], ◌∷◌, ◌++◌, Option, none,
  some, subst, Bool, true, false, ◌==◌, All, All-append, ==_iff, Bool-cases, word64, arith,
}
use minde.Lock.{contains, LockPresentation, reset, is_some}
use minde.Lock.Frames.{Content, desktop, lock_scene, Frame, set_at, tail}

abbrev pub ShowsLock : Content → Type 0
ShowsLock desktop = ⊥
ShowsLock (lock_scene surface) = Unit {0}

abbrev pub LockFrame : Frame → Type 0
LockFrame f = ShowsLock f.content

-- Only lock scenes carry a generation, and none a later one than the current.
abbrev pub Tagged : ℕ → Frame → Type 0
Tagged g f = (k : ℕ) → f.lock_generation ≡ some k → (k ≤ g) × LockFrame f

-- Behind a frame of the current generation all are lock scenes.
abbrev pub Settled : ℕ → List Frame → Type 0
Settled g [] = Unit {0}
Settled g (f ∷ fs) = (f.lock_generation ≡ some g → All LockFrame fs) × Settled g fs

-- The rules of the display, after `n` steps.
pub record Display (n : ℕ) (locked : Bool) (pending : Option ℕ) (p : LockPresentation)
    (flips : ℕ → List Frame) (screen : ℕ → Content) : Type 0 where
  pub guarded : is_some pending ≡ true → locked ≡ true
  pub bound : p.generation ≤ n
  pub tagged : (o : ℕ) → All (Tagged p.generation) (flips o)
  pub settled : locked ≡ true → (o : ℕ) → Settled p.generation (flips o)
  pub shown :
      locked ≡ true
      → (o : ℕ) → contains o p.presented ≡ true
      → ShowsLock (screen o) × All LockFrame (flips o)

All-map {ℓ κ μ} :
    {A : Type ℓ} (P : A → Type κ) (Q : A → Type μ) (xs : List A)
    → ((x : A) → P x → Q x)
    → All P xs
    → All Q xs
All-map P Q [] f h = tt
All-map P Q (x ∷ xs) f h = (f x h.0, All-map P Q xs f h.1)

Settled-later : (g g' : ℕ) (fs : List Frame) → g < g' → All (Tagged g) fs → Settled g' fs
Settled-later g g' [] lt h = tt
Settled-later g g' (f ∷ fs) lt h =
    (λ e. absurd (omega (arith, (h.0 g' e).0)), Settled-later g g' fs lt h.1)

Settled-append :
    (g : ℕ) (fs : List Frame) (f : Frame) → LockFrame f → Settled g fs → Settled g (fs ++ f ∷ [])
Settled-append g [] f l h = (λ e. tt, tt)
Settled-append g (x ∷ xs) f l h =
    (λ e. All-append LockFrame xs (f ∷ []) (h.0 e) (l, tt), Settled-append g xs f l h.1)

module _ (n : ℕ) (flips : ℕ → List Frame) (screen : ℕ → Content) where
  pub Display-wait :
      (locked : Bool) (pending : Option ℕ) (p : LockPresentation)
      → Display n locked pending p flips screen
      → Display (suc n) locked pending p flips screen
  Display-wait locked pending p d = record {
    guarded = d.guarded;
    bound = omega (arith, d.bound);
    tagged = d.tagged;
    settled = d.settled;
    shown = d.shown;
  }

  pub Display-drop :
      (locked : Bool) (pending : Option ℕ) (p : LockPresentation)
      → Display n locked pending p flips screen
      → Display n locked none p flips screen
  Display-drop locked pending p d = record {
    guarded = λ e. cc;
    bound = d.bound;
    tagged = d.tagged;
    settled = d.settled;
    shown = d.shown;
  }

  pub Display-unlock :
      (locked : Bool) (pending : Option ℕ) (p : LockPresentation)
      → Display n locked pending p flips screen
      → Display n false none p flips screen
  Display-unlock locked pending p d = record {
    guarded = λ e. cc;
    bound = d.bound;
    tagged = d.tagged;
    settled = λ e. cc;
    shown = λ e. cc;
  }

  pub Display-reset :
      (locked : Bool) (pending pending' : Option ℕ) (p : LockPresentation)
      → n + 1 < word64
      → Display n locked pending p flips screen
      → Display (suc n) true pending' (reset p) flips screen
  unfolding contains
  Display-reset locked pending pending' p h d =
      let next : (p.generation + 1) % word64 ≡ p.generation + 1 = omega (arith, d.bound) in
      record {
        guarded = λ e. refl;
        bound = omega (arith, d.bound, next);
        tagged = λ o.
            All-map (Tagged p.generation) (Tagged ((p.generation + 1) % word64)) (flips o)
              (λ f t k e. (omega (arith, (t k e).0, next), (t k e).1)) (d.tagged o);
        settled = λ e o.
            Settled-later p.generation ((p.generation + 1) % word64) (flips o) (omega (arith, next))
              (d.tagged o);
        shown = λ e o c. cc;
      }

-- What holds of each output still does after a change at one.
set_at_each {ℓ κ} :
    {A : Type ℓ} (P : ℕ → A → Type κ) (f : ℕ → A) (i : ℕ) (x : A)
    → ((j : ℕ) → P j (f j))
    → P i x
    → (j : ℕ) → P j (set_at f i x j)
set_at_each P f i x h hx j = elim (Bool-cases (i == j)) [
  | inl e ↦ rw e (subst (λ k. P k x) ((==_iff i j).0 e) hx)
  | inr e ↦ rw e (h j)
]

All-tail {ℓ κ} : {A : Type ℓ} (P : A → Type κ) (xs : List A) → All P xs → All P (tail xs)
All-tail P [] h = tt
All-tail P (x ∷ xs) h = h.1

Settled-tail : (g : ℕ) (fs : List Frame) → Settled g fs → Settled g (tail fs)
Settled-tail g [] h = tt
Settled-tail g (f ∷ fs) h = h.1

module _ (n : ℕ) (locked : Bool) (pending : Option ℕ) (p : LockPresentation)
    (flips : ℕ → List Frame) (screen : ℕ → Content) where
  pub Display-queue :
      (o : ℕ) (f : Frame)
      → (locked ≡ true → LockFrame f)
      → Tagged p.generation f
      → Display n locked pending p flips screen
      → Display n locked pending p (set_at flips o (flips o ++ f ∷ [])) screen
  Display-queue o f l t d = record {
    guarded = d.guarded;
    bound = d.bound;
    tagged =
        set_at_each (λ _. All (Tagged p.generation)) flips o (flips o ++ f ∷ []) d.tagged
          (All-append (Tagged p.generation) (flips o) (f ∷ []) (d.tagged o) (t, tt));
    settled = λ e.
        set_at_each (λ _. Settled p.generation) flips o (flips o ++ f ∷ []) (d.settled e)
          (Settled-append p.generation (flips o) f (l e) (d.settled e o));
    shown = λ e.
        set_at_each
          (λ i fs. contains i p.presented ≡ true → ShowsLock (screen i) × All LockFrame fs) flips o
          (flips o ++ f ∷ []) (d.shown e)
          (λ c.
            let (now, next) = d.shown e o c in
            (now, All-append LockFrame (flips o) (f ∷ []) next (l e, tt)));
  }

  pub Display-lose :
      (o : ℕ)
      → Display n locked pending p flips screen
      → Display n locked pending p (set_at flips o (tail (flips o))) screen
  Display-lose o d = record {
    guarded = d.guarded;
    bound = d.bound;
    tagged =
        set_at_each (λ _. All (Tagged p.generation)) flips o (tail (flips o)) d.tagged
          (All-tail (Tagged p.generation) (flips o) (d.tagged o));
    settled = λ e.
        set_at_each (λ _. Settled p.generation) flips o (tail (flips o)) (d.settled e)
          (Settled-tail p.generation (flips o) (d.settled e o));
    shown = λ e.
        set_at_each
          (λ i fs. contains i p.presented ≡ true → ShowsLock (screen i) × All LockFrame fs) flips o
          (tail (flips o)) (d.shown e)
          (λ c. let (now, next) = d.shown e o c in (now, All-tail LockFrame (flips o) next));
  }

  -- The frame `f` comes on the screen of `o`; the receipt is the output's, for the generation of the
  -- frame.
  pub Display-flip :
      (o : ℕ) (f : Frame) (fs : List Frame) (q : LockPresentation)
      → flips o ≡ f ∷ fs
      → q.generation ≡ p.generation
      → ((j : ℕ)
          → contains j q.presented ≡ true
          → (contains j p.presented ≡ true) ⊎ ((j ≡ o) × (f.lock_generation ≡ some p.generation)))
      → Display n locked pending p flips screen
      → Display n locked pending q (set_at flips o fs) (set_at screen o f.content)
  Display-flip o f fs q e same more d =
      let tags : All (Tagged p.generation) (f ∷ fs) =
        subst (λ xs. All (Tagged p.generation) xs) e (d.tagged o) in
      record {
        guarded = d.guarded;
        bound = rw same d.bound;
        tagged = rw same (set_at_each (λ _. All (Tagged p.generation)) flips o fs d.tagged tags.1);
        settled = λ l. rw same (
            set_at_each (λ _. Settled p.generation) flips o fs (d.settled l)
              (subst (λ xs. Settled p.generation xs) e (d.settled l o)).1);
        shown = λ l j c.
            let frames : All LockFrame (f ∷ fs) → ShowsLock f.content × All LockFrame fs = λ h. h in
            let at_output : (j ≡ o) → ShowsLock f.content × All LockFrame fs = λ here.
              elim (more j c) [
                | inl old ↦
                    frames (subst (λ xs. All LockFrame xs) e (d.shown l o (rw here at old)).1)
                | inr (here', tag) ↦ (
                  (tags.0 p.generation tag).1,
                  (subst (λ xs. Settled p.generation xs) e (d.settled l o)).0 tag,
                )
              ] in
            elim (Bool-cases (o == j)) [
              | inl is ↦ rw is (at_output (sym ((==_iff o j).0 is)))
              | inr other ↦ rw other (elim (more j c) [
                | inl old ↦ d.shown l j old
                | inr (here, tag) ↦ absurd (ground arith)
              ])
            ];
      }
