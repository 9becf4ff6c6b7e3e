-- ===== src/Lock/Surfaces.antt =====
-- src/handlers/session_lock.rs: the focus while the session is locked.
use minde.Base.{
  ℕ, ◌≡◌, ◌≢◌, refl, sym, ap, ◌∙◌, ◌⊎◌, inl, inr, List, [], ◌∷◌, Option, none, some, Bool, true,
  false, ◌&&◌, ◌==◌, ==_iff, Bool-cases, Option-cases, arith,
}
use minde.Lock.{same, Clients, is_alive, Keyboard, Session}
use minde.Lock.Focus.{surface_listed, valid, find_valid, chosen, enforce_lock_focus}

-- An alive lock surface of the list.
abbrev pub Listed : Clients → List (ℕ × ℕ) → ℕ → Type 0
Listed c [] x = ⊥
Listed c ((o, lock) ∷ rest) x = ((lock ≡ x) × (c.surface_alive x ≡ true)) ⊎ Listed c rest x

-- An alive lock surface of the live owner's client.
abbrev pub Belongs : Clients → Session → ℕ → Type 0
Belongs c s x =
    (owner : ℕ) × (s.session_lock.owner ≡ some owner)
    × (is_alive c owner ≡ true)
    × (c.client owner ≡ c.surface_client x)
    × Listed c s.lock_surfaces x

surface_listed-Listed :
    (c : Clients) (ss : List (ℕ × ℕ)) (x : ℕ) → surface_listed c ss x ≡ true → Listed c ss x
unfolding surface_listed
surface_listed-Listed c [] x e = absurd (ground arith)
surface_listed-Listed c ((o, lock) ∷ rest) x e =
    elim (Bool-cases (c.surface_alive lock && lock == x)) [
      | inl is ↦
          let it : lock ≡ x = ground arith in
          let alive : c.surface_alive lock ≡ true = ground arith in
          inl (it, ap c.surface_alive (sym it) ∙ alive)
      | inr other ↦ inr (surface_listed-Listed c rest x (rw other at e))
    ]

Listed-surface_listed :
    (c : Clients) (ss : List (ℕ × ℕ)) (x : ℕ) → Listed c ss x → surface_listed c ss x ≡ true
unfolding surface_listed
Listed-surface_listed c [] x l = elim l [ ]
Listed-surface_listed c ((o, lock) ∷ rest) x (inl (it, alive)) =
    let alive' : c.surface_alive lock ≡ true = ap c.surface_alive it ∙ alive in
    let is : (lock == x) ≡ true = ground arith in ground arith
Listed-surface_listed c ((o, lock) ∷ rest) x (inr l) =
    let later : surface_listed c rest x ≡ true = Listed-surface_listed c rest x l in ground arith

same→eq : (a b : Option ℕ) → same a b ≡ true → a ≡ b
same→eq none none e = refl
same→eq none (some y) e = absurd (ground arith)
same→eq (some x) none e = absurd (ground arith)
same→eq (some x) (some y) e = ap some ((==_iff x y).0 e)

same_refl : (a : Option ℕ) → same a a ≡ true
same_refl none = refl
same_refl (some x) = ground arith

valid-Belongs : (c : Clients) (s : Session) (x : ℕ) → valid c s x ≡ true → Belongs c s x
unfolding valid
valid-Belongs c s x e = elim (Option-cases s.session_lock.owner) [
  | inl f ↦ absurd (let no_owner : false ≡ true = rw (f, valid) at e in ground arith)
  | inr (owner, f) ↦
      let v : ((is_alive c owner && same (c.client owner) (c.surface_client x))
            && surface_listed c s.lock_surfaces x)
          ≡ true =
        rw (f, valid) at e in
      (
        owner,
        f,
        ground arith,
        same→eq (c.client owner) (c.surface_client x) (ground arith),
        surface_listed-Listed c s.lock_surfaces x (ground arith),
      )
]

Belongs-valid : (c : Clients) (s : Session) (x : ℕ) → Belongs c s x → valid c s x ≡ true
unfolding valid
Belongs-valid c s x (owner, f, alive, client, l) =
    rw
      (
        f,
        valid,
        alive,
        client,
        same_refl (c.surface_client x),
        Listed-surface_listed c s.lock_surfaces x l,
      )
      refl

true-false : {b : Bool} → b ≡ true → b ≡ false → ⊥
true-false t f = absurd (ground arith)

find-valid :
    (c : Clients) (s : Session) (ss : List (ℕ × ℕ)) (x : ℕ)
    → find_valid c s ss ≡ some x
    → valid c s x ≡ true
unfolding find_valid
find-valid c s [] x e = absurd (ground arith)
find-valid c s ((o, lock) ∷ rest) x e = elim (Bool-cases (valid c s lock)) [
  | inl v ↦
      let here : some lock ≡ some x = rw (v, find_valid) at e in let it : lock ≡ x = cc in rw⁻¹ it v
  | inr v ↦ find-valid c s rest x (rw (v, find_valid) at e)
]

find-none :
    (c : Clients) (s : Session) (ss : List (ℕ × ℕ)) (x : ℕ)
    → find_valid c s ss ≡ none
    → Listed c ss x
    → valid c s x ≡ false
unfolding find_valid
find-none c s [] x e l = elim l [ ]
find-none c s ((o, lock) ∷ rest) x e l = elim (Bool-cases (valid c s lock)) [
  | inl v ↦ absurd (let found : some lock ≡ none = rw (v, find_valid) at e in ground arith)
  | inr v ↦ elim l [
    | inl (it, alive) ↦ rw⁻¹ it v
    | inr l' ↦ find-none c s rest x (rw (v, find_valid) at e) l'
  ]
]

-- What the keyboard's focus is afterwards.
pub record Enforced (c : Clients) (s : Session) (old new : Option ℕ) : Type 0 where
  pub only : (x : ℕ) → new ≡ some x → Belongs c s x
  pub stays : (x : ℕ) → old ≡ some x → Belongs c s x → new ≡ old
  pub found : (x : ℕ) → Belongs c s x → new ≢ none

found-Enforced :
    (c : Clients) (s : Session) (old : Option ℕ)
    → ((x : ℕ) → old ≡ some x → valid c s x ≡ false)
    → Enforced c s old (find_valid c s s.lock_surfaces)
found-Enforced c s old h = record {
  only = λ x e. valid-Belongs c s x (find-valid c s s.lock_surfaces x e);
  stays = λ x e b. absurd (true-false (Belongs-valid c s x b) (h x e));
  found = λ x b e.
      let (owner, f, alive, client, l) = b in
      true-false (Belongs-valid c s x b) (find-none c s s.lock_surfaces x e l);
}

chosen-Enforced : (c : Clients) (s : Session) (old : Option ℕ) → Enforced c s old (chosen c s old)
unfolding chosen
chosen-Enforced c s none = found-Enforced c s none (λ x e. absurd (ground arith))
chosen-Enforced c s (some y) = elim (Bool-cases (valid c s y)) [
  | inl v ↦
      rw (v, chosen)
        (record {
          only = λ x e. let it : y ≡ x = cc in valid-Belongs c s x (rw⁻¹ it v);
          stays = λ x e b. refl;
          found = λ x b e. ground arith;
        })
  | inr v ↦ rw (v, chosen) (found-Enforced c s (some y) (λ x e. let it : y ≡ x = cc in rw⁻¹ it v))
]

-- While the session is locked, the keyboard's grab is dropped and its focus is an alive lock surface
-- of the live owner's client or none; a focus that is such a surface stays, and there is a focus
-- whenever there is such a surface.
pub enforce_lock_focus-Enforced :
    (c : Clients) (s : Session) (k : Keyboard)
    → s.locked ≡ true
    → s.keyboard ≡ some k
    → (k' : Keyboard) × ((enforce_lock_focus c s).keyboard ≡ some k')
      × (k'.grabbed ≡ false)
      × Enforced c s k.focus k'.focus
unfolding enforce_lock_focus
enforce_lock_focus-Enforced c s k l e = (
  record { focus = chosen c s k.focus; grabbed = false },
  ground arith,
  refl,
  chosen-Enforced c s k.focus,
)
