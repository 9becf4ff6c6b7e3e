-- ===== src/Redraw/Rules.antt =====
-- src/udev.rs: what the repaint loop keeps, through a render.
use minde.Base.{ℕ, ◌<◌, ◌≡◌, ◌≢◌, refl, ◌⊎◌, inl, inr, Option, none, some, Bool, true, false, arith}
use minde.Calloop.{LoopHandle}
use minde.Redraw.{
  RedrawState, idle, scheduled, waiting_for_vblank, waiting_for_timer, OutputSurface, Head,
  Rendered, frame_queued, no_damage, render_failed, queue_failed, is_idle, is_scheduled, bump,
  cancel, wait_in, follow_up, render_surface_now, render_now,
}

-- The timer that the state waits for.
abbrev pub HeldBy : RedrawState → ℕ → Type 0
HeldBy idle u = ⊥
HeldBy scheduled u = ⊥
HeldBy (waiting_for_vblank t) u = u ≡ t
HeldBy (waiting_for_timer t) u = u ≡ t

abbrev pub Held : Option OutputSurface → ℕ → Type 0
Held none u = ⊥
Held (some s) u = HeldBy s.redraw u

-- Only an enabled head has a surface; unless the session is paused, a dirty surface waits for a
-- callback; and one that is scheduled has an idle callback due.
abbrev pub Awake : Bool → Bool → ℕ → Option OutputSurface → Type 0
Awake enabled paused idles none = Unit {0}
Awake enabled paused idles (some s) =
    (enabled ≡ true)
    × (paused ≡ false → s.dirty ≡ true → is_idle s.redraw ≡ false)
    × (is_scheduled s.redraw ≡ true → 0 < idles)

abbrev pub Driven : Bool → Option OutputSurface → Type 0
Driven enabled none = Unit {0}
Driven enabled (some s) = enabled ≡ true

module _ (loop : LoopHandle) (Base : ℕ → Type 0) where
  open loop use {Sources, Live, insert_source, remove, insert_live, remove_live}

  -- Every registered source is another's, or the timer that the head waits for.
  abbrev pub Owned : Option OutputSurface → Sources → Type 0
  Owned o src = (u : ℕ) → Live src u → Base u ⊎ Held o u

  pub record Good (x : Head × Sources) : Type 0 where
    pub awake : Awake x.0.enabled x.0.paused x.0.idles x.0.surface
    pub owned : Owned x.0.surface x.1

  pub record Armed (r : OutputSurface × Sources) : Type 0 where
    pub not_idle : is_idle r.0.redraw ≡ false
    pub not_scheduled : is_scheduled r.0.redraw ≡ false
    pub owned : (u : ℕ) → Live r.1 u → Base u ⊎ HeldBy r.0.redraw u

  pub cancel_others :
      (r : RedrawState) (src : Sources)
      → ((u : ℕ) → Live src u → Base u ⊎ HeldBy r u)
      → (u : ℕ) → Live (cancel loop r src) u
      → Base u
  unfolding cancel
  cancel_others idle src h u l = elim (h u l) [ inl b ↦ b | inr x ↦ elim x [ ] ]
  cancel_others scheduled src h u l = elim (h u l) [ inl b ↦ b | inr x ↦ elim x [ ] ]
  cancel_others (waiting_for_vblank t) src h u l =
      let (l', n) = remove_live src t u l in elim (h u l') [ inl b ↦ b | inr x ↦ absurd (n x) ]
  cancel_others (waiting_for_timer t) src h u l =
      let (l', n) = remove_live src t u l in elim (h u l') [ inl b ↦ b | inr x ↦ absurd (n x) ]

  module _ (inserts : (src : Sources) → insert_source src ≢ none) where
    wait_in_vblank-Armed :
        (s : OutputSurface) (src : Sources) (x : Option (ℕ × Sources))
        → insert_source src ≡ x
        → ((u : ℕ) → Live src u → Base u)
        → Armed (wait_in loop waiting_for_vblank s x src)
    wait_in_vblank-Armed s src none e h = absurd (inserts src e)
    wait_in_vblank-Armed s src (some (t, src')) e h = record {
      not_idle = refl;
      not_scheduled = refl;
      owned =
          λ u l. elim (insert_live src src' t u e l) [ inl it ↦ inr it | inr l' ↦ inl (h u l') ];
    }

    wait_in_timer-Armed :
        (s : OutputSurface) (src : Sources) (x : Option (ℕ × Sources))
        → insert_source src ≡ x
        → ((u : ℕ) → Live src u → Base u)
        → Armed (wait_in loop waiting_for_timer s x src)
    wait_in_timer-Armed s src none e h = absurd (inserts src e)
    wait_in_timer-Armed s src (some (t, src')) e h = record {
      not_idle = refl;
      not_scheduled = refl;
      owned =
          λ u l. elim (insert_live src src' t u e l) [ inl it ↦ inr it | inr l' ↦ inl (h u l') ];
    }

    follow_up-Armed :
        (rendered : Rendered) (s : OutputSurface) (src : Sources)
        → ((u : ℕ) → Live src u → Base u)
        → Armed (follow_up loop rendered s src)
    unfolding follow_up
    follow_up-Armed frame_queued s src h =
        wait_in_vblank-Armed (bump s) src (insert_source src) refl h
    follow_up-Armed no_damage s src h = wait_in_timer-Armed s src (insert_source src) refl h
    follow_up-Armed render_failed s src h =
        wait_in_timer-Armed (record s { dirty = true }) src (insert_source src) refl h
    follow_up-Armed queue_failed s src h =
        wait_in_timer-Armed (record (bump s) { dirty = true }) src (insert_source src) refl h

    -- After a render the loop waits for its vblank or its timer, whatever it waited for before.
    pub render_now-Good :
        (rendered : Rendered) (enabled paused : Bool) (idles : ℕ) (o : Option OutputSurface)
        (src : Sources)
        → Driven enabled o
        → Owned o src
        → Good (
            render_now loop rendered
              (record { enabled = enabled; paused = paused; surface = o; idles = idles })
              src)
    unfolding render_now render_surface_now
    render_now-Good rendered enabled paused idles none src d h = record { awake = tt; owned = h }
    render_now-Good rendered false paused idles (some s) src d h = absurd (ground arith)
    render_now-Good rendered true paused idles (some s) src d h =
        let a =
          follow_up-Armed rendered (record s { dirty = false; redraw = idle })
            (cancel loop s.redraw src) (cancel_others s.redraw src h) in
        record {
          awake = (refl, λ p e. a.not_idle, λ e. absurd (ground (arith, a.not_scheduled)));
          owned = a.owned;
        }
