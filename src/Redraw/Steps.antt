-- ===== src/Redraw/Steps.antt =====
-- src/udev.rs: each event of the repaint loop, and runs of them.
use minde.Base.{
  ℕ, ◌+◌, ◌-◌, ◌≡◌, ◌≢◌, refl, sym, ap, subst, ◌⊎◌, inl, inr, Option, none, some, Bool, true, false,
  not, ◌&&◌, if◌then◌else◌, Bool-cases, arith,
}
use minde.Calloop.{LoopHandle}
use minde.Redraw.{
  RedrawState, idle, scheduled, waiting_for_vblank, waiting_for_timer, OutputSurface, Head,
  Rendered, is_idle, is_scheduled, completed, vblank, is_stale, frame_finish, schedule_redraw_where,
  idle_callback, watchdog_of, vblank_watchdog_fired, timer_of, redraw_timer_fired,
  handle_repaint_now,
}
use minde.Redraw.Rules.{HeldBy, Driven, Owned, Good, render_now-Good}

-- The vblank is of an abandoned flip, or the loop waits for it.
abbrev pub Accounted : Option ℕ → Option OutputSurface → Type 0
Accounted submitted none = Unit {0}
Accounted submitted (some s) =
    (is_stale submitted s ≡ true) ⊎ ((watchdog : ℕ) × (s.redraw ≡ waiting_for_vblank watchdog))

abbrev pub WaitsFor : RedrawState → Option OutputSurface → Type 0
WaitsFor state none = Unit {0}
WaitsFor state (some s) = s.redraw ≡ state

idle_holds : (r : RedrawState) (u : ℕ) → is_idle r ≡ true → HeldBy r u → ⊥
idle_holds idle u e x = x
idle_holds scheduled u e x = x
idle_holds (waiting_for_vblank t) u e x = absurd (ground arith)
idle_holds (waiting_for_timer t) u e x = absurd (ground arith)

module _ (loop : LoopHandle) (Base : ℕ → Type 0)
    (inserts : (src : loop.Sources) → loop.insert_source src ≢ none) where
  open loop use {Sources, Live, remove, remove_live}

  abbrev G : Head × Sources → Type 0
  G x = Good loop Base x

  if-Good : (b : Bool) (x y : Head × Sources) → G x → (b ≡ false → G y) → G (if b then x else y)
  if-Good true x y h k = h
  if-Good false x y h k = k refl

  completed-Good :
      (rendered : Rendered) (paused : Bool) (idles : ℕ) (s : OutputSurface) (src : Sources)
      → ((u : ℕ) → Live src u → Base u)
      → G (
          completed loop rendered
            (record { enabled = true; paused = paused; surface = some s; idles = idles })
            s
            src)
  unfolding completed
  completed-Good rendered paused idles s src h =
      let o : Option OutputSurface = some (record s { redraw = idle }) in
      let h' : Head = record { enabled = true; paused = paused; surface = o; idles = idles } in
      elim (Bool-cases s.dirty) [
        | inl d ↦ rw d (
            render_now-Good loop Base inserts rendered true paused idles o src refl
              (λ u l. inl (h u l)))
        | inr c ↦ rw c (record {
          awake = (refl, λ p e. absurd (ground arith), λ e. absurd (ground arith));
          owned = λ u l. inl (h u l);
        })
      ]

  -- Without the timer that it held, everything registered is another's.
  removed :
      (r : RedrawState) (w : ℕ) (src : Sources)
      → r ≡ waiting_for_vblank w
      → ((u : ℕ) → Live src u → Base u ⊎ HeldBy r u)
      → (u : ℕ) → Live (remove w src) u
      → Base u
  removed r w src e h u l =
      let (l', n) = remove_live src w u l in
      elim (h u l') [ inl b ↦ b | inr x ↦ absurd (n (subst (λ q. HeldBy q u) e x)) ]

  pub frame_finish-Good :
      (submitted : Option ℕ) (rendered : Rendered) (enabled paused : Bool) (idles : ℕ)
      (o : Option OutputSurface) (src : Sources)
      → Accounted submitted o
      → let h : Head = record { enabled = enabled; paused = paused; surface = o; idles = idles } in
        G (h, src) → G (frame_finish loop submitted rendered h src)
  unfolding frame_finish vblank
  frame_finish-Good submitted rendered enabled paused idles none src a g = g
  frame_finish-Good submitted rendered enabled paused idles (some s) src (inl stale) g = rw stale g
  frame_finish-Good submitted rendered false paused idles (some s) src (inr w) g =
      absurd (ground (arith, g.awake.0))
  frame_finish-Good submitted rendered true paused idles (some s) src (inr (w, e)) g =
      let h : Head = record { enabled = true; paused = paused; surface = some s; idles = idles } in
      if-Good (is_stale submitted s) (h, src) (vblank loop rendered h s s.redraw src) g
        (λ _. subst G (sym (ap (λ r. vblank loop rendered h s r src) e)) (
          completed-Good rendered paused idles s (remove w src) (removed s.redraw w src e g.owned)))

  if-Head :
      (b : Bool) (x y : Head) (src : Sources)
      → (b ≡ true → G (x, src))
      → (b ≡ false → G (y, src))
      → G (if b then x else y, src)
  if-Head true x y src h k = h refl
  if-Head false x y src h k = k refl

  pub schedule-Good :
      (wanted enabled paused : Bool) (idles : ℕ) (o : Option OutputSurface) (src : Sources)
      → let h : Head = record { enabled = enabled; paused = paused; surface = o; idles = idles } in
        G (h, src) → G (schedule_redraw_where loop wanted h, src)
  unfolding schedule_redraw_where
  schedule-Good wanted enabled paused idles none src g = g
  schedule-Good wanted enabled paused idles (some s) src g =
      let h : Head = record {
        enabled = enabled;
        paused = paused;
        surface = some s;
        idles = idles;
      } in
      let marked : Head = record h { surface = some (record s { dirty = true }) } in
      let queued : Head = record h {
        surface = some (record s { dirty = true; redraw = scheduled });
        idles = idles + 1;
      } in
      if-Head wanted (if not paused && is_idle s.redraw then queued else marked) h src
        (λ _.
          if-Head (not paused && is_idle s.redraw) queued marked src
            (λ e. record {
              awake = (g.awake.0, λ p d. refl, λ f. omega arith);
              owned = λ u l. elim (g.owned u l) [
                | inl b ↦ inl b
                | inr x ↦ absurd (idle_holds s.redraw u (ground arith) x)
              ];
            })
            (λ e. record { awake = (g.awake.0, λ p d. ground arith, g.awake.2); owned = g.owned }))
        (λ _. g)

  pub idle-Good :
      (rendered : Rendered) (enabled paused : Bool) (idles : ℕ) (o : Option OutputSurface)
      (src : Sources)
      → let h : Head = record { enabled = enabled; paused = paused; surface = o; idles = idles } in
        G (h, src) → G (idle_callback loop rendered h src)
  unfolding idle_callback
  idle-Good rendered enabled paused idles none src g = record { awake = tt; owned = g.owned }
  idle-Good rendered enabled paused idles (some s) src g =
      elim (Bool-cases (is_scheduled s.redraw)) [
        | inl e ↦ rw e (
            render_now-Good loop Base inserts rendered enabled paused (idles - 1) (some s) src
              g.awake.0 g.owned)
        | inr e ↦
            rw e (record {
              awake = (g.awake.0, g.awake.1, λ f. absurd (ground arith));
              owned = g.owned;
            })
      ]

  -- The source `own` is dropped, and nothing else is left but what the head waits for.
  dropped :
      (own : ℕ) (x : Head × Sources)
      → Good loop (λ u. Base u ⊎ (u ≡ own)) x
      → G (x.0, remove own x.1)
  dropped own x g = record {
    awake = g.awake;
    owned = λ u l.
        let (l', n) = remove_live x.1 own u l in
        elim (g.owned u l') [
          | inl (inl b) ↦ inl b
          | inl (inr it) ↦ absurd (n it)
          | inr held ↦ inr held
        ];
  }

  timers :
      (own : ℕ) (s : OutputSurface) (state : RedrawState) (src : Sources)
      → ((u : ℕ) → HeldBy state u → u ≡ own)
      → s.redraw ≡ state
      → ((u : ℕ) → Live src u → Base u ⊎ HeldBy s.redraw u)
      → (u : ℕ) → Live src u
      → Base u ⊎ (u ≡ own)
  timers own s state src f e h u l = elim (h u l) [
    | inl b ↦ inl b
    | inr x ↦ inr (f u (subst (λ q. HeldBy q u) e x))
  ]

module _ (loop : LoopHandle) (Base : ℕ → Type 0)
    (inserts : (src : loop.Sources) → loop.insert_source src ≢ none) where
  open loop use {Sources, Live, remove, remove_live}

  pub watchdog-Good :
      (rendered : Rendered) (own : ℕ) (enabled paused : Bool) (idles : ℕ) (o : Option OutputSurface)
      (src : Sources)
      → WaitsFor (waiting_for_vblank own) o
      → let h : Head = record { enabled = enabled; paused = paused; surface = o; idles = idles } in
        Good loop Base (h, src) → Good loop Base (vblank_watchdog_fired loop rendered own h src)
  unfolding vblank_watchdog_fired watchdog_of
  watchdog-Good rendered own enabled paused idles none src w g = record {
    awake = tt;
    owned = λ u l. g.owned u (remove_live src own u l).0;
  }
  watchdog-Good rendered own enabled paused idles (some s) src w g =
      let h : Head = record {
        enabled = enabled;
        paused = paused;
        surface = some s;
        idles = idles;
      } in
      let B : ℕ → Type 0 = λ u. Base u ⊎ (u ≡ own) in
      let own_timers =
        timers loop Base inserts own s (waiting_for_vblank own) src (λ u x. x) w g.owned in
      dropped loop Base inserts own (watchdog_of loop rendered h s s.redraw src) (
        subst (λ r. Good loop B (watchdog_of loop rendered h s r src)) (sym w)
          (render_now-Good loop B inserts rendered enabled paused idles
            (some (record s { dirty = true; redraw = idle })) src g.awake.0
            (λ u l. inl (own_timers u l))))

  pub timer-Good :
      (rendered : Rendered) (own : ℕ) (enabled paused : Bool) (idles : ℕ) (o : Option OutputSurface)
      (src : Sources)
      → WaitsFor (waiting_for_timer own) o
      → let h : Head = record { enabled = enabled; paused = paused; surface = o; idles = idles } in
        Good loop Base (h, src) → Good loop Base (redraw_timer_fired loop rendered own h src)
  unfolding redraw_timer_fired timer_of
  timer-Good rendered own enabled paused idles none src w g = record {
    awake = tt;
    owned = λ u l. g.owned u (remove_live src own u l).0;
  }
  timer-Good rendered own false paused idles (some s) src w g = absurd (ground (arith, g.awake.0))
  timer-Good rendered own true paused idles (some s) src w g =
      let h : Head = record { enabled = true; paused = paused; surface = some s; idles = idles } in
      let B : ℕ → Type 0 = λ u. Base u ⊎ (u ≡ own) in
      let own_timers =
        timers loop Base inserts own s (waiting_for_timer own) src (λ u x. x) w g.owned in
      dropped loop Base inserts own (timer_of loop rendered h s s.redraw src) (
        subst (λ r. Good loop B (timer_of loop rendered h s r src)) (sym w)
          (completed-Good loop B inserts rendered paused idles s src own_timers))

  pub repaint-Good :
      (rendered : Rendered) (enabled paused : Bool) (idles : ℕ) (o : Option OutputSurface)
      (src : Sources)
      → Driven enabled o
      → Owned loop Base o src
      → Good loop Base (
          handle_repaint_now loop rendered
            (record { enabled = enabled; paused = paused; surface = o; idles = idles })
            src)
  unfolding handle_repaint_now
  repaint-Good rendered enabled paused idles none src d h = record { awake = tt; owned = h }
  repaint-Good rendered enabled paused idles (some s) src d h =
      render_now-Good loop Base inserts rendered enabled paused idles
        (some (record s { dirty = true })) src d h
