-- ===== src/Redraw/Runs.antt =====
-- src/udev.rs: runs of the repaint loop.
use minde.Base.{ℕ, ◌≡◌, ◌≢◌, refl, inl, inr, Option, none, some, Bool, true, false, arith}
use minde.Calloop.{LoopHandle}
use minde.Redraw.{
  waiting_for_vblank, waiting_for_timer, OutputSurface, new_surface, Head, Rendered, frame_finish,
  schedule_redraw_where, idle_callback, vblank_watchdog_fired, redraw_timer_fired, park_redraw,
  pause_session, activate_session, power_off, power_on,
}
use minde.Redraw.Rules.{Awake, Driven, Good, cancel_others, render_now-Good}
use minde.Redraw.Steps.{
  Accounted, WaitsFor, frame_finish-Good, schedule-Good, idle-Good, watchdog-Good, timer-Good,
  repaint-Good,
}

Awake-Driven : (e p : Bool) (i : ℕ) (o : Option OutputSurface) → Awake e p i o → Driven e o
Awake-Driven e p i none a = tt
Awake-Driven e p i (some s) a = a.0

module _ (loop : LoopHandle) (Base : ℕ → Type 0)
    (inserts : (src : loop.Sources) → loop.insert_source src ≢ none) where
  open loop use {Sources, Live}

  abbrev G : Head × Sources → Type 0
  G x = Good loop Base x

  pause-Good :
      (enabled paused : Bool) (idles : ℕ) (o : Option OutputSurface) (src : Sources)
      → let h : Head = record { enabled = enabled; paused = paused; surface = o; idles = idles } in
        G (h, src) → G (pause_session loop h src)
  unfolding pause_session park_redraw
  pause-Good enabled paused idles none src g = record { awake = tt; owned = g.owned }
  pause-Good enabled paused idles (some s) src g = record {
    awake = (g.awake.0, λ p d. absurd (ground arith), λ e. absurd (ground arith));
    owned = λ u l. inl (cancel_others loop Base s.redraw src g.owned u l);
  }

  activate-Good :
      (rendered : Rendered) (enabled paused : Bool) (idles : ℕ) (o : Option OutputSurface)
      (src : Sources)
      → let h : Head = record { enabled = enabled; paused = paused; surface = o; idles = idles } in
        G (h, src) → G (activate_session loop rendered h src)
  unfolding activate_session
  activate-Good rendered true paused idles o src g =
      repaint-Good loop Base inserts rendered true false idles o src
        (Awake-Driven true paused idles o g.awake) g.owned
  activate-Good rendered false paused idles none src g = record { awake = tt; owned = g.owned }
  activate-Good rendered false paused idles (some s) src g = absurd (ground (arith, g.awake.0))

  power_off-Good :
      (disable enabled paused : Bool) (idles : ℕ) (o : Option OutputSurface) (src : Sources)
      → let h : Head = record { enabled = enabled; paused = paused; surface = o; idles = idles } in
        G (h, src) → G (power_off loop disable h src)
  unfolding power_off park_redraw
  power_off-Good disable enabled paused idles none src g = record { awake = tt; owned = g.owned }
  power_off-Good disable enabled paused idles (some s) src g = record {
    awake = tt;
    owned = λ u l. inl (cancel_others loop Base s.redraw src g.owned u l);
  }

  power_on-Good :
      (rendered : Rendered) (enabled paused : Bool) (idles : ℕ) (o : Option OutputSurface)
      (src : Sources)
      → let h : Head = record { enabled = enabled; paused = paused; surface = o; idles = idles } in
        G (h, src) → G (power_on loop rendered h src)
  unfolding power_on
  power_on-Good rendered enabled paused idles (some s) src g = g
  power_on-Good rendered false paused idles none src g = g
  power_on-Good rendered true paused idles none src g =
      render_now-Good loop Base inserts rendered true paused idles (some new_surface) src refl
        (λ u l. elim (g.owned u l) [ inl b ↦ inl b | inr x ↦ elim x [ ] ])

  -- One event of the loop. A vblank is of an abandoned flip or the one that the loop waits for, and
  -- a timer that fires is the one that it waits for.
  pub data Step (a b : Head × Sources) : Type 0 where
    vblanks :
        (submitted : Option ℕ) (rendered : Rendered)
        → Accounted submitted a.0.surface
        → b ≡ frame_finish loop submitted rendered a.0 a.1
        → Step a b
    damages : (wanted : Bool) → b ≡ (schedule_redraw_where loop wanted a.0, a.1) → Step a b
    idles : (rendered : Rendered) → b ≡ idle_callback loop rendered a.0 a.1 → Step a b
    watchdog_fires :
        (rendered : Rendered) (own : ℕ)
        → WaitsFor (waiting_for_vblank own) a.0.surface
        → b ≡ vblank_watchdog_fired loop rendered own a.0 a.1
        → Step a b
    timer_fires :
        (rendered : Rendered) (own : ℕ)
        → WaitsFor (waiting_for_timer own) a.0.surface
        → b ≡ redraw_timer_fired loop rendered own a.0 a.1
        → Step a b
    pauses : b ≡ pause_session loop a.0 a.1 → Step a b
    activates : (rendered : Rendered) → b ≡ activate_session loop rendered a.0 a.1 → Step a b
    powers_off : (disable : Bool) → b ≡ power_off loop disable a.0 a.1 → Step a b
    powers_on : (rendered : Rendered) → b ≡ power_on loop rendered a.0 a.1 → Step a b

  pub data Reach (a : Head × Sources) : Head × Sources → Type 0 where
    here : Reach a a
    later : {b c : Head × Sources} → Reach a b → Step b c → Reach a c

  Step-Good : (a b : Head × Sources) → Step a b → G a → G b
  Step-Good (h, src) b (vblanks submitted rendered a e) g = rw e (
      frame_finish-Good loop Base inserts submitted rendered h.enabled h.paused h.idles h.surface
        src a g)
  Step-Good (h, src) b (damages wanted e) g =
      rw e (schedule-Good loop Base inserts wanted h.enabled h.paused h.idles h.surface src g)
  Step-Good (h, src) b (idles rendered e) g =
      rw e (idle-Good loop Base inserts rendered h.enabled h.paused h.idles h.surface src g)
  Step-Good (h, src) b (watchdog_fires rendered own w e) g =
      rw e
        (watchdog-Good loop Base inserts rendered own h.enabled h.paused h.idles h.surface src w g)
  Step-Good (h, src) b (timer_fires rendered own w e) g =
      rw e (timer-Good loop Base inserts rendered own h.enabled h.paused h.idles h.surface src w g)
  Step-Good (h, src) b (pauses e) g = rw e (pause-Good h.enabled h.paused h.idles h.surface src g)
  Step-Good (h, src) b (activates rendered e) g =
      rw e (activate-Good rendered h.enabled h.paused h.idles h.surface src g)
  Step-Good (h, src) b (powers_off disable e) g =
      rw e (power_off-Good disable h.enabled h.paused h.idles h.surface src g)
  Step-Good (h, src) b (powers_on rendered e) g =
      rw e (power_on-Good rendered h.enabled h.paused h.idles h.surface src g)

  -- As long as timers can be registered, after any events from a head without a surface, where a
  -- vblank is of an abandoned flip or the one that the loop waits for, and a timer the one that it
  -- waits for: a dirty
  -- output waits for an idle callback, a vblank (with its watchdog) or a timer, unless the session
  -- is paused; an output that is scheduled has an idle callback due; only an enabled head is driven;
  -- and the loop leaks no source: all that is registered was there before, or is the timer that the
  -- output waits for.
  pub Reach-Good :
      (h : Head) (src : Sources) (b : Head × Sources)
      → h.surface ≡ none
      → ((u : ℕ) → Live src u → Base u)
      → Reach (h, src) b
      → Good loop Base b
  Reach-Good h src b e base here = record { awake = rw e tt; owned = λ u l. inl (base u l) }
  Reach-Good h src b e base (later {b = c} r st) = Step-Good c b st (Reach-Good h src c e base r)
