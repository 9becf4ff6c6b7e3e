-- ===== src/Redraw/Stuck.antt =====
-- src/udev.rs: the vblank of a flip that the watchdog gave up on, when nothing newer was queued.
use minde.Base.{ℕ, ◌≡◌, refl, sym, ap, subst, List, [], ◌∷◌, Option, some, false, if-both, arith}
use minde.Calloop.{LoopHandle}
use minde.Redraw.{
  idle, waiting_for_timer, OutputSurface, Head, Rendered, vblank, is_stale, frame_finish,
  idle_callback, vblank_watchdog_fired, redraw_timer_fired, pause_session, park_redraw, watchdog_of,
  timer_of,
}

-- What happens to an output of itself: no damage, no request to repaint, no change of its power and no
-- resumption of its session.
pub data Unprompted : Type 0 where
  vblank_comes : Option ℕ → Rendered → Unprompted
  callback_runs : Rendered → Unprompted
  watchdog_fires timer_fires : Rendered → ℕ → Unprompted
  session_pauses : Unprompted

newest_not_stale : (s : OutputSurface) → is_stale (some s.flip_generation) s ≡ false
newest_not_stale s = ground arith

-- The surface with its loop at rest.
abbrev pub at_rest : OutputSurface → OutputSurface
at_rest s = record s { redraw = idle }

module _ (loop : LoopHandle) where
  open loop use {Sources}

  unfoldable pub happen : Unprompted → Head × Sources → Head × Sources
  happen (vblank_comes submitted rendered) (h, src) = frame_finish loop submitted rendered h src
  happen (callback_runs rendered) (h, src) = idle_callback loop rendered h src
  happen (watchdog_fires rendered own) (h, src) = vblank_watchdog_fired loop rendered own h src
  happen (timer_fires rendered own) (h, src) = redraw_timer_fired loop rendered own h src
  happen session_pauses (h, src) = pause_session loop h src

  unfoldable pub happen_all : List Unprompted → Head × Sources → Head × Sources
  unfolding happen
  happen_all [] x = x
  happen_all (event ∷ events) x = happen_all events (happen event x)

  -- A loop at rest does nothing of itself.
  rests :
      (event : Unprompted) (h : Head) (s : OutputSurface) (src : Sources)
      → (happen event (record h { surface = some (at_rest s) }, src)).0.surface ≡ some (at_rest s)
  unfolding happen frame_finish vblank idle_callback vblank_watchdog_fired watchdog_of
      redraw_timer_fired timer_of pause_session park_redraw
  rests (vblank_comes submitted rendered) h s src =
      let h' : Head = record h { surface = some (at_rest s) } in
      if-both (λ (x : Head × Sources). x.0.surface ≡ some (at_rest s))
        (is_stale submitted (at_rest s)) (h', src) (h', src) refl refl
  rests (callback_runs rendered) h s src = refl
  rests (watchdog_fires rendered own) h s src = refl
  rests (timer_fires rendered own) h s src = refl
  rests session_pauses h s src = refl

  stays_at_rest :
      (events : List Unprompted) (h : Head) (s : OutputSurface) (src : Sources)
      → h.surface ≡ some (at_rest s)
      → (happen_all events (h, src)).0.surface ≡ some (at_rest s)
  unfolding happen_all
  stays_at_rest [] h s src e = e
  stays_at_rest (event ∷ events) h s src e =
      let x = happen event (h, src) in
      stays_at_rest events x.0 s x.1 (
        subst (λ o. (happen event (record h { surface = o }, src)).0.surface ≡ some (at_rest s))
          (sym e) (rests event h s src))

  forgets :
      (rendered : Rendered) (h : Head) (s : OutputSurface) (src : Sources) (t : ℕ)
      → s.redraw ≡ waiting_for_timer t
      → (frame_finish loop
          (some s.flip_generation)
          rendered
          (record h { surface = some s })
          src).0.surface
        ≡ some (at_rest s)
  unfolding frame_finish vblank
  forgets rendered h s src t e =
      let h' : Head = record h { surface = some s } in
      rw (newest_not_stale s, frame_finish)
        (ap (λ r. (vblank loop rendered h' s r src).0.surface) e)

  -- If the vblank of the newest flip comes while the output waits for its rate-limit timer, its surface
  -- is never rendered again of itself: after any further vblanks, idle callbacks, watchdogs, timers
  -- (also the one that was waited for) and pauses of the session the surface is as dirty as it was, with
  -- the same flip generation and nothing that it waits for.
  pub late_vblank-forgets :
      (rendered : Rendered) (h : Head) (s : OutputSurface) (src : Sources) (t : ℕ)
      (events : List Unprompted)
      → h.surface ≡ some s
      → s.redraw ≡ waiting_for_timer t
      → (happen_all events (frame_finish loop (some s.flip_generation) rendered h src)).0.surface
        ≡ some (at_rest s)
  late_vblank-forgets rendered h s src t events at e =
      let x = frame_finish loop (some s.flip_generation) rendered h src in
      stays_at_rest events x.0 s x.1 (
        subst
          (λ o.
            (frame_finish loop (some s.flip_generation) rendered (record h { surface = o })
              src).0.surface
            ≡ some (at_rest s))
          (sym at) (forgets rendered h s src t e))
