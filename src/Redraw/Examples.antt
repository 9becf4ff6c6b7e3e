-- ===== src/Redraw/Examples.antt =====
-- Runs of the repaint loop of src/udev.rs.
use minde.Base.{◌≤◌, ◌≡◌, ◌≢◌, refl, [], ◌∷◌, none, some, true, false, arith}
use minde.Calloop.Table.{Table, without, table_loop}
use minde.Redraw.{
  idle, waiting_for_vblank, waiting_for_timer, OutputSurface, Head, frame_queued, render_failed,
  cancel, follow_up, render_surface_now, render_now, vblank, frame_finish, schedule_redraw_where,
  vblank_watchdog_fired, watchdog_of, redraw_timer_fired, timer_of, power_on,
}
use minde.Redraw.Rules.{Good}
use minde.Redraw.Runs.{here, later, damages, powers_on, Reach-Good}
use minde.Redraw.Stuck.{timer_fires, vblank_comes, callback_runs, happen_all, late_vblank-forgets}

abbrev dark : Head
dark = record { enabled = true; paused = false; surface = none; idles = 0 }

-- Powered on, a frame is queued, and its vblank is waited for under the token 1.
abbrev lit : Head × Table
lit = power_on table_loop frame_queued dark (1, 0 ∷ [])

lit_waits :
    lit.0.surface
    ≡ some (record { dirty = false; redraw = waiting_for_vblank 1; flip_generation = 1 })
unfolding power_on render_now render_surface_now follow_up cancel
lit_waits = refl

-- The flip is lost: the watchdog renders again, and that fails.
abbrev retried : Head × Table
retried = vblank_watchdog_fired table_loop render_failed 1 lit.0 lit.1

retried_waits :
    retried.0.surface
    ≡ some (record { dirty = true; redraw = waiting_for_timer 2; flip_generation = 1 })
unfolding power_on render_now render_surface_now follow_up cancel vblank_watchdog_fired watchdog_of
retried_waits = refl

-- The vblank comes late, and the timer fires: the output is dirty, and nothing is due.
abbrev late : Head × Table
late = frame_finish table_loop (some 1) frame_queued retried.0 retried.1

abbrev fired : Head × Table
fired = redraw_timer_fired table_loop frame_queued 2 late.0 late.1

fired_stuck : fired.0 ≡ record {
  enabled = true;
  paused = false;
  surface = some (record { dirty = true; redraw = idle; flip_generation = 1 });
  idles = 0;
}
unfolding power_on render_now render_surface_now follow_up cancel vblank_watchdog_fired watchdog_of
    frame_finish vblank redraw_timer_fired timer_of
fired_stuck = refl

fired_sources : fired.1.1 ≡ 0 ∷ []
unfolding power_on render_now render_surface_now follow_up cancel vblank_watchdog_fired watchdog_of
    frame_finish vblank redraw_timer_fired timer_of without
fired_sources = refl

always_inserts : (src : Table) → table_loop.insert_source src ≢ none
always_inserts src e = absurd (ground arith)

Reach-Good_example :
    Good table_loop (λ t. t ≤ 0) (schedule_redraw_where table_loop true lit.0, lit.1)
Reach-Good_example =
    Reach-Good table_loop (λ t. t ≤ 0) always_inserts dark (1, 0 ∷ [])
      (schedule_redraw_where table_loop true lit.0, lit.1) refl (λ u l. ground arith)
      (later (later here (powers_on frame_queued refl)) (damages true refl))

abbrev failed : OutputSurface
failed = record { dirty = true; redraw = waiting_for_timer 2; flip_generation = 1 }

-- The late vblank, the timer that was waited for, and another vblank.
late_vblank-forgets_example :
    (happen_all table_loop
      (timer_fires frame_queued 2
        ∷ vblank_comes none frame_queued
        ∷ callback_runs frame_queued
        ∷ [])
      (frame_finish table_loop (some 1) frame_queued retried.0 retried.1)).0.surface
    ≡ some (record failed { redraw = idle })
late_vblank-forgets_example =
    late_vblank-forgets table_loop frame_queued retried.0 failed retried.1 2
      (timer_fires frame_queued 2
        ∷ vblank_comes none frame_queued
        ∷ callback_runs frame_queued
        ∷ [])
      retried_waits refl
