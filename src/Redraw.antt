-- ===== src/Redraw.antt =====
-- src/udev.rs: the repaint loop of one output.
pub mod Rules
pub mod Steps
pub mod Runs
pub mod Stuck
mod Examples
use minde.Base.{
  ℕ, ◌+◌, ◌-◌, ◌%◌, Option, none, some, Bool, true, false, not, ◌&&◌, ◌==◌, if◌then◌else◌, word64,
}
use minde.Calloop.{LoopHandle}

pub data RedrawState : Type 0 where
  idle scheduled : RedrawState
  waiting_for_vblank waiting_for_timer : ℕ → RedrawState

pub record OutputSurface : Type 0 where
  pub dirty : Bool
  pub redraw : RedrawState
  pub flip_generation : ℕ

-- The surface that `init_surface` makes.
abbrev pub new_surface : OutputSurface
new_surface = record { dirty = true; redraw = idle; flip_generation = 0 }

-- The part of a head and of its backend that the loop reads, and how many of its idle callbacks
-- (`insert_idle`) are due.
pub record Head : Type 0 where
  pub enabled : Bool
  pub paused : Bool
  pub surface : Option OutputSurface
  pub idles : ℕ

-- What `render_surface` comes to: a frame is queued, there is no damage, rendering fails, or the
-- frame is rendered but cannot be queued.
pub data Rendered : Type 0 where
  frame_queued no_damage render_failed queue_failed : Rendered

abbrev pub is_idle : RedrawState → Bool
is_idle idle = true
is_idle _ = false

abbrev pub is_scheduled : RedrawState → Bool
is_scheduled scheduled = true
is_scheduled _ = false

abbrev pub bump : OutputSurface → OutputSurface
bump s = record s { flip_generation = (s.flip_generation + 1) % word64 }

-- The vblank of a flip that the watchdog gave up on.
abbrev pub is_stale : Option ℕ → OutputSurface → Bool
is_stale none s = false
is_stale (some generation) s = not (generation == s.flip_generation)

module _ (loop : LoopHandle) where
  open loop use {Sources, insert_source, remove}

  -- The timer that `park_redraw` cancels.
  unfoldable pub cancel : RedrawState → Sources → Sources
  cancel idle src = src
  cancel scheduled src = src
  cancel (waiting_for_vblank token) src = remove token src
  cancel (waiting_for_timer token) src = remove token src

  abbrev pub wait_in :
      (ℕ → RedrawState) → OutputSurface → Option (ℕ × Sources) → Sources → OutputSurface × Sources
  wait_in state s none src = (record s { redraw = idle }, src)
  wait_in state s (some (token, src')) src = (record s { redraw = state token }, src')

  -- After rendering: the follow-up is armed.
  unfoldable pub follow_up : Rendered → OutputSurface → Sources → OutputSurface × Sources
  follow_up frame_queued s src = wait_in waiting_for_vblank (bump s) (insert_source src) src
  follow_up no_damage s src = wait_in waiting_for_timer s (insert_source src) src
  follow_up render_failed s src =
      wait_in waiting_for_timer (record s { dirty = true }) (insert_source src) src
  follow_up queue_failed s src =
      wait_in waiting_for_timer (record (bump s) { dirty = true }) (insert_source src) src

  -- `render_now`, for a head that is enabled and has a surface.
  unfoldable pub render_surface_now : Rendered → OutputSurface → Sources → OutputSurface × Sources
  unfolding cancel follow_up
  render_surface_now rendered s src =
      follow_up rendered (record s { dirty = false; redraw = idle }) (cancel s.redraw src)

  abbrev pub put : Head → OutputSurface × Sources → Head × Sources
  put h (s, src) = (record h { surface = some s }, src)

  -- `render_now`.
  unfoldable pub render_now : Rendered → Head → Sources → Head × Sources
  unfolding render_surface_now
  render_now rendered h src = elim h.surface [
    | none ↦ (h, src)
    | some s ↦ if h.enabled then put h (render_surface_now rendered s src) else (h, src)
  ]

  -- The vblank that the loop waits for: repaint if anything changed.
  abbrev pub completed : Rendered → Head → OutputSurface → Sources → Head × Sources
  unfolding render_now
  completed rendered h s src =
      let h' : Head = record h { surface = some (record s { redraw = idle }) } in
      if s.dirty then render_now rendered h' src else (h', src)

  unfoldable pub vblank : Rendered → Head → OutputSurface → RedrawState → Sources → Head × Sources
  unfolding completed
  vblank rendered h s (waiting_for_vblank watchdog) src =
      completed rendered h s (remove watchdog src)
  vblank rendered h s idle src = (record h { surface = some (record s { redraw = idle }) }, src)
  vblank rendered h s scheduled src =
      (record h { surface = some (record s { redraw = idle }) }, src)
  vblank rendered h s (waiting_for_timer token) src =
      (record h { surface = some (record s { redraw = idle }) }, src)

  -- `frame_finish`; `submitted` is the generation of the frame that `frame_submitted` returns.
  unfoldable pub frame_finish : Option ℕ → Rendered → Head → Sources → Head × Sources
  unfolding vblank
  frame_finish submitted rendered h src = elim h.surface [
    | none ↦ (h, src)
    | some s ↦ if is_stale submitted s then (h, src) else vblank rendered h s s.redraw src
  ]

  -- `schedule_redraw_where`; `wanted` is whether the head is mapped and its geometry is wanted.
  unfoldable pub schedule_redraw_where : Bool → Head → Head
  schedule_redraw_where wanted h = elim h.surface [
    | none ↦ h
    | some s ↦
        if wanted
        then if not h.paused && is_idle s.redraw
          then record h {
            surface = some (record s { dirty = true; redraw = scheduled });
            idles = h.idles + 1;
          }
          else record h { surface = some (record s { dirty = true }) }
        else h
  ]

  -- The idle callback of `schedule_redraw_where` runs.
  unfoldable pub idle_callback : Rendered → Head → Sources → Head × Sources
  unfolding render_now
  idle_callback rendered h src =
      let h' : Head = record h { idles = h.idles - 1 } in
      elim h.surface [
        | none ↦ (h', src)
        | some s ↦ if is_scheduled s.redraw then render_now rendered h' src else (h', src)
      ]

  abbrev pub watchdog_of : Rendered → Head → OutputSurface → RedrawState → Sources → Head × Sources
  unfolding render_now
  watchdog_of rendered h s (waiting_for_vblank watchdog) src =
      render_now rendered (record h { surface = some (record s { dirty = true; redraw = idle }) })
        src
  watchdog_of rendered h s _ src = (h, src)

  -- `vblank_watchdog_fired`, after which calloop drops the source `own`.
  unfoldable pub vblank_watchdog_fired : Rendered → ℕ → Head → Sources → Head × Sources
  unfolding watchdog_of
  vblank_watchdog_fired rendered own h src = elim h.surface [
    | none ↦ (h, remove own src)
    | some s ↦ let (h', src') = watchdog_of rendered h s s.redraw src in (h', remove own src')
  ]

  abbrev pub timer_of : Rendered → Head → OutputSurface → RedrawState → Sources → Head × Sources
  unfolding render_now
  timer_of rendered h s (waiting_for_timer token) src =
      let h' : Head = record h { surface = some (record s { redraw = idle }) } in
      if s.dirty then render_now rendered h' src else (h', src)
  timer_of rendered h s _ src = (h, src)

  -- `redraw_timer_fired`, after which calloop drops the source `own`.
  unfoldable pub redraw_timer_fired : Rendered → ℕ → Head → Sources → Head × Sources
  unfolding timer_of
  redraw_timer_fired rendered own h src = elim h.surface [
    | none ↦ (h, remove own src)
    | some s ↦ let (h', src') = timer_of rendered h s s.redraw src in (h', remove own src')
  ]

  -- `handle_repaint_now`.
  unfoldable pub handle_repaint_now : Rendered → Head → Sources → Head × Sources
  unfolding render_now
  handle_repaint_now rendered h src = elim h.surface [
    | none ↦ (h, src)
    | some s ↦ render_now rendered (record h { surface = some (record s { dirty = true }) }) src
  ]

  -- `park_redraw`.
  unfoldable pub park_redraw : Head → Sources → Head × Sources
  unfolding cancel
  park_redraw h src = elim h.surface [
    | none ↦ (h, src)
    | some s ↦ (record h { surface = some (record s { redraw = idle }) }, cancel s.redraw src)
  ]

  -- `SessionEvent::PauseSession` and `SessionEvent::ActivateSession`.
  unfoldable pub pause_session : Head → Sources → Head × Sources
  unfolding park_redraw
  pause_session h src = park_redraw (record h { paused = true }) src

  unfoldable pub activate_session : Rendered → Head → Sources → Head × Sources
  unfolding handle_repaint_now
  activate_session rendered h src =
      let h' : Head = record h { paused = false } in
      if h.enabled then handle_repaint_now rendered h' src else (h', src)

  -- The surface goes: `udev_set_output_power` to off, and `disable_head`.
  unfoldable pub power_off : Bool → Head → Sources → Head × Sources
  unfolding park_redraw
  power_off disable h src =
      let (h', src') = park_redraw h src in
      (record h' { surface = none; enabled = h'.enabled && not disable }, src')

  -- `udev_set_output_power` to on, of an enabled head without a surface.
  unfoldable pub power_on : Rendered → Head → Sources → Head × Sources
  unfolding render_now
  power_on rendered h src = elim h.surface [
    | some s ↦ (h, src)
    | none ↦
        if h.enabled
        then render_now rendered (record h { surface = some new_surface }) src
        else (h, src)
  ]
