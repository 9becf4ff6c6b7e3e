-- ===== src/Ipc/Runs.antt =====
-- src/ipc.rs: whatever happens to a connection, its sources are accounted for.
use minde.Base.{
  ℕ, ◌≡◌, refl, sym, ap, subst, inl, inr, List, [], ◌∷◌, Option, none, some, true, true-ne-false,
}
use minde.Calloop.{LoopHandle}
use minde.Ipc.{
  try_flush, read_loop, Connection, IpcEvent, readable, writable, deadline, read_callback,
  write_callback, timer_callback, handle_event, arm_timer, read_inserted, register_client,
  handle_events,
}
use minde.Ipc.Sources.{
  NoneLeft, Closed, Inv, after_read-Inv, flushed_rest-Inv, deadline-Closed, deadline-Inv,
}

module _ (loop : LoopHandle) where
  handle_event-Inv :
      (eval_ipc : List ℕ → Option (List ℕ)) (base : loop.Sources) (c : Connection loop.Sources)
      (e : IpcEvent)
      → Inv loop base c
      → Inv loop base (handle_event loop eval_ipc c e)
  unfolding handle_event
  handle_event-Inv eval_ipc base c (readable rs ws cloned) (inl inv) =
      let (open_, idle, t, request, source, named, owned) = inv in
      subst (λ o. Inv loop base (read_callback loop eval_ipc c rs ws cloned o)) (sym source)
        (after_read-Inv loop eval_ipc base c t ws cloned (read_loop rs request) open_ idle named
          owned)
  handle_event-Inv eval_ipc base c (readable rs ws cloned) (inr (inl inv)) =
      subst (λ o. Inv loop base (read_callback loop eval_ipc c rs ws cloned o)) (sym inv.1)
        (inr (inl inv))
  handle_event-Inv eval_ipc base c (readable rs ws cloned) (inr (inr inv)) =
      subst (λ o. Inv loop base (read_callback loop eval_ipc c rs ws cloned o)) (sym inv.0)
        (inr (inr inv))
  handle_event-Inv eval_ipc base c (writable ws) (inl inv) =
      subst (λ o. Inv loop base (write_callback loop c ws o)) (sym inv.1) (inl inv)
  handle_event-Inv eval_ipc base c (writable ws) (inr (inl inv)) =
      let (open_, idle, t, pending, source, named, owned) = inv in
      subst (λ o. Inv loop base (write_callback loop c ws o)) (sym source)
        (flushed_rest-Inv loop base c t (try_flush ws c.sent pending) open_ idle named owned)
  handle_event-Inv eval_ipc base c (writable ws) (inr (inr inv)) =
      subst (λ o. Inv loop base (write_callback loop c ws o)) (sym inv.1) (inr (inr inv))
  handle_event-Inv eval_ipc base c deadline inv = deadline-Inv loop base c c.client.timer refl inv

  handle_events-Inv :
      (eval_ipc : List ℕ → Option (List ℕ)) (base : loop.Sources) (c : Connection loop.Sources)
      (events : List IpcEvent)
      → Inv loop base c
      → Inv loop base (handle_events loop eval_ipc c events)
  handle_events-Inv eval_ipc base c [] inv = inv
  handle_events-Inv eval_ipc base c (e ∷ events) inv =
      handle_events-Inv eval_ipc base (handle_event loop eval_ipc c e) events
        (handle_event-Inv eval_ipc base c e inv)

  arm_timer-Inv :
      (base sources : loop.Sources) (t : ℕ) (x : Option (ℕ × loop.Sources))
      → loop.insert_source base ≡ some (t, sources)
      → loop.insert_source sources ≡ x
      → Inv loop base (arm_timer loop t sources x)
  arm_timer-Inv base sources t none e f = inl (
    refl,
    refl,
    t,
    [],
    refl,
    refl,
    (λ u live. elim (loop.insert_live base sources t u e live) [
      | inl same ↦ inl same
      | inr b ↦ inr (inr b)
    ]),
  )
  arm_timer-Inv base sources t (some (timer, later)) e f = inl (
    refl,
    refl,
    t,
    [],
    refl,
    refl,
    (λ u live. elim (loop.insert_live sources later timer u f live) [
      | inl armed ↦ inr (inl (ap some (sym armed)))
      | inr l ↦ elim (loop.insert_live base sources t u e l) [
        | inl same ↦ inl same
        | inr b ↦ inr (inr b)
      ]
    ]),
  )

  read_inserted-Inv :
      (base : loop.Sources) (x : Option (ℕ × loop.Sources))
      → loop.insert_source base ≡ x
      → Inv loop base (read_inserted loop base x)
  read_inserted-Inv base none e = inr (inr (refl, refl, refl, (λ u live. live)))
  read_inserted-Inv base (some (t, sources)) e =
      arm_timer-Inv base sources t (loop.insert_source sources) e refl

  finished-NoneLeft :
      (base : loop.Sources) (c : Connection loop.Sources)
      → Inv loop base c
      → c.client.finished ≡ true
      → NoneLeft loop base c.sources
  finished-NoneLeft base c (inl inv) f = absurd (true-ne-false f inv.0)
  finished-NoneLeft base c (inr (inl inv)) f = absurd (true-ne-false f inv.0)
  finished-NoneLeft base c (inr (inr (_, _, _, none_left))) f = none_left

  -- Whatever happens to a connection, once it is finished no source that it registered is left; and
  -- while its timer is armed, the deadline finishes it, with its socket closed and no source left.
  pub handle_events-NoneLeft :
      (eval_ipc : List ℕ → Option (List ℕ)) (base : loop.Sources) (events : List IpcEvent)
      → let c = handle_events loop eval_ipc (register_client loop base) events in
        (c.client.finished ≡ true → NoneLeft loop base c.sources)
        × ((timer : ℕ)
            → c.client.timer ≡ some timer
            → ((handle_event loop eval_ipc c deadline).client.finished ≡ true)
              × Closed loop base (handle_event loop eval_ipc c deadline))
  unfolding register_client handle_event
  handle_events-NoneLeft eval_ipc base events =
      let c = handle_events loop eval_ipc (register_client loop base) events in
      let inv =
        handle_events-Inv eval_ipc base (register_client loop base) events
          (read_inserted-Inv base (loop.insert_source base) refl) in
      (
        finished-NoneLeft base c inv,
        (λ timer armed.
            subst
              (λ o.
                ((timer_callback loop c o).client.finished ≡ true)
                × Closed loop base (timer_callback loop c o))
              (sym armed) (deadline-Closed loop base c timer inv armed)),
      )
