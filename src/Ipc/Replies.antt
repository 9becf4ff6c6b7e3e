-- ===== src/Ipc/Replies.antt =====
-- src/ipc.rs: what a client is sent.
use minde.Base.{
  ℕ, zero, suc, ◌≡◌, refl, sym, ap, ◌∙◌, ◌⊎◌, inl, inr, List, [], ◌∷◌, ◌++◌, append_assoc, Option,
  none, some, none-ne-some, some-injective, Bool, true, false, if-split, ◌==◌, take, drop,
  take-append-drop, arith,
}
use minde.Calloop.{LoopHandle}
use minde.Events.Subscriber.{Attempt, takes, would_block, interrupted, broken}
use minde.Ipc.{
  Flushed, drained, blocked, failed, try_flush, reply, Reading, ReadEnd, complete, incomplete,
  read_failed, read_loop, Connection, IpcEvent, readable, writable, deadline, without_source,
  finish, writer_inserted, spawn_writer, flushed_reply, after_read, flushed_rest, read_callback,
  write_callback, evict_client, timer_callback, handle_event, arm_timer, read_inserted,
  register_client, handle_events,
}

-- No byte is lost or repeated, and nothing is pending after a drain.
try_flush-bytes :
    (attempts : List Attempt) (sent pending : List ℕ)
    → let x = try_flush attempts sent pending in
      (x.1 ++ x.2 ≡ sent ++ pending) × (x.0 ≡ drained → x.2 ≡ [])
unfolding try_flush
try_flush-bytes attempts sent [] = (refl, (λ _. refl))
try_flush-bytes [] sent (b ∷ bs) = (refl, (λ e. absurd (ground arith)))
try_flush-bytes (takes zero ∷ later) sent (b ∷ bs) = (refl, (λ e. absurd (ground arith)))
try_flush-bytes (takes (suc n) ∷ later) sent (b ∷ bs) =
    let (same, done) = try_flush-bytes later (sent ++ b ∷ take n bs) (drop n bs) in
    (
      same
          ∙ append_assoc sent (b ∷ take n bs) (drop n bs)
          ∙ ap (λ t. sent ++ b ∷ t) (take-append-drop n bs),
      done,
    )
try_flush-bytes (would_block ∷ later) sent (b ∷ bs) = (refl, (λ e. absurd (ground arith)))
try_flush-bytes (interrupted ∷ later) sent (b ∷ bs) = try_flush-bytes later sent (b ∷ bs)
try_flush-bytes (broken ∷ later) sent (b ∷ bs) = (refl, (λ e. absurd (ground arith)))

module _ (loop : LoopHandle) (eval_ipc : List ℕ → Option (List ℕ)) where
  -- The reply to a request is what was sent, and what is left of it.
  abbrev pub Answers : List ℕ → List ℕ → Type 0
  Answers sent rest = (request : List ℕ) × (sent ++ rest ≡ reply eval_ipc request)

  -- Nothing is sent yet, or the writer has the rest of a reply, or the exchange is over.
  abbrev Owes : Connection loop.Sources → Type 0
  Owes c =
      ((c.writer ≡ none) × (c.sent ≡ []))
      ⊎ (((t : ℕ) × (pending : List ℕ) × (c.writer ≡ some (t, pending))
            × (c.reader ≡ none)
            × Answers c.sent pending)
          ⊎ ((c.writer ≡ none) × (c.reader ≡ none) × (rest : List ℕ) × Answers c.sent rest))

  over-Owes :
      (c : Connection loop.Sources) (t : ℕ) (rest : List ℕ)
      → Answers c.sent rest
      → Owes (finish loop c t)
  unfolding finish
  over-Owes c t rest a = inr (inr (refl, refl, rest, a))

  writer_inserted-Owes :
      (c : Connection loop.Sources) (t : ℕ) (pending : List ℕ) (x : Option (ℕ × loop.Sources))
      → Answers c.sent pending
      → Owes (writer_inserted loop c t pending x)
  writer_inserted-Owes c t pending none a = over-Owes c t pending a
  writer_inserted-Owes c t pending (some (w, sources)) a = inr (inl (w, pending, refl, refl, a))

  flushed_reply-Owes :
      (c : Connection loop.Sources) (t : ℕ) (cloned : Bool) (x : Flushed × List ℕ × List ℕ)
      → Answers x.1 x.2
      → Owes (flushed_reply loop c t cloned x)
  unfolding spawn_writer
  flushed_reply-Owes c t cloned (drained, sent, rest) a =
      over-Owes (record c { sent = sent }) t rest a
  flushed_reply-Owes c t true (blocked, sent, rest) a =
      writer_inserted-Owes (record c { sent = sent }) t rest (loop.insert_source c.sources) a
  flushed_reply-Owes c t false (blocked, sent, rest) a =
      over-Owes (record c { sent = sent }) t rest a
  flushed_reply-Owes c t cloned (failed, sent, rest) a =
      over-Owes (record c { sent = sent }) t rest a

  after_read-Owes :
      (c : Connection loop.Sources) (t : ℕ) (attempts : List Attempt) (cloned : Bool)
      (x : ReadEnd × List ℕ)
      → c.writer ≡ none
      → c.sent ≡ []
      → Owes (after_read loop eval_ipc c t attempts cloned x)
  unfolding finish
  after_read-Owes c t attempts cloned (complete, request) idle fresh =
      let (same, _) = try_flush-bytes attempts c.sent (reply eval_ipc request) in
      flushed_reply-Owes c t cloned (try_flush attempts c.sent (reply eval_ipc request))
        (request, same ∙ ap (λ l. l ++ reply eval_ipc request) fresh)
  after_read-Owes c t attempts cloned (incomplete, request) idle fresh = inl (idle, fresh)
  after_read-Owes c t attempts cloned (read_failed, request) idle fresh = inl (refl, fresh)

  flushed_rest-Owes :
      (c : Connection loop.Sources) (t : ℕ) (x : Flushed × List ℕ × List ℕ)
      → c.reader ≡ none
      → Answers x.1 x.2
      → Owes (flushed_rest loop c t x)
  flushed_rest-Owes c t (drained, sent, rest) idle a = over-Owes (record c { sent = sent }) t rest a
  flushed_rest-Owes c t (blocked, sent, rest) idle a = inr (inl (t, rest, refl, idle, a))
  flushed_rest-Owes c t (failed, sent, rest) idle a = over-Owes (record c { sent = sent }) t rest a

  read_callback-Owes :
      (c : Connection loop.Sources) (rs : List Reading) (ws : List Attempt) (cloned : Bool)
      (source : Option (ℕ × List ℕ))
      → c.reader ≡ source
      → Owes c
      → Owes (read_callback loop eval_ipc c rs ws cloned source)
  read_callback-Owes c rs ws cloned none e o = o
  read_callback-Owes c rs ws cloned (some (t, request)) e (inl (idle, fresh)) =
      after_read-Owes c t ws cloned (read_loop rs request) idle fresh
  read_callback-Owes c rs ws cloned (some (t, request)) e (inr (inl o)) =
      absurd (none-ne-some (t, request) (sym o.3 ∙ e))
  read_callback-Owes c rs ws cloned (some (t, request)) e (inr (inr o)) =
      absurd (none-ne-some (t, request) (sym o.1 ∙ e))

  write_callback-Owes :
      (c : Connection loop.Sources) (ws : List Attempt) (source : Option (ℕ × List ℕ))
      → c.writer ≡ source
      → Owes c
      → Owes (write_callback loop c ws source)
  write_callback-Owes c ws none e o = o
  write_callback-Owes c ws (some (t, pending)) e (inl (idle, fresh)) =
      absurd (none-ne-some (t, pending) (sym idle ∙ e))
  write_callback-Owes c ws (some (t, pending)) e (inr (inl o)) =
      let (w, p, source, idle, (request, same)) = o in
      let pair = some-injective (w, p) (t, pending) (sym source ∙ e) in
      let (flushed, _) = try_flush-bytes ws c.sent pending in
      flushed_rest-Owes c t (try_flush ws c.sent pending) idle
        (request, flushed ∙ sym (ap (λ (x : ℕ × List ℕ). c.sent ++ x.1) pair) ∙ same)
  write_callback-Owes c ws (some (t, pending)) e (inr (inr o)) =
      absurd (none-ne-some (t, pending) (sym o.0 ∙ e))

  evict_client-Owes :
      (c : Connection loop.Sources) (sources : loop.Sources) (token : Option ℕ)
      → Owes c
      → Owes (evict_client loop c sources token)
  evict_client-Owes c sources none o = o
  evict_client-Owes c sources (some t) (inl (idle, fresh)) = inl (ap (without_source t) idle, fresh)
  evict_client-Owes c sources (some t) (inr (inl (w, p, source, idle, a))) =
      if-split
        (λ (x : Option (ℕ × List ℕ)).
          without_source t c.writer ≡ x → Owes (evict_client loop c sources (some t)))
        (w == t) none (some (w, p)) (λ _ e. inr (inr (e, ap (without_source t) idle, p, a)))
        (λ _ e. inr (inl (w, p, e, ap (without_source t) idle, a))) (ap (without_source t) source)
  evict_client-Owes c sources (some t) (inr (inr (w, r, rest, a))) =
      inr (inr (ap (without_source t) w, ap (without_source t) r, rest, a))

  handle_event-Owes :
      (c : Connection loop.Sources) (e : IpcEvent) → Owes c → Owes (handle_event loop eval_ipc c e)
  unfolding handle_event
  handle_event-Owes c (readable rs ws cloned) o = read_callback-Owes c rs ws cloned c.reader refl o
  handle_event-Owes c (writable ws) o = write_callback-Owes c ws c.writer refl o
  handle_event-Owes c deadline o = timed c.client.timer
    where
      timed : (timer : Option ℕ) → Owes (timer_callback loop c timer)
      timed none = o
      timed (some timer) =
          if-split Owes c.client.finished
            (record c {
              sources = loop.remove timer c.sources;
              client = record c.client { timer = none };
            })
            (evict_client loop c (loop.remove timer c.sources) c.client.token) (λ _. o)
            (λ _. evict_client-Owes c (loop.remove timer c.sources) c.client.token o)

  handle_events-Owes :
      (c : Connection loop.Sources) (events : List IpcEvent)
      → Owes c
      → Owes (handle_events loop eval_ipc c events)
  handle_events-Owes c [] o = o
  handle_events-Owes c (e ∷ events) o =
      handle_events-Owes (handle_event loop eval_ipc c e) events (handle_event-Owes c e o)

  registered :
      (sources : loop.Sources) (x : Option (ℕ × loop.Sources)) → Owes (read_inserted loop sources x)
  registered sources none = inl (refl, refl)
  registered sources (some (t, later)) = armed (loop.insert_source later)
    where
      armed : (y : Option (ℕ × loop.Sources)) → Owes (arm_timer loop t later y)
      armed none = inl (refl, refl)
      armed (some (timer, last)) = inl (refl, refl)

  -- Whatever happens to a connection, what its client was sent is nothing, or the beginning of the
  -- reply to one request.
  pub handle_events-Answers :
      (sources : loop.Sources) (events : List IpcEvent)
      → let c = handle_events loop eval_ipc (register_client loop sources) events in
        (c.sent ≡ []) ⊎ ((rest : List ℕ) × Answers c.sent rest)
  unfolding register_client
  handle_events-Answers sources events =
      elim (handle_events-Owes (register_client loop sources) events
        (registered sources (loop.insert_source sources))) [
          | inl (_, fresh) ↦ inl fresh
          | inr (inl (t, pending, _, _, a)) ↦ inr (pending, a)
          | inr (inr (_, _, rest, a)) ↦ inr (rest, a)
        ]
