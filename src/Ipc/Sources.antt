-- ===== src/Ipc/Sources.antt =====
-- src/ipc.rs: the sources that a connection registers with the event loop.
use minde.Base.{
  ℕ, ◌≡◌, refl, sym, ap, subst, ◌∙◌, ◌⊎◌, inl, inr, List, Option, none, some, none-ne-some,
  some-injective, Bool, true, false, true-ne-false, if-split, ◌==◌, if◌then◌else◌, arith,
}
use minde.Calloop.{LoopHandle}
use minde.Events.Subscriber.{Attempt}
use minde.Ipc.{
  Flushed, drained, blocked, failed, try_flush, reply, ReadEnd, complete, incomplete, read_failed,
  Connection, without_source, cancel_timer, finish, writer_inserted, spawn_writer, flushed_reply,
  after_read, flushed_rest, evict_client, timer_callback,
}

module _ (loop : LoopHandle) where
  -- The sources beside those that were there before are the one of the client's token and the timer.
  abbrev pub Owned : loop.Sources → ℕ → Option ℕ → loop.Sources → Type 0
  Owned base t timer sources =
      (u : ℕ) → loop.Live sources u → (u ≡ t) ⊎ ((timer ≡ some u) ⊎ loop.Live base u)

  abbrev pub NoneLeft : loop.Sources → loop.Sources → Type 0
  NoneLeft base sources = (u : ℕ) → loop.Live sources u → loop.Live base u

  -- A client's request is read, or its reply written, by the source of its token.
  abbrev pub Reads : loop.Sources → Connection loop.Sources → Type 0
  Reads base c =
      (c.client.finished ≡ false)
      × (c.writer ≡ none)
      × (t : ℕ) × (request : List ℕ) × (c.reader ≡ some (t, request))
      × (c.client.token ≡ some t)
      × Owned base t c.client.timer c.sources

  abbrev pub Writes : loop.Sources → Connection loop.Sources → Type 0
  Writes base c =
      (c.client.finished ≡ false)
      × (c.reader ≡ none)
      × (t : ℕ) × (pending : List ℕ) × (c.writer ≡ some (t, pending))
      × (c.client.token ≡ some t)
      × Owned base t c.client.timer c.sources

  abbrev pub Closed : loop.Sources → Connection loop.Sources → Type 0
  Closed base c =
      (c.reader ≡ none) × (c.writer ≡ none) × (c.client.timer ≡ none) × NoneLeft base c.sources

  abbrev pub Inv : loop.Sources → Connection loop.Sources → Type 0
  Inv base c = Reads base c ⊎ (Writes base c ⊎ Closed base c)

  cancelled :
      (base sources : loop.Sources) (t : ℕ) (timer : Option ℕ)
      → Owned base t timer sources
      → NoneLeft base (loop.remove t (cancel_timer loop timer sources))
  cancelled base sources t none owned u live =
      let (l, ne) = loop.remove_live sources t u live in
      elim (owned u l) [
        | inl e ↦ absurd (ne e)
        | inr (inl e) ↦ absurd (none-ne-some u e)
        | inr (inr b) ↦ b
      ]
  cancelled base sources t (some timer) owned u live =
      let (l, ne) = loop.remove_live (loop.remove timer sources) t u live in
      let (k, other) = loop.remove_live sources timer u l in
      elim (owned u k) [
        | inl e ↦ absurd (ne e)
        | inr (inl e) ↦ absurd (other (sym (some-injective timer u e)))
        | inr (inr b) ↦ b
      ]

  finish-Closed :
      (base : loop.Sources) (c : Connection loop.Sources) (t : ℕ)
      → Owned base t c.client.timer c.sources
      → Closed base (finish loop c t)
  unfolding finish
  finish-Closed base c t owned = (refl, refl, refl, cancelled base c.sources t c.client.timer owned)

  -- The writer takes over from the reader.
  writer_inserted-Inv :
      (base : loop.Sources) (c : Connection loop.Sources) (t : ℕ) (pending : List ℕ)
      (x : Option (ℕ × loop.Sources))
      → loop.insert_source c.sources ≡ x
      → c.client.finished ≡ false
      → Owned base t c.client.timer c.sources
      → Inv base (writer_inserted loop c t pending x)
  writer_inserted-Inv base c t pending none e open_ owned = inr (inr (finish-Closed base c t owned))
  writer_inserted-Inv base c t pending (some (w, sources)) e open_ owned = inr (
      inl (
        open_,
        refl,
        w,
        pending,
        refl,
        refl,
        (λ u live.
            let (l, ne) = loop.remove_live sources t u live in
            elim (loop.insert_live c.sources sources w u e l) [
              | inl same ↦ inl same
              | inr k ↦ elim (owned u k) [ inl same ↦ absurd (ne same) | inr rest ↦ inr rest ]
            ]),
      ))

  flushed_reply-Inv :
      (base : loop.Sources) (c : Connection loop.Sources) (t : ℕ) (cloned : Bool)
      (x : Flushed × List ℕ × List ℕ)
      → c.client.finished ≡ false
      → Owned base t c.client.timer c.sources
      → Inv base (flushed_reply loop c t cloned x)
  unfolding spawn_writer
  flushed_reply-Inv base c t cloned (drained, sent, pending) open_ owned =
      inr (inr (finish-Closed base (record c { sent = sent }) t owned))
  flushed_reply-Inv base c t true (blocked, sent, pending) open_ owned =
      writer_inserted-Inv base (record c { sent = sent }) t pending (loop.insert_source c.sources)
        refl open_ owned
  flushed_reply-Inv base c t false (blocked, sent, pending) open_ owned =
      inr (inr (finish-Closed base (record c { sent = sent }) t owned))
  flushed_reply-Inv base c t cloned (failed, sent, pending) open_ owned =
      inr (inr (finish-Closed base (record c { sent = sent }) t owned))

  pub after_read-Inv :
      (eval_ipc : List ℕ → Option (List ℕ)) (base : loop.Sources) (c : Connection loop.Sources)
      (t : ℕ) (attempts : List Attempt) (cloned : Bool) (x : ReadEnd × List ℕ)
      → c.client.finished ≡ false
      → c.writer ≡ none
      → c.client.token ≡ some t
      → Owned base t c.client.timer c.sources
      → Inv base (after_read loop eval_ipc c t attempts cloned x)
  after_read-Inv eval_ipc base c t attempts cloned (complete, request) open_ idle named owned =
      flushed_reply-Inv base c t cloned (try_flush attempts c.sent (reply eval_ipc request)) open_
        owned
  after_read-Inv eval_ipc base c t attempts cloned (incomplete, request) open_ idle named owned =
      inl (open_, idle, t, request, refl, named, owned)
  after_read-Inv eval_ipc base c t attempts cloned (read_failed, request) open_ idle named owned =
      inr (inr (finish-Closed base c t owned))

  pub flushed_rest-Inv :
      (base : loop.Sources) (c : Connection loop.Sources) (t : ℕ) (x : Flushed × List ℕ × List ℕ)
      → c.client.finished ≡ false
      → c.reader ≡ none
      → c.client.token ≡ some t
      → Owned base t c.client.timer c.sources
      → Inv base (flushed_rest loop c t x)
  flushed_rest-Inv base c t (drained, sent, pending) open_ idle named owned =
      inr (inr (finish-Closed base (record c { sent = sent }) t owned))
  flushed_rest-Inv base c t (blocked, sent, pending) open_ idle named owned =
      inr (inl (open_, idle, t, pending, refl, named, owned))
  flushed_rest-Inv base c t (failed, sent, pending) open_ idle named owned =
      inr (inr (finish-Closed base (record c { sent = sent }) t owned))

  -- A source is none, or the one of the token.
  abbrev Only : ℕ → Option (ℕ × List ℕ) → Type 0
  Only t o = (o ≡ none) ⊎ ((x : List ℕ) × (o ≡ some (t, x)))

  without_source-Only : (t : ℕ) (o : Option (ℕ × List ℕ)) → Only t o → without_source t o ≡ none
  without_source-Only t o (inl e) = ap (without_source t) e
  without_source-Only t o (inr (x, e)) =
      let own : (t == t) ≡ true = ground arith in
      ap (without_source t) e ∙ ap (λ b. if b then none else some (t, x)) own

  timer_callback-Closed :
      (base : loop.Sources) (c : Connection loop.Sources) (t timer : ℕ)
      → c.client.finished ≡ false
      → c.client.token ≡ some t
      → Only t c.reader
      → Only t c.writer
      → c.client.timer ≡ some timer
      → Owned base t c.client.timer c.sources
      → ((timer_callback loop c (some timer)).client.finished ≡ true)
        × Closed base (timer_callback loop c (some timer))
  timer_callback-Closed base c t timer open_ named r w armed owned =
      let sources = loop.remove timer c.sources in
      if-split (λ (x : Connection loop.Sources). (x.client.finished ≡ true) × Closed base x)
        c.client.finished
        (record c { sources = sources; client = record c.client { timer = none } })
        (evict_client loop c sources c.client.token) (λ f. absurd (true-ne-false f open_))
        (λ _.
          subst
            (λ o.
              ((evict_client loop c sources o).client.finished ≡ true)
              × Closed base (evict_client loop c sources o))
            (sym named)
            (
              refl,
              (
                without_source-Only t c.reader r,
                without_source-Only t c.writer w,
                refl,
                cancelled base c.sources t (some timer)
                    (subst (λ o. Owned base t o c.sources) armed owned),
              ),
            ))

  -- The deadline of a client that is not finished.
  pub deadline-Closed :
      (base : loop.Sources) (c : Connection loop.Sources) (timer : ℕ)
      → Inv base c
      → c.client.timer ≡ some timer
      → ((timer_callback loop c (some timer)).client.finished ≡ true)
        × Closed base (timer_callback loop c (some timer))
  deadline-Closed base c timer (inl (open_, idle, t, request, source, named, owned)) armed =
      timer_callback-Closed base c t timer open_ named (inr (request, source)) (inl idle) armed
        owned
  deadline-Closed base c timer (inr (inl (open_, idle, t, pending, source, named, owned))) armed =
      timer_callback-Closed base c t timer open_ named (inl idle) (inr (pending, source)) armed
        owned
  deadline-Closed base c timer (inr (inr (_, _, unarmed, _))) armed =
      absurd (none-ne-some timer (sym unarmed ∙ armed))

  pub deadline-Inv :
      (base : loop.Sources) (c : Connection loop.Sources) (timer : Option ℕ)
      → c.client.timer ≡ timer
      → Inv base c
      → Inv base (timer_callback loop c timer)
  deadline-Inv base c none e inv = inv
  deadline-Inv base c (some timer) e inv = inr (inr (deadline-Closed base c timer inv e).1)
