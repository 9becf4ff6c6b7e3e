-- ===== src/Events/Registry/Steps.antt =====
-- src/events.rs: any sequence of publications and callbacks.
use minde.Base.{
  ℕ, ◌+◌, ◌≤◌, ◌<◌, ◌≡◌, ◌⊎◌, inl, inr, List, [], ◌∷◌, Option, none, some, Bool, true, false,
  length, leb, count, count-append, Bool-cases, Option-cases, arith,
}
use minde.Events.Subscriber.{UnixStream, Subscriber}
use minde.Calloop.{LoopHandle}
use minde.Events.Registry.{
  SubscriberSet, max_subscribers, tokens_of, opt_list, needs_writer, keep, writer_registered,
  flush_one, flush_each, ping_ready, register_subscriber,
}
use minde.Events.Registry.Rules.{held}
use minde.Events.Registry.Lists.{count-held-append}
use minde.Events.Registry.Sources.{Owned, remove_all_live}

counts_itself : (u t : ℕ) → u ≡ t → count u (t ∷ []) ≡ 1
counts_itself u t e = ground arith

gains_token :
    (s : Subscriber) (t u : ℕ)
    → needs_writer s ≡ true
    → count u (tokens_of (record s { writer = some t })) ≡ count u (tokens_of s) + count u (t ∷ [])
gains_token s t u h =
    ground
      (arith, count-append u (opt_list s.watcher) (t ∷ []), count-append u (opt_list s.watcher) [])

count_keep :
    (u : ℕ) (o : Option Subscriber) (ss : List Subscriber)
    → count u (held (keep o ss)) ≡ count u (held (keep o [])) + count u (held ss)
count_keep u none ss = omega arith
count_keep u (some s) ss =
    omega (arith, count-append u (tokens_of s) (held ss), count-append u (tokens_of s) [])

module _ (loop : LoopHandle) (Base : ℕ → Type 0) where
  open loop use {Sources, Live, insert_source, remove, insert_live}

  -- A live source after a round or after the loop: held by what was kept, or there before.
  abbrev Kept : List Subscriber → List Subscriber → Sources → Sources → ℕ → Type 0
  Kept ss ss' src src' u =
      Live src' u
      → (0 < count u (held ss')) ⊎ (Live src u × (count u (held ss) ≤ count u (held ss')))

  flush_one-Kept :
      (s : Subscriber) (src : Sources) (u : ℕ)
      → let o = flush_one loop s src in Kept (s ∷ []) (keep o.0 []) src o.1 u
  unfolding flush_one writer_registered
  flush_one-Kept s src u = elim (Bool-cases (needs_writer s)) [
    | inr fine ↦ rw fine (λ l. inr (l, omega arith))
    | inl needy ↦ elim (Option-cases (insert_source src)) [
      | inl failed ↦
          rw (needy, failed)
            (λ l.
              let (l', gone) = remove_all_live loop Base (tokens_of s) src u l in
              inr (l', omega (arith, count-append u (tokens_of s) [])))
      | inr (p, inserted) ↦
          rw (needy, inserted)
            (λ l. elim (insert_live src p.1 p.0 u inserted l) [
              | inl e ↦ inl (
                  omega (
                    arith,
                    gains_token s p.0 u needy,
                    counts_itself u p.0 e,
                    count-append u (tokens_of (record s { writer = some p.0 })) [],
                  ))
              | inr l' ↦ inr (
                l',
                omega (
                  arith,
                  gains_token s p.0 u needy,
                  count-append u (tokens_of (record s { writer = some p.0 })) [],
                  count-append u (tokens_of s) [],
                ),
              )
            ])
    ]
  ]

  flush_each-Kept :
      (ss : List Subscriber) (src : Sources) (u : ℕ)
      → let r = flush_each loop ss src in Kept ss r.0 src r.1 u
  unfolding flush_each
  flush_each-Kept [] src u l = inr (l, omega arith)
  flush_each-Kept (s ∷ ss) src u l =
      let o = flush_one loop s src in
      let rest = flush_each loop ss o.1 in
      let joined = count_keep u o.0 rest.0 in
      let split = count-append u (tokens_of s) (held ss) in
      let alone = count-append u (tokens_of s) [] in
      elim (flush_each-Kept ss o.1 u l) [
        | inl kept ↦ inl (omega (arith, joined, kept))
        | inr (l', le) ↦ elim (flush_one-Kept s src u l') [
          | inl kept ↦ inl (omega (arith, joined, kept))
          | inr (l'', le') ↦ inr (l'', omega (arith, joined, split, alone, le, le'))
        ]
      ]

  -- After the ping callback every source is one of the others or held by a connected subscriber.
  pub ping_ready-Owned :
      (set : SubscriberSet) (src : Sources)
      → Owned loop Base set src
      → let r = ping_ready loop set src in Owned loop Base r.0 r.1
  unfolding ping_ready
  ping_ready-Owned set src v t l = elim (flush_each-Kept set.subscribers _ t l) [
    | inl kept ↦ inr (omega (arith, kept))
    | inr (l', le) ↦
        let (l'', gone) = remove_all_live loop Base set.retired src t l' in
        elim (v t l'') [ inl base ↦ inl base | inr h ↦ inr (omega (arith, h, gone, le)) ]
  ]

  pub register_subscriber-Owned :
      (stream : UnixStream) (nonblocking : Bool) (set : SubscriberSet) (src : Sources)
      → Owned loop Base set src
      → let r = register_subscriber loop stream nonblocking set src in Owned loop Base r.0 r.1
  unfolding register_subscriber
  register_subscriber-Owned stream false set src v = v
  register_subscriber-Owned stream true set src v =
      elim (Bool-cases (leb max_subscribers (length set.subscribers))) [
        | inl full ↦ rw full v
        | inr room ↦ elim (Option-cases (insert_source src)) [
          | inl failed ↦ rw (room, failed) v
          | inr (p, inserted) ↦
              rw (room, inserted)
                (λ t l. elim (insert_live src p.1 p.0 t inserted l) [
                  | inl e ↦
                      inr (
                        omega (arith, counts_itself t p.0 e, count-held-append t set.subscribers _))
                  | inr l' ↦ elim (v t l') [
                    | inl base ↦ inl base
                    | inr h ↦ inr (omega (arith, h, count-held-append t set.subscribers _))
                  ]
                ])
        ]
      ]
