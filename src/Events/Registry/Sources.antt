-- ===== src/Events/Registry/Sources.antt =====
-- src/events.rs: no source of the event loop is leaked.
use minde.Base.{
  ℕ, ◌+◌, ◌≤◌, ◌<◌, ◌≡◌, ◌≢◌, refl, ap, ◌⊎◌, inl, inr, List, [], ◌∷◌, ◌++◌, none, some, count,
  count-append, Bool-cases, arith,
}
use minde.Events.Subscriber.{IoResult, ok, err, Subscriber, try_flush, flush}
use minde.Calloop.{LoopHandle}
use minde.Events.Registry.{
  SubscriberSet, tokens_of, opt_list, is_empty, publish_each, publish_to, locate, remove_all,
  drop_located, writer_flushed, writer_ready, watcher_ready,
}
use minde.Events.Registry.Rules.{held, publish_each-Published}
use minde.Events.Registry.Lists.{count-held-append, count-held-middle, locate-cases}

count_other : (own t : ℕ) → t ≢ own → count t (own ∷ []) ≡ 0
count_other own t ne = ground arith

-- A subscriber without the token `own` of its writer holds all its other tokens.
without_own :
    (s : Subscriber) (own t : ℕ)
    → t ≢ own
    → count t (opt_list s.watcher ++ own ∷ []) ≤ count t (opt_list s.watcher ++ [])
without_own s own t ne = omega (
  arith,
  count-append t (opt_list s.watcher) (own ∷ []),
  count-append t (opt_list s.watcher) [],
  count_other own t ne,
)

-- `Base` are the tokens of the other sources: the listener and the ping.
module _ (loop : LoopHandle) (Base : ℕ → Type 0) where
  open loop use {Sources, Live, insert_source, remove, insert_live, remove_live}

  -- Every registered source is one of the others, is held by a connected subscriber, or waits to be
  -- removed.
  abbrev pub Owned : SubscriberSet → Sources → Type 0
  Owned set src =
      (t : ℕ) → Live src t → Base t ⊎ (0 < count t (held set.subscribers) + count t set.retired)

  pub remove_all_live :
      (ts : List ℕ) (src : Sources) (u : ℕ)
      → Live (remove_all loop ts src) u
      → Live src u × (count u ts ≡ 0)
  unfolding remove_all
  remove_all_live [] src u l = (l, refl)
  remove_all_live (t ∷ ts) src u l =
      let (l', none_of) = remove_all_live ts (remove t src) u l in
      let (l'', differs) = remove_live src t u l' in (l'', ground arith)

  pub publish_to-Owned :
      (set : SubscriberSet) (src : Sources) (bytes : List ℕ)
      → Owned set src
      → Owned (publish_to set bytes) src
  unfolding publish_to
  publish_to-Owned set src bytes v t l =
      let r = publish_each set.subscribers bytes in
      let p = (publish_each-Published bytes set.subscribers).tokens t in
      ground (arith, v t l, p, count-append t set.retired r.1)

  module _ (set : SubscriberSet) (src : Sources) (own : ℕ) (before after : List Subscriber)
      (s : Subscriber) (e : set.subscribers ≡ before ++ s ∷ after) (v : Owned set src) where
    -- Where the tokens of `s'` and the own token cover those of `s`.
    dropped-Owned :
        (s' : Subscriber)
        → ((t : ℕ) → t ≢ own → count t (tokens_of s) ≤ count t (tokens_of s'))
        → let r = drop_located loop before s' after set src in Owned r.0 (remove own r.1)
    unfolding drop_located
    dropped-Owned s' covers t l =
        let (l', differs) = remove_live _ own t l in
        let (l'', gone) = remove_all_live (set.retired ++ tokens_of s') src t l' in
        elim (v t l'') [
          | inl base ↦ inl base
          | inr h ↦ inr (
              omega (
                arith,
                h,
                gone,
                covers t differs,
                ap (λ ss. count t (held ss)) e,
                count-held-middle t before after s,
                count-held-append t before after,
                count-append t set.retired (tokens_of s'),
              ))
        ]

    replaced-Owned :
        (s' : Subscriber)
        → ((t : ℕ) → t ≢ own → count t (tokens_of s) ≤ count t (tokens_of s'))
        → Owned (record set { subscribers = before ++ s' ∷ after }) (remove own src)
    replaced-Owned s' covers t l =
        let (l', differs) = remove_live src own t l in
        elim (v t l') [
          | inl base ↦ inl base
          | inr h ↦ inr (
              omega (
                arith,
                h,
                covers t differs,
                ap (λ ss. count t (held ss)) e,
                count-held-middle t before after s,
                count-held-middle t before after s',
              ))
        ]

    flushed-Owned :
        (s' : Subscriber)
        → s'.watcher ≡ s.watcher
        → s'.writer ≡ s.writer
        → Owned (record set { subscribers = before ++ s' ∷ after }) src
    flushed-Owned s' w x t l = elim (v t l) [
      | inl base ↦ inl base
      | inr h ↦
          let same : count t (tokens_of s) ≡ count t (tokens_of s') = rw (w, x) refl in
          inr (
            omega (
              arith,
              h,
              same,
              ap (λ ss. count t (held ss)) e,
              count-held-middle t before after s,
              count-held-middle t before after s',
            ))
    ]

    writer_flushed-Owned :
        (r : IoResult) (s' : Subscriber)
        → s.writer ≡ some own
        → s'.watcher ≡ s.watcher
        → s'.writer ≡ s.writer
        → let q = writer_flushed loop before after own (r, s') set src in Owned q.0 q.1
    unfolding writer_flushed
    writer_flushed-Owned ok s' fires w x = elim (Bool-cases (is_empty s'.pending)) [
      | inl drained ↦ rw drained (
          replaced-Owned (record s' { writer = none })
            (λ t ne. rw (w, fires) (without_own s own t ne)))
      | inr more ↦ rw more (flushed-Owned s' w x)
    ]
    writer_flushed-Owned (err z) s' fires w x =
        dropped-Owned (record s' { writer = none }) (λ t ne. rw (w, fires) (without_own s own t ne))

  pub writer_ready-Owned :
      (id own : ℕ) (set : SubscriberSet) (src : Sources)
      → ((before after : List Subscriber) (s : Subscriber)
          → locate id set.subscribers ≡ some (before, s, after)
          → s.writer ≡ some own)
      → Owned set src
      → let r = writer_ready loop id own set src in Owned r.0 r.1
  unfolding writer_ready try_flush
  writer_ready-Owned id own set src fires v = elim (locate-cases id set.subscribers) [
    | inl missing ↦ rw (missing, writer_ready) (λ t l. v t (remove_live src own t l).0)
    | inr l ↦
        let s = l.found in
        let f = flush s.stream.attempts s.stream.sent s.pending in
        rw (l.result, writer_ready)
          (writer_flushed-Owned set src own l.before l.after s l.split v f.0
            (record s { stream = f.1; pending = f.2 }) (fires l.before l.after s l.result) refl
            refl)
  ]

  pub watcher_ready-Owned :
      (id own : ℕ) (set : SubscriberSet) (src : Sources)
      → ((before after : List Subscriber) (s : Subscriber)
          → locate id set.subscribers ≡ some (before, s, after)
          → s.watcher ≡ some own)
      → Owned set src
      → let r = watcher_ready loop id own set src in Owned r.0 r.1
  unfolding watcher_ready
  watcher_ready-Owned id own set src fires v = elim (locate-cases id set.subscribers) [
    | inl missing ↦ rw (missing, watcher_ready) (λ t l. v t (remove_live src own t l).0)
    | inr l ↦
        let s = l.found in
        rw (l.result, watcher_ready)
          (dropped-Owned set src own l.before l.after s l.split v (record s { watcher = none })
            (λ t ne. rw (fires l.before l.after s l.result) (ground (arith, count_other own t ne))))
  ]
