-- ===== src/Events/Registry/Invariant.antt =====
-- src/events.rs: what holds of the set and of the event loop between two callbacks.
use minde.Base.{
  ℕ, ◌+◌, ◌≤◌, ◌<◌, ◌≡◌, refl, ap, inl, inr, List, [], ◌∷◌, ◌++◌, none, some, Bool, true, false,
  length, length-append, All, All-append, Bool-cases, Option-cases, ◌%◌, word64, leb, arith,
}
use minde.Events.Subscriber.{IoResult, ok, err, UnixStream, Subscriber, try_flush, flush}
use minde.Events.Subscriber.Bytes.{flush_bytes}
use minde.Calloop.{LoopHandle}
use minde.Events.Registry.{
  SubscriberSet, max_subscribers, is_empty, publish_each, publish_to, drop_located, writer_flushed,
  writer_ready, watcher_ready, register_subscriber,
}
use minde.Events.Registry.Rules.{Ascending, Bounded, Served, publish_each-Published}
use minde.Events.Registry.Lists.{
  Ascending-replace, Ascending-remove, Ascending-snoc, Ascending-weaken, All-replace, All-remove,
  All_middle, locate-cases,
}

-- What holds of the set alone. Unless a ping is on its way, nothing is left to retire and each
-- subscriber with pending bytes has a source that waits to write them.
pub record SetInv (set : SubscriberSet) : Type 0 where
  pub ids : Ascending 0 set.subscribers set.next_id
  pub cap : length set.subscribers ≤ max_subscribers
  pub backlog : All Bounded set.subscribers
  pub ready : set.ping ≡ true
  pub quiet : set.pinged ≡ false → (set.retired ≡ []) × All Served set.subscribers

pub publish_to-SetInv :
    (set : SubscriberSet) (bytes : List ℕ) → SetInv set → SetInv (publish_to set bytes)
unfolding publish_to
publish_to-SetInv set bytes v =
    let p = publish_each-Published bytes set.subscribers in
    elim (Bool-cases (publish_each set.subscribers bytes).2) [
      | inl changed ↦
          rw (changed, v.ready)
            (record {
              ids = p.ids 0 set.next_id v.ids;
              cap = omega (arith, p.size, v.cap);
              backlog = p.backlog v.backlog;
              ready = refl;
              quiet = λ h. cc;
            })
      | inr same ↦ rw same (record {
        ids = p.ids 0 set.next_id v.ids;
        cap = omega (arith, p.size, v.cap);
        backlog = p.backlog v.backlog;
        ready = v.ready;
        quiet = λ h. (rw ((v.quiet h).0, (p.quiet same).0) refl, (p.quiet same).1);
      })
    ]

-- The subscriber in the middle leaves, and everything retired is removed.
removed-SetInv :
    (set : SubscriberSet) (before after : List Subscriber) (s : Subscriber)
    → SetInv set
    → set.subscribers ≡ before ++ s ∷ after
    → SetInv (record set { subscribers = before ++ after; retired = [] })
removed-SetInv set before after s v e = record {
  ids = Ascending-remove 0 set.next_id before after s (rw e at v.ids);
  cap =
      omega
        (arith, v.cap, ap length e, length-append before after, length-append before (s ∷ after));
  backlog = All-remove Bounded before after s (rw e at v.backlog);
  ready = v.ready;
  quiet = λ h. (refl, All-remove Served before after s (rw e at (v.quiet h).1));
}

-- The subscriber in the middle is replaced by one with the same id.
replaced-SetInv :
    (set : SubscriberSet) (before after : List Subscriber) (s s' : Subscriber)
    → SetInv set
    → set.subscribers ≡ before ++ s ∷ after
    → s'.id ≡ s.id
    → (Bounded s → Bounded s')
    → (Served s → Served s')
    → SetInv (record set { subscribers = before ++ s' ∷ after })
replaced-SetInv set before after s s' v e i b w = record {
  ids = Ascending-replace 0 set.next_id before after s s' i (rw e at v.ids);
  cap = omega (
    arith,
    v.cap,
    ap length e,
    length-append before (s' ∷ after),
    length-append before (s ∷ after),
  );
  backlog =
      let all = rw e at v.backlog in
      All-replace Bounded before after s s' (b (All_middle Bounded before after s all)) all;
  ready = v.ready;
  quiet = λ h.
      let all = rw e at (v.quiet h).1 in
      (
        (v.quiet h).0,
        All-replace Served before after s s' (w (All_middle Served before after s all)) all,
      );
}

is_empty_short {ℓ} :
    {A : Type ℓ} (xs ys : List A) → length ys ≤ length xs → is_empty xs ≡ true → is_empty ys ≡ true
is_empty_short xs [] h e = refl
is_empty_short [] (y ∷ ys) h e = absurd (omega arith)
is_empty_short (x ∷ xs) (y ∷ ys) h e = cc

Served-short :
    (s s' : Subscriber)
    → s'.writer ≡ s.writer
    → length s'.pending ≤ length s.pending
    → Served s
    → Served s'
Served-short s s' w h v = rw w (ground (arith, is_empty_short s.pending s'.pending h))

module _ (loop : LoopHandle) where
  open loop use {Sources, insert_source, remove}

  writer_flushed-SetInv :
      (set : SubscriberSet) (src : Sources) (own : ℕ) (before after : List Subscriber)
      (s s' : Subscriber) (r : IoResult)
      → SetInv set
      → set.subscribers ≡ before ++ s ∷ after
      → s'.id ≡ s.id
      → s'.writer ≡ s.writer
      → length s'.pending ≤ length s.pending
      → SetInv (writer_flushed loop before after own (r, s') set src).0
  unfolding writer_flushed drop_located
  writer_flushed-SetInv set src own before after s s' ok v e i w l =
      elim (Bool-cases (is_empty s'.pending)) [
        | inl drained ↦ rw drained (
            replaced-SetInv set before after s (record s' { writer = none }) v e i
              (λ b. omega arith) (λ _. rw drained refl))
        | inr more ↦
            rw more (
              replaced-SetInv set before after s s' v e i (λ b. omega arith)
                (Served-short s s' w l))
      ]
  writer_flushed-SetInv set src own before after s s' (err x) v e i w l =
      removed-SetInv set before after s v e

  pub writer_ready-SetInv :
      (id own : ℕ) (set : SubscriberSet) (src : Sources)
      → SetInv set
      → SetInv (writer_ready loop id own set src).0
  unfolding writer_ready try_flush
  writer_ready-SetInv id own set src v = elim (locate-cases id set.subscribers) [
    | inl missing ↦ rw (missing, writer_ready) v
    | inr l ↦
        let s = l.found in
        let f = flush s.stream.attempts s.stream.sent s.pending in
        let s' = record s { stream = f.1; pending = f.2 } in
        rw (l.result, writer_ready)
          (writer_flushed-SetInv set src own l.before l.after s s' f.0 v l.split refl refl
            (flush_bytes s.stream.attempts s.stream.sent s.pending).1)
  ]

  pub watcher_ready-SetInv :
      (id own : ℕ) (set : SubscriberSet) (src : Sources)
      → SetInv set
      → SetInv (watcher_ready loop id own set src).0
  unfolding watcher_ready
  watcher_ready-SetInv id own set src v = elim (locate-cases id set.subscribers) [
    | inl missing ↦ rw (missing, watcher_ready) v
    | inr l ↦ rw (l.result, watcher_ready) (removed-SetInv set l.before l.after l.found v l.split)
  ]

  pub register_subscriber-SetInv :
      (stream : UnixStream) (nonblocking : Bool) (set : SubscriberSet) (src : Sources)
      → set.next_id + 1 < word64
      → SetInv set
      → SetInv (register_subscriber loop stream nonblocking set src).0
  unfolding register_subscriber
  register_subscriber-SetInv stream false set src h v = v
  register_subscriber-SetInv stream true set src h v =
      let next : (set.next_id + 1) % word64 ≡ set.next_id + 1 = omega arith in
      elim (Bool-cases (leb max_subscribers (length set.subscribers))) [
        | inl full ↦ rw full v
        | inr room ↦ elim (Option-cases (insert_source src)) [
          | inl failed ↦
              rw (room, failed, next)
                (record {
                  ids =
                      Ascending-weaken 0 set.next_id (set.next_id + 1) set.subscribers (omega arith)
                        v.ids;
                  cap = v.cap;
                  backlog = v.backlog;
                  ready = v.ready;
                  quiet = v.quiet;
                })
          | inr (p, inserted) ↦
              rw (room, inserted, next)
                (let s : Subscriber = record {
                  id = set.next_id;
                  stream = stream;
                  pending = [];
                  watcher = some p.0;
                  writer = none;
                } in
                  record {
                    ids =
                        Ascending-snoc 0 set.next_id (set.next_id + 1) set.subscribers s
                          (omega arith) (omega arith) v.ids;
                    cap = ground (arith, length-append set.subscribers (s ∷ []));
                    backlog = All-append Bounded set.subscribers (s ∷ []) v.backlog (omega arith);
                    ready = v.ready;
                    quiet = λ h. (
                      (v.quiet h).0,
                      All-append Served set.subscribers (s ∷ []) (v.quiet h).1 (refl, tt),
                    );
                  })
        ]
      ]
