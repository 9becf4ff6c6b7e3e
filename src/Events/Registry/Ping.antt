-- ===== src/Events/Registry/Ping.antt =====
-- src/events.rs: the ping callback gives every subscriber with pending bytes a writer.
use minde.Base.{
  ℕ, ◌+◌, ◌≤◌, ◌≡◌, refl, inl, inr, List, [], ◌∷◌, Option, none, some, length, All, Bool-cases,
  Option-cases, arith,
}
use minde.Events.Subscriber.{Subscriber}
use minde.Calloop.{LoopHandle}
use minde.Events.Registry.{
  SubscriberSet, needs_writer, keep, remove_all, flush_one, flush_each, ping_ready,
}
use minde.Events.Registry.Rules.{Ascending, Ascending-mono, Bounded, Served}
use minde.Events.Registry.Invariant.{SetInv}

-- A round retires the subscriber, or keeps it with a writer where it needs one.
pub data Round (s : Subscriber) (o : Option Subscriber) : Type 0 where
  retires : o ≡ none → Round s o
  keeps :
      (s' : Subscriber)
      → o ≡ some s'
      → s'.id ≡ s.id
      → s'.pending ≡ s.pending
      → Served s'
      → Round s o

module _ (loop : LoopHandle) where
  open loop use {Sources, insert_source}

  flush_one-Round : (s : Subscriber) (src : Sources) → Round s (flush_one loop s src).0
  unfolding flush_one
  flush_one-Round s src = elim (Bool-cases (needs_writer s)) [
    | inr fine ↦ rw fine (keeps s refl refl refl fine)
    | inl needy ↦ elim (Option-cases (insert_source src)) [
      | inl failed ↦ rw (needy, failed) (retires refl)
      | inr (p, inserted) ↦
          rw (needy, inserted)
            (keeps (record s { writer = some p.0 }) refl refl refl (ground arith))
    ]
  ]

  -- What the loop makes of the list.
  record Flushed (ss ss' : List Subscriber) : Type 0 where
    size : length ss' ≤ length ss
    backlog : All Bounded ss → All Bounded ss'
    served : All Served ss'
    ids : (low high : ℕ) → Ascending low ss high → Ascending low ss' high

  keep-Flushed :
      (s : Subscriber) (o : Option Subscriber) (ss ss' : List Subscriber)
      → Round s o
      → Flushed ss ss'
      → Flushed (s ∷ ss) (keep o ss')
  keep-Flushed s o ss ss' (retires e) v = rw e (record {
    size = omega (arith, v.size);
    backlog = λ all. v.backlog all.1;
    served = v.served;
    ids = λ low high a.
        Ascending-mono (s.id + 1) low high ss' (omega (arith, a.0)) (v.ids (s.id + 1) high a.1);
  })
  keep-Flushed s o ss ss' (keeps s' e i p w) v = rw e (record {
    size = omega (arith, v.size);
    backlog = λ all. (rw p all.0, v.backlog all.1);
    served = (w, v.served);
    ids = λ low high a. (omega (arith, a.0), rw i (v.ids (s.id + 1) high a.1));
  })

  flush_each-Flushed :
      (ss : List Subscriber) (src : Sources) → Flushed ss (flush_each loop ss src).0
  unfolding flush_each
  flush_each-Flushed [] src = record {
    size = omega arith;
    backlog = λ all. all;
    served = tt;
    ids = λ low high a. a;
  }
  flush_each-Flushed (s ∷ ss) src =
      keep-Flushed s (flush_one loop s src).0 ss _ (flush_one-Round s src)
        (flush_each-Flushed ss (flush_one loop s src).1)

  -- After the ping callback nothing is retired, and every subscriber with pending bytes has a
  -- source that waits to write them.
  pub ping_ready-SetInv :
      (set : SubscriberSet) (src : Sources) → SetInv set → SetInv (ping_ready loop set src).0
  unfolding ping_ready
  ping_ready-SetInv set src v =
      let f = flush_each-Flushed set.subscribers (remove_all loop set.retired src) in
      record {
        ids = f.ids 0 set.next_id v.ids;
        cap = omega (arith, f.size, v.cap);
        backlog = f.backlog v.backlog;
        ready = v.ready;
        quiet = λ _. (refl, f.served);
      }
