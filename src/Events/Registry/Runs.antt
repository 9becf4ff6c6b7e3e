-- ===== src/Events/Registry/Runs.antt =====
-- src/events.rs: the set and the event loop after any publications and callbacks.
use minde.Base.{ℕ, ◌+◌, ◌<◌, ◌≡◌, refl, inl, List, [], Bool, true, false, some, word64, arith}
use minde.Events.Subscriber.{UnixStream, Subscriber}
use minde.Calloop.{LoopHandle}
use minde.Events.Registry.{
  SubscriberSet, publish_to, locate, writer_ready, watcher_ready, ping_ready, register_subscriber,
}
use minde.Events.Registry.Invariant.{
  SetInv, publish_to-SetInv, writer_ready-SetInv, watcher_ready-SetInv, register_subscriber-SetInv,
}
use minde.Events.Registry.Ping.{ping_ready-SetInv}
use minde.Events.Registry.Sources.{Owned, publish_to-Owned, writer_ready-Owned, watcher_ready-Owned}
use minde.Events.Registry.Steps.{ping_ready-Owned, register_subscriber-Owned}

-- The set that `init` leaves: nobody is connected, and the ping source is registered.
unfoldable pub initial_set : SubscriberSet
initial_set = record { subscribers = []; next_id = 0; ping = true; pinged = false; retired = [] }

module _ (loop : LoopHandle) (Base : ℕ → Type 0) where
  open loop use {Sources, Live}

  -- calloop calls a source under the token that its registration returned.
  abbrev pub WriterFires : ℕ → ℕ → SubscriberSet → Type 0
  WriterFires id own set =
      (before after : List Subscriber) (s : Subscriber)
      → locate id set.subscribers ≡ some (before, s, after)
      → s.writer ≡ some own

  abbrev pub WatcherFires : ℕ → ℕ → SubscriberSet → Type 0
  WatcherFires id own set =
      (before after : List Subscriber) (s : Subscriber)
      → locate id set.subscribers ≡ some (before, s, after)
      → s.watcher ≡ some own

  -- One event: a publication from any thread, or a callback of the event loop.
  pub data Step (a b : SubscriberSet × Sources) : Type 0 where
    publishes : (bytes : List ℕ) → b ≡ (publish_to a.0 bytes, a.1) → Step a b
    drains : (id own : ℕ) → WriterFires id own a.0 → b ≡ writer_ready loop id own a.0 a.1 → Step a b
    hangs_up :
        (id own : ℕ) → WatcherFires id own a.0 → b ≡ watcher_ready loop id own a.0 a.1 → Step a b
    pings : b ≡ ping_ready loop a.0 a.1 → Step a b
    accepts :
        (stream : UnixStream) (nonblocking : Bool)
        → a.0.next_id + 1 < word64
        → b ≡ register_subscriber loop stream nonblocking a.0 a.1
        → Step a b

  pub data Reach (a : SubscriberSet × Sources) : SubscriberSet × Sources → Type 0 where
    here : Reach a a
    later : {b c : SubscriberSet × Sources} → Reach a b → Step b c → Reach a c

  Step-SetInv : (a b : SubscriberSet × Sources) → Step a b → SetInv a.0 → SetInv b.0
  Step-SetInv a b (publishes bytes e) v = rw e (publish_to-SetInv a.0 bytes v)
  Step-SetInv a b (drains id own f e) v = rw e (writer_ready-SetInv loop id own a.0 a.1 v)
  Step-SetInv a b (hangs_up id own f e) v = rw e (watcher_ready-SetInv loop id own a.0 a.1 v)
  Step-SetInv a b (pings e) v = rw e (ping_ready-SetInv loop a.0 a.1 v)
  Step-SetInv a b (accepts stream n h e) v =
      rw e (register_subscriber-SetInv loop stream n a.0 a.1 h v)

  Step-Owned :
      (a b : SubscriberSet × Sources) → Step a b → Owned loop Base a.0 a.1 → Owned loop Base b.0 b.1
  Step-Owned a b (publishes bytes e) v = rw e (publish_to-Owned loop Base a.0 a.1 bytes v)
  Step-Owned a b (drains id own f e) v = rw e (writer_ready-Owned loop Base id own a.0 a.1 f v)
  Step-Owned a b (hangs_up id own f e) v = rw e (watcher_ready-Owned loop Base id own a.0 a.1 f v)
  Step-Owned a b (pings e) v = rw e (ping_ready-Owned loop Base a.0 a.1 v)
  Step-Owned a b (accepts stream n h e) v =
      rw e (register_subscriber-Owned loop Base stream n a.0 a.1 v)

  initial_set-SetInv : SetInv initial_set
  unfolding initial_set
  initial_set-SetInv = record {
    ids = omega arith;
    cap = omega arith;
    backlog = tt;
    ready = refl;
    quiet = λ _. (refl, tt);
  }

  -- After any events, with fewer than 2^64 connections: at most 16 subscribers, with rising ids and backlogs within the ceiling;
  -- unless a ping is on its way, every subscriber with pending bytes has a source that waits to
  -- write them; and no source of the event loop is leaked.
  pub Reach-safe :
      (src : Sources) (b : SubscriberSet × Sources)
      → ((t : ℕ) → Live src t → Base t)
      → Reach (initial_set, src) b
      → SetInv b.0 × Owned loop Base b.0 b.1
  unfolding initial_set
  Reach-safe src b base here = (initial_set-SetInv, λ t l. inl (base t l))
  Reach-safe src b base (later {b = c} r st) =
      let (v, w) = Reach-safe src c base r in (Step-SetInv c b st v, Step-Owned c b st w)
