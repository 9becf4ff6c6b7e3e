-- ===== src/Events/Registry/Examples.antt =====
-- Runs of the subscribers of src/events.rs.
use minde.Base.{ℕ, ◌≤◌, ◌<◌, ◌≡◌, refl, ◌⊎◌, [], ◌∷◌, none, some, true, false, count, arith}
use minde.Events.Subscriber.{takes, would_block, UnixStream, deliver, try_flush}
use minde.Calloop.Table.{Table, without, table_loop}
use minde.Events.Registry.{
  SubscriberSet, publish_to, ping_ready, writer_ready, register_subscriber, flush_one,
  writer_registered, remove_all, locate,
}
use minde.Events.Registry.Mailboxes.{inbox, publish_to-inbox, publish_to-kept}
use minde.Events.Registry.Invariant.{SetInv}
use minde.Events.Registry.Sources.{Owned}
use minde.Events.Registry.Runs.{initial_set, publishes, pings, accepts, here, later, Reach-safe}

abbrev reader : UnixStream
reader = record { attempts = takes 2 ∷ would_block ∷ takes 9 ∷ []; sent = [] }

-- The reader is connected, is given three bytes of which the socket takes two, and is pinged.
abbrev connected : SubscriberSet × Table
connected = register_subscriber table_loop reader true initial_set (5, 0 ∷ 1 ∷ [])

abbrev backlogged : SubscriberSet × Table
backlogged = (publish_to connected.0 (7 ∷ 8 ∷ 9 ∷ []), connected.1)

abbrev pinged : SubscriberSet × Table
pinged = ping_ready table_loop backlogged.0 backlogged.1

pinged_runs : pinged.0 ≡ record {
  subscribers =
      record {
        id = 0;
        stream = record { attempts = takes 9 ∷ []; sent = 7 ∷ 8 ∷ [] };
        pending = 9 ∷ [];
        watcher = some 5;
        writer = some 6;
      }
      ∷ [];
  next_id = 1;
  ping = true;
  pinged = false;
  retired = [];
}
unfolding register_subscriber initial_set publish_to deliver ping_ready flush_one writer_registered
    remove_all
pinged_runs = refl

drained_runs : (writer_ready table_loop 0 6 pinged.0 pinged.1).1.1 ≡ 5 ∷ 0 ∷ 1 ∷ []
unfolding register_subscriber initial_set publish_to deliver ping_ready flush_one writer_registered
    remove_all writer_ready locate try_flush without
drained_runs = refl

base_live : (t : ℕ) → 0 < count t (0 ∷ 1 ∷ []) → t ≤ 1
base_live t h = ground arith

Reach-safe_example : SetInv pinged.0 × Owned table_loop (λ t. t ≤ 1) pinged.0 pinged.1
Reach-safe_example =
    Reach-safe table_loop (λ t. t ≤ 1) (5, 0 ∷ 1 ∷ []) pinged base_live
      (later
        (later (later here (accepts reader true (unfold initial_set in omega arith) refl))
          (publishes (7 ∷ 8 ∷ 9 ∷ []) refl))
        (pings refl))

abbrev two_readers : SubscriberSet
two_readers = record {
  subscribers =
      record { id = 3; stream = reader; pending = []; watcher = none; writer = none }
      ∷ record { id = 4; stream = reader; pending = 1 ∷ []; watcher = none; writer = none }
      ∷ [];
  next_id = 5;
  ping = true;
  pinged = false;
  retired = [];
}

publish_to-inbox_example :
    let after = inbox 4 (publish_to two_readers (7 ∷ [])).subscribers in
    (after ≡ none) ⊎ (after ≡ some (1 ∷ 7 ∷ []))
publish_to-inbox_example = publish_to-inbox two_readers (7 ∷ []) 4 (omega arith)

publish_to-kept_example : inbox 4 (publish_to two_readers (7 ∷ [])).subscribers ≡ some (1 ∷ 7 ∷ [])
publish_to-kept_example =
    publish_to-kept two_readers (7 ∷ []) 4
      (record { id = 4; stream = reader; pending = 1 ∷ []; watcher = none; writer = none }) refl tt
      (omega arith)
