-- ===== src/Events/Subscriber/Examples.antt =====
-- Runs of delivery to a subscriber of src/events.rs.
use minde.Base.{◌≡◌, refl, [], ◌∷◌, none}
use minde.Events.Subscriber.{
  takes, would_block, interrupted, ok, err, write_zero, Subscriber, deliver,
}
use minde.Events.Subscriber.Bytes.{Reaches, deliver-Reaches}

-- The socket takes one byte, is interrupted, takes one more, and is full.
abbrev slow : Subscriber
slow = record {
  id = 1;
  stream = record { attempts = takes 1 ∷ interrupted ∷ takes 1 ∷ would_block ∷ []; sent = [] };
  pending = 4 ∷ [];
  watcher = none;
  writer = none;
}

slow_runs :
    deliver slow (5 ∷ 6 ∷ [])
    ≡ (ok, record slow { stream = record { attempts = []; sent = 4 ∷ 5 ∷ [] }; pending = 6 ∷ [] })
unfolding deliver
slow_runs = refl

abbrev gone : Subscriber
gone = record slow { stream = record { attempts = takes 0 ∷ []; sent = [] } }

gone_runs : (deliver gone (5 ∷ [])).0 ≡ err write_zero
unfolding deliver
gone_runs = refl

deliver-Reaches_example : Reaches (4 ∷ 5 ∷ 6 ∷ []) slow (deliver slow (5 ∷ 6 ∷ []))
deliver-Reaches_example = deliver-Reaches slow (5 ∷ 6 ∷ [])
