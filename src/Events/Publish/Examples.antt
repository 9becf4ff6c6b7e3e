-- ===== src/Events/Publish/Examples.antt =====
-- A publication of src/events.rs.
use minde.Base.{◌≡◌, [], ◌∷◌, some, none, true, false, arith}
use minde.Events.Journal.{EventJournal, journal_default}
use minde.Events.Journal.Retention.{Inv, journal_default-Inv}
use minde.Events.Registry.{SubscriberSet}
use minde.Events.Publish.{publish_line, Reached, publish_line-Reached}

-- A subscriber whose socket takes what it is given.
abbrev one_reader : SubscriberSet
one_reader = record {
  subscribers =
      record {
        id = 4;
        stream = record { attempts = []; sent = [] };
        pending = [];
        watcher = some 1;
        writer = none;
      }
      ∷ [];
  next_id = 5;
  ping = true;
  pinged = false;
  retired = [];
}

publish_line-Reached_example :
    (j : EventJournal) × (set : SubscriberSet) × (publish_line journal_default one_reader (7 ∷ [])
      ≡ some (j, set))
    × Inv ((7 ∷ []) ∷ []) j
    × Reached (7 ∷ 10 ∷ []) one_reader set
publish_line-Reached_example =
    publish_line-Reached [] journal_default one_reader (7 ∷ []) journal_default-Inv (omega arith)
      (omega arith, omega arith)
