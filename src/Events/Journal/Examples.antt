-- ===== src/Events/Journal/Examples.antt =====
-- Runs of the journal of src/events.rs.
use minde.Base.{ℕ, ◌≡◌, refl, List, [], ◌∷◌, some, true, arith}
use minde.Events.Journal.{EventJournal, journal_default, over_limit, evict, record_line, since}
use minde.Events.Journal.History.{Line, page_spec}
use minde.Events.Journal.Retention.{Inv, journal_default-Inv, record_line-Inv}
use minde.Events.Journal.Replay.{record_all, record_all-since}

abbrev focus : Line
focus = 102 ∷ 111 ∷ []

abbrev result : Line
result = 114 ∷ []

abbrev two_lines : List Line
two_lines = focus ∷ result ∷ []

abbrev after_two : EventJournal
after_two = record {
  sequence = 2;
  floor = 0;
  bytes = 3;
  events = record { sequence = 1; line = focus } ∷ record { sequence = 2; line = result } ∷ [];
}

two_recorded : record_all journal_default two_lines ≡ some after_two
unfolding record_all journal_default record_line evict over_limit
two_recorded = refl

since_one : (since after_two 1).events ≡ record { sequence = 2; line = result } ∷ []
unfolding since
since_one = refl

since_future : (since after_two 3).gap ≡ true
unfolding since
since_future = refl

record_line-Inv_example :
    (j : EventJournal) × (record_line journal_default focus ≡ some j) × Inv (focus ∷ []) j
record_line-Inv_example = record_line-Inv [] focus journal_default journal_default-Inv (omega arith)

record_all-since_example :
    (j : EventJournal) × (record_all journal_default two_lines ≡ some j)
    × ((c : ℕ) → since j c ≡ page_spec two_lines c)
record_all-since_example = record_all-since two_lines (omega arith)
