-- ===== src/Events/Journal.antt =====
-- src/events.rs: the bounded journal of published lines (`EventJournal`, `JournalPage`).
-- A line is the list of its bytes. `none` is the panic of `expect("bounded journal entry")`.
-- `u64` and `usize` counters wrap, as in a release build.
pub mod History
pub mod Eviction
pub mod Retention
pub mod Replay
mod Examples
use minde.Base.{
  ℕ, ◌+◌, ◌-◌, ◌%◌, List, [], ◌∷◌, ◌++◌, Option, none, some, Bool, ◌||◌, length, ltb, leb,
  if◌then◌else◌, word64,
}

abbrev pub max_journal_events : ℕ
max_journal_events = 128

abbrev pub max_journal_bytes : ℕ
max_journal_bytes = 16384

pub record JournalEvent : Type 0 where
  pub sequence : ℕ
  pub line : List ℕ

pub record JournalPage : Type 0 where
  pub sequence : ℕ
  pub gap : Bool
  pub events : List JournalEvent

pub record EventJournal : Type 0 where
  pub sequence : ℕ
  pub floor : ℕ
  pub bytes : ℕ
  pub events : List JournalEvent

unfoldable pub journal_default : EventJournal
journal_default = record { sequence = 0; floor = 0; bytes = 0; events = [] }

-- The loop's test: too many rows, or too many bytes with the new line.
pub over_limit : List JournalEvent → ℕ → ℕ → Bool
over_limit events bytes len =
    leb max_journal_events (length events) || ltb max_journal_bytes (bytes + len)

-- The `while` loop of `record`: rows leave from the front until the new line fits.
pub evict : List JournalEvent → ℕ → ℕ → ℕ → Option (List JournalEvent × ℕ × ℕ)
evict [] bytes floor len = if over_limit [] bytes len then none else some ([], bytes, floor)
evict (e ∷ es) bytes floor len =
    let rest = evict es ((bytes + word64 - length e.line) % word64) e.sequence len in
    if over_limit (e ∷ es) bytes len then rest else some (e ∷ es, bytes, floor)

abbrev push_row : ℕ → List ℕ → Option (List JournalEvent × ℕ × ℕ) → Option EventJournal
push_row sequence line none = none
push_row sequence line (some (events, bytes, floor)) = some (record {
  sequence = sequence;
  floor = floor;
  bytes = (bytes + length line) % word64;
  events = events ++ record { sequence = sequence; line = line } ∷ [];
})

-- `EventJournal::record`.
unfoldable pub record_line : EventJournal → List ℕ → Option EventJournal
record_line j line =
    let sequence = (j.sequence + 1) % word64 in
    if ltb max_journal_bytes (length line)
    then some (record { sequence = sequence; floor = sequence; bytes = 0; events = [] })
    else push_row sequence line (evict j.events j.bytes j.floor (length line))

-- The rows that `since` clones: those past the cursor.
pub after_cursor : ℕ → List JournalEvent → List JournalEvent
after_cursor cursor [] = []
after_cursor cursor (e ∷ es) =
    let rest = after_cursor cursor es in if ltb cursor e.sequence then e ∷ rest else rest

-- `EventJournal::since`.
unfoldable pub since : EventJournal → ℕ → JournalPage
unfolding after_cursor
since j cursor =
    let gap = ltb cursor j.floor || ltb j.sequence cursor in
    record {
      sequence = j.sequence;
      gap = gap;
      events = if gap then [] else after_cursor cursor j.events;
    }
