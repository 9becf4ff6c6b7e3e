-- ===== src/Events/Publish.antt =====
-- src/events.rs: a line goes to the journal and to the subscribers (`publish_line`).
mod Examples
use minde.Base.{
  ℕ, ◌+◌, ◌<◌, ◌≡◌, refl, ◌⊎◌, inl, inr, List, [], ◌∷◌, ◌++◌, Option, none, some, length,
  Bool-cases, if◌then◌else◌, true, false, word64, arith,
}
use minde.Events.Journal.{EventJournal, record_line}
use minde.Events.Journal.History.{Line}
use minde.Events.Journal.Retention.{Inv, record_line-Inv}
use minde.Events.Subscriber.{Subscriber}
use minde.Events.Registry.{SubscriberSet, is_empty, publish_to}
use minde.Events.Registry.Rules.{Ascending}
use minde.Events.Registry.Mailboxes.{inbox, given_more, publish_to-inbox}

-- The subscribers get the line with a newline.
abbrev pub publish_bytes : SubscriberSet → List ℕ → SubscriberSet
unfolding publish_to
publish_bytes set line = if is_empty set.subscribers then set else publish_to set (line ++ 10 ∷ [])

unfoldable pub publish_line :
    EventJournal → SubscriberSet → List ℕ → Option (EventJournal × SubscriberSet)
unfolding record_line publish_bytes
publish_line j set line = elim (record_line j line) [
  | none ↦ none
  | some j' ↦ some (j', publish_bytes set line)
]

abbrev pub Reached : List ℕ → SubscriberSet → SubscriberSet → Type 0
Reached bytes set set' =
    (i : ℕ)
    → (inbox i set'.subscribers ≡ none)
      ⊎ (inbox i set'.subscribers ≡ given_more bytes (inbox i set.subscribers))

empty_inbox : (ss : List Subscriber) (i : ℕ) → is_empty ss ≡ true → inbox i ss ≡ none
empty_inbox [] i e = refl
empty_inbox (s ∷ ss) i e = absurd (ground arith)

publish_bytes-Reached :
    (set : SubscriberSet) (line : List ℕ)
    → Ascending 0 set.subscribers set.next_id
    → Reached (line ++ 10 ∷ []) set (publish_bytes set line)
unfolding publish_bytes
publish_bytes-Reached set line a i = elim (Bool-cases (is_empty set.subscribers)) [
  | inl e ↦ rw e (inl (empty_inbox set.subscribers i e))
  | inr e ↦ rw e (publish_to-inbox set (line ++ 10 ∷ []) i a)
]

-- With a journal in step with its history of fewer than 2^64 - 1 lines and a set whose ids rise, a
-- published line never panics; it is the newest line of the journal's history, and goes with its
-- newline, completely and behind all else, to each subscriber, or disconnects it.
pub publish_line-Reached :
    (h : List Line) (j : EventJournal) (set : SubscriberSet) (line : List ℕ)
    → Inv h j
    → length h + 1 < word64
    → Ascending 0 set.subscribers set.next_id
    → (j' : EventJournal) × (set' : SubscriberSet) × (publish_line j set line ≡ some (j', set'))
      × Inv (h ++ line ∷ []) j'
      × Reached (line ++ 10 ∷ []) set set'
unfolding publish_line
publish_line-Reached h j set line v b a =
    let (j', e, v') = record_line-Inv h line j v b in
    (j', publish_bytes set line, rw (e, publish_line) refl, v', publish_bytes-Reached set line a)
