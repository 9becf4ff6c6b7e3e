-- ===== src/Events/Registry.antt =====
-- src/events.rs: the set of subscribers and the callbacks of the event loop.
-- calloop is a parameter: its sources, the registration of one (which may fail, also because the
-- socket cannot be cloned), and the removal of one.
pub mod Rules
pub mod Lists
pub mod Invariant
pub mod Ping
pub mod Sources
pub mod Steps
pub mod Runs
pub mod Mailboxes
mod Examples
use minde.Base.{
  ℕ, ◌+◌, ◌%◌, ◌≡◌, ◌≢◌, ◌⊎◌, List, [], ◌∷◌, ◌++◌, Option, none, some, Bool, true, false, not, ◌&&◌,
  ◌||◌, length, leb, ◌==◌, if◌then◌else◌, word64,
}
use minde.Calloop.{LoopHandle}
use minde.Events.Subscriber.{IoResult, ok, err, UnixStream, Subscriber, try_flush, deliver}

abbrev pub max_subscribers : ℕ
max_subscribers = 16

-- `ping` is whether the ping source is registered, `pinged` whether it was pinged since it last ran.
pub record SubscriberSet : Type 0 where
  pub subscribers : List Subscriber
  pub next_id : ℕ
  pub ping : Bool
  pub pinged : Bool
  pub retired : List ℕ

abbrev pub is_none {ℓ} : {A : Type ℓ} → Option A → Bool
is_none none = true
is_none (some a) = false

abbrev pub is_empty {ℓ} : {A : Type ℓ} → List A → Bool
is_empty [] = true
is_empty (x ∷ xs) = false

abbrev pub opt_list : Option ℕ → List ℕ
opt_list none = []
opt_list (some t) = t ∷ []

-- The tokens that `retire` passes on; the subscriber itself is shut down and dropped.
abbrev pub tokens_of : Subscriber → List ℕ
tokens_of s = opt_list s.watcher ++ opt_list s.writer

abbrev pub keep : Option Subscriber → List Subscriber → List Subscriber
keep none ss = ss
keep (some s) ss = s ∷ ss

-- Bytes are pending and no source waits to write them.
abbrev pub needs_writer : Subscriber → Bool
needs_writer s = not (is_empty s.pending) && is_none s.writer

pub wake : SubscriberSet → SubscriberSet
wake set = if set.ping then record set { pinged = true } else set

-- The loop of `publish_to`: the subscribers kept, the tokens retired, and `changed`.
pub publish_one :
    IoResult × Subscriber → List Subscriber × List ℕ × Bool → List Subscriber × List ℕ × Bool
publish_one (ok, s) (kept, retired, changed) = (s ∷ kept, retired, needs_writer s || changed)
publish_one (err e, s) (kept, retired, changed) = (kept, tokens_of s ++ retired, true)

pub publish_each : List Subscriber → List ℕ → List Subscriber × List ℕ × Bool
unfolding publish_one
publish_each [] bytes = ([], [], false)
publish_each (s ∷ ss) bytes = publish_one (deliver s bytes) (publish_each ss bytes)

unfoldable pub publish_to : SubscriberSet → List ℕ → SubscriberSet
unfolding publish_each wake
publish_to set bytes =
    let (kept, retired, changed) = publish_each set.subscribers bytes in
    let set' = record set { subscribers = kept; retired = set.retired ++ retired } in
    if changed then wake set' else set'

-- The subscriber that `position(|s| s.id == id)` finds, with those before and after it.
pub locate : ℕ → List Subscriber → Option (List Subscriber × Subscriber × List Subscriber)
locate id [] = none
locate id (s ∷ ss) = if s.id == id then some ([], s, ss) else elim (locate id ss) [
  | none ↦ none
  | some (before, found, after) ↦ some (s ∷ before, found, after)
]

module _ (loop : LoopHandle) where
  open loop use {Sources, insert_source, remove}

  pub remove_all : List ℕ → Sources → Sources
  remove_all [] src = src
  remove_all (t ∷ ts) src = remove_all ts (remove t src)

  -- `retire(index)`, followed by the removal of everything retired.
  pub drop_located :
      List Subscriber
      → Subscriber
      → List Subscriber
      → SubscriberSet
      → Sources
      → SubscriberSet × Sources
  drop_located before s after set src = (
    record set { subscribers = before ++ after; retired = [] },
    remove_all (set.retired ++ tokens_of s) src,
  )

  pub writer_flushed :
      List Subscriber
      → List Subscriber
      → ℕ
      → IoResult × Subscriber
      → SubscriberSet
      → Sources
      → SubscriberSet × Sources
  writer_flushed before after own (ok, s) set src =
      if is_empty s.pending
      then (
        record set { subscribers = before ++ record s { writer = none } ∷ after },
        remove own src,
      )
      else (record set { subscribers = before ++ s ∷ after }, src)
  writer_flushed before after own (err e, s) set src =
      let (set', src') = drop_located before (record s { writer = none }) after set src in
      (set', remove own src')

  -- The write source `own` of the subscriber `id` is ready (`register_writer`).
  pub writer_ready : ℕ → ℕ → SubscriberSet → Sources → SubscriberSet × Sources
  unfolding writer_flushed
  writer_ready id own set src = elim (locate id set.subscribers) [
    | none ↦ (set, remove own src)
    | some (before, s, after) ↦ writer_flushed before after own (try_flush s) set src
  ]

  -- The peer of the subscriber `id` hung up: its watch source `own` fires (`register_subscriber`).
  pub watcher_ready : ℕ → ℕ → SubscriberSet → Sources → SubscriberSet × Sources
  unfolding drop_located
  watcher_ready id own set src = elim (locate id set.subscribers) [
    | none ↦ (set, remove own src)
    | some (before, s, after) ↦
        let (set', src') = drop_located before (record s { watcher = none }) after set src in
        (set', remove own src')
  ]

  -- One round of the ping callback's loop: a subscriber with pending bytes gets a writer, and is
  -- retired if its source cannot be registered.
  pub writer_registered : Subscriber → Option (ℕ × Sources) → Sources → Option Subscriber × Sources
  writer_registered s none src = (none, remove_all (tokens_of s) src)
  writer_registered s (some (t, src')) src = (some (record s { writer = some t }), src')

  pub flush_one : Subscriber → Sources → Option Subscriber × Sources
  unfolding writer_registered
  flush_one s src =
      if needs_writer s then writer_registered s (insert_source src) src else (some s, src)

  pub flush_each : List Subscriber → Sources → List Subscriber × Sources
  flush_each [] src = ([], src)
  flush_each (s ∷ ss) src =
      let (s', src') = flush_one s src in
      let (ss', src'') = flush_each ss src' in (keep s' ss', src'')

  -- The ping source runs (`register_flush`).
  pub ping_ready : SubscriberSet → Sources → SubscriberSet × Sources
  unfolding flush_each
  ping_ready set src =
      let (kept, src') = flush_each set.subscribers (remove_all set.retired src) in
      (record set { subscribers = kept; retired = []; pinged = false }, src')

  -- A connection is accepted; `nonblocking` is whether the socket could be made non-blocking.
  pub register_subscriber : UnixStream → Bool → SubscriberSet → Sources → SubscriberSet × Sources
  register_subscriber stream nonblocking set src =
      if nonblocking
      then if leb max_subscribers (length set.subscribers)
        then (set, src)
        else elim (insert_source src) [
          | none ↦ (record set { next_id = (set.next_id + 1) % word64 }, src)
          | some (t, src') ↦ (
            record set {
              next_id = (set.next_id + 1) % word64;
              subscribers =
                  set.subscribers
                  ++ record {
                    id = set.next_id;
                    stream = stream;
                    pending = [];
                    watcher = some t;
                    writer = none;
                  }
                    ∷ [];
            },
            src',
          )
        ]
      else (set, src)
