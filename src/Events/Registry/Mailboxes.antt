-- ===== src/Events/Registry/Mailboxes.antt =====
-- src/events.rs: the abstract view of the subscribers, each with the bytes it was given.
use minde.Base.{
  ℕ, ◌+◌, ◌≤◌, ◌<◌, ◌≡◌, refl, ap, ◌∙◌, ◌⊎◌, inl, inr, List, [], ◌∷◌, ◌++◌, Option, none, some,
  Bool, true, false, length, ◌==◌, Bool-cases, arith,
}
use minde.Events.Subscriber.{IoResult, ok, err, Subscriber, deliver, max_backlog_bytes}
use minde.Events.Subscriber.Bytes.{owed, Reaches, deliver-Reaches}
use minde.Events.Subscriber.Eviction.{Healthy, deliver_kept}
use minde.Events.Registry.{publish_one, publish_each, publish_to, SubscriberSet}
use minde.Events.Registry.Rules.{Ascending, publish_each-Published}

abbrev pub find : ℕ → List Subscriber → Option Subscriber
find i [] = none
find i (s ∷ ss) = elim (s.id == i) [ true ↦ some s | false ↦ find i ss ]

-- What the subscriber with the id `i` was given, if it is connected.
abbrev pub inbox : ℕ → List Subscriber → Option (List ℕ)
inbox i [] = none
inbox i (s ∷ ss) = elim (s.id == i) [ true ↦ some (owed s) | false ↦ inbox i ss ]

abbrev pub given_more : List ℕ → Option (List ℕ) → Option (List ℕ)
given_more bytes none = none
given_more bytes (some given) = some (given ++ bytes)

inbox_below :
    (i low high : ℕ) (ss : List Subscriber) → Ascending low ss high → i < low → inbox i ss ≡ none
inbox_below i low high [] a h = refl
inbox_below i low high (s ∷ ss) a h =
    ground (arith, inbox_below i (s.id + 1) high ss a.1 (omega (arith, a.0)))

publish_one-inbox :
    (bytes : List ℕ) (i : ℕ) (s : Subscriber) (ss kept : List Subscriber) (retired : List ℕ)
    (changed : Bool) (r : IoResult) (s' : Subscriber) (high : ℕ)
    → Reaches (owed s ++ bytes) s (r, s')
    → Ascending (s.id + 1) kept high
    → (inbox i kept ≡ none) ⊎ (inbox i kept ≡ given_more bytes (inbox i ss))
    → let after = inbox i (publish_one (r, s') (kept, retired, changed)).0 in
      (after ≡ none) ⊎ (after ≡ given_more bytes (inbox i (s ∷ ss)))
unfolding publish_one
publish_one-inbox bytes i s ss kept retired changed ok s' high v a rec =
    ground (arith, v.complete refl, v.same_id)
publish_one-inbox bytes i s ss kept retired changed (err e) s' high v a rec =
    ground (arith, inbox_below i (s.id + 1) high kept a)

pub publish_each-inbox :
    (bytes : List ℕ) (i low high : ℕ) (ss : List Subscriber)
    → Ascending low ss high
    → let after = inbox i (publish_each ss bytes).0 in
      (after ≡ none) ⊎ (after ≡ given_more bytes (inbox i ss))
unfolding publish_each
publish_each-inbox bytes i low high [] a = inl refl
publish_each-inbox bytes i low high (s ∷ ss) a =
    let d = deliver s bytes in
    let r = publish_each ss bytes in
    publish_one-inbox bytes i s ss r.0 r.1 r.2 d.0 d.1 high (deliver-Reaches s bytes)
      ((publish_each-Published bytes ss).ids (s.id + 1) high a.1)
      (publish_each-inbox bytes i (s.id + 1) high ss a.1)

publish_to_subscribers :
    (set : SubscriberSet) (bytes : List ℕ)
    → (publish_to set bytes).subscribers ≡ (publish_each set.subscribers bytes).0
unfolding publish_to
publish_to_subscribers set bytes = ground arith

-- In a set whose ids rise, a publication reaches each subscriber completely and behind all that it
-- was given before, or disconnects it.
pub publish_to-inbox :
    (set : SubscriberSet) (bytes : List ℕ) (i : ℕ)
    → Ascending 0 set.subscribers set.next_id
    → let after = inbox i (publish_to set bytes).subscribers in
      (after ≡ none) ⊎ (after ≡ given_more bytes (inbox i set.subscribers))
publish_to-inbox set bytes i a =
    rw (publish_to_subscribers set bytes)
      (publish_each-inbox bytes i 0 set.next_id set.subscribers a)

publish_one_hit :
    (i : ℕ) (r : IoResult) (s : Subscriber) (rest : List Subscriber × List ℕ × Bool)
    → r ≡ ok
    → (s.id == i) ≡ true
    → inbox i (publish_one (r, s) rest).0 ≡ some (owed s)
unfolding publish_one
publish_one_hit i ok s (kept, retired, changed) o e = rw (e, inbox)
publish_one_hit i (err x) s (kept, retired, changed) o e = cc

publish_one_miss :
    (i : ℕ) (r : IoResult) (s : Subscriber) (rest : List Subscriber × List ℕ × Bool)
    → (s.id == i) ≡ false
    → inbox i (publish_one (r, s) rest).0 ≡ inbox i rest.0
unfolding publish_one
publish_one_miss i ok s (kept, retired, changed) e = rw (e, inbox)
publish_one_miss i (err x) s (kept, retired, changed) e = refl

publish_each_kept :
    (bytes : List ℕ) (i : ℕ) (t : Subscriber) (ss : List Subscriber)
    → find i ss ≡ some t
    → Healthy t.stream.attempts
    → length t.pending + length bytes ≤ max_backlog_bytes
    → inbox i (publish_each ss bytes).0 ≡ some (owed t ++ bytes)
unfolding publish_each
publish_each_kept bytes i t [] f h room = cc
publish_each_kept bytes i t (s ∷ ss) f h room =
    let d = deliver s bytes in
    let v = deliver-Reaches s bytes in
    elim (Bool-cases (s.id == i)) [
      | inl hit ↦
          let found : some s ≡ some t = rw (hit, find) at f in
          let same : s ≡ t = cc in
          let fine : d.0 ≡ ok =
            deliver_kept s bytes (rw same h)
              (ground (arith, ap (λ (x : Subscriber). length x.pending) same)) in
          publish_one_hit i d.0 d.1 (publish_each ss bytes) fine (rw v.same_id hit)
          ∙ ap some (v.complete fine ∙ ap (λ x. owed x ++ bytes) same)
      | inr miss ↦
          publish_one_miss i d.0 d.1 (publish_each ss bytes) (rw v.same_id miss)
          ∙ publish_each_kept bytes i t ss (rw (miss, find) at f) h room
    ]

-- A subscriber whose socket does not fail, and whose backlog has room for the line, stays connected
-- and is given the line.
pub publish_to-kept :
    (set : SubscriberSet) (bytes : List ℕ) (i : ℕ) (t : Subscriber)
    → find i set.subscribers ≡ some t
    → Healthy t.stream.attempts
    → length t.pending + length bytes ≤ max_backlog_bytes
    → inbox i (publish_to set bytes).subscribers ≡ some (owed t ++ bytes)
publish_to-kept set bytes i t f h room =
    rw (publish_to_subscribers set bytes) (publish_each_kept bytes i t set.subscribers f h room)
