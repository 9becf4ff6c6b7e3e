-- ===== src/Events/Registry/Rules.antt =====
-- src/events.rs: what one publication does to the subscribers.
use minde.Base.{
  ℕ, suc, ◌+◌, ◌≤◌, ◌≡◌, refl, List, [], ◌∷◌, ◌++◌, Bool, false, length, All, count, count-append,
  arith,
}
use minde.Events.Subscriber.{IoResult, ok, err, Subscriber, deliver, max_backlog_bytes}
use minde.Events.Subscriber.Bytes.{owed, Reaches, deliver-Reaches}
use minde.Events.Registry.{tokens_of, needs_writer, publish_one, publish_each}

-- The tokens that the subscribers hold.
abbrev pub held : List Subscriber → List ℕ
held [] = []
held (s ∷ ss) = tokens_of s ++ held ss

-- Ids rise along the list, from `low` on, and stay below `high`.
abbrev pub Ascending : ℕ → List Subscriber → ℕ → Type 0
Ascending low [] high = low ≤ high
Ascending low (s ∷ ss) high = (low ≤ s.id) × Ascending (s.id + 1) ss high

abbrev pub Bounded : Subscriber → Type 0
Bounded s = length s.pending ≤ max_backlog_bytes

abbrev pub Served : Subscriber → Type 0
Served s = needs_writer s ≡ false

pub Ascending-mono :
    (low low' high : ℕ) (ss : List Subscriber)
    → low' ≤ low
    → Ascending low ss high
    → Ascending low' ss high
Ascending-mono low low' high [] h a = omega arith
Ascending-mono low low' high (s ∷ ss) h a = (omega arith, a.1)

-- One step of the publication keeps or retires a subscriber.
record Step (bytes : List ℕ) (s : Subscriber) (ss : List Subscriber)
    (rest r : List Subscriber × List ℕ × Bool) : Type 0 where
  size : length r.0 ≤ suc (length rest.0)
  backlog : Bounded s → All Bounded rest.0 → All Bounded r.0
  tokens :
      (t : ℕ)
      → count t (held ss) ≡ count t (held rest.0) + count t rest.1
      → count t (held (s ∷ ss)) ≡ count t (held r.0) + count t r.1
  quiet :
      (rest.2 ≡ false → (rest.1 ≡ []) × All Served rest.0)
      → r.2 ≡ false
      → (r.1 ≡ []) × All Served r.0
  ids : (low high : ℕ) → low ≤ s.id → Ascending (s.id + 1) rest.0 high → Ascending low r.0 high

publish_one-Step :
    (bytes : List ℕ) (s : Subscriber) (ss : List Subscriber)
    (rest : List Subscriber × List ℕ × Bool) (r : IoResult) (s' : Subscriber)
    → Reaches (owed s ++ bytes) s (r, s')
    → Step bytes s ss rest (publish_one (r, s') rest)
unfolding publish_one
publish_one-Step bytes s ss (kept, retired, changed) ok s' v = record {
  size = omega arith;
  backlog = λ b all. (v.bounded b, all);
  tokens = λ t rec.
      rw (v.same_watcher, v.same_writer)
        (omega (
          arith,
          count-append t (tokens_of s) (held ss),
          count-append t (tokens_of s) (held kept),
        ));
  quiet = λ rec h. ((rec (ground arith)).0, (ground arith, (rec (ground arith)).1));
  ids = λ low high l a. (omega (arith, v.same_id), rw v.same_id a);
}
publish_one-Step bytes s ss (kept, retired, changed) (err e) s' v = record {
  size = omega arith;
  backlog = λ b all. all;
  tokens = λ t rec.
      rw (v.same_watcher, v.same_writer)
        (omega
          (arith, count-append t (tokens_of s) (held ss), count-append t (tokens_of s) retired));
  quiet = λ rec h. cc;
  ids = λ low high l a. Ascending-mono (s.id + 1) low high kept (omega arith) a;
}

-- What a publication makes of the whole set.
pub record Published (bytes : List ℕ) (ss : List Subscriber) (r : List Subscriber × List ℕ × Bool)
    : Type 0 where
  pub size : length r.0 ≤ length ss
  pub backlog : All Bounded ss → All Bounded r.0
  pub tokens : (t : ℕ) → count t (held ss) ≡ count t (held r.0) + count t r.1
  pub quiet : r.2 ≡ false → (r.1 ≡ []) × All Served r.0
  pub ids : (low high : ℕ) → Ascending low ss high → Ascending low r.0 high

pub publish_each-Published :
    (bytes : List ℕ) (ss : List Subscriber) → Published bytes ss (publish_each ss bytes)
unfolding publish_each
publish_each-Published bytes [] = record {
  size = omega arith;
  backlog = λ all. all;
  tokens = λ t. omega arith;
  quiet = λ h. (refl, tt);
  ids = λ low high a. a;
}
publish_each-Published bytes (s ∷ ss) =
    let d = deliver s bytes in
    let v = publish_each-Published bytes ss in
    let w = publish_one-Step bytes s ss (publish_each ss bytes) d.0 d.1 (deliver-Reaches s bytes) in
    record {
      size = omega (arith, v.size, w.size);
      backlog = λ all. w.backlog all.0 (v.backlog all.1);
      tokens = λ t. w.tokens t (v.tokens t);
      quiet = w.quiet v.quiet;
      ids = λ low high a. w.ids low high a.0 (v.ids (s.id + 1) high a.1);
    }
