-- ===== src/Events/Subscriber/Bytes.antt =====
-- src/events.rs: what delivery does with the bytes, and with the backlog.
use minde.Base.{
  ℕ, zero, suc, ◌+◌, ◌-◌, ◌%◌, ◌≤◌, ◌≡◌, refl, sym, ap, ◌∙◌, inl, inr, List, [], ◌∷◌, ◌++◌,
  append-nil, append_assoc, length, length-append, length-drop, take, drop, take-append-drop,
  drop-drop, drop-length-take, ltb, Bool-cases, word64, arith,
}
use minde.Events.Subscriber.{
  Attempt, takes, would_block, interrupted, broken, IoResult, ok, err, IoError, UnixStream,
  Subscriber, max_backlog_bytes, flush, write_from, enqueue, after_write, after_flush,
  deliver_flushed, deliver,
}

-- All bytes that the subscriber was given: those that the kernel took and those pending.
abbrev pub owed : Subscriber → List ℕ
owed s = s.stream.sent ++ s.pending

pub flush_bytes :
    (attempts : List Attempt) (sent pending : List ℕ)
    → let r = flush attempts sent pending in
      (r.1.sent ++ r.2 ≡ sent ++ pending) × (length r.2 ≤ length pending)
unfolding flush
flush_bytes attempts sent [] = (refl, omega arith)
flush_bytes [] sent (b ∷ bs) = (refl, omega arith)
flush_bytes (takes zero ∷ later) sent (b ∷ bs) = (refl, omega arith)
flush_bytes (takes (suc n) ∷ later) sent (b ∷ bs) =
    let (same, short) = flush_bytes later (sent ++ b ∷ take n bs) (drop n bs) in
    (
      same
          ∙ (append_assoc sent (b ∷ take n bs) (drop n bs)
              ∙ ap (λ t. sent ++ b ∷ t) (take-append-drop n bs)),
      omega (arith, length-drop n bs),
    )
flush_bytes (would_block ∷ later) sent (b ∷ bs) = (refl, omega arith)
flush_bytes (interrupted ∷ later) sent (b ∷ bs) = flush_bytes later sent (b ∷ bs)
flush_bytes (broken ∷ later) sent (b ∷ bs) = (refl, omega arith)

taken_bytes :
    (n : ℕ) (sent bytes : List ℕ) (offset : ℕ)
    → let taken = take n (drop offset bytes) in
      (sent ++ taken) ++ drop (offset + length taken) bytes ≡ sent ++ drop offset bytes
taken_bytes n sent bytes offset =
    let rest = drop offset bytes in
    rw (append_assoc, ← drop-drop, drop-length-take, take-append-drop n rest) refl

write_bytes :
    (attempts : List Attempt) (sent bytes : List ℕ) (offset : ℕ)
    → let r = write_from attempts sent bytes offset in
      r.1.sent ++ drop r.2 bytes ≡ sent ++ drop offset bytes
unfolding write_from
write_bytes [] sent bytes offset = refl
write_bytes (takes n ∷ later) sent bytes offset =
    let taken = take n (drop offset bytes) in
    let same =
      write_bytes later (sent ++ taken) bytes (offset + length taken)
      ∙ taken_bytes n sent bytes offset in
    ground (arith, same)
write_bytes (would_block ∷ later) sent bytes offset = ground arith
write_bytes (interrupted ∷ later) sent bytes offset =
    ground (arith, write_bytes later sent bytes offset)
write_bytes (broken ∷ later) sent bytes offset = ground arith

-- The subscriber was given the bytes `all`: in order and completely if the result is a success,
-- and otherwise the reader saw a prefix of them. The backlog stays within its ceiling.
pub record Reaches (all : List ℕ) (s : Subscriber) (r : IoResult × Subscriber) : Type 0 where
  pub complete : r.0 ≡ ok → owed r.1 ≡ all
  pub prefix : (rest : List ℕ) × (r.1.stream.sent ++ rest ≡ all)
  pub bounded : length s.pending ≤ max_backlog_bytes → length r.1.pending ≤ max_backlog_bytes
  pub same_id : r.1.id ≡ s.id
  pub same_watcher : r.1.watcher ≡ s.watcher
  pub same_writer : r.1.writer ≡ s.writer

enqueue-Reaches :
    (s : Subscriber) (remaining : List ℕ) → Reaches (owed s ++ remaining) s (enqueue s remaining)
unfolding enqueue
enqueue-Reaches s remaining =
    elim (Bool-cases
      (ltb ((max_backlog_bytes + word64 - length s.pending) % word64) (length remaining))) [
        | inl over ↦ rw over (record {
          complete = λ h. cc;
          prefix = (s.pending ++ remaining, sym (append_assoc s.stream.sent s.pending remaining));
          bounded = λ h. h;
          same_id = refl;
          same_watcher = refl;
          same_writer = refl;
        })
        | inr fine ↦ rw fine (record {
          complete = λ h. sym (append_assoc s.stream.sent s.pending remaining);
          prefix = (s.pending ++ remaining, sym (append_assoc s.stream.sent s.pending remaining));
          bounded = λ h. ground (arith, length-append s.pending remaining);
          same_id = refl;
          same_watcher = refl;
          same_writer = refl;
        })
      ]

-- The socket and the backlog may change on the way, if the backlog does not grow.
Reaches-via :
    (all : List ℕ) (s : Subscriber) (stream : UnixStream) (pending : List ℕ)
    (r : IoResult × Subscriber)
    → length pending ≤ length s.pending
    → Reaches all (record s { stream = stream; pending = pending }) r
    → Reaches all s r
Reaches-via all s stream pending r le v = record {
  complete = v.complete;
  prefix = v.prefix;
  bounded = λ h. v.bounded (omega arith);
  same_id = v.same_id;
  same_watcher = v.same_watcher;
  same_writer = v.same_writer;
}

failed-Reaches :
    (all rest : List ℕ) (s : Subscriber) (e : IoError)
    → s.stream.sent ++ rest ≡ all
    → Reaches all s (err e, s)
failed-Reaches all rest s e h = record {
  complete = λ o. cc;
  prefix = (rest, h);
  bounded = λ b. b;
  same_id = refl;
  same_watcher = refl;
  same_writer = refl;
}

module _ (bytes all : List ℕ) where
  after_write-Reaches :
      (s : Subscriber) (r : IoResult) (stream : UnixStream) (offset : ℕ)
      → s.pending ≡ []
      → stream.sent ++ drop offset bytes ≡ all
      → Reaches all s (after_write s bytes (r, stream, offset))
  unfolding after_write
  after_write-Reaches s ok stream offset e h =
      let s' = record s { stream = stream } in
      let same : (stream.sent ++ s.pending) ++ drop offset bytes ≡ all = rw (e, append-nil) h in
      Reaches-via all s stream s.pending _ (omega arith)
        (rw (← same) (enqueue-Reaches s' (drop offset bytes)))
  after_write-Reaches s (err x) stream offset e h =
      Reaches-via all s stream s.pending _ (omega arith)
        (failed-Reaches all (drop offset bytes) (record s { stream = stream }) x h)

  after_flush-Reaches :
      (s : Subscriber) (pending : List ℕ)
      → s.pending ≡ pending
      → owed s ++ bytes ≡ all
      → Reaches all s (after_flush s pending bytes)
  unfolding after_flush
  after_flush-Reaches s [] e h =
      let w = write_from s.stream.attempts s.stream.sent bytes 0 in
      let given : s.stream.sent ++ bytes ≡ all = rw (e, append-nil) at h in
      after_write-Reaches s w.0 w.1 w.2 e
        (write_bytes s.stream.attempts s.stream.sent bytes 0 ∙ given)
  after_flush-Reaches s (p ∷ ps) e h = rw (← h) (enqueue-Reaches s bytes)

  deliver_flushed-Reaches :
      (r : IoResult) (s : Subscriber)
      → owed s ++ bytes ≡ all
      → Reaches all s (deliver_flushed bytes (r, s))
  unfolding deliver_flushed
  deliver_flushed-Reaches ok s h = after_flush-Reaches s s.pending refl h
  deliver_flushed-Reaches (err e) s h =
      failed-Reaches all (s.pending ++ bytes) s e
        (sym (append_assoc s.stream.sent s.pending bytes) ∙ h)

-- Delivery keeps the order and loses nothing: after a success the subscriber was given exactly the
-- new bytes more, after an error its reader saw a prefix of that.
pub deliver-Reaches :
    (s : Subscriber) (bytes : List ℕ) → Reaches (owed s ++ bytes) s (deliver s bytes)
unfolding deliver
deliver-Reaches s bytes =
    let f = flush s.stream.attempts s.stream.sent s.pending in
    let (same, short) = flush_bytes s.stream.attempts s.stream.sent s.pending in
    Reaches-via _ s f.1 f.2 _ short (
      deliver_flushed-Reaches bytes (owed s ++ bytes) f.0 (record s { stream = f.1; pending = f.2 })
        (ap (λ t. t ++ bytes) same))
