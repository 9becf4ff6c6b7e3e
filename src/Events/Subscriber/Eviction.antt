-- ===== src/Events/Subscriber/Eviction.antt =====
-- src/events.rs: when delivery keeps a subscriber. A socket whose writes do not fail is kept as
-- long as its backlog has room for the bytes.
use minde.Base.{
  ℕ, zero, suc, ◌+◌, ◌≤◌, ◌≡◌, refl, List, [], ◌∷◌, ◌++◌, length, length-drop, take, drop, arith,
}
use minde.Events.Subscriber.{
  Attempt, takes, would_block, interrupted, broken, IoResult, ok, err, UnixStream, Subscriber,
  max_backlog_bytes, flush, write_from, enqueue, after_write, after_flush, deliver_flushed, deliver,
}
use minde.Events.Subscriber.Bytes.{flush_bytes}

-- No write of the list fails.
abbrev pub Healthy : List Attempt → Type 0
Healthy [] = Unit {0}
Healthy (takes zero ∷ later) = ⊥
Healthy (takes (suc n) ∷ later) = Healthy later
Healthy (would_block ∷ later) = Healthy later
Healthy (interrupted ∷ later) = Healthy later
Healthy (broken ∷ later) = ⊥

flush-Healthy :
    (attempts : List Attempt) (sent pending : List ℕ)
    → Healthy attempts
    → let r = flush attempts sent pending in (r.0 ≡ ok) × Healthy r.1.attempts
unfolding flush
flush-Healthy attempts sent [] h = (refl, h)
flush-Healthy [] sent (b ∷ bs) h = (refl, h)
flush-Healthy (takes zero ∷ later) sent (b ∷ bs) h = absurd h
flush-Healthy (takes (suc n) ∷ later) sent (b ∷ bs) h =
    flush-Healthy later (sent ++ b ∷ take n bs) (drop n bs) h
flush-Healthy (would_block ∷ later) sent (b ∷ bs) h = (refl, h)
flush-Healthy (interrupted ∷ later) sent (b ∷ bs) h = flush-Healthy later sent (b ∷ bs) h
flush-Healthy (broken ∷ later) sent (b ∷ bs) h = absurd h

write-Healthy :
    (attempts : List Attempt) (sent bytes : List ℕ) (offset : ℕ)
    → Healthy attempts
    → (write_from attempts sent bytes offset).0 ≡ ok
unfolding write_from
write-Healthy [] sent bytes offset h = refl
write-Healthy (takes zero ∷ later) sent bytes offset h = absurd h
write-Healthy (takes (suc n) ∷ later) sent bytes offset h =
    let taken = take (suc n) (drop offset bytes) in
    ground (arith, write-Healthy later (sent ++ taken) bytes (offset + length taken) h)
write-Healthy (would_block ∷ later) sent bytes offset h = ground arith
write-Healthy (interrupted ∷ later) sent bytes offset h =
    ground (arith, write-Healthy later sent bytes offset h)
write-Healthy (broken ∷ later) sent bytes offset h = absurd h

enqueue_ok :
    (s : Subscriber) (rest : List ℕ)
    → length s.pending + length rest ≤ max_backlog_bytes
    → (enqueue s rest).0 ≡ ok
unfolding enqueue
enqueue_ok s rest h = ground arith

after_write_ok :
    (s : Subscriber) (bytes : List ℕ) (r : IoResult) (stream : UnixStream) (offset : ℕ)
    → length s.pending + length bytes ≤ max_backlog_bytes
    → r ≡ ok
    → (after_write s bytes (r, stream, offset)).0 ≡ ok
unfolding after_write
after_write_ok s bytes ok stream offset h e =
    enqueue_ok (record s { stream = stream }) (drop offset bytes)
      (omega (arith, length-drop offset bytes))
after_write_ok s bytes (err x) stream offset h e = cc

after_flush_ok :
    (s : Subscriber) (pending bytes : List ℕ)
    → Healthy s.stream.attempts
    → length s.pending + length bytes ≤ max_backlog_bytes
    → (after_flush s pending bytes).0 ≡ ok
unfolding after_flush
after_flush_ok s [] bytes w h =
    let r = write_from s.stream.attempts s.stream.sent bytes 0 in
    after_write_ok s bytes r.0 r.1 r.2 h (write-Healthy s.stream.attempts s.stream.sent bytes 0 w)
after_flush_ok s (p ∷ ps) bytes w h = enqueue_ok s bytes h

deliver_flushed_ok :
    (r : IoResult) (s : Subscriber) (bytes : List ℕ)
    → r ≡ ok
    → Healthy s.stream.attempts
    → length s.pending + length bytes ≤ max_backlog_bytes
    → (deliver_flushed bytes (r, s)).0 ≡ ok
unfolding deliver_flushed
deliver_flushed_ok ok s bytes e w h = after_flush_ok s s.pending bytes w h
deliver_flushed_ok (err x) s bytes e w h = cc

-- A subscriber whose socket does not fail, and whose backlog has room for the bytes, is kept.
pub deliver_kept :
    (s : Subscriber) (bytes : List ℕ)
    → Healthy s.stream.attempts
    → length s.pending + length bytes ≤ max_backlog_bytes
    → (deliver s bytes).0 ≡ ok
unfolding deliver
deliver_kept s bytes w h =
    let f = flush s.stream.attempts s.stream.sent s.pending in
    let (fine, healthy) = flush-Healthy s.stream.attempts s.stream.sent s.pending w in
    deliver_flushed_ok f.0 (record s { stream = f.1; pending = f.2 }) bytes fine healthy
      (omega (arith, (flush_bytes s.stream.attempts s.stream.sent s.pending).1))
