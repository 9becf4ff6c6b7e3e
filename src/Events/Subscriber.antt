-- ===== src/Events/Subscriber.antt =====
-- src/events.rs: one subscriber of the event push socket, and delivery to it.
-- The kernel's side of the socket is the list of the outcomes of the next writes, and the bytes it
-- has accepted. When the list is used up, a write would block.
pub mod Bytes
pub mod Eviction
mod Examples
use minde.Base.{
  ℕ, zero, suc, ◌+◌, ◌-◌, ◌%◌, List, [], ◌∷◌, ◌++◌, Option, Bool, true, false, length, take, drop,
  ltb, leb, ◌==◌, if◌then◌else◌, word64,
}

abbrev pub max_backlog_bytes : ℕ
max_backlog_bytes = 262144

-- What the next `write` does: it takes at most so many bytes, or fails.
pub data Attempt : Type 0 where
  takes : ℕ → Attempt
  would_block interrupted broken : Attempt

-- The errors of `std::io` that the module returns.
pub data IoError : Type 0 where
  write_zero broken_pipe out_of_memory : IoError

pub data IoResult : Type 0 where
  ok : IoResult
  err : IoError → IoResult

pub record UnixStream : Type 0 where
  pub attempts : List Attempt
  pub sent : List ℕ

pub record Subscriber : Type 0 where
  pub id : ℕ
  pub stream : UnixStream
  pub pending : List ℕ
  pub watcher : Option ℕ
  pub writer : Option ℕ

-- The loop of `try_flush`: the result, the socket, and the bytes still pending.
unfoldable pub flush : List Attempt → List ℕ → List ℕ → IoResult × UnixStream × List ℕ
flush attempts sent [] = (ok, record { attempts = attempts; sent = sent }, [])
flush [] sent (b ∷ bs) = (ok, record { attempts = []; sent = sent }, b ∷ bs)
flush (takes zero ∷ later) sent (b ∷ bs) =
    (err write_zero, record { attempts = later; sent = sent }, b ∷ bs)
flush (takes (suc n) ∷ later) sent (b ∷ bs) = flush later (sent ++ b ∷ take n bs) (drop n bs)
flush (would_block ∷ later) sent (b ∷ bs) = (ok, record { attempts = later; sent = sent }, b ∷ bs)
flush (interrupted ∷ later) sent (b ∷ bs) = flush later sent (b ∷ bs)
flush (broken ∷ later) sent (b ∷ bs) =
    (err broken_pipe, record { attempts = later; sent = sent }, b ∷ bs)

unfoldable pub try_flush : Subscriber → IoResult × Subscriber
try_flush s =
    let (result, stream, pending) = flush s.stream.attempts s.stream.sent s.pending in
    (result, record s { stream = stream; pending = pending })

-- The write loop of `deliver`: from `offset` on, straight to the socket.
write_from : List Attempt → List ℕ → List ℕ → ℕ → IoResult × UnixStream × ℕ
write_from [] sent bytes offset = (ok, record { attempts = []; sent = sent }, offset)
write_from (takes n ∷ later) sent bytes offset =
    let taken = take n (drop offset bytes) in
    let more = write_from later (sent ++ taken) bytes (offset + length taken) in
    if leb (length bytes) offset
    then (ok, record { attempts = takes n ∷ later; sent = sent }, offset)
    else if n == 0
    then (err write_zero, record { attempts = later; sent = sent }, offset)
    else more
write_from (would_block ∷ later) sent bytes offset =
    if leb (length bytes) offset
    then (ok, record { attempts = would_block ∷ later; sent = sent }, offset)
    else (ok, record { attempts = later; sent = sent }, offset)
write_from (interrupted ∷ later) sent bytes offset =
    let more = write_from later sent bytes offset in
    if leb (length bytes) offset
    then (ok, record { attempts = interrupted ∷ later; sent = sent }, offset)
    else more
write_from (broken ∷ later) sent bytes offset =
    if leb (length bytes) offset
    then (ok, record { attempts = broken ∷ later; sent = sent }, offset)
    else (err broken_pipe, record { attempts = later; sent = sent }, offset)

-- The end of `deliver`: the rest goes into the backlog, if it stays within the ceiling.
enqueue : Subscriber → List ℕ → IoResult × Subscriber
enqueue s remaining =
    if ltb ((max_backlog_bytes + word64 - length s.pending) % word64) (length remaining)
    then (err out_of_memory, s)
    else (ok, record s { pending = s.pending ++ remaining })

after_write : Subscriber → List ℕ → IoResult × UnixStream × ℕ → IoResult × Subscriber
after_write s bytes (ok, stream, offset) =
    enqueue (record s { stream = stream }) (drop offset bytes)
after_write s bytes (err e, stream, offset) = (err e, record s { stream = stream })

-- With nothing pending the bytes are first written to the socket.
after_flush : Subscriber → List ℕ → List ℕ → IoResult × Subscriber
after_flush s [] bytes = after_write s bytes (write_from s.stream.attempts s.stream.sent bytes 0)
after_flush s (p ∷ ps) bytes = enqueue s bytes

deliver_flushed : List ℕ → IoResult × Subscriber → IoResult × Subscriber
deliver_flushed bytes (ok, s) = after_flush s s.pending bytes
deliver_flushed bytes (err e, s) = (err e, s)

unfoldable pub deliver : Subscriber → List ℕ → IoResult × Subscriber
unfolding deliver_flushed after_flush after_write enqueue write_from try_flush flush
deliver s bytes = deliver_flushed bytes (try_flush s)
