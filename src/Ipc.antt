-- ===== src/Ipc.antt =====
-- src/ipc.rs: one connection of the control socket. The kernel's side is the list of the outcomes of
-- the reads or writes of a callback; when it is used up, the next one would block. `eval_ipc` of the
-- Scheme runtime is a parameter.
mod Limits
mod Replies
mod Sources
mod Runs
mod Examples
use minde.Base.{
  ℕ, zero, suc, ◌+◌, ◌-◌, List, [], ◌∷◌, ◌++◌, Option, none, some, Bool, true, false, not, ◌&&◌,
  ◌||◌, length, take, drop, ltb, leb, ◌==◌, if◌then◌else◌,
}
use minde.Calloop.{LoopHandle}
use minde.Events.Subscriber.{Attempt, takes, would_block, interrupted, broken}

abbrev pub max_request_bytes : ℕ
max_request_bytes = 65536

pub data Flushed : Type 0 where
  drained blocked failed : Flushed

-- The loop of `try_flush`: the result, the bytes that the socket took, and those still pending.
unfoldable pub try_flush : List Attempt → List ℕ → List ℕ → Flushed × List ℕ × List ℕ
try_flush attempts sent [] = (drained, sent, [])
try_flush [] sent (b ∷ bs) = (blocked, sent, b ∷ bs)
try_flush (takes zero ∷ later) sent (b ∷ bs) = (failed, sent, b ∷ bs)
try_flush (takes (suc n) ∷ later) sent (b ∷ bs) =
    try_flush later (sent ++ b ∷ take n bs) (drop n bs)
try_flush (would_block ∷ later) sent (b ∷ bs) = (blocked, sent, b ∷ bs)
try_flush (interrupted ∷ later) sent (b ∷ bs) = try_flush later sent (b ∷ bs)
try_flush (broken ∷ later) sent (b ∷ bs) = (failed, sent, b ∷ bs)

-- `str::from_utf8`: the ranges of the bytes that have to follow a first byte.
abbrev pub tail : ℕ × ℕ
tail = (128, 191)

unfoldable pub following : ℕ → Option (List (ℕ × ℕ))
following b =
    if ltb b 128
    then some []
    else if ltb b 194
    then none
    else if ltb b 224
    then some (tail ∷ [])
    else if b == 224
    then some ((160, 191) ∷ tail ∷ [])
    else if b == 237
    then some ((128, 159) ∷ tail ∷ [])
    else if ltb b 240
    then some (tail ∷ tail ∷ [])
    else if b == 240
    then some ((144, 191) ∷ tail ∷ tail ∷ [])
    else if ltb b 244
    then some (tail ∷ tail ∷ tail ∷ [])
    else if b == 244
    then some ((128, 143) ∷ tail ∷ tail ∷ [])
    else none

unfoldable pub valid_utf8 : Option (List (ℕ × ℕ)) → List ℕ → Bool
unfolding following
valid_utf8 none bytes = false
valid_utf8 (some []) [] = true
valid_utf8 (some []) (b ∷ bytes) = valid_utf8 (following b) bytes
valid_utf8 (some (r ∷ rs)) [] = false
valid_utf8 (some ((lo, hi) ∷ rs)) (b ∷ bytes) = leb lo b && (leb b hi && valid_utf8 (some rs) bytes)

-- "(error request-too-large ())"
abbrev pub request_too_large : List ℕ
request_too_large =
    40 ∷ 101 ∷ 114 ∷ 114 ∷ 111 ∷ 114 ∷ 32 ∷ 114 ∷ 101 ∷ 113 ∷ 117 ∷ 101 ∷ 115 ∷ 116 ∷ 45 ∷ 116 ∷ 111
    ∷ 111 ∷ 45 ∷ 108 ∷ 97 ∷ 114 ∷ 103 ∷ 101 ∷ 32 ∷ 40 ∷ 41 ∷ 41 ∷ []

-- "(error evaluation-failed ())"
abbrev pub evaluation_failed : List ℕ
evaluation_failed =
    40 ∷ 101 ∷ 114 ∷ 114 ∷ 111 ∷ 114 ∷ 32 ∷ 101 ∷ 118 ∷ 97 ∷ 108 ∷ 117 ∷ 97 ∷ 116 ∷ 105 ∷ 111 ∷ 110
    ∷ 45 ∷ 102 ∷ 97 ∷ 105 ∷ 108 ∷ 101 ∷ 100 ∷ 32 ∷ 40 ∷ 41 ∷ 41 ∷ []

-- "(error invalid-utf8 ())"
abbrev pub invalid_utf8 : List ℕ
invalid_utf8 =
    40 ∷ 101 ∷ 114 ∷ 114 ∷ 111 ∷ 114 ∷ 32 ∷ 105 ∷ 110 ∷ 118 ∷ 97 ∷ 108 ∷ 105 ∷ 100 ∷ 45 ∷ 117 ∷ 116
    ∷ 102 ∷ 56 ∷ 32 ∷ 40 ∷ 41 ∷ 41 ∷ []

abbrev pub or_failed : Option (List ℕ) → List ℕ
or_failed none = evaluation_failed
or_failed (some value) = value

unfoldable pub evaluate : (List ℕ → Option (List ℕ)) → List ℕ → List ℕ
evaluate eval_ipc request =
    if ltb max_request_bytes (length request)
    then request_too_large
    else if valid_utf8 (some []) request
    then or_failed (eval_ipc request)
    else invalid_utf8

-- The bytes of the answer: the datum and a newline.
abbrev pub reply : (List ℕ → Option (List ℕ)) → List ℕ → List ℕ
reply eval_ipc request = evaluate eval_ipc request ++ (10 ∷ [])

-- What the next `read` of a callback does.
pub data Reading : Type 0 where
  chunk : List ℕ → Reading
  half_closed read_would_block read_interrupted read_broken : Reading

pub data ReadEnd : Type 0 where
  complete incomplete read_failed : ReadEnd

-- The loop of the read callback, with the request so far.
unfoldable pub read_loop : List Reading → List ℕ → ReadEnd × List ℕ
read_loop [] request =
    (if ltb max_request_bytes (length request) then complete else incomplete, request)
read_loop (chunk bytes ∷ later) request =
    let more = read_loop later (request ++ bytes) in
    if ltb max_request_bytes (length request) then (complete, request) else more
read_loop (half_closed ∷ later) request = (complete, request)
read_loop (read_would_block ∷ later) request =
    (if ltb max_request_bytes (length request) then complete else incomplete, request)
read_loop (read_interrupted ∷ later) request =
    let more = read_loop later request in
    if ltb max_request_bytes (length request) then (complete, request) else more
read_loop (read_broken ∷ later) request =
    (if ltb max_request_bytes (length request) then complete else read_failed, request)

pub record ClientState : Type 0 where
  pub finished : Bool
  pub token : Option ℕ
  pub timer : Option ℕ

-- A connection: the event loop's sources, the shared state, the source that reads with its request,
-- the one that writes with its pending bytes, and the bytes that the client was sent.
pub record Connection (S : Type 0) : Type 0 where
  pub sources : S
  pub client : ClientState
  pub reader : Option (ℕ × List ℕ)
  pub writer : Option (ℕ × List ℕ)
  pub sent : List ℕ

-- What happens to a connection. `cloned` is whether `try_clone` succeeds.
pub data IpcEvent : Type 0 where
  readable : List Reading → List Attempt → (cloned : Bool) → IpcEvent
  writable : List Attempt → IpcEvent
  deadline : IpcEvent

-- A source that is removed is dropped with its stream.
abbrev pub without_source : ℕ → Option (ℕ × List ℕ) → Option (ℕ × List ℕ)
without_source t none = none
without_source t (some (u, bytes)) = if u == t then none else some (u, bytes)

module _ (loop : LoopHandle) where
  abbrev pub cancel_timer : Option ℕ → loop.Sources → loop.Sources
  cancel_timer none sources = sources
  cancel_timer (some timer) sources = loop.remove timer sources

  -- `ClientState::finish`, and the callback's source is removed.
  unfoldable pub finish : Connection loop.Sources → ℕ → Connection loop.Sources
  finish c t = record {
    sources = loop.remove t (cancel_timer c.client.timer c.sources);
    client = record { finished = true; token = c.client.token; timer = none };
    reader = none;
    writer = none;
    sent = c.sent;
  }

  abbrev pub writer_inserted :
      Connection loop.Sources → ℕ → List ℕ → Option (ℕ × loop.Sources) → Connection loop.Sources
  writer_inserted c t pending none = finish c t
  writer_inserted c t pending (some (w, sources)) = record {
    sources = loop.remove t sources;
    client = record c.client { token = some w };
    reader = none;
    writer = some (w, pending);
    sent = c.sent;
  }

  -- `spawn_writer`, and the read source with the token `t` is removed.
  unfoldable pub spawn_writer :
      Connection loop.Sources → ℕ → List ℕ → Bool → Connection loop.Sources
  spawn_writer c t pending cloned =
      if cloned then writer_inserted c t pending (loop.insert_source c.sources) else finish c t

  -- The end of the read callback, with the result of the flush.
  abbrev pub flushed_reply :
      Connection loop.Sources → ℕ → Bool → Flushed × List ℕ × List ℕ → Connection loop.Sources
  flushed_reply c t cloned (drained, sent, pending) = finish (record c { sent = sent }) t
  flushed_reply c t cloned (blocked, sent, pending) =
      spawn_writer (record c { sent = sent }) t pending cloned
  flushed_reply c t cloned (failed, sent, pending) = finish (record c { sent = sent }) t

  abbrev pub after_read :
      (List ℕ → Option (List ℕ))
      → Connection loop.Sources
      → ℕ
      → List Attempt
      → Bool
      → ReadEnd × List ℕ
      → Connection loop.Sources
  after_read eval_ipc c t attempts cloned (complete, request) =
      flushed_reply c t cloned (try_flush attempts c.sent (reply eval_ipc request))
  after_read eval_ipc c t attempts cloned (incomplete, request) = record c {
    reader = some (t, request);
  }
  after_read eval_ipc c t attempts cloned (read_failed, request) = finish c t

  abbrev pub flushed_rest :
      Connection loop.Sources → ℕ → Flushed × List ℕ × List ℕ → Connection loop.Sources
  flushed_rest c t (drained, sent, pending) = finish (record c { sent = sent }) t
  flushed_rest c t (blocked, sent, pending) = record c { writer = some (t, pending); sent = sent }
  flushed_rest c t (failed, sent, pending) = finish (record c { sent = sent }) t

  abbrev pub read_callback :
      (List ℕ → Option (List ℕ))
      → Connection loop.Sources
      → List Reading
      → List Attempt
      → Bool
      → Option (ℕ × List ℕ)
      → Connection loop.Sources
  read_callback eval_ipc c readings attempts cloned none = c
  read_callback eval_ipc c readings attempts cloned (some (t, request)) =
      after_read eval_ipc c t attempts cloned (read_loop readings request)

  abbrev pub write_callback :
      Connection loop.Sources → List Attempt → Option (ℕ × List ℕ) → Connection loop.Sources
  write_callback c attempts none = c
  write_callback c attempts (some (t, pending)) =
      flushed_rest c t (try_flush attempts c.sent pending)

  -- The eviction of a client that is not finished: its source is removed, which closes the socket.
  abbrev pub evict_client :
      Connection loop.Sources → loop.Sources → Option ℕ → Connection loop.Sources
  evict_client c sources none = record c {
    sources = sources;
    client = record { finished = true; token = none; timer = none };
  }
  evict_client c sources (some t) = record {
    sources = loop.remove t sources;
    client = record { finished = true; token = none; timer = none };
    reader = without_source t c.reader;
    writer = without_source t c.writer;
    sent = c.sent;
  }

  abbrev pub timer_callback : Connection loop.Sources → Option ℕ → Connection loop.Sources
  timer_callback c none = c
  timer_callback c (some timer) =
      if c.client.finished
      then record c {
        sources = loop.remove timer c.sources;
        client = record c.client { timer = none };
      }
      else evict_client c (loop.remove timer c.sources) c.client.token

  -- The callbacks of a connection's sources.
  unfoldable pub handle_event :
      (List ℕ → Option (List ℕ)) → Connection loop.Sources → IpcEvent → Connection loop.Sources
  handle_event eval_ipc c (readable readings attempts cloned) =
      read_callback eval_ipc c readings attempts cloned c.reader
  handle_event eval_ipc c (writable attempts) = write_callback c attempts c.writer
  handle_event eval_ipc c deadline = timer_callback c c.client.timer

  abbrev pub arm_timer : ℕ → loop.Sources → Option (ℕ × loop.Sources) → Connection loop.Sources
  arm_timer t sources none = record {
    sources = sources;
    client = record { finished = false; token = some t; timer = none };
    reader = some (t, []);
    writer = none;
    sent = [];
  }
  arm_timer t sources (some (timer, sources')) = record {
    sources = sources';
    client = record { finished = false; token = some t; timer = some timer };
    reader = some (t, []);
    writer = none;
    sent = [];
  }

  abbrev pub read_inserted : loop.Sources → Option (ℕ × loop.Sources) → Connection loop.Sources
  read_inserted sources none = record {
    sources = sources;
    client = record { finished = false; token = none; timer = none };
    reader = none;
    writer = none;
    sent = [];
  }
  read_inserted sources (some (t, sources')) = arm_timer t sources' (loop.insert_source sources')

  unfoldable pub register_client : loop.Sources → Connection loop.Sources
  register_client sources = read_inserted sources (loop.insert_source sources)

  abbrev pub handle_events :
      (List ℕ → Option (List ℕ)) → Connection loop.Sources → List IpcEvent → Connection loop.Sources
  handle_events eval_ipc c [] = c
  handle_events eval_ipc c (e ∷ events) = handle_events eval_ipc (handle_event eval_ipc c e) events
