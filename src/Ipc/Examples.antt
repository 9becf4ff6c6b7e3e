-- ===== src/Ipc/Examples.antt =====
-- Runs of src/ipc.rs on an event loop that counts its tokens.
use minde.Base.{ℕ, ◌+◌, ◌≤◌, ◌≡◌, ◌⊎◌, refl, List, [], ◌∷◌, Option, some, true, length, arith}
use minde.Calloop.Table.{Table, table_loop}
use minde.Events.Subscriber.{takes, would_block}
use minde.Ipc.{
  max_request_bytes, try_flush, valid_utf8, following, evaluate, chunk, half_closed, incomplete,
  read_loop, Connection, IpcEvent, readable, writable, deadline, finish, spawn_writer, handle_event,
  register_client, handle_events,
}
use minde.Ipc.Limits.{read_loop-Bounds}
use minde.Ipc.Replies.{Answers, handle_events-Answers}
use minde.Ipc.Sources.{NoneLeft, Closed}
use minde.Ipc.Runs.{handle_events-NoneLeft}

-- Every request evaluates to "k".
abbrev eval_k : List ℕ → Option (List ℕ)
eval_k request = some (107 ∷ [])

abbrev empty_loop : Table
empty_loop = (0, [])

-- The request comes in two reads, and the reply is cut by the socket.
abbrev exchange : List IpcEvent
exchange =
    readable (chunk (40 ∷ []) ∷ []) [] true
    ∷ readable (chunk (41 ∷ []) ∷ half_closed ∷ []) (takes 1 ∷ would_block ∷ []) true
    ∷ writable (takes 5 ∷ [])
    ∷ []

abbrev exchanged : Connection Table
exchanged = handle_events table_loop eval_k (register_client table_loop empty_loop) exchange

answered : exchanged.sent ≡ 107 ∷ 10 ∷ []
unfolding handle_event register_client read_loop evaluate valid_utf8 following try_flush
    spawn_writer finish
answered = refl

handle_events-Answers_example :
    (exchanged.sent ≡ []) ⊎ ((rest : List ℕ) × Answers table_loop eval_k exchanged.sent rest)
handle_events-Answers_example = handle_events-Answers table_loop eval_k empty_loop exchange

-- A client that says nothing until its deadline.
abbrev silent : Connection Table
silent = handle_events table_loop eval_k (register_client table_loop empty_loop) []

handle_events-NoneLeft_example :
    (silent.client.finished ≡ true → NoneLeft table_loop empty_loop silent.sources)
    × ((timer : ℕ)
        → silent.client.timer ≡ some timer
        → ((handle_event table_loop eval_k silent deadline).client.finished ≡ true)
          × Closed table_loop empty_loop (handle_event table_loop eval_k silent deadline))
handle_events-NoneLeft_example = handle_events-NoneLeft table_loop eval_k empty_loop []

read_loop-Bounds_example :
    (length (read_loop (chunk (40 ∷ 41 ∷ []) ∷ []) (35 ∷ [])).1 ≤ max_request_bytes + 4096)
    × ((read_loop (chunk (40 ∷ 41 ∷ []) ∷ []) (35 ∷ [])).0 ≡ incomplete
        → length (read_loop (chunk (40 ∷ 41 ∷ []) ∷ []) (35 ∷ [])).1 ≤ max_request_bytes)
read_loop-Bounds_example =
    read_loop-Bounds (chunk (40 ∷ 41 ∷ []) ∷ []) (35 ∷ []) (omega arith, tt) (omega arith)
