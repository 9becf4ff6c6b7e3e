-- ===== src/Resize.antt =====
-- src/grabs/resize_grab.rs: the queue of sizes between the pointer and the configures.
pub mod Burst
mod Examples
use minde.Base.{ℕ, Option, none, some, Bool, true, false, ◌&&◌, ◌==◌, if◌then◌else◌}

abbrev pub Size : Type 0
Size = ℕ × ℕ

abbrev pub same_size : Size → Size → Bool
same_size (w, h) (w', h') = (w == w') && (h == h')

pub record ResizeConfigureQueue : Type 0 where
  pub pending : Option Size
  pub sent : Size

abbrev pub new_queue : Size → ResizeConfigureQueue
new_queue size = record { pending = none; sent = size }

abbrev pub request_pending : Option Size → Size → Size → Bool × ResizeConfigureQueue
request_pending none size sent =
    if same_size size sent
    then (false, record { pending = none; sent = sent })
    else (true, record { pending = some size; sent = sent })
request_pending (some old) size sent = (false, record { pending = some size; sent = sent })

-- `ResizeConfigureQueue::request`, with whether a new idle callback is needed.
unfoldable pub request : ResizeConfigureQueue → Size → Bool × ResizeConfigureQueue
request q size = request_pending q.pending size q.sent

abbrev pub take_pending : Option Size → Size → Option Size × ResizeConfigureQueue
take_pending none sent = (none, record { pending = none; sent = sent })
take_pending (some size) sent =
    if same_size size sent
    then (none, record { pending = none; sent = sent })
    else (some size, record { pending = none; sent = size })

-- `ResizeConfigureQueue::take`.
unfoldable pub take_size : ResizeConfigureQueue → Option Size × ResizeConfigureQueue
take_size q = take_pending q.pending q.sent

-- `ResizeConfigureQueue::cancel`.
abbrev pub cancel_size : ResizeConfigureQueue → ResizeConfigureQueue
cancel_size q = record q { pending = none }
