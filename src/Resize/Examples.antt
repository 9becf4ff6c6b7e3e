-- ===== src/Resize/Examples.antt =====
-- Bursts of src/grabs/resize_grab.rs.
use minde.Base.{◌≡◌, refl, [], ◌∷◌, some}
use minde.Resize.{request, take_size, new_queue}
use minde.Resize.Burst.{request_all, Taken, request_all-Taken}

last_of_three :
    take_size (request_all ((10, 9) ∷ (11, 9) ∷ (12, 9) ∷ []) (new_queue (10, 9))).1
    ≡ (some (12, 9), new_queue (12, 9))
unfolding request_all request take_size
last_of_three = refl

request_all-Taken_example :
    Taken (12, 9) (10, 9) (request_all ((10, 9) ∷ (11, 9) ∷ (12, 9) ∷ []) (new_queue (10, 9)))
request_all-Taken_example = request_all-Taken ((10, 9) ∷ (11, 9) ∷ []) (12, 9) (10, 9)
