-- ===== src/Ipc/Limits.antt =====
-- src/ipc.rs: how long a request gets.
use minde.Base.{
  ℕ, ◌+◌, ◌≤◌, ◌≡◌, subst, inl, inr, List, [], ◌∷◌, ◌++◌, Bool-cases, if-split, if◌then◌else◌,
  length, length-append, ltb, All, arith,
}
use minde.Ipc.{
  max_request_bytes, Reading, chunk, half_closed, read_would_block, read_interrupted, read_broken,
  ReadEnd, complete, incomplete, read_failed, read_loop,
}

abbrev pub Small : Reading → Type 0
Small (chunk bytes) = length bytes ≤ 4096
Small _ = Unit

abbrev Bounds : ReadEnd × List ℕ → Type 0
Bounds x =
    (length x.1 ≤ max_request_bytes + 4096) × (x.0 ≡ incomplete → length x.1 ≤ max_request_bytes)

end-Bounds :
    (request : List ℕ) (e : ReadEnd)
    → length request ≤ max_request_bytes + 4096
    → Bounds (if ltb max_request_bytes (length request) then complete else e, request)
end-Bounds request e h = (
  h,
  (λ q. elim (Bool-cases (ltb max_request_bytes (length request))) [
    | inl over ↦ absurd (apart (subst (λ b. (if b then complete else e) ≡ incomplete) over q))
    | inr fits ↦ ground arith
  ]),
)
  where
    apart : complete ≡ incomplete → ⊥
    apart e = absurd (ground arith)

-- A request that is waited for is at most 64 KiB, and one that is evaluated at most one read longer.
pub read_loop-Bounds :
    (readings : List Reading) (request : List ℕ)
    → All Small readings
    → length request ≤ max_request_bytes + 4096
    → (length (read_loop readings request).1 ≤ max_request_bytes + 4096)
      × ((read_loop readings request).0 ≡ incomplete
          → length (read_loop readings request).1 ≤ max_request_bytes)
unfolding read_loop
read_loop-Bounds [] request small h = end-Bounds request incomplete h
read_loop-Bounds (chunk bytes ∷ later) request small h =
    if-split Bounds (ltb max_request_bytes (length request)) (complete, request)
      (read_loop later (request ++ bytes)) (λ over. (h, λ e. absurd (ground arith)))
      (λ fits.
        read_loop-Bounds later (request ++ bytes) small.1
          (ground (arith, length-append request bytes, small.0)))
read_loop-Bounds (half_closed ∷ later) request small h = (h, (λ e. absurd (ground arith)))
read_loop-Bounds (read_would_block ∷ later) request small h = end-Bounds request incomplete h
read_loop-Bounds (read_interrupted ∷ later) request small h =
    if-split Bounds (ltb max_request_bytes (length request)) (complete, request)
      (read_loop later request) (λ over. (h, λ e. absurd (ground arith)))
      (λ fits. read_loop-Bounds later request small.1 h)
read_loop-Bounds (read_broken ∷ later) request small h = end-Bounds request read_failed h
