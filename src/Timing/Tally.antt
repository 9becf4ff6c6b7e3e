-- ===== src/Timing/Tally.antt =====
-- src/timing.rs: the statistics after any number of records.
use minde.Base.{
  ℕ, suc, ◌+◌, ◌%◌, subst, ap, ◌∙◌, ◌≤◌, ◌<◌, ◌≡◌, refl, ◌⊎◌, inl, inr, List, [], ◌∷◌, Bool, false,
  ◌&&◌, ltb, leb, ◌==◌, if◌then◌else◌, length, word64, All, Any, arith,
}
use minde.Timing.{
  position, bucket_limits_us, Stats, stats_default, clamp_us, fetch_max, record_time,
}

unfoldable pub record_all : List ℕ → Stats → Stats
unfolding record_time
record_all [] s = s
record_all (x ∷ xs) s = record_all xs (record_time x s)

abbrev pub sum : List ℕ → ℕ
sum [] = 0
sum (x ∷ xs) = x + sum xs

-- The times of each bucket, in microseconds.
abbrev pub in_bucket : ℕ → ℕ → Bool
in_bucket i t =
    if i == 0
    then leb t 100
    else if i == 1
    then ltb 100 t && leb t 1000
    else if i == 2
    then ltb 1000 t && leb t 4000
    else if i == 3
    then ltb 4000 t && leb t 16600
    else if i == 4
    then ltb 16600 t
    else false

-- How many of the times are in the bucket `i`.
abbrev pub tally : ℕ → List ℕ → ℕ
tally i [] = 0
tally i (t ∷ ts) = (if in_bucket i t then 1 else 0) + tally i ts

-- `m` is the greatest of the times and of `least`.
abbrev pub Greatest : ℕ → List ℕ → ℕ → Type 0
Greatest least ts m = (least ≤ m) × All (λ t. t ≤ m) ts × ((m ≡ least) ⊎ Any (λ t. t ≡ m) ts)

tally-length : (i : ℕ) (h : List ℕ) → tally i h ≤ length h
tally-length i [] = omega arith
tally-length i (t ∷ ts) = let n = tally-length i ts in at_most (in_bucket i t) n
  where
    at_most : (b : Bool) {m n : ℕ} → m ≤ n → (if b then 1 else 0) + m ≤ suc n
    at_most b h = ground arith

position-in_bucket : (i t : ℕ) → (i == position bucket_limits_us t) ≡ in_bucket i t
unfolding position
position-in_bucket i t = ground arith

small_us : (t : ℕ) → t < word64 → clamp_us t ≡ t
small_us t h = ground arith

record_all_count :
    (h : List ℕ) (s : Stats)
    → s.count + length h < word64
    → (record_all h s).count ≡ s.count + length h
unfolding record_all record_time
record_all_count [] s b = omega arith
record_all_count (t ∷ ts) s b =
    let s' : Stats = record_time t s in
    let next : s'.count ≡ s.count + 1 = omega arith in
    omega (arith, record_all_count ts s' (omega (arith, next)), next)

record_all_total :
    (h : List ℕ) (s : Stats)
    → s.total_us + sum h < word64
    → (record_all h s).total_us ≡ s.total_us + sum h
unfolding record_all record_time
record_all_total [] s b = omega arith
record_all_total (t ∷ ts) s b =
    let s' : Stats = record_time t s in
    let small = small_us t (omega arith) in
    let next : s'.total_us ≡ s.total_us + t = omega (arith, small) in
    omega (arith, record_all_total ts s' (omega (arith, next)), next)

fetch_max-Greatest :
    (old t : ℕ) (ts : List ℕ) (m : ℕ) → Greatest (fetch_max old t) ts m → Greatest old (t ∷ ts) m
fetch_max-Greatest old t ts m (low, all, from) =
    let (left, right) = both old t in
    (
      omega arith,
      (omega arith, all),
      elim from [
        | inl e ↦ elim (either old t) [
          | inl f ↦ inl (omega arith)
          | inr f ↦ inr (inl (omega arith))
        ]
        | inr p ↦ inr (inr p)
      ],
    )
  where
    both : (a b : ℕ) → (a ≤ fetch_max a b) × (b ≤ fetch_max a b)
    both a b = (ground arith, ground arith)

    either : (a b : ℕ) → (fetch_max a b ≡ a) ⊎ (fetch_max a b ≡ b)
    either a b = ground arith

record_all_max :
    (h : List ℕ) (s : Stats) → sum h < word64 → Greatest s.max_us h (record_all h s).max_us
unfolding record_all record_time
record_all_max [] s b = (omega arith, tt, inl refl)
record_all_max (t ∷ ts) s b =
    let s' : Stats = record_time t s in
    let small = small_us t (omega arith) in
    fetch_max-Greatest s.max_us t ts (record_all ts s').max_us (
      subst (λ m. Greatest (fetch_max s.max_us m) ts (record_all ts s').max_us) small
        (record_all_max ts s' (omega arith)))

record_all_buckets :
    (i : ℕ) (h : List ℕ) (s : Stats)
    → sum h < word64
    → s.buckets i + tally i h < word64
    → (record_all h s).buckets i ≡ s.buckets i + tally i h
unfolding record_all record_time
record_all_buckets i [] s small b = omega arith
record_all_buckets i (t ∷ ts) s small b =
    let s' : Stats = record_time t s in
    let one : ℕ = if in_bucket i t then 1 else 0 in
    let next : s'.buckets i ≡ s.buckets i + one = counted t (omega arith) (omega arith) in
    omega (arith, record_all_buckets i ts s' (omega arith) (omega (arith, next)), next)
  where
    hit :
        (b c : Bool) (n : ℕ)
        → b ≡ c
        → n + (if c then 1 else 0) < word64
        → (if b then (n + 1) % word64 else n) ≡ n + (if c then 1 else 0)
    hit b c n e h = ground arith

    counted :
        (t : ℕ)
        → t < word64
        → s.buckets i + (if in_bucket i t then 1 else 0) < word64
        → (record_time t s).buckets i ≡ s.buckets i + (if in_bucket i t then 1 else 0)
    counted t h k =
        hit (i == position bucket_limits_us (clamp_us t)) (in_bucket i t) (s.buckets i)
          (ap (λ u. i == position bucket_limits_us u) (small_us t h) ∙ position-in_bucket i t) k

-- After any times are recorded, fewer than 2^64 and with a sum below 2^64 microseconds, a probe holds
-- their number and their sum, a maximum that none exceeds and that is one of them (or 0), and for each
-- bucket how many of the times are in it: up to 100, to 1000, to 4000, to 16600 microseconds, or more.
pub record_all-tally :
    (h : List ℕ)
    → length h < word64
    → sum h < word64
    → ((record_all h stats_default).count ≡ length h)
      × ((record_all h stats_default).total_us ≡ sum h)
      × Greatest 0 h (record_all h stats_default).max_us
      × ((i : ℕ) → (record_all h stats_default).buckets i ≡ tally i h)
record_all-tally h few small = (
  omega (arith, record_all_count h stats_default (omega arith)),
  omega (arith, record_all_total h stats_default (omega arith)),
  record_all_max h stats_default small,
  λ i. omega (arith, record_all_buckets i h stats_default small (omega (arith, tally-length i h))),
)
