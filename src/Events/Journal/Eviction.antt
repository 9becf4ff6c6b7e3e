-- ===== src/Events/Journal/Eviction.antt =====
-- src/events.rs: the loop of `EventJournal::record` that makes room for a line.
use minde.Base.{
  ℕ, zero, suc, ◌+◌, ◌-◌, ◌%◌, ◌≤◌, ◌<◌, ◌≡◌, inl, inr, List, [], ◌∷◌, Option, some, true, false,
  length, drop, Bool-cases, word64, arith,
}
use minde.Events.Journal.{JournalEvent, max_journal_events, max_journal_bytes, over_limit, evict}
use minde.Events.Journal.History.{Line, total, rows_from, length-rows_from}

-- There is room for one more line of `len` bytes.
abbrev pub Room : List Line → ℕ → Type 0
Room ls len = (total ls + len ≤ max_journal_bytes) × (length ls < max_journal_events)

over_limit-true :
    (f : ℕ) (ls : List Line) (len : ℕ)
    → over_limit (rows_from f ls) (total ls) len ≡ true
    → Room ls len
    → ⊥
unfolding over_limit
over_limit-true f ls len h r = ground (arith, length-rows_from f ls)

over_limit-false :
    (f : ℕ) (ls : List Line) (len : ℕ)
    → over_limit (rows_from f ls) (total ls) len ≡ false
    → Room ls len
unfolding over_limit
over_limit-false f ls len h = ground (arith, length-rows_from f ls)

-- What the loop leaves of the lines `ls` that follow publication `f`: it removes `count` of them.
pub record Evicted (ls : List Line) (f len : ℕ) (r : Option (List JournalEvent × ℕ × ℕ))
    : Type 0 where
  pub count : ℕ
  pub result : r ≡ some (rows_from (f + count) (drop count ls), total (drop count ls), f + count)
  pub within : count ≤ length ls
  pub room : Room (drop count ls) len
  pub least : (m : ℕ) → Room (drop m ls) len → count ≤ m

Evicted-none :
    (ls : List Line) (f len : ℕ)
    → Room ls len
    → Evicted ls f len (some (rows_from f ls, total ls, f))
Evicted-none ls f len r =
    let e : f + 0 ≡ f = omega arith in
    record { count = 0; result = rw e; within = omega arith; room = r; least = λ m _. omega arith }

Evicted-one :
    (l : Line) (ls : List Line) (f len : ℕ) (r : Option (List JournalEvent × ℕ × ℕ))
    → (Room (l ∷ ls) len → ⊥)
    → Evicted ls (f + 1) len r
    → Evicted (l ∷ ls) f len r
Evicted-one l ls f len r full v =
    let e : f + suc v.count ≡ f + 1 + v.count = omega arith in
    record {
      count = suc v.count;
      result = rw e v.result;
      within = omega arith;
      room = v.room;
      least = λ m. elim m as (λ m. Room (drop m (l ∷ ls)) len → suc v.count ≤ m) [
        | zero ↦ λ h. absurd (full h)
        | suc n ↦ λ h. omega (arith, v.least n h)
      ];
    }

-- Eviction removes the shortest prefix that makes room, and never meets the panic.
pub evict-Evicted :
    (ls : List Line) (f len : ℕ)
    → total ls ≤ max_journal_bytes
    → len ≤ max_journal_bytes
    → Evicted ls f len (evict (rows_from f ls) (total ls) f len)
unfolding evict
evict-Evicted [] f len h hl = elim (Bool-cases (over_limit [] 0 len)) [
  | inl over ↦ absurd (over_limit-true f [] len over (omega arith))
  | inr fine ↦ rw fine (Evicted-none [] f len (over_limit-false f [] len fine))
]
evict-Evicted (l ∷ ls) f len h hl =
    let rest : (length l + total ls + word64 - length l) % word64 ≡ total ls = omega arith in
    elim (Bool-cases (over_limit (rows_from f (l ∷ ls)) (total (l ∷ ls)) len)) [
      | inl over ↦
          rw (over, rest)
            (Evicted-one l ls f len _ (over_limit-true f (l ∷ ls) len over)
              (evict-Evicted ls (f + 1) len (omega arith) hl))
      | inr fine ↦ rw fine (Evicted-none (l ∷ ls) f len (over_limit-false f (l ∷ ls) len fine))
    ]
