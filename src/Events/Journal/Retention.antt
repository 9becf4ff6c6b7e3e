-- ===== src/Events/Journal/Retention.antt =====
-- src/events.rs: recording refines the history of published lines.
use native.Mathlib.Decide.{dec_le}
use minde.Base.{
  ℕ, ◌+◌, ◌-◌, ◌%◌, ◌≤◌, ◌<◌, ◌≡◌, refl, sym, ap, ◌∙◌, ◌⊎◌, inl, inr, List, [], ◌∷◌, ◌++◌, some,
  true, length, length-append, length-drop, drop, drop-append, drop-drop, drop-length, ltb,
  Bool-cases, word64, arith,
}
use minde.Events.Journal.{EventJournal, max_journal_bytes, journal_default, evict, record_line}
use minde.Events.Journal.History.{Line, total, rows_from, fits, total-append, rows_from-append}
use minde.Events.Journal.Eviction.{Room, Evicted, evict-Evicted}

-- The journal `j` after the publications `h`: it holds the longest suffix that fits its bounds.
pub record Inv (h : List Line) (j : EventJournal) : Type 0 where
  pub published : j.sequence ≡ length h
  pub floor_le : j.floor ≤ length h
  pub rows : j.events ≡ rows_from j.floor (drop j.floor h)
  pub exact : j.bytes ≡ total (drop j.floor h)
  pub kept_fits : fits (drop j.floor h) ≡ true
  pub longest : (m : ℕ) → m ≤ length h → fits (drop m h) ≡ true → j.floor ≤ m

pub journal_default-Inv : Inv [] journal_default
unfolding journal_default
journal_default-Inv = record {
  published = refl;
  floor_le = omega arith;
  rows = refl;
  exact = refl;
  kept_fits = refl;
  longest = λ m _ _. omega arith;
}

length_snoc : (h : List Line) (l : Line) → length (h ++ l ∷ []) ≡ length h + 1
length_snoc h l = omega (arith, length-append h (l ∷ []))

drop_snoc :
    (m : ℕ) (h : List Line) (l : Line) → m ≤ length h → drop m (h ++ l ∷ []) ≡ drop m h ++ l ∷ []
drop_snoc m h l e = drop-append m h (l ∷ []) e

-- A list that ends in a line fits exactly if there is room for that line.
fits_snoc : (ls : List Line) (l : Line) → fits (ls ++ l ∷ []) ≡ true → Room ls (length l)
fits_snoc ls l h = ground (arith, length-append ls (l ∷ []), total-append ls (l ∷ []))

snoc_fits : (ls : List Line) (l : Line) → Room ls (length l) → fits (ls ++ l ∷ []) ≡ true
snoc_fits ls l r = ground (arith, length-append ls (l ∷ []), total-append ls (l ∷ []))

module _ (h : List Line) (l : Line) where
  -- A suffix that fits, of the history with `l` at its end, is empty or has room for `l`.
  suffix_cases :
      (m : ℕ)
      → m ≤ length (h ++ l ∷ [])
      → fits (drop m (h ++ l ∷ [])) ≡ true
      → (m ≡ length h + 1) ⊎ ((m ≤ length h) × Room (drop m h) (length l))
  suffix_cases m le f = elim (dec_le m (length h)) [
    | yes p ↦ inr (p, fits_snoc _ _ (rw (drop_snoc m h l p) at f))
    | no q ↦ inl (omega (arith, length_snoc h l))
  ]

  drop_past : (n : ℕ) → n ≡ length h + 1 → drop n (h ++ l ∷ []) ≡ []
  drop_past n e = rw (e, ← length_snoc h l) (drop-length (h ++ l ∷ []))

  oversized-Inv :
      (n : ℕ)
      → max_journal_bytes < length l
      → n ≡ length h + 1
      → Inv (h ++ l ∷ []) (record { sequence = n; floor = n; bytes = 0; events = [] })
  oversized-Inv n big e = record {
    published = omega (arith, length_snoc h l);
    floor_le = omega (arith, length_snoc h l);
    rows = rw (drop_past n e);
    exact = rw (drop_past n e);
    kept_fits = rw (drop_past n e);
    longest = λ m le f. elim (suffix_cases m le f) [
      | inl last ↦ omega arith
      | inr r ↦ absurd (omega (arith, r.1.0))
    ];
  }

  longest_kept :
      (j : EventJournal) (k m : ℕ)
      → Inv h j
      → ((d : ℕ) → Room (drop d (drop j.floor h)) (length l) → k ≤ d)
      → m ≤ length h
      → Room (drop m h) (length l)
      → j.floor + k ≤ m
  longest_kept j k m v least le r =
      let below : j.floor ≤ m = v.longest m le (ground arith) in
      let split : j.floor + (m - j.floor) ≡ m = omega arith in
      let same : drop (m - j.floor) (drop j.floor h) ≡ drop m h =
        drop-drop j.floor (m - j.floor) h ∙ ap (λ i. drop i h) split in
      let bound : k ≤ m - j.floor = least (m - j.floor) (rw same r) in omega arith

  -- The row of `l` behind the rows that an eviction left.
  pushed-Inv :
      (j : EventJournal) (n k : ℕ)
      → Inv h j
      → n ≡ length h + 1
      → k ≤ length (drop j.floor h)
      → Room (drop k (drop j.floor h)) (length l)
      → ((m : ℕ) → Room (drop m (drop j.floor h)) (length l) → k ≤ m)
      → Inv (h ++ l ∷ []) (record {
        sequence = n;
        floor = j.floor + k;
        bytes = (total (drop k (drop j.floor h)) + length l) % word64;
        events =
            rows_from (j.floor + k) (drop k (drop j.floor h))
            ++ record { sequence = n; line = l } ∷ [];
      })
  pushed-Inv j n k v e le room least =
      let within : j.floor + k ≤ length h = omega (arith, v.floor_le, length-drop j.floor h) in
      let kept = drop-drop j.floor k h in
      let kept' = drop_snoc (j.floor + k) h l within in
      let seq : n ≡ j.floor + k + length (drop k (drop j.floor h)) + 1 =
        omega (arith, length-drop j.floor h, length-drop k (drop j.floor h), v.floor_le) in
      record {
        published = omega (arith, length_snoc h l);
        floor_le = omega (arith, length_snoc h l);
        rows = rw (kept', ← kept, seq) (sym (rows_from-append _ _ l));
        exact =
            rw (kept', ← kept)
              (omega (arith, room, total-append (drop k (drop j.floor h)) (l ∷ [])));
        kept_fits = rw (kept', ← kept) (snoc_fits _ l room);
        longest = λ m le' f. elim (suffix_cases m le' f) [
          | inl last ↦ omega arith
          | inr r ↦ longest_kept j k m v least r.0 r.1
        ];
      }

  evict-here :
      (j : EventJournal)
      → Inv h j
      → length l ≤ max_journal_bytes
      → Evicted (drop j.floor h) j.floor (length l) (evict j.events j.bytes j.floor (length l))
  evict-here j v le =
      rw (v.rows, v.exact) (evict-Evicted (drop j.floor h) j.floor (length l) (ground arith) le)

  -- Recording a line never panics, keeps the journal within its bounds and in step with the history.
  pub record_line-Inv :
      (j : EventJournal)
      → Inv h j
      → length h + 1 < word64
      → (j' : EventJournal) × (record_line j l ≡ some j') × Inv (h ++ l ∷ []) j'
  unfolding record_line
  record_line-Inv j v bound =
      let n : ℕ = (j.sequence + 1) % word64 in
      let seq : n ≡ length h + 1 = omega (arith, v.published) in
      elim (Bool-cases (ltb max_journal_bytes (length l))) [
        | inl big ↦ (
          record { sequence = n; floor = n; bytes = 0; events = [] },
          rw big,
          oversized-Inv n (ground arith) seq,
        )
        | inr small ↦
            let ev = evict-here j v (ground arith) in
            (
              record {
                sequence = n;
                floor = j.floor + ev.count;
                bytes = (total (drop ev.count (drop j.floor h)) + length l) % word64;
                events =
                    rows_from (j.floor + ev.count) (drop ev.count (drop j.floor h))
                    ++ record { sequence = n; line = l } ∷ [];
              },
              rw (small, ev.result),
              pushed-Inv j n ev.count v seq ev.within ev.room ev.least,
            )
      ]
