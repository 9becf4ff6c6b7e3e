-- ===== src/Events/Journal/Replay.antt =====
-- src/events.rs: `EventJournal::since` answers as the promise to readers says.
use minde.Base.{
  ℕ, zero, suc, ◌+◌, ◌-◌, ◌≤◌, ◌<◌, ◌≡◌, refl, ap, ◌∙◌, inl, inr, List, [], ◌∷◌, ◌++◌, Option, none,
  some, true, false, ◌&&◌, length, length-drop, length-append, drop, drop-nil, drop-drop, leb,
  Bool-cases, append_assoc, append-nil, word64, arith,
}
use minde.Events.Journal.{EventJournal, journal_default, record_line, after_cursor, since}
use minde.Events.Journal.History.{Line, rows_from, fits, page_spec, total-drop-le}
use minde.Events.Journal.Retention.{Inv, journal_default-Inv, record_line-Inv}

after_cursor_all :
    (ls : List Line) (f c : ℕ) → c ≤ f → after_cursor c (rows_from f ls) ≡ rows_from f ls
unfolding after_cursor
after_cursor_all [] f c h = refl
after_cursor_all (l ∷ ls) f c h = ground (arith, after_cursor_all ls (f + 1) c)

after_cursor_rows :
    (ls : List Line) (f d c : ℕ)
    → c ≡ f + d
    → after_cursor c (rows_from f ls) ≡ rows_from c (drop d ls)
unfolding after_cursor
after_cursor_rows [] f d c e = rw (drop-nil d)
after_cursor_rows (l ∷ ls) f zero c e =
    after_cursor_all (l ∷ ls) f c (omega arith) ∙ ap (λ i. rows_from i (l ∷ ls)) (omega arith)
after_cursor_rows (l ∷ ls) f (suc d) c e =
    ground (arith, after_cursor_rows ls (f + 1) d c (omega arith))

fits-drop : (n : ℕ) (ls : List Line) → fits ls ≡ true → fits (drop n ls) ≡ true
fits-drop n ls h = ground (arith, length-drop n ls, total-drop-le n ls)

module _ (h : List Line) (j : EventJournal) (v : Inv h j) (c : ℕ) where
  since_kept : c ≤ length h → fits (drop c h) ≡ true → since j c ≡ page_spec h c
  unfolding since
  since_kept le f =
      let low : j.floor ≤ c = v.longest c le f in
      let split : c ≡ j.floor + (c - j.floor) = omega arith in
      let same : drop (c - j.floor) (drop j.floor h) ≡ drop c h =
        drop-drop j.floor (c - j.floor) h ∙ ap (λ i. drop i h) (omega arith) in
      let rows : after_cursor c j.events ≡ rows_from c (drop c h) =
        ap (after_cursor c) v.rows
        ∙ (after_cursor_rows (drop j.floor h) j.floor (c - j.floor) c split
            ∙ ap (rows_from c) same) in
      ground (arith, rows, v.published)

  since_lost : (leb c (length h) && fits (drop c h)) ≡ false → since j c ≡ page_spec h c
  unfolding since
  since_lost lost =
      let split : j.floor ≤ c → j.floor + (c - j.floor) ≡ c = λ le. omega arith in
      let kept : j.floor ≤ c → fits (drop c h) ≡ true = λ le.
        rw (ap (λ i. drop i h) (split le)) at (
          rw (drop-drop j.floor (c - j.floor) h) at
            (fits-drop (c - j.floor) (drop j.floor h) v.kept_fits)) in
      ground (arith, kept, v.published)

  -- `since` answers with everything published past the cursor whenever the bounds of the journal
  -- have room for it, and otherwise with a gap and no rows.
  pub since-page_spec : since j c ≡ page_spec h c
  since-page_spec = elim (Bool-cases (leb c (length h) && fits (drop c h))) [
    | inl all ↦ since_kept (ground arith) (ground arith)
    | inr lost ↦ since_lost lost
  ]

-- Publishing a list of lines.
unfoldable pub record_all : EventJournal → List Line → Option EventJournal
record_all j [] = some j
record_all j (l ∷ ls) = elim (record_line j l) [ none ↦ none | some j' ↦ record_all j' ls ]

record_all-Inv :
    (ls h : List Line) (j : EventJournal)
    → Inv h j
    → length h + length ls < word64
    → (j' : EventJournal) × (record_all j ls ≡ some j') × Inv (h ++ ls) j'
unfolding record_all
record_all-Inv [] h j v bound = (j, refl, rw append-nil v)
record_all-Inv (l ∷ ls) h j v bound =
    let (j', e, v') = record_line-Inv h l j v (omega arith) in
    let (k, e', w) =
      record_all-Inv ls (h ++ l ∷ []) j' v' (omega (arith, length-append h (l ∷ []))) in
    (k, rw (e, record_all) e', rw (append_assoc h (l ∷ []) ls) at w)

-- Publishing fewer than 2^64 lines from the empty journal never panics, and for each cursor `since`
-- then answers with every line published past it, if these are at most 128 lines and 16 KiB, and
-- otherwise, or for a cursor beyond the newest line, with a gap and no rows.
pub record_all-since :
    (h : List Line)
    → length h < word64
    → (j : EventJournal) × (record_all journal_default h ≡ some j)
      × ((c : ℕ) → since j c ≡ page_spec h c)
record_all-since h bound =
    let (j, e, v) = record_all-Inv h [] journal_default journal_default-Inv (omega arith) in
    (j, e, since-page_spec h j v)
