-- ===== src/Events/Journal/History.antt =====
-- The journal against the whole history of published lines.
use minde.Base.{
  ℕ, zero, suc, ◌+◌, ◌≤◌, ◌≡◌, refl, ap, List, [], ◌∷◌, ◌++◌, Bool, true, false, ◌&&◌, length, drop,
  leb, if◌then◌else◌, arith,
}
use minde.Events.Journal.{JournalEvent, JournalPage, max_journal_events, max_journal_bytes}

abbrev pub Line : Type 0
Line = List ℕ

-- The bytes of a list of lines.
abbrev pub total : List Line → ℕ
total [] = 0
total (l ∷ ls) = length l + total ls

-- The rows of lines that follow the publication `floor`.
abbrev pub rows_from : ℕ → List Line → List JournalEvent
rows_from floor [] = []
rows_from floor (l ∷ ls) = record { sequence = floor + 1; line = l } ∷ rows_from (floor + 1) ls

-- What the two bounds of the journal have room for.
abbrev pub fits : List Line → Bool
fits ls = leb (length ls) max_journal_events && leb (total ls) max_journal_bytes

-- What a reader is promised: all that was published past the cursor, if the journal has room for
-- it, and otherwise an explicit gap with no rows.
abbrev pub page_spec : List Line → ℕ → JournalPage
page_spec h cursor =
    if leb cursor (length h) && fits (drop cursor h)
    then record { sequence = length h; gap = false; events = rows_from cursor (drop cursor h) }
    else record { sequence = length h; gap = true; events = [] }

pub total-append : (xs ys : List Line) → total (xs ++ ys) ≡ total xs + total ys
total-append [] ys = omega arith
total-append (x ∷ xs) ys = omega (arith, total-append xs ys)

pub total-drop-le : (n : ℕ) (ls : List Line) → total (drop n ls) ≤ total ls
total-drop-le zero ls = omega arith
total-drop-le (suc n) [] = omega arith
total-drop-le (suc n) (l ∷ ls) = omega (arith, total-drop-le n ls)

pub length-rows_from : (f : ℕ) (ls : List Line) → length (rows_from f ls) ≡ length ls
length-rows_from f [] = refl
length-rows_from f (l ∷ ls) = ap suc (length-rows_from (f + 1) ls)

pub rows_from-append :
    (f : ℕ) (xs : List Line) (l : Line)
    → rows_from f (xs ++ l ∷ [])
      ≡ rows_from f xs ++ record { sequence = f + length xs + 1; line = l } ∷ []
rows_from-append f [] l = ground arith
rows_from-append f (x ∷ xs) l =
    let e : f + 1 + length xs + 1 ≡ f + suc (length xs) + 1 = omega arith in
    ap (◌∷◌ (record { sequence = f + 1; line = x })) (rw (← e) (rows_from-append (f + 1) xs l))
