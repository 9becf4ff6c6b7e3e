-- ===== src/Calloop/Table.antt =====
-- An event loop for tests, in place of calloop: it counts its tokens, and registers every source.
use minde.Base.{
  ℕ, ◌+◌, ◌<◌, ◌≡◌, ◌≢◌, ◌⊎◌, inl, inr, List, [], ◌∷◌, Option, some, count, ◌==◌, Bool-cases,
  if◌then◌else◌, arith,
}
use minde.Calloop.{LoopHandle}

unfoldable pub without : ℕ → List ℕ → List ℕ
without t [] = []
without t (x ∷ xs) = if x == t then without t xs else x ∷ without t xs

pub without_live : (t u : ℕ) (xs : List ℕ) → 0 < count u (without t xs) → (0 < count u xs) × (u ≢ t)
unfolding without
without_live t u [] h = absurd (omega arith)
without_live t u (x ∷ xs) h = elim (Bool-cases (x == t)) [
  | inl hit ↦ let (l, ne) = without_live t u xs (rw (hit, without) at h) in (omega arith, ne)
  | inr miss ↦ (ground (arith, without_live t u xs), λ e. ground (arith, without_live t u xs))
]

abbrev pub Table : Type 0
Table = ℕ × List ℕ

abbrev pub insert : Table → Option (ℕ × Table)
insert s = some (s.0, (s.0 + 1, s.0 ∷ s.1))

pub insert_law :
    (s s' : Table) (t u : ℕ)
    → insert s ≡ some (t, s')
    → 0 < count u s'.1
    → (u ≡ t) ⊎ (0 < count u s.1)
insert_law s s' t u e h = ground arith

abbrev pub table_loop : LoopHandle
table_loop = record {
  Sources = Table;
  Live = λ s t. 0 < count t s.1;
  insert_source = insert;
  remove = λ t s. (s.0, without t s.1);
  insert_live = insert_law;
  remove_live = λ s t u h. without_live t u s.1 h;
}
