-- ===== src/Layout/Sorted.antt =====
-- The stable sort of the standard library keeps the elements, and orders the keys.
use minde.Base.{
  ℕ, ◌≢◌, sym, ◌⊎◌, inl, inr, List, [], ◌∷◌, if-split, if-both, ℤ, ◌≤ℤ◌, leb_ℤ, All, All-map, Any,
  Distinct, arith,
}
use minde.Layout.{insert_by, sort_by_key}

abbrev pub Ordered : List (ℤ × ℕ) → Type 0
Ordered [] = Unit
Ordered (a ∷ rest) = All (λ (b : ℤ × ℕ). a.0 ≤ℤ b.0) rest × Ordered rest

abbrev pub of_output : ℤ × ℕ → ℕ
of_output a = a.1

module _ (P : ℤ × ℕ → Type 0) where
  insert_by-All : (a : ℤ × ℕ) (xs : List (ℤ × ℕ)) → P a → All P xs → All P (insert_by a xs)
  insert_by-All a [] p h = (p, tt)
  insert_by-All a (b ∷ rest) p h =
      if-both (All P) (leb_ℤ a.0 b.0) (a ∷ b ∷ rest) (b ∷ insert_by a rest) (p, h)
        (h.0, insert_by-All a rest p h.1)

  pub sort_by_key-All : (xs : List (ℤ × ℕ)) → All P xs → All P (sort_by_key xs)
  unfolding sort_by_key
  sort_by_key-All [] h = tt
  sort_by_key-All (a ∷ rest) h = insert_by-All a (sort_by_key rest) h.0 (sort_by_key-All rest h.1)

  insert_by-Any : (a : ℤ × ℕ) (xs : List (ℤ × ℕ)) → P a ⊎ Any P xs → Any P (insert_by a xs)
  insert_by-Any a [] p = p
  insert_by-Any a (b ∷ rest) p =
      if-both (Any P) (leb_ℤ a.0 b.0) (a ∷ b ∷ rest) (b ∷ insert_by a rest) p (elim p [
        | inl h ↦ inr (insert_by-Any a rest (inl h))
        | inr (inl h) ↦ inl h
        | inr (inr h) ↦ inr (insert_by-Any a rest (inr h))
      ])

  pub sort_by_key-Any : (xs : List (ℤ × ℕ)) → Any P xs → Any P (sort_by_key xs)
  unfolding sort_by_key
  sort_by_key-Any [] p = p
  sort_by_key-Any (a ∷ rest) (inl h) = insert_by-Any a (sort_by_key rest) (inl h)
  sort_by_key-Any (a ∷ rest) (inr h) =
      insert_by-Any a (sort_by_key rest) (inr (sort_by_key-Any rest h))

insert_by-Ordered : (a : ℤ × ℕ) (xs : List (ℤ × ℕ)) → Ordered xs → Ordered (insert_by a xs)
insert_by-Ordered a [] h = (tt, tt)
insert_by-Ordered a (b ∷ rest) (low, h) =
    if-split Ordered (leb_ℤ a.0 b.0) (a ∷ b ∷ rest) (b ∷ insert_by a rest)
      (λ e.
        let le : a.0 ≤ℤ b.0 = ground arith in
        (
          (
            le,
            All-map (λ (c : ℤ × ℕ). b.0 ≤ℤ c.0) (λ (c : ℤ × ℕ). a.0 ≤ℤ c.0) rest
                (λ c k. omega arith) low,
          ),
          (low, h),
        ))
      (λ e.
        let le : b.0 ≤ℤ a.0 = ground arith in
        (insert_by-All (λ (c : ℤ × ℕ). b.0 ≤ℤ c.0) a rest le low, insert_by-Ordered a rest h))

pub sort_by_key-Ordered : (xs : List (ℤ × ℕ)) → Ordered (sort_by_key xs)
unfolding sort_by_key
sort_by_key-Ordered [] = tt
sort_by_key-Ordered (a ∷ rest) = insert_by-Ordered a (sort_by_key rest) (sort_by_key-Ordered rest)

insert_by-Distinct :
    (a : ℤ × ℕ) (xs : List (ℤ × ℕ))
    → All (λ b. of_output b ≢ of_output a) xs
    → Distinct of_output xs
    → Distinct of_output (insert_by a xs)
insert_by-Distinct a [] ne h = (tt, tt)
insert_by-Distinct a (b ∷ rest) (ne, nes) (own, h) =
    if-both (Distinct of_output) (leb_ℤ a.0 b.0) (a ∷ b ∷ rest) (b ∷ insert_by a rest)
      ((ne, nes), (own, h))
      (
        insert_by-All (λ c. of_output c ≢ of_output b) a rest (λ e. ne (sym e)) own,
        insert_by-Distinct a rest nes h,
      )

pub sort_by_key-Distinct :
    (xs : List (ℤ × ℕ)) → Distinct of_output xs → Distinct of_output (sort_by_key xs)
unfolding sort_by_key
sort_by_key-Distinct [] h = tt
sort_by_key-Distinct (a ∷ rest) (own, h) =
    insert_by-Distinct a (sort_by_key rest)
      (sort_by_key-All (λ b. of_output b ≢ of_output a) rest own) (sort_by_key-Distinct rest h)
