-- ===== src/Outputs/Overflow.antt =====
-- src/handlers/output_management.rs: the difference of refresh rates in `nearest_advertised_mode`.
use minde.Base.{
  ℕ, suc, ◌≤◌, ◌<◌, ◌≡◌, refl, ◌⊎◌, inl, inr, Bool, true, false, ◌&&◌, true-ne-false, ℤ, pos,
  negsuc, pos_part, neg_part, ◌-ℤ◌, leb_ℤ, arith,
}
use minde.Outputs.{Mode, same_size, wrap_i32, abs_i32}
use minde.Outputs.Validate.{near_mode}

wrapped :
    (z : ℤ)
    → pos_part z ≤ 4147483648
    → neg_part z < 2147483648
    → leb_ℤ (abs_i32 (wrap_i32 z)) (pos 1000) ≡ true
    → ((pos_part z ≤ 1000) × (neg_part z ≤ 1000)) ⊎ (pos_part z ≡ 2147483648)
wrapped (pos n) h k e = ground arith
wrapped (negsuc n) h k e = ground arith

-- The wanted rate is any `i32`, the advertised one at most 2 MHz.
difference_parts :
    (m w : ℤ) (r : ℕ)
    → m ≡ pos r
    → r ≤ 2000000000
    → pos_part w < 2147483648
    → neg_part w ≤ 2147483648
    → (pos_part (m -ℤ w) ≤ 4147483648) × (neg_part (m -ℤ w) < 2147483648)
unfolding ◌-ℤ◌
difference_parts m w r e h k l = ground arith

at_most : (z : ℤ) (n : ℕ) → pos_part z ≡ suc n → z ≡ pos (suc n)
at_most z n e = ground arith

-- A mode that is near a wanted one, any `i32` as its rate, has its size, and its rate, at most
-- 2 MHz, is within 1000 mHz of the wanted one or exactly 2 ^ 31 above it.
pub near_mode-rate :
    (wanted m : Mode) (r : ℕ)
    → m.refresh ≡ pos r
    → r ≤ 2000000000
    → pos_part wanted.refresh < 2147483648
    → neg_part wanted.refresh ≤ 2147483648
    → near_mode wanted m ≡ true
    → (same_size m wanted ≡ true)
      × (((pos_part (m.refresh -ℤ wanted.refresh) ≤ 1000)
            × (neg_part (m.refresh -ℤ wanted.refresh) ≤ 1000))
          ⊎ (m.refresh -ℤ wanted.refresh ≡ pos 2147483648))
near_mode-rate wanted m r e h k l near =
    let (size, close) = and_true (same_size m wanted) _ near in
    let (high, low) = difference_parts m.refresh wanted.refresh r e h k l in
    (
      size,
      elim (wrapped (m.refresh -ℤ wanted.refresh) high low close) [
        | inl c ↦ inl c
        | inr c ↦ inr (at_most (m.refresh -ℤ wanted.refresh) 2147483647 c)
      ],
    )
  where
    and_true : (a b : Bool) → (a && b) ≡ true → (a ≡ true) × (b ≡ true)
    and_true true b h = (refl, h)
    and_true false b h = absurd (true-ne-false h refl)
