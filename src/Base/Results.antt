-- ===== src/Base/Results.antt =====
-- Rust's `Result`, with the step of the `?` operator.
use mathlib.Core.Path.{◌≡◌, refl, Path}
use mathlib.Core.Logic.{◌⊎◌, inl, inr}

pub data Result {ℓ κ} (A : Type ℓ) (E : Type κ) : Type (ℓ ⊔ κ) where
  ok : A → Result A E
  err : E → Result A E

module _ {ℓ κ} {A : Type ℓ} {E : Type κ} where
  pub ok_inj : {a b : A} → Path (Result A E) (ok a) (ok b) → a ≡ b
  ok_inj e = cc

  pub err_inj : {a b : E} → Path (Result A E) (err a) (err b) → a ≡ b
  err_inj e = cc

  pub err-ne-ok : {x : E} {a : A} → Path (Result A E) (err x) (ok a) → ⊥
  err-ne-ok e = cc

module _ {ℓ κ μ} {A : Type ℓ} {B : Type κ} {E : Type μ} where
  abbrev pub and_then : Result A E → (A → Result B E) → Result B E
  and_then (ok a) f = f a
  and_then (err e) f = err e

  pub and_then-ok :
      (x : Result A E) (f : A → Result B E) (b : B)
      → and_then x f ≡ ok b
      → (a : A) × (x ≡ ok a) × (f a ≡ ok b)
  and_then-ok (ok a) f b e = (a, refl, e)
  and_then-ok (err x) f b e = absurd (err-ne-ok e)

  pub and_then-err :
      (x : Result A E) (f : A → Result B E) (y : E)
      → and_then x f ≡ err y
      → (x ≡ err y) ⊎ ((a : A) × (x ≡ ok a) × (f a ≡ err y))
  and_then-err (ok a) f y e = inr (a, refl, e)
  and_then-err (err x) f y e = inl (let q : x ≡ y = err_inj e in rw q refl)
