-- ===== src/Gamma/Ramp.antt =====
-- src/handlers/gamma_control.rs: `parse_ramps` against the table that a client writes.
use minde.Base.{
  ℕ, ◌+◌, ◌*◌, ◌/◌, ◌%◌, ◌≡◌, ◌≢◌, refl, sym, ap, ap₂, ◌∙◌, List, [], ◌∷◌, ◌++◌, Option, none, some,
  true, false, not, ◌==◌, length, take, drop, length-append, take-length-append, drop-length-append,
  append-nil, append_assoc, arith,
}
use mathlib.Core.Path.{Path}
use minde.Gamma.{Ramps, words, ramp, parse_ramps}

-- `u16::to_ne_bytes` of each number.
abbrev pub bytes_of : List ℕ → List ℕ
bytes_of [] = []
bytes_of (x ∷ xs) = x % 256 ∷ x / 256 ∷ bytes_of xs

-- The table of three ramps.
abbrev pub table : List ℕ → List ℕ → List ℕ → List ℕ
table r g b = bytes_of r ++ (bytes_of g ++ bytes_of b)

words-bytes_of : (xs : List ℕ) → words (bytes_of xs) ≡ xs
unfolding words
words-bytes_of [] = refl
words-bytes_of (x ∷ xs) =
    let e : x % 256 + 256 * (x / 256) ≡ x = omega arith in ap₂ ◌∷◌ e (words-bytes_of xs)

length-bytes_of : (xs : List ℕ) → length (bytes_of xs) ≡ length xs * 2
length-bytes_of [] = refl
length-bytes_of (x ∷ xs) = omega (arith, length-bytes_of xs)

take-part : (n : ℕ) (xs ys : List ℕ) → n ≡ length xs → take n (xs ++ ys) ≡ xs
take-part n xs ys e = ap (λ k. take k (xs ++ ys)) e ∙ take-length-append xs ys

drop-part : (n : ℕ) (xs ys : List ℕ) → n ≡ length xs → drop n (xs ++ ys) ≡ ys
drop-part n xs ys e = ap (λ k. drop k (xs ++ ys)) e ∙ drop-length-append xs ys

part : (n : ℕ) (xs : List ℕ) → length xs ≡ n → n * 2 ≡ length (bytes_of xs)
part n xs e = omega (arith, length-bytes_of xs)

triple :
    {a a' b b' c c' : List ℕ}
    → a ≡ a'
    → b ≡ b'
    → c ≡ c'
    → Path (Option Ramps) (some (a, b, c)) (some (a', b', c'))
triple ea eb ec = rw (ea, eb, ec) refl

first_ramp : (n : ℕ) (r ys : List ℕ) → length r ≡ n → ramp (bytes_of r ++ ys) n 0 ≡ r
first_ramp n r ys e =
    let z : 0 * (n * 2) ≡ 0 = omega arith in
    ap (λ k. words (take (n * 2) (drop k (bytes_of r ++ ys)))) z
    ∙ ap words (take-part (n * 2) (bytes_of r) ys (part n r e))
    ∙ words-bytes_of r

later_ramp :
    (n k : ℕ) (xs r ys : List ℕ)
    → length xs ≡ k * (n * 2)
    → length r ≡ n
    → ramp (xs ++ (bytes_of r ++ ys)) n k ≡ r
later_ramp n k xs r ys ex e =
    ap (λ l. words (take (n * 2) l)) (drop-part (k * (n * 2)) xs (bytes_of r ++ ys) (sym ex))
    ∙ ap words (take-part (n * 2) (bytes_of r) ys (part n r e))
    ∙ words-bytes_of r

length-table :
    (n : ℕ) (r g b : List ℕ)
    → length r ≡ n
    → length g ≡ n
    → length b ≡ n
    → length (table r g b) ≡ n * 3 * 2
length-table n r g b er eg eb = omega (
  arith,
  length-append (bytes_of r) (bytes_of g ++ bytes_of b),
  length-append (bytes_of g) (bytes_of b),
  length-bytes_of r,
  length-bytes_of g,
  length-bytes_of b,
)

-- The table that a client writes for three ramps of the announced size is read back as them, and a
-- table of any other length is refused.
pub parse_ramps-table :
    (n : ℕ) (r g b : List ℕ)
    → length r ≡ n
    → length g ≡ n
    → length b ≡ n
    → (parse_ramps (table r g b) n ≡ some (r, g, b))
      × ((bytes : List ℕ) → length bytes ≢ length (table r g b) → parse_ramps bytes n ≡ none)
unfolding parse_ramps
parse_ramps-table n r g b er eg eb =
    let size = length-table n r g b er eg eb in
    let fits : not (length (table r g b) == n * 3 * 2) ≡ false = ground arith in
    let one : length (bytes_of r) ≡ 1 * (n * 2) = omega (arith, length-bytes_of r) in
    let two : length (bytes_of r ++ bytes_of g) ≡ 2 * (n * 2) =
      omega
        (arith, length-append (bytes_of r) (bytes_of g), length-bytes_of r, length-bytes_of g) in
    let third : table r g b ≡ (bytes_of r ++ bytes_of g) ++ (bytes_of b ++ []) =
      sym (append_assoc (bytes_of r) (bytes_of g) (bytes_of b))
      ∙ ap (◌++◌ (bytes_of r ++ bytes_of g)) (sym (append-nil (bytes_of b))) in
    let ramps =
      triple (first_ramp n r (bytes_of g ++ bytes_of b) er)
        (later_ramp n 1 (bytes_of r) g (bytes_of b) one eg)
        (ap (λ l. ramp l n 2) third ∙ later_ramp n 2 (bytes_of r ++ bytes_of g) b [] two eb) in
    (
      rw fits ramps,
      (λ bytes ne. let bad : not (length bytes == n * 3 * 2) ≡ true = ground arith in rw bad refl),
    )
