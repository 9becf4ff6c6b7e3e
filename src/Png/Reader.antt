-- ===== src/Png/Reader.antt =====
-- src/png.rs: a reader of chunks, from the PNG format.
use minde.Base.{
  ℕ, ◌+◌, ◌-◌, ◌*◌, ◌/◌, ◌%◌, ◌<◌, ◌≡◌, refl, ap, ◌∙◌, List, ◌∷◌, ◌++◌, append_assoc, Option, none,
  some, length, take, drop, strip_prefix, strip_prefix-append, length-append, take-length-append,
  drop-length-append, arith,
}
use minde.Png.{crc32, to_be_bytes, add_chunk}

unfoldable pub read_be : List ℕ → Option (ℕ × List ℕ)
read_be (a ∷ b ∷ c ∷ d ∷ s) = some (a * 16777216 + b * 65536 + c * 256 + d, s)
read_be _ = none

abbrev pub and_then {ℓ κ} : {A : Type ℓ} {B : Type κ} → Option A → (A → Option B) → Option B
and_then none f = none
and_then (some x) f = f x

-- The payload of a chunk of this kind whose length and checksum are right, and what follows it.
unfoldable pub read_chunk : List ℕ → List ℕ → Option (List ℕ × List ℕ)
read_chunk kind s = and_then (read_be s) (λ l. and_then (strip_prefix kind l.1) (λ t.
    and_then (strip_prefix (to_be_bytes (crc32 (kind ++ take l.0 t))) (drop l.0 t))
      (λ u. some (take l.0 t, u))))

read_be-to_be_bytes :
    (n : ℕ) (s : List ℕ) → n < 4294967296 → read_be (to_be_bytes n ++ s) ≡ some (n, s)
unfolding read_be to_be_bytes
read_be-to_be_bytes n s h =
    let e : n / 16777216 % 256 * 16777216 + n / 65536 % 256 * 65536 + n / 256 % 256 * 256 + n % 256
        ≡ n =
      omega arith in
    rw e refl

-- A chunk is appended: its length, its kind, its payload and the checksum of the last two.
chunk_bytes : List ℕ → List ℕ → List ℕ
chunk_bytes kind payload =
    to_be_bytes (length payload) ++ (kind ++ (payload ++ to_be_bytes (crc32 (kind ++ payload))))

add_chunk-chunk_bytes :
    (out kind payload : List ℕ)
    → length kind ≡ 4
    → length payload < 4294967296
    → add_chunk out kind payload ≡ out ++ chunk_bytes kind payload
unfolding add_chunk chunk_bytes
add_chunk-chunk_bytes out kind payload k h =
    let front = out ++ to_be_bytes (length payload) in
    let whole : length payload % 4294967296 ≡ length payload = omega arith in
    let grouped : (front ++ kind) ++ payload ≡ front ++ (kind ++ payload) =
      append_assoc front kind payload in
    let start : length (front ++ (kind ++ payload)) - length payload - 4 ≡ length front =
      omega (arith, length-append front (kind ++ payload), length-append kind payload, k) in
    let sum = to_be_bytes (crc32 (kind ++ payload)) in
    rw (whole, grouped, start, drop-length-append front (kind ++ payload))
      (append_assoc front (kind ++ payload) sum
        ∙ (ap (λ t. front ++ t) (append_assoc kind payload sum)
            ∙ append_assoc out (to_be_bytes (length payload)) (kind ++ (payload ++ sum))))

read_chunk-chunk_bytes :
    (kind payload s : List ℕ)
    → length payload < 4294967296
    → read_chunk kind (chunk_bytes kind payload ++ s) ≡ some (payload, s)
unfolding read_chunk chunk_bytes
read_chunk-chunk_bytes kind payload s h =
    let len = to_be_bytes (length payload) in
    let sum = to_be_bytes (crc32 (kind ++ payload)) in
    let flat : (len ++ (kind ++ (payload ++ sum))) ++ s ≡ len ++ (kind ++ (payload ++ (sum ++ s))) =
      append_assoc len (kind ++ (payload ++ sum)) s
      ∙ ap (λ t. len ++ t)
          (append_assoc kind (payload ++ sum) s
            ∙ ap (λ t. kind ++ t) (append_assoc payload sum s)) in
    rw
      (
        flat,
        read_be-to_be_bytes (length payload) (kind ++ (payload ++ (sum ++ s))) h,
        strip_prefix-append kind (payload ++ (sum ++ s)),
        take-length-append payload (sum ++ s),
        drop-length-append payload (sum ++ s),
        strip_prefix-append sum s,
      )
      refl

-- A chunk goes behind what was written, and a reader that checks its kind, its length and its
-- checksum gets back the payload and whatever follows, for a kind of four bytes and a payload
-- shorter than 2^32 bytes.
pub add_chunk-read_chunk :
    (out kind payload : List ℕ)
    → length kind ≡ 4
    → length payload < 4294967296
    → (c : List ℕ) × (add_chunk out kind payload ≡ out ++ c)
      × ((s : List ℕ) → read_chunk kind (c ++ s) ≡ some (payload, s))
add_chunk-read_chunk out kind payload k h = (
  chunk_bytes kind payload,
  add_chunk-chunk_bytes out kind payload k h,
  λ s. read_chunk-chunk_bytes kind payload s h,
)
