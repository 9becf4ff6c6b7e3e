-- ===== src/Png.antt =====
-- src/png.rs: the PNG writer of the screenshots.
pub mod Reader
mod Examples
use minde.Base.{
  ℕ, zero, suc, ◌+◌, ◌-◌, ◌*◌, ◌/◌, ◌%◌, List, [], ◌∷◌, ◌++◌, Option, none, some, Bool, true, false,
  ◌||◌, ltb, ◌==◌, if◌then◌else◌, length, take, drop, word64,
}
use Prim.Native.Nat.{bit_and, bit_or, bit_xor}

-- One round of the loop that builds the table.
unfoldable pub crc_bit : ℕ → ℕ
crc_bit crc = if bit_and crc 1 == 0 then crc / 2 else bit_xor (crc / 2) 3988292384

pub crc_bits : ℕ → ℕ → ℕ
unfolding crc_bit
crc_bits zero crc = crc
crc_bits (suc bits) crc = crc_bits bits (crc_bit crc)

pub table_from : ℕ → ℕ → List ℕ
unfolding crc_bits
table_from i zero = []
table_from i (suc n) = crc_bits 8 i ∷ table_from (i + 1) n

pub crc32_table : List ℕ
unfolding table_from
crc32_table = table_from 0 256

pub entry : List ℕ → ℕ → ℕ
entry [] i = 0
entry (x ∷ xs) zero = x
entry (x ∷ xs) (suc i) = entry xs i

pub crc_bytes : ℕ → List ℕ → ℕ
unfolding crc32_table entry
crc_bytes crc [] = crc
crc_bytes crc (byte ∷ input) =
    crc_bytes (bit_xor (entry crc32_table (bit_and (bit_xor crc byte) 255)) (crc / 256)) input

unfoldable pub crc32 : List ℕ → ℕ
unfolding crc_bytes
crc32 input = bit_xor (crc_bytes 4294967295 input) 4294967295

-- The inner loop of `adler32`, on two `u32`.
unfoldable pub adler_bytes : ℕ → ℕ → List ℕ → ℕ × ℕ
adler_bytes a b [] = (a, b)
adler_bytes a b (byte ∷ bytes) =
    let a' = (a + byte) % 4294967296 in adler_bytes a' ((b + a') % 4294967296) bytes

-- The outer loop; each round of fuel takes a chunk, so that the length of the input is enough.
unfoldable pub adler_chunks : ℕ → ℕ → ℕ → List ℕ → ℕ × ℕ
unfolding adler_bytes
adler_chunks fuel a b [] = (a, b)
adler_chunks zero a b (x ∷ xs) = (a, b)
adler_chunks (suc fuel) a b (x ∷ xs) =
    let (a', b') = adler_bytes a b (take 5552 (x ∷ xs)) in
    adler_chunks fuel (a' % 65521) (b' % 65521) (drop 5552 (x ∷ xs))

unfoldable pub adler32 : List ℕ → ℕ
unfolding adler_chunks
adler32 input =
    let (a, b) = adler_chunks (length input) 1 0 input in bit_or (b * 65536 % 4294967296) a

-- `u32::to_be_bytes`, and `u16::to_le_bytes`.
unfoldable pub to_be_bytes : ℕ → List ℕ
to_be_bytes n = n / 16777216 % 256 ∷ n / 65536 % 256 ∷ n / 256 % 256 ∷ n % 256 ∷ []

unfoldable pub to_le_bytes : ℕ → List ℕ
to_le_bytes n = n % 256 ∷ n / 256 % 256 ∷ []

-- `chunk`.
unfoldable pub add_chunk : List ℕ → List ℕ → List ℕ → List ℕ
unfolding to_be_bytes crc32
add_chunk out kind payload =
    let out' = ((out ++ to_be_bytes (length payload % 4294967296)) ++ kind) ++ payload in
    let start = length out' - length payload - 4 in out' ++ to_be_bytes (crc32 (drop start out'))

abbrev pub final_flag : List ℕ → ℕ
final_flag [] = 1
final_flag (x ∷ xs) = 0

-- The loop of `zlib_stored` over the chunks; each round of fuel takes one.
unfoldable pub stored_blocks : ℕ → List ℕ → List ℕ
unfolding to_le_bytes
stored_blocks fuel [] = []
stored_blocks zero (x ∷ xs) = []
stored_blocks (suc fuel) (x ∷ xs) =
    let block = take 65535 (x ∷ xs) in
    let rest = drop 65535 (x ∷ xs) in
    let len = length block % 65536 in
    final_flag rest
    ∷ (to_le_bytes len ++ (to_le_bytes (65535 - len) ++ (block ++ stored_blocks fuel rest)))

abbrev pub all_blocks : List ℕ → List ℕ
unfolding stored_blocks
all_blocks [] = 1 ∷ 0 ∷ 0 ∷ 255 ∷ 255 ∷ []
all_blocks (x ∷ xs) = stored_blocks (length (x ∷ xs)) (x ∷ xs)

unfoldable pub zlib_stored : List ℕ → List ℕ
unfolding all_blocks to_be_bytes adler32
zlib_stored input = 120 ∷ 1 ∷ (all_blocks input ++ to_be_bytes (adler32 input))

-- The scanlines from a row on; a row that is not in the buffer panics.
unfoldable pub scanlines : ℕ → List ℕ → ℕ → ℕ → Option (List ℕ)
scanlines stride rgba row zero = some []
scanlines stride rgba row (suc n) =
    let rest = scanlines stride rgba (row + 1) n in
    if ltb (length rgba) (row * stride + stride) then none else elim rest [
      | none ↦ none
      | some lines ↦ some (0 ∷ (take stride (drop (row * stride) rgba) ++ lines))
    ]

abbrev pub signature : List ℕ
signature = 137 ∷ 80 ∷ 78 ∷ 71 ∷ 13 ∷ 10 ∷ 26 ∷ 10 ∷ []

abbrev pub ihdr : List ℕ
ihdr = 73 ∷ 72 ∷ 68 ∷ 82 ∷ []

abbrev pub idat : List ℕ
idat = 73 ∷ 68 ∷ 65 ∷ 84 ∷ []

abbrev pub iend : List ℕ
iend = 73 ∷ 69 ∷ 78 ∷ 68 ∷ []

unfoldable pub header : ℕ → ℕ → List ℕ
unfolding to_be_bytes
header width height = to_be_bytes width ++ (to_be_bytes height ++ (8 ∷ 6 ∷ 0 ∷ 0 ∷ 0 ∷ []))

unfoldable pub png_file : ℕ → ℕ → List ℕ → List ℕ
unfolding add_chunk header zlib_stored
png_file width height raw =
    add_chunk (add_chunk (add_chunk signature ihdr (header width height)) idat (zlib_stored raw))
      iend []

-- `write_rgba` up to the creation of the file: the bytes that are written, an error, or a panic.
pub data Written : Type 0 where
  size_mismatch panics : Written
  written : List ℕ → Written

abbrev pub finish_rgba : ℕ → ℕ → Option (List ℕ) → Written
unfolding png_file
finish_rgba width height none = panics
finish_rgba width height (some raw) = written (png_file width height raw)

unfoldable pub write_rgba : ℕ → ℕ → List ℕ → Written
unfolding scanlines finish_rgba
write_rgba width height rgba =
    let expected = (width * height) % word64 * 4 % word64 in
    if ltb (length rgba) expected || (width == 0 || height == 0)
    then size_mismatch
    else finish_rgba width height (scanlines (width * 4 % word64) rgba 0 height)
