-- ===== src/Png/Examples.antt =====
-- Files of src/png.rs.
use minde.Base.{◌≡◌, refl, List, ◌++◌, ℕ, some, arith}
use minde.Png.{signature, idat, iend, add_chunk}
use minde.Png.Reader.{read_chunk, add_chunk-read_chunk}

-- The payload may hold what looks like the end of the file.
add_chunk-read_chunk_example :
    (c : List ℕ) × (add_chunk signature idat iend ≡ signature ++ c)
    × ((s : List ℕ) → read_chunk idat (c ++ s) ≡ some (iend, s))
add_chunk-read_chunk_example = add_chunk-read_chunk signature idat iend refl (omega arith)
