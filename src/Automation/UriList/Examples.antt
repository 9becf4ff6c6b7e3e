-- ===== src/Automation/UriList/Examples.antt =====
-- Runs of the file drop of src/automation_dnd.rs.
use minde.Base.{
  ap, Bool, ◌&&◌, ℕ, ◌<◌, ◌≡◌, refl, List, [], ◌∷◌, some, true, All, ltb, if◌then◌else◌, arith,
}
use minde.Automation.UriList.{FileSystem, err, not_absolute, build_uri_list, percent_encode_path}
use minde.Automation.UriList.Reader.{Readable, build_uri_list-Readable}

-- Every path is a regular file and canonical; bytes outside ASCII are replaced.
abbrev plain_name : List ℕ → List ℕ
plain_name [] = []
plain_name (b ∷ bs) = (if ltb b 128 then b else b'?') ∷ plain_name bs

plain_name_bytes : (p : List ℕ) → All (λ b. b < 256) (plain_name p)
plain_name_bytes [] = tt
plain_name_bytes (b ∷ bs) = (ground arith, plain_name_bytes bs)

abbrev is_ascii : List ℕ → Bool
is_ascii [] = true
is_ascii (b ∷ bs) = ltb b 128 && is_ascii bs

replaced :
    (b : ℕ) (bs cs : List ℕ)
    → ltb b 128 ≡ true
    → cs ≡ bs
    → (if ltb b 128 then b else b'?') ∷ cs ≡ b ∷ bs
replaced b bs cs e h = rw e (ap (◌∷◌ b) h)

ascii_name : (p : List ℕ) → is_ascii p ≡ true → plain_name p ≡ p
ascii_name [] e = refl
ascii_name (b ∷ bs) e = replaced b bs (plain_name bs) (ground arith) (ascii_name bs (ground arith))

name_is_ascii : (p : List ℕ) → is_ascii (plain_name p) ≡ true
name_is_ascii [] = refl
name_is_ascii (b ∷ bs) = let rest = name_is_ascii bs in ground arith

abbrev flat_files : FileSystem
flat_files = record {
  canonicalize = λ p. some p;
  is_file = λ p. true;
  is_utf8 = is_ascii;
  to_string_lossy = plain_name;
  lossy-utf8 = ascii_name;
  lossy-is_utf8 = name_is_ascii;
  lossy_bytes = plain_name_bytes;
}

relative_fails :
    build_uri_list flat_files ((b'/' ∷ b'a' ∷ []) ∷ (b'b' ∷ []) ∷ [])
    ≡ err (not_absolute (b'b' ∷ []))
unfolding build_uri_list
relative_fails = refl

hash_encodes : percent_encode_path (b'#' ∷ b'a' ∷ []) ≡ b'%' ∷ b'2' ∷ b'3' ∷ b'a' ∷ []
unfolding percent_encode_path
hash_encodes = refl

-- A file whose name is not UTF-8 is dropped as another one.
other_dropped :
    build_uri_list flat_files ((b'/' ∷ 255 ∷ []) ∷ [])
    ≡ build_uri_list flat_files ((b'/' ∷ b'?' ∷ []) ∷ [])
unfolding build_uri_list
other_dropped = refl

build_uri_list-Readable_example :
    Readable flat_files
      ((b'/' ∷ b'a' ∷ []) ∷ (b'/' ∷ 255 ∷ []) ∷ [])
      (build_uri_list flat_files ((b'/' ∷ b'a' ∷ []) ∷ (b'/' ∷ 255 ∷ []) ∷ []))
build_uri_list-Readable_example =
    build_uri_list-Readable flat_files (b'/' ∷ b'a' ∷ []) ((b'/' ∷ 255 ∷ []) ∷ [])
