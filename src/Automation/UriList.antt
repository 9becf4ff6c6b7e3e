-- ===== src/Automation/UriList.antt =====
-- src/automation_dnd.rs: the `text/uri-list` payload of a file drop (`build_uri_list`).
-- A path is the list of its bytes. The file system is a parameter: `canonicalize`, and whether the
-- metadata of a path say that it is a regular file. So is the standard library's `to_string_lossy`,
-- which replaces the bytes of a path that are not UTF-8 and leaves a path that is UTF-8 alone.
pub mod RoundTrip
pub mod Reader
mod Examples
use minde.Base.{
  ℕ, ◌≡◌, ◌<◌, All, ◌+◌, ◌-◌, ◌/◌, ◌%◌, List, [], ◌∷◌, ◌++◌, Option, none, some, Bool, true, false,
  ◌&&◌, ◌||◌, leb, ltb, ◌==◌, if◌then◌else◌,
}

abbrev pub FilePath : Type 0
FilePath = List ℕ

pub record FileSystem : Type 0 where
  pub canonicalize : FilePath → Option FilePath
  pub is_file : FilePath → Bool
  pub is_utf8 : FilePath → Bool
  pub to_string_lossy : FilePath → List ℕ
  pub lossy-utf8 : (p : FilePath) → is_utf8 p ≡ true → to_string_lossy p ≡ p
  pub lossy-is_utf8 : (p : FilePath) → is_utf8 (to_string_lossy p) ≡ true
  pub lossy_bytes : (p : FilePath) → All (λ b. b < 256) (to_string_lossy p)

pub data DropFilesError : Type 0 where
  empty : DropFilesError
  not_absolute not_a_file canonicalize_failed : FilePath → DropFilesError

pub data Payload : Type 0 where
  ok : List ℕ → Payload
  err : DropFilesError → Payload

abbrev pub is_absolute : FilePath → Bool
is_absolute [] = false
is_absolute (b ∷ bs) = b == b'/'

-- The bytes that are written as they are.
pub is_plain : ℕ → Bool
is_plain b =
    (leb b'a' b && leb b b'z')
    || (leb b'A' b && leb b b'Z')
    || (leb b'0' b && leb b b'9')
    || (b == b'-')
    || (b == b'.')
    || (b == b'_')
    || (b == b'~')
    || (b == b'/')

-- One digit of `{byte:02X}`.
pub hex_digit : ℕ → ℕ
hex_digit d = if ltb d 10 then d + b'0' else d - 10 + b'A'

pub encode_byte : ℕ → List ℕ
unfolding is_plain hex_digit
encode_byte b = if is_plain b then b ∷ [] else b'%' ∷ hex_digit (b / 16) ∷ hex_digit (b % 16) ∷ []

pub percent_encode_path : List ℕ → List ℕ
unfolding encode_byte
percent_encode_path [] = []
percent_encode_path (b ∷ bs) = encode_byte b ++ percent_encode_path bs

abbrev pub file_scheme : List ℕ
file_scheme = b'f' ∷ b'i' ∷ b'l' ∷ b'e' ∷ b':' ∷ b'/' ∷ b'/' ∷ []

abbrev pub crlf : List ℕ
crlf = 13 ∷ 10 ∷ []

-- The record of one canonical path.
pub uri_record : List ℕ → List ℕ
unfolding percent_encode_path
uri_record display = file_scheme ++ (percent_encode_path display ++ crlf)

-- The checks of one path: its canonical form, or the error that ends the loop.
pub data Checked : Type 0 where
  valid : FilePath → Checked
  invalid : DropFilesError → Checked

pub check_canonical : FileSystem → FilePath → Option FilePath → Checked
check_canonical fs path none = invalid (canonicalize_failed path)
check_canonical fs path (some canonical) =
    if fs.is_file canonical then valid canonical else invalid (not_a_file path)

pub check_path : FileSystem → FilePath → Checked
unfolding check_canonical
check_path fs path =
    if is_absolute path
    then check_canonical fs path (fs.canonicalize path)
    else invalid (not_absolute path)

-- The loop of `build_uri_list`, with the payload so far.
pub build_from : FileSystem → List ℕ → List FilePath → Payload
unfolding uri_record
build_from fs payload [] = ok payload
build_from fs payload (path ∷ paths) = elim (check_path fs path) [
  | invalid e ↦ err e
  | valid canonical ↦ build_from fs (payload ++ uri_record (fs.to_string_lossy canonical)) paths
]

unfoldable pub build_uri_list : FileSystem → List FilePath → Payload
unfolding build_from check_path
build_uri_list fs [] = err empty
build_uri_list fs (p ∷ ps) = build_from fs [] (p ∷ ps)
