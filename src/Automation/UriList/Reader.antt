-- ===== src/Automation/UriList/Reader.antt =====
-- src/automation_dnd.rs: what `build_uri_list` promises to a reader of its payload.
use minde.Base.{
  ◌≢◌, sym, true-ne-false, Bool-cases, true, false, strip_prefix, ℕ, zero, suc, ◌≤◌, ◌<◌, ◌≡◌, refl,
  ap, ◌∙◌, ◌⊎◌, inl, inr, List, [], ◌∷◌, ◌++◌, map, append-nil, append_assoc, Option, none, some,
  length, All, arith,
}
use minde.Automation.UriList.{
  FilePath, FileSystem, DropFilesError, Payload, ok, err, percent_encode_path, file_scheme, crlf,
  uri_record, Checked, valid, invalid, check_path, build_from, build_uri_list,
}
use minde.Automation.UriList.RoundTrip.{decode_line, decode-percent_encode_path}

abbrev cons_path : List ℕ → Option (List (List ℕ)) → Option (List (List ℕ))
cons_path path none = none
cons_path path (some paths) = some (path ∷ paths)

-- A reader of up to `fuel` records, each a `file` URI on a line.
pub read_uris : ℕ → List ℕ → Option (List (List ℕ))
unfolding strip_prefix
read_uris fuel [] = some []
read_uris zero (c ∷ s) = none
read_uris (suc fuel) (c ∷ s) = elim (strip_prefix file_scheme (c ∷ s)) [
  | none ↦ none
  | some line ↦ elim (decode_line line) [
    | none ↦ none
    | some (path, rest) ↦ cons_path path (read_uris fuel rest)
  ]
]

-- The canonical forms of the paths, each of which passed the checks.
abbrev pub AllValid : FileSystem → List FilePath → List FilePath → Type 0
AllValid fs [] [] = Unit {0}
AllValid fs (p ∷ ps) (c ∷ cs) = (check_path fs p ≡ valid c) × AllValid fs ps cs
AllValid fs _ _ = ⊥

abbrev pub records : List (List ℕ) → List ℕ
records [] = []
records (d ∷ ds) = uri_record d ++ records ds

abbrev pub IsPath : List ℕ → Type 0
IsPath = All (λ b. b < 256)

read_record :
    (fuel : ℕ) (d rest : List ℕ) (paths : List (List ℕ))
    → IsPath d
    → read_uris fuel rest ≡ some paths
    → read_uris (suc fuel) (uri_record d ++ rest) ≡ some (d ∷ paths)
unfolding read_uris uri_record
read_record fuel d rest paths h e =
    let line : decode_line ((percent_encode_path d ++ crlf) ++ rest) ≡ some (d, rest) =
      rw (append_assoc (percent_encode_path d) crlf rest) (decode-percent_encode_path d rest h) in
    rw (line, read_uris) (ap (cons_path d) e)

pub read-records :
    (fuel : ℕ) (ds : List (List ℕ))
    → length ds ≤ fuel
    → All IsPath ds
    → read_uris fuel (records ds) ≡ some ds
unfolding read_uris
read-records zero [] h a = refl
read-records (suc fuel) [] h a = refl
read-records zero (d ∷ ds) h a = absurd (omega arith)
read-records (suc fuel) (d ∷ ds) h a =
    read_record fuel d (records ds) ds a.0 (read-records fuel ds (omega arith) a.1)

-- The first path that fails its checks, behind paths that pass them, and its error.
pub record FirstInvalid (fs : FileSystem) (paths : List FilePath) (e : DropFilesError)
    : Type 0 where
  pub before : List FilePath
  pub path : FilePath
  pub after : List FilePath
  pub canonical : List FilePath
  pub split : paths ≡ before ++ path ∷ after
  pub passed : AllValid fs before canonical
  pub failed : check_path fs path ≡ invalid e

abbrev pub displays : FileSystem → List FilePath → List (List ℕ)
displays fs = map (λ c. fs.to_string_lossy c)

-- The two outcomes of the loop.
pub data Built (fs : FileSystem) (payload : List ℕ) (paths : List FilePath) (r : Payload)
    : Type 0 where
  all_valid :
      (canonical : List FilePath)
      → AllValid fs paths canonical
      → r ≡ ok (payload ++ records (displays fs canonical))
      → Built fs payload paths r
  first_invalid :
      (e : DropFilesError) → FirstInvalid fs paths e → r ≡ err e → Built fs payload paths r

Checked-cases :
    (c : Checked)
    → ((canonical : FilePath) × (c ≡ valid canonical)) ⊎ ((e : DropFilesError) × (c ≡ invalid e))
Checked-cases (valid canonical) = inl (canonical, refl)
Checked-cases (invalid e) = inr (e, refl)

Built-cons :
    (fs : FileSystem) (payload : List ℕ) (p c : FilePath) (ps : List FilePath) (r : Payload)
    → check_path fs p ≡ valid c
    → Built fs (payload ++ uri_record (fs.to_string_lossy c)) ps r
    → Built fs payload (p ∷ ps) r
Built-cons fs payload p c ps r v (all_valid canonical a e) =
    all_valid (c ∷ canonical) (v, a)
      (e ∙ ap ok (append_assoc payload (uri_record (fs.to_string_lossy c)) _))
Built-cons fs payload p c ps r v (first_invalid x f e) =
    first_invalid x
      (record {
        before = p ∷ f.before;
        path = f.path;
        after = f.after;
        canonical = c ∷ f.canonical;
        split = ap (◌∷◌ p) f.split;
        passed = (v, f.passed);
        failed = f.failed;
      })
      e

build_from-Built :
    (fs : FileSystem) (payload : List ℕ) (paths : List FilePath)
    → Built fs payload paths (build_from fs payload paths)
unfolding build_from
build_from-Built fs payload [] = all_valid [] tt (rw append-nil)
build_from-Built fs payload (p ∷ ps) = elim (Checked-cases (check_path fs p)) [
  | inl (c, v) ↦
      rw (v, build_from)
        (Built-cons fs payload p c ps _ v
          (build_from-Built fs (payload ++ uri_record (fs.to_string_lossy c)) ps))
  | inr (e, v) ↦
      rw (v, build_from)
        (first_invalid e
          (record {
            before = [];
            path = p;
            after = ps;
            canonical = [];
            split = refl;
            passed = tt;
            failed = v;
          })
          refl)
]

-- A reader gets a canonical path itself if it is UTF-8, and otherwise what it is displayed as.
abbrev pub ReadAs : FileSystem → FilePath → List ℕ → Type 0
ReadAs fs canonical read =
    ((fs.is_utf8 canonical ≡ true) × (read ≡ canonical))
    ⊎ ((fs.is_utf8 canonical ≡ false) × (read ≡ fs.to_string_lossy canonical) × (read ≢ canonical))

abbrev pub AllReadAs : FileSystem → List FilePath → List (List ℕ) → Type 0
AllReadAs fs [] [] = Unit {0}
AllReadAs fs (c ∷ cs) (r ∷ rs) = ReadAs fs c r × AllReadAs fs cs rs
AllReadAs fs _ _ = ⊥

pub Readable : FileSystem → List FilePath → Payload → Type 0
Readable fs paths r =
    ((payload : List ℕ) × (canonical : List FilePath) × (read : List (List ℕ)) × (r ≡ ok payload)
      × AllValid fs paths canonical
      × (read_uris (length canonical) payload ≡ some read)
      × AllReadAs fs canonical read)
    ⊎ ((e : DropFilesError) × (r ≡ err e) × FirstInvalid fs paths e)

All-displays : (fs : FileSystem) (cs : List FilePath) → All IsPath (displays fs cs)
All-displays fs [] = tt
All-displays fs (c ∷ cs) = (fs.lossy_bytes c, All-displays fs cs)

length-displays : (fs : FileSystem) (cs : List FilePath) → length (displays fs cs) ≡ length cs
length-displays fs [] = refl
length-displays fs (c ∷ cs) = ap suc (length-displays fs cs)

displays-AllReadAs : (fs : FileSystem) (cs : List FilePath) → AllReadAs fs cs (displays fs cs)
displays-AllReadAs fs [] = tt
displays-AllReadAs fs (c ∷ cs) = (
  elim (Bool-cases (fs.is_utf8 c)) [
    | inl e ↦ inl (e, fs.lossy-utf8 c e)
    | inr e ↦
        inr (e, refl, (λ same. true-ne-false (sym (ap fs.is_utf8 same) ∙ fs.lossy-is_utf8 c) e))
  ],
  displays-AllReadAs fs cs,
)

Built-Readable :
    (fs : FileSystem) (paths : List FilePath) (r : Payload)
    → Built fs [] paths r
    → Readable fs paths r
unfolding Readable
Built-Readable fs paths r (all_valid canonical a e) = inl (
  records (displays fs canonical),
  canonical,
  displays fs canonical,
  e,
  a,
  read-records (length canonical) (displays fs canonical)
      (omega (arith, length-displays fs canonical)) (All-displays fs canonical),
  displays-AllReadAs fs canonical,
)
Built-Readable fs paths r (first_invalid e f x) = inr (e, x, f)

-- A drop of at least one path succeeds exactly if every path passes its checks. A reader of the
-- payload then gets for each path in order its canonical path if that is UTF-8, and otherwise the path
-- that `to_string_lossy` makes of it, which is another one. If a path fails, nothing is produced but
-- the error of the first one that does.
pub build_uri_list-Readable :
    (fs : FileSystem) (path : FilePath) (paths : List FilePath)
    → Readable fs (path ∷ paths) (build_uri_list fs (path ∷ paths))
unfolding build_uri_list
build_uri_list-Readable fs path paths =
    Built-Readable fs (path ∷ paths) _ (build_from-Built fs [] (path ∷ paths))
