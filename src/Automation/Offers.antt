-- ===== src/Automation/Offers.antt =====
-- src/automation_dnd.rs: the two kinds of drag sources (`AutomationDndSource::files` and `text`).
use minde.Base.{ℕ, ◌≡◌, refl, ◌⊎◌, inl, inr, List, [], ◌∷◌, ◌++◌}
use minde.Automation.{drop_files, drop_text}
use minde.Automation.Source.{AutomationDndSource, new_source}
use minde.Automation.UriList.{
  FilePath, FileSystem, DropFilesError, Payload, ok, err, build_uri_list,
}

-- `text/uri-list`.
abbrev pub uri_list_mime : List ℕ
uri_list_mime = 116 ∷ 101 ∷ 120 ∷ 116 ∷ 47 ∷ 117 ∷ 114 ∷ 105 ∷ 45 ∷ 108 ∷ 105 ∷ 115 ∷ 116 ∷ []

-- `text/plain`.
abbrev pub text_mime : List ℕ
text_mime = 116 ∷ 101 ∷ 120 ∷ 116 ∷ 47 ∷ 112 ∷ 108 ∷ 97 ∷ 105 ∷ 110 ∷ []

-- `text/plain;charset=utf-8`.
abbrev pub text_mime_utf8 : List ℕ
text_mime_utf8 =
    text_mime ++ (59 ∷ 99 ∷ 104 ∷ 97 ∷ 114 ∷ 115 ∷ 101 ∷ 116 ∷ 61 ∷ 117 ∷ 116 ∷ 102 ∷ 45 ∷ 56 ∷ [])

-- `files`, of the result of `build_uri_list`.
unfoldable pub files_source : ℕ → Payload → DropFilesError ⊎ AutomationDndSource
unfolding new_source
files_source token (ok payload) = inr (new_source payload (uri_list_mime ∷ []) drop_files token)
files_source token (err e) = inl e

unfoldable pub files : FileSystem → List FilePath → ℕ → DropFilesError ⊎ AutomationDndSource
unfolding build_uri_list files_source
files fs paths token = files_source token (build_uri_list fs paths)

unfoldable pub text : List ℕ → ℕ → AutomationDndSource
unfolding new_source
text contents token = new_source contents (text_mime_utf8 ∷ text_mime ∷ []) drop_text token

-- A drag of no files is an error.
no_files : (fs : FileSystem) (token : ℕ) → files fs [] token ≡ inl DropFilesError.empty
unfolding files build_uri_list files_source
no_files fs token = refl
