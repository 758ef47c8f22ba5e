-- ===== src/WebBinder.antt =====
-- WebBinder/webBinder.h and webBinder.cpp: the URLs that the server answers.
pub mod Bindings
pub mod Prefix
pub mod Serving
mod Tests
use http_2_0_server.Base.{
  ℕ, zero, suc, Bool, true, false, not, Option, none, some, List, [], ◌∷◌, ◌++◌, length, drop, same,
  text, ◌==◌, ◌&&◌, if◌then◌else◌,
}
use http_2_0_server.Base.Decimal.{to_string}
use http_2_0_server.Base.Maps.{find, erase, assign}
use http_2_0_server.Content.{ResponseData, Files, Entry, from_path}
use http_2_0_server.Status.{get_message}

-- class WebBinder
pub record WebBinder : Type 0 where
  pub dir_bindings : List (List ℕ × List ℕ)
  pub file_bindings : List (List ℕ × List ℕ)

abbrev pub new_binder : WebBinder
new_binder = record { dir_bindings = []; file_bindings = [] }

-- WebBinder::empty
abbrev pub no_content : ResponseData
no_content = record { mime_type = text "text/plain"; bytes = [] }

-- WebBinder::bindDirectory; it erases a key that is bound, and erasing another does nothing.
unfoldable pub bind_directory : Files → WebBinder → List ℕ → List ℕ → WebBinder × Bool
bind_directory fs w dir url = if not (fs.is_directory dir) then (w, false) else (
  record {
    dir_bindings = assign w.dir_bindings url dir;
    file_bindings = erase w.file_bindings url;
  },
  true,
)

-- WebBinder::bindFile
unfoldable pub bind_file : Files → WebBinder → List ℕ → List ℕ → WebBinder
bind_file fs w file url = if not (fs.is_regular_file file) then w else record {
  dir_bindings = erase w.dir_bindings url;
  file_bindings = assign w.file_bindings url file;
}

-- WebBinder::getFileContent
unfoldable pub get_file_content : Files → List ℕ → ResponseData
get_file_content fs file =
    if not (fs.is_regular_file file)
    then no_content
    else (elim (fs.open_file file) [ none ↦ no_content | some f ↦ from_path fs file ])

-- The bound URL with a '/' at its end; `none` is back() of an empty string.
unfoldable pub with_slash : List ℕ → Option (List ℕ)
with_slash [] = none
with_slash (b ∷ []) = some (if b == 47 then b ∷ [] else b ∷ 47 ∷ [])
with_slash (b ∷ c ∷ bs) = elim (with_slash (c ∷ bs)) [ none ↦ none | some url ↦ some (b ∷ url) ]

-- The lines of the index for one entry of the directory.
unfoldable pub entry_item : List ℕ → Entry → List ℕ
entry_item url e =
    if e.directory
    then text
        "<li><img src=\"/html/folder.png\" alt=\"Folder Icon\" style=\"width:16px;height:16px;\"> "
      ++ text "<a href=\""
      ++ url
      ++ e.file_name
      ++ text "/\">"
      ++ e.file_name
      ++ text "/</a></li>"
    else if e.regular_file
    then text
        "<li><img src=\"/html/file.png\" alt=\"File Icon\" style=\"width:16px;height:16px;\"> "
      ++ text "<a href=\""
      ++ url
      ++ e.file_name
      ++ text "\">"
      ++ e.file_name
      ++ text "</a></li>"
    else []

unfoldable pub entry_items : List ℕ → List Entry → List ℕ
entry_items url [] = []
entry_items url (e ∷ es) = entry_item url e ++ entry_items url es

unfoldable pub index_page : Files → List ℕ → List ℕ → ResponseData
index_page fs dir url = record {
  mime_type = text "text/html";
  bytes =
      text "<html><body><h1>Index for "
      ++ dir
      ++ text "</h1><ul>"
      ++ entry_items url (fs.entries dir)
      ++ text "</ul></body></html>";
}

-- WebBinder::getDirectoryContent
unfoldable pub get_directory_content : Files → List ℕ → List ℕ → Option ResponseData
get_directory_content fs dir bound_url =
    if not (fs.is_directory dir)
    then some no_content
    else (elim (with_slash bound_url) [ none ↦ none | some url ↦ some (index_page fs dir url) ])

-- `url.find(key) == 0`
unfoldable pub starts_with : List ℕ → List ℕ → Bool
starts_with url [] = true
starts_with [] (k ∷ key) = false
starts_with (b ∷ url) (k ∷ key) = (b == k) && starts_with url key

-- The loop of getContent: the first directory whose URL is a beginning of this one.
unfoldable pub first_prefix : List (List ℕ × List ℕ) → List ℕ → Option (List ℕ × List ℕ)
first_prefix [] url = none
first_prefix ((key, dir) ∷ m) url =
    let rest = first_prefix m url in if starts_with url key then some (key, dir) else rest

-- The path that a URL below a bound directory names.
abbrev pub below : List ℕ → List ℕ × List ℕ → List ℕ
below url (key, dir) = dir ++ drop (length key) url

-- The lines under `if(found)`.
unfoldable pub serve_path : Files → List ℕ → List ℕ → Option ResponseData
serve_path fs path url =
    if fs.is_directory path
    then get_directory_content fs path url
    else if fs.is_regular_file path
    then some (get_file_content fs path)
    else some no_content

-- The tests of getContent, on what the searches find.
unfoldable pub choose :
    Files
    → List ℕ
    → Option (List ℕ)
    → Option (List ℕ)
    → Option (List ℕ × List ℕ)
    → Option ResponseData
choose fs url (some dir) file found = get_directory_content fs dir url
choose fs url none (some file) found = some (get_file_content fs file)
choose fs url none none (some found) = serve_path fs (below url found) url
choose fs url none none none = some no_content

-- WebBinder::getContent
unfoldable pub get_content : Files → WebBinder → List ℕ → Option ResponseData
get_content fs w url =
    choose fs url (find w.dir_bindings url) (find w.file_bindings url)
      (first_prefix w.dir_bindings url)

-- WebBinder::getErrorPage
unfoldable pub get_error_page : ℕ → ResponseData
get_error_page code = record {
  mime_type = text "text/html";
  bytes =
      text "<!DOCTYPE html><html><head><title>Error "
      ++ to_string code
      ++ text "</title></head><body>"
      ++ text "<h1>Error "
      ++ to_string code
      ++ text "</h1>"
      ++ text "<p>Error Message: "
      ++ get_message code
      ++ text "</p>";
}
