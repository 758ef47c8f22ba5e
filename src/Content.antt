-- ===== src/Content.antt =====
-- Response/responseData.h and responseData.cpp: what a URL is answered with.
pub mod Mime
mod Tests
use http_2_0_server.Base.{
  ℕ, zero, suc, ◌+◌, ◌<◌, Bool, true, false, ◌&&◌, Option, none, some, List, [], ◌∷◌, length,
  resize, same, text, leb, ◌==◌, if◌then◌else◌,
}

-- class ResponseData
pub record ResponseData : Type 0 where
  pub mime_type : List ℕ
  pub bytes : List ℕ

-- A file that std::ifstream has opened: what tellg gives at its end, and what reading that many
-- bytes gives, which is less when it fails.
pub record OpenFile : Type 0 where
  pub size : ℕ
  pub content : List ℕ

-- An entry of std::filesystem::directory_iterator.
pub record Entry : Type 0 where
  pub file_name : List ℕ
  pub directory : Bool
  pub regular_file : Bool

-- std::filesystem and std::ifstream on a path.
pub record Files : Type 0 where
  pub is_directory : List ℕ → Bool
  pub is_regular_file : List ℕ → Bool
  pub entries : List ℕ → List Entry
  pub open_file : List ℕ → Option OpenFile

-- ResponseData::readFromFile: `data` is resized, and what is not read of it stays 0.
unfoldable pub read_from_file : Files → ResponseData → List ℕ → ResponseData × Bool
read_from_file fs r path = elim (fs.open_file path) [
  | none ↦ (r, false)
  | some f ↦ (record r { bytes = resize f.size f.content }, leb f.size (length f.content))
]

-- tolower in the C locale
unfoldable pub lower_code : ℕ → ℕ
lower_code b = if leb 65 b && leb b 90 then b + 32 else b

unfoldable pub lower_text : List ℕ → List ℕ
lower_text [] = []
lower_text (b ∷ bs) = lower_code b ∷ lower_text bs

-- What is behind the last `code` of a text: find_last_of and substr.
unfoldable pub behind_last : ℕ → List ℕ → Option (List ℕ)
behind_last code [] = none
behind_last code (b ∷ bs) = elim (behind_last code bs) [
  | some ext ↦ some ext
  | none ↦ if b == code then some bs else none
]

-- The tests of getMimeType on the lower-case extension.
unfoldable pub mime_of : List ℕ → List ℕ
mime_of ext =
    if same ext (text "html")
    then text "text/html"
    else if same ext (text "htm")
    then text "text/html"
    else if same ext (text "css")
    then text "text/css"
    else if same ext (text "js")
    then text "application/javascript"
    else if same ext (text "json")
    then text "application/json"
    else if same ext (text "png")
    then text "image/png"
    else if same ext (text "jpg")
    then text "image/jpeg"
    else if same ext (text "jpeg")
    then text "image/jpeg"
    else if same ext (text "gif")
    then text "image/gif"
    else if same ext (text "svg")
    then text "image/svg+xml"
    else if same ext (text "txt")
    then text "text/plain"
    else if same ext (text "xml")
    then text "application/xml"
    else if same ext (text "pdf")
    then text "application/pdf"
    else text "application/octet-stream"

-- ResponseData::getMimeType; 46 is '.'.
unfoldable pub get_mime_type : List ℕ → List ℕ
get_mime_type path = elim (behind_last 46 path) [
  | none ↦ text "application/octet-stream"
  | some ext ↦ mime_of (lower_text ext)
]

-- ResponseData::fromPath
unfoldable pub from_path : Files → List ℕ → ResponseData
from_path fs path =
    let (r, ok) = read_from_file fs (record { mime_type = get_mime_type path; bytes = [] }) path in
    r
