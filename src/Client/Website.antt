-- ===== src/Client/Website.antt =====
-- A connection to the server of main.cpp: its WebBinder answers what the clients ask for.
use http_2_0_server.Base.{
  ℕ, ◌^◌, ◌<◌, ◌≡◌, refl, sym, ap, ◌∙◌, Bool, true, false, none, some, List, [], ◌∷◌, length, All,
  arith, text, if◌then◌else◌, inl, inr, Option-cases, resize, length-resize,
}
use mathlib.Core.Path.{subst}
use http_2_0_server.Base.Decimal.{to_string, to_string_bounds}
use http_2_0_server.Content.{
  ResponseData, Files, OpenFile, mime_of, get_mime_type, behind_last, lower_text, from_path,
  read_from_file,
}
use http_2_0_server.WebBinder.{WebBinder, new_binder, get_file_content}
use http_2_0_server.WebBinder
use http_2_0_server.WebBinder.Bindings.{Request, to_file, bind_all, last_bound}
use http_2_0_server.WebBinder.Serving.{get_content-last_bound}
use http_2_0_server.Http2.Headers.{header, first}
use http_2_0_server.Http2.Hpack.Table.{Table}
use http_2_0_server.Http2.Hpack.Table.Eviction.{IsTable}
use http_2_0_server.Http2.Hpack.Strings.{IsText}
use http_2_0_server.Http2.Hpack.RoundTrip.{IsSendable}
use http_2_0_server.Client.{Stream, Client, Outside}
use http_2_0_server.Client.Responses.{
  is_empty, response_headers, send_response, respond_with, respond_get,
}
use http_2_0_server.Client.FrameHandler.{answer_get, answer}
use http_2_0_server.Client.Requests.{answer-answer_get}
use http_2_0_server.Client.Delivery.{Delivers, send_response-Delivers}

-- The `binder` that ClientManager::acceptClient hands to each client.
abbrev pub website : Files → WebBinder → (List (List ℕ) → List ℕ → Bool) → Outside
website fs w ssl_write = record {
  get_content = WebBinder.get_content fs w;
  get_error_page = WebBinder.get_error_page;
  ssl_write = ssl_write;
}

if-IsText : (b : Bool) (s r : List ℕ) → IsText s → IsText r → IsText (if b then s else r)
if-IsText true s r h k = h
if-IsText false s r h k = k

mime_of-IsText : (ext : List ℕ) → IsText (mime_of ext)
unfolding mime_of
mime_of-IsText ext = ground arith

get_mime_type-IsText : (path : List ℕ) → IsText (get_mime_type path)
unfolding get_mime_type
get_mime_type-IsText path = elim (Option-cases (behind_last 46 path)) [
  | inl e ↦ rw (e, get_mime_type) (omega arith)
  | inr (ext, e) ↦ rw (e, get_mime_type) (mime_of-IsText (lower_text ext))
]

to_string-IsText : (n : ℕ) → n < 2 ^ 64 → IsText (to_string n)
to_string-IsText n l =
    let (bytes, short) = to_string_bounds n l in
    record { bytes = bytes; short = omega (arith, short) }

-- What getFileContent reads of a file that can be opened.
abbrev pub file_content : List ℕ → OpenFile → ResponseData
file_content file f = record { mime_type = get_mime_type file; bytes = resize f.size f.content }

from_path-some :
    (fs : Files) (file : List ℕ) (f : OpenFile)
    → fs.open_file file ≡ some f
    → from_path fs file ≡ file_content file f
unfolding from_path read_from_file
from_path-some fs file f e = rw (from_path, read_from_file, e)

get_file_content-some :
    (fs : Files) (file : List ℕ) (f : OpenFile)
    → fs.is_regular_file file ≡ true
    → fs.open_file file ≡ some f
    → get_file_content fs file ≡ file_content file f
unfolding get_file_content
get_file_content-some fs file f r e = rw (r, e) (from_path-some fs file f e)

sendable : (name value : List ℕ) → IsText name → IsText value → IsSendable (header name value)
sendable name value n v = record { name_text = n; value_text = v }

response_headers-IsSendable :
    (path file : List ℕ) (f : OpenFile)
    → IsText path
    → f.size < 2 ^ 64
    → All IsSendable (response_headers path (file_content file f))
response_headers-IsSendable path file f p l =
    let digits =
      to_string-IsText (length (resize f.size f.content))
        (omega (arith, l, length-resize f.size f.content)) in
    (
      sendable _ _ (omega arith) (omega arith),
      (
        sendable _ _ (omega arith) (omega arith),
        (
          sendable _ _ (omega arith) (get_mime_type-IsText file),
          (
            sendable _ _ (omega arith) digits,
            (sendable _ _ (omega arith) p, (sendable _ _ (omega arith) (omega arith), tt)),
          ),
        ),
      ),
    )

-- Sending the content answers the request.
answer_get-some :
    (o : Outside) (c : Client) (s : Stream) (path : List ℕ) (content : ResponseData)
    (after : Client)
    → first s.headers (text ":path") ≡ (true, path)
    → o.get_content path ≡ some content
    → is_empty content.bytes ≡ false
    → send_response o c s (response_headers path content) content.bytes ≡ some (after, true)
    → answer_get o c s ≡ send_response o c s (response_headers path content) content.bytes
unfolding answer_get respond_get respond_with
answer_get-some o c s path content after e g n d = rw (e, g, n, d)

not_empty : (bs : List ℕ) → 0 < length bs → is_empty bs ≡ false
not_empty [] l = absurd (omega (arith, l))
not_empty (b ∷ bs) l = refl

-- A file is bound to the path last, and it can be opened and is not empty.
pub record IsServed (fs : Files) (rs : List Request) (path file : List ℕ) (f : OpenFile)
    : Type 0 where
  pub bound : last_bound fs rs path none ≡ some (to_file file)
  pub regular : fs.is_regular_file file ≡ true
  pub opens : fs.open_file file ≡ some f
  pub some_byte : 0 < f.size
  pub size_64 : f.size < 2 ^ 64

-- A request on a stream for a path that is served from a file, whatever its method: if SSL_write
-- succeeds, the client, whatever its well-formed dynamic table is, reads headers with the status
-- 200, the file's type, its size and the path, and then the bytes that were read of the file.
pub answer-Delivers :
    (fs : Files) (rs : List Request) (write : List (List ℕ) → List ℕ → Bool) (c : Client)
    (s : Stream) (t : Table) (path file : List ℕ) (f : OpenFile)
    → ((sent : List (List ℕ)) (b : List ℕ) → write sent b ≡ true)
    → s.id < 2 ^ 31
    → IsTable t
    → first s.headers (text ":path") ≡ (true, path)
    → IsText path
    → IsServed fs rs path file f
    → Delivers c s.id
        (response_headers path (file_content file f))
        (resize f.size f.content)
        t
        true
        (answer (website fs (bind_all fs new_binder rs) write) c s)
answer-Delivers fs rs write c s t path file f w l z e p v =
    let out = website fs (bind_all fs new_binder rs) write in
    let d =
      send_response-Delivers out c s (response_headers path (file_content file f))
        (resize f.size f.content) t w l (response_headers-IsSendable path file f p v.size_64)
        (omega arith) z in
    let found : out.get_content path ≡ some (file_content file f) =
      get_content-last_bound fs rs path (to_file file) v.bound
      ∙ ap some (get_file_content-some fs file f v.regular v.opens) in
    let full =
      not_empty (resize f.size f.content)
        (omega (arith, v.some_byte, length-resize f.size f.content)) in
    subst (Delivers c s.id _ _ t true)
      (sym
        (answer-answer_get out c s ∙ answer_get-some out c s path _ d.after e found full d.returns))
      d
