-- ===== src/Client/Responses.antt =====
-- Frame-Handler/frameHandler.cpp: respondGet and showErrorPage.
use http_2_0_server.Base.{
  ℕ, Bool, true, false, not, Option, none, some, List, [], ◌∷◌, length, if◌then◌else◌, text,
}
use http_2_0_server.Base.Decimal.{to_string}
use http_2_0_server.Http2.Frame.{new_frame, end_stream, end_headers, data_frame, headers_frame}
use http_2_0_server.Http2.Headers.{Header, header, first}
use http_2_0_server.Http2.Hpack.Table.{new_table}
use http_2_0_server.Http2.Hpack.Encoder.{Encoder, encode_all}
use http_2_0_server.Http2.Hpack.Encoder
use http_2_0_server.Response.{process_frames, encode_frames}
use http_2_0_server.Content.{ResponseData}
use http_2_0_server.Client.{Stream, Client, Outside, send_data}

-- `client->sendData` for each buffer, up to the first that fails.
unfoldable pub send_all : Outside → Client → List (List ℕ) → Client × Bool
send_all o c [] = (c, true)
send_all o c (bytes ∷ rest) =
    let (c', ok) = send_data o c bytes in
    let later = send_all o c' rest in if ok then later else (c', false)

-- `Encoder hpackEncoder` and its encode_all.
unfoldable pub encode_headers : List Header → Option (List ℕ)
encode_headers hs = elim (Encoder.reset (record { table = new_table; sensitive = [] })) [
  | none ↦ none
  | some e ↦ encode_all e hs
]

-- The end of respondGet and showErrorPage: a HEADERS and a DATA frame in a Response.
unfoldable pub send_response :
    Outside → Client → Stream → List Header → List ℕ → Option (Client × Bool)
send_response o c s hs bytes = elim (encode_headers hs) [
  | none ↦ none
  | some encoded ↦
      let header_frame = record (new_frame headers_frame end_headers s.id) { payload = encoded } in
      let content_frame = record (new_frame data_frame end_stream s.id) { payload = bytes } in
      elim (process_frames (header_frame ∷ content_frame ∷ [])) [
        | none ↦ none
        | some fs ↦ elim (encode_frames fs) [
          | none ↦ none
          | some buffers ↦ some (send_all o c buffers)
        ]
      ]
]

abbrev pub is_empty : List ℕ → Bool
is_empty [] = true
is_empty (b ∷ bs) = false

-- `responseHeaders` of respondGet.
abbrev pub response_headers : List ℕ → ResponseData → List Header
response_headers path content =
    header (text ":status") (text "200")
    ∷ header (text "cache-control") (text "private")
    ∷ header (text "content-type") content.mime_type
    ∷ header (text "content-length") (to_string (length content.bytes))
    ∷ header (text "location") path
    ∷ header (text "server") (text "HTTP2Server/1.0")
    ∷ []

-- The lines of respondGet behind getContent.
unfoldable pub respond_with :
    Outside → Client → Stream → List ℕ → Option ResponseData → Option (Client × Bool)
respond_with o c s path none = none
respond_with o c s path (some content) =
    if is_empty content.bytes
    then some (c, false)
    else send_response o c s (response_headers path content) content.bytes

-- FrameHandler::respondGet
unfoldable pub respond_get : Outside → Client → Stream → Option (Client × Bool)
respond_get o c s =
    let (found, path) = first s.headers (text ":path") in
    let reply = respond_with o c s path (o.get_content path) in
    if not found then some (c, false) else reply

-- `responseHeaders` of showErrorPage.
abbrev pub error_headers : ℕ → ResponseData → List Header
error_headers code content =
    header (text ":status") (to_string code)
    ∷ header (text "cache-control") (text "private")
    ∷ header (text "content-type") content.mime_type
    ∷ header (text "content-length") (to_string (length content.bytes))
    ∷ header (text "server") (text "HTTP2Server/1.0")
    ∷ []

-- FrameHandler::showErrorPage
unfoldable pub show_error_page : Outside → Client → Stream → ℕ → Option (Client × Bool)
show_error_page o c s code =
    let content = o.get_error_page code in
    if is_empty content.bytes
    then some (c, false)
    else send_response o c s (error_headers code content) content.bytes
