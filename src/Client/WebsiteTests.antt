-- ===== src/Client/WebsiteTests.antt =====
-- Requests to a server with one file, bound to "/".
use http_2_0_server.Base.{◌≡◌, refl, true, false, some, List, [], ◌∷◌, arith, text, same, resize}
use http_2_0_server.Content.{Files, OpenFile}
use http_2_0_server.WebBinder.{new_binder, first_prefix}
use http_2_0_server.WebBinder.Bindings.{Request, bind_all, file_request, last_bound}
use http_2_0_server.Base.Maps.{find}
use http_2_0_server.Http2.Frame.{Frame, new_frame, headers_frame, has_flag}
use http_2_0_server.Http2.Headers.{Header, header, first, same_header}
use http_2_0_server.Http2.Settings.{new_settings}
use http_2_0_server.Http2.Hpack.Table.{new_table, best_match, find_from, at}
use http_2_0_server.Http2.Hpack.Blocks.{new_table-IsTable}
use http_2_0_server.Http2.Hpack.Encoder.{Encoder, encode_all, encode_match}
use http_2_0_server.Http2.Hpack.Encoder
use http_2_0_server.Http2.Hpack.Integer.{encode_integer}
use http_2_0_server.Http2.Hpack.Table.Static.{static_table}
use http_2_0_server.Client.{Client, Stream, new_stream, find_stream}
use http_2_0_server.Client.Responses.{response_headers, error_headers}
use http_2_0_server.Client.FrameHandler.{answer, handle_frame}
use http_2_0_server.Client.Delivery.{Delivers}
use http_2_0_server.Client.Website.{website, file_content, IsServed}
use http_2_0_server.Client.Missing.{missing_page, answer-Delivers_missing}
use http_2_0_server.Client.Exchange.{handle_frame-Delivers}

abbrev page : OpenFile
page = record { size = 2; content = 60 ∷ 62 ∷ [] }

abbrev disk : Files
disk = record {
  is_directory = λ p. false;
  is_regular_file = λ p. true;
  entries = λ p. [];
  open_file = λ p. some page;
}

abbrev requests : List Request
requests = file_request (text "./html/a.html") (text "/") ∷ []

abbrev client : Client
client = record {
  streams = [];
  table = new_table;
  settings = new_settings;
  error_code = 0;
  fd_closed = false;
  sent = [];
}

abbrev encoder : Encoder
encoder = record { table = new_table; sensitive = [] }

abbrev request_headers : List Header
request_headers = header (text ":method") (text "GET") ∷ header (text ":path") (text "/") ∷ []

-- Both headers stand in the static table.
abbrev request_frame : Frame
request_frame = record (new_frame headers_frame 0x05 1) { payload = 0x82 ∷ 0x84 ∷ [] }

request_encoded : encode_all encoder request_headers ≡ some request_frame.payload
unfolding encode_all Encoder.encode best_match find_from static_table same_header same encode_match
    at encode_integer
request_encoded = refl

served : IsServed disk requests (text "/") (text "./html/a.html") page
unfolding last_bound same
served = record {
  bound = refl;
  regular = refl;
  opens = refl;
  some_byte = omega arith;
  size_64 = omega arith;
}

handle_frame-Delivers_example :
    Delivers client 1
      (response_headers (text "/") (file_content (text "./html/a.html") page))
      (resize 2 (60 ∷ 62 ∷ []))
      new_table
      true
      (handle_frame
        (website disk (bind_all disk new_binder requests) (λ sent b. true))
        client
        request_frame)
unfolding first same find_stream has_flag
handle_frame-Delivers_example =
    handle_frame-Delivers disk requests (λ sent b. true) client request_frame encoder
      request_headers new_table (text "/") (text "./html/a.html") page (λ sent b. refl) refl refl
      (omega arith) refl refl request_encoded (omega arith) refl new_table-IsTable new_table-IsTable
      served

abbrev lost : Stream
lost = record (new_stream 3) { headers = header (text ":path") (text "/x") ∷ [] }

answer-Delivers_missing_example :
    Delivers client 3
      (error_headers 404 missing_page)
      missing_page.bytes
      new_table
      false
      (answer (website disk new_binder (λ sent b. true)) client lost)
unfolding first same find first_prefix
answer-Delivers_missing_example =
    answer-Delivers_missing disk new_binder (λ sent b. true) client lost new_table (text "/x")
      (λ sent b. refl) (omega arith) new_table-IsTable refl refl refl
