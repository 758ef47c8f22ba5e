-- ===== src/Client/Missing.antt =====
-- A request that the WebBinder has nothing for: processEndHeader shows the error page.
use http_2_0_server.Base.{
  ℕ, ◌^◌, ◌<◌, ◌≡◌, refl, ◌∙◌, Bool, true, false, Option, none, some, List, All, arith, text,
}
use http_2_0_server.Base.Decimal.{to_string, decimal}
use http_2_0_server.Content.{ResponseData, Files}
use http_2_0_server.Status.{get_message, find_message}
use http_2_0_server.WebBinder.{WebBinder, choose, first_prefix, get_error_page}
use http_2_0_server.WebBinder
use http_2_0_server.WebBinder.Bindings.{view, either_map}
use http_2_0_server.Http2.Headers.{first}
use http_2_0_server.Http2.Hpack.Table.{Table}
use http_2_0_server.Http2.Hpack.Table.Eviction.{IsTable}
use http_2_0_server.Http2.Hpack.RoundTrip.{IsSendable}
use http_2_0_server.Client.{Stream, Client, Outside}
use http_2_0_server.Client.Responses.{
  is_empty, error_headers, send_response, respond_with, respond_get, show_error_page,
}
use http_2_0_server.Client.FrameHandler.{answer_missing, answer_get, answer}
use http_2_0_server.Client.Requests.{answer-answer_get}
use http_2_0_server.Client.Delivery.{Delivers, Delivers-around, send_response-Delivers}
use http_2_0_server.Client.Website.{website}

-- The page of the status 404.
abbrev pub missing_page : ResponseData
missing_page = get_error_page 404

missing_page-IsSendable :
    All IsSendable (error_headers 404 missing_page) × (is_empty missing_page.bytes ≡ false)
unfolding get_error_page get_message find_message to_string decimal
missing_page-IsSendable = (omega arith, refl)

choose_nothing :
    (fs : Files) (url : List ℕ) (a f : Option (List ℕ)) (p : Option (List ℕ × List ℕ))
    → either_map a f ≡ none
    → p ≡ none
    → (content : ResponseData) × (choose fs url a f p ≡ some content)
      × (is_empty content.bytes ≡ true)
unfolding choose
choose_nothing fs url none none none e g = (_, refl, refl)
choose_nothing fs url none none (some found) e g = absurd (ground (arith, g))
choose_nothing fs url none (some file) p e g = absurd (ground (arith, e))
choose_nothing fs url (some dir) f p e g = absurd (ground (arith, e))

show_error_page-send_response :
    (o : Outside) (c : Client) (s : Stream) (code : ℕ)
    → is_empty (o.get_error_page code).bytes ≡ false
    → show_error_page o c s code
      ≡ send_response o c s
          (error_headers code (o.get_error_page code))
          (o.get_error_page code).bytes
unfolding show_error_page
show_error_page-send_response o c s code e = rw e

-- The answer when there is no content.
answer_get-missing :
    (o : Outside) (c : Client) (s : Stream) (path : List ℕ) (content : ResponseData)
    (after : Client)
    → first s.headers (text ":path") ≡ (true, path)
    → o.get_content path ≡ some content
    → is_empty content.bytes ≡ true
    → show_error_page o c s 404 ≡ some (after, true)
    → answer_get o c s ≡ some (after, false)
unfolding answer_get respond_get respond_with answer_missing
answer_get-missing o c s path content after e g n d = rw (e, g, n, answer_missing, d)

-- A request on a stream for a path that is not bound, and is not below a bound directory, whatever
-- its method: if SSL_write succeeds, the client reads headers with the status 404, and then the
-- error page, and the handler returns false.
pub answer-Delivers_missing :
    (fs : Files) (w : WebBinder) (write : List (List ℕ) → List ℕ → Bool) (c : Client) (s : Stream)
    (t : Table) (path : List ℕ)
    → ((sent : List (List ℕ)) (b : List ℕ) → write sent b ≡ true)
    → s.id < 2 ^ 31
    → IsTable t
    → first s.headers (text ":path") ≡ (true, path)
    → view w path ≡ none
    → first_prefix w.dir_bindings path ≡ none
    → Delivers c s.id
        (error_headers 404 missing_page)
        missing_page.bytes
        t
        false
        (answer (website fs w write) c s)
unfolding WebBinder.get_content
answer-Delivers_missing fs w write c s t path works l z e v n =
    let out = website fs w write in
    let (good, full) = missing_page-IsSendable in
    let d =
      send_response-Delivers out c s (error_headers 404 missing_page) missing_page.bytes t works l
        good (omega arith) z in
    let (content, g, nothing) = choose_nothing fs path _ _ _ v n in
    Delivers-around d d.after refl refl (
      answer-answer_get out c s
      ∙ answer_get-missing out c s path content d.after e g nothing
          (show_error_page-send_response out c s 404 full ∙ d.returns))
