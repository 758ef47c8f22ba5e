-- ===== src/Client/Exchange.antt =====
-- A request that arrives in a HEADERS frame, and what its client reads for it.
use http_2_0_server.Base.{
  ℕ, ◌^◌, ◌<◌, ◌≡◌, refl, sym, ap, ◌∙◌, Bool, true, Option, none, some, List, [], ◌∷◌, All, arith,
  text, Bool-cases, inl, inr, resize, same, if◌then◌else◌,
}
use mathlib.Core.Path.{subst}
use http_2_0_server.Content.{Files, OpenFile}
use http_2_0_server.WebBinder.{new_binder}
use http_2_0_server.WebBinder.Bindings.{Request, bind_all}
use http_2_0_server.Http2.Frame.{Frame, headers_frame, end_headers, end_stream, has_flag}
use http_2_0_server.Http2.Headers.{Header, first}
use http_2_0_server.Http2.Hpack.Table.{Table}
use http_2_0_server.Http2.Hpack.Table.Eviction.{IsTable}
use http_2_0_server.Http2.Hpack.Strings.{IsText}
use http_2_0_server.Http2.Hpack.RoundTrip.{IsSendable}
use http_2_0_server.Http2.Hpack.Decoder.{decoded, decode_lowmem}
use http_2_0_server.Http2.Hpack.Encoder.{Encoder, encode_all}
use http_2_0_server.Http2.Hpack.Blocks.{decode_lowmem-encode_all}
use http_2_0_server.Client.{Stream, Client, Outside, new_stream, find_stream, erase_stream}
use http_2_0_server.Client.Responses.{response_headers}
use http_2_0_server.Client.FrameHandler.{
  with_stream, with_fragment, headers_ended, answer, close_stream, process_end_header, after_block,
  handle_headers_frame, handle_frame,
}
use http_2_0_server.Client.Delivery.{Delivers, Delivers-around}
use http_2_0_server.Client.Website.{website, file_content, IsServed, answer-Delivers}

some_eq : {xs ys : List ℕ} {r : Option (List ℕ)} → r ≡ some xs → r ≡ some ys → xs ≡ ys
some_eq e f = cc

-- A value among headers that the encoder takes.
first-IsText :
    (hs : List Header) (name value : List ℕ)
    → All IsSendable hs
    → first hs name ≡ (true, value)
    → IsText value
unfolding first
first-IsText [] name value v e = absurd (ground (arith, e))
first-IsText (h ∷ hs) name value v e = elim (Bool-cases (same h.name name)) [
  | inl hit ↦
      let found : first (h ∷ hs) name ≡ (true, h.value) = rw hit in
      subst IsText (ap (λ r. r.1) (sym found ∙ e)) v.0.value_text
  | inr miss ↦
      let later : first (h ∷ hs) name ≡ first hs name = rw miss in
      first-IsText hs name value v.1 (sym later ∙ e)
]

-- The stream of a request that one HEADERS frame holds.
abbrev pub requested : Frame → List Header → Stream
requested f hs = headers_ended (with_fragment (new_stream f.sid) f) hs

-- The client when the request is answered.
abbrev pub asked : Client → Frame → Table → List Header → Client
asked c f t hs =
    with_stream (record (with_stream c (with_fragment (new_stream f.sid) f)) { table = t })
      (requested f hs)

handle_headers_frame-answer :
    (o : Outside) (c : Client) (f : Frame) (t : Table) (hs : List Header)
    → find_stream c.streams f.sid ≡ none
    → has_flag f end_headers ≡ true
    → decode_lowmem c.table f.payload ≡ decoded t hs
    → handle_headers_frame o c f ≡ close_stream f (answer o (asked c f t hs) (requested f hs))
unfolding handle_headers_frame process_end_header after_block
handle_headers_frame-answer o c f t hs n h d = rw (n, h, d)

handle_frame-headers :
    (o : Outside) (c : Client) (f : Frame)
    → f.type ≡ headers_frame
    → handle_frame o c f ≡ handle_headers_frame o c f
unfolding handle_frame
handle_frame-headers o c f e = rw e

-- The client after close_stream.
abbrev closed_by : Frame → Client → Client
closed_by f c =
    if has_flag f end_stream then record c { streams = erase_stream c.streams f.sid } else c

close_stream-some :
    (f : Frame) (c : Client) (r : Option (Client × Bool))
    → r ≡ some (c, true)
    → (close_stream f r ≡ some (closed_by f c, true)) × ((closed_by f c).sent ≡ c.sent)
unfolding close_stream
close_stream-some f c r e = elim (Bool-cases (has_flag f end_stream)) [
  | inl last ↦ (rw (e, last), rw last)
  | inr more ↦ (rw (e, more), rw more)
]

-- A request in one HEADERS frame on a new stream, written by an encoder with an empty table, for a
-- path that is served from a file: if SSL_write succeeds, handleFrame returns true, and the client
-- reads headers with the status 200, the file's type, its size and the path, and then the bytes
-- that were read of the file, whatever well-formed dynamic table either side has.
pub handle_frame-Delivers :
    (fs : Files) (rs : List Request) (write : List (List ℕ) → List ℕ → Bool) (c : Client)
    (f : Frame) (enc : Encoder) (hs : List Header) (t : Table) (path file : List ℕ)
    (content : OpenFile)
    → ((sent : List (List ℕ)) (b : List ℕ) → write sent b ≡ true)
    → f.type ≡ headers_frame
    → has_flag f end_headers ≡ true
    → f.sid < 2 ^ 31
    → find_stream c.streams f.sid ≡ none
    → enc.table.entries ≡ []
    → encode_all enc hs ≡ some f.payload
    → All IsSendable hs
    → first hs (text ":path") ≡ (true, path)
    → IsTable c.table
    → IsTable t
    → IsServed fs rs path file content
    → Delivers c f.sid
        (response_headers path (file_content file content))
        (resize content.size content.content)
        t
        true
        (handle_frame (website fs (bind_all fs new_binder rs) write) c f)
handle_frame-Delivers fs rs write c f enc hs t path file content w y h l n z e v p b b' served =
    let out = website fs (bind_all fs new_binder rs) write in
    let (block, t', e', d, _) = decode_lowmem-encode_all enc hs c.table z b v in
    let equal : block ≡ f.payload = some_eq e' e in
    let read : decode_lowmem c.table f.payload ≡ decoded t' hs =
      ap (decode_lowmem c.table) (sym equal) ∙ d in
    let delivered =
      answer-Delivers fs rs write (asked c f t' hs) (requested f hs) t path file content w l b' p
        (first-IsText hs (text ":path") path v p) served in
    let (ends, kept) = close_stream-some f delivered.after _ delivered.returns in
    Delivers-around delivered (closed_by f delivered.after) refl kept
      (handle_frame-headers out c f y ∙ handle_headers_frame-answer out c f t' hs n h read ∙ ends)
