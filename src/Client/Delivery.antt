-- ===== src/Client/Delivery.antt =====
-- What respondGet and showErrorPage send is read back: the headers, and the bytes of the content.
use mathlib.Core.Path.{subst}
use http_2_0_server.Http2.Hpack.Sizes.{AtMost, encode_all-AtMost}
use http_2_0_server.Base.{
  ltb, length, false, ◌≤◌, ◌*◌, ℕ, ◌^◌, ◌<◌, ◌≡◌, refl, sym, ap, ◌∙◌, Bool, true, Option, some,
  List, [], ◌∷◌, ◌++◌, map, All, arith, append-nil, append_assoc,
}
use http_2_0_server.Http2.Frame.{
  Frame, new_frame, end_stream, end_headers, data_frame, headers_frame, to_frames, frames,
}
use http_2_0_server.Http2.Frame.RoundTrip.{IsPlain, received}
use http_2_0_server.Http2.Frame.Stages.{IsFrame}
use http_2_0_server.Http2.Headers.{Header}
use http_2_0_server.Http2.Hpack.Table.{Table, new_table}
use http_2_0_server.Http2.Hpack.Table
use http_2_0_server.Http2.Hpack.Table.Eviction.{IsTable}
use http_2_0_server.Http2.Hpack.Decoder.{decoded, decode_lowmem}
use http_2_0_server.Http2.Hpack.Encoder.{Encoder, encode_all}
use http_2_0_server.Http2.Hpack.Encoder
use http_2_0_server.Http2.Hpack.RoundTrip
use http_2_0_server.Http2.Hpack.Blocks.{decode_lowmem-encode_all}
use http_2_0_server.Response.{process_frames, encode_frames, max_frame_size}
use http_2_0_server.Response.Chunks.{payloads}
use http_2_0_server.Response.Process.{
  Processed, IsShort, IsSendable, process_frames-Processed, Processed-IsSendable,
  IsSendable-IsFrame,
}
use http_2_0_server.Response.Batches.{
  concat, encode_frames-groups, to_frames-encode_frames, bytes_of,
}
use http_2_0_server.Client.{Stream, Client, Outside, send_data}
use http_2_0_server.Client.Responses.{send_all, encode_headers, send_response}

-- The frames of a response, before the content is cut to size.
abbrev pub block_frame : ℕ → List ℕ → Frame
block_frame id block = record (new_frame headers_frame end_headers id) { payload = block }

abbrev pub content_frame : ℕ → List ℕ → Frame
content_frame id bytes = record (new_frame data_frame end_stream id) { payload = bytes }

-- The call returns `ok`, and the peer, whose dynamic table is `t`, reads from what it sent a HEADERS
-- frame on the stream, whose payload it decodes to `hs`, and then the frames `parts` that
-- processFrames makes of a DATA frame; they carry the bytes.
pub record Delivers (c : Client) (id : ℕ) (hs : List Header) (bytes : List ℕ) (t : Table)
    (ok : Bool) (r : Option (Client × Bool)) : Type 0 where
  pub after : Client
  pub buffers : List (List ℕ)
  pub block : List ℕ
  pub parts : List Frame
  pub after_table : Table
  pub returns : r ≡ some (after, ok)
  pub sent : after.sent ≡ c.sent ++ buffers
  pub reads :
      to_frames (concat buffers) ≡ frames (received (block_frame id block) ∷ map received parts)
  pub cut_to_size : Processed (content_frame id bytes ∷ []) parts
  pub carries : payloads parts ≡ bytes
  pub decodes : decode_lowmem t block ≡ decoded after_table hs

-- The same is delivered by a call around the call.
pub Delivers-around :
    {c c' : Client} {id : ℕ} {hs : List Header} {bytes : List ℕ} {t : Table} {ok ok' : Bool}
    {r r' : Option (Client × Bool)} (d : Delivers c id hs bytes t ok r) (after' : Client)
    → c.sent ≡ c'.sent
    → after'.sent ≡ d.after.sent
    → r' ≡ some (after', ok')
    → Delivers c' id hs bytes t ok' r'
Delivers-around d after' e e' q = record {
  after = after';
  buffers = d.buffers;
  block = d.block;
  parts = d.parts;
  after_table = d.after_table;
  returns = q;
  sent = e' ∙ d.sent ∙ ap (λ bs. bs ++ d.buffers) e;
  reads = d.reads;
  cut_to_size = d.cut_to_size;
  carries = d.carries;
  decodes = d.decodes;
}

-- Sending works as long as SSL_write does.
send_all-true :
    (o : Outside) (c : Client) (bs : List (List ℕ))
    → ((sent : List (List ℕ)) (b : List ℕ) → o.ssl_write sent b ≡ true)
    → (after : Client) × (send_all o c bs ≡ (after, true)) × (after.sent ≡ c.sent ++ bs)
unfolding send_all send_data
send_all-true o c [] w = (c, refl, sym (append-nil c.sent))
send_all-true o c (b ∷ bs) w =
    let (after, e, s) = send_all-true o (record c { sent = c.sent ++ (b ∷ []) }) bs w in
    (after, rw (w c.sent b) e, s ∙ append_assoc c.sent (b ∷ []) bs)

-- The encoder of a response has an empty table, and up to 16 headers fit into a frame.
encode_headers-decoded :
    (hs : List Header) (t : Table)
    → IsTable t
    → All RoundTrip.IsSendable hs
    → length hs ≤ 16
    → (block : List ℕ) × (t' : Table) × (encode_headers hs ≡ some block)
      × (decode_lowmem t block ≡ decoded t' hs)
      × (length block ≤ max_frame_size)
unfolding encode_headers Encoder.reset Table.reset Table.evict Table.evict_loop
encode_headers-decoded hs t v s l =
    let (block, t', e, d, _) = decode_lowmem-encode_all _ hs t refl v s in
    let short = subst (AtMost (1023 * length hs)) e (encode_all-AtMost _ hs s) in
    (block, t', e, d, omega (arith, short, l))

block_frame-IsSendable : (id : ℕ) (block : List ℕ) → id < 2 ^ 31 → IsSendable (block_frame id block)
block_frame-IsSendable id block l = record {
  type_byte = omega arith;
  flags_byte = omega arith;
  sid_31 = l;
  plain = record { not_padded = refl; not_prioritised = refl };
}

content_frame-IsSendable :
    (id : ℕ) (bytes : List ℕ) → id < 2 ^ 31 → IsSendable (content_frame id bytes)
content_frame-IsSendable id bytes l = record {
  type_byte = omega arith;
  flags_byte = omega arith;
  sid_31 = l;
  plain = record { not_padded = refl; not_prioritised = refl };
}

All-IsFrame : (fs : List Frame) → All IsSendable fs → All IsShort fs → All IsFrame fs
All-IsFrame [] v s = tt
All-IsFrame (f ∷ fs) v s = (IsSendable-IsFrame f v.0 s.0, All-IsFrame fs v.1 s.1)

All-IsPlain : (fs : List Frame) → All IsSendable fs → All IsPlain fs
All-IsPlain [] v = tt
All-IsPlain (f ∷ fs) v = (v.0.plain, All-IsPlain fs v.1)

process_frames-short :
    (f : Frame) (fs gs : List Frame)
    → IsShort f
    → process_frames fs ≡ some gs
    → process_frames (f ∷ fs) ≡ some (f ∷ gs)
unfolding process_frames
process_frames-short f fs gs s e =
    let kept : ltb max_frame_size (length f.payload) ≡ false = ground (arith, s) in rw (kept, e)

-- The frames of a response are cut to size and written, and the same bytes are read back.
written :
    (id : ℕ) (block bytes : List ℕ)
    → id < 2 ^ 31
    → length block ≤ max_frame_size
    → (parts : List Frame) × (buffers : List (List ℕ)) × (process_frames
          (block_frame id block ∷ content_frame id bytes ∷ [])
        ≡ some (block_frame id block ∷ parts))
      × (encode_frames (block_frame id block ∷ parts) ≡ some buffers)
      × Processed (content_frame id bytes ∷ []) parts
      × (payloads parts ≡ bytes)
      × (to_frames (concat buffers) ≡ frames (received (block_frame id block) ∷ map received parts))
written id block bytes l s =
    let v = content_frame-IsSendable id bytes l in
    let u = block_frame-IsSendable id block l in
    let (parts, e, p, short, same) =
      process_frames-Processed (content_frame id bytes ∷ []) (v.flags_byte, tt) in
    let all = block_frame id block ∷ parts in
    let plain : All IsSendable all = (u, Processed-IsSendable p (v, tt)) in
    let good = All-IsFrame all plain (s, short) in
    let (groups, e', _, _) = encode_frames-groups all good (s, short) in
    (
      parts,
      map bytes_of groups,
      process_frames-short _ _ _ s e,
      e',
      p,
      same ∙ append-nil bytes,
      to_frames-encode_frames all good (All-IsPlain all plain) (s, short) e',
    )

-- A response on a stream, with up to 16 headers that the encoder takes and content of any size, is
-- sent whole if SSL_write succeeds, and whatever well-formed dynamic table the peer has, it reads
-- the headers, in one frame, and the content that were meant.
pub send_response-Delivers :
    (o : Outside) (c : Client) (s : Stream) (hs : List Header) (bytes : List ℕ) (t : Table)
    → ((sent : List (List ℕ)) (b : List ℕ) → o.ssl_write sent b ≡ true)
    → s.id < 2 ^ 31
    → All RoundTrip.IsSendable hs
    → length hs ≤ 16
    → IsTable t
    → Delivers c s.id hs bytes t true (send_response o c s hs bytes)
unfolding send_response
send_response-Delivers o c s hs bytes t w l v n z =
    let (block, t', e, d, short) = encode_headers-decoded hs t z v n in
    let (parts, buffers, p, q, sized, carried, back) = written s.id block bytes l short in
    let (after, r, sent) = send_all-true o c buffers w in
    record {
      after = after;
      buffers = buffers;
      block = block;
      parts = parts;
      after_table = t';
      returns = rw (e, send_response, p, q, r);
      sent = sent;
      reads = back;
      cut_to_size = sized;
      carries = carried;
      decodes = d;
    }
