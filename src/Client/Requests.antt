-- ===== src/Client/Requests.antt =====
-- What the handlers answer to requests, priorities and data.
use http_2_0_server.Base.{
  ℕ, ◌≡◌, refl, Bool, true, false, Option, none, some, List, ◌∷◌, arith, Option-cases, inl, inr,
  same,
}
use http_2_0_server.Http2.Frame.{Frame, priority_frame, default_frame, decode, decoded}
use http_2_0_server.Http2.Frame.Kinds.{decode-has_priority}
use http_2_0_server.Http2.Hpack.Table.{at, best_match_name, find_from}
use http_2_0_server.Http2.Hpack.Table.Static.{static_table}
use http_2_0_server.Client.{Stream, Client, Outside, find_stream}
use http_2_0_server.Client.FrameHandler.{
  answer_get, answer, handle_headers_frame, close_stream, handle_priority_frame,
}

-- The method is looked up in the tables and not in the headers of the request, and the static table
-- has `:method: GET` as the first field of that name: whatever the request and the state of the
-- connection, the handler goes the way of a GET.
pub answer-answer_get : (o : Outside) (c : Client) (s : Stream) → answer o c s ≡ answer_get o c s
unfolding answer best_match_name find_from static_table at same
answer-answer_get o c s = refl

close_stream-true :
    (f : Frame) (r : Option (Client × Bool)) (c : Client) (ok : Bool)
    → close_stream f r ≡ some (c, ok)
    → ok ≡ true
unfolding close_stream
close_stream-true f none c ok e = cc
close_stream-true f (some (d, b)) c ok e = ground (arith, e)

-- A HEADERS frame is never reported as an error, although its header block may not decode, or have
-- no path: if the handler returns, it returns true.
pub handle_headers_frame-true :
    (o : Outside) (c c' : Client) (f : Frame) (ok : Bool)
    → handle_headers_frame o c f ≡ some (c', ok)
    → ok ≡ true
unfolding handle_headers_frame
handle_headers_frame-true o c c' f ok e = close_stream-true f _ c' ok e

-- PRIORITY frames have no effect: decode reads a priority in HEADERS and PUSH_PROMISE frames only,
-- so the handler reports each PRIORITY frame that it is given as an error.
pub handle_priority_frame-decode :
    (c : Client) (p0 p1 p2 p4 p5 p6 p7 p8 : ℕ) (p : List ℕ) (f : Frame)
    → decode default_frame (p0 ∷ p1 ∷ p2 ∷ priority_frame ∷ p4 ∷ p5 ∷ p6 ∷ p7 ∷ p8 ∷ p) ≡ decoded f
    → handle_priority_frame c f ≡ (c, false)
unfolding handle_priority_frame
handle_priority_frame-decode c p0 p1 p2 p4 p5 p6 p7 p8 p f e =
    let none_set = decode-has_priority p0 p1 p2 p4 p5 p6 p7 p8 p f e in
    elim (Option-cases (find_stream c.streams f.sid)) [
      | inl g ↦ rw (g, handle_priority_frame)
      | inr (s, g) ↦ rw (g, handle_priority_frame, none_set)
    ]
