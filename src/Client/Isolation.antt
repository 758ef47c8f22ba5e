-- ===== src/Client/Isolation.antt =====
-- FrameHandler::handleFrame concerns the stream that the frame names, and no other.
use http_2_0_server.Base.{
  ℕ, ◌≡◌, ◌≢◌, refl, ◌∙◌, Bool, true, false, Option, none, some, List, ◌++◌, ◌==◌, if◌then◌else◌,
  arith, Option-cases, inl, inr,
}
use http_2_0_server.Http2.Frame.{
  Frame, has_flag, end_stream, end_headers, settings_frame, goaway_frame, new_frame, ack,
}
use http_2_0_server.Http2.Settings.{Settings, Error, no_error}
use http_2_0_server.Client.{
  Stream, Client, Outside, find_stream, ack_settings, acknowledge, ignore_failure,
}
use http_2_0_server.Client.FrameHandler.{
  with_stream, with_fragment, close_stream, handle_data_frame, handle_headers_frame,
  handle_continuation_frame, handle_priority_frame, handle_reset_frame, handle_settings_frame,
  handle_ping_frame, handle_frame, stream_or_new,
}
use http_2_0_server.Client.Streams.{
  IsKeyed, Isolated, Isolates, unchanged, erased, written, none-Isolates, some-Isolates,
  if-Isolates, process_end_header-Isolates, Keeps-Isolates, find_stream-IsKeyed,
}
use http_2_0_server.Client.Replies.{Keeps, send_frame-Keeps, some-Keeps}

same_client : (id : ℕ) (c : Client) → IsKeyed c.streams → Isolated id c c
same_client id c a = unchanged id c c a refl

either :
    (id : ℕ) (c : Client) (b : Bool) (p q : Client × Bool)
    → Isolated id c p.0
    → Isolated id c q.0
    → Isolates id c (some (if b then p else q))
either id c true p q h k = some-Isolates id c p.0 p.1 h
either id c false p q h k = some-Isolates id c q.0 q.1 k

otherwise :
    (id : ℕ) (c : Client) (b : Bool) (r r' : Option (Client × Bool))
    → b ≡ false
    → Isolates id c r'
    → Isolates id c (if b then r else r')
otherwise id c true r r' e h = cc
otherwise id c false r r' e h = h

trans-Isolates :
    (id : ℕ) (c d : Client) (r : Option (Client × Bool))
    → Isolated id c d
    → Isolates id d r
    → Isolates id c r
trans-Isolates id c d r i h = record {
  isolated = λ c' ok e.
      let k = h.isolated c' ok e in
      record { keyed = k.keyed; others = λ j n. k.others j n ∙ i.others j n };
}

close_stream-Isolates :
    (c : Client) (f : Frame) (r : Option (Client × Bool))
    → Isolates f.sid c r
    → Isolates f.sid c (close_stream f r)
unfolding close_stream
close_stream-Isolates c f none h = none-Isolates f.sid c
close_stream-Isolates c f (some (d, ok)) h =
    let i = h.isolated d ok refl in
    if-Isolates f.sid c _ _ _ (some-Isolates f.sid c _ true (erased f.sid c d _ i refl))
      (some-Isolates f.sid c d true i)

stream_or_new-id :
    (m : List (ℕ × Stream)) (id : ℕ) → IsKeyed m → (stream_or_new (find_stream m id) id).id ≡ id
stream_or_new-id m id a = elim (Option-cases (find_stream m id)) [
  | inl e ↦ rw e
  | inr (s, e) ↦ rw e (find_stream-IsKeyed m id s a e)
]

handle_headers_frame-Isolates :
    (o : Outside) (c : Client) (f : Frame)
    → IsKeyed c.streams
    → Isolates f.sid c (handle_headers_frame o c f)
unfolding handle_headers_frame
handle_headers_frame-Isolates o c f a =
    let s = with_fragment (stream_or_new (find_stream c.streams f.sid) f.sid) f in
    let n = stream_or_new-id c.streams f.sid a in
    let i = written f.sid c c s a n refl in
    close_stream-Isolates c f _ (
      if-Isolates f.sid c _ _ _
        (trans-Isolates f.sid c (with_stream c s) _ i
          (process_end_header-Isolates o f.sid (with_stream c s) s i.keyed n))
        (some-Isolates f.sid c _ true i))

handle_continuation_frame-Isolates :
    (o : Outside) (c : Client) (f : Frame)
    → IsKeyed c.streams
    → Isolates f.sid c (handle_continuation_frame o c f)
unfolding handle_continuation_frame
handle_continuation_frame-Isolates o c f a = elim (Option-cases (find_stream c.streams f.sid)) [
  | inl e ↦
      rw (e, handle_continuation_frame) (some-Isolates f.sid c c false (same_client f.sid c a))
  | inr (s, e) ↦
      let s' = record s {
        header_fragments = s.header_fragments ++ f.payload;
        end_header = has_flag f end_headers;
        end_stream = has_flag f end_stream;
      } in
      let n = find_stream-IsKeyed c.streams f.sid s a e in
      let i = written f.sid c c s' a n refl in
      rw (e, handle_continuation_frame)
        (if-Isolates f.sid c _ _ _
          (if-Isolates f.sid c _ _ _
            (trans-Isolates f.sid c (with_stream c s') _ i
              (process_end_header-Isolates o f.sid (with_stream c s') s' i.keyed n))
            (some-Isolates f.sid c _ true i))
          (some-Isolates f.sid c c false (same_client f.sid c a)))
]

handle_data_frame-Isolates :
    (c : Client) (f : Frame) → IsKeyed c.streams → Isolates f.sid c (some (handle_data_frame c f))
unfolding handle_data_frame
handle_data_frame-Isolates c f a = elim (Option-cases (find_stream c.streams f.sid)) [
  | inl e ↦ rw (e, handle_data_frame) (some-Isolates f.sid c c false (same_client f.sid c a))
  | inr (s, e) ↦
      rw (e, handle_data_frame)
        (either f.sid c _ _ _
          (written f.sid c c _ a (find_stream-IsKeyed c.streams f.sid s a e) refl)
          (same_client f.sid c a))
]

handle_priority_frame-Isolates :
    (c : Client) (f : Frame)
    → IsKeyed c.streams
    → Isolates f.sid c (some (handle_priority_frame c f))
unfolding handle_priority_frame
handle_priority_frame-Isolates c f a = elim (Option-cases (find_stream c.streams f.sid)) [
  | inl e ↦ rw (e, handle_priority_frame) (some-Isolates f.sid c c false (same_client f.sid c a))
  | inr (s, e) ↦
      rw (e, handle_priority_frame)
        (either f.sid c _ _ _ (same_client f.sid c a)
          (written f.sid c c _ a (find_stream-IsKeyed c.streams f.sid s a e) refl))
]

handle_reset_frame-Isolates :
    (c : Client) (f : Frame) → IsKeyed c.streams → Isolates f.sid c (some (handle_reset_frame c f))
unfolding handle_reset_frame
handle_reset_frame-Isolates c f a = elim (Option-cases (find_stream c.streams f.sid)) [
  | inl e ↦ rw (e, handle_reset_frame) (some-Isolates f.sid c c false (same_client f.sid c a))
  | inr (s, e) ↦
      rw (e, handle_reset_frame)
        (either f.sid c _ _ _ (same_client f.sid c a)
          (erased f.sid c c _ (same_client f.sid c a) refl))
]

ignore_failure-Keeps :
    (c : Client) (r : Option (Client × Bool)) → Keeps c r → Keeps c (ignore_failure r)
ignore_failure-Keeps c none k = k
ignore_failure-Keeps c (some (d, ok)) k = some-Keeps c d true (k.kept d ok refl)

acknowledge-Isolates :
    (o : Outside) (id : ℕ) (c : Client) (s : Settings) (e : Error)
    → IsKeyed c.streams
    → Isolates id c (acknowledge o c s e)
unfolding acknowledge
acknowledge-Isolates o id c s no_error a =
    let d = record c { settings = s } in
    Keeps-Isolates id c d _ (unchanged id c d a refl)
      (ignore_failure-Keeps d _ (send_frame-Keeps o d (new_frame settings_frame ack 0)))
acknowledge-Isolates o id c s _ a = some-Isolates id c c false (same_client id c a)

ack_settings-Isolates :
    (o : Outside) (id : ℕ) (c : Client) (f : Frame)
    → IsKeyed c.streams
    → Isolates id c (ack_settings o c f)
unfolding ack_settings
ack_settings-Isolates o id c f a = acknowledge-Isolates o id c _ _ a

handle_settings_frame-Isolates :
    (o : Outside) (c : Client) (f : Frame)
    → IsKeyed c.streams
    → Isolates f.sid c (handle_settings_frame o c f)
unfolding handle_settings_frame
handle_settings_frame-Isolates o c f a =
    let here = some-Isolates f.sid c c in
    if-Isolates f.sid c _ _ _ (here false (same_client f.sid c a)) (
      if-Isolates f.sid c _ _ _ (ack_settings-Isolates o f.sid c f a)
        (here true (same_client f.sid c a)))

handle_ping_frame-Isolates :
    (o : Outside) (c : Client) (f : Frame)
    → IsKeyed c.streams
    → Isolates f.sid c (handle_ping_frame o c f)
unfolding handle_ping_frame
handle_ping_frame-Isolates o c f a =
    if-Isolates f.sid c _ _ _ (some-Isolates f.sid c c false (same_client f.sid c a))
      (Keeps-Isolates f.sid c c _ (same_client f.sid c a) (send_frame-Keeps o c _))

-- Handling a frame, other than a GOAWAY, changes the map of streams at the frame's stream only, and
-- each stream still stands under its id.
pub handle_frame-Isolated :
    (o : Outside) (c c' : Client) (f : Frame) (ok : Bool)
    → IsKeyed c.streams
    → f.type ≢ goaway_frame
    → handle_frame o c f ≡ some (c', ok)
    → Isolated f.sid c c'
unfolding handle_frame
handle_frame-Isolated o c c' f ok a g e = handled.isolated c' ok e
  where
    here : (b : Bool) → Isolates f.sid c (some (c, b))
    here b = some-Isolates f.sid c c b (same_client f.sid c a)

    no_goaway : (f.type == goaway_frame) ≡ false
    no_goaway = ground (arith, g)

    handled : Isolates f.sid c (handle_frame o c f)
    handled = if-Isolates f.sid c _ _ _ (handle_data_frame-Isolates c f a) (
        if-Isolates f.sid c _ _ _ (handle_headers_frame-Isolates o c f a) (
          if-Isolates f.sid c _ _ _ (handle_priority_frame-Isolates c f a) (
            if-Isolates f.sid c _ _ _ (handle_reset_frame-Isolates c f a) (
              if-Isolates f.sid c _ _ _ (handle_settings_frame-Isolates o c f a) (
                if-Isolates f.sid c _ _ _ (here true) (
                  if-Isolates f.sid c _ _ _ (handle_ping_frame-Isolates o c f a) (
                    otherwise f.sid c _ _ _ no_goaway (
                      if-Isolates f.sid c _ _ _ (here true) (
                        if-Isolates f.sid c _ _ _ (handle_continuation_frame-Isolates o c f a)
                          (here false))))))))))
