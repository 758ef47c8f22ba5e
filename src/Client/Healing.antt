-- ===== src/Client/Healing.antt =====
-- FrameHandler::handleFrame and Client::doRequest leave a connection healthy.
use http_2_0_server.Base.{
  ℕ, ◌+◌, ◌^◌, ◌<◌, refl, Bool, true, false, Option, none, some, List, ◌++◌, ◌==◌, if◌then◌else◌,
  arith, Option-cases, inl, inr,
}
use http_2_0_server.Http2.Frame.{
  Frame, new_frame, data_frame, headers_frame, priority_frame, rst_stream_frame, settings_frame,
  push_promise_frame, ping_frame, goaway_frame, window_update_frame, continuation_frame, ack,
  has_flag, end_stream, end_headers,
}
use http_2_0_server.Http2.Frame.Payload.{IsPiece}
use http_2_0_server.Http2.Settings.{Settings, Error, no_error, new_settings}
use http_2_0_server.Http2.Settings.Invariant.{IsValid, decode-IsValid}
use http_2_0_server.Client.{Client, Outside, find_stream, acknowledge, ack_settings, ignore_failure}
use http_2_0_server.Client.FrameHandler.{
  with_stream, with_fragment, stream_or_new, close_stream, handle_data_frame, handle_headers_frame,
  handle_continuation_frame, handle_priority_frame, handle_reset_frame, handle_settings_frame,
  handle_ping_frame, handle_go_away_frame, handle_frame,
}
use http_2_0_server.Client.Replies.{send_frame-Keeps}
use http_2_0_server.Client.Health.{
  IsHealthy, wider-IsHealthy, wider-IsPiece, find_stream-IsPiece, with_stream-IsHealthy,
  erased-IsHealthy, Heals, none-Heals, some-Heals, if-Heals, Keeps-Heals, no_fragments,
  process_end_header-Heals, append-IsPiece,
}

-- A frame of `k` bytes at most, on a client with fragments of `n` at most.
module _ (o : Outside) (n k : ℕ) (small : n + k < 2 ^ 58) where
  wider_client : (c : Client) → IsHealthy n c → IsHealthy (n + k) c
  wider_client c h = wider-IsHealthy n (n + k) c (omega arith) h

  longer : (bs : List ℕ) → IsPiece n bs → IsPiece (n + k) bs
  longer bs h = wider-IsPiece n (n + k) bs (omega arith) h

  here : (c : Client) (ok : Bool) → IsHealthy n c → Heals (n + k) (some (c, ok))
  here c ok h = some-Heals (n + k) c ok (wider_client c h)

  either-Heals :
      (b : Bool) (p q : Client × Bool)
      → IsHealthy (n + k) p.0
      → IsHealthy (n + k) q.0
      → Heals (n + k) (some (if b then p else q))
  either-Heals true p q h j = some-Heals (n + k) p.0 p.1 h
  either-Heals false p q h j = some-Heals (n + k) q.0 q.1 j

  handle_data_frame-Heals :
      (c : Client) (f : Frame) → IsHealthy n c → Heals (n + k) (some (handle_data_frame c f))
  unfolding handle_data_frame
  handle_data_frame-Heals c f h = elim (Option-cases (find_stream c.streams f.sid)) [
    | inl e ↦ rw (e, handle_data_frame) (here c false h)
    | inr (s, e) ↦
        let p = longer s.header_fragments (find_stream-IsPiece n c.streams f.sid s h.fragments e) in
        rw (e, handle_data_frame)
          (either-Heals _ _ _ (with_stream-IsHealthy (n + k) c _ (wider_client c h) p)
            (wider_client c h))
  ]

  handle_priority_frame-Heals :
      (c : Client) (f : Frame) → IsHealthy n c → Heals (n + k) (some (handle_priority_frame c f))
  unfolding handle_priority_frame
  handle_priority_frame-Heals c f h = elim (Option-cases (find_stream c.streams f.sid)) [
    | inl e ↦ rw (e, handle_priority_frame) (here c false h)
    | inr (s, e) ↦
        let p = longer s.header_fragments (find_stream-IsPiece n c.streams f.sid s h.fragments e) in
        rw (e, handle_priority_frame)
          (either-Heals _ _ _ (wider_client c h)
            (with_stream-IsHealthy (n + k) c _ (wider_client c h) p))
  ]

  handle_reset_frame-Heals :
      (c : Client) (f : Frame) → IsHealthy n c → Heals (n + k) (some (handle_reset_frame c f))
  unfolding handle_reset_frame
  handle_reset_frame-Heals c f h = elim (Option-cases (find_stream c.streams f.sid)) [
    | inl e ↦ rw (e, handle_reset_frame) (here c false h)
    | inr (s, e) ↦
        rw (e, handle_reset_frame)
          (either-Heals _ _ _ (wider_client c h)
            (erased-IsHealthy (n + k) c f.sid (wider_client c h)))
  ]

  close_stream-Heals :
      (f : Frame) (r : Option (Client × Bool)) → Heals (n + k) r → Heals (n + k) (close_stream f r)
  unfolding close_stream
  close_stream-Heals f none h = none-Heals (n + k)
  close_stream-Heals f (some (c, ok)) h =
      let j = h.healed c ok refl in
      if-Heals (n + k) _ _ _ (some-Heals (n + k) _ true (erased-IsHealthy (n + k) c f.sid j))
        (some-Heals (n + k) c true j)

  stream_or_new-IsPiece :
      (c : Client) (id : ℕ)
      → IsHealthy n c
      → IsPiece n (stream_or_new (find_stream c.streams id) id).header_fragments
  stream_or_new-IsPiece c id h = elim (Option-cases (find_stream c.streams id)) [
    | inl e ↦ rw e (no_fragments n)
    | inr (s, e) ↦ rw e (find_stream-IsPiece n c.streams id s h.fragments e)
  ]

  handle_headers_frame-Heals :
      (c : Client) (f : Frame)
      → IsHealthy n c
      → IsPiece k f.payload
      → Heals (n + k) (handle_headers_frame o c f)
  unfolding handle_headers_frame
  handle_headers_frame-Heals c f h p =
      let old = stream_or_new (find_stream c.streams f.sid) f.sid in
      let s = with_fragment old f in
      let q : IsPiece (n + k) s.header_fragments =
        append-IsPiece n k old.header_fragments f.payload (stream_or_new-IsPiece c f.sid h) p in
      let d = with_stream-IsHealthy (n + k) c s (wider_client c h) q in
      close_stream-Heals f _ (
        if-Heals (n + k) _ _ _ (process_end_header-Heals o (n + k) (with_stream c s) s small d q)
          (some-Heals (n + k) (with_stream c s) true d))

  handle_continuation_frame-Heals :
      (c : Client) (f : Frame)
      → IsHealthy n c
      → IsPiece k f.payload
      → Heals (n + k) (handle_continuation_frame o c f)
  unfolding handle_continuation_frame
  handle_continuation_frame-Heals c f h p = elim (Option-cases (find_stream c.streams f.sid)) [
    | inl e ↦ rw (e, handle_continuation_frame) (here c false h)
    | inr (s, e) ↦
        let s' = record s {
          header_fragments = s.header_fragments ++ f.payload;
          end_header = has_flag f end_headers;
          end_stream = has_flag f end_stream;
        } in
        let q : IsPiece (n + k) s'.header_fragments =
          append-IsPiece n k s.header_fragments f.payload
            (find_stream-IsPiece n c.streams f.sid s h.fragments e) p in
        let d = with_stream-IsHealthy (n + k) c s' (wider_client c h) q in
        rw (e, handle_continuation_frame)
          (if-Heals (n + k) _ _ _
            (if-Heals (n + k) _ _ _
              (process_end_header-Heals o (n + k) (with_stream c s') s' small d q)
              (some-Heals (n + k) (with_stream c s') true d))
            (here c false h))
  ]

  ignore_failure-Heals :
      (r : Option (Client × Bool)) → Heals (n + k) r → Heals (n + k) (ignore_failure r)
  ignore_failure-Heals none h = h
  ignore_failure-Heals (some (c, ok)) h = some-Heals (n + k) c true (h.healed c ok refl)

  acknowledge-Heals :
      (c : Client) (s : Settings) (e : Error)
      → IsHealthy n c
      → IsValid s
      → Heals (n + k) (acknowledge o c s e)
  unfolding acknowledge
  acknowledge-Heals c s no_error h v =
      let d = record c { settings = s } in
      let i : IsHealthy n d = record {
        table_valid = h.table_valid;
        settings_valid = v;
        fragments = h.fragments;
      } in
      ignore_failure-Heals _ (
        Keeps-Heals (n + k) d _ (wider_client d i)
          (send_frame-Keeps o d (new_frame settings_frame ack 0)))
  acknowledge-Heals c s _ h v = here c false h

  new_settings-IsValid : IsValid new_settings
  new_settings-IsValid = record {
    push_flag = omega arith;
    window = omega arith;
    frame_low = omega arith;
    frame_high = omega arith;
  }

  ack_settings-Heals : (c : Client) (f : Frame) → IsHealthy n c → Heals (n + k) (ack_settings o c f)
  unfolding ack_settings
  ack_settings-Heals c f h =
      acknowledge-Heals c _ _ h (decode-IsValid new_settings f.payload new_settings-IsValid)

  handle_settings_frame-Heals :
      (c : Client) (f : Frame) → IsHealthy n c → Heals (n + k) (handle_settings_frame o c f)
  unfolding handle_settings_frame
  handle_settings_frame-Heals c f h =
      if-Heals (n + k) _ _ _ (here c false h)
        (if-Heals (n + k) _ _ _ (ack_settings-Heals c f h) (here c true h))

  handle_ping_frame-Heals :
      (c : Client) (f : Frame) → IsHealthy n c → Heals (n + k) (handle_ping_frame o c f)
  unfolding handle_ping_frame
  handle_ping_frame-Heals c f h =
      if-Heals (n + k) _ _ _ (here c false h)
        (Keeps-Heals (n + k) c _ (wider_client c h) (send_frame-Keeps o c _))

  handle_go_away_frame-Heals :
      (c : Client) (f : Frame) → IsHealthy n c → Heals (n + k) (some (handle_go_away_frame c f))
  unfolding handle_go_away_frame
  handle_go_away_frame-Heals c f h =
      some-Heals (n + k) _ true
        (record { table_valid = h.table_valid; settings_valid = h.settings_valid; fragments = tt })

  -- Handling a frame of `k` bytes at most leaves the table and the settings well formed.
  pub handle_frame-Heals :
      (c : Client) (f : Frame)
      → IsHealthy n c
      → IsPiece k f.payload
      → Heals (n + k) (handle_frame o c f)
  unfolding handle_frame
  handle_frame-Heals c f h p =
      if-Heals (n + k) (f.type == data_frame) _ _ (handle_data_frame-Heals c f h) (
        if-Heals (n + k) (f.type == headers_frame) _ _ (handle_headers_frame-Heals c f h p) (
          if-Heals (n + k) (f.type == priority_frame) _ _ (handle_priority_frame-Heals c f h) (
            if-Heals (n + k) (f.type == rst_stream_frame) _ _ (handle_reset_frame-Heals c f h) (
              if-Heals (n + k) (f.type == settings_frame) _ _ (handle_settings_frame-Heals c f h) (
                if-Heals (n + k) (f.type == push_promise_frame) _ _ (here c true h) (
                  if-Heals (n + k) (f.type == ping_frame) _ _ (handle_ping_frame-Heals c f h) (
                    if-Heals (n + k) (f.type == goaway_frame) _ _ (handle_go_away_frame-Heals c f h)
                      (if-Heals (n + k) (f.type == window_update_frame) _ _ (here c true h) (
                        if-Heals (n + k) (f.type == continuation_frame) _ _
                          (handle_continuation_frame-Heals c f h p) (here c false h))))))))))
