-- ===== src/Client/Replies.antt =====
-- Answering a request leaves the streams, the table and the settings as they are.
use http_2_0_server.Base.{
  ℕ, ◌≡◌, refl, sym, ◌∙◌, Bool, true, false, Option, none, some, List, [], ◌∷◌, if◌then◌else◌,
  Option-cases, inl, inr, ◌⊎◌,
}
use mathlib.Core.Path.{subst}
use http_2_0_server.Http2.Frame.{
  Frame, has_flag, end_stream, end_headers, data_frame, headers_frame, priority_frame,
  rst_stream_frame, settings_frame, push_promise_frame, ping_frame, goaway_frame,
  window_update_frame, continuation_frame, new_frame, ack,
}
use http_2_0_server.Http2.Frame
use http_2_0_server.Response.{process_frames, encode_frames}
use http_2_0_server.Http2.Headers.{Header}
use http_2_0_server.Content.{ResponseData}
use http_2_0_server.Client.{Stream, Client, Outside, send_data, send_frame}
use http_2_0_server.Client.Requests.{answer-answer_get}
use http_2_0_server.Client.FrameHandler.{answer_missing, answer_get, answer}
use http_2_0_server.Client.Responses.{
  send_all, encode_headers, send_response, respond_with, respond_get, show_error_page,
}

-- The streams, the table and the settings are the same.
pub record Unsent (c c' : Client) : Type 0 where
  pub same_streams : c'.streams ≡ c.streams
  pub same_table : c'.table ≡ c.table
  pub same_settings : c'.settings ≡ c.settings

pub refl-Unsent : (c : Client) → Unsent c c
refl-Unsent c = record { same_streams = refl; same_table = refl; same_settings = refl }

trans-Unsent : (c d e : Client) → Unsent c d → Unsent d e → Unsent c e
trans-Unsent c d e h k = record {
  same_streams = k.same_streams ∙ h.same_streams;
  same_table = k.same_table ∙ h.same_table;
  same_settings = k.same_settings ∙ h.same_settings;
}

-- Sending changes nothing of them.
send_data-Unsent : (o : Outside) (c : Client) (b : List ℕ) → Unsent c (send_data o c b).0
unfolding send_data
send_data-Unsent o c b = record { same_streams = refl; same_table = refl; same_settings = refl }

if-Unsent :
    (c : Client) (b : Bool) (p q : Client × Bool)
    → Unsent c p.0
    → Unsent c q.0
    → Unsent c (if b then p else q).0
if-Unsent c true p q h k = h
if-Unsent c false p q h k = k

send_all-Unsent : (o : Outside) (c : Client) (bs : List (List ℕ)) → Unsent c (send_all o c bs).0
unfolding send_all
send_all-Unsent o c [] = refl-Unsent c
send_all-Unsent o c (b ∷ bs) =
    let d = (send_data o c b).0 in
    let h = send_data-Unsent o c b in
    if-Unsent c (send_data o c b).1 (send_all o d bs) (d, false)
      (trans-Unsent c d (send_all o d bs).0 h (send_all-Unsent o d bs)) h

-- A call that returns leaves them as they are.
pub record Keeps (c : Client) (r : Option (Client × Bool)) : Type 0 where
  pub kept : (c' : Client) (ok : Bool) → r ≡ some (c', ok) → Unsent c c'

pub none-Keeps : (c : Client) → Keeps c none
none-Keeps c = record { kept = λ c' ok e. cc }

pub some-Keeps : (c c' : Client) (ok : Bool) → Unsent c c' → Keeps c (some (c', ok))
some-Keeps c c' ok h = record { kept = λ d ok' e. let q : c' ≡ d = cc in subst (Unsent c) q h }

pub send_frame-Keeps : (o : Outside) (c : Client) (f : Frame) → Keeps c (send_frame o c f)
unfolding send_frame
send_frame-Keeps o c f = elim (Option-cases (Frame.encode f)) [
  | inl e ↦ rw (e, send_frame) (none-Keeps c)
  | inr (bs, e) ↦ rw (e, send_frame) (some-Keeps c _ _ (send_data-Unsent o c bs))
]

pub send_response-Keeps :
    (o : Outside) (c : Client) (s : Stream) (hs : List Header) (bytes : List ℕ)
    → Keeps c (send_response o c s hs bytes)
unfolding send_response
send_response-Keeps o c s hs bytes = elim (Option-cases (encode_headers hs)) [
  | inl e ↦ rw (e, send_response) (none-Keeps c)
  | inr (xs, e) ↦
      let header_frame = record (new_frame headers_frame end_headers s.id) { payload = xs } in
      let content_frame = record (new_frame data_frame end_stream s.id) { payload = bytes } in
      elim (Option-cases (process_frames (header_frame ∷ content_frame ∷ []))) [
        | inl f ↦ rw (e, send_response, f) (none-Keeps c)
        | inr (fs, f) ↦ elim (Option-cases (encode_frames fs)) [
          | inl g ↦ rw (e, send_response, f, g) (none-Keeps c)
          | inr (bs, g) ↦ rw (e, send_response, f, g) (some-Keeps c _ _ (send_all-Unsent o c bs))
        ]
      ]
]

-- Both branches of a test.
if-Keeps :
    (c : Client) (b : Bool) (r r' : Option (Client × Bool))
    → Keeps c r
    → Keeps c r'
    → Keeps c (if b then r else r')
if-Keeps c true r r' h k = h
if-Keeps c false r r' h k = k

-- A further call behind one that returned.
then-Keeps :
    (c c' : Client) (ok : Bool) (r r' : Option (Client × Bool))
    → r ≡ some (c', ok)
    → Keeps c r
    → Keeps c' r'
    → Keeps c r'
then-Keeps c c' ok r r' e h k = record {
  kept = λ d ok' e'. trans-Unsent c c' d (h.kept c' ok e) (k.kept d ok' e');
}

respond_with-Keeps :
    (o : Outside) (c : Client) (s : Stream) (path : List ℕ) (r : Option ResponseData)
    → Keeps c (respond_with o c s path r)
unfolding respond_with
respond_with-Keeps o c s path none = none-Keeps c
respond_with-Keeps o c s path (some content) =
    if-Keeps c _ _ _ (some-Keeps c c false (refl-Unsent c)) (send_response-Keeps o c s _ _)

respond_get-Keeps : (o : Outside) (c : Client) (s : Stream) → Keeps c (respond_get o c s)
unfolding respond_get
respond_get-Keeps o c s =
    if-Keeps c _ _ _ (some-Keeps c c false (refl-Unsent c)) (respond_with-Keeps o c s _ _)

show_error_page-Keeps :
    (o : Outside) (c : Client) (s : Stream) (code : ℕ) → Keeps c (show_error_page o c s code)
unfolding show_error_page
show_error_page-Keeps o c s code =
    if-Keeps c _ _ _ (some-Keeps c c false (refl-Unsent c)) (send_response-Keeps o c s _ _)

answer_missing-Keeps : (o : Outside) (c : Client) (s : Stream) → Keeps c (answer_missing o c s)
unfolding answer_missing
answer_missing-Keeps o c s = elim (Option-cases (show_error_page o c s 404)) [
  | inl e ↦ rw (e, answer_missing) (none-Keeps c)
  | inr ((c', ok), e) ↦
      rw (e, answer_missing)
        (some-Keeps c c' false ((show_error_page-Keeps o c s 404).kept c' ok e))
]

answer_get-Keeps : (o : Outside) (c : Client) (s : Stream) → Keeps c (answer_get o c s)
unfolding answer_get
answer_get-Keeps o c s =
    if-Keeps c _ _ _ (some-Keeps c c false (refl-Unsent c)) (go (Option-cases (respond_get o c s)))
  where
    go :
        (respond_get o c s ≡ none) ⊎ ((r : Client × Bool) × (respond_get o c s ≡ some r))
        → Keeps c (elim (respond_get o c s) [
          | none ↦ none
          | some (c', ok) ↦ if ok then some (c', true) else answer_missing o c' s
        ])
    go (inl e) = rw e (none-Keeps c)
    go (inr ((c', true), e)) =
        rw e (some-Keeps c c' true ((respond_get-Keeps o c s).kept c' true e))
    go (inr ((c', false), e)) =
        rw e (then-Keeps c c' false _ _ e (respond_get-Keeps o c s) (answer_missing-Keeps o c' s))

pub answer-Keeps : (o : Outside) (c : Client) (s : Stream) → Keeps c (answer o c s)
answer-Keeps o c s = subst (Keeps c) (sym (answer-answer_get o c s)) (answer_get-Keeps o c s)
