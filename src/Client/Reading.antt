-- ===== src/Client/Reading.antt =====
-- Client::doRequest on the bytes of a sender that writes whole frames.
use http_2_0_server.Base.{
  ℕ, ◌-◌, ◌/◌, ◌%◌, ◌^◌, ◌≤◌, ◌≡◌, refl, sym, ap, ◌∙◌, Bool, true, false, ◌&&◌, Option, some, List,
  [], ◌∷◌, ◌++◌, length, length-append, take, drop, take-append, drop-append, append_assoc, resize,
  arith, All, map, leb, same, same_refl, if◌then◌else◌,
}
use http_2_0_server.Http2.Frame.{Frame}
use http_2_0_server.Http2.Frame.Stages.{IsFrame}
use http_2_0_server.Http2.Frame.RoundTrip.{IsPlain, received}
use http_2_0_server.Http2.Frame.Split.{
  encode_all, encode_all-wire, wire, to_frames_before-encode_all,
}
use http_2_0_server.Client.{Outside, apply_settings}
use http_2_0_server.Client.Request.{
  Connection, buffer_size, preface, handle_all, handle_parsed, then_handle, with_client,
  received_frames, read_buffer, do_request,
}
use http_2_0_server.Client.Request

-- The buffer once `bytes` have been written to its front.
abbrev pub filled : Connection → List ℕ → List ℕ
filled c bytes = bytes ++ drop (length bytes) (resize buffer_size c.recv_buffer)

length-preface : length preface ≡ 24
unfolding preface
length-preface = refl

read_buffer-greeted :
    (o : Outside) (c : Connection) (rest : List ℕ) (n : ℕ)
    → read_buffer o c (preface ++ rest) n
      ≡ with_client c rest (
          then_handle
            (apply_settings o c.client)
            (λ client. handle_parsed o client (received_frames rest (n - length preface))))
unfolding read_buffer
read_buffer-greeted o c rest n =
    let long : leb (length preface) (length (preface ++ rest)) ≡ true =
      ground (arith, length-append preface rest) in
    rw (long, take-append preface rest, same_refl preface, drop-append preface rest) refl

no_match : (b : Bool) (x y : Option Connection) → (if b && false then x else y) ≡ y
no_match true x y = refl
no_match false x y = refl

read_buffer-plain :
    (o : Outside) (c : Connection) (buffer : List ℕ) (n : ℕ)
    → same (take (length preface) buffer) preface ≡ false
    → read_buffer o c buffer n
      ≡ with_client c buffer (handle_parsed o c.client (received_frames buffer n))
unfolding read_buffer
read_buffer-plain o c buffer n e = rw e (no_match (leb (length preface) (length buffer)) _ _)

-- The connection preface and then whole frames within the format's limits, whose flags do not add
-- padding or a priority to the payload: the server's SETTINGS frame is sent, and the frames are
-- handled in the order of the bytes.
pub do_request-preface :
    (o : Outside) (c : Connection) (fs : List Frame) (bs : List ℕ)
    → All IsFrame fs
    → All IsPlain fs
    → encode_all fs ≡ some bs
    → do_request o c (Request.received (preface ++ bs))
      ≡ with_client c (drop (length preface) (filled c (preface ++ bs))) (
          then_handle (apply_settings o c.client) (λ client. handle_all o client (map received fs)))
unfolding do_request
do_request-preface o c fs bs v w e =
    let n = length (preface ++ bs) in
    let tail = drop n (resize buffer_size c.recv_buffer) in
    let whole : filled c (preface ++ bs) ≡ preface ++ (bs ++ tail) = append_assoc preface bs tail in
    let len : n - length preface ≡ length bs = omega (arith, length-append preface bs) in
    rw whole (
      read_buffer-greeted o c (bs ++ tail) n
      ∙ rw
          (
            len,
            take-append bs tail,
            drop-append bs tail,
            to_frames_before-encode_all tail fs v w e,
            drop-append preface (bs ++ tail),
          )
          refl)

-- The preface does not begin with 0.
zero_first : (b : ℕ) (p : List ℕ) → b ≡ 0 → same (take (length preface) (b ∷ p)) preface ≡ false
unfolding preface same
zero_first b p e = rw e refl

-- The length of a frame that fits the buffer begins with 0.
wire-first :
    (f : Frame) (fs : List Frame) (tail : List ℕ)
    → length (wire (f ∷ fs) []) ≤ buffer_size
    → same (take (length preface) (wire (f ∷ fs) [] ++ tail)) preface ≡ false
wire-first f fs tail l =
    let n = length f.payload in
    let small : n ≤ buffer_size = omega (arith, l, length-append f.payload (wire fs [])) in
    let z : n / 2 ^ 16 % 256 ≡ 0 = omega (arith, small) in zero_first (n / 2 ^ 16 % 256) _ z

some_inj : {xs ys : List ℕ} → some xs ≡ some ys → xs ≡ ys
some_inj e = cc

-- Whole frames within the format's limits, at least one, whose flags do not add padding or a
-- priority to the payload, in no more bytes than the buffer has: they are handled in the order of
-- the bytes.
pub do_request-encode_all :
    (o : Outside) (c : Connection) (f : Frame) (fs : List Frame) (bs : List ℕ)
    → All IsFrame (f ∷ fs)
    → All IsPlain (f ∷ fs)
    → encode_all (f ∷ fs) ≡ some bs
    → length bs ≤ buffer_size
    → do_request o c (Request.received bs)
      ≡ with_client c (filled c bs) (handle_all o c.client (map received (f ∷ fs)))
unfolding do_request
do_request-encode_all o c f fs bs v w e l =
    let tail = drop (length bs) (resize buffer_size c.recv_buffer) in
    let whole : bs ≡ wire (f ∷ fs) [] = some_inj (sym e ∙ encode_all-wire (f ∷ fs) v) in
    let first : same (take (length preface) (bs ++ tail)) preface ≡ false =
      ap (λ u. same (take (length preface) (u ++ tail)) preface) whole
      ∙ wire-first f fs tail (omega (arith, l, ap length whole)) in
    read_buffer-plain o c (bs ++ tail) (length bs) first
    ∙ rw (take-append bs tail, drop-append bs tail, to_frames_before-encode_all tail (f ∷ fs) v w e)
        refl
