-- ===== src/Http2/Frame/Split.antt =====
-- Frame::toFrames on a buffer of whole frames, and on one whose last frame is cut off.
use http_2_0_server.Base.{
  ℕ, zero, suc, ◌+◌, ◌-◌, ◌≤◌, ◌<◌, ◌≡◌, refl, ◌∙◌, ap, ◌≢◌, Option, none, some, List, [], ◌∷◌,
  ◌++◌, map, append-nil, append_assoc, length, drop, arith, length-append, length-drop, drop-append,
  drop-all, All, Option-cases, inl, inr,
}
use http_2_0_server.Http2.Frame.{
  Frame, default_frame, encode, decode, Decoded, decoded, rejected, Parsed, frames, stuck, prepend,
  push_decoded, to_frames, to_frames_before, to_frames_loop, size_at,
}
use http_2_0_server.Http2.Frame.Stages.{IsFrame, header_of, encode-header_of, size_bytes}
use http_2_0_server.Http2.Frame.RoundTrip.{IsPlain, received, decode_plain}

push_decoded-ne-stuck : (d : Decoded) (r : Parsed) → r ≢ stuck → push_decoded d r ≢ stuck
push_decoded-ne-stuck (decoded f) (frames fs) h = λ e. cc
push_decoded-ne-stuck (decoded f) Parsed.fault h = λ e. cc
push_decoded-ne-stuck (decoded f) stuck h = h
push_decoded-ne-stuck (rejected f) (frames fs) h = λ e. cc
push_decoded-ne-stuck (rejected f) Parsed.fault h = λ e. cc
push_decoded-ne-stuck (rejected f) stuck h = h
push_decoded-ne-stuck Decoded.fault r h = λ e. cc

to_frames_loop-ne-stuck :
    (fuel : ℕ) (behind bs : List ℕ) → length bs ≤ fuel → to_frames_loop fuel behind bs ≢ stuck
unfolding to_frames_loop
to_frames_loop-ne-stuck fuel behind [] h = λ e. cc
to_frames_loop-ne-stuck zero behind (b ∷ bs) h = absurd (omega arith)
to_frames_loop-ne-stuck (suc fuel) behind (b ∷ bs) h =
    elim (Option-cases (size_at ((b ∷ bs) ++ behind))) [
      | inl e ↦ rw (e, to_frames_loop) (λ q. cc)
      | inr (size, e) ↦
          rw (e, to_frames_loop)
            (push_decoded-ne-stuck (decode default_frame (b ∷ bs)) _ (
              to_frames_loop-ne-stuck fuel behind (drop (9 + size) (b ∷ bs))
                (omega (arith, length-drop (9 + size) (b ∷ bs)))))
    ]

-- The loop of Frame::toFrames ends on every buffer.
pub to_frames-ne-stuck : (bs : List ℕ) → to_frames bs ≢ stuck
unfolding to_frames_before
to_frames-ne-stuck bs = to_frames_loop-ne-stuck (length bs) [] bs (omega arith)

abbrev join : Option (List ℕ) → Option (List ℕ) → Option (List ℕ)
join none r = none
join (some bs) none = none
join (some bs) (some cs) = some (bs ++ cs)

-- The frames one after the other, as a sender writes them; `none` is abort().
unfoldable pub encode_all : List Frame → Option (List ℕ)
encode_all [] = some []
encode_all (f ∷ fs) = join (encode f) (encode_all fs)

abbrev prepend_all : List Frame → Parsed → Parsed
prepend_all [] r = r
prepend_all (f ∷ fs) r = prepend (received f) (prepend_all fs r)

drop-header_of :
    (f : Frame) (rest : List ℕ)
    → drop (9 + length f.payload) (header_of f (f.payload ++ rest)) ≡ rest
drop-header_of f rest =
    let n = length f.payload in
    let e : 9 + n ≡ suc (suc (suc (suc (suc (suc (suc (suc (suc n)))))))) = omega arith in
    rw e (drop-append f.payload rest)

-- One round on a frame that `encode` wrote.
to_frames_loop-header_of :
    (fuel : ℕ) (behind : List ℕ) (f : Frame) (rest : List ℕ)
    → IsFrame f
    → IsPlain f
    → to_frames_loop (suc fuel) behind (header_of f (f.payload ++ rest))
      ≡ prepend (received f) (to_frames_loop fuel behind rest)
unfolding to_frames_loop
to_frames_loop-header_of fuel behind f rest v w =
    rw (decode_plain f rest v w, size_bytes (length f.payload) v.payload_24, drop-header_of f rest)

-- The bytes of frames that can be encoded.
abbrev pub wire : List Frame → List ℕ → List ℕ
wire [] rest = rest
wire (f ∷ fs) rest = header_of f (f.payload ++ wire fs rest)

wire-append : (fs : List Frame) (xs ys : List ℕ) → wire fs xs ++ ys ≡ wire fs (xs ++ ys)
wire-append [] xs ys = refl
wire-append (f ∷ fs) xs ys =
    ap (header_of f)
      (append_assoc f.payload (wire fs xs) ys ∙ ap (◌++◌ f.payload) (wire-append fs xs ys))

pub encode_all-wire : (fs : List Frame) → All IsFrame fs → encode_all fs ≡ some (wire fs [])
unfolding encode_all
encode_all-wire [] v = refl
encode_all-wire (f ∷ fs) v = rw (encode-header_of f v.0, encode_all-wire fs v.1)

length-wire : (fs : List Frame) (rest : List ℕ) → length fs + length rest ≤ length (wire fs rest)
length-wire [] rest = omega arith
length-wire (f ∷ fs) rest =
    omega (arith, length-wire fs rest, length-append f.payload (wire fs rest))

to_frames_loop-wire :
    (fuel k : ℕ) (behind : List ℕ) (fs : List Frame) (rest : List ℕ)
    → All IsFrame fs
    → All IsPlain fs
    → fuel ≡ length fs + k
    → to_frames_loop fuel behind (wire fs rest) ≡ prepend_all fs (to_frames_loop k behind rest)
to_frames_loop-wire fuel k behind [] rest v w e =
    ap (λ n. to_frames_loop n behind rest) {x = fuel} {y = k} (omega arith)
to_frames_loop-wire zero k behind (f ∷ fs) rest v w e = absurd (omega arith)
to_frames_loop-wire (suc fuel) k behind (f ∷ fs) rest v w e =
    to_frames_loop-header_of fuel behind f (wire fs rest) v.0 w.0
    ∙ ap (prepend (received f)) (to_frames_loop-wire fuel k behind fs rest v.1 w.1 (omega arith))

prepend_all-frames :
    (fs gs : List Frame) → prepend_all fs (frames gs) ≡ frames (map received fs ++ gs)
prepend_all-frames [] gs = refl
prepend_all-frames (f ∷ fs) gs = ap (prepend (received f)) (prepend_all-frames fs gs)

to_frames_before-wire :
    (behind : List ℕ) (fs : List Frame) (rest : List ℕ)
    → All IsFrame fs
    → All IsPlain fs
    → (k : ℕ) × (length rest ≤ k)
      × (to_frames_before behind (wire fs rest) ≡ prepend_all fs (to_frames_loop k behind rest))
unfolding to_frames_before
to_frames_before-wire behind fs rest v w =
    let n = length (wire fs rest) in
    (
      n - length fs,
      omega (arith, length-wire fs rest),
      to_frames_loop-wire n (n - length fs) behind fs rest v w (omega (arith, length-wire fs rest)),
    )

to_frames_loop-nil : (k : ℕ) (behind : List ℕ) → to_frames_loop k behind [] ≡ frames []
unfolding to_frames_loop
to_frames_loop-nil k behind = refl

-- Plain frames are split off, whatever is behind them in the memory.
pub to_frames_before-encode_all :
    (behind : List ℕ) (fs : List Frame) {bs : List ℕ}
    → All IsFrame fs
    → All IsPlain fs
    → encode_all fs ≡ some bs
    → to_frames_before behind bs ≡ frames (map received fs)
to_frames_before-encode_all behind fs {bs} v w e =
    let b : bs ≡ wire fs [] = cc (encode_all-wire fs v) in
    let (k, h, step) = to_frames_before-wire behind fs [] v w in
    rw b (
      step
      ∙ ap (prepend_all fs) (to_frames_loop-nil k behind)
      ∙ prepend_all-frames fs []
      ∙ ap frames (append-nil (map received fs)))

-- A buffer of plain frames, encoded one after the other, is split into the same frames.
pub to_frames-encode_all :
    (fs : List Frame) {bs : List ℕ}
    → All IsFrame fs
    → All IsPlain fs
    → encode_all fs ≡ some bs
    → to_frames bs ≡ frames (map received fs)
to_frames-encode_all fs v w e = to_frames_before-encode_all [] fs v w e

-- Fewer bytes than the header and the announced payload.
decode_cut :
    (f : Frame) (bs behind : List ℕ) (size : ℕ)
    → size_at (bs ++ behind) ≡ some size
    → length bs < 9 + size
    → decode f bs ≡ rejected f
unfolding decode
decode_cut f (p0 ∷ p1 ∷ p2 ∷ p3 ∷ p4 ∷ p5 ∷ p6 ∷ p7 ∷ p8 ∷ p) behind size e h = ground (arith, e)
decode_cut f _ behind size e h = refl

to_frames_loop_cut :
    (k b : ℕ) (bs behind : List ℕ) (size : ℕ)
    → suc (length bs) ≤ k
    → size_at ((b ∷ bs) ++ behind) ≡ some size
    → suc (length bs) < 9 + size
    → to_frames_loop k behind (b ∷ bs) ≡ frames (default_frame ∷ [])
unfolding to_frames_loop
to_frames_loop_cut zero b bs behind size m e h = absurd (omega arith)
to_frames_loop_cut (suc k) b bs behind size m e h = rw (
  e,
  decode_cut default_frame (b ∷ bs) behind size e h,
  drop-all (9 + size) (b ∷ bs) (omega (arith, h)),
)

-- Frames within the format's limits, whose flags do not add padding or a priority to the payload,
-- and then some bytes, fewer than a frame of the length that is read there: the frames are returned
-- and one more, a PING frame on stream 0 with no payload, which nobody sent. Of one or two bytes
-- that are left, the length is read from the memory behind them, as far as there is any.
pub to_frames_cut :
    (behind : List ℕ) (fs : List Frame) {bs : List ℕ} (b : ℕ) (tail : List ℕ) (size : ℕ)
    → All IsFrame fs
    → All IsPlain fs
    → encode_all fs ≡ some bs
    → size_at ((b ∷ tail) ++ behind) ≡ some size
    → suc (length tail) < 9 + size
    → to_frames_before behind (bs ++ (b ∷ tail)) ≡ frames (map received fs ++ (default_frame ∷ []))
to_frames_cut behind fs {bs} b tail size v w e q h =
    let p : bs ≡ wire fs [] = cc (encode_all-wire fs v) in
    let (k, m, step) = to_frames_before-wire behind fs (b ∷ tail) v w in
    rw (p, wire-append fs [] (b ∷ tail))
      (step
        ∙ ap (prepend_all fs) (to_frames_loop_cut k b tail behind size (omega (arith, m)) q h)
        ∙ prepend_all-frames fs (default_frame ∷ []))
