-- ===== src/Response/Batches.antt =====
-- Response::encodeFrames: the buffers hold whole frames, in order, and are not too large.
use http_2_0_server.Base.{
  ℕ, ◌+◌, ◌≤◌, ◌≡◌, refl, sym, ap, ◌∙◌, inl, inr, true, false, some, List, [], ◌∷◌, ◌++◌, map,
  length, ltb, All, arith, ltb→le, Bool-cases, append_assoc, append-nil, length-append,
}
use http_2_0_server.Http2.Frame.{Frame, to_frames, frames}
use http_2_0_server.Http2.Frame.Stages.{IsFrame, header_of, encode-header_of}
use http_2_0_server.Http2.Frame.RoundTrip.{IsPlain, received}
use http_2_0_server.Http2.Frame.Split.{wire, to_frames-encode_all, encode_all-wire}
use http_2_0_server.Response.{encode_loop, encode_frames, max_frame_size}
use http_2_0_server.Response.Process.{IsShort}

-- The bytes of some frames, encoded one after the other.
abbrev pub bytes_of : List Frame → List ℕ
bytes_of fs = wire fs []

abbrev pub concat {ℓ} : {A : Type ℓ} → List (List A) → List A
concat [] = []
concat (xs ∷ xss) = xs ++ concat xss

-- A buffer of 16369 bytes, or one frame and its header.
abbrev pub IsSmall : List Frame → Type 0
IsSmall fs = length (bytes_of fs) ≤ max_frame_size + 9

wire-snoc :
    (fs : List Frame) (f : Frame) (rest : List ℕ)
    → wire (fs ++ (f ∷ [])) rest ≡ wire fs (header_of f (f.payload ++ rest))
wire-snoc [] f rest = refl
wire-snoc (g ∷ fs) f rest = ap (λ bs. header_of g (g.payload ++ bs)) (wire-snoc fs f rest)

wire-bytes_of : (fs : List Frame) (rest : List ℕ) → bytes_of fs ++ rest ≡ wire fs rest
wire-bytes_of [] rest = refl
wire-bytes_of (f ∷ fs) rest =
    ap (header_of f)
      (append_assoc f.payload (bytes_of fs) rest ∙ ap (◌++◌ f.payload) (wire-bytes_of fs rest))

bytes_of-append : (fs gs : List Frame) → bytes_of fs ++ bytes_of gs ≡ bytes_of (fs ++ gs)
bytes_of-append [] gs = refl
bytes_of-append (f ∷ fs) gs = ap (header_of f) (
    append_assoc f.payload (bytes_of fs) (bytes_of gs)
    ∙ ap (◌++◌ f.payload) (bytes_of-append fs gs))

bytes_of-snoc :
    (fs : List Frame) (f : Frame) → bytes_of fs ++ header_of f f.payload ≡ bytes_of (fs ++ (f ∷ []))
bytes_of-snoc fs f =
    wire-bytes_of fs (header_of f f.payload)
    ∙ ap (λ bs. wire fs (header_of f bs)) (sym (append-nil f.payload))
    ∙ sym (wire-snoc fs f [])

-- A round on a frame that does not fit into the buffer, and on one that does.
module _ (done : List (List ℕ)) (g : List Frame) (f : Frame) (fs : List Frame) (v : IsFrame f) where
  round_full :
      ltb max_frame_size (length (bytes_of g) + length f.payload + 9) ≡ true
      → encode_loop done (bytes_of g) (length (bytes_of g)) (f ∷ fs)
        ≡ encode_loop
            (done ++ (bytes_of g ∷ []))
            (bytes_of (f ∷ []))
            (length (bytes_of (f ∷ [])))
            fs
  unfolding encode_loop
  round_full full =
      let q : header_of f f.payload ≡ bytes_of (f ∷ []) = bytes_of-snoc [] f in
      let n : 0 + length (header_of f f.payload) ≡ length (bytes_of (f ∷ [])) =
        omega (arith, ap length q) in
      rw (encode-header_of f v, encode_loop) (rw (full, n, q))

  round_room :
      ltb max_frame_size (length (bytes_of g) + length f.payload + 9) ≡ false
      → encode_loop done (bytes_of g) (length (bytes_of g)) (f ∷ fs)
        ≡ encode_loop done (bytes_of (g ++ (f ∷ []))) (length (bytes_of (g ++ (f ∷ [])))) fs
  unfolding encode_loop
  round_room room =
      let q : bytes_of g ++ header_of f f.payload ≡ bytes_of (g ++ (f ∷ [])) = bytes_of-snoc g f in
      let n : length (bytes_of g) + length (header_of f f.payload)
          ≡ length (bytes_of (g ++ (f ∷ []))) =
        omega (arith, ap length q, length-append (bytes_of g) (header_of f f.payload)) in
      rw (encode-header_of f v, encode_loop) (rw (room, n, q))

  IsSmall-one : IsShort f → IsSmall (f ∷ [])
  IsSmall-one s = omega (arith, s, length-append f.payload [])

  IsSmall-snoc :
      ltb max_frame_size (length (bytes_of g) + length f.payload + 9) ≡ false
      → IsSmall (g ++ (f ∷ []))
  IsSmall-snoc room =
      let q = ap length (bytes_of-snoc g f) in
      omega
        (arith, q, length-append (bytes_of g) (header_of f f.payload), ltb→le max_frame_size _ room)

-- How the loop goes on with the group `g` in the buffer that is being filled.
Continues : List (List ℕ) → List Frame → List Frame → Type 0
Continues done g fs =
    (h : List Frame) × (hs : List (List Frame)) × (encode_loop done (bytes_of g)
        (length (bytes_of g)) fs
      ≡ some (done ++ map bytes_of (h ∷ hs)))
    × (concat (h ∷ hs) ≡ g ++ fs)
    × All IsSmall (h ∷ hs)

encode_loop-Continues :
    (done : List (List ℕ)) (g fs : List Frame)
    → All IsFrame fs
    → All IsShort fs
    → IsSmall g
    → Continues done g fs
unfolding Continues
encode_loop-Continues done g [] v s b = (g, [], unfold encode_loop in refl, refl, (b, tt))
encode_loop-Continues done g (f ∷ fs) v s b =
    elim (Bool-cases (ltb max_frame_size (length (bytes_of g) + length f.payload + 9))) [
      | inl full ↦
          let (h, hs, e, c, small) =
            encode_loop-Continues (done ++ (bytes_of g ∷ [])) (f ∷ []) fs v.1 s.1
              (IsSmall-one done g f fs v.0 s.0) in
          (
            g,
            h ∷ hs,
            round_full done g f fs v.0 full
                ∙ e
                ∙ ap some (append_assoc done (bytes_of g ∷ []) (map bytes_of (h ∷ hs))),
            ap (◌++◌ g) c,
            (b, small),
          )
      | inr room ↦
          let (h, hs, e, c, small) =
            encode_loop-Continues done (g ++ (f ∷ [])) fs v.1 s.1
              (IsSmall-snoc done g f fs v.0 room) in
          (h, hs, round_room done g f fs v.0 room ∙ e, c ∙ append_assoc g (f ∷ []) fs, small)
    ]

-- encodeFrames groups the frames, in order, and each buffer is one group, encoded: no frame is cut
-- in two, and on frames that processFrames has cut to size no buffer is longer than 16378 bytes.
pub encode_frames-groups :
    (fs : List Frame)
    → All IsFrame fs
    → All IsShort fs
    → (groups : List (List Frame)) × (encode_frames fs ≡ some (map bytes_of groups))
      × (concat groups ≡ fs)
      × All IsSmall groups
unfolding encode_frames Continues
encode_frames-groups fs v s =
    let (h, hs, e, c, small) = encode_loop-Continues [] [] fs v s (omega arith) in
    (h ∷ hs, e, c, small)

concat-bytes_of :
    (groups : List (List Frame)) → concat (map bytes_of groups) ≡ bytes_of (concat groups)
concat-bytes_of [] = refl
concat-bytes_of (g ∷ gs) =
    ap (◌++◌ (bytes_of g)) (concat-bytes_of gs) ∙ bytes_of-append g (concat gs)

-- What a receiver reads from the buffers of encodeFrames, one after the other, for frames within
-- the format's limits and the limit of processFrames, whose flags do not add padding or a priority
-- to the payload: Frame::toFrames returns frames of the same types, flags, streams and payloads, in
-- the same order.
pub to_frames-encode_frames :
    (fs : List Frame) {buffers : List (List ℕ)}
    → All IsFrame fs
    → All IsPlain fs
    → All IsShort fs
    → encode_frames fs ≡ some buffers
    → to_frames (concat buffers) ≡ frames (map received fs)
to_frames-encode_frames fs {buffers} v w s e =
    let (groups, e', c, small) = encode_frames-groups fs v s in
    let b : buffers ≡ map bytes_of groups = cc in
    let q : concat buffers ≡ bytes_of fs = ap concat b ∙ concat-bytes_of groups ∙ ap bytes_of c in
    rw q (to_frames-encode_all fs v w (encode_all-wire fs v))
