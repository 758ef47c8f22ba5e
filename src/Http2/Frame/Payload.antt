-- ===== src/Http2/Frame/Payload.antt =====
-- The frames of Frame::toFrames hold bytes of the buffer and no others.
use http_2_0_server.Base.{
  All-take, All-drop, ℕ, zero, suc, ◌+◌, ◌*◌, ◌^◌, ◌≤◌, Bool, true, false, not, ◌||◌, List, [], ◌∷◌,
  ◌++◌, Option-cases, inl, inr, length, length-take, length-drop, take, drop, arith, All, ltb, ◌==◌,
  if◌then◌else◌, bit_and,
}
use http_2_0_server.Base.Bits.{IsByte}
use http_2_0_server.Http2.Frame.{
  Frame, default_frame, Decoded, decoded, rejected, assign_payload, read_priority, strip_priority,
  read_padding, strip_padding, decode, Parsed, frames, stuck, prepend, push_decoded, size_at,
  to_frames_before, to_frames_loop, size_sub,
}

-- At most `n` bytes.
pub record IsPiece (n : ℕ) (bs : List ℕ) : Type 0 where
  pub short : length bs ≤ n
  pub bytes : All IsByte bs

-- A frame that decode leaves has such a payload.
Within : ℕ → Decoded → Type 0
Within n (decoded f) = IsPiece n f.payload
Within n (rejected f) = IsPiece n f.payload
Within n Decoded.fault = Unit

rejected-Within : (n : ℕ) (f : Frame) → IsPiece n f.payload → Within n (rejected f)
unfolding Within
rejected-Within n f h = h

decoded-Within : (n : ℕ) (f : Frame) → IsPiece n f.payload → Within n (decoded f)
unfolding Within
decoded-Within n f h = h

fault-Within : (n : ℕ) → Within n Decoded.fault
unfolding Within
fault-Within n = tt

if-Within :
    (n : ℕ) (b : Bool) (d e : Decoded) → Within n d → Within n e → Within n (if b then d else e)
if-Within n true d e h k = h
if-Within n false d e h k = k

tail-IsPiece : (n b : ℕ) (p : List ℕ) → IsPiece n (b ∷ p) → IsPiece n p
tail-IsPiece n b p h = record { short = omega (arith, h.short); bytes = h.bytes.1 }

take-IsPiece : (n k : ℕ) (p : List ℕ) → IsPiece n p → IsPiece n (take k p)
take-IsPiece n k p h = record {
  short = omega (arith, h.short, length-take k p);
  bytes = All-take IsByte k p h.bytes;
}

pub drop-IsPiece : (n k : ℕ) (p : List ℕ) → IsPiece n p → IsPiece n (drop k p)
drop-IsPiece n k p h = record {
  short = omega (arith, h.short, length-drop k p);
  bytes = All-drop IsByte k p h.bytes;
}

assign_payload-Within :
    (n : ℕ) (f : Frame) (p : List ℕ) (s h : ℕ)
    → IsPiece n f.payload
    → IsPiece n p
    → Within n (assign_payload f p s h)
unfolding assign_payload
assign_payload-Within n f p s h a b = if-Within n _ _ _ (rejected-Within n f a) (
    if-Within n _ _ _ (fault-Within n)
      (decoded-Within n (record f { payload = take s p }) (take-IsPiece n s p b)))

read_priority-Within :
    (n : ℕ) (f : Frame) (p : List ℕ) (s h : ℕ)
    → IsPiece n f.payload
    → IsPiece n p
    → Within n (read_priority f p s h)
unfolding read_priority
read_priority-Within n f (p0 ∷ p1 ∷ p2 ∷ p3 ∷ p4 ∷ p) s h a b =
    let g = record f {
      has_priority = true;
      exclusive = not (bit_and p0 0x80 == 0);
      stream_dependency = bit_and p0 0x7f * 2 ^ 24 + p1 * 2 ^ 16 + p2 * 2 ^ 8 + p3;
      weight = p4 + 1;
    } in
    if-Within n (ltb (p4 + 1) 1 || ltb 256 (p4 + 1)) (rejected g)
      (assign_payload g p (size_sub s 5) (h + 5)) (rejected-Within n g a)
      (assign_payload-Within n g p (size_sub s 5) (h + 5) a
        (drop-IsPiece n 5 (p0 ∷ p1 ∷ p2 ∷ p3 ∷ p4 ∷ p) b))
read_priority-Within n f _ s h a b = fault-Within n

strip_priority-Within :
    (n : ℕ) (f : Frame) (p : List ℕ) (s h : ℕ)
    → IsPiece n f.payload
    → IsPiece n p
    → Within n (strip_priority f p s h)
unfolding strip_priority
strip_priority-Within n f p s h a b =
    if-Within n _ _ _
      (if-Within n _ _ _ (rejected-Within n f a) (read_priority-Within n f p s h a b))
      (assign_payload-Within n f p s h a b)

read_padding-Within :
    (n : ℕ) (f : Frame) (p : List ℕ) (s : ℕ)
    → IsPiece n f.payload
    → IsPiece n p
    → Within n (read_padding f p s)
unfolding read_padding
read_padding-Within n f [] s a b = fault-Within n
read_padding-Within n f (pad_length ∷ p) s a b =
    if-Within n _ _ _ (rejected-Within n f a)
      (strip_priority-Within n f p _ 1 a (tail-IsPiece n pad_length p b))

strip_padding-Within :
    (n : ℕ) (f : Frame) (p : List ℕ) (s : ℕ)
    → IsPiece n f.payload
    → IsPiece n p
    → Within n (strip_padding f p s)
unfolding strip_padding
strip_padding-Within n f p s a b =
    if-Within n _ _ _ (read_padding-Within n f p s a b) (strip_priority-Within n f p s 0 a b)

decode-Within :
    (n : ℕ) (f : Frame) (p : List ℕ) → IsPiece n f.payload → IsPiece n p → Within n (decode f p)
unfolding decode
decode-Within n f (p0 ∷ p1 ∷ p2 ∷ p3 ∷ p4 ∷ p5 ∷ p6 ∷ p7 ∷ p8 ∷ p) a b =
    let size = p0 * 2 ^ 16 + p1 * 2 ^ 8 + p2 in
    let g = record f {
      type = p3;
      flags = p4;
      sid = bit_and p5 0x7f * 2 ^ 24 + p6 * 2 ^ 16 + p7 * 2 ^ 8 + p8;
    } in
    if-Within n (ltb 0x00ffffff size || ltb (9 + length p) (9 + size)) (rejected f)
      (strip_padding g p size) (rejected-Within n f a)
      (strip_padding-Within n g p size a
        (drop-IsPiece n 9 (p0 ∷ p1 ∷ p2 ∷ p3 ∷ p4 ∷ p5 ∷ p6 ∷ p7 ∷ p8 ∷ p) b))
decode-Within n f _ a b = rejected-Within n f a

-- At most `k` frames, with such payloads.
abbrev pub Pieces : ℕ → ℕ → Parsed → Type 0
Pieces n k (frames fs) = (length fs ≤ k) × All (λ (f : Frame). IsPiece n f.payload) fs
Pieces n k Parsed.fault = Unit
Pieces n k stuck = Unit

prepend-Pieces :
    (n k : ℕ) (f : Frame) (r : Parsed)
    → IsPiece n f.payload
    → Pieces n k r
    → Pieces n (suc k) (prepend f r)
prepend-Pieces n k f (frames fs) h p = (omega (arith, p.0), (h, p.1))
prepend-Pieces n k f Parsed.fault h p = tt
prepend-Pieces n k f stuck h p = tt

push_decoded-Pieces :
    (n k : ℕ) (d : Decoded) (r : Parsed)
    → Within n d
    → Pieces n k r
    → Pieces n (suc k) (push_decoded d r)
unfolding Within
push_decoded-Pieces n k (decoded f) r h p = prepend-Pieces n k f r h p
push_decoded-Pieces n k (rejected f) r h p = prepend-Pieces n k f r h p
push_decoded-Pieces n k Decoded.fault r h p = tt

to_frames_loop-Pieces :
    (fuel n : ℕ) (behind bs : List ℕ) → IsPiece n bs → Pieces n fuel (to_frames_loop fuel behind bs)
unfolding to_frames_loop
to_frames_loop-Pieces fuel n behind [] h = (omega arith, tt)
to_frames_loop-Pieces zero n behind (b ∷ bs) h = tt
to_frames_loop-Pieces (suc fuel) n behind (b ∷ bs) h =
    elim (Option-cases (size_at ((b ∷ bs) ++ behind))) [
      | inl e ↦ rw (e, to_frames_loop) tt
      | inr (size, e) ↦
          rw (e, to_frames_loop)
            (push_decoded-Pieces n fuel (decode default_frame (b ∷ bs))
              (to_frames_loop fuel behind (drop (9 + size) (b ∷ bs)))
              (decode-Within n default_frame (b ∷ bs) (record { short = omega arith; bytes = tt })
                h)
              (to_frames_loop-Pieces fuel n behind (drop (9 + size) (b ∷ bs))
                (drop-IsPiece n (9 + size) (b ∷ bs) h)))
    ]

-- There are no more frames than bytes, and no payload is longer than the buffer.
pub to_frames_before-Pieces :
    (behind bs : List ℕ)
    → All IsByte bs
    → Pieces (length bs) (length bs) (to_frames_before behind bs)
unfolding to_frames_before
to_frames_before-Pieces behind bs h =
    to_frames_loop-Pieces (length bs) (length bs) behind bs
      (record { short = omega arith; bytes = h })
