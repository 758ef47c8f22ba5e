-- ===== src/Response/Process.antt =====
-- Response::processFrames: every large frame becomes its parts, and no byte is lost.
use mathlib.Core.Path.{subst}
use http_2_0_server.Base.{
  ℕ, ◌/◌, ◌^◌, ◌≤◌, ◌<◌, ◌≡◌, refl, sym, ap, ◌∙◌, inl, inr, bit_and, some, List, [], ◌∷◌, ◌++◌,
  length, ltb, All, arith, ltb→lt, ltb→le, Bool-cases, All-append, append_assoc,
}
use http_2_0_server.Base.Bits.{bit_and_8, bit_and_32}
use http_2_0_server.Http2.Frame.{Frame, padded, priority}
use http_2_0_server.Http2.Frame.Stages.{IsFrame}
use http_2_0_server.Http2.Frame.RoundTrip.{IsPlain}
use http_2_0_server.Response.{process_frames, max_frame_size}
use http_2_0_server.Response.Chunks.{payloads, IsPart, Splits, split_frame-Splits, size-ge}

-- Frames whose payload is within the limit for a response's frame.
abbrev pub IsShort : Frame → Type 0
IsShort f = length f.payload ≤ max_frame_size

-- What processFrames makes of a list of frames: each is kept if it is short, and split if not.
pub data Processed : List Frame → List Frame → Type 0 where
  nothing : Processed [] []
  kept :
      {f : Frame} {fs gs : List Frame} → IsShort f → Processed fs gs → Processed (f ∷ fs) (f ∷ gs)
  cut :
      {f : Frame} {parts fs gs hs : List Frame}
      → Splits f parts
      → Processed fs gs
      → hs ≡ parts ++ gs
      → Processed (f ∷ fs) hs

process_frames_total :
    (fs : List Frame)
    → All (λ f. f.flags < 256) fs
    → (gs : List Frame) × (process_frames fs ≡ some gs) × Processed fs gs
unfolding process_frames
process_frames_total [] b = ([], refl, nothing)
process_frames_total (f ∷ fs) b =
    let (gs, e, p) = process_frames_total fs b.1 in
    elim (Bool-cases (ltb max_frame_size (length f.payload))) [
      | inl long ↦
          let (parts, e', s) =
            split_frame-Splits f b.0 (omega (arith, ltb→lt _ _ long, size-ge f)) in
          (parts ++ gs, rw (long, e', e), cut s p refl)
      | inr short ↦ (f ∷ gs, rw (short, e), kept (ltb→le _ _ short) p)
    ]

All-IsPart-IsShort : (f : Frame) (fs : List Frame) → All (IsPart f) fs → All IsShort fs
All-IsPart-IsShort f [] h = tt
All-IsPart-IsShort f (g ∷ gs) h = (h.0.fits, All-IsPart-IsShort f gs h.1)

payloads-append : (fs gs : List Frame) → payloads (fs ++ gs) ≡ payloads fs ++ payloads gs
payloads-append [] gs = refl
payloads-append (f ∷ fs) gs =
    ap (◌++◌ f.payload) (payloads-append fs gs)
    ∙ sym (append_assoc f.payload (payloads fs) (payloads gs))

Processed_lem :
    {fs gs : List Frame} → Processed fs gs → All IsShort gs × (payloads gs ≡ payloads fs)
Processed_lem nothing = (tt, refl)
Processed_lem (kept {f = f} h p) = let (s, e) = Processed_lem p in ((h, s), ap (◌++◌ f.payload) e)
Processed_lem (cut {f = f} {parts = ps} {fs = fs} {gs = gs} s p e) =
    let (t, q) = Processed_lem p in
    (
      subst (All IsShort) (sym e) (All-append IsShort ps gs (All-IsPart-IsShort f ps s.parts) t),
      ap payloads e ∙ payloads-append ps gs ∙ rw (s.whole, q),
    )

-- For frames whose flags are bytes, processFrames keeps each frame within the limit and replaces
-- each other one by its parts, in order; afterwards every frame is within the limit, and the frames
-- carry the same bytes as before.
pub process_frames-Processed :
    (fs : List Frame)
    → All (λ f. f.flags < 256) fs
    → (gs : List Frame) × (process_frames fs ≡ some gs)
      × Processed fs gs
      × All IsShort gs
      × (payloads gs ≡ payloads fs)
process_frames-Processed fs b =
    let (gs, e, p) = process_frames_total fs b in let (s, q) = Processed_lem p in (gs, e, p, s, q)

-- A frame that a response is made of: its header fits the wire format, and it has no extra fields.
pub record IsSendable (f : Frame) : Type 0 where
  pub type_byte : f.type < 256
  pub flags_byte : f.flags < 256
  pub sid_31 : f.sid < 2 ^ 31
  pub plain : IsPlain f

same_bits :
    (m n : ℕ)
    → m < 256
    → n < 256
    → m / 2 ≡ n / 2
    → (bit_and m padded ≡ bit_and n padded) × (bit_and m priority ≡ bit_and n priority)
same_bits m n b c h = (
  rw (bit_and_8 m b, bit_and_8 n c) (omega arith),
  rw (bit_and_32 m b, bit_and_32 n c) (omega arith),
)

IsPart-IsSendable : (f g : Frame) → IsSendable f → IsPart f g → IsSendable g
IsPart-IsSendable f g v p =
    let (e8, e32) = same_bits g.flags f.flags p.flags_byte v.flags_byte p.same_flags in
    record {
      type_byte = omega (arith, p.same_type, v.type_byte);
      flags_byte = p.flags_byte;
      sid_31 = omega (arith, p.same_sid, v.sid_31);
      plain = record {
        not_padded = rw (e8, p.same_type) v.plain.not_padded;
        not_prioritised = rw (e32, p.same_type) v.plain.not_prioritised;
      };
    }

All-IsPart-IsSendable :
    (f : Frame) (gs : List Frame) → IsSendable f → All (IsPart f) gs → All IsSendable gs
All-IsPart-IsSendable f [] v p = tt
All-IsPart-IsSendable f (g ∷ gs) v p =
    (IsPart-IsSendable f g v p.0, All-IsPart-IsSendable f gs v p.1)

pub Processed-IsSendable :
    {fs gs : List Frame} → Processed fs gs → All IsSendable fs → All IsSendable gs
Processed-IsSendable nothing v = tt
Processed-IsSendable (kept h p) v = (v.0, Processed-IsSendable p v.1)
Processed-IsSendable (cut {f = f} {parts = ps} {gs = gs} s p e) v = subst (All IsSendable) (sym e) (
    All-append IsSendable ps gs (All-IsPart-IsSendable f ps v.0 s.parts)
      (Processed-IsSendable p v.1))

pub IsSendable-IsFrame : (f : Frame) → IsSendable f → IsShort f → IsFrame f
IsSendable-IsFrame f v s = record {
  type_byte = v.type_byte;
  flags_byte = v.flags_byte;
  sid_31 = v.sid_31;
  payload_24 = omega (arith, s);
}
