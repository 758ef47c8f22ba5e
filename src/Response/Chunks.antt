-- ===== src/Response/Chunks.antt =====
-- Response::splitFrame and processFrames: a large frame becomes chunks that carry the same bytes.
use http_2_0_server.Base.{
  ℕ, zero, suc, ◌+◌, ◌/◌, ◌%◌, ◌≤◌, ◌<◌, ◌≡◌, refl, sym, ap, ◌∙◌, inl, inr, bit_or, bit_xor, Bool,
  true, false, some, List, [], ◌∷◌, ◌++◌, length, drop, ltb, leb, if◌then◌else◌, All, arith, ltb→lt,
  ltb→le, Bool-cases, take-append-drop, length-take, length-drop, drop-drop, drop-all,
}
use mathlib.Core.Path.{subst}
use http_2_0_server.Base.Bits.{bit_and_1, bit_or_1, bit_xor_1}
use http_2_0_server.Http2.Frame.{Frame, end_stream, has_flag, size}
use http_2_0_server.Response.{max_frame_size, end_last, chunk_size, chunk, split_loop, split_frame}

-- All the payload bytes of some frames, in order.
abbrev pub payloads : List Frame → List ℕ
payloads [] = []
payloads (f ∷ fs) = f.payload ++ payloads fs

-- A part of the frame `f` with its type and stream, that fits the limit and is not empty.
pub record IsPart (f g : Frame) : Type 0 where
  pub same_type : g.type ≡ f.type
  pub same_sid : g.sid ≡ f.sid
  pub some_byte : 0 < length g.payload
  pub fits : length g.payload ≤ max_frame_size
  pub flags_byte : g.flags < 256
  pub same_flags : g.flags / 2 ≡ f.flags / 2

-- The last frame has END_STREAM as `ends` says, and no other has it.
abbrev pub EndsLast : Bool → List Frame → Type 0
EndsLast ends [] = ⊥
EndsLast ends (f ∷ []) = has_flag f end_stream ≡ ends
EndsLast ends (f ∷ g ∷ fs) = (has_flag f end_stream ≡ false) × EndsLast ends (g ∷ fs)

-- What a receiver sees of a frame and its parts: the same bytes under the same header, cut into
-- parts that are not too large, the stream ended by the last part and only if the frame ended it.
pub record Splits (f : Frame) (fs : List Frame) : Type 0 where
  pub whole : payloads fs ≡ f.payload
  pub parts : All (IsPart f) fs
  pub ends : EndsLast (has_flag f end_stream) fs

-- A chunk as the loop makes it, before the last one is marked.
record IsChunk (f : Frame) (flags : ℕ) (g : Frame) : Type 0 where
  same_type : g.type ≡ f.type
  same_sid : g.sid ≡ f.sid
  some_byte : 0 < length g.payload
  fits : length g.payload ≤ max_frame_size
  same_flags : g.flags ≡ flags

chunk-IsChunk :
    (f : Frame) (flags offset : ℕ)
    → offset < length f.payload
    → IsChunk f flags (chunk f flags offset)
chunk-IsChunk f flags offset h =
    let n = chunk_size f.payload offset in
    let e = length-take n (drop offset f.payload) in
    let d = length-drop offset f.payload in
    record {
      same_type = refl;
      same_sid = refl;
      some_byte = omega (arith, e, d);
      fits = omega (arith, e, d);
      same_flags = refl;
    }

split_loop-IsChunk :
    (fuel : ℕ) (f : Frame) (flags offset : ℕ)
    → length f.payload < fuel + offset
    → offset ≤ length f.payload
    → (fs : List Frame) × (split_loop fuel f flags offset ≡ some fs)
      × (payloads fs ≡ drop offset f.payload)
      × All (IsChunk f flags) fs
unfolding split_loop
split_loop-IsChunk zero f flags offset h b = absurd (omega arith)
split_loop-IsChunk (suc fuel) f flags offset h b =
    elim (Bool-cases (ltb offset (length f.payload))) [
      | inl more ↦
          let n = chunk_size f.payload offset in
          let lt = ltb→lt offset (length f.payload) more in
          let (fs, e, p, c) =
            split_loop-IsChunk fuel f flags (offset + n) (omega (arith, lt)) (omega (arith, lt)) in
          (
            chunk f flags offset ∷ fs,
            rw (more, e),
            rw (p, ← drop-drop offset n f.payload) (take-append-drop n (drop offset f.payload)),
            (chunk-IsChunk f flags offset lt, c),
          )
      | inr done ↦
          ([], rw done, sym (drop-all offset f.payload (ltb→le offset (length f.payload) done)), tt)
    ]

has_flag_even : (f : Frame) → f.flags < 256 → f.flags % 2 ≡ 0 → has_flag f end_stream ≡ false
unfolding has_flag
has_flag_even f b e = rw (bit_and_1 f.flags b, e)

has_flag_odd : (f : Frame) → f.flags < 256 → f.flags % 2 ≡ 1 → has_flag f end_stream ≡ true
unfolding has_flag
has_flag_odd f b e = rw (bit_and_1 f.flags b, e)

-- The flags of the chunks: those of the frame without END_STREAM.
abbrev chunk_flags : Frame → ℕ
chunk_flags f = if has_flag f end_stream then bit_xor f.flags end_stream else f.flags

chunk_flags_lem :
    (f : Frame)
    → f.flags < 256
    → (chunk_flags f < 256) × (chunk_flags f / 2 ≡ f.flags / 2) × (chunk_flags f % 2 ≡ 0)
unfolding has_flag
chunk_flags_lem f b = ground (arith, bit_and_1 f.flags b, bit_xor_1 f.flags b)

module _ (f : Frame) (flags : ℕ) (b : flags < 256) (h : flags / 2 ≡ f.flags / 2)
    (even : flags % 2 ≡ 0) where
  chunk-IsPart : (g : Frame) → IsChunk f flags g → IsPart f g
  chunk-IsPart g c = record {
    same_type = c.same_type;
    same_sid = c.same_sid;
    some_byte = c.some_byte;
    fits = c.fits;
    flags_byte = omega arith;
    same_flags = omega arith;
  }

  chunks-IsPart : (gs : List Frame) → All (IsChunk f flags) gs → All (IsPart f) gs
  chunks-IsPart [] c = tt
  chunks-IsPart (g ∷ gs) c = (chunk-IsPart g c.0, chunks-IsPart gs c.1)

  chunk-even : (g : Frame) → IsChunk f flags g → has_flag g end_stream ≡ false
  chunk-even g c = has_flag_even g (omega arith) (omega arith)

  chunks-EndsLast :
      (g : Frame) (gs : List Frame) → All (IsChunk f flags) (g ∷ gs) → EndsLast false (g ∷ gs)
  chunks-EndsLast g [] c = chunk-even g c.0
  chunks-EndsLast g (g' ∷ gs) c = (chunk-even g c.0, chunks-EndsLast g' gs c.1)

  marked : Frame → Frame
  marked g = record g { flags = bit_or g.flags end_stream }

  marked_lem :
      (g : Frame)
      → IsChunk f flags g
      → IsPart f (marked g) × (has_flag (marked g) end_stream ≡ true)
  unfolding marked
  marked_lem g c =
      let o = bit_or_1 g.flags (omega arith) in
      (
        record {
          same_type = c.same_type;
          same_sid = c.same_sid;
          some_byte = c.some_byte;
          fits = c.fits;
          flags_byte = omega (arith, o);
          same_flags = omega (arith, o);
        },
        has_flag_odd (marked g) (omega (arith, o)) (omega (arith, o)),
      )

  end_last_lem :
      (g : Frame) (gs : List Frame)
      → All (IsChunk f flags) (g ∷ gs)
      → (payloads (end_last (g ∷ gs)) ≡ payloads (g ∷ gs))
        × All (IsPart f) (end_last (g ∷ gs))
        × EndsLast true (end_last (g ∷ gs))
  unfolding end_last marked
  end_last_lem g [] c = let (p, e) = marked_lem g c.0 in (refl, (p, tt), e)
  end_last_lem g (g' ∷ []) c =
      let (q, p, e) = end_last_lem g' [] c.1 in
      (ap (◌++◌ g.payload) q, (chunk-IsPart g c.0, p), (chunk-even g c.0, e))
  end_last_lem g (g' ∷ g'' ∷ gs) c =
      let (q, p, e) = end_last_lem g' (g'' ∷ gs) c.1 in
      (ap (◌++◌ g.payload) q, (chunk-IsPart g c.0, p), (chunk-even g c.0, e))

lt→leb : (a b : ℕ) → b < a → leb a b ≡ false
lt→leb a b h = ground arith

size-le : (f : Frame) → size f ≤ length f.payload + 15
unfolding size
size-le f = ground arith

pub size-ge : (f : Frame) → length f.payload ≤ size f
unfolding size
size-ge f = ground arith

-- The end of splitFrame, on the chunks that the loop made.
finish : Bool → List Frame → List Frame
finish ends fs = if ends then end_last fs else fs

finish-Splits :
    (f : Frame) (fs : List Frame) (ends : Bool)
    → f.flags < 256
    → 0 < length f.payload
    → has_flag f end_stream ≡ ends
    → payloads fs ≡ f.payload
    → All (IsChunk f (chunk_flags f)) fs
    → Splits f (finish ends fs)
unfolding finish
finish-Splits f [] ends b h e p c = absurd (omega (arith, ap length p))
finish-Splits f (g ∷ gs) true b h e p c =
    let (lt, half, even) = chunk_flags_lem f b in
    let (q, parts, last) = end_last_lem f (chunk_flags f) lt half even g gs c in
    record { whole = q ∙ p; parts = parts; ends = rw e last }
finish-Splits f (g ∷ gs) false b h e p c =
    let (lt, half, even) = chunk_flags_lem f b in
    record {
      whole = p;
      parts = chunks-IsPart f (chunk_flags f) lt half even (g ∷ gs) c;
      ends =
          subst (λ b. EndsLast b (g ∷ gs)) (sym e)
            (chunks-EndsLast f (chunk_flags f) lt half even g gs c);
    }

-- A frame above the limit is split into parts: their payloads are its payload, each has its type,
-- its stream and its other flags and between 1 and 16369 bytes, and END_STREAM stands on the last
-- part if it stood on the frame, and nowhere else.
pub split_frame-Splits :
    (f : Frame)
    → f.flags < 256
    → max_frame_size < size f
    → (fs : List Frame) × (split_frame f ≡ some fs) × Splits f fs
unfolding split_frame finish
split_frame-Splits f b h =
    let (fs, e, p, c) =
      split_loop-IsChunk (suc (length f.payload)) f (chunk_flags f) 0 (omega arith) (omega arith) in
    let ends = has_flag f end_stream in
    (
      finish ends fs,
      rw (lt→leb (size f) max_frame_size h, e),
      finish-Splits f fs ends b (omega (arith, h, size-le f)) refl p c,
    )
