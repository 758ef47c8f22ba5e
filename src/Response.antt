-- ===== src/Response.antt =====
-- Response/response.h and response.cpp: the frames of one response, cut to size and packed into
-- the buffers that are sent.
pub mod Chunks
pub mod Process
pub mod Batches
mod Tests
use http_2_0_server.Base.{
  ℕ, zero, suc, ◌+◌, ◌-◌, bit_or, bit_xor, min, Bool, true, false, Option, none, some, List, [],
  ◌∷◌, ◌++◌, length, take, drop, ltb, leb, if◌then◌else◌,
}
use http_2_0_server.Http2.Frame.{Frame, new_frame, end_stream, has_flag, size, encode}

-- `#define MAX_FRAME_SIZE 16384-15`; every use of the macro stands where it needs no brackets.
abbrev pub max_frame_size : ℕ
max_frame_size = 16384 - 15

-- Response::addFrame
unfoldable pub add_frame : List Frame → Frame → List Frame
add_frame fs f = fs ++ (f ∷ [])

-- `splitFrames.back().set_flags(splitFrames.back().flags() | END_STREAM)`
unfoldable pub end_last : List Frame → List Frame
end_last [] = []
end_last (f ∷ []) = record f { flags = bit_or f.flags end_stream } ∷ []
end_last (f ∷ g ∷ fs) = f ∷ end_last (g ∷ fs)

abbrev pub chunk_size : List ℕ → ℕ → ℕ
chunk_size payload offset = min max_frame_size (length payload - offset)

-- `newFrame` of Response::splitFrame, with the chunk of the payload at `offset`.
abbrev pub chunk : Frame → ℕ → ℕ → Frame
chunk f flags offset = record (new_frame f.type flags f.sid) {
  payload = take (chunk_size f.payload offset) (drop offset f.payload);
}

-- The loop of Response::splitFrame; `none` would be a loop without an end.
unfoldable pub split_loop : ℕ → Frame → ℕ → ℕ → Option (List Frame)
split_loop zero f flags offset = none
split_loop (suc fuel) f flags offset =
    let rest = split_loop fuel f flags (offset + chunk_size f.payload offset) in
    if ltb offset (length f.payload)
    then (elim rest [ none ↦ none | some fs ↦ some (chunk f flags offset ∷ fs) ])
    else some []

-- Response::splitFrame. A chunk has a byte at least, so a round for each byte and one to leave the
-- loop are enough.
unfoldable pub split_frame : Frame → Option (List Frame)
split_frame f =
    if leb (size f) max_frame_size
    then some (f ∷ [])
    else let ends = has_flag f end_stream in
      let flags = if ends then bit_xor f.flags end_stream else f.flags in
      elim (split_loop (suc (length f.payload)) f flags 0) [
        | none ↦ none
        | some fs ↦ some (if ends then end_last fs else fs)
      ]

abbrev joined : Option (List Frame) → Option (List Frame) → Option (List Frame)
joined none r = none
joined (some fs) none = none
joined (some fs) (some gs) = some (fs ++ gs)

-- Response::processFrames on the frames of the response.
unfoldable pub process_frames : List Frame → Option (List Frame)
process_frames [] = some []
process_frames (f ∷ fs) =
    joined (if ltb max_frame_size (length f.payload) then split_frame f else some (f ∷ []))
      (process_frames fs)

-- The loop of Response::encodeFrames: `done` are the buffers before the last, `last` is
-- `encodedFrames[ctr]`, and `curr_size` is `currSize`. `none` is abort() in Frame::encode.
unfoldable pub encode_loop : List (List ℕ) → List ℕ → ℕ → List Frame → Option (List (List ℕ))
encode_loop done last curr_size [] = some (done ++ (last ∷ []))
encode_loop done last curr_size (f ∷ fs) =
    let full = ltb max_frame_size (curr_size + length f.payload + 9) in
    let done' = if full then done ++ (last ∷ []) else done in
    let last' = if full then [] else last in
    let curr_size' = if full then 0 else curr_size in
    elim (encode f) [
      | none ↦ none
      | some bs ↦ encode_loop done' (last' ++ bs) (curr_size' + length bs) fs
    ]

-- Response::encodeFrames
unfoldable pub encode_frames : List Frame → Option (List (List ℕ))
encode_frames fs = encode_loop [] [] 0 fs
