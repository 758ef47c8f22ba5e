-- ===== src/Response/Tests.antt =====
-- The theorems on responses at concrete frames.
use http_2_0_server.Base.{ℕ, zero, suc, ◌≡◌, refl, some, List, [], ◌∷◌, ◌++◌, All, map, arith}
use http_2_0_server.Http2.Frame.{
  Frame, new_frame, encode, to_frames, frames, headers_frame, data_frame,
}
use http_2_0_server.Http2.Frame.RoundTrip.{IsPlain}
use http_2_0_server.Response.{process_frames, encode_frames, encode_loop}
use http_2_0_server.Response.Chunks.{payloads}
use http_2_0_server.Response.Process.{Processed, IsShort, process_frames-Processed}
use http_2_0_server.Response.Batches.{
  bytes_of, concat, IsSmall, encode_frames-groups, to_frames-encode_frames,
}

abbrev zeros : ℕ → List ℕ
zeros zero = []
zeros (suc n) = 0 ∷ zeros n

-- A DATA frame with END_STREAM, over the limit.
abbrev page : Frame
page = record (new_frame data_frame 0x01 1) { payload = zeros 16400 }

process_frames-Processed_example :
    (gs : List Frame) × (process_frames (page ∷ []) ≡ some gs)
    × Processed (page ∷ []) gs
    × All IsShort gs
    × (payloads gs ≡ payloads (page ∷ []))
process_frames-Processed_example = process_frames-Processed (page ∷ []) (omega arith)

abbrev head : Frame
head = record (new_frame headers_frame 0x04 1) { payload = 0x88 ∷ [] }

abbrev body : Frame
body = record (new_frame data_frame 0x01 1) { payload = 7 ∷ 7 ∷ [] }

small-IsPlain : IsPlain head × IsPlain body × Unit {0}
small-IsPlain = (
  record { not_padded = refl; not_prioritised = refl },
  record { not_padded = refl; not_prioritised = refl },
  tt,
)

encode_frames-groups_example :
    (groups : List (List Frame)) × (encode_frames (head ∷ body ∷ []) ≡ some (map bytes_of groups))
    × (concat groups ≡ head ∷ body ∷ [])
    × All IsSmall groups
encode_frames-groups_example = encode_frames-groups (head ∷ body ∷ []) (omega arith) (omega arith)

abbrev sent : List ℕ
sent = 0 ∷ 0 ∷ 1 ∷ 1 ∷ 4 ∷ 0 ∷ 0 ∷ 0 ∷ 1 ∷ 0x88 ∷ 0 ∷ 0 ∷ 2 ∷ 0 ∷ 1 ∷ 0 ∷ 0 ∷ 0 ∷ 1 ∷ 7 ∷ 7 ∷ []

both_sent : encode_frames (head ∷ body ∷ []) ≡ some (sent ∷ [])
unfolding encode_frames encode_loop encode
both_sent = refl

to_frames-encode_frames_example : to_frames (sent ++ []) ≡ frames (head ∷ body ∷ [])
to_frames-encode_frames_example =
    to_frames-encode_frames (head ∷ body ∷ []) (omega arith)
      (small-IsPlain.0, (small-IsPlain.1, tt)) (omega arith) both_sent
