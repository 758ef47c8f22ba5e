-- ===== src/Http2/Frame/Tests.antt =====
-- Runs of the frame codec, and its theorems at concrete frames.
use http_2_0_server.Base.{
  ℕ, ◌+◌, ◌≡◌, refl, ◌≢◌, inl, true, some, List, [], ◌∷◌, ◌++◌, length, arith,
}
use http_2_0_server.Http2.Frame.{
  Frame, new_frame, default_frame, encode, decode, Decoded, decoded, rejected, frames, stuck,
  to_frames, to_frames_before, to_frames_loop, Parsed, headers_frame,
}
use http_2_0_server.Http2.Frame.RoundTrip.{IsPlain, decode-encode}
use http_2_0_server.Http2.Frame.Fields.{with_layout, decode-lay_out, decode_short_body}
use http_2_0_server.Http2.Frame.Layout.{Priority, set_priority}
use http_2_0_server.Http2.Frame.Safety.{decode-ne-fault, decode_padded_empty}
use http_2_0_server.Http2.Frame.Split.{
  to_frames-ne-stuck, to_frames-encode_all, to_frames_cut, encode_all,
}

abbrev hello : Frame
hello = record (new_frame headers_frame 0x04 3) { payload = 7 ∷ 9 ∷ [] }

hello-IsPlain : IsPlain hello
hello-IsPlain = record { not_padded = refl; not_prioritised = refl }

abbrev hello_bytes : List ℕ
hello_bytes = 0 ∷ 0 ∷ 2 ∷ 1 ∷ 4 ∷ 0 ∷ 0 ∷ 0 ∷ 3 ∷ 7 ∷ 9 ∷ []

hello_encoded : encode hello ≡ some hello_bytes
unfolding encode
hello_encoded = refl

hello_decoded : decode default_frame hello_bytes ≡ decoded hello
unfolding decode
hello_decoded = refl

decode-encode_example :
    (bs : List ℕ) × (encode hello ≡ some bs)
    × (length bs ≡ 9 + 2)
    × (decode default_frame (bs ++ (5 ∷ [])) ≡ decoded hello)
decode-encode_example = decode-encode hello (5 ∷ []) (omega arith) hello-IsPlain

-- A HEADERS frame with padding and priority (flags 0x2c) around six bytes.
abbrev urgent : Priority
urgent = record { is_exclusive = true; depends_on = 5; weighs = 16 }

abbrev flagged : Frame
flagged = new_frame headers_frame 0x2c 3

abbrev six : List ℕ
six = 1 ∷ 2 ∷ 3 ∷ 4 ∷ 5 ∷ 6 ∷ []

abbrev flagged_bytes : List ℕ → ℕ → List ℕ
flagged_bytes body n =
    0 ∷ 0 ∷ n ∷ 1 ∷ 0x2c ∷ 0 ∷ 0 ∷ 0 ∷ 3 ∷ 2 ∷ 128 ∷ 0 ∷ 0 ∷ 5 ∷ 15 ∷ (body ++ (0 ∷ 0 ∷ []))

six_encoded :
    encode (with_layout flagged (some (0 ∷ 0 ∷ [])) (some urgent) six) ≡ some (flagged_bytes six 14)
unfolding encode
six_encoded = refl

decode-lay_out_example :
    decode default_frame (flagged_bytes six 14 ++ [])
    ≡ decoded (record (set_priority (some urgent) flagged) { payload = six })
decode-lay_out_example =
    decode-lay_out flagged (some (0 ∷ 0 ∷ [])) (some urgent) six [] (flagged_bytes six 14)
      (omega arith) (omega arith) (omega arith) refl refl six_encoded (omega arith)

one_encoded :
    encode (with_layout flagged (some (0 ∷ 0 ∷ [])) (some urgent) (0x82 ∷ []))
    ≡ some (flagged_bytes (0x82 ∷ []) 9)
unfolding encode
one_encoded = refl

-- `:method: GET` is the one byte 0x82.
decode_short_body_example :
    (g : Frame) × (decode default_frame (flagged_bytes (0x82 ∷ []) 9 ++ []) ≡ rejected g)
decode_short_body_example =
    decode_short_body flagged (some (0 ∷ 0 ∷ [])) (some urgent) (0x82 ∷ []) []
      (flagged_bytes (0x82 ∷ []) 9) (omega arith) (omega arith) (omega arith) refl refl one_encoded
      (omega arith)

decode-ne-fault_example : decode default_frame (flagged_bytes six 14) ≢ Decoded.fault
decode-ne-fault_example =
    decode-ne-fault default_frame 0 0 14 1 0x2c 0 0 0 3
      (2 ∷ 128 ∷ 0 ∷ 0 ∷ 5 ∷ 15 ∷ (six ++ (0 ∷ 0 ∷ []))) (omega arith) (inl (omega arith))

-- An empty DATA frame with the flag PADDED, before another frame.
decode_padded_empty_example :
    decode default_frame (0 ∷ 0 ∷ 0 ∷ 0 ∷ 8 ∷ 0 ∷ 0 ∷ 0 ∷ 3 ∷ hello_bytes) ≡ Decoded.fault
decode_padded_empty_example =
    decode_padded_empty default_frame 0 8 0 0 0 3 hello_bytes (omega arith) (omega arith) refl

to_frames-ne-stuck_example : to_frames hello_bytes ≢ stuck
to_frames-ne-stuck_example = to_frames-ne-stuck hello_bytes

both_encoded : encode_all (hello ∷ hello ∷ []) ≡ some (hello_bytes ++ hello_bytes)
unfolding encode_all encode
both_encoded = refl

to_frames-encode_all_example : to_frames (hello_bytes ++ hello_bytes) ≡ frames (hello ∷ hello ∷ [])
to_frames-encode_all_example =
    to_frames-encode_all (hello ∷ hello ∷ []) (omega arith) (hello-IsPlain, (hello-IsPlain, tt))
      both_encoded

one_frame : encode_all (hello ∷ []) ≡ some hello_bytes
unfolding encode_all encode
one_frame = refl

-- The first four bytes of a second frame, and the first one, where the length is read from behind.
to_frames_cut_example :
    to_frames_before [] (hello_bytes ++ (0 ∷ 0 ∷ 2 ∷ 1 ∷ [])) ≡ frames (hello ∷ default_frame ∷ [])
to_frames_cut_example =
    to_frames_cut [] (hello ∷ []) 0 (0 ∷ 2 ∷ 1 ∷ []) 2 (omega arith) (hello-IsPlain, tt) one_frame
      refl (omega arith)

one_byte : to_frames_before (7 ∷ 7 ∷ []) (0 ∷ []) ≡ frames (default_frame ∷ [])
unfolding to_frames_before to_frames_loop decode
one_byte = refl

nothing_behind : to_frames (0 ∷ []) ≡ Parsed.fault
unfolding to_frames_before to_frames_loop
nothing_behind = refl
