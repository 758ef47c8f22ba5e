-- ===== src/Http2/Hpack/Integer/Tests.antt =====
-- Integers of RFC 7541, C.1, and the theorems at concrete bytes.
use http_2_0_server.Base.{ℕ, ◌≤◌, ◌<◌, ◌^◌, ◌≡◌, refl, some, List, [], ◌∷◌, ◌++◌, length, arith}
use http_2_0_server.Http2.Hpack.Integer.{
  encode_integer, encode_groups, decode_integer, decode_groups, result,
}
use http_2_0_server.Http2.Hpack.Integer.RoundTrip.{decode-encode_integer}
use http_2_0_server.Http2.Hpack.Integer.Bounds.{decode_integer_bounds}

-- RFC 7541, C.1.2: 1337 with 5 bits.
encode_1337 : encode_integer 0 5 1337 ≡ some (31 ∷ 154 ∷ 10 ∷ [])
unfolding encode_integer encode_groups
encode_1337 = refl

decode_1337 : decode_integer (31 ∷ 154 ∷ 10 ∷ 5 ∷ []) 5 ≡ result 3 1337
unfolding decode_integer decode_groups
decode_1337 = refl

decode-encode_integer_example :
    (bs : List ℕ) × (encode_integer 0x40 6 1337 ≡ some bs)
    × (decode_integer (bs ++ (5 ∷ [])) 6 ≡ result (length bs) 1337)
decode-encode_integer_example =
    decode-encode_integer 0x40 6 1337 (5 ∷ [])
      (record {
        some_bit = omega arith;
        in_byte = omega arith;
        high_byte = omega arith;
        high = refl;
      })
      (omega arith)

decode_integer_bounds_example : (3 ≤ 4) × (1337 < 2 ^ 32)
decode_integer_bounds_example =
    decode_integer_bounds (31 ∷ 154 ∷ 10 ∷ 5 ∷ []) 5 3 1337 (omega arith) (omega arith)
      (omega arith) decode_1337
