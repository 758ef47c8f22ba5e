-- ===== src/Http2/Hpack/Huffman/Tests.antt =====
-- The Huffman code on an example of RFC 7541, C.4.1.
use http_2_0_server.Base.{ℕ, ◌≡◌, refl, List, [], ◌∷◌, text, arith}
use http_2_0_server.Http2.Hpack.Huffman.{
  encode_huffman, encode_loop, flush, last_byte, decode_huffman, decode_loop, scan_if, scan,
  find_entry, fits, pushed, Text,
}
use http_2_0_server.Http2.Hpack.Huffman.Codes.{k_huffman_table, low_entries, high_entries}
use http_2_0_server.Http2.Hpack.Huffman.RoundTrip.{decode-encode_huffman}

abbrev example : List ℕ
example = text "www.example.com"

abbrev example_bytes : List ℕ
example_bytes =
    0xf1 ∷ 0xe3 ∷ 0xc2 ∷ 0xe5 ∷ 0xf2 ∷ 0x3a ∷ 0x6b ∷ 0xa0 ∷ 0xab ∷ 0x90 ∷ 0xf4 ∷ 0xff ∷ []

example_encoded : encode_huffman example ≡ example_bytes
unfolding encode_huffman encode_loop flush last_byte k_huffman_table low_entries high_entries
example_encoded = refl

example_decoded : decode_huffman example_bytes ≡ pushed example
unfolding decode_huffman decode_loop scan_if scan find_entry fits k_huffman_table low_entries
    high_entries
example_decoded = refl

-- A whole byte of filling is refused.
long_filling : decode_huffman (0xff ∷ 0xff ∷ []) ≡ Text.refused
unfolding decode_huffman decode_loop scan_if scan find_entry fits k_huffman_table low_entries
    high_entries
long_filling = refl

decode-encode_huffman_example : decode_huffman (encode_huffman example) ≡ pushed example
decode-encode_huffman_example = decode-encode_huffman example (omega arith)
