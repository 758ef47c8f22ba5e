-- ===== src/Http2/Hpack/Tests.antt =====
-- Header blocks, and the theorems on them at concrete headers.
use http_2_0_server.Base.{ℕ, ◌≡◌, refl, some, List, [], ◌∷◌, arith, text}
use http_2_0_server.Http2.Names.{k_cookie, k_method, k_method_get}
use http_2_0_server.Http2.Headers.{Header, header, total_size}
use http_2_0_server.Http2.Hpack.Table.{Table, new_table}
use http_2_0_server.Http2.Hpack.Table.Eviction.{IsTable}
use http_2_0_server.Http2.Hpack.Decoder.{decoded, decode_lowmem}
use http_2_0_server.Http2.Hpack.Encoder.{Encoder, encode_all}
use http_2_0_server.Http2.Hpack.Blocks.{decode_lowmem-encode_all}
use http_2_0_server.Http2.Hpack.Safety.{IsBlock, decode_lowmem-IsBlock}

abbrev encoder : Encoder
encoder = record { table = new_table; sensitive = k_cookie ∷ [] }

-- A match of a whole header, a sensitive one, and one with a new name.
abbrev three : List Header
three =
    header k_method k_method_get
    ∷ header k_cookie (text "a=1")
    ∷ header (text "x-new") (text "yes")
    ∷ []

new_table-IsTable : IsTable new_table
unfolding total_size
new_table-IsTable = record { exact = refl; within = omega arith; max_word = omega arith }

decode_lowmem-encode_all_example :
    (bs : List ℕ) × (t' : Table) × (encode_all encoder three ≡ some bs)
    × (decode_lowmem new_table bs ≡ decoded t' three)
    × IsTable t'
decode_lowmem-encode_all_example =
    decode_lowmem-encode_all encoder three new_table refl new_table-IsTable (omega arith)

-- Bytes that end inside an integer.
decode_lowmem-IsBlock_example :
    IsBlock (0x82 ∷ 0x7f ∷ 0x81 ∷ []) (decode_lowmem new_table (0x82 ∷ 0x7f ∷ 0x81 ∷ []))
decode_lowmem-IsBlock_example =
    decode_lowmem-IsBlock new_table (0x82 ∷ 0x7f ∷ 0x81 ∷ []) new_table-IsTable (omega arith)
      (omega arith, (omega arith, (omega arith, tt)))
