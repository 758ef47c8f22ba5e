-- ===== src/Util/Tests.antt =====
-- Runs of util.cpp and Utils/toHex.cpp.
use http_2_0_server.Base.{ℕ, ◌≡◌, refl, none, some, List, [], ◌∷◌, arith, text}
use http_2_0_server.Util.{
  strip, strip_front, strip_back, percent_decode, stoi_16, hex_value, parse_query_string, to_hex,
  hex_loop, to_hex_byte,
}
use http_2_0_server.Util.Query.{write_query, assign_all, IsParam, parse_query_string-write_query}

abbrev parameter : List ℕ × List ℕ
parameter = (97 ∷ [], 38 ∷ 61 ∷ [])

parameter-IsParam : IsParam parameter
unfolding strip strip_front strip_back
parameter-IsParam = record {
  key_bytes = (omega arith, tt);
  value_bytes = (omega arith, (omega arith, tt));
  key_stripped = refl;
  value_stripped = refl;
}

parse_query_string-write_query_example :
    parse_query_string (write_query (parameter ∷ parameter ∷ []))
    ≡ some (assign_all [] (parameter ∷ parameter ∷ []))
parse_query_string-write_query_example =
    parse_query_string-write_query (parameter ∷ parameter ∷ [])
      (parameter-IsParam, (parameter-IsParam, tt))

-- A sign is read as part of the number, and what is no digit raises an exception.
signed : percent_decode (text "%-1") ≡ some (255 ∷ [])
unfolding percent_decode stoi_16 hex_value
signed = refl

raised : percent_decode (text "100%zz") ≡ none
unfolding percent_decode stoi_16 hex_value
raised = refl

dumped : to_hex (10 ∷ 255 ∷ 1 ∷ []) 2 ≡ text "0a ff ..."
unfolding to_hex hex_loop to_hex_byte
dumped = refl
