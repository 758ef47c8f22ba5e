-- ===== src/Util.antt =====
-- util.cpp and Utils/toHex.cpp: helpers on strings.
pub mod Percent
pub mod Query
mod Tests
use http_2_0_server.Base.{
  ℕ, zero, suc, ◌+◌, ◌-◌, ◌*◌, ◌/◌, ◌%◌, ◌<◌, Bool, true, false, not, ◌&&◌, ◌||◌, Option, none,
  some, List, [], ◌∷◌, ◌++◌, length, take, min, text, ltb, leb, ◌==◌, if◌then◌else◌,
}
use http_2_0_server.Base.Maps.{assign}

-- The characters " \t\n\r\f\v".
abbrev pub is_space : ℕ → Bool
is_space b = (b == 32) || (leb 9 b && leb b 13)

-- What is behind find_first_not_of.
unfoldable pub strip_front : List ℕ → List ℕ
strip_front [] = []
strip_front (b ∷ s) = let rest = strip_front s in if is_space b then rest else b ∷ s

-- What is up to find_last_not_of.
abbrev pub keep_back : ℕ → List ℕ → List ℕ
keep_back b [] = if is_space b then [] else b ∷ []
keep_back b (c ∷ rest) = b ∷ c ∷ rest

unfoldable pub strip_back : List ℕ → List ℕ
strip_back [] = []
strip_back (b ∷ s) = keep_back b (strip_back s)

-- Util::strip
unfoldable pub strip : List ℕ → List ℕ
strip s = strip_back (strip_front s)

-- toupper in the C locale, and Util::toUpper.
unfoldable pub to_upper : List ℕ → List ℕ
to_upper [] = []
to_upper (b ∷ s) = (if leb 97 b && leb b 122 then b - 32 else b) ∷ to_upper s

-- Util::toLower
unfoldable pub to_lower : List ℕ → List ℕ
to_lower [] = []
to_lower (b ∷ s) = (if leb 65 b && leb b 90 then b + 32 else b) ∷ to_lower s

-- A digit as std::stoi reads it in base 16.
unfoldable pub hex_value : ℕ → Option ℕ
hex_value b =
    if leb 48 b && leb b 57
    then some (b - 48)
    else if leb 65 b && leb b 70
    then some (b - 55)
    else if leb 97 b && leb b 102
    then some (b - 87)
    else none

abbrev pub one_or_two : Option ℕ → Option ℕ → Option ℕ
one_or_two none low = none
one_or_two (some high) none = some high
one_or_two (some high) (some low) = some (high * 16 + low)

abbrev pub negated : Option ℕ → Option ℕ
negated none = none
negated (some v) = some ((256 - v) % 256)

-- `static_cast<char>(std::stoi(hex, nullptr, 16))` on two characters: a space or a sign may stand in
-- front, and what follows the digits is ignored. `none` is std::invalid_argument.
unfoldable pub stoi_16 : ℕ → ℕ → Option ℕ
stoi_16 a b =
    if is_space a
    then hex_value b
    else if a == 43
    then hex_value b
    else if a == 45
    then negated (hex_value b)
    else one_or_two (hex_value a) (hex_value b)

abbrev pub put_char : Option ℕ → Option (List ℕ) → Option (List ℕ)
put_char none s = none
put_char (some b) none = none
put_char (some b) (some s) = some (b ∷ s)

-- The character of `decoded` for one that is no escape.
abbrev pub plain_char : ℕ → ℕ
plain_char b = if b == 43 then 32 else b

-- Util::percentDecode
unfoldable pub percent_decode : List ℕ → Option (List ℕ)
percent_decode [] = some []
percent_decode (c ∷ []) = some (plain_char c ∷ [])
percent_decode (c ∷ a ∷ []) = some (plain_char c ∷ plain_char a ∷ [])
percent_decode (c ∷ a ∷ b ∷ s) =
    let escaped = put_char (stoi_16 a b) (percent_decode s) in
    let plain = put_char (some (plain_char c)) (percent_decode (a ∷ b ∷ s)) in
    if c == 37 then escaped else plain

-- `find` of a character: what is in front of it, and what is behind it if it is there.
abbrev pub in_front : ℕ → List ℕ × Option (List ℕ) → List ℕ × Option (List ℕ)
in_front b (s, rest) = (b ∷ s, rest)

unfoldable pub cut : ℕ → List ℕ → List ℕ × Option (List ℕ)
cut code [] = ([], none)
cut code (b ∷ s) = let rest = cut code s in if b == code then ([], some s) else in_front b rest

abbrev pub assign_decoded :
    List (List ℕ × List ℕ) → Option (List ℕ) → Option (List ℕ) → Option (List (List ℕ × List ℕ))
assign_decoded params none v = none
assign_decoded params (some k) none = none
assign_decoded params (some k) (some v) = some (assign params (strip k) (strip v))

-- The part of the loop behind `param`.
abbrev pub add_param :
    List (List ℕ × List ℕ) → List ℕ × Option (List ℕ) → Option (List (List ℕ × List ℕ))
add_param params (key, none) = some params
add_param params (key, some value) =
    assign_decoded params (percent_decode key) (percent_decode value)

abbrev pub then_params :
    Option (List (List ℕ × List ℕ))
    → (List (List ℕ × List ℕ) → Option (List (List ℕ × List ℕ)))
    → Option (List (List ℕ × List ℕ))
then_params none next = none
then_params (some params) next = next params

-- One round of parseQueryString on `param` and what is behind it, `next` being the other rounds.
abbrev pub query_round :
    (List ℕ → List (List ℕ × List ℕ) → Option (List (List ℕ × List ℕ)))
    → List ℕ × Option (List ℕ)
    → List (List ℕ × List ℕ)
    → Option (List (List ℕ × List ℕ))
query_round next (param, none) params = add_param params (cut 61 param)
query_round next (param, some rest) params =
    then_params (add_param params (cut 61 param)) (λ params'. next rest params')

-- The loop of parseQueryString; each round takes a character at least, so one for each is enough,
-- and `none` is an exception.
unfoldable pub query_loop : ℕ → List ℕ → List (List ℕ × List ℕ) → Option (List (List ℕ × List ℕ))
query_loop fuel [] params = some params
query_loop zero (b ∷ s) params = none
query_loop (suc fuel) (b ∷ s) params =
    query_round (λ rest params'. query_loop fuel rest params') (cut 38 (b ∷ s)) params

-- Util::parseQueryString
unfoldable pub parse_query_string : List ℕ → Option (List (List ℕ × List ℕ))
parse_query_string query = query_loop (length query) query []

-- A digit of std::hex.
abbrev pub hex_digit : ℕ → ℕ
hex_digit v = if ltb v 10 then v + 48 else v + 87

-- toHex(byte)
unfoldable pub to_hex_byte : ℕ → List ℕ
to_hex_byte b = hex_digit (b / 16) ∷ hex_digit (b % 16) ∷ []

-- The loop of toHex from the byte number `i` on.
unfoldable pub hex_loop : ℕ → List ℕ → List ℕ
hex_loop i [] = []
hex_loop i (b ∷ data_bytes) =
    to_hex_byte b ++ 32 ∷ (if i % 16 == 15 then 10 ∷ [] else []) ++ hex_loop (suc i) data_bytes

-- toHex(data, length, maxLength)
unfoldable pub to_hex : List ℕ → ℕ → List ℕ
to_hex data_bytes max_length =
    hex_loop 0 (take max_length data_bytes)
    ++ (if ltb max_length (length data_bytes) then text "..." else [])
