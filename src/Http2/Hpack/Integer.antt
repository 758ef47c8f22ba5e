-- ===== src/Http2/Hpack/Integer.antt =====
-- decode_integer of hpack-decode.cc and encode_integer of hpack-encode.cc: integers of a few bits
-- in the first byte, and seven bits in each byte that follows.
pub mod Masks
pub mod RoundTrip
pub mod Bounds
mod Tests
use http_2_0_server.Base.{
  ℕ, zero, suc, ◌+◌, ◌-◌, ◌*◌, ◌/◌, ◌%◌, ◌^◌, bit_and, bit_or, ◌||◌, Option, none, some, List, [],
  ◌∷◌, ◌++◌, ltb, ◌==◌, if◌then◌else◌,
}

-- `(1U << numbits) - 1`, narrowed to a byte.
abbrev pub mask : ℕ → ℕ
mask numbits = (2 ^ numbits - 1) % 256

-- The while loop of encode_integer and its last push_back; `none` would be a loop without an end. `value & 0x7f` is the remainder by 2 ^ 7, and `value >>= 7` the quotient.
unfoldable pub encode_groups : ℕ → ℕ → Option (List ℕ)
encode_groups zero value = none
encode_groups (suc fuel) value =
    let more = encode_groups fuel (value / 2 ^ 7) in
    if ltb value 0x80
    then some (value ∷ [])
    else (elim more [ none ↦ none | some bs ↦ some (bit_or 0x80 (value % 2 ^ 7) ∷ bs) ])

-- encode_integer: the bytes that it appends. A uint32_t has five groups of seven bits at most.
unfoldable pub encode_integer : ℕ → ℕ → ℕ → Option (List ℕ)
encode_integer hibits numbits value =
    if ltb value (mask numbits)
    then some (bit_or value hibits % 256 ∷ [])
    else (elim (encode_groups 5 (value - mask numbits)) [
      | none ↦ none
      | some bs ↦ some (bit_or (mask numbits) hibits ∷ bs)
    ])

-- The number of bytes to advance and the output; failure is `result 0 0`. `undefined` stands for
-- C++'s undefined behaviour: a shift of an int by 32 or more, or an overflow of its multiplication.
pub data Read : Type 0 where
  result : ℕ → ℕ → Read
  undefined : Read

-- The do-while loop: `n` bytes have been read.
unfoldable pub decode_groups : List ℕ → ℕ → ℕ → ℕ → Read
decode_groups [] output shift n = result 0 0
decode_groups (byte ∷ bs) output shift n =
    let term = bit_and byte 0x7f * 2 ^ shift in
    let output' = (output + term) % 2 ^ 32 in
    let more = decode_groups bs output' (shift + 7) (n + 1) in
    if ltb 31 shift || ltb 2147483647 term
    then undefined
    else if bit_and byte 0x80 == 0
    then result (n + 1) output'
    else more

-- decode_integer
unfoldable pub decode_integer : List ℕ → ℕ → Read
decode_integer [] numbits = result 0 0
decode_integer (byte ∷ bs) numbits =
    let first = bit_and byte (mask numbits) in
    let more = decode_groups bs first 0 1 in if first == mask numbits then more else result 1 first
