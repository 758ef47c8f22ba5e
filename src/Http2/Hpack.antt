-- ===== src/Http2/Hpack.antt =====
-- http2/protocol/hpack/: the compression of header lists.
pub mod Integer
pub mod Table
pub mod Huffman
pub mod Decoder
pub mod Encoder
pub mod Strings
pub mod RoundTrip
pub mod Blocks
pub mod Sizes
pub mod Errors
pub mod Parts
pub mod Safety
mod Tests
