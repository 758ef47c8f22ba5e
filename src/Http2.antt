-- ===== src/Http2.antt =====
-- http2/: frames, settings, header lists and HPACK.
pub mod Frame
pub mod Settings
pub mod Names
pub mod Constants
pub mod Headers
pub mod Hpack
