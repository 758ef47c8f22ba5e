-- ===== src/Http2/Hpack/Errors.antt =====
-- Header blocks that are refused.
use http_2_0_server.Http2.Hpack.Table.{Table}
