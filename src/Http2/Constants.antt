-- ===== src/Http2/Constants.antt =====
-- http2/protocol/constants.cc: the tokens of HTTP/2 and its connection preface.
use http_2_0_server.Base.{ℕ, List, [], ◌∷◌}

abbrev pub k_encrypted_token : List ℕ
k_encrypted_token = 0x68 ∷ 0x32 ∷ []

abbrev pub k_cleartext_token : List ℕ
k_cleartext_token = 0x68 ∷ 0x32 ∷ 0x63 ∷ []

abbrev pub k_connection_preface : List ℕ
k_connection_preface =
    0x50 ∷ 0x52 ∷ 0x49 ∷ 0x20 ∷ 0x2a ∷ 0x20 ∷ 0x48 ∷ 0x54 ∷ 0x54 ∷ 0x50 ∷ 0x2f ∷ 0x32 ∷ 0x2e ∷ 0x30
    ∷ 0x0d ∷ 0x0a ∷ 0x0d ∷ 0x0a ∷ 0x53 ∷ 0x4d ∷ 0x0d ∷ 0x0a ∷ 0x0d ∷ 0x0a ∷ []
