-- ===== src/Status.antt =====
-- http2/headers/statusCode.h and statusCode.cpp: the texts of status codes.
use http_2_0_server.Base.{ℕ, Option, none, some, List, [], ◌∷◌, ◌==◌, if◌then◌else◌, text}

-- enum Http2StatusCode
abbrev pub http2_ok : ℕ
http2_ok = 200

abbrev pub http2_no_content : ℕ
http2_no_content = 204

abbrev pub http2_bad_request : ℕ
http2_bad_request = 400

abbrev pub http2_unauthorized : ℕ
http2_unauthorized = 401

abbrev pub http2_forbidden : ℕ
http2_forbidden = 403

abbrev pub http2_not_found : ℕ
http2_not_found = 404

abbrev pub http2_internal_server_error : ℕ
http2_internal_server_error = 500

abbrev pub http2_not_implemented : ℕ
http2_not_implemented = 501

abbrev pub http2_service_unavailable : ℕ
http2_service_unavailable = 503

-- The map errorMessages.
abbrev pub error_messages : List (ℕ × List ℕ)
error_messages =
    (http2_ok, text "OK")
    ∷ (http2_no_content, text "No Content")
    ∷ (http2_bad_request, text "Bad Request")
    ∷ (http2_unauthorized, text "Unauthorized")
    ∷ (http2_forbidden, text "Forbidden")
    ∷ (http2_not_found, text "Not Found")
    ∷ (http2_internal_server_error, text "Internal Server Error")
    ∷ (http2_not_implemented, text "Not Implemented")
    ∷ (http2_service_unavailable, text "Service Unavailable")
    ∷ []

unfoldable pub find_message : List (ℕ × List ℕ) → ℕ → Option (List ℕ)
find_message [] code = none
find_message ((k, message) ∷ m) code =
    let rest = find_message m code in if k == code then some message else rest

unfoldable pub get_message : ℕ → List ℕ
get_message code = elim (find_message error_messages code) [
  | some message ↦ message
  | none ↦ text "Unknown Status Code"
]
