-- ===== src/Http2/Names.antt =====
-- http2/headers/constants.cc: the names and values of headers that occur often.
use http_2_0_server.Base.{ℕ, List, text}

abbrev pub k_method : List ℕ
k_method = text ":method"

abbrev pub k_scheme : List ℕ
k_scheme = text ":scheme"

abbrev pub k_authority : List ℕ
k_authority = text ":authority"

abbrev pub k_path : List ℕ
k_path = text ":path"

abbrev pub k_status : List ℕ
k_status = text ":status"

abbrev pub k_accept_charset : List ℕ
k_accept_charset = text "accept-charset"

abbrev pub k_accept_encoding : List ℕ
k_accept_encoding = text "accept-encoding"

abbrev pub k_accept_language : List ℕ
k_accept_language = text "accept-language"

abbrev pub k_accept_ranges : List ℕ
k_accept_ranges = text "accept-ranges"

abbrev pub k_accept : List ℕ
k_accept = text "accept"

abbrev pub k_access_control_allow_origin : List ℕ
k_access_control_allow_origin = text "access-control-allow-origin"

abbrev pub k_age : List ℕ
k_age = text "age"

abbrev pub k_allow : List ℕ
k_allow = text "allow"

abbrev pub k_authorization : List ℕ
k_authorization = text "authorization"

abbrev pub k_cache_control : List ℕ
k_cache_control = text "cache-control"

abbrev pub k_content_disposition : List ℕ
k_content_disposition = text "content-disposition"

abbrev pub k_content_encoding : List ℕ
k_content_encoding = text "content-encoding"

abbrev pub k_content_language : List ℕ
k_content_language = text "content-language"

abbrev pub k_content_length : List ℕ
k_content_length = text "content-length"

abbrev pub k_content_location : List ℕ
k_content_location = text "content-location"

abbrev pub k_content_range : List ℕ
k_content_range = text "content-range"

abbrev pub k_content_type : List ℕ
k_content_type = text "content-type"

abbrev pub k_cookie : List ℕ
k_cookie = text "cookie"

abbrev pub k_date : List ℕ
k_date = text "date"

abbrev pub k_etag : List ℕ
k_etag = text "etag"

abbrev pub k_expect : List ℕ
k_expect = text "expect"

abbrev pub k_expires : List ℕ
k_expires = text "expires"

abbrev pub k_from : List ℕ
k_from = text "from"

abbrev pub k_host : List ℕ
k_host = text "host"

abbrev pub k_if_match : List ℕ
k_if_match = text "if-match"

abbrev pub k_if_modified_since : List ℕ
k_if_modified_since = text "if-modified-since"

abbrev pub k_if_none_match : List ℕ
k_if_none_match = text "if-none-match"

abbrev pub k_if_range : List ℕ
k_if_range = text "if-range"

abbrev pub k_if_unmodified_since : List ℕ
k_if_unmodified_since = text "if-unmodified-since"

abbrev pub k_last_modified : List ℕ
k_last_modified = text "last-modified"

abbrev pub k_link : List ℕ
k_link = text "link"

abbrev pub k_location : List ℕ
k_location = text "location"

abbrev pub k_max_forwards : List ℕ
k_max_forwards = text "max-forwards"

abbrev pub k_proxy_authenticate : List ℕ
k_proxy_authenticate = text "proxy-authenticate"

abbrev pub k_proxy_authorization : List ℕ
k_proxy_authorization = text "proxy-authorization"

abbrev pub k_range : List ℕ
k_range = text "range"

abbrev pub k_referer : List ℕ
k_referer = text "referer"

abbrev pub k_refresh : List ℕ
k_refresh = text "refresh"

abbrev pub k_retry_after : List ℕ
k_retry_after = text "retry-after"

abbrev pub k_server : List ℕ
k_server = text "server"

abbrev pub k_set_cookie : List ℕ
k_set_cookie = text "set-cookie"

abbrev pub k_strict_transport_security : List ℕ
k_strict_transport_security = text "strict-transport-security"

abbrev pub k_transfer_encoding : List ℕ
k_transfer_encoding = text "transfer-encoding"

abbrev pub k_user_agent : List ℕ
k_user_agent = text "user-agent"

abbrev pub k_vary : List ℕ
k_vary = text "vary"

abbrev pub k_via : List ℕ
k_via = text "via"

abbrev pub k_www_authenticate : List ℕ
k_www_authenticate = text "www-authenticate"

abbrev pub k_method_head : List ℕ
k_method_head = text "HEAD"

abbrev pub k_method_get : List ℕ
k_method_get = text "GET"

abbrev pub k_method_post : List ℕ
k_method_post = text "POST"

abbrev pub k_method_put : List ℕ
k_method_put = text "PUT"

abbrev pub k_method_delete : List ℕ
k_method_delete = text "DELETE"

abbrev pub k_method_options : List ℕ
k_method_options = text "OPTIONS"

abbrev pub k_scheme_http : List ℕ
k_scheme_http = text "http"

abbrev pub k_scheme_https : List ℕ
k_scheme_https = text "https"
