-- ===== src/Http2/Hpack/Table/Static.antt =====
-- hpack-table.cc: the HPACK static table.
use http_2_0_server.Base.{List, [], ◌∷◌, text}
use http_2_0_server.Http2.Headers.{Header, header}
use http_2_0_server.Http2.Names.{
  k_authority, k_method, k_method_get, k_method_post, k_path, k_scheme, k_scheme_http,
  k_scheme_https, k_status, k_accept_charset, k_accept_encoding, k_accept_language, k_accept_ranges,
  k_accept, k_access_control_allow_origin, k_age, k_allow, k_authorization, k_cache_control,
  k_content_disposition, k_content_encoding, k_content_language, k_content_length,
  k_content_location, k_content_range, k_content_type, k_cookie, k_date, k_etag, k_expect,
  k_expires, k_from, k_host, k_if_match, k_if_modified_since, k_if_none_match, k_if_range,
  k_if_unmodified_since, k_last_modified, k_link, k_location, k_max_forwards, k_proxy_authenticate,
  k_proxy_authorization, k_range, k_referer, k_refresh, k_retry_after, k_server, k_set_cookie,
  k_strict_transport_security, k_transfer_encoding, k_user_agent, k_vary, k_via, k_www_authenticate,
}

-- static_table(); index 0 is not used.
unfoldable pub static_table : List Header
static_table =
    header [] []
    ∷ header k_authority []
    ∷ header k_method k_method_get
    ∷ header k_method k_method_post
    ∷ header k_path (text "/")
    ∷ header k_path (text "/index.html")
    ∷ header k_scheme k_scheme_http
    ∷ header k_scheme k_scheme_https
    ∷ header k_status (text "200")
    ∷ header k_status (text "204")
    ∷ header k_status (text "206")
    ∷ header k_status (text "304")
    ∷ header k_status (text "400")
    ∷ header k_status (text "404")
    ∷ header k_status (text "500")
    ∷ header k_accept_charset []
    ∷ header k_accept_encoding (text "gzip, deflate")
    ∷ header k_accept_language []
    ∷ header k_accept_ranges []
    ∷ header k_accept []
    ∷ header k_access_control_allow_origin []
    ∷ header k_age []
    ∷ header k_allow []
    ∷ header k_authorization []
    ∷ header k_cache_control []
    ∷ header k_content_disposition []
    ∷ header k_content_encoding []
    ∷ header k_content_language []
    ∷ header k_content_length []
    ∷ header k_content_location []
    ∷ header k_content_range []
    ∷ header k_content_type []
    ∷ header k_cookie []
    ∷ header k_date []
    ∷ header k_etag []
    ∷ header k_expect []
    ∷ header k_expires []
    ∷ header k_from []
    ∷ header k_host []
    ∷ header k_if_match []
    ∷ header k_if_modified_since []
    ∷ header k_if_none_match []
    ∷ header k_if_range []
    ∷ header k_if_unmodified_since []
    ∷ header k_last_modified []
    ∷ header k_link []
    ∷ header k_location []
    ∷ header k_max_forwards []
    ∷ header k_proxy_authenticate []
    ∷ header k_proxy_authorization []
    ∷ header k_range []
    ∷ header k_referer []
    ∷ header k_refresh []
    ∷ header k_retry_after []
    ∷ header k_server []
    ∷ header k_set_cookie []
    ∷ header k_strict_transport_security []
    ∷ header k_transfer_encoding []
    ∷ header k_user_agent []
    ∷ header k_vary []
    ∷ header k_via []
    ∷ header k_www_authenticate []
    ∷ []
