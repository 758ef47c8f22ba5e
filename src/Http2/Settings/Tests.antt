-- ===== src/Http2/Settings/Tests.antt =====
-- Settings payloads, and the theorems at concrete settings.
use http_2_0_server.Base.{ℕ, ◌≡◌, refl, List, [], ◌∷◌, arith}
use http_2_0_server.Http2.Settings.{
  Settings, no_error, protocol_error, new_settings, encode, push_dirty, decode, after, apply,
  mark_clean,
}
use http_2_0_server.Http2.Settings.RoundTrip.{merged, decode-encode_settings}

abbrev changed : Settings
changed = record new_settings { enable_push = 0; max_frame_size = 20000; dirty = 0x12 }

abbrev changed_bytes : List ℕ
changed_bytes = 0 ∷ 2 ∷ 0 ∷ 0 ∷ 0 ∷ 0 ∷ 0 ∷ 5 ∷ 0 ∷ 0 ∷ 78 ∷ 32 ∷ []

changed_encoded : encode changed [] ≡ changed_bytes
unfolding encode push_dirty
changed_encoded = refl

changed_decoded :
    decode new_settings changed_bytes
    ≡ (record new_settings { enable_push = 0; max_frame_size = 20000 }, no_error)
unfolding decode after apply
changed_decoded = refl

-- An ENABLE_PUSH of 2 behind a valid parameter.
abbrev wrong_bytes : List ℕ
wrong_bytes = 0 ∷ 1 ∷ 0 ∷ 0 ∷ 0 ∷ 9 ∷ 0 ∷ 2 ∷ 0 ∷ 0 ∷ 0 ∷ 2 ∷ []

wrong_decoded :
    decode new_settings wrong_bytes
    ≡ (record new_settings { header_table_size = 9 }, protocol_error)
unfolding decode after apply
wrong_decoded = refl

unchanged_empty : encode (mark_clean changed) [] ≡ []
unfolding encode push_dirty mark_clean
unchanged_empty = refl

decode-encode_settings_example :
    decode new_settings (encode changed []) ≡ (merged new_settings changed, no_error)
decode-encode_settings_example = decode-encode_settings new_settings changed (omega arith)
