-- ===== src/Http2/Settings.antt =====
-- http2/protocol/settings.h, settings.cc and error.h: the parameters of a connection and the
-- payload of a SETTINGS frame.
pub mod Invariant
pub mod RoundTrip
mod Tests
use http_2_0_server.Base.{
  ℕ, ◌+◌, ◌-◌, ◌*◌, ◌/◌, ◌%◌, ◌^◌, bit_and, bit_or, Bool, true, false, not, ◌&&◌, ◌||◌, Option,
  none, some, List, [], ◌∷◌, ◌++◌, ltb, leb, ◌==◌, if◌then◌else◌,
}

-- enum Error
pub data Error : Type 0 where
  no_error protocol_error internal_error flow_control_error settings_timeout stream_closed : Error
  frame_size_error refused_stream cancel compression_error connect_error : Error
  enhance_your_calm inadequate_security http_1_1_required : Error

-- enum SettingsType
abbrev pub settings_header_table_size : ℕ
settings_header_table_size = 1

abbrev pub settings_enable_push : ℕ
settings_enable_push = 2

abbrev pub settings_max_concurrent_streams : ℕ
settings_max_concurrent_streams = 3

abbrev pub settings_initial_window_size : ℕ
settings_initial_window_size = 4

abbrev pub settings_max_frame_size : ℕ
settings_max_frame_size = 5

abbrev pub settings_max_header_list_size : ℕ
settings_max_header_list_size = 6

pub record Settings : Type 0 where
  pub header_table_size : ℕ
  pub enable_push : ℕ
  pub max_concurrent_streams : ℕ
  pub initial_window_size : ℕ
  pub max_frame_size : ℕ
  pub max_header_list_size : ℕ
  pub dirty : ℕ

-- Settings::Settings()
abbrev pub new_settings : Settings
new_settings = record {
  header_table_size = 4096;
  enable_push = 1;
  max_concurrent_streams = 2 ^ 32 - 1;
  initial_window_size = 65535;
  max_frame_size = 16384;
  max_header_list_size = 2 ^ 32 - 1;
  dirty = 0;
}

-- `1U << (type - 1)`, the bit of `dirty_` for a parameter.
abbrev pub dirty_bit : ℕ → ℕ
dirty_bit type = 2 ^ (type - 1)

-- The setters. `none` is a failed assert.
unfoldable pub set_header_table_size : Settings → ℕ → Option Settings
set_header_table_size s v = some (record s {
  header_table_size = v;
  dirty = bit_or s.dirty (dirty_bit settings_header_table_size);
})

unfoldable pub set_enable_push : Settings → Bool → Option Settings
set_enable_push s v = some (record s {
  enable_push = if v then 1 else 0;
  dirty = bit_or s.dirty (dirty_bit settings_enable_push);
})

unfoldable pub set_max_concurrent_streams : Settings → ℕ → Option Settings
set_max_concurrent_streams s v = some (record s {
  max_concurrent_streams = v;
  dirty = bit_or s.dirty (dirty_bit settings_max_concurrent_streams);
})

unfoldable pub set_initial_window_size : Settings → ℕ → Option Settings
set_initial_window_size s v =
    if leb v 2147483647
    then some (record s {
      initial_window_size = v;
      dirty = bit_or s.dirty (dirty_bit settings_initial_window_size);
    })
    else none

unfoldable pub set_max_frame_size : Settings → ℕ → Option Settings
set_max_frame_size s v =
    if leb 16384 v && leb v 16777215
    then some (record s {
      max_frame_size = v;
      dirty = bit_or s.dirty (dirty_bit settings_max_frame_size);
    })
    else none

unfoldable pub set_max_header_list_size : Settings → ℕ → Option Settings
set_max_header_list_size s v = some (record s {
  max_header_list_size = v;
  dirty = bit_or s.dirty (dirty_bit settings_max_header_list_size);
})

-- The six `push_back` calls for one parameter.
abbrev pub parameter : ℕ → ℕ → List ℕ
parameter type value =
    (type / 2 ^ 8 % 256)
    ∷ (type % 256)
    ∷ (value / 2 ^ 24 % 256)
    ∷ (value / 2 ^ 16 % 256)
    ∷ (value / 2 ^ 8 % 256)
    ∷ (value % 256)
    ∷ []

-- One block of Settings::encode.
pub push_dirty : ℕ → ℕ → ℕ → List ℕ → List ℕ
push_dirty dirty type value output =
    if not (bit_and dirty (dirty_bit type) == 0) then output ++ parameter type value else output

-- Settings::encode
unfoldable pub encode : Settings → List ℕ → List ℕ
encode s output =
    let o1 = push_dirty s.dirty settings_header_table_size s.header_table_size output in
    let o2 = push_dirty s.dirty settings_enable_push s.enable_push o1 in
    let o3 = push_dirty s.dirty settings_max_concurrent_streams s.max_concurrent_streams o2 in
    let o4 = push_dirty s.dirty settings_initial_window_size s.initial_window_size o3 in
    let o5 = push_dirty s.dirty settings_max_frame_size s.max_frame_size o4 in
    push_dirty s.dirty settings_max_header_list_size s.max_header_list_size o5

-- Settings::mark_clean
unfoldable pub mark_clean : Settings → Settings
mark_clean s = record s { dirty = 0 }

-- The switch in Settings::decode: the settings after one parameter, and an error that ends it.
unfoldable pub apply : Settings → ℕ → ℕ → Settings × Error
apply s type value =
    if type == settings_header_table_size
    then (record s { header_table_size = value }, no_error)
    else if type == settings_enable_push
    then if not (value == 0) && not (value == 1)
      then (s, protocol_error)
      else (record s { enable_push = value }, no_error)
    else if type == settings_max_concurrent_streams
    then (record s { max_concurrent_streams = value }, no_error)
    else if type == settings_initial_window_size
    then if ltb 2147483647 value
      then (s, flow_control_error)
      else (record s { initial_window_size = value }, no_error)
    else if type == settings_max_frame_size
    then if ltb value 16384 || ltb 16777215 value
      then (s, protocol_error)
      else (record s { max_frame_size = value }, no_error)
    else if type == settings_max_header_list_size
    then (record s { max_header_list_size = value }, no_error)
    else (s, no_error)

-- The loop of Settings::decode goes on with `rest`, or returns the error.
pub after : Settings → Error → Settings × Error → Settings × Error
after s no_error rest = rest
after s e rest = (s, e)

-- Settings::decode: the settings are changed by the parameters in front of an error.
unfoldable pub decode : Settings → List ℕ → Settings × Error
decode s [] = (s, no_error)
decode s (p0 ∷ p1 ∷ p2 ∷ p3 ∷ p4 ∷ p5 ∷ p) =
    let applied = apply s (p0 * 2 ^ 8 + p1) (p2 * 2 ^ 24 + p3 * 2 ^ 16 + p4 * 2 ^ 8 + p5) in
    after applied.0 applied.1 (decode applied.0 p)
decode s _ = (s, frame_size_error)
