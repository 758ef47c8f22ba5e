-- ===== src/Http2/Settings/RoundTrip.antt =====
-- What Settings::decode makes of the payload that Settings::encode writes.
use http_2_0_server.Base.{
  ℕ, ◌+◌, ◌*◌, ◌/◌, ◌%◌, ◌^◌, ◌≤◌, ◌<◌, ◌≡◌, refl, sym, ap, ◌∙◌, inl, inr, bit_and, Bool, List, [],
  ◌∷◌, ◌++◌, ◌==◌, not, arith, Bool-cases, if◌then◌else◌,
}
use http_2_0_server.Http2.Settings.{
  Settings, Error, no_error, apply, decode, after, encode, push_dirty, parameter, dirty_bit,
}
use http_2_0_server.Http2.Settings.Invariant.{IsValid}

-- Each parameter fits a uint32_t, and the limits hold.
pub record IsSettings (s : Settings) : Type 0 where
  pub valid : IsValid s
  pub table_word : s.header_table_size < 2 ^ 32
  pub streams_word : s.max_concurrent_streams < 2 ^ 32
  pub list_word : s.max_header_list_size < 2 ^ 32

after-no_error : (s : Settings) (r : Settings × Error) → after s no_error r ≡ r
unfolding after
after-no_error s r = refl

after_ok :
    (s t : Settings) (e : Error) (r : Settings × Error)
    → after s e r ≡ (t, no_error)
    → (e ≡ no_error) × (r ≡ (t, no_error))
unfolding after
after_ok s t no_error r h = (refl, h)
after_ok s t e r h = cc

-- Decoding goes on where the first part ended.
pub decode-append :
    (s t : Settings) (xs ys : List ℕ)
    → decode s xs ≡ (t, no_error)
    → decode s (xs ++ ys) ≡ decode t ys
unfolding decode
decode-append s t [] ys h = ap (λ s'. decode s' ys) (ap (λ r. r.0) h)
decode-append s t (p0 ∷ p1 ∷ p2 ∷ p3 ∷ p4 ∷ p5 ∷ p) ys h =
    let applied = apply s (p0 * 2 ^ 8 + p1) (p2 * 2 ^ 24 + p3 * 2 ^ 16 + p4 * 2 ^ 8 + p5) in
    let (a, b) = after_ok applied.0 t applied.1 _ h in
    ap (λ e. after applied.0 e (decode applied.0 (p ++ ys))) a
    ∙ after-no_error applied.0 (decode applied.0 (p ++ ys))
    ∙ decode-append applied.0 t p ys b
decode-append s t _ ys h = cc

type_bytes : (t : ℕ) → t < 2 ^ 16 → t / 2 ^ 8 % 256 * 2 ^ 8 + t % 256 ≡ t
type_bytes t h = omega arith

value_bytes :
    (v : ℕ)
    → v < 2 ^ 32
    → v / 2 ^ 24 % 256 * 2 ^ 24 + v / 2 ^ 16 % 256 * 2 ^ 16 + v / 2 ^ 8 % 256 * 2 ^ 8 + v % 256 ≡ v
value_bytes v h = omega arith

decode-parameter :
    (s t : Settings) (type value : ℕ)
    → type < 2 ^ 16
    → value < 2 ^ 32
    → apply s type value ≡ (t, no_error)
    → decode s (parameter type value) ≡ (t, no_error)
unfolding decode
decode-parameter s t type value ht hv h =
    rw (type_bytes type ht, value_bytes value hv, h) (after-no_error t (t, no_error))

-- A parameter is in the payload if its bit is set in `dirty_`.
abbrev pub is_dirty : Settings → ℕ → Bool
is_dirty s type = not (bit_and s.dirty (dirty_bit type) == 0)

-- One block of `encode`: `write v` is the receiver's settings with the parameter set to `v`.
decode-push_dirty :
    (b s : Settings) (write : ℕ → Settings) (dirty type value old : ℕ) (out : List ℕ)
    → decode b out ≡ (s, no_error)
    → type < 2 ^ 16
    → value < 2 ^ 32
    → apply s type value ≡ (write value, no_error)
    → write old ≡ s
    → decode b (push_dirty dirty type value out)
      ≡ (write (if not (bit_and dirty (dirty_bit type) == 0) then value else old), no_error)
unfolding push_dirty
decode-push_dirty b s write dirty type value old out h ht hv a e =
    elim (Bool-cases (not (bit_and dirty (dirty_bit type) == 0))) [
      | inl set ↦ rw set (
          decode-append b s out (parameter type value) h
          ∙ decode-parameter s (write value) type value ht hv a)
      | inr clean ↦ rw clean (h ∙ ap (λ s'. (s', no_error)) (sym e))
    ]

-- The receiver's settings `b` with every parameter of `s` that is marked as changed.
abbrev pub merged : Settings → Settings → Settings
merged b s = record b {
  header_table_size = if is_dirty s 1 then s.header_table_size else b.header_table_size;
  enable_push = if is_dirty s 2 then s.enable_push else b.enable_push;
  max_concurrent_streams =
      if is_dirty s 3 then s.max_concurrent_streams else b.max_concurrent_streams;
  initial_window_size = if is_dirty s 4 then s.initial_window_size else b.initial_window_size;
  max_frame_size = if is_dirty s 5 then s.max_frame_size else b.max_frame_size;
  max_header_list_size = if is_dirty s 6 then s.max_header_list_size else b.max_header_list_size;
}

decode-nil : (b : Settings) → decode b [] ≡ (b, no_error)
unfolding decode
decode-nil b = refl

apply_push : (s : Settings) (v : ℕ) → v ≤ 1 → apply s 2 v ≡ (record s { enable_push = v }, no_error)
unfolding apply
apply_push s v h = ground arith

apply_window :
    (s : Settings) (v : ℕ)
    → v ≤ 2147483647
    → apply s 4 v ≡ (record s { initial_window_size = v }, no_error)
unfolding apply
apply_window s v h = ground arith

apply_frame :
    (s : Settings) (v : ℕ)
    → 16384 ≤ v
    → v ≤ 16777215
    → apply s 5 v ≡ (record s { max_frame_size = v }, no_error)
unfolding apply
apply_frame s v lo hi = ground arith

-- A receiver with settings `b` that decodes what `encode` writes for settings within the limits
-- accepts it, takes over exactly the parameters that are marked as changed, and keeps its others.
pub decode-encode_settings :
    (b s : Settings) → IsSettings s → decode b (encode s []) ≡ (merged b s, no_error)
unfolding encode apply
decode-encode_settings b s v =
    let write1 = λ (n : ℕ). record b { header_table_size = n } in
    let h1 =
      decode-push_dirty b b write1 s.dirty 1 s.header_table_size b.header_table_size []
        (decode-nil b) (omega arith) v.table_word refl refl in
    let s1 : Settings =
      write1 (if is_dirty s 1 then s.header_table_size else b.header_table_size) in
    let o1 : List ℕ = push_dirty s.dirty 1 s.header_table_size [] in
    let write2 = λ (n : ℕ). record s1 { enable_push = n } in
    let h2 =
      decode-push_dirty b s1 write2 s.dirty 2 s.enable_push b.enable_push o1 h1 (omega arith)
        (omega (arith, v.valid.push_flag)) (apply_push s1 s.enable_push v.valid.push_flag) refl in
    let s2 : Settings = write2 (if is_dirty s 2 then s.enable_push else b.enable_push) in
    let o2 : List ℕ = push_dirty s.dirty 2 s.enable_push o1 in
    let write3 = λ (n : ℕ). record s2 { max_concurrent_streams = n } in
    let h3 =
      decode-push_dirty b s2 write3 s.dirty 3 s.max_concurrent_streams b.max_concurrent_streams o2
        h2 (omega arith) v.streams_word refl refl in
    let s3 : Settings =
      write3 (if is_dirty s 3 then s.max_concurrent_streams else b.max_concurrent_streams) in
    let o3 : List ℕ = push_dirty s.dirty 3 s.max_concurrent_streams o2 in
    let write4 = λ (n : ℕ). record s3 { initial_window_size = n } in
    let h4 =
      decode-push_dirty b s3 write4 s.dirty 4 s.initial_window_size b.initial_window_size o3 h3
        (omega arith) (omega (arith, v.valid.window))
        (apply_window s3 s.initial_window_size v.valid.window) refl in
    let s4 : Settings =
      write4 (if is_dirty s 4 then s.initial_window_size else b.initial_window_size) in
    let o4 : List ℕ = push_dirty s.dirty 4 s.initial_window_size o3 in
    let write5 = λ (n : ℕ). record s4 { max_frame_size = n } in
    let h5 =
      decode-push_dirty b s4 write5 s.dirty 5 s.max_frame_size b.max_frame_size o4 h4 (omega arith)
        (omega (arith, v.valid.frame_high))
        (apply_frame s4 s.max_frame_size v.valid.frame_low v.valid.frame_high) refl in
    let s5 : Settings = write5 (if is_dirty s 5 then s.max_frame_size else b.max_frame_size) in
    let o5 : List ℕ = push_dirty s.dirty 5 s.max_frame_size o4 in
    let write6 = λ (n : ℕ). record s5 { max_header_list_size = n } in
    let h6 =
      decode-push_dirty b s5 write6 s.dirty 6 s.max_header_list_size b.max_header_list_size o5 h5
        (omega arith) v.list_word refl refl in
    h6
