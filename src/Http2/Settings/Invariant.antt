-- ===== src/Http2/Settings/Invariant.antt =====
-- The limits of RFC 7540, 6.5.2, which every operation keeps.
use http_2_0_server.Base.{
  ℕ, ◌+◌, ◌*◌, ◌%◌, ◌^◌, ◌≤◌, ◌≡◌, refl, Bool, Option, none, some, List, [], ◌∷◌, length, arith,
}
use http_2_0_server.Http2.Settings.{
  Settings, Error, no_error, apply, decode, after, set_header_table_size, set_enable_push,
  set_max_concurrent_streams, set_initial_window_size, set_max_frame_size, set_max_header_list_size,
}

pub record IsValid (s : Settings) : Type 0 where
  pub push_flag : s.enable_push ≤ 1
  pub window : s.initial_window_size ≤ 2147483647
  pub frame_low : 16384 ≤ s.max_frame_size
  pub frame_high : s.max_frame_size ≤ 16777215

apply-IsValid : (s : Settings) (type value : ℕ) → IsValid s → IsValid (apply s type value).0
unfolding apply
apply-IsValid s type value v = ground arith

after-IsValid :
    (s : Settings) (e : Error) (r : Settings × Error)
    → IsValid s
    → IsValid r.0
    → IsValid (after s e r).0
unfolding after
after-IsValid s no_error r v w = w
after-IsValid s e r v w = v

-- Whatever the peer sends, and whether or not decoding it fails, the parameters stay within their
-- limits.
pub decode-IsValid : (s : Settings) (bs : List ℕ) → IsValid s → IsValid (decode s bs).0
unfolding decode
decode-IsValid s [] v = v
decode-IsValid s (p0 ∷ p1 ∷ p2 ∷ p3 ∷ p4 ∷ p5 ∷ p) v =
    let t = p0 * 2 ^ 8 + p1 in
    let n = p2 * 2 ^ 24 + p3 * 2 ^ 16 + p4 * 2 ^ 8 + p5 in
    let w = apply-IsValid s t n v in
    after-IsValid (apply s t n).0 (apply s t n).1 _ w (decode-IsValid (apply s t n).0 p w)
decode-IsValid s _ v = v

after-eq-no_error :
    (s : Settings) (e : Error) (r : Settings × Error)
    → (after s e r).1 ≡ no_error
    → (e ≡ no_error) × (r.1 ≡ no_error)
unfolding after
after-eq-no_error s no_error r h = (refl, h)
after-eq-no_error s e r h = cc

-- A payload that is decoded without an error is a whole number of parameters.
pub decode-length : (s : Settings) (bs : List ℕ) → (decode s bs).1 ≡ no_error → length bs % 6 ≡ 0
unfolding decode
decode-length s [] h = omega arith
decode-length s (p0 ∷ p1 ∷ p2 ∷ p3 ∷ p4 ∷ p5 ∷ p) h =
    let t = p0 * 2 ^ 8 + p1 in
    let n = p2 * 2 ^ 24 + p3 * 2 ^ 16 + p4 * 2 ^ 8 + p5 in
    let (a, b) = after-eq-no_error (apply s t n).0 (apply s t n).1 _ h in
    omega (arith, decode-length (apply s t n).0 p b)
decode-length s _ h = cc

abbrev pub Holds : Option Settings → Type 0
Holds none = Unit {0}
Holds (some s) = IsValid s

-- A setter that returns, and does not fail its assert, leaves the parameters within their limits.
pub setters-IsValid :
    (s : Settings) (v : ℕ) (b : Bool)
    → IsValid s
    → Holds (set_header_table_size s v)
      × Holds (set_enable_push s b)
      × Holds (set_max_concurrent_streams s v)
      × Holds (set_initial_window_size s v)
      × Holds (set_max_frame_size s v)
      × Holds (set_max_header_list_size s v)
unfolding set_header_table_size set_enable_push set_max_concurrent_streams set_initial_window_size
    set_max_frame_size set_max_header_list_size
setters-IsValid s v b h =
    (ground arith, ground arith, ground arith, ground arith, ground arith, ground arith)
