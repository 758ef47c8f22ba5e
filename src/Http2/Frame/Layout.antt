-- ===== src/Http2/Frame/Layout.antt =====
-- The extra fields of a payload, and the stages of Frame::decode that strip them.
use http_2_0_server.Base.{
  ℕ, suc, ◌+◌, ◌-◌, ◌*◌, ◌/◌, ◌%◌, ◌^◌, ◌≤◌, ◌<◌, ◌≡◌, refl, ◌∙◌, bit_and, Bool, true, false, not,
  Option, none, some, List, [], ◌∷◌, ◌++◌, append_assoc, length, le→ltb, arith, length-append,
  if◌then◌else◌, ◌==◌,
}
use native.Mathlib.Nat.{add-zero}
use http_2_0_server.Base.Bits.{bit_and_127, bit_and_128}
use http_2_0_server.Http2.Frame.{
  Frame, rejected, may_be_padded, may_have_priority, strip_padding, strip_priority, assign_payload,
}
use http_2_0_server.Http2.Frame.Stages.{assign_payload_short}

-- What a HEADERS frame says of its stream's priority.
pub record Priority : Type 0 where
  pub is_exclusive : Bool
  pub depends_on : ℕ
  pub weighs : ℕ

abbrev pub IsPriority : Option Priority → Type 0
IsPriority none = Unit {0}
IsPriority (some r) = (r.depends_on < 2 ^ 31) × (1 ≤ r.weighs) × (r.weighs ≤ 256)

-- The length of the padding is a byte.
abbrev pub IsPadding : Option (List ℕ) → Type 0
IsPadding none = Unit {0}
IsPadding (some padding) = length padding < 256

-- RFC 7540, 6.2: five bytes.
abbrev pub priority_bytes : Option Priority → List ℕ → List ℕ
priority_bytes none bs = bs
priority_bytes (some r) bs =
    ((if r.is_exclusive then 128 else 0) + r.depends_on / 2 ^ 24)
    ∷ (r.depends_on / 2 ^ 16 % 256)
    ∷ (r.depends_on / 2 ^ 8 % 256)
    ∷ (r.depends_on % 256)
    ∷ (r.weighs - 1)
    ∷ bs

-- A payload with its extra fields: the length of the padding, the priority, the body, the padding.
abbrev pub lay_out : Option (List ℕ) → Option Priority → List ℕ → List ℕ
lay_out none r body = priority_bytes r body
lay_out (some padding) r body = length padding ∷ priority_bytes r (body ++ padding)

abbrev pub is_some {ℓ} : {A : Type ℓ} → Option A → Bool
is_some none = false
is_some (some a) = true

-- The bytes that the extra fields take in front of the body.
abbrev pub extra_size : Option (List ℕ) → Option Priority → ℕ
extra_size pad r = (if is_some pad then 1 else 0) + (if is_some r then 5 else 0)

abbrev pub set_priority : Option Priority → Frame → Frame
set_priority none f = f
set_priority (some r) f = record f {
  has_priority = true;
  exclusive = r.is_exclusive;
  stream_dependency = r.depends_on;
  weight = r.weighs;
}

dependency_bytes :
    (b : Bool) (n : ℕ)
    → n < 2 ^ 31
    → bit_and ((if b then 128 else 0) + n / 2 ^ 24) 0x7f * 2 ^ 24
        + (n / 2 ^ 16 % 256) * 2 ^ 16
        + (n / 2 ^ 8 % 256) * 2 ^ 8
        + n % 256
      ≡ n
dependency_bytes true n h = rw (bit_and_127 (128 + n / 2 ^ 24) (omega arith)) (omega arith)
dependency_bytes false n h = rw (bit_and_127 (0 + n / 2 ^ 24) (omega arith)) (omega arith)

exclusive_bit :
    (b : Bool) (n : ℕ)
    → n < 2 ^ 31
    → not (bit_and ((if b then 128 else 0) + n / 2 ^ 24) 0x80 == 0) ≡ b
exclusive_bit true n h = rw (bit_and_128 (128 + n / 2 ^ 24) (omega arith)) (ground arith)
exclusive_bit false n h = rw (bit_and_128 (0 + n / 2 ^ 24) (omega arith)) (ground arith)

size_sub_exact : (n k : ℕ) → n + k < 2 ^ 64 → (n + k + 2 ^ 64 - k) % 2 ^ 64 ≡ n
size_sub_exact n k h = omega arith

size_sub_exact' : (n k : ℕ) → n + k < 2 ^ 63 → (n + suc k + 2 ^ 64 - (k + 1)) % 2 ^ 64 ≡ n
size_sub_exact' n k h = omega arith

-- The priority stage takes its five bytes, if they are announced, and hands the rest on.
strip_priority-priority_bytes :
    (f : Frame) (r : Option Priority) (p : List ℕ) (n start : ℕ)
    → IsPriority r
    → may_have_priority f ≡ is_some r
    → n < 2 ^ 32
    → start ≤ n
    → strip_priority f (priority_bytes r p) (n + (if is_some r then 5 else 0)) start
      ≡ assign_payload (set_priority r f) p n (start + (if is_some r then 5 else 0))
unfolding strip_priority
strip_priority-priority_bytes f none p n start v m b h = rw (m) (simp add-zero)
strip_priority-priority_bytes f (some r) p n start (d, lo, hi) m b h =
    let w : r.weighs - 1 + 1 ≡ r.weighs = omega arith in
    rw (
      m,
      le→ltb (n + 5) (5 + start) (omega arith),
      dependency_bytes r.is_exclusive r.depends_on d,
      exclusive_bit r.is_exclusive r.depends_on d,
      w,
      le→ltb r.weighs 1 lo,
      le→ltb 256 r.weighs hi,
      size_sub_exact n 5 (omega arith),
    )

priority_bytes-append :
    (r : Option Priority) (xs ys : List ℕ) → priority_bytes r xs ++ ys ≡ priority_bytes r (xs ++ ys)
priority_bytes-append none xs ys = refl
priority_bytes-append (some r) xs ys = refl

pub length-priority_bytes :
    (r : Option Priority) (xs : List ℕ)
    → length (priority_bytes r xs) ≡ length xs + (if is_some r then 5 else 0)
length-priority_bytes none xs = omega arith
length-priority_bytes (some r) xs = omega arith

priority_le_5 : (b : Bool) → (if b then 5 else 0) ≤ 5
priority_le_5 true = omega arith
priority_le_5 false = omega arith

-- The padding stage takes the length byte, if padding is announced, and drops the padding.
pub strip_padding-lay_out :
    (f : Frame) (pad : Option (List ℕ)) (r : Option Priority) (body rest : List ℕ)
    → IsPadding pad
    → IsPriority r
    → may_be_padded f ≡ is_some pad
    → may_have_priority f ≡ is_some r
    → length body < 2 ^ 31
    → (if is_some pad then 1 else 0) ≤ length body
    → (tail : List ℕ) × (strip_padding f (lay_out pad r body ++ rest) (length (lay_out pad r body))
        ≡ assign_payload (set_priority r f) (body ++ tail) (length body) (extra_size pad r))
unfolding strip_padding
strip_padding-lay_out f none r body rest v u p m b h = (
  rest,
  rw (p, priority_bytes-append r body rest, length-priority_bytes r body)
      (strip_priority-priority_bytes f r (body ++ rest) (length body) 0 u m (omega arith)
        (omega arith)),
)
strip_padding-lay_out f (some padding) r body rest v u p m b h = (
  padding ++ rest,
  let e : suc (length (priority_bytes r (body ++ padding))) ≡ n + suc (length padding) =
        omega (arith, length-priority_bytes r (body ++ padding), length-append body padding) in
      rw
        (
          p,
          e,
          priority_bytes-append r (body ++ padding) rest,
          append_assoc body padding rest,
          le→ltb ((n + suc (length padding) + 2 ^ 64 - 1) % 2 ^ 64) (length padding)
              (omega (arith, priority_le_5 (is_some r))),
          size_sub_exact' n (length padding) (omega (arith, priority_le_5 (is_some r))),
        )
        (strip_priority-priority_bytes f r (body ++ (padding ++ rest)) (length body) 1 u m
          (omega arith) h),
)
  where
    n : ℕ
    n = length body + (if is_some r then 5 else 0)

strip_priority_empty :
    (f : Frame) (r : Option Priority) (p : List ℕ)
    → may_have_priority f ≡ is_some r
    → strip_priority f p (if is_some r then 5 else 0) 1 ≡ rejected f
unfolding strip_priority
strip_priority_empty f none p m = rw m
strip_priority_empty f (some r) p m = rw m

-- A padded frame with an empty body.
strip_padding_empty :
    (f : Frame) (padding : List ℕ) (r : Option Priority) (rest : List ℕ)
    → length padding < 256
    → may_be_padded f ≡ true
    → may_have_priority f ≡ is_some r
    → strip_padding f (lay_out (some padding) r [] ++ rest) (length (lay_out (some padding) r []))
      ≡ rejected f
unfolding strip_padding
strip_padding_empty f padding r rest v p m =
    let n : ℕ = if is_some r then 5 else 0 in
    let e : suc (length (priority_bytes r padding)) ≡ n + suc (length padding) =
      omega (arith, length-priority_bytes r padding) in
    rw
      (
        p,
        e,
        le→ltb ((n + suc (length padding) + 2 ^ 64 - 1) % 2 ^ 64) (length padding)
            (omega (arith, priority_le_5 (is_some r))),
        size_sub_exact' n (length padding) (omega (arith, priority_le_5 (is_some r))),
      )
      (strip_priority_empty f r (priority_bytes r padding ++ rest) m)

pub strip_padding_short :
    (f : Frame) (pad : Option (List ℕ)) (r : Option Priority) (body rest : List ℕ)
    → IsPadding pad
    → IsPriority r
    → may_be_padded f ≡ is_some pad
    → may_have_priority f ≡ is_some r
    → length body < 2 ^ 31
    → length body < extra_size pad r
    → (g : Frame) × (strip_padding f (lay_out pad r body ++ rest) (length (lay_out pad r body))
        ≡ rejected g)
strip_padding_short f (some padding) r [] rest z u p m b k =
    (f, strip_padding_empty f padding r rest z p m)
strip_padding_short f none r body rest z u p m b k =
    let (tail, step) = strip_padding-lay_out f none r body rest z u p m b (omega arith) in
    (
      set_priority r f,
      step ∙ assign_payload_short (set_priority r f) (body ++ tail) (length body) _ k,
    )
strip_padding_short f (some padding) r (x ∷ body) rest z u p m b k =
    let (tail, step) =
      strip_padding-lay_out f (some padding) r (x ∷ body) rest z u p m b (omega arith) in
    (
      set_priority r f,
      step ∙ assign_payload_short (set_priority r f) (x ∷ body ++ tail) (suc (length body)) _ k,
    )
