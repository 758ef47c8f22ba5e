-- ===== src/Content/Mime.antt =====
-- ResponseData::getMimeType depends on the extension of a path and not on its case.
use http_2_0_server.Base.{
  ℕ, ◌≡◌, ◌≢◌, refl, true, false, none, some, List, [], ◌∷◌, ◌++◌, All, arith, ◌==◌,
}
use http_2_0_server.Content.{lower_code, lower_text, behind_last, get_mime_type}

lower_code-twice : (b : ℕ) → lower_code (lower_code b) ≡ lower_code b
unfolding lower_code
lower_code-twice b = ground arith

lower_text-twice : (s : List ℕ) → lower_text (lower_text s) ≡ lower_text s
unfolding lower_text
lower_text-twice [] = refl
lower_text-twice (b ∷ s) = rw (lower_code-twice b, lower_text-twice s) refl

behind_last-none : (code : ℕ) (s : List ℕ) → All (λ b. b ≢ code) s → behind_last code s ≡ none
unfolding behind_last
behind_last-none code [] h = refl
behind_last-none code (b ∷ s) h =
    let e : (b == code) ≡ false = ground (arith, h.0) in rw (behind_last-none code s h.1, e) refl

behind_last-append :
    (code : ℕ) (front ext : List ℕ)
    → All (λ b. b ≢ code) ext
    → behind_last code (front ++ code ∷ ext) ≡ some ext
unfolding behind_last
behind_last-append code [] ext h =
    let e : (code == code) ≡ true = ground arith in rw (behind_last-none code ext h, e) refl
behind_last-append code (b ∷ front) ext h = rw (behind_last-append code front ext h) refl

lower_code-dot : (b : ℕ) → b ≢ 46 → lower_code b ≢ 46
unfolding lower_code
lower_code-dot b n = ground (arith, n)

lower_text-dot : (s : List ℕ) → All (λ b. b ≢ 46) s → All (λ b. b ≢ 46) (lower_text s)
unfolding lower_text
lower_text-dot [] h = tt
lower_text-dot (b ∷ s) h = (lower_code-dot b h.0, lower_text-dot s h.1)

-- Two paths whose extensions differ in case only, whatever stands before the last dot, have the
-- same type.
pub get_mime_type-lower_text :
    (front other ext : List ℕ)
    → All (λ b. b ≢ 46) ext
    → get_mime_type (front ++ 46 ∷ ext) ≡ get_mime_type (other ++ 46 ∷ lower_text ext)
unfolding get_mime_type
get_mime_type-lower_text front other ext h =
    let e = behind_last-append 46 front ext h in
    let d = behind_last-append 46 other (lower_text ext) (lower_text-dot ext h) in
    rw (e, get_mime_type, d, lower_text-twice ext) refl
