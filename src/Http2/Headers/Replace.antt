-- ===== src/Http2/Headers/Replace.antt =====
-- What Headers::replace does to the values of every name.
use http_2_0_server.Base.{
  ℕ, ◌≡◌, refl, ap, Bool, true, false, List, [], ◌∷◌, ◌++◌, Bool-cases, inl, inr, if◌then◌else◌,
  same, All, same_iff, arith, ◌≢◌,
}
use http_2_0_server.Http2.Headers.{Header, header, every, replace, replace_loop, put_front}

-- No header has the empty name, which HTTP/2 forbids.
abbrev pub Named : List Header → Type 0
Named hs = All (λ h. h.name ≢ []) hs

abbrev pub rest_of : List (List ℕ) → List (List ℕ)
rest_of [] = []
rest_of (v ∷ vs) = vs

-- Once the first header has been written, the emptied parameter matches nothing.
replace_loop_found :
    (hs : List Header) → Named hs → replace_loop true (header [] []) hs ≡ (hs, true)
unfolding replace_loop
replace_loop_found [] n = refl
replace_loop_found (h ∷ hs) n = ground (arith, same_iff h.name [], replace_loop_found hs n.1)

finish : Header → List Header × Bool → List Header
finish h r = if r.1 then r.0 else r.0 ++ (h ∷ [])

finish-put_front :
    (x h : Header) (r : List Header × Bool) → finish h (put_front x r) ≡ x ∷ finish h r
unfolding finish
finish-put_front x h r = ground arith

-- The list after the loop and the last statement, for the values of each name.
every-finish :
    (hs : List Header) (h : Header) (name : List ℕ)
    → Named hs
    → every (finish h (replace_loop false h hs)) name
      ≡ (if same h.name name then h.value ∷ rest_of (every hs name) else every hs name)
unfolding replace_loop every
every-finish [] h name n = unfold finish in refl
every-finish (x ∷ hs) h name n = elim (Bool-cases (same x.name h.name)) [
  | inl hit ↦
      rw (hit, replace_loop_found hs n.1)
        (unfold finish in
          ground (arith, same_iff x.name h.name, same_iff x.name name, same_iff h.name name, hit))
  | inr miss ↦
      rw (miss, finish-put_front x h (replace_loop false h hs))
        (ground (
          arith,
          miss,
          same_iff x.name h.name,
          same_iff x.name name,
          same_iff h.name name,
          every-finish hs h name n.1,
        ))
]

-- On headers with names, `replace` puts the new value in the place of the first value of its name,
-- or at the end if there is none, and changes no other name; but it keeps every further value of
-- its name, since the name that it compares with has been moved into the list.
pub every-replace :
    (hs : List Header) (h : Header) (name : List ℕ)
    → Named hs
    → every (replace hs h) name
      ≡ (if same h.name name then h.value ∷ rest_of (every hs name) else every hs name)
unfolding replace finish
every-replace hs h name n = every-finish hs h name n

-- `zs` is `hs` with `h` in the place of the first header of its name, or behind the last header if
-- there is none.
pub data Replaced (h : Header) (hs zs : List Header) : Type 0 where
  written :
      (xs : List Header) (x : Header) (ys : List Header)
      → All (λ y. y.name ≢ h.name) xs
      → x.name ≡ h.name
      → hs ≡ xs ++ (x ∷ ys)
      → zs ≡ xs ++ (h ∷ ys)
      → Replaced h hs zs
  added : All (λ y. y.name ≢ h.name) hs → zs ≡ hs ++ (h ∷ []) → Replaced h hs zs

cons-Replaced :
    (x h : Header) (hs zs : List Header)
    → x.name ≢ h.name
    → Replaced h hs zs
    → Replaced h (x ∷ hs) (x ∷ zs)
cons-Replaced x h hs zs n (written xs y ys a e p q) =
    written (x ∷ xs) y ys (n, a) e (ap (◌∷◌ x) p) (ap (◌∷◌ x) q)
cons-Replaced x h hs zs n (added a q) = added (n, a) (ap (◌∷◌ x) q)

finish-Replaced :
    (hs : List Header) (h : Header) → Named hs → Replaced h hs (finish h (replace_loop false h hs))
unfolding replace_loop
finish-Replaced [] h n = added tt (unfold finish in refl)
finish-Replaced (x ∷ hs) h n = elim (Bool-cases (same x.name h.name)) [
  | inl hit ↦
      rw (hit, replace_loop_found hs n.1)
        (written [] x hs tt ((same_iff x.name h.name).0 hit) refl (unfold finish in refl))
  | inr miss ↦
      rw (miss, finish-put_front x h (replace_loop false h hs))
        (cons-Replaced x h hs _ (λ e. ground (arith, miss, (same_iff x.name h.name).1 e))
          (finish-Replaced hs h n.1))
]

-- On headers with names, `replace` writes the header in the place of the first one of its name, or
-- behind the last header if there is none, and changes nothing else: it keeps every further header
-- of the name, since the name that it compares with has been moved into the list.
pub replace-Replaced : (hs : List Header) (h : Header) → Named hs → Replaced h hs (replace hs h)
unfolding replace finish
replace-Replaced hs h n = finish-Replaced hs h n
