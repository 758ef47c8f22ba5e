-- ===== src/Http2/Headers.antt =====
-- http2/headers/headers.h and headers.cc: one header, and the list of a message's headers.
pub mod Lookup
pub mod Replace
mod Tests
use http_2_0_server.Base.{
  ℕ, ◌+◌, Bool, true, false, ◌&&◌, ◌||◌, List, [], ◌∷◌, ◌++◌, length, if◌then◌else◌, same,
}

pub record Header : Type 0 where
  pub name : List ℕ
  pub value : List ℕ

-- Header(n, v)
abbrev pub header : List ℕ → List ℕ → Header
header n v = record { name = n; value = v }

-- Header::size
unfoldable pub size : Header → ℕ
size h = 32 + length h.name + length h.value

-- operator== on Header
unfoldable pub same_header : Header → Header → Bool
same_header a b = same a.name b.name && same a.value b.value

-- Headers::every
unfoldable pub every : List Header → List ℕ → List (List ℕ)
every [] name = []
every (h ∷ hs) name = if same h.name name then h.value ∷ every hs name else every hs name

-- Headers::first
unfoldable pub first : List Header → List ℕ → Bool × List ℕ
first [] name = (false, [])
first (h ∷ hs) name = if same h.name name then (true, h.value) else first hs name

-- The loop of Headers::last over the result so far.
pub last_loop : Bool × List ℕ → List Header → List ℕ → Bool × List ℕ
last_loop result [] name = result
last_loop result (h ∷ hs) name =
    last_loop (if same h.name name then (true, h.value) else result) hs name

-- Headers::last
unfoldable pub last : List Header → List ℕ → Bool × List ℕ
last hs name = last_loop (false, []) hs name

-- Headers::add
unfoldable pub add : List Header → Header → List Header
add hs h = hs ++ (h ∷ [])

abbrev pub put_front : Header → List Header × Bool → List Header × Bool
put_front h r = (h ∷ r.0, r.1)

-- The loop of Headers::replace. `h` is what the parameter holds: once it has been moved into the
-- list, its strings are empty, as the standard libraries' moves leave them.
pub replace_loop : Bool → Header → List Header → List Header × Bool
replace_loop found h [] = ([], found)
replace_loop found h (x ∷ xs) =
    let erased = replace_loop found h xs in
    let written = put_front h (replace_loop true (header [] []) xs) in
    let passed = put_front x (replace_loop found h xs) in
    if same x.name h.name then (if found then erased else written) else passed

-- Headers::replace
unfoldable pub replace : List Header → Header → List Header
replace hs h = let (ys, found) = replace_loop false h hs in if found then ys else ys ++ (h ∷ [])

-- Headers::remove
unfoldable pub remove : List Header → List ℕ → List Header
remove [] name = []
remove (h ∷ hs) name = if same h.name name then remove hs name else h ∷ remove hs name

-- Headers::size
unfoldable pub total_size : List Header → ℕ
total_size [] = 0
total_size (h ∷ hs) = size h + total_size hs
