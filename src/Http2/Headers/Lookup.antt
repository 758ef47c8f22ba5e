-- ===== src/Http2/Headers/Lookup.antt =====
-- Lookups in a header list, and how `add` and `remove` change them.
use http_2_0_server.Base.{
  ℕ, ◌≡◌, refl, ◌∙◌, Bool, true, false, List, [], ◌∷◌, ◌++◌, if◌then◌else◌, same, same_iff, arith,
}
use http_2_0_server.Http2.Headers.{Header, every, first, last, last_loop, add, remove}

abbrev pub head_or : List (List ℕ) → Bool × List ℕ
head_or [] = (false, [])
head_or (v ∷ vs) = (true, v)

abbrev pub back_or : Bool × List ℕ → List (List ℕ) → Bool × List ℕ
back_or r [] = r
back_or r (v ∷ vs) = back_or (true, v) vs

first-head_or : (hs : List Header) (name : List ℕ) → first hs name ≡ head_or (every hs name)
unfolding first every
first-head_or [] name = refl
first-head_or (h ∷ hs) name = ground (arith, first-head_or hs name)

last_loop-back_or :
    (r : Bool × List ℕ) (hs : List Header) (name : List ℕ)
    → last_loop r hs name ≡ back_or r (every hs name)
unfolding last_loop every
last_loop-back_or r [] name = refl
last_loop-back_or r (h ∷ hs) name =
    ground (arith, last_loop-back_or r hs name, last_loop-back_or (true, h.value) hs name)

-- `every` lists a name's values in order, and `first` and `last` are its two ends; without a value
-- they return false and the empty string.
pub first-last-every :
    (hs : List Header) (name : List ℕ)
    → (first hs name ≡ head_or (every hs name))
      × (last hs name ≡ back_or (false, []) (every hs name))
unfolding last
first-last-every hs name = (first-head_or hs name, last_loop-back_or (false, []) hs name)

pub every-append :
    (hs gs : List Header) (name : List ℕ) → every (hs ++ gs) name ≡ every hs name ++ every gs name
unfolding every
every-append [] gs name = refl
every-append (h ∷ hs) gs name = ground (arith, every-append hs gs name)

-- `add` appends one value to the values of its name, and changes no other name.
pub every-add :
    (hs : List Header) (h : Header) (name : List ℕ)
    → every (add hs h) name ≡ every hs name ++ (if same h.name name then h.value ∷ [] else [])
unfolding add
every-add hs h name = every-append hs (h ∷ []) name ∙ unfold every in refl

-- `remove` leaves no value of its name, and every value of each other name.
pub every-remove :
    (hs : List Header) (name other : List ℕ)
    → every (remove hs name) other ≡ (if same name other then [] else every hs other)
unfolding every remove
every-remove [] name other = ground arith
every-remove (h ∷ hs) name other = ground (
  arith,
  same_iff h.name name,
  same_iff h.name other,
  same_iff name other,
  every-remove hs name other,
)
