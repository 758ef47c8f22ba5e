-- ===== src/Base/Maps.antt =====
-- std::map with std::string for its keys: a list in the order of the keys.
use Prim.Native.Nat.{ℕ}
use mathlib.Core.Path.{◌≡◌, refl, sym, ◌∙◌}
use mathlib.Core.Logic.{inl, inr}
use mathlib.Core.Bool.{Bool, true, false}
use mathlib.Core.Option.{Option, none, some}
use mathlib.Core.List.{List, [], ◌∷◌}
use native.Mathlib.Omega.{arith}
use http_2_0_server.Base.Tests.{◌==◌, ltb, if◌then◌else◌, Bool-cases}
use http_2_0_server.Base.Texts.{same, same_iff}

-- operator< on std::string
unfoldable pub before : List ℕ → List ℕ → Bool
before xs [] = false
before [] (y ∷ ys) = true
before (x ∷ xs) (y ∷ ys) = let rest = before xs ys in if x == y then rest else ltb x y

pub before_irrefl : (xs : List ℕ) → before xs xs ≡ false
unfolding before
before_irrefl [] = refl
before_irrefl (x ∷ xs) = ground (arith, before_irrefl xs)

pub before_trans :
    (xs ys zs : List ℕ) → before xs ys ≡ true → before ys zs ≡ true → before xs zs ≡ true
unfolding before
before_trans xs [] zs h k = absurd (ground (arith, h))
before_trans xs (y ∷ ys) [] h k = absurd (ground (arith, k))
before_trans [] (y ∷ ys) (z ∷ zs) h k = refl
before_trans (x ∷ xs) (y ∷ ys) (z ∷ zs) h k = ground (arith, before_trans xs ys zs, h, k)

-- Two keys neither of which stands before the other are equal.
pub before_total :
    (xs ys : List ℕ) → before xs ys ≡ false → same ys xs ≡ false → before ys xs ≡ true
unfolding before same
before_total [] [] h n = absurd (ground (arith, n))
before_total [] (y ∷ ys) h n = absurd (ground (arith, h))
before_total (x ∷ xs) [] h n = refl
before_total (x ∷ xs) (y ∷ ys) h n = ground (arith, before_total xs ys, h, n)

module _ {ℓ} {A : Type ℓ} where
  unfoldable pub find : List (List ℕ × A) → List ℕ → Option A
  find [] k = none
  find ((j, v) ∷ m) k = let rest = find m k in if same j k then some v else rest

  unfoldable pub erase : List (List ℕ × A) → List ℕ → List (List ℕ × A)
  erase [] k = []
  erase ((j, v) ∷ m) k = let rest = erase m k in if same j k then rest else (j, v) ∷ rest

  -- `m[k] = v`
  unfoldable pub assign : List (List ℕ × A) → List ℕ → A → List (List ℕ × A)
  assign [] k v = (k, v) ∷ []
  assign ((j, w) ∷ m) k v =
      let rest = assign m k v in
      if before k j then (k, v) ∷ (j, w) ∷ m else if same j k then (k, v) ∷ m else (j, w) ∷ rest

  swap_tests :
      (j k i : List ℕ) (x y z : Option A)
      → same j k ≡ false
      → (if same j i then y else if same k i then x else z)
        ≡ (if same k i then x else if same j i then y else z)
  swap_tests j k i x y z n = elim (Bool-cases (same j i)) [
    | inl a ↦ elim (Bool-cases (same k i)) [
      | inl b ↦
          let e : j ≡ k = (same_iff j i).0 a ∙ sym ((same_iff k i).0 b) in
          absurd (ground (arith, n, (same_iff j k).1 e))
      | inr b ↦ rw (a, b) refl
    ]
    | inr a ↦ rw a refl
  ]

  twice :
      (b : Bool) (x y z : Option A) → (if b then x else z) ≡ (if b then x else if b then y else z)
  twice true x y z = refl
  twice false x y z = refl

  both : (b : Bool) (x : Option A) → x ≡ (if b then x else x)
  both true x = refl
  both false x = refl

  pub find-assign :
      (m : List (List ℕ × A)) (k : List ℕ) (v : A) (i : List ℕ)
      → find (assign m k v) i ≡ (if same k i then some v else find m i)
  unfolding find assign
  find-assign [] k v i = refl
  find-assign ((j, w) ∷ m) k v i = elim (Bool-cases (before k j)) [
    | inl b ↦ rw b refl
    | inr b ↦ elim (Bool-cases (same j k)) [
      | inl s ↦
          let e : j ≡ k = (same_iff j k).0 s in
          rw (b, s, e) (twice (same k i) (some v) (some w) (find m i))
      | inr s ↦ rw (b, s, find-assign m k v i) (swap_tests j k i (some v) (some w) (find m i) s)
    ]
  ]

  pub find-erase :
      (m : List (List ℕ × A)) (k i : List ℕ)
      → find (erase m k) i ≡ (if same k i then none else find m i)
  unfolding find erase
  find-erase [] k i = both (same k i) none
  find-erase ((j, w) ∷ m) k i = elim (Bool-cases (same j k)) [
    | inl s ↦
        let e : j ≡ k = (same_iff j k).0 s in
        rw (s, e, find-erase m k i) (twice (same k i) none (some w) (find m i))
    | inr s ↦ rw (s, find-erase m k i) (swap_tests j k i none (some w) (find m i) s)
  ]

  -- Every key of `m` stands behind `k`.
  abbrev pub IsBehind : List ℕ → List (List ℕ × A) → Type 0
  IsBehind k [] = Unit
  IsBehind k ((j, v) ∷ m) = (before k j ≡ true) × IsBehind k m

  abbrev pub IsSorted : List (List ℕ × A) → Type 0
  IsSorted [] = Unit
  IsSorted ((j, v) ∷ m) = IsBehind j m × IsSorted m

  trans-IsBehind :
      (k j : List ℕ) (m : List (List ℕ × A)) → before k j ≡ true → IsBehind j m → IsBehind k m
  trans-IsBehind k j [] b h = tt
  trans-IsBehind k j ((i, v) ∷ m) b h = (before_trans k j i b h.0, trans-IsBehind k j m b h.1)

  erase-IsBehind : (k i : List ℕ) (m : List (List ℕ × A)) → IsBehind k m → IsBehind k (erase m i)
  unfolding erase
  erase-IsBehind k i [] h = tt
  erase-IsBehind k i ((j, v) ∷ m) h = elim (Bool-cases (same j i)) [
    | inl s ↦ rw s (erase-IsBehind k i m h.1)
    | inr s ↦ rw s (h.0, erase-IsBehind k i m h.1)
  ]

  pub erase-IsSorted : (m : List (List ℕ × A)) (k : List ℕ) → IsSorted m → IsSorted (erase m k)
  unfolding erase
  erase-IsSorted [] k h = tt
  erase-IsSorted ((j, v) ∷ m) k h = elim (Bool-cases (same j k)) [
    | inl s ↦ rw s (erase-IsSorted m k h.1)
    | inr s ↦ rw s (erase-IsBehind j k m h.0, erase-IsSorted m k h.1)
  ]

  assign-IsBehind :
      (i k : List ℕ) (v : A) (m : List (List ℕ × A))
      → before i k ≡ true
      → IsBehind i m
      → IsBehind i (assign m k v)
  unfolding assign
  assign-IsBehind i k v [] b h = (b, tt)
  assign-IsBehind i k v ((j, w) ∷ m) b h = elim (Bool-cases (before k j)) [
    | inl a ↦ rw a (b, h)
    | inr a ↦ elim (Bool-cases (same j k)) [
      | inl s ↦ rw (a, s) (b, h.1)
      | inr s ↦ rw (a, s) (h.0, assign-IsBehind i k v m b h.1)
    ]
  ]

  pub assign-IsSorted :
      (m : List (List ℕ × A)) (k : List ℕ) (v : A) → IsSorted m → IsSorted (assign m k v)
  unfolding assign
  assign-IsSorted [] k v h = (tt, tt)
  assign-IsSorted ((j, w) ∷ m) k v h = elim (Bool-cases (before k j)) [
    | inl a ↦ rw a ((a, trans-IsBehind k j m a h.0), h)
    | inr a ↦ elim (Bool-cases (same j k)) [
      | inl s ↦ let e : k ≡ j = sym ((same_iff j k).0 s) in rw (a, s) (rw e h.0, h.1)
      | inr s ↦
          rw (a, s) (assign-IsBehind j k v m (before_total k j a s) h.0, assign-IsSorted m k v h.1)
    ]
  ]
