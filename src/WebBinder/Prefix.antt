-- ===== src/WebBinder/Prefix.antt =====
-- The directory that WebBinder::getContent takes for a URL that is not bound itself.
use http_2_0_server.Base.{
  ℕ, ◌≤◌, ◌≡◌, refl, Bool, true, false, Option, some, List, [], ◌∷◌, length, arith, Bool-cases, inl,
  inr, if◌then◌else◌, same, same_iff, same_refl,
}
use mathlib.Core.Path.{subst}
use http_2_0_server.Base.Maps.{before, before_irrefl, find, IsSorted, IsBehind}
use http_2_0_server.WebBinder.{starts_with, first_prefix}

-- Of two beginnings of a text, the one that stands before the other is not longer.
starts_with-before :
    (url j k : List ℕ)
    → starts_with url j ≡ true
    → starts_with url k ≡ true
    → before j k ≡ true
    → length j ≤ length k
unfolding starts_with before
starts_with-before url [] k p q b = omega arith
starts_with-before url (j ∷ js) [] p q b = absurd (ground (arith, b))
starts_with-before [] (j ∷ js) (k ∷ ks) p q b = absurd (ground (arith, p))
starts_with-before (u ∷ us) (j ∷ js) (k ∷ ks) p q b =
    ground (arith, starts_with-before us js ks, p, q, b)

not_taken : (b : Bool) (x y z : Option (List ℕ)) → b ≡ false → (if b then x else y) ≡ z → y ≡ z
not_taken true x y z s e = absurd (ground (arith, s))
not_taken false x y z s e = e

find-IsBehind :
    (m : List (List ℕ × List ℕ)) (k j d : List ℕ)
    → IsBehind k m
    → find m j ≡ some d
    → before k j ≡ true
unfolding find
find-IsBehind [] k j d h e = absurd (ground (arith, e))
find-IsBehind ((i, c) ∷ m) k j d h e = elim (Bool-cases (same i j)) [
  | inl s ↦ subst (λ x. before k x ≡ true) ((same_iff i j).0 s) h.0
  | inr s ↦ find-IsBehind m k j d h.1 (not_taken _ _ _ _ s e)
]

behind_other : (j k : List ℕ) → before j k ≡ true → same j k ≡ false
behind_other j k b = elim (Bool-cases (same j k)) [
  | inl s ↦
      let e : j ≡ k = (same_iff j k).0 s in
      absurd (ground (arith, before_irrefl k, subst (λ x. before x k ≡ true) e b))
  | inr s ↦ s
]

-- A bound URL that is a beginning of `url`, and no bound one is shorter.
pub record Shortest (m : List (List ℕ × List ℕ)) (url key dir : List ℕ) : Type 0 where
  pub bound : find m key ≡ some dir
  pub fits : starts_with url key ≡ true
  pub shortest :
      (j d : List ℕ) → find m j ≡ some d → starts_with url j ≡ true → length key ≤ length j

-- The loop finds it when there is a bound beginning.
pub first_prefix-Shortest :
    (m : List (List ℕ × List ℕ)) (url j d : List ℕ)
    → IsSorted m
    → find m j ≡ some d
    → starts_with url j ≡ true
    → (key : List ℕ) × (dir : List ℕ) × (first_prefix m url ≡ some (key, dir))
      × Shortest m url key dir
unfolding first_prefix find
first_prefix-Shortest [] url j d h e p = absurd (ground (arith, e))
first_prefix-Shortest ((k, c) ∷ m) url j d h e p = elim (Bool-cases (starts_with url k)) [
  | inl q ↦ (
    k,
    c,
    rw q refl,
    record {
      bound = rw (same_refl k) refl;
      fits = q;
      shortest = λ i b f r. elim (Bool-cases (same k i)) [
        | inl s ↦ subst (λ x. length k ≤ length x) ((same_iff k i).0 s) (omega arith)
        | inr s ↦ starts_with-before url k i q r (find-IsBehind m k i b h.0 (not_taken _ _ _ _ s f))
      ];
    },
  )
  | inr q ↦ elim (Bool-cases (same k j)) [
    | inl s ↦ absurd (ground (arith, q, p, (same_iff k j).0 s))
    | inr s ↦
        let (key, dir, f, b) = first_prefix-Shortest m url j d h.1 (not_taken _ _ _ _ s e) p in
        let behind = find-IsBehind m k key dir h.0 b.bound in
        (
          key,
          dir,
          rw q f,
          record {
            bound = rw (behind_other k key behind) b.bound;
            fits = b.fits;
            shortest = λ i c g r. elim (Bool-cases (same k i)) [
              | inl t ↦ absurd (ground (arith, q, r, (same_iff k i).0 t))
              | inr t ↦ b.shortest i c (not_taken _ _ _ _ t g) r
            ];
          },
        )
  ]
]
