-- ===== src/Http2/Hpack/Table/Match.antt =====
-- Table::best_match against Table::at: the index that the encoder sends names the right header.
use http_2_0_server.Base.{
  ℕ, zero, suc, ◌+◌, ◌-◌, ◌<◌, ◌≡◌, ◌≢◌, refl, sym, ap, ◌∙◌, Bool, true, false, Option, none, some,
  List, [], ◌∷◌, length, get_elem?, ltb, arith, Bool-cases, Option-cases, inl, inr, ltb→lt, ltb→le,
  le→ltb, lt→ltb, same, same_iff, same_refl, ◌⊎◌,
}
use http_2_0_server.Http2.Headers.{Header, same_header}
use http_2_0_server.Http2.Hpack.Table.Static.{static_table}
use http_2_0_server.Http2.Hpack.Table.{
  Table, at, find_from, static_entries, or_else, best_match, best_match_name,
}

pub same_header→eq : (a b : Header) → same_header a b ≡ true → a ≡ b
unfolding same_header
same_header→eq a b e = ground (arith, same_iff a.name b.name, same_iff a.value b.value)

same_header_refl : (a : Header) → same_header a a ≡ true
unfolding same_header
same_header_refl a = rw (same_refl a.name, same_refl a.value)

get_elem?-lt : (hs : List Header) (k : ℕ) {g : Header} → get_elem? hs k ≡ some g → k < length hs
get_elem?-lt [] k e = cc
get_elem?-lt (h ∷ hs) zero e = omega arith
get_elem?-lt (h ∷ hs) (suc k) e = omega (arith, get_elem?-lt hs k e)

-- A hit of the loop is an entry that passes the test, at that place.
find_from-some :
    (test : Header → Bool) (i j : ℕ) (hs : List Header)
    → find_from test i hs ≡ some j
    → (k : ℕ) × (g : Header) × (j ≡ i + k) × (get_elem? hs k ≡ some g) × (test g ≡ true)
unfolding find_from
find_from-some test i j [] e = cc
find_from-some test i j (h ∷ hs) e = elim (Bool-cases (test h)) [
  | inl hit ↦ (0, h, ground (arith, hit), refl, hit)
  | inr miss ↦
      let (k, g, p, q, r) = find_from-some test (suc i) j hs (rw miss at e) in
      (suc k, g, omega (arith, p), q, r)
]

-- Without a hit no entry passes the test.
find_from-none :
    (test : Header → Bool) (i : ℕ) (hs : List Header) (k : ℕ) {g : Header}
    → find_from test i hs ≡ none
    → get_elem? hs k ≡ some g
    → test g ≡ false
unfolding find_from
find_from-none test i [] k e q = cc
find_from-none test i (h ∷ hs) zero e q = ground arith
find_from-none test i (h ∷ hs) (suc k) e q = elim (Bool-cases (test h)) [
  | inl hit ↦ absurd (ground (arith, hit, e))
  | inr miss ↦ find_from-none test (suc i) hs k (rw miss at e) q
]

length-static_table : length static_table ≡ 62
unfolding static_table
length-static_table = refl

length-static_entries : length static_entries ≡ 61
unfolding static_table
length-static_entries = refl

at-static : (t : Table) (k : ℕ) → k < 61 → at t (suc k) ≡ get_elem? static_entries k
unfolding at static_table
at-static t k h = rw (le→ltb (suc k) 1 (omega arith), lt→ltb (suc k) 62 (omega arith))

at-dynamic : (t : Table) (k : ℕ) → at t (62 + k) ≡ get_elem? t.entries k
unfolding at
at-dynamic t k =
    let e : 62 + k - 62 ≡ k = omega arith in
    rw (le→ltb (62 + k) 1 (omega arith), le→ltb (62 + k) 62 (omega arith), e)

-- The entry at an index stands in one of the two tables.
at-some :
    (t : Table) (i : ℕ) {g : Header}
    → at t i ≡ some g
    → ((k : ℕ) × (get_elem? static_entries k ≡ some g))
      ⊎ ((k : ℕ) × (get_elem? t.entries k ≡ some g))
at-some t zero e = unfold at in cc
at-some t (suc i) e = elim (Bool-cases (ltb i 61)) [
  | inl low ↦ inl (i, sym (at-static t i (ltb→lt i 61 low)) ∙ e)
  | inr high ↦
      let p : suc i ≡ 62 + (i - 61) = omega (arith, ltb→le i 61 high) in
      inr (i - 61, sym (at-dynamic t (i - 61)) ∙ ap (at t) (sym p) ∙ e)
]

-- The two loops with one test, and what is returned if neither finds an entry.
two_loops : (Header → Bool) → Table → ℕ → ℕ
two_loops test t n =
    or_else (find_from test 1 static_entries)
      (or_else (find_from test (length static_table) t.entries) n)

static_hit :
    (test : Header → Bool) (t : Table) (j : ℕ)
    → find_from test 1 static_entries ≡ some j
    → (g : Header) × (at t j ≡ some g) × (test g ≡ true)
static_hit test t j e =
    let (k, g, p, q, r) = find_from-some test 1 j static_entries e in
    let l : k < 61 = omega (arith, get_elem?-lt static_entries k q, length-static_entries) in
    let p' : j ≡ suc k = omega (arith, p) in (g, ap (at t) p' ∙ at-static t k l ∙ q, r)

dynamic_hit :
    (test : Header → Bool) (t : Table) (j : ℕ)
    → find_from test (length static_table) t.entries ≡ some j
    → (g : Header) × (at t j ≡ some g) × (test g ≡ true)
dynamic_hit test t j e =
    let (k, g, p, q, r) = find_from-some test (length static_table) j t.entries e in
    let p' : j ≡ 62 + k = omega (arith, p, length-static_table) in
    (g, ap (at t) p' ∙ at-dynamic t k ∙ q, r)

no_hit :
    (test : Header → Bool) (t : Table) (i : ℕ) {g : Header}
    → find_from test 1 static_entries ≡ none
    → find_from test (length static_table) t.entries ≡ none
    → at t i ≡ some g
    → test g ≡ false
no_hit test t i e f q = elim (at-some t i q) [
  | inl (k, p) ↦ find_from-none test 1 static_entries k e p
  | inr (k, p) ↦ find_from-none test (length static_table) t.entries k f p
]

-- Either the loops return the index of an entry that passes the test, or none passes it.
two_loops-cases :
    (test : Header → Bool) (t : Table) (n : ℕ)
    → ((g : Header) × (at t (two_loops test t n) ≡ some g) × (test g ≡ true))
      ⊎ ((two_loops test t n ≡ n)
          × (find_from test 1 static_entries ≡ none)
          × (find_from test (length static_table) t.entries ≡ none))
unfolding two_loops
two_loops-cases test t n = elim (Option-cases (find_from test 1 static_entries)) [
  | inr (j, e) ↦ let (g, p, q) = static_hit test t j e in inl (g, ap (at t) (rw e) ∙ p, q)
  | inl e ↦ elim (Option-cases (find_from test (length static_table) t.entries)) [
    | inr (j, f) ↦ let (g, p, q) = dynamic_hit test t j f in inl (g, ap (at t) (rw (e, f)) ∙ p, q)
    | inl f ↦ inr (rw (e, f), e, f)
  ]
]

true-false : {b : Bool} → b ≡ true → b ≡ false → ⊥
true-false e f = cc

at-zero : (t : Table) → at t 0 ≡ none
unfolding at
at-zero t = refl

zero-not_some : (t : Table) {o : Option Header} {g : Header} → o ≡ at t 0 → o ≡ some g → ⊥
zero-not_some t z p = ground (arith, at-zero t, z, p)

module _ (t : Table) (h : Header) where
  exact : Header → Bool
  exact g = same_header h g

  named : Header → Bool
  named g = same h.name g.name

  best_match-two_loops : best_match t h ≡ two_loops exact t (two_loops named t 0)
  unfolding best_match best_match_name two_loops exact named
  best_match-two_loops = refl

  exact-eq : (g : Header) → exact g ≡ true → h ≡ g
  unfolding exact
  exact-eq g e = same_header→eq h g e

  exact_self : exact h ≡ true
  unfolding exact
  exact_self = same_header_refl h

  named-eq : (g : Header) → named g ≡ true → g.name ≡ h.name
  unfolding named
  named-eq g e = sym ((same_iff h.name g.name).0 e)

  named-ne : (g : Header) → named g ≡ false → g.name ≢ h.name
  unfolding named
  named-ne g e q = ground (arith, e, same_iff h.name g.name, q)

  -- An index other than 0 is that of an entry with the header's name.
  pub at-best_match :
      best_match t h ≢ 0 → (g : Header) × (at t (best_match t h) ≡ some g) × (g.name ≡ h.name)
  at-best_match ne = elim (two_loops-cases exact t (two_loops named t 0)) [
    | inl (g, p, q) ↦ (g, ap (at t) best_match-two_loops ∙ p, ap (λ x. x.name) (sym (exact-eq g q)))
    | inr (e, f, f') ↦ elim (two_loops-cases named t 0) [
      | inl (g, p, q) ↦ (g, ap (at t) (best_match-two_loops ∙ e) ∙ p, named-eq g q)
      | inr (z, k, k') ↦ absurd (ne (best_match-two_loops ∙ e ∙ z))
    ]
  ]

  -- If either table holds the header itself, the index is that of an equal entry.
  pub at-best_match_exact : (i : ℕ) → at t i ≡ some h → at t (best_match t h) ≡ some h
  at-best_match_exact i e = elim (two_loops-cases exact t (two_loops named t 0)) [
    | inl (g, p, q) ↦ ap (at t) best_match-two_loops ∙ p ∙ ap some (sym (exact-eq g q))
    | inr (_, f, f') ↦ absurd (true-false exact_self (no_hit exact t i f f' e))
  ]

  -- The index 0 means that no entry of either table has the header's name.
  pub best_match_zero :
      (i : ℕ) (g : Header) → best_match t h ≡ 0 → at t i ≡ some g → g.name ≢ h.name
  best_match_zero i g z e = elim (two_loops-cases exact t (two_loops named t 0)) [
    | inl (g', p, q) ↦ absurd (zero-not_some t (ap (at t) (sym best_match-two_loops ∙ z)) p)
    | inr (r, f, f') ↦ elim (two_loops-cases named t 0) [
      | inl (g', p, q) ↦
          absurd (zero-not_some t (ap (at t) (sym r ∙ sym best_match-two_loops ∙ z)) p)
      | inr (_, k, k') ↦ named-ne g (no_hit named t i k k' e)
    ]
  ]
