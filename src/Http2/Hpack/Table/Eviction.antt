-- ===== src/Http2/Hpack/Table/Eviction.antt =====
-- The size of the dynamic table, and what evicting removes.
use http_2_0_server.Base.{
  ℕ, zero, suc, ◌+◌, ◌-◌, ◌%◌, ◌^◌, ◌≤◌, ◌<◌, ◌≡◌, refl, sym, ap, ◌∙◌, some, List, [], ◌∷◌, ◌++◌,
  length, ltb, arith, append-nil, append_assoc, length-append, Bool-cases, inl, inr, ltb→lt, ltb→le,
  le→ltb, lt→ltb,
}
use http_2_0_server.Http2.Headers.{Header, size, total_size}
use http_2_0_server.Http2.Hpack.Table.{
  Table, new_table, pop_back, evict_loop, evict, set_max_size, add, reset,
}

-- `size_` is the size of the entries, within the bound, and the bound came as a uint32_t.
pub record IsTable (t : Table) : Type 0 where
  pub exact : t.used ≡ total_size t.entries
  pub within : t.used ≤ t.max_size
  pub max_word : t.max_size < 2 ^ 32

-- Nothing is evicted without need: with the newest evicted entry the table is too large.
abbrev pub Needed : ℕ → List Header → List Header → Type 0
Needed max kept [] = Unit {0}
Needed max kept (e ∷ es) = max < total_size (kept ++ (e ∷ []))

-- `t'` is `t` after its oldest entries, as few as possible, have been evicted.
pub record Evicts (t t' : Table) : Type 0 where
  pub evicted : List Header
  pub oldest : t.entries ≡ t'.entries ++ evicted
  pub needed : Needed t.max_size t'.entries evicted
  pub same_max : t'.max_size ≡ t.max_size
  pub exact : t'.used ≡ total_size t'.entries
  pub within : t'.used ≤ t'.max_size

pop_back_lem :
    (x : Header) (xs : List Header)
    → (front : List Header) × (back : Header) × (pop_back (x ∷ xs) ≡ some (front, back))
      × (x ∷ xs ≡ front ++ (back ∷ []))
unfolding pop_back
pop_back_lem x [] = ([], x, refl, refl)
pop_back_lem x (y ∷ ys) =
    let (front, back, e, p) = pop_back_lem y ys in (x ∷ front, back, rw (e), ap (◌∷◌ x) p)

total_size-append : (xs ys : List Header) → total_size (xs ++ ys) ≡ total_size xs + total_size ys
unfolding total_size
total_size-append [] ys = omega arith
total_size-append (x ∷ xs) ys = omega (arith, total_size-append xs ys)

total_size_one : (x : Header) → total_size (x ∷ []) ≡ size x
unfolding total_size
total_size_one x = omega arith

total_size-cons : (x : Header) (xs : List Header) → total_size (x ∷ xs) ≡ size x + total_size xs
unfolding total_size
total_size-cons x xs = refl

total_size-nil : total_size [] ≡ 0
unfolding total_size
total_size-nil = refl

-- One more entry evicted behind the others.
Needed-snoc :
    (max : ℕ) (kept es front : List Header) (back : Header)
    → front ≡ kept ++ es
    → max < total_size (front ++ (back ∷ []))
    → Needed max kept es
    → Needed max kept (es ++ (back ∷ []))
Needed-snoc max kept [] front back p h n = rw (p ∙ append-nil kept) at h
Needed-snoc max kept (e ∷ es) front back p h n = n

abbrev table : ℕ → ℕ → List Header → Table
table used max xs = record { used = used; max_size = max; entries = xs }

-- A table that fits is left alone.
stays : (t : Table) → t.used ≡ total_size t.entries → t.used ≤ t.max_size → Evicts t t
stays t e h = record {
  evicted = [];
  oldest = sym (append-nil t.entries);
  needed = tt;
  same_max = refl;
  exact = e;
  within = h;
}

-- One round, when the table is too large and `back` is its oldest entry.
evict_round :
    (fuel used max : ℕ) (xs front : List Header) (back : Header)
    → max < used
    → used ≡ total_size xs
    → used < 2 ^ 64
    → xs ≡ front ++ (back ∷ [])
    → (t' : Table) × (evict_loop fuel (table (total_size front) max front) ≡ some t')
      × Evicts (table (total_size front) max front) t'
    → pop_back xs ≡ some (front, back)
    → (t' : Table) × (evict_loop (suc fuel) (table used max xs) ≡ some t')
      × Evicts (table used max xs) t'
unfolding evict_loop
evict_round fuel used max xs front back h e w p (t', r, v) q =
    let total : used ≡ total_size front + size back =
      e
      ∙ ap total_size p
      ∙ total_size-append front (back ∷ [])
      ∙ ap (λ n. total_size front + n) (total_size_one back) in
    let left : (used + 2 ^ 64 - size back) % 2 ^ 64 ≡ total_size front = omega (arith, total, w) in
    (
      t',
      rw (lt→ltb max used h, q, left) r,
      record {
        evicted = v.evicted ++ (back ∷ []);
        oldest =
            p
            ∙ ap (λ ys. ys ++ (back ∷ [])) v.oldest
            ∙ append_assoc t'.entries v.evicted (back ∷ []);
        needed =
            Needed-snoc max t'.entries v.evicted front back v.oldest
              (omega (arith, h, e, ap total_size p)) v.needed;
        same_max = v.same_max;
        exact = v.exact;
        within = v.within;
      },
    )

nil_fits : (used max : ℕ) → used ≡ total_size [] → used ≤ max
nil_fits used max e = omega (arith, e, total_size-nil)

evict_loop-Evicts :
    (fuel used max : ℕ) (xs : List Header)
    → length xs ≤ fuel
    → used ≡ total_size xs
    → used < 2 ^ 64
    → (t' : Table) × (evict_loop fuel (table used max xs) ≡ some t') × Evicts (table used max xs) t'
unfolding evict_loop
evict_loop-Evicts zero used max [] l e w =
    (table used max [], rw (le→ltb max used (nil_fits used max e)), stays _ e (nil_fits used max e))
evict_loop-Evicts (suc fuel) used max [] l e w =
    (table used max [], rw (le→ltb max used (nil_fits used max e)), stays _ e (nil_fits used max e))
evict_loop-Evicts zero used max (x ∷ xs) l e w = absurd (omega arith)
evict_loop-Evicts (suc fuel) used max (x ∷ xs) l e w = elim (Bool-cases (ltb max used)) [
  | inl over ↦
      let (front, back, q, p) = pop_back_lem x xs in
      let n : length front ≤ fuel =
        omega (arith, l, ap length p, length-append front (back ∷ [])) in
      let m : total_size front < 2 ^ 64 =
        omega (arith, w, e, ap total_size p, total_size-append front (back ∷ [])) in
      evict_round fuel used max (x ∷ xs) front back (ltb→lt max used over) e w p
        (evict_loop-Evicts fuel (total_size front) max front n refl m) q
  | inr fits ↦ (table used max (x ∷ xs), rw fits, stays _ e (ltb→le max used fits))
]

evict-Evicts :
    (t : Table)
    → t.used ≡ total_size t.entries
    → t.used < 2 ^ 64
    → (t' : Table) × (evict t ≡ some t') × Evicts t t'
unfolding evict
evict-Evicts t e w =
    evict_loop-Evicts (length t.entries) t.used t.max_size t.entries (omega arith) e w

Evicts-IsTable : (t t' : Table) → t.max_size < 2 ^ 32 → Evicts t t' → IsTable t'
Evicts-IsTable t t' w v = record {
  exact = v.exact;
  within = v.within;
  max_word = omega (arith, v.same_max, w);
}

-- Setting a new bound returns, never takes an entry from an empty table, and leaves a table within
-- the bound: its entries are the old ones without the oldest, of which no more than needed are gone.
pub set_max_size-Evicts :
    (t : Table) (sz : ℕ)
    → IsTable t
    → sz < 2 ^ 32
    → (t' : Table) × (set_max_size t sz ≡ some t')
      × IsTable t'
      × Evicts (record t { max_size = sz }) t'
unfolding set_max_size
set_max_size-Evicts t sz v h =
    let u = record t { max_size = sz } in
    let (t', e, w) = evict-Evicts u v.exact (omega (arith, v.within, v.max_word)) in
    (t', e, Evicts-IsTable u t' h w, w)

-- The table with `h` in front, before entries are evicted.
abbrev pub with_entry : Table → Header → Table
with_entry t h = record t { used = t.used + size h; entries = h ∷ t.entries }

add-evict :
    (t : Table) (h : Header) → IsTable t → size h < 2 ^ 63 → add t h ≡ evict (with_entry t h)
unfolding add
add-evict t h v l =
    let sum : (t.used + size h) % 2 ^ 64 ≡ t.used + size h =
      omega (arith, v.within, v.max_word, l) in
    rw sum

-- Adding a header of less than 2 ^ 63 bytes puts it in front and then evicts the oldest entries, no more of
-- them than needed, and the table is within its bound again.
pub add-Evicts :
    (t : Table) (h : Header)
    → IsTable t
    → size h < 2 ^ 63
    → (t' : Table) × (add t h ≡ some t') × IsTable t' × Evicts (with_entry t h) t'
add-Evicts t h v l =
    let u = with_entry t h in
    let (t', e, w) =
      evict-Evicts u (omega (arith, v.exact, total_size-cons h t.entries))
        (omega (arith, v.within, v.max_word, l)) in
    (t', add-evict t h v l ∙ e, Evicts-IsTable u t' v.max_word w, w)

kept_large :
    (kept evicted : List Header) (h : Header) (hs : List Header)
    → h ∷ hs ≡ kept ++ evicted
    → total_size kept < size h
    → kept ≡ []
kept_large [] evicted h hs e l = refl
kept_large (x ∷ kept) evicted h hs e l =
    let q : h ≡ x = cc in absurd (omega (arith, l, ap size q, total_size-cons x kept))

-- A header larger than the bound empties the table.
pub add_large :
    (t t' : Table) (h : Header)
    → IsTable t
    → size h < 2 ^ 32
    → t.max_size < size h
    → add t h ≡ some t'
    → t'.entries ≡ []
add_large t t' h v l big e =
    let (u, e', w, p) = add-Evicts t h v (omega (arith, l)) in
    let q : u ≡ t' = cc in
    rw (← q) (
      kept_large u.entries p.evicted h t.entries p.oldest
        (omega (arith, p.exact, p.within, p.same_max)))

total_size_zero : (xs : List Header) → total_size xs ≡ 0 → xs ≡ []
unfolding total_size size
total_size_zero [] e = refl
total_size_zero (x ∷ xs) e = absurd (omega (arith, e))

-- Resetting empties the table and sets its first bound.
pub reset_lem : (t : Table) → IsTable t → reset t ≡ some new_table
unfolding reset
reset_lem t v =
    let u = record t { max_size = 0 } in
    let (t', e, w) = evict-Evicts u v.exact (omega (arith, v.within, v.max_word)) in
    let z : t'.used ≡ 0 = omega (arith, w.within, w.same_max) in
    let n : t'.entries ≡ [] = total_size_zero t'.entries (omega (arith, z, w.exact)) in
    rw (e, reset) (ground (arith, z, n))
