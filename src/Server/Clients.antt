-- ===== src/Server/Clients.antt =====
-- The map of clients.
use http_2_0_server.Base.{
  ℕ, ◌≤◌, ◌<◌, All, ◌≡◌, ◌≢◌, refl, sym, ap, ◌∙◌, Bool, true, false, Option, some, List, [], ◌∷◌,
  ◌==◌, ltb, if◌then◌else◌, arith, Bool-cases, inl, inr, ◌⊎◌,
}
use mathlib.Core.Path.{subst}
use http_2_0_server.Client.Request.{Connection}
use http_2_0_server.Server.{Server, find_client, put_client, get_client}

if_eq :
    {A : Type 0} (k fd j : ℕ) (x y : A)
    → k ≡ fd
    → (if k == j then x else y) ≡ (if fd == j then x else y)
if_eq k fd j x y e = cc

pub find_client-put_client :
    (m : List (ℕ × Connection)) (fd : ℕ) (c : Connection) (j : ℕ)
    → find_client (put_client m fd c) j ≡ (if fd == j then some c else find_client m j)
unfolding find_client put_client
find_client-put_client [] fd c j = refl
find_client-put_client ((k, d) ∷ m) fd c j = elim (Bool-cases (ltb fd k)) [
  | inl a ↦ rw a refl
  | inr a ↦ elim (Bool-cases (k == fd)) [
    | inl b ↦ rw (a, b) (ground (arith, b))
    | inr b ↦ rw (a, b, find_client-put_client m fd c j) (ground (arith, b))
  ]
]

-- The keys of a std::map ascend.
abbrev Above : ℕ → List (ℕ × Connection) → Type 0
Above n m = All (λ e. n < e.0) m

abbrev pub Ascends : List (ℕ × Connection) → Type 0
Ascends [] = Unit
Ascends ((k, c) ∷ m) = Above k m × Ascends m

lower-Above : (n k : ℕ) (m : List (ℕ × Connection)) → n < k → Above k m → Above n m
lower-Above n k [] l h = tt
lower-Above n k (e ∷ m) l h = (omega (arith, l, h.0), lower-Above n k m l h.1)

put_client-Above :
    (n : ℕ) (m : List (ℕ × Connection)) (fd : ℕ) (c : Connection)
    → n < fd
    → Above n m
    → Above n (put_client m fd c)
unfolding put_client
put_client-Above n [] fd c l h = (l, tt)
put_client-Above n ((k, d) ∷ m) fd c l h = elim (Bool-cases (ltb fd k)) [
  | inl a ↦ rw a (l, h)
  | inr a ↦ elim (Bool-cases (k == fd)) [
    | inl b ↦ rw (a, b) (l, h.1)
    | inr b ↦ rw (a, b) (h.0, put_client-Above n m fd c l h.1)
  ]
]

put_client-Ascends :
    (m : List (ℕ × Connection)) (fd : ℕ) (c : Connection) → Ascends m → Ascends (put_client m fd c)
unfolding put_client
put_client-Ascends [] fd c h = (tt, tt)
put_client-Ascends ((k, d) ∷ m) fd c h = elim (Bool-cases (ltb fd k)) [
  | inl a ↦ let l : fd < k = ground (arith, a) in rw a ((l, lower-Above fd k m l h.0), h)
  | inr a ↦ elim (Bool-cases (k == fd)) [
    | inl b ↦ let q : k ≡ fd = ground (arith, b) in rw (a, b) (subst (λ j. Above j m) q h.0, h.1)
    | inr b ↦
        let l : k < fd = ground (arith, a, b) in
        rw (a, b) (put_client-Above k m fd c l h.0, put_client-Ascends m fd c h.1)
  ]
]

-- The clients of the map, its keys ascending: each under its own descriptor, no two with one id, and no id above `ctr`.
pub record IsServer (s : Server) : Type 0 where
  pub ascends : Ascends s.clients
  pub keyed : (k : ℕ) (c : Connection) → find_client s.clients k ≡ some c → c.fd ≡ k
  pub bounded : (k : ℕ) (c : Connection) → find_client s.clients k ≡ some c → c.id ≤ s.ctr
  pub distinct :
      (k j : ℕ) (c d : Connection)
      → find_client s.clients k ≡ some c
      → find_client s.clients j ≡ some d
      → c.id ≡ d.id
      → k ≡ j

either_entry :
    (b : Bool) (x y : Option Connection) (d : Connection)
    → (if b then x else y) ≡ some d
    → ((b ≡ true) × (x ≡ some d)) ⊎ ((b ≡ false) × (y ≡ some d))
either_entry true x y d e = inl (refl, e)
either_entry false x y d e = inr (refl, e)

some_inj : {c d : Connection} → some c ≡ some d → d ≡ c
some_inj e = cc

-- A client that is found after an assignment is the assigned one, or it was there before.
found_put :
    (m : List (ℕ × Connection)) (fd : ℕ) (c : Connection) (j : ℕ) (d : Connection)
    → find_client (put_client m fd c) j ≡ some d
    → ((j ≡ fd) × (d ≡ c)) ⊎ ((j ≢ fd) × (find_client m j ≡ some d))
found_put m fd c j d e =
    elim (either_entry (fd == j) (some c) (find_client m j) d
      (sym (find_client-put_client m fd c j) ∙ e)) [
        | inl (b, f) ↦ inl (ground (arith, b), some_inj f)
        | inr (b, f) ↦ inr (ground (arith, b), f)
      ]

-- A new client, or one that has changed, under its own descriptor and with an id of its own.
pub put_client-IsServer :
    (s : Server) (n fd : ℕ) (c : Connection)
    → IsServer s
    → s.ctr ≤ n
    → c.fd ≡ fd
    → c.id ≤ n
    → ((j : ℕ) (d : Connection) → j ≢ fd → find_client s.clients j ≡ some d → d.id ≢ c.id)
    → IsServer (record s { clients = put_client s.clients fd c; ctr = n })
put_client-IsServer s n fd c h l f b own = record {
  ascends = put_client-Ascends s.clients fd c h.ascends;
  keyed = λ k d e. elim (found_put s.clients fd c k d e) [
    | inl (q, r) ↦ rw (r, q) f
    | inr (q, r) ↦ h.keyed k d r
  ];
  bounded = λ k d e. elim (found_put s.clients fd c k d e) [
    | inl (q, r) ↦ rw r b
    | inr (q, r) ↦ omega (arith, h.bounded k d r, l)
  ];
  distinct = λ k j d g e e' i. elim (found_put s.clients fd c k d e) [
    | inl (q, r) ↦ elim (found_put s.clients fd c j g e') [
      | inl (q', r') ↦ q ∙ sym q'
      | inr (q', r') ↦ absurd (own j g q' r' (sym i ∙ ap (λ (x : Connection). x.id) r))
    ]
    | inr (q, r) ↦ elim (found_put s.clients fd c j g e') [
      | inl (q', r') ↦ absurd (own k d q r (i ∙ ap (λ (x : Connection). x.id) r'))
      | inr (q', r') ↦ h.distinct k j d g r r' i
    ]
  ];
}

-- A client that is put back with its id and descriptor.
pub put_back-IsServer :
    (s : Server) (fd : ℕ) (c c' : Connection)
    → IsServer s
    → find_client s.clients fd ≡ some c
    → c'.id ≡ c.id
    → c'.fd ≡ c.fd
    → IsServer (record s { clients = put_client s.clients fd c' })
put_back-IsServer s fd c c' h e i f =
    put_client-IsServer s s.ctr fd c' h (omega arith) (f ∙ h.keyed fd c e)
      (omega (arith, i, h.bounded fd c e)) (λ j d n g q. n (h.distinct j fd d c g e (q ∙ i)))

-- A client in the map is found by its id.
pub get_client-found :
    (m : List (ℕ × Connection)) (fd : ℕ) (c : Connection)
    → find_client m fd ≡ some c
    → (d : Connection) × (get_client m c.id ≡ some d)
unfolding find_client get_client
get_client-found [] fd c e = absurd (ground (arith, e))
get_client-found ((k, x) ∷ m) fd c e = elim (Bool-cases (x.id == c.id)) [
  | inl a ↦ (x, rw a refl)
  | inr a ↦ elim (either_entry (k == fd) (some x) (find_client m fd) c e) [
    | inl (b, f) ↦
        let q : c ≡ x = some_inj f in absurd (ground (arith, a, ap (λ (y : Connection). y.id) q))
    | inr (b, f) ↦ rw a (get_client-found m fd c f)
  ]
]
