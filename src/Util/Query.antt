-- ===== src/Util/Query.antt =====
-- Util::parseQueryString reads back a query of percent-encoded parameters.
use http_2_0_server.Base.{
  ℕ, zero, suc, ◌≤◌, ◌<◌, ◌≡◌, ◌≢◌, refl, ap, ◌∙◌, true, false, none, some, List, [], ◌∷◌, ◌++◌,
  length, length-append, arith, All, All-append, ◌==◌,
}
use http_2_0_server.Base.Bits.{IsByte}
use http_2_0_server.Base.Maps.{assign}
use http_2_0_server.Util.{
  strip, cut, add_param, then_params, query_round, query_loop, parse_query_string,
}
use http_2_0_server.Util.Percent.{
  percent_encode, IsInert, percent_decode-encode, percent_encode-IsInert,
}

cut-none : (code : ℕ) (s : List ℕ) → All (λ b. b ≢ code) s → cut code s ≡ (s, none)
unfolding cut
cut-none code [] h = refl
cut-none code (b ∷ s) h =
    let e : (b == code) ≡ false = ground (arith, h.0) in rw (e, cut-none code s h.1) refl

cut-some :
    (code : ℕ) (s rest : List ℕ)
    → All (λ b. b ≢ code) s
    → cut code (s ++ code ∷ rest) ≡ (s, some rest)
unfolding cut
cut-some code [] rest h = let e : (code == code) ≡ true = ground arith in rw e refl
cut-some code (b ∷ s) rest h =
    let e : (b == code) ≡ false = ground (arith, h.0) in rw (e, cut-some code s rest h.1) refl

no_38 : (s : List ℕ) → All IsInert s → All (λ b. b ≢ 38) s
no_38 [] h = tt
no_38 (b ∷ s) h = (h.0.0, no_38 s h.1)

no_61 : (s : List ℕ) → All IsInert s → All (λ b. b ≢ 61) s
no_61 [] h = tt
no_61 (b ∷ s) h = (h.0.1, no_61 s h.1)

-- One parameter as a client writes it.
abbrev pub write_param : List ℕ × List ℕ → List ℕ
write_param (key, value) = percent_encode key ++ 61 ∷ percent_encode value

unfoldable pub write_query : List (List ℕ × List ℕ) → List ℕ
write_query [] = []
write_query (p ∷ []) = write_param p
write_query (p ∷ q ∷ ps) = write_param p ++ 38 ∷ write_query (q ∷ ps)

-- A key and a value, of bytes, that begin and end with no space.
pub record IsParam (p : List ℕ × List ℕ) : Type 0 where
  pub key_bytes : All IsByte p.0
  pub value_bytes : All IsByte p.1
  pub key_stripped : strip p.0 ≡ p.0
  pub value_stripped : strip p.1 ≡ p.1

-- The map of the parameters, the last one of a key.
unfoldable pub assign_all : List (List ℕ × List ℕ) → List (List ℕ × List ℕ) → List (List ℕ × List ℕ)
assign_all params [] = params
assign_all params ((key, value) ∷ ps) = assign_all (assign params key value) ps

add_param-write_param :
    (params : List (List ℕ × List ℕ)) (p : List ℕ × List ℕ)
    → IsParam p
    → add_param params (cut 61 (write_param p)) ≡ some (assign params p.0 p.1)
add_param-write_param params (key, value) h =
    let e =
      cut-some 61 (percent_encode key) (percent_encode value)
        (no_61 (percent_encode key) (percent_encode-IsInert key h.key_bytes)) in
    rw
      (
        e,
        percent_decode-encode key h.key_bytes,
        percent_decode-encode value h.value_bytes,
        h.key_stripped,
        h.value_stripped,
      )
      refl

inert_param : (p : List ℕ × List ℕ) → IsParam p → All (λ b. b ≢ 38) (write_param p)
inert_param (key, value) h =
    All-append (λ b. b ≢ 38) (percent_encode key) (61 ∷ percent_encode value)
      (no_38 (percent_encode key) (percent_encode-IsInert key h.key_bytes))
      (omega arith, no_38 (percent_encode value) (percent_encode-IsInert value h.value_bytes))

-- A round on a query that is not empty.
query_loop-round :
    (fuel : ℕ) (s : List ℕ) (params : List (List ℕ × List ℕ))
    → 0 < length s
    → query_loop (suc fuel) s params
      ≡ query_round (λ rest params'. query_loop fuel rest params') (cut 38 s) params
unfolding query_loop
query_loop-round fuel [] params h = absurd (omega (arith, h))
query_loop-round fuel (b ∷ s) params h = refl

query_loop-nil :
    (fuel : ℕ) (params : List (List ℕ × List ℕ)) → query_loop fuel [] params ≡ some params
unfolding query_loop
query_loop-nil fuel params = refl

some_length : (p : List ℕ × List ℕ) → 0 < length (write_param p)
some_length (key, value) =
    omega (arith, length-append (percent_encode key) (61 ∷ percent_encode value))

query_loop-write_query :
    (fuel : ℕ) (ps params : List (List ℕ × List ℕ))
    → length (write_query ps) ≤ fuel
    → All IsParam ps
    → query_loop fuel (write_query ps) params ≡ some (assign_all params ps)
unfolding write_query assign_all
query_loop-write_query fuel [] params l h = query_loop-nil fuel params
query_loop-write_query zero (p ∷ []) params l h = absurd (omega (arith, l, some_length p))
query_loop-write_query zero (p ∷ q ∷ ps) params l h =
    absurd
      (omega (arith, l, some_length p, length-append (write_param p) (38 ∷ write_query (q ∷ ps))))
query_loop-write_query (suc fuel) (p ∷ []) params l h =
    query_loop-round fuel (write_param p) params (some_length p)
    ∙ ap (λ c. query_round (λ rest params'. query_loop fuel rest params') c params)
        (cut-none 38 (write_param p) (inert_param p h.0))
    ∙ add_param-write_param params p h.0
query_loop-write_query (suc fuel) (p ∷ q ∷ ps) params l h =
    let later = write_query (q ∷ ps) in
    let n = length-append (write_param p) (38 ∷ later) in
    let next = λ (rest : List ℕ) (params' : List (List ℕ × List ℕ)). query_loop fuel rest params' in
    query_loop-round fuel (write_param p ++ 38 ∷ later) params (omega (arith, n, some_length p))
    ∙ ap (λ c. query_round next c params) (cut-some 38 (write_param p) later (inert_param p h.0))
    ∙ ap (λ r. then_params r (λ params'. query_loop fuel later params'))
        (add_param-write_param params p h.0)
    ∙ query_loop-write_query fuel (q ∷ ps) (assign params p.0 p.1)
        (omega (arith, n, some_length p, l)) h.1

-- A query of parameters whose keys and values are bytes that `strip` leaves as they are, written
-- with percent encoding, is parsed to the map of the parameters, a later one for a key in place of
-- an earlier one.
pub parse_query_string-write_query :
    (ps : List (List ℕ × List ℕ))
    → All IsParam ps
    → parse_query_string (write_query ps) ≡ some (assign_all [] ps)
unfolding parse_query_string
parse_query_string-write_query ps h =
    query_loop-write_query (length (write_query ps)) ps [] (omega arith) h
