-- ===== src/Http2/Hpack/Huffman/Safety.antt =====
-- decode_huffman on any bytes: it ends, with no more symbols than there are bits.
use http_2_0_server.Base.{
  ℕ, zero, suc, ◌+◌, ◌-◌, ◌*◌, ◌%◌, ◌^◌, ◌≤◌, ◌<◌, ◌≡◌, refl, Bool, true, false, ◌&&◌, some, List,
  [], ◌∷◌, length, length-append, arith, Option-cases, inl, inr, ltb, leb, ◌==◌, if◌then◌else◌,
}
use http_2_0_server.Http2.Hpack.Huffman.{
  fits, find_entry, Text, pushed, Scanned, scanned, push, push_all, scan, scan_if, at_end,
  decode_loop, decode_huffman,
}
use http_2_0_server.Http2.Hpack.Huffman.Codes.{HuffmanEntry, k_huffman_table}
use http_2_0_server.Http2.Hpack.Huffman.Match.{found_code}

-- The symbols and the bits left of `n` bits.
abbrev pub Shrinks : ℕ → Scanned → Type 0
Shrinks n (scanned out v k) = length out + k ≤ n
Shrinks n Scanned.refused = Unit
Shrinks n Scanned.stuck = ⊥

push-Shrinks : (n k s : ℕ) (r : Scanned) → k < n → Shrinks k r → Shrinks n (push s r)
push-Shrinks n k s (scanned out v j) l h = omega (arith, l, h)
push-Shrinks n k s Scanned.refused l h = tt
push-Shrinks n k s Scanned.stuck l h = absurd h

if-Shrinks :
    (n : ℕ) (b : Bool) (r q : Scanned) → Shrinks n r → Shrinks n q → Shrinks n (if b then r else q)
if-Shrinks n true r q h k = h
if-Shrinks n false r q h k = k

found-shorter :
    (v n : ℕ) (e : HuffmanEntry) → find_entry v n k_huffman_table ≡ some e → (n - e.numbits < n)
unfolding fits
found-shorter v n e f =
    let (h, t) = found_code v n e f in
    let le : e.numbits ≤ n = ground (arith, t) in omega (arith, le, h.five)

scan-Shrinks : (fuel v n : ℕ) → n < fuel → Shrinks n (scan fuel v n)
unfolding scan
scan-Shrinks zero v n h = absurd (omega arith)
scan-Shrinks (suc fuel) v n h = elim (Option-cases (find_entry v n k_huffman_table)) [
  | inl e ↦ rw (e, scan) (if-Shrinks n (leb 30 n) Scanned.refused (scanned [] v n) tt (omega arith))
  | inr (e, f) ↦
      let l = found-shorter v n e f in
      let left = n - e.numbits in
      let more = scan fuel (v % 2 ^ left) left in
      let pushed_on =
        push-Shrinks n left e.symbol more l
          (scan-Shrinks fuel (v % 2 ^ left) left (omega (arith, l, h))) in
      rw (f, scan)
        (if-Shrinks n (ltb 0xff e.symbol) Scanned.refused
          (if leb 30 left then Scanned.refused else push e.symbol more) tt
          (if-Shrinks n (leb 30 left) Scanned.refused (push e.symbol more) tt pushed_on))
]

scan_if-Shrinks : (v n : ℕ) → Shrinks n (scan_if v n)
unfolding scan_if
scan_if-Shrinks v n =
    if-Shrinks n (leb 5 n) (scan (suc n) v n) (scanned [] v n)
      (scan-Shrinks (suc n) v n (omega arith)) (omega arith)

-- At most `n` symbols.
abbrev pub IsShort : ℕ → Text → Type 0
IsShort n (pushed out) = length out ≤ n
IsShort n Text.refused = Unit
IsShort n Text.stuck = ⊥

wider-IsShort : (n m : ℕ) (t : Text) → n ≤ m → IsShort n t → IsShort m t
wider-IsShort n m (pushed out) l h = omega (arith, l, h)
wider-IsShort n m Text.refused l h = tt
wider-IsShort n m Text.stuck l h = h

at_end-IsShort : (n : ℕ) (r : Scanned) → Shrinks n r → IsShort n (at_end r)
at_end-IsShort n Scanned.refused h = tt
at_end-IsShort n Scanned.stuck h = h
at_end-IsShort n (scanned out v k) h = either (ltb k 8 && (v == 2 ^ k - 1))
  where
    either : (b : Bool) → IsShort n (if b then pushed out else Text.refused)
    either true = omega (arith, h)
    either false = tt

push_all-IsShort :
    (n k : ℕ) (out : List ℕ) (t : Text)
    → length out + k ≤ n
    → IsShort k t
    → IsShort n (push_all out t)
push_all-IsShort n k out (pushed rest) h s = omega (arith, h, s, length-append out rest)
push_all-IsShort n k out Text.refused h s = tt
push_all-IsShort n k out Text.stuck h s = s

wider-Shrinks : (n m : ℕ) (r : Scanned) → n ≤ m → Shrinks n r → Shrinks m r
wider-Shrinks n m (scanned out v k) l h = omega (arith, l, h)
wider-Shrinks n m Scanned.refused l h = tt
wider-Shrinks n m Scanned.stuck l h = h

-- What the outer loop does with the bits that are left.
go_on : (ℕ → ℕ → Text) → Scanned → Text
go_on next (scanned out v n) = push_all out (next v n)
go_on next Scanned.refused = Text.refused
go_on next Scanned.stuck = Text.stuck

go_on-IsShort :
    (next : ℕ → ℕ → Text) (r : Scanned) (n k m : ℕ)
    → n + k ≤ m
    → ((v j : ℕ) → IsShort (j + k) (next v j))
    → Shrinks n r
    → IsShort m (go_on next r)
unfolding go_on
go_on-IsShort next (scanned out v j) n k m l f h =
    push_all-IsShort m (j + k) out (next v j) (omega (arith, l, h)) (f v j)
go_on-IsShort next Scanned.refused n k m l f h = tt
go_on-IsShort next Scanned.stuck n k m l f h = h

decode_loop-go_on :
    (v n b : ℕ) (p : List ℕ)
    → decode_loop v n (b ∷ p)
      ≡ go_on (λ w k. decode_loop (w * 2 ^ 8 % 2 ^ 64 + b) (k + 8) p) (scan_if v n)
unfolding decode_loop go_on
decode_loop-go_on v n b p =
    elim (scan_if v n)
      as (λ r.
        (elim r [
          | scanned out w k ↦ push_all out (decode_loop (w * 2 ^ 8 % 2 ^ 64 + b) (k + 8) p)
          | Scanned.refused ↦ Text.refused
          | Scanned.stuck ↦ Text.stuck
        ])
        ≡ go_on (λ w k. decode_loop (w * 2 ^ 8 % 2 ^ 64 + b) (k + 8) p) r) [
          | scanned out w k ↦ refl
          | Scanned.refused ↦ refl
          | Scanned.stuck ↦ refl
        ]

decode_loop-IsShort : (v n : ℕ) (p : List ℕ) → IsShort (n + 8 * length p) (decode_loop v n p)
unfolding decode_loop
decode_loop-IsShort v n [] =
    at_end-IsShort (n + 0) (scan_if v n)
      (wider-Shrinks n (n + 0) (scan_if v n) (omega arith) (scan_if-Shrinks v n))
decode_loop-IsShort v n (b ∷ p) = rw (decode_loop-go_on v n b p) (
    go_on-IsShort (λ w k. decode_loop (w * 2 ^ 8 % 2 ^ 64 + b) (k + 8) p) (scan_if v n) n
      (8 + 8 * length p) (n + 8 * length (b ∷ p)) (omega arith)
      (λ w k.
        wider-IsShort (k + 8 + 8 * length p) (k + (8 + 8 * length p))
          (decode_loop (w * 2 ^ 8 % 2 ^ 64 + b) (k + 8) p) (omega arith)
          (decode_loop-IsShort (w * 2 ^ 8 % 2 ^ 64 + b) (k + 8) p))
      (scan_if-Shrinks v n))

-- On any bytes decode_huffman ends, with a result `false` or with eight symbols at most for each
-- byte.
pub decode_huffman-IsShort : (p : List ℕ) → IsShort (8 * length p) (decode_huffman p)
unfolding decode_huffman
decode_huffman-IsShort p =
    wider-IsShort (0 + 8 * length p) (8 * length p) (decode_loop 0 0 p) (omega arith)
      (decode_loop-IsShort 0 0 p)
