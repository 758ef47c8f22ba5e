-- ===== src/Client/Streams.antt =====
-- The map of streams under each handler.
use http_2_0_server.Base.{
  ℕ, ◌≡◌, ◌≢◌, refl, sym, ap, ◌∙◌, Bool, true, false, Option, none, some, List, [], ◌∷◌, ◌++◌, ◌==◌,
  if◌then◌else◌, arith, All, Bool-cases, inl, inr,
}
use mathlib.Core.Path.{subst}
use http_2_0_server.Http2.Hpack.Decoder.{Block, decoded}
use http_2_0_server.Client.{Stream, Client, Outside, find_stream, erase_stream, put_stream}
use http_2_0_server.Client.FrameHandler.{
  with_stream, headers_ended, after_block, process_end_header,
}
use http_2_0_server.Client.Replies.{Keeps, answer-Keeps}

-- Each stream stands in the map under its own id.
abbrev pub IsKeyed : List (ℕ × Stream) → Type 0
IsKeyed m = All (λ e. e.1.id ≡ e.0) m

find_stream-erase_stream :
    (m : List (ℕ × Stream)) (id j : ℕ)
    → j ≢ id
    → find_stream (erase_stream m id) j ≡ find_stream m j
unfolding find_stream erase_stream
find_stream-erase_stream [] id j h = refl
find_stream-erase_stream ((k, s) ∷ m) id j h = ground (arith, find_stream-erase_stream m id j h)

find_stream-put_stream :
    (m : List (ℕ × Stream)) (id j : ℕ) (s : Stream)
    → j ≢ id
    → find_stream (put_stream m id s) j ≡ find_stream m j
unfolding find_stream put_stream
find_stream-put_stream m id j s h = ground (arith, h, find_stream-erase_stream m id j h)

erase_stream-IsKeyed : (m : List (ℕ × Stream)) (id : ℕ) → IsKeyed m → IsKeyed (erase_stream m id)
unfolding erase_stream
erase_stream-IsKeyed [] id a = tt
erase_stream-IsKeyed ((k, s) ∷ m) id (a, b) = elim (Bool-cases (k == id)) [
  | inl hit ↦ rw hit (erase_stream-IsKeyed m id b)
  | inr miss ↦ rw miss (a, erase_stream-IsKeyed m id b)
]

pub find_stream-IsKeyed :
    (m : List (ℕ × Stream)) (id : ℕ) (s : Stream)
    → IsKeyed m
    → find_stream m id ≡ some s
    → s.id ≡ id
unfolding find_stream
find_stream-IsKeyed [] id s a e = cc
find_stream-IsKeyed ((k, x) ∷ m) id s (a, b) e = ground (arith, a, e, find_stream-IsKeyed m id s b)

-- What a handler of a frame on the stream `id` may do to the map.
pub record Isolated (id : ℕ) (c c' : Client) : Type 0 where
  pub keyed : IsKeyed c'.streams
  pub others : (j : ℕ) → j ≢ id → find_stream c'.streams j ≡ find_stream c.streams j

pub unchanged :
    (id : ℕ) (c c' : Client) → IsKeyed c.streams → c'.streams ≡ c.streams → Isolated id c c'
unchanged id c c' a e = record {
  keyed = subst IsKeyed (sym e) a;
  others = λ j h. ap (λ m. find_stream m j) e;
}

pub erased :
    (id : ℕ) (c c' d : Client)
    → Isolated id c c'
    → d.streams ≡ erase_stream c'.streams id
    → Isolated id c d
erased id c c' d i e = record {
  keyed = subst IsKeyed (sym e) (erase_stream-IsKeyed c'.streams id i.keyed);
  others = λ j h.
      ap (λ m. find_stream m j) e ∙ find_stream-erase_stream c'.streams id j h ∙ i.others j h;
}

changed :
    (id : ℕ) (c c' d : Client) (s : Stream)
    → Isolated id c c'
    → s.id ≡ id
    → d.streams ≡ put_stream c'.streams id s
    → Isolated id c d
unfolding put_stream
changed id c c' d s i n e = record {
  keyed = subst IsKeyed (sym e) (n, erase_stream-IsKeyed c'.streams id i.keyed);
  others = λ j h.
      ap (λ m. find_stream m j) e ∙ find_stream-put_stream c'.streams id j s h ∙ i.others j h;
}

pub record Isolates (id : ℕ) (c : Client) (r : Option (Client × Bool)) : Type 0 where
  pub isolated : (c' : Client) (ok : Bool) → r ≡ some (c', ok) → Isolated id c c'

pub none-Isolates : (id : ℕ) (c : Client) → Isolates id c none
none-Isolates id c = record { isolated = λ c' ok e. cc }

pub some-Isolates :
    (id : ℕ) (c c' : Client) (ok : Bool) → Isolated id c c' → Isolates id c (some (c', ok))
some-Isolates id c c' ok h = record {
  isolated = λ d ok' e. let q : c' ≡ d = cc in subst (Isolated id c) q h;
}

pub if-Isolates :
    (id : ℕ) (c : Client) (b : Bool) (r r' : Option (Client × Bool))
    → Isolates id c r
    → Isolates id c r'
    → Isolates id c (if b then r else r')
if-Isolates id c true r r' h k = h
if-Isolates id c false r r' h k = k

pub Keeps-Isolates :
    (id : ℕ) (c d : Client) (r : Option (Client × Bool))
    → Isolated id c d
    → Keeps d r
    → Isolates id c r
Keeps-Isolates id c d r i k = record {
  isolated = λ c' ok e. record {
    keyed = subst IsKeyed (sym (k.kept c' ok e).same_streams) i.keyed;
    others = λ j h. ap (λ m. find_stream m j) (k.kept c' ok e).same_streams ∙ i.others j h;
  };
}

-- Writing one stream of the map.
pub written :
    (id : ℕ) (c d : Client) (s : Stream)
    → IsKeyed c.streams
    → s.id ≡ id
    → d.streams ≡ c.streams
    → Isolated id c (with_stream d s)
written id c d s a n e =
    changed id c d (with_stream d s) s (unchanged id c d a e) n
      (ap (λ k. put_stream d.streams k s) n)

after_block-Isolates :
    (o : Outside) (id : ℕ) (c : Client) (s : Stream) (b : Block)
    → IsKeyed c.streams
    → s.id ≡ id
    → Isolates id c (after_block o c s b)
unfolding after_block
after_block-Isolates o id c s (decoded t hs) a n =
    let s' = headers_ended s hs in
    let d = with_stream (record c { table = t }) s' in
    Keeps-Isolates id c d _ (written id c (record c { table = t }) s' a n refl)
      (answer-Keeps o d s')
after_block-Isolates o id c s (Block.refused t hs) a n =
    let s' = headers_ended s hs in
    let d = with_stream (record c { table = t }) s' in
    Keeps-Isolates id c d _ (written id c (record c { table = t }) s' a n refl)
      (answer-Keeps o d s')
after_block-Isolates o id c s (Block.raised t hs) a n =
    some-Isolates id c _ false
      (written id c (record c { table = t }) (record s { headers = s.headers ++ hs }) a n refl)
after_block-Isolates o id c s Block.undefined a n = none-Isolates id c
after_block-Isolates o id c s Block.stuck a n = none-Isolates id c

pub process_end_header-Isolates :
    (o : Outside) (id : ℕ) (c : Client) (s : Stream)
    → IsKeyed c.streams
    → s.id ≡ id
    → Isolates id c (process_end_header o c s)
unfolding process_end_header
process_end_header-Isolates o id c s a n = after_block-Isolates o id c s _ a n
