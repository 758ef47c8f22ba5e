-- ===== src/Client/Health.antt =====
-- The table, the settings and the header fragments of a client, under each handler.
use http_2_0_server.Base.{
  ℕ, ◌+◌, ◌^◌, ◌≤◌, ◌<◌, ◌≡◌, sym, Bool, true, false, Option, none, some, List, [], ◌∷◌, ◌++◌,
  length-append, ◌==◌, if◌then◌else◌, arith, All, All-append, Bool-cases, inl, inr,
}
use mathlib.Core.Path.{subst}
use http_2_0_server.Base.Bits.{IsByte}
use http_2_0_server.Http2.Frame.Payload.{IsPiece}
use http_2_0_server.Http2.Headers.{Header}
use http_2_0_server.Http2.Settings.Invariant.{IsValid}
use http_2_0_server.Http2.Hpack.Table.{Table}
use http_2_0_server.Http2.Hpack.Table.Eviction.{IsTable}
use http_2_0_server.Http2.Hpack.Decoder.{Block, decoded, decode_lowmem}
use http_2_0_server.Http2.Hpack.Safety.{IsBlock, decode_lowmem-IsBlock}
use http_2_0_server.Client.{Stream, Client, Outside, find_stream, erase_stream, put_stream}
use http_2_0_server.Client.FrameHandler.{
  with_stream, headers_ended, after_block, process_end_header,
}
use http_2_0_server.Client.Replies.{Unsent, Keeps, answer-Keeps}

-- The streams hold at most `n` bytes of a header block each.
abbrev pub Fragments : ℕ → List (ℕ × Stream) → Type 0
Fragments n m = All (λ (e : ℕ × Stream). IsPiece n e.1.header_fragments) m

pub record IsHealthy (n : ℕ) (c : Client) : Type 0 where
  pub table_valid : IsTable c.table
  pub settings_valid : IsValid c.settings
  pub fragments : Fragments n c.streams

pub wider-IsPiece : (n m : ℕ) (bs : List ℕ) → n ≤ m → IsPiece n bs → IsPiece m bs
wider-IsPiece n m bs l h = record { short = omega (arith, l, h.short); bytes = h.bytes }

wider-Fragments : (n k : ℕ) (m : List (ℕ × Stream)) → n ≤ k → Fragments n m → Fragments k m
wider-Fragments n k [] l h = tt
wider-Fragments n k ((j, s) ∷ m) l h =
    (wider-IsPiece n k s.header_fragments l h.0, wider-Fragments n k m l h.1)

pub wider-IsHealthy : (n m : ℕ) (c : Client) → n ≤ m → IsHealthy n c → IsHealthy m c
wider-IsHealthy n m c l h = record {
  table_valid = h.table_valid;
  settings_valid = h.settings_valid;
  fragments = wider-Fragments n m c.streams l h.fragments;
}

erase_stream-Fragments :
    (n : ℕ) (m : List (ℕ × Stream)) (id : ℕ) → Fragments n m → Fragments n (erase_stream m id)
unfolding erase_stream
erase_stream-Fragments n [] id h = tt
erase_stream-Fragments n ((k, s) ∷ m) id h = elim (Bool-cases (k == id)) [
  | inl hit ↦ rw hit (erase_stream-Fragments n m id h.1)
  | inr miss ↦ rw miss (h.0, erase_stream-Fragments n m id h.1)
]

some_inj : {x y : Stream} → some x ≡ some y → x ≡ y
some_inj e = cc

either_stream :
    (n : ℕ) (b : Bool) (x : Stream) (r : Option Stream) (s : Stream)
    → IsPiece n x.header_fragments
    → (r ≡ some s → IsPiece n s.header_fragments)
    → (if b then some x else r) ≡ some s
    → IsPiece n s.header_fragments
either_stream n true x r s h k e =
    subst (λ (y : Stream). IsPiece n y.header_fragments) (some_inj e) h
either_stream n false x r s h k e = k e

pub find_stream-IsPiece :
    (n : ℕ) (m : List (ℕ × Stream)) (id : ℕ) (s : Stream)
    → Fragments n m
    → find_stream m id ≡ some s
    → IsPiece n s.header_fragments
unfolding find_stream
find_stream-IsPiece n [] id s h e = absurd (ground (arith, e))
find_stream-IsPiece n ((k, x) ∷ m) id s h e =
    either_stream n (k == id) x (find_stream m id) s h.0 (find_stream-IsPiece n m id s h.1) e

pub with_stream-IsHealthy :
    (n : ℕ) (c : Client) (s : Stream)
    → IsHealthy n c
    → IsPiece n s.header_fragments
    → IsHealthy n (with_stream c s)
unfolding put_stream
with_stream-IsHealthy n c s h p = record {
  table_valid = h.table_valid;
  settings_valid = h.settings_valid;
  fragments = (p, erase_stream-Fragments n c.streams s.id h.fragments);
}

pub erased-IsHealthy :
    (n : ℕ) (c : Client) (id : ℕ)
    → IsHealthy n c
    → IsHealthy n (record c { streams = erase_stream c.streams id })
erased-IsHealthy n c id h = record {
  table_valid = h.table_valid;
  settings_valid = h.settings_valid;
  fragments = erase_stream-Fragments n c.streams id h.fragments;
}

Unsent-IsHealthy : (n : ℕ) (c d : Client) → Unsent c d → IsHealthy n c → IsHealthy n d
Unsent-IsHealthy n c d u h = record {
  table_valid = subst IsTable (sym u.same_table) h.table_valid;
  settings_valid = subst IsValid (sym u.same_settings) h.settings_valid;
  fragments = subst (Fragments n) (sym u.same_streams) h.fragments;
}

-- A call that returns leaves a healthy client.
pub record Heals (n : ℕ) (r : Option (Client × Bool)) : Type 0 where
  pub healed : (c : Client) (ok : Bool) → r ≡ some (c, ok) → IsHealthy n c

pub none-Heals : (n : ℕ) → Heals n none
none-Heals n = record { healed = λ c ok e. cc }

pub some-Heals : (n : ℕ) (c : Client) (ok : Bool) → IsHealthy n c → Heals n (some (c, ok))
some-Heals n c ok h = record { healed = λ d ok' e. let q : c ≡ d = cc in subst (IsHealthy n) q h }

pub if-Heals :
    (n : ℕ) (b : Bool) (r q : Option (Client × Bool))
    → Heals n r
    → Heals n q
    → Heals n (if b then r else q)
if-Heals n true r q h k = h
if-Heals n false r q h k = k

pub Keeps-Heals :
    (n : ℕ) (c : Client) (r : Option (Client × Bool)) → IsHealthy n c → Keeps c r → Heals n r
Keeps-Heals n c r h k = record { healed = λ d ok e. Unsent-IsHealthy n c d (k.kept d ok e) h }

pub no_fragments : (n : ℕ) → IsPiece n []
no_fragments n = record { short = omega arith; bytes = tt }

ended-IsHealthy :
    (n : ℕ) (c : Client) (s : Stream) (t : Table) (hs : List Header)
    → IsHealthy n c
    → IsTable t
    → IsHealthy n (with_stream (record c { table = t }) (headers_ended s hs))
ended-IsHealthy n c s t hs h v =
    with_stream-IsHealthy n (record c { table = t }) (headers_ended s hs)
      (record { table_valid = v; settings_valid = h.settings_valid; fragments = h.fragments })
      (no_fragments n)

after_block-Heals :
    (o : Outside) (n : ℕ) (c : Client) (s : Stream) (b : Block)
    → IsHealthy n c
    → IsPiece n s.header_fragments
    → IsBlock s.header_fragments b
    → Heals n (after_block o c s b)
unfolding after_block
after_block-Heals o n c s (decoded t hs) h p v =
    let d = with_stream (record c { table = t }) (headers_ended s hs) in
    Keeps-Heals n d _ (ended-IsHealthy n c s t hs h v) (answer-Keeps o d (headers_ended s hs))
after_block-Heals o n c s (Block.refused t hs) h p v =
    let d = with_stream (record c { table = t }) (headers_ended s hs) in
    Keeps-Heals n d _ (ended-IsHealthy n c s t hs h v) (answer-Keeps o d (headers_ended s hs))
after_block-Heals o n c s (Block.raised t hs) h p v = some-Heals n _ false (
    with_stream-IsHealthy n (record c { table = t }) (record s { headers = s.headers ++ hs })
      (record { table_valid = v; settings_valid = h.settings_valid; fragments = h.fragments }) p)
after_block-Heals o n c s Block.undefined h p v = none-Heals n
after_block-Heals o n c s Block.stuck h p v = none-Heals n

-- A header block that has come to its end, however long its fragments are within bounds.
pub process_end_header-Heals :
    (o : Outside) (n : ℕ) (c : Client) (s : Stream)
    → n < 2 ^ 58
    → IsHealthy n c
    → IsPiece n s.header_fragments
    → Heals n (process_end_header o c s)
unfolding process_end_header
process_end_header-Heals o n c s l h p =
    after_block-Heals o n c s (decode_lowmem c.table s.header_fragments) h p (
      decode_lowmem-IsBlock c.table s.header_fragments h.table_valid (omega (arith, p.short, l))
        p.bytes)

-- The fragments of a stream and the payload behind them.
pub append-IsPiece :
    (n k : ℕ) (xs ys : List ℕ) → IsPiece n xs → IsPiece k ys → IsPiece (n + k) (xs ++ ys)
append-IsPiece n k xs ys h j = record {
  short = omega (arith, h.short, j.short, length-append xs ys);
  bytes = All-append IsByte xs ys h.bytes j.bytes;
}
