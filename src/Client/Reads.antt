-- ===== src/Client/Reads.antt =====
-- A connection over any number of calls of Client::doRequest: its table and its settings.
use http_2_0_server.Base.{
  All-take, All-drop, ℕ, zero, suc, ◌+◌, ◌-◌, ◌*◌, ◌^◌, ◌≤◌, ◌<◌, ◌≡◌, refl, Bool, true, false,
  Option, none, some, List, [], ◌∷◌, ◌++◌, length, length-take, take, drop, resize, arith, All,
  All-append, if◌then◌else◌,
}
use mathlib.Core.Path.{subst}
use http_2_0_server.Base.Bits.{IsByte}
use http_2_0_server.Http2.Frame.{Frame, Parsed, frames}
use http_2_0_server.Http2.Frame.Payload.{IsPiece, Pieces, to_frames_before-Pieces}
use http_2_0_server.Http2.Headers.{total_size}
use http_2_0_server.Http2.Settings.Invariant.{IsValid}
use http_2_0_server.Http2.Hpack.Table.Eviction.{IsTable}
use http_2_0_server.Client.{Client, Outside, apply_settings}
use http_2_0_server.Client.FrameHandler.{handle_frame}
use http_2_0_server.Client.Request.{
  Connection, new_connection, Received, failed, ended, received, is_again, buffer_size, preface,
  handle_all, handle_parsed, then_handle, with_client, received_frames, read_buffer, do_request,
}
use http_2_0_server.Client.Replies.{send_frame-Keeps}
use http_2_0_server.Client.Sequence.{read_all, then_read}
use http_2_0_server.Client.Health.{IsHealthy, wider-IsHealthy, wider-IsPiece, Heals, Keeps-Heals}
use http_2_0_server.Client.Healing.{handle_frame-Heals}

HealthyClient : ℕ → Option Client → Type 0
HealthyClient n none = Unit
HealthyClient n (some c) = IsHealthy n c

some-HealthyClient : (n : ℕ) (c : Client) → IsHealthy n c → HealthyClient n (some c)
unfolding HealthyClient
some-HealthyClient n c h = h

none-HealthyClient : (n : ℕ) → HealthyClient n none
unfolding HealthyClient
none-HealthyClient n = tt

then_handle-HealthyClient :
    (n m : ℕ) (r : Option (Client × Bool)) (next : Client → Option Client)
    → Heals n r
    → ((c : Client) → IsHealthy n c → HealthyClient m (next c))
    → HealthyClient m (then_handle r next)
then_handle-HealthyClient n m none next h k = none-HealthyClient m
then_handle-HealthyClient n m (some (c, ok)) next h k = k c (h.healed c ok refl)

-- Frames of 4096 bytes at most, the payloads added to what the streams hold.
handle_all-HealthyClient :
    (o : Outside) (n m : ℕ) (c : Client) (fs : List Frame)
    → n + 4096 * length fs ≤ m
    → m < 2 ^ 58
    → IsHealthy n c
    → All (λ (f : Frame). IsPiece 4096 f.payload) fs
    → HealthyClient m (handle_all o c fs)
unfolding handle_all
handle_all-HealthyClient o n m c [] l b h p =
    some-HealthyClient m c (wider-IsHealthy n m c (omega (arith, l)) h)
handle_all-HealthyClient o n m c (f ∷ fs) l b h p =
    then_handle-HealthyClient (n + 4096) m (handle_frame o c f) (λ d. handle_all o d fs)
      (handle_frame-Heals o n 4096 (omega (arith, l, b)) c f h p.0)
      (λ d k. handle_all-HealthyClient o (n + 4096) m d fs (omega (arith, l)) b k p.1)

wider-All :
    (n : ℕ) (fs : List Frame)
    → n ≤ 4096
    → All (λ (f : Frame). IsPiece n f.payload) fs
    → All (λ (f : Frame). IsPiece 4096 f.payload) fs
wider-All n [] l h = tt
wider-All n (f ∷ fs) l h = (wider-IsPiece n 4096 f.payload l h.0, wider-All n fs l h.1)

-- The frames of one read; they hold less than 2 ^ 24 bytes together.
handle_parsed-HealthyClient :
    (o : Outside) (n k : ℕ) (c : Client) (r : Parsed)
    → n + 2 ^ 24 < 2 ^ 58
    → k ≤ 4096
    → IsHealthy n c
    → Pieces k k r
    → HealthyClient (n + 2 ^ 24) (handle_parsed o c r)
handle_parsed-HealthyClient o n k c (frames fs) b l h p =
    handle_all-HealthyClient o n (n + 2 ^ 24) c fs (omega (arith, p.0, l)) b h
      (wider-All k fs l p.1)
handle_parsed-HealthyClient o n k c Parsed.fault b l h p = none-HealthyClient (n + 2 ^ 24)
handle_parsed-HealthyClient o n k c Parsed.stuck b l h p = none-HealthyClient (n + 2 ^ 24)

-- A healthy client, and a buffer of bytes.
pub record IsLive (n : ℕ) (c : Connection) : Type 0 where
  pub healthy : IsHealthy n c.client
  pub buffer_bytes : All IsByte c.recv_buffer

Live : ℕ → Option Connection → Type 0
Live n none = Unit
Live n (some c) = IsLive n c

some-Live : (n : ℕ) (c : Connection) → IsLive n c → Live n (some c)
unfolding Live
some-Live n c h = h

with_client-Live :
    (n : ℕ) (c : Connection) (buffer : List ℕ) (r : Option Client)
    → All IsByte buffer
    → HealthyClient n r
    → Live n (with_client c buffer r)
unfolding Live HealthyClient
with_client-Live n c buffer none b h = tt
with_client-Live n c buffer (some d) b h = record { healthy = h; buffer_bytes = b }

if-Live :
    (n : ℕ) (b : Bool) (r q : Option Connection) → Live n r → Live n q → Live n (if b then r else q)
if-Live n true r q h k = h
if-Live n false r q h k = k

resize-bytes : (n : ℕ) (p : List ℕ) → All IsByte p → All IsByte (resize n p)
unfolding resize
resize-bytes zero p h = tt
resize-bytes (suc n) [] h = (omega arith, resize-bytes n [] tt)
resize-bytes (suc n) (b ∷ p) h = (h.0, resize-bytes n p h.1)

-- The frames of at most 4096 bytes of a buffer.
part-HealthyClient :
    (o : Outside) (n k : ℕ) (c : Client) (buffer : List ℕ)
    → n + 2 ^ 24 < 2 ^ 58
    → k ≤ 4096
    → IsHealthy n c
    → All IsByte buffer
    → HealthyClient (n + 2 ^ 24) (handle_parsed o c (received_frames buffer k))
part-HealthyClient o n k c buffer b l h v =
    handle_parsed-HealthyClient o n (length (take k buffer)) c (received_frames buffer k) b
      (omega (arith, l, length-take k buffer)) h
      (to_frames_before-Pieces (drop k buffer) (take k buffer) (All-take IsByte k buffer v))

read_buffer-Live :
    (o : Outside) (n k : ℕ) (c : Connection) (buffer : List ℕ)
    → n + 2 ^ 24 < 2 ^ 58
    → k ≤ 4096
    → IsHealthy n c.client
    → All IsByte buffer
    → Live (n + 2 ^ 24) (read_buffer o c buffer k)
unfolding read_buffer apply_settings
read_buffer-Live o n k c buffer b l h v =
    let rest = drop (length preface) buffer in
    let w = All-drop IsByte (length preface) buffer v in
    let next = λ (d : Client). handle_parsed o d (received_frames rest (k - length preface)) in
    if-Live (n + 2 ^ 24) _ _ _
      (with_client-Live (n + 2 ^ 24) c rest (then_handle (apply_settings o c.client) next) w (
        then_handle-HealthyClient n (n + 2 ^ 24) (apply_settings o c.client) next
          (Keeps-Heals n c.client _ h (send_frame-Keeps o c.client _))
          (λ d i. part-HealthyClient o n (k - length preface) d rest b (omega (arith, l)) i w)))
      (with_client-Live (n + 2 ^ 24) c buffer _ v
        (part-HealthyClient o n k c.client buffer b l h v))

-- What SSL_read can give.
abbrev pub IsReceived : Received → Type 0
IsReceived (received bytes) = (length bytes ≤ 4096) × All IsByte bytes
IsReceived _ = Unit

do_request-Live :
    (o : Outside) (n : ℕ) (c : Connection) (r : Received)
    → n + 2 ^ 24 < 2 ^ 58
    → IsReceived r
    → IsLive n c
    → Live (n + 2 ^ 24) (do_request o c r)
unfolding do_request
do_request-Live o n c (failed errno) b v h =
    let w = wider-IsHealthy n (n + 2 ^ 24) c.client (omega arith) h.healthy in
    let z = resize-bytes buffer_size c.recv_buffer h.buffer_bytes in
    if-Live (n + 2 ^ 24) (is_again errno) _ _
      (some-Live (n + 2 ^ 24) _ (record { healthy = w; buffer_bytes = z }))
      (some-Live (n + 2 ^ 24) _ (record {
        healthy = record {
          table_valid = w.table_valid;
          settings_valid = w.settings_valid;
          fragments = w.fragments;
        };
        buffer_bytes = z;
      }))
do_request-Live o n c ended b v h =
    let w = wider-IsHealthy n (n + 2 ^ 24) c.client (omega arith) h.healthy in
    some-Live (n + 2 ^ 24) _ (record {
      healthy = record {
        table_valid = w.table_valid;
        settings_valid = w.settings_valid;
        fragments = w.fragments;
      };
      buffer_bytes = resize-bytes buffer_size c.recv_buffer h.buffer_bytes;
    })
do_request-Live o n c (received bytes) b v h =
    let old = resize buffer_size c.recv_buffer in
    read_buffer-Live o n (length bytes) c (bytes ++ drop (length bytes) old) b v.0 h.healthy (
      All-append IsByte bytes (drop (length bytes) old) v.1 (
        All-drop IsByte (length bytes) old (resize-bytes buffer_size c.recv_buffer h.buffer_bytes)))

then_read-Live :
    (n m : ℕ) (r : Option Connection) (next : Connection → Option Connection)
    → Live n r
    → ((c : Connection) → IsLive n c → Live m (next c))
    → Live m (then_read r next)
unfolding Live
then_read-Live n m none next h k = tt
then_read-Live n m (some c) next h k = k c h

calls-Live :
    (o : Outside) (n m : ℕ) (c : Connection) (rs : List Received)
    → n + 2 ^ 24 * length rs ≤ m
    → m < 2 ^ 58
    → All IsReceived rs
    → IsLive n c
    → Live m (read_all o c rs)
unfolding read_all
calls-Live o n m c [] l b v h = some-Live m c (record {
  healthy = wider-IsHealthy n m c.client (omega (arith, l)) h.healthy;
  buffer_bytes = h.buffer_bytes;
})
calls-Live o n m c (r ∷ rs) l b v h =
    then_read-Live (n + 2 ^ 24) m (do_request o c r) (λ d. read_all o d rs)
      (do_request-Live o n c r (omega (arith, l, b)) v.0 h)
      (λ d k. calls-Live o (n + 2 ^ 24) m d rs (omega (arith, l)) b v.1 k)

new_connection-IsLive : (id fd now : ℕ) → IsLive 0 (new_connection id fd now)
unfolding new_connection total_size
new_connection-IsLive id fd now = record {
  healthy = record {
    table_valid = record { exact = refl; within = omega arith; max_word = omega arith };
    settings_valid = record {
      push_flag = omega arith;
      window = omega arith;
      frame_low = omega arith;
      frame_high = omega arith;
    };
    fragments = tt;
  };
  buffer_bytes = resize-bytes buffer_size [] tt;
}

-- Whatever bytes a new connection receives, in up to 2 ^ 33 calls that return, none coming to an
-- abort, an exception or undefined behaviour, its dynamic table keeps its size exact and within its
-- bound, and its settings stay within their limits.
pub read_all-IsTable :
    (o : Outside) (id fd now : ℕ) (c : Connection) (rs : List Received)
    → length rs ≤ 2 ^ 33
    → All IsReceived rs
    → read_all o (new_connection id fd now) rs ≡ some c
    → IsTable c.client.table × IsValid c.client.settings
unfolding Live
read_all-IsTable o id fd now c rs l v e =
    let m = 2 ^ 24 * length rs in
    let h : IsLive m c = subst (Live m) e (
      calls-Live o 0 m (new_connection id fd now) rs (omega arith) (omega (arith, l)) v
        (new_connection-IsLive id fd now)) in
    (h.healthy.table_valid, h.healthy.settings_valid)
