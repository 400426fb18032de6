-- ===== src/Connection/Ending.antt =====
-- A connection that has ended stays ended.
use cs144_labs.Prelude.{
  ℕ, ◌≡◌, sym, inl, inr, refl, ◌∙◌, Bool, true, false, Option, none, some, List, [], ◌∷◌, ◌++◌,
  arith, Bool-cases, if_false, if◌then◌else◌, ltb,
}
use mathlib.Core.Path.{subst}
use cs144_labs.Segment.{TcpSegment}
use cs144_labs.Receiver
use cs144_labs.Receiver.{TcpReceiver}
use cs144_labs.Sender
use cs144_labs.Sender.{TcpSender}
use cs144_labs.ByteStream
use cs144_labs.Connection
use cs144_labs.Connection.{
  TcpConnection, enqueue_from, enqueue_segments, unclean_shutdown, passive_close, reply, send_on,
  send_filled, accept_segment, is_ignored, segment_received, fill_and_enqueue, after_tick,
  try_clean_shutdown, is_finished, needs_reply, tell_sender,
}
use cs144_labs.Connection.Handling.{rst_kills}

active-enqueue_from :
    (c : TcpConnection) (segs : List TcpSegment) → (enqueue_from c segs).active ≡ c.active
unfolding enqueue_from
active-enqueue_from c [] = refl
active-enqueue_from c (seg ∷ rest) = ground (
  arith,
  active-enqueue_from
      (record c { segments_out = c.segments_out ++ Connection.with_ack c.receiver seg ∷ [] }) rest,
)

-- Enqueueing or shutting down never makes a connection active.
Inactive-enqueue_segments :
    (c : TcpConnection) → c.active ≡ false → (enqueue_segments c).active ≡ false
Inactive-enqueue_segments c e = active-enqueue_from c c.sender.segments_out ∙ e

Inactive-try_clean_shutdown :
    (c : TcpConnection) → c.active ≡ false → (try_clean_shutdown c).active ≡ false
unfolding try_clean_shutdown
Inactive-try_clean_shutdown c e = ground arith

Inactive-passive_close : (c : TcpConnection) → c.active ≡ false → (passive_close c).active ≡ false
unfolding passive_close try_clean_shutdown
Inactive-passive_close c e = ground arith

-- What a call returns, if it does, is not active.
abbrev pub Inactive : Option TcpConnection → Type 0
Inactive none = Unit {0}
Inactive (some c) = c.active ≡ false

Inactive-fill_and_enqueue : (c : TcpConnection) → c.active ≡ false → Inactive (fill_and_enqueue c)
unfolding fill_and_enqueue
Inactive-fill_and_enqueue c e = by_filled (Sender.fill_window c.sender)
  where
    by_filled :
        (o : Option TcpSender)
        → Inactive (elim o as (λ _. Option TcpConnection) [
          | none ↦ none
          | some sender ↦ some (enqueue_segments (record c { sender = sender }))
        ])
    by_filled none = tt
    by_filled (some s) = Inactive-enqueue_segments (record c { sender = s }) e

Inactive-reply : (c : TcpConnection) (seg : TcpSegment) → c.active ≡ false → Inactive (reply c seg)
unfolding reply
Inactive-reply c seg e = by_need (needs_reply c.receiver seg)
  where
    by_need :
        (o : Option Bool)
        → Inactive (elim o as (λ _. Option TcpConnection) [
          | none ↦ none
          | some answer ↦ some (
              enqueue_segments (
                try_clean_shutdown (record c {
                  sender = if answer then Sender.send_empty_segment c.sender else c.sender;
                })))
        ])
    by_need none = tt
    by_need (some answer) =
        let c1 = record c {
          sender = if answer then Sender.send_empty_segment c.sender else c.sender;
        } in
        Inactive-enqueue_segments (try_clean_shutdown c1) (Inactive-try_clean_shutdown c1 e)

Inactive-send_on :
    (c : TcpConnection) (seg : TcpSegment) → c.active ≡ false → Inactive (send_on c seg)
unfolding send_on send_filled
Inactive-send_on c seg e =
    by_filled (passive_close (record c { sender = tell_sender c.sender seg }))
      (Inactive-passive_close (record c { sender = tell_sender c.sender seg }) e)
      (Sender.fill_window (passive_close (record c { sender = tell_sender c.sender seg })).sender)
  where
    by_filled :
        (d : TcpConnection)
        → d.active ≡ false
        → (o : Option TcpSender)
        → Inactive (elim o as (λ _. Option TcpConnection) [
          | none ↦ none
          | some sender ↦ reply (record d { sender = sender }) seg
        ])
    by_filled d f none = tt
    by_filled d f (some s) = Inactive-reply (record d { sender = s }) seg f

Inactive-segment_received :
    (c : TcpConnection) (seg : TcpSegment) → c.active ≡ false → Inactive (segment_received c seg)
unfolding segment_received accept_segment unclean_shutdown
Inactive-segment_received c seg e = elim (Bool-cases (is_ignored c seg)) [
  | inl i ↦ rw i e
  | inr i ↦ elim (Bool-cases seg.header.rst) [
    | inl r ↦ rw (i, r) refl
    | inr r ↦
        subst Inactive (sym (if_false (some c) _ i ∙ if_false (some (unclean_shutdown heard)) _ r))
          (by_received (Receiver.segment_received c.receiver seg))
  ]
]
  where
    heard : TcpConnection
    heard = record c { ms_since_last_recv = 0 }

    by_received :
        (o : Option TcpReceiver)
        → Inactive (elim o as (λ _. Option TcpConnection) [
          | none ↦ none
          | some receiver ↦ send_on (record c { ms_since_last_recv = 0; receiver = receiver }) seg
        ])
    by_received none = tt
    by_received (some r) =
        Inactive-send_on (record c { ms_since_last_recv = 0; receiver = r }) seg e

Inactive-after_tick : (c : TcpConnection) → c.active ≡ false → (after_tick c).active ≡ false
unfolding after_tick unclean_shutdown
Inactive-after_tick c e =
    elim (Bool-cases
      (ltb Connection.max_retx_attempts (Sender.consecutive_retransmissions c.sender))) [
        | inl h ↦ rw h (Inactive-enqueue_segments _ refl)
        | inr h ↦ rw h (Inactive-enqueue_segments _ (Inactive-try_clean_shutdown c e))
      ]

Inactive-tick : (c : TcpConnection) (ms : ℕ) → c.active ≡ false → Inactive (Connection.tick c ms)
unfolding Connection.tick
Inactive-tick c ms e = by_ticked (Sender.tick c.sender ms)
  where
    by_ticked :
        (o : Option TcpSender)
        → Inactive (elim o as (λ _. Option TcpConnection) [
          | none ↦ none
          | some sender ↦ some (
              after_tick (record c {
                ms_since_last_recv = Connection.add64 c.ms_since_last_recv ms;
                sender = sender;
              }))
        ])
    by_ticked none = tt
    by_ticked (some s) =
        Inactive-after_tick
          (record c { ms_since_last_recv = Connection.add64 c.ms_since_last_recv ms; sender = s }) e

-- The connection after a write, without the number of bytes.
abbrev pub written : Option (TcpConnection × ℕ) → Option TcpConnection
written none = none
written (some (c, size)) = some c

Inactive-write :
    (c : TcpConnection) (bytes : List ℕ)
    → c.active ≡ false
    → Inactive (written (Connection.write c bytes))
unfolding Connection.write
Inactive-write c bytes e =
    by_filled
      (fill_and_enqueue (record c {
        sender = record c.sender { stream = (ByteStream.write c.sender.stream bytes).0 };
      }))
      (Inactive-fill_and_enqueue
        (record c {
          sender = record c.sender { stream = (ByteStream.write c.sender.stream bytes).0 };
        })
        e)
  where
    by_filled :
        (o : Option TcpConnection)
        → Inactive o
        → Inactive (
            written (elim o as (λ _. Option (TcpConnection × ℕ)) [
              | none ↦ none
              | some c' ↦ some (c', (ByteStream.write c.sender.stream bytes).1)
            ]))
    by_filled none i = tt
    by_filled (some d) i = i

-- A call of a method of the connection that changes it.
pub data Call : Type 0 where
  hears : TcpSegment → Call
  ticks : ℕ → Call
  writes : List ℕ → Call
  ends connects : Call

abbrev pub perform : TcpConnection → Call → Option TcpConnection
perform c (hears seg) = segment_received c seg
perform c (ticks ms) = Connection.tick c ms
perform c (writes bytes) = written (Connection.write c bytes)
perform c ends = Connection.end_input_stream c
perform c connects = Connection.connect c

-- The calls one after another, as far as none throws.
abbrev pub run : TcpConnection → List Call → Option TcpConnection
run c [] = some c
run c (x ∷ xs) = elim (perform c x) [ none ↦ none | some c' ↦ run c' xs ]

Inactive-perform : (c : TcpConnection) (x : Call) → c.active ≡ false → Inactive (perform c x)
unfolding Connection.end_input_stream Connection.connect
Inactive-perform c (hears seg) e = Inactive-segment_received c seg e
Inactive-perform c (ticks ms) e = Inactive-tick c ms e
Inactive-perform c (writes bytes) e = Inactive-write c bytes e
Inactive-perform c ends e =
    Inactive-fill_and_enqueue
      (record c { sender = record c.sender { stream = ByteStream.end_input c.sender.stream } }) e
Inactive-perform c connects e = Inactive-fill_and_enqueue c e

-- A connection that is not active never becomes active again: whatever calls follow, of segments that
-- arrive, ticks, writes, the end of the stream and connects, either one of them throws, or it is not
-- active after them.
run-Inactive : (c : TcpConnection) (xs : List Call) → c.active ≡ false → Inactive (run c xs)
run-Inactive c [] e = e
run-Inactive c (x ∷ xs) e =
    by_call (perform c x) (Inactive-perform c x e) (λ d i. run-Inactive d xs i)
  where
    by_call :
        (o : Option TcpConnection)
        → Inactive o
        → ((d : TcpConnection) → d.active ≡ false → Inactive (run d xs))
        → Inactive (elim o as (λ _. Option TcpConnection) [ none ↦ none | some c' ↦ run c' xs ])
    by_call none i later = tt
    by_call (some d) i later = later d i

-- A RST that is not ignored ends the connection for good: nothing is sent in reply, both streams are in
-- error, and whatever calls follow, of segments that arrive, ticks, writes, the end of the stream and
-- connects, either one of them throws, or the connection is not active after them.
pub rst_ends :
    (c : TcpConnection) (seg : TcpSegment) (xs : List Call)
    → is_ignored c seg ≡ false
    → seg.header.rst ≡ true
    → (c' : TcpConnection) × (segment_received c seg ≡ some c')
      × (Receiver.state c'.receiver ≡ Receiver.State.error)
      × (Sender.state c'.sender ≡ Sender.State.error)
      × (c'.segments_out ≡ c.segments_out)
      × Inactive (run c' xs)
rst_ends c seg xs e f =
    let (c', done, inactive, _, receiver_error, sender_error, same, _) = rst_kills c seg e f in
    (c', done, receiver_error, sender_error, same, run-Inactive c' xs inactive)
