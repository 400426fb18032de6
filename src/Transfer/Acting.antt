-- ===== src/Transfer/Acting.antt =====
-- The invariant of a transfer, and the actions at the sender.
use cs144_labs.Prelude.{
  ℕ, ◌+◌, ◌%◌, ◌^◌, ◌≤◌, ◌<◌, ◌≡◌, inl, inr, refl, sym, ap, some, List, ◌++◌, arith, Option,
  Bool-cases, length, get_or, take, length-append, length-take,
}
use mathlib.Core.Path.{subst}
use cs144_labs.ByteStream
use cs144_labs.ByteStream.{write, read}
use cs144_labs.Sender.{TcpSender, ack_received}
use cs144_labs.Sender.Filling.{fill_window-Filled}
use cs144_labs.Sender.Ticking.{tick_cases}
use cs144_labs.Reassembler.Buffer.Holding.{IsPart}
use cs144_labs.Transfer.{Link, writes, ends, fills, acks, ticks, perform}
use cs144_labs.Transfer.Marking.{
  All, All-map, IsPart-left, Placed, Placed-later, Sends, Bounded, IsIn,
}
use cs144_labs.Transfer.Sending.{fill_window-Sends}
use cs144_labs.Transfer.Rounds.{next_bound}
use cs144_labs.Transfer.Writing.{write-Sends, write-counters, end_input-Sends}
use cs144_labs.Transfer.Calling.{ack_received-Sends, tick-Sends}
use cs144_labs.Transfer.Bounding.{Bounded-later}

-- What holds of a transfer of bytes of `f`.
pub record Inv (f : ℕ → ℕ) (capacity isn : ℕ) (l : Link) : Type 0 where
  pub sending : Sends f isn (length l.given) l.sender
  pub receiving : IsIn f capacity isn l.taken l.receiver
  pub bounded : Bounded (length l.given) l.sender.stream.input_ended l.receiver.reassembler
  pub wire_placed : All (Placed f isn (length l.given) l.sender.stream.input_ended) l.wire

-- The same for every stream that begins with what was given.
abbrev pub Invariant : ℕ → ℕ → Link → Type 0
Invariant capacity isn l = (f : ℕ → ℕ) → IsPart f l.given 0 → Inv f capacity isn l

-- The stream of what was given.
abbrev pub stream_of : List ℕ → ℕ → ℕ
stream_of given i = get_or given i 0

pub IsPart-stream_of : (given : List ℕ) → IsPart (stream_of given) given 0
IsPart-stream_of given k h = ap (stream_of given) (omega arith)

module _ (capacity isn : ℕ) (pos : 0 < capacity) (small : capacity < 2 ^ 63)
    (word : isn < 2 ^ 32) where
  -- What an action leads to.
  abbrev pub Leads : Link → ℕ → Option Link → Type 0
  Leads l more result =
      (l' : Link) × (result ≡ some l')
      × Invariant capacity isn l'
      × (length l'.given ≤ length l.given + more)

  pub perform-writes :
      (l : Link) (bytes : List ℕ)
      → Invariant capacity isn l
      → Leads l (length bytes) (perform l (writes bytes))
  unfolding perform
  perform-writes l bytes inv = elim (Bool-cases l.sender.stream.input_ended) [
    | inl e ↦ (l, rw e refl, inv, omega arith)
    | inr e ↦
        let more = take (write l.sender.stream bytes).1 bytes in
        let longer = length-append l.given more in
        (
          record l {
            sender = record l.sender { stream = (write l.sender.stream bytes).0 };
            given = l.given ++ more;
          },
          rw e refl,
          λ f part.
              let v = inv f (IsPart-left f l.given more 0 part) in
              let (_, _, same, _) =
                write-counters l.sender.stream bytes v.sending.valid.stream_valid in
              record {
                sending = write-Sends f isn l.given bytes l.sender v.sending e part;
                receiving = v.receiving;
                bounded = Bounded-later _ _ _ _ _ (omega arith) (λ t. cc) v.bounded;
                wire_placed =
                    All-map _ _ l.wire (Placed-later f isn _ _ _ _ (omega arith) (λ t. cc))
                      v.wire_placed;
              },
          omega (arith, longer, length-take (write l.sender.stream bytes).1 bytes),
        )
  ]

  pub perform-ends : (l : Link) → Invariant capacity isn l → Leads l 0 (perform l ends)
  unfolding perform
  perform-ends l inv = (
    record l { sender = record l.sender { stream = ByteStream.end_input l.sender.stream } },
    refl,
    λ f part.
        let v = inv f part in
        record {
          sending = end_input-Sends f isn (length l.given) l.sender v.sending;
          receiving = v.receiving;
          bounded = Bounded-later _ _ _ _ _ (omega arith) (λ t. (refl, refl)) v.bounded;
          wire_placed =
              All-map _ _ l.wire (Placed-later f isn _ _ _ _ (omega arith) (λ t. (refl, refl)))
                v.wire_placed;
        },
    omega arith,
  )

  -- Another sender, of the same bytes.
  sender-Inv :
      (f : ℕ → ℕ) (l : Link) (s : TcpSender)
      → Inv f capacity isn l
      → Sends f isn (length l.given) s
      → s.stream.input_ended ≡ l.sender.stream.input_ended
      → Inv f capacity isn (record l { sender = s })
  sender-Inv f l s v w e = record {
    sending = w;
    receiving = v.receiving;
    bounded = subst (λ b. Bounded (length l.given) b l.receiver.reassembler) (sym e) v.bounded;
    wire_placed = subst (λ b. All (Placed f isn (length l.given) b) l.wire) (sym e) v.wire_placed;
  }

  pub perform-fills :
      (l : Link) → Invariant capacity isn l → length l.given < 2 ^ 31 → Leads l 0 (perform l fills)
  unfolding perform
  perform-fills l inv h =
      let v0 = (inv (stream_of l.given) (IsPart-stream_of l.given)).sending in
      let (s, done, _, _) =
        fill_window-Filled l.sender v0.valid
          (omega (arith, next_bound _ _ _ _ v0, v0.valid.acked_sent)) in
      (
        record l { sender = s },
        rw (perform, done) refl,
        λ f part.
            let v = inv f part in
            let (w, same) = fill_window-Sends f isn (length l.given) l.sender s h v.sending done in
            sender-Inv f l s v w same,
        omega arith,
      )

  pub perform-acks :
      (l : Link) (ackno window : ℕ)
      → Invariant capacity isn l
      → length l.given < 2 ^ 31
      → Leads l 0 (perform l (acks ackno window))
  unfolding perform
  perform-acks l ackno window inv h = (
    record l { sender = ack_received l.sender ackno (window % 2 ^ 16) },
    refl,
    λ f part.
        let v = inv f part in
        let (w, same) =
          ack_received-Sends f isn (length l.given) l.sender ackno (window % 2 ^ 16) v.sending h
            (omega arith) in
        sender-Inv f l _ v w same,
    omega arith,
  )

  pub perform-ticks :
      (l : Link) (ms : ℕ) → Invariant capacity isn l → Leads l 0 (perform l (ticks ms))
  unfolding perform
  perform-ticks l ms inv =
      let v0 = (inv (stream_of l.given) (IsPart-stream_of l.given)).sending in
      let (s, done, _, _) = tick_cases l.sender ms v0.valid in
      (
        record l { sender = s },
        rw (perform, done) refl,
        λ f part.
            let v = inv f part in
            let (w, same) = tick-Sends f isn (length l.given) l.sender s ms v.sending done in
            sender-Inv f l s v w same,
        omega arith,
      )
