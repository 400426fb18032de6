-- ===== src/Transfer/Delivering.antt =====
-- The actions at the network and at the receiver; every action keeps the invariant.
use cs144_labs.Prelude.{
  ℕ, zero, suc, ◌^◌, ◌<◌, ◌≡◌, inl, inr, refl, sym, ap, ◌∙◌, some, List, [], ◌∷◌, ◌++◌, arith,
  Bool-cases, some_inj, length, Option-cases,
}
use mathlib.Core.Path.{subst}
use cs144_labs.ByteStream.{read}
use cs144_labs.Segment.{TcpSegment}
use cs144_labs.Receiver.{TcpReceiver, segment_received}
use cs144_labs.Reassembler.Buffer.Holding.{IsPart}
use cs144_labs.Transfer.{
  Link, Action, writes, ends, fills, sends, acks, ticks, delivers, reads, nth, ends_in_window,
  arrive, perform, run, offered,
}
use cs144_labs.Transfer.Marking.{All, All-append, Bounded, IsIn}
use cs144_labs.Transfer.Calling.{sent-Sends}
use cs144_labs.Transfer.Receiving.{arrival, read_from, read_lem}
use cs144_labs.Transfer.Acting.{
  Invariant, stream_of, IsPart-stream_of, Leads, perform-writes, perform-ends, perform-fills,
  perform-acks, perform-ticks,
}

module _ (capacity isn : ℕ) (pos : 0 < capacity) (small : capacity < 2 ^ 63)
    (word : isn < 2 ^ 32) where
  perform-sends :
      (l : Link)
      → Invariant capacity isn l
      → Leads capacity isn pos small word l 0 (perform l sends)
  unfolding perform
  perform-sends l inv = (
    record l {
      sender = record l.sender { segments_out = [] };
      wire = l.wire ++ l.sender.segments_out;
    },
    refl,
    λ f part.
        let v = inv f part in
        record {
          sending = sent-Sends f isn (length l.given) l.sender v.sending;
          receiving = v.receiving;
          bounded = v.bounded;
          wire_placed =
              All-append _ l.wire l.sender.segments_out v.wire_placed v.sending.out_placed;
        },
    omega arith,
  )

  perform-reads :
      (l : Link) (len : ℕ)
      → Invariant capacity isn l
      → Leads capacity isn pos small word l 0 (perform l (reads len))
  unfolding perform
  perform-reads l len inv = (
    record l {
      receiver = read_from l.receiver len;
      taken = l.taken ++ (read l.receiver.reassembler.output len).1;
    },
    refl,
    λ f part.
        let v = inv f part in
        let (i, b) =
          read_lem f capacity isn (length l.given) len l.sender.stream.input_ended l.taken
            l.receiver pos small v.receiving v.bounded in
        record { sending = v.sending; receiving = i; bounded = b; wire_placed = v.wire_placed },
    omega arith,
  )

  -- The entry in a place has what holds of all.
  All-nth :
      (P : TcpSegment → Type 0) (segs : List TcpSegment) (n : ℕ) (seg : TcpSegment)
      → All P segs
      → nth segs n ≡ some seg
      → P seg
  All-nth P [] n seg a e = absurd (cc e)
  All-nth P (x ∷ segs) zero seg a e = subst P (some_inj e) a.0
  All-nth P (x ∷ segs) (suc n) seg a e = All-nth P segs n seg a.1 e

  arrive_lem :
      (l : Link) (n : ℕ) (seg : TcpSegment)
      → Invariant capacity isn l
      → length l.given < 2 ^ 31
      → nth l.wire n ≡ some seg
      → Leads capacity isn pos small word l 0 (arrive l (some seg))
  unfolding arrive
  arrive_lem l n seg inv h at = elim (Bool-cases (ends_in_window l.receiver seg l.receiver.isn)) [
    | inl e ↦
        let arrived : (f : ℕ → ℕ)
            → IsPart f l.given 0
            → (r : TcpReceiver) × (segment_received l.receiver seg ≡ some r)
              × IsIn f capacity isn l.taken r
              × Bounded (length l.given) l.sender.stream.input_ended r.reassembler =
          λ f part.
            let v = inv f part in
            arrival f capacity isn (length l.given) l.sender.stream.input_ended l.taken l.receiver
              seg pos small word h (All-nth _ l.wire n seg v.wire_placed at) v.bounded v.receiving
              e in
        let (r, done, _, _) = arrived (stream_of l.given) (IsPart-stream_of l.given) in
        (
          record l { receiver = r },
          rw (arrive, e, done) refl,
          λ f part.
              let v = inv f part in
              let (r', done', i, b) = arrived f part in
              let same : r' ≡ r = some_inj (sym done' ∙ done) in
              record {
                sending = v.sending;
                receiving = subst (IsIn f capacity isn l.taken) same i;
                bounded =
                    subst (λ t. Bounded (length l.given) l.sender.stream.input_ended t.reassembler)
                      same b;
                wire_placed = v.wire_placed;
              },
          omega arith,
        )
    | inr e ↦ (l, rw (arrive, e) refl, inv, omega arith)
  ]

  perform-delivers :
      (l : Link) (n : ℕ)
      → Invariant capacity isn l
      → length l.given < 2 ^ 31
      → Leads capacity isn pos small word l 0 (perform l (delivers n))
  unfolding perform
  perform-delivers l n inv h = elim (Option-cases (nth l.wire n)) [
    | inl e ↦ (l, ap (arrive l) e ∙ unfold arrive in refl, inv, omega arith)
    | inr s ↦
        let (l', run, inv', more) = arrive_lem l n s.0 inv h s.1 in
        (l', ap (arrive l) s.1 ∙ run, inv', more)
  ]

  -- Whatever is done, the invariant stays, and no assertion fails.
  pub perform_lem :
      (l : Link) (a : Action)
      → Invariant capacity isn l
      → length l.given < 2 ^ 31
      → Leads capacity isn pos small word l (offered a) (perform l a)
  perform_lem l (writes bytes) inv h = perform-writes capacity isn pos small word l bytes inv
  perform_lem l ends inv h = perform-ends capacity isn pos small word l inv
  perform_lem l fills inv h = perform-fills capacity isn pos small word l inv h
  perform_lem l sends inv h = perform-sends l inv
  perform_lem l (acks ackno window) inv h =
      perform-acks capacity isn pos small word l ackno window inv h
  perform_lem l (ticks ms) inv h = perform-ticks capacity isn pos small word l ms inv
  perform_lem l (delivers n) inv h = perform-delivers l n inv h
  perform_lem l (reads len) inv h = perform-reads l len inv
