-- ===== src/Connection/Enqueueing.antt =====
-- `TCPConnection::enqueue_segments` and the ways to shut down.
use cs144_labs.Prelude.{
  ◌≡◌, inl, inr, refl, sym, ap, ◌∙◌, Bool, true, false, not, ◌&&◌, List, [], ◌∷◌, ◌++◌, Bool-cases,
  if_false,
}
use mathlib.Core.List.{append_assoc, append-nil, map}
use cs144_labs.Segment.{TcpSegment}
use cs144_labs.Receiver
use cs144_labs.Receiver.{is_fin_recv}
use cs144_labs.Sender
use cs144_labs.Sender.{TcpSender, is_fin_acked, is_syn_acked}
use cs144_labs.Connection.{
  TcpConnection, with_ack, enqueue_from, enqueue_segments, is_finished, try_clean_shutdown,
  passive_close,
}

-- Without RST, all segments of the sender's queue are taken, in order, each with the acknowledgment
-- and the window that the receiver gives now.
pub enqueue_segments_all :
    (c : TcpConnection)
    → c.need_send_rst ≡ false
    → enqueue_segments c ≡ record c {
      sender = record c.sender { segments_out = [] };
      segments_out = c.segments_out ++ map (with_ack c.receiver) c.sender.segments_out;
    }
unfolding enqueue_from
enqueue_segments_all c e = from c c.sender.segments_out e
  where
    from :
        (c : TcpConnection) (segs : List TcpSegment)
        → c.need_send_rst ≡ false
        → enqueue_from c segs ≡ record c {
          sender = record c.sender { segments_out = [] };
          segments_out = c.segments_out ++ map (with_ack c.receiver) segs;
        }
    from c [] e =
        ap (λ t. record c { sender = record c.sender { segments_out = [] }; segments_out = t })
          (sym (append-nil c.segments_out))
    from c (seg ∷ rest) e =
        if_false _ _ e
        ∙ (from (record c { segments_out = c.segments_out ++ with_ack c.receiver seg ∷ [] }) rest e
            ∙ ap
                (λ t. record c { sender = record c.sender { segments_out = [] }; segments_out = t })
                (append_assoc c.segments_out (with_ack c.receiver seg ∷ [])
                  (map (with_ack c.receiver) rest)))

-- `try_clean_shutdown` only ever ends the connection: if it lingers, once the inbound stream has ended
-- and nothing was heard for ten timeouts; if not, once the FIN is acknowledged.
pub try_clean_shutdown_lem :
    (c : TcpConnection)
    → try_clean_shutdown c ≡ record c { active = c.active && not (is_finished c) }
unfolding try_clean_shutdown
try_clean_shutdown_lem c = elim (Bool-cases (is_finished c)) [
  | inl e ↦ rw e (ap (λ b. record c { active = b }) (and_false c.active))
  | inr e ↦ rw e (ap (λ b. record c { active = b }) (and_true c.active))
]
  where
    and_false : (b : Bool) → false ≡ (b && false)
    and_false true = refl
    and_false false = refl

    and_true : (b : Bool) → b ≡ (b && true)
    and_true true = refl
    and_true false = refl

-- A passive close changes the two flags at most.
pub passive_close_flags :
    (c : TcpConnection)
    → (linger active : Bool) × (passive_close c
        ≡ record c { linger_after_stream_finish = linger; active = active })
unfolding passive_close
passive_close_flags c =
    elim (Bool-cases
      (is_fin_recv (Receiver.state c.receiver) && is_syn_acked (Sender.state c.sender))) [
        | inl e ↦ (
          false,
          c.active && not (is_finished (record c { linger_after_stream_finish = false })),
          rw e (try_clean_shutdown_lem (record c { linger_after_stream_finish = false })),
        )
        | inr e ↦ (c.linger_after_stream_finish, c.active, rw e refl)
      ]
