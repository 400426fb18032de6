-- ===== src/Relay/Conservation/Running.antt =====
-- The loop of the relay, on a kernel whose calls succeed.
use cs144_labs.Prelude.{
  ℕ, zero, suc, ◌≡◌, ◌≢◌, refl, sym, inl, inr, some, List, [], arith, Bool-cases, tabulate-zero,
}
use cs144_labs.ByteStream
use cs144_labs.ByteStream.{ByteStream, peek_output, pop_output}
use cs144_labs.ByteStream.Validity.{new-IsValid}
use cs144_labs.ByteStream.Refinement.{contents}
use cs144_labs.Util.FileDescriptor.{FdWrapper}
use cs144_labs.Util.EventLoop.{is_exit, Rule, PollFd}
use cs144_labs.Util.EventLoop.Contract.{AllHonest, no_rules, and_rule, Answers, Subrules-AllHonest}
use cs144_labs.Util.EventLoop.Serving.{wait_next_event_lem}
use cs144_labs.Relay.{RelayCalls, Relay, stream_size, start, relay_rules, poll_relay, relay_loop}
use cs144_labs.Relay.Conservation.{IsKernel, Flow, Flow-Same, Flow-end_input}
use cs144_labs.Relay.Conservation.Steps.{
  Conserved, read_input-Served, write_socket-Served, read_socket-Served, write_output-Served,
}

module _ {K : Type 0} (given received : K → ℕ → List ℕ) (calls : RelayCalls K)
    (honest : IsKernel given received calls) where
  ended_outbound :
      (w : Relay K)
      → Conserved given received calls w
      → Conserved given received calls (record w { outbound = ByteStream.end_input w.outbound })
  ended_outbound w c = record {
    out_flow = Flow-end_input given received c.out_flow;
    in_flow = c.in_flow;
    input_apart = c.input_apart;
    output_apart = c.output_apart;
  }

  ended_inbound :
      (w : Relay K)
      → Conserved given received calls w
      → Conserved given received calls (record w { inbound = ByteStream.end_input w.inbound })
  ended_inbound w c = record {
    out_flow = c.out_flow;
    in_flow = Flow-end_input given received c.in_flow;
    input_apart = c.input_apart;
    output_apart = c.output_apart;
  }

  rules-AllHonest : AllHonest (Conserved given received calls) (relay_rules calls)
  rules-AllHonest =
      and_rule
        (record {
          calls = read_input-Served given received calls honest;
          cancels = λ w c. (_, refl, ended_outbound w c);
        })
        (and_rule
          (record {
            calls = write_socket-Served given received calls honest;
            cancels = λ w c. (_, refl, ended_outbound w c);
          })
          (and_rule
            (record {
              calls = read_socket-Served given received calls honest;
              cancels = λ w c. (_, refl, ended_inbound w c);
            })
            (and_rule
              (record {
                calls = write_output-Served given received calls honest;
                cancels = λ w c. (_, refl, ended_inbound w c);
              })
              no_rules)))

  poll_relay_lem :
      (w : Relay K) (ps : List PollFd)
      → Conserved given received calls w
      → Answers ps (poll_relay calls w ps).1
        × Conserved given received calls (poll_relay calls w ps).0
  poll_relay_lem w ps c = (
    honest.poll_answers w.kernel ps,
    record {
      out_flow = Flow-Same given received (honest.poll_same w.kernel ps) c.out_flow;
      in_flow = Flow-Same given received (honest.poll_same w.kernel ps) c.in_flow;
      input_apart = c.input_apart;
      output_apart = c.output_apart;
    },
  )

  relay_loop-Conserved :
      (fuel : ℕ) (rules : List (Rule (Relay K))) (w : Relay K)
      → AllHonest (Conserved given received calls) rules
      → Conserved given received calls w
      → (w' : Relay K) × (relay_loop calls fuel rules w ≡ some w')
        × Conserved given received calls w'
  unfolding relay_loop
  relay_loop-Conserved zero rules w h c = (w, refl, c)
  relay_loop-Conserved (suc fuel) rules w h c =
      let (result, rules', w', done, sub, c', _) =
        wait_next_event_lem (Conserved given received calls) (poll_relay calls) rules w h
          poll_relay_lem c in
      let (w'', later, c'') =
        relay_loop-Conserved fuel rules' w'
          (Subrules-AllHonest (Conserved given received calls) sub h) c' in
      elim (Bool-cases (is_exit result)) [
        | inl e ↦ (w', rw (relay_loop, done, e) refl, c')
        | inr e ↦ (w'', rw (relay_loop, done, e) later, c'')
      ]

no_contents :
    (capacity : ℕ)
    → let nothing_held : List ℕ = [] in contents (ByteStream.new capacity) ≡ nothing_held
unfolding ByteStream.new
no_contents capacity = tabulate-zero _

-- A new stream, between descriptors that have moved no bytes.
Flow-new :
    {K : Type 0} (given received : K → ℕ → List ℕ) (k : K) (from to : ℕ)
    → ((fd : ℕ) → given k fd ≡ [])
    → ((fd : ℕ) → received k fd ≡ [])
    → Flow given received k from to (ByteStream.new stream_size)
Flow-new given received k from to g r = record {
  valid = new-IsValid stream_size (omega arith) (omega arith);
  bytes = rw (g from, r to, no_contents stream_size) refl;
}

-- On a kernel whose calls succeed and do to the bytes what they document, that has moved none yet, and
-- with a socket that is neither standard input nor output: any number of rounds of the loop end without
-- an exception, a busy wait included, and then the bytes read from standard input are those that the
-- socket took followed by those that wait in the outbound stream, the same holds from the socket to
-- standard output with the inbound stream, and both streams are valid.
pub relay_loop_lem :
    {K : Type 0} (given received : K → ℕ → List ℕ) (calls : RelayCalls K) (fuel : ℕ)
    (socket : FdWrapper) (kernel : K)
    → IsKernel given received calls
    → socket.fd ≢ 0
    → socket.fd ≢ 1
    → ((fd : ℕ) → given kernel fd ≡ [])
    → ((fd : ℕ) → received kernel fd ≡ [])
    → (w : Relay K) × (relay_loop calls fuel (relay_rules calls) (start socket kernel) ≡ some w)
      × Conserved given received calls w
unfolding start
relay_loop_lem given received calls fuel socket kernel honest i o g r =
    relay_loop-Conserved given received calls honest fuel (relay_rules calls) (start socket kernel)
      (rules-AllHonest given received calls honest)
      (record {
        out_flow = Flow-new given received kernel 0 socket.fd g r;
        in_flow = Flow-new given received kernel socket.fd 1 g r;
        input_apart = λ t. i (sym t);
        output_apart = λ t. o (sym t);
      })
