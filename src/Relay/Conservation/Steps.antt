-- ===== src/Relay/Conservation/Steps.antt =====
-- Every callback of the relay returns, counts its read or write, and conserves the bytes.
use cs144_labs.Prelude.{
  ℕ, ◌*◌, ◌^◌, ◌≤◌, ◌<◌, min, ◌≡◌, ◌≢◌, refl, sym, ap, ◌∙◌, inl, inr, Bool, true, false, ◌&&◌, some,
  List, [], ◌∷◌, ◌++◌, arith, ◌==◌, Bool-cases, length, length-take, add32,
}
use mathlib.Core.List.{append-nil}
use cs144_labs.ByteStream
use cs144_labs.ByteStream.{ByteStream, peek_output, pop_output}
use cs144_labs.ByteStream.Refinement.{contents, length-contents}
use cs144_labs.ByteStream.Queue.{peek_refines}
use cs144_labs.Util.Buffer.Removal.{joined}
use cs144_labs.Util.FileDescriptor.{FdWrapper, register_write, close}
use cs144_labs.Util.FileDescriptor.Rounds.{write_once}
use cs144_labs.Util.UdpSocket.{Shutdown, shutdown}
use cs144_labs.Util.EventLoop.{Rule, service_count}
use cs144_labs.Socket.Rules.Pumping.{counter_moves}
use cs144_labs.Relay.{
  RelayCalls, Relay, max_copy_length, fed, after_input_read, after_socket_read, read_input,
  shut_socket, write_socket, read_socket, close_output, write_output, rule_1, rule_2, rule_3,
  rule_4,
}
use cs144_labs.Relay.Conservation.{IsKernel, Flow, Flow-Same, Flow-fed, Flow-popped}
use cs144_labs.Relay.Conservation.Reading.{Gave, read_lem}

idle : (n m : ℕ) (interested : Bool) → m ≡ add32 n 1 → ((n == m) && interested) ≡ false
idle n m interested e = rw (e, (counter_moves n).0) refl

module _ {K : Type 0} (given received : K → ℕ → List ℕ) (calls : RelayCalls K) where
  -- Both directions, and the standard streams are not the socket.
  pub record Conserved (w : Relay K) : Type 0 where
    pub out_flow : Flow given received w.kernel w.input.fd w.socket.fd w.outbound
    pub in_flow : Flow given received w.kernel w.socket.fd w.output.fd w.inbound
    pub input_apart : w.input.fd ≢ w.socket.fd
    pub output_apart : w.output.fd ≢ w.socket.fd

  -- The callback of a rule did what the event loop asks, and conserved the bytes.
  abbrev pub Served : Rule (Relay K) → Relay K → Type 0
  Served r w =
      (w' : Relay K) × (r.callback w ≡ some w')
      × (((service_count r w == service_count r w') && r.interest w') ≡ false)
      × Conserved w'

  module _ (honest : IsKernel given received calls) where
    reads :
        (f : FdWrapper) (k : K) (limit : ℕ)
        → Gave calls.sys_read f k limit (honest.bytes_read k f (min (1024 * 1024) limit))
    reads f k limit =
        let n : ℕ = min (1024 * 1024) limit in
        read_lem calls.sys_read f k limit (honest.bytes_read k f n) (honest.read_answer k f n)
          (honest.read_size k f n)

    pub read_input-Served : (w : Relay K) → Conserved w → Served (rule_1 calls) w
    unfolding read_input after_input_read
    read_input-Served w c =
        let limit = ByteStream.remaining_capacity w.outbound in
        let n : ℕ = min (1024 * 1024) limit in
        let bytes = honest.bytes_read w.kernel w.input n in
        let size = honest.read_size w.kernel w.input n in
        let g = reads w.input w.kernel limit in
        (
          record w {
            input = g.after;
            outbound = fed w.outbound bytes g.after;
            kernel = (calls.sys_read w.kernel w.input n).0;
          },
          rw g.done refl,
          idle w.input.read_count g.after.read_count _ g.counted,
          record {
            out_flow = rw g.same_fd (
                Flow-fed given received bytes g.after c.out_flow (omega (arith, size))
                  (honest.read_given w.kernel w.input n)
                  (honest.read_received w.kernel w.input n w.socket.fd));
            in_flow = record {
              valid = c.in_flow.valid;
              bytes =
                  honest.read_apart w.kernel w.input n w.socket.fd (λ t. c.input_apart (sym t))
                  ∙ c.in_flow.bytes
                  ∙ ap (λ t. t ++ contents w.inbound)
                      (sym (honest.read_received w.kernel w.input n w.output.fd));
            };
            input_apart = rw g.same_fd c.input_apart;
            output_apart = c.output_apart;
          },
        )

    pub read_socket-Served : (w : Relay K) → Conserved w → Served (rule_3 calls) w
    unfolding read_socket after_socket_read
    read_socket-Served w c =
        let limit = ByteStream.remaining_capacity w.inbound in
        let n : ℕ = min (1024 * 1024) limit in
        let bytes = honest.bytes_read w.kernel w.socket n in
        let size = honest.read_size w.kernel w.socket n in
        let g = reads w.socket w.kernel limit in
        (
          record w {
            socket = g.after;
            inbound = fed w.inbound bytes g.after;
            kernel = (calls.sys_read w.kernel w.socket n).0;
          },
          rw g.done refl,
          idle w.socket.read_count g.after.read_count _ g.counted,
          record {
            out_flow = rw g.same_fd (record {
              valid = c.out_flow.valid;
              bytes =
                  honest.read_apart w.kernel w.socket n w.input.fd c.input_apart
                  ∙ c.out_flow.bytes
                  ∙ ap (λ t. t ++ contents w.outbound)
                      (sym (honest.read_received w.kernel w.socket n w.socket.fd));
            });
            in_flow = rw g.same_fd (
                Flow-fed given received bytes g.after c.in_flow (omega (arith, size))
                  (honest.read_given w.kernel w.socket n)
                  (honest.read_received w.kernel w.socket n w.output.fd));
            input_apart = rw g.same_fd c.input_apart;
            output_apart = rw g.same_fd c.output_apart;
          },
        )

    -- A write of what a stream shows cannot count over its word.
    shown_word :
        (s : ByteStream) (len : ℕ) {k : K} {from to : ℕ}
        → Flow given received k from to s
        → length (joined (peek_output s len ∷ [])) < 2 ^ 64
    shown_word s len f =
        let v = f.valid in
        let used : s.used_size ≤ s.capacity = v.used_in in
        let small : s.capacity < 2 ^ 63 = v.small in
        let shown : length (joined (peek_output s len ∷ [])) ≡ min len (length (contents s)) =
          ap length (append-nil (peek_output s len) ∙ peek_refines len v)
          ∙ length-take len (contents s) in
        let held = length-contents s in omega (arith, shown, held, used, small)

    pub write_socket-Served : (w : Relay K) → Conserved w → Served (rule_2 calls) w
    unfolding write_socket shutdown
    write_socket-Served w c =
        let len = min max_copy_length (ByteStream.buffer_size w.outbound) in
        let views = peek_output w.outbound len ∷ [] in
        let n = honest.writes.taken w.kernel w.socket views in
        let k = (calls.sys_writev w.kernel w.socket views).0 in
        let c' : Conserved (record w {
          socket = register_write w.socket;
          outbound = pop_output w.outbound n;
          kernel = k;
        }) =
          record {
            out_flow =
                Flow-popped given received len n c.out_flow
                  (honest.writes.prefix w.kernel w.socket views)
                  (honest.write_given w.kernel w.socket views w.input.fd)
                  (honest.writes.delivery w.kernel w.socket views);
            in_flow = record {
              valid = c.in_flow.valid;
              bytes =
                  honest.write_given w.kernel w.socket views w.socket.fd
                  ∙ c.in_flow.bytes
                  ∙ ap (λ t. t ++ contents w.inbound)
                      (sym
                        (honest.writes.apart w.kernel w.socket views w.output.fd c.output_apart));
            };
            input_apart = c.input_apart;
            output_apart = c.output_apart;
          } in
        let done =
          write_once calls.sys_writev received honest.writes w.socket w.kernel views
            (shown_word w.outbound len c.out_flow) in
        let moves = counter_moves w.socket.write_count in
        elim (Bool-cases (ByteStream.eof (pop_output w.outbound n))) [
          | inr e ↦ (
            record w {
              socket = register_write w.socket;
              outbound = pop_output w.outbound n;
              kernel = k;
            },
            rw (done, e) refl,
            rw moves.0 refl,
            c',
          )
          | inl e ↦ (
            record w {
              socket = register_write (register_write w.socket);
              outbound = pop_output w.outbound n;
              kernel = (calls.sys_shutdown k (register_write w.socket) Shutdown.wr).0;
              outbound_shutdown = true;
            },
            rw
                (
                  done,
                  e,
                  shut_socket,
                  shutdown,
                  honest.shutdown_done k (register_write w.socket) Shutdown.wr,
                )
                refl,
            rw moves.1 refl,
            record {
              out_flow =
                  Flow-Same given received
                    (honest.shutdown_same k (register_write w.socket) Shutdown.wr) c'.out_flow;
              in_flow =
                  Flow-Same given received
                    (honest.shutdown_same k (register_write w.socket) Shutdown.wr) c'.in_flow;
              input_apart = c.input_apart;
              output_apart = c.output_apart;
            },
          )
        ]

    pub write_output-Served : (w : Relay K) → Conserved w → Served (rule_4 calls) w
    unfolding write_output close
    write_output-Served w c =
        let len = min max_copy_length (ByteStream.buffer_size w.inbound) in
        let views = peek_output w.inbound len ∷ [] in
        let n = honest.writes.taken w.kernel w.output views in
        let k = (calls.sys_writev w.kernel w.output views).0 in
        let c' : Conserved (record w {
          output = register_write w.output;
          inbound = pop_output w.inbound n;
          kernel = k;
        }) =
          record {
            out_flow = record {
              valid = c.out_flow.valid;
              bytes =
                  honest.write_given w.kernel w.output views w.input.fd
                  ∙ c.out_flow.bytes
                  ∙ ap (λ t. t ++ contents w.outbound)
                      (sym (
                        honest.writes.apart w.kernel w.output views w.socket.fd
                          (λ t. c.output_apart (sym t))));
            };
            in_flow =
                Flow-popped given received len n c.in_flow
                  (honest.writes.prefix w.kernel w.output views)
                  (honest.write_given w.kernel w.output views w.socket.fd)
                  (honest.writes.delivery w.kernel w.output views);
            input_apart = c.input_apart;
            output_apart = c.output_apart;
          } in
        let done =
          write_once calls.sys_writev received honest.writes w.output w.kernel views
            (shown_word w.inbound len c.in_flow) in
        let moves = counter_moves w.output.write_count in
        elim (Bool-cases (ByteStream.eof (pop_output w.inbound n))) [
          | inr e ↦ (
            record w {
              output = register_write w.output;
              inbound = pop_output w.inbound n;
              kernel = k;
            },
            rw (done, e) refl,
            rw moves.0 refl,
            c',
          )
          | inl e ↦ (
            record w {
              output = record (register_write w.output) { eof = true; closed = true };
              inbound = pop_output w.inbound n;
              kernel = (calls.sys_close k (register_write w.output)).0;
              inbound_shutdown = true;
            },
            rw (done, e, close_output, close, honest.close_done k (register_write w.output)) refl,
            rw moves.0 refl,
            record {
              out_flow =
                  Flow-Same given received (honest.close_same k (register_write w.output))
                    c'.out_flow;
              in_flow =
                  Flow-Same given received (honest.close_same k (register_write w.output))
                    c'.in_flow;
              input_apart = c.input_apart;
              output_apart = c.output_apart;
            },
          )
        ]
