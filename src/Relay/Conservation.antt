-- ===== src/Relay/Conservation.antt =====
-- No byte is lost or made up by a relay: what the kernel gave from one descriptor is what it took for
-- the other, and what waits in the stream between them.
pub mod Reading
pub mod Steps
pub mod Running
use cs144_labs.Prelude.{
  ℕ, zero, suc, ◌+◌, ◌-◌, ◌%◌, ◌^◌, ◌≤◌, ◌<◌, min, ◌≡◌, ◌≢◌, ◌⊎◌, refl, sym, ap, ◌∙◌, inl, inr,
  Bool, true, false, not, ◌&&◌, ◌||◌, Option, none, some, List, [], ◌∷◌, ◌++◌, arith, ltb, ltb→le,
  ◌==◌, if◌then◌else◌, Bool-cases, Option-cases, some_inj, length, take, drop, length-append,
  length-take, sub64,
}
use mathlib.Core.List.{append_assoc, append-nil}
use cs144_labs.ByteStream
use cs144_labs.ByteStream.{ByteStream, peek_output, pop_output}
use cs144_labs.ByteStream.Validity.{IsValid, pop_output-IsValid, end_input-IsValid}
use cs144_labs.ByteStream.Refinement.{contents, length-contents}
use cs144_labs.ByteStream.Queue.{peek_refines, Written, write-Written}
use cs144_labs.Util.Buffer.Removal.{joined}
use cs144_labs.Util.FileDescriptor.{
  FdWrapper, register_write, WriteResult, WriteState, close, read, write,
}
use cs144_labs.Util.FileDescriptor.Rounds.{IsWritev, write_once}
use cs144_labs.Util.UdpSocket.{Shutdown, shutdown}
use cs144_labs.Util.EventLoop.{PollFd}
use cs144_labs.Util.EventLoop.Contract.{Answers}
use cs144_labs.Socket.Rules.Pumping.{take-pop_output}
use cs144_labs.Relay.{RelayCalls, Relay, fed}

module _ {K : Type 0} (given received : K → ℕ → List ℕ) where
  -- Two states of the kernel between which no byte moved.
  pub record Same (k k' : K) : Type 0 where
    pub given_same : (fd : ℕ) → given k' fd ≡ given k fd
    pub received_same : (fd : ℕ) → received k' fd ≡ received k fd

  -- What the system calls document, on descriptors that are open and ready: read(2) gives the next bytes
  -- of its descriptor, no more than were asked for, writev(2) takes a prefix of what it is shown, shutdown(2)
  -- and close(2) succeed, poll(2) answers without an error on an entry, and only the first two move bytes.
  pub record IsKernel (calls : RelayCalls K) : Type 0 where
    pub bytes_read : (k : K) (f : FdWrapper) (n : ℕ) → List ℕ
    pub read_answer :
        (k : K) (f : FdWrapper) (n : ℕ) → (calls.sys_read k f n).1 ≡ some (bytes_read k f n)
    pub read_size : (k : K) (f : FdWrapper) (n : ℕ) → length (bytes_read k f n) ≤ n
    pub read_given :
        (k : K) (f : FdWrapper) (n : ℕ)
        → given (calls.sys_read k f n).0 f.fd ≡ given k f.fd ++ bytes_read k f n
    pub read_apart :
        (k : K) (f : FdWrapper) (n fd : ℕ)
        → fd ≢ f.fd
        → given (calls.sys_read k f n).0 fd ≡ given k fd
    pub read_received :
        (k : K) (f : FdWrapper) (n fd : ℕ) → received (calls.sys_read k f n).0 fd ≡ received k fd
    pub writes : IsWritev calls.sys_writev received
    pub write_given :
        (k : K) (f : FdWrapper) (vs : List (List ℕ)) (fd : ℕ)
        → given (calls.sys_writev k f vs).0 fd ≡ given k fd
    pub shutdown_done :
        (k : K) (f : FdWrapper) (how : Shutdown) → (calls.sys_shutdown k f how).1 ≡ true
    pub shutdown_same :
        (k : K) (f : FdWrapper) (how : Shutdown) → Same k (calls.sys_shutdown k f how).0
    pub close_done : (k : K) (f : FdWrapper) → (calls.sys_close k f).1 ≡ true
    pub close_same : (k : K) (f : FdWrapper) → Same k (calls.sys_close k f).0
    pub poll_answers : (k : K) (ps : List PollFd) → Answers ps (calls.sys_poll k ps).1
    pub poll_same : (k : K) (ps : List PollFd) → Same k (calls.sys_poll k ps).0

  -- What one descriptor gave was taken for the other, or waits in the stream.
  pub record Flow (k : K) (from to : ℕ) (s : ByteStream) : Type 0 where
    pub valid : IsValid s
    pub bytes : given k from ≡ received k to ++ contents s

  pub Flow-Same :
      {k k' : K} {from to : ℕ} {s : ByteStream} → Same k k' → Flow k from to s → Flow k' from to s
  Flow-Same {from = from} {to = to} {s = s} m f = record {
    valid = f.valid;
    bytes = m.given_same from ∙ f.bytes ∙ ap (λ t. t ++ contents s) (sym (m.received_same to));
  }

  pub Flow-end_input :
      {k : K} {from to : ℕ} {s : ByteStream}
      → Flow k from to s
      → Flow k from to (ByteStream.end_input s)
  Flow-end_input f = record { valid = end_input-IsValid f.valid; bytes = f.bytes }

  Flow-ended :
      (b : Bool) {k : K} {from to : ℕ} {s : ByteStream}
      → Flow k from to s
      → Flow k from to (if b then ByteStream.end_input s else s)
  Flow-ended true f = Flow-end_input f
  Flow-ended false f = f

  -- Bytes that were read and fit go into the stream.
  pub Flow-fed :
      {k k' : K} {from to : ℕ} {s : ByteStream} (bytes : List ℕ) (f : FdWrapper)
      → Flow k from to s
      → length bytes ≤ ByteStream.remaining_capacity s
      → given k' from ≡ given k from ++ bytes
      → received k' to ≡ received k to
      → Flow k' from to (fed s bytes f)
  Flow-fed {k} {k'} {from} {to} {s} bytes f flow h g r =
      let v = flow.valid in
      let used : s.used_size ≤ s.capacity = v.used_in in
      let small : s.capacity < 2 ^ 63 = v.small in
      let w = write-Written {s = s} bytes v (omega (arith, h, used, small)) in
      Flow-ended f.eof (record {
        valid = w.valid;
        bytes =
            g
            ∙ ap (λ t. t ++ bytes) flow.bytes
            ∙ append_assoc (received k to) (contents s) bytes
            ∙ ap (λ t. t ++ (contents s ++ bytes)) (sym r)
            ∙ ap (◌++◌ (received k' to)) (sym w.stored);
      })

  -- Bytes that were written leave the stream.
  pub Flow-popped :
      {k k' : K} {from to : ℕ} {s : ByteStream} (len n : ℕ)
      → Flow k from to s
      → n ≤ length (joined (peek_output s len ∷ []))
      → given k' from ≡ given k from
      → received k' to ≡ received k to ++ take n (joined (peek_output s len ∷ []))
      → Flow k' from to (pop_output s n)
  Flow-popped {k} {k'} {from} {to} {s} len n flow h g r = record {
    valid = pop_output-IsValid n flow.valid;
    bytes =
        g
        ∙ flow.bytes
        ∙ ap (◌++◌ (received k to)) (sym (take-pop_output s len n flow.valid h))
        ∙ sym (
            append_assoc (received k to) (take n (joined (peek_output s len ∷ [])))
              (contents (pop_output s n)))
        ∙ ap (λ t. t ++ contents (pop_output s n)) (sym r);
  }
