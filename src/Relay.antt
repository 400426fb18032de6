-- ===== src/Relay.antt =====
-- `bidirectional_stream_copy` of apps/bidirectional_stream_copy.cc: two byte streams between a socket
-- and the standard streams. System calls are parameters; a callback that throws gives `none`.
pub mod Conservation
use cs144_labs.Prelude.{
  ℕ, zero, suc, min, Bool, true, false, not, ◌&&◌, ◌||◌, Option, none, some, List, [], ◌∷◌, ltb,
  if◌then◌else◌,
}
use cs144_labs.ByteStream
use cs144_labs.ByteStream.{ByteStream}
use cs144_labs.Util.FileDescriptor.{FdWrapper, wrapper, WriteResult, WriteState, close, read, write}
use cs144_labs.Util.UdpSocket.{Shutdown, shutdown}
use cs144_labs.Util.EventLoop.{
  Direction, Result, Rule, PollFd, PollResult, add_rule, wait_next_event, is_exit,
}

pub record RelayCalls (K : Type 0) : Type 0 where
  pub sys_read : K → FdWrapper → ℕ → K × Option (List ℕ)
  pub sys_writev : K → FdWrapper → List (List ℕ) → K × Option ℕ
  pub sys_shutdown : K → FdWrapper → Shutdown → K × Bool
  pub sys_close : K → FdWrapper → K × Bool
  pub sys_poll : K → List PollFd → K × PollResult

-- The variables of the function.
pub record Relay (K : Type 0) : Type 0 where
  pub socket : FdWrapper
  pub input : FdWrapper
  pub output : FdWrapper
  pub outbound : ByteStream
  pub inbound : ByteStream
  pub outbound_shutdown : Bool
  pub inbound_shutdown : Bool
  pub kernel : K

abbrev pub max_copy_length : ℕ
max_copy_length = 65536

abbrev pub stream_size : ℕ
stream_size = 1048576

-- The variables at the start; standard input and output have the numbers 0 and 1.
unfoldable pub start : {K : Type 0} → FdWrapper → K → Relay K
start socket kernel = record {
  socket = socket;
  input = wrapper 0;
  output = wrapper 1;
  outbound = ByteStream.new stream_size;
  inbound = ByteStream.new stream_size;
  outbound_shutdown = false;
  inbound_shutdown = false;
  kernel = kernel;
}

-- A stream that was given bytes from a descriptor, and the end if it has ended.
abbrev pub fed : ByteStream → List ℕ → FdWrapper → ByteStream
fed s bytes f =
    if f.eof
    then ByteStream.end_input (ByteStream.write s bytes).0
    else (ByteStream.write s bytes).0

module _ {K : Type 0} (calls : RelayCalls K) where
  -- What rule 1 does with the bytes.
  unfoldable pub after_input_read : Relay K → FdWrapper × K × Option (List ℕ) → Option (Relay K)
  after_input_read w (fd, kernel, none) = none
  after_input_read w (fd, kernel, some bytes) =
      some (record w { input = fd; outbound = fed w.outbound bytes fd; kernel = kernel })

  -- Rule 1: standard input to the outbound stream.
  unfoldable pub read_input : Relay K → Option (Relay K)
  read_input w =
      after_input_read w
        (read calls.sys_read w.input w.kernel (ByteStream.remaining_capacity w.outbound))

  -- The end of the outbound stream, once all of it was written.
  abbrev pub shut_socket : Relay K → Option (Relay K)
  shut_socket w =
      let (kernel, shut) = shutdown calls.sys_shutdown w.socket w.kernel Shutdown.wr in
      elim shut [
        | none ↦ none
        | some fd ↦ some (record w { socket = fd; kernel = kernel; outbound_shutdown = true })
      ]

  abbrev pub after_socket_write : Relay K → WriteState K → Option (Relay K)
  after_socket_write w s = elim s.result [
    | WriteResult.thrown ↦ none
    | WriteResult.running ↦ none
    | WriteResult.written bytes_written ↦
        let stream = ByteStream.pop_output w.outbound bytes_written in
        let w' = record w { socket = s.fd; outbound = stream; kernel = s.kernel } in
        if ByteStream.eof stream then shut_socket w' else some w'
  ]

  -- Rule 2: the outbound stream to the socket.
  unfoldable pub write_socket : Relay K → Option (Relay K)
  write_socket w =
      let bytes_to_write = min max_copy_length (ByteStream.buffer_size w.outbound) in
      let buffer = ByteStream.peek_output w.outbound bytes_to_write in
      after_socket_write w (write calls.sys_writev w.socket w.kernel (buffer ∷ []) false)

  -- What rule 3 does with the bytes.
  unfoldable pub after_socket_read : Relay K → FdWrapper × K × Option (List ℕ) → Option (Relay K)
  after_socket_read w (fd, kernel, none) = none
  after_socket_read w (fd, kernel, some bytes) =
      some (record w { socket = fd; inbound = fed w.inbound bytes fd; kernel = kernel })

  -- Rule 3: the socket to the inbound stream.
  unfoldable pub read_socket : Relay K → Option (Relay K)
  read_socket w =
      after_socket_read w
        (read calls.sys_read w.socket w.kernel (ByteStream.remaining_capacity w.inbound))

  abbrev pub close_output : Relay K → Option (Relay K)
  close_output w =
      let (fd, kernel, closed) = close calls.sys_close w.output w.kernel in
      if closed
      then some (record w { output = fd; kernel = kernel; inbound_shutdown = true })
      else none

  abbrev pub after_output_write : Relay K → WriteState K → Option (Relay K)
  after_output_write w s = elim s.result [
    | WriteResult.thrown ↦ none
    | WriteResult.running ↦ none
    | WriteResult.written bytes_written ↦
        let stream = ByteStream.pop_output w.inbound bytes_written in
        let w' = record w { output = s.fd; inbound = stream; kernel = s.kernel } in
        if ByteStream.eof stream then close_output w' else some w'
  ]

  -- Rule 4: the inbound stream to standard output.
  unfoldable pub write_output : Relay K → Option (Relay K)
  write_output w =
      let bytes_to_write = min max_copy_length (ByteStream.buffer_size w.inbound) in
      let buffer = ByteStream.peek_output w.inbound bytes_to_write in
      after_output_write w (write calls.sys_writev w.output w.kernel (buffer ∷ []) false)

  abbrev pub end_outbound : Relay K → Option (Relay K)
  end_outbound w = some (record w { outbound = ByteStream.end_input w.outbound })

  abbrev pub end_inbound : Relay K → Option (Relay K)
  end_inbound w = some (record w { inbound = ByteStream.end_input w.inbound })

  abbrev pub rule_1 : Rule (Relay K)
  rule_1 = record {
    fd = λ w. w.input;
    direction = Direction.in_direction;
    callback = read_input;
    interest = λ w.
        not w.outbound.error
        && (ltb 0 (ByteStream.remaining_capacity w.outbound) && not w.inbound.error);
    cancel = end_outbound;
  }

  abbrev pub rule_2 : Rule (Relay K)
  rule_2 = record {
    fd = λ w. w.socket;
    direction = Direction.out_direction;
    callback = write_socket;
    interest = λ w.
        not (ByteStream.buffer_empty w.outbound)
        || (ByteStream.eof w.outbound && not w.outbound_shutdown);
    cancel = end_outbound;
  }

  abbrev pub rule_3 : Rule (Relay K)
  rule_3 = record {
    fd = λ w. w.socket;
    direction = Direction.in_direction;
    callback = read_socket;
    interest = λ w.
        not w.inbound.error
        && (ltb 0 (ByteStream.remaining_capacity w.inbound) && not w.outbound.error);
    cancel = end_inbound;
  }

  abbrev pub rule_4 : Rule (Relay K)
  rule_4 = record {
    fd = λ w. w.output;
    direction = Direction.out_direction;
    callback = write_output;
    interest = λ w.
        not (ByteStream.buffer_empty w.inbound)
        || (ByteStream.eof w.inbound && not w.inbound_shutdown);
    cancel = end_inbound;
  }

  abbrev pub relay_rules : List (Rule (Relay K))
  relay_rules = add_rule (add_rule (add_rule (rule_1 ∷ []) rule_2) rule_3) rule_4

  -- poll(2), which changes nothing but the kernel.
  abbrev pub poll_relay : Relay K → List PollFd → Relay K × PollResult
  poll_relay w ps =
      let (kernel, result) = calls.sys_poll w.kernel ps in (record w { kernel = kernel }, result)

  -- The loop: the variables when it returns, or when the fuel ends; `none` is an exception.
  unfoldable pub relay_loop : ℕ → List (Rule (Relay K)) → Relay K → Option (Relay K)
  relay_loop zero rules w = some w
  relay_loop (suc fuel) rules w = elim (wait_next_event poll_relay rules w) [
    | none ↦ none
    | some (result, rules', w') ↦
        let later = relay_loop fuel rules' w' in if is_exit result then some w' else later
  ]
