-- ===== src/Socket/Rules.antt =====
-- The four rules that `_initialize_TCP` of libsponge/tcp_helpers/tcp_sponge_socket.cc adds, for the
-- thread of the connection. System calls and the adapter are parameters. A callback that throws gives
-- `none`. The messages on stderr are left out.
pub mod Pumping
pub mod Feeding
use cs144_labs.Prelude.{
  ℕ, min, Bool, true, false, not, ◌&&◌, ◌||◌, Option, none, some, List, [], ◌∷◌, ltb, ◌==◌,
  if◌then◌else◌, length,
}
use cs144_labs.ByteStream
use cs144_labs.ByteStream.{ByteStream}
use cs144_labs.Segment.{TcpSegment}
use cs144_labs.Connection
use cs144_labs.Connection.{TcpConnection}
use cs144_labs.Util.FileDescriptor.{FdWrapper, WriteResult, WriteState, read, write}
use cs144_labs.Util.UdpSocket.{Shutdown, shutdown}
use cs144_labs.Util.EventLoop.{Direction, Rule}

-- The system calls on the local socket.
pub record SystemCalls (K : Type 0) : Type 0 where
  pub sys_read : K → FdWrapper → ℕ → K × Option (List ℕ)
  pub sys_writev : K → FdWrapper → List (List ℕ) → K × Option ℕ
  pub sys_shutdown : K → FdWrapper → Shutdown → K × Bool

-- What the socket asks of its adapter.
pub record AdapterCalls (K A : Type 0) : Type 0 where
  pub descriptor : A → FdWrapper
  pub read_segment : A → K → K × Option (A × Option TcpSegment)
  pub write_segment : A → K → TcpSegment → K × Option A

-- What the thread works on.
pub record World (K A : Type 0) : Type 0 where
  pub tcp : TcpConnection
  pub thread_data : FdWrapper
  pub datagram_adapter : A
  pub kernel : K
  pub abort : Bool
  pub inbound_shutdown : Bool
  pub outbound_shutdown : Bool
  pub fully_acked : Bool

abbrev pub inbound : TcpConnection → ByteStream
inbound c = c.receiver.reassembler.output

abbrev pub with_inbound : TcpConnection → ByteStream → TcpConnection
with_inbound c s = record c {
  receiver = record c.receiver { reassembler = record c.receiver.reassembler { output = s } };
}

module _ {K A : Type 0} where
  -- The flag for the message that all of the outbound stream was acknowledged.
  abbrev note_fully_acked : World K A → World K A
  note_fully_acked w =
      if w.thread_data.eof && ((Connection.bytes_in_flight w.tcp == 0) && not w.fully_acked)
      then record w { fully_acked = true }
      else w

  -- The end of the outbound stream.
  unfoldable pub end_outbound : World K A → Option (World K A)
  end_outbound w = elim (Connection.end_input_stream w.tcp) [
    | none ↦ none
    | some tcp ↦ some (record w { tcp = tcp; outbound_shutdown = true })
  ]

module _ {K A : Type 0} (calls : AdapterCalls K A) where
  -- Rule 1: a segment for the connection.
  unfoldable pub read_datagram : World K A → Option (World K A)
  read_datagram w =
      let (kernel, got) = calls.read_segment w.datagram_adapter w.kernel in
      elim got [
        | none ↦ none
        | some (adapter, none) ↦
            some (note_fully_acked (record w { datagram_adapter = adapter; kernel = kernel }))
        | some (adapter, some seg) ↦ elim (Connection.segment_received w.tcp seg) [
          | none ↦ none
          | some tcp ↦ some (
              note_fully_acked
                (record w { tcp = tcp; datagram_adapter = adapter; kernel = kernel }))
        ]
      ]

  -- Rule 4: the loop over the segments that wait, of which each is popped once it is written.
  unfoldable pub write_segments : World K A → List TcpSegment → Option (World K A)
  write_segments w [] = some w
  write_segments w (seg ∷ segs) =
      let (kernel, sent) = calls.write_segment w.datagram_adapter w.kernel seg in
      elim sent [
        | none ↦ none
        | some adapter ↦
            write_segments
              (record w {
                tcp = record w.tcp { segments_out = segs };
                datagram_adapter = adapter;
                kernel = kernel;
              })
              segs
      ]

  abbrev pub write_datagrams : World K A → Option (World K A)
  write_datagrams w = write_segments w w.tcp.segments_out

  abbrev pub rule_1 : Rule (World K A)
  rule_1 = record {
    fd = λ w. calls.descriptor w.datagram_adapter;
    direction = Direction.in_direction;
    callback = read_datagram;
    interest = λ w. w.tcp.active;
    cancel = some;
  }

  abbrev pub rule_4 : Rule (World K A)
  rule_4 = record {
    fd = λ w. calls.descriptor w.datagram_adapter;
    direction = Direction.out_direction;
    callback = write_datagrams;
    interest = λ w. not (length w.tcp.segments_out == 0);
    cancel = some;
  }

module _ {K A : Type 0} (sys : SystemCalls K) where
  -- Rule 2: bytes of the application for the connection, no more than it takes.
  unfoldable pub read_local : World K A → Option (World K A)
  read_local w =
      let (fd, kernel, got) =
        read sys.sys_read w.thread_data w.kernel (Connection.remaining_outbound_capacity w.tcp) in
      elim got [
        | none ↦ none
        | some bytes ↦ elim (Connection.write w.tcp bytes) [
          | none ↦ none
          | some (tcp, amount_written) ↦
              let w' = record w { tcp = tcp; thread_data = fd; kernel = kernel } in
              let ended = if fd.eof then end_outbound w' else some w' in
              if amount_written == length bytes then ended else none
        ]
      ]

  abbrev pub shut_inbound : World K A → Option (World K A)
  shut_inbound w =
      let (kernel, shut) = shutdown sys.sys_shutdown w.thread_data w.kernel Shutdown.wr in
      elim shut [
        | none ↦ none
        | some fd ↦ some (record w { thread_data = fd; kernel = kernel; inbound_shutdown = true })
      ]

  -- What follows a write: the bytes that were taken are popped.
  abbrev pub after_local_write : World K A → WriteState K → Option (World K A)
  after_local_write w s = elim s.result [
    | WriteResult.thrown ↦ none
    | WriteResult.running ↦ none
    | WriteResult.written bytes_written ↦
        let stream = ByteStream.pop_output (inbound w.tcp) bytes_written in
        let w' = record w {
          tcp = with_inbound w.tcp stream;
          thread_data = s.fd;
          kernel = s.kernel;
        } in
        if ByteStream.eof stream || stream.error then shut_inbound w' else some w'
  ]

  -- Rule 3: bytes of the peer for the application.
  unfoldable pub write_local : World K A → Option (World K A)
  write_local w =
      let amount_to_write = min 65536 (ByteStream.buffer_size (inbound w.tcp)) in
      let buffer = ByteStream.peek_output (inbound w.tcp) amount_to_write in
      after_local_write w (write sys.sys_writev w.thread_data w.kernel (buffer ∷ []) false)

  abbrev pub rule_2 : Rule (World K A)
  rule_2 = record {
    fd = λ w. w.thread_data;
    direction = Direction.in_direction;
    callback = read_local;
    interest = λ w.
        w.tcp.active
        && (not w.outbound_shutdown && ltb 0 (Connection.remaining_outbound_capacity w.tcp));
    cancel = end_outbound;
  }

  abbrev pub rule_3 : Rule (World K A)
  rule_3 = record {
    fd = λ w. w.thread_data;
    direction = Direction.out_direction;
    callback = write_local;
    interest = λ w.
        not (ByteStream.buffer_empty (inbound w.tcp))
        || ((ByteStream.eof (inbound w.tcp) || (inbound w.tcp).error) && not w.inbound_shutdown);
    cancel = some;
  }
