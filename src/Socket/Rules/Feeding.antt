-- ===== src/Socket/Rules/Feeding.antt =====
-- What rule 2 moves from the application to the outbound stream.
use cs144_labs.Prelude.{
  ℕ, ◌+◌, ◌-◌, ◌*◌, ◌^◌, ◌<◌, ◌≤◌, min, ◌≡◌, ◌⊎◌, refl, sym, ap, ap₂, ◌∙◌, inl, inr, true, false,
  Option, some, none, List, [], ◌∷◌, ◌++◌, arith, ◌==◌, le→ltb, if_true, if_false, if◌then◌else◌,
  Bool-cases, length, length-take,
}
use mathlib.Core.List.{append_assoc, map}
use cs144_labs.ByteStream
use cs144_labs.ByteStream.{ByteStream}
use cs144_labs.ByteStream.Validity
use cs144_labs.ByteStream.Refinement.{contents, length-contents}
use cs144_labs.ByteStream.Queue.{write_refines, write-Written}
use cs144_labs.Segment.{TcpSegment}
use cs144_labs.Sender.Validity.{IsValid, stream-IsValid}
use cs144_labs.Sender.Filling.{fill_window-Filled, payloads, payloads-append}
use cs144_labs.Receiver
use cs144_labs.Receiver.{TcpReceiver}
use cs144_labs.Connection
use cs144_labs.Connection.{TcpConnection, stamp, with_ack, fill_and_enqueue}
use cs144_labs.Connection.Answering.{flushed, flushed-Flushed}
use cs144_labs.Connection.Ticking.{fill_and_enqueue_lem}
use cs144_labs.Util.FileDescriptor.{FdWrapper, read, note_eof, register_read}
use cs144_labs.Util.EventLoop.{service_count}
use cs144_labs.Socket.Rules.{SystemCalls, World, end_outbound, read_local, rule_2}

-- What read(2) documents of a call that succeeds: it gives no more bytes than asked for, and those that
-- wait first.
pub record IsRead {K : Type 0} (sys_read : K → FdWrapper → ℕ → K × Option (List ℕ))
    (pending : K → ℕ → List ℕ) : Type 0 where
  pub small :
      (k : K) (f : FdWrapper) (n : ℕ) (bytes : List ℕ)
      → (sys_read k f n).1 ≡ some bytes
      → length bytes ≤ n
  pub delivery :
      (k : K) (f : FdWrapper) (n : ℕ) (bytes : List ℕ)
      → (sys_read k f n).1 ≡ some bytes
      → pending k f.fd ≡ bytes ++ pending (sys_read k f n).0 f.fd

-- The bytes that a connection has still to hand out: in its segments, its sender's, and the stream.
abbrev pub outbound : TcpConnection → List ℕ
outbound c = payloads c.segments_out ++ (payloads c.sender.segments_out ++ contents c.sender.stream)

payload-stamp :
    (ackno : Option ℕ) (window : ℕ) (seg : TcpSegment)
    → (stamp ackno window seg).payload ≡ seg.payload
unfolding stamp
payload-stamp none window seg = refl
payload-stamp (some n) window seg = refl

payloads-with_ack :
    (r : TcpReceiver) (segs : List TcpSegment) → payloads (map (with_ack r) segs) ≡ payloads segs
payloads-with_ack r [] = refl
payloads-with_ack r (seg ∷ segs) =
    ap₂ ◌++◌ (payload-stamp (Receiver.ackno r) (Receiver.window_size r) seg)
      (payloads-with_ack r segs)

-- A connection that can send: its sender is valid, far from the end of the numbers, and there is no RST.
pub record IsOpen (c : TcpConnection) : Type 0 where
  pub valid : IsValid c.sender
  pub ack_word : c.sender.last_ack_no + 2 ^ 16 < 2 ^ 63
  pub no_rst : c.need_send_rst ≡ false

-- Filling the window moves bytes to the segments that go out, and loses none.
fill_and_enqueue-outbound :
    (c : TcpConnection)
    → IsOpen c
    → (c' : TcpConnection) × (fill_and_enqueue c ≡ some c') × IsOpen c' × (outbound c' ≡ outbound c)
fill_and_enqueue-outbound c o =
    let (s, run, filled, _) = fill_window-Filled c.sender o.valid o.ack_word in
    let acked = map (with_ack c.receiver) s.segments_out in
    (
      flushed c s c.active,
      fill_and_enqueue_lem c s run o.no_rst,
      record {
        valid = (flushed-Flushed c s c.active filled.valid o.no_rst).valid;
        ack_word = omega (arith, filled.same_ack, o.ack_word);
        no_rst = o.no_rst;
      },
      ap (λ t. t ++ contents s.stream) (payloads-append c.segments_out acked)
          ∙ append_assoc (payloads c.segments_out) (payloads acked) (contents s.stream)
          ∙ ap (λ t. payloads c.segments_out ++ (t ++ contents s.stream))
              (payloads-with_ack c.receiver s.segments_out)
          ∙ ap (◌++◌ (payloads c.segments_out)) filled.bytes,
    )

-- `TCPConnection::write` of bytes that the stream has room for.
write-outbound :
    (c : TcpConnection) (bytes : List ℕ)
    → IsOpen c
    → length bytes ≤ Connection.remaining_outbound_capacity c
    → (c' : TcpConnection) × (Connection.write c bytes ≡ some (c', length bytes))
      × IsOpen c'
      × (outbound c' ≡ outbound c ++ bytes)
unfolding Connection.write
write-outbound c bytes o h =
    let v = o.valid.stream_valid in
    let stream = (ByteStream.write c.sender.stream bytes).0 in
    let w = write-Written bytes v (omega arith) in
    let all : (ByteStream.write c.sender.stream bytes).1 ≡ length bytes =
      (write_refines bytes v).1
      ∙ omega (
        arith,
        length-take (c.sender.stream.capacity - length (contents c.sender.stream)) bytes,
        length-contents c.sender.stream,
      ) in
    let (c', run, o', same) =
      fill_and_enqueue-outbound (record c { sender = record c.sender { stream = stream } })
        (record {
          valid = stream-IsValid c.sender stream o.valid w.valid;
          ack_word = o.ack_word;
          no_rst = o.no_rst;
        }) in
    (
      c',
      rw (Connection.write, run, all) refl,
      o',
      same
          ∙ ap (λ t. payloads c.segments_out ++ (payloads c.sender.segments_out ++ t)) w.stored
          ∙ simp append_assoc,
    )

-- The end of the stream.
end_outbound-outbound :
    (c : TcpConnection)
    → IsOpen c
    → (c' : TcpConnection) × (Connection.end_input_stream c ≡ some c')
      × IsOpen c'
      × (outbound c' ≡ outbound c)
unfolding Connection.end_input_stream
end_outbound-outbound c o =
    fill_and_enqueue-outbound
      (record c { sender = record c.sender { stream = ByteStream.end_input c.sender.stream } })
      (record {
        valid =
            stream-IsValid c.sender (ByteStream.end_input c.sender.stream) o.valid
              (Validity.end_input-IsValid o.valid.stream_valid);
        ack_word = o.ack_word;
        no_rst = o.no_rst;
      })

module _ {K A : Type 0} (sys : SystemCalls K) (pending : K → ℕ → List ℕ) where
  -- The world once bytes were moved.
  pub record Fed (w w' : World K A) : Type 0 where
    pub ready : IsOpen w'.tcp
    pub conserved :
        outbound w'.tcp ++ pending w'.kernel w.thread_data.fd
        ≡ outbound w.tcp ++ pending w.kernel w.thread_data.fd
    pub ended : w'.outbound_shutdown ≡ (if w'.thread_data.eof then true else w.outbound_shutdown)
    pub serviced : (service_count (rule_2 sys) w == service_count (rule_2 sys) w') ≡ false

-- What `read` gives.
read_fd :
    {K : Type 0} (sys_read : K → FdWrapper → ℕ → K × Option (List ℕ)) (pending : K → ℕ → List ℕ)
    (honest : IsRead sys_read pending) (f : FdWrapper) (k : K) (limit : ℕ) (bytes : List ℕ)
    → let n = min (1024 * 1024) limit in
      (sys_read k f n).1 ≡ some bytes
      → read sys_read f k limit
        ≡ (register_read (note_eof f limit (length bytes)), (sys_read k f n).0, some bytes)
unfolding read
read_fd sys_read pending honest f k limit bytes answer =
    let n = min (1024 * 1024) limit in
    rw (read, answer, le→ltb n (length bytes) (honest.small k f n bytes answer)) refl

-- A read that fails makes the callback throw.
read_local_fails :
    {K A : Type 0} (sys : SystemCalls K) (w : World K A)
    → (sys.sys_read w.kernel w.thread_data
        (min (1024 * 1024) (Connection.remaining_outbound_capacity w.tcp))).1
      ≡ none
    → read_local sys w ≡ none
unfolding read_local read
read_local_fails sys w e = rw (read_local, read, e) refl

read_counter :
    (f : FdWrapper) (limit n : ℕ)
    → (f.read_count == (register_read (note_eof f limit n)).read_count) ≡ false
read_counter f limit n = ground arith

-- What the callback does once bytes were read and taken.
read_local_run :
    {K A : Type 0} (sys : SystemCalls K) (w : World K A) (fd : FdWrapper) (kernel : K)
    (bytes : List ℕ) (c : TcpConnection)
    → read sys.sys_read w.thread_data w.kernel (Connection.remaining_outbound_capacity w.tcp)
      ≡ (fd, kernel, some bytes)
    → Connection.write w.tcp bytes ≡ some (c, length bytes)
    → let w' = record w { tcp = c; thread_data = fd; kernel = kernel } in
      read_local sys w ≡ (if fd.eof then end_outbound w' else some w')
unfolding read_local
read_local_run sys w fd kernel bytes c got run =
    let exact : (length bytes == length bytes) ≡ true = ground arith in
    let called =
      read sys.sys_read w.thread_data w.kernel (Connection.remaining_outbound_capacity w.tcp) in
    let as_fd : called.0 ≡ fd = ap (λ t. t.0) got in
    let as_kernel : called.1 ≡ kernel = ap (λ t. t.1) got in
    let as_bytes : called.2 ≡ some bytes = ap (λ t. t.2) got in
    rw (read_local, as_bytes, run, exact, as_fd, as_kernel) refl

end_outbound_run :
    {K A : Type 0} (w : World K A) (c : TcpConnection)
    → Connection.end_input_stream w.tcp ≡ some c
    → end_outbound w ≡ some (record w { tcp = c; outbound_shutdown = true })
unfolding end_outbound
end_outbound_run w c run = rw (end_outbound, run) refl

-- The callback once the read has given `bytes`.
read_local-Fed :
    {K A : Type 0} (sys : SystemCalls K) (pending : K → ℕ → List ℕ) (w : World K A) (bytes : List ℕ)
    → IsRead sys.sys_read pending
    → IsOpen w.tcp
    → (sys.sys_read w.kernel w.thread_data
        (min (1024 * 1024) (Connection.remaining_outbound_capacity w.tcp))).1
      ≡ some bytes
    → (w' : World K A) × (read_local sys w ≡ some w') × Fed sys pending w w'
read_local-Fed sys pending w bytes honest o answer =
    let limit = Connection.remaining_outbound_capacity w.tcp in
    let n = min (1024 * 1024) limit in
    let fd = register_read (note_eof w.thread_data limit (length bytes)) in
    let kernel = (sys.sys_read w.kernel w.thread_data n).0 in
    let few = honest.small w.kernel w.thread_data n bytes answer in
    let (c, run, o', same) = write-outbound w.tcp bytes o (omega arith) in
    let got = read_fd sys.sys_read pending honest w.thread_data w.kernel limit bytes answer in
    let moved = read_local_run sys w fd kernel bytes c got run in
    let kept : outbound c ++ pending kernel w.thread_data.fd
        ≡ outbound w.tcp ++ pending w.kernel w.thread_data.fd =
      ap (λ t. t ++ pending kernel w.thread_data.fd) same
      ∙ append_assoc (outbound w.tcp) bytes (pending kernel w.thread_data.fd)
      ∙ ap (◌++◌ (outbound w.tcp)) (sym (honest.delivery w.kernel w.thread_data n bytes answer)) in
    let counted = read_counter w.thread_data limit (length bytes) in
    elim (Bool-cases fd.eof) [
      | inl e ↦
          let (d, ran, o'', same') = end_outbound-outbound c o' in
          (
            record w { tcp = d; thread_data = fd; kernel = kernel; outbound_shutdown = true },
            moved
                ∙ if_true _ _ e
                ∙ end_outbound_run (record w { tcp = c; thread_data = fd; kernel = kernel }) d ran,
            record {
              ready = o'';
              conserved = ap (λ t. t ++ pending kernel w.thread_data.fd) same' ∙ kept;
              ended = rw e refl;
              serviced = counted;
            },
          )
      | inr e ↦ (
        record w { tcp = c; thread_data = fd; kernel = kernel },
        moved ∙ if_false _ _ e,
        record { ready = o'; conserved = kept; ended = rw e refl; serviced = counted },
      )
    ]

-- On a kernel of which a read(2) that succeeds gives no more than it is asked for, and what waits first,
-- and for a connection that can send, the callback of rule 2 throws only if read(2) fails: no byte that
-- was read is refused. If it does not throw, the bytes that the connection has still to hand out, and
-- those that wait at the descriptor, are together what they were. The flag of the shutdown is set if the
-- descriptor is then at its end, and otherwise stays; the connection can still send; and the descriptor
-- was read, as the event loop asks.
pub read_local_lem :
    {K A : Type 0} (sys : SystemCalls K) (pending : K → ℕ → List ℕ) (w : World K A)
    → IsRead sys.sys_read pending
    → IsOpen w.tcp
    → ((w' : World K A) × (read_local sys w ≡ some w') × Fed sys pending w w')
      ⊎ ((read_local sys w ≡ none)
          × ((sys.sys_read w.kernel w.thread_data
                (min (1024 * 1024) (Connection.remaining_outbound_capacity w.tcp))).1
              ≡ none))
read_local_lem {K} {A} sys pending w honest o =
    by_answer
      (sys.sys_read w.kernel w.thread_data
        (min (1024 * 1024) (Connection.remaining_outbound_capacity w.tcp))).1
      refl
  where
    by_answer :
        (got : Option (List ℕ))
        → (sys.sys_read w.kernel w.thread_data
            (min (1024 * 1024) (Connection.remaining_outbound_capacity w.tcp))).1
          ≡ got
        → ((w' : World K A) × (read_local sys w ≡ some w') × Fed sys pending w w')
          ⊎ ((read_local sys w ≡ none)
              × ((sys.sys_read w.kernel w.thread_data
                    (min (1024 * 1024) (Connection.remaining_outbound_capacity w.tcp))).1
                  ≡ none))
    by_answer none e = inr (read_local_fails sys w e, e)
    by_answer (some bytes) e = inl (read_local-Fed sys pending w bytes honest o e)
