-- ===== src/Tests/Sockets.antt =====
-- Runs of the local socket of a connection and of the relay.
use cs144_labs.Prelude.{some_inj, ap, ◌∙◌, ◌⊎◌, ◌*◌, ◌++◌, min, drop, take-append-drop, length}
use cs144_labs.Prelude.{
  ℕ, length-take, take, ◌≡◌, refl, sym, Bool, true, false, Option, none, some, List, [], ◌∷◌, arith,
}
use cs144_labs.ByteStream
use cs144_labs.ByteStream.{ByteStream}
use cs144_labs.ByteStream.Validity.{new-IsValid, write-IsValid}
use cs144_labs.Config.{TcpConfig}
use cs144_labs.Connection
use cs144_labs.Sender
use cs144_labs.Util.FileDescriptor.{FdWrapper, wrapper}
use cs144_labs.Util.UdpSocket.{Shutdown}
use cs144_labs.Util.EventLoop.{PollResult}
use cs144_labs.Socket.Rules.{SystemCalls, World, with_inbound, write_local}
use cs144_labs.Socket.Rules.Pumping.{IsShutdown, Moved, CallFailed, write_local_lem}
use cs144_labs.Socket.Rules.{read_local}
use cs144_labs.Socket.Rules.Feeding.{IsRead, IsOpen, Fed, read_local_lem}
use cs144_labs.Sender.Validity
use cs144_labs.Prelude.{ℕ, drop, take-append-drop}
use cs144_labs.Relay.{RelayCalls, Relay, start, relay_rules, relay_loop}
use cs144_labs.Relay.Conservation.{Same, IsKernel}
use cs144_labs.Relay.Conservation.Steps.{Conserved}
use cs144_labs.Relay.Conservation.Running.{relay_loop_lem}
use cs144_labs.Tests.Utilities.{
  Traffic, quiet, add, add-here, add-apart, write_two, write_two-IsWritev, write_two-WritesPrefix,
  all_ready, all_ready-Answers,
}

-- Each read gives one byte, if any is asked for.
abbrev one_byte : ℕ → List ℕ
one_byte n = take n (7 ∷ [])

abbrev read_one : Traffic → FdWrapper → ℕ → Traffic × Option (List ℕ)
read_one k f n = (record k { given = add k.given f.fd (one_byte n) }, some (one_byte n))

abbrev shut_well : Traffic → FdWrapper → Shutdown → Traffic × Bool
shut_well k f how = (k, true)

abbrev some_calls : SystemCalls Traffic
some_calls = record { sys_read = read_one; sys_writev = write_two; sys_shutdown = shut_well }

shut_well-IsShutdown : IsShutdown shut_well (λ k. k.received)
shut_well-IsShutdown = record { keeps = λ k f how fd. refl }

abbrev small_config : TcpConfig
small_config = record { rt_timeout = 1000; recv_capacity = 8; send_capacity = 8; fixed_isn = none }

abbrev three_bytes : ByteStream
three_bytes = (ByteStream.write (ByteStream.new 8) (1 ∷ 2 ∷ 3 ∷ [])).0

-- A world in which three bytes wait for the application.
abbrev busy_world : World Traffic ℕ
busy_world = record {
  tcp = with_inbound (Connection.new small_config 0) three_bytes;
  thread_data = wrapper 4;
  datagram_adapter = 0;
  kernel = quiet;
  abort = false;
  inbound_shutdown = false;
  outbound_shutdown = false;
  fully_acked = false;
}

write_local_lem_example :
    ((w' : World Traffic ℕ) × (write_local some_calls busy_world ≡ some w')
      × Moved some_calls (λ k. k.received) busy_world w')
    ⊎ ((write_local some_calls busy_world ≡ none) × CallFailed some_calls busy_world)
write_local_lem_example =
    write_local_lem some_calls (λ k. k.received) busy_world write_two-WritesPrefix
      shut_well-IsShutdown
      (write-IsValid (1 ∷ 2 ∷ 3 ∷ []) (new-IsValid 8 (omega arith) (omega arith)))

abbrev relay_calls : RelayCalls Traffic
relay_calls = record {
  sys_read = read_one;
  sys_writev = write_two;
  sys_shutdown = shut_well;
  sys_close = λ k f. (k, true);
  sys_poll = λ k ps. (k, PollResult.ready (all_ready ps));
}

same : (k : Traffic) → Same (λ t. t.given) (λ t. t.received) k k
same k = record { given_same = λ fd. refl; received_same = λ fd. refl }

relay_calls-IsKernel : IsKernel (λ t. t.given) (λ t. t.received) relay_calls
relay_calls-IsKernel = record {
  bytes_read = λ k f n. one_byte n;
  read_answer = λ k f n. refl;
  read_size = λ k f n. omega (arith, length-take {A = ℕ} n (7 ∷ []));
  read_given = λ k f n. add-here k.given f.fd (one_byte n);
  read_apart = λ k f n fd h. add-apart k.given f.fd (one_byte n) fd h;
  read_received = λ k f n fd. refl;
  writes = write_two-IsWritev;
  write_given = λ k f vs fd. refl;
  shutdown_done = λ k f how. refl;
  shutdown_same = λ k f how. same k;
  close_done = λ k f. refl;
  close_same = λ k f. same k;
  poll_answers = λ k ps. all_ready-Answers ps;
  poll_same = λ k ps. same k;
}

relay_loop_lem_example :
    (w : Relay Traffic) × (relay_loop relay_calls 5
        (relay_rules relay_calls)
        (start (wrapper 3) quiet)
      ≡ some w)
    × Conserved (λ t. t.given) (λ t. t.received) relay_calls w
relay_loop_lem_example =
    relay_loop_lem (λ t. t.given) (λ t. t.received) relay_calls 5 (wrapper 3) quiet
      relay_calls-IsKernel (λ e. omega arith) (λ e. omega arith) (λ fd. refl) (λ fd. refl)

-- A kernel that is the bytes that wait at every descriptor.
abbrev read_first : List ℕ → FdWrapper → ℕ → List ℕ × Option (List ℕ)
read_first k f n = (drop n k, some (take n k))

abbrev first_calls : SystemCalls (List ℕ)
first_calls = record {
  sys_read = read_first;
  sys_writev = λ k f vs. (k, none);
  sys_shutdown = λ k f how. (k, true);
}

read_first-IsRead : IsRead read_first (λ k fd. k)
read_first-IsRead = record {
  small = λ k f n bytes e. omega (arith, length-take n k, ap length (some_inj e));
  delivery = λ k f n bytes e. sym (take-append-drop n k) ∙ ap (λ t. t ++ drop n k) (some_inj e);
}

-- A world in which four bytes wait for a new connection.
abbrev typing_world : World (List ℕ) ℕ
typing_world = record {
  tcp = Connection.new small_config 0;
  thread_data = wrapper 4;
  datagram_adapter = 0;
  kernel = 1 ∷ 2 ∷ 3 ∷ 4 ∷ [];
  abort = false;
  inbound_shutdown = false;
  outbound_shutdown = false;
  fully_acked = false;
}

typing_world-IsOpen : IsOpen typing_world.tcp
unfolding Sender.new Connection.new
typing_world-IsOpen = record {
  valid = Validity.new-IsValid 8 1000 0 (omega arith) (omega arith) (omega arith);
  ack_word = omega arith;
  no_rst = refl;
}

read_local_lem_example :
    ((w' : World (List ℕ) ℕ) × (read_local first_calls typing_world ≡ some w')
      × Fed first_calls (λ k fd. k) typing_world w')
    ⊎ ((read_local first_calls typing_world ≡ none)
        × ((read_first typing_world.kernel typing_world.thread_data
              (min (1024 * 1024) (Connection.remaining_outbound_capacity typing_world.tcp))).1
            ≡ none))
read_local_lem_example =
    read_local_lem first_calls (λ k fd. k) typing_world read_first-IsRead typing_world-IsOpen
