-- ===== src/Socket/Loop.antt =====
-- `_tcp_loop`, `connect`, `listen_and_accept` and `_tcp_main` of
-- libsponge/tcp_helpers/tcp_sponge_socket.cc. The clock, poll(2) with its timeout of TCP_TICK_MS, and
-- the adapter's configuration and tick are parameters; the loop is on fuel, since it runs for as long as
-- the program.
pub mod Opening
use cs144_labs.Prelude.{
  ℕ, zero, suc, Bool, true, false, not, ◌&&◌, ◌||◌, Option, none, some, List, [], ◌∷◌,
  if◌then◌else◌, sub64,
}
use cs144_labs.Config.{TcpConfig}
use cs144_labs.Connection
use cs144_labs.Connection.{TcpConnection}
use cs144_labs.State.{TcpState, OfficialState, of_official, same_state}
use cs144_labs.State.Official.{state_of}
use cs144_labs.Util.FileDescriptor.{FdWrapper}
use cs144_labs.Util.EventLoop.{Result, Rule, PollFd, PollResult, add_rule, wait_next_event, is_exit}
use cs144_labs.Socket.Adapters.{FdAdapterConfig}
use cs144_labs.Socket.Rules.{SystemCalls, AdapterCalls, World, rule_1, rule_2, rule_3, rule_4}

-- What the adapter is told besides segments.
pub record AdapterSettings (K A : Type 0) : Type 0 where
  pub set_config : A → FdAdapterConfig → A
  pub set_listening : A → Bool → A
  pub tick_adapter : A → K → ℕ → K × Option A

-- The outcome of the loop: its end with the rules that are left, an exception, or the end of the fuel.
pub data LoopResult (K A : Type 0) : Type 0 where
  ended : List (Rule (World K A)) → World K A → LoopResult K A
  thrown : LoopResult K A
  running : LoopResult K A

-- The rules in the order in which `_initialize_TCP` adds them.
abbrev pub tcp_rules : {K A : Type 0} → SystemCalls K → AdapterCalls K A → List (Rule (World K A))
tcp_rules sys calls =
    add_rule (add_rule (add_rule (rule_1 calls ∷ []) (rule_2 sys)) (rule_3 sys)) (rule_4 calls)

-- The world that `_initialize_TCP` makes, with the number that the connection draws.
unfoldable pub initialize_tcp : {K A : Type 0} → TcpConfig → ℕ → FdWrapper → A → K → World K A
initialize_tcp cfg random_isn thread_data adapter kernel = record {
  tcp = Connection.new cfg random_isn;
  thread_data = thread_data;
  datagram_adapter = adapter;
  kernel = kernel;
  abort = false;
  inbound_shutdown = false;
  outbound_shutdown = false;
  fully_acked = false;
}

module _ {K A : Type 0} (settings : AdapterSettings K A) where
  -- `connect` up to its loop; `none` is one of its exceptions.
  unfoldable pub start_connect :
      Option TcpConnection
      → TcpConfig
      → ℕ
      → FdAdapterConfig
      → FdWrapper
      → A
      → K
      → Option (World K A)
  start_connect (some tcp) cfg random_isn c_ad thread_data adapter kernel = none
  start_connect none cfg random_isn c_ad thread_data adapter kernel =
      let w = initialize_tcp cfg random_isn thread_data (settings.set_config adapter c_ad) kernel in
      elim (Connection.connect w.tcp) [
        | none ↦ none
        | some tcp ↦
            if not (same_state (state_of tcp) (of_official OfficialState.syn_sent))
            then none
            else some (record w { tcp = tcp })
      ]

  -- `listen_and_accept` up to its loop.
  unfoldable pub start_listen :
      Option TcpConnection
      → TcpConfig
      → ℕ
      → FdAdapterConfig
      → FdWrapper
      → A
      → K
      → Option (World K A)
  start_listen (some tcp) cfg random_isn c_ad thread_data adapter kernel = none
  start_listen none cfg random_isn c_ad thread_data adapter kernel = some (
      initialize_tcp cfg random_isn thread_data
        (settings.set_listening (settings.set_config adapter c_ad) true) kernel)

module _ {K A : Type 0} (settings : AdapterSettings K A)
    (sys_poll : World K A → List PollFd → World K A × PollResult) (timestamp_ms : K → K × ℕ) where
  -- The ticks after an event, with the time of the last ones.
  unfoldable pub tick_all : World K A → ℕ → Option (World K A × ℕ)
  tick_all w base_time =
      let (kernel, next_time) = timestamp_ms w.kernel in
      let ms = sub64 next_time base_time in
      let ticked : Option (World K A × ℕ) = elim (Connection.tick w.tcp ms) [
        | none ↦ none
        | some tcp ↦
            let (kernel', told) = settings.tick_adapter w.datagram_adapter kernel ms in
            elim told [
              | none ↦ none
              | some adapter ↦
                  some (
                    record w { tcp = tcp; datagram_adapter = adapter; kernel = kernel' },
                    next_time,
                  )
            ]
      ] in
      if w.tcp.active then ticked else some (w, base_time)

  -- `_tcp_loop` from the given rules.
  unfoldable pub tcp_loop :
      ℕ → (World K A → Bool) → List (Rule (World K A)) → World K A → ℕ → LoopResult K A
  tcp_loop zero condition rules w base_time = running
  tcp_loop (suc fuel) condition rules w base_time =
      let round : LoopResult K A = elim (wait_next_event sys_poll rules w) [
        | none ↦ thrown
        | some (result, rules', w') ↦
            let next : LoopResult K A = elim (tick_all w' base_time) [
              | none ↦ thrown
              | some (w'', next_time) ↦ tcp_loop fuel condition rules' w'' next_time
            ] in
            if is_exit result || w'.abort then ended rules' w' else next
      ] in
      if condition w then round else ended rules w

  -- The conditions of the loops in `connect`, `listen_and_accept` and `_tcp_main`.
  abbrev pub is_connecting : World K A → Bool
  is_connecting w = same_state (state_of w.tcp) (of_official OfficialState.syn_sent)

  abbrev pub is_accepting : World K A → Bool
  is_accepting w =
      same_state (state_of w.tcp) (of_official OfficialState.listen)
      || (same_state (state_of w.tcp) (of_official OfficialState.syn_rcvd)
          || same_state (state_of w.tcp) (of_official OfficialState.syn_sent))

  module _ (sys : SystemCalls K) (calls : AdapterCalls K A) where
    -- A loop with the clock read before it.
    abbrev pub loop_from_now : ℕ → (World K A → Bool) → World K A → LoopResult K A
    loop_from_now fuel condition w =
        let (kernel, base_time) = timestamp_ms w.kernel in
        tcp_loop fuel condition (tcp_rules sys calls) (record w { kernel = kernel }) base_time

    unfoldable pub connect :
        ℕ
        → Option TcpConnection
        → TcpConfig
        → ℕ
        → FdAdapterConfig
        → FdWrapper
        → A
        → K
        → LoopResult K A
    connect fuel tcp cfg random_isn c_ad thread_data adapter kernel =
        elim (start_connect settings tcp cfg random_isn c_ad thread_data adapter kernel) [
          | none ↦ thrown
          | some w ↦ loop_from_now fuel is_connecting w
        ]

    unfoldable pub listen_and_accept :
        ℕ
        → Option TcpConnection
        → TcpConfig
        → ℕ
        → FdAdapterConfig
        → FdWrapper
        → A
        → K
        → LoopResult K A
    listen_and_accept fuel tcp cfg random_isn c_ad thread_data adapter kernel =
        elim (start_listen settings tcp cfg random_isn c_ad thread_data adapter kernel) [
          | none ↦ thrown
          | some w ↦ loop_from_now fuel is_accepting w
        ]
