-- ===== src/Socket/Loop/Opening.antt =====
-- How a socket begins to connect.
use cs144_labs.Prelude.{ℕ, ◌≡◌, refl, ap, true, none, some, [], ◌∷◌}
use cs144_labs.Config.{TcpConfig}
use cs144_labs.Connection.{isn_of}
use cs144_labs.Connection.Handshake.{syn_of, connecting, connect_lem}
use cs144_labs.State.{OfficialState, of_official, same_state}
use cs144_labs.State.Official.{state_of}
use cs144_labs.State.Handshake.{state_of-connecting}
use cs144_labs.Util.FileDescriptor.{FdWrapper}
use cs144_labs.Socket.Adapters.{FdAdapterConfig}
use cs144_labs.Socket.Rules.{AdapterCalls, World, rule_4}
use cs144_labs.Socket.Loop.{AdapterSettings, initialize_tcp, start_connect}

is_connecting-connecting :
    (cfg : TcpConfig) (random_isn : ℕ)
    → same_state (state_of (connecting cfg random_isn)) (of_official OfficialState.syn_sent) ≡ true
unfolding of_official
is_connecting-connecting cfg random_isn =
    ap (λ t. same_state t (of_official OfficialState.syn_sent)) (state_of-connecting cfg random_isn)

-- On a socket without a connection, `connect` never throws before its loop: the connection is in the
-- state that it expects, so that the loop is entered, one SYN waits to be sent, and rule 4 is interested
-- in sending it, through the adapter with the new configuration.
pub start_connect_lem :
    {K A : Type 0} (settings : AdapterSettings K A) (calls : AdapterCalls K A) (cfg : TcpConfig)
    (random_isn : ℕ) (c_ad : FdAdapterConfig) (thread_data : FdWrapper) (adapter : A) (kernel : K)
    → (w : World K A) × (start_connect settings none cfg random_isn c_ad thread_data adapter kernel
        ≡ some w)
      × (state_of w.tcp ≡ of_official OfficialState.syn_sent)
      × (w.tcp.segments_out ≡ syn_of (isn_of cfg.fixed_isn random_isn) ∷ [])
      × ((rule_4 calls).interest w ≡ true)
      × (w.datagram_adapter ≡ settings.set_config adapter c_ad)
unfolding start_connect initialize_tcp
start_connect_lem settings calls cfg random_isn c_ad thread_data adapter kernel =
    let w =
      record (initialize_tcp cfg random_isn thread_data (settings.set_config adapter c_ad) kernel) {
        tcp = connecting cfg random_isn;
      } in
    (
      w,
      rw (start_connect, connect_lem cfg random_isn, is_connecting-connecting cfg random_isn) refl,
      state_of-connecting cfg random_isn,
      refl,
      refl,
      refl,
    )
