-- ===== src/Socket/Instances.antt =====
-- The sockets of libsponge/tcp_helpers/tcp_sponge_socket.hh over UDP and over TUN: what their adapters
-- give to the rules and to the loop.
use cs144_labs.Prelude.{ℕ, Option, some, List}
use cs144_labs.Wire.Adapter.{Address}
use cs144_labs.Util.FileDescriptor.{FdWrapper}
use cs144_labs.Socket.Adapters
use cs144_labs.Socket.Adapters.{FdAdapterConfig, UdpAdapter}
use cs144_labs.Socket.Rules.{AdapterCalls}
use cs144_labs.Socket.Loop.{AdapterSettings}
use cs144_labs.Socket.Tun
use cs144_labs.Socket.Tun.{TunAdapter}

module _ {K : Type 0} where
  abbrev pub udp_calls :
      (K → FdWrapper → ℕ → K × Option (Address × List ℕ))
      → (K → FdWrapper → Address → List (List ℕ) → K × Option ℕ)
      → AdapterCalls K UdpAdapter
  udp_calls sys_recvfrom sys_sendmsg = record {
    descriptor = λ a. a.sock;
    read_segment = λ a k. Adapters.read sys_recvfrom a k;
    write_segment = λ a k seg. Adapters.write sys_sendmsg a k seg;
  }

  -- `FdAdapterBase::tick` does nothing.
  abbrev pub udp_settings : AdapterSettings K UdpAdapter
  udp_settings = record {
    set_config = λ a cfg. record a { base = record a.base { cfg = cfg } };
    set_listening = λ a l. record a { base = record a.base { listening = l } };
    tick_adapter = λ a k ms. (k, some a);
  }

  abbrev pub tun_calls :
      (K → FdWrapper → ℕ → K × Option (List ℕ))
      → (K → FdWrapper → List (List ℕ) → K × Option ℕ)
      → AdapterCalls K TunAdapter
  tun_calls sys_read sys_writev = record {
    descriptor = λ a. a.tun;
    read_segment = λ a k. Tun.read sys_read a k;
    write_segment = λ a k seg. Tun.write sys_writev a k seg;
  }

  abbrev pub tun_settings : AdapterSettings K TunAdapter
  tun_settings = record {
    set_config = λ a cfg. record a {
      base = record a.base { source = cfg.source; destination = cfg.destination };
    };
    set_listening = λ a l. record a { base = record a.base { listening = l } };
    tick_adapter = λ a k ms. (k, some a);
  }
