-- ===== src/Config.antt =====
-- `TCPConfig` of libsponge/tcp_helpers/tcp_config.hh.
use cs144_labs.Prelude.{ℕ, Option}

abbrev pub max_payload_size : ℕ
max_payload_size = 1000

abbrev pub max_retx_attempts : ℕ
max_retx_attempts = 8

pub record TcpConfig : Type 0 where
  pub rt_timeout : ℕ
  pub recv_capacity : ℕ
  pub send_capacity : ℕ
  pub fixed_isn : Option ℕ
