-- ===== src/Sender/Clock.antt =====
-- `Timer` of libsponge/tcp_sender.hh: the retransmission timer, in milliseconds.
use cs144_labs.Prelude.{ℕ, Bool, true, false, ◌&&◌, if◌then◌else◌, leb, add64}

pub record Timer : Type 0 where
  pub timeout_ms : ℕ
  pub elapsed_ms : ℕ
  pub started : Bool

abbrev pub new_timer : ℕ → Timer
new_timer timeout_ms = record { timeout_ms = timeout_ms; elapsed_ms = 0; started = false }

-- `reset()`
abbrev pub stop : Timer → Timer
stop t = record t { elapsed_ms = 0; started = false }

-- `reset(timeout_ms)`
abbrev pub stop_with : Timer → ℕ → Timer
stop_with t timeout_ms = record { timeout_ms = timeout_ms; elapsed_ms = 0; started = false }

abbrev pub restart : Timer → Timer
restart t = record t { elapsed_ms = 0; started = true }

abbrev pub advance : Timer → ℕ → Timer
advance t ms = if t.started then record t { elapsed_ms = add64 t.elapsed_ms ms } else t

abbrev pub expired : Timer → Bool
expired t = t.started && leb t.timeout_ms t.elapsed_ms
