-- ===== src/Prelude/Words.antt =====
-- Unsigned machine integers as native numbers: every sum and difference wraps at its width.
use Prim.Native.Nat.{ℕ, ◌+◌, ◌-◌, ◌%◌, ◌^◌, ◌≤◌, ◌<◌}
use mathlib.Core.Path.{◌≡◌}
use mathlib.Core.Logic.{◌⊎◌, inl, inr}
use native.Mathlib.Nat.{mod-eq-sub-mod, mod-eq_of_lt}
use native.Mathlib.Decide.{dec_lt}
use native.Mathlib.Omega.{arith}

-- size_t and uint64_t
abbrev pub add64 : ℕ → ℕ → ℕ
add64 a b = (a + b) % 2 ^ 64

abbrev pub sub64 : ℕ → ℕ → ℕ
sub64 a b = (a + 2 ^ 64 - b) % 2 ^ 64

-- uint32_t
abbrev pub add32 : ℕ → ℕ → ℕ
add32 a b = (a + b) % 2 ^ 32

abbrev pub sub32 : ℕ → ℕ → ℕ
sub32 a b = (a + 2 ^ 32 - b) % 2 ^ 32

-- Below twice the modulus, a remainder takes at most one subtraction.
pub mod_once : (a m : ℕ) → a < m + m → ((a < m) × (a % m ≡ a)) ⊎ ((m ≤ a) × (a % m + m ≡ a))
mod_once a m h = elim (dec_lt a m) [
  | yes p ↦ inl (p, mod-eq_of_lt p)
  | no p ↦ inr (
    omega arith,
    omega (
      arith,
      mod-eq-sub-mod {n = a} {m = m} (omega arith),
      mod-eq_of_lt {n = a - m} {m = m} (omega arith),
    ),
  )
]
