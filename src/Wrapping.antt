-- ===== src/Wrapping.antt =====
-- libsponge/wrapping_integers.hh and wrapping_integers.cc: 32-bit sequence numbers against 64-bit
-- absolute ones. A `WrappingInt32` is its raw value.
pub mod Closest
use cs144_labs.Prelude.{ℕ, ◌+◌, ◌-◌, ◌%◌, ◌^◌, ◌||◌, if◌then◌else◌, ltb, add32, sub32, add64, sub64}

abbrev pub max_u32 : ℕ
max_u32 = 2 ^ 32 - 1

-- `operator+(WrappingInt32, uint32_t)`
abbrev pub advance : ℕ → ℕ → ℕ
advance a b = add32 a b

-- The bit pattern of `operator-(WrappingInt32, WrappingInt32)`, an `int32_t`.
abbrev pub distance : ℕ → ℕ → ℕ
distance a b = sub32 a b

-- The argument of `operator+` cuts `n` to 32 bits.
unfoldable pub wrap : ℕ → ℕ → ℕ
wrap n isn = advance isn (n % 2 ^ 32)

-- The two differences of `unwrap`, upwards and downwards.
unfoldable pub diff_p : ℕ → ℕ → ℕ
diff_p n cp = if ltb cp n then distance n cp else add32 (add32 (sub32 max_u32 cp) n) 1

unfoldable pub diff_n : ℕ → ℕ → ℕ
diff_n n cp = if ltb cp n then add32 (add32 (sub32 max_u32 n) cp) 1 else distance cp n

unfoldable pub unwrap : ℕ → ℕ → ℕ → ℕ
unfolding wrap diff_p diff_n
unwrap n isn checkpoint =
    let cp = wrap checkpoint isn in
    let up = diff_p n cp in
    let down = diff_n n cp in
    if ltb up down || ltb checkpoint down then add64 checkpoint up else sub64 checkpoint down
