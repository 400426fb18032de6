-- ===== src/Wrapping/Closest.antt =====
-- What `unwrap` returns: a number that wraps to its argument, and the closest one.
use cs144_labs.Prelude.{ℕ, ◌+◌, ◌-◌, ◌^◌, ◌≤◌, ◌<◌, ◌≡◌, arith}
use cs144_labs.Wrapping.{wrap, unwrap}

-- `unwrap` returns a number that wraps to the one given.
pub wrap-unwrap :
    (n isn checkpoint : ℕ)
    → n < 2 ^ 32
    → isn < 2 ^ 32
    → checkpoint < 2 ^ 64
    → wrap (unwrap n isn checkpoint) isn ≡ n
unfolding wrap unwrap
wrap-unwrap n isn checkpoint hn hi hc = ground arith

-- How far apart two numbers lie.
abbrev pub gap : ℕ → ℕ → ℕ
gap a b = (a - b) + (b - a)

none_closer :
    (n isn checkpoint x : ℕ)
    → n < 2 ^ 32
    → isn < 2 ^ 32
    → checkpoint + 2 ^ 32 ≤ 2 ^ 64
    → wrap x isn ≡ n
    → gap (unwrap n isn checkpoint) checkpoint ≤ gap x checkpoint
unfolding wrap unwrap
none_closer n isn checkpoint x hn hi hc hx = ground arith

-- `unwrap` returns a number that wraps to `n`, and no number that does lies closer to the checkpoint,
-- if the checkpoint is not within 2 ^ 32 of the end of the 64-bit range.
pub unwrap_closest :
    (n isn checkpoint x : ℕ)
    → n < 2 ^ 32
    → isn < 2 ^ 32
    → checkpoint + 2 ^ 32 ≤ 2 ^ 64
    → wrap x isn ≡ n
    → (wrap (unwrap n isn checkpoint) isn ≡ n)
      × (gap (unwrap n isn checkpoint) checkpoint ≤ gap x checkpoint)
unwrap_closest n isn checkpoint x hn hi hc hx =
    (wrap-unwrap n isn checkpoint hn hi (omega arith), none_closer n isn checkpoint x hn hi hc hx)

-- A number within 2 ^ 31 of the checkpoint is had back from what it wraps to.
pub unwrap-wrap :
    (x isn checkpoint : ℕ)
    → isn < 2 ^ 32
    → checkpoint + 2 ^ 32 ≤ 2 ^ 64
    → x < checkpoint + 2 ^ 31
    → checkpoint ≤ x + 2 ^ 31
    → unwrap (wrap x isn) isn checkpoint ≡ x
unfolding wrap unwrap
unwrap-wrap x isn checkpoint hi hc h1 h2 = ground arith
