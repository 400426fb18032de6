-- ===== src/Wire/Weight.antt =====
-- The sum that `InternetChecksum` makes of bytes, without the wrap at 32 bits.
use cs144_labs.Prelude.{
  ℕ, ◌+◌, ◌*◌, ◌^◌, ◌≤◌, ◌<◌, ◌≡◌, Bool, true, false, not, List, [], ◌∷◌, arith, if◌then◌else◌,
  length, add32,
}
use cs144_labs.Wire.Checksum.{InternetChecksum, add}
use cs144_labs.Wire.Reading.{AllBytes}

-- What a byte adds, by the parity.
abbrev pub place : Bool → ℕ → ℕ
place parity byte = if not parity then byte * 2 ^ 8 else byte

unfoldable pub weight : Bool → List ℕ → ℕ
weight parity [] = 0
weight parity (byte ∷ bytes) = place parity byte + weight (not parity) bytes

pub sum-add :
    (bytes : List ℕ) (check : InternetChecksum)
    → check.sum + weight check.parity bytes < 2 ^ 32
    → (add check bytes).sum ≡ check.sum + weight check.parity bytes
unfolding add weight
sum-add [] check h = omega arith
sum-add (byte ∷ bytes) check h =
    let next : add32 check.sum (place check.parity byte) ≡ check.sum + place check.parity byte =
      omega arith in
    let rest =
      sum-add bytes
        (record check {
          sum = add32 check.sum (place check.parity byte);
          parity = not check.parity;
        })
        (omega arith) in
    omega (arith, rest)

pub weight_bound :
    (parity : Bool) (bytes : List ℕ) → AllBytes bytes → weight parity bytes ≤ 65280 * length bytes
unfolding weight AllBytes
weight_bound parity [] h = omega arith
weight_bound true (byte ∷ bytes) h = omega (arith, weight_bound false bytes h.1)
weight_bound false (byte ∷ bytes) h = omega (arith, weight_bound true bytes h.1)
