-- ===== src/Wire/Checksum.antt =====
-- `InternetChecksum` of libsponge/util/util.hh and util.cc.
use cs144_labs.Prelude.{
  ℕ, zero, suc, ◌-◌, ◌*◌, ◌/◌, ◌%◌, ◌^◌, Bool, false, not, Option, none, some, List, [], ◌∷◌,
  if◌then◌else◌, ltb, add32,
}

pub record InternetChecksum : Type 0 where
  pub sum : ℕ
  pub parity : Bool

abbrev pub checksum_from : ℕ → InternetChecksum
checksum_from initial_sum = record { sum = initial_sum; parity = false }

unfoldable pub add : InternetChecksum → List ℕ → InternetChecksum
add check [] = check
add check (byte ∷ bytes) =
    add
      (record check {
        sum = add32 check.sum (if not check.parity then byte * 2 ^ 8 else byte);
        parity = not check.parity;
      })
      bytes

-- The loop of `value`; `none` means that the fuel ran out.
unfoldable pub fold : ℕ → ℕ → Option ℕ
fold zero ret = none
fold (suc fuel) ret =
    let folded = fold fuel (add32 (ret / 2 ^ 16) (ret % 2 ^ 16)) in
    if ltb (2 ^ 16 - 1) ret then folded else some ret

-- Three rounds are enough for 32 bits. The complement is cut to 16 bits.
unfoldable pub value : InternetChecksum → Option ℕ
unfolding fold
value check = elim (fold 3 check.sum) [ none ↦ none | some ret ↦ some (2 ^ 16 - 1 - ret) ]
