-- ===== src/Wire/Complement.antt =====
-- The checksum is the one's complement of the sum, and its loop ends.
use cs144_labs.Prelude.{
  ℕ, suc, ◌+◌, ◌-◌, ◌/◌, ◌%◌, ◌^◌, ◌<◌, ◌≡◌, refl, ◌∙◌, some, arith, lt→ltb, le→ltb, if_true,
  if_false, add32,
}
use cs144_labs.Prelude.{zero, sym, ap, ltb, some_inj, Bool-cases, ltb→lt, inl, inr}
use native.Mathlib.Decide.{dec_lt}
use cs144_labs.Wire.Checksum.{InternetChecksum, fold, value}

-- One round keeps the sum modulo `2 ^ 16 - 1`.
round_mod :
    (s : ℕ)
    → s < 2 ^ 32
    → (add32 (s / 2 ^ 16) (s % 2 ^ 16) % (2 ^ 16 - 1) ≡ s % (2 ^ 16 - 1))
      × (add32 (s / 2 ^ 16) (s % 2 ^ 16) < 2 ^ 17 - 1)
round_mod s h = (omega arith, omega arith)

fold_stops : (fuel s : ℕ) → s < 2 ^ 16 → fold (suc fuel) s ≡ some s
unfolding fold
fold_stops fuel s h = if_false _ _ (le→ltb (2 ^ 16 - 1) s (omega arith))

fold_again :
    (fuel s : ℕ) → 2 ^ 16 - 1 < s → fold (suc fuel) s ≡ fold fuel (add32 (s / 2 ^ 16) (s % 2 ^ 16))
unfolding fold
fold_again fuel s h = if_true _ _ (lt→ltb (2 ^ 16 - 1) s h)

-- From a sum below `2 ^ 17 - 1` one round is enough.
fold_short :
    (fuel s : ℕ)
    → s < 2 ^ 17 - 1
    → (r : ℕ) × (fold (suc (suc fuel)) s ≡ some r)
      × (r < 2 ^ 16)
      × (r % (2 ^ 16 - 1) ≡ s % (2 ^ 16 - 1))
fold_short fuel s h = elim (dec_lt (2 ^ 16 - 1) s) [
  | yes p ↦ (
    add32 (s / 2 ^ 16) (s % 2 ^ 16),
    fold_again (suc fuel) s p ∙ fold_stops fuel (add32 (s / 2 ^ 16) (s % 2 ^ 16)) (omega arith),
    omega arith,
    omega arith,
  )
  | no p ↦ (s, fold_stops (suc fuel) s (omega arith), omega arith, refl)
]

fold_enough :
    (s : ℕ)
    → s < 2 ^ 32
    → (r : ℕ) × (fold 3 s ≡ some r) × (r < 2 ^ 16) × (r % (2 ^ 16 - 1) ≡ s % (2 ^ 16 - 1))
fold_enough s h = elim (dec_lt (2 ^ 16 - 1) s) [
  | yes p ↦
      let (m, k) = round_mod s h in
      let (r, run, small, same) = fold_short 0 (add32 (s / 2 ^ 16) (s % 2 ^ 16)) k in
      (r, fold_again 2 s p ∙ run, small, same ∙ m)
  | no p ↦ (s, fold_stops 2 s (omega arith), omega arith, refl)
]

-- The loop of `value` always ends, and what it gives is a 16-bit number that makes the sum a multiple
-- of `2 ^ 16 - 1`: the sum of a packet with its checksum in it checks as zero.
pub value_lem :
    (check : InternetChecksum)
    → check.sum < 2 ^ 32
    → (r : ℕ) × (value check ≡ some r) × (r < 2 ^ 16) × ((check.sum + r) % (2 ^ 16 - 1) ≡ 0)
unfolding value
value_lem check h =
    let (r, run, small, same) = fold_enough check.sum h in
    (2 ^ 16 - 1 - r, rw (value, run) refl, omega arith, omega arith)

fold_pos : (fuel s : ℕ) {r : ℕ} → 0 < s → s < 2 ^ 32 → fold fuel s ≡ some r → 0 < r
unfolding fold
fold_pos zero s h k e = absurd (cc e)
fold_pos (suc fuel) s h k e = elim (Bool-cases (ltb (2 ^ 16 - 1) s)) [
  | inl f ↦
      fold_pos fuel (add32 (s / 2 ^ 16) (s % 2 ^ 16)) (omega (arith, ltb→lt (2 ^ 16 - 1) s f))
        (omega arith) (rw f at e)
  | inr f ↦ omega (arith, some_inj (rw f at e))
]

-- A sum that is not zero is never completed by `2 ^ 16 - 1`.
value_proper :
    (check : InternetChecksum) (r : ℕ)
    → 0 < check.sum
    → check.sum < 2 ^ 32
    → value check ≡ some r
    → r < 2 ^ 16 - 1
unfolding value
value_proper check r pos h e =
    let (f, run, small, same) = fold_enough check.sum h in
    let p = fold_pos 3 check.sum pos h run in
    let eq : some (2 ^ 16 - 1 - f) ≡ some r = sym (rw (value, run) refl) ∙ e in
    omega (arith, some_inj eq)

-- The number that completes a sum that is not zero makes the whole check as zero.
pub value_complete :
    (check done : InternetChecksum) (r : ℕ)
    → 0 < check.sum
    → check.sum + 2 ^ 16 < 2 ^ 32
    → value check ≡ some r
    → done.sum ≡ check.sum + r
    → value done ≡ some 0
value_complete check done r pos h e same =
    let (c, run, small, zero_mod) = value_lem check (omega arith) in
    let (c', run', small', zero_mod') = value_lem done (omega (arith, some_inj (sym run ∙ e))) in
    let proper = value_proper done c' (omega arith) (omega (arith, some_inj (sym run ∙ e))) run' in
    run' ∙ ap some (omega (arith, some_inj (sym run ∙ e)))
