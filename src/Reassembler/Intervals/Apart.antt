-- ===== src/Reassembler/Intervals/Apart.antt =====
-- Maps whose entries are not empty, in order and pairwise apart.
use cs144_labs.Prelude.{true, ◌-◌, ℕ, ◌+◌, ◌≤◌, ◌<◌, ◌≡◌, refl, false, List, [], ◌∷◌, arith}
use cs144_labs.Reassembler.Intervals.{Interval, covers, total}

-- Every entry begins at `lo` or later, is not empty, and ends before the next one begins, with at
-- least one index between them.
abbrev pub Apart : ℕ → List Interval → Type 0
Apart lo [] = Unit {0}
Apart lo (x ∷ xs) = (lo ≤ x.first) × (0 < x.second) × Apart (x.first + x.second + 1) xs

-- Every entry ends at `hi` or before.
abbrev pub EndsBy : ℕ → List Interval → Type 0
EndsBy hi [] = Unit {0}
EndsBy hi (x ∷ xs) = (x.first + x.second ≤ hi) × EndsBy hi xs

pub Apart-mono : (lo lo' : ℕ) (xs : List Interval) → lo' ≤ lo → Apart lo xs → Apart lo' xs
Apart-mono lo lo' [] h a = tt
Apart-mono lo lo' (x ∷ xs) h a = (omega arith, a.1, a.2)

pub EndsBy-mono : (hi hi' : ℕ) (xs : List Interval) → hi ≤ hi' → EndsBy hi xs → EndsBy hi' xs
EndsBy-mono hi hi' [] h a = tt
EndsBy-mono hi hi' (x ∷ xs) h a = (omega arith, EndsBy-mono hi hi' xs h a.1)

pub total_bound :
    (lo hi : ℕ) (xs : List Interval) → Apart lo xs → EndsBy hi xs → lo ≤ hi → lo + total xs ≤ hi
total_bound lo hi [] a e h = omega arith
total_bound lo hi (x ∷ []) a e h = omega arith
total_bound lo hi (x ∷ y ∷ xs) a e h =
    omega (arith, total_bound (x.first + x.second + 1) hi (y ∷ xs) a.2 e.1)

-- Nothing before the first entry is covered.
pub covers_early :
    (lo : ℕ) (xs : List Interval) (j : ℕ) → Apart lo xs → j < lo → covers xs j ≡ false
covers_early lo [] j a h = refl
covers_early lo (x ∷ xs) j a h = ground (arith, covers_early (x.first + x.second + 1) xs j a.2)

pub covers_late :
    (hi : ℕ) (xs : List Interval) (j : ℕ) → EndsBy hi xs → hi ≤ j → covers xs j ≡ false
covers_late hi [] j a h = refl
covers_late hi (x ∷ xs) j a h = ground (arith, covers_late hi xs j a.1)

-- A bound on the covered indices is a bound on the ends.
pub covers-EndsBy :
    (lo hi : ℕ) (xs : List Interval)
    → Apart lo xs
    → ((j : ℕ) → covers xs j ≡ true → j < hi)
    → EndsBy hi xs
covers-EndsBy lo hi [] a h = tt
covers-EndsBy lo hi (x ∷ xs) a h = (
  omega (arith, h (x.first + x.second - 1) (ground arith)),
  covers-EndsBy (x.first + x.second + 1) hi xs a.2 (λ j c. h j (ground arith)),
)
