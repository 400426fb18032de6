-- ===== src/Reassembler/Intervals/Merge.antt =====
-- What the loop of `MergeInterval` does to the map.
use cs144_labs.Prelude.{
  ℕ, ◌+◌, ◌-◌, ◌^◌, ◌≤◌, ◌<◌, min, max, ◌≡◌, ◌⊎◌, inl, inr, refl, sym, ◌∙◌, Bool, ◌||◌, List, [],
  ◌∷◌, arith, le→ltb, add64, sub64,
}
use native.Mathlib.Decide.{dec_lt}
use cs144_labs.Reassembler.Intervals.{Interval, interval, merge_from, covers, total, in_interval}
use cs144_labs.Reassembler.Intervals.Apart.{Apart, EndsBy, Apart-mono, total_bound}

-- Two intervals that overlap or touch cover together what their union covers.
in_interval_union :
    (i n f m j : ℕ)
    → f ≤ i + n
    → i ≤ f + m
    → in_interval (min i f) (max (i + n) (f + m) - min i f) j
      ≡ (in_interval i n j || in_interval f m j)
in_interval_union i n f m j h k = ground arith

or_assoc : (a b c : Bool) → (a || (b || c)) ≡ ((a || b) || c)
or_assoc a b c = ground arith

or_swap : (a b c : Bool) → (a || (b || c)) ≡ (b || (a || c))
or_swap a b c = ground arith

module _ (hi : ℕ) (word : hi < 2 ^ 64) where
  -- One round of the loop, without machine words.
  pub merge_from_cases :
      (x : Interval) (xs : List Interval) (index size used : ℕ)
      → x.first + x.second ≤ hi
      → index + size ≤ hi
      → ((index + size < x.first)
          × (merge_from index size used (x ∷ xs) ≡ (interval index size ∷ x ∷ xs, add64 used size)))
        ⊎ ((x.first + x.second < index)
            × (merge_from index size used (x ∷ xs)
                ≡ (x ∷ (merge_from index size used xs).0, (merge_from index size used xs).1)))
        ⊎ ((x.first ≤ index + size)
            × (index ≤ x.first + x.second)
            × (merge_from index size used (x ∷ xs)
                ≡ merge_from
                    (min index x.first)
                    (max (index + size) (x.first + x.second) - min index x.first)
                    (sub64 used x.second)
                    xs))
  unfolding merge_from
  merge_from_cases x xs index size used e q =
      let a : add64 index size ≡ index + size = omega arith in
      let b : add64 x.first x.second ≡ x.first + x.second = omega arith in
      let c : sub64 (max (index + size) (x.first + x.second)) (min index x.first)
          ≡ max (index + size) (x.first + x.second) - min index x.first =
        omega arith in
      elim (dec_lt (index + size) x.first) [
        | yes p ↦ inl (p, ground (arith))
        | no p ↦ elim (dec_lt (x.first + x.second) index) [
          | yes r ↦ inr (inl (r, ground (arith)))
          | no r ↦ inr (
              inr (
                omega arith,
                omega arith,
                rw (
                  a,
                  b,
                  c,
                  le→ltb (index + size) x.first (omega arith),
                  le→ltb (x.first + x.second) index (omega arith),
                ),
              ))
        ]
      ]

  pub merge_from-Apart :
      (xs : List Interval) (lo index size used : ℕ)
      → Apart lo xs
      → EndsBy hi xs
      → lo ≤ index
      → 0 < size
      → index + size ≤ hi
      → Apart lo (merge_from index size used xs).0
  unfolding merge_from
  merge_from-Apart [] lo index size used a e h p q = ground arith
  merge_from-Apart (x ∷ xs) lo index size used a e h p q = ground (
    arith,
    merge_from-Apart xs (x.first + x.second + 1) index size used a.2 e.1,
    merge_from-Apart xs lo (min index x.first)
        (sub64 (max (add64 index size) (add64 x.first x.second)) (min index x.first))
        (sub64 used x.second) (Apart-mono (x.first + x.second + 1) lo xs (omega arith) a.2) e.1,
  )

  pub merge_from-EndsBy :
      (xs : List Interval) (index size used : ℕ)
      → EndsBy hi xs
      → index + size ≤ hi
      → EndsBy hi (merge_from index size used xs).0
  unfolding merge_from
  merge_from-EndsBy [] index size used e q = ground arith
  merge_from-EndsBy (x ∷ xs) index size used e q = ground (
    arith,
    merge_from-EndsBy xs index size used e.1,
    merge_from-EndsBy xs (min index x.first)
        (sub64 (max (add64 index size) (add64 x.first x.second)) (min index x.first))
        (sub64 used x.second) e.1,
  )

  pub covers-merge_from :
      (xs : List Interval) (index size used j : ℕ)
      → EndsBy hi xs
      → index + size ≤ hi
      → covers (merge_from index size used xs).0 j ≡ (in_interval index size j || covers xs j)
  covers-merge_from [] index size used j e q = unfold merge_from in refl
  covers-merge_from (x ∷ xs) index size used j e q =
      elim (merge_from_cases x xs index size used e.0 q) [
        | inl (p, h) ↦ rw h refl
        | inr (inl (p, h)) ↦
            rw (h, covers-merge_from xs index size used j e.1 q)
              (or_swap (in_interval x.first x.second j) (in_interval index size j) (covers xs j))
        | inr (inr (p, r, h)) ↦
            rw
              (
                h,
                covers-merge_from xs (min index x.first)
                    (max (index + size) (x.first + x.second) - min index x.first)
                    (sub64 used x.second) j e.1 (omega arith),
                in_interval_union index size x.first x.second j p r,
              )
              (sym (
                or_assoc (in_interval index size j) (in_interval x.first x.second j) (covers xs j)))
      ]

  -- `extra` is the sum of the sizes before the iterator.
  pub total-merge_from :
      (xs : List Interval) (lo index size extra used : ℕ)
      → Apart lo xs
      → EndsBy hi xs
      → lo ≤ index
      → index + size ≤ hi
      → extra ≤ lo
      → used ≡ extra + total xs
      → (merge_from index size used xs).1 ≡ extra + total (merge_from index size used xs).0
  total-merge_from [] lo index size extra used a e h q r u = unfold merge_from in omega arith
  total-merge_from (x ∷ xs) lo index size extra used a e h q r u =
      let t = total_bound x.first hi (x ∷ xs) (omega arith, a.1, a.2) e (omega arith) in
      elim (merge_from_cases x xs index size used e.0 q) [
        | inl (p, m) ↦ rw m (omega arith)
        | inr (inl (p, m)) ↦ rw m (
            total-merge_from xs (x.first + x.second + 1) index size (extra + x.second) used a.2 e.1
              (omega arith) q (omega arith) (omega arith)
            ∙ omega arith)
        | inr (inr (p, k, m)) ↦ rw m (
            total-merge_from xs lo (min index x.first)
              (max (index + size) (x.first + x.second) - min index x.first) extra
              (sub64 used x.second) (Apart-mono (x.first + x.second + 1) lo xs (omega arith) a.2)
              e.1 (omega arith) (omega arith) r (omega arith))
      ]
