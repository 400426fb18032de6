-- ===== src/Reassembler/Intervals/Search.antt =====
-- Beginning at the entry that `lower_bound` finds loses nothing against a walk over the whole map.
use cs144_labs.Prelude.{
  ℕ, ◌+◌, ◌^◌, ◌≤◌, ◌<◌, ◌≡◌, inl, inr, refl, sym, ap, ◌∙◌, ◌||◌, List, [], ◌∷◌, ◌++◌, arith, ltb,
  ltb→le, Bool-cases,
}
use cs144_labs.Reassembler.Intervals.{
  Interval, merge_from, lower_bound, step_back, start_entry, merge_interval, covers, total,
  in_interval,
}
use cs144_labs.Reassembler.Intervals.Apart.{Apart, EndsBy}
use cs144_labs.Reassembler.Intervals.Merge.{
  merge_from-Apart, merge_from-EndsBy, covers-merge_from, total-merge_from,
}

abbrev EndsBefore : ℕ → List Interval → Type 0
EndsBefore b [] = Unit {0}
EndsBefore b (x ∷ xs) = (x.first + x.second < b) × EndsBefore b xs

abbrev KeysBefore : ℕ → List Interval → Type 0
KeysBefore b [] = Unit {0}
KeysBefore b (x ∷ xs) = (x.first < b) × KeysBefore b xs

merge_from-skip :
    (p r : List Interval) (index size used : ℕ)
    → EndsBefore index p
    → index < 2 ^ 64
    → index + size < 2 ^ 64
    → merge_from index size used (p ++ r)
      ≡ (p ++ (merge_from index size used r).0, (merge_from index size used r).1)
unfolding merge_from
merge_from-skip [] r index size used b h k = refl
merge_from-skip (x ∷ p) r index size used b h k =
    ground (arith, merge_from-skip p r index size used b.1 h k)

lower_bound-append :
    (index : ℕ) (xs : List Interval) → (lower_bound index xs).0 ++ (lower_bound index xs).1 ≡ xs
unfolding lower_bound
lower_bound-append index [] = refl
lower_bound-append index (x ∷ xs) = ground (arith, lower_bound-append index xs)

lower_bound-KeysBefore :
    (index : ℕ) (xs : List Interval) → KeysBefore index (lower_bound index xs).0
unfolding lower_bound
lower_bound-KeysBefore index [] = tt
lower_bound-KeysBefore index (x ∷ xs) = ground (arith, lower_bound-KeysBefore index xs)

step_back-append : (p r : List Interval) → (step_back p r).0 ++ (step_back p r).1 ≡ p ++ r
unfolding step_back
step_back-append [] r = refl
step_back-append (x ∷ []) r = refl
step_back-append (x ∷ y ∷ p) r = ap (◌∷◌ x) (step_back-append (y ∷ p) r)

-- Going one entry back leaves before it only what ends before the bound.
step_back-EndsBefore :
    (p r : List Interval) (lo b : ℕ)
    → Apart lo (p ++ r)
    → KeysBefore b p
    → EndsBefore b (step_back p r).0
unfolding step_back
step_back-EndsBefore [] r lo b a k = tt
step_back-EndsBefore (x ∷ []) r lo b a k = tt
step_back-EndsBefore (x ∷ y ∷ p) r lo b a k =
    (omega arith, step_back-EndsBefore (y ∷ p) r (x.first + x.second + 1) b a.2 k.1)

Apart-EndsBefore :
    (p : List Interval) (x : Interval) (r : List Interval) (lo b : ℕ)
    → Apart lo (p ++ x ∷ r)
    → x.first ≤ b
    → (lo ≤ x.first) × EndsBefore b p
Apart-EndsBefore [] x r lo b a h = (a.0, tt)
Apart-EndsBefore (y ∷ p) x r lo b a h =
    let later = Apart-EndsBefore p x r (y.first + y.second + 1) b a.2 h in
    (omega arith, (omega arith, later.1))

start_entry-append :
    (index : ℕ) (p r : List Interval)
    → (start_entry index p r).0 ++ (start_entry index p r).1 ≡ p ++ r
unfolding start_entry
start_entry-append index p [] = step_back-append p []
start_entry-append index p (x ∷ r) = ground (arith, step_back-append p (x ∷ r))

start_entry-EndsBefore :
    (index : ℕ) (p r : List Interval) (lo : ℕ)
    → Apart lo (p ++ r)
    → KeysBefore index p
    → EndsBefore index (start_entry index p r).0
unfolding start_entry
start_entry-EndsBefore index p [] lo a k = step_back-EndsBefore p [] lo index a k
start_entry-EndsBefore index p (x ∷ r) lo a k = elim (Bool-cases (ltb index x.first)) [
  | inl e ↦ rw e (step_back-EndsBefore p (x ∷ r) lo index a k)
  | inr e ↦ rw e (Apart-EndsBefore p x r lo index a (ltb→le index x.first e)).1
]

-- The search by `lower_bound` gives what a walk from the beginning of the map gives.
pub merge_interval-eq-merge_from :
    (xs : List Interval) (lo index size used : ℕ)
    → Apart lo xs
    → index + size < 2 ^ 64
    → merge_interval index size used xs ≡ merge_from index size used xs
unfolding merge_interval
merge_interval-eq-merge_from [] lo index size used a h = unfold merge_from in refl
merge_interval-eq-merge_from (x ∷ xs) lo index size used a h =
    let all = x ∷ xs in
    let found = lower_bound index all in
    let at = start_entry index found.0 found.1 in
    let whole : at.0 ++ at.1 ≡ all =
      start_entry-append index found.0 found.1 ∙ lower_bound-append index all in
    let sorted : Apart lo (found.0 ++ found.1) = rw (lower_bound-append index all) a in
    sym (
      merge_from-skip at.0 at.1 index size used
        (start_entry-EndsBefore index found.0 found.1 lo sorted (lower_bound-KeysBefore index all))
        (omega arith) h)
    ∙ ap (merge_from index size used) whole

-- A map that an insertion left: apart, within its bounds, with the sum of its sizes as `used_size_`.
pub record Merged (lo hi index size : ℕ) (xs : List Interval) (out : List Interval × ℕ)
    : Type 0 where
  pub apart : Apart lo out.0
  pub ends : EndsBy hi out.0
  pub sum : out.1 ≡ total out.0
  pub cover : (j : ℕ) → covers out.0 j ≡ (in_interval index size j || covers xs j)

-- `MergeInterval` keeps the entries of the map apart, counts each covered index once, and adds to the
-- covered indices those of the new interval.
pub merge_interval-Merged :
    (xs : List Interval) (lo hi index size : ℕ)
    → hi < 2 ^ 64
    → Apart lo xs
    → EndsBy hi xs
    → lo ≤ index
    → 0 < size
    → index + size ≤ hi
    → Merged lo hi index size xs (merge_interval index size (total xs) xs)
merge_interval-Merged xs lo hi index size w a e h p q =
    rw (merge_interval-eq-merge_from xs lo index size (total xs) a (omega arith)) (record {
      apart = merge_from-Apart hi w xs lo index size (total xs) a e h p q;
      ends = merge_from-EndsBy hi w xs index size (total xs) e q;
      sum =
          total-merge_from hi w xs lo index size 0 (total xs) a e h q (omega arith) (omega arith)
          ∙ omega arith;
      cover = λ j. covers-merge_from hi w xs index size (total xs) j e q;
    })
