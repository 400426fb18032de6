-- ===== src/Reassembler/Intervals.antt =====
-- `UnAssembleBuffer::index_map_` and `UnAssembleBuffer::MergeInterval` of
-- libsponge/stream_reassembler.cc. The map, from the first index of an interval to its size, is a
-- list in the order of its keys; an iterator is a split of that list. `emplace_hint` inserts before
-- the iterator that it is given.
pub mod Apart
pub mod Search
pub mod Merge
use cs144_labs.Prelude.{
  ℕ, min, max, Bool, false, ◌&&◌, ◌||◌, ◌+◌, List, [], ◌∷◌, ◌++◌, if◌then◌else◌, ltb, leb, add64,
  sub64,
}

-- An entry of the map: `first` and `second` of its pair.
pub record Interval : Type 0 where
  pub first : ℕ
  pub second : ℕ

abbrev pub interval : ℕ → ℕ → Interval
interval i n = record { first = i; second = n }

-- The loop of `MergeInterval` from an iterator on: the entries from there, and `used_size_`.
unfoldable pub merge_from : ℕ → ℕ → ℕ → List Interval → List Interval × ℕ
merge_from index str_size used [] = (interval index str_size ∷ [], add64 used str_size)
merge_from index str_size used (iter ∷ rest) =
    let last = max (add64 index str_size) (add64 iter.first iter.second) in
    let start = min index iter.first in
    let skipped = merge_from index str_size used rest in
    let merged = merge_from start (sub64 last start) (sub64 used iter.second) rest in
    if ltb (add64 index str_size) iter.first
    then (interval index str_size ∷ iter ∷ rest, add64 used str_size)
    else (if ltb (add64 iter.first iter.second) index
        then (iter ∷ skipped.0, skipped.1)
        else merged)

-- `index_map_.lower_bound(index)`
unfoldable pub lower_bound : ℕ → List Interval → List Interval × List Interval
lower_bound index [] = ([], [])
lower_bound index (iter ∷ rest) =
    let later = lower_bound index rest in
    if ltb iter.first index then (iter ∷ later.0, later.1) else ([], iter ∷ rest)

-- `iter--`, which the code does not do at `begin()`.
unfoldable pub step_back : List Interval → List Interval → List Interval × List Interval
step_back [] rest = ([], rest)
step_back (x ∷ []) rest = ([], x ∷ rest)
step_back (x ∷ y ∷ before) rest = let back = step_back (y ∷ before) rest in (x ∷ back.0, back.1)

-- The entry at which the loop begins, by the test after `lower_bound`.
unfoldable pub start_entry : ℕ → List Interval → List Interval → List Interval × List Interval
unfolding step_back
start_entry index before [] = step_back before []
start_entry index before (iter ∷ rest) =
    if ltb index iter.first then step_back before (iter ∷ rest) else (before, iter ∷ rest)

-- `MergeInterval`: the new map and the new `used_size_`.
unfoldable pub merge_interval : ℕ → ℕ → ℕ → List Interval → List Interval × ℕ
unfolding merge_from lower_bound start_entry
merge_interval index str_size used [] = (interval index str_size ∷ [], add64 used str_size)
merge_interval index str_size used (x ∷ xs) =
    let found = lower_bound index (x ∷ xs) in
    let at = start_entry index found.0 found.1 in
    let after = merge_from index str_size used at.1 in (at.0 ++ after.0, after.1)

-- Whether some entry of the map holds the index `j`.
abbrev pub in_interval : ℕ → ℕ → ℕ → Bool
in_interval index str_size j = leb index j && ltb j (index + str_size)

abbrev pub covers : List Interval → ℕ → Bool
covers [] j = false
covers (x ∷ xs) j = in_interval x.first x.second j || covers xs j

-- The sum of the sizes.
abbrev pub total : List Interval → ℕ
total [] = 0
total (x ∷ xs) = x.second + total xs
