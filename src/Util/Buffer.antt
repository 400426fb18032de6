-- ===== src/Util/Buffer.antt =====
-- `Buffer`, `BufferList` and `BufferViewList` of libsponge/util/buffer.{hh,cc}. A string is the list of
-- its bytes; `none` is an exception. The strings that buffers share are never written, so a copy of
-- a buffer is the buffer.
pub mod Removal
use cs144_labs.Prelude.{
  ℕ, ◌+◌, Bool, true, false, Option, none, some, List, [], ◌∷◌, ◌++◌, ltb, leb, ◌==◌, if◌then◌else◌,
  length, get_or, drop, add64, sub64,
}

pub record Buffer : Type 0 where
  pub storage : Option (List ℕ)
  pub starting_offset : ℕ

-- `Buffer::Buffer(std::string &&)`
abbrev pub from_string : List ℕ → Buffer
from_string s = record { storage = some s; starting_offset = 0 }

abbrev pub empty_buffer : Buffer
empty_buffer = record { storage = none; starting_offset = 0 }

unfoldable pub str : Buffer → List ℕ
str b = elim b.storage [ none ↦ [] | some s ↦ drop b.starting_offset s ]

unfoldable pub at : Buffer → ℕ → Option ℕ
at b n = if ltb n (length (str b)) then some (get_or (str b) n 0) else none

-- The storage is given up when nothing of it is left.
unfoldable pub release : Buffer → Buffer
release b = elim b.storage [
  | none ↦ b
  | some s ↦ if b.starting_offset == length s then record b { storage = none } else b
]

unfoldable pub remove_prefix : Buffer → ℕ → Option Buffer
remove_prefix b n =
    if ltb (length (str b)) n
    then none
    else some (release (record b { starting_offset = add64 b.starting_offset n }))

-- `BufferList`: its buffers, with `push_back` at the end.
abbrev pub append : List Buffer → List Buffer → List Buffer
append buffers [] = buffers
append buffers (b ∷ bs) = append (buffers ++ (b ∷ [])) bs

-- `BufferList::operator Buffer`
abbrev pub to_buffer : List Buffer → Option Buffer
to_buffer [] = some empty_buffer
to_buffer (b ∷ []) = some b
to_buffer (b ∷ b' ∷ bs) = none

-- The loop over the buffers, with the string that it has built.
abbrev pub concatenate_from : List ℕ → List Buffer → List ℕ
concatenate_from ret [] = ret
concatenate_from ret (b ∷ bs) = concatenate_from (ret ++ str b) bs

abbrev pub concatenate : List Buffer → List ℕ
concatenate bs = concatenate_from [] bs

abbrev pub size_from : ℕ → List Buffer → ℕ
size_from ret [] = ret
size_from ret (b ∷ bs) = size_from (add64 ret (length (str b))) bs

abbrev pub size : List Buffer → ℕ
size bs = size_from 0 bs

abbrev put_front : List Buffer → Option Buffer → Option (List Buffer)
put_front bs none = none
put_front bs (some b) = some (b ∷ bs)

-- `BufferList::remove_prefix`: the loop removes the first buffer, or ends in it.
unfoldable pub remove_prefix_list : List Buffer → ℕ → Option (List Buffer)
remove_prefix_list [] n = if n == 0 then some [] else none
remove_prefix_list (b ∷ bs) n =
    let rest = remove_prefix_list bs (sub64 n (length (str b))) in
    if n == 0
    then some (b ∷ bs)
    else (if ltb n (length (str b)) then put_front bs (remove_prefix b n) else rest)

-- `BufferViewList`: the views are strings.
abbrev pub view_list : List Buffer → List (List ℕ)
view_list [] = []
view_list (b ∷ bs) = str b ∷ view_list bs

abbrev pub view_size_from : ℕ → List (List ℕ) → ℕ
view_size_from ret [] = ret
view_size_from ret (v ∷ vs) = view_size_from (add64 ret (length v)) vs

abbrev pub view_size : List (List ℕ) → ℕ
view_size vs = view_size_from 0 vs

-- `BufferViewList::remove_prefix`
unfoldable pub remove_prefix_view : List (List ℕ) → ℕ → Option (List (List ℕ))
remove_prefix_view [] n = if n == 0 then some [] else none
remove_prefix_view (v ∷ vs) n =
    let rest = remove_prefix_view vs (sub64 n (length v)) in
    if n == 0 then some (v ∷ vs) else (if ltb n (length v) then some (drop n v ∷ vs) else rest)
