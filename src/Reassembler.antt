-- ===== src/Reassembler.antt =====
-- `StreamReassembler` of libsponge/stream_reassembler.hh and stream_reassembler.cc: substrings in any
-- order, overlapping or repeated, become a byte stream.
pub mod Intervals
pub mod Buffer
pub mod Assembly
pub mod Pushing
pub mod Window
pub mod Delivery
pub mod Beyond
use cs144_labs.Prelude.{
  ℕ, Bool, Option, none, some, List, [], ◌∷◌, if◌then◌else◌, ltb, ◌==◌, length, take, drop, add64,
  sub64,
}
use cs144_labs.ByteStream.{ByteStream, write, end_input}
use cs144_labs.ByteStream
use Buffer.{UnAssembleBuffer}

pub record StreamReassembler : Type 0 where
  pub buffer : UnAssembleBuffer
  pub output : ByteStream
  pub capacity : ℕ
  pub eof_index : Option ℕ

unfoldable pub new : ℕ → StreamReassembler
unfolding Buffer.new ByteStream.new
new capacity = record {
  buffer = Buffer.new capacity;
  output = ByteStream.new capacity;
  capacity = capacity;
  eof_index = none;
}

-- A `string_view` of the substring, and the index of its first byte.
pub record View : Type 0 where
  pub sv : List ℕ
  pub index : ℕ

-- The bytes that are not yet written; after it `index >= bytes_written`, as the code asserts.
unfoldable pub skip_written : ℕ → List ℕ → ℕ → View
skip_written bytes_written bytes index =
    if ltb index bytes_written
    then record { sv = drop (sub64 bytes_written index) bytes; index = bytes_written }
    else record { sv = bytes; index = index }

-- The bytes before the end of the capacity.
unfoldable pub cut_to_capacity : ℕ → ℕ → View → View
cut_to_capacity capacity bytes_written v =
    let max_len = sub64 capacity (sub64 v.index bytes_written) in
    if ltb max_len (length v.sv) then record v { sv = take max_len v.sv } else v

-- `output_.write(popped)`, if there is anything to write.
unfoldable pub write_popped : ByteStream → List ℕ → ByteStream
write_popped output [] = output
write_popped output (x ∷ xs) = (write output (x ∷ xs)).0

-- `if (!sv.empty())` and its body.
unfoldable pub feed : StreamReassembler → List ℕ → ℕ → Option StreamReassembler
unfolding Buffer.push_substring write_popped
feed r [] index = some r
feed r (x ∷ xs) index =
    elim (Buffer.push_substring r.buffer (x ∷ xs) index r.output.bytes_written) [
      | none ↦ none
      | some out ↦ some (record r { buffer = out.0; output = write_popped r.output out.1 })
    ]

-- The input of the output stream ends where all bytes before `eof_index_` are written.
unfoldable pub end_at_eof : StreamReassembler → StreamReassembler
end_at_eof r = elim r.eof_index [
  | none ↦ r
  | some e ↦ if r.output.bytes_written == e then record r { output = end_input r.output } else r
]

-- What `push_substring` does with the part of the substring that it keeps.
unfoldable pub push_view : StreamReassembler → View → Bool → Option StreamReassembler
unfolding feed end_at_eof
push_view r v eof =
    let marked = record r {
      eof_index = if eof then some (add64 v.index (length v.sv)) else r.eof_index;
    } in
    elim (feed marked v.sv v.index) [ none ↦ none | some fed ↦ some (end_at_eof fed) ]

-- `none` is a failed assertion in the buffer.
unfoldable pub push_substring : StreamReassembler → List ℕ → ℕ → Bool → Option StreamReassembler
unfolding skip_written cut_to_capacity push_view
push_substring r bytes index eof =
    let written = r.output.bytes_written in
    let v = cut_to_capacity r.capacity written (skip_written written bytes index) in
    if ltb (add64 index (length bytes)) written then some r else push_view r v eof

abbrev pub unassembled_bytes : StreamReassembler → ℕ
unassembled_bytes r = r.buffer.used_size

abbrev pub empty : StreamReassembler → Bool
empty r = Buffer.empty r.buffer
