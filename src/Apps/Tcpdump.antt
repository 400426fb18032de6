-- ===== src/Apps/Tcpdump.antt =====
-- How apps/udp_tcpdump.cc finds the UDP payload of a captured packet. A packet is the bytes that were
-- captured; a read past them is an outcome of its own. Messages on stdout and stderr are left out.
pub mod Extensions
pub mod Reads
use cs144_labs.Prelude.{
  ℕ, zero, suc, ◌+◌, ◌*◌, ◌/◌, ◌%◌, ◌^◌, Bool, not, ◌&&◌, ◌||◌, Option, none, some, List, [], ◌∷◌,
  if◌then◌else◌, ltb, ◌==◌, length, drop, slice, sub64,
}

-- `data[i]`
abbrev pub byte : List ℕ → ℕ → Option ℕ
byte [] i = none
byte (b ∷ bs) zero = some b
byte (b ∷ bs) (suc i) = byte bs i

-- The result of `process_ipv4_ipv6`: -1, the offset with the bytes of the two addresses, a read past the
-- captured bytes, or the end of the fuel.
pub data Outcome : Type 0 where
  refused outside running : Outcome
  found : ℕ → List ℕ → List ℕ → Outcome

-- The offset after the UDP header, and the addresses of `size` bytes each.
abbrev pub with_addresses : List ℕ → ℕ → ℕ → ℕ → ℕ → Outcome
with_addresses bytes src dst size offset =
    if ltb (length bytes) (dst + size)
    then outside
    else found (offset + 8) (slice bytes src size) (slice bytes dst size)

-- The test of the loop over the extension headers.
abbrev pub is_extension : ℕ → Bool
is_extension nxt = (nxt == 0) || ((nxt == 43) || (nxt == 60))

-- The loop over the extension headers of IPv6.
unfoldable pub skip_extensions : ℕ → List ℕ → ℕ → ℕ → Outcome
skip_extensions zero bytes nxt data_offset = running
skip_extensions (suc fuel) bytes nxt data_offset =
    let skipped : Outcome = elim (byte bytes data_offset) [
      | none ↦ outside
      | some nxt' ↦ elim (byte bytes (data_offset + 1)) [
        | none ↦ outside
        | some size ↦
            let rest = skip_extensions fuel bytes nxt' (data_offset + 8 * (1 + size)) in
            if ltb (length bytes) (data_offset + 8 * (1 + size) + 2) then refused else rest
      ]
    ] in
    if nxt == 17
    then with_addresses bytes 8 24 16 data_offset
    else (if not (is_extension nxt) then refused else skipped)

unfoldable pub process_ipv4 : List ℕ → ℕ → Outcome
process_ipv4 bytes first =
    let data_offset = first % 2 ^ 4 * 4 in
    let checked : Outcome = elim (byte bytes 9) [
      | none ↦ outside
      | some proto ↦ if proto == 17 then with_addresses bytes 12 16 4 data_offset else refused
    ] in
    if ltb (length bytes) data_offset then refused else checked

-- An offset grows by eight at least: so much fuel is enough.
unfoldable pub process_ipv6 : List ℕ → Outcome
process_ipv6 bytes =
    let skipped : Outcome = elim (byte bytes 6) [
      | none ↦ outside
      | some nxt ↦ skip_extensions (length bytes) bytes nxt 40
    ] in
    if ltb (length bytes) 42 then refused else skipped

unfoldable pub process_ipv4_ipv6 : List ℕ → Outcome
process_ipv4_ipv6 [] = refused
process_ipv4_ipv6 (first ∷ rest) =
    if first / 2 ^ 4 == 4
    then process_ipv4 (first ∷ rest) first
    else (if first / 2 ^ 4 == 6 then process_ipv6 (first ∷ rest) else refused)

-- The datalink types that the program tells apart.
pub data Datalink : Type 0 where
  raw null ethernet linux_sll linux_sll2 unknown : Datalink

-- What the outer header says: malformed, not IP, of no known type, a read past the captured bytes, or
-- the offset of the IP packet.
pub data Outer : Type 0 where
  malformed non_ip mysterious unreadable : Outer
  ip_at : ℕ → Outer

-- A protocol number of two bytes at `at`, in a header of `size` bytes.
unfoldable pub outer_of : List ℕ → ℕ → ℕ → Outer
outer_of packet at size =
    let typed : Outer = elim (byte packet at) [
      | none ↦ unreadable
      | some high ↦ elim (byte packet (at + 1)) [
        | none ↦ unreadable
        | some low ↦
            let pt = (high * 2 ^ 8) % 2 ^ 16 + low in
            if (pt == 2048) || (pt == 34525) then ip_at size else non_ip
      ]
    ] in
    if ltb (length packet) size then malformed else typed

unfoldable pub outer_null : List ℕ → Outer
outer_null packet =
    let typed : Outer = elim (byte packet 3) [
      | none ↦ unreadable
      | some pt ↦
          if (pt == 2) || ((pt == 24) || ((pt == 28) || (pt == 30))) then ip_at 4 else non_ip
    ] in
    if ltb (length packet) 4 then malformed else typed

unfoldable pub outer : Datalink → List ℕ → Outer
outer raw packet = ip_at 0
outer null packet = outer_null packet
outer ethernet packet = outer_of packet 12 14
outer linux_sll packet = outer_of packet 14 16
outer linux_sll2 packet = outer_of packet 0 20
outer unknown packet = mysterious

-- What the program takes of a packet whose outer header is read. A link of no known type ends it.
unfoldable pub inspect : List ℕ → Outer → Outcome
inspect packet (ip_at hdr_off) = process_ipv4_ipv6 (drop hdr_off packet)
inspect packet malformed = refused
inspect packet non_ip = refused
inspect packet mysterious = refused
inspect packet unreadable = outside
