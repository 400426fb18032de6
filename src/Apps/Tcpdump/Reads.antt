-- ===== src/Apps/Tcpdump/Reads.antt =====
-- The program of apps/udp_tcpdump.cc never reads past a captured packet of forty bytes or more.
use cs144_labs.Prelude.{
  ℕ, ◌+◌, ◌*◌, ◌/◌, ◌%◌, ◌^◌, ◌≤◌, ◌≡◌, ◌⊎◌, inl, inr, refl, ap, ◌∙◌, ◌||◌, List, [], ◌∷◌, arith,
  ltb, ◌==◌, Bool-cases, lt→ltb, le→ltb, ltb→le, length, slice, drop, length-drop,
}
use cs144_labs.Apps.Tcpdump.{
  Outcome, refused, found, process_ipv4, process_ipv6, process_ipv4_ipv6, Datalink, raw, null,
  ethernet, linux_sll, linux_sll2, unknown, Outer, ip_at, outer_of, outer_null, outer, inspect,
}
use native.Mathlib.Decide.{dec_lt}
use cs144_labs.Apps.Tcpdump.Extensions.{byte_inside, process_ipv6_lem}

-- The packet is refused, or its payload is found, at most eight bytes behind the captured ones.
abbrev IsSafe : ℕ → Outcome → Type 0
IsSafe size outcome =
    (outcome ≡ refused)
    ⊎ ((n : ℕ) × (src : List ℕ) × (dst : List ℕ) × (outcome ≡ found n src dst) × (n ≤ size + 8))

process_ipv4-Safe :
    (bytes : List ℕ) (first : ℕ)
    → 20 ≤ length bytes
    → IsSafe (length bytes) (process_ipv4 bytes first)
unfolding process_ipv4
process_ipv4-Safe bytes first h =
    let (proto, b) = byte_inside bytes 9 (omega arith) in
    elim (Bool-cases (ltb (length bytes) (first % 2 ^ 4 * 4))) [
      | inl e ↦ inl (rw e refl)
      | inr e ↦ elim (Bool-cases (proto == 17)) [
        | inl g ↦ inr (
          first % 2 ^ 4 * 4 + 8,
          slice bytes 12 4,
          slice bytes 16 4,
          rw (e, b, g, le→ltb (length bytes) 20 h) refl,
          omega (arith, ltb→le _ _ e),
        )
        | inr g ↦ inl (rw (e, b, g) refl)
      ]
    ]

process_ipv6-Safe : (bytes : List ℕ) → IsSafe (length bytes) (process_ipv6 bytes)
unfolding process_ipv6
process_ipv6-Safe bytes = elim (dec_lt (length bytes) 42) [
  | yes p ↦ inl (rw (process_ipv6, lt→ltb (length bytes) 42 p) refl)
  | no p ↦
      let (nxt, _, found_or_not) = process_ipv6_lem bytes (omega arith) in
      elim found_or_not [
        | inl d ↦ inr (d.0 + 8, slice bytes 8 16, slice bytes 24 16, d.1, omega (arith, d.2))
        | inr d ↦ inl d.0
      ]
]

process-Safe :
    (bytes : List ℕ) → 20 ≤ length bytes → IsSafe (length bytes) (process_ipv4_ipv6 bytes)
unfolding process_ipv4_ipv6
process-Safe [] h = inl refl
process-Safe (first ∷ rest) h = elim (Bool-cases (first / 2 ^ 4 == 4)) [
  | inl e ↦ rw e (process_ipv4-Safe (first ∷ rest) first h)
  | inr e ↦ elim (Bool-cases (first / 2 ^ 4 == 6)) [
    | inl g ↦ rw (e, g) (process_ipv6-Safe (first ∷ rest))
    | inr g ↦ rw (e, g) (inl refl)
  ]
]

-- The outer header is refused, or the packet follows it within twenty bytes.
abbrev IsRead : Outer → Type 0
IsRead o = ((packet : List ℕ) → inspect packet o ≡ refused) ⊎ ((h : ℕ) × (o ≡ ip_at h) × (h ≤ 20))

outer_of-Read :
    (packet : List ℕ) (at size : ℕ) → at + 2 ≤ size → size ≤ 20 → IsRead (outer_of packet at size)
unfolding outer_of inspect
outer_of-Read packet at size h k = elim (Bool-cases (ltb (length packet) size)) [
  | inl e ↦ rw e (inl (λ p. refl))
  | inr e ↦
      let long = ltb→le _ _ e in
      let (high, b) = byte_inside packet at (omega arith) in
      let (low, c) = byte_inside packet (at + 1) (omega arith) in
      let pt = (high * 2 ^ 8) % 2 ^ 16 + low in
      elim (Bool-cases ((pt == 2048) || (pt == 34525))) [
        | inl g ↦ rw (e, b, c, g) (inr (size, refl, k))
        | inr g ↦ rw (e, b, c, g) (inl (λ p. refl))
      ]
]

outer_null-Read : (packet : List ℕ) → IsRead (outer_null packet)
unfolding outer_null inspect
outer_null-Read packet = elim (Bool-cases (ltb (length packet) 4)) [
  | inl e ↦ rw e (inl (λ p. refl))
  | inr e ↦
      let long = ltb→le _ _ e in
      let (pt, b) = byte_inside packet 3 (omega arith) in
      elim (Bool-cases ((pt == 2) || ((pt == 24) || ((pt == 28) || (pt == 30))))) [
        | inl g ↦ rw (e, b, g) (inr (4, refl, omega arith))
        | inr g ↦ rw (e, b, g) (inl (λ p. refl))
      ]
]

outer-Read : (link : Datalink) (packet : List ℕ) → IsRead (outer link packet)
unfolding outer inspect
outer-Read raw packet = inr (0, refl, omega arith)
outer-Read null packet = outer_null-Read packet
outer-Read ethernet packet = outer_of-Read packet 12 14 (omega arith) (omega arith)
outer-Read linux_sll packet = outer_of-Read packet 14 16 (omega arith) (omega arith)
outer-Read linux_sll2 packet = outer_of-Read packet 0 20 (omega arith) (omega arith)
outer-Read unknown packet = inl (λ p. refl)

-- A captured packet of forty bytes or more, on a link of any type: no read of the program leaves the
-- captured bytes, and its loops end. The packet is refused, or its payload is found behind an outer
-- header of at most twenty bytes; the payload then begins at most eight bytes, the size of a UDP header,
-- behind the captured ones.
pub inspect_lem :
    (link : Datalink) (packet : List ℕ)
    → 40 ≤ length packet
    → (inspect packet (outer link packet) ≡ refused)
      ⊎ ((h : ℕ) × (n : ℕ) × (src : List ℕ) × (dst : List ℕ) × (outer link packet ≡ ip_at h)
          × (h ≤ 20)
          × (inspect packet (outer link packet) ≡ found n src dst)
          × (h + n ≤ length packet + 8))
unfolding inspect
inspect_lem link packet k = elim (outer-Read link packet) [
  | inl r ↦ inl (r packet)
  | inr r ↦
      let (h, at, small) = r in
      let left = length-drop h packet in
      let opened : inspect packet (outer link packet) ≡ process_ipv4_ipv6 (drop h packet) =
        ap (inspect packet) at in
      elim (process-Safe (drop h packet) (omega arith)) [
        | inl s ↦ inl (opened ∙ s)
        | inr s ↦
            let (n, src, dst, run, near) = s in
            inr (h, n, src, dst, at, small, opened ∙ run, omega arith)
      ]
]
