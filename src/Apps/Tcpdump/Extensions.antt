-- ===== src/Apps/Tcpdump/Extensions.antt =====
-- `process_ipv4_ipv6` against the chain of extension headers, and its reads.
use cs144_labs.Prelude.{
  ℕ, zero, suc, ◌+◌, ◌*◌, ◌≤◌, ◌<◌, ◌≡◌, ◌⊎◌, inl, inr, refl, sym, ◌∙◌, true, false, some, List, [],
  ◌∷◌, arith, ltb, ◌==◌, if◌then◌else◌, Bool-cases, le→ltb, ltb→lt, ltb→le, length, slice, some_inj,
}
use mathlib.Core.Path.{subst₂}
use cs144_labs.Apps.Tcpdump.{
  byte, Outcome, refused, found, is_extension, skip_extensions, process_ipv6,
}

-- A byte that was captured can be read.
pub byte_inside : (bytes : List ℕ) (i : ℕ) → i < length bytes → (b : ℕ) × (byte bytes i ≡ some b)
byte_inside [] i h = absurd (omega arith)
byte_inside (b ∷ bs) zero h = (b, refl)
byte_inside (b ∷ bs) (suc i) h = byte_inside bs i (omega arith)

-- From a header of kind `nxt` at `offset`, a chain of extension headers leads to a UDP header at `end`.
-- Each header begins with the kind of the next one and its own size in units of eight bytes, less one, and
-- the first two bytes of each are captured.
pub data Leads (bytes : List ℕ) (end : ℕ) : ℕ → ℕ → Type 0 where
  arrives : {nxt offset : ℕ} → nxt ≡ 17 → end ≡ offset → Leads bytes end nxt offset
  skips :
      {nxt offset : ℕ} (nxt' size : ℕ)
      → (nxt == 17) ≡ false
      → is_extension nxt ≡ true
      → byte bytes offset ≡ some nxt'
      → byte bytes (offset + 1) ≡ some size
      → offset + 8 * (1 + size) + 2 ≤ length bytes
      → Leads bytes end nxt' (offset + 8 * (1 + size))
      → Leads bytes end nxt offset

-- The result for the UDP header at `end`.
abbrev pub udp_at : List ℕ → ℕ → Outcome
udp_at bytes end = found (end + 8) (slice bytes 8 16) (slice bytes 24 16)

-- The loop decides whether there is such a chain.
Decides : List ℕ → ℕ → ℕ → Outcome → Type 0
Decides bytes nxt offset outcome =
    ((end : ℕ) × (outcome ≡ udp_at bytes end)
      × (end + 2 ≤ length bytes)
      × Leads bytes end nxt offset)
    ⊎ ((outcome ≡ refused) × ((end : ℕ) → ¬ Leads bytes end nxt offset))

skips_inv :
    {bytes : List ℕ} {end nxt offset : ℕ}
    → Leads bytes end nxt offset
    → (nxt == 17) ≡ false
    → (nxt' : ℕ) × (size : ℕ) × (is_extension nxt ≡ true)
      × (byte bytes offset ≡ some nxt')
      × (byte bytes (offset + 1) ≡ some size)
      × (offset + 8 * (1 + size) + 2 ≤ length bytes)
      × Leads bytes end nxt' (offset + 8 * (1 + size))
skips_inv (arrives e f) h = absurd (ground arith)
skips_inv (skips nxt' size a b c d e f) h = (nxt', size, b, c, d, e, f)

no_extension :
    {bytes : List ℕ} {end nxt offset : ℕ}
    → (nxt == 17) ≡ false
    → is_extension nxt ≡ false
    → ¬ Leads bytes end nxt offset
no_extension h g c = let (_, _, e, _, _, _, _) = skips_inv c h in cc

-- One round that skips an extension header, given what the rest decides.
skip_round :
    (bytes : List ℕ) (nxt offset nxt' size : ℕ) (rest : Outcome)
    → (nxt == 17) ≡ false
    → is_extension nxt ≡ true
    → byte bytes offset ≡ some nxt'
    → byte bytes (offset + 1) ≡ some size
    → (offset + 8 * (1 + size) + 2 ≤ length bytes
        → Decides bytes nxt' (offset + 8 * (1 + size)) rest)
    → Decides bytes nxt offset
        (if ltb (length bytes) (offset + 8 * (1 + size) + 2) then refused else rest)
unfolding Decides
skip_round bytes nxt offset nxt' size rest h g b c decided =
    elim (Bool-cases (ltb (length bytes) (offset + 8 * (1 + size) + 2))) [
      | inl e ↦ inr (
        rw e refl,
        λ end chain.
            let (n, s, _, b', c', inside, _) = skips_inv chain h in
            let same : s ≡ size = some_inj (sym c' ∙ c) in absurd (omega (arith, ltb→lt _ _ e)),
      )
      | inr e ↦ elim (decided (ltb→le _ _ e)) [
        | inl d ↦ inl (d.0, rw e d.1, d.2, skips nxt' size h g b c (ltb→le _ _ e) d.3)
        | inr d ↦ inr (
          rw e d.0,
          λ end chain.
              let (n, s, _, b', c', inside, further) = skips_inv chain h in
              let same : s ≡ size = some_inj (sym c' ∙ c) in
              let same' : n ≡ nxt' = some_inj (sym b' ∙ b) in
              d.1 end (subst₂ (λ x y. Leads bytes end x (offset + 8 * (1 + y))) same' same further),
        )
      ]
    ]

skip_extensions_lem :
    (fuel : ℕ) (bytes : List ℕ) (nxt offset : ℕ)
    → 40 ≤ length bytes
    → offset + 2 ≤ length bytes
    → length bytes < offset + fuel
    → Decides bytes nxt offset (skip_extensions fuel bytes nxt offset)
unfolding skip_extensions Decides
skip_extensions_lem zero bytes nxt offset h k l = absurd (omega arith)
skip_extensions_lem (suc fuel) bytes nxt offset h k l = elim (Bool-cases (nxt == 17)) [
  | inl e ↦ inl (offset, rw (e, le→ltb (length bytes) 40 h) refl, k, arrives (ground arith) refl)
  | inr e ↦ elim (Bool-cases (is_extension nxt)) [
    | inr g ↦ inr (rw (e, g) refl, λ end c. no_extension e g c)
    | inl g ↦
        let (nxt', b) = byte_inside bytes offset (omega arith) in
        let (size, c) = byte_inside bytes (offset + 1) (omega arith) in
        rw (e, g, b, c)
          (skip_round bytes nxt offset nxt' size
            (skip_extensions fuel bytes nxt' (offset + 8 * (1 + size))) e g b c
            (λ inside.
              skip_extensions_lem fuel bytes nxt' (offset + 8 * (1 + size)) h inside (omega arith)))
  ]
]

-- A packet of IPv6 of 42 bytes or more: the program finds the UDP header exactly if a chain of extension
-- headers leads to one from the fixed header, and its result is the offset after that header and the two
-- addresses; if there is no such chain it refuses the packet. It never reads past the captured bytes.
pub process_ipv6_lem :
    (bytes : List ℕ)
    → 42 ≤ length bytes
    → (nxt : ℕ) × (byte bytes 6 ≡ some nxt)
      × (((end : ℕ) × (process_ipv6 bytes ≡ udp_at bytes end)
            × (end + 2 ≤ length bytes)
            × Leads bytes end nxt 40)
          ⊎ ((process_ipv6 bytes ≡ refused) × ((end : ℕ) → ¬ Leads bytes end nxt 40)))
unfolding process_ipv6 Decides
process_ipv6_lem bytes h =
    let (nxt, b) = byte_inside bytes 6 (omega arith) in
    let decided =
      skip_extensions_lem (length bytes) bytes nxt 40 (omega arith) (omega arith) (omega arith) in
    (nxt, b, rw (le→ltb (length bytes) 42 h, b) decided)
