-- ===== src/Apps/Options/Spelling.antt =====
-- The options of the programs as they are written, each against the test that it passes.
use cs144_labs.Prelude.{
  ℕ, ◌≤◌, ◌≡◌, refl, Bool, true, false, some, List, [], ◌∷◌, ◌++◌, arith, length,
}
use cs144_labs.Apps.Options.{
  Program, tcp_udp, tcp_ipv4, tcp_ip_ethernet, Kind, listen, source_address, source_port, next_hop,
  window, timeout, device, uplink, downlink, name, options, first_match,
}

-- The options that a program has.
abbrev pub has : Program → Kind → Bool
has tcp_udp listen = true
has tcp_udp window = true
has tcp_udp timeout = true
has tcp_udp uplink = true
has tcp_udp downlink = true
has tcp_udp _ = false
has tcp_ipv4 next_hop = false
has tcp_ipv4 _ = true
has tcp_ip_ethernet listen = false
has tcp_ip_ethernet uplink = false
has tcp_ip_ethernet downlink = false
has tcp_ip_ethernet _ = true

-- The first test that an option passes is its own.
pub first_match-name :
    (program : Program) (k : Kind)
    → has program k ≡ true
    → first_match (options program) (name k) ≡ some k
unfolding first_match
first_match-name tcp_udp listen h = refl
first_match-name tcp_udp window h = refl
first_match-name tcp_udp timeout h = refl
first_match-name tcp_udp uplink h = refl
first_match-name tcp_udp downlink h = refl
first_match-name tcp_udp source_address h = absurd (cc h)
first_match-name tcp_udp source_port h = absurd (cc h)
first_match-name tcp_udp next_hop h = absurd (cc h)
first_match-name tcp_udp device h = absurd (cc h)
first_match-name tcp_ipv4 listen h = refl
first_match-name tcp_ipv4 source_address h = refl
first_match-name tcp_ipv4 source_port h = refl
first_match-name tcp_ipv4 window h = refl
first_match-name tcp_ipv4 timeout h = refl
first_match-name tcp_ipv4 device h = refl
first_match-name tcp_ipv4 uplink h = refl
first_match-name tcp_ipv4 downlink h = refl
first_match-name tcp_ipv4 next_hop h = absurd (cc h)
first_match-name tcp_ip_ethernet source_address h = refl
first_match-name tcp_ip_ethernet source_port h = refl
first_match-name tcp_ip_ethernet next_hop h = refl
first_match-name tcp_ip_ethernet window h = refl
first_match-name tcp_ip_ethernet timeout h = refl
first_match-name tcp_ip_ethernet device h = refl
first_match-name tcp_ip_ethernet listen h = absurd (cc h)
first_match-name tcp_ip_ethernet uplink h = absurd (cc h)
first_match-name tcp_ip_ethernet downlink h = absurd (cc h)

-- An option as it is written: its name, and its value unless it is "-l".
abbrev pub spell : Kind × List ℕ → List (List ℕ)
spell (listen, v) = name listen ∷ []
spell (k, v) = name k ∷ v ∷ []

abbrev pub spell_all : List (Kind × List ℕ) → List (List ℕ)
spell_all [] = []
spell_all (o ∷ os) = spell o ++ spell_all os

-- An option takes one argument at least.
pub spell_long : (o : Kind × List ℕ) → 1 ≤ length (spell o)
spell_long (listen, v) = omega arith
spell_long (source_address, v) = omega arith
spell_long (source_port, v) = omega arith
spell_long (next_hop, v) = omega arith
spell_long (window, v) = omega arith
spell_long (timeout, v) = omega arith
spell_long (device, v) = omega arith
spell_long (uplink, v) = omega arith
spell_long (downlink, v) = omega arith

-- The program has all the options.
abbrev pub HasAll : Program → List (Kind × List ℕ) → Type 0
HasAll program [] = Unit {0}
HasAll program (o ∷ os) = (has program o.0 ≡ true) × HasAll program os
