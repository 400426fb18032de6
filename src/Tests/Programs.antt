-- ===== src/Tests/Programs.antt =====
-- Runs of the programs of apps/.
use cs144_labs.Prelude.{
  ℕ, ◌+◌, ◌≤◌, ◌≡◌, ◌⊎◌, refl, Option, some, List, [], ◌∷◌, ◌++◌, arith, length, replicate,
}
use cs144_labs.Wire.Adapter.{Address}
use cs144_labs.Socket.Adapters.{FdAdapterConfig}
use cs144_labs.Apps.Tcpdump.{byte, Outcome, process_ipv6, Datalink, Outer, outer, inspect}
use cs144_labs.Apps.Tcpdump.Extensions.{Leads, udp_at, process_ipv6_lem}
use cs144_labs.Apps.Tcpdump.Reads.{inspect_lem}
use cs144_labs.Apps.Options.{Program, Kind, Settings, defaults, Result, positional, get_config}
use cs144_labs.Apps.Options.Spelling.{spell_all}
use cs144_labs.Apps.Options.Parsing.{assign_all}
use cs144_labs.Apps.Options.Configuring.{get_config_lem, get_config-spell_all}

-- A packet of IPv6 with an extension header of eight bytes before the UDP header.
abbrev extended : List ℕ
extended = 96 ∷ 0 ∷ 0 ∷ 0 ∷ 0 ∷ 16 ∷ 0 ∷ replicate 33 1 ++ 17 ∷ 0 ∷ replicate 14 2

process_ipv6_lem_example :
    (nxt : ℕ) × (byte extended 6 ≡ some nxt)
    × (((end : ℕ) × (process_ipv6 extended ≡ udp_at extended end)
          × (end + 2 ≤ length extended)
          × Leads extended end nxt 40)
        ⊎ ((process_ipv6 extended ≡ Outcome.refused) × ((end : ℕ) → ¬ Leads extended end nxt 40)))
process_ipv6_lem_example = process_ipv6_lem extended (omega arith)

-- The same behind a header of Ethernet.
abbrev framed : List ℕ
framed = replicate 12 0 ++ 134 ∷ 221 ∷ extended

inspect_lem_example :
    (inspect framed (outer Datalink.ethernet framed) ≡ Outcome.refused)
    ⊎ ((h : ℕ) × (n : ℕ) × (src : List ℕ) × (dst : List ℕ) × (outer Datalink.ethernet framed
          ≡ Outer.ip_at h)
        × (h ≤ 20)
        × (inspect framed (outer Datalink.ethernet framed) ≡ Outcome.found n src dst)
        × (h + n ≤ length framed + 8))
inspect_lem_example = inspect_lem Datalink.ethernet framed (omega arith)

-- A reading of numbers that takes the length of the text, and addresses from the first characters.
abbrev number_of : List ℕ → ℕ
number_of text = length text

abbrev address_of : List ℕ → List ℕ → Option Address
address_of host port = some (record { ipv4_numeric = length host; port = length port })

abbrev no_filter : FdAdapterConfig
no_filter = record {
  source = record { ipv4_numeric = 0; port = 0 };
  destination = record { ipv4_numeric = 0; port = 0 };
  loss_rate_dn = 0;
  loss_rate_up = 0;
}

-- "-l -w 99 host 80", with one letter for the host.
abbrev some_options : List (Kind × List ℕ)
some_options = (Kind.listen, []) ∷ (Kind.window, 57 ∷ 57 ∷ []) ∷ []

get_config-spell_all_example :
    get_config number_of number_of address_of Program.tcp_udp
      (defaults Program.tcp_udp [])
      no_filter
      (spell_all some_options ++ (104 ∷ []) ∷ (56 ∷ 48 ∷ []) ∷ [])
    ≡ positional address_of Program.tcp_udp
        (assign_all number_of number_of (defaults Program.tcp_udp []) some_options)
        no_filter
        (104 ∷ [])
        (56 ∷ 48 ∷ [])
get_config-spell_all_example =
    get_config-spell_all number_of number_of address_of Program.tcp_udp
      (defaults Program.tcp_udp []) no_filter some_options (104 ∷ []) (56 ∷ 48 ∷ [])
      (refl, (refl, tt))

get_config_lem_example :
    ((code : ℕ) × (get_config number_of number_of address_of Program.tcp_ipv4
          (defaults Program.tcp_ipv4 [])
          no_filter
          (spell_all some_options ++ (104 ∷ []) ∷ (56 ∷ 48 ∷ []) ∷ [])
        ≡ Result.stops code))
    ⊎ ((s' : Settings) × (before : List (List ℕ)) × (host : List ℕ) × (port : List ℕ) × (spell_all
              some_options
            ++ (104 ∷ []) ∷ (56 ∷ 48 ∷ []) ∷ []
          ≡ before ++ host ∷ port ∷ [])
        × (get_config number_of number_of address_of Program.tcp_ipv4
              (defaults Program.tcp_ipv4 [])
              no_filter
              (spell_all some_options ++ (104 ∷ []) ∷ (56 ∷ 48 ∷ []) ∷ [])
            ≡ positional address_of Program.tcp_ipv4 s' no_filter host port))
get_config_lem_example =
    get_config_lem number_of number_of address_of Program.tcp_ipv4 (defaults Program.tcp_ipv4 [])
      no_filter (spell_all some_options ++ (104 ∷ []) ∷ (56 ∷ 48 ∷ []) ∷ []) (omega arith)
