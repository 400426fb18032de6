-- ===== src/Apps/Options.antt =====
-- `get_config` of apps/tcp_udp.cc, apps/tcp_ipv4.cc and apps/tcp_ip_ethernet.cc: the options of the
-- command line. A string is its characters, without the zero at the end. `strtol`, the loss rate that
-- `strtof` and the float arithmetic give, and `Address` are parameters. Usage messages are left out.
pub mod Spelling
pub mod Parsing
pub mod Configuring
use cs144_labs.Prelude.{
  ℕ, zero, suc, ◌-◌, ◌%◌, ◌^◌, Bool, true, false, ◌&&◌, Option, none, some, List, [], ◌∷◌, ◌++◌,
  if◌then◌else◌, ltb, leb, ◌==◌, length, take, drop,
}
use cs144_labs.Config.{TcpConfig}
use cs144_labs.Wire.Adapter.{Address}
use cs144_labs.Socket.Adapters.{FdAdapterConfig}

-- The three programs.
pub data Program : Type 0 where
  tcp_udp tcp_ipv4 tcp_ip_ethernet : Program

-- What the options set: the local variables of the three functions.
pub data Kind : Type 0 where
  listen source_address source_port next_hop window timeout device uplink downlink : Kind

abbrev pub name : Kind → List ℕ
name listen = 45 ∷ 108 ∷ []
name source_address = 45 ∷ 97 ∷ []
name source_port = 45 ∷ 115 ∷ []
name next_hop = 45 ∷ 110 ∷ []
name window = 45 ∷ 119 ∷ []
name timeout = 45 ∷ 116 ∷ []
name device = 45 ∷ 100 ∷ []
name uplink = 45 ∷ 76 ∷ 117 ∷ []
name downlink = 45 ∷ 76 ∷ 100 ∷ []

-- The tests of each loop, in their order, before that for "-h".
abbrev pub udp_options : List Kind
udp_options = listen ∷ window ∷ timeout ∷ uplink ∷ downlink ∷ []

abbrev pub ipv4_options : List Kind
ipv4_options =
    listen ∷ source_address ∷ source_port ∷ window ∷ timeout ∷ device ∷ uplink ∷ downlink ∷ []

abbrev pub ethernet_options : List Kind
ethernet_options = source_address ∷ source_port ∷ next_hop ∷ window ∷ timeout ∷ device ∷ []

abbrev pub options : Program → List Kind
options tcp_udp = udp_options
options tcp_ipv4 = ipv4_options
options tcp_ip_ethernet = ethernet_options

abbrev same_text : List ℕ → List ℕ → Bool
same_text [] [] = true
same_text (a ∷ s) [] = false
same_text [] (b ∷ t) = false
same_text (a ∷ s) (b ∷ t) = (a == b) && same_text s t

-- `strncmp(a, b, 3) == 0`, with the zeros at the ends of the strings.
abbrev pub same_start : List ℕ → List ℕ → Bool
same_start a b = same_text (take 3 (a ++ 0 ∷ [])) (take 3 (b ++ 0 ∷ []))

unfoldable pub first_match : List Kind → List ℕ → Option Kind
first_match [] arg = none
first_match (k ∷ ks) arg = if same_start (name k) arg then some k else first_match ks arg

pub record Settings : Type 0 where
  pub fsm : TcpConfig
  pub is_listening : Bool
  pub address : List ℕ
  pub port : List ℕ
  pub gateway : List ℕ
  pub dev : Option (List ℕ)
  pub loss_rate_dn : ℕ
  pub loss_rate_up : ℕ

-- `LOCAL_ADDRESS_DFLT`, `GATEWAY_DFLT` and `TAP_DFLT`; what a program does not use is empty.
abbrev pub local_address : Program → List ℕ
local_address tcp_udp = []
local_address tcp_ipv4 = 49 ∷ 54 ∷ 57 ∷ 46 ∷ 50 ∷ 53 ∷ 52 ∷ 46 ∷ 49 ∷ 52 ∷ 52 ∷ 46 ∷ 57 ∷ []
local_address tcp_ip_ethernet = 49 ∷ 54 ∷ 57 ∷ 46 ∷ 50 ∷ 53 ∷ 52 ∷ 46 ∷ 49 ∷ 48 ∷ 46 ∷ 57 ∷ []

abbrev pub default_gateway : Program → List ℕ
default_gateway tcp_udp = []
default_gateway tcp_ipv4 = []
default_gateway tcp_ip_ethernet = 49 ∷ 54 ∷ 57 ∷ 46 ∷ 50 ∷ 53 ∷ 52 ∷ 46 ∷ 49 ∷ 48 ∷ 46 ∷ 49 ∷ []

abbrev pub default_device : Program → Option (List ℕ)
default_device tcp_udp = none
default_device tcp_ipv4 = none
default_device tcp_ip_ethernet = some (116 ∷ 97 ∷ 112 ∷ 49 ∷ 48 ∷ [])

-- The settings before the loop; `port` is the random source port.
abbrev pub defaults : Program → List ℕ → Settings
defaults program port = record {
  fsm = record {
    rt_timeout = 1000;
    recv_capacity = 64000;
    send_capacity = 64000;
    fixed_isn = none;
  };
  is_listening = false;
  address = local_address program;
  port = port;
  gateway = default_gateway program;
  dev = default_device program;
  loss_rate_dn = 0;
  loss_rate_up = 0;
}

-- What one round of the loop does: an `exit`, or some arguments are taken.
pub data Round : Type 0 where
  exits : ℕ → Round
  takes : ℕ → Settings → Round

-- The end of the loop: an `exit`, the settings with the arguments that are left, or the end of the fuel.
pub data Parsed : Type 0 where
  exited : ℕ → Parsed
  running : Parsed
  parsed : Settings → List (List ℕ) → Parsed

module _ (strtol loss_rate : List ℕ → ℕ) where
  unfoldable pub assign : Settings → Kind → List ℕ → Settings
  assign s listen v = record s { is_listening = true }
  assign s source_address v = record s { address = v }
  assign s source_port v = record s { port = v }
  assign s next_hop v = record s { gateway = v }
  assign s window v = record s { fsm = record s.fsm { recv_capacity = strtol v % 2 ^ 64 } }
  assign s timeout v = record s { fsm = record s.fsm { rt_timeout = strtol v % 2 ^ 16 } }
  assign s device v = record s { dev = some v }
  assign s uplink v = record s { loss_rate_up = loss_rate v }
  assign s downlink v = record s { loss_rate_dn = loss_rate v }

  -- An option with an argument, after `check_argc`; `args` are the arguments from `argv[curr]` on.
  unfoldable pub with_argument : Settings → Kind → List (List ℕ) → Round
  with_argument s k [] = exits 1
  with_argument s k (o ∷ []) = exits 1
  with_argument s k (o ∷ v ∷ rest) = if leb (length rest) 1 then exits 1 else takes 2 (assign s k v)

  unfoldable pub apply : Settings → Kind → List (List ℕ) → Round
  apply s listen args = takes 1 (assign s listen [])
  apply s k args = with_argument s k args

  -- `-h`, or an option that is not known.
  abbrev pub help_or_error : List ℕ → Round
  help_or_error arg = if same_start (45 ∷ 104 ∷ []) arg then exits 0 else exits 1

  unfoldable pub round : Program → Settings → List (List ℕ) → Round
  round program s [] = exits 1
  round program s (o ∷ rest) = elim (first_match (options program) o) [
    | none ↦ help_or_error o
    | some k ↦ apply s k (o ∷ rest)
  ]

  -- The loop, while more than two arguments are left. Each round takes one at least: as much fuel as
  -- there are arguments is enough.
  unfoldable pub parse_options : ℕ → Program → Settings → List (List ℕ) → Parsed
  parse_options zero program s args = running
  parse_options (suc fuel) program s args =
      let more : Parsed = elim (round program s args) [
        | exits code ↦ exited code
        | takes n s' ↦ parse_options fuel program s' (drop n args)
      ] in
      if ltb 2 (length args) then more else parsed s args

-- The result of `get_config`: an `exit`, an exception of `Address`, the end of the fuel, or the
-- configurations.
pub data Result : Type 0 where
  stops : ℕ → Result
  throws out_of_fuel : Result
  gives : TcpConfig → FdAdapterConfig → Bool → Option (List ℕ) → Option Address → Result

module _ (make_address : List ℕ → List ℕ → Option Address) where
  abbrev filter_of : Settings → FdAdapterConfig → FdAdapterConfig
  filter_of s filt = record filt { loss_rate_dn = s.loss_rate_dn; loss_rate_up = s.loss_rate_up }

  -- The two arguments that the loop leaves, which are the last two: "0" is the address of a server.
  abbrev pub udp_positional : Settings → FdAdapterConfig → List ℕ → List ℕ → Result
  udp_positional s filt host port =
      let server : Result = elim (make_address (48 ∷ []) port) [
        | none ↦ throws
        | some source ↦ gives s.fsm (record (filter_of s filt) { source = source }) true none none
      ] in
      let client : Result = elim (make_address host port) [
        | none ↦ throws
        | some destination ↦
            gives s.fsm (record (filter_of s filt) { destination = destination }) false none none
      ] in
      if s.is_listening then server else client

  abbrev pub ipv4_positional : Settings → FdAdapterConfig → List ℕ → List ℕ → Result
  ipv4_positional s filt host port =
      let server : Result = elim (make_address (48 ∷ []) port) [
        | none ↦ throws
        | some source ↦
            if source.port == 0
            then stops 1
            else gives s.fsm (record (filter_of s filt) { source = source }) true s.dev none
      ] in
      let client : Result = elim (make_address host port) [
        | none ↦ throws
        | some destination ↦ elim (make_address s.address s.port) [
          | none ↦ throws
          | some source ↦
              gives s.fsm (record (filter_of s filt) { destination = destination; source = source })
                false s.dev none
        ]
      ] in
      if s.is_listening then server else client

  abbrev pub ethernet_positional : Settings → FdAdapterConfig → List ℕ → List ℕ → Result
  ethernet_positional s filt host port = elim (make_address host port) [
    | none ↦ throws
    | some destination ↦ elim (make_address s.address s.port) [
      | none ↦ throws
      | some source ↦ elim (make_address s.gateway (48 ∷ [])) [
        | none ↦ throws
        | some hop ↦
            gives s.fsm (record (filter_of s filt) { destination = destination; source = source })
              false s.dev (some hop)
      ]
    ]
  ]

  abbrev pub positional : Program → Settings → FdAdapterConfig → List ℕ → List ℕ → Result
  positional tcp_udp s filt host port = udp_positional s filt host port
  positional tcp_ipv4 s filt host port = ipv4_positional s filt host port
  positional tcp_ip_ethernet s filt host port = ethernet_positional s filt host port

module _ (strtol loss_rate : List ℕ → ℕ) (make_address : List ℕ → List ℕ → Option Address) where
  -- `args` are the arguments after the name of the program, `filt` a new `FdAdapterConfig`.
  unfoldable pub get_config : Program → Settings → FdAdapterConfig → List (List ℕ) → Result
  get_config program s filt args =
      elim (parse_options strtol loss_rate (length args) program s args) [
        | exited code ↦ stops code
        | running ↦ out_of_fuel
        | parsed s' [] ↦ stops 1
        | parsed s' (host ∷ []) ↦ stops 1
        | parsed s' (host ∷ port ∷ rest) ↦ positional make_address program s' filt host port
      ]
