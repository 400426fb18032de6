-- ===== src/Apps/Options/Configuring.antt =====
-- `get_config` as a whole.
use cs144_labs.Prelude.{
  ℕ, ◌-◌, ◌≤◌, ◌≡◌, ◌⊎◌, inl, inr, refl, sym, ap, ◌∙◌, Option, List, [], ◌∷◌, ◌++◌, arith, length,
  take, drop, length-append, length-drop, take-append-drop,
}
use cs144_labs.Wire.Adapter.{Address}
use cs144_labs.Socket.Adapters.{FdAdapterConfig}
use cs144_labs.Apps.Options.{
  Program, Kind, Settings, parsed, parse_options, stops, positional, get_config,
}
use cs144_labs.Apps.Options.Spelling.{spell, spell_long, spell_all, HasAll}
use cs144_labs.Apps.Options.Parsing.{assign_all, parse_options_lem, parse_options-spell_all}

-- A list of two entries.
two_entries :
    (xs : List (List ℕ))
    → length xs ≡ 2
    → (host : List ℕ) × (port : List ℕ) × (xs ≡ host ∷ port ∷ [])
two_entries [] h = absurd (omega arith)
two_entries (x ∷ []) h = absurd (omega arith)
two_entries (x ∷ y ∷ []) h = (x, y, refl)
two_entries (x ∷ y ∷ z ∷ xs) h = absurd (omega arith)

module _ (strtol loss_rate : List ℕ → ℕ) (make_address : List ℕ → List ℕ → Option Address) where
  get_config-parsed :
      (program : Program) (s s' : Settings) (filt : FdAdapterConfig) (args : List (List ℕ))
      (host port : List ℕ)
      → parse_options strtol loss_rate (length args) program s args ≡ parsed s' (host ∷ port ∷ [])
      → get_config strtol loss_rate make_address program s filt args
        ≡ positional make_address program s' filt host port
  unfolding get_config
  get_config-parsed program s s' filt args host port e = rw (get_config, e) refl

  -- With a host and a port at least on the command line, the loop of `get_config` ends, whatever else is
  -- there: the program exits, or goes on with the last two arguments as its positional ones.
  pub get_config_lem :
      (program : Program) (s : Settings) (filt : FdAdapterConfig) (args : List (List ℕ))
      → 2 ≤ length args
      → ((code : ℕ) × (get_config strtol loss_rate make_address program s filt args ≡ stops code))
        ⊎ ((s' : Settings) × (before : List (List ℕ)) × (host : List ℕ) × (port : List ℕ) × (args
              ≡ before ++ host ∷ port ∷ [])
            × (get_config strtol loss_rate make_address program s filt args
                ≡ positional make_address program s' filt host port))
  unfolding get_config
  get_config_lem program s filt args h =
      elim (parse_options_lem strtol loss_rate (length args) program s args h (omega arith)) [
        | inl r ↦ inl (r.0, rw (get_config, r.1) refl)
        | inr r ↦
            let size : length (drop (length args - 2) args) ≡ 2 =
              omega (arith, length-drop (length args - 2) args) in
            let (host, port, last) = two_entries (drop (length args - 2) args) size in
            inr (
              r.0,
              take (length args - 2) args,
              host,
              port,
              sym (take-append-drop (length args - 2) args)
                  ∙ ap (λ t. take (length args - 2) args ++ t) last,
              get_config-parsed program s r.0 filt args host port (r.1 ∙ ap (parsed r.0) last),
            )
      ]

  -- Options that the program has, written with their values before a host and a port, take effect in
  -- order, a later one over an earlier one, and the host and the port are the positional arguments.
  pub get_config-spell_all :
      (program : Program) (s : Settings) (filt : FdAdapterConfig) (os : List (Kind × List ℕ))
      (host port : List ℕ)
      → HasAll program os
      → get_config strtol loss_rate make_address program s filt (spell_all os ++ host ∷ port ∷ [])
        ≡ positional make_address program (assign_all strtol loss_rate s os) filt host port
  get_config-spell_all program s filt os host port h =
      let args = spell_all os ++ host ∷ port ∷ [] in
      let size = length-append (spell_all os) (host ∷ port ∷ []) in
      get_config-parsed program s (assign_all strtol loss_rate s os) filt args host port (
        parse_options-spell_all strtol loss_rate (length args) program s os host port h
          (omega (arith, longer os)))
    where
      longer : (os : List (Kind × List ℕ)) → length os ≤ length (spell_all os)
      longer [] = omega arith
      longer (o ∷ os) =
          omega (arith, length-append (spell o) (spell_all os), spell_long o, longer os)
