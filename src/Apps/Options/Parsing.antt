-- ===== src/Apps/Options/Parsing.antt =====
-- The loops of `get_config`: they end with two arguments left, and set what the options say, in order.
use cs144_labs.Prelude.{
  ℕ, zero, suc, ◌+◌, ◌-◌, ◌≤◌, ◌<◌, ◌≡◌, ◌⊎◌, inl, inr, refl, sym, ap, ◌∙◌, true, false, some, List,
  [], ◌∷◌, ◌++◌, arith, ltb, leb, lt→ltb, Bool-cases, Option-cases, length, drop, length-append,
  length-drop,
}
use mathlib.Core.List.{append_assoc}
use mathlib.Core.Path.{subst}
use cs144_labs.Prelude.{ltb→lt}
use cs144_labs.Apps.Options.{
  Program, Kind, listen, source_address, source_port, next_hop, window, timeout, device, uplink,
  downlink, name, options, same_start, first_match, Settings, Round, exits, takes, Parsed, exited,
  parsed, assign, with_argument, apply, round, parse_options,
}
use cs144_labs.Apps.Options.Spelling.{has, first_match-name, spell, spell_all, HasAll}

module _ (strtol loss_rate : List ℕ → ℕ) where
  -- The settings after the options, in order: a later one replaces an earlier one.
  abbrev pub assign_all : Settings → List (Kind × List ℕ) → Settings
  assign_all s [] = s
  assign_all s (o ∷ os) = assign_all (assign strtol loss_rate s o.0 o.1) os

  -- Every option but "-l" has a value.
  apply_cases :
      (k : Kind)
      → (k ≡ listen)
        ⊎ (((s : Settings) (args : List (List ℕ))
              → apply strtol loss_rate s k args ≡ with_argument strtol loss_rate s k args)
            × ((v : List ℕ) → spell (k, v) ≡ name k ∷ v ∷ []))
  unfolding apply
  apply_cases listen = inl refl
  apply_cases source_address = inr (λ s args. refl, λ v. refl)
  apply_cases source_port = inr (λ s args. refl, λ v. refl)
  apply_cases next_hop = inr (λ s args. refl, λ v. refl)
  apply_cases window = inr (λ s args. refl, λ v. refl)
  apply_cases timeout = inr (λ s args. refl, λ v. refl)
  apply_cases device = inr (λ s args. refl, λ v. refl)
  apply_cases uplink = inr (λ s args. refl, λ v. refl)
  apply_cases downlink = inr (λ s args. refl, λ v. refl)

  -- A round exits, or takes arguments and leaves two at least.
  abbrev Leaves : List (List ℕ) → Round → Type 0
  Leaves args r =
      ((code : ℕ) × (r ≡ exits code))
      ⊎ ((n : ℕ) × (s' : Settings) × (r ≡ takes n s') × (0 < n) × (n + 2 ≤ length args))

  with_argument-Leaves :
      (s : Settings) (k : Kind) (args : List (List ℕ))
      → Leaves args (with_argument strtol loss_rate s k args)
  unfolding with_argument
  with_argument-Leaves s k [] = inl (1, refl)
  with_argument-Leaves s k (o ∷ []) = inl (1, refl)
  with_argument-Leaves s k (o ∷ v ∷ rest) = elim (Bool-cases (leb (length rest) 1)) [
    | inl e ↦ inl (1, rw e refl)
    | inr e ↦ inr (2, assign strtol loss_rate s k v, rw e refl, omega arith, ground arith)
  ]

  apply-Leaves :
      (s : Settings) (k : Kind) (args : List (List ℕ))
      → 2 < length args
      → Leaves args (apply strtol loss_rate s k args)
  unfolding apply
  apply-Leaves s k args h = elim (apply_cases k) [
    | inl e ↦
        inr (1, assign strtol loss_rate s listen [], rw (apply, e) refl, omega arith, omega arith)
    | inr e ↦ subst (Leaves args) (sym (e.0 s args)) (with_argument-Leaves s k args)
  ]

  round-Leaves :
      (program : Program) (s : Settings) (args : List (List ℕ))
      → 2 < length args
      → Leaves args (round strtol loss_rate program s args)
  unfolding round
  round-Leaves program s [] h = absurd (omega arith)
  round-Leaves program s (o ∷ rest) h = elim (Option-cases (first_match (options program) o)) [
    | inl e ↦ elim (Bool-cases (same_start (45 ∷ 104 ∷ []) o)) [
      | inl g ↦ inl (0, rw (round, e, g) refl)
      | inr g ↦ inl (1, rw (round, e, g) refl)
    ]
    | inr e ↦
        let at : round strtol loss_rate program s (o ∷ rest)
            ≡ apply strtol loss_rate s e.0 (o ∷ rest) =
          rw (round, e.1) refl in
        subst (Leaves (o ∷ rest)) (sym at) (apply-Leaves s e.0 (o ∷ rest) h)
  ]

  -- The end of the loop: an exit, or the last two arguments are left.
  abbrev pub IsEnd : List (List ℕ) → Parsed → Type 0
  IsEnd args p =
      ((code : ℕ) × (p ≡ exited code))
      ⊎ ((s : Settings) × (p ≡ parsed s (drop (length args - 2) args)))

  drop-two :
      (n : ℕ) (args : List (List ℕ))
      → n + 2 ≤ length args
      → drop (length (drop n args) - 2) (drop n args) ≡ drop (length args - 2) args
  drop-two zero args h = refl
  drop-two (suc n) [] h = refl
  drop-two (suc n) (x ∷ args) h =
      let one_more : suc (length args - 2) ≡ suc (length args) - 2 = omega arith in
      drop-two n args (omega arith) ∙ ap (λ m. drop m (x ∷ args)) one_more

  -- For two arguments or more, the loop ends: with an exit, or with the last two arguments left, however
  -- many the options before them took. No argument is read that is not there.
  pub parse_options_lem :
      (fuel : ℕ) (program : Program) (s : Settings) (args : List (List ℕ))
      → 2 ≤ length args
      → length args < fuel + 2
      → IsEnd args (parse_options strtol loss_rate fuel program s args)
  unfolding parse_options
  parse_options_lem zero program s args h k = absurd (omega arith)
  parse_options_lem (suc fuel) program s args h k = elim (Bool-cases (ltb 2 (length args))) [
    | inr e ↦ let none_more : length args - 2 ≡ 0 = ground arith in inr (s, rw (e, none_more) refl)
    | inl e ↦ elim (round-Leaves program s args (ltb→lt 2 (length args) e)) [
      | inl r ↦ inl (r.0, rw (e, r.1) refl)
      | inr r ↦
          let (n, s', at, pos, left) = r in
          let size = length-drop n args in
          let same = drop-two n args left in
          rw (e, at)
            (elim (parse_options_lem fuel program s' (drop n args) (omega arith) (omega arith)) [
              | inl p ↦ inl p
              | inr p ↦ inr (p.0, p.1 ∙ ap (parsed p.0) same)
            ])
    ]
  ]

  -- A round on an option as it is written takes it whole, and assigns its value.
  abbrev Spelled : Program → Settings → List ℕ → List (List ℕ) → Kind → Type 0
  Spelled program s v rest k =
      (n : ℕ) × (round strtol loss_rate program s (spell (k, v) ++ rest)
        ≡ takes n (assign strtol loss_rate s k v))
      × (drop n (spell (k, v) ++ rest) ≡ rest)
      × (n + length rest ≡ length (spell (k, v) ++ rest))
      × (0 < n)

  round-listen :
      (program : Program) (s : Settings) (v : List ℕ) (rest : List (List ℕ))
      → has program listen ≡ true
      → Spelled program s v rest listen
  unfolding round apply assign
  round-listen program s v rest h =
      let known = first_match-name program listen h in
      (1, rw (round, known) refl, refl, omega arith, omega arith)

  round-spell :
      (program : Program) (s : Settings) (k : Kind) (v : List ℕ) (rest : List (List ℕ))
      → has program k ≡ true
      → 2 ≤ length rest
      → Spelled program s v rest k
  unfolding round with_argument
  round-spell program s k v rest h two = elim (apply_cases k) [
    | inl e ↦
        subst (Spelled program s v rest) (sym e)
          (round-listen program s v rest (subst (λ t. has program t ≡ true) e h))
    | inr e ↦
        let known : first_match (options program) (name k) ≡ some k =
          first_match-name program k h in
        let enough : leb (length rest) 1 ≡ false = ground arith in
        let spelled : spell (k, v) ++ rest ≡ name k ∷ v ∷ rest = ap (λ t. t ++ rest) (e.1 v) in
        let valued : with_argument strtol loss_rate s k (name k ∷ v ∷ rest)
            ≡ takes 2 (assign strtol loss_rate s k v) =
          rw (with_argument, enough) refl in
        let opened : round strtol loss_rate program s (name k ∷ v ∷ rest)
            ≡ apply strtol loss_rate s k (name k ∷ v ∷ rest) =
          rw (round, known) refl in
        (
          2,
          ap (round strtol loss_rate program s) spelled
              ∙ opened
              ∙ e.0 s (name k ∷ v ∷ rest)
              ∙ valued,
          ap (drop 2) spelled,
          omega (arith, ap length spelled),
          omega arith,
        )
  ]

  -- What is written as options, before a host and a port, is what the loop sets: the options take effect
  -- in order, each with its own value, and the host and the port are left.
  pub parse_options-spell_all :
      (fuel : ℕ) (program : Program) (s : Settings) (os : List (Kind × List ℕ)) (host port : List ℕ)
      → HasAll program os
      → length os < fuel
      → parse_options strtol loss_rate fuel program s (spell_all os ++ host ∷ port ∷ [])
        ≡ parsed (assign_all s os) (host ∷ port ∷ [])
  unfolding parse_options
  parse_options-spell_all zero program s os host port h k = absurd (omega arith)
  parse_options-spell_all (suc fuel) program s [] host port h k = refl
  parse_options-spell_all (suc fuel) program s ((kind, v) ∷ os) host port h k =
      let rest = spell_all os ++ host ∷ port ∷ [] in
      let two : 2 ≤ length rest = omega (arith, length-append (spell_all os) (host ∷ port ∷ [])) in
      let (n, at, left, size, pos) = round-spell program s kind v rest h.0 two in
      let more : ltb 2 (length (spell (kind, v) ++ rest)) ≡ true = lt→ltb _ _ (omega arith) in
      ap (parse_options strtol loss_rate (suc fuel) program s)
        (append_assoc (spell (kind, v)) (spell_all os) (host ∷ port ∷ []))
      ∙ rw (parse_options, more, at, left)
          (parse_options-spell_all fuel program (assign strtol loss_rate s kind v) os host port h.1
            (omega arith))
