-- ===== src/Util/EventLoop/Serving.antt =====
-- The event loop, with rules that keep its contract.
use cs144_labs.Prelude.{
  suc, ◌≡◌, if◌then◌else◌, refl, none, ◌||◌, ap, ◌∙◌, inl, inr, Bool, true, false, not, ◌&&◌,
  Option, some, List, [], ◌∷◌, arith, Bool-cases, if_true, if_false, length,
}
use cs144_labs.Util.EventLoop.Happening.{
  RuleServed, called_back, hung_up, passed, Served, all_served, and_kept, and_erased, Prepared,
  all_prepared, and_cancelled, and_polled, NoneAsked, no_entry, and_placeholder, Round,
  nothing_to_poll, timed_out, signalled, poll_failed, reported,
}
use cs144_labs.Util.EventLoop.{
  Result, Rule, PollFd, PollResult, poll_ready, asked, Setup, is_over, keep_rule, set_up,
  serve_rule, serve, after_poll, wait_next_event,
}
use mathlib.Core.Path.{subst}
use cs144_labs.Util.EventLoop.Entries.{
  IsReady-poll_ready, not_IsReady, asked-some, hangup_parts, no_hangup, IsOver-is_over, not_IsOver,
}
use cs144_labs.Util.EventLoop.Contract.{
  IsHonest, AllHonest, and_rule, Subrules, none_left, kept, erased, NoErrors, no_entries, and_entry,
  Answers, answered, Subrules-trans, Subrules-AllHonest,
}

module _ {W : Type 0} (P : W → Type 0) where
  -- The first loop has one entry for each rule that it keeps, and no error yet.
  record IsSetUp (rules : List (Rule W)) (w : W) (s : Setup W) : Type 0 where
    some_rules : Subrules s.rules rules
    aligned : length s.pollfds ≡ length s.rules
    no_errors : NoErrors s.pollfds
    invariant : P s.world
    prepared : Prepared rules w s.rules s.pollfds s.world
    idle : s.something_to_poll ≡ false → NoneAsked s.pollfds

  no_interest :
      (r : Rule W) (w : W)
      → r.interest w ≡ false
      → (if r.interest w then some r.direction else none) ≡ none
  no_interest r w e = if_false _ _ e

  or_false : (a b : Bool) → (a || b) ≡ false → (a ≡ false) × (b ≡ false)
  or_false a b h = ground arith

  set_up-IsSetUp :
      (rules : List (Rule W)) (w : W)
      → AllHonest P rules
      → P w
      → (s : Setup W) × (set_up rules w ≡ some s) × IsSetUp rules w s
  unfolding set_up
  set_up-IsSetUp [] w h p = (
    record { rules = []; pollfds = []; something_to_poll = false; world = w },
    refl,
    record {
      some_rules = none_left;
      aligned = refl;
      no_errors = no_entries;
      invariant = p;
      prepared = all_prepared;
      idle = λ h. no_entry;
    },
  )
  set_up-IsSetUp (r ∷ rs) w (and_rule hr h) p = elim (Bool-cases (is_over r w)) [
    | inl e ↦
        let (w', cancelled, p') = hr.cancels w p in
        let (s, made, i) = set_up-IsSetUp rs w' h p' in
        (
          s,
          rw (set_up, e, cancelled, made) (ap some (if_true s (keep_rule r w s) e)),
          record {
            some_rules = erased i.some_rules;
            aligned = i.aligned;
            no_errors = i.no_errors;
            invariant = i.invariant;
            prepared = and_cancelled (IsOver-is_over r w e) cancelled i.prepared;
            idle = i.idle;
          },
        )
    | inr e ↦
        let (s, made, i) = set_up-IsSetUp rs w h p in
        (
          keep_rule r w s,
          rw (set_up, e, made) (ap some (if_false s (keep_rule r w s) e)),
          record {
            some_rules = kept i.some_rules;
            aligned = ap suc i.aligned;
            no_errors = and_entry refl i.no_errors;
            invariant = i.invariant;
            prepared = and_polled (not_IsOver r w e) refl i.prepared;
            idle = λ h.
                let (uninterested, others) = or_false (r.interest w) s.something_to_poll h in
                and_placeholder (no_interest r w uninterested) (i.idle others);
          },
        )
  ]

  serve_rule_lem :
      (r : Rule W) (q : PollFd) (w : W)
      → IsHonest P r
      → q.revents.is_error ≡ false
      → P w
      → (keep : Bool) × (w' : W) × (serve_rule r q w ≡ some (keep, w'))
        × P w'
        × RuleServed r q w keep w'
  unfolding serve_rule
  serve_rule_lem r q w h e p =
      elim (Bool-cases (q.revents.hangup && (asked q && not (poll_ready q)))) [
        | inl hup ↦
            let (w', cancelled, p') = h.cancels w p in
            let (up, wanted, unready) = hangup_parts q hup in
            (
              false,
              w',
              rw (serve_rule, e, hup, cancelled) refl,
              p',
              hung_up (not_IsReady q unready) up (asked-some q wanted) cancelled,
            )
        | inr hup ↦ elim (Bool-cases (poll_ready q)) [
          | inl t ↦
              let (w', called, not_busy, p') = h.calls w p in
              (
                true,
                w',
                rw (serve_rule, e, hup, t, called, not_busy) refl,
                p',
                called_back (IsReady-poll_ready q t) called,
              )
          | inr t ↦ (
            true,
            w,
            rw (serve_rule, e, hup, t) refl,
            p,
            passed (not_IsReady q t) (no_hangup q t hup),
          )
        ]
      ]

  serve_lem :
      (rules : List (Rule W)) (ps : List PollFd) (w : W)
      → AllHonest P rules
      → NoErrors ps
      → length ps ≡ length rules
      → P w
      → (left : List (Rule W)) × (w' : W) × (serve rules ps w ≡ some (left, w'))
        × Subrules left rules
        × P w'
        × Served rules ps w left w'
  unfolding serve
  serve_lem [] ps w h n e p = ([], w, refl, none_left, p, all_served)
  serve_lem (r ∷ rs) [] w h n e p = absurd (omega arith)
  serve_lem (r ∷ rs) (q ∷ ps) w (and_rule hr h) (and_entry m n) e p =
      let (keep, w', served, p', did) = serve_rule_lem r q w hr m p in
      let (left, w'', rest, sub, p'', others) = serve_lem rs ps w' h n (omega arith) p' in
      elim (Bool-cases keep) [
        | inl k ↦ (
          r ∷ left,
          w'',
          rw (serve, served, rest, k) refl,
          kept sub,
          p'',
          and_kept (subst (λ b. RuleServed r q w b w') k did) others,
        )
        | inr k ↦ (
          left,
          w'',
          rw (serve, served, rest, k) refl,
          erased sub,
          p'',
          and_erased (subst (λ b. RuleServed r q w b w') k did) others,
        )
      ]

  -- The call returned, the rules that it left are some of those it had, in their order, the world
  -- satisfies the invariant, and the call did what it should with each rule.
  abbrev pub Returns :
      (W → List PollFd → W × PollResult)
      → List (Rule W)
      → W
      → Option (Result × List (Rule W) × W)
      → Type 0
  Returns sys_poll rules w call =
      (result : Result) × (left : List (Rule W)) × (w' : W) × (call ≡ some (result, left, w'))
      × Subrules left rules
      × P w'
      × Round sys_poll rules w result left w'

  module _ (sys_poll : W → List PollFd → W × PollResult) (rules : List (Rule W)) (w : W)
      (s : Setup W) (i : IsSetUp rules w s) (h : AllHonest P s.rules)
      (p : P (sys_poll s.world s.pollfds).0) where
    polled :
        (result : PollResult)
        → (sys_poll s.world s.pollfds).1 ≡ result
        → Answers s.pollfds result
        → Returns sys_poll rules w
            (after_poll s.rules s.pollfds ((sys_poll s.world s.pollfds).0, result))
    unfolding after_poll
    polled PollResult.none_in_time e a = (
      Result.timeout,
      s.rules,
      (sys_poll s.world s.pollfds).0,
      refl,
      i.some_rules,
      p,
      timed_out i.prepared e,
    )
    polled PollResult.interrupted e a = (
      Result.exit,
      s.rules,
      (sys_poll s.world s.pollfds).0,
      refl,
      i.some_rules,
      p,
      signalled i.prepared e,
    )
    polled PollResult.failed e a =
        let (left, w', done, sub, p', served) =
          serve_lem s.rules s.pollfds (sys_poll s.world s.pollfds).0 h i.no_errors i.aligned p in
        (
          Result.success,
          left,
          w',
          rw (after_poll, done) refl,
          Subrules-trans s.rules rules left sub i.some_rules,
          p',
          poll_failed i.prepared e served,
        )
    polled (PollResult.ready qs) e (answered l m) =
        let (left, w', done, sub, p', served) =
          serve_lem s.rules qs (sys_poll s.world s.pollfds).0 h m (l ∙ i.aligned) p in
        (
          Result.success,
          left,
          w',
          rw (after_poll, done) refl,
          Subrules-trans s.rules rules left sub i.some_rules,
          p',
          reported i.prepared e served,
        )

pub wait_next_event_lem :
    {W : Type 0} (P : W → Type 0) (sys_poll : W → List PollFd → W × PollResult)
    (rules : List (Rule W)) (w : W)
    → AllHonest P rules
    → ((v : W) (ps : List PollFd) → P v → Answers ps (sys_poll v ps).1 × P (sys_poll v ps).0)
    → P w
    → Returns P sys_poll rules w (wait_next_event sys_poll rules w)
unfolding wait_next_event
wait_next_event_lem P sys_poll rules w h answers p =
    let (s, made, i) = set_up-IsSetUp P rules w h p in
    elim (Bool-cases s.something_to_poll) [
      | inr e ↦ (
        Result.exit,
        s.rules,
        s.world,
        rw (wait_next_event, made, e) refl,
        i.some_rules,
        i.invariant,
        nothing_to_poll i.prepared (i.idle e),
      )
      | inl e ↦
          let (answer, p') = answers s.world s.pollfds i.invariant in
          let (result, left, w', done, sub, p'', round) =
            polled P sys_poll rules w s i (Subrules-AllHonest P i.some_rules h) p'
              (sys_poll s.world s.pollfds).1 refl answer in
          (result, left, w', rw (wait_next_event, made, e) done, sub, p'', round)
    ]
