-- ===== src/Util/EventLoop/Happening.antt =====
-- What one call of `EventLoop::wait_next_event` does, rule by rule: an account of its two loops that
-- does not follow their code.
use cs144_labs.Prelude.{◌≡◌, ◌⊎◌, Bool, true, false, none, some, List, [], ◌∷◌, if◌then◌else◌}
use cs144_labs.Util.EventLoop.{Direction, Result, Rule, PollFd, PollResult, no_revents}

-- The entry asked for a direction, and poll(2) reports it.
abbrev pub IsReady : PollFd → Type 0
IsReady p =
    ((p.events ≡ some Direction.in_direction) × (p.revents.pollin ≡ true))
    ⊎ ((p.events ≡ some Direction.out_direction) × (p.revents.pollout ≡ true))

-- No entry asks for anything.
pub data NoneAsked : List PollFd → Type 0 where
  no_entry : NoneAsked []
  and_placeholder :
      {p : PollFd} {ps : List PollFd} → p.events ≡ none → NoneAsked ps → NoneAsked (p ∷ ps)

module _ {W : Type 0} where
  -- One rule in the second loop, and whether it is kept. If its entry is ready, its callback is called.
  -- If not, and there was a hangup on an entry that asked, it is cancelled and erased. Otherwise nothing
  -- is done.
  pub data RuleServed (r : Rule W) (p : PollFd) : W → Bool → W → Type 0 where
    called_back : {w w' : W} → IsReady p → r.callback w ≡ some w' → RuleServed r p w true w'
    hung_up :
        {w w' : W}
        → ¬ IsReady p
        → p.revents.hangup ≡ true
        → (d : Direction) × (p.events ≡ some d)
        → r.cancel w ≡ some w'
        → RuleServed r p w false w'
    passed :
        {w : W}
        → ¬ IsReady p
        → (p.revents.hangup ≡ false) ⊎ (p.events ≡ none)
        → RuleServed r p w true w

  -- The second loop: every rule with its own entry, in order, and the rules that are left.
  pub data Served : List (Rule W) → List PollFd → W → List (Rule W) → W → Type 0 where
    all_served : {ps : List PollFd} {w : W} → Served [] ps w [] w
    and_kept :
        {r : Rule W} {p : PollFd} {rs left : List (Rule W)} {ps : List PollFd} {w w' w'' : W}
        → RuleServed r p w true w'
        → Served rs ps w' left w''
        → Served (r ∷ rs) (p ∷ ps) w (r ∷ left) w''
    and_erased :
        {r : Rule W} {p : PollFd} {rs left : List (Rule W)} {ps : List PollFd} {w w' w'' : W}
        → RuleServed r p w false w'
        → Served rs ps w' left w''
        → Served (r ∷ rs) (p ∷ ps) w left w''

  -- A rule whose descriptor can give no more: at its end, for a rule that reads, or closed.
  abbrev pub IsOver : Rule W → W → Type 0
  IsOver r w =
      ((r.direction ≡ Direction.in_direction) × ((r.fd w).eof ≡ true)) ⊎ ((r.fd w).closed ≡ true)

  -- The first loop: each rule that is over is cancelled and erased; every other has an entry, which asks
  -- for its direction just if it is interested.
  pub data Prepared : List (Rule W) → W → List (Rule W) → List PollFd → W → Type 0 where
    all_prepared : {w : W} → Prepared [] w [] [] w
    and_cancelled :
        {r : Rule W} {rs left : List (Rule W)} {ps : List PollFd} {w w' w'' : W}
        → IsOver r w
        → r.cancel w ≡ some w'
        → Prepared rs w' left ps w''
        → Prepared (r ∷ rs) w left ps w''
    and_polled :
        {r : Rule W} {rs left : List (Rule W)} {p : PollFd} {ps : List PollFd} {w w' : W}
        → ¬ IsOver r w
        → p ≡ record {
          fd = (r.fd w).fd;
          events = if r.interest w then some r.direction else none;
          revents = no_revents;
        }
        → Prepared rs w left ps w'
        → Prepared (r ∷ rs) w (r ∷ left) (p ∷ ps) w'

  -- The whole call, from a world with the rules to its result, the rules that are left, and the world.
  pub data Round (sys_poll : W → List PollFd → W × PollResult)
      : List (Rule W) → W → Result → List (Rule W) → W → Type 0 where
    nothing_to_poll :
        {rules left : List (Rule W)} {ps : List PollFd} {w w' : W}
        → Prepared rules w left ps w'
        → NoneAsked ps
        → Round sys_poll rules w Result.exit left w'
    timed_out :
        {rules left : List (Rule W)} {ps : List PollFd} {w w' : W}
        → Prepared rules w left ps w'
        → (sys_poll w' ps).1 ≡ PollResult.none_in_time
        → Round sys_poll rules w Result.timeout left (sys_poll w' ps).0
    signalled :
        {rules left : List (Rule W)} {ps : List PollFd} {w w' : W}
        → Prepared rules w left ps w'
        → (sys_poll w' ps).1 ≡ PollResult.interrupted
        → Round sys_poll rules w Result.exit left (sys_poll w' ps).0
    poll_failed :
        {rules polled left : List (Rule W)} {ps : List PollFd} {w w' w'' : W}
        → Prepared rules w polled ps w'
        → (sys_poll w' ps).1 ≡ PollResult.failed
        → Served polled ps (sys_poll w' ps).0 left w''
        → Round sys_poll rules w Result.success left w''
    reported :
        {rules polled left : List (Rule W)} {ps qs : List PollFd} {w w' w'' : W}
        → Prepared rules w polled ps w'
        → (sys_poll w' ps).1 ≡ PollResult.ready qs
        → Served polled qs (sys_poll w' ps).0 left w''
        → Round sys_poll rules w Result.success left w''
