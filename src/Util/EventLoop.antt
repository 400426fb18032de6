-- ===== src/Util/EventLoop.antt =====
-- `EventLoop` of libsponge/util/eventloop.{hh,cc}. The functions of a rule read and change a world `W`,
-- in which the descriptor of a rule, that other rules may share, is looked up; `none` is an exception.
-- poll(2) is a parameter.
pub mod Happening
pub mod Contract
pub mod Entries
pub mod Serving
use cs144_labs.Prelude.{
  ℕ, Bool, true, false, not, ◌&&◌, ◌||◌, Option, none, some, List, [], ◌∷◌, ◌++◌, ◌==◌,
  if◌then◌else◌,
}
use cs144_labs.Util.FileDescriptor.{FdWrapper}

pub data Direction : Type 0 where
  in_direction out_direction : Direction

-- `EventLoop::Result`
pub data Result : Type 0 where
  success timeout exit : Result

abbrev pub is_exit : Result → Bool
is_exit Result.exit = true
is_exit _ = false

-- `EventLoop::Rule`
pub record Rule (W : Type 0) : Type 0 where
  pub fd : W → FdWrapper
  pub direction : Direction
  pub callback : W → Option W
  pub interest : W → Bool
  pub cancel : W → Option W

-- `revents`: POLLERR or POLLNVAL, POLLHUP, POLLIN and POLLOUT.
pub record Revents : Type 0 where
  pub is_error : Bool
  pub hangup : Bool
  pub pollin : Bool
  pub pollout : Bool

abbrev pub no_revents : Revents
no_revents = record { is_error = false; hangup = false; pollin = false; pollout = false }

-- `pollfd`, where `none` stands for no `events`.
pub record PollFd : Type 0 where
  pub fd : ℕ
  pub events : Option Direction
  pub revents : Revents

-- What poll(2) does: no descriptor in time, a signal, another error, or the entries with `revents`.
pub data PollResult : Type 0 where
  none_in_time interrupted failed : PollResult
  ready : List PollFd → PollResult

abbrev pub is_in : Direction → Bool
is_in Direction.in_direction = true
is_in Direction.out_direction = false

-- `revents & events`, as a test
abbrev pub poll_ready : PollFd → Bool
poll_ready p = elim p.events [
  | none ↦ false
  | some d ↦ if is_in d then p.revents.pollin else p.revents.pollout
]

abbrev pub asked : PollFd → Bool
asked p = elim p.events [ none ↦ false | some d ↦ true ]

-- What the first loop of `wait_next_event` has made.
pub record Setup (W : Type 0) : Type 0 where
  pub rules : List (Rule W)
  pub pollfds : List PollFd
  pub something_to_poll : Bool
  pub world : W

module _ {W : Type 0} where
  abbrev pub service_count : Rule W → W → ℕ
  service_count r w = if is_in r.direction then (r.fd w).read_count else (r.fd w).write_count

  abbrev pub add_rule : List (Rule W) → Rule W → List (Rule W)
  add_rule rules r = rules ++ (r ∷ [])

  -- A rule whose descriptor has ended or was closed.
  abbrev pub is_over : Rule W → W → Bool
  is_over r w = (is_in r.direction && (r.fd w).eof) || (r.fd w).closed

  abbrev pub pollfd_for : Rule W → W → PollFd
  pollfd_for r w = record {
    fd = (r.fd w).fd;
    events = if r.interest w then some r.direction else none;
    revents = no_revents;
  }

  abbrev pub keep_rule : Rule W → W → Setup W → Setup W
  keep_rule r w s = record {
    rules = r ∷ s.rules;
    pollfds = pollfd_for r w ∷ s.pollfds;
    something_to_poll = r.interest w || s.something_to_poll;
    world = s.world;
  }

  -- The first loop of `wait_next_event`.
  unfoldable pub set_up : List (Rule W) → W → Option (Setup W)
  set_up [] w = some (record { rules = []; pollfds = []; something_to_poll = false; world = w })
  set_up (r ∷ rs) w = elim (if is_over r w then r.cancel w else some w) [
    | none ↦ none
    | some w' ↦ elim (set_up rs w') [
      | none ↦ none
      | some s ↦ some (if is_over r w then s else keep_rule r w s)
    ]
  ]

  -- The body of the second loop: whether the rule is kept, and the world.
  unfoldable pub serve_rule : Rule W → PollFd → W → Option (Bool × W)
  serve_rule r p w =
      let cancelled : Option (Bool × W) = elim (r.cancel w) [
        | none ↦ none
        | some w' ↦ some (false, w')
      ] in
      let called : Option (Bool × W) = elim (r.callback w) [
        | none ↦ none
        | some w' ↦
            if (service_count r w == service_count r w') && r.interest w'
            then none
            else some (true, w')
      ] in
      if p.revents.is_error
      then none
      else (if p.revents.hangup && (asked p && not (poll_ready p))
          then cancelled
          else (if poll_ready p then called else some (true, w)))

  -- The second loop: the index goes through the entries as the iterator does through the rules.
  unfoldable pub serve : List (Rule W) → List PollFd → W → Option (List (Rule W) × W)
  serve [] ps w = some ([], w)
  serve (r ∷ rs) [] w = none
  serve (r ∷ rs) (p ∷ ps) w = elim (serve_rule r p w) [
    | none ↦ none
    | some (kept, w') ↦ elim (serve rs ps w') [
      | none ↦ none
      | some (rules, w'') ↦ some (if kept then r ∷ rules else rules, w'')
    ]
  ]

  -- After the poll; an error that is no signal is caught and leaves the entries as they were.
  unfoldable pub after_poll :
      List (Rule W) → List PollFd → W × PollResult → Option (Result × List (Rule W) × W)
  after_poll rules ps (w, none_in_time) = some (Result.timeout, rules, w)
  after_poll rules ps (w, interrupted) = some (Result.exit, rules, w)
  after_poll rules ps (w, failed) = elim (serve rules ps w) [
    | none ↦ none
    | some (rules', w') ↦ some (Result.success, rules', w')
  ]
  after_poll rules ps (w, ready ps') = elim (serve rules ps' w) [
    | none ↦ none
    | some (rules', w') ↦ some (Result.success, rules', w')
  ]

module _ {W : Type 0} (sys_poll : W → List PollFd → W × PollResult) where
  unfoldable pub wait_next_event : List (Rule W) → W → Option (Result × List (Rule W) × W)
  wait_next_event rules w = elim (set_up rules w) [
    | none ↦ none
    | some s ↦
        if s.something_to_poll
        then after_poll s.rules s.pollfds (sys_poll s.world s.pollfds)
        else some (Result.exit, s.rules, s.world)
  ]
