-- ===== src/Util/EventLoop/Contract.antt =====
-- What the event loop relies on: rules that keep the contract of the documentation, and poll(2).
use cs144_labs.Prelude.{◌≡◌, false, ◌&&◌, some, List, [], ◌∷◌, ◌==◌, length}
use cs144_labs.Util.EventLoop.{Rule, PollFd, PollResult, service_count}

module _ {W : Type 0} (P : W → Type 0) where
  -- What the documentation asks of a rule, in worlds that satisfy the invariant: its functions do not
  -- throw and keep the invariant, and a callback reads or writes the descriptor, or is no longer
  -- interested.
  pub record IsHonest (r : Rule W) : Type 0 where
    pub calls :
        (w : W)
        → P w
        → (w' : W) × (r.callback w ≡ some w')
          × (((service_count r w == service_count r w') && r.interest w') ≡ false)
          × P w'
    pub cancels : (w : W) → P w → (w' : W) × (r.cancel w ≡ some w') × P w'

  pub data AllHonest : List (Rule W) → Type 0 where
    no_rules : AllHonest []
    and_rule : {r : Rule W} {rs : List (Rule W)} → IsHonest r → AllHonest rs → AllHonest (r ∷ rs)

module _ {W : Type 0} where
  -- Some of the rules, in their order.
  pub data Subrules : List (Rule W) → List (Rule W) → Type 0 where
    none_left : Subrules [] []
    kept : {r : Rule W} {rs rs' : List (Rule W)} → Subrules rs rs' → Subrules (r ∷ rs) (r ∷ rs')
    erased : {r : Rule W} {rs rs' : List (Rule W)} → Subrules rs rs' → Subrules rs (r ∷ rs')

-- No entry reports an error.
pub data NoErrors : List PollFd → Type 0 where
  no_entries : NoErrors []
  and_entry :
      {p : PollFd} {ps : List PollFd} → p.revents.is_error ≡ false → NoErrors ps → NoErrors (p ∷ ps)

-- An answer of poll(2) to these entries, without an error on any of them.
pub data Answers (ps : List PollFd) : PollResult → Type 0 where
  no_time : Answers ps PollResult.none_in_time
  interruption : Answers ps PollResult.interrupted
  refused : Answers ps PollResult.failed
  answered :
      {ps' : List PollFd}
      → length ps' ≡ length ps
      → NoErrors ps'
      → Answers ps (PollResult.ready ps')

module _ {W : Type 0} where
  pub Subrules-trans :
      (b c : List (Rule W)) (a : List (Rule W)) → Subrules a b → Subrules b c → Subrules a c
  Subrules-trans b c a s none_left = s
  Subrules-trans (r ∷ b) (r' ∷ c) (r'' ∷ a) (kept s) (kept t) = kept (Subrules-trans b c a s t)
  Subrules-trans (r ∷ b) (r' ∷ c) a (erased s) (kept t) = erased (Subrules-trans b c a s t)
  Subrules-trans b (r ∷ c) a s (erased t) = erased (Subrules-trans b c a s t)

  pub Subrules-same : (rules : List (Rule W)) → Subrules rules rules
  Subrules-same [] = none_left
  Subrules-same (r ∷ rs) = kept (Subrules-same rs)

module _ {W : Type 0} (P : W → Type 0) where
  pub Subrules-AllHonest :
      {rs rs' : List (Rule W)} → Subrules rs rs' → AllHonest P rs' → AllHonest P rs
  Subrules-AllHonest none_left h = h
  Subrules-AllHonest (kept s) (and_rule r h) = and_rule r (Subrules-AllHonest s h)
  Subrules-AllHonest (erased s) (and_rule r h) = Subrules-AllHonest s h
