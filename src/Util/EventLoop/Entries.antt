-- ===== src/Util/EventLoop/Entries.antt =====
-- What the tests of `wait_next_event` say of an entry of poll(2) and of a rule.
use cs144_labs.Prelude.{
  ◌≡◌, ◌⊎◌, refl, none, inl, inr, Bool, true, false, not, ◌&&◌, Option, some, arith, Bool-cases,
}
use cs144_labs.Util.EventLoop.Happening.{IsReady, IsOver}
use cs144_labs.Util.EventLoop.{Direction, Rule, PollFd, poll_ready, asked, is_over}

-- The test of the code says which entries are ready.
pub IsReady-poll_ready : (p : PollFd) → poll_ready p ≡ true → IsReady p
IsReady-poll_ready p h = by_events p.events refl
  where
    by_events : (e : Option Direction) → p.events ≡ e → IsReady p
    by_events none e = let f : false ≡ true = (rw e at h) in absurd (cc)
    by_events (some Direction.in_direction) e = inl (e, (rw e at h))
    by_events (some Direction.out_direction) e = inr (e, (rw e at h))

pub not_IsReady : (p : PollFd) → poll_ready p ≡ false → ¬ IsReady p
not_IsReady p h (inl (e, r)) = let f : p.revents.pollin ≡ false = (rw e at h) in cc
not_IsReady p h (inr (e, r)) = let f : p.revents.pollout ≡ false = (rw e at h) in cc

pub asked-some : (p : PollFd) → asked p ≡ true → (d : Direction) × (p.events ≡ some d)
asked-some p h = by_events p.events refl
  where
    by_events : (e : Option Direction) → p.events ≡ e → (d : Direction) × (p.events ≡ some d)
    by_events none e = let f : false ≡ true = (rw e at h) in absurd (cc)
    by_events (some d) e = (d, e)

pub asked-none : (p : PollFd) → asked p ≡ false → p.events ≡ none
asked-none p h = by_events p.events refl
  where
    by_events : (e : Option Direction) → p.events ≡ e → p.events ≡ none
    by_events none e = e
    by_events (some d) e = let f : true ≡ false = (rw e at h) in absurd (cc)

pub hangup_parts :
    (q : PollFd)
    → (q.revents.hangup && (asked q && not (poll_ready q))) ≡ true
    → (q.revents.hangup ≡ true) × (asked q ≡ true) × (poll_ready q ≡ false)
hangup_parts q h = parts q.revents.hangup (asked q) (poll_ready q) h
  where
    parts : (a b c : Bool) → (a && (b && not c)) ≡ true → (a ≡ true) × (b ≡ true) × (c ≡ false)
    parts a b c h = ground arith

pub no_hangup :
    (q : PollFd)
    → poll_ready q ≡ false
    → (q.revents.hangup && (asked q && not (poll_ready q))) ≡ false
    → (q.revents.hangup ≡ false) ⊎ (q.events ≡ none)
no_hangup q t h = elim (Bool-cases q.revents.hangup) [
  | inr e ↦ inl e
  | inl e ↦ inr (asked-none q (unasked (asked q) (poll_ready q) t (rw e at h)))
]
  where
    unasked : (b c : Bool) → c ≡ false → (true && (b && not c)) ≡ false → b ≡ false
    unasked b c t h = ground arith

module _ {W : Type 0} where
  pub IsOver-is_over : (r : Rule W) (w : W) → is_over r w ≡ true → IsOver r w
  IsOver-is_over r w h = by_direction r.direction refl
    where
      by_direction : (d : Direction) → r.direction ≡ d → IsOver r w
      by_direction Direction.in_direction e = elim (Bool-cases (r.fd w).eof) [
        | inl t ↦ inl (e, t)
        | inr t ↦ inr (ground (arith, e, t, h))
      ]
      by_direction Direction.out_direction e = inr (rw e at h)

  pub not_IsOver : (r : Rule W) (w : W) → is_over r w ≡ false → ¬ IsOver r w
  not_IsOver r w h (inl (e, t)) = let f : true ≡ false = (rw (e, t) at h) in cc
  not_IsOver r w h (inr t) = ground (arith, t, h)
