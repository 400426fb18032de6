-- ===== src/Tests/Utilities.antt =====
-- Runs of buffers, descriptors and the event loop.
use cs144_labs.Prelude.{
  ℕ, suc, ◌^◌, ◌≤◌, ◌<◌, min, ◌≡◌, ◌≢◌, ◌⊎◌, refl, sym, ap, true, false, Option, none, some,
  some_inj, List, [], ◌∷◌, ◌++◌, arith, ◌==◌, if◌then◌else◌, length, take, drop,
}
use cs144_labs.Util.Buffer.{
  Buffer, str, from_string, concatenate, size, remove_prefix_list, view_list, remove_prefix_view,
}
use cs144_labs.Util.Buffer.Removal
use cs144_labs.Util.Buffer.Removal.{AllValid, none_left, also, joined, remove_prefix_refines}
use cs144_labs.Util.FileDescriptor.{FdWrapper, wrapper, WriteResult, write}
use cs144_labs.Util.FileDescriptor.Rounds.{IsWritev, WritesPrefix, always-WritesPrefix}
use cs144_labs.Util.FileDescriptor.Writing.{Broken, write_lem}
use cs144_labs.Util.EventLoop.{Direction, Rule, PollFd, PollResult}
use cs144_labs.Util.EventLoop.Contract.{NoErrors, no_entries, and_entry, Answers, answered}

abbrev two_buffers : List Buffer
two_buffers = from_string (1 ∷ 2 ∷ 3 ∷ []) ∷ from_string (4 ∷ 5 ∷ []) ∷ []

from_string-IsValid : (s : List ℕ) → length s < 2 ^ 64 → Removal.IsValid (from_string s)
from_string-IsValid s h = record { inside = λ t e. rw (sym (some_inj e)) (omega arith, h) }

two_buffers-AllValid : AllValid two_buffers
two_buffers-AllValid =
    also (from_string-IsValid (1 ∷ 2 ∷ 3 ∷ []) (omega arith))
      (also (from_string-IsValid (4 ∷ 5 ∷ []) (omega arith)) none_left)

remove_prefix_refines_example :
    ((4 ≤ size two_buffers)
      × (left : List Buffer) × (remove_prefix_list two_buffers 4 ≡ some left)
      × (concatenate left ≡ drop 4 (concatenate two_buffers))
      × AllValid left
      × (remove_prefix_view (view_list two_buffers) 4 ≡ some (view_list left)))
    ⊎ ((size two_buffers < 4)
        × (remove_prefix_list two_buffers 4 ≡ none)
        × (remove_prefix_view (view_list two_buffers) 4 ≡ none))
unfolding str
remove_prefix_refines_example =
    remove_prefix_refines two_buffers 4 two_buffers-AllValid (omega arith) (omega arith)

-- A kernel that keeps what was read from each descriptor, and what was written to it.
pub record Traffic : Type 0 where
  pub given : ℕ → List ℕ
  pub received : ℕ → List ℕ

abbrev pub quiet : Traffic
quiet = record { given = λ fd. []; received = λ fd. [] }

abbrev pub add : (ℕ → List ℕ) → ℕ → List ℕ → ℕ → List ℕ
add t fd bytes n = if n == fd then t n ++ bytes else t n

pub add-here : (t : ℕ → List ℕ) (fd : ℕ) (bytes : List ℕ) → add t fd bytes fd ≡ t fd ++ bytes
add-here t fd bytes = let e : (fd == fd) ≡ true = ground arith in rw e refl

pub add-apart : (t : ℕ → List ℕ) (fd : ℕ) (bytes : List ℕ) (n : ℕ) → n ≢ fd → add t fd bytes n ≡ t n
add-apart t fd bytes n h = let e : (n == fd) ≡ false = ground arith in rw e refl

-- Two bytes are taken by each call, if there are as many.
abbrev pub two_taken : List (List ℕ) → ℕ
two_taken vs = min 2 (length (joined vs))

abbrev pub write_two : Traffic → FdWrapper → List (List ℕ) → Traffic × Option ℕ
write_two k f vs = (
  record k { received = add k.received f.fd (take (two_taken vs) (joined vs)) },
  some (two_taken vs),
)

pub write_two-IsWritev : IsWritev write_two (λ k. k.received)
write_two-IsWritev = record {
  taken = λ k f vs. two_taken vs;
  answer = λ k f vs. refl;
  prefix = λ k f vs. omega arith;
  progress = λ k f vs h. omega arith;
  delivery = λ k f vs. add-here k.received f.fd (take (two_taken vs) (joined vs));
  apart = λ k f vs fd h. add-apart k.received f.fd (take (two_taken vs) (joined vs)) fd h;
}

pub write_two-WritesPrefix : WritesPrefix write_two (λ k. k.received)
write_two-WritesPrefix = always-WritesPrefix write_two (λ k. k.received) write_two-IsWritev

abbrev some_views : List (List ℕ)
some_views = (1 ∷ 2 ∷ 3 ∷ []) ∷ [] ∷ (4 ∷ 5 ∷ []) ∷ []

write_lem_example :
    let s = write write_two (wrapper 3) quiet some_views true in
    ((s.result ≡ WriteResult.written (length (joined some_views)))
      × (s.kernel.received 3 ≡ quiet.received 3 ++ joined some_views))
    ⊎ Broken write_two (λ k. k.received) 3 quiet (joined some_views) s
write_lem_example =
    write_lem write_two (λ k. k.received) (wrapper 3) quiet some_views write_two-WritesPrefix
      (omega arith)

-- A rule that reads at each call.
abbrev counting_rule : Rule ℕ
counting_rule = record {
  fd = λ n. record (wrapper 5) { read_count = n };
  direction = Direction.in_direction;
  callback = λ n. some (suc n);
  interest = λ n. true;
  cancel = some;
}

-- The invariant of its world.
abbrev AboveSeven : ℕ → Type 0
AboveSeven n = 7 < n

-- Every descriptor can be read and written.
abbrev pub all_ready : List PollFd → List PollFd
all_ready [] = []
all_ready (p ∷ ps) =
    record p {
      revents = record { is_error = false; hangup = false; pollin = true; pollout = true };
    }
    ∷ all_ready ps

length-all_ready : (ps : List PollFd) → length (all_ready ps) ≡ length ps
length-all_ready [] = refl
length-all_ready (p ∷ ps) = ap suc (length-all_ready ps)

all_ready-NoErrors : (ps : List PollFd) → NoErrors (all_ready ps)
all_ready-NoErrors [] = no_entries
all_ready-NoErrors (p ∷ ps) = and_entry refl (all_ready-NoErrors ps)

pub all_ready-Answers : (ps : List PollFd) → Answers ps (PollResult.ready (all_ready ps))
all_ready-Answers ps = answered (length-all_ready ps) (all_ready-NoErrors ps)

abbrev poll_all : ℕ → List PollFd → ℕ × PollResult
poll_all n ps = (n, PollResult.ready (all_ready ps))
