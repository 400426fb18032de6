-- ===== src/Relay/Conservation/Reading.antt =====
-- A read on a kernel that answers.
use cs144_labs.Prelude.{
  ℕ, ◌*◌, ◌≤◌, min, ◌≡◌, refl, Bool, true, false, ◌&&◌, Option, some, List, ltb, le→ltb, ◌==◌,
  if◌then◌else◌, length, add32,
}
use cs144_labs.Util.FileDescriptor.{FdWrapper, note_eof, register_read, read}

-- A read that gave bytes of the system call within the limit, on the same descriptor, and was counted.
pub record Gave {K : Type 0} (sys_read : K → FdWrapper → ℕ → K × Option (List ℕ)) (f : FdWrapper)
    (k : K) (limit : ℕ) (bytes : List ℕ) : Type 0 where
  pub after : FdWrapper
  pub done :
      read sys_read f k limit ≡ (after, (sys_read k f (min (1024 * 1024) limit)).0, some bytes)
  pub same_fd : after.fd ≡ f.fd
  pub counted : after.read_count ≡ add32 f.read_count 1

note_eof_keeps :
    (f : FdWrapper) (limit n : ℕ)
    → ((note_eof f limit n).fd ≡ f.fd) × ((note_eof f limit n).read_count ≡ f.read_count)
note_eof_keeps f limit n = either (ltb 0 limit && (n == 0))
  where
    either :
        (b : Bool)
        → ((if b then record f { eof = true } else f).fd ≡ f.fd)
          × ((if b then record f { eof = true } else f).read_count ≡ f.read_count)
    either true = (refl, refl)
    either false = (refl, refl)

pub read_lem :
    {K : Type 0} (sys_read : K → FdWrapper → ℕ → K × Option (List ℕ)) (f : FdWrapper) (k : K)
    (limit : ℕ) (bytes : List ℕ)
    → (sys_read k f (min (1024 * 1024) limit)).1 ≡ some bytes
    → length bytes ≤ min (1024 * 1024) limit
    → Gave sys_read f k limit bytes
unfolding read
read_lem sys_read f k limit bytes e h =
    let (fd_same, count_same) = note_eof_keeps f limit (length bytes) in
    record {
      after = register_read (note_eof f limit (length bytes));
      done = rw (read, e, le→ltb (min (1024 * 1024) limit) (length bytes) h) refl;
      same_fd = fd_same;
      counted = rw count_same refl;
    }
