-- ===== src/Util/FileDescriptor.antt =====
-- `FileDescriptor` of libsponge/util/file_descriptor.{hh,cc}: the state that its duplicates share, with
-- reads and writes. The kernel is a parameter: its state, and what read(2), writev(2) and close(2) do.
-- `none` is a negative result of a system call, which `SystemCall` turns into an exception.
pub mod Rounds
pub mod Writing
use cs144_labs.Prelude.{
  ℕ, zero, suc, ◌+◌, ◌*◌, min, Bool, true, false, not, ◌&&◌, Option, none, some, List, ltb, ◌==◌,
  if◌then◌else◌, length, add64, add32,
}
use cs144_labs.Util.Buffer.{view_size, remove_prefix_view}

-- `FDWrapper`
pub record FdWrapper : Type 0 where
  pub fd : ℕ
  pub eof : Bool
  pub closed : Bool
  pub read_count : ℕ
  pub write_count : ℕ

abbrev pub wrapper : ℕ → FdWrapper
wrapper fd = record { fd = fd; eof = false; closed = false; read_count = 0; write_count = 0 }

-- The counters are `unsigned`.
abbrev pub register_read : FdWrapper → FdWrapper
register_read f = record f { read_count = add32 f.read_count 1 }

abbrev pub register_write : FdWrapper → FdWrapper
register_write f = record f { write_count = add32 f.write_count 1 }

-- The descriptor once read(2) has answered: a read of no bytes is the end, if bytes were asked for.
abbrev pub note_eof : FdWrapper → ℕ → ℕ → FdWrapper
note_eof f limit bytes_read =
    if ltb 0 limit && (bytes_read == 0) then record f { eof = true } else f

-- The result of a write: the number of bytes, an exception, or the end of the fuel.
pub data WriteResult : Type 0 where
  written : ℕ → WriteResult
  thrown running : WriteResult

-- The kernel and the descriptor after a write, with its result.
pub record WriteState (K : Type 0) : Type 0 where
  pub fd : FdWrapper
  pub kernel : K
  pub result : WriteResult

abbrev pub throw : {K : Type 0} → FdWrapper → K → WriteState K
throw f k = record { fd = f; kernel = k; result = thrown }

module _ {K : Type 0} (sys_close : K → FdWrapper → K × Bool) where
  -- `FDWrapper::close`
  unfoldable pub close : FdWrapper → K → FdWrapper × K × Bool
  close f k =
      let (k', ok) = sys_close k f in
      if ok then (record f { eof = true; closed = true }, k', true) else (f, k', false)

module _ {K : Type 0} (sys_read : K → FdWrapper → ℕ → K × Option (List ℕ)) where
  unfoldable pub read : FdWrapper → K → ℕ → FdWrapper × K × Option (List ℕ)
  read f k limit =
      let size_to_read = min (1024 * 1024) limit in
      let called = sys_read k f size_to_read in
      elim called.1 [
        | none ↦ (f, called.0, none)
        | some bytes ↦
            let f' = note_eof f limit (length bytes) in
            if ltb size_to_read (length bytes)
            then (f', called.0, none)
            else (register_read f', called.0, some bytes)
      ]

module _ {K : Type 0} (sys_writev : K → FdWrapper → List (List ℕ) → K × Option ℕ) where
  -- The loop of `write`.
  unfoldable pub write_from : ℕ → FdWrapper → K → List (List ℕ) → Bool → ℕ → WriteState K
  write_from zero f k buffer write_all total = record { fd = f; kernel = k; result = running }
  write_from (suc fuel) f k buffer write_all total =
      let called = sys_writev k f buffer in
      elim called.1 [
        | none ↦ throw f called.0
        | some bytes_written ↦
            let after : WriteState K = elim (remove_prefix_view buffer bytes_written) [
              | none ↦ throw (register_write f) called.0
              | some rest ↦
                  let sum = add64 total bytes_written in
                  let again : WriteState K =
                    write_from fuel (register_write f) called.0 rest write_all sum in
                  if write_all && not (view_size rest == 0)
                  then again
                  else record { fd = register_write f; kernel = called.0; result = written sum }
            ] in
            if (bytes_written == 0) && not (view_size buffer == 0)
            then throw f called.0
            else (if ltb (view_size buffer) bytes_written then throw f called.0 else after)
      ]

  -- One round for each byte, and one for none, are enough.
  abbrev pub write : FdWrapper → K → List (List ℕ) → Bool → WriteState K
  write f k buffer write_all = write_from (suc (view_size buffer)) f k buffer write_all 0
