-- ===== src/Socket/Rules/Pumping.antt =====
-- What rule 3 moves from the inbound stream to the application.
use cs144_labs.Prelude.{
  ℕ, ◌+◌, ◌-◌, ◌≤◌, min, ◌<◌, ◌≡◌, ◌⊎◌, none, refl, sym, ap, ◌∙◌, inl, inr, Bool, true, false, ◌||◌,
  some, List, [], ◌∷◌, ◌++◌, arith, ◌==◌, if◌then◌else◌, Bool-cases, length, take, drop,
  length-take, length-drop, take-append-drop, add32,
}
use mathlib.Core.List.{append_assoc, append-nil}
use cs144_labs.ByteStream
use cs144_labs.ByteStream.{ByteStream, peek_output, pop_output}
use cs144_labs.ByteStream.Validity.{IsValid, pop_output-IsValid}
use cs144_labs.ByteStream.Refinement.{contents, length-contents}
use cs144_labs.ByteStream.Queue.{peek_refines, pop_refines}
use cs144_labs.Util.Buffer.Removal.{drop-append_inside, joined}
use cs144_labs.Util.FileDescriptor.{FdWrapper, register_write, WriteResult}
use cs144_labs.Util.FileDescriptor.Rounds.{
  WritesPrefix, Refuses, write_answered, write_once_refused, Refuses-or_takes,
}
use cs144_labs.Util.UdpSocket.{Shutdown, shutdown}
use cs144_labs.Util.EventLoop.{service_count}
use cs144_labs.Socket.Rules.{
  SystemCalls, World, inbound, with_inbound, shut_inbound, after_local_write, write_local, rule_3,
}

-- A prefix of the next bytes of a stream is followed by what the stream then holds.
pub take-pop_output :
    (s : ByteStream) (len n : ℕ)
    → IsValid s
    → n ≤ length (joined (peek_output s len ∷ []))
    → take n (joined (peek_output s len ∷ [])) ++ contents (pop_output s n) ≡ contents s
take-pop_output s len n v h =
    let shown : joined (peek_output s len ∷ []) ≡ take len (contents s) =
      append-nil (peek_output s len) ∙ peek_refines len v in
    let split = take-append-drop len (contents s) in
    rw (shown, pop_refines n v)
      (ap (λ t. take n (take len (contents s)) ++ drop n t) (sym split)
        ∙ ap (◌++◌ (take n (take len (contents s)))) (
            drop-append_inside n (take len (contents s)) (drop len (contents s))
              (omega (arith, ap length shown)))
        ∙ sym (
            append_assoc (take n (take len (contents s))) (drop n (take len (contents s)))
              (drop len (contents s)))
        ∙ ap (λ t. t ++ drop len (contents s)) (take-append-drop n (take len (contents s)))
        ∙ split)

-- shutdown(2) takes nothing from what was written.
pub record IsShutdown {K : Type 0} (sys_shutdown : K → FdWrapper → Shutdown → K × Bool)
    (received : K → ℕ → List ℕ) : Type 0 where
  pub keeps :
      (k : K) (f : FdWrapper) (how : Shutdown) (fd : ℕ)
      → received (sys_shutdown k f how).0 fd ≡ received k fd

pub counter_moves : (n : ℕ) → ((n == add32 n 1) ≡ false) × ((n == add32 (add32 n 1) 1) ≡ false)
counter_moves n = (ground arith, ground arith)

module _ {K A : Type 0} (sys : SystemCalls K) (received : K → ℕ → List ℕ) where
  -- The world once bytes were moved.
  pub record Moved (w w' : World K A) : Type 0 where
    pub valid : IsValid (inbound w'.tcp)
    pub conserved :
        received w'.kernel w.thread_data.fd ++ contents (inbound w'.tcp)
        ≡ received w.kernel w.thread_data.fd ++ contents (inbound w.tcp)
    pub progress :
        min 1 (length (contents (inbound w.tcp))) + length (contents (inbound w'.tcp))
        ≤ length (contents (inbound w.tcp))
    pub shut : w'.inbound_shutdown ≡ (
        if ByteStream.eof (inbound w'.tcp) || (inbound w'.tcp).error
        then true
        else w.inbound_shutdown)
    pub serviced : (service_count (rule_3 sys) w == service_count (rule_3 sys) w') ≡ false

  -- The world with the bytes popped, before a shutdown.
  abbrev popped : World K A → FdWrapper → K → ℕ → World K A
  popped w fd kernel n = record w {
    tcp = with_inbound w.tcp (pop_output (inbound w.tcp) n);
    thread_data = fd;
    kernel = kernel;
  }

  after_local_write-Moved :
      (w : World K A) (kernel : K) (n : ℕ)
      → IsShutdown sys.sys_shutdown received
      → IsValid (inbound w.tcp)
      → received kernel w.thread_data.fd ++ contents (pop_output (inbound w.tcp) n)
        ≡ received w.kernel w.thread_data.fd ++ contents (inbound w.tcp)
      → min 1 (length (contents (inbound w.tcp))) ≤ n
      → let done = after_local_write sys w (record {
        fd = register_write w.thread_data;
        kernel = kernel;
        result = WriteResult.written n;
      }) in
        ((w' : World K A) × (done ≡ some w') × Moved w w')
        ⊎ ((done ≡ none)
            × ((sys.sys_shutdown kernel (register_write w.thread_data) Shutdown.wr).1 ≡ false))
  unfolding shutdown
  after_local_write-Moved w kernel n honest v c p =
      let s = pop_output (inbound w.tcp) n in
      let fd = register_write w.thread_data in
      let v' : IsValid s = pop_output-IsValid n v in
      let moves = counter_moves w.thread_data.write_count in
      let fewer : length (contents s) ≡ length (contents (inbound w.tcp)) - n =
        ap length (pop_refines n v) ∙ length-drop n (contents (inbound w.tcp)) in
      elim (Bool-cases (ByteStream.eof s || s.error)) [
        | inl e ↦ elim (Bool-cases (sys.sys_shutdown kernel fd Shutdown.wr).1) [
          | inr f ↦ inr (rw (e, shut_inbound, shutdown, f) refl, f)
          | inl f ↦ inl (
            record (popped w (register_write fd) (sys.sys_shutdown kernel fd Shutdown.wr).0 n) {
              inbound_shutdown = true;
            },
            rw (e, shut_inbound, shutdown, f) refl,
            record {
              valid = v';
              conserved = ap (λ t. t ++ contents s) (honest.keeps kernel fd Shutdown.wr fd.fd) ∙ c;
              progress = omega (arith, fewer, p);
              shut = rw e refl;
              serviced = moves.1;
            },
          )
        ]
        | inr e ↦ inl (
          popped w fd kernel n,
          rw e refl,
          record {
            valid = v';
            conserved = c;
            progress = omega (arith, fewer, p);
            shut = rw e refl;
            serviced = moves.0;
          },
        )
      ]

-- The call of writev(2) that the callback of rule 3 makes.
abbrev pub shown : {K A : Type 0} → World K A → List (List ℕ)
shown w = peek_output (inbound w.tcp) (min 65536 (ByteStream.buffer_size (inbound w.tcp))) ∷ []

-- A call failed: writev(2) was refused, or shutdown(2) failed after it.
pub data CallFailed {K A : Type 0} (sys : SystemCalls K) (w : World K A) : Type 0 where
  write_refused : Refuses sys.sys_writev w.kernel w.thread_data (shown w) → CallFailed sys w
  shutdown_failed :
      (sys.sys_shutdown
          (sys.sys_writev w.kernel w.thread_data (shown w)).0
          (register_write w.thread_data)
          Shutdown.wr).1
        ≡ false
      → CallFailed sys w

-- The world once the bytes of a call were taken.
write_local-Moved :
    {K A : Type 0} (sys : SystemCalls K) (received : K → ℕ → List ℕ) (w : World K A) (n : ℕ)
    → WritesPrefix sys.sys_writev received
    → IsShutdown sys.sys_shutdown received
    → IsValid (inbound w.tcp)
    → (sys.sys_writev w.kernel w.thread_data (shown w)).1 ≡ some n
    → (0 < length (joined (shown w)) → 0 < n)
    → ((w' : World K A) × (write_local sys w ≡ some w') × Moved sys received w w')
      ⊎ ((write_local sys w ≡ none) × CallFailed sys w)
unfolding write_local
write_local-Moved sys received w n honest shuts v answer more =
    let s = inbound w.tcp in
    let amount = min 65536 (ByteStream.buffer_size s) in
    let views = shown w in
    let inside = honest.prefix w.kernel w.thread_data views n answer in
    let size : length (joined views) ≡ min amount (length (contents s)) =
      ap length (append-nil (peek_output s amount) ∙ peek_refines amount v)
      ∙ length-take amount (contents s) in
    let held = length-contents s in
    let c =
      ap (λ t. t ++ contents (pop_output s n))
        (honest.delivery w.kernel w.thread_data views n answer)
      ∙ append_assoc (received w.kernel w.thread_data.fd) (take n (joined views))
          (contents (pop_output s n))
      ∙ ap (◌++◌ (received w.kernel w.thread_data.fd)) (take-pop_output s amount n v inside) in
    let room : min 1 (length (contents s)) ≤ n = ground (arith, more, size, held) in
    let written = ap (after_local_write sys w) (
      write_answered sys.sys_writev w.thread_data w.kernel views n (omega (arith, size)) answer
        inside more) in
    elim (after_local_write-Moved sys received w (sys.sys_writev w.kernel w.thread_data views).0 n
      shuts v c room) [
        | inl (w', done, moved) ↦ inl (w', written ∙ done, moved)
        | inr (done, failed) ↦ inr (written ∙ done, shutdown_failed failed)
      ]

-- On a kernel whose writev(2) and shutdown(2) may succeed or fail, and a valid inbound stream, the
-- callback of rule 3 throws only if a call fails: writev(2) fails or takes none of the bytes that wait,
-- or shutdown(2) fails after it. If it does not throw, what the application has been given and what
-- still waits are together what they were, and at least one byte is moved if one waits; the flag of the
-- shutdown is set if the stream is then at its end or in error, and otherwise stays; the inbound stream
-- stays valid; and the descriptor was written, as the event loop asks.
pub write_local_lem :
    {K A : Type 0} (sys : SystemCalls K) (received : K → ℕ → List ℕ) (w : World K A)
    → WritesPrefix sys.sys_writev received
    → IsShutdown sys.sys_shutdown received
    → IsValid (inbound w.tcp)
    → ((w' : World K A) × (write_local sys w ≡ some w') × Moved sys received w w')
      ⊎ ((write_local sys w ≡ none) × CallFailed sys w)
unfolding write_local
write_local_lem sys received w honest shuts v =
    let s = inbound w.tcp in
    let amount = min 65536 (ByteStream.buffer_size s) in
    let size : length (joined (shown w)) ≡ min amount (length (contents s)) =
      ap length (append-nil (peek_output s amount) ∙ peek_refines amount v)
      ∙ length-take amount (contents s) in
    elim (Refuses-or_takes sys.sys_writev w.kernel w.thread_data (shown w)) [
      | inl r ↦ inr (
        ap (after_local_write sys w) (
            write_once_refused sys.sys_writev w.thread_data w.kernel (shown w) (omega (arith, size))
              r),
        write_refused r,
      )
      | inr (n, answer, more) ↦ write_local-Moved sys received w n honest shuts v answer more
    ]
