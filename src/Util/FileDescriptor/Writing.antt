-- ===== src/Util/FileDescriptor/Writing.antt =====
-- The loop of `write`, whatever the kernel answers to its calls of writev(2).
use cs144_labs.Prelude.{
  ℕ, zero, suc, ◌+◌, ◌-◌, ◌^◌, ◌≤◌, ◌<◌, ◌≡◌, ◌⊎◌, inl, inr, refl, sym, ap, ◌∙◌, true, false,
  Option, List, [], ◌∷◌, ◌++◌, arith, ◌==◌, length, take, drop, length-drop, take-append-drop,
  add64,
}
use mathlib.Core.List.{append_assoc, append-nil}
use native.Mathlib.Decide.{dec_lt}
use cs144_labs.Util.Buffer.{view_size}
use cs144_labs.Util.Buffer.Removal.{drop-drop, joined, view_size_lem}
use cs144_labs.Util.FileDescriptor.{
  FdWrapper, register_write, throw, WriteResult, WriteState, write_from, write,
}
use cs144_labs.Util.FileDescriptor.Rounds.{
  WritesPrefix, Refuses, remove_prefix_view_lem, write_round, write_refused, Refuses-or_takes,
}

nothing {ℓ} : {A : Type ℓ} (m : ℕ) → take {A = A} m [] ≡ []
nothing zero = refl
nothing (suc m) = refl

take_add {ℓ} :
    {A : Type ℓ} (n m : ℕ) (xs : List A) → take n xs ++ take m (drop n xs) ≡ take (n + m) xs
take_add zero m xs = ap (λ k. take k xs) (omega arith)
take_add (suc n) m [] =
    let e : suc (n + m) ≡ suc n + m = omega arith in nothing m ∙ ap (λ k. take k []) e
take_add (suc n) m (x ∷ xs) =
    let e : suc (n + m) ≡ suc n + m = omega arith in
    ap (◌∷◌ x) (take_add n m xs) ∙ ap (λ k. take k (x ∷ xs)) e

module _ {K : Type 0} (sys_writev : K → FdWrapper → List (List ℕ) → K × Option ℕ)
    (received : K → ℕ → List ℕ) where
  -- The bytes that wait are written, and those before them are counted.
  pub record Finished (fd : ℕ) (k : K) (bytes : List ℕ) (total : ℕ) (s : WriteState K)
      : Type 0 where
    pub counted : s.result ≡ WriteResult.written (total + length bytes)
    pub delivered : received s.kernel fd ≡ received k fd ++ bytes

  -- The write threw: the other side has the first `taken` bytes, and the next call was refused.
  pub record Broken (fd : ℕ) (k : K) (bytes : List ℕ) (s : WriteState K) : Type 0 where
    pub thrown : s.result ≡ WriteResult.thrown
    pub taken : ℕ
    pub inside : taken ≤ length bytes
    pub delivered : received s.kernel fd ≡ received k fd ++ take taken bytes
    pub before : K
    pub wrapper : FdWrapper
    pub views : List (List ℕ)
    pub same_fd : wrapper.fd ≡ fd
    pub left : joined views ≡ drop taken bytes
    pub called : s.kernel ≡ (sys_writev before wrapper views).0
    pub refused : Refuses sys_writev before wrapper views

  abbrev Outcome : ℕ → K → List ℕ → ℕ → WriteState K → Type 0
  Outcome fd k bytes total s = Finished fd k bytes total s ⊎ Broken fd k bytes s

  refused-Broken :
      (w : WritesPrefix sys_writev received) (f : FdWrapper) (k : K) (vs : List (List ℕ))
      → Refuses sys_writev k f vs
      → Broken f.fd k (joined vs) (throw f (sys_writev k f vs).0)
  refused-Broken w f k vs r = record {
    thrown = refl;
    taken = 0;
    inside = omega arith;
    delivered = nothing_given r;
    before = k;
    wrapper = f;
    views = vs;
    same_fd = refl;
    left = refl;
    called = refl;
    refused = r;
  }
    where
      nothing_given :
          Refuses sys_writev k f vs → received (sys_writev k f vs).0 f.fd ≡ received k f.fd ++ []
      nothing_given (inl e) = w.refused k f vs e ∙ sym (append-nil (received k f.fd))
      nothing_given (inr (e, some_left)) = w.delivery k f vs 0 e

  -- The outcome of the rest is that of the whole, once the first bytes are taken.
  after_taking :
      (fd : ℕ) (k k' : K) (bytes rest : List ℕ) (total n : ℕ) (s : WriteState K)
      → n ≤ length bytes
      → rest ≡ drop n bytes
      → received k' fd ≡ received k fd ++ take n bytes
      → Outcome fd k' rest (total + n) s
      → Outcome fd k bytes total s
  after_taking fd k k' bytes rest total n s h left given (inl d) =
      let len : length rest ≡ length bytes - n = ap length left ∙ length-drop n bytes in
      inl (record {
        counted = d.counted ∙ ap WriteResult.written (omega (arith, len));
        delivered =
            d.delivered
            ∙ ap (λ t. t ++ rest) given
            ∙ append_assoc (received k fd) (take n bytes) rest
            ∙ ap (◌++◌ (received k fd)) (ap (◌++◌ (take n bytes)) left ∙ take-append-drop n bytes);
      })
  after_taking fd k k' bytes rest total n s h left given (inr b) =
      let len : length rest ≡ length bytes - n = ap length left ∙ length-drop n bytes in
      inr (record {
        thrown = b.thrown;
        taken = n + b.taken;
        inside = omega (arith, len, b.inside);
        delivered =
            b.delivered
            ∙ ap (λ t. t ++ take b.taken rest) given
            ∙ append_assoc (received k fd) (take n bytes) (take b.taken rest)
            ∙ ap (◌++◌ (received k fd))
                (ap (λ t. take n bytes ++ take b.taken t) left ∙ take_add n b.taken bytes);
        before = b.before;
        wrapper = b.wrapper;
        views = b.views;
        same_fd = b.same_fd;
        left = b.left ∙ ap (drop b.taken) left ∙ drop-drop n b.taken bytes;
        called = b.called;
        refused = b.refused;
      })

  write_from-Outcome :
      (w : WritesPrefix sys_writev received) (fuel : ℕ) (f : FdWrapper) (k : K) (vs : List (List ℕ))
      (total : ℕ)
      → length (joined vs) < fuel
      → total + length (joined vs) < 2 ^ 64
      → Outcome f.fd k (joined vs) total (write_from sys_writev fuel f k vs true total)
  write_from-Outcome w zero f k vs total h b = absurd (omega arith)
  write_from-Outcome w (suc fuel) f k vs total h b = elim (Refuses-or_takes sys_writev k f vs) [
    | inl r ↦
        rw (write_refused sys_writev fuel f k vs true total (omega arith) r)
          (inr (refused-Broken w f k vs r))
    | inr (n, answer, more) ↦
        let inside = w.prefix k f vs n answer in
        let (rest, made, left) = remove_prefix_view_lem vs n (omega (arith, inside)) inside in
        let len : length (joined rest) ≡ length (joined vs) - n =
          ap length left ∙ length-drop n (joined vs) in
        let size : view_size rest ≡ length (joined rest) =
          view_size_lem rest (omega (arith, len)) in
        let sum : add64 total n ≡ total + n = omega (arith, inside) in
        let k' = (sys_writev k f vs).0 in
        let round =
          write_round sys_writev fuel f k vs rest true total n (omega arith) answer inside more
            made in
        let given = w.delivery k f vs n answer in
        elim (dec_lt 0 (length (joined rest))) [
          | no p ↦
              let e : view_size rest ≡ 0 = omega (arith, size) in
              rw (round, e, sum)
                (after_taking f.fd k k' (joined vs) (joined rest) total n _ inside left given (
                  inl (record {
                    counted = ap WriteResult.written (omega arith);
                    delivered =
                        sym (append-nil (received k' f.fd))
                        ∙ ap (◌++◌ (received k' f.fd)) (sym (empty (joined rest) (omega arith)));
                  })))
          | yes p ↦
              let e : (view_size rest == 0) ≡ false = rw size (ground arith) in
              rw (round, e, sum)
                (after_taking f.fd k k' (joined vs) (joined rest) total n _ inside left given (
                  write_from-Outcome w fuel (register_write f) k' rest (total + n)
                    (omega (arith, len, more)) (omega (arith, len))))
        ]
  ]
    where
      empty : (xs : List ℕ) → length xs ≡ 0 → xs ≡ []
      empty [] e = refl
      empty (x ∷ xs) e = absurd (omega arith)

-- While the bytes can be counted in 64 bits, a write of everything ends, whatever parts of the bytes
-- each call of writev(2) takes and whether or not it succeeds. Either it returns the number of bytes,
-- and the other side has been given exactly these bytes in order; or it throws, the other side has been
-- given a prefix of them, and the last call, with the bytes after this prefix, failed or took none of
-- them though there were some.
pub write_lem :
    {K : Type 0} (sys_writev : K → FdWrapper → List (List ℕ) → K × Option ℕ)
    (received : K → ℕ → List ℕ) (f : FdWrapper) (k : K) (vs : List (List ℕ))
    → WritesPrefix sys_writev received
    → length (joined vs) < 2 ^ 64
    → let s = write sys_writev f k vs true in
      ((s.result ≡ WriteResult.written (length (joined vs)))
        × (received s.kernel f.fd ≡ received k f.fd ++ joined vs))
      ⊎ Broken sys_writev received f.fd k (joined vs) s
write_lem sys_writev received f k vs w h =
    let size = view_size_lem vs h in
    elim (write_from-Outcome sys_writev received w (suc (view_size vs)) f k vs 0
      (omega (arith, size)) (omega arith)) [
        | inl done ↦ inl (done.counted ∙ ap WriteResult.written (omega arith), done.delivered)
        | inr broken ↦ inr broken
      ]
