-- ===== src/Util/FileDescriptor/Rounds.antt =====
-- One call of writev(2) in the loop of `write`, and what writev(2) documents.
use cs144_labs.Prelude.{some_inj}
use cs144_labs.Prelude.{
  ℕ, zero, suc, ◌-◌, ◌^◌, ◌≤◌, ◌<◌, ◌≡◌, ◌≢◌, ◌⊎◌, inl, inr, refl, sym, ap, ◌∙◌, Bool, true, false,
  not, ◌&&◌, Option, none, some, List, [], ◌∷◌, ◌++◌, arith, ltb, ◌==◌, if◌then◌else◌, le→ltb,
  lt→ltb, length, take, drop, length-append, add64, sub64,
}
use native.Mathlib.Decide.{dec_lt}
use cs144_labs.Util.Buffer.{view_size, remove_prefix_view}
use cs144_labs.Util.Buffer.Removal.{drop-append_inside, drop-append_beyond, joined, view_size_lem}
use cs144_labs.Util.FileDescriptor.{
  FdWrapper, register_write, throw, WriteResult, write_from, write,
}

-- The views without a prefix.
abbrev Left : List (List ℕ) → ℕ → Type 0
Left vs n =
    (rest : List (List ℕ)) × (remove_prefix_view vs n ≡ some rest)
    × (joined rest ≡ drop n (joined vs))

Left-inside : (v : List ℕ) (vs : List (List ℕ)) (n : ℕ) → 0 < n → n < length v → Left (v ∷ vs) n
unfolding remove_prefix_view
Left-inside v vs n p h =
    let e : (n == 0) ≡ false = ground arith in
    (
      drop n v ∷ vs,
      rw (e, lt→ltb n (length v) h) refl,
      sym (drop-append_inside n v (joined vs) (omega arith)),
    )

Left-beyond :
    (v : List ℕ) (vs : List (List ℕ)) (n : ℕ)
    → 0 < n
    → n < 2 ^ 64
    → length v ≤ n
    → Left vs (n - length v)
    → Left (v ∷ vs) n
unfolding remove_prefix_view
Left-beyond v vs n p w h (rest, made, left) =
    let e : (n == 0) ≡ false = ground arith in
    let m : sub64 n (length v) ≡ n - length v = omega arith in
    (rest, rw (e, le→ltb n (length v) h, m) made, left ∙ sym (drop-append_beyond n v (joined vs) h))

-- A prefix that the views have is removed.
pub remove_prefix_view_lem :
    (vs : List (List ℕ)) (n : ℕ) → n < 2 ^ 64 → n ≤ length (joined vs) → Left vs n
unfolding remove_prefix_view
remove_prefix_view_lem [] zero w h = ([], refl, refl)
remove_prefix_view_lem [] (suc n) w h = absurd (omega arith)
remove_prefix_view_lem (v ∷ vs) zero w h = (v ∷ vs, refl, refl)
remove_prefix_view_lem (v ∷ vs) (suc n) w h = elim (dec_lt (suc n) (length v)) [
  | yes p ↦ Left-inside v vs (suc n) (omega arith) p
  | no p ↦ Left-beyond v vs (suc n) (omega arith) w (omega arith) (
      remove_prefix_view_lem vs (suc n - length v) (omega arith)
        (omega (arith, length-append v (joined vs))))
]

-- What writev(2) documents, whether or not a call succeeds. `received` is what the other side of each
-- descriptor has been given: a call that fails gives it nothing, one that takes a number of bytes gives
-- it the first of them.
pub record WritesPrefix {K : Type 0} (sys_writev : K → FdWrapper → List (List ℕ) → K × Option ℕ)
    (received : K → ℕ → List ℕ) : Type 0 where
  pub refused :
      (k : K) (f : FdWrapper) (vs : List (List ℕ))
      → (sys_writev k f vs).1 ≡ none
      → received (sys_writev k f vs).0 f.fd ≡ received k f.fd
  pub prefix :
      (k : K) (f : FdWrapper) (vs : List (List ℕ)) (n : ℕ)
      → (sys_writev k f vs).1 ≡ some n
      → n ≤ length (joined vs)
  pub delivery :
      (k : K) (f : FdWrapper) (vs : List (List ℕ)) (n : ℕ)
      → (sys_writev k f vs).1 ≡ some n
      → received (sys_writev k f vs).0 f.fd ≡ received k f.fd ++ take n (joined vs)

-- A writev(2) of which every call succeeds: it takes a prefix of the bytes, which is not empty unless
-- they are.
pub record IsWritev {K : Type 0} (sys_writev : K → FdWrapper → List (List ℕ) → K × Option ℕ)
    (received : K → ℕ → List ℕ) : Type 0 where
  pub taken : (k : K) (f : FdWrapper) (vs : List (List ℕ)) → ℕ
  pub answer :
      (k : K) (f : FdWrapper) (vs : List (List ℕ)) → (sys_writev k f vs).1 ≡ some (taken k f vs)
  pub prefix : (k : K) (f : FdWrapper) (vs : List (List ℕ)) → taken k f vs ≤ length (joined vs)
  pub progress :
      (k : K) (f : FdWrapper) (vs : List (List ℕ)) → 0 < length (joined vs) → 0 < taken k f vs
  pub delivery :
      (k : K) (f : FdWrapper) (vs : List (List ℕ))
      → received (sys_writev k f vs).0 f.fd ≡ received k f.fd ++ take (taken k f vs) (joined vs)
  pub apart :
      (k : K) (f : FdWrapper) (vs : List (List ℕ)) (fd : ℕ)
      → fd ≢ f.fd
      → received (sys_writev k f vs).0 fd ≡ received k fd

pub always-WritesPrefix :
    {K : Type 0} (sys_writev : K → FdWrapper → List (List ℕ) → K × Option ℕ)
    (received : K → ℕ → List ℕ)
    → IsWritev sys_writev received
    → WritesPrefix sys_writev received
always-WritesPrefix {K} sys_writev received w = record {
  refused = λ k f vs e. absurd (some-ne-none (sym (w.answer k f vs) ∙ e));
  prefix = λ k f vs n e. omega (arith, same k f vs n e, w.prefix k f vs);
  delivery = λ k f vs n e.
      w.delivery k f vs ∙ ap (λ t. received k f.fd ++ take t (joined vs)) (same k f vs n e);
}
  where
    some-ne-none : {n : ℕ} → some n ≢ none
    some-ne-none e = cc

    same :
        (k : K) (f : FdWrapper) (vs : List (List ℕ)) (n : ℕ)
        → (sys_writev k f vs).1 ≡ some n
        → w.taken k f vs ≡ n
    same k f vs n e = some_inj (sym (w.answer k f vs) ∙ e)

module _ {K : Type 0} (sys_writev : K → FdWrapper → List (List ℕ) → K × Option ℕ) where
  -- A call on which `write` throws: it fails, or takes none of the bytes that there are.
  abbrev pub Refuses : K → FdWrapper → List (List ℕ) → Type 0
  Refuses k f vs =
      ((sys_writev k f vs).1 ≡ none) ⊎ (((sys_writev k f vs).1 ≡ some 0) × (0 < length (joined vs)))

  -- One round of the loop.
  pub write_round :
      (fuel : ℕ) (f : FdWrapper) (k : K) (vs rest : List (List ℕ)) (write_all : Bool) (total n : ℕ)
      → length (joined vs) < 2 ^ 64
      → (sys_writev k f vs).1 ≡ some n
      → n ≤ length (joined vs)
      → (0 < length (joined vs) → 0 < n)
      → remove_prefix_view vs n ≡ some rest
      → write_from sys_writev (suc fuel) f k vs write_all total ≡ (
          if write_all && not (view_size rest == 0)
          then write_from sys_writev fuel
              (register_write f)
              (sys_writev k f vs).0
              rest
              write_all
              (add64 total n)
          else record {
            fd = register_write f;
            kernel = (sys_writev k f vs).0;
            result = WriteResult.written (add64 total n);
          })
  unfolding write_from
  write_round fuel f k vs rest write_all total n h answer inside more made =
      let size : view_size vs ≡ length (joined vs) = view_size_lem vs h in
      let some_taken : ((n == 0) && not (view_size vs == 0)) ≡ false =
        rw size (ground (arith, more)) in
      let fits : ltb (view_size vs) n ≡ false =
        le→ltb (view_size vs) n (omega (arith, size, inside)) in
      rw (write_from, answer, some_taken, fits, made) refl

  pub write_refused :
      (fuel : ℕ) (f : FdWrapper) (k : K) (vs : List (List ℕ)) (write_all : Bool) (total : ℕ)
      → length (joined vs) < 2 ^ 64
      → Refuses k f vs
      → write_from sys_writev (suc fuel) f k vs write_all total ≡ throw f (sys_writev k f vs).0
  unfolding write_from
  write_refused fuel f k vs write_all total h (inl e) = rw (write_from, e) refl
  write_refused fuel f k vs write_all total h (inr (e, some_left)) =
      let size : view_size vs ≡ length (joined vs) = view_size_lem vs h in
      let nothing : ((◌==◌ 0 0) && not (view_size vs == 0)) ≡ true = rw size (ground arith) in
      rw (write_from, e, nothing) refl

  -- A call that may write a part ends, and the other side has what it says.
  pub write_answered :
      (f : FdWrapper) (k : K) (vs : List (List ℕ)) (n : ℕ)
      → length (joined vs) < 2 ^ 64
      → (sys_writev k f vs).1 ≡ some n
      → n ≤ length (joined vs)
      → (0 < length (joined vs) → 0 < n)
      → write sys_writev f k vs false ≡ record {
        fd = register_write f;
        kernel = (sys_writev k f vs).0;
        result = WriteResult.written n;
      }
  write_answered f k vs n h answer inside more =
      let (rest, made, left) = remove_prefix_view_lem vs n (omega (arith, inside)) inside in
      let e : add64 0 n ≡ n = omega (arith, inside) in
      write_round (view_size vs) f k vs rest false 0 n h answer inside more made
      ∙ ap
          (λ t. record {
            fd = register_write f;
            kernel = (sys_writev k f vs).0;
            result = WriteResult.written t;
          })
          e

  pub write_once_refused :
      (f : FdWrapper) (k : K) (vs : List (List ℕ))
      → length (joined vs) < 2 ^ 64
      → Refuses k f vs
      → write sys_writev f k vs false ≡ throw f (sys_writev k f vs).0
  write_once_refused f k vs h r = write_refused (view_size vs) f k vs false 0 h r

  -- A call is refused, or it takes some of the bytes that there are.
  pub Refuses-or_takes :
      (k : K) (f : FdWrapper) (vs : List (List ℕ))
      → Refuses k f vs
        ⊎ ((n : ℕ) × ((sys_writev k f vs).1 ≡ some n) × (0 < length (joined vs) → 0 < n))
  Refuses-or_takes k f vs = by_answer (sys_writev k f vs).1 refl
    where
      by_answer :
          (o : Option ℕ)
          → (sys_writev k f vs).1 ≡ o
          → Refuses k f vs
            ⊎ ((n : ℕ) × ((sys_writev k f vs).1 ≡ some n) × (0 < length (joined vs) → 0 < n))
      by_answer none e = inl (inl e)
      by_answer (some zero) e = elim (dec_lt 0 (length (joined vs))) [
        | yes p ↦ inl (inr (e, p))
        | no p ↦ inr (0, e, λ h. absurd (p h))
      ]
      by_answer (some (suc n)) e = inr (suc n, e, λ h. omega arith)

module _ {K : Type 0} (sys_writev : K → FdWrapper → List (List ℕ) → K × Option ℕ)
    (received : K → ℕ → List ℕ) where
  pub write_once :
      (w : IsWritev sys_writev received) (f : FdWrapper) (k : K) (vs : List (List ℕ))
      → length (joined vs) < 2 ^ 64
      → write sys_writev f k vs false ≡ record {
        fd = register_write f;
        kernel = (sys_writev k f vs).0;
        result = WriteResult.written (w.taken k f vs);
      }
  write_once w f k vs h =
      write_answered sys_writev f k vs (w.taken k f vs) h (w.answer k f vs) (w.prefix k f vs)
        (w.progress k f vs)
