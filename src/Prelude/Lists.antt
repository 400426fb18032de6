-- ===== src/Prelude/Lists.antt =====
-- Lists measured and indexed by native numbers, and the memory copies of the program.
use Prim.Native.Nat.{ℕ, zero, suc, ◌+◌, ◌-◌, ◌≤◌, ◌<◌, min}
use mathlib.Core.Path.{◌≡◌, refl, ap, ap₂}
use mathlib.Core.List.{List, [], ◌∷◌, ◌++◌}
use native.Mathlib.Omega.{arith}
use cs144_labs.Prelude.Tests.{ltb, if◌then◌else◌}

module _ {ℓ} {A : Type ℓ} where
  abbrev pub length : List A → ℕ
  length [] = 0
  length (x ∷ xs) = suc (length xs)

  abbrev pub get_or : List A → ℕ → A → A
  get_or [] i d = d
  get_or (x ∷ xs) zero d = x
  get_or (x ∷ xs) (suc i) d = get_or xs i d

  -- A write out of bounds changes nothing.
  abbrev pub set : List A → ℕ → A → List A
  set [] i v = []
  set (x ∷ xs) zero v = v ∷ xs
  set (x ∷ xs) (suc i) v = x ∷ set xs i v

  abbrev pub take : ℕ → List A → List A
  take zero xs = []
  take (suc n) [] = []
  take (suc n) (x ∷ xs) = x ∷ take n xs

  abbrev pub drop : ℕ → List A → List A
  drop zero xs = xs
  drop (suc n) [] = []
  drop (suc n) (x ∷ xs) = drop n xs

  abbrev pub replicate : ℕ → A → List A
  replicate zero a = []
  replicate (suc n) a = a ∷ replicate n a

  -- memcpy(buf + pos, src, size of src)
  pub copy_into : List A → ℕ → List A → List A
  copy_into buf pos [] = buf
  copy_into buf pos (x ∷ xs) = copy_into (set buf pos x) (suc pos) xs

  -- memcpy(out, buf + pos, n)
  abbrev pub slice : List A → ℕ → ℕ → List A
  slice buf pos n = take n (drop pos buf)

  -- f 0, f 1, and so on: n values
  pub tabulate : (ℕ → A) → ℕ → List A
  tabulate f zero = []
  tabulate f (suc n) = f 0 ∷ tabulate (λ i. f (suc i)) n

module _ {ℓ} {A : Type ℓ} where
  pub length-append : (xs ys : List A) → length (xs ++ ys) ≡ length xs + length ys
  length-append [] ys = omega arith
  length-append (x ∷ xs) ys = omega (arith, length-append xs ys)

  pub length-set : (xs : List A) (i : ℕ) (v : A) → length (set xs i v) ≡ length xs
  length-set [] i v = refl
  length-set (x ∷ xs) zero v = refl
  length-set (x ∷ xs) (suc i) v = ap suc (length-set xs i v)

  pub length-take : (n : ℕ) (xs : List A) → length (take n xs) ≡ min n (length xs)
  length-take zero xs = omega arith
  length-take (suc n) [] = omega arith
  length-take (suc n) (x ∷ xs) = omega (arith, length-take n xs)

  pub length-drop : (n : ℕ) (xs : List A) → length (drop n xs) ≡ length xs - n
  length-drop zero xs = omega arith
  length-drop (suc n) [] = omega arith
  length-drop (suc n) (x ∷ xs) = omega (arith, length-drop n xs)

  pub length-replicate : (n : ℕ) (a : A) → length (replicate n a) ≡ n
  length-replicate zero a = refl
  length-replicate (suc n) a = ap suc (length-replicate n a)

  pub length-copy_into :
      (buf : List A) (pos : ℕ) (src : List A) → length (copy_into buf pos src) ≡ length buf
  unfolding copy_into
  length-copy_into buf pos [] = refl
  length-copy_into buf pos (x ∷ xs) =
      omega (arith, length-copy_into (set buf pos x) (suc pos) xs, length-set buf pos x)

  pub length-slice :
      (buf : List A) (pos n : ℕ) → length (slice buf pos n) ≡ min n (length buf - pos)
  length-slice buf pos n = omega (arith, length-take n (drop pos buf), length-drop pos buf)

  pub length-tabulate : (f : ℕ → A) (n : ℕ) → length (tabulate f n) ≡ n
  unfolding tabulate
  length-tabulate f zero = refl
  length-tabulate f (suc n) = ap suc (length-tabulate (λ i. f (suc i)) n)

  pub tabulate-zero : (f : ℕ → A) → tabulate f 0 ≡ []
  unfolding tabulate
  tabulate-zero f = refl

  pub take_all : (n : ℕ) (xs : List A) → length xs ≤ n → take n xs ≡ xs
  take_all zero [] h = refl
  take_all zero (x ∷ xs) h = absurd (omega arith)
  take_all (suc n) [] h = refl
  take_all (suc n) (x ∷ xs) h = ap (◌∷◌ x) (take_all n xs (omega arith))

  pub take-append-drop : (n : ℕ) (xs : List A) → take n xs ++ drop n xs ≡ xs
  take-append-drop zero xs = refl
  take-append-drop (suc n) [] = refl
  take-append-drop (suc n) (x ∷ xs) = ap (◌∷◌ x) (take-append-drop n xs)

module _ {ℓ} {A : Type ℓ} (d : A) where
  pub get_or_beyond : (xs : List A) (i : ℕ) → length xs ≤ i → get_or xs i d ≡ d
  get_or_beyond [] i h = refl
  get_or_beyond (x ∷ xs) zero h = absurd (omega arith)
  get_or_beyond (x ∷ xs) (suc i) h = get_or_beyond xs i (omega arith)

  get_or_suc :
      (x : A) (xs : List A) (i : ℕ)
      → get_or (x ∷ xs) i d ≡ (if ltb 0 i then get_or xs (i - 1) d else x)
  get_or_suc x xs zero = refl
  get_or_suc x xs (suc i) = ground arith

  pub get_or-append :
      (xs ys : List A) (i : ℕ)
      → get_or (xs ++ ys) i d
        ≡ (if ltb i (length xs) then get_or xs i d else get_or ys (i - length xs) d)
  get_or-append [] ys i = ground (arith)
  get_or-append (x ∷ xs) ys zero = ground (arith)
  get_or-append (x ∷ xs) ys (suc i) = ground (arith, get_or-append xs ys i)

  pub get_or-take :
      (n : ℕ) (xs : List A) (i : ℕ)
      → get_or (take n xs) i d ≡ (if ltb i n then get_or xs i d else d)
  get_or-take zero xs i = ground arith
  get_or-take (suc n) [] i = ground arith
  get_or-take (suc n) (x ∷ xs) zero = ground arith
  get_or-take (suc n) (x ∷ xs) (suc i) = ground (arith, get_or-take n xs i)

  pub get_or-drop : (n : ℕ) (xs : List A) (i : ℕ) → get_or (drop n xs) i d ≡ get_or xs (n + i) d
  get_or-drop zero xs i = ground arith
  get_or-drop (suc n) [] i = refl
  get_or-drop (suc n) (x ∷ xs) i = ground (arith, get_or-drop n xs i)

  pub get_or-set :
      (xs : List A) (i : ℕ) (v : A) (j : ℕ)
      → i < length xs
      → get_or (set xs i v) j d
        ≡ (if ltb i j then get_or xs j d else (if ltb j i then get_or xs j d else v))
  get_or-set [] i v j h = absurd (omega arith)
  get_or-set (x ∷ xs) zero v zero h = refl
  get_or-set (x ∷ xs) zero v (suc j) h = ground arith
  get_or-set (x ∷ xs) (suc i) v zero h = ground arith
  get_or-set (x ∷ xs) (suc i) v (suc j) h = ground (arith, get_or-set xs i v j)

  pub get_or-tabulate : (f : ℕ → A) (n i : ℕ) → i < n → get_or (tabulate f n) i d ≡ f i
  unfolding tabulate
  get_or-tabulate f zero i h = absurd (omega arith)
  get_or-tabulate f (suc n) zero h = refl
  get_or-tabulate f (suc n) (suc i) h = get_or-tabulate (λ k. f (suc k)) n i (omega arith)

  -- Two lists with the same entries are equal.
  pub list_ext :
      (xs ys : List A)
      → length xs ≡ length ys
      → ((i : ℕ) → i < length xs → get_or xs i d ≡ get_or ys i d)
      → xs ≡ ys
  list_ext [] [] e h = refl
  list_ext [] (y ∷ ys) e h = absurd (omega arith)
  list_ext (x ∷ xs) [] e h = absurd (omega arith)
  list_ext (x ∷ xs) (y ∷ ys) e h =
      ap₂ ◌∷◌ (h 0 (omega arith)) (list_ext xs ys (omega arith) (λ i p. h (suc i) (omega arith)))

module _ {A : Type 0} (d : A) where
  -- A copy that stays inside the buffer replaces its range, and nothing else.
  pub get_or-copy_into :
      (buf : List A) (pos : ℕ) (src : List A) (i : ℕ)
      → pos + length src ≤ length buf
      → get_or (copy_into buf pos src) i d ≡ (
          if ltb i pos
          then get_or buf i d
          else (if ltb i (pos + length src) then get_or src (i - pos) d else get_or buf i d))
  unfolding copy_into
  get_or-copy_into buf pos [] i h = ground arith
  get_or-copy_into buf pos (x ∷ xs) i h = ground (
    arith,
    get_or-copy_into (set buf pos x) (suc pos) xs i,
    get_or-set d buf pos x i,
    length-set buf pos x,
    get_or_suc d x xs (i - pos),
  )
