-- ===== src/Util/Buffer/Removal.antt =====
-- What is left of a string of several parts when its first bytes are removed.
use cs144_labs.Prelude.{
  ℕ, zero, suc, ◌+◌, ◌-◌, ◌^◌, ◌≤◌, ◌<◌, ◌≡◌, ◌⊎◌, inl, inr, refl, sym, ap, ◌∙◌, true, false,
  Option, none, some, List, [], ◌∷◌, ◌++◌, arith, ltb, ◌==◌, lt→ltb, le→ltb, ==_iff, Bool-cases,
  if_false, some_inj, length, drop, length-append, length-drop, add64, sub64,
}
use mathlib.Core.List.{append_assoc, append-nil}
use native.Mathlib.Decide.{dec_lt}
use cs144_labs.Util.Buffer.{
  Buffer, str, release, remove_prefix, concatenate_from, concatenate, size_from, size,
  remove_prefix_list, view_list, view_size_from, view_size, remove_prefix_view,
}

module _ {ℓ} {A : Type ℓ} where
  pub drop-append_inside :
      (n : ℕ) (xs ys : List A) → n ≤ length xs → drop n (xs ++ ys) ≡ drop n xs ++ ys
  drop-append_inside zero xs ys h = refl
  drop-append_inside (suc n) [] ys h = absurd (omega arith)
  drop-append_inside (suc n) (x ∷ xs) ys h = drop-append_inside n xs ys (omega arith)

  pub drop-append_beyond :
      (n : ℕ) (xs ys : List A) → length xs ≤ n → drop n (xs ++ ys) ≡ drop (n - length xs) ys
  drop-append_beyond n [] ys h = ap (λ k. drop k ys) (omega arith)
  drop-append_beyond zero (x ∷ xs) ys h = absurd (omega arith)
  drop-append_beyond (suc n) (x ∷ xs) ys h =
      drop-append_beyond n xs ys (omega arith) ∙ ap (λ k. drop k ys) (omega arith)

  drop_nil : (n : ℕ) → let none_of : List A = [] in drop n none_of ≡ none_of
  drop_nil zero = refl
  drop_nil (suc n) = refl

  pub drop-drop : (m n : ℕ) (xs : List A) → drop n (drop m xs) ≡ drop (m + n) xs
  drop-drop zero n xs = ap (λ k. drop k xs) (omega arith)
  drop-drop (suc m) n [] = drop_nil n ∙ sym (drop_nil (suc m + n))
  drop-drop (suc m) n (x ∷ xs) =
      let e : suc (m + n) ≡ suc m + n = omega arith in
      drop-drop m n xs ∙ ap (λ k. drop k (x ∷ xs)) e

-- The offset of a buffer is inside its string, whose length is a word.
pub record IsValid (b : Buffer) : Type 0 where
  pub inside :
      (s : List ℕ) → b.storage ≡ some s → (b.starting_offset ≤ length s) × (length s < 2 ^ 64)

-- All buffers of a list are valid.
pub data AllValid : List Buffer → Type 0 where
  none_left : AllValid []
  also : {b : Buffer} {bs : List Buffer} → IsValid b → AllValid bs → AllValid (b ∷ bs)

-- The bytes of a list of views, and of a list of buffers.
abbrev pub joined : List (List ℕ) → List ℕ
joined [] = []
joined (v ∷ vs) = v ++ joined vs

abbrev pub contents : List Buffer → List ℕ
contents [] = []
contents (b ∷ bs) = str b ++ contents bs

concatenate_from_lem :
    (ret : List ℕ) (bs : List Buffer) → concatenate_from ret bs ≡ ret ++ contents bs
concatenate_from_lem ret [] = sym (append-nil ret)
concatenate_from_lem ret (b ∷ bs) =
    concatenate_from_lem (ret ++ str b) bs ∙ append_assoc ret (str b) (contents bs)

-- `concatenate` gives the bytes of the buffers in order.
concatenate_lem : (bs : List Buffer) → concatenate bs ≡ contents bs
concatenate_lem bs = concatenate_from_lem [] bs

pub view_size_from_lem :
    (ret : ℕ) (vs : List (List ℕ))
    → ret < 2 ^ 64
    → view_size_from ret vs ≡ add64 ret (length (joined vs))
view_size_from_lem ret [] h = omega arith
view_size_from_lem ret (v ∷ vs) h =
    let later = view_size_from_lem (add64 ret (length v)) vs (omega arith) in
    omega (arith, later, length-append v (joined vs))

-- What `BufferViewList::size` counts, while the total is a word.
pub view_size_lem :
    (vs : List (List ℕ)) → length (joined vs) < 2 ^ 64 → view_size vs ≡ length (joined vs)
view_size_lem vs h = omega (arith, view_size_from_lem 0 vs (omega arith))

-- The views of a buffer list show its bytes.
view_list_lem : (bs : List Buffer) → joined (view_list bs) ≡ contents bs
view_list_lem [] = refl
view_list_lem (b ∷ bs) = ap (◌++◌ (str b)) (view_list_lem bs)

release_lem :
    (s : List ℕ) (offset : ℕ)
    → offset ≤ length s
    → length s < 2 ^ 64
    → let b : Buffer = record { storage = some s; starting_offset = offset } in
      (str (release b) ≡ drop offset s) × IsValid (release b)
unfolding release str
release_lem s offset h w = elim (Bool-cases (offset == length s)) [
  | inl e ↦
      let n : offset ≡ length s = (==_iff offset (length s)).0 e in
      (rw e (sym (nothing_left s offset (omega (arith, n)))), rw e (record { inside = λ t p. cc }))
  | inr e ↦ (rw e refl, rw e (record { inside = λ t p. rw (sym (some_inj p)) (h, w) }))
]
  where
    nothing_left : (t : List ℕ) (k : ℕ) → length t ≤ k → drop k t ≡ []
    nothing_left [] zero p = refl
    nothing_left [] (suc k) p = refl
    nothing_left (x ∷ t) zero p = absurd (omega arith)
    nothing_left (x ∷ t) (suc k) p = nothing_left t k (omega arith)

-- A prefix that a buffer has is removed.
abbrev Removes : Buffer → ℕ → Type 0
Removes b n = (b' : Buffer) × (remove_prefix b n ≡ some b') × (str b' ≡ drop n (str b)) × IsValid b'

remove_from_storage :
    (storage : Option (List ℕ)) (offset n : ℕ)
    → let b : Buffer = record { storage = storage; starting_offset = offset } in
      IsValid b → n ≤ length (str b) → Removes b n
unfolding remove_prefix release str
remove_from_storage none offset n v h =
    let e : n ≡ 0 = omega arith in
    (
      record { storage = none; starting_offset = add64 offset n },
      if_false _ _ (le→ltb 0 n (omega arith)),
      sym (drop_nil n),
      record { inside = λ s p. cc },
    )
remove_from_storage (some s) offset n v h =
    let (inside, word) = v.inside s refl in
    let sum : add64 offset n ≡ offset + n = omega (arith, length-drop offset s) in
    let (shown, valid) = release_lem s (offset + n) (omega (arith, length-drop offset s)) word in
    (
      release (record { storage = some s; starting_offset = offset + n }),
      if_false _ _ (le→ltb (length (drop offset s)) n h)
          ∙ ap (λ t. some (release (record { storage = some s; starting_offset = t }))) sum,
      shown ∙ sym (drop-drop offset n s),
      valid,
    )

remove_prefix_lem : (b : Buffer) (n : ℕ) → IsValid b → n ≤ length (str b) → Removes b n
remove_prefix_lem b n v h = remove_from_storage b.storage b.starting_offset n v h

-- What both lists of parts do when a prefix is removed.
record Removed (bs : List Buffer) (n : ℕ) : Type 0 where
  left : List Buffer
  removed : remove_prefix_list bs n ≡ some left
  rest : contents left ≡ drop n (contents bs)
  valid : AllValid left
  viewed : remove_prefix_view (view_list bs) n ≡ some (view_list left)

remove_nothing : (bs : List Buffer) → AllValid bs → Removed bs 0
unfolding remove_prefix_list remove_prefix_view
remove_nothing [] v = record { left = []; removed = refl; rest = refl; valid = v; viewed = refl }
remove_nothing (b ∷ bs) v = record {
  left = b ∷ bs;
  removed = refl;
  rest = refl;
  valid = v;
  viewed = refl;
}

-- A prefix shorter than the first part.
remove_inside :
    (b : Buffer) (bs : List Buffer) (n : ℕ)
    → IsValid b
    → AllValid bs
    → 0 < n
    → n < length (str b)
    → Removed (b ∷ bs) n
unfolding remove_prefix_list remove_prefix_view
remove_inside b bs n v vs p h =
    let (b', made, shown, valid) = remove_prefix_lem b n v (omega arith) in
    let e : (n == 0) ≡ false = ground arith in
    let l : ltb n (length (str b)) ≡ true = lt→ltb n (length (str b)) h in
    record {
      left = b' ∷ bs;
      removed = rw (e, l, made) refl;
      rest =
          ap (λ t. t ++ contents bs) shown
          ∙ sym (drop-append_inside n (str b) (contents bs) (omega arith));
      valid = also valid vs;
      viewed = rw (e, l, shown) refl;
    }

-- A prefix that takes the first part whole.
remove_first :
    (b : Buffer) (bs : List Buffer) (n : ℕ)
    → n < 2 ^ 64
    → 0 < n
    → length (str b) ≤ n
    → Removed bs (n - length (str b))
    → Removed (b ∷ bs) n
unfolding remove_prefix_list remove_prefix_view
remove_first b bs n w p h r =
    let e : (n == 0) ≡ false = ground arith in
    let l : ltb n (length (str b)) ≡ false = le→ltb n (length (str b)) h in
    let m : sub64 n (length (str b)) ≡ n - length (str b) = omega arith in
    record {
      left = r.left;
      removed = rw (e, l, m) r.removed;
      rest = r.rest ∙ sym (drop-append_beyond n (str b) (contents bs) h);
      valid = r.valid;
      viewed = rw (e, l, m) r.viewed;
    }

remove_within :
    (bs : List Buffer) (n : ℕ) → AllValid bs → n < 2 ^ 64 → n ≤ length (contents bs) → Removed bs n
remove_within [] zero v w h = remove_nothing [] v
remove_within [] (suc n) v w h = absurd (omega arith)
remove_within (b ∷ bs) zero v w h = remove_nothing (b ∷ bs) v
remove_within (b ∷ bs) (suc n) (also v vs) w h = elim (dec_lt (suc n) (length (str b))) [
  | yes p ↦ remove_inside b bs (suc n) v vs (omega arith) p
  | no p ↦ remove_first b bs (suc n) w (omega arith) (omega arith) (
      remove_within bs (suc n - length (str b)) vs (omega arith)
        (omega (arith, length-append (str b) (contents bs))))
]

remove_beyond :
    (bs : List Buffer) (n : ℕ)
    → n < 2 ^ 64
    → length (contents bs) < n
    → (remove_prefix_list bs n ≡ none) × (remove_prefix_view (view_list bs) n ≡ none)
unfolding remove_prefix_list remove_prefix_view
remove_beyond [] n w h = let e : (n == 0) ≡ false = ground arith in (rw e refl, rw e refl)
remove_beyond (b ∷ bs) n w h =
    let sum = length-append (str b) (contents bs) in
    let e : (n == 0) ≡ false = ground arith in
    let l : ltb n (length (str b)) ≡ false = le→ltb n (length (str b)) (omega arith) in
    let m : sub64 n (length (str b)) ≡ n - length (str b) = omega arith in
    let (listed, viewed) = remove_beyond bs (n - length (str b)) (omega arith) (omega arith) in
    (rw (e, l, m) listed, rw (e, l, m) viewed)

size_from-view_list :
    (ret : ℕ) (bs : List Buffer) → size_from ret bs ≡ view_size_from ret (view_list bs)
size_from-view_list ret [] = refl
size_from-view_list ret (b ∷ bs) = size_from-view_list (add64 ret (length (str b))) bs

size_lem : (bs : List Buffer) → length (concatenate bs) < 2 ^ 64 → size bs ≡ length (concatenate bs)
size_lem bs h =
    rw (concatenate_lem bs, sym (view_list_lem bs))
      (size_from-view_list 0 bs
        ∙ view_size_lem (view_list bs) (rw (view_list_lem bs, sym (concatenate_lem bs)) h))

-- For valid buffers whose bytes together can be counted in 64 bits, and a 64-bit number of bytes: up to
-- the size of the list the removal succeeds, leaves valid buffers that together are the same string
-- without its first bytes, and the list of views does the same; beyond the size both throw.
pub remove_prefix_refines :
    (bs : List Buffer) (n : ℕ)
    → AllValid bs
    → n < 2 ^ 64
    → length (concatenate bs) < 2 ^ 64
    → ((n ≤ size bs)
        × (left : List Buffer) × (remove_prefix_list bs n ≡ some left)
        × (concatenate left ≡ drop n (concatenate bs))
        × AllValid left
        × (remove_prefix_view (view_list bs) n ≡ some (view_list left)))
      ⊎ ((size bs < n)
          × (remove_prefix_list bs n ≡ none)
          × (remove_prefix_view (view_list bs) n ≡ none))
remove_prefix_refines bs n v w h =
    let counted = size_lem bs h in
    let same : length (concatenate bs) ≡ length (contents bs) = ap length (concatenate_lem bs) in
    elim (dec_lt (size bs) n) [
      | yes p ↦
          let (listed, viewed) = remove_beyond bs n w (omega (arith, counted, same)) in
          inr (p, listed, viewed)
      | no p ↦
          let r = remove_within bs n v w (omega (arith, counted, same)) in
          inl (
            omega arith,
            r.left,
            r.removed,
            concatenate_lem r.left ∙ r.rest ∙ ap (drop n) (sym (concatenate_lem bs)),
            r.valid,
            r.viewed,
          )
    ]
