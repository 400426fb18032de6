-- ===== src/Wire/Reading.antt =====
-- What `NetUnparser` writes, `NetParser` reads.
use cs144_labs.Prelude.{
  replicate, ℕ, zero, suc, ◌*◌, ◌^◌, ◌<◌, ◌≤◌, ◌≡◌, refl, ap, ap₂, ◌∙◌, List, [], ◌∷◌, ◌++◌, arith,
  length, take, drop, le→ltb, length-append,
}
use cs144_labs.Wire.Parser.{
  parser_of, check_size, big_endian, parse_int, remove_prefix, unparse_int,
}

-- All numbers of the list are bytes.
unfoldable pub AllBytes : List ℕ → Type 0
AllBytes [] = Unit
AllBytes (b ∷ bs) = (b < 2 ^ 8) × AllBytes bs

pub AllBytes-append : (xs ys : List ℕ) → AllBytes xs → AllBytes ys → AllBytes (xs ++ ys)
unfolding AllBytes
AllBytes-append [] ys h k = k
AllBytes-append (x ∷ xs) ys h k = (h.0, AllBytes-append xs ys h.1 k)

pub AllBytes-replicate : (n : ℕ) → AllBytes (replicate n 0)
unfolding AllBytes
AllBytes-replicate zero = tt
AllBytes-replicate (suc n) = (omega arith, AllBytes-replicate n)

pub length-unparse_int : (len val : ℕ) → length (unparse_int len val) ≡ len
unfolding unparse_int
length-unparse_int zero val = refl
length-unparse_int (suc len) val = omega (arith, length-unparse_int len val)

pub take-append : (xs ys : List ℕ) → take (length xs) (xs ++ ys) ≡ xs
take-append [] ys = refl
take-append (x ∷ xs) ys = ap (◌∷◌ x) (take-append xs ys)

pub drop-append : (xs ys : List ℕ) → drop (length xs) (xs ++ ys) ≡ ys
drop-append [] ys = refl
drop-append (x ∷ xs) ys = drop-append xs ys

check_size_enough :
    (bytes : List ℕ) (n : ℕ) → n ≤ length bytes → check_size (parser_of bytes) n ≡ parser_of bytes
unfolding check_size
check_size_enough bytes n h = rw (le→ltb (length bytes) n h) refl

-- The parser takes the first bytes for a number, and goes on after them.
pub parse_int-append :
    (bytes rest : List ℕ)
    → parse_int (length bytes) (parser_of (bytes ++ rest))
      ≡ (big_endian (8 * length bytes) 0 bytes, parser_of rest)
unfolding parse_int
parse_int-append bytes rest =
    rw (check_size_enough (bytes ++ rest) (length bytes) (omega (arith, length-append bytes rest)))
      (ap₂ (λ a b. (big_endian (8 * length bytes) 0 a, parser_of b)) (take-append bytes rest)
        (drop-append bytes rest))

pub u8-unparse_int :
    (n : ℕ) (rest : List ℕ)
    → n < 2 ^ 8
    → parse_int 1 (parser_of (unparse_int 1 n ++ rest)) ≡ (n, parser_of rest)
unfolding unparse_int big_endian
u8-unparse_int n rest h =
    parse_int-append (unparse_int 1 n) rest ∙ ap (λ t. (t, parser_of rest)) (omega arith)

pub u16-unparse_int :
    (n : ℕ) (rest : List ℕ)
    → n < 2 ^ 16
    → parse_int 2 (parser_of (unparse_int 2 n ++ rest)) ≡ (n, parser_of rest)
unfolding unparse_int big_endian
u16-unparse_int n rest h =
    parse_int-append (unparse_int 2 n) rest ∙ ap (λ t. (t, parser_of rest)) (omega arith)

pub u32-unparse_int :
    (n : ℕ) (rest : List ℕ)
    → n < 2 ^ 32
    → parse_int 4 (parser_of (unparse_int 4 n ++ rest)) ≡ (n, parser_of rest)
unfolding unparse_int big_endian
u32-unparse_int n rest h =
    parse_int-append (unparse_int 4 n) rest ∙ ap (λ t. (t, parser_of rest)) (omega arith)

pub remove_prefix-append :
    (bytes rest : List ℕ)
    → remove_prefix (parser_of (bytes ++ rest)) (length bytes) ≡ parser_of rest
unfolding remove_prefix
remove_prefix-append bytes rest =
    rw (check_size_enough (bytes ++ rest) (length bytes) (omega (arith, length-append bytes rest)))
      (ap parser_of (drop-append bytes rest))
