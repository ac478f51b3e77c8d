-- ===== src/Numbers.antt =====
-- The numbers that the module reads from text: `strtoull`, `atol` and `atoi` of the C library in
-- base 10, and the tests `is_oid` and `is_valid_ip` of src/libzbxpgsql.c.
pub mod Laws
use libzbxpgsql.Base.{
  ℕ, zero, suc, ◌+◌, ◌-◌, ◌*◌, ◌%◌, ◌^◌, ltb, leb, ◌==◌, Bool, true, false, ◌&&◌, ◌||◌, Option,
  none, some, List, [], ◌∷◌, Text, ℤ, pos, negsuc, neg, if◌then◌else◌,
}
use libzbxpgsql.Runtime.{Env}

abbrev pub u64 : ℕ
u64 = 2 ^ 64

-- `isspace` and `isdigit` in the C locale
unfoldable pub is_space : ℕ → Bool
is_space c = c == b' ' || leb 9 c && leb c 13

unfoldable pub is_digit : ℕ → Bool
is_digit c = leb b'0' c && leb c b'9'

unfoldable pub skip_space : Text → Text
unfolding is_space
skip_space [] = []
skip_space (c ∷ s) = elim (is_space c) [ true ↦ skip_space s | false ↦ c ∷ s ]

-- the number that the digits at the front stand for, behind `n`
unfoldable pub digits : ℕ → Text → ℕ
unfolding is_digit
digits n [] = n
digits n (c ∷ s) = elim (is_digit c) [ true ↦ digits (n * 10 + (c - b'0')) s | false ↦ n ]

-- the sign, and the magnitude behind it
unfoldable pub signed : Text → Bool × ℕ
unfolding digits
signed [] = (false, 0)
signed (c ∷ s) =
    if c == b'-'
    then (true, digits 0 s)
    else if c == b'+'
    then (false, digits 0 s)
    else (false, digits 0 (c ∷ s))

-- A magnitude past the range is ULLONG_MAX; a minus sign negates modulo 2 ^ 64.
unfoldable pub strtoull : Text → ℕ
unfolding skip_space signed
strtoull s =
    let (negative, n) = signed (skip_space s) in
    if leb u64 n then u64 - 1 else if negative then (u64 - n) % u64 else n

-- `atol` and `atoi`, where the value fits a `long` of 64 or an `int` of 32 bits; else undefined.
unfoldable pub to_integer : ℕ → Text → Option ℤ
unfolding skip_space signed
to_integer half s =
    let (negative, n) = signed (skip_space s) in
    if negative
    then (if leb n half then some (neg n) else none)
    else if ltb n half
    then some (pos n)
    else none

unfoldable pub atol : Text → Option ℤ
unfolding to_integer
atol s = to_integer (2 ^ 63) s

unfoldable pub atoi : Text → Option ℤ
unfolding to_integer
atoi s = to_integer (2 ^ 31) s

-- the conversion of a signed integer to `zbx_uint64_t`
unfoldable pub to_u64 : ℤ → ℕ
to_u64 (pos n) = n % u64
to_u64 (negsuc n) = (u64 - suc (n % u64)) % u64

-- the conversion of a `long` to an `int` of 32 bits, which keeps the low bits
unfoldable pub to_int : ℤ → ℤ
to_int (pos n) = let m = n % 2 ^ 32 in if ltb m (2 ^ 31) then pos m else negsuc (2 ^ 32 - m - 1)
to_int (negsuc n) = let m = n % 2 ^ 32 in if ltb m (2 ^ 31) then negsuc m else pos (2 ^ 32 - m - 1)

-- the loop of `is_oid`, with its `res`
unfoldable pub is_oid_loop : Bool → Text → Bool
unfolding is_digit
is_oid_loop res [] = res
is_oid_loop res (c ∷ s) = elim (is_digit c) [ true ↦ is_oid_loop true s | false ↦ false ]

unfoldable pub is_oid : Text → Bool
unfolding is_oid_loop
is_oid s = is_oid_loop false s

unfoldable pub is_valid_ip : Env → Text → Bool
is_valid_ip env s = env.inet4 s || env.inet6 s
