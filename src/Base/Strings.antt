-- ===== src/Base/Strings.antt =====
-- C strings: the bytes before the terminator. A `char *` that may be NULL is an `Option Text`.
use Prim.Native.Nat.{ℕ, zero, suc, compare, Ordering}
use Prim.Native.Char.{code}
use Prim.Native.String.{String}
use mathlib.Core.Bool.{Bool, true, false, ◌&&◌}
use mathlib.Core.Logic.{◌≢◌}
use mathlib.Core.List.{List, [], ◌∷◌, ◌++◌}
use mathlib.Core.Option.{Option, none, some}
use libzbxpgsql.Base.Lists.{All}
use libzbxpgsql.Base.Tests.{◌==◌}

abbrev pub Text : Type 0
Text = List ℕ

-- The bytes of a literal of the source.
abbrev pub bytes : String → Text
bytes String.[] = []
bytes (String.◌∷◌ c s) = code c ∷ bytes s

-- A literal that the source writes over several lines.
abbrev pub lines : List String → Text
lines [] = []
lines (s ∷ r) = bytes s ++ lines r

-- No byte of a string is the terminator.
abbrev pub IsText : Text → Type 0
IsText = All (λ c. c ≢ 0)

-- The comparisons of <string.h>, by the sign of their result.
unfoldable pub strcmp : Text → Text → Ordering
strcmp [] [] = Ordering.eq
strcmp [] (y ∷ ys) = Ordering.lt
strcmp (x ∷ xs) [] = Ordering.gt
strcmp (x ∷ xs) (y ∷ ys) = elim (compare x y) [
  | Ordering.lt ↦ Ordering.lt
  | Ordering.eq ↦ strcmp xs ys
  | Ordering.gt ↦ Ordering.gt
]

-- `strncmp(a, b, n)`: at most `n` bytes, and none behind a terminator.
unfoldable pub strncmp : Text → Text → ℕ → Ordering
strncmp _ _ zero = Ordering.eq
strncmp [] [] (suc n) = Ordering.eq
strncmp [] (y ∷ ys) (suc n) = Ordering.lt
strncmp (x ∷ xs) [] (suc n) = Ordering.gt
strncmp (x ∷ xs) (y ∷ ys) (suc n) = elim (compare x y) [
  | Ordering.lt ↦ Ordering.lt
  | Ordering.eq ↦ strncmp xs ys n
  | Ordering.gt ↦ Ordering.gt
]

-- `0 == strcmp(…)`
abbrev pub is_eq : Ordering → Bool
is_eq Ordering.eq = true
is_eq _ = false

-- `strisnull` of libzbxpgsql.h: NULL or empty
unfoldable pub strisnull : Option Text → Bool
strisnull none = true
strisnull (some []) = true
strisnull (some (c ∷ s)) = false

-- What the printf family makes of a format with `%s` conversions alone.
unfoldable pub printf : Text → List Text → Text
printf [] args = []
printf (c ∷ []) args = c ∷ []
printf (c ∷ d ∷ s) args = elim (c == b'%' && d == b's') [
  | false ↦ c ∷ printf (d ∷ s) args
  | true ↦ elim args [ [] ↦ printf s [] | a ∷ rest ↦ a ++ printf s rest ]
]

-- `0 == strcmp(a, b)`, `0 == strncmp(a, b, n)`
abbrev pub same : Text → Text → Bool
same a b = is_eq (strcmp a b)

abbrev pub starts : Text → Text → ℕ → Bool
starts a b n = is_eq (strncmp a b n)
