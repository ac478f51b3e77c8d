-- ===== src/Buffer.antt =====
-- Character buffers of a fixed size, and `strcat2` of src/libzbxpgsql.c over them.
-- A buffer is the list of its bytes; an access past its end is `none`.
pub mod Laws
use libzbxpgsql.Base.{
  ℕ, zero, suc, ◌+◌, true, false, Option, none, some, List, [], ◌∷◌, Text, replicate, get_elem?,
  set?, ◌==◌, if◌then◌else◌, ◌>>=◌,
}

abbrev pub Buffer : Type 0
Buffer = List ℕ

-- `malloc` and `memset(…, 0, …)`, or a cleared local array
abbrev pub zeros : ℕ → Buffer
zeros n = replicate n 0

-- `while (*dest) dest++;`, and `dest + strlen(dest)`
unfoldable pub seek : Buffer → ℕ → Option ℕ
seek [] d = none
seek (x ∷ b) (suc d) = elim (seek b d) [ none ↦ none | some e ↦ some (suc e) ]
seek (x ∷ b) zero = elim (x == 0) [
  | true ↦ some 0
  | false ↦ elim (seek b 0) [ none ↦ none | some e ↦ some (suc e) ]
]

-- `while ((*dest++ = *src++));`, then `--dest`: the position of the terminator that was written
unfoldable pub copy : Buffer → ℕ → Text → Option (Buffer × ℕ)
copy b d [] = do b' ← set? b d 0; some (b', d)
copy b d (c ∷ s) = do b' ← set? b d c; copy b' (suc d) s

unfoldable pub strcat2 : Buffer → Option ℕ → Option Text → Option (Buffer × Option ℕ)
unfolding seek copy
strcat2 b none src = some (b, none)
strcat2 b (some dest) none = some (b, some dest)
strcat2 b (some dest) (some src) = do
  end ← seek b dest
  (b', last) ← copy b end src
  some (b', some last)

-- The string that starts at a position: the bytes before the first terminator.
unfoldable pub read_string : Buffer → Option Text
read_string [] = none
read_string (x ∷ b) = elim (x == 0) [
  | true ↦ some []
  | false ↦ elim (read_string b) [ none ↦ none | some s ↦ some (x ∷ s) ]
]
