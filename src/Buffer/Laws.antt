-- ===== src/Buffer/Laws.antt =====
-- What `strcat2` does to a buffer that holds a string with room behind it.
use libzbxpgsql.Base.{
  ℕ, suc, ◌+◌, ◌≤◌, ◌≡◌, refl, none, some, [], ◌∷◌, ◌++◌, append_assoc, append-cons,
  length-append_one, Option-cases, inl, inr, set?_past, length-set?, arith, Text, IsText, length,
  length-append, set?, set?-middle,
}
use libzbxpgsql.Buffer.{Buffer, seek, copy, strcat2, read_string}

-- `pre` bytes lie before the string `t`
pub seek-append :
    (pre t : Text) (rest : Buffer)
    → IsText t
    → seek (pre ++ (t ++ 0 ∷ rest)) (length pre) ≡ some (length pre + length t)
unfolding seek
seek-append [] [] rest h = refl
seek-append [] (c ∷ t) rest h = ground (arith, seek-append [] t rest h.1)
seek-append (p ∷ pre) t rest h = ground (arith, seek-append pre t rest h)

pub copy-append :
    (pre s : Text) (old rest : Buffer)
    → length old ≡ suc (length s)
    → copy (pre ++ (old ++ rest)) (length pre) s
      ≡ some (pre ++ (s ++ 0 ∷ rest), length pre + length s)
unfolding copy
copy-append pre [] [] rest h = absurd (omega arith)
copy-append pre [] (o ∷ []) rest h = rw (set?-middle pre rest o 0) (ground arith)
copy-append pre [] (o ∷ p ∷ old) rest h = absurd (omega arith)
copy-append pre (c ∷ s) [] rest h = absurd (omega arith)
copy-append pre (c ∷ s) (o ∷ old) rest h = rw (set?-middle pre (old ++ rest) o c) (
    ground (
      arith,
      append-cons pre (old ++ rest) c,
      append-cons pre (s ++ 0 ∷ rest) c,
      length-append_one pre c,
      copy-append (pre ++ c ∷ []) s old rest,
    ))

-- `pre` bytes, a string `t` and its terminator, room `old` for `s`, and `rest`: `s` follows `t`, and
-- the position that is returned is that of the new terminator.
pub strcat2-append :
    (pre t s : Text) (old rest : Buffer)
    → IsText t
    → length old ≡ length s
    → strcat2 (pre ++ (t ++ 0 ∷ (old ++ rest))) (some (length pre)) (some s)
      ≡ some (pre ++ (t ++ (s ++ 0 ∷ rest)), some (length pre + length t + length s))
unfolding strcat2
strcat2-append pre t s old rest h e = rw (seek-append pre t (old ++ rest) h) (
    ground (
      arith,
      append_assoc pre t (0 ∷ (old ++ rest)),
      append_assoc pre t (s ++ 0 ∷ rest),
      length-append pre t,
      copy-append (pre ++ t) s (0 ∷ old) rest,
    ))

-- Without room for the bytes of `s` and the terminator the copy writes past the end.
pub copy_overflow : (b : Buffer) (d : ℕ) (s : Text) → length b ≤ d + length s → copy b d s ≡ none
unfolding copy
copy_overflow b d [] h = rw (set?_past b d 0 (omega arith))
copy_overflow b d (c ∷ s) h = elim (Option-cases (set? b d c)) [
  | inl e ↦ rw e
  | inr (b', e) ↦ rw e (copy_overflow b' (suc d) s (omega (arith, length-set? b d c e)))
]

-- A string reads back, whatever follows its terminator.
pub read_string-append :
    (t : Text) (rest : Buffer) → IsText t → read_string (t ++ 0 ∷ rest) ≡ some t
unfolding read_string
read_string-append [] rest h = refl
read_string-append (c ∷ t) rest h = ground (arith, read_string-append t rest h.1)
