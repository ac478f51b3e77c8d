-- ===== src/Connstring/Laws.antt =====
-- `build_connstring`: its four writes into the allocation, and what it returns.
use libzbxpgsql.Base.{
  subst, ◌∙◌, sym, ℕ, suc, ◌+◌, ◌≡◌, refl, Option, none, some, [], ◌∷◌, ◌++◌, Text, IsText, bytes,
  strisnull, length, replicate-add, length-replicate, append_assoc, length-append, ap, append-nil,
  if◌then◌else◌, ◌>>=◌, arith,
}
use libzbxpgsql.Buffer.{zeros, strcat2, read_string}
use libzbxpgsql.Buffer.Laws.{strcat2-append, read_string-append}
use libzbxpgsql.Connstring.{bufferlen, strlen_or_zero, build_connstring}

-- A parameter as the connection string takes it up: NULL stands for nothing.
abbrev pub text_of : Option Text → Text
text_of none = []
text_of (some s) = s

abbrev pub IsTextParam : Option Text → Type 0
IsTextParam none = Unit
IsTextParam (some s) = IsText s

-- The given string and a space, unless there is none, then `dbname=` and the database.
abbrev pub connstring_for : Option Text → Option Text → Text
connstring_for connstring dbname =
    (if strisnull connstring then [] else text_of connstring ++ bytes " ")
    ++ (bytes "dbname=" ++ text_of dbname)

-- a step of the build: `src` is put behind `t` into what is left of the allocation
strcat2-zeros :
    (t : Text) (src : Option Text) (n m : ℕ)
    → n ≡ suc (length (text_of src) + m)
    → strcat2 (t ++ zeros n) (some (length t)) src
      ≡ some ((t ++ text_of src) ++ zeros (suc m), some (length (t ++ text_of src)))
unfolding strcat2
strcat2-zeros t none n m e = rw (e, append-nil) (ground arith)
strcat2-zeros t (some s) n m e =
    rw
      (e, replicate-add {A = ℕ} (length s) m 0, append_assoc t s (zeros (suc m)), length-append t s)
      (ground (
        arith,
        strcat2-append t [] s (zeros (length s)) (zeros m) tt,
        length-replicate {A = ℕ} (length s) 0,
      ))

-- the four calls, for any four strings that the allocation has room for
four : (p q r s : Option Text) (n : ℕ) → Option Text
four p q r s n = do
  (b₁, c₁) ← strcat2 (zeros n) (some 0) p
  (b₂, c₂) ← strcat2 b₁ c₁ q
  (b₃, c₃) ← strcat2 b₂ c₂ r
  (b₄, c₄) ← strcat2 b₃ c₃ s
  read_string b₄

abbrev joined : (p q r s : Option Text) → Text
joined p q r s = ((text_of p ++ text_of q) ++ text_of r) ++ text_of s

four-joined :
    (p q r s : Option Text) (n m : ℕ)
    → IsText (joined p q r s)
    → n ≡ suc (length (joined p q r s) + m)
    → four p q r s n ≡ some (joined p q r s)
unfolding four
four-joined p q r s n m h e =
    let P = text_of p in
    let Q = text_of q in
    let R = text_of r in
    let S = text_of s in
    let e' : n ≡ suc (length P + (length Q + (length R + (length S + m)))) =
      omega (arith, length-append P Q, length-append (P ++ Q) R, length-append ((P ++ Q) ++ R) S) in
    rw (strcat2-zeros [] p n (length Q + (length R + (length S + m))) e') (
      rw
        (strcat2-zeros P q (suc (length Q + (length R + (length S + m))))
          (length R + (length S + m)) refl)
        (rw (strcat2-zeros (P ++ Q) r (suc (length R + (length S + m))) (length S + m) refl) (
          rw (strcat2-zeros ((P ++ Q) ++ R) s (suc (length S + m)) m refl)
            (read_string-append (((P ++ Q) ++ R) ++ S) (zeros m) h))))

IsText-append : (s t : Text) → IsText s → IsText t → IsText (s ++ t)
IsText-append [] t hs ht = ht
IsText-append (c ∷ s) t hs ht = (hs.0, IsText-append s t hs.1 ht)

IsText-of : (p : Option Text) → IsTextParam p → IsText (text_of p)
IsText-of none h = tt
IsText-of (some s) h = h

dbname-text_of :
    (dbname : Option Text) → text_of (if strisnull dbname then none else dbname) ≡ text_of dbname
unfolding strisnull
dbname-text_of none = refl
dbname-text_of (some []) = refl
dbname-text_of (some (c ∷ d)) = refl

strlen-text_of : (p : Option Text) → strlen_or_zero p ≡ length (text_of p)
strlen-text_of none = refl
strlen-text_of (some s) = refl

abbrev given : Option Text → Option Text
given dbname = if strisnull dbname then none else dbname

dbname-IsText :
    (dbname : Option Text) → IsTextParam dbname → IsText (bytes "dbname=" ++ text_of (given dbname))
dbname-IsText dbname h =
    rw (dbname-text_of dbname)
      (IsText-append (bytes "dbname=") (text_of dbname) (omega arith) (IsText-of dbname h))

dbname-fits : (dbname : Option Text) → strlen_or_zero dbname ≡ length (text_of (given dbname))
dbname-fits dbname = rw (dbname-text_of dbname) (strlen-text_of dbname)

-- No call of `strcat2` writes past the allocation, and the string that is returned is the
-- specified one: nothing in front of `dbname=` where the connection string is NULL or empty,
-- nothing behind it where the database is.
pub build_connstring-connstring_for :
    (connstring dbname : Option Text)
    → IsTextParam connstring
    → IsTextParam dbname
    → build_connstring connstring dbname ≡ some (connstring_for connstring dbname)
unfolding build_connstring strisnull four
build_connstring-connstring_for none dbname hc hd =
    four-joined (some []) none (some (bytes "dbname=")) (given dbname) (bufferlen none dbname) 1
      (dbname-IsText dbname hd) (omega (arith, dbname-fits dbname))
    ∙ ap (λ t. some (bytes "dbname=" ++ t)) (dbname-text_of dbname)
build_connstring-connstring_for (some []) dbname hc hd =
    four-joined (some []) none (some (bytes "dbname=")) (given dbname) (bufferlen (some []) dbname)
      1 (dbname-IsText dbname hd) (omega (arith, dbname-fits dbname))
    ∙ ap (λ t. some (bytes "dbname=" ++ t)) (dbname-text_of dbname)
build_connstring-connstring_for (some (x ∷ xs)) dbname hc hd =
    let A = x ∷ xs ++ bytes " " in
    let B = bytes "dbname=" in
    let C = text_of (given dbname) in
    four-joined (some (x ∷ xs)) (some (bytes " ")) (some B) (given dbname)
      (bufferlen (some (x ∷ xs)) dbname) 0
      (subst IsText (sym (append_assoc A B C)) (
        IsText-append A (B ++ C) (IsText-append (x ∷ xs) (bytes " ") hc (omega arith))
          (dbname-IsText dbname hd)))
      (omega (
        arith,
        dbname-fits dbname,
        length-append (A ++ B) C,
        length-append A B,
        length-append (x ∷ xs) (bytes " "),
      ))
    ∙ ap some (append_assoc A B C)
    ∙ ap (λ t. some (A ++ (B ++ t))) (dbname-text_of dbname)
