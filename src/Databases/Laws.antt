-- ===== src/Databases/Laws.antt =====
-- The multi-string of database names: its layout in memory, and the walk over it.
use libzbxpgsql.Base.{
  ℕ, zero, suc, ◌+◌, ◌≤◌, ◌≡◌, ◌≢◌, refl, some, List, [], ◌∷◌, ◌++◌, Text, IsText, All, length,
  replicate-add, length-replicate, append_assoc, length-append_one, ap, sym, ◌∙◌, length-append,
  drop, ◌>>=◌, arith,
}
use mathlib.Core.Path.{subst₂}
use native.Mathlib.Numerals.{add-one}
use libzbxpgsql.Buffer.{Buffer, zeros}
use libzbxpgsql.Buffer.Laws.{strcat2-append, read_string-append}
use libzbxpgsql.Databases.{names_size, fill, multi_string, walk, databases}

-- Each name with its terminator.
abbrev pub encoded : List Text → Buffer
encoded [] = []
encoded (v ∷ vs) = v ++ 0 ∷ encoded vs

-- A name of a database: no terminator inside, and not empty.
abbrev pub IsName : Text → Type 0
IsName v = IsText v × (v ≢ [])

-- a name and its terminator behind `pre`
named : (pre v z : Buffer) → (pre ++ (v ++ 0 ∷ [])) ++ z ≡ pre ++ (v ++ 0 ∷ z)
named pre v z = append_assoc pre (v ++ 0 ∷ []) z ∙ ap (◌++◌ pre) (append_assoc v (0 ∷ []) z)

fill-room :
    (v : Text) (vs : List Text)
    → zeros (length v + 1 + names_size vs) ≡ zeros (length v) ++ zeros (suc (names_size vs))
fill-room v vs =
    let e : length v + 1 + names_size vs ≡ length v + suc (names_size vs) = omega arith in
    rw e (replicate-add (length v) (suc (names_size vs)) 0)

drop-string : (v : Text) (rest : Buffer) → drop (suc (length v)) (v ++ 0 ∷ rest) ≡ rest
drop-string [] rest = refl
drop-string (c ∷ v) rest = drop-string v rest

fill-encoded :
    (names : List Text) (pre : Buffer)
    → fill (pre ++ zeros (suc (names_size names))) (some (length pre)) names
      ≡ some (pre ++ (encoded names ++ 0 ∷ []))
unfolding fill
fill-encoded [] pre = refl
fill-encoded (v ∷ vs) pre =
    let z = zeros (suc (names_size vs)) in
    let e = encoded vs ++ 0 ∷ [] in
    let pre' = pre ++ (v ++ 0 ∷ []) in
    let place : suc (length pre + 0 + length v) ≡ length pre' =
      omega (arith, length-append pre (v ++ 0 ∷ []), length-append_one v 0) in
    rw
      (
        fill-room v vs,
        strcat2-append pre [] v (zeros (length v)) z tt (length-replicate {A = ℕ} (length v) 0),
      )
      (subst₂ (λ b d. fill b (some d) vs ≡ some (pre ++ (encoded (v ∷ vs) ++ 0 ∷ [])))
        (named pre v z) (sym place)
        (fill-encoded vs pre'
          ∙ ap some
              (named pre v e ∙ ap (◌++◌ pre) (sym (append_assoc v (0 ∷ encoded vs) (0 ∷ []))))))

walk-encoded :
    (names : List Text) (fuel : ℕ)
    → All IsName names
    → length names ≤ fuel
    → walk (suc fuel) (encoded names ++ 0 ∷ []) ≡ some names
unfolding walk
walk-encoded [] fuel h f = refl
walk-encoded ([] ∷ vs) fuel h f = absurd (h.0.1 refl)
walk-encoded (v ∷ vs) zero h f = elim f [ ]
walk-encoded ((c ∷ v) ∷ vs) (suc fuel) h f = ground (
  arith,
  h.0.0.0,
  append_assoc (c ∷ v) (0 ∷ encoded vs) (0 ∷ []),
  read_string-append (c ∷ v) (encoded vs ++ 0 ∷ []) h.0.0,
  drop-string (c ∷ v) (encoded vs ++ 0 ∷ []),
  walk-encoded vs fuel h.1,
)

length-encoded : (names : List Text) → length names ≤ length (encoded names)
length-encoded [] = omega arith
length-encoded (v ∷ vs) = omega (arith, length-encoded vs, length-append v (0 ∷ encoded vs))

-- The copies stay inside the allocation, and they leave the names, a terminator behind each, and
-- one more terminator at the end.
pub multi_string-encoded : (names : List Text) → multi_string names ≡ some (encoded names ++ 0 ∷ [])
unfolding multi_string
multi_string-encoded names =
    let e : 1 + names_size names ≡ suc (names_size names) = omega arith in
    rw e (fill-encoded names [])

-- Of names that are not empty, the walk over the multi-string finds exactly these, in order, and
-- never reads past its end.
pub databases-multi_string :
    (names : List Text) → All IsName names → (multi_string names >>= databases) ≡ some names
unfolding databases
databases-multi_string names h =
    rw
      (
        multi_string-encoded names,
        length-append (encoded names) (0 ∷ []),
        add-one (length (encoded names)),
      )
      (walk-encoded names (length (encoded names)) h (length-encoded names))
