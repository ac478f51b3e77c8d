-- ===== src/Base/Lists.antt =====
-- Lists measured and indexed by native numbers, under the library's names.
use Prim.Native.Nat.{ℕ, zero, suc, ◌+◌, ◌≤◌, ◌<◌}
use mathlib.Core.Path.{◌≡◌, refl, ap}
use mathlib.Core.List.{List, [], ◌∷◌, ◌++◌, map}
use mathlib.Core.Option.{Option, none, some}
use native.Mathlib.Omega.{arith}
use native.Mathlib.Nat.{zero-add, suc-add}
use libzbxpgsql.Base.Tests.{Option-cases}
use mathlib.Core.Logic.{inl, inr}

module _ {ℓ} {A : Type ℓ} where
  abbrev pub length : List A → ℕ
  length [] = 0
  length (x ∷ xs) = suc (length xs)

  abbrev pub get_elem? : List A → ℕ → Option A
  get_elem? [] i = none
  get_elem? (x ∷ xs) zero = some x
  get_elem? (x ∷ xs) (suc i) = get_elem? xs i

  -- An array write: `none` past the end.
  abbrev pub set? : List A → ℕ → A → Option (List A)
  set? [] i v = none
  set? (x ∷ xs) zero v = some (v ∷ xs)
  set? (x ∷ xs) (suc i) v = elim (set? xs i v) [ none ↦ none | some ys ↦ some (x ∷ ys) ]

  abbrev pub drop : ℕ → List A → List A
  drop zero xs = xs
  drop (suc n) [] = []
  drop (suc n) (x ∷ xs) = drop n xs

  abbrev pub replicate : ℕ → A → List A
  replicate zero a = []
  replicate (suc n) a = a ∷ replicate n a

  abbrev pub All {κ} : (A → Type κ) → List A → Type κ
  All P [] = Unit
  All P (x ∷ xs) = P x × All P xs

module _ {ℓ} {A : Type ℓ} where
  pub length-append : (xs ys : List A) → length (xs ++ ys) ≡ length xs + length ys
  length-append [] ys = omega arith
  length-append (x ∷ xs) ys = omega (arith, length-append xs ys)

  pub length-replicate : (n : ℕ) (a : A) → length (replicate n a) ≡ n
  length-replicate zero a = refl
  length-replicate (suc n) a = ap suc (length-replicate n a)

  pub length-map {κ} : {B : Type κ} (f : A → B) (xs : List A) → length (map f xs) ≡ length xs
  length-map f [] = refl
  length-map f (x ∷ xs) = ap suc (length-map f xs)

  -- the cell behind a prefix
  pub get_elem?-middle : (xs ys : List A) (a : A) → get_elem? (xs ++ a ∷ ys) (length xs) ≡ some a
  get_elem?-middle [] ys a = refl
  get_elem?-middle (x ∷ xs) ys a = get_elem?-middle xs ys a

  pub get_elem?-past : (xs : List A) → get_elem? (xs ++ []) (length xs) ≡ none
  get_elem?-past [] = refl
  get_elem?-past (x ∷ xs) = get_elem?-past xs

  pub set?-middle :
      (xs ys : List A) (a b : A) → set? (xs ++ a ∷ ys) (length xs) b ≡ some (xs ++ b ∷ ys)
  set?-middle [] ys a b = refl
  set?-middle (x ∷ xs) ys a b = rw (set?-middle xs ys a b, set?)

  pub get_elem?-lt : (xs : List A) (i : ℕ) → i < length xs → (a : A) × (get_elem? xs i ≡ some a)
  get_elem?-lt [] i h = elim h [ ]
  get_elem?-lt (x ∷ xs) zero h = (x, refl)
  get_elem?-lt (x ∷ xs) (suc i) h = get_elem?-lt xs i (omega arith)

  pub append-cons : (xs ys : List A) (a : A) → xs ++ a ∷ ys ≡ (xs ++ a ∷ []) ++ ys
  append-cons [] ys a = refl
  append-cons (x ∷ xs) ys a = ap (◌∷◌ x) (append-cons xs ys a)

  pub length-append_one : (xs : List A) (a : A) → length (xs ++ a ∷ []) ≡ suc (length xs)
  length-append_one [] a = refl
  length-append_one (x ∷ xs) a = ap suc (length-append_one xs a)

  -- the parts of a list that is long enough to be cut
  pub split_at :
      (n : ℕ) (xs : List A)
      → n ≤ length xs
      → (l : List A) × (r : List A) × (xs ≡ l ++ r) × (length l ≡ n)
  split_at zero xs h = ([], xs, refl, refl)
  split_at (suc n) [] h = elim h [ ]
  split_at (suc n) (x ∷ xs) h =
      let (l, r, e, k) = split_at n xs (omega arith) in (x ∷ l, r, ap (◌∷◌ x) e, ap suc k)

  pub set?_past : (xs : List A) (i : ℕ) (v : A) → length xs ≤ i → set? xs i v ≡ none
  set?_past [] i v h = refl
  set?_past (x ∷ xs) zero v h = elim h [ ]
  set?_past (x ∷ xs) (suc i) v h = rw (set?_past xs i v (omega arith), set?)

  pub length-set? :
      (xs : List A) (i : ℕ) (v : A) {ys : List A} → set? xs i v ≡ some ys → length ys ≡ length xs
  length-set? [] i v e = ground arith
  length-set? (x ∷ xs) zero v e = ground arith
  length-set? (x ∷ xs) (suc i) v {ys} e = elim (Option-cases (set? xs i v)) [
    | inl n ↦ ground arith
    | inr (zs, p) ↦ ground (arith, length-set? xs i v p)
  ]

  -- room of a given size, cut off the front of a buffer's free part
  pub replicate-add : (n m : ℕ) (a : A) → replicate (n + m) a ≡ replicate n a ++ replicate m a
  replicate-add zero m a = rw zero-add
  replicate-add (suc n) m a = rw suc-add (ap (◌∷◌ a) (replicate-add n m a))

  pub get_elem?-length : (xs : List A) (i : ℕ) (a : A) → get_elem? xs i ≡ some a → i < length xs
  get_elem?-length [] i a h = ground arith
  get_elem?-length (x ∷ xs) zero a h = omega arith
  get_elem?-length (x ∷ xs) (suc i) a h = omega (arith, get_elem?-length xs i a h)
