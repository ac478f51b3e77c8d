-- ===== src/Queries/Sorted.antt =====
-- The entries that the arrays hold are those of the file, in the order of their names.
use mathlib.Core.HLevel.{¬_prop}
use mathlib.Core.Option.{some-injective}
use mathlib.Core.List.{
  reverse, Mem, Perm, Pairwise, mem-cons_of_mem, mem-cons_self, forall_mem-cons, Pairwise-reverse,
  Pairwise-singleton, perm_middle,
}
use mathlib.Core.List.Perm
use libzbxpgsql.Base.{
  ℕ, zero, suc, ◌<◌, ◌≡◌, subst, true, false, Bool-cases, inl, inr, some, List, [], ◌∷◌, ◌++◌, Text,
  get_elem?, NotAfter, NotAfter-trans, strcmp-gt_flip, arith,
}
use libzbxpgsql.Queries.{goes_before}
use libzbxpgsql.Queries.Loaded.{Entry, insert_entry, insert_all}

abbrev Above : Entry → Entry → Type 0
Above x y = NotAfter y.0 x.0

-- Read from the end of the arrays the names descend.
abbrev pub Descends : List Entry → Type 0
Descends = Pairwise Above

Above-prop : (x : Entry) → (y : Entry) → IsProp (Above x y)
Above-prop x y = ¬_prop

-- Before an entry stand only names that are not after it.
goes_before-NotAfter : (n k : Text) → goes_before n (some k) ≡ true → NotAfter n k
unfolding goes_before
goes_before-NotAfter n k h = ground (arith)

stays-NotAfter : (n k : Text) → goes_before n (some k) ≡ false → NotAfter k n
unfolding goes_before
stays-NotAfter n k h e = ground (arith, strcmp-gt_flip k n e)

insert_entry-perm : (n v : Text) (r : List Entry) → Perm (insert_entry n v r) ((n, v) ∷ r)
unfolding insert_entry
insert_entry-perm n v [] = Perm.rfl
insert_entry-perm n v (e ∷ r) = elim (Bool-cases (goes_before n (some e.0))) [
  | inl t ↦ rw t (Perm.trans (Perm.cons e (insert_entry-perm n v r)) (Perm.swap (n, v) e r))
  | inr f ↦ rw f Perm.rfl
]

insert_entry-Descends : (n v : Text) {r : List Entry} → Descends r → Descends (insert_entry n v r)
unfolding insert_entry
insert_entry-Descends n v Pairwise.nil = Pairwise-singleton _ (n, v)
insert_entry-Descends n v (Pairwise.cons {a = e} {l = r} below s) =
    elim (Bool-cases (goes_before n (some e.0))) [
      | inl t ↦ rw t (
          Pairwise.cons
            (λ x m.
              (forall_mem-cons (Above-prop e)).1 (goes_before-NotAfter n e.0 t, below) x
                ((Perm.mem_iff (insert_entry-perm n v r)).0 m))
            (insert_entry-Descends n v s))
      | inr f ↦ rw f (
          Pairwise.cons
            ((forall_mem-cons (Above-prop (n, v))).1 (
              stays-NotAfter n e.0 f,
              λ x m. NotAfter-trans x.0 e.0 n (below x m) (stays-NotAfter n e.0 f),
            ))
            (Pairwise.cons below s))
    ]

pub insert_all-Descends :
    (es : List Entry) {r : List Entry} → Descends r → Descends (insert_all es r)
unfolding insert_all
insert_all-Descends [] d = d
insert_all-Descends (e ∷ es) d = insert_all-Descends es (insert_entry-Descends e.0 e.1 d)

pub insert_all-perm : (es r : List Entry) → Perm (insert_all es r) (es ++ r)
unfolding insert_all
insert_all-perm [] r = Perm.rfl
insert_all-perm (e ∷ es) r =
    Perm.trans (insert_all-perm es (insert_entry e.0 e.1 r))
      (Perm.trans (Perm.append_left es (insert_entry-perm e.0 e.1 r)) (perm_middle es r))

-- In ascending order the names are compared by their positions.
pub Ascends : List Entry → Type 0
Ascends = Pairwise (λ x y. NotAfter x.0 y.0)

pub reverse-Ascends : (r : List Entry) → Descends r → Ascends (reverse r)
unfolding Ascends
reverse-Ascends r d = (Pairwise-reverse (λ x y. ¬_prop)).1 d

pub get_elem?-mem : (a : List Entry) (i : ℕ) (e : Entry) → get_elem? a i ≡ some e → Mem e a
get_elem?-mem [] i e h = ground arith
get_elem?-mem (x ∷ a) zero e h = subst (λ z. Mem z (x ∷ a)) (some-injective x e h) mem-cons_self
get_elem?-mem (x ∷ a) (suc i) e h = mem-cons_of_mem x (get_elem?-mem a i e h)

pub Ascends-NotAfter :
    (a : List Entry)
    → Ascends a
    → (i j : ℕ) (x y : Entry) → i < j
    → get_elem? a i ≡ some x
    → get_elem? a j ≡ some y
    → NotAfter x.0 y.0
unfolding Ascends
Ascends-NotAfter [] s i j x y l hx hy = ground arith
Ascends-NotAfter (e ∷ a) (Pairwise.cons below s) zero (suc j) x y l hx hy =
    subst (λ z. NotAfter z.0 y.0) (some-injective e x hx) (below y (get_elem?-mem a j y hy))
Ascends-NotAfter (e ∷ a) (Pairwise.cons below s) (suc i) (suc j) x y l hx hy =
    Ascends-NotAfter a s i j x y (omega arith) hx hy
Ascends-NotAfter (e ∷ a) s i zero x y l hx hy = absurd (omega arith)
