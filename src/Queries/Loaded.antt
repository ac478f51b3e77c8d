-- ===== src/Queries/Loaded.antt =====
-- What the arrays hold while `read_config_queries` fills them: free cells in front, then the entries
-- read so far in the order of their names, and one more free cell at the end.
use mathlib.Core.List.{reverse_aux}
use libzbxpgsql.Base.{
  ℕ, zero, suc, ◌+◌, ◌≡◌, refl, ap, sym, ◌∙◌, Bool, true, false, inl, inr, Option, none, some, List,
  [], ◌∷◌, ◌++◌, Text, length, replicate, map, length-append, length-replicate, replicate-add,
  Option-cases, length-map, if◌then◌else◌, arith,
}
use libzbxpgsql.Queries.{Cells, Queries, Element, goes_before, add_named_query, add_elements}
use libzbxpgsql.Queries.Insert.{Cell, keys_of, values_of, insert, add_named_query-insert}

-- A name and its query.
abbrev pub Entry : Type 0
Entry = Text × Text

abbrev pub cell : Entry → Cell
cell e = (some e.0, some e.1)

abbrev free : Cell
free = (none, none)

abbrev pub cells : ℕ → List Entry → List Cell
cells m r = replicate m free ++ map cell r

-- `m` entries are still to come, and `r` are those read so far, the greatest name first.
pub record Holds (q : Queries) (m : ℕ) (r : List Entry) : Type 0 where
  pub keys : q.keys ≡ reverse_aux (keys_of (cells m r)) (none ∷ [])
  pub values : q.values ≡ reverse_aux (values_of (cells m r)) (none ∷ [])
  pub count : q.count ≡ m + length r

unfoldable pub insert_entry : Text → Text → List Entry → List Entry
insert_entry name query [] = (name, query) ∷ []
insert_entry name query (e ∷ r) =
    if goes_before name (some e.0) then e ∷ insert_entry name query r else (name, query) ∷ e ∷ r

-- Free cells precede everything.
insert-cells :
    (name query : Text) (m : ℕ) (r : List Entry)
    → insert name query (cells m r) ≡ cells m (insert_entry name query r)
unfolding insert insert_entry goes_before
insert-cells name query zero [] = refl
insert-cells name query zero (e ∷ r) = ground (arith, insert-cells name query zero r)
insert-cells name query (suc m) r = ap (◌∷◌ free) (insert-cells name query m r)

length-insert_entry :
    (name query : Text) (r : List Entry) → length (insert_entry name query r) ≡ suc (length r)
unfolding insert_entry
length-insert_entry name query [] = refl
length-insert_entry name query (e ∷ r) = ground (arith, length-insert_entry name query r)

-- One call takes up one of the entries that are to come.
pub add_named_query-Holds :
    (q : Queries) (m : ℕ) (r : List Entry) (name query : Text)
    → Holds q (suc m) r
    → (q' : Queries) × (add_named_query q name query ≡ some q')
      × Holds q' m (insert_entry name query r)
add_named_query-Holds q m r name query h =
    let rest = cells (suc m) r in
    let size : q.count ≡ length rest = omega (
      arith,
      h.count,
      length-append (replicate (suc m) free) (map cell r),
      length-replicate (suc m) free,
      length-map cell r,
    ) in
    let added = insert-cells name query (suc m) r in
    (
      record {
        keys = reverse_aux (keys_of (insert name query rest)) [];
        values = reverse_aux (values_of (insert name query rest)) [];
        count = q.count;
      },
      add_named_query-insert q name query rest h.keys h.values size,
      record {
        keys = ap (λ c. reverse_aux (keys_of c) []) added;
        values = ap (λ c. reverse_aux (values_of c) []) added;
        count = omega (arith, h.count, length-insert_entry name query r);
      },
    )

replicate-free :
    (f : Cell → Option Text) (n : ℕ) (t : Cells)
    → f free ≡ none
    → reverse_aux (map f (replicate n free ++ [])) t ≡ replicate n none ++ t
replicate-free f zero t e = refl
replicate-free f (suc n) t e = rw e (replicate-free f n (none ∷ t) e ∙ replicate-none n t)
  where
    replicate-none :
        (n : ℕ) (t : Cells) → replicate n none ++ none ∷ t ≡ none ∷ (replicate n none ++ t)
    replicate-none zero t = refl
    replicate-none (suc n) t = ap (◌∷◌ none) (replicate-none n t)

-- The arrays that `read_config_queries` allocates.
pub fresh-Holds :
    (n : ℕ)
    → Holds
        (record { keys = replicate (n + 1) none; values = replicate (n + 1) none; count = n })
        n
        []
fresh-Holds n = record {
  keys = replicate-add n 1 none ∙ sym (replicate-free (λ c. c.0) n (none ∷ []) refl);
  values = replicate-add n 1 none ∙ sym (replicate-free (λ c. c.1) n (none ∷ []) refl);
  count = omega arith;
}

-- The entries of a group: its elements that are strings.
unfoldable pub entries : List Element → List Entry
entries [] = []
entries (e ∷ es) = elim e.string [ none ↦ entries es | some value ↦ (e.name, value) ∷ entries es ]

unfoldable pub insert_all : List Entry → List Entry → List Entry
insert_all [] r = r
insert_all (e ∷ es) r = insert_all es (insert_entry e.0 e.1 r)

pub map-reverse_aux {ℓ κ} :
    {A : Type ℓ} {B : Type κ} (f : A → B) (r s : List A) (t : List B)
    → reverse_aux (map f r) (map f s ++ t) ≡ map f (reverse_aux r s) ++ t
map-reverse_aux f [] s t = refl
map-reverse_aux f (x ∷ r) s t = map-reverse_aux f r (x ∷ s) t

-- Every element of the group is a string.
unfoldable pub all_strings : List Element → Bool
all_strings [] = true
all_strings (e ∷ es) = elim e.string [ none ↦ false | some value ↦ all_strings es ]

-- The loop never faults: it stops at the first element that is no string, or all are entered.
pub add_elements-Holds :
    (es : List Element) (q : Queries) (r : List Entry)
    → Holds q (length es) r
    → (q' : Queries) × (add_elements q es ≡ some (q', all_strings es))
      × (all_strings es ≡ true → Holds q' 0 (insert_all (entries es) r))
unfolding add_elements entries insert_all all_strings
add_elements-Holds [] q r h = (q, refl, λ e. h)
add_elements-Holds (e ∷ es) q r h = elim (Option-cases e.string) [
  | inl other ↦ (q, rw (other), λ t. cc (rw other at t))
  | inr (value, is) ↦
      let (q₁, added, h₁) = add_named_query-Holds q (length es) r e.name value h in
      let (q₂, rest, h₂) = add_elements-Holds es q₁ (insert_entry e.name value r) h₁ in
      (q₂, rw (is, added) rest, λ t. rw is (h₂ (rw is at t)))
]
