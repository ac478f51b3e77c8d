-- ===== src/Queries/Insert.antt =====
-- `add_named_query` puts its entry behind those that it does not precede and moves the rest up by
-- one cell: on the arrays it is an ordered insertion.
use libzbxpgsql.Base.{
  ℕ, suc, ◌+◌, ◌≡◌, refl, Bool-cases, inl, inr, Option, none, some, List, [], ◌∷◌, Text, length,
  map, length-map, get_elem?-middle, set?-middle, get_elem?, set?, if◌then◌else◌, ◌>>=◌, arith,
}
use mathlib.Core.List.{reverse, reverse_aux, reverse_aux-eq}
use libzbxpgsql.Queries.{Cells, Queries, goes_before, make_room, add_named_query}

module _ {ℓ} {A : Type ℓ} where
  pub length-reverse_aux : (r t : List A) → length (reverse_aux r t) ≡ length r + length t
  length-reverse_aux [] t = omega arith
  length-reverse_aux (a ∷ r) t = omega (arith, length-reverse_aux r (a ∷ t))

  pub length-reverse : (r : List A) → length (reverse r) ≡ length r
  length-reverse r = omega (arith, length-reverse_aux r [])

  -- the cell behind those that are read from the end
  get_elem?-reverse_aux :
      (r t : List A) (a : A) → get_elem? (reverse_aux r (a ∷ t)) (length r) ≡ some a
  get_elem?-reverse_aux r t a =
      rw (reverse_aux-eq, ← length-reverse r) (get_elem?-middle (reverse r) t a)

  set?-reverse_aux :
      (r t : List A) (a b : A)
      → set? (reverse_aux r (a ∷ t)) (length r) b ≡ some (reverse_aux r (b ∷ t))
  set?-reverse_aux r t a b =
      rw (reverse_aux-eq r (a ∷ t), reverse_aux-eq r (b ∷ t), ← length-reverse r)
        (set?-middle (reverse r) t a b)

-- A cell of both arrays.
abbrev pub Cell : Type 0
Cell = Option Text × Option Text

abbrev pub keys_of : List Cell → Cells
keys_of = map (λ c. c.0)

abbrev pub values_of : List Cell → Cells
values_of = map (λ c. c.1)

-- The insertion, on the cells read from the end.
unfoldable pub insert : Text → Text → List Cell → List Cell
insert name query [] = (some name, some query) ∷ []
insert name query (c ∷ r) =
    if goes_before name c.0 then c ∷ insert name query r else (some name, some query) ∷ c ∷ r

module _ (f : Cell → Option Text) (r : List Cell) (t : Cells) where
  at_end : (a : Option Text) → get_elem? (reverse_aux (map f r) (a ∷ t)) (length r) ≡ some a
  at_end a = rw (← length-map f r) (get_elem?-reverse_aux (map f r) t a)

  set_at :
      (a b : Option Text)
      → set? (reverse_aux (map f r) (a ∷ t)) (length r) b ≡ some (reverse_aux (map f r) (b ∷ t))
  set_at a b = rw (← length-map f r) (set?-reverse_aux (map f r) t a b)

  set_after :
      (c a b : Option Text)
      → set? (reverse_aux (map f r) (c ∷ a ∷ t)) (suc (length r)) b
        ≡ some (reverse_aux (map f r) (c ∷ b ∷ t))
  set_after c a b = rw (← length-map f r) (set?-reverse_aux (c ∷ map f r) t a b)

-- the writes behind the loop
finish : ℕ → Text → Text → ℕ × Cells × Cells → Option Queries
finish n name query (at, keys, values) = do
  keys' ← set? keys at (some name)
  values' ← set? values at (some query)
  some (record { keys = keys'; values = values'; count = n })

-- With a free cell behind the cells `r`, the loop and the two writes insert the entry.
make_room-insert :
    (n : ℕ) (name query : Text) (r : List Cell) (s t : Cells)
    → (make_room
          (length r)
          name
          (reverse_aux (keys_of r) (none ∷ s))
          (reverse_aux (values_of r) (none ∷ t))
        >>= finish n name query)
      ≡ some (record {
        keys = reverse_aux (keys_of (insert name query r)) s;
        values = reverse_aux (values_of (insert name query r)) t;
        count = n;
      })
unfolding make_room insert finish
make_room-insert n name query [] s t = refl
make_room-insert n name query ((k, v) ∷ r) s t = elim (Bool-cases (goes_before name k)) [
  | inl moved ↦
      rw (at_end (λ c. c.0) r (none ∷ s) k, ◌>>=◌, moved)
        (rw (at_end (λ c. c.1) r (none ∷ t) v) (
          rw (set_after (λ c. c.0) r s k none k) (
            rw (set_after (λ c. c.1) r t v none v) (
              rw (set_at (λ c. c.0) r (k ∷ s) k none) (
                rw (set_at (λ c. c.1) r (v ∷ t) v none)
                  (make_room-insert n name query r (k ∷ s) (v ∷ t)))))))
  | inr stays ↦
      rw (at_end (λ c. c.0) r (none ∷ s) k, ◌>>=◌, stays)
        (rw (set_after (λ c. c.0) r s k none (some name), ◌>>=◌)
          (rw (set_after (λ c. c.1) r t v none (some query))))
]

-- `add_named_query` on arrays that end in a free cell, with `count` cells `r` in front of it.
pub add_named_query-insert :
    (q : Queries) (name query : Text) (r : List Cell)
    → q.keys ≡ reverse_aux (keys_of r) (none ∷ [])
    → q.values ≡ reverse_aux (values_of r) (none ∷ [])
    → q.count ≡ length r
    → add_named_query q name query
      ≡ some (record {
        keys = reverse_aux (keys_of (insert name query r)) [];
        values = reverse_aux (values_of (insert name query r)) [];
        count = q.count;
      })
unfolding add_named_query finish
add_named_query-insert q name query r k v c =
    rw (k, v, c) (make_room-insert (length r) name query r [] [])
