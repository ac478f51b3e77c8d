-- ===== src/Queries.antt =====
-- src/pg_config.c: the named queries of the configuration file, in two parallel sorted arrays.
-- An array is the list of its cells, a cell that is NULL is `none`. An access past the end of an
-- array and a `strcmp` on NULL are `none` too: the call is undefined.
pub mod Insert
pub mod Search
pub mod Loaded
pub mod Sorted
pub mod Lookup
use libzbxpgsql.Base.{
  ℕ, zero, suc, ◌+◌, ◌-◌, ◌/◌, Ordering, Bool, true, false, Option, none, some, List, [], ◌∷◌, Text,
  bytes, length, replicate, get_elem?, set?, ltb, strcmp, strncmp, is_eq, if◌then◌else◌, ◌>>=◌,
}

abbrev pub Cells : Type 0
Cells = List (Option Text)

-- `query_keys`, `query_values` and `query_count`
pub record Queries : Type 0 where
  pub keys : Cells
  pub values : Cells
  pub count : ℕ

-- The static initialisers; the NULL arrays are never read while the count is 0.
abbrev pub no_queries : Queries
no_queries = record { keys = []; values = []; count = 0 }

-- The test of the loop in `add_named_query`: the cell is NULL, or `0 > strcmp(name, cell)`.
unfoldable pub goes_before : Text → Option Text → Bool
goes_before name none = true
goes_before name (some key) = elim (strcmp name key) [ Ordering.lt ↦ true | _ ↦ false ]

-- The loop of `add_named_query`, whose index `i` is `n - 1` here. It returns `i + 1` and the arrays.
unfoldable pub make_room : ℕ → Text → Cells → Cells → Option (ℕ × Cells × Cells)
make_room zero name keys values = some (0, keys, values)
make_room (suc i) name keys values = do
  key ← get_elem? keys i
  let move : Option (ℕ × Cells × Cells) = do
    value ← get_elem? values i
    keys₁ ← set? keys (suc i) key
    values₁ ← set? values (suc i) value
    keys₂ ← set? keys₁ i none
    values₂ ← set? values₁ i none
    make_room i name keys₂ values₂
  if goes_before name key then move else some (suc i, keys, values)

unfoldable pub add_named_query : Queries → Text → Text → Option Queries
unfolding make_room goes_before
add_named_query q name query = do
  (at, keys, values) ← make_room q.count name q.keys q.values
  keys' ← set? keys at (some name)
  values' ← set? values at (some query)
  some (record q { keys = keys'; values = values' })

-- The binary search. `hi` is `top + 1`, since `top` may be -1; the loop ends when `bottom > top`.
-- The result `some none` is NULL.
module _ (q : Queries) (key : Text) where
  unfoldable pub search_loop : ℕ → (bottom hi : ℕ) → Option (Option Text)
  search_loop zero bottom hi = none
  search_loop (suc fuel) bottom hi =
      let mid = (bottom + (hi - 1)) / 2 in
      let body : Option (Option Text) = (do
        cell ← get_elem? q.keys mid
        found ← cell
        elim (strcmp found key) [
          | Ordering.eq ↦ get_elem? q.values mid
          | Ordering.gt ↦ search_loop fuel bottom mid
          | Ordering.lt ↦ search_loop fuel (mid + 1) hi
        ]) in
      if ltb bottom hi then body else some none

  -- each round leaves fewer cells, so one round more than there are cells is enough
  unfoldable pub get_query_by_name : Option (Option Text)
  unfolding search_loop
  get_query_by_name = search_loop (q.count + 1) 0 q.count

-- What libconfig hands over: an element of a group, with its string if it is one.
pub record Element : Type 0 where
  pub name : Text
  pub string : Option Text

-- A setting at the root: is it a group, and its elements.
pub record Setting : Type 0 where
  pub name : Text
  pub is_group : Bool
  pub elements : List Element

-- The loop of `read_config_queries`; the flag is `EXIT_SUCCESS`.
unfoldable pub add_elements : Queries → List Element → Option (Queries × Bool)
unfolding add_named_query
add_elements q [] = some (q, true)
add_elements q (e ∷ es) = elim e.string [
  | none ↦ some (q, false)
  | some value ↦ do q' ← add_named_query q e.name value; add_elements q' es
]

unfoldable pub read_config_queries : Queries → Setting → Option (Queries × Bool)
unfolding add_elements
read_config_queries q root =
    let n = length root.elements in
    let fresh : Queries = record {
      keys = replicate (n + 1) none;
      values = replicate (n + 1) none;
      count = n;
    } in
    if root.is_group then add_elements fresh root.elements else some (q, false)
