-- ===== src/Metrics/Laws.antt =====
-- The keys of the table, and the fields that the handlers read from them.
use libzbxpgsql.Base.{
  zero, suc, sym, ap, subst, Option-cases, get_elem?, drop, length, length-append, ◌∙◌, Bool-cases,
  ==_iff, inl, inr, Bool, true, false, ◌&&◌, not, ◌≡◌, refl, Option, none, some, List, [], ◌∷◌,
  ◌++◌, Text, bytes, same, strcmp, strisnull, leb, ◌==◌, ◌||◌, if◌then◌else◌, ℕ, arith,
}
use libzbxpgsql.Runtime.{World}
use libzbxpgsql.Items.{key_field}
use libzbxpgsql.Metrics.{
  Function, fn_pg_stat_bgwriter, fn_pg_stat_database, fn_pg_stat_all_tables,
  fn_pg_statio_all_tables, fn_pg_stat_all_indexes, fn_pg_statio_all_indexes, fn_pg_query, Metric,
  keys,
}

-- The part of a key in front of the field that its handler reads.
abbrev pub field_prefix : Function → Option Text
field_prefix fn_pg_stat_bgwriter = some (bytes "pg.")
field_prefix fn_pg_stat_database = some (bytes "pg.db.")
field_prefix fn_pg_stat_all_tables = some (bytes "pg.table.")
field_prefix fn_pg_statio_all_tables = some (bytes "pg.table.")
field_prefix fn_pg_stat_all_indexes = some (bytes "pg.index.")
field_prefix fn_pg_statio_all_indexes = some (bytes "pg.index.")
field_prefix fn_pg_query = some (bytes "pg.query.")
field_prefix _ = none

-- A column name: small letters and `_`.
abbrev is_column_char : ℕ → Bool
is_column_char c = leb b'a' c && leb c b'z' || c == b'_'

abbrev pub is_column : Text → Bool
is_column [] = true
is_column (c ∷ s) = is_column_char c && is_column s

-- What is left of a text behind a prefix.
abbrev pub behind : Text → Text → Option Text
behind [] s = some s
behind (c ∷ p) [] = none
behind (c ∷ p) (d ∷ s) = if c == d then behind p s else none

abbrev names_column : Option Text → Text → Bool
names_column none key = true
names_column (some p) key = elim (behind p key) [
  | none ↦ false
  | some field ↦ is_column field && not (strisnull (some field))
]

abbrev pub is_new : Metric → List Metric → Bool
is_new m [] = true
is_new m (n ∷ ms) = not (same m.key n.key) && is_new m ms

abbrev pub all_new : List Metric → Bool
all_new [] = true
all_new (m ∷ ms) = is_new m ms && all_new ms

abbrev pub all_columns : List Metric → Bool
all_columns [] = true
all_columns (m ∷ ms) = names_column (field_prefix m.function) m.key && all_columns ms

pub keys_unique : all_new keys ≡ true
unfolding keys strcmp
keys_unique = refl

keys_columns : all_columns keys ≡ true
unfolding keys strisnull
keys_columns = refl

behind-append : (p s field : Text) → behind p s ≡ some field → s ≡ p ++ field
behind-append [] s field e = ground (arith, e)
behind-append (c ∷ p) [] field e = absurd (ground (arith, e))
behind-append (c ∷ p) (d ∷ s) field e = elim (Bool-cases (c == d)) [
  | inl same_head ↦
      ap (λ x. x ∷ s) (sym ((==_iff c d).0 same_head))
      ∙ ap (◌∷◌ c) (behind-append p s field (ground (arith, e, same_head)))
  | inr other ↦ absurd (ground (arith, e, other))
]

column_of :
    (p key : Text)
    → names_column (some p) key ≡ true
    → (field : Text) × (key ≡ p ++ field)
      × (is_column field ≡ true)
      × (strisnull (some field) ≡ false)
column_of p key e = elim (Option-cases (behind p key)) [
  | inl no_field ↦ absurd (ground (arith, e, no_field))
  | inr (field, found) ↦
      (field, behind-append p key field found, ground (arith, e, found), ground (arith, e, found))
]

columns_at :
    (ms : List Metric) (i : ℕ) (m : Metric)
    → all_columns ms ≡ true
    → get_elem? ms i ≡ some m
    → names_column (field_prefix m.function) m.key ≡ true
columns_at [] i m e h = absurd (ground (arith, h))
columns_at (n ∷ ms) zero m e h =
    let here : names_column (field_prefix n.function) n.key ≡ true = ground (arith, e) in
    ground (arith, here, h)
columns_at (n ∷ ms) (suc i) m e h = columns_at ms i m (ground (arith, e)) h

pub drop-append : (p field : Text) → drop (length p) (p ++ field) ≡ field
drop-append [] field = refl
drop-append (c ∷ p) field = drop-append p field

key_field-append :
    (p field : Text) (w : World) → key_field (length p) (p ++ field) w ≡ some (field, w)
unfolding key_field
key_field-append p field w =
    let within : leb (length p) (length (p ++ field)) ≡ true =
      ground (arith, length-append p field) in
    rw (within, drop-append p field) refl

-- For every entry of the table whose handler reads a field from the key: the key is the prefix that
-- the handler skips and a column name that is not empty, and skipping is within the key.
pub keys-field_prefix :
    (i : ℕ) (m : Metric) (p : Text) (w : World)
    → get_elem? keys i ≡ some m
    → field_prefix m.function ≡ some p
    → (field : Text) × (m.key ≡ p ++ field)
      × (is_column field ≡ true)
      × (strisnull (some field) ≡ false)
      × (key_field (length p) m.key w ≡ some (field, w))
keys-field_prefix i m p w h e =
    let (field, shape, column, given) =
      column_of p m.key
        (subst (λ x. names_column x m.key ≡ true) e (columns_at keys i m keys_columns h)) in
    (
      field,
      shape,
      column,
      given,
      ap (λ k. key_field (length p) k w) shape ∙ key_field-append p field w,
    )
