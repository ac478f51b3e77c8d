-- ===== src/Params.antt =====
-- src/pg_params.c: the NULL-terminated arrays of query parameters.
pub mod Laws
pub mod Owned
use libzbxpgsql.Base.{
  ℕ, zero, suc, ◌+◌, Bool, true, false, Option, none, some, List, [], ◌∷◌, Text, length, set?,
  strisnull, if◌then◌else◌,
}
use libzbxpgsql.Runtime.{Cmd, pure, lift, ◌>>=◌, ◌>>◌, alloc, load, free, params, as_params}

-- A pointer to an array, or NULL.
abbrev pub PgParams : Type 0
PgParams = Option ℕ

abbrev pub Cells : Type 0
Cells = List (Option Text)

-- `for (c = params; *c; c++) len++;`
unfoldable pub count_cells : Cells → Option ℕ
count_cells [] = none
count_cells (none ∷ cells) = some 0
count_cells (some s ∷ cells) = elim (count_cells cells) [ none ↦ none | some n ↦ some (suc n) ]

unfoldable pub param_len : PgParams → Cmd ℕ
unfolding count_cells
param_len none = pure 0
param_len (some p) = do o ← load p; cells ← lift (as_params o); lift (count_cells cells)

-- `zbx_realloc`: the cells that are new hold nothing of use.
unfoldable pub resize : ℕ → Cells → Cells
resize zero cells = []
resize (suc n) [] = none ∷ resize n []
resize (suc n) (c ∷ cells) = c ∷ resize n cells

unfoldable pub param_append : PgParams → Option Text → Cmd PgParams
unfolding param_len resize
param_append ps none = pure ps
param_append ps (some []) = pure ps
param_append none (some (c ∷ s)) = do p ← alloc (params (some (c ∷ s) ∷ none ∷ [])); pure (some p)
param_append (some p) (some (c ∷ s)) = do
  len ← param_len (some p)
  o ← load p
  cells ← lift (as_params o)
  cells₁ ← lift (set? (resize (len + 2) cells) len (some (c ∷ s)))
  cells₂ ← lift (set? cells₁ (len + 1) none)
  free p
  p' ← alloc (params cells₂)
  pure (some p')

-- `param_new(s)` of libzbxpgsql.h
abbrev pub param_new : Option Text → Cmd PgParams
param_new s = param_append none s

-- The strings go with the block of their array; the walk over them needs the terminator.
unfoldable pub param_free : PgParams → Cmd (Unit {0})
unfolding count_cells
param_free none = pure tt
param_free (some p) = do
  o ← load p
  cells ← lift (as_params o)
  len ← lift (count_cells cells)
  free p

-- The strings in front of the terminator.
unfoldable pub cell_texts : Cells → List Text
cell_texts [] = []
cell_texts (none ∷ cells) = []
cell_texts (some s ∷ cells) = s ∷ cell_texts cells
