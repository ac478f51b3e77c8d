-- ===== src/Query/Laws.antt =====
-- `pg_exec` on a live connection, and the value that `pg_scalar` takes from a result.
use libzbxpgsql.Base.{
  ℕ, suc, ◌≡◌, true, false, Option, none, some, List, [], ◌∷◌, ◌++◌, Text, bytes, arith,
}
use native.Mathlib.Nat.{le_refl}
use libzbxpgsql.Runtime.{
  Env, World, Object, PgResult, Report, conn, result, params, msg, executed, write,
}
use libzbxpgsql.Runtime.Laws.{load-some}
use libzbxpgsql.Params.{PgParams}
use libzbxpgsql.Params.Laws.{
  IsParams, IsFresh, array, cell_texts-array, param_len-IsParams, param_free-IsParams,
}
use libzbxpgsql.Query.{param_texts, pg_exec, scalar_of}

-- The state behind `pg_exec`: the result is a new block, and the array of the parameters is free.
abbrev pub freed : PgParams → (ℕ → Option Object) → ℕ → Option Object
freed none h = h
freed (some q) h = write h q none

pub param_texts-IsParams :
    (w : World) (ps : PgParams) (ss : List Text)
    → IsParams w ps ss
    → param_texts ps w ≡ some (ss, w)
unfolding param_texts
param_texts-IsParams w none ss h = rw h
param_texts-IsParams w (some q) ss h =
    ground (arith, load-some w q (params (array ss)) h, cell_texts-array ss)

abbrev pub answer : Env → World → Text → Text → List Text → PgResult
answer env w c query ss = env.execute w.history c query ss

abbrev asked : Env → World → Text → Text → List Text → World
asked env w c query ss = record w {
  next = suc w.next;
  heap = write w.heap w.next (some (result (answer env w c query ss)));
  history = executed c query ss ∷ w.history;
}

abbrev pub queried : Env → World → Text → Text → PgParams → List Text → World
queried env w c query ps ss = record w {
  next = suc w.next;
  heap = freed ps (write w.heap w.next (some (result (answer env w c query ss))));
  history = executed c query ss ∷ w.history;
}

asked-IsParams :
    (env : Env) (w : World) (c query : Text) (q : ℕ) (ss : List Text)
    → IsFresh w
    → IsParams w (some q) ss
    → IsParams (asked env w c query ss) (some q) ss
asked-IsParams env w c query q ss f h = ground (arith, f w.next (le_refl _))

-- On a live connection the query is asked with the strings of the array, which is freed.
pub pg_exec-IsParams :
    (env : Env) (w : World) (p : ℕ) (c query : Text) (ps : PgParams) (ss : List Text)
    → IsFresh w
    → w.heap p ≡ some (conn c)
    → IsParams w ps ss
    → pg_exec env p query ps w ≡ some (w.next, queried env w c query ps ss)
unfolding pg_exec
pg_exec-IsParams env w p c query none ss f live h = ground (
  arith,
  param_len-IsParams w none ss h,
  load-some w p (conn c) live,
  param_texts-IsParams w none ss h,
)
pg_exec-IsParams env w p c query (some q) ss f live h = ground (
  arith,
  param_len-IsParams w (some q) ss h,
  load-some w p (conn c) live,
  param_texts-IsParams w (some q) ss h,
  param_free-IsParams (asked env w c query ss) q ss (asked-IsParams env w c query q ss f h),
)

-- What `pg_scalar` makes of the result of its query: the value, or a message; undefined where the
-- result has a row and no column.
unfoldable pub scalar_spec : Env → Text → PgResult → Option (Option Text × List Report)
scalar_spec env query r = elim r.tuples_ok [
  | false ↦ some (
    none,
    msg (
          env.clip env.max_string_len
            (bytes "PostgreSQL error for query \"" ++ (query ++ (bytes "\": " ++ r.error_message))))
        ∷ [],
  )
  | true ↦ elim r.rows [
    | [] ↦ some (
      none,
      msg (
            env.clip env.max_string_len
              (bytes "No results returned for query \"" ++ (query ++ bytes "\"")))
          ∷ [],
    )
    | row ∷ rest ↦ elim row [
      | [] ↦ none
      | value ∷ others ↦ some (some (env.clip env.max_string_len value), [])
    ]
  ]
]

abbrev pub with_reports : List Report → World → World
with_reports rs w = record w { reports = rs ++ w.reports }

-- the value and the reports, in the state at hand
abbrev pub reported : {B : Type 0} → Option (B × List Report) → World → Option (B × World)
reported none w = none
reported (some (v, rs)) w = some (v, with_reports rs w)

pub scalar_of-scalar_spec :
    (env : Env) (query : Text) (r : PgResult) (w : World)
    → scalar_of env query r w ≡ reported (scalar_spec env query r) w
unfolding scalar_of scalar_spec
scalar_of-scalar_spec env query r w = ground arith
