-- ===== src/Items/Database/Laws.antt =====
-- `PG_STAT_DATABASE` for one database: the query and the type that its key asks for.
use libzbxpgsql.Base.{
  ℕ, ◌≡◌, sym, subst, ap, ◌∙◌, Bool-cases, inl, inr, Option, none, some, List, [], ◌∷◌, ◌++◌, Text,
  bytes, strisnull, starts, if◌then◌else◌, arith,
}
use libzbxpgsql.Runtime.{Env, World, Request, Report, ◌>>=◌}
use libzbxpgsql.Params.{param_new}
use libzbxpgsql.Params.Laws.{IsFresh}
use libzbxpgsql.Connect.{param_first}
use libzbxpgsql.Connect.Laws.{request_connstring, IsTextRequest}
use libzbxpgsql.Query.{ResultType, ar_string, ar_uint64, ar_double, pg_get_result}
use libzbxpgsql.Query.Laws.{scalar_spec}
use libzbxpgsql.Query.Exchange.{answered}
use libzbxpgsql.Query.Scalar.{Ends, result_spec}
use libzbxpgsql.Items.{key_field, formatted}
use libzbxpgsql.Items.Laws.{param_new-Asks}
use libzbxpgsql.Items.Database.{get_db_stat, pg_stat_database}

-- The type of a column of pg_stat_database.
abbrev pub stat_type : Text → ResultType
stat_type field =
    if starts field (bytes "stats_reset") 11
    then ar_string
    else if starts field (bytes "blk_") 4
    then ar_double
    else ar_uint64

abbrev pub stat_query : Env → Text → Text
stat_query env field = formatted env get_db_stat (field ∷ [])

key_field-database :
    (field : Text) (w : World) → key_field 6 (bytes "pg.db." ++ field) w ≡ some (field, w)
unfolding key_field
key_field-database field w = ground arith

module _ (env : Env) (request : Request) (field : Text) (c : ℕ) (s : Text) (w : World)
    (key : request.key ≡ bytes "pg.db." ++ field)
    (name : request.rparam param_first ≡ some (c ∷ s)) where
  stat_steps :
      pg_stat_database env request w
      ≡ (param_new (some (c ∷ s)) >>= λ params.
            pg_get_result env request (stat_type field) (stat_query env field) params)
          w
  unfolding pg_stat_database strisnull
  stat_steps =
      let reads = ap (λ k. key_field 6 k w) key ∙ key_field-database field w in
      elim (Bool-cases (starts field (bytes "stats_reset") 11)) [
        | inl reset ↦ ground (arith, reads, name, reset)
        | inr other ↦ elim (Bool-cases (starts field (bytes "blk_") 4)) [
          | inl blk ↦ ground (arith, reads, name, other, blk)
          | inr not_blk ↦ ground (arith, reads, name, other, not_blk)
        ]
      ]

  -- For a key pg.db.<field> and a database that is named, on a connection that the server accepts
  -- and for a result that can be read: `PG_STAT_DATABASE` asks for that column of the database, by
  -- one query with the name as its parameter, and sets it as a string for stats_reset, as a double
  -- for blk_ columns and else as an integer, or the message of the failure; the memory is as it was
  -- before. It is undefined for an integer that is read as a double which has no conversion.
  pub pg_stat_database-Asks :
      (v : Option Text) (rs : List Report)
      → IsTextRequest request
      → IsFresh w
      → env.connect w.history (request_connstring request) ≡ none
      → scalar_spec env
          (stat_query env field)
          (answered env w request (stat_query env field) ((c ∷ s) ∷ []))
        ≡ some (v, rs)
      → Ends request
          (stat_query env field)
          none
          ((c ∷ s) ∷ [])
          w
          (pg_stat_database env request w)
          (result_spec env (stat_type field) v rs)
  pg_stat_database-Asks v rs text_ok f accepted e =
      subst
        (λ r.
          Ends request (stat_query env field) none ((c ∷ s) ∷ []) w r
            (result_spec env (stat_type field) v rs))
        (sym stat_steps)
        (param_new-Asks env request (stat_type field) (stat_query env field) (some (c ∷ s)) w
          text_ok f accepted v rs e)
