-- ===== src/Query.antt =====
-- src/libzbxpgsql.c: `pg_exec`, `pg_scalar`, `pg_get_result`, `pg_get_percentage`, `pg_version`.
pub mod Laws
pub mod Exchange
pub mod Scalar
use libzbxpgsql.Base.{
  ℕ, zero, suc, ◌+◌, ◌-◌, ltb, ◌==◌, Bool, true, false, Option, none, some, List, [], ◌∷◌, ◌++◌,
  Text, bytes, length, get_elem?, strisnull, ℤ, pos, negsuc, if◌then◌else◌,
}
use libzbxpgsql.Runtime.{
  Env, World, Request, PgResult, Cmd, pure, lift, ◌>>=◌, ◌>>◌, alloc, load, ask, report, result,
  executed, ui64, dbl, str, as_conn, as_result, as_params,
}
use libzbxpgsql.Params.{PgParams, param_len, param_new, param_free, cell_texts}
use libzbxpgsql.Connect.{pq_finish, pq_clear, history_of, set_err_result, pg_connect_request}
use libzbxpgsql.Numbers.{u64, strtoull, atol}

-- The strings that PQexecParams reads from the array.
unfoldable pub param_texts : PgParams → Cmd (List Text)
unfolding load cell_texts
param_texts none = pure []
param_texts (some p) = do o ← load p; cells ← lift (as_params o); pure (cell_texts cells)

-- PQgetvalue: NULL where there is no such row or column
unfoldable pub pq_getvalue : PgResult → ℕ → ℕ → Option Text
pq_getvalue res row column = elim (get_elem? res.rows row) [
  | none ↦ none
  | some r ↦ get_elem? r column
]

-- The result types AR_STRING, AR_UINT64 and AR_DOUBLE.
pub data ResultType : Type 0 where
  ar_string ar_uint64 ar_double : ResultType

-- The conversion of a double to `unsigned long long`, which is undefined where the integer part is
-- not one.
unfoldable pub double_u64 : Option ℤ → Option ℕ
double_u64 none = none
double_u64 (some (negsuc n)) = none
double_u64 (some (pos n)) = if ltb n u64 then some n else none

module _ (env : Env) where
  unfoldable pub pg_exec : ℕ → Text → PgParams → Cmd ℕ
  unfolding alloc load ask param_len param_free param_texts
  pg_exec conn command params = do
    nparams ← param_len params
    o ← load conn
    connstring ← lift (as_conn o)
    values ← param_texts params
    h ← history_of
    ask (executed connstring command values)
    res ← alloc (result (env.execute h connstring command values))
    param_free params
    pure res

  -- the part of `pg_scalar` between `pg_exec` and the label `out`; `none` is SYSINFO_RET_FAIL
  unfoldable pub scalar_of : Text → PgResult → Cmd (Option Text)
  unfolding set_err_result pq_getvalue
  scalar_of query res =
      if res.tuples_ok
      then (if length res.rows == 0
          then (do
            set_err_result env true
                (bytes "No results returned for query \"" ++ (query ++ bytes "\""))
            pure none)
          else (do
            value ← lift (pq_getvalue res 0 0)
            pure (some (env.clip env.max_string_len value))))
      else (do
        set_err_result env true (
            bytes "PostgreSQL error for query \"" ++ (query ++ (bytes "\": " ++ res.error_message)))
        pure none)

  -- The buffer of every caller has MAX_STRING_LEN bytes. The result is the buffer, or a failure.
  unfoldable pub pg_scalar : Request → Text → PgParams → Cmd (Option Text)
  unfolding load pg_connect_request pg_exec scalar_of pq_clear pq_finish
  pg_scalar request query params = do
    connected ← pg_connect_request env request true
    elim connected [
      | none ↦ do pq_clear none; pq_finish none; pure none
      | some conn ↦ do
        res ← pg_exec conn query params
        o ← load res
        r ← lift (as_result o)
        value ← scalar_of query r
        pq_clear (some res)
        pq_finish (some conn)
        pure value
    ]

  -- `1 < strlen(value) && '.' == value[1]`
  unfoldable pub is_e_notation : Text → Bool
  is_e_notation (c ∷ d ∷ s) = d == b'.'
  is_e_notation _ = false

  -- the switch of `pg_get_result`
  unfoldable pub set_result : ResultType → Text → Cmd (Unit {0})
  unfolding report double_u64
  set_result ar_string value = report (str value)
  set_result ar_uint64 value = do
    n ← lift (if is_e_notation value then double_u64 (env.strtod value) else some (strtoull value))
    report (ui64 n)
  set_result ar_double value = report (dbl value)

  -- The flag is SYSINFO_RET_OK.
  unfoldable pub pg_get_result : Request → ResultType → Text → PgParams → Cmd Bool
  unfolding pg_scalar set_result
  pg_get_result request type query params = do
    value ← pg_scalar request query params
    elim value [ none ↦ pure false | some v ↦ do set_result type v; pure true ]

  -- The query that `pg_get_percentage` prints into a buffer of MAX_STRING_LEN bytes, in two steps.
  unfoldable pub percentage_query : (table col1 col2 : Text) → Option Text → Text
  percentage_query table col1 col2 col_filter =
      let query = env.clip env.max_string_len (
        bytes "SELECT CASE WHEN ("
        ++ (col2
            ++ (bytes ") = 0 THEN 1 ELSE ("
                ++ (col1
                    ++ (bytes ")::float / (" ++ (col2 ++ (bytes ") END FROM " ++ table))))))) in
      elim col_filter [
        | none ↦ query
        | some filter ↦
            if strisnull (some filter)
            then query
            else query
              ++ env.clip (env.max_string_len - length query)
                  (bytes " WHERE " ++ (filter ++ bytes " = $1"))
      ]

  unfoldable pub pg_get_percentage :
      Request → (table col1 col2 : Text) (col_filter filter : Option Text) → Cmd Bool
  unfolding pg_get_result percentage_query
  pg_get_percentage request table col1 col2 col_filter filter = do
    params ← param_new filter
    pg_get_result request ar_double (percentage_query table col1 col2 col_filter) params

  unfoldable pub pg_version : Request → Cmd ℤ
  unfolding pg_scalar
  pg_version request = do
    value ←
        pg_scalar request (bytes "SELECT setting FROM pg_settings WHERE name='server_version_num'")
          none
    elim value [ none ↦ pure (pos 0) | some buffer ↦ lift (atol buffer) ]
