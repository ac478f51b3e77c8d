-- ===== src/Items/Backends.antt =====
-- src/pg_backends.c: connected backends, and the clause that filters pg_stat_activity.
-- Writing the clause past the end of its array is undefined.
pub mod Laws
use libzbxpgsql.Base.{
  ℕ, zero, suc, ◌+◌, ◌-◌, leb, ltb, ◌==◌, Bool, true, false, ◌&&◌, ◌||◌, Option, none, some, List,
  [], ◌∷◌, ◌++◌, Text, bytes, lines, printf, same, starts, length, strisnull, drop, if◌then◌else◌,
  ℤ, pos, negsuc, strcmp, strncmp,
}
use libzbxpgsql.Runtime.{
  Env, Request, PgResult, Cmd, pure, lift, ◌>>=◌, ◌>>◌, load, report, str, ui64, dbl, as_result,
}
use libzbxpgsql.Buffer.{strcat2, zeros, read_string}
use libzbxpgsql.Params.{PgParams, param_new, param_append}
use libzbxpgsql.Connect.{
  param_conn_string, param_first, pq_finish, pq_clear, set_err_result, pg_connect,
  pg_connect_request,
}
use libzbxpgsql.Numbers.{strtoull, atol, atoi, to_int, to_u64, is_oid, is_valid_ip}
use libzbxpgsql.Query.{
  ar_string, ar_uint64, ar_double, pq_getvalue, pg_exec, pg_get_result, pg_get_percentage,
  pg_version,
}
use libzbxpgsql.Discovery.{pq_ntuples, pg_get_discovery, pg_get_discovery_wide}
use libzbxpgsql.Items.{required}

abbrev pub max_query_len : ℕ
max_query_len = 4096

abbrev pub max_clause_len : ℕ
max_clause_len = 4096

unfoldable pub get_backends : Text
get_backends =
    lines ("SELECT COUNT(datid) FROM pg_stat_activity WHERE %s != pg_backend_pid()%s;" ∷ [])

unfoldable pub get_longest_query_92 : Text
get_longest_query_92 = lines (
    "SELECT   COALESCE(     (SELECT       EXTRACT(EPOCH FROM NOW()) - EXTRACT(EPOCH"
    ∷ " FROM query_start) AS duration     FROM pg_stat_activity     WHERE       state ="
    ∷ " 'active'       AND pid != pg_backend_pid() %s    ORDER BY duration DESC"
    ∷ "     LIMIT 1), 0);" ∷ [])

unfoldable pub get_longest_query : Text
get_longest_query = lines (
    "SELECT   COALESCE(     (SELECT       EXTRACT(EPOCH FROM NOW()) - EXTRACT(EPOCH"
    ∷ " FROM query_start) AS duration     FROM pg_stat_activity     WHERE"
    ∷ "       current_query NOT IN ('', '<IDLE>', '<insufficient privilege>')       AND"
    ∷ " procpid != pg_backend_pid() %s    ORDER BY duration DESC     LIMIT 1), 0);" ∷ [])

unfoldable pub backends_ratio : Text
backends_ratio = lines (
    "SELECT   CASE     WHEN COUNT(datid) = 0 THEN 0.00     ELSE (COUNT(datid)::float"
    ∷ " / current_setting('max_connections')::integer)   END FROM pg_stat_activity"
    ∷ " WHERE %s != pg_backend_pid();" ∷ [])

unfoldable pub backends_free : Text
backends_free = lines (
    "SELECT   current_setting('max_connections')::integer - COUNT(datid) FROM"
    ∷ " pg_stat_activity;" ∷ [])

-- The variables of the loop of `build_activity_clause`: the text written to `buf`, `clause`, `pgi`
-- and `*params`.
pub record Clause : Type 0 where
  pub written : Text
  pub clause : Text
  pub pgi : ℕ
  pub params : PgParams

-- One piece behind the text that is there; `none` past the end of the array.
unfoldable pub write_piece : Text → Text → Option Text
write_piece written piece =
    if ltb (length written + length piece) max_clause_len then some (written ++ piece) else none

-- `$%i` with a number of one digit
unfoldable pub placeholder : ℕ → Text
placeholder n = b'$' ∷ (b'0' + n) ∷ []

module _ (env : Env) where
  -- The piece for a filter by a column, with the next parameter.
  unfoldable pub filter_piece : Text → Text → ℕ → Text
  unfolding printf placeholder
  filter_piece format clause pgi =
      env.clip max_clause_len (printf format (clause ∷ placeholder pgi ∷ []))

  -- the cases 0 to 2 of the switch: the format for parameter `i`
  unfoldable pub filter_format : ℕ → Text → Text
  unfolding is_oid is_valid_ip
  filter_format zero param =
      if is_oid param then bytes " %s datid = %s" else bytes " %s datname = %s"
  filter_format (suc zero) param =
      if is_oid param then bytes " %s usesysid = %s" else bytes " %s usename = %s"
  filter_format (suc (suc i)) param =
      if is_valid_ip env param
      then bytes " %s client_addr = %s::inet"
      else bytes " %s client_hostname = %s"

  -- the case 3: the piece for `waiting`, if the parameter is supported
  unfoldable pub waiting_piece : Text → Text → Option Text
  unfolding strncmp printf
  waiting_piece clause param =
      if starts (bytes "true") param 5
      then some (env.clip max_clause_len (printf (bytes " %s waiting = TRUE") (clause ∷ [])))
      else if starts (bytes "false") param 6
      then some (env.clip max_clause_len (printf (bytes " %s waiting = FALSE") (clause ∷ [])))
      else none

  -- The loop for the parameters `i`, `i + 1`, ... of the list; the flag is the returned value.
  unfoldable pub clause_loop : Request → List ℕ → Clause → Cmd (Bool × Clause)
  unfolding strisnull write_piece filter_piece filter_format waiting_piece set_err_result
      param_append
  clause_loop request [] st = pure (true, st)
  clause_loop request (i ∷ is) st = elim (request.rparam (param_first + i)) [
    | none ↦ clause_loop request is st
    | some param ↦ elim (strisnull (some param)) [
      | true ↦ clause_loop request is st
      | false ↦ elim (ltb i 3) [
        | true ↦ do
          params ← param_append st.params (some param)
          written ←
              lift (
                write_piece st.written
                  (filter_piece (filter_format i param) st.clause (suc st.pgi)))
          clause_loop request is (record {
            written = written;
            clause = bytes "AND";
            pgi = suc st.pgi;
            params = params;
          })
        | false ↦ elim (waiting_piece st.clause param) [
          | none ↦ do
            set_err_result env true (
                printf (bytes "Unsupported parameter value: \"%s\" in %s")
                  (param ∷ request.key ∷ []))
            pure (false, st)
          | some piece ↦ do
            written ← lift (write_piece st.written piece)
            clause_loop request is (record st { written = written; clause = bytes "AND" })
        ]
      ]
    ]
  ]

  unfoldable pub build_activity_clause : Request → Bool → Cmd (Bool × Clause)
  unfolding clause_loop
  build_activity_clause request has_clause = clause_loop request (0 ∷ 1 ∷ 2 ∷ 3 ∷ []) (record {
    written = [];
    clause = if has_clause then bytes "AND" else bytes "WHERE";
    pgi = 0;
    params = none;
  })

  -- `version < 90200`, and `none` for the version 0, which is a failure
  unfoldable pub is_before_92 : Request → Cmd (Option Bool)
  unfolding pg_version to_int
  is_before_92 request = do
    version ← pg_version env request
    elim (to_int version) [
      | negsuc n ↦ pure (some true)
      | pos n ↦ elim (n == 0) [ true ↦ pure none | false ↦ pure (some (ltb n 90200)) ]
    ]

  abbrev pub pid_column : Bool → Text
  pid_column old = if old then bytes "procpid" else bytes "pid"

  unfoldable pub pg_backends_count : Request → Cmd Bool
  unfolding is_before_92 build_activity_clause pg_get_result
  pg_backends_count request = do
    version ← is_before_92 request
    elim version [
      | none ↦ pure false
      | some old ↦ do
        (ok, st) ← build_activity_clause request true
        elim ok [
          | false ↦ pure false
          | true ↦
              pg_get_result env request ar_uint64
                (env.clip max_query_len (printf get_backends (pid_column old ∷ st.written ∷ [])))
                st.params
        ]
    ]

  unfoldable pub pg_backends_ratio : Request → Cmd Bool
  unfolding is_before_92 pg_get_result
  pg_backends_ratio request = do
    version ← is_before_92 request
    elim version [
      | none ↦ pure false
      | some old ↦
          pg_get_result env request ar_double
            (env.clip max_query_len (printf backends_ratio (pid_column old ∷ []))) none
    ]

  unfoldable pub pg_backends_free : Request → Cmd Bool
  unfolding pg_get_result
  pg_backends_free request = pg_get_result env request ar_double backends_free none

  unfoldable pub pg_queries_longest : Request → Cmd Bool
  unfolding is_before_92 build_activity_clause pg_get_result
  pg_queries_longest request = do
    (ok, st) ← build_activity_clause request true
    elim ok [
      | false ↦ pure false
      | true ↦ do
        version ← is_before_92 request
        elim version [
          | none ↦ pure false
          | some old ↦
              pg_get_result env request ar_double
                (env.clip max_query_len (
                  printf (if old then get_longest_query else get_longest_query_92)
                    (st.written ∷ [])))
                st.params
        ]
    ]
