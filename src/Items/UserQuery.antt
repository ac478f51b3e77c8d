-- ===== src/Items/UserQuery.antt =====
-- src/pg_query.c: user queries, by their text or by their name in the configuration; and `MODVER`
-- of src/libzbxpgsql.c.
pub mod Laws
use libzbxpgsql.Base.{
  ℕ, zero, suc, ◌+◌, ◌-◌, leb, ltb, ◌==◌, Bool, true, false, ◌&&◌, ◌||◌, Option, none, some, List,
  [], ◌∷◌, ◌++◌, Text, bytes, lines, printf, same, starts, length, strisnull, drop, if◌then◌else◌,
  ℤ, pos, negsuc, strcmp, strncmp,
}
use libzbxpgsql.Runtime.{
  Env, Request, PgResult, Cmd, pure, lift, ◌>>=◌, ◌>>◌, load, report, str, ui64, dbl, as_result,
}
use libzbxpgsql.Buffer.{strcat2, zeros, read_string}
use libzbxpgsql.Params.{PgParams, param_new, param_append}
use libzbxpgsql.Connect.{
  param_conn_string, param_first, pq_finish, pq_clear, set_err_result, pg_connect,
  pg_connect_request,
}
use libzbxpgsql.Numbers.{strtoull, atol, atoi, to_int, to_u64, is_oid, is_valid_ip}
use libzbxpgsql.Query.{
  ar_string, ar_uint64, ar_double, pq_getvalue, pg_exec, pg_get_result, pg_get_percentage,
  pg_version,
}
use libzbxpgsql.Discovery.{pq_ntuples, pg_get_discovery, pg_get_discovery_wide}
use libzbxpgsql.Items.{required, by_filter, key_field, formatted, text_of_result}
use libzbxpgsql.Queries.{Queries, get_query_by_name}

module _ (env : Env) where
  unfoldable pub modver : Request → Cmd Bool
  unfolding report formatted
  modver request = do
    report (
        str (
          formatted env (bytes "%s, compiled for Zabbix %s")
            (env.package_string ∷ env.zabbix_version ∷ [])))
    pure true

  -- `for (i = 3; i < request->nparam; i++)`, with the number of rounds that are left
  unfoldable pub append_rest : Request → ℕ → ℕ → PgParams → Cmd PgParams
  unfolding param_append
  append_rest request zero i params = pure params
  append_rest request (suc n) i params = do
    params' ← param_append params (request.rparam i)
    append_rest request n (suc i) params'

  -- The handler for a key. A key of another type is undefined: its message prints a `char` as a string.
  unfoldable pub query_by_type : Request → Text → Text → PgParams → Cmd Bool
  unfolding strncmp pg_get_result pg_get_discovery
  query_by_type request type query params =
      if starts type (bytes "string") 5
      then pg_get_result env request ar_string query params
      else if starts type (bytes "integer") 7
      then pg_get_result env request ar_uint64 query params
      else if starts type (bytes "double") 6
      then pg_get_result env request ar_double query params
      else if starts type (bytes "discovery") 9
      then pg_get_discovery env request query params
      else lift none

  unfoldable pub pg_query : Queries → Request → Cmd Bool
  unfolding strisnull set_err_result get_query_by_name append_rest query_by_type
  pg_query queries request = elim (request.rparam param_first) [
    | none ↦ do set_err_result env true (bytes "No query or query-key specified"); pure false
    | some query_key ↦ elim (strisnull (some query_key)) [
      | true ↦ do set_err_result env true (bytes "No query or query-key specified"); pure false
      | false ↦ do
        found ← lift (get_query_by_name queries query_key)
        let query : Text = elim found [ none ↦ query_key | some q ↦ q ]
        params ← append_rest request (request.nparam - 3) 3 none
        type ← key_field 9 request.key
        query_by_type request type query params
    ]
  ]
