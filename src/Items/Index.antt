-- ===== src/Items/Index.antt =====
-- src/pg_index.c: indexes and their statistics.
-- The query of `PG_INDEX_DISCOVERY` is built in an array of MAX_STRING_LEN bytes.
use libzbxpgsql.Base.{
  ℕ, ◌+◌, ◌-◌, ◌==◌, Bool, true, false, Option, none, some, [], ◌∷◌, ◌++◌, Text, bytes, lines,
  printf, length, strisnull, if◌then◌else◌,
}
use libzbxpgsql.Runtime.{
  Env, Request, PgResult, Cmd, pure, lift, ◌>>=◌, ◌>>◌, load, report, ui64, as_result,
}
use libzbxpgsql.Base.{◌>>=◌ as ◌>>=?◌}
use libzbxpgsql.Buffer.{Buffer, strcat2, zeros, read_string}
use libzbxpgsql.Params.{param_new}
use libzbxpgsql.Connect.{param_first, pq_finish, pq_clear, set_err_result, pg_connect_request}
use libzbxpgsql.Numbers.{atoi, to_u64}
use libzbxpgsql.Query.{ar_uint64, pq_getvalue, pg_exec, pg_get_result}
use libzbxpgsql.Discovery.{pq_ntuples, pg_get_discovery, pg_get_discovery_wide}
use libzbxpgsql.Items.{by_filter, key_field, formatted, discover_mode, ratio_item}

unfoldable pub discover_indexes : Text
discover_indexes = lines (
    "SELECT     ic.oid AS oid     , current_database() || '.' || n.nspname || '.' ||"
    ∷ " t.relname || '.' || ic.relname AS path     , ic.relname AS index     ,"
    ∷ " current_database() AS database     , n.nspname AS schema     , t.relname AS"
    ∷ " table     , a.rolname AS owner     , m.amname AS access FROM pg_index i JOIN"
    ∷ " pg_class ic ON ic.oid = i.indexrelid JOIN pg_namespace n ON n.oid ="
    ∷ " ic.relnamespace JOIN pg_roles a ON a.oid = ic.relowner JOIN pg_class t ON t.oid"
    ∷ " = i.indrelid JOIN pg_am m ON m.oid = ic.relam WHERE     n.nspname <>"
    ∷ " 'pg_catalog'     AND n.nspname <> 'information_schema'     AND n.nspname !~"
    ∷ " '^pg_toast'" ∷ [])

unfoldable pub get_index_statio_sum : Text
get_index_statio_sum = lines (
    "SELECT SUM(%s::bigint) FROM pg_statio_all_indexes WHERE     schemaname !~"
    ∷ " '^pg_toast'     AND schemaname <> 'pg_catalog'     AND schemaname <>"
    ∷ " 'information_schema'" ∷ [])

unfoldable pub get_index_statio : Text
get_index_statio = bytes "SELECT %s FROM pg_statio_all_indexes WHERE indexrelname = $1"

unfoldable pub get_index_size : Text
get_index_size = lines (
    "SELECT     relpages::bigint * 8192 FROM pg_class WHERE     relkind='i'     AND"
    ∷ " relname = $1" ∷ [])

unfoldable pub get_index_size_sum : Text
get_index_size_sum =
    lines ("SELECT     SUM(relpages::bigint * 8192) FROM pg_class WHERE relkind='i'" ∷ [])

unfoldable pub get_index_rows : Text
get_index_rows =
    lines ("SELECT     reltuples FROM pg_class WHERE     relkind='i'     AND relname = $1" ∷ [])

unfoldable pub get_index_rows_sum : Text
get_index_rows_sum = bytes "SELECT     SUM(reltuples::bigint) FROM pg_class WHERE relkind='i'"

unfoldable pub get_index_stat_sum : Text
get_index_stat_sum = bytes "SELECT SUM(%s) FROM pg_stat_all_indexes"

unfoldable pub get_index_stat : Text
get_index_stat = bytes "SELECT %s FROM pg_stat_all_indexes WHERE indexrelname = $1"

module _ (env : Env) where
  -- One filter of `PG_INDEX_DISCOVERY`: the array and the pointer into it.
  unfoldable pub add_filter : Text → Option Text → Buffer × Option ℕ → Option (Buffer × Option ℕ)
  unfolding strisnull strcat2
  add_filter format none (query, c) = some (query, c)
  add_filter format (some param) (query, c) =
      if strisnull (some param)
      then some (query, c)
      else strcat2 query c (some (formatted env format (param ∷ [])))

  -- The query, `none` where it does not fit its array.
  unfoldable pub index_query : Request → Option Text
  unfolding add_filter read_string
  index_query request =
      let start = env.clip env.max_string_len discover_indexes in
      let query = start ++ zeros (env.max_string_len - length start) in
      add_filter (bytes " AND n.nspname = '%s'") (request.rparam (param_first + 1)) (query, some 0)
      >>=? λ b.
          add_filter (bytes " AND t.relname = '%s'") (request.rparam (param_first + 2)) b
          >>=? λ (query', c). read_string query'

  unfoldable pub pg_index_discovery : Request → Cmd Bool
  unfolding index_query pg_get_discovery pg_get_discovery_wide discover_mode
  pg_index_discovery request = do
    query ← lift (index_query request)
    let mode = request.rparam param_first
    discover_mode env mode (pg_get_discovery_wide env request query none)
        (pg_get_discovery env request query none)

  -- the part of `PG_STAT_ALL_INDEXES` between `pg_exec` and the label `out`
  unfoldable pub index_stat_of : Text → PgResult → Cmd Bool
  unfolding set_err_result pq_ntuples pq_getvalue report atoi to_u64
  index_stat_of query res =
      if res.tuples_ok
      then if pq_ntuples res == 0
        then (do
          set_err_result env true (printf (bytes "No results returned for query: %s") (query ∷ []))
          pure false)
        else (do
          value ← lift (pq_getvalue res 0 0)
          n ← lift (atoi value)
          report (ui64 (to_u64 n))
          pure true)
      else (do
        set_err_result env true
            (printf (bytes "PostgreSQL query error: %s") (res.error_message ∷ []))
        pure false)

  unfoldable pub pg_stat_all_indexes : Request → Cmd Bool
  unfolding strisnull pg_connect_request pg_exec load index_stat_of pq_clear pq_finish
  pg_stat_all_indexes request = do
    field ← key_field 9 request.key
    let index = request.rparam param_first
    let query =
        formatted env (if strisnull index then get_index_stat_sum else get_index_stat) (field ∷ [])
    connected ← pg_connect_request env request true
    elim connected [
      | none ↦ do pq_clear none; pq_finish none; pure false
      | some conn ↦ do
        params ← param_new index
        res ← pg_exec env conn query params
        o ← load res
        r ← lift (as_result o)
        ok ← index_stat_of query r
        pq_clear (some res)
        pq_finish (some conn)
        pure ok
    ]

  unfoldable pub pg_statio_all_indexes : Request → Cmd Bool
  unfolding strisnull pg_get_result
  pg_statio_all_indexes request = do
    field ← key_field 9 request.key
    let index = request.rparam param_first
    let query =
        formatted env (if strisnull index then get_index_statio_sum else get_index_statio)
          (field ∷ [])
    params ← param_new index
    pg_get_result env request ar_uint64 query params

  unfoldable pub pg_index_idx_blks_ratio : Request → Cmd Bool
  unfolding ratio_item
  pg_index_idx_blks_ratio request =
      ratio_item env request (bytes "pg_statio_all_indexes") (bytes "sum(idx_blks_hit)")
        (bytes "sum(idx_blks_hit) + sum(idx_blks_read)") (bytes "idx_blks_hit")
        (bytes "idx_blks_hit + idx_blks_read") (bytes "indexrelname")

  unfoldable pub pg_index_size : Request → Cmd Bool
  unfolding strisnull pg_get_result
  pg_index_size request = do
    let index = request.rparam param_first
    if strisnull index then pg_get_result env request ar_uint64 get_index_size_sum none else (do
      params ← param_new index
      pg_get_result env request ar_uint64 get_index_size params)

  unfoldable pub pg_index_rows : Request → Cmd Bool
  unfolding by_filter
  pg_index_rows request = by_filter env request ar_uint64 get_index_rows_sum get_index_rows
