-- ===== src/Items/Table.antt =====
-- src/pg_table.c: tables, their statistics and their children.
use libzbxpgsql.Base.{
  Bool, true, false, none, [], ◌∷◌, Text, bytes, lines, starts, strisnull, if◌then◌else◌, strncmp,
}
use libzbxpgsql.Runtime.{Env, Request, Cmd, pure, ◌>>=◌, ◌>>◌}
use libzbxpgsql.Params.{param_new}
use libzbxpgsql.Connect.{param_first, set_err_result}
use libzbxpgsql.Query.{ar_string, ar_uint64, pg_get_result}
use libzbxpgsql.Discovery.{pg_get_discovery, pg_get_discovery_wide}
use libzbxpgsql.Items.{required, by_filter, key_field, formatted, discover_mode, ratio_item}

unfoldable pub discover_tables : Text
discover_tables = lines (
    "SELECT     c.oid AS oid     , current_database() || '.' || n.nspname || '.' ||"
    ∷ " c.relname AS path    , current_database() AS database     , n.nspname AS schema"
    ∷ "     , CASE c.reltablespace         WHEN 0 THEN (SELECT ds.spcname FROM"
    ∷ " pg_tablespace ds JOIN pg_database d ON d.dattablespace = ds.oid WHERE d.datname"
    ∷ " = current_database())         ELSE (SELECT spcname FROM pg_tablespace WHERE oid"
    ∷ " = c.reltablespace)         END AS tablespace     , c.relname AS table"
    ∷ "     ,t.typname AS type     , pg_catalog.pg_get_userbyid(c.relowner) AS owner"
    ∷ "     , (SELECT COUNT(inhparent) FROM pg_inherits WHERE inhrelid = c.oid) AS"
    ∷ " issubclass     , pg_catalog.obj_description(c.oid, 'pg_class') as description"
    ∷ " FROM pg_class c JOIN pg_namespace n ON c.relnamespace = n.oid JOIN pg_type t ON"
    ∷ " c.reltype = t.oid WHERE     c.relkind='r'     AND n.nspname <> 'pg_catalog'"
    ∷ "     AND n.nspname <> 'information_schema'     AND n.nspname !~ '^pg_toast'"
    ∷ " ORDER BY c.relname;" ∷ [])

unfoldable pub discover_table_children : Text
discover_table_children = lines (
    "SELECT     c.oid AS oid     , current_database() || '.' || n.nspname || '.' ||"
    ∷ " c.relname AS path     , c.relname AS table     , n.nspname AS schema FROM"
    ∷ " pg_inherits i JOIN pg_class c ON i.inhrelid = c.oid JOIN pg_namespace n ON"
    ∷ " c.relnamespace = n.oid WHERE i.inhparent = $1::regclass" ∷ [])

unfoldable pub get_table_stat_sum : Text
get_table_stat_sum = lines (
    "SELECT SUM(%s::bigint) FROM pg_stat_all_tables WHERE     schemaname <>"
    ∷ " 'pg_catalog'     AND schemaname <> 'information_schema'     AND schemaname !~"
    ∷ " '^pg_toast'" ∷ [])

unfoldable pub get_table_stat : Text
get_table_stat = bytes "SELECT %s FROM pg_stat_all_tables WHERE relname = $1"

unfoldable pub get_table_statio : Text
get_table_statio = bytes "SELECT %s FROM pg_statio_all_tables WHERE relname = $1"

unfoldable pub get_table_statio_sum : Text
get_table_statio_sum = lines (
    "SELECT SUM(%s::bigint) FROM pg_statio_all_tables WHERE     schemaname <>"
    ∷ " 'pg_catalog'     AND schemaname <> 'information_schema'     AND schemaname !~"
    ∷ " '^pg_toast'" ∷ [])

unfoldable pub get_table_size : Text
get_table_size = lines (
    "SELECT     relpages::bigint * 8192 FROM pg_class WHERE relkind='r' AND relname =" ∷ " $1" ∷ [])

unfoldable pub get_table_size_sum : Text
get_table_size_sum = lines (
    "SELECT     SUM(relpages::bigint) * 8192 FROM pg_class t JOIN pg_namespace n ON"
    ∷ " n.oid = t.relnamespace WHERE     t.relkind = 'r'     AND n.nspname <>"
    ∷ " 'pg_catalog'     AND n.nspname <> 'information_schema'     AND n.nspname !~"
    ∷ " '^pg_toast'" ∷ [])

unfoldable pub get_table_rows_sum : Text
get_table_rows_sum = lines (
    "SELECT     SUM(reltuples::bigint) FROM pg_class t JOIN pg_namespace n ON n.oid ="
    ∷ " t.relnamespace WHERE     t.relkind = 'r'     AND n.nspname <> 'pg_catalog'"
    ∷ "     AND n.nspname <> 'information_schema'     AND n.nspname !~ '^pg_toast'" ∷ [])

unfoldable pub get_table_rows : Text
get_table_rows =
    lines ("SELECT reltuples FROM pg_class WHERE     relkind='r'     AND relname = $1" ∷ [])

unfoldable pub get_table_child_count : Text
get_table_child_count =
    lines ("SELECT     COUNT(i.inhrelid) FROM pg_inherits i WHERE i.inhparent = $1::regclass" ∷ [])

unfoldable pub get_children_size : Text
get_children_size = lines (
    "SELECT     SUM(c.relpages::bigint) * 8192 FROM pg_inherits i JOIN pg_class c ON"
    ∷ " inhrelid = c.oid WHERE i.inhparent = $1::regclass" ∷ [])

unfoldable pub get_children_rows : Text
get_children_rows = lines (
    "SELECT     SUM(c.reltuples::bigint) FROM pg_inherits i JOIN pg_class c ON"
    ∷ " inhrelid = c.oid WHERE i.inhparent = $1::regclass" ∷ [])

unfoldable pub no_table_name : Text
no_table_name = bytes "Invalid parameter count. Please specify a table name."

module _ (env : Env) where
  unfoldable pub pg_table_discovery : Request → Cmd Bool
  unfolding pg_get_discovery pg_get_discovery_wide discover_mode
  pg_table_discovery request = do
    let mode = request.rparam param_first
    discover_mode env mode (pg_get_discovery_wide env request discover_tables none)
        (pg_get_discovery env request discover_tables none)

  unfoldable pub pg_table_children_discovery : Request → Cmd Bool
  unfolding strisnull set_err_result pg_get_discovery
  pg_table_children_discovery request = do
    let tablename = request.rparam param_first
    if strisnull tablename
        then (do set_err_result env true (bytes "No table name specified"); pure false)
        else (do
          params ← param_new tablename
          pg_get_discovery env request discover_table_children params)

  unfoldable pub pg_stat_all_tables : Request → Cmd Bool
  unfolding strisnull strncmp set_err_result pg_get_result
  pg_stat_all_tables request = do
    field ← key_field 9 request.key
    let tablename = request.rparam param_first
    let query =
        formatted env (if strisnull tablename then get_table_stat_sum else get_table_stat)
          (field ∷ [])
    if starts field (bytes "last_") 5
        then (if strisnull tablename
            then (do set_err_result env true (bytes "No table name specified"); pure false)
            else (do
              params ← param_new tablename
              pg_get_result env request ar_string query params))
        else (do params ← param_new tablename; pg_get_result env request ar_uint64 query params)

  unfoldable pub pg_table_idx_scan_ratio : Request → Cmd Bool
  unfolding ratio_item
  pg_table_idx_scan_ratio request =
      ratio_item env request (bytes "pg_stat_all_tables") (bytes "sum(idx_scan)")
        (bytes "sum(seq_scan) + sum(idx_scan)") (bytes "idx_scan") (bytes "seq_scan + idx_scan")
        (bytes "relname")

  unfoldable pub pg_statio_all_tables : Request → Cmd Bool
  unfolding strisnull pg_get_result
  pg_statio_all_tables request = do
    field ← key_field 9 request.key
    let tablename = request.rparam param_first
    let query =
        formatted env (if strisnull tablename then get_table_statio_sum else get_table_statio)
          (field ∷ [])
    params ← param_new tablename
    pg_get_result env request ar_uint64 query params

  unfoldable pub pg_table_heap_blks_ratio : Request → Cmd Bool
  unfolding ratio_item
  pg_table_heap_blks_ratio request =
      ratio_item env request (bytes "pg_statio_all_tables") (bytes "sum(heap_blks_hit)")
        (bytes "sum(heap_blks_hit) + sum(heap_blks_read)") (bytes "heap_blks_hit")
        (bytes "heap_blks_hit + heap_blks_read") (bytes "relname")

  unfoldable pub pg_table_idx_blks_ratio : Request → Cmd Bool
  unfolding ratio_item
  pg_table_idx_blks_ratio request =
      ratio_item env request (bytes "pg_statio_all_tables") (bytes "sum(idx_blks_hit)")
        (bytes "sum(idx_blks_hit) + sum(idx_blks_read)") (bytes "idx_blks_hit")
        (bytes "idx_blks_hit + idx_blks_read") (bytes "relname")

  unfoldable pub pg_table_toast_blks_ratio : Request → Cmd Bool
  unfolding ratio_item
  pg_table_toast_blks_ratio request =
      ratio_item env request (bytes "pg_statio_all_tables") (bytes "sum(toast_blks_hit)")
        (bytes "sum(toast_blks_hit) + sum(toast_blks_read)") (bytes "toast_blks_hit")
        (bytes "toast_blks_hit + toast_blks_read") (bytes "relname")

  unfoldable pub pg_table_tidx_blks_ratio : Request → Cmd Bool
  unfolding ratio_item
  pg_table_tidx_blks_ratio request =
      ratio_item env request (bytes "pg_statio_all_tables") (bytes "sum(tidx_blks_hit)")
        (bytes "sum(tidx_blks_hit) + sum(tidx_blks_read)") (bytes "tidx_blks_hit")
        (bytes "tidx_blks_hit + tidx_blks_read") (bytes "relname")

  unfoldable pub pg_table_size : Request → Cmd Bool
  unfolding by_filter
  pg_table_size request = by_filter env request ar_uint64 get_table_size_sum get_table_size

  unfoldable pub pg_table_rows : Request → Cmd Bool
  unfolding by_filter
  pg_table_rows request = by_filter env request ar_uint64 get_table_rows_sum get_table_rows

  unfoldable pub pg_table_children : Request → Cmd Bool
  unfolding required
  pg_table_children request = required env request no_table_name ar_uint64 get_table_child_count

  unfoldable pub pg_table_children_size : Request → Cmd Bool
  unfolding required
  pg_table_children_size request = required env request no_table_name ar_uint64 get_children_size

  unfoldable pub pg_table_children_rows : Request → Cmd Bool
  unfolding required
  pg_table_children_rows request = required env request no_table_name ar_uint64 get_children_rows
