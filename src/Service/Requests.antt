-- ===== src/Service/Requests.antt =====
-- The table of the plans: one clause for each function of src/libzbxpgsql.c.
use libzbxpgsql.Base.{[], ◌∷◌, bytes, true, false}
use libzbxpgsql.Runtime.{Env, Request, str}
use libzbxpgsql.Connect.{param_first}
use libzbxpgsql.Query.{ar_string, ar_uint64, ar_double}
use libzbxpgsql.Queries.{Queries}
use libzbxpgsql.Items.{formatted}
use libzbxpgsql.Items.Server.{
  get_version, get_starttime, get_uptime, xacts_count_sum, xacts_count, xacts_ratio, xacts_age_sum,
  xacts_age,
}
use libzbxpgsql.Items.Setting.{discover_settings, get_setting}
use libzbxpgsql.Items.Backends.{backends_free}
use libzbxpgsql.Items.Bgwriter.{stats_reset_interval, bg_avg_interval, bg_time_field}
use libzbxpgsql.Items.Database.{discover_dbs, get_db_size, get_db_size_sum, xid_age_sum, xid_age}
use libzbxpgsql.Items.Namespace.{discover_namespaces, get_ns_size}
use libzbxpgsql.Items.Tablespace.{discover_tablespaces, discover_tablespaces_92, get_ts_size}
use libzbxpgsql.Items.Table.{
  discover_tables, discover_table_children, get_table_statio, get_table_statio_sum, get_table_size,
  get_table_size_sum, get_table_rows_sum, get_table_rows, get_table_child_count, get_children_size,
  get_children_rows, no_table_name,
}
use libzbxpgsql.Items.Index.{
  index_query, get_index_statio_sum, get_index_statio, get_index_size, get_index_size_sum,
  get_index_rows, get_index_rows_sum,
}
use libzbxpgsql.Service.Plans.{Plan, answer, probe, value, rows, all_rows, setting, by_version}
use libzbxpgsql.Service.Table.{
  field_plan, query_plan, mode_plan, index_plan, time_plan, name_plan, required_plan, ratio_plan,
  with_filters, counted_plan, duration_plan, backends_ratio_plan, bgwriter_plan, database_plan,
  table_plan, column_plan, index_stat_plan,
}
use libzbxpgsql.Metrics.{
  Function, fn_modver, fn_pg_connect, fn_pg_version, fn_pg_starttime, fn_pg_uptime,
  fn_pg_prepared_xacts_count, fn_pg_prepared_xacts_ratio, fn_pg_prepared_xacts_age, fn_pg_setting,
  fn_pg_setting_discovery, fn_pg_query, fn_pg_backends_count, fn_pg_backends_free,
  fn_pg_backends_ratio, fn_pg_queries_longest, fn_pg_stat_bgwriter, fn_pg_bg_avg_interval,
  fn_pg_bg_time_ratio, fn_pg_bg_stats_reset_interval, fn_pg_db_discovery, fn_pg_namespace_discovery,
  fn_pg_tablespace_discovery, fn_pg_table_discovery, fn_pg_table_children_discovery,
  fn_pg_index_discovery, fn_pg_db_size, fn_pg_table_size, fn_pg_table_rows, fn_pg_table_children,
  fn_pg_table_children_size, fn_pg_table_children_rows, fn_pg_index_size, fn_pg_index_rows,
  fn_pg_tablespace_size, fn_pg_namespace_size, fn_pg_stat_database, fn_pg_db_blks_ratio,
  fn_pg_db_xid_age, fn_pg_stat_all_tables, fn_pg_table_idx_scan_ratio, fn_pg_statio_all_tables,
  fn_pg_table_heap_blks_ratio, fn_pg_table_idx_blks_ratio, fn_pg_table_toast_blks_ratio,
  fn_pg_table_tidx_blks_ratio, fn_pg_stat_all_indexes, fn_pg_statio_all_indexes,
  fn_pg_index_idx_blks_ratio,
}

module _ (env : Env) (queries : Queries) where
  unfoldable pub plan : Function → Request → Plan
  plan fn_modver request = answer (
      str (
        formatted env (bytes "%s, compiled for Zabbix %s")
          (env.package_string ∷ env.zabbix_version ∷ [])))
  plan fn_pg_connect request = probe
  plan fn_pg_version request = value ar_string get_version []
  plan fn_pg_starttime request = value ar_string get_starttime []
  plan fn_pg_uptime request = value ar_uint64 get_uptime []
  plan fn_pg_prepared_xacts_count request =
      name_plan env request ar_uint64 xacts_count_sum xacts_count
  plan fn_pg_prepared_xacts_ratio request = value ar_double xacts_ratio []
  plan fn_pg_prepared_xacts_age request = name_plan env request ar_uint64 xacts_age_sum xacts_age
  plan fn_pg_setting request =
      required_plan env request (bytes "No setting name specified") (setting get_setting)
  plan fn_pg_setting_discovery request = rows discover_settings []
  plan fn_pg_query request = query_plan queries request (request.rparam param_first)
  plan fn_pg_backends_count request =
      by_version [] (with_filters env request (counted_plan env request true))
        (with_filters env request (counted_plan env request false))
  plan fn_pg_backends_free request = value ar_double backends_free []
  plan fn_pg_backends_ratio request =
      by_version [] (backends_ratio_plan env request true) (backends_ratio_plan env request false)
  plan fn_pg_queries_longest request = with_filters env request (duration_plan env request)
  plan fn_pg_stat_bgwriter request = field_plan 3 request.key (bgwriter_plan env request)
  plan fn_pg_bg_avg_interval request = value ar_double bg_avg_interval []
  plan fn_pg_bg_time_ratio request =
      time_plan env (request.rparam param_first) (bg_time_field env (request.rparam param_first))
  plan fn_pg_bg_stats_reset_interval request = value ar_uint64 stats_reset_interval []
  plan fn_pg_db_discovery request = rows discover_dbs []
  plan fn_pg_namespace_discovery request =
      mode_plan (request.rparam param_first) (all_rows discover_namespaces)
        (rows discover_namespaces [])
  plan fn_pg_tablespace_discovery request =
      by_version [] (rows discover_tablespaces []) (rows discover_tablespaces_92 [])
  plan fn_pg_table_discovery request =
      mode_plan (request.rparam param_first) (all_rows discover_tables) (rows discover_tables [])
  plan fn_pg_table_children_discovery request =
      required_plan env request (bytes "No table name specified") (rows discover_table_children)
  plan fn_pg_index_discovery request =
      index_plan (request.rparam param_first) (index_query env request)
  plan fn_pg_db_size request = name_plan env request ar_uint64 get_db_size_sum get_db_size
  plan fn_pg_table_size request = name_plan env request ar_uint64 get_table_size_sum get_table_size
  plan fn_pg_table_rows request = name_plan env request ar_uint64 get_table_rows_sum get_table_rows
  plan fn_pg_table_children request =
      required_plan env request no_table_name (value ar_uint64 get_table_child_count)
  plan fn_pg_table_children_size request =
      required_plan env request no_table_name (value ar_uint64 get_children_size)
  plan fn_pg_table_children_rows request =
      required_plan env request no_table_name (value ar_uint64 get_children_rows)
  plan fn_pg_index_size request = name_plan env request ar_uint64 get_index_size_sum get_index_size
  plan fn_pg_index_rows request = name_plan env request ar_uint64 get_index_rows_sum get_index_rows
  plan fn_pg_tablespace_size request =
      required_plan env request (bytes "No tablespace specified") (value ar_uint64 get_ts_size)
  plan fn_pg_namespace_size request =
      required_plan env request (bytes "No schema name specified") (value ar_uint64 get_ns_size)
  plan fn_pg_stat_database request = field_plan 6 request.key (database_plan env request)
  plan fn_pg_db_blks_ratio request =
      ratio_plan env request (bytes "pg_stat_database") (bytes "sum(blks_hit)")
        (bytes "sum(blks_hit) + sum(blks_read)") (bytes "blks_hit") (bytes "blks_hit + blks_read")
        (bytes "datname")
  plan fn_pg_db_xid_age request = name_plan env request ar_uint64 xid_age_sum xid_age
  plan fn_pg_stat_all_tables request = field_plan 9 request.key (table_plan env request)
  plan fn_pg_table_idx_scan_ratio request =
      ratio_plan env request (bytes "pg_stat_all_tables") (bytes "sum(idx_scan)")
        (bytes "sum(seq_scan) + sum(idx_scan)") (bytes "idx_scan") (bytes "seq_scan + idx_scan")
        (bytes "relname")
  plan fn_pg_statio_all_tables request =
      field_plan 9 request.key (column_plan env request get_table_statio_sum get_table_statio)
  plan fn_pg_table_heap_blks_ratio request =
      ratio_plan env request (bytes "pg_statio_all_tables") (bytes "sum(heap_blks_hit)")
        (bytes "sum(heap_blks_hit) + sum(heap_blks_read)") (bytes "heap_blks_hit")
        (bytes "heap_blks_hit + heap_blks_read") (bytes "relname")
  plan fn_pg_table_idx_blks_ratio request =
      ratio_plan env request (bytes "pg_statio_all_tables") (bytes "sum(idx_blks_hit)")
        (bytes "sum(idx_blks_hit) + sum(idx_blks_read)") (bytes "idx_blks_hit")
        (bytes "idx_blks_hit + idx_blks_read") (bytes "relname")
  plan fn_pg_table_toast_blks_ratio request =
      ratio_plan env request (bytes "pg_statio_all_tables") (bytes "sum(toast_blks_hit)")
        (bytes "sum(toast_blks_hit) + sum(toast_blks_read)") (bytes "toast_blks_hit")
        (bytes "toast_blks_hit + toast_blks_read") (bytes "relname")
  plan fn_pg_table_tidx_blks_ratio request =
      ratio_plan env request (bytes "pg_statio_all_tables") (bytes "sum(tidx_blks_hit)")
        (bytes "sum(tidx_blks_hit) + sum(tidx_blks_read)") (bytes "tidx_blks_hit")
        (bytes "tidx_blks_hit + tidx_blks_read") (bytes "relname")
  plan fn_pg_stat_all_indexes request = field_plan 9 request.key (index_stat_plan env request)
  plan fn_pg_statio_all_indexes request =
      field_plan 9 request.key (column_plan env request get_index_statio_sum get_index_statio)
  plan fn_pg_index_idx_blks_ratio request =
      ratio_plan env request (bytes "pg_statio_all_indexes") (bytes "sum(idx_blks_hit)")
        (bytes "sum(idx_blks_hit) + sum(idx_blks_read)") (bytes "idx_blks_hit")
        (bytes "idx_blks_hit + idx_blks_read") (bytes "indexrelname")
