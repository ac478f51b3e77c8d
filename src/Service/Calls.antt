-- ===== src/Service/Calls.antt =====
-- `call`, the whole table of src/libzbxpgsql.c, carries out the table of the plans.
use libzbxpgsql.Base.{bytes}
use libzbxpgsql.Runtime.{Env, Request}
use libzbxpgsql.Connect.{param_first}
use libzbxpgsql.Query.{ar_string, ar_uint64, ar_double}
use libzbxpgsql.Queries.{Queries}
use libzbxpgsql.Items.Server.{
  get_version, get_starttime, get_uptime, xacts_count_sum, xacts_count, xacts_ratio, xacts_age_sum,
  xacts_age,
}
use libzbxpgsql.Items.Setting.{discover_settings}
use libzbxpgsql.Items.Backends.{backends_free}
use libzbxpgsql.Items.Bgwriter.{stats_reset_interval, bg_avg_interval}
use libzbxpgsql.Items.Database.{discover_dbs, get_db_size, get_db_size_sum, xid_age_sum, xid_age}
use libzbxpgsql.Items.Namespace.{get_ns_size}
use libzbxpgsql.Items.Tablespace.{get_ts_size}
use libzbxpgsql.Items.Table.{
  get_table_size, get_table_size_sum, get_table_rows_sum, get_table_rows, get_table_child_count,
  get_children_size, get_children_rows, no_table_name,
}
use libzbxpgsql.Items.Index.{get_index_size, get_index_size_sum, get_index_rows, get_index_rows_sum}
use libzbxpgsql.Metrics.{
  Function, fn_modver, fn_pg_connect, fn_pg_version, fn_pg_starttime, fn_pg_uptime,
  fn_pg_prepared_xacts_count, fn_pg_prepared_xacts_ratio, fn_pg_prepared_xacts_age, fn_pg_setting,
  fn_pg_setting_discovery, fn_pg_query, fn_pg_backends_count, fn_pg_backends_free,
  fn_pg_backends_ratio, fn_pg_queries_longest, fn_pg_stat_bgwriter, fn_pg_bg_avg_interval,
  fn_pg_bg_time_ratio, fn_pg_bg_stats_reset_interval, fn_pg_db_discovery, fn_pg_namespace_discovery,
  fn_pg_tablespace_discovery, fn_pg_table_discovery, fn_pg_table_children_discovery,
  fn_pg_index_discovery, fn_pg_db_size, fn_pg_table_size, fn_pg_table_rows, fn_pg_table_children,
  fn_pg_table_children_size, fn_pg_table_children_rows, fn_pg_index_size, fn_pg_index_rows,
  fn_pg_tablespace_size, fn_pg_namespace_size, fn_pg_stat_database, fn_pg_db_blks_ratio,
  fn_pg_db_xid_age, fn_pg_stat_all_tables, fn_pg_table_idx_scan_ratio, fn_pg_statio_all_tables,
  fn_pg_table_heap_blks_ratio, fn_pg_table_idx_blks_ratio, fn_pg_table_toast_blks_ratio,
  fn_pg_table_tidx_blks_ratio, fn_pg_stat_all_indexes, fn_pg_statio_all_indexes,
  fn_pg_index_idx_blks_ratio,
}
use libzbxpgsql.Connect.Laws.{IsTextRequest}
use libzbxpgsql.Items.Backends.Laws.{Fits}
use libzbxpgsql.Metrics.{call}
use libzbxpgsql.Items.UserQuery.{modver}
use libzbxpgsql.Items.Backends.{pg_backends_free}
use libzbxpgsql.Items.Bgwriter.{pg_bg_avg_interval, pg_bg_stats_reset_interval}
use libzbxpgsql.Items.Database.{pg_db_discovery, pg_db_size, pg_db_blks_ratio, pg_db_xid_age}
use libzbxpgsql.Items.Index.{pg_index_size, pg_index_rows, pg_index_idx_blks_ratio}
use libzbxpgsql.Items.Namespace.{pg_namespace_size}
use libzbxpgsql.Items.Server.{
  pg_version, pg_starttime, pg_uptime, pg_prepared_xacts_count, pg_prepared_xacts_ratio,
  pg_prepared_xacts_age,
}
use libzbxpgsql.Items.Setting.{pg_setting_discovery}
use libzbxpgsql.Items.Table.{
  pg_table_size, pg_table_rows, pg_table_children, pg_table_children_size, pg_table_children_rows,
  pg_table_idx_scan_ratio, pg_table_heap_blks_ratio, pg_table_idx_blks_ratio,
  pg_table_toast_blks_ratio, pg_table_tidx_blks_ratio,
}
use libzbxpgsql.Items.Tablespace.{pg_tablespace_size}
use libzbxpgsql.Service.Meets.{Implements}
use libzbxpgsql.Service.Plans.{serve}
use libzbxpgsql.Service.Everywhere.{ListsNames}
use libzbxpgsql.Service.Shapes.{
  answer-Carries, value-Carries, rows-Carries, by_filter-Carries, split-Carries, required-Carries,
  ratio_item-Carries,
}
use libzbxpgsql.Service.Connections.{
  pg_connect-Carries, pg_setting-Carries, pg_stat_all_indexes-Carries,
}
use libzbxpgsql.Service.Ages.{pg_backends_ratio-Carries, pg_tablespace_discovery-Carries}
use libzbxpgsql.Service.Activity.{pg_backends_count-Carries, pg_queries_longest-Carries}
use libzbxpgsql.Service.UserQueries.{pg_query-Carries}
use libzbxpgsql.Service.Columns.{
  pg_stat_bgwriter-Carries, pg_bg_time_ratio-Carries, pg_stat_database-Carries,
  pg_stat_all_tables-Carries, pg_statio_all_tables-Carries, pg_statio_all_indexes-Carries,
  pg_table_children_discovery-Carries, pg_namespace_discovery-Carries, pg_table_discovery-Carries,
  pg_index_discovery-Carries,
}
use libzbxpgsql.Service.Requests.{plan}

module _ (env : Env) (queries : Queries) (request : Request) where
  -- Where the two connection parameters hold no terminator inside, texts that fit their buffers are
  -- printed whole, and the server lists no database with an empty name, the call of any function of
  -- the table implements the effect of its plan, from every state in which no address from `next`
  -- on is in use: the call is undefined where the effect is; else it returns the same flag, sets
  -- the same results and asks the server the same, in the same order; and the memory is as it was
  -- before where the effect is clean, and else every block that was there is still there, and a
  -- new one is left behind.
  pub call-plan :
      (fn : Function)
      → IsTextRequest request
      → Fits env
      → ListsNames env
      → Implements (call env queries fn request) (serve env request (plan env queries fn request))
  unfolding call plan modver pg_version pg_starttime pg_uptime pg_prepared_xacts_count
      pg_prepared_xacts_ratio pg_prepared_xacts_age pg_setting_discovery pg_backends_free
      pg_bg_avg_interval pg_bg_stats_reset_interval pg_db_discovery pg_db_size pg_table_size
      pg_table_rows pg_table_children pg_table_children_size pg_table_children_rows pg_index_size
      pg_index_rows pg_tablespace_size pg_namespace_size pg_db_blks_ratio pg_db_xid_age
      pg_table_idx_scan_ratio pg_table_heap_blks_ratio pg_table_idx_blks_ratio
      pg_table_toast_blks_ratio pg_table_tidx_blks_ratio pg_index_idx_blks_ratio
  call-plan fn_modver text_ok fits named = answer-Carries env request _
  call-plan fn_pg_connect text_ok fits named = pg_connect-Carries env request text_ok
  call-plan fn_pg_version text_ok fits named =
      value-Carries env request text_ok ar_string get_version
  call-plan fn_pg_starttime text_ok fits named =
      value-Carries env request text_ok ar_string get_starttime
  call-plan fn_pg_uptime text_ok fits named = value-Carries env request text_ok ar_uint64 get_uptime
  call-plan fn_pg_prepared_xacts_count text_ok fits named =
      split-Carries env request text_ok ar_uint64 xacts_count_sum xacts_count
        (request.rparam param_first)
  call-plan fn_pg_prepared_xacts_ratio text_ok fits named =
      value-Carries env request text_ok ar_double xacts_ratio
  call-plan fn_pg_prepared_xacts_age text_ok fits named =
      split-Carries env request text_ok ar_uint64 xacts_age_sum xacts_age
        (request.rparam param_first)
  call-plan fn_pg_setting text_ok fits named = pg_setting-Carries env request text_ok
  call-plan fn_pg_setting_discovery text_ok fits named =
      rows-Carries env request text_ok discover_settings
  call-plan fn_pg_query text_ok fits named = pg_query-Carries env request text_ok queries
  call-plan fn_pg_backends_count text_ok fits named =
      pg_backends_count-Carries env request fits text_ok
  call-plan fn_pg_backends_free text_ok fits named =
      value-Carries env request text_ok ar_double backends_free
  call-plan fn_pg_backends_ratio text_ok fits named = pg_backends_ratio-Carries env request text_ok
  call-plan fn_pg_queries_longest text_ok fits named =
      pg_queries_longest-Carries env request fits text_ok
  call-plan fn_pg_stat_bgwriter text_ok fits named = pg_stat_bgwriter-Carries env request text_ok
  call-plan fn_pg_bg_avg_interval text_ok fits named =
      value-Carries env request text_ok ar_double bg_avg_interval
  call-plan fn_pg_bg_time_ratio text_ok fits named = pg_bg_time_ratio-Carries env request text_ok
  call-plan fn_pg_bg_stats_reset_interval text_ok fits named =
      value-Carries env request text_ok ar_uint64 stats_reset_interval
  call-plan fn_pg_db_discovery text_ok fits named = rows-Carries env request text_ok discover_dbs
  call-plan fn_pg_namespace_discovery text_ok fits named =
      pg_namespace_discovery-Carries env request text_ok named
  call-plan fn_pg_tablespace_discovery text_ok fits named =
      pg_tablespace_discovery-Carries env request text_ok
  call-plan fn_pg_table_discovery text_ok fits named =
      pg_table_discovery-Carries env request text_ok named
  call-plan fn_pg_table_children_discovery text_ok fits named =
      pg_table_children_discovery-Carries env request text_ok
  call-plan fn_pg_index_discovery text_ok fits named =
      pg_index_discovery-Carries env request text_ok named
  call-plan fn_pg_db_size text_ok fits named =
      by_filter-Carries env request text_ok ar_uint64 get_db_size_sum get_db_size
  call-plan fn_pg_table_size text_ok fits named =
      by_filter-Carries env request text_ok ar_uint64 get_table_size_sum get_table_size
  call-plan fn_pg_table_rows text_ok fits named =
      by_filter-Carries env request text_ok ar_uint64 get_table_rows_sum get_table_rows
  call-plan fn_pg_table_children text_ok fits named =
      required-Carries env request text_ok no_table_name ar_uint64 get_table_child_count
  call-plan fn_pg_table_children_size text_ok fits named =
      required-Carries env request text_ok no_table_name ar_uint64 get_children_size
  call-plan fn_pg_table_children_rows text_ok fits named =
      required-Carries env request text_ok no_table_name ar_uint64 get_children_rows
  call-plan fn_pg_index_size text_ok fits named =
      split-Carries env request text_ok ar_uint64 get_index_size_sum get_index_size
        (request.rparam param_first)
  call-plan fn_pg_index_rows text_ok fits named =
      by_filter-Carries env request text_ok ar_uint64 get_index_rows_sum get_index_rows
  call-plan fn_pg_tablespace_size text_ok fits named =
      required-Carries env request text_ok (bytes "No tablespace specified") ar_uint64 get_ts_size
  call-plan fn_pg_namespace_size text_ok fits named =
      required-Carries env request text_ok (bytes "No schema name specified") ar_uint64 get_ns_size
  call-plan fn_pg_stat_database text_ok fits named = pg_stat_database-Carries env request text_ok
  call-plan fn_pg_db_blks_ratio text_ok fits named =
      ratio_item-Carries env request text_ok (bytes "pg_stat_database") (bytes "sum(blks_hit)")
        (bytes "sum(blks_hit) + sum(blks_read)") (bytes "blks_hit") (bytes "blks_hit + blks_read")
        (bytes "datname")
  call-plan fn_pg_db_xid_age text_ok fits named =
      by_filter-Carries env request text_ok ar_uint64 xid_age_sum xid_age
  call-plan fn_pg_stat_all_tables text_ok fits named =
      pg_stat_all_tables-Carries env request text_ok
  call-plan fn_pg_table_idx_scan_ratio text_ok fits named =
      ratio_item-Carries env request text_ok (bytes "pg_stat_all_tables") (bytes "sum(idx_scan)")
        (bytes "sum(seq_scan) + sum(idx_scan)") (bytes "idx_scan") (bytes "seq_scan + idx_scan")
        (bytes "relname")
  call-plan fn_pg_statio_all_tables text_ok fits named =
      pg_statio_all_tables-Carries env request text_ok
  call-plan fn_pg_table_heap_blks_ratio text_ok fits named =
      ratio_item-Carries env request text_ok (bytes "pg_statio_all_tables")
        (bytes "sum(heap_blks_hit)") (bytes "sum(heap_blks_hit) + sum(heap_blks_read)")
        (bytes "heap_blks_hit") (bytes "heap_blks_hit + heap_blks_read") (bytes "relname")
  call-plan fn_pg_table_idx_blks_ratio text_ok fits named =
      ratio_item-Carries env request text_ok (bytes "pg_statio_all_tables")
        (bytes "sum(idx_blks_hit)") (bytes "sum(idx_blks_hit) + sum(idx_blks_read)")
        (bytes "idx_blks_hit") (bytes "idx_blks_hit + idx_blks_read") (bytes "relname")
  call-plan fn_pg_table_toast_blks_ratio text_ok fits named =
      ratio_item-Carries env request text_ok (bytes "pg_statio_all_tables")
        (bytes "sum(toast_blks_hit)") (bytes "sum(toast_blks_hit) + sum(toast_blks_read)")
        (bytes "toast_blks_hit") (bytes "toast_blks_hit + toast_blks_read") (bytes "relname")
  call-plan fn_pg_table_tidx_blks_ratio text_ok fits named =
      ratio_item-Carries env request text_ok (bytes "pg_statio_all_tables")
        (bytes "sum(tidx_blks_hit)") (bytes "sum(tidx_blks_hit) + sum(tidx_blks_read)")
        (bytes "tidx_blks_hit") (bytes "tidx_blks_hit + tidx_blks_read") (bytes "relname")
  call-plan fn_pg_stat_all_indexes text_ok fits named =
      pg_stat_all_indexes-Carries env request text_ok
  call-plan fn_pg_statio_all_indexes text_ok fits named =
      pg_statio_all_indexes-Carries env request text_ok
  call-plan fn_pg_index_idx_blks_ratio text_ok fits named =
      ratio_item-Carries env request text_ok (bytes "pg_statio_all_indexes")
        (bytes "sum(idx_blks_hit)") (bytes "sum(idx_blks_hit) + sum(idx_blks_read)")
        (bytes "idx_blks_hit") (bytes "idx_blks_hit + idx_blks_read") (bytes "indexrelname")
