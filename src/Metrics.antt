-- ===== src/Metrics.antt =====
-- src/libzbxpgsql.c: the table of the item keys.
pub mod Laws
use libzbxpgsql.Base.{Bool, true, false, Option, none, some, List, [], ◌∷◌, Text, bytes}
use libzbxpgsql.Queries.{Queries, no_queries}
use libzbxpgsql.Runtime.{Env, Request, Cmd}
use libzbxpgsql.Items.UserQuery.{modver, pg_query}
use libzbxpgsql.Items.Server.{
  pg_connect, pg_version, pg_starttime, pg_uptime, pg_prepared_xacts_count, pg_prepared_xacts_ratio,
  pg_prepared_xacts_age,
}
use libzbxpgsql.Items.Setting.{pg_setting, pg_setting_discovery}
use libzbxpgsql.Items.Backends.{
  pg_backends_count, pg_backends_free, pg_backends_ratio, pg_queries_longest,
}
use libzbxpgsql.Items.Bgwriter.{
  pg_stat_bgwriter, pg_bg_avg_interval, pg_bg_time_ratio, pg_bg_stats_reset_interval,
}
use libzbxpgsql.Items.Database.{
  pg_db_discovery, pg_db_size, pg_stat_database, pg_db_blks_ratio, pg_db_xid_age,
}
use libzbxpgsql.Items.Namespace.{pg_namespace_discovery, pg_namespace_size}
use libzbxpgsql.Items.Tablespace.{pg_tablespace_discovery, pg_tablespace_size}
use libzbxpgsql.Items.Table.{
  pg_table_discovery, pg_table_children_discovery, pg_table_size, pg_table_rows, pg_table_children,
  pg_table_children_size, pg_table_children_rows, pg_stat_all_tables, pg_table_idx_scan_ratio,
  pg_statio_all_tables, pg_table_heap_blks_ratio, pg_table_idx_blks_ratio,
  pg_table_toast_blks_ratio, pg_table_tidx_blks_ratio,
}
use libzbxpgsql.Items.Index.{
  pg_index_discovery, pg_index_size, pg_index_rows, pg_stat_all_indexes, pg_statio_all_indexes,
  pg_index_idx_blks_ratio,
}

-- The functions of the table.
pub data Function : Type 0 where
  fn_modver : Function
  fn_pg_connect : Function
  fn_pg_version : Function
  fn_pg_starttime : Function
  fn_pg_uptime : Function
  fn_pg_prepared_xacts_count : Function
  fn_pg_prepared_xacts_ratio : Function
  fn_pg_prepared_xacts_age : Function
  fn_pg_setting : Function
  fn_pg_setting_discovery : Function
  fn_pg_query : Function
  fn_pg_backends_count : Function
  fn_pg_backends_free : Function
  fn_pg_backends_ratio : Function
  fn_pg_queries_longest : Function
  fn_pg_stat_bgwriter : Function
  fn_pg_bg_avg_interval : Function
  fn_pg_bg_time_ratio : Function
  fn_pg_bg_stats_reset_interval : Function
  fn_pg_db_discovery : Function
  fn_pg_namespace_discovery : Function
  fn_pg_tablespace_discovery : Function
  fn_pg_table_discovery : Function
  fn_pg_table_children_discovery : Function
  fn_pg_index_discovery : Function
  fn_pg_db_size : Function
  fn_pg_table_size : Function
  fn_pg_table_rows : Function
  fn_pg_table_children : Function
  fn_pg_table_children_size : Function
  fn_pg_table_children_rows : Function
  fn_pg_index_size : Function
  fn_pg_index_rows : Function
  fn_pg_tablespace_size : Function
  fn_pg_namespace_size : Function
  fn_pg_stat_database : Function
  fn_pg_db_blks_ratio : Function
  fn_pg_db_xid_age : Function
  fn_pg_stat_all_tables : Function
  fn_pg_table_idx_scan_ratio : Function
  fn_pg_statio_all_tables : Function
  fn_pg_table_heap_blks_ratio : Function
  fn_pg_table_idx_blks_ratio : Function
  fn_pg_table_toast_blks_ratio : Function
  fn_pg_table_tidx_blks_ratio : Function
  fn_pg_stat_all_indexes : Function
  fn_pg_statio_all_indexes : Function
  fn_pg_index_idx_blks_ratio : Function

-- ZBX_METRIC: the key, the flag CF_HAVEPARAMS, the function and the test parameters.
pub record Metric : Type 0 where
  pub key : Text
  pub have_params : Bool
  pub function : Function
  pub test_param : Option Text

abbrev with_params : Text → Function → Metric
with_params key function = record {
  key = key;
  have_params = true;
  function = function;
  test_param = none;
}

abbrev with_test : Text → Function → Text → Metric
with_test key function test = record {
  key = key;
  have_params = true;
  function = function;
  test_param = some test;
}

-- `keys`, without its terminator
unfoldable pub keys : List Metric
keys =
    (record {
      key = bytes "pg.modver";
      have_params = false;
      function = fn_modver;
      test_param = none;
    })
    ∷ with_params (bytes "pg.connect") fn_pg_connect
    ∷ with_params (bytes "pg.version") fn_pg_version
    ∷ with_params (bytes "pg.starttime") fn_pg_starttime
    ∷ with_params (bytes "pg.uptime") fn_pg_uptime
    ∷ with_params (bytes "pg.prepared_xacts_count") fn_pg_prepared_xacts_count
    ∷ with_params (bytes "pg.prepared_xacts_ratio") fn_pg_prepared_xacts_ratio
    ∷ with_params (bytes "pg.prepared_xacts_age") fn_pg_prepared_xacts_age
    ∷ with_test (bytes "pg.setting") fn_pg_setting (bytes ",,data_directory")
    ∷ with_params (bytes "pg.setting.discovery") fn_pg_setting_discovery
    ∷ with_test (bytes "pg.query.string") fn_pg_query (bytes ",,SELECT 'Lorem ipsum dolor';")
    ∷ with_test (bytes "pg.query.integer") fn_pg_query (bytes ",,SELECT pg_backend_pid();")
    ∷ with_test (bytes "pg.query.double") fn_pg_query
        (bytes ",,SELECT CAST(1234 AS double precision);")
    ∷ with_test (bytes "pg.query.discovery") fn_pg_query (bytes ",,SELECT * FROM pg_database;")
    ∷ with_params (bytes "pg.backends.count") fn_pg_backends_count
    ∷ with_params (bytes "pg.backends.free") fn_pg_backends_free
    ∷ with_params (bytes "pg.backends.ratio") fn_pg_backends_ratio
    ∷ with_params (bytes "pg.queries.longest") fn_pg_queries_longest
    ∷ with_params (bytes "pg.checkpoints_timed") fn_pg_stat_bgwriter
    ∷ with_params (bytes "pg.checkpoints_req") fn_pg_stat_bgwriter
    ∷ with_params (bytes "pg.checkpoint_write_time") fn_pg_stat_bgwriter
    ∷ with_params (bytes "pg.checkpoint_sync_time") fn_pg_stat_bgwriter
    ∷ with_params (bytes "pg.checkpoint_avg_interval") fn_pg_bg_avg_interval
    ∷ with_params (bytes "pg.checkpoint_time_ratio") fn_pg_bg_time_ratio
    ∷ with_params (bytes "pg.buffers_checkpoint") fn_pg_stat_bgwriter
    ∷ with_params (bytes "pg.buffers_clean") fn_pg_stat_bgwriter
    ∷ with_params (bytes "pg.maxwritten_clean") fn_pg_stat_bgwriter
    ∷ with_params (bytes "pg.buffers_backend") fn_pg_stat_bgwriter
    ∷ with_params (bytes "pg.buffers_backend_fsync") fn_pg_stat_bgwriter
    ∷ with_params (bytes "pg.buffers_alloc") fn_pg_stat_bgwriter
    ∷ with_params (bytes "pg.stats_reset") fn_pg_stat_bgwriter
    ∷ with_params (bytes "pg.stats_reset_interval") fn_pg_bg_stats_reset_interval
    ∷ with_params (bytes "pg.db.discovery") fn_pg_db_discovery
    ∷ with_params (bytes "pg.namespace.discovery") fn_pg_namespace_discovery
    ∷ with_params (bytes "pg.schema.discovery") fn_pg_namespace_discovery
    ∷ with_params (bytes "pg.tablespace.discovery") fn_pg_tablespace_discovery
    ∷ with_params (bytes "pg.table.discovery") fn_pg_table_discovery
    ∷ with_test (bytes "pg.table.children.discovery") fn_pg_table_children_discovery
        (bytes ",,pg_proc")
    ∷ with_params (bytes "pg.index.discovery") fn_pg_index_discovery
    ∷ with_params (bytes "pg.db.size") fn_pg_db_size
    ∷ with_params (bytes "pg.table.size") fn_pg_table_size
    ∷ with_params (bytes "pg.table.rows") fn_pg_table_rows
    ∷ with_test (bytes "pg.table.children") fn_pg_table_children (bytes ",,pg_database")
    ∷ with_test (bytes "pg.table.children.size") fn_pg_table_children_size (bytes ",,pg_database")
    ∷ with_test (bytes "pg.table.children.rows") fn_pg_table_children_rows (bytes ",,pg_database")
    ∷ with_params (bytes "pg.index.size") fn_pg_index_size
    ∷ with_params (bytes "pg.index.rows") fn_pg_index_rows
    ∷ with_test (bytes "pg.tablespace.size") fn_pg_tablespace_size (bytes ",,pg_default")
    ∷ with_test (bytes "pg.namespace.size") fn_pg_namespace_size (bytes ",,pg_catalog")
    ∷ with_test (bytes "pg.schema.size") fn_pg_namespace_size (bytes ",,pg_catalog")
    ∷ with_params (bytes "pg.db.numbackends") fn_pg_stat_database
    ∷ with_params (bytes "pg.db.xact_commit") fn_pg_stat_database
    ∷ with_params (bytes "pg.db.xact_rollback") fn_pg_stat_database
    ∷ with_params (bytes "pg.db.blks_read") fn_pg_stat_database
    ∷ with_params (bytes "pg.db.blks_hit") fn_pg_stat_database
    ∷ with_params (bytes "pg.db.blks_ratio") fn_pg_db_blks_ratio
    ∷ with_params (bytes "pg.db.tup_returned") fn_pg_stat_database
    ∷ with_params (bytes "pg.db.tup_fetched") fn_pg_stat_database
    ∷ with_params (bytes "pg.db.tup_inserted") fn_pg_stat_database
    ∷ with_params (bytes "pg.db.tup_updated") fn_pg_stat_database
    ∷ with_params (bytes "pg.db.tup_deleted") fn_pg_stat_database
    ∷ with_params (bytes "pg.db.conflicts") fn_pg_stat_database
    ∷ with_params (bytes "pg.db.temp_files") fn_pg_stat_database
    ∷ with_params (bytes "pg.db.temp_bytes") fn_pg_stat_database
    ∷ with_params (bytes "pg.db.deadlocks") fn_pg_stat_database
    ∷ with_params (bytes "pg.db.blk_read_time") fn_pg_stat_database
    ∷ with_params (bytes "pg.db.blk_write_time") fn_pg_stat_database
    ∷ with_test (bytes "pg.db.stats_reset") fn_pg_stat_database (bytes ",,postgres,,,")
    ∷ with_params (bytes "pg.db.xid_age") fn_pg_db_xid_age
    ∷ with_params (bytes "pg.table.seq_scan") fn_pg_stat_all_tables
    ∷ with_params (bytes "pg.table.seq_tup_read") fn_pg_stat_all_tables
    ∷ with_params (bytes "pg.table.idx_scan") fn_pg_stat_all_tables
    ∷ with_params (bytes "pg.table.idx_scan_ratio") fn_pg_table_idx_scan_ratio
    ∷ with_params (bytes "pg.table.idx_tup_fetch") fn_pg_stat_all_tables
    ∷ with_params (bytes "pg.table.n_tup_ins") fn_pg_stat_all_tables
    ∷ with_params (bytes "pg.table.n_tup_upd") fn_pg_stat_all_tables
    ∷ with_params (bytes "pg.table.n_tup_del") fn_pg_stat_all_tables
    ∷ with_params (bytes "pg.table.n_tup_hot_upd") fn_pg_stat_all_tables
    ∷ with_params (bytes "pg.table.n_live_tup") fn_pg_stat_all_tables
    ∷ with_params (bytes "pg.table.n_dead_tup") fn_pg_stat_all_tables
    ∷ with_params (bytes "pg.table.n_mod_since_analyze") fn_pg_stat_all_tables
    ∷ with_test (bytes "pg.table.last_vacuum") fn_pg_stat_all_tables (bytes ",,pg_database")
    ∷ with_test (bytes "pg.table.last_autovacuum") fn_pg_stat_all_tables (bytes ",,pg_database")
    ∷ with_test (bytes "pg.table.last_analyze") fn_pg_stat_all_tables (bytes ",,pg_database")
    ∷ with_test (bytes "pg.table.last_autoanalyze") fn_pg_stat_all_tables (bytes ",,pg_database")
    ∷ with_params (bytes "pg.table.vacuum_count") fn_pg_stat_all_tables
    ∷ with_params (bytes "pg.table.autovacuum_count") fn_pg_stat_all_tables
    ∷ with_params (bytes "pg.table.analyze_count") fn_pg_stat_all_tables
    ∷ with_params (bytes "pg.table.autoanalyze_count") fn_pg_stat_all_tables
    ∷ with_params (bytes "pg.table.heap_blks_read") fn_pg_statio_all_tables
    ∷ with_params (bytes "pg.table.heap_blks_hit") fn_pg_statio_all_tables
    ∷ with_params (bytes "pg.table.heap_blks_ratio") fn_pg_table_heap_blks_ratio
    ∷ with_params (bytes "pg.table.idx_blks_read") fn_pg_statio_all_tables
    ∷ with_params (bytes "pg.table.idx_blks_hit") fn_pg_statio_all_tables
    ∷ with_params (bytes "pg.table.idx_blks_ratio") fn_pg_table_idx_blks_ratio
    ∷ with_params (bytes "pg.table.toast_blks_read") fn_pg_statio_all_tables
    ∷ with_params (bytes "pg.table.toast_blks_hit") fn_pg_statio_all_tables
    ∷ with_params (bytes "pg.table.toast_blks_ratio") fn_pg_table_toast_blks_ratio
    ∷ with_params (bytes "pg.table.tidx_blks_read") fn_pg_statio_all_tables
    ∷ with_params (bytes "pg.table.tidx_blks_hit") fn_pg_statio_all_tables
    ∷ with_params (bytes "pg.table.tidx_blks_ratio") fn_pg_table_tidx_blks_ratio
    ∷ with_params (bytes "pg.index.idx_scan") fn_pg_stat_all_indexes
    ∷ with_params (bytes "pg.index.idx_tup_read") fn_pg_stat_all_indexes
    ∷ with_params (bytes "pg.index.idx_tup_fetch") fn_pg_stat_all_indexes
    ∷ with_params (bytes "pg.index.idx_blks_read") fn_pg_statio_all_indexes
    ∷ with_params (bytes "pg.index.idx_blks_hit") fn_pg_statio_all_indexes
    ∷ with_params (bytes "pg.index.idx_blks_ratio") fn_pg_index_idx_blks_ratio
    ∷ []

-- The call of a function of the table.
unfoldable pub call : Env → Queries → Function → Request → Cmd Bool
unfolding modver pg_connect pg_version pg_starttime pg_uptime pg_prepared_xacts_count
    pg_prepared_xacts_ratio pg_prepared_xacts_age pg_setting pg_setting_discovery pg_query
    pg_backends_count pg_backends_free pg_backends_ratio pg_queries_longest pg_stat_bgwriter
    pg_bg_avg_interval pg_bg_time_ratio pg_bg_stats_reset_interval pg_db_discovery
    pg_namespace_discovery pg_tablespace_discovery pg_table_discovery pg_table_children_discovery
    pg_index_discovery pg_db_size pg_table_size pg_table_rows pg_table_children
    pg_table_children_size pg_table_children_rows pg_index_size pg_index_rows pg_tablespace_size
    pg_namespace_size pg_stat_database pg_db_blks_ratio pg_db_xid_age pg_stat_all_tables
    pg_table_idx_scan_ratio pg_statio_all_tables pg_table_heap_blks_ratio pg_table_idx_blks_ratio
    pg_table_toast_blks_ratio pg_table_tidx_blks_ratio pg_stat_all_indexes pg_statio_all_indexes
    pg_index_idx_blks_ratio
call env queries fn_modver = modver env
call env queries fn_pg_connect = pg_connect env
call env queries fn_pg_version = pg_version env
call env queries fn_pg_starttime = pg_starttime env
call env queries fn_pg_uptime = pg_uptime env
call env queries fn_pg_prepared_xacts_count = pg_prepared_xacts_count env
call env queries fn_pg_prepared_xacts_ratio = pg_prepared_xacts_ratio env
call env queries fn_pg_prepared_xacts_age = pg_prepared_xacts_age env
call env queries fn_pg_setting = pg_setting env
call env queries fn_pg_setting_discovery = pg_setting_discovery env
call env queries fn_pg_query = pg_query env queries
call env queries fn_pg_backends_count = pg_backends_count env
call env queries fn_pg_backends_free = pg_backends_free env
call env queries fn_pg_backends_ratio = pg_backends_ratio env
call env queries fn_pg_queries_longest = pg_queries_longest env
call env queries fn_pg_stat_bgwriter = pg_stat_bgwriter env
call env queries fn_pg_bg_avg_interval = pg_bg_avg_interval env
call env queries fn_pg_bg_time_ratio = pg_bg_time_ratio env
call env queries fn_pg_bg_stats_reset_interval = pg_bg_stats_reset_interval env
call env queries fn_pg_db_discovery = pg_db_discovery env
call env queries fn_pg_namespace_discovery = pg_namespace_discovery env
call env queries fn_pg_tablespace_discovery = pg_tablespace_discovery env
call env queries fn_pg_table_discovery = pg_table_discovery env
call env queries fn_pg_table_children_discovery = pg_table_children_discovery env
call env queries fn_pg_index_discovery = pg_index_discovery env
call env queries fn_pg_db_size = pg_db_size env
call env queries fn_pg_table_size = pg_table_size env
call env queries fn_pg_table_rows = pg_table_rows env
call env queries fn_pg_table_children = pg_table_children env
call env queries fn_pg_table_children_size = pg_table_children_size env
call env queries fn_pg_table_children_rows = pg_table_children_rows env
call env queries fn_pg_index_size = pg_index_size env
call env queries fn_pg_index_rows = pg_index_rows env
call env queries fn_pg_tablespace_size = pg_tablespace_size env
call env queries fn_pg_namespace_size = pg_namespace_size env
call env queries fn_pg_stat_database = pg_stat_database env
call env queries fn_pg_db_blks_ratio = pg_db_blks_ratio env
call env queries fn_pg_db_xid_age = pg_db_xid_age env
call env queries fn_pg_stat_all_tables = pg_stat_all_tables env
call env queries fn_pg_table_idx_scan_ratio = pg_table_idx_scan_ratio env
call env queries fn_pg_statio_all_tables = pg_statio_all_tables env
call env queries fn_pg_table_heap_blks_ratio = pg_table_heap_blks_ratio env
call env queries fn_pg_table_idx_blks_ratio = pg_table_idx_blks_ratio env
call env queries fn_pg_table_toast_blks_ratio = pg_table_toast_blks_ratio env
call env queries fn_pg_table_tidx_blks_ratio = pg_table_tidx_blks_ratio env
call env queries fn_pg_stat_all_indexes = pg_stat_all_indexes env
call env queries fn_pg_statio_all_indexes = pg_statio_all_indexes env
call env queries fn_pg_index_idx_blks_ratio = pg_index_idx_blks_ratio env
