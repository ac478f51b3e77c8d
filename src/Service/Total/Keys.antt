-- ===== src/Service/Total/Keys.antt =====
-- Every entry of the table of src/libzbxpgsql.c, called with its own key: its plan is not the
-- undefined one, but for PG_QUERY, which depends on the loaded queries, and PG_INDEX_DISCOVERY,
-- whose query may not fit its array.
use libzbxpgsql.Base.{List, [], bytes, true, false}
use libzbxpgsql.Runtime.{Env, Request}
use libzbxpgsql.Connect.{param_first}
use libzbxpgsql.Queries.{Queries}
use libzbxpgsql.Items.Bgwriter.{bg_time_field}
use libzbxpgsql.Items.Namespace.{discover_namespaces}
use libzbxpgsql.Items.Table.{discover_tables, get_table_statio, get_table_statio_sum}
use libzbxpgsql.Items.Index.{get_index_statio_sum, get_index_statio}
use libzbxpgsql.Service.Plans.{Plan, rows, all_rows}
use libzbxpgsql.Service.Table.{
  field_plan, mode_plan, time_plan, counted_plan, duration_plan, bgwriter_plan, database_plan,
  table_plan, column_plan, index_stat_plan,
}
use libzbxpgsql.Metrics.{
  Function, fn_modver, fn_pg_connect, fn_pg_version, fn_pg_starttime, fn_pg_uptime,
  fn_pg_prepared_xacts_count, fn_pg_prepared_xacts_ratio, fn_pg_prepared_xacts_age, fn_pg_setting,
  fn_pg_setting_discovery, fn_pg_query, fn_pg_backends_count, fn_pg_backends_free,
  fn_pg_backends_ratio, fn_pg_queries_longest, fn_pg_stat_bgwriter, fn_pg_bg_avg_interval,
  fn_pg_bg_time_ratio, fn_pg_bg_stats_reset_interval, fn_pg_db_discovery, fn_pg_namespace_discovery,
  fn_pg_tablespace_discovery, fn_pg_table_discovery, fn_pg_table_children_discovery,
  fn_pg_index_discovery, fn_pg_db_size, fn_pg_table_size, fn_pg_table_rows, fn_pg_table_children,
  fn_pg_table_children_size, fn_pg_table_children_rows, fn_pg_index_size, fn_pg_index_rows,
  fn_pg_tablespace_size, fn_pg_namespace_size, fn_pg_stat_database, fn_pg_db_blks_ratio,
  fn_pg_db_xid_age, fn_pg_stat_all_tables, fn_pg_table_idx_scan_ratio, fn_pg_statio_all_tables,
  fn_pg_table_heap_blks_ratio, fn_pg_table_idx_blks_ratio, fn_pg_table_toast_blks_ratio,
  fn_pg_table_tidx_blks_ratio, fn_pg_stat_all_indexes, fn_pg_statio_all_indexes,
  fn_pg_index_idx_blks_ratio,
}
use libzbxpgsql.Base.{
  ℕ, leb, length, length-append, get_elem?, Bool, true, ◌≡◌, refl, sym, subst, Option, none, some,
  ◌||◌, Text, starts, same, strisnull, if◌then◌else◌, arith,
}
use libzbxpgsql.Runtime.{World}
use libzbxpgsql.Params.Laws.{IsFresh}
use libzbxpgsql.Connect.Laws.{IsTextRequest}
use libzbxpgsql.Items.Backends.Laws.{Fits, filters}
use libzbxpgsql.Metrics.{Metric, keys, call}
use libzbxpgsql.Metrics.Laws.{field_prefix, keys-field_prefix}
use libzbxpgsql.Service.Everywhere.{ListsNames}
use libzbxpgsql.Service.Table.{filters_plan}
use libzbxpgsql.Service.Requests.{plan}
use libzbxpgsql.Service.Total.Acts.{IsTabular}
use libzbxpgsql.Service.Total.Plans.{IsRunnable, Answers, call-returns}

-- The functions whose plan is known from the key alone.
abbrev pub IsFixed : Function → Type 0
IsFixed fn_pg_query = ⊥
IsFixed fn_pg_index_discovery = ⊥
IsFixed _ = Unit

-- The key is at least as long as the prefix that the handler skips.
abbrev IsLong : Option Text → Text → Type 0
IsLong none key = Unit
IsLong (some p) key = leb (length p) (length key) ≡ true

module _ (env : Env) where
  if-IsRunnable :
      (b : Bool) (p q : Plan) → IsRunnable p → IsRunnable q → IsRunnable (if b then p else q)
  if-IsRunnable true p q m n = m
  if-IsRunnable false p q m n = n

  field-IsRunnable :
      (n : ℕ) (key : Text) (next : Text → Plan)
      → leb n (length key) ≡ true
      → ((field : Text) → IsRunnable (next field))
      → IsRunnable (field_plan n key next)
  field-IsRunnable n key next long needs = rw long (needs _)

  mode-IsRunnable :
      (mode : Option Text) (p q : Plan)
      → IsRunnable p
      → IsRunnable q
      → IsRunnable (mode_plan mode p q)
  mode-IsRunnable none p q m n = m
  mode-IsRunnable (some mode) p q m n =
      if-IsRunnable (strisnull (some mode) || same mode (bytes "deep")) p _ m
        (if-IsRunnable (same mode (bytes "shallow")) q _ n tt)

  time-IsRunnable : (action field : Option Text) → IsRunnable (time_plan env action field)
  time-IsRunnable action none = tt
  time-IsRunnable action (some field) = tt

  module _ (request : Request) where
    filters-IsRunnable :
        (next : Text → List Text → Plan)
        → ((text : Text) → IsRunnable (next text (filters env request)))
        → (x : Option Text) → IsRunnable (filters_plan env request next x)
    filters-IsRunnable next needs none = tt
    filters-IsRunnable next needs (some text) = needs _

    bgwriter-IsRunnable : (field : Text) → IsRunnable (bgwriter_plan env request field)
    bgwriter-IsRunnable field =
        if-IsRunnable (starts field (bytes "checkpoint_") 11) _ _ tt
          (if-IsRunnable (starts field (bytes "stats_reset") 11) _ _ tt tt)

    database-IsRunnable : (field : Text) → IsRunnable (database_plan env request field)
    database-IsRunnable field =
        if-IsRunnable (starts field (bytes "stats_reset") 11) _ _
          (if-IsRunnable (strisnull (request.rparam param_first)) _ _ tt tt)
          (if-IsRunnable (starts field (bytes "blk_") 4) _ _ tt tt)

    table-IsRunnable : (field : Text) → IsRunnable (table_plan env request field)
    table-IsRunnable field =
        if-IsRunnable (starts field (bytes "last_") 5) _ _
          (if-IsRunnable (strisnull (request.rparam param_first)) _ _ tt tt) tt

    index_stat-IsRunnable : (field : Text) → IsRunnable (index_stat_plan env request field)
    index_stat-IsRunnable field = tt

    module _ (queries : Queries) where
      plan-IsRunnable :
          (fn : Function)
          → IsFixed fn
          → IsLong (field_prefix fn) request.key
          → IsRunnable (plan env queries fn request)
      unfolding plan
      plan-IsRunnable fn_modver plain reads = tt
      plan-IsRunnable fn_pg_connect plain reads = tt
      plan-IsRunnable fn_pg_version plain reads = tt
      plan-IsRunnable fn_pg_starttime plain reads = tt
      plan-IsRunnable fn_pg_uptime plain reads = tt
      plan-IsRunnable fn_pg_prepared_xacts_count plain reads = tt
      plan-IsRunnable fn_pg_prepared_xacts_ratio plain reads = tt
      plan-IsRunnable fn_pg_prepared_xacts_age plain reads = tt
      plan-IsRunnable fn_pg_setting plain reads =
          if-IsRunnable (strisnull (request.rparam param_first)) _ _ tt tt
      plan-IsRunnable fn_pg_setting_discovery plain reads = tt
      plan-IsRunnable fn_pg_query plain reads = absurd plain
      plan-IsRunnable fn_pg_backends_count plain reads = (
        filters-IsRunnable (counted_plan env request true) (λ text. tt) _,
        filters-IsRunnable (counted_plan env request false) (λ text. tt) _,
      )
      plan-IsRunnable fn_pg_backends_free plain reads = tt
      plan-IsRunnable fn_pg_backends_ratio plain reads = (tt, tt)
      plan-IsRunnable fn_pg_queries_longest plain reads =
          filters-IsRunnable (duration_plan env request) (λ text. (tt, tt)) _
      plan-IsRunnable fn_pg_stat_bgwriter plain reads =
          field-IsRunnable 3 request.key (bgwriter_plan env request) reads bgwriter-IsRunnable
      plan-IsRunnable fn_pg_bg_avg_interval plain reads = tt
      plan-IsRunnable fn_pg_bg_time_ratio plain reads =
          time-IsRunnable (request.rparam param_first)
            (bg_time_field env (request.rparam param_first))
      plan-IsRunnable fn_pg_bg_stats_reset_interval plain reads = tt
      plan-IsRunnable fn_pg_db_discovery plain reads = tt
      plan-IsRunnable fn_pg_namespace_discovery plain reads =
          mode-IsRunnable (request.rparam param_first) (all_rows discover_namespaces)
            (rows discover_namespaces []) tt tt
      plan-IsRunnable fn_pg_tablespace_discovery plain reads = (tt, tt)
      plan-IsRunnable fn_pg_table_discovery plain reads =
          mode-IsRunnable (request.rparam param_first) (all_rows discover_tables)
            (rows discover_tables []) tt tt
      plan-IsRunnable fn_pg_table_children_discovery plain reads =
          if-IsRunnable (strisnull (request.rparam param_first)) _ _ tt tt
      plan-IsRunnable fn_pg_index_discovery plain reads = absurd plain
      plan-IsRunnable fn_pg_db_size plain reads = tt
      plan-IsRunnable fn_pg_table_size plain reads = tt
      plan-IsRunnable fn_pg_table_rows plain reads = tt
      plan-IsRunnable fn_pg_table_children plain reads =
          if-IsRunnable (strisnull (request.rparam param_first)) _ _ tt tt
      plan-IsRunnable fn_pg_table_children_size plain reads =
          if-IsRunnable (strisnull (request.rparam param_first)) _ _ tt tt
      plan-IsRunnable fn_pg_table_children_rows plain reads =
          if-IsRunnable (strisnull (request.rparam param_first)) _ _ tt tt
      plan-IsRunnable fn_pg_index_size plain reads = tt
      plan-IsRunnable fn_pg_index_rows plain reads = tt
      plan-IsRunnable fn_pg_tablespace_size plain reads =
          if-IsRunnable (strisnull (request.rparam param_first)) _ _ tt tt
      plan-IsRunnable fn_pg_namespace_size plain reads =
          if-IsRunnable (strisnull (request.rparam param_first)) _ _ tt tt
      plan-IsRunnable fn_pg_stat_database plain reads =
          field-IsRunnable 6 request.key (database_plan env request) reads database-IsRunnable
      plan-IsRunnable fn_pg_db_blks_ratio plain reads =
          if-IsRunnable (strisnull (request.rparam param_first)) _ _ tt tt
      plan-IsRunnable fn_pg_db_xid_age plain reads = tt
      plan-IsRunnable fn_pg_stat_all_tables plain reads =
          field-IsRunnable 9 request.key (table_plan env request) reads table-IsRunnable
      plan-IsRunnable fn_pg_table_idx_scan_ratio plain reads =
          if-IsRunnable (strisnull (request.rparam param_first)) _ _ tt tt
      plan-IsRunnable fn_pg_statio_all_tables plain reads =
          field-IsRunnable 9 request.key
            (column_plan env request get_table_statio_sum get_table_statio) reads (λ field. tt)
      plan-IsRunnable fn_pg_table_heap_blks_ratio plain reads =
          if-IsRunnable (strisnull (request.rparam param_first)) _ _ tt tt
      plan-IsRunnable fn_pg_table_idx_blks_ratio plain reads =
          if-IsRunnable (strisnull (request.rparam param_first)) _ _ tt tt
      plan-IsRunnable fn_pg_table_toast_blks_ratio plain reads =
          if-IsRunnable (strisnull (request.rparam param_first)) _ _ tt tt
      plan-IsRunnable fn_pg_table_tidx_blks_ratio plain reads =
          if-IsRunnable (strisnull (request.rparam param_first)) _ _ tt tt
      plan-IsRunnable fn_pg_stat_all_indexes plain reads =
          field-IsRunnable 9 request.key (index_stat_plan env request) reads index_stat-IsRunnable
      plan-IsRunnable fn_pg_statio_all_indexes plain reads =
          field-IsRunnable 9 request.key
            (column_plan env request get_index_statio_sum get_index_statio) reads (λ field. tt)
      plan-IsRunnable fn_pg_index_idx_blks_ratio plain reads =
          if-IsRunnable (strisnull (request.rparam param_first)) _ _ tt tt

      field-IsLong :
          (p : Option Text) (m : Metric) (i : ℕ) (w : World)
          → get_elem? keys i ≡ some m
          → field_prefix m.function ≡ p
          → IsLong p m.key
      field-IsLong none m i w at_i e = tt
      field-IsLong (some p) m i w at_i e =
          let (field, shape, _, _, _) = keys-field_prefix i m p w at_i e in
          rw shape (ground (arith, length-append p field))

      -- For every entry of the table but those of PG_QUERY and PG_INDEX_DISCOVERY, a request with the
      -- key of the entry, whatever its parameters are: the function of the entry returns, whether
      -- it connects or not, on a server that answers as the plan needs: the messages for refused
      -- connections are plain formats, each row has a value for each column, a query of the plan
      -- that succeeds has the columns that are read, and values that are read as numbers are in
      -- range. This is for connection parameters that hold no terminator inside, texts that are
      -- printed whole where they fit, a server that lists no database with an empty name, and a
      -- state in which no address from `next` on is in use.
      pub keys-returns :
          (i : ℕ) (m : Metric) (w : World)
          → get_elem? keys i ≡ some m
          → request.key ≡ m.key
          → IsFixed m.function
          → Answers env request (plan env queries m.function request)
          → IsTabular env
          → IsTextRequest request
          → Fits env
          → ListsNames env
          → IsFresh w
          → (ok : Bool) × (w' : World) × (call env queries m.function request w ≡ some (ok, w'))
      keys-returns i m w at_i key fixed answers tables text_ok fits named f =
          call-returns env queries request w m.function
            (plan-IsRunnable m.function fixed (
              subst (IsLong (field_prefix m.function)) (sym key)
                (field-IsLong (field_prefix m.function) m i w at_i refl)))
            answers tables text_ok fits named f
