-- ===== src/Service/Table.antt =====
-- The plan of each function of the table in src/libzbxpgsql.c, from the key and the parameters of
-- the request alone.
use libzbxpgsql.Base.{
  ℕ, leb, ◌-◌, Bool, true, false, ◌||◌, Option, none, some, List, [], ◌∷◌, ◌++◌, Text, bytes,
  printf, same, starts, length, drop, strisnull, if◌then◌else◌,
}
use libzbxpgsql.Runtime.{Env, Request}
use libzbxpgsql.Params.Laws.{appended}
use libzbxpgsql.Connect.{param_first}
use libzbxpgsql.Query.{ResultType, ar_string, ar_uint64, ar_double, percentage_query}
use libzbxpgsql.Queries.{Queries, get_query_by_name}
use libzbxpgsql.Items.{formatted, text_of_result}
use libzbxpgsql.Items.Backends.{
  max_query_len, get_backends, get_longest_query, get_longest_query_92, backends_ratio, pid_column,
}
use libzbxpgsql.Items.Backends.Laws.{filters, filters_text}
use libzbxpgsql.Items.Bgwriter.{bgwriter_stat, bg_time_ratio}
use libzbxpgsql.Items.Database.{get_db_stat, get_db_stat_sum}
use libzbxpgsql.Items.Table.{get_table_stat_sum, get_table_stat}
use libzbxpgsql.Items.Index.{get_index_stat_sum, get_index_stat}
use libzbxpgsql.Items.UserQuery.Laws.{user_params, chosen}
use libzbxpgsql.Service.Plans.{
  Plan, undefined, refuse, value, rows, all_rows, index_stat, by_version,
}

-- The key behind its first `n` bytes.
abbrev pub field_plan : ℕ → Text → (Text → Plan) → Plan
field_plan n key next = if leb n (length key) then next (drop n key) else undefined

-- The type that a key of PG_QUERY asks for.
abbrev pub type_plan : Text → Text → List Text → Plan
type_plan type query ss =
    if starts type (bytes "string") 5
    then value ar_string query ss
    else if starts type (bytes "integer") 7
    then value ar_uint64 query ss
    else if starts type (bytes "double") 6
    then value ar_double query ss
    else if starts type (bytes "discovery") 9
    then rows query ss
    else undefined

abbrev pub found_plan : Text → Text → List Text → Option (Option Text) → Plan
found_plan key given ss none = undefined
found_plan key given ss (some found) =
    field_plan 9 key (λ type. type_plan type (chosen found given) ss)

abbrev pub query_plan : Queries → Request → Option Text → Plan
query_plan queries request none = refuse [] (bytes "No query or query-key specified")
query_plan queries request (some []) = refuse [] (bytes "No query or query-key specified")
query_plan queries request (some (c ∷ s)) =
    found_plan request.key (c ∷ s) (user_params request (request.nparam - 3) 3)
      (get_query_by_name queries (c ∷ s))

-- The condition on `waiting`, if the parameter is a valid one.
abbrev pub waiting_clause : Option Text → Option Text
waiting_clause none = some []
waiting_clause (some []) = some []
waiting_clause (some (c ∷ s)) =
    if starts (bytes "true") (c ∷ s) 5
    then some (bytes " AND waiting = TRUE")
    else if starts (bytes "false") (c ∷ s) 6
    then some (bytes " AND waiting = FALSE")
    else none

-- The mode of a discovery.
abbrev pub mode_plan : Option Text → Plan → Plan → Plan
mode_plan none deep shallow = deep
mode_plan (some mode) deep shallow =
    if strisnull (some mode) || same mode (bytes "deep")
    then deep
    else if same mode (bytes "shallow")
    then shallow
    else refuse [] (printf (bytes "Invalid search mode parameter: %s") (mode ∷ []))

abbrev pub index_plan : Option Text → Option Text → Plan
index_plan mode none = undefined
index_plan mode (some query) = mode_plan mode (all_rows query) (rows query [])

abbrev pub time_plan : Env → Option Text → Option Text → Plan
time_plan env action none =
    refuse [] (printf (bytes "Invalid action parameter: %s") (text_of_result action ∷ []))
time_plan env action (some field) = value ar_double (formatted env bg_time_ratio (field ∷ [])) []

module _ (env : Env) (request : Request) where
  abbrev name : Option Text
  name = request.rparam param_first

  -- One query for the object that is named, and another for all of them.
  abbrev pub name_plan : ResultType → Text → Text → Plan
  name_plan type sum one = value type (if strisnull name then sum else one) (appended [] name)

  -- An object that must be named.
  abbrev pub required_plan : Text → (List Text → Plan) → Plan
  required_plan message plan = if strisnull name then refuse [] message else plan (appended [] name)

  abbrev pub ratio_plan : (table sum1 sum2 col1 col2 col_filter : Text) → Plan
  ratio_plan table sum1 sum2 col1 col2 col_filter =
      if strisnull name
      then value ar_double (percentage_query env table sum1 sum2 none) []
      else value ar_double (percentage_query env table col1 col2 (some col_filter))
          (appended [] name)

  -- A plan with the conditions on pg_stat_activity and their parameters.
  abbrev pub filters_plan : (Text → List Text → Plan) → Option Text → Plan
  filters_plan next none = refuse (filters env request) (
      printf (bytes "Unsupported parameter value: \"%s\" in %s")
        (text_of_result (request.rparam 5) ∷ request.key ∷ []))
  filters_plan next (some text) = next (filters_text env request ++ text) (filters env request)

  abbrev pub with_filters : (Text → List Text → Plan) → Plan
  with_filters next = filters_plan next (waiting_clause (request.rparam 5))

  abbrev pub counted_plan : Bool → Text → List Text → Plan
  counted_plan old text ss =
      value ar_uint64
        (env.clip max_query_len (printf get_backends (pid_column env old ∷ text ∷ []))) ss

  abbrev pub backends_ratio_plan : Bool → Plan
  backends_ratio_plan old =
      value ar_double (env.clip max_query_len (printf backends_ratio (pid_column env old ∷ []))) []

  abbrev pub longest_plan : Bool → Text → List Text → Plan
  longest_plan old text ss =
      value ar_double
        (env.clip max_query_len
          (printf (if old then get_longest_query else get_longest_query_92) (text ∷ [])))
        ss

  abbrev pub duration_plan : Text → List Text → Plan
  duration_plan text ss = by_version ss (longest_plan true text ss) (longest_plan false text ss)

  -- A column of pg_stat_bgwriter.
  abbrev pub bgwriter_plan : Text → Plan
  bgwriter_plan field =
      let query = formatted env bgwriter_stat (field ∷ []) in
      if starts field (bytes "checkpoint_") 11
      then value ar_double query []
      else if starts field (bytes "stats_reset") 11
      then value ar_string query []
      else value ar_uint64 query []

  -- A column that is named: which of them need a name, and the query with the column.
  abbrev pub database_plan : Text → Plan
  database_plan field =
      let query =
        formatted env (if strisnull name then get_db_stat_sum else get_db_stat) (field ∷ []) in
      if starts field (bytes "stats_reset") 11
      then required_plan (bytes "No database specified") (value ar_string query)
      else if starts field (bytes "blk_") 4
      then value ar_double query (appended [] name)
      else value ar_uint64 query (appended [] name)

  abbrev pub table_plan : Text → Plan
  table_plan field =
      let query =
        formatted env (if strisnull name then get_table_stat_sum else get_table_stat)
          (field ∷ []) in
      if starts field (bytes "last_") 5
      then required_plan (bytes "No table name specified") (value ar_string query)
      else value ar_uint64 query (appended [] name)

  abbrev pub column_plan : Text → Text → Text → Plan
  column_plan sum one field =
      value ar_uint64 (formatted env (if strisnull name then sum else one) (field ∷ []))
        (appended [] name)

  abbrev pub index_stat_plan : Text → Plan
  index_stat_plan field =
      index_stat
        (formatted env (if strisnull name then get_index_stat_sum else get_index_stat) (field ∷ []))
        (appended [] name)
