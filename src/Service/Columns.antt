-- ===== src/Service/Columns.antt =====
-- The handlers that read a column, and the discoveries with a mode.
use libzbxpgsql.Base.{
  ◌≡◌, refl, subst, Bool, true, false, Option, none, some, [], ◌∷◌, Text, bytes, printf, starts,
  strncmp, strisnull, if◌then◌else◌,
}
use libzbxpgsql.Runtime.{Env, Request, Cmd, pure, lift, ◌>>=◌, ◌>>◌}
use libzbxpgsql.Params.{param_new}
use libzbxpgsql.Params.Laws.{appended}
use libzbxpgsql.Connect.{param_first, set_err_result}
use libzbxpgsql.Connect.Laws.{IsTextRequest}
use libzbxpgsql.Query.{ResultType, ar_string, ar_uint64, ar_double, pg_get_result}
use libzbxpgsql.Discovery.{pg_get_discovery, pg_get_discovery_wide}
use libzbxpgsql.Items.{formatted, discover_mode, text_of_result}
use libzbxpgsql.Items.Bgwriter.{
  bgwriter_stat, bg_time_ratio, bg_time_field, pg_stat_bgwriter, pg_bg_time_ratio,
}
use libzbxpgsql.Items.Database.{get_db_stat, get_db_stat_sum, pg_stat_database}
use libzbxpgsql.Items.Namespace.{discover_namespaces, pg_namespace_discovery}
use libzbxpgsql.Items.Table.{
  discover_tables, discover_table_children, get_table_stat, get_table_stat_sum, get_table_statio,
  get_table_statio_sum, pg_table_discovery, pg_table_children_discovery, pg_stat_all_tables,
  pg_statio_all_tables,
}
use libzbxpgsql.Items.Index.{
  index_query, get_index_statio, get_index_statio_sum, pg_index_discovery, pg_statio_all_indexes,
}
use libzbxpgsql.Service.Everywhere.{ListsNames}
use libzbxpgsql.Service.Plans.{Plan, value, rows, all_rows, refuse, serve}
use libzbxpgsql.Service.Rules.{Implements-if}
use libzbxpgsql.Service.Table.{
  field_plan, mode_plan, index_plan, time_plan, required_plan, bgwriter_plan, database_plan,
  table_plan, column_plan,
}
use libzbxpgsql.Service.Shapes.{
  Carries, refuse-Carries, key_field-Carries, discover_mode-Carries, named-Carries, value-UsesUp,
  rows-UsesUp, value-Carries, value_new-Carries, rows-Carries, all_rows-Carries,
}

-- `PG_STAT_DATABASE` takes an empty name for none.
abbrev cleared : Option Text → Option Text
cleared name = if strisnull name then none else name

cleared-appended : (name : Option Text) → appended [] (cleared name) ≡ appended [] name
unfolding strisnull
cleared-appended none = refl
cleared-appended (some []) = refl
cleared-appended (some (c ∷ s)) = refl

cleared-strisnull : (name : Option Text) → strisnull (cleared name) ≡ strisnull name
unfolding strisnull
cleared-strisnull none = refl
cleared-strisnull (some []) = refl
cleared-strisnull (some (c ∷ s)) = refl

module _ (env : Env) (request : Request) (text_ok : IsTextRequest request) where
  pub pg_stat_bgwriter-Carries :
      Carries env request
        (pg_stat_bgwriter env request)
        (field_plan 3 request.key (bgwriter_plan env request))
  unfolding pg_stat_bgwriter strncmp
  pg_stat_bgwriter-Carries =
      key_field-Carries env request 3 request.key _ (bgwriter_plan env request) (λ field.
        let query = formatted env bgwriter_stat (field ∷ []) in
        Implements-if (serve env request) (starts field (bytes "checkpoint_") 11) _ _ _ _
          (λ _. value-Carries env request text_ok ar_double query)
          (λ _.
            Implements-if (serve env request) (starts field (bytes "stats_reset") 11) _ _ _ _
              (λ _. value-Carries env request text_ok ar_string query)
              (λ _. value-Carries env request text_ok ar_uint64 query)))

  time_of-Carries :
      (action field : Option Text)
      → Carries env request
          (elim field [
            | some column ↦
                pg_get_result env request ar_double (formatted env bg_time_ratio (column ∷ [])) none
            | none ↦
                set_err_result env true
                  (printf (bytes "Invalid action parameter: %s") (text_of_result action ∷ []))
                >> pure false
          ])
          (time_plan env action field)
  time_of-Carries action none = refuse-Carries env request _
  time_of-Carries action (some field) = value-Carries env request text_ok ar_double _

  pub pg_bg_time_ratio-Carries :
      Carries env request (pg_bg_time_ratio env request) (
        time_plan env (request.rparam param_first) (bg_time_field env (request.rparam param_first)))
  unfolding pg_bg_time_ratio
  pg_bg_time_ratio-Carries =
      time_of-Carries (request.rparam param_first) (bg_time_field env (request.rparam param_first))

  with_cleared :
      (type : ResultType) (query : Text)
      → Carries env request
          (param_new (cleared (request.rparam param_first)) >>= λ ps.
            pg_get_result env request type query ps)
          (value type query (appended [] (request.rparam param_first)))
  with_cleared type query =
      subst
        (λ ss.
          Carries env request
            (param_new (cleared (request.rparam param_first)) >>= λ ps.
              pg_get_result env request type query ps)
            (value type query ss))
        (cleared-appended (request.rparam param_first))
        (value_new-Carries env request text_ok type query (cleared (request.rparam param_first)))

  reset-Carries :
      (query : Text)
      → Carries env request
          (if strisnull (cleared (request.rparam param_first))
            then (set_err_result env true (bytes "No database specified") >> pure false)
            else (param_new (cleared (request.rparam param_first)) >>= λ ps.
                pg_get_result env request ar_string query ps))
          (required_plan env request (bytes "No database specified") (value ar_string query))
  reset-Carries query =
      subst (λ b. Carries env request reset (if b then no_database else read))
        (cleared-strisnull (request.rparam param_first))
        (Implements-if (serve env request) (strisnull (cleared (request.rparam param_first))) _ _
          no_database read (λ _. refuse-Carries env request (bytes "No database specified"))
          (λ _. with_cleared ar_string query))
    where
      no_database : Plan
      no_database = refuse [] (bytes "No database specified")

      read : Plan
      read = value ar_string query (appended [] (request.rparam param_first))

      reset : Cmd Bool
      reset =
          if strisnull (cleared (request.rparam param_first))
          then (set_err_result env true (bytes "No database specified") >> pure false)
          else (param_new (cleared (request.rparam param_first)) >>= λ ps.
              pg_get_result env request ar_string query ps)

  pub pg_stat_database-Carries :
      Carries env request
        (pg_stat_database env request)
        (field_plan 6 request.key (database_plan env request))
  unfolding pg_stat_database strncmp
  pg_stat_database-Carries =
      key_field-Carries env request 6 request.key _ (database_plan env request) (λ field.
        let name = request.rparam param_first in
        let query =
          formatted env (if strisnull name then get_db_stat_sum else get_db_stat) (field ∷ []) in
        Implements-if (serve env request) (starts field (bytes "stats_reset") 11) _ _ _ _
          (λ _. reset-Carries query)
          (λ _.
            Implements-if (serve env request) (starts field (bytes "blk_") 4) _ _ _ _
              (λ _. with_cleared ar_double query) (λ _. with_cleared ar_uint64 query)))

  pub pg_stat_all_tables-Carries :
      Carries env request
        (pg_stat_all_tables env request)
        (field_plan 9 request.key (table_plan env request))
  unfolding pg_stat_all_tables strncmp
  pg_stat_all_tables-Carries =
      key_field-Carries env request 9 request.key _ (table_plan env request) (λ field.
        let name = request.rparam param_first in
        let query =
          formatted env (if strisnull name then get_table_stat_sum else get_table_stat)
            (field ∷ []) in
        Implements-if (serve env request) (starts field (bytes "last_") 5) _ _ _ _
          (λ _.
            named-Carries env request (bytes "No table name specified")
              (pg_get_result env request ar_string query) (value ar_string query)
              (value-UsesUp env request text_ok ar_string query (appended [] name)))
          (λ _. value_new-Carries env request text_ok ar_uint64 query name))

  pub pg_statio_all_tables-Carries :
      Carries env request
        (pg_statio_all_tables env request)
        (field_plan 9 request.key (column_plan env request get_table_statio_sum get_table_statio))
  unfolding pg_statio_all_tables
  pg_statio_all_tables-Carries =
      key_field-Carries env request 9 request.key _
        (column_plan env request get_table_statio_sum get_table_statio)
        (λ field. value_new-Carries env request text_ok ar_uint64 _ (request.rparam param_first))

  pub pg_statio_all_indexes-Carries :
      Carries env request
        (pg_statio_all_indexes env request)
        (field_plan 9 request.key (column_plan env request get_index_statio_sum get_index_statio))
  unfolding pg_statio_all_indexes
  pg_statio_all_indexes-Carries =
      key_field-Carries env request 9 request.key _
        (column_plan env request get_index_statio_sum get_index_statio)
        (λ field. value_new-Carries env request text_ok ar_uint64 _ (request.rparam param_first))

  pub pg_table_children_discovery-Carries :
      Carries env request
        (pg_table_children_discovery env request)
        (required_plan env request (bytes "No table name specified") (rows discover_table_children))
  unfolding pg_table_children_discovery
  pg_table_children_discovery-Carries =
      named-Carries env request (bytes "No table name specified")
        (pg_get_discovery env request discover_table_children) (rows discover_table_children)
        (rows-UsesUp env request text_ok discover_table_children _)

  module _ (named : ListsNames env) where
    pub pg_namespace_discovery-Carries : Carries env request (pg_namespace_discovery env request) (
        mode_plan
          (request.rparam param_first)
          (all_rows discover_namespaces)
          (rows discover_namespaces []))
    unfolding pg_namespace_discovery
    pg_namespace_discovery-Carries =
        discover_mode-Carries env request (request.rparam param_first) _ _ _ _
          (all_rows-Carries env request text_ok named discover_namespaces)
          (rows-Carries env request text_ok discover_namespaces)

    pub pg_table_discovery-Carries : Carries env request (pg_table_discovery env request) (
        mode_plan (request.rparam param_first) (all_rows discover_tables) (rows discover_tables []))
    unfolding pg_table_discovery
    pg_table_discovery-Carries =
        discover_mode-Carries env request (request.rparam param_first) _ _ _ _
          (all_rows-Carries env request text_ok named discover_tables)
          (rows-Carries env request text_ok discover_tables)

    index_of-Carries :
        (query : Option Text)
        → Carries env request
            (lift query >>= λ text.
              discover_mode env
                (request.rparam param_first)
                (pg_get_discovery_wide env request text none)
                (pg_get_discovery env request text none))
            (index_plan (request.rparam param_first) query)
    unfolding serve
    index_of-Carries none = record { at = λ w f. refl }
    index_of-Carries (some text) =
        discover_mode-Carries env request (request.rparam param_first) _ _ _ _
          (all_rows-Carries env request text_ok named text) (rows-Carries env request text_ok text)

    pub pg_index_discovery-Carries :
        Carries env request
          (pg_index_discovery env request)
          (index_plan (request.rparam param_first) (index_query env request))
    unfolding pg_index_discovery
    pg_index_discovery-Carries = index_of-Carries (index_query env request)
