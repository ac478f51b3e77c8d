-- ===== src/Service/Fields.antt =====
-- The handlers that read a column from the key: which column they ask for, from the entry of the
-- table to the effect of the call.
use libzbxpgsql.Base.{
  ℕ, leb, length, length-append, get_elem?, true, false, none, [], ◌≡◌, refl, ap, ◌∙◌, subst, some,
  ◌++◌, Text, bytes, strisnull, arith,
}
use libzbxpgsql.Runtime.{Env, World, Request}
use libzbxpgsql.Connect.Laws.{IsTextRequest}
use libzbxpgsql.Queries.{Queries}
use libzbxpgsql.Items.Backends.Laws.{Fits}
use libzbxpgsql.Items.Table.{get_table_statio, get_table_statio_sum}
use libzbxpgsql.Items.Index.{get_index_statio, get_index_statio_sum}
use libzbxpgsql.Metrics.{
  Function, fn_pg_stat_bgwriter, fn_pg_stat_database, fn_pg_stat_all_tables,
  fn_pg_statio_all_tables, fn_pg_stat_all_indexes, fn_pg_statio_all_indexes, Metric, keys, call,
}
use libzbxpgsql.Metrics.Laws.{is_column, field_prefix, drop-append, keys-field_prefix}
use libzbxpgsql.Service.Meets.{Implements}
use libzbxpgsql.Service.Everywhere.{ListsNames}
use libzbxpgsql.Service.Plans.{Plan, serve}
use libzbxpgsql.Service.Table.{
  field_plan, bgwriter_plan, database_plan, table_plan, column_plan, index_stat_plan,
}
use libzbxpgsql.Service.Requests.{plan}
use libzbxpgsql.Service.Calls.{call-plan}

pub data Reader : Type 0 where
  bgwriter database table table_io index index_io : Reader

abbrev pub function_of : Reader → Function
function_of bgwriter = fn_pg_stat_bgwriter
function_of database = fn_pg_stat_database
function_of table = fn_pg_stat_all_tables
function_of table_io = fn_pg_statio_all_tables
function_of index = fn_pg_stat_all_indexes
function_of index_io = fn_pg_statio_all_indexes

abbrev pub prefix_of : Reader → Text
prefix_of bgwriter = bytes "pg."
prefix_of database = bytes "pg.db."
prefix_of table = bytes "pg.table."
prefix_of table_io = bytes "pg.table."
prefix_of index = bytes "pg.index."
prefix_of index_io = bytes "pg.index."

-- The plan for a column.
abbrev pub column_of_plan : Env → Request → Reader → Text → Plan
column_of_plan env request bgwriter field = bgwriter_plan env request field
column_of_plan env request database field = database_plan env request field
column_of_plan env request table field = table_plan env request field
column_of_plan env request table_io field =
    column_plan env request get_table_statio_sum get_table_statio field
column_of_plan env request index field = index_stat_plan env request field
column_of_plan env request index_io field =
    column_plan env request get_index_statio_sum get_index_statio field

prefix-function_of : (reader : Reader) → field_prefix (function_of reader) ≡ some (prefix_of reader)
prefix-function_of bgwriter = refl
prefix-function_of database = refl
prefix-function_of table = refl
prefix-function_of table_io = refl
prefix-function_of index = refl
prefix-function_of index_io = refl

field_plan-append :
    (p field : Text) (next : Text → Plan) → field_plan (length p) (p ++ field) next ≡ next field
field_plan-append p field next =
    let within : leb (length p) (length (p ++ field)) ≡ true =
      ground (arith, length-append p field) in
    rw (within, drop-append p field) refl

abbrev start : World
start = record { next = 0; heap = λ p. none; reports = []; history = [] }

module _ (env : Env) (queries : Queries) (request : Request) where
  plan-column :
      (reader : Reader) (field : Text)
      → request.key ≡ prefix_of reader ++ field
      → plan env queries (function_of reader) request ≡ column_of_plan env request reader field
  unfolding plan
  plan-column bgwriter field key =
      ap (λ k. field_plan 3 k (bgwriter_plan env request)) key
      ∙ field_plan-append (bytes "pg.") field (bgwriter_plan env request)
  plan-column database field key =
      ap (λ k. field_plan 6 k (database_plan env request)) key
      ∙ field_plan-append (bytes "pg.db.") field (database_plan env request)
  plan-column table field key =
      ap (λ k. field_plan 9 k (table_plan env request)) key
      ∙ field_plan-append (bytes "pg.table.") field (table_plan env request)
  plan-column table_io field key =
      let next = column_plan env request get_table_statio_sum get_table_statio in
      ap (λ k. field_plan 9 k next) key ∙ field_plan-append (bytes "pg.table.") field next
  plan-column index field key =
      ap (λ k. field_plan 9 k (index_stat_plan env request)) key
      ∙ field_plan-append (bytes "pg.index.") field (index_stat_plan env request)
  plan-column index_io field key =
      let next = column_plan env request get_index_statio_sum get_index_statio in
      ap (λ k. field_plan 9 k next) key ∙ field_plan-append (bytes "pg.index.") field next

  -- For every entry of the table whose function reads statistics, and a request with its key: the
  -- key is the prefix of the function and a column name, which is not empty and has small letters
  -- and `_` alone; and the call implements the effect of the plan for that column, with the query,
  -- the type and the parameters that it has. This is for connection parameters that hold no
  -- terminator inside, texts that are printed whole where they fit and a server that lists no
  -- database with an empty name.
  pub keys-columns :
      (reader : Reader) (i : ℕ) (m : Metric)
      → get_elem? keys i ≡ some m
      → m.function ≡ function_of reader
      → request.key ≡ m.key
      → IsTextRequest request
      → Fits env
      → ListsNames env
      → (field : Text) × (m.key ≡ prefix_of reader ++ field)
        × (is_column field ≡ true)
        × (strisnull (some field) ≡ false)
        × Implements
            (call env queries m.function request)
            (serve env request (column_of_plan env request reader field))
  keys-columns reader i m at_i e key text_ok fits named =
      let (field, shape, column, given, _) =
        keys-field_prefix i m (prefix_of reader) start at_i
          (ap field_prefix e ∙ prefix-function_of reader) in
      (
        field,
        shape,
        column,
        given,
        subst (λ p. Implements (call env queries m.function request) (serve env request p))
            (ap (λ fn. plan env queries fn request) e ∙ plan-column reader field (key ∙ shape))
            (call-plan env queries request m.function text_ok fits named),
      )
