-- ===== src/Items/Database.antt =====
-- src/pg_database.c: databases.
pub mod Laws
use libzbxpgsql.Base.{
  Bool, true, false, none, [], ◌∷◌, Text, bytes, lines, starts, strisnull, if◌then◌else◌, strncmp,
}
use libzbxpgsql.Runtime.{Env, Request, Cmd, pure, ◌>>=◌, ◌>>◌}
use libzbxpgsql.Params.{param_new}
use libzbxpgsql.Connect.{param_first, set_err_result}
use libzbxpgsql.Query.{ar_string, ar_uint64, ar_double, pg_get_result}
use libzbxpgsql.Discovery.{pg_get_discovery}
use libzbxpgsql.Items.{by_filter, key_field, formatted, ratio_item}

unfoldable pub discover_dbs : Text
discover_dbs = lines (
    "SELECT     d.oid as oid,     d.datname as path,     d.datname as database,"
    ∷ "     pg_catalog.pg_encoding_to_char(d.encoding) as encoding,     d.datcollate as"
    ∷ " lc_collate,     d.datctype as lc_ctype,"
    ∷ "     pg_catalog.pg_get_userbyid(d.datdba) as owner,     t.spcname as tablespace,"
    ∷ "     pg_catalog.shobj_description(d.oid, 'pg_database') as description FROM"
    ∷ " pg_catalog.pg_database d     JOIN pg_catalog.pg_tablespace t on d.dattablespace"
    ∷ " = t.oid WHERE     d.datallowconn = 't'     AND d.datistemplate = 'n' ORDER BY" ∷ " 1;" ∷ [])

unfoldable pub get_db_stat : Text
get_db_stat = bytes "SELECT %s FROM pg_stat_database WHERE datname = $1"

unfoldable pub get_db_stat_sum : Text
get_db_stat_sum = bytes "SELECT SUM(%s::bigint) FROM pg_stat_database"

unfoldable pub get_db_size : Text
get_db_size = lines (
    "SELECT pg_catalog.pg_database_size(d.datname) FROM pg_catalog.pg_database d"
    ∷ " WHERE d.datname = $1" ∷ [])

unfoldable pub get_db_size_sum : Text
get_db_size_sum = lines (
    "SELECT SUM(pg_catalog.pg_database_size(d.datname)::bigint) FROM" ∷ " pg_catalog.pg_database d"
    ∷ [])

unfoldable pub xid_age_sum : Text
xid_age_sum = bytes "SELECT MAX(AGE(datfrozenxid)) FROM pg_database;"

unfoldable pub xid_age : Text
xid_age = bytes "SELECT AGE(datfrozenxid) FROM pg_database WHERE datname = $1;"

module _ (env : Env) where
  unfoldable pub pg_db_discovery : Request → Cmd Bool
  unfolding pg_get_discovery
  pg_db_discovery request = pg_get_discovery env request discover_dbs none

  unfoldable pub pg_stat_database : Request → Cmd Bool
  unfolding strisnull strncmp set_err_result pg_get_result
  pg_stat_database request = do
    field ← key_field 6 request.key
    let name = request.rparam param_first
    let query = formatted env (if strisnull name then get_db_stat_sum else get_db_stat) (field ∷ [])
    let datname = if strisnull name then none else name
    if starts field (bytes "stats_reset") 11
        then (if strisnull datname
            then (do set_err_result env true (bytes "No database specified"); pure false)
            else (do params ← param_new datname; pg_get_result env request ar_string query params))
        else if starts field (bytes "blk_") 4
        then (do params ← param_new datname; pg_get_result env request ar_double query params)
        else (do params ← param_new datname; pg_get_result env request ar_uint64 query params)

  unfoldable pub pg_db_blks_ratio : Request → Cmd Bool
  unfolding ratio_item
  pg_db_blks_ratio request =
      ratio_item env request (bytes "pg_stat_database") (bytes "sum(blks_hit)")
        (bytes "sum(blks_hit) + sum(blks_read)") (bytes "blks_hit") (bytes "blks_hit + blks_read")
        (bytes "datname")

  unfoldable pub pg_db_size : Request → Cmd Bool
  unfolding by_filter
  pg_db_size request = by_filter env request ar_uint64 get_db_size_sum get_db_size

  unfoldable pub pg_db_xid_age : Request → Cmd Bool
  unfolding by_filter
  pg_db_xid_age request = by_filter env request ar_uint64 xid_age_sum xid_age
