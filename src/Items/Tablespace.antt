-- ===== src/Items/Tablespace.antt =====
-- src/pg_tablespace.c: tablespaces.
use libzbxpgsql.Base.{
  leb, ◌==◌, Bool, false, none, [], ◌∷◌, Text, bytes, lines, if◌then◌else◌, pos, negsuc,
}
use libzbxpgsql.Runtime.{Env, Request, Cmd, pure, ◌>>=◌}
use libzbxpgsql.Numbers.{to_int}
use libzbxpgsql.Query.{ar_uint64, pg_version}
use libzbxpgsql.Discovery.{pg_get_discovery}
use libzbxpgsql.Items.{required}

unfoldable pub discover_tablespaces : Text
discover_tablespaces = lines (
    "SELECT    t.oid AS oid   , t.spcname AS tablespace   ,"
    ∷ " pg_catalog.pg_get_userbyid(spcowner) AS owner   ,"
    ∷ " pg_catalog.shobj_description(oid, 'pg_tablespace') AS description FROM"
    ∷ " pg_catalog.pg_tablespace t ORDER BY t.spcname;" ∷ [])

unfoldable pub discover_tablespaces_92 : Text
discover_tablespaces_92 = lines (
    "SELECT    t.oid AS oid   , t.spcname AS tablespace   ,"
    ∷ " pg_catalog.pg_get_userbyid(spcowner) AS owner   ,"
    ∷ " pg_catalog.pg_tablespace_location(oid) AS location   ,"
    ∷ " pg_catalog.shobj_description(oid, 'pg_tablespace') AS description FROM"
    ∷ " pg_catalog.pg_tablespace t ORDER BY t.spcname;" ∷ [])

unfoldable pub get_ts_size : Text
get_ts_size = bytes "SELECT pg_tablespace_size($1)"

module _ (env : Env) where
  unfoldable pub pg_tablespace_discovery : Request → Cmd Bool
  unfolding pg_version to_int pg_get_discovery
  pg_tablespace_discovery request = do
    version ← pg_version env request
    elim (to_int version) [
      | negsuc n ↦ pg_get_discovery env request discover_tablespaces none
      | pos n ↦
          if n == 0
          then pure false
          else if leb 90200 n
          then pg_get_discovery env request discover_tablespaces_92 none
          else pg_get_discovery env request discover_tablespaces none
    ]

  unfoldable pub pg_tablespace_size : Request → Cmd Bool
  unfolding required
  pg_tablespace_size request =
      required env request (bytes "No tablespace specified") ar_uint64 get_ts_size
