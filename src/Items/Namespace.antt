-- ===== src/Items/Namespace.antt =====
-- src/pg_namespace.c: schemas.
use libzbxpgsql.Base.{Bool, none, [], ◌∷◌, Text, bytes, lines}
use libzbxpgsql.Runtime.{Env, Request, Cmd}
use libzbxpgsql.Connect.{param_first}
use libzbxpgsql.Query.{ar_uint64}
use libzbxpgsql.Discovery.{pg_get_discovery, pg_get_discovery_wide}
use libzbxpgsql.Items.{required, discover_mode}

unfoldable pub discover_namespaces : Text
discover_namespaces = lines (
    "SELECT    n.oid AS oid,   current_database() || '.' || n.nspname AS path,"
    ∷ "   n.nspname AS schema,   n.nspname AS namespace,   current_database() AS"
    ∷ " database,   pg_catalog.pg_get_userbyid(n.nspowner) AS owner,"
    ∷ "   pg_catalog.obj_description(n.oid, 'pg_namespace') AS description FROM"
    ∷ " pg_catalog.pg_namespace n WHERE    n.nspname !~ '^pg_'    AND n.nspname <>"
    ∷ " 'information_schema' ORDER BY namespace;" ∷ [])

unfoldable pub get_ns_size : Text
get_ns_size = lines (
    "SELECT   SUM(pg_relation_size(quote_ident(schemaname) || '.' ||"
    ∷ " quote_ident(tablename))::bigint) FROM pg_tables WHERE schemaname = $1" ∷ [])

module _ (env : Env) where
  unfoldable pub pg_namespace_discovery : Request → Cmd Bool
  unfolding pg_get_discovery pg_get_discovery_wide discover_mode
  pg_namespace_discovery request = do
    let mode = request.rparam param_first
    discover_mode env mode (pg_get_discovery_wide env request discover_namespaces none)
        (pg_get_discovery env request discover_namespaces none)

  unfoldable pub pg_namespace_size : Request → Cmd Bool
  unfolding required
  pg_namespace_size request =
      required env request (bytes "No schema name specified") ar_uint64 get_ns_size
