-- ===== src/Items/Server.antt =====
-- src/pg_server.c: the server itself, and prepared transactions.
use libzbxpgsql.Base.{
  Bool, true, false, none, some, [], ◌∷◌, Text, bytes, lines, strisnull, if◌then◌else◌,
}
use libzbxpgsql.Runtime.{Env, Request, Cmd, pure, ◌>>=◌, ◌>>◌, report, ui64}
use libzbxpgsql.Params.{param_new}
use libzbxpgsql.Connect.{param_first, pq_finish, pg_connect_request}
use libzbxpgsql.Query.{ar_string, ar_uint64, ar_double, pg_get_result}

unfoldable pub get_version : Text
get_version = bytes "SELECT version();"

unfoldable pub get_starttime : Text
get_starttime = bytes "SELECT pg_postmaster_start_time();"

unfoldable pub get_uptime : Text
get_uptime =
    lines (
      "SELECT EXTRACT(EPOCH FROM NOW()) - EXTRACT(EPOCH FROM" ∷ " pg_postmaster_start_time());"
      ∷ [])

unfoldable pub xacts_count_sum : Text
xacts_count_sum = bytes "SELECT COUNT (transaction) FROM pg_prepared_xacts;"

unfoldable pub xacts_count : Text
xacts_count = bytes "SELECT COUNT (transaction) FROM pg_prepared_xacts WHERE database = $1;"

unfoldable pub xacts_ratio : Text
xacts_ratio = lines (
    "SELECT   CASE     WHEN setting::integer = 0 THEN 0.00     ELSE ((SELECT COUNT"
    ∷ " (transaction) FROM pg_prepared_xacts)::float / setting::integer)   END FROM"
    ∷ " pg_settings WHERE name = 'max_prepared_transactions';" ∷ [])

unfoldable pub xacts_age_sum : Text
xacts_age_sum = lines (
    "SELECT   COALESCE(MAX((EXTRACT(EPOCH FROM NOW()) - EXTRACT(EPOCH FROM"
    ∷ " prepared))::integer), 0) FROM pg_prepared_xacts;" ∷ [])

unfoldable pub xacts_age : Text
xacts_age = lines (
    "SELECT   COALESCE(MAX((EXTRACT(EPOCH FROM NOW()) - EXTRACT(EPOCH FROM"
    ∷ " prepared))::integer), 0) FROM pg_prepared_xacts WHERE database = $1;" ∷ [])

module _ (env : Env) where
  unfoldable pub pg_connect : Request → Cmd Bool
  unfolding report pg_connect_request pq_finish
  pg_connect request = do
    connected ← pg_connect_request env request false
    elim connected [
      | some conn ↦ do report (ui64 1); pq_finish (some conn); pure true
      | none ↦ do report (ui64 0); pure true
    ]

  unfoldable pub pg_version : Request → Cmd Bool
  unfolding pg_get_result
  pg_version request = pg_get_result env request ar_string get_version none

  unfoldable pub pg_starttime : Request → Cmd Bool
  unfolding pg_get_result
  pg_starttime request = pg_get_result env request ar_string get_starttime none

  unfoldable pub pg_uptime : Request → Cmd Bool
  unfolding pg_get_result
  pg_uptime request = pg_get_result env request ar_uint64 get_uptime none

  unfoldable pub pg_prepared_xacts_count : Request → Cmd Bool
  unfolding pg_get_result
  pg_prepared_xacts_count request = do
    let datname = request.rparam param_first
    if strisnull datname
        then pg_get_result env request ar_uint64 xacts_count_sum none
        else (do params ← param_new datname; pg_get_result env request ar_uint64 xacts_count params)

  unfoldable pub pg_prepared_xacts_ratio : Request → Cmd Bool
  unfolding pg_get_result
  pg_prepared_xacts_ratio request = pg_get_result env request ar_double xacts_ratio none

  unfoldable pub pg_prepared_xacts_age : Request → Cmd Bool
  unfolding pg_get_result
  pg_prepared_xacts_age request = do
    let datname = request.rparam param_first
    if strisnull datname
        then pg_get_result env request ar_uint64 xacts_age_sum none
        else (do params ← param_new datname; pg_get_result env request ar_uint64 xacts_age params)
