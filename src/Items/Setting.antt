-- ===== src/Items/Setting.antt =====
-- src/pg_setting.c: server settings.
-- The copies of the value and of its type are values here, not blocks of the memory.
use libzbxpgsql.Base.{
  ◌==◌, Bool, true, false, none, some, [], ◌∷◌, Text, bytes, lines, printf, starts, strisnull,
  if◌then◌else◌, strncmp,
}
use libzbxpgsql.Runtime.{
  Env, Request, PgResult, Cmd, pure, lift, ◌>>=◌, ◌>>◌, load, report, str, ui64, dbl, as_result,
}
use libzbxpgsql.Params.{param_new}
use libzbxpgsql.Connect.{param_first, pq_finish, pq_clear, set_err_result, pg_connect_request}
use libzbxpgsql.Numbers.{strtoull}
use libzbxpgsql.Query.{pq_getvalue, pg_exec}
use libzbxpgsql.Discovery.{pq_ntuples, pg_get_discovery}

unfoldable pub discover_settings : Text
discover_settings = lines (
    "SELECT     name AS setting    , unit AS unit     , category AS category     ,"
    ∷ " short_desc AS description     , context AS context     , vartype AS vartype"
    ∷ " FROM pg_settings;" ∷ [])

unfoldable pub get_setting : Text
get_setting = bytes "SELECT setting,vartype FROM pg_settings WHERE name=$1;"

module _ (env : Env) where
  unfoldable pub pg_setting_discovery : Request → Cmd Bool
  unfolding pg_get_discovery
  pg_setting_discovery request = pg_get_discovery env request discover_settings none

  -- the part of `PG_SETTING` between `pg_exec` and the label `out`
  unfoldable pub setting_of : PgResult → Cmd Bool
  unfolding set_err_result pq_ntuples pq_getvalue strncmp report strtoull
  setting_of res =
      if res.tuples_ok
      then if pq_ntuples res == 0 then pure false else (do
        value ← lift (pq_getvalue res 0 0)
        type ← lift (pq_getvalue res 0 1)
        report (
            if starts (bytes "integer") type 7
            then ui64 (strtoull value)
            else if starts (bytes "real") type 4
            then dbl value
            else str value)
        pure true)
      else (do
        set_err_result env true
            (printf (bytes "PostgreSQL query error: %s") (res.error_message ∷ []))
        pure false)

  unfoldable pub pg_setting : Request → Cmd Bool
  unfolding strisnull set_err_result pg_connect_request pg_exec load setting_of pq_clear pq_finish
  pg_setting request = do
    let setting = request.rparam param_first
    if strisnull setting
        then (do set_err_result env true (bytes "No setting name specified"); pure false)
        else (do
          connected ← pg_connect_request env request true
          elim connected [
            | none ↦ do pq_clear none; pq_finish none; pure false
            | some conn ↦ do
              params ← param_new setting
              res ← pg_exec env conn get_setting params
              o ← load res
              r ← lift (as_result o)
              ok ← setting_of r
              pq_clear (some res)
              pq_finish (some conn)
              pure ok
          ])
