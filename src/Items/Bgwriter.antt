-- ===== src/Items/Bgwriter.antt =====
-- src/pg_bgwriter.c: the background writer.
use libzbxpgsql.Base.{
  Bool, true, false, ◌||◌, Option, none, some, [], ◌∷◌, Text, bytes, lines, printf, same, starts,
  strisnull, if◌then◌else◌, strcmp, strncmp,
}
use libzbxpgsql.Runtime.{Env, Request, Cmd, pure, ◌>>=◌, ◌>>◌}
use libzbxpgsql.Connect.{param_first, set_err_result}
use libzbxpgsql.Query.{ar_string, ar_uint64, ar_double, pg_get_result}
use libzbxpgsql.Items.{key_field, formatted, text_of_result}

unfoldable pub bgwriter_stat : Text
bgwriter_stat = bytes "SELECT %s FROM pg_stat_bgwriter;"

unfoldable pub stats_reset_interval : Text
stats_reset_interval = bytes "SELECT EXTRACT(EPOCH FROM NOW() - stats_reset) from pg_stat_bgwriter;"

unfoldable pub bg_avg_interval : Text
bg_avg_interval = lines (
    "SELECT     CASE checkpoints_timed + checkpoints_req         WHEN 0 THEN 0"
    ∷ "         ELSE EXTRACT(EPOCH FROM (NOW() - stats_reset)) / (checkpoints_timed +"
    ∷ " checkpoints_req)     END FROM pg_stat_bgwriter;" ∷ [])

unfoldable pub bg_time_ratio : Text
bg_time_ratio = lines (
    "SELECT     (%s / 1000) / EXTRACT(EPOCH FROM NOW() - stats_reset) FROM" ∷ " pg_stat_bgwriter;"
    ∷ [])

module _ (env : Env) where
  unfoldable pub pg_stat_bgwriter : Request → Cmd Bool
  unfolding strncmp pg_get_result
  pg_stat_bgwriter request = do
    field ← key_field 3 request.key
    let query = formatted env bgwriter_stat (field ∷ [])
    if starts field (bytes "checkpoint_") 11
        then pg_get_result env request ar_double query none
        else if starts field (bytes "stats_reset") 11
        then pg_get_result env request ar_string query none
        else pg_get_result env request ar_uint64 query none

  unfoldable pub pg_bg_stats_reset_interval : Request → Cmd Bool
  unfolding pg_get_result
  pg_bg_stats_reset_interval request = pg_get_result env request ar_uint64 stats_reset_interval none

  unfoldable pub pg_bg_avg_interval : Request → Cmd Bool
  unfolding pg_get_result
  pg_bg_avg_interval request = pg_get_result env request ar_double bg_avg_interval none

  -- The column for an action, if it is a valid one.
  unfoldable pub bg_time_field : Option Text → Option Text
  unfolding strisnull strcmp
  bg_time_field none = some (bytes "(checkpoint_write_time + checkpoint_sync_time)")
  bg_time_field (some action) =
      if strisnull (some action) || same action (bytes "all")
      then some (bytes "(checkpoint_write_time + checkpoint_sync_time)")
      else if same action (bytes "write")
      then some (bytes "checkpoint_write_time")
      else if same action (bytes "sync")
      then some (bytes "checkpoint_sync_time")
      else none

  unfoldable pub pg_bg_time_ratio : Request → Cmd Bool
  unfolding bg_time_field set_err_result pg_get_result
  pg_bg_time_ratio request =
      let action = request.rparam param_first in
      elim (bg_time_field action) [
        | some field ↦
            pg_get_result env request ar_double (formatted env bg_time_ratio (field ∷ [])) none
        | none ↦ do
          set_err_result env true
              (printf (bytes "Invalid action parameter: %s") (text_of_result action ∷ []))
          pure false
      ]
