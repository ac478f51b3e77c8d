-- ===== src/Items.antt =====
-- The item handlers, one module for each file of src/. What they share is here: a handler is a
-- command on a request, and its flag is SYSINFO_RET_OK.
pub mod Laws
pub mod Server
pub mod Bgwriter
pub mod Namespace
pub mod Tablespace
pub mod Setting
pub mod Database
pub mod Table
pub mod Index
pub mod Backends
pub mod UserQuery
use libzbxpgsql.Base.{
  ℕ, leb, Bool, true, false, ◌||◌, Option, none, some, List, [], ◌∷◌, Text, bytes, printf, same,
  strcmp, length, strisnull, drop, if◌then◌else◌,
}
use libzbxpgsql.Runtime.{Env, Request, Cmd, pure, lift, ◌>>=◌, ◌>>◌}
use libzbxpgsql.Params.{param_new}
use libzbxpgsql.Connect.{param_first, set_err_result}
use libzbxpgsql.Query.{ResultType, ar_double, pg_get_result, pg_get_percentage}

-- `&request->key[n]`
unfoldable pub key_field : ℕ → Text → Cmd Text
key_field n key = lift (if leb n (length key) then some (drop n key) else none)

-- the text of a parameter that a message names, where it is not NULL
abbrev pub text_of_result : Option Text → Text
text_of_result none = []
text_of_result (some s) = s

module _ (env : Env) where
  -- A query that zbx_snprintf prints into an array of MAX_STRING_LEN bytes.
  unfoldable pub formatted : Text → List Text → Text
  unfolding printf
  formatted format args = env.clip env.max_string_len (printf format args)

  -- A query on the object that the first parameter names, which must be given.
  unfoldable pub required : Request → Text → ResultType → Text → Cmd Bool
  unfolding strisnull set_err_result pg_get_result
  required request message type query = do
    let name = request.rparam param_first
    if strisnull name
        then (do set_err_result env true message; pure false)
        else (do params ← param_new name; pg_get_result env request type query params)

  -- A query on the object that the first parameter names, or on all of them.
  unfoldable pub by_filter : Request → ResultType → Text → Text → Cmd Bool
  unfolding strisnull pg_get_result
  by_filter request type sum_query query = do
    let name = request.rparam param_first
    params ← param_new name
    pg_get_result env request type (if strisnull name then sum_query else query) params

  -- The quotient of two columns, summed over all objects or for the one that is named.
  unfoldable pub ratio_item : Request → (table sum1 sum2 col1 col2 col_filter : Text) → Cmd Bool
  unfolding strisnull pg_get_percentage
  ratio_item request table sum1 sum2 col1 col2 col_filter = do
    let name = request.rparam param_first
    if strisnull name
        then pg_get_percentage env request table sum1 sum2 none none
        else pg_get_percentage env request table col1 col2 (some col_filter) name

  -- The mode of a discovery: deep on all databases, shallow on one.
  unfoldable pub discover_mode : Option Text → Cmd Bool → Cmd Bool → Cmd Bool
  unfolding strisnull strcmp set_err_result
  discover_mode none deep shallow = deep
  discover_mode (some mode) deep shallow =
      if strisnull (some mode) || same mode (bytes "deep")
      then deep
      else if same mode (bytes "shallow")
      then shallow
      else (do
        set_err_result env true (printf (bytes "Invalid search mode parameter: %s") (mode ∷ []))
        pure false)
