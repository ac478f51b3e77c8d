-- ===== src/Service/Plans.antt =====
-- What a request comes to, by what it asks: the plans, and their effects on a server.
use libzbxpgsql.Base.{
  Bool, true, false, ◌==◌, Option, none, some, List, [], ◌∷◌, Text, bytes, printf, starts,
  if◌then◌else◌,
}
use libzbxpgsql.Runtime.{Env, Request, PgResult, Report, msg, str, ui64, dbl, connected}
use libzbxpgsql.Params.Owned.{is_empty}
use libzbxpgsql.Connect.{plain_format}
use libzbxpgsql.Connect.Laws.{request_connstring}
use libzbxpgsql.Numbers.{strtoull, atoi, to_u64}
use libzbxpgsql.Query.{ResultType, pq_getvalue}
use libzbxpgsql.Discovery.{pq_ntuples}
use libzbxpgsql.Service.Effects.{Act, says, and_then, asks_with}
use libzbxpgsql.Service.Values.{value_act, old_act}
use libzbxpgsql.Service.Rows.{query_error, rows_act}
use libzbxpgsql.Service.Everywhere.{all_rows_act}

-- The lists of texts are the parameters of a query, or those that are left behind.
pub data Plan : Type 0 where
  -- a call that C leaves undefined
  undefined : Plan
  -- no query: a value, or a message for a failure
  answer : Report → Plan
  refuse : List Text → Text → Plan
  -- a connection and nothing else
  probe : Plan
  -- one query for a value of a type, for a document of its rows, or for that of all databases
  value : ResultType → Text → List Text → Plan
  rows : Text → List Text → Plan
  all_rows : Text → Plan
  -- one query for a setting in its own type, or for a counter of the indexes
  setting : Text → List Text → Plan
  index_stat : Text → List Text → Plan
  -- the version of the server first: a plan for an older one than 9.2, and one for the others
  by_version : List Text → Plan → Plan → Plan

module _ (env : Env) where
  abbrev setting_report : Text → Text → Report
  setting_report v type =
      if starts (bytes "integer") type 7
      then ui64 (strtoull v)
      else if starts (bytes "real") type 4
      then dbl v
      else str v

  abbrev pub setting_spec : PgResult → Option (Bool × List Report)
  setting_spec r =
      if r.tuples_ok
      then if pq_ntuples r == 0 then some (false, []) else elim (pq_getvalue r 0 0) [
        | none ↦ none
        | some v ↦ elim (pq_getvalue r 0 1) [
          | none ↦ none
          | some type ↦ some (true, setting_report v type ∷ [])
        ]
      ]
      else some (false, query_error env r ∷ [])

  abbrev no_rows : Text → Report
  no_rows query = msg (
      env.clip env.max_string_len (printf (bytes "No results returned for query: %s") (query ∷ [])))

  abbrev pub index_spec : Text → PgResult → Option (Bool × List Report)
  index_spec query r =
      if r.tuples_ok
      then if pq_ntuples r == 0
        then some (false, no_rows query ∷ [])
        else elim (pq_getvalue r 0 0) [
          | none ↦ none
          | some v ↦ elim (atoi v) [ none ↦ none | some n ↦ some (true, ui64 (to_u64 n) ∷ []) ]
        ]
      else some (false, query_error env r ∷ [])

  -- A connection is reported as 1, and a refusal as 0, with no message.
  abbrev pub probe_act : Request → Act Bool
  probe_act request h = elim (env.connect h (request_connstring request)) [
    | none ↦ some (record {
      value = true;
      said = ui64 1 ∷ [];
      asked = connected (request_connstring request) ∷ [];
      clean = true;
    })
    | some message ↦ elim (plain_format message) [
      | none ↦ none
      | some text ↦ some (record {
        value = true;
        said = ui64 0 ∷ [];
        asked = connected (request_connstring request) ∷ [];
        clean = true;
      })
    ]
  ]

  abbrev pub by_age : List Text → Act Bool → Act Bool → Option Bool → Act Bool
  by_age leaked older newer none = says [] (is_empty leaked) false
  by_age leaked older newer (some true) = older
  by_age leaked older newer (some false) = newer

  abbrev pub late_act :
      Request → Text → List Text → (PgResult → Option (Bool × List Report)) → Act Bool
  late_act request query ss spec = asks_with env request query [] ss false spec

  -- The effect of a plan.
  unfoldable pub serve : Request → Plan → Act Bool
  serve request undefined h = none
  serve request (answer r) h = says (r ∷ []) true true h
  serve request (refuse leaked text) h =
      says (msg (env.clip env.max_string_len text) ∷ []) (is_empty leaked) false h
  serve request probe h = probe_act request h
  serve request (value type query ss) h = value_act env request type query ss h
  serve request (rows query ss) h = rows_act env request query ss h
  serve request (all_rows query) h = all_rows_act env request query h
  serve request (setting query ss) h = late_act request query ss setting_spec h
  serve request (index_stat query ss) h = late_act request query ss (index_spec query) h
  serve request (by_version leaked older newer) h =
      and_then (old_act env request h) (by_age leaked (serve request older) (serve request newer)) h
