-- ===== src/Discovery.antt =====
-- src/pg_discovery.c: low-level discovery on one database and on all of them.
--
-- The multi-string of names and the JSON document are values here, not blocks of the memory.
pub mod Laws
pub mod Rounds
pub mod Wide
use libzbxpgsql.Base.{
  ℕ, zero, suc, ◌+◌, ◌-◌, leb, ◌==◌, Bool, true, false, ◌&&◌, Option, none, some, List, [], ◌∷◌,
  ◌++◌, map, Text, bytes, lines, printf, length, if◌then◌else◌,
}
use libzbxpgsql.Buffer.{Buffer}
use libzbxpgsql.Connstring.{build_connstring}
use libzbxpgsql.Databases.{multi_string, databases}
use libzbxpgsql.Runtime.{
  Env, Request, PgResult, JsonCall, addarray, addobject, addstring, close, Cmd, pure, lift, ◌>>=◌,
  ◌>>◌, load, report, str, as_result,
}
use libzbxpgsql.Params.{PgParams}
use libzbxpgsql.Connect.{
  param_conn_string, pq_finish, pq_clear, set_err_result, pg_connect, pg_connect_request,
}
use libzbxpgsql.Query.{pq_getvalue, pg_exec}

-- PQntuples: a result that is not PGRES_TUPLES_OK has no rows
unfoldable pub pq_ntuples : PgResult → ℕ
pq_ntuples res = if res.tuples_ok then length res.rows else 0

-- PQgetvalue(res, i, 0) for each row, from row `i` on
unfoldable pub first_column : PgResult → ℕ → List (List Text) → Option (List Text)
unfolding pq_getvalue
first_column res i [] = some []
first_column res i (row ∷ rows) = elim (pq_getvalue res i 0) [
  | none ↦ none
  | some v ↦ elim (first_column res (suc i) rows) [ none ↦ none | some vs ↦ some (v ∷ vs) ]
]

-- `toupper` in the C locale
unfoldable pub toupper : ℕ → ℕ
toupper c = if leb b'a' c && leb c b'z' then c - 32 else c

unfoldable pub get_databases_query : Text
get_databases_query = lines (
    "SELECT datname FROM pg_database WHERE datallowconn = 't' AND "
    ∷ "pg_catalog.has_database_privilege(current_user, oid, 'CONNECT');" ∷ [])

module _ (env : Env) where
  -- the part of `pg_get_databases` between `pg_exec` and the label `out`
  unfoldable pub databases_of : PgResult → Cmd (Option Buffer)
  unfolding set_err_result
  databases_of res =
      if pq_ntuples res == 0
      then (do
        set_err_result env true (bytes "Failed to enumerate connectable PostgreSQL databases")
        pure none)
      else (do
        names ← lift (first_column res 0 res.rows)
        buffer ← lift (multi_string names)
        pure (some buffer))

  unfoldable pub pg_get_databases : Request → Cmd (Option Buffer)
  unfolding load databases_of
  pg_get_databases request = do
    connected ← pg_connect_request env request true
    elim connected [
      | none ↦ do pq_clear none; pq_finish none; pure none
      | some conn ↦ do
        res ← pg_exec env conn get_databases_query none
        o ← load res
        r ← lift (as_result o)
        found ← databases_of r
        pq_clear (some res)
        pq_finish (some conn)
        pure found
    ]

  -- `{#%s}` in upper case
  unfoldable pub discovery_key : Text → Text
  unfolding toupper
  discovery_key name =
      map toupper (env.clip env.max_string_len (printf (bytes "{#%s}") (name ∷ [])))

  -- the fields of row `i`, from column `x` on
  unfoldable pub add_fields : PgResult → ℕ → ℕ → List Text → Option (List JsonCall)
  unfolding pq_getvalue
  add_fields res i x [] = some []
  add_fields res i x (name ∷ names) = elim (pq_getvalue res i x) [
    | none ↦ none
    | some value ↦ elim (add_fields res i (suc x) names) [
      | none ↦ none
      | some calls ↦ some (addstring (discovery_key name) value ∷ calls)
    ]
  ]

  -- an object for each row, from row `i` on
  unfoldable pub add_rows : PgResult → ℕ → List (List Text) → Option (List JsonCall)
  unfolding add_fields
  add_rows res i [] = some []
  add_rows res i (row ∷ rows) = elim (add_fields res i 0 res.fields) [
    | none ↦ none
    | some fields ↦ elim (add_rows res (suc i) rows) [
      | none ↦ none
      | some calls ↦ some (addobject ∷ fields ++ close ∷ calls)
    ]
  ]

  abbrev pub document : List JsonCall → Text
  document calls = env.json (addarray (bytes "data") ∷ calls ++ close ∷ [])

  -- the part of `pg_get_discovery` between `pg_exec` and the label `out`
  unfoldable pub discovery_of : PgResult → Cmd Bool
  unfolding set_err_result report
  discovery_of res =
      if res.tuples_ok
      then (do calls ← lift (add_rows res 0 res.rows); report (str (document calls)); pure true)
      else (do
        set_err_result env true
            (printf (bytes "PostgreSQL query error: %s") (res.error_message ∷ []))
        pure false)

  unfoldable pub pg_get_discovery : Request → Text → PgParams → Cmd Bool
  unfolding load discovery_of
  pg_get_discovery request query params = do
    connected ← pg_connect_request env request true
    elim connected [
      | none ↦ do pq_clear none; pq_finish none; pure false
      | some conn ↦ do
        res ← pg_exec env conn query params
        o ← load res
        r ← lift (as_result o)
        ok ← discovery_of r
        pq_clear (some res)
        pq_finish (some conn)
        pure ok
    ]

  -- The loop over the databases, behind the calls so far; `none` leaves it for the label `out`.
  unfoldable pub discover_each :
      Request → Text → PgParams → List JsonCall → List Text → Cmd (Option (List JsonCall))
  unfolding load set_err_result
  discover_each request query params calls [] = pure (some calls)
  discover_each request query params calls (db ∷ dbs) = do
    connstring ← lift (build_connstring (request.rparam param_conn_string) (some db))
    connected ← pg_connect env connstring true
    elim connected [
      | none ↦ pure none
      | some conn ↦ do
        res ← pg_exec env conn query params
        o ← load res
        r ← lift (as_result o)
        if r.tuples_ok
            then (do
              found ← lift (add_rows r 0 r.rows)
              pq_clear (some res)
              pq_finish (some conn)
              discover_each request query params (calls ++ found) dbs)
            else (do
              set_err_result env true
                  (printf (bytes "PostgreSQL query error: %s") (r.error_message ∷ []))
              pq_finish (some conn)
              pure none)
    ]

  unfoldable pub pg_get_discovery_wide : Request → Text → PgParams → Cmd Bool
  unfolding report pg_get_databases discover_each
  pg_get_discovery_wide request query params = do
    found ← pg_get_databases request
    elim found [
      | none ↦ pure false
      | some buffer ↦ do
        dbs ← lift (databases buffer)
        result ← discover_each request query params [] dbs
        elim result [ none ↦ pure false | some calls ↦ do report (str (document calls)); pure true ]
    ]
