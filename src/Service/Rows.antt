-- ===== src/Service/Rows.antt =====
-- A discovery on one database, and the list of the databases, for any result.
use libzbxpgsql.Base.{
  ℕ, ◌≡◌, refl, ap, ◌∙◌, Bool, true, false, Bool-cases, inl, inr, Option, none, some, List, [], ◌∷◌,
  ◌++◌, Text, bytes, printf, length, get_elem?, get_elem?-middle, get_elem?-past, append-cons,
  length-append_one, if◌then◌else◌, arith,
}
use libzbxpgsql.Runtime.{
  Env, World, Request, PgResult, JsonCall, addobject, addstring, close, Report, msg, str,
}
use libzbxpgsql.Params.{PgParams}
use libzbxpgsql.Params.Owned.{HasArray}
use libzbxpgsql.Connect.Laws.{IsTextRequest}
use libzbxpgsql.Query.{pq_getvalue}
use libzbxpgsql.Discovery.{
  add_fields, add_rows, discovery_key, document, discovery_of, pg_get_discovery,
}
use libzbxpgsql.Service.Effects.{Act, asks}
use libzbxpgsql.Service.Meets.{Meets}
use libzbxpgsql.Service.Asks.{Uses, exchange-Meets}

module _ (env : Env) where
  -- The members of an object, undefined where a value is missing.
  abbrev pub members? : List Text → List Text → Option (List JsonCall)
  members? [] values = some []
  members? (name ∷ names) [] = none
  members? (name ∷ names) (value ∷ values) = elim (members? names values) [
    | none ↦ none
    | some calls ↦ some (addstring (discovery_key env name) value ∷ calls)
  ]

  -- An object for each row, in order.
  abbrev pub objects? : List Text → List (List Text) → Option (List JsonCall)
  objects? fields [] = some []
  objects? fields (row ∷ rows) = elim (members? fields row) [
    | none ↦ none
    | some calls ↦ elim (objects? fields rows) [
      | none ↦ none
      | some rest ↦ some (addobject ∷ calls ++ close ∷ rest)
    ]
  ]

  add_fields-members? :
      (r : PgResult) (i : ℕ) (left names values : List Text)
      → get_elem? r.rows i ≡ some (left ++ values)
      → add_fields env r i (length left) names ≡ members? names values
  unfolding add_fields
  add_fields-members? r i left [] values row = refl
  add_fields-members? r i left (name ∷ names) [] row =
      let missing : pq_getvalue r i (length left) ≡ none =
        rw (row, pq_getvalue) (get_elem?-past left) in
      ground (arith, missing)
  add_fields-members? r i left (name ∷ names) (value ∷ values) row =
      let found : pq_getvalue r i (length left) ≡ some value =
        rw (row, pq_getvalue) (get_elem?-middle left values value) in
      let rest =
        add_fields-members? r i (left ++ value ∷ []) names values
          (row ∙ ap some (append-cons left values value)) in
      ground (arith, found, rest, length-append_one left value)

  pub add_rows-objects? :
      (r : PgResult) (left rows : List (List Text))
      → r.rows ≡ left ++ rows
      → add_rows env r (length left) rows ≡ objects? r.fields rows
  unfolding add_rows
  add_rows-objects? r left [] e = refl
  add_rows-objects? r left (row ∷ rows) e =
      let fields =
        add_fields-members? r (length left) [] r.fields row
          (ap (λ x. get_elem? x (length left)) e ∙ get_elem?-middle left rows row) in
      let rest = add_rows-objects? r (left ++ row ∷ []) rows (e ∙ append-cons left rows row) in
      ground (arith, fields, rest, length-append_one left row)

  abbrev pub query_error : PgResult → Report
  query_error r = msg (
      env.clip env.max_string_len
        (printf (bytes "PostgreSQL query error: %s") (r.error_message ∷ [])))

  abbrev pub rows_spec : PgResult → Option (Bool × List Report)
  rows_spec r =
      if r.tuples_ok
      then elim (objects? r.fields r.rows) [
        | none ↦ none
        | some calls ↦ some (true, str (document env calls) ∷ [])
      ]
      else some (false, query_error r ∷ [])

  abbrev pub rows_act : Request → Text → List Text → Act Bool
  rows_act request query ss = asks env request query ss false rows_spec

  discovery_of-Uses : Uses (discovery_of env) rows_spec
  unfolding discovery_of
  discovery_of-Uses r w = elim (Bool-cases r.tuples_ok) [
    | inl ok ↦ let rows = add_rows-objects? r [] r.rows refl in ground (arith, rows)
    | inr bad ↦ ground arith
  ]

  pub pg_get_discovery-Meets :
      (request : Request) (query : Text)
      → IsTextRequest request
      → (w₀ w : World) (ps : PgParams) (ss : List Text) → HasArray w₀ w ps ss
      → Meets w₀ w (pg_get_discovery env request query ps w) (rows_act request query ss w.history)
  unfolding pg_get_discovery
  pg_get_discovery-Meets request query text_ok w₀ w ps ss o =
      exchange-Meets env request query false (discovery_of env) rows_spec discovery_of-Uses text_ok
        w₀ w ps ss o
