-- ===== src/Discovery/Laws.antt =====
-- `pg_get_discovery`: the JSON objects of a result, and the request around it.
use libzbxpgsql.Base.{
  ℕ, ◌≡◌, refl, ap, ◌∙◌, Bool, true, false, Bool-cases, inl, inr, none, some, List, [], ◌∷◌, ◌++◌,
  Text, bytes, printf, length, get_elem?, get_elem?-middle, append-cons, length-append_one,
  if◌then◌else◌, arith,
}
use libzbxpgsql.Runtime.{
  Env, World, Request, PgResult, JsonCall, addobject, addstring, close, Report, msg, str,
}
use libzbxpgsql.Params.{PgParams}
use libzbxpgsql.Params.Laws.{IsParams, IsFresh}
use libzbxpgsql.Connect.Laws.{request_connstring, IsTextRequest}
use libzbxpgsql.Query.{pq_getvalue}
use libzbxpgsql.Query.Laws.{with_reports}
use libzbxpgsql.Query.Exchange.{answered, Asks, exchange-Asks}
use libzbxpgsql.Discovery.{
  add_fields, add_rows, discovery_key, document, discovery_of, pg_get_discovery,
}

-- A result as libpq gives it: each row has a value for each column.
abbrev pub IsTable : List Text → List (List Text) → Type 0
IsTable fields [] = Unit
IsTable fields (row ∷ rows) = (length row ≡ length fields) × IsTable fields rows

module _ (env : Env) where
  -- The members of an object: the keys are the columns' names, in order.
  abbrev pub members : List Text → List Text → List JsonCall
  members [] values = []
  members (name ∷ names) [] = []
  members (name ∷ names) (value ∷ values) =
      addstring (discovery_key env name) value ∷ members names values

  -- An object for each row, in order.
  abbrev pub objects : List Text → List (List Text) → List JsonCall
  objects fields [] = []
  objects fields (row ∷ rows) = addobject ∷ members fields row ++ close ∷ objects fields rows

  add_fields-members :
      (r : PgResult) (i : ℕ) (left names values : List Text)
      → get_elem? r.rows i ≡ some (left ++ values)
      → length values ≡ length names
      → add_fields env r i (length left) names ≡ some (members names values)
  unfolding add_fields pq_getvalue
  add_fields-members r i left [] values row e = refl
  add_fields-members r i left (name ∷ names) [] row e = absurd (omega arith)
  add_fields-members r i left (name ∷ names) (value ∷ values) row e =
      let found : pq_getvalue r i (length left) ≡ some value =
        rw (row, pq_getvalue) (get_elem?-middle left values value) in
      let rest =
        add_fields-members r i (left ++ value ∷ []) names values
          (row ∙ ap some (append-cons left values value)) (omega arith) in
      ground (arith, found, rest, length-append_one left value)

  pub add_rows-objects :
      (r : PgResult) (left rows : List (List Text))
      → r.rows ≡ left ++ rows
      → IsTable r.fields rows
      → add_rows env r (length left) rows ≡ some (objects r.fields rows)
  unfolding add_rows
  add_rows-objects r left [] e h = refl
  add_rows-objects r left (row ∷ rows) e h =
      let fields =
        add_fields-members r (length left) [] r.fields row (rw e (get_elem?-middle left rows row))
          h.0 in
      let rest = add_rows-objects r (left ++ row ∷ []) rows (e ∙ append-cons left rows row) h.1 in
      ground (arith, fields, rest, length-append_one left row)

  -- What a discovery returns and sets for a result.
  abbrev pub discovery_spec : PgResult → Bool × List Report
  discovery_spec r =
      if r.tuples_ok then (true, str (document env (objects r.fields r.rows)) ∷ []) else (
        false,
        msg (
              env.clip env.max_string_len
                (printf (bytes "PostgreSQL query error: %s") (r.error_message ∷ [])))
            ∷ [],
      )

  discovery_of-discovery_spec :
      (r : PgResult) (w : World)
      → IsTable r.fields r.rows
      → discovery_of env r w ≡ some ((discovery_spec r).0, with_reports (discovery_spec r).1 w)
  unfolding discovery_of
  discovery_of-discovery_spec r w h = elim (Bool-cases r.tuples_ok) [
    | inl ok ↦ let rows = add_rows-objects r [] r.rows refl h in ground (arith, rows)
    | inr bad ↦ ground arith
  ]

module _ (env : Env) (w : World) (request : Request) (query : Text) (ps : PgParams) (ss : List Text)
    (text_ok : IsTextRequest request) (f : IsFresh w) (h : IsParams w ps ss) where
  -- On a connection that the server accepts, and for a result with a value in each cell,
  -- `pg_get_discovery` asks its query once, gives every block back, and sets the document with one
  -- object for each row, its members keyed by the columns in order, or the message of the failure.
  pub pg_get_discovery-discovery_spec :
      env.connect w.history (request_connstring request) ≡ none
      → IsTable (answered env w request query ss).fields (answered env w request query ss).rows
      → (w' : World) × (pg_get_discovery env request query ps w
          ≡ some ((discovery_spec env (answered env w request query ss)).0, w'))
        × Asks request query ps ss (discovery_spec env (answered env w request query ss)).1 w w'
  unfolding pg_get_discovery
  pg_get_discovery-discovery_spec accepted table =
      exchange-Asks env w request query ps ss false (discovery_of env) text_ok f h _ _ accepted
        (discovery_of-discovery_spec env (answered env w request query ss) _ table)
