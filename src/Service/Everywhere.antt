-- ===== src/Service/Everywhere.antt =====
-- `pg_get_discovery_wide` on every branch: the list of the databases and the loop over it.
use libzbxpgsql.Base.{
  ◌≡◌, refl, ap, sym, ◌∙◌, subst, Bool, true, false, Bool-cases, Option-cases, inl, inr, ◌==◌,
  Option, none, some, List, [], ◌∷◌, ◌++◌, All, Text, bytes, length, get_elem?-middle, append-cons,
  length-append_one, if◌then◌else◌, arith,
}
use libzbxpgsql.Buffer.{Buffer}
use libzbxpgsql.Databases.{databases}
use libzbxpgsql.Databases.Laws.{IsName, encoded, multi_string-encoded}
use libzbxpgsql.Runtime.{
  Env, World, Request, PgResult, JsonCall, Report, Event, Cmd, pure, lift, ◌>>=◌, report, msg, str,
  connected,
}
use libzbxpgsql.Params.Laws.{IsFresh}
use libzbxpgsql.Params.Owned.{nothing-HasArray}
use libzbxpgsql.Connect.{plain_format}
use libzbxpgsql.Connect.Laws.{IsTextRequest, request_connstring}
use libzbxpgsql.Query.{pq_getvalue}
use libzbxpgsql.Discovery.{
  pq_ntuples, first_column, get_databases_query, databases_of, pg_get_databases, document,
  discover_each, pg_get_discovery_wide,
}
use libzbxpgsql.Discovery.Wide.{read-encoded, All-IsText}
use libzbxpgsql.Service.Effects.{
  Effect, Act, returns, says, and_then, answered_by, used, refusal, asks,
}
use libzbxpgsql.Service.Meets.{
  Meets, Meets-bind_of, mapped, Meets-mapped, Implements, Implements-returns, Implements-report,
  Implements-bind,
}
use libzbxpgsql.Service.Asks.{Uses, exchange-Meets}
use libzbxpgsql.Service.Wide.{each_act, discover_each-Implements}

-- The first value of each row, undefined where a row has none.
abbrev pub first_values : List (List Text) → Option (List Text)
first_values [] = some []
first_values ([] ∷ rows) = none
first_values ((value ∷ values) ∷ rows) = elim (first_values rows) [
  | none ↦ none
  | some vs ↦ some (value ∷ vs)
]

first_column-first_values :
    (r : PgResult) (left rows : List (List Text))
    → r.rows ≡ left ++ rows
    → first_column r (length left) rows ≡ first_values rows
unfolding first_column
first_column-first_values r left [] e = refl
first_column-first_values r left ([] ∷ rows) e =
    let missing : pq_getvalue r (length left) 0 ≡ none =
      rw (e, pq_getvalue, get_elem?-middle left rows []) refl in
    ground (arith, missing)
first_column-first_values r left ((value ∷ values) ∷ rows) e =
    let found : pq_getvalue r (length left) 0 ≡ some value =
      rw (e, pq_getvalue, get_elem?-middle left rows (value ∷ values)) refl in
    let rest =
      first_column-first_values r (left ++ (value ∷ values) ∷ []) rows
        (e ∙ append-cons left rows (value ∷ values)) in
    ground (arith, found, rest, length-append_one left (value ∷ values))

-- The names that a server lists for a connection are not empty, as PostgreSQL's are.
abbrev pub ListsNames : Env → Type 0
ListsNames env =
    (h : List Event) (c : Text) (names : List Text)
    → first_values (env.execute h c get_databases_query []).rows ≡ some names
    → All IsName names

module _ (env : Env) where
  abbrev no_databases : Report
  no_databases =
      msg
        (env.clip env.max_string_len (bytes "Failed to enumerate connectable PostgreSQL databases"))

  -- The names that a result lists.
  abbrev pub names_spec : PgResult → Option (Option (List Text) × List Report)
  names_spec r =
      if pq_ntuples r == 0
      then some (none, no_databases ∷ [])
      else elim (first_values r.rows) [ none ↦ none | some names ↦ some (some names, []) ]

  abbrev buffer_spec : PgResult → Option (Option Buffer × List Report)
  buffer_spec r =
      if pq_ntuples r == 0 then some (none, no_databases ∷ []) else elim (first_values r.rows) [
        | none ↦ none
        | some names ↦ some (some (encoded names ++ 0 ∷ []), [])
      ]

  databases_of-Uses : Uses (databases_of env) buffer_spec
  unfolding databases_of
  databases_of-Uses r w = elim (Option-cases (first_values r.rows)) [
    | inl e ↦ ground (arith, first_column-first_values r [] r.rows refl, e)
    | inr (names, e) ↦
        ground (arith, first_column-first_values r [] r.rows refl, e, multi_string-encoded names)
  ]

  abbrev read : Option Buffer → Option (Option (List Text))
  read none = some none
  read (some buffer) = elim (databases buffer) [ none ↦ none | some names ↦ some (some names) ]

  abbrev pub document_act : Option (List JsonCall) → Act Bool
  document_act none = returns false
  document_act (some calls) = says (str (document env calls) ∷ []) true true

  -- All databases, in the order of the list.
  abbrev pub databases_act : Request → Text → Option (List Text) → Act Bool
  databases_act request query none = returns false
  databases_act request query (some names) =
      λ h. and_then (each_act env request query [] names h) document_act h

  abbrev pub all_rows_act : Request → Text → Act Bool
  all_rows_act request query h =
      and_then (asks env request get_databases_query [] none names_spec h)
        (databases_act request query) h

  module _ (request : Request) (query : Text) (text_ok : IsTextRequest request)
      (named : ListsNames env) where
    used-mapped :
        (h : List Event) (c : Text) (r : PgResult)
        → r ≡ env.execute h c get_databases_query []
        → mapped read (used env c get_databases_query [] (buffer_spec r))
          ≡ used env c get_databases_query [] (names_spec r)
    used-mapped h c r e = elim (Bool-cases (pq_ntuples r == 0)) [
      | inl empty ↦ rw empty refl
      | inr some_rows ↦ elim (Option-cases (first_values r.rows)) [
        | inl missing ↦ rw (some_rows, missing) refl
        | inr (names, found) ↦
            let back =
              read-encoded names
                (named h c names (ap (λ x. first_values x.rows) (sym e) ∙ found)) in
            ground (arith, some_rows, found, back)
      ]
    ]

    refusal-mapped :
        (c : Text) (x : Option Text)
        → mapped read (refusal env c [] none x) ≡ refusal env c [] none x
    refusal-mapped c none = refl
    refusal-mapped c (some text) = refl

    asks-mapped :
        (h : List Event) (c : Text) (x : Option Text)
        → mapped read (answered_by env c get_databases_query [] [] none buffer_spec h x)
          ≡ answered_by env c get_databases_query [] [] none names_spec h x
    asks-mapped h c none = used-mapped (connected c ∷ h) c _ refl
    asks-mapped h c (some message) = refusal-mapped c (plain_format message)

    -- What is listed is listed by name.
    abbrev IsListed : Option (List Text) → Type 0
    IsListed none = Unit
    IsListed (some names) = All IsName names

    abbrev ListsOnly : Option (Effect (Option (List Text))) → Type 0
    ListsOnly none = Unit
    ListsOnly (some e) = IsListed e.value

    used-ListsOnly :
        (h : List Event) (c : Text) (r : PgResult)
        → r ≡ env.execute h c get_databases_query []
        → ListsOnly (used env c get_databases_query [] (names_spec r))
    used-ListsOnly h c r e = elim (Bool-cases (pq_ntuples r == 0)) [
      | inl empty ↦ rw empty tt
      | inr some_rows ↦ elim (Option-cases (first_values r.rows)) [
        | inl missing ↦ rw (some_rows, missing) tt
        | inr (names, found) ↦
            rw (some_rows, found) (named h c names (ap (λ x. first_values x.rows) (sym e) ∙ found))
      ]
    ]

    refusal-ListsOnly : (c : Text) (x : Option Text) → ListsOnly (refusal env c [] none x)
    refusal-ListsOnly c none = tt
    refusal-ListsOnly c (some text) = tt

    asks-ListsOnly :
        (h : List Event) (c : Text) (x : Option Text)
        → ListsOnly (answered_by env c get_databases_query [] [] none names_spec h x)
    asks-ListsOnly h c none = used-ListsOnly (connected c ∷ h) c _ refl
    asks-ListsOnly h c (some message) = refusal-ListsOnly c (plain_format message)

    abbrev each_name : Option (List Text) → Cmd Bool
    each_name none = pure false
    each_name (some names) = discover_each env request query none [] names >>= λ result.
        elim result [
          | none ↦ pure false
          | some calls ↦ report (str (document env calls)) >>= λ _. pure true
        ]

    each_name-Implements :
        (found : Option (List Text))
        → IsListed found
        → Implements (each_name found) (databases_act request query found)
    each_name-Implements none h = Implements-returns false
    each_name-Implements (some names) h =
        Implements-bind (discover_each env request query none [] names)
          (each_act env request query [] names) _ document_act
          (discover_each-Implements env request query text_ok names [] (All-IsText names h))
          (λ result. document-Implements result)
      where
        document-Implements :
            (result : Option (List JsonCall))
            → Implements
                (elim result [
                  | none ↦ pure false
                  | some calls ↦ report (str (document env calls)) >>= λ _. pure true
                ])
                (document_act result)
        document-Implements none = Implements-returns false
        document-Implements (some calls) = Implements-report (str (document env calls)) true

    names_read : Cmd (Option (List Text))
    names_read = pg_get_databases env request >>= λ found. lift (read found)

    names_read-Meets :
        (w : World)
        → IsFresh w
        → Meets w w
            (names_read w)
            (asks env request get_databases_query [] none names_spec w.history)
    unfolding pg_get_databases names_read
    names_read-Meets w f =
        subst (Meets w w (names_read w)) (asks-mapped w.history (request_connstring request) _) (
          Meets-mapped read w w (pg_get_databases env request) _ (
            exchange-Meets env request get_databases_query none (databases_of env) buffer_spec
              databases_of-Uses text_ok w w none [] (nothing-HasArray w f)))

    wide-names_read :
        (w : World) → pg_get_discovery_wide env request query none w ≡ (names_read >>= each_name) w
    unfolding pg_get_discovery_wide names_read
    wide-names_read w = elim (Option-cases (pg_get_databases env request w)) [
      | inl e ↦ ground (arith, e)
      | inr ((none, w₁), e) ↦ ground (arith, e)
      | inr ((some buffer, w₁), e) ↦ elim (Option-cases (databases buffer)) [
        | inl d ↦ ground (arith, e, d)
        | inr (names, d) ↦ ground (arith, e, d)
      ]
    ]

    -- For connection parameters that hold no terminator inside and a server that lists no database
    -- with an empty name, `pg_get_discovery_wide` without parameters implements, on every branch:
    -- the list of the databases, then one query for each of them up to the first that refuses the
    -- connection or whose query fails, which ends it with a message; and the document of all
    -- objects where none does. Where a query fails on a listed database, every block that was there
    -- before is still there and a new one is left in the memory; else the memory is as it was.
    pub pg_get_discovery_wide-Implements :
        Implements (pg_get_discovery_wide env request query none) (all_rows_act request query)
    pg_get_discovery_wide-Implements = record {
      at = λ w f.
          subst (λ r. Meets w w r (all_rows_act request query w.history)) (sym (wide-names_read w))
            (Meets-bind_of w w names_read _ each_name (databases_act request query) f
              (names_read-Meets w f)
              (λ e eq.
                each_name-Implements e.value
                  (subst ListsOnly eq (asks-ListsOnly w.history (request_connstring request) _))));
    }
