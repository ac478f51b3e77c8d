-- ===== src/Discovery/Wide.antt =====
-- `pg_get_databases` and `pg_get_discovery_wide`: the list of the databases, and the loop over it.
use libzbxpgsql.Base.{
  ◌≡◌, subst, ◌≢◌, refl, ap, sym, ◌∙◌, true, none, some, List, [], ◌∷◌, ◌++◌, append_assoc,
  append-nil, All, Text, IsText, length, get_elem?-middle, append-cons, length-append_one, arith,
}
use libzbxpgsql.Databases.{databases}
use libzbxpgsql.Databases.Laws.{IsName, encoded, multi_string-encoded, databases-multi_string}
use libzbxpgsql.Runtime.{Env, World, Request, PgResult, Event, JsonCall, str, connected, executed}
use libzbxpgsql.Params.Laws.{IsFresh, Frees, Frees-IsFresh}
use libzbxpgsql.Connect.Laws.{request_connstring, IsTextRequest}
use libzbxpgsql.Query.{pq_getvalue}
use libzbxpgsql.Query.Exchange.{answered, Asks, closed, closed-Frees, exchange-Asks}
use libzbxpgsql.Discovery.{
  pq_ntuples, first_column, get_databases_query, databases_of, pg_get_databases, document,
  discover_each, pg_get_discovery_wide,
}
use libzbxpgsql.Discovery.Rounds.{db_connstring, db_result, db_history, discover_each_rows}
use libzbxpgsql.Discovery.Laws.{IsTable, objects, add_rows-objects}

-- Every database accepts its connection and answers the query with a table.
abbrev pub AllAnswer : Env → Request → Text → List Event → List Text → Type 0
AllAnswer env request query h [] = Unit
AllAnswer env request query h (db ∷ dbs) =
    (env.connect h (db_connstring request db) ≡ none)
    × ((db_result env request query h db).tuples_ok ≡ true)
    × IsTable (db_result env request query h db).fields (db_result env request query h db).rows
    × AllAnswer env request query (db_history request query h db) dbs

-- The objects of all answers, in the order of the databases.
abbrev pub all_objects : Env → Request → Text → List Event → List Text → List JsonCall
all_objects env request query h [] = []
all_objects env request query h (db ∷ dbs) =
    objects env (db_result env request query h db).fields (db_result env request query h db).rows
    ++ all_objects env request query (db_history request query h db) dbs

-- What is asked: a connection to each database, and the query on it.
abbrev pub all_asked : Request → Text → List Event → List Text → List Event
all_asked request query h [] = h
all_asked request query h (db ∷ dbs) = all_asked request query (db_history request query h db) dbs

Frees_trans : (w₁ w₂ w₃ : World) → Frees none w₁ w₂ → Frees none w₂ w₃ → Frees none w₁ w₃
Frees_trans w₁ w₂ w₃ a b = record {
  heap = λ p. b.heap p ∙ a.heap p;
  grows = omega (arith, a.grows, b.grows);
}

module _ (env : Env) (request : Request) (query : Text) (text_ok : IsTextRequest request) where
  discover_each-all_objects :
      (dbs : List Text) (w : World) (calls : List JsonCall)
      → IsFresh w
      → All IsText dbs
      → AllAnswer env request query w.history dbs
      → (w' : World) × (discover_each env request query none calls dbs w
          ≡ some (some (calls ++ all_objects env request query w.history dbs), w'))
        × Frees none w w'
        × (w'.reports ≡ w.reports)
        × (w'.history ≡ all_asked request query w.history dbs)
  unfolding discover_each
  discover_each-all_objects [] w calls f t a =
      (w, rw append-nil refl, record { heap = λ p. refl; grows = omega arith }, refl, refl)
  discover_each-all_objects (db ∷ dbs) w calls f t a =
      let c = db_connstring request db in
      let r = db_result env request query w.history db in
      let w₁ = closed w c query none [] r [] in
      let frees = closed-Frees w c query none [] r [] f in
      let (w', runs, freed, reports, history) =
        discover_each-all_objects dbs w₁ (calls ++ objects env r.fields r.rows)
          (Frees-IsFresh none w w₁ frees f) t.1 a.3 in
      (
        w',
        discover_each_rows env request query text_ok w calls db dbs f t.0 a.0 a.1 _
              (add_rows-objects env r [] r.rows refl a.2)
            ∙ runs
            ∙ ap (λ x. some (some x, w')) (append_assoc calls _ _),
        Frees_trans w w₁ w' frees freed,
        reports,
        history,
      )

abbrev pub one_column : List Text → List (List Text)
one_column [] = []
one_column (name ∷ names) = (name ∷ []) ∷ one_column names

first_column-one_column :
    (r : PgResult) (left : List (List Text)) (names : List Text)
    → r.rows ≡ left ++ one_column names
    → first_column r (length left) (one_column names) ≡ some names
unfolding first_column
first_column-one_column r left [] e = refl
first_column-one_column r left (name ∷ names) e =
    let found : pq_getvalue r (length left) 0 ≡ some name =
      rw (e, pq_getvalue, get_elem?-middle left (one_column names) (name ∷ [])) refl in
    let rest =
      first_column-one_column r (left ++ (name ∷ []) ∷ []) names
        (e ∙ append-cons left (one_column names) (name ∷ [])) in
    ground (arith, found, rest, length-append_one left (name ∷ []))

-- The result of the query for the databases, in which each row holds one name.
abbrev pub IsList : PgResult → List Text → Type 0
IsList r names =
    (r.tuples_ok ≡ true) × (r.rows ≡ one_column names) × (names ≢ []) × All IsName names

databases_of-encoded :
    (env : Env) (r : PgResult) (w : World) (names : List Text)
    → IsList r names
    → databases_of env r w ≡ some (some (encoded names ++ 0 ∷ []), w)
unfolding databases_of pq_ntuples
databases_of-encoded env r w [] l = absurd (l.2 refl)
databases_of-encoded env r w (name ∷ names) l =
    let found : first_column r 0 (one_column (name ∷ names)) ≡ some (name ∷ names) =
      first_column-one_column r [] (name ∷ names) l.1 in
    let first : first_column r 0 r.rows ≡ some (name ∷ names) =
      subst (λ x. first_column r 0 x ≡ some (name ∷ names)) (sym l.1) found in
    ground (arith, l.0, ap length l.1, first, multi_string-encoded (name ∷ names))

pub read-encoded :
    (names : List Text) → All IsName names → databases (encoded names ++ 0 ∷ []) ≡ some names
read-encoded names h = ground (arith, multi_string-encoded names, databases-multi_string names h)

pub All-IsText : (names : List Text) → All IsName names → All IsText names
All-IsText [] h = tt
All-IsText (name ∷ names) h = (h.0.0, All-IsText names h.1)

-- The history behind the query for the databases.
abbrev pub listed : Request → List Event → List Event
listed request h =
    executed (request_connstring request) get_databases_query []
    ∷ connected (request_connstring request)
    ∷ h

module _ (env : Env) (request : Request) (query : Text) (w : World) (names : List Text)
    (text_ok : IsTextRequest request) (f : IsFresh w) where
  pg_get_databases-encoded :
      env.connect w.history (request_connstring request) ≡ none
      → IsList (answered env w request get_databases_query []) names
      → (w' : World) × (pg_get_databases env request w ≡ some (some (encoded names ++ 0 ∷ []), w'))
        × Asks request get_databases_query none [] [] w w'
  unfolding pg_get_databases
  pg_get_databases-encoded accepted l =
      exchange-Asks env w request get_databases_query none [] none (databases_of env) text_ok f refl
        _ [] accepted
        (databases_of-encoded env (answered env w request get_databases_query []) _ names l)

  wide_steps :
      (w₁ w₂ : World) (calls : List JsonCall)
      → pg_get_databases env request w ≡ some (some (encoded names ++ 0 ∷ []), w₁)
      → All IsName names
      → discover_each env request query none [] names w₁ ≡ some (some calls, w₂)
      → pg_get_discovery_wide env request query none w
        ≡ some (true, record w₂ { reports = str (document env calls) ∷ w₂.reports })
  unfolding pg_get_discovery_wide
  wide_steps w₁ w₂ calls lists h runs = ground (arith, lists, read-encoded names h, runs)

  -- Where the server lists the databases `names`, and each of them accepts its connection and
  -- answers the query with a table, `pg_get_discovery_wide` without parameters succeeds: it asks
  -- the databases one after the other, in the order of the list, sets the document with all their
  -- objects in that order, and leaves no block allocated.
  pub pg_get_discovery_wide-all_objects :
      env.connect w.history (request_connstring request) ≡ none
      → IsList (answered env w request get_databases_query []) names
      → AllAnswer env request query (listed request w.history) names
      → (w' : World) × (pg_get_discovery_wide env request query none w ≡ some (true, w'))
        × Frees none w w'
        × (w'.reports
            ≡ str (document env (all_objects env request query (listed request w.history) names))
              ∷ w.reports)
        × (w'.history ≡ all_asked request query (listed request w.history) names)
  pg_get_discovery_wide-all_objects accepted l answers =
      let (w₁, lists, asks) = pg_get_databases-encoded accepted l in
      let answers' : AllAnswer env request query w₁.history names =
        subst (λ h. AllAnswer env request query h names) (sym asks.history) answers in
      let (w₂, runs, freed, reports, history) =
        discover_each-all_objects env request query text_ok names w₁ []
          (Frees-IsFresh none w w₁ asks.memory f) (All-IsText names l.3) answers' in
      let memory = Frees_trans w w₁ w₂ asks.memory freed in
      let as_listed = ap (λ h. all_objects env request query h names) asks.history in
      let calls = all_objects env request query (listed request w.history) names in
      (
        record w₂ { reports = str (document env calls) ∷ w₂.reports },
        wide_steps w₁ w₂ calls lists l.3 (runs ∙ ap (λ x. some (some x, w₂)) as_listed),
        record { heap = memory.heap; grows = memory.grows },
        ap (◌∷◌ (str (document env calls))) (reports ∙ asks.reports),
        history ∙ ap (λ h. all_asked request query h names) asks.history,
      )
