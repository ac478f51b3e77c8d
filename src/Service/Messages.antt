-- ===== src/Service/Messages.antt =====
-- A failing call sets a message: what is said last on every failing branch.
pub mod Uses
use libzbxpgsql.Base.{
  ◌≡◌, refl, sym, subst, ◌⊎◌, Bool, true, false, Bool-cases, Option-cases, inl, inr, ◌==◌, Option,
  none, some, List, [], ◌∷◌, ◌++◌, Text, arith,
}
use libzbxpgsql.Runtime.{
  Env, World, Request, PgResult, Report, ui64, dbl, str, msg, Event, JsonCall, connected, executed,
}
use libzbxpgsql.Params.Laws.{IsFresh}
use libzbxpgsql.Connect.{plain_format}
use libzbxpgsql.Connect.Laws.{IsTextRequest, request_connstring}
use libzbxpgsql.Numbers.{atoi}
use libzbxpgsql.Queries.{Queries}
use libzbxpgsql.Query.{ResultType, pq_getvalue}
use libzbxpgsql.Query.Laws.{scalar_spec}
use libzbxpgsql.Discovery.{pq_ntuples, get_databases_query}
use libzbxpgsql.Discovery.Rounds.{db_connstring, db_history}
use libzbxpgsql.Items.Backends.Laws.{Fits}
use libzbxpgsql.Metrics.{Function, call}
use libzbxpgsql.Service.Effects.{Effect, Act, joined, and_then, refusal, used, answered_by}
use libzbxpgsql.Service.Meets.{Meets}
use libzbxpgsql.Service.Values.{set_act}
use libzbxpgsql.Service.Rows.{objects?, rows_spec}
use libzbxpgsql.Service.Wide.{round_rows, round_of, round, each_act}
use libzbxpgsql.Service.Everywhere.{
  ListsNames, first_values, names_spec, document_act, databases_act,
}
use libzbxpgsql.Service.Plans.{
  Plan, undefined, answer, refuse, probe, value, rows, all_rows, setting, index_stat, by_version,
  probe_act, index_spec, serve,
}
use libzbxpgsql.Service.Requests.{plan}
use libzbxpgsql.Service.Calls.{call-plan}
use libzbxpgsql.Service.Messages.Uses.{
  Told, Told-append, Each, Explained, ExplainedSpec, Passes, is_found, itself, joined-Explained,
  and_then-Explained, refusal-Explained, used-Explained, answered_by-Explained,
  scalar_spec-Explained, rows_spec-Explained, names_spec-Explained, index_spec-Explained,
  set_act-Passes, document_act-Passes,
}

module _ (env : Env) where
  module _ (request : Request) where
    abbrev unit_ok : Unit {0} → Bool
    unit_ok u = true

    weaken :
        (x : Option (Effect (Option (List JsonCall))))
        → Explained is_found x
        → Passes unit_ok is_found tt x
    weaken none t = tt
    weaken (some e) t = λ failed. inl (t failed)

    each_act-Explained :
        (query : Text) (calls : List JsonCall) (dbs : List Text) (h : List Event)
        → Explained is_found (each_act env request query calls dbs h)
    each_act-Explained query calls [] h = λ e. absurd (ground (arith, e))
    each_act-Explained query calls (db ∷ dbs) h =
        go (λ found h. each_act-Explained query (calls ++ found) dbs h)
          (env.connect h (db_connstring request db))
      where
        next : List JsonCall → Act (Option (List JsonCall))
        next found = each_act env request query (calls ++ found) dbs

        go :
            ((found : List JsonCall) (h : List Event) → Explained is_found (next found h))
            → (x : Option Text) → Explained is_found (round env request query h db next x)
        go rest none = answered _
          where
            found_rows :
                (x : Option (List JsonCall))
                → Explained is_found (round_rows env request query h db next x)
            found_rows none = tt
            found_rows (some found) =
                joined-Explained unit_ok is_found
                  (record {
                    value = tt {0};
                    said = [];
                    asked =
                        executed (db_connstring request db) query []
                        ∷ connected (db_connstring request db)
                        ∷ [];
                    clean = true;
                  })
                  (next found (db_history request query h db)) (λ e. absurd (ground (arith, e)))
                  (weaken _ (rest found (db_history request query h db)))

            answered : (ok : Bool) → Explained is_found (round_of env request query h db next ok)
            answered true = found_rows _
            answered false = λ _. tt
        go rest (some message) =
            refusal-Explained env is_found (db_connstring request db) [] none (plain_format message)

    databases_act-Passes :
        (query : Text) (x : Option (List Text)) (h : List Event)
        → Passes is_found itself x (databases_act env request query x h)
    databases_act-Passes query none h = λ _. inr (refl, refl)
    databases_act-Passes query (some names) h = pass _ (
        and_then-Explained is_found itself (each_act env request query [] names h)
          (document_act env) h (each_act-Explained query [] names h) (document_act-Passes env))
      where
        pass :
            (x : Option (Effect Bool)) → Explained itself x → Passes is_found itself (some names) x
        pass none t = tt
        pass (some e) t = λ failed. inl (t failed)

    -- The plans whose failures are explained: PG_SETTING is silent on an unknown setting, and a
    -- version that reads as 0 is a failure without a message.
    abbrev pub Explains : Plan → Type 0
    Explains (setting query ss) = ⊥
    Explains (by_version leaked older newer) = ⊥
    Explains _ = Unit

    probe_act-Explained : (h : List Event) → Explained itself (probe_act env request h)
    probe_act-Explained h = go _ refl
      where
        go :
            (x : Option Text)
            → env.connect h (request_connstring request) ≡ x
            → Explained itself (probe_act env request h)
        go none e = rw (e, probe_act) (λ f. absurd (ground (arith, f)))
        go (some message) e = elim (Option-cases (plain_format message)) [
          | inl f ↦ rw (e, f, probe_act) tt
          | inr (text, f) ↦ rw (e, f, probe_act) (λ g. absurd (ground (arith, g)))
        ]

    serve-Explained :
        (p : Plan) → Explains p → (h : List Event) → Explained itself (serve env request p h)
    unfolding serve
    serve-Explained undefined x h = tt
    serve-Explained (answer r) x h = λ e. absurd (ground (arith, e))
    serve-Explained (refuse leaked text) x h = λ _. tt
    serve-Explained probe x h = probe_act-Explained h
    serve-Explained (value type query ss) x h =
        and_then-Explained is_found itself _ (set_act env type) h
          (answered_by-Explained env is_found (request_connstring request) query ss ss none
            (scalar_spec env query) (scalar_spec-Explained env query) h _)
          (set_act-Passes env type)
    serve-Explained (rows query ss) x h =
        answered_by-Explained env itself (request_connstring request) query ss ss false
          (rows_spec env) (rows_spec-Explained env) h _
    serve-Explained (all_rows query) x h =
        and_then-Explained is_found itself _ (databases_act env request query) h
          (answered_by-Explained env is_found (request_connstring request) get_databases_query [] []
            none (names_spec env) (names_spec-Explained env) h _)
          (databases_act-Passes query)
    serve-Explained (setting query ss) x h = absurd x
    serve-Explained (index_stat query ss) x h =
        answered_by-Explained env itself (request_connstring request) query [] ss false
          (index_spec env query) (index_spec-Explained env query) h _
    serve-Explained (by_version leaked older newer) x h = absurd x

module _ (env : Env) (queries : Queries) (request : Request) (w w' : World) where
  Told-Meets :
      (x : Option (Effect Bool)) (r : Option (Bool × World))
      → Explained itself x
      → Meets w w r x
      → r ≡ some (false, w')
      → Told w'.reports
  Told-Meets none r t m e = absurd (ground (arith, m, e))
  Told-Meets (some effect) r t (w₁, runs, p) e =
      let same : w₁ ≡ w' = ground (arith, runs, e) in
      subst (λ v. Told v.reports) same
        (subst Told (sym p.reports)
          (Told-append effect.said w.reports (t (ground (arith, runs, e)))))

  -- Where the plan of a function asks neither for a setting nor for the version of the server first,
  -- a call that returns a failure has set a message, and nothing after it. This is for connection
  -- parameters that hold no terminator inside, texts that are printed whole where they fit and a
  -- server that lists no database with an empty name.
  pub call-Told :
      (fn : Function)
      → Explains env request (plan env queries fn request)
      → IsTextRequest request
      → Fits env
      → ListsNames env
      → IsFresh w
      → call env queries fn request w ≡ some (false, w')
      → Told w'.reports
  call-Told fn explains text_ok fits named f e =
      Told-Meets _ _ (serve-Explained env request (plan env queries fn request) explains w.history)
        ((call-plan env queries request fn text_ok fits named).at w f) e
