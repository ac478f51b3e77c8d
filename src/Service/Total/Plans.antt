-- ===== src/Service/Total/Plans.antt =====
-- Every plan that is not the undefined one is carried out to its end on a server that can be used.
use libzbxpgsql.Base.{
  ◌≡◌, refl, ◌≤◌, Bool, true, false, Option, none, some, List, [], ◌∷◌, length, Text, ℤ, arith,
}
use libzbxpgsql.Runtime.{Report, Env, World, Request, PgResult, Event}
use libzbxpgsql.Params.Laws.{IsFresh}
use libzbxpgsql.Connect.Laws.{IsTextRequest, request_connstring}
use libzbxpgsql.Numbers.{atol, atoi, to_int}
use libzbxpgsql.Queries.{Queries}
use libzbxpgsql.Query.{ResultType, pq_getvalue}
use libzbxpgsql.Query.Laws.{scalar_spec}
use libzbxpgsql.Discovery.{pq_ntuples}
use libzbxpgsql.Discovery.Laws.{IsTable}
use libzbxpgsql.Items.Backends.Laws.{Fits}
use libzbxpgsql.Metrics.{Function, call}
use libzbxpgsql.Service.Effects.{and_then, Act, Effect, returns, lifted, asks}
use libzbxpgsql.Service.Meets.{Meets}
use libzbxpgsql.Service.Values.{set_act, version_query, is_old, number_act, version_act, old_act}
use libzbxpgsql.Service.Rows.{rows_spec}
use libzbxpgsql.Service.Everywhere.{ListsNames}
use libzbxpgsql.Service.Plans.{
  Plan, undefined, answer, refuse, probe, value, rows, all_rows, setting, index_stat, by_version,
  index_spec, setting_spec, by_age, serve,
}
use libzbxpgsql.Service.Requests.{plan}
use libzbxpgsql.Service.Calls.{call-plan}
use libzbxpgsql.Query.Scalar.{value_report}
use libzbxpgsql.Service.Values.{told_act}
use libzbxpgsql.Discovery.{get_databases_query}
use libzbxpgsql.Discovery.Rounds.{db_connstring}
use libzbxpgsql.Service.Total.Acts.{
  IsDefined, IsTabular, IsPlain, HasColumns, HoldsSpec, Holds-any, and_then-IsDefined,
  answered_by-IsDefined, answered_by-Holds, scalar_spec-IsDefined, rows_spec-IsDefined,
  setting_spec-IsDefined,
}
use libzbxpgsql.Service.Total.Rounds.{
  EachListed, asks-IsDefined, all_rows_act-IsDefined, probe_act-IsDefined,
}

-- The plan is not the undefined one.
abbrev pub IsRunnable : Plan → Type 0
IsRunnable undefined = ⊥
IsRunnable (by_version leaked older newer) = IsRunnable older × IsRunnable newer
IsRunnable _ = Unit

module _ (env : Env) (request : Request) where
  -- The connection of a request, on which its queries are asked.
  abbrev c : Text
  c = request_connstring request

  -- The first value that a query is answered with has a property.
  abbrev pub AnswersWith : (Text → Type 0) → Text → List Text → Type 0
  AnswersWith Q query ss =
      (h : List Event) (v : Text) → pq_getvalue (env.execute h c query ss) 0 0 ≡ some v → Q v

  -- A query whose value is read: it has a column, and the value that is kept has a property.
  pub record Reads (Q : Text → Type 0) (query : Text) (ss : List Text) : Type 0 where
    pub plain : IsPlain env c
    pub columns : HasColumns env c 1 query ss
    pub values : AnswersWith (λ v. Q (env.clip env.max_string_len v)) query ss

  -- What a plan needs of the server, beside that its results are tables: the messages of the
  -- connections that it may make are plain formats, its queries have the columns that are read
  -- where they succeed, and the values that are read as numbers are in range.
  abbrev pub Answers : Plan → Type 0
  Answers undefined = Unit
  Answers (answer r) = Unit
  Answers (refuse leaked text) = Unit
  Answers probe = IsPlain env c
  Answers (value type query ss) = Reads (λ v. IsDefined (value_report env type v)) query ss
  Answers (rows query ss) = IsPlain env c
  Answers (all_rows query) =
      IsPlain env c
      × HasColumns env c 1 get_databases_query []
      × EachListed env request (λ db. IsPlain env (db_connstring request db))
  Answers (setting query ss) = IsPlain env c × HasColumns env c 2 query ss
  Answers (index_stat query ss) =
      IsPlain env c × HasColumns env c 1 query ss × AnswersWith (λ v. IsDefined (atoi v)) query ss
  Answers (by_version leaked older newer) =
      Reads (λ v. IsDefined (atol v)) (version_query env) [] × Answers older × Answers newer

  abbrev AllText : (Text → Type 0) → Option Text → Type 0
  AllText Q none = Unit
  AllText Q (some text) = Q text

  spec-AllText :
      (Q : Text → Type 0) (query : Text) (r : PgResult)
      → ((v : Text) → pq_getvalue r 0 0 ≡ some v → Q (env.clip env.max_string_len v))
      → HoldsSpec (AllText Q) (scalar_spec env query r)
  unfolding scalar_spec pq_getvalue
  spec-AllText Q query r q = go r.tuples_ok r.rows q
    where
      go :
          (ok : Bool) (lines : List (List Text))
          → ((v : Text)
              → pq_getvalue (record r { tuples_ok = ok; rows = lines }) 0 0 ≡ some v
              → Q (env.clip env.max_string_len v))
          → HoldsSpec
              (AllText Q)
              (scalar_spec env query (record r { tuples_ok = ok; rows = lines }))
      go false lines q = tt
      go true [] q = tt
      go true ([] ∷ lines) q = tt
      go true ((v ∷ values) ∷ lines) q = q v refl

  module _ (tables : IsTabular env) where
    -- A value that is read, and then used.
    Reads-IsDefined :
        {B : Type 0}
        → (Q : Text → Type 0) (query : Text) (ss : List Text) → Reads Q query ss
        → (next : Option Text → Act B)
        → ((x : Option Text) (h : List Event) → AllText Q x → IsDefined (next x h))
        → (h : List Event)
        → IsDefined (and_then (asks env request query ss none (scalar_spec env query) h) next h)
    Reads-IsDefined Q query ss reads next rest h =
        and_then-IsDefined (AllText Q) _ next h
          (asks-IsDefined env tables request reads.plain query ss none (scalar_spec env query) h
            (λ h.
              scalar_spec-IsDefined env query (env.execute h c query ss) (tables h c query ss)
                (reads.columns h)))
          (answered_by-Holds env (AllText Q) c query ss ss none (scalar_spec env query) tt
            (λ h. spec-AllText Q query (env.execute h c query ss) (reads.values h)) h _)
          rest

    told_act-IsDefined :
        (x : Option Report) (h : List Event) → IsDefined x → IsDefined (told_act env x h)
    told_act-IsDefined none h d = d
    told_act-IsDefined (some r) h d = tt

    set_act-IsDefined :
        (type : ResultType) (x : Option Text) (h : List Event)
        → AllText (λ v. IsDefined (value_report env type v)) x
        → IsDefined (set_act env type x h)
    set_act-IsDefined type none h d = tt
    set_act-IsDefined type (some v) h d = told_act-IsDefined (value_report env type v) h d

    lifted-IsDefined : (x : Option ℤ) (h : List Event) → IsDefined x → IsDefined (lifted x h)
    lifted-IsDefined none h d = d
    lifted-IsDefined (some n) h d = tt

    number_act-IsDefined :
        (x : Option Text) (h : List Event)
        → AllText (λ v. IsDefined (atol v)) x
        → IsDefined (number_act env x h)
    number_act-IsDefined none h d = tt
    number_act-IsDefined (some text) h d = lifted-IsDefined (atol text) h d

    old_act-IsDefined :
        Reads (λ v. IsDefined (atol v)) (version_query env) []
        → (h : List Event) → IsDefined (old_act env request h)
    old_act-IsDefined reads h =
        and_then-IsDefined (λ _. Unit) (version_act env request h)
          (λ n. returns (is_old env (to_int n))) h
          (Reads-IsDefined (λ v. IsDefined (atol v)) (version_query env) [] reads (number_act env)
            number_act-IsDefined h)
          (Holds-any _) (λ n h _. tt)

    index_spec-IsDefined :
        (query : Text) (r : PgResult)
        → IsTable r.fields r.rows
        → (r.tuples_ok ≡ true → 1 ≤ length r.fields)
        → ((v : Text) → pq_getvalue r 0 0 ≡ some v → IsDefined (atoi v))
        → IsDefined (index_spec env query r)
    unfolding pq_getvalue pq_ntuples
    index_spec-IsDefined query r t l int = go r.tuples_ok r.rows t l int
      where
        go :
            (ok : Bool) (lines : List (List Text))
            → IsTable r.fields lines
            → (ok ≡ true → 1 ≤ length r.fields)
            → ((v : Text)
                → pq_getvalue (record r { tuples_ok = ok; rows = lines }) 0 0 ≡ some v
                → IsDefined (atoi v))
            → IsDefined (index_spec env query (record r { tuples_ok = ok; rows = lines }))
        go false lines t l int = tt
        go true [] t l int = tt
        go true ([] ∷ lines) t l int = absurd (ground (arith, t, l refl))
        go true ((v ∷ values) ∷ lines) t l int = ground (arith, int v refl)

    pub serve-IsDefined :
        (p : Plan) → IsRunnable p → Answers p → (h : List Event) → IsDefined (serve env request p h)
    unfolding serve
    serve-IsDefined undefined run a h = run
    serve-IsDefined (answer r) run a h = tt
    serve-IsDefined (refuse leaked text) run a h = tt
    serve-IsDefined probe run a h = probe_act-IsDefined env tables request h a
    serve-IsDefined (value type query ss) run a h =
        Reads-IsDefined (λ v. IsDefined (value_report env type v)) query ss a (set_act env type)
          (set_act-IsDefined type) h
    serve-IsDefined (rows query ss) run a h =
        asks-IsDefined env tables request a query ss false (rows_spec env) h
          (λ h. rows_spec-IsDefined env (env.execute h c query ss) (tables h c query ss))
    serve-IsDefined (all_rows query) run (plain, columns, listed) h =
        all_rows_act-IsDefined env tables request query h plain columns listed
    serve-IsDefined (setting query ss) run (plain, columns) h =
        answered_by-IsDefined env c plain query [] ss false (setting_spec env)
          (λ h.
            setting_spec-IsDefined env (env.execute h c query ss) (tables h c query ss) (columns h))
          h _ refl
    serve-IsDefined (index_stat query ss) run (plain, columns, int) h =
        answered_by-IsDefined env c plain query [] ss false (index_spec env query)
          (λ h.
            index_spec-IsDefined query (env.execute h c query ss) (tables h c query ss) (columns h)
              (int h))
          h _ refl
    serve-IsDefined (by_version leaked older newer) (run, run') (reads, a, a') h =
        and_then-IsDefined (λ _. Unit) _
          (by_age env leaked (serve env request older) (serve env request newer)) h
          (old_act-IsDefined reads h) (Holds-any _)
          (λ age h _.
            age-IsDefined (λ h. serve-IsDefined older run a h)
              (λ h. serve-IsDefined newer run' a' h) age h)
      where
        age-IsDefined :
            ((h : List Event) → IsDefined (serve env request older h))
            → ((h : List Event) → IsDefined (serve env request newer h))
            → (age : Option Bool) (h : List Event)
            → IsDefined
                (by_age env leaked (serve env request older) (serve env request newer) age h)
        age-IsDefined old new none h = tt
        age-IsDefined old new (some true) h = old h
        age-IsDefined old new (some false) h = new h

module _ (env : Env) (queries : Queries) (request : Request) (w : World) where
  Meets-returns :
      (r : Option (Bool × World)) (x : Option (Effect Bool))
      → Meets w w r x
      → IsDefined x
      → (ok : Bool) × (w' : World) × (r ≡ some (ok, w'))
  Meets-returns r none m d = absurd d
  Meets-returns r (some e) (w', runs, p) d = (e.value, w', runs)

  -- A call of the table whose plan is not the undefined one returns, whether it connects or not, on
  -- a server that answers as the plan needs: the messages for refused connections are plain
  -- formats, each row has a value for each column, a query of the plan that succeeds has the
  -- columns that are read, and values that are read as numbers are in range. This is for connection
  -- parameters that hold no terminator inside, texts that are printed whole where they fit, a
  -- server that lists no database with an empty name, and a state in which no address from `next`
  -- on is in use.
  pub call-returns :
      (fn : Function)
      → IsRunnable (plan env queries fn request)
      → Answers env request (plan env queries fn request)
      → IsTabular env
      → IsTextRequest request
      → Fits env
      → ListsNames env
      → IsFresh w
      → (ok : Bool) × (w' : World) × (call env queries fn request w ≡ some (ok, w'))
  call-returns fn run answers tables text_ok fits named f =
      Meets-returns _ _ ((call-plan env queries request fn text_ok fits named).at w f)
        (serve-IsDefined env request tables (plan env queries fn request) run answers w.history)
