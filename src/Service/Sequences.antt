-- ===== src/Service/Sequences.antt =====
-- Sequences of calls of the table, in any order: they return, and they give back all memory.
use libzbxpgsql.Base.{
  ◌≡◌, refl, subst, Bool, true, false, Bool-cases, inl, inr, Option, none, some, List, [], ◌∷◌, All,
  Text, arith,
}
use libzbxpgsql.Runtime.{Env, World, Request, Event}
use libzbxpgsql.Params.Owned.{is_empty}
use libzbxpgsql.Params.Laws.{IsFresh, Frees, Frees-IsFresh}
use libzbxpgsql.Connect.Laws.{IsTextRequest, request_connstring}
use libzbxpgsql.Queries.{Queries}
use libzbxpgsql.Items.Backends.Laws.{Fits}
use libzbxpgsql.Metrics.{Function, call}
use libzbxpgsql.Service.Effects.{Effect}
use libzbxpgsql.Service.Meets.{Memory, Memory_trans, Meets, Frees_refl}
use libzbxpgsql.Service.Rules.{IsClean}
use libzbxpgsql.Service.Rows.{rows_spec}
use libzbxpgsql.Service.Everywhere.{ListsNames}
use libzbxpgsql.Service.Plans.{
  Plan, undefined, answer, refuse, probe, value, rows, all_rows, setting, index_stat, by_version,
  index_spec, setting_spec, by_age, probe_act, serve,
}
use libzbxpgsql.Service.Clean.{
  Succeeds, and_then-IsClean, answered_by-IsClean, old_act-IsClean, value_act-IsClean,
  all_rows_act-IsClean,
}
use libzbxpgsql.Service.Requests.{plan}
use libzbxpgsql.Service.Calls.{call-plan}
use libzbxpgsql.Service.Total.Acts.{IsDefined, IsTabular}
use libzbxpgsql.Service.Total.Rounds.{EachListed}
use libzbxpgsql.Service.Total.Plans.{IsRunnable, Answers, serve-IsDefined}

module _ (env : Env) (request : Request) where
  -- The server accepts the connection of the request.
  abbrev Accepts : Type 0
  Accepts = (h : List Event) → env.connect h (request_connstring request) ≡ none

  -- What a plan leaves behind is nothing: the parameters of a query for a value or for rows meet
  -- no refused connection, the discovery on all databases meets no failing query, and a message
  -- that gives up parameters does not come to pass.
  abbrev pub Tidy : Plan → Type 0
  Tidy undefined = Unit
  Tidy (answer r) = Unit
  Tidy (refuse leaked text) = is_empty leaked ≡ true
  Tidy probe = Unit
  Tidy (value type query ss) = is_empty ss ≡ false → Accepts
  Tidy (rows query ss) = is_empty ss ≡ false → Accepts
  Tidy (all_rows query) = EachListed env request (Succeeds env request query)
  Tidy (setting query ss) = Unit
  Tidy (index_stat query ss) = Unit
  Tidy (by_version leaked older newer) = (is_empty leaked ≡ true) × Tidy older × Tidy newer

  spares :
      (ss : List Text)
      → (is_empty ss ≡ false → Accepts)
      → (h : List Event) (message : Text)
      → env.connect h (request_connstring request) ≡ some message
      → is_empty ss ≡ true
  spares ss accepts h message e = elim (Bool-cases (is_empty ss)) [
    | inl empty ↦ empty
    | inr given ↦ absurd (ground (arith, e, accepts given h))
  ]

  probe_act-IsClean : (h : List Event) → IsClean (probe_act env request h)
  probe_act-IsClean h = ground arith

  serve-IsClean : (p : Plan) → Tidy p → (h : List Event) → IsClean (serve env request p h)
  unfolding serve
  serve-IsClean undefined t h = tt
  serve-IsClean (answer r) t h = refl
  serve-IsClean (refuse leaked text) t h = t
  serve-IsClean probe t h = probe_act-IsClean h
  serve-IsClean (value type query ss) t h =
      value_act-IsClean env request type query ss h (spares ss t h)
  serve-IsClean (rows query ss) t h =
      answered_by-IsClean env (request_connstring request) query ss ss false (rows_spec env) h _
        (spares ss t h)
  serve-IsClean (all_rows query) t h = all_rows_act-IsClean env request query h t
  serve-IsClean (setting query ss) t h =
      answered_by-IsClean env (request_connstring request) query [] ss false (setting_spec env) h _
        (λ message e. refl)
  serve-IsClean (index_stat query ss) t h =
      answered_by-IsClean env (request_connstring request) query [] ss false (index_spec env query)
        h _ (λ message e. refl)
  serve-IsClean (by_version leaked older newer) (t, old, new) h =
      and_then-IsClean _ (by_age env leaked (serve env request older) (serve env request newer)) h
        (old_act-IsClean env request h)
        (age-IsClean (λ h. serve-IsClean older old h) (λ h. serve-IsClean newer new h))
    where
      age-IsClean :
          ((h : List Event) → IsClean (serve env request older h))
          → ((h : List Event) → IsClean (serve env request newer h))
          → (age : Option Bool) (h : List Event)
          → IsClean (by_age env leaked (serve env request older) (serve env request newer) age h)
      age-IsClean p q none h = t
      age-IsClean p q (some true) h = p h
      age-IsClean p q (some false) h = q h

-- A call of a function of the table.
pub record Call : Type 0 where
  pub function : Function
  pub request : Request

module _ (env : Env) (queries : Queries) where
  -- The calls one after the other, whatever they return.
  abbrev pub run : List Call → World → Option World
  run [] w = some w
  run (x ∷ rest) w = elim (call env queries x.function x.request w) [
    | none ↦ none
    | some (ok, w') ↦ run rest w'
  ]

  -- A call that is not undefined, that the server answers as its plan needs, and that leaves
  -- nothing behind.
  pub record IsReady (x : Call) : Type 0 where
    pub runs : IsRunnable (plan env queries x.function x.request)
    pub answers : Answers env x.request (plan env queries x.function x.request)
    pub tidy : Tidy env x.request (plan env queries x.function x.request)
    pub text_ok : IsTextRequest x.request

  module _ (tables : IsTabular env) (fits : Fits env) (named : ListsNames env) where
    call-Frees :
        (x : Call) (w : World)
        → IsReady x
        → IsFresh w
        → (ok : Bool) × (w' : World) × (call env queries x.function x.request w ≡ some (ok, w'))
          × Frees none w w'
    call-Frees x w ready f =
        go (serve env x.request (plan env queries x.function x.request) w.history)
          ((call-plan env queries x.request x.function ready.text_ok fits named).at w f)
          (serve-IsDefined env x.request tables (plan env queries x.function x.request) ready.runs
            ready.answers w.history)
          (serve-IsClean env x.request (plan env queries x.function x.request) ready.tidy w.history)
      where
        go :
            (e : Option (Effect Bool))
            → Meets w w (call env queries x.function x.request w) e
            → IsDefined e
            → IsClean e
            → (ok : Bool) × (w' : World) × (call env queries x.function x.request w ≡ some (ok, w'))
              × Frees none w w'
        go none m d c = absurd d
        go (some e) (w', runs, p) d c = (e.value, w', runs, subst (λ b. Memory b w w') c p.memory)

    -- A sequence of calls of the table, in any order, runs to its end and leaves the memory as it
    -- was: every array, connection and result that the calls make is given back. This is for calls
    -- whose plans are not the undefined one, are answered by the server as they need (the messages
    -- for refused connections are plain formats, a query that succeeds has the columns that are
    -- read, values that are read as numbers are in range) and are tidy: where a query for a value
    -- or for rows has parameters, the connection is accepted, where all databases are asked, each
    -- query on a listed one succeeds, and no parameter is given up with a message. It is also for
    -- results with a value in each cell, connection parameters that hold no terminator inside,
    -- texts that are printed whole where they fit, a server that lists no database with an empty
    -- name, and a state in which no address from `next` on is in use.
    pub run-Frees :
        (calls : List Call) (w : World)
        → All IsReady calls
        → IsFresh w
        → (w' : World) × (run calls w ≡ some w') × Frees none w w'
    run-Frees [] w ready f = (w, refl, Frees_refl w)
    run-Frees (x ∷ rest) w ready f =
        let (ok, w₁, runs, frees) = call-Frees x w ready.0 f in
        let (w', rest_runs, rest_frees) =
          run-Frees rest w₁ ready.1 (Frees-IsFresh none w w₁ frees f) in
        (w', ground (arith, runs, rest_runs), Memory_trans true true w w₁ w' f frees rest_frees)
