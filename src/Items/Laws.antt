-- ===== src/Items/Laws.antt =====
-- The handlers that ask one query with at most one parameter, from the request to the server and
-- back.
use libzbxpgsql.Base.{
  ◌≡◌, ap, Bool, ◌∙◌, Option, none, some, List, [], ◌∷◌, ◌++◌, Text, strisnull, if◌then◌else◌,
  arith,
}
use libzbxpgsql.Runtime.{Env, World, Request, Report, ◌>>=◌, connected, executed}
use libzbxpgsql.Params.{PgParams, param_new}
use libzbxpgsql.Params.Laws.{IsFresh, appended}
use libzbxpgsql.Params.Owned.{
  Owns, nothing-Owns, HasArray-IsParams, HasArray-IsFresh, HasArray-Frees, param_append-Owns,
}
use libzbxpgsql.Connect.{param_first}
use libzbxpgsql.Connect.Laws.{request_connstring, IsTextRequest}
use libzbxpgsql.Query.{ResultType, pg_get_result}
use libzbxpgsql.Query.Laws.{scalar_spec}
use libzbxpgsql.Query.Exchange.{answered}
use libzbxpgsql.Query.Scalar.{Ends, result_spec, pg_get_result-result_spec}
use libzbxpgsql.Items.{by_filter}

module _ (env : Env) (request : Request) (type : ResultType) (query : Text) (name : Option Text)
    (w : World) (text_ok : IsTextRequest request) (f : IsFresh w)
    (accepted : env.connect w.history (request_connstring request) ≡ none) where
  -- A new array with one parameter, and a query with it: the memory is as before in the end.
  pub param_new-Asks :
      (v : Option Text) (rs : List Report)
      → scalar_spec env query (answered env w request query (appended [] name)) ≡ some (v, rs)
      → Ends request query none
          (appended [] name)
          w
          ((param_new name >>= λ params. pg_get_result env request type query params) w)
          (result_spec env type v rs)
  param_new-Asks v rs e =
      let ss = appended [] name in
      let (ps, w₁, appends, owns) = param_append-Owns w w none [] name (nothing-Owns w f) in
      let same_answer : answered env w₁ request query ss ≡ answered env w request query ss =
        ap
          (λ h.
            env.execute (connected (request_connstring request) ∷ h) (request_connstring request)
              query ss)
          owns.history in
      made ps w₁ appends owns (result_spec env type v rs) (
        pg_get_result-result_spec env w₁ request query ps ss text_ok
          (HasArray-IsFresh w w₁ ps ss owns.memory) (HasArray-IsParams w w₁ ps ss owns.memory) type
          v rs (ap (scalar_spec env query) same_answer ∙ e)
          (ap (λ h. env.connect h (request_connstring request)) owns.history ∙ accepted))
    where
      made :
          (ps : PgParams) (w₁ : World)
          → param_new name w ≡ some (ps, w₁)
          → Owns w w₁ ps (appended [] name)
          → (x : Option (Bool × List Report))
          → Ends request query ps
              (appended [] name)
              w₁
              (pg_get_result env request type query ps w₁)
              x
          → Ends request query none
              (appended [] name)
              w
              ((param_new name >>= λ params. pg_get_result env request type query params) w)
              x
      made ps w₁ appends owns none runs = ground (arith, appends, runs)
      made ps w₁ appends owns (some (ok, rs)) (w₂, runs, asks) = (
        w₂,
        ground (arith, appends, runs),
        record {
          memory = HasArray-Frees w w₁ w₂ ps (appended [] name) owns.memory asks.memory;
          reports = asks.reports ∙ ap (◌++◌ rs) owns.reports;
          history =
              asks.history
              ∙ ap
                  (λ h.
                    executed (request_connstring request) query (appended [] name)
                    ∷ connected (request_connstring request)
                    ∷ h)
                  owns.history;
        },
      )

module _ (env : Env) (request : Request) (type : ResultType) (sum_query query : Text) (w : World)
    (text_ok : IsTextRequest request) (f : IsFresh w)
    (accepted : env.connect w.history (request_connstring request) ≡ none) where
  -- The query of a handler that sums without a name, and its parameters.
  abbrev pub filter_query : Text
  filter_query = if strisnull (request.rparam param_first) then sum_query else query

  -- On a connection that the server accepts, where the result can be read, a handler that filters
  -- by its third parameter asks the query on all objects without parameters if that is NULL or
  -- empty, and else the query on one object with the parameter alone; it sets what the type makes
  -- of the result, and the memory is as it was before. It is undefined for an integer that is read as
  -- a double which has no conversion.
  pub by_filter-Asks :
      (v : Option Text) (rs : List Report)
      → scalar_spec env filter_query
          (answered env w request filter_query (appended [] (request.rparam param_first)))
        ≡ some (v, rs)
      → Ends request filter_query none
          (appended [] (request.rparam param_first))
          w
          (by_filter env request type sum_query query w)
          (result_spec env type v rs)
  unfolding by_filter
  by_filter-Asks v rs e =
      param_new-Asks env request type filter_query (request.rparam param_first) w text_ok f accepted
        v rs e
