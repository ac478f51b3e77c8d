-- ===== src/Service/UserQueries.antt =====
-- `PG_QUERY`, for every key and every parameter.
use libzbxpgsql.Base.{
  ℕ, leb, length, drop, ◌-◌, ◌≡◌, refl, sym, subst, Bool, true, false, Bool-cases, inl, inr, Option,
  none, some, List, [], ◌∷◌, Text, bytes, starts, strisnull, strncmp, if◌then◌else◌, arith,
}
use libzbxpgsql.Runtime.{Env, World, Request, Cmd, pure, lift, ◌>>=◌, ◌>>◌}
use libzbxpgsql.Params.{PgParams}
use libzbxpgsql.Params.Laws.{IsFresh}
use libzbxpgsql.Params.Owned.{Owns, nothing-Owns}
use libzbxpgsql.Connect.{param_first, set_err_result}
use libzbxpgsql.Connect.Laws.{IsTextRequest}
use libzbxpgsql.Query.{ar_string, ar_uint64, ar_double}
use libzbxpgsql.Queries.{Queries, get_query_by_name}
use libzbxpgsql.Items.{key_field}
use libzbxpgsql.Items.UserQuery.{append_rest, query_by_type, pg_query}
use libzbxpgsql.Items.UserQuery.Laws.{user_params, chosen, append_rest-Owns}
use libzbxpgsql.Service.Meets.{Meets}
use libzbxpgsql.Service.Rules.{Owns-Meets}
use libzbxpgsql.Service.Plans.{Plan, undefined, serve}
use libzbxpgsql.Service.Table.{field_plan, type_plan, found_plan, query_plan}
use libzbxpgsql.Service.Shapes.{Carries, UsesUp, refuse-Carries, value-UsesUp, rows-UsesUp}

module _ (env : Env) (request : Request) where
  if-UsesUp :
      (b : Bool) (m n : PgParams → Cmd Bool) (ss : List Text) (p q : Plan)
      → UsesUp env request m ss p
      → UsesUp env request n ss q
      → UsesUp env request (λ ps. if b then m ps else n ps) ss (if b then p else q)
  if-UsesUp true m n ss p q u v = record { at = u.at }
  if-UsesUp false m n ss p q u v = record { at = v.at }

  undefined-UsesUp : (ss : List Text) → UsesUp env request (λ ps. lift none) ss undefined
  unfolding serve
  undefined-UsesUp ss = record { at = λ w₀ w ps o. refl }

  key_field-UsesUp :
      (n : ℕ) (key : Text) (m : Text → PgParams → Cmd Bool) (ss : List Text) (next : Text → Plan)
      → ((field : Text) → UsesUp env request (m field) ss (next field))
      → UsesUp env request
          (λ ps. key_field n key >>= λ field. m field ps)
          ss
          (field_plan n key next)
  unfolding key_field serve
  key_field-UsesUp n key m ss next u = elim (Bool-cases (leb n (length key))) [
    | inl long ↦ rw long (record { at = (u (drop n key)).at })
    | inr short ↦ rw short (record { at = λ w₀ w ps o. refl })
  ]

  module _ (text_ok : IsTextRequest request) where
    query_by_type-UsesUp :
        (type query : Text) (ss : List Text)
        → UsesUp env request (query_by_type env request type query) ss (type_plan type query ss)
    unfolding query_by_type strncmp
    query_by_type-UsesUp type query ss =
        if-UsesUp (starts type (bytes "string") 5) _ _ ss _ _
          (value-UsesUp env request text_ok ar_string query ss)
          (if-UsesUp (starts type (bytes "integer") 7) _ _ ss _ _
            (value-UsesUp env request text_ok ar_uint64 query ss)
            (if-UsesUp (starts type (bytes "double") 6) _ _ ss _ _
              (value-UsesUp env request text_ok ar_double query ss)
              (if-UsesUp (starts type (bytes "discovery") 9) _ _ ss _ _
                (rows-UsesUp env request text_ok query ss) (undefined-UsesUp ss))))

    module _ (queries : Queries) where
      abbrev with_query : Text → PgParams → Cmd Bool
      with_query query ps =
          key_field 9 request.key >>= λ type. query_by_type env request type query ps

      found-Meets :
          (given : Text) (found : Option Text) (w w₁ : World) (ps : PgParams)
          → Owns w w₁ ps (user_params request (request.nparam - 3) 3)
          → Meets w w (with_query (chosen found given) ps w₁) (
              serve env request
                (found_plan request.key given
                  (user_params request (request.nparam - 3) 3)
                  (some found))
                w.history)
      found-Meets given found w w₁ ps owns =
          let ss = user_params request (request.nparam - 3) 3 in
          let plan = field_plan 9 request.key (λ type. type_plan type (chosen found given) ss) in
          Owns-Meets w w₁ ps ss (with_query (chosen found given) ps w₁) (serve env request plan)
            owns
            ((key_field-UsesUp 9 request.key
                (λ type. query_by_type env request type (chosen found given)) ss
                (λ type. type_plan type (chosen found given) ss)
                (λ type. query_by_type-UsesUp type (chosen found given) ss)).at
              w w₁ ps owns.memory)

      runs :
          (c : ℕ) (s : Text) (found : Option Text) (w w₁ : World) (ps : PgParams)
          → request.rparam param_first ≡ some (c ∷ s)
          → get_query_by_name queries (c ∷ s) ≡ some found
          → append_rest env request (request.nparam - 3) 3 none w ≡ some (ps, w₁)
          → pg_query env queries request w ≡ with_query (chosen found (c ∷ s)) ps w₁
      unfolding pg_query strisnull
      runs c s none w w₁ ps param search appends = ground (arith, param, search, appends)
      runs c s (some query) w w₁ ps param search appends = ground (arith, param, search, appends)

      no_query :
          (x : Option Text) (w : World)
          → strisnull x ≡ true
          → request.rparam param_first ≡ x
          → pg_query env queries request w
            ≡ (set_err_result env true (bytes "No query or query-key specified") >> pure false) w
      unfolding pg_query strisnull
      no_query none w empty e = ground (arith, e)
      no_query (some []) w empty e = ground (arith, e)
      no_query (some (c ∷ s)) w empty e = absurd (ground arith)

      wild :
          (c : ℕ) (s : Text) (w : World)
          → request.rparam param_first ≡ some (c ∷ s)
          → get_query_by_name queries (c ∷ s) ≡ none
          → pg_query env queries request w ≡ none
      unfolding pg_query strisnull
      wild c s w e lost = ground (arith, e, lost)

      found_of-Meets :
          (c : ℕ) (s : Text) (w : World) (x : Option (Option Text))
          → IsFresh w
          → request.rparam param_first ≡ some (c ∷ s)
          → get_query_by_name queries (c ∷ s) ≡ x
          → Meets w w (pg_query env queries request w) (
              serve env request
                (found_plan request.key (c ∷ s) (user_params request (request.nparam - 3) 3) x)
                w.history)
      unfolding serve
      found_of-Meets c s w none f e lost = wild c s w e lost
      found_of-Meets c s w (some found) f e looked_up =
          let (ps, w₁, appends, owns) =
            append_rest-Owns env request (request.nparam - 3) 3 w w none [] (nothing-Owns w f) in
          subst
            (λ r. Meets w w r (
              serve env request
                (found_plan request.key (c ∷ s) (user_params request (request.nparam - 3) 3)
                  (some found))
                w.history))
            (sym (runs c s found w w₁ ps e looked_up appends))
            (found-Meets (c ∷ s) found w w₁ ps owns)

      query-Meets :
          (x : Option Text) (w : World)
          → IsFresh w
          → request.rparam param_first ≡ x
          → Meets w w
              (pg_query env queries request w)
              (serve env request (query_plan queries request x) w.history)
      unfolding strisnull
      query-Meets none w f e =
          subst (λ r. Meets w w r (serve env request (query_plan queries request none) w.history))
            (sym (no_query none w refl e))
            ((refuse-Carries env request (bytes "No query or query-key specified")).at w f)
      query-Meets (some []) w f e =
          subst
            (λ r. Meets w w r (serve env request (query_plan queries request (some [])) w.history))
            (sym (no_query (some []) w refl e))
            ((refuse-Carries env request (bytes "No query or query-key specified")).at w f)
      query-Meets (some (c ∷ s)) w f e = found_of-Meets c s w _ f e refl

      pub pg_query-Carries :
          Carries env request
            (pg_query env queries request)
            (query_plan queries request (request.rparam param_first))
      pg_query-Carries = record { at = λ w f. query-Meets _ w f refl }
