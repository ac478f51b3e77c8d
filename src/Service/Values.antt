-- ===== src/Service/Values.antt =====
-- A value by one query, and the version of the server.
use libzbxpgsql.Base.{
  ◌≡◌, refl, Bool, true, false, Bool-cases, inl, inr, ltb, ◌==◌, Option, none, some, List, [], ◌∷◌,
  Text, bytes, ℤ, pos, negsuc, if◌then◌else◌, arith,
}
use libzbxpgsql.Runtime.{Report, Env, World, Request, pure, lift, ◌>>=◌}
use libzbxpgsql.Params.{PgParams}
use libzbxpgsql.Params.Owned.{HasArray, nothing-HasArray}
use libzbxpgsql.Connect.Laws.{IsTextRequest}
use libzbxpgsql.Numbers.{atol, to_int}
use libzbxpgsql.Query.{ResultType, scalar_of, pg_scalar, set_result, pg_get_result, pg_version}
use libzbxpgsql.Query.Laws.{scalar_spec, scalar_of-scalar_spec}
use libzbxpgsql.Query.Scalar.{value_report, told, set_result-value_report}
use libzbxpgsql.Service.Effects.{Act, returns, lifted, says, and_then, asks}
use libzbxpgsql.Service.Meets.{
  Meets, Implements, Implements-returns, Implements-lift, Implements-bind, Meets-bind, Frees_refl,
}
use libzbxpgsql.Service.Asks.{Uses, exchange-Meets}
use libzbxpgsql.Items.Backends.{is_before_92}

module _ (env : Env) where
  abbrev pub told_act : Option Report → Act Bool
  told_act none h = none
  told_act (some r) h = says (r ∷ []) true true h

  abbrev pub set_act : ResultType → Option Text → Act Bool
  set_act type none = returns false
  set_act type (some v) = told_act (value_report env type v)

  -- One query, the value of its first row in a type, or the message of the failure.
  abbrev pub value_act : Request → ResultType → Text → List Text → Act Bool
  value_act request type query ss h =
      and_then (asks env request query ss none (scalar_spec env query) h) (set_act type) h

  abbrev pub version_query : Text
  version_query = bytes "SELECT setting FROM pg_settings WHERE name='server_version_num'"

  -- Is a version before 9.2, unless it is 0, which stands for a failure.
  abbrev pub is_old : ℤ → Option Bool
  is_old (negsuc n) = some true
  is_old (pos n) = if n == 0 then none else some (ltb n 90200)

  -- `atol` of the value, and 0 where there is none
  abbrev pub number_act : Option Text → Act ℤ
  number_act none = returns (pos 0)
  number_act (some text) = lifted (atol text)

  abbrev pub version_act : Request → Act ℤ
  version_act request h =
      and_then (asks env request version_query [] none (scalar_spec env version_query) h) number_act
        h

  -- Whether the server is older than 9.2, and nothing where its version is not known.
  abbrev pub old_act : Request → Act (Option Bool)
  old_act request h = and_then (version_act request h) (λ n. returns (is_old (to_int n))) h

  set_act-Implements :
      (type : ResultType) (value : Option Text)
      → Implements
          (elim value [ none ↦ pure false | some v ↦ set_result env type v >>= λ _. pure true ])
          (set_act type value)
  set_act-Implements type none = Implements-returns false
  set_act-Implements type (some v) = record {
    at = λ w f. go w (value_report env type v) (set_result-value_report env type v w);
  }
    where
      go :
          (w : World) (x : Option Report)
          → set_result env type v w ≡ told x w
          → Meets w w ((set_result env type v >>= λ _. pure true) w) (told_act x w.history)
      go w none s = ground (arith, s)
      go w (some r) s = (
        record w { reports = r ∷ w.reports },
        ground (arith, s),
        record {
          memory = record { heap = λ p. refl; grows = (Frees_refl w).grows };
          reports = refl;
          history = refl;
        },
      )

  module _ (request : Request) (text_ok : IsTextRequest request) where
    scalar-Uses : (query : Text) → Uses (scalar_of env query) (scalar_spec env query)
    scalar-Uses query r w = scalar_of-scalar_spec env query r w

    pub pg_scalar-Meets :
        (query : Text) (w₀ w : World) (ps : PgParams) (ss : List Text)
        → HasArray w₀ w ps ss
        → Meets w₀ w
            (pg_scalar env request query ps w)
            (asks env request query ss none (scalar_spec env query) w.history)
    unfolding pg_scalar
    pg_scalar-Meets query w₀ w ps ss o =
        exchange-Meets env request query none (scalar_of env query) (scalar_spec env query)
          (scalar-Uses query) text_ok w₀ w ps ss o

    pub pg_get_result-Meets :
        (type : ResultType) (query : Text) (w₀ w : World) (ps : PgParams) (ss : List Text)
        → HasArray w₀ w ps ss
        → Meets w₀ w
            (pg_get_result env request type query ps w)
            (value_act request type query ss w.history)
    unfolding pg_get_result
    pg_get_result-Meets type query w₀ w ps ss o =
        Meets-bind w₀ w (pg_scalar env request query ps) _
          (λ value. elim value [
            | none ↦ pure false
            | some v ↦ set_result env type v >>= λ _. pure true
          ])
          (set_act type) o.was_fresh (pg_scalar-Meets query w₀ w ps ss o) (set_act-Implements type)

    number_act-Implements :
        (value : Option Text)
        → Implements
            (elim value [ none ↦ pure (pos 0) | some buffer ↦ lift (atol buffer) ])
            (number_act value)
    number_act-Implements none = Implements-returns (pos 0)
    number_act-Implements (some text) = Implements-lift (atol text)

    pub pg_version-Implements : Implements (pg_version env request) (version_act request)
    unfolding pg_version
    pg_version-Implements = record {
      at = λ w f.
          Meets-bind w w (pg_scalar env request version_query none) _
            (λ value. elim value [ none ↦ pure (pos 0) | some buffer ↦ lift (atol buffer) ])
            number_act f (pg_scalar-Meets version_query w w none [] (nothing-HasArray w f))
            number_act-Implements;
    }

    age-Implements :
        (version : ℤ)
        → Implements
            (elim (to_int version) [
              | negsuc n ↦ pure (some true)
              | pos n ↦ elim (n == 0) [ true ↦ pure none | false ↦ pure (some (ltb n 90200)) ]
            ])
            (returns (is_old (to_int version)))
    age-Implements version = go (to_int version)
      where
        go :
            (n : ℤ)
            → Implements
                (elim n [
                  | negsuc n ↦ pure (some true)
                  | pos n ↦ elim (n == 0) [ true ↦ pure none | false ↦ pure (some (ltb n 90200)) ]
                ])
                (returns (is_old n))
        go (negsuc n) = Implements-returns (some true)
        go (pos n) = elim (Bool-cases (n == 0)) [
          | inl e ↦ rw e (Implements-returns none)
          | inr e ↦ rw e (Implements-returns (some (ltb n 90200)))
        ]

    pub is_before_92-Implements : Implements (is_before_92 env request) (old_act request)
    unfolding is_before_92
    is_before_92-Implements =
        Implements-bind (pg_version env request) (version_act request) _ _ pg_version-Implements
          age-Implements
