-- ===== src/Items/UserQuery/Laws.antt =====
-- `PG_QUERY` from the request to the server and back.
use libzbxpgsql.Base.{
  ℕ, zero, suc, ◌≡◌, refl, sym, subst, Bool, Option, none, some, List, [], ◌∷◌, ◌++◌, append_assoc,
  append-nil, Text, bytes, arith,
}
use libzbxpgsql.Runtime.{Env, World, Request, PgResult, Report, Cmd}
use libzbxpgsql.Params.{PgParams}
use libzbxpgsql.Params.Laws.{appended}
use libzbxpgsql.Params.Owned.{Owns, param_append-Owns}
use libzbxpgsql.Query.{ResultType, ar_string, ar_uint64, ar_double, pg_get_result}
use libzbxpgsql.Query.Laws.{scalar_spec}
use libzbxpgsql.Query.Scalar.{result_spec}
use libzbxpgsql.Discovery.{pg_get_discovery}
use libzbxpgsql.Discovery.Laws.{IsTable, discovery_spec}
use libzbxpgsql.Queries.{Queries}
use libzbxpgsql.Items.UserQuery.{append_rest}

-- The parameters of the query: those of the request from `i` on that are not NULL or empty.
abbrev pub user_params : Request → ℕ → ℕ → List Text
user_params request zero i = []
user_params request (suc n) i = appended [] (request.rparam i) ++ user_params request n (suc i)

appended-append :
    (ss rest : List Text) (s : Option Text) → appended ss s ++ rest ≡ ss ++ (appended [] s ++ rest)
appended-append ss rest none = refl
appended-append ss rest (some []) = refl
appended-append ss rest (some (c ∷ s)) = append_assoc ss _ rest

pub append_rest-Owns :
    (env : Env) (request : Request) (n i : ℕ) (w₀ w : World) (ps : PgParams) (ss : List Text)
    → Owns w₀ w ps ss
    → (ps' : PgParams) × (w' : World) × (append_rest env request n i ps w ≡ some (ps', w'))
      × Owns w₀ w' ps' (ss ++ user_params request n i)
unfolding append_rest
append_rest-Owns env request zero i w₀ w ps ss o =
    (ps, w, refl, subst (λ x. Owns w₀ w ps x) (sym (append-nil ss)) o)
append_rest-Owns env request (suc n) i w₀ w ps ss o =
    let (ps₁, w₁, first, o₁) = param_append-Owns w₀ w ps ss (request.rparam i) o in
    let (ps₂, w₂, rest, o₂) =
      append_rest-Owns env request n (suc i) w₀ w₁ ps₁ (appended ss (request.rparam i)) o₁ in
    (
      ps₂,
      w₂,
      ground (arith, first, rest),
      subst (λ x. Owns w₀ w₂ ps₂ x) (appended-append ss _ (request.rparam i)) o₂,
    )

-- The four kinds of key: a value of some type, or a discovery (`none`).
abbrev pub kind_word : Option ResultType → Text
kind_word (some ar_string) = bytes "string"
kind_word (some ar_uint64) = bytes "integer"
kind_word (some ar_double) = bytes "double"
kind_word none = bytes "discovery"

abbrev run_kind : Env → Option ResultType → Request → Text → PgParams → Cmd Bool
run_kind env (some type) request query ps = pg_get_result env request type query ps
run_kind env none request query ps = pg_get_discovery env request query ps

-- The flag and the reports that a kind makes of the result of its query.
abbrev pub Outcome : Env → Option ResultType → Text → PgResult → Bool → List Report → Type 0
Outcome env (some type) query r ok rs =
    (v : Option Text) × (rs₀ : List Report) × (scalar_spec env query r ≡ some (v, rs₀))
    × (result_spec env type v rs₀ ≡ some (ok, rs))
Outcome env none query r ok rs = IsTable r.fields r.rows × (discovery_spec env r ≡ (ok, rs))

-- The text of a query: that of the configuration, or else the parameter itself.
abbrev pub chosen : Option Text → Text → Text
chosen none given = given
chosen (some query) given = query
