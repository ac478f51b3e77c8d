-- ===== src/Query/Scalar.antt =====
-- `pg_scalar` and `pg_get_result` around their connection and their query.
use libzbxpgsql.Base.{
  ◌≡◌, refl, ap, ◌∙◌, Bool, true, false, Option, Option-cases, inl, inr, none, some, List, ◌∷◌,
  Text, if◌then◌else◌, arith,
}
use libzbxpgsql.Runtime.{Env, World, Request, Report, ui64, dbl, str, report}
use libzbxpgsql.Params.{PgParams}
use libzbxpgsql.Params.Laws.{IsParams, IsFresh}
use libzbxpgsql.Connect.Laws.{request_connstring, IsTextRequest}
use libzbxpgsql.Query.{
  ResultType, ar_string, ar_uint64, ar_double, scalar_of, pg_scalar, is_e_notation, set_result,
  pg_get_result, double_u64,
}
use libzbxpgsql.Numbers.{u64, strtoull}
use libzbxpgsql.Numbers.Laws.{IsDigit, decimal, strtoull-decimal}
use libzbxpgsql.Base.{ℕ, [], All, ltb, ◌-◌}
use libzbxpgsql.Query.Exchange.{answered, Asks, exchange, exchange-Asks}
use libzbxpgsql.Query.Laws.{scalar_spec, scalar_of-scalar_spec}

module _ (env : Env) (w : World) (request : Request) (query : Text) (ps : PgParams) (ss : List Text)
    (text_ok : IsTextRequest request) (f : IsFresh w) (h : IsParams w ps ss) where
  pg_scalar-exchange :
      pg_scalar env request query ps w ≡ exchange env request query ps none (scalar_of env query) w
  unfolding pg_scalar
  pg_scalar-exchange = refl

  -- On a connection that the server accepts, where the result can be read, `pg_scalar` asks its
  -- query once with the parameters, returns the value or the failure that the result stands for
  -- with its message, and gives the connection, the result and the parameters back.
  pub pg_scalar-Asks :
      (v : Option Text) (rs : List Report)
      → scalar_spec env query (answered env w request query ss) ≡ some (v, rs)
      → env.connect w.history (request_connstring request) ≡ none
      → (w' : World) × (pg_scalar env request query ps w ≡ some (v, w'))
        × Asks request query ps ss rs w w'
  pg_scalar-Asks v rs e accepted = rw pg_scalar-exchange (
      exchange-Asks env w request query ps ss none (scalar_of env query) text_ok f h v rs accepted
        (scalar_of-scalar_spec env query (answered env w request query ss) _ ∙ ground (arith, e)))

-- What `pg_get_result` sets for a value.
abbrev integer_report : Option ℕ → Option Report
integer_report none = none
integer_report (some n) = some (ui64 n)

abbrev pub integer_value : Env → Text → Option ℕ
integer_value env v = if is_e_notation env v then double_u64 (env.strtod v) else some (strtoull v)

-- Undefined where a double is out of the range of its conversion.
abbrev pub value_report : Env → ResultType → Text → Option Report
value_report env ar_string v = some (str v)
value_report env ar_double v = some (dbl v)
value_report env ar_uint64 v = integer_report (integer_value env v)

abbrev pub set_spec : Option Report → List Report → Option (Bool × List Report)
set_spec none rs = none
set_spec (some r) rs = some (true, r ∷ rs)

-- What `pg_get_result` returns and sets for a result.
abbrev pub result_spec : Env → ResultType → Option Text → List Report → Option (Bool × List Report)
result_spec env type none rs = some (false, rs)
result_spec env type (some v) rs = set_spec (value_report env type v) rs

-- A call is undefined, or it returns, sets the reports, asks the query and gives every block back.
abbrev pub Ends :
    Request
    → Text
    → PgParams
    → List Text
    → World
    → Option (Bool × World)
    → Option (Bool × List Report)
    → Type 0
Ends request query ps ss w run none = run ≡ none
Ends request query ps ss w run (some (ok, rs)) =
    (w' : World) × (run ≡ some (ok, w')) × Asks request query ps ss rs w w'

abbrev pub told : Option Report → World → Option (Unit {0} × World)
told none w = none
told (some r) w = some (tt, record w { reports = r ∷ w.reports })

pub set_result-value_report :
    (env : Env) (type : ResultType) (v : Text) (w : World)
    → set_result env type v w ≡ told (value_report env type v) w
unfolding set_result report
set_result-value_report env ar_string v w = refl
set_result-value_report env ar_double v w = refl
set_result-value_report env ar_uint64 v w = elim (Option-cases (integer_value env v)) [
  | inl e ↦ ground (arith, e)
  | inr (n, e) ↦ ground (arith, e)
]

module _ (env : Env) (w : World) (request : Request) (query : Text) (ps : PgParams) (ss : List Text)
    (text_ok : IsTextRequest request) (f : IsFresh w) (h : IsParams w ps ss) where
  -- On a connection that the server accepts, where the result can be read, `pg_get_result` asks its
  -- query once, gives every block back, and sets the value of the first row in the type asked for
  -- and succeeds, or sets the message of the failure and fails. It is undefined for an integer that
  -- is read as a double which has no conversion.
  pub pg_get_result-result_spec :
      (type : ResultType) (v : Option Text) (rs : List Report)
      → scalar_spec env query (answered env w request query ss) ≡ some (v, rs)
      → env.connect w.history (request_connstring request) ≡ none
      → Ends request query ps ss w
          (pg_get_result env request type query ps w)
          (result_spec env type v rs)
  unfolding pg_get_result
  pg_get_result-result_spec type none rs e accepted =
      let (w', runs, asks) =
        pg_scalar-Asks env w request query ps ss text_ok f h none rs e accepted in
      (w', ground (arith, runs), asks)
  pg_get_result-result_spec type (some v) rs e accepted =
      let (w', runs, asks) =
        pg_scalar-Asks env w request query ps ss text_ok f h (some v) rs e accepted in
      sets w' runs asks (value_report env type v) (set_result-value_report env type v w')
    where
      sets :
          (w' : World)
          → pg_scalar env request query ps w ≡ some (some v, w')
          → Asks request query ps ss rs w w'
          → (x : Option Report) → set_result env type v w' ≡ told x w'
          → Ends request query ps ss w (pg_get_result env request type query ps w) (set_spec x rs)
      sets w' runs asks none s = ground (arith, runs, s)
      sets w' runs asks (some r) s = (
        record w' { reports = r ∷ w'.reports },
        ground (arith, runs, s),
        record {
          memory = record { heap = asks.memory.heap; grows = asks.memory.grows };
          reports = ap (◌∷◌ r) asks.reports;
          history = asks.history;
        },
      )

IsDigit-is_e_notation :
    (env : Env) (c : ℕ) (s : Text) → All IsDigit (c ∷ s) → is_e_notation env (c ∷ s) ≡ false
unfolding is_e_notation
IsDigit-is_e_notation env c [] h = refl
IsDigit-is_e_notation env c (d ∷ s) h = ground (arith, h.1.0)

-- On a text of digits the integer that `pg_get_result` sets is the number they stand for, and
-- 2 ^ 64 - 1 past the range.
pub set_result-decimal :
    (env : Env) (w : World) (c : ℕ) (s : Text)
    → All IsDigit (c ∷ s)
    → set_result env ar_uint64 (c ∷ s) w
      ≡ some (
        tt,
        record w {
          reports =
              ui64 (if ltb (decimal 0 (c ∷ s)) u64 then decimal 0 (c ∷ s) else u64 - 1) ∷ w.reports;
        },
      )
unfolding set_result report
set_result-decimal env w c s h = rw (IsDigit-is_e_notation env c s h, strtoull-decimal c s h) refl
