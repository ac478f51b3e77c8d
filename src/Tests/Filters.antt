-- ===== src/Tests/Filters.antt =====
-- src/pg_backends.c, the table of src/libzbxpgsql.c and the numbers on concrete inputs.
use libzbxpgsql.Base.{
  ◌≡◌, ◌≢◌, ◌↔◌, refl, true, false, none, some, [], ◌∷◌, ◌++◌, All, bytes, get_elem?, ltb, ◌-◌,
  if◌then◌else◌, arith,
}
use libzbxpgsql.Query.{ar_uint64, set_result}
use libzbxpgsql.Query.Scalar.{set_result-decimal}
use libzbxpgsql.Runtime.{ui64, Env, World, Request, PgResult}
use libzbxpgsql.Params.{PgParams}
use libzbxpgsql.Params.Owned.{Owns}
use libzbxpgsql.Numbers.{u64, strtoull, is_oid}
use libzbxpgsql.Numbers.Laws.{IsDigit, decimal, is_oid-IsDigit}
use libzbxpgsql.Items.Backends.{build_activity_clause}
use libzbxpgsql.Items.Backends.Laws.{
  filters, filters_text, waiting_text, state, build_activity_clause-filters_text,
}

abbrev no_rows : PgResult
no_rows = record { tuples_ok = true; error_message = []; fields = []; rows = [] }

abbrev empty_server : Env
empty_server = record {
  connect = λ h c. none;
  execute = λ h c q ss. no_rows;
  clip = λ n s. s;
  max_string_len = 2048;
  strtod = λ s. none;
  inet4 = λ s. false;
  inet6 = λ s. false;
  json = λ calls. [];
  package_string = [];
  zabbix_version = [];
}

-- A filter by the database 5 and by the user bob, of backends that wait.
abbrev request : Request
request = record {
  key = bytes "pg.backends.count";
  nparam = 6;
  rparam = λ i. get_elem? ([] ∷ [] ∷ bytes "5" ∷ bytes "bob" ∷ [] ∷ bytes "true" ∷ []) i;
}

abbrev idle : World
idle = record { next = 0; heap = λ p. none; reports = []; history = [] }

filters_text_lem : filters_text empty_server request ≡ bytes " AND datid = $1 AND usename = $2"
unfolding is_oid
filters_text_lem = refl

build_activity_clause-filters_text_example :
    (ps : PgParams) × (w' : World) × (build_activity_clause empty_server request true idle
      ≡ some (
        (
          true,
          state
              (filters_text empty_server request ++ waiting_text (some true))
              (filters empty_server request)
              ps,
        ),
        w',
      ))
    × Owns idle w' ps (filters empty_server request)
build_activity_clause-filters_text_example =
    build_activity_clause-filters_text empty_server request (λ n s l. refl) (some true) idle
      (λ p l. refl) refl

is_oid-IsDigit_example :
    (is_oid (bytes "12") ≡ true) ↔ ((bytes "12" ≢ []) × All IsDigit (bytes "12"))
is_oid-IsDigit_example = is_oid-IsDigit (bytes "12")

set_result-decimal_example :
    set_result empty_server ar_uint64 (bytes "42") idle
    ≡ some (
      tt,
      record idle {
        reports =
            ui64 (if ltb (decimal 0 (bytes "42")) u64 then decimal 0 (bytes "42") else u64 - 1)
            ∷ [];
      },
    )
set_result-decimal_example = set_result-decimal empty_server idle b'4' (bytes "2") (omega arith)

-- A negative number wraps around, and an exponent without a point in front of it is not read.
strtoull_negative : strtoull (bytes "-1") ≡ 18446744073709551615
unfolding strtoull
strtoull_negative = refl

strtoull_exponent : strtoull (bytes "1e+06") ≡ 1
unfolding strtoull
strtoull_exponent = refl
