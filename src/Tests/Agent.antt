-- ===== src/Tests/Agent.antt =====
-- The requests of src/pg_query.c, src/libzbxpgsql.c and src/pg_discovery.c on a concrete server.
use libzbxpgsql.Base.{
  ◌≡◌, refl, true, false, none, some, [], ◌∷◌, ◌++◌, Text, bytes, get_elem?, ◌==◌, if◌then◌else◌,
  arith,
}
use libzbxpgsql.Runtime.{Env, World, Request, PgResult, params, str}
use libzbxpgsql.Params.{PgParams, param_append}
use libzbxpgsql.Params.Laws.{
  IsParams, IsFresh, Frees, Keeps, array, appended, param_append-IsParams,
}
use libzbxpgsql.Connect.{pg_connect}
use libzbxpgsql.Connect.Laws.{refusal_of, pg_connect-doubled}
use libzbxpgsql.Connect.Formats.{doubled, IsEnding}
use libzbxpgsql.Query.{ar_uint64, pg_scalar, pg_get_result}
use libzbxpgsql.Query.Laws.{scalar_spec}
use libzbxpgsql.Query.Exchange.{Asks}
use libzbxpgsql.Query.Scalar.{Ends, result_spec, pg_scalar-Asks, pg_get_result-result_spec}
use libzbxpgsql.Discovery.{document, pg_get_discovery, pg_get_discovery_wide}
use libzbxpgsql.Discovery.Laws.{discovery_spec, pg_get_discovery-discovery_spec}
use libzbxpgsql.Discovery.Wide.{all_objects, all_asked, listed, pg_get_discovery_wide-all_objects}

abbrev pub query : Text
query = bytes "SELECT $1"

abbrev pub one_row : PgResult
one_row = record {
  tuples_ok = true;
  error_message = [];
  fields = bytes "x" ∷ [];
  rows = (bytes "7" ∷ []) ∷ [];
}

-- A server that accepts every connection, and answers every query with one row.
abbrev pub server : Env
server = record {
  connect = λ h c. none;
  execute = λ h c q ss. one_row;
  clip = λ n s. s;
  max_string_len = 2048;
  strtod = λ s. none;
  inet4 = λ s. false;
  inet6 = λ s. false;
  json = λ calls. bytes "{}";
  package_string = bytes "libzbxpgsql 1.1.0";
  zabbix_version = bytes "3.0.0";
}

-- One that refuses every connection.
abbrev down : Text → Env
down message = record server { connect = λ h c. some message }

abbrev pub request : Request
request = record {
  key = bytes "pg.query.integer";
  nparam = 5;
  rparam = λ i. get_elem? (bytes "host=a" ∷ [] ∷ query ∷ bytes "7" ∷ [] ∷ []) i;
}

-- The memory holds one array, with one string.
abbrev pub memory : World
memory = record {
  next = 1;
  heap = λ p. if p == 0 then some (params (array (bytes "7" ∷ []))) else none;
  reports = [];
  history = [];
}

pub memory-IsFresh : IsFresh memory
memory-IsFresh p l = ground arith

pg_scalar-Asks_example :
    (w' : World) × (pg_scalar server request query (some 0) memory ≡ some (some (bytes "7"), w'))
    × Asks request query (some 0) (bytes "7" ∷ []) [] memory w'
unfolding scalar_spec
pg_scalar-Asks_example =
    pg_scalar-Asks server memory request query (some 0) (bytes "7" ∷ []) (omega arith, tt)
      memory-IsFresh refl (some (bytes "7")) [] refl refl

pg_get_result-result_spec_example :
    Ends request query
      (some 0)
      (bytes "7" ∷ [])
      memory
      (pg_get_result server request ar_uint64 query (some 0) memory)
      (result_spec server ar_uint64 (some (bytes "7")) [])
unfolding scalar_spec
pg_get_result-result_spec_example =
    pg_get_result-result_spec server memory request query (some 0) (bytes "7" ∷ [])
      (omega arith, tt) memory-IsFresh refl ar_uint64 (some (bytes "7")) [] refl refl

pg_get_discovery-discovery_spec_example :
    (w' : World) × (pg_get_discovery server request query (some 0) memory
      ≡ some ((discovery_spec server one_row).0, w'))
    × Asks request query (some 0) (bytes "7" ∷ []) (discovery_spec server one_row).1 memory w'
pg_get_discovery-discovery_spec_example =
    pg_get_discovery-discovery_spec server memory request query (some 0) (bytes "7" ∷ [])
      (omega arith, tt) memory-IsFresh refl refl (refl, tt)

pg_get_discovery_wide-all_objects_example :
    (w' : World) × (pg_get_discovery_wide server request query none memory ≡ some (true, w'))
    × Frees none memory w'
    × (w'.reports
        ≡ str (
            document server (all_objects server request query (listed request []) (bytes "7" ∷ [])))
          ∷ [])
    × (w'.history ≡ all_asked request query (listed request []) (bytes "7" ∷ []))
pg_get_discovery_wide-all_objects_example =
    pg_get_discovery_wide-all_objects server request query memory (bytes "7" ∷ []) (omega arith, tt)
      memory-IsFresh refl (refl, refl, (ground arith), ((omega arith, ground arith), tt))
      (refl, refl, (refl, tt), tt)

param_append-IsParams_example :
    (ps' : PgParams) × (w' : World) × (param_append (some 0) (some (bytes "8")) memory
      ≡ some (ps', w'))
    × IsParams w' ps' (appended (bytes "7" ∷ []) (some (bytes "8")))
    × Keeps memory (some 0) w'
param_append-IsParams_example =
    param_append-IsParams memory (some 0) (bytes "7" ∷ []) (some (bytes "8")) refl memory-IsFresh

pg_connect-doubled_example :
    (text : Text) × (rest : Text) × (bytes "role %s" ≡ doubled text ++ rest)
    × IsEnding rest
    × (pg_connect (down (bytes "role %s")) (bytes "dbname=") true memory
        ≡ refusal_of (down (bytes "role %s")) memory (bytes "dbname=") true text rest)
pg_connect-doubled_example =
    pg_connect-doubled (down (bytes "role %s")) memory (bytes "dbname=") true (bytes "role %s") refl
