-- ===== src/Tests/Statistics.antt =====
-- src/pg_database.c and the handlers like it on a concrete server.
use libzbxpgsql.Base.{refl, true, false, none, some, [], ◌∷◌, bytes, get_elem?, strisnull}
use libzbxpgsql.Runtime.{Env, World, Request, PgResult}
use libzbxpgsql.Query.{ar_uint64}
use libzbxpgsql.Query.Laws.{scalar_spec}
use libzbxpgsql.Query.Scalar.{Ends, result_spec}
use libzbxpgsql.Items.{by_filter}
use libzbxpgsql.Items.Laws.{by_filter-Asks}
use libzbxpgsql.Items.Database.{pg_stat_database}
use libzbxpgsql.Items.Database.Laws.{stat_type, stat_query, pg_stat_database-Asks}

abbrev one_value : PgResult
one_value = record {
  tuples_ok = true;
  error_message = [];
  fields = bytes "numbackends" ∷ [];
  rows = (bytes "3" ∷ []) ∷ [];
}

abbrev statistics_server : Env
statistics_server = record {
  connect = λ h c. none;
  execute = λ h c q ss. one_value;
  clip = λ n s. s;
  max_string_len = 2048;
  strtod = λ s. none;
  inet4 = λ s. false;
  inet6 = λ s. false;
  json = λ calls. [];
  package_string = [];
  zabbix_version = [];
}

abbrev database_request : Request
database_request = record {
  key = bytes "pg.db.numbackends";
  nparam = 3;
  rparam = λ i. get_elem? ([] ∷ [] ∷ bytes "shop" ∷ []) i;
}

abbrev no_blocks : World
no_blocks = record { next = 0; heap = λ p. none; reports = []; history = [] }

pg_stat_database-Asks_example :
    Ends database_request
      (stat_query statistics_server (bytes "numbackends"))
      none
      (bytes "shop" ∷ [])
      no_blocks
      (pg_stat_database statistics_server database_request no_blocks)
      (result_spec statistics_server (stat_type (bytes "numbackends")) (some (bytes "3")) [])
unfolding scalar_spec
pg_stat_database-Asks_example =
    pg_stat_database-Asks statistics_server database_request (bytes "numbackends") b's'
      (bytes "hop") no_blocks refl refl (some (bytes "3")) [] (tt, tt) (λ p l. refl) refl refl

by_filter-Asks_example :
    Ends database_request
      (bytes "SELECT $1")
      none
      (bytes "shop" ∷ [])
      no_blocks
      (by_filter statistics_server database_request ar_uint64
        (bytes "SELECT 1")
        (bytes "SELECT $1")
        no_blocks)
      (result_spec statistics_server ar_uint64 (some (bytes "3")) [])
unfolding scalar_spec strisnull
by_filter-Asks_example =
    by_filter-Asks statistics_server database_request ar_uint64 (bytes "SELECT 1")
      (bytes "SELECT $1") no_blocks (tt, tt) (λ p l. refl) refl (some (bytes "3")) [] refl
