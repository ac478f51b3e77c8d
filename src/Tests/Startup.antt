-- ===== src/Tests/Startup.antt =====
-- src/pg_connect.c and src/pg_config.c on concrete inputs.
use libzbxpgsql.Base.{
  ◌≡◌, refl, Bool, true, false, Option, none, some, List, [], ◌∷◌, ◌++◌, Text, bytes, strcmp,
  strncmp, strisnull, arith, ◌>>=◌ as bind,
}
use libzbxpgsql.Buffer.{strcat2, read_string}
use libzbxpgsql.Connstring.{build_connstring}
use libzbxpgsql.Connstring.Laws.{connstring_for, build_connstring-connstring_for}
use libzbxpgsql.Databases.{multi_string, databases}
use libzbxpgsql.Databases.Laws.{databases-multi_string}
use libzbxpgsql.Queries.{Queries, Setting, no_queries, get_query_by_name, read_config_queries}
use libzbxpgsql.Queries.Loaded.{entries}
use libzbxpgsql.Queries.Search.{Answers}
use libzbxpgsql.Queries.Lookup.{get_query_by_name-read_config_queries}
use libzbxpgsql.Module.{Symbols, Levels, zbx_module_init}
use libzbxpgsql.Module.Laws.{Outcome, zbx_module_init-Outcome}
use libzbxpgsql.Config.{ReadFile, get_pgconfigfile, init_config}
use libzbxpgsql.Config.Laws.{Serves, file_entries, init_config-Serves}

build_connstring_both :
    build_connstring (some (bytes "host=a")) (some (bytes "db1")) ≡ some (bytes "host=a dbname=db1")
unfolding build_connstring strcat2 strisnull read_string
build_connstring_both = refl

build_connstring_null : build_connstring none none ≡ some (bytes "dbname=")
unfolding build_connstring strcat2 strisnull read_string
build_connstring_null = refl

build_connstring-connstring_for_example :
    build_connstring (some (bytes "host=a")) (some (bytes "db1"))
    ≡ some (connstring_for (some (bytes "host=a")) (some (bytes "db1")))
build_connstring-connstring_for_example =
    build_connstring-connstring_for (some (bytes "host=a")) (some (bytes "db1")) (omega arith)
      (omega arith)

abbrev names : List Text
names = bytes "postgres" ∷ bytes "a" ∷ []

multi_string_two : multi_string names ≡ some (bytes "postgres" ++ 0 ∷ bytes "a" ++ 0 ∷ 0 ∷ [])
unfolding multi_string strcat2
multi_string_two = refl

databases-multi_string_example : bind (multi_string names) databases ≡ some names
databases-multi_string_example =
    databases-multi_string names ((omega arith, λ e. cc), ((omega arith, λ e. cc), tt))

abbrev group : Setting
group = record {
  name = bytes "queries";
  is_group = true;
  elements =
      record { name = bytes "two"; string = some (bytes "SELECT 2") }
      ∷ record { name = bytes "one"; string = some (bytes "SELECT 1") }
      ∷ record { name = bytes "three"; string = some (bytes "SELECT 3") }
      ∷ [];
}

abbrev loaded : Queries
loaded = record {
  keys = some (bytes "one") ∷ some (bytes "three") ∷ some (bytes "two") ∷ none ∷ [];
  values = some (bytes "SELECT 1") ∷ some (bytes "SELECT 3") ∷ some (bytes "SELECT 2") ∷ none ∷ [];
  count = 3;
}

read_config_queries_three : read_config_queries no_queries group ≡ some (loaded, true)
unfolding read_config_queries strcmp
read_config_queries_three = refl

get_query_by_name_three : get_query_by_name loaded (bytes "two") ≡ some (some (bytes "SELECT 2"))
unfolding get_query_by_name strcmp
get_query_by_name_three = refl

get_query_by_name-read_config_queries_example :
    (o : Option Text) × (get_query_by_name loaded (bytes "three") ≡ some o)
    × Answers (bytes "three") (entries group.elements) o
get_query_by_name-read_config_queries_example =
    get_query_by_name-read_config_queries no_queries loaded group (bytes "three")
      read_config_queries_three

abbrev read_file : ReadFile
read_file path = some (group ∷ [])

init_config-Serves_example :
    (path : Text) × (q : Queries) × (ok : Bool) × (get_pgconfigfile false
        (some (bytes "/tmp/q.conf"))
      ≡ some path)
    × (init_config false (some (bytes "/tmp/q.conf")) read_file ≡ some (q, ok))
    × (ok ≡ true
        → (settings : List Setting) × (read_file path ≡ some settings)
          × Serves q (file_entries [] settings))
init_config-Serves_example =
    init_config-Serves false (some (bytes "/tmp/q.conf")) read_file (omega arith)

init_config_ok : init_config false none read_file ≡ some (loaded, true)
unfolding init_config read_config_queries strcmp strncmp
init_config_ok = refl

-- An agent that has `zbx_log_level` and the newer `zbx_snprintf`.
abbrev agent : Symbols
agent = record {
  handle = true;
  check_log_level = none;
  log_level = some 3;
  log = true;
  snprintf = true;
  snprintf_old = false;
}

abbrev levels : Levels
levels = record { empty = 0; err = 2; information = 127 }

zbx_module_init-Outcome_example :
    Outcome levels true
      (init_config false none (λ path. some []))
      (zbx_module_init levels agent false none (λ path. some []))
      agent
zbx_module_init-Outcome_example = zbx_module_init-Outcome levels false none (λ path. some []) agent
