-- ===== src/Config.antt =====
-- src/pg_config.c: the configuration file, from its path to the named queries.
-- `getenv` and libconfig are not part of the program: the value of PGCONFIGFILE and what
-- `config_read_file` makes of a path are arguments.
pub mod Laws
use libzbxpgsql.Base.{
  ℕ, ltb, Bool, true, false, Option, none, some, List, [], ◌∷◌, Text, bytes, length, strncmp, is_eq,
  if◌then◌else◌, ◌>>=◌,
}
use libzbxpgsql.Queries.{Queries, Setting, no_queries, read_config_queries}

abbrev pub max_globbing_path_length : ℕ
max_globbing_path_length = 512

-- DEFAULT_PGCONFIGFILE, which depends on the platform
unfoldable pub default_pgconfigfile : Bool → Text
default_pgconfigfile freebsd =
    if freebsd
    then bytes "/usr/local/etc/zabbix/libzbxpgsql.conf"
    else bytes "/etc/zabbix/libzbxpgsql.conf"

-- `none` is NULL, for a path that is too long
unfoldable pub get_pgconfigfile : Bool → Option Text → Option Text
get_pgconfigfile freebsd none = some (default_pgconfigfile freebsd)
get_pgconfigfile freebsd (some path) =
    if ltb max_globbing_path_length (length path) then none else some path

-- The root settings of the file, `none` where `config_read_file` does not return CONFIG_TRUE.
abbrev pub ReadFile : Type 0
ReadFile = Text → Option (List Setting)

-- The loop of `read_config` over the settings at the root.
unfoldable pub read_settings : Queries → List Setting → Option (Queries × Bool)
read_settings q [] = some (q, true)
read_settings q (node ∷ rest) = elim (is_eq (strncmp node.name (bytes "queries") 8)) [
  | true ↦ do
    (q', ok) ← read_config_queries q node
    elim ok [ true ↦ read_settings q' rest | false ↦ some (q', false) ]
  | false ↦ some (q, false)
]

-- A path that is NULL must not be passed to `config_read_file`: the call is undefined.
unfoldable pub read_config : ReadFile → Queries → Option Text → Option (Queries × Bool)
unfolding read_settings
read_config read_file q none = none
read_config read_file q (some cfgfile) = elim (read_file cfgfile) [
  | none ↦ some (q, false)
  | some settings ↦ read_settings q settings
]

-- The flag is ZBX_MODULE_OK.
unfoldable pub init_config : Bool → Option Text → ReadFile → Option (Queries × Bool)
unfolding read_config get_pgconfigfile
init_config freebsd pgconfigfile read_file =
    read_config read_file no_queries (get_pgconfigfile freebsd pgconfigfile)
