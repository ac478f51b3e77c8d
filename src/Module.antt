-- ===== src/Module.antt =====
-- src/libzbxpgsql.c and src/libzbxpgsql.h: the start and the end of the module, the function
-- pointers into the agent and the macro `zabbix_log` that calls through them.
-- `dlopen`, `dlsym` and the agent are not part of the program: what they find is an argument, and so
-- are the numbers of the log levels.
pub mod Laws
use libzbxpgsql.Base.{
  Text, ℕ, ltb, ◌==◌, Bool, true, false, ◌&&◌, ◌||◌, not, Option, none, some, List, if◌then◌else◌,
}
use libzbxpgsql.Queries.{Queries, no_queries}
use libzbxpgsql.Config.{ReadFile, init_config}
use libzbxpgsql.Metrics.{Metric, keys}

-- What `dlopen` and `dlsym` find in the Zabbix binary: `zabbix_check_log_level` with the levels on
-- which it returns SUCCEED, `zbx_log_level` with the value there, and whether the others are there.
pub record Symbols : Type 0 where
  pub handle : Bool
  pub check_log_level : Option (ℕ → Bool)
  pub log_level : Option ℕ
  pub log : Bool
  pub snprintf : Bool
  pub snprintf_old : Bool

-- `real_zabbix_check_log_level`, `real_zbx_log_level`, and whether `real_zabbix_log` and
-- `zbx_snprintf` are set.
pub record Pointers : Type 0 where
  pub real_check_log_level : Option (ℕ → Bool)
  pub real_log_level : Option ℕ
  pub real_log : Bool
  pub zbx_snprintf : Bool

-- the globals before the start
unfoldable pub null_pointers : Pointers
null_pointers = record {
  real_check_log_level = none;
  real_log_level = none;
  real_log = false;
  zbx_snprintf = false;
}

-- LOG_LEVEL_EMPTY, LOG_LEVEL_ERR and LOG_LEVEL_INFORMATION
pub record Levels : Type 0 where
  pub empty : ℕ
  pub err : ℕ
  pub information : ℕ

module _ (levels : Levels) where
  -- the two tests of `zabbix_log`, each of which leaves the macro
  unfoldable pub is_checked : Option (ℕ → Bool) → ℕ → Bool
  is_checked none level = true
  is_checked (some check) level = check level

  unfoldable pub is_within : Option ℕ → ℕ → Bool
  is_within none level = true
  is_within (some threshold) level =
      not (not (levels.information == level) && (ltb threshold level || levels.empty == level))

  -- The flag says whether the message reaches the agent; `none` is a call through NULL.
  unfoldable pub zabbix_log : Pointers → ℕ → Option Bool
  unfolding is_checked is_within
  zabbix_log pointers level =
      if not (is_checked pointers.real_check_log_level level)
      then some false
      else if not (is_within pointers.real_log_level level)
      then some false
      else if pointers.real_log
      then some true
      else none

  -- The flag is ZBX_MODULE_OK. The other arguments are those of `init_config`, which runs last.
  unfoldable pub zbx_module_init :
      Symbols → Bool → Option Text → ReadFile → Option ((Queries × Bool) × Pointers)
  unfolding zabbix_log null_pointers init_config
  zbx_module_init symbols freebsd pgconfigfile read_file = elim symbols.handle [
    | false ↦ some ((no_queries, false), null_pointers)
    | true ↦
        let pointers = record null_pointers {
          real_check_log_level = symbols.check_log_level;
          real_log_level = symbols.log_level;
          real_log = symbols.log;
        } in
        elim symbols.log [
          | false ↦ some ((no_queries, false), pointers)
          | true ↦ elim (symbols.snprintf || symbols.snprintf_old) [
            | false ↦ elim (zabbix_log pointers levels.err) [
              | none ↦ none
              | some logged ↦ some ((no_queries, false), pointers)
            ]
            | true ↦ elim (init_config freebsd pgconfigfile read_file) [
              | none ↦ none
              | some outcome ↦ some (outcome, record pointers { zbx_snprintf = true })
            ]
          ]
        ]
  ]

-- `uninit_config` returns EXIT_SUCCESS, which is 0.
unfoldable pub uninit_config : ℕ
uninit_config = 0

unfoldable pub zbx_module_uninit : ℕ
unfolding uninit_config
zbx_module_uninit = uninit_config

unfoldable pub zbx_module_item_list : List Metric
unfolding keys
zbx_module_item_list = keys
