-- ===== src/Module/Laws.antt =====
-- What stands after the start of the module.
use libzbxpgsql.Base.{
  Text, leb, not, ◌==◌, if◌then◌else◌, ℕ, ◌≡◌, refl, Bool, true, false, ◌||◌, ◌&&◌, Option, none,
  some, arith,
}
use libzbxpgsql.Queries.{Queries, no_queries}
use libzbxpgsql.Config.{ReadFile, init_config}
use libzbxpgsql.Module.{
  Symbols, Pointers, Levels, null_pointers, is_checked, is_within, zabbix_log, zbx_module_init,
}

module _ (levels : Levels) where
  -- A message of level EMPTY is dropped where the agent has a threshold, and one of level
  -- INFORMATION never is for it; the others up to the threshold pass.
  abbrev pub passes_threshold : Option ℕ → ℕ → Bool
  passes_threshold none level = true
  passes_threshold (some threshold) level =
      if level == levels.information
      then true
      else if level == levels.empty
      then false
      else leb level threshold

  abbrev pub passes_check : Option (ℕ → Bool) → ℕ → Bool
  passes_check none level = true
  passes_check (some check) level = check level

  -- Whether a message of a level passes both tests.
  abbrev pub passes : Symbols → ℕ → Bool
  passes symbols level =
      passes_check symbols.check_log_level level && passes_threshold symbols.log_level level

  is_checked-passes_check :
      (check : Option (ℕ → Bool)) (level : ℕ)
      → is_checked levels check level ≡ passes_check check level
  unfolding is_checked
  is_checked-passes_check none level = refl
  is_checked-passes_check (some check) level = refl

  is_within-passes_threshold :
      (threshold : Option ℕ) (level : ℕ)
      → is_within levels threshold level ≡ passes_threshold threshold level
  unfolding is_within
  is_within-passes_threshold none level = refl
  is_within-passes_threshold (some threshold) level = ground arith

  abbrev pub has_symbols : Symbols → Bool
  has_symbols symbols = symbols.handle && symbols.log && (symbols.snprintf || symbols.snprintf_old)

  -- What a start comes to: the configuration's outcome where the symbols are there, and else a failure
  -- with no queries.
  abbrev pub Outcome :
      Bool → Option (Queries × Bool) → Option ((Queries × Bool) × Pointers) → Symbols → Type 0
  Outcome false config none symbols = ⊥
  Outcome false config (some (outcome, pointers)) symbols = outcome ≡ (no_queries, false)
  Outcome true config none symbols = config ≡ none
  Outcome true config (some (outcome, pointers)) symbols =
      (config ≡ some outcome)
      × (pointers.zbx_snprintf ≡ true)
      × ((level : ℕ) → zabbix_log levels pointers level ≡ some (passes symbols level))

  logs :
      (pointers : Pointers) (symbols : Symbols) (level : ℕ)
      → pointers.real_log ≡ true
      → pointers.real_check_log_level ≡ symbols.check_log_level
      → pointers.real_log_level ≡ symbols.log_level
      → zabbix_log levels pointers level ≡ some (passes symbols level)
  unfolding zabbix_log
  logs pointers symbols level set check threshold =
      rw (set, check, threshold)
        (tested (is_checked levels symbols.check_log_level level)
          (is_within levels symbols.log_level level) (passes_check symbols.check_log_level level)
          (passes_threshold symbols.log_level level)
          (is_checked-passes_check symbols.check_log_level level)
          (is_within-passes_threshold symbols.log_level level))
    where
      tested :
          (a b a' b' : Bool)
          → a ≡ a'
          → b ≡ b'
          → (if not a then some false else if not b then some false else some true)
            ≡ some (a' && b')
      tested true true a' b' e e' = ground (arith, e, e')
      tested true false a' b' e e' = ground (arith, e, e')
      tested false b a' b' e e' = ground (arith, e, e')

  abbrev pointers_to : Symbols → Bool → Pointers
  pointers_to symbols snprintf = record {
    real_check_log_level = symbols.check_log_level;
    real_log_level = symbols.log_level;
    real_log = true;
    zbx_snprintf = snprintf;
  }

  configured :
      (symbols : Symbols) (config : Option (Queries × Bool))
      → Outcome true config
          (elim config [ none ↦ none | some outcome ↦ some (outcome, pointers_to symbols true) ])
          symbols
  configured symbols none = refl
  configured symbols (some outcome) =
      (refl, refl, λ level. logs (pointers_to symbols true) symbols level refl refl refl)

  complained :
      (symbols : Symbols) (config : Option (Queries × Bool))
      → Outcome false config
          (elim (zabbix_log levels (pointers_to symbols false) levels.err) [
            | none ↦ none
            | some logged ↦ some ((no_queries, false), pointers_to symbols false)
          ])
          symbols
  complained symbols config =
      rw (logs (pointers_to symbols false) symbols levels.err refl refl refl) refl

  abbrev symbols_of :
      (handle log snprintf snprintf_old : Bool) → Option (ℕ → Bool) → Option ℕ → Symbols
  symbols_of handle log snprintf snprintf_old check threshold = record {
    handle = handle;
    check_log_level = check;
    log_level = threshold;
    log = log;
    snprintf = snprintf;
    snprintf_old = snprintf_old;
  }

  module _ (freebsd : Bool) (pgconfigfile : Option Text) (read_file : ReadFile) where
    abbrev config : Option (Queries × Bool)
    config = init_config freebsd pgconfigfile read_file

    abbrev start : Symbols → Option ((Queries × Bool) × Pointers)
    start symbols = zbx_module_init levels symbols freebsd pgconfigfile read_file

    every_start :
        (handle log snprintf snprintf_old : Bool) (check : Option (ℕ → Bool)) (threshold : Option ℕ)
        → Outcome
            (has_symbols (symbols_of handle log snprintf snprintf_old check threshold))
            config
            (start (symbols_of handle log snprintf snprintf_old check threshold))
            (symbols_of handle log snprintf snprintf_old check threshold)
    unfolding zbx_module_init null_pointers
    every_start false log snprintf snprintf_old check threshold = refl
    every_start true false snprintf snprintf_old check threshold = refl
    every_start true true true snprintf_old check threshold =
        configured (symbols_of true true true snprintf_old check threshold) config
    every_start true true false true check threshold =
        configured (symbols_of true true false true check threshold) config
    every_start true true false false check threshold =
        complained (symbols_of true true false false check threshold) config

    -- The start of the module succeeds with what `init_config` returns if the handle, the log and
    -- one of the two functions for `zbx_snprintf` are found, and is undefined only if
    -- `init_config` is; else it fails with no queries. After it has come to `init_config`,
    -- `zbx_snprintf` is set and `zabbix_log` never calls through NULL: it logs exactly the levels
    -- that the function for the level accepts, if there is one, and that are up to the threshold
    -- and not EMPTY, or INFORMATION, if there is a threshold.
    pub zbx_module_init-Outcome :
        (symbols : Symbols)
        → Outcome
            (has_symbols symbols)
            (init_config freebsd pgconfigfile read_file)
            (zbx_module_init levels symbols freebsd pgconfigfile read_file)
            symbols
    zbx_module_init-Outcome symbols =
        every_start symbols.handle symbols.log symbols.snprintf symbols.snprintf_old
          symbols.check_log_level symbols.log_level
