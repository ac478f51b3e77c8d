-- ===== src/Config/Laws.antt =====
-- Module start-up: `init_config` on every configuration file, and look-ups behind it.
use libzbxpgsql.Base.{
  ◌≤◌, ◌≡◌, refl, Bool, true, false, Bool-cases, Option-cases, ◌∙◌, inl, inr, Option, none, some,
  List, [], ◌∷◌, Text, length, strncmp, bytes, is_eq, ◌&&◌, arith,
}
use mathlib.Core.List.{not-mem-nil}
use libzbxpgsql.Queries.{Queries, Setting, no_queries, get_query_by_name, read_config_queries}
use libzbxpgsql.Queries.Loaded.{Entry, entries, all_strings}
use libzbxpgsql.Queries.Search.{Answers}
use libzbxpgsql.Queries.Lookup.{read_config_queries_total, get_query_by_name-read_config_queries}
use libzbxpgsql.Config.{
  ReadFile, read_settings, read_config, get_pgconfigfile, init_config, default_pgconfigfile,
  max_globbing_path_length,
}

-- The entries of the last group; `start` if there is none.
abbrev pub file_entries : List Entry → List Setting → List Entry
file_entries start [] = start
file_entries start (node ∷ rest) = file_entries (entries node.elements) rest

-- The arrays answer each key by the entries `es`.
abbrev pub Serves : Queries → List Entry → Type 0
Serves q es =
    (key : Text) → (o : Option Text) × (get_query_by_name q key ≡ some o) × Answers key es o

-- The path is the value of PGCONFIGFILE, if it is set and at most 512 bytes long.
abbrev pub IsShort : Option Text → Type 0
IsShort none = Unit
IsShort (some path) = length path ≤ max_globbing_path_length

short_path :
    (freebsd : Bool) (p : Option Text)
    → IsShort p
    → (path : Text) × (get_pgconfigfile freebsd p ≡ some path)
unfolding get_pgconfigfile
short_path freebsd none h = (default_pgconfigfile freebsd, refl)
short_path freebsd (some path) h = (path, ground arith)

abbrev is_queries : Setting → Bool
is_queries node = is_eq (strncmp node.name (bytes "queries") 8)

settings_other :
    (q : Queries) (node : Setting) (rest : List Setting)
    → is_queries node ≡ false
    → read_settings q (node ∷ rest) ≡ some (q, false)
unfolding read_settings
settings_other q node rest h = rw (h, read_settings)

settings_bad :
    (q q₁ : Queries) (node : Setting) (rest : List Setting)
    → is_queries node ≡ true
    → read_config_queries q node ≡ some (q₁, false)
    → read_settings q (node ∷ rest) ≡ some (q₁, false)
unfolding read_settings
settings_bad q q₁ node rest h r = rw (h, read_settings, r)

settings_good :
    (q q₁ : Queries) (node : Setting) (rest : List Setting)
    → is_queries node ≡ true
    → read_config_queries q node ≡ some (q₁, true)
    → read_settings q (node ∷ rest) ≡ read_settings q₁ rest
unfolding read_settings
settings_good q q₁ node rest h r = rw (h, read_settings, r)

pub read_settings-Serves :
    (settings : List Setting) (q : Queries) (es : List Entry)
    → Serves q es
    → (q' : Queries) × (ok : Bool) × (read_settings q settings ≡ some (q', ok))
      × (ok ≡ true → Serves q' (file_entries es settings))
read_settings-Serves [] q es h = (q, true, unfold read_settings in refl, λ t. h)
read_settings-Serves (node ∷ rest) q es h = elim (Bool-cases (is_queries node)) [
  | inr other ↦ (q, false, settings_other q node rest other, λ t. cc)
  | inl named ↦
      let (q₁, read) = read_config_queries_total q node in
      elim (Bool-cases (node.is_group && all_strings node.elements)) [
        | inr bad ↦ (q₁, false, settings_bad q q₁ node rest named (rw bad at read), λ t. cc)
        | inl good ↦
            let read' : read_config_queries q node ≡ some (q₁, true) = rw good at read in
            let (q₂, ok, more, s) =
              read_settings-Serves rest q₁ (entries node.elements)
                (λ key. get_query_by_name-read_config_queries q q₁ node key read') in
            (q₂, ok, settings_good q q₁ node rest named read' ∙ more, s)
      ]
]

no_queries-Serves : Serves no_queries []
unfolding get_query_by_name
no_queries-Serves key = (none, refl, λ query. not-mem-nil)

-- With PGCONFIGFILE unset or of an admissible length the start-up is defined whatever the file
-- holds, and if it succeeds, every key finds a query that the file's last group gives under that
-- name, or NULL exactly if there is none.
pub init_config-Serves :
    (freebsd : Bool) (pgconfigfile : Option Text) (read_file : ReadFile)
    → IsShort pgconfigfile
    → (path : Text) × (q : Queries) × (ok : Bool) × (get_pgconfigfile freebsd pgconfigfile
        ≡ some path)
      × (init_config freebsd pgconfigfile read_file ≡ some (q, ok))
      × (ok ≡ true
          → (settings : List Setting) × (read_file path ≡ some settings)
            × Serves q (file_entries [] settings))
unfolding init_config read_config
init_config-Serves freebsd pgconfigfile read_file short =
    let (path, e) = short_path freebsd pgconfigfile short in
    elim (Option-cases (read_file path)) [
      | inl unreadable ↦ (path, no_queries, false, e, rw (e, unreadable, read_config), λ t. cc)
      | inr (settings, read) ↦
          let (q, ok, r, s) = read_settings-Serves settings no_queries [] no_queries-Serves in
          (path, q, ok, e, rw (e, read, read_config) r, λ t. (settings, read, s t))
    ]
