-- ===== src/Service/Shapes.antt =====
-- The shapes that the handlers share carry out the plans that the table gives for them.
use libzbxpgsql.Base.{
  ℕ, leb, length, drop, refl, Bool, true, false, ◌||◌, Bool-cases, inl, inr, Option, none, some,
  List, [], ◌∷◌, Text, bytes, printf, same, strcmp, strisnull, if◌then◌else◌,
}
use libzbxpgsql.Runtime.{Env, Request, Report, Cmd, pure, ◌>>=◌, ◌>>◌, report}
use libzbxpgsql.Params.{PgParams, param_new}
use libzbxpgsql.Params.Laws.{appended}
use libzbxpgsql.Connect.{param_first, set_err_result}
use libzbxpgsql.Connect.Laws.{IsTextRequest}
use libzbxpgsql.Query.{ResultType, ar_double, pg_get_result, pg_get_percentage, percentage_query}
use libzbxpgsql.Discovery.{pg_get_discovery, pg_get_discovery_wide}
use libzbxpgsql.Items.{key_field, required, by_filter, ratio_item, discover_mode}
use libzbxpgsql.Service.Meets.{Implements, Implements-report}
use libzbxpgsql.Service.Rules.{
  Consumes, Consumes-none, Consumes-new, Implements-if, pg_get_result-Consumes,
  pg_get_discovery-Consumes, set_err_result-Implements,
}
use libzbxpgsql.Service.Everywhere.{ListsNames, pg_get_discovery_wide-Implements}
use libzbxpgsql.Service.Plans.{Plan, answer, refuse, value, rows, all_rows, serve}
use libzbxpgsql.Service.Table.{field_plan, mode_plan, name_plan, required_plan, ratio_plan}

module _ (env : Env) (request : Request) where
  -- A command carries a plan out.
  abbrev pub Carries : Cmd Bool → Plan → Type 0
  Carries m p = Implements m (serve env request p)

  abbrev pub UsesUp : (PgParams → Cmd Bool) → List Text → Plan → Type 0
  UsesUp m ss p = Consumes m ss (serve env request p)

  abbrev fails : Text → Cmd Bool
  fails text = set_err_result env true text >> pure false

  pub refuse-Carries : (text : Text) → Carries (fails text) (refuse [] text)
  unfolding serve
  refuse-Carries text = set_err_result-Implements env text

  pub answer-Carries : (r : Report) → Carries (report r >> pure true) (answer r)
  unfolding serve
  answer-Carries r = Implements-report r true

  -- The key is read behind its prefix, or the call is undefined.
  pub key_field-Carries :
      (n : ℕ) (key : Text) (m : Text → Cmd Bool) (next : Text → Plan)
      → ((field : Text) → Carries (m field) (next field))
      → Carries (key_field n key >>= m) (field_plan n key next)
  unfolding key_field serve
  key_field-Carries n key m next carries = elim (Bool-cases (leb n (length key))) [
    | inl long ↦ rw long (carries (drop n key))
    | inr short ↦ rw short (record { at = λ w f. refl })
  ]

  pub discover_mode-Carries :
      (mode : Option Text) (deep shallow : Cmd Bool) (p q : Plan)
      → Carries deep p
      → Carries shallow q
      → Carries (discover_mode env mode deep shallow) (mode_plan mode p q)
  unfolding discover_mode strcmp
  discover_mode-Carries none deep shallow p q d s = d
  discover_mode-Carries (some mode) deep shallow p q d s =
      Implements-if (serve env request) (strisnull (some mode) || same mode (bytes "deep")) _ _ p _
        (λ _. d)
        (λ _.
          Implements-if (serve env request) (same mode (bytes "shallow")) _ _ q _ (λ _. s)
            (λ _. refuse-Carries (printf (bytes "Invalid search mode parameter: %s") (mode ∷ []))))

  -- An object that must be named.
  pub named-Carries :
      (message : Text) (m : PgParams → Cmd Bool) (plan : List Text → Plan)
      → UsesUp m
          (appended [] (request.rparam param_first))
          (plan (appended [] (request.rparam param_first)))
      → Carries
          (if strisnull (request.rparam param_first)
            then fails message
            else (param_new (request.rparam param_first) >>= m))
          (required_plan env request message plan)
  named-Carries message m plan u =
      Implements-if (serve env request) (strisnull (request.rparam param_first)) _ _ _ _
        (λ _. refuse-Carries message) (λ _. Consumes-new (request.rparam param_first) m _ u)

  module _ (text_ok : IsTextRequest request) where
    pub value-UsesUp :
        (type : ResultType) (query : Text) (ss : List Text)
        → UsesUp (pg_get_result env request type query) ss (value type query ss)
    unfolding serve
    value-UsesUp type query ss = pg_get_result-Consumes env request text_ok type query ss

    pub rows-UsesUp :
        (query : Text) (ss : List Text)
        → UsesUp (pg_get_discovery env request query) ss (rows query ss)
    unfolding serve
    rows-UsesUp query ss = pg_get_discovery-Consumes env request text_ok query ss

    pub value-Carries :
        (type : ResultType) (query : Text)
        → Carries (pg_get_result env request type query none) (value type query [])
    value-Carries type query =
        Consumes-none (pg_get_result env request type query) _ (value-UsesUp type query [])

    pub value_new-Carries :
        (type : ResultType) (query : Text) (name : Option Text)
        → Carries
            (param_new name >>= λ ps. pg_get_result env request type query ps)
            (value type query (appended [] name))
    value_new-Carries type query name =
        Consumes-new name (pg_get_result env request type query) _
          (value-UsesUp type query (appended [] name))

    pub rows-Carries :
        (query : Text) → Carries (pg_get_discovery env request query none) (rows query [])
    rows-Carries query = Consumes-none (pg_get_discovery env request query) _ (rows-UsesUp query [])

    pub all_rows-Carries :
        ListsNames env
        → (query : Text) → Carries (pg_get_discovery_wide env request query none) (all_rows query)
    unfolding serve
    all_rows-Carries named query = pg_get_discovery_wide-Implements env request query text_ok named

    pub by_filter-Carries :
        (type : ResultType) (sum one : Text)
        → Carries (by_filter env request type sum one) (name_plan env request type sum one)
    unfolding by_filter
    by_filter-Carries type sum one =
        value_new-Carries type (if strisnull (request.rparam param_first) then sum else one)
          (request.rparam param_first)

    -- without an array where nothing is named
    pub split-Carries :
        (type : ResultType) (sum one : Text) (name : Option Text)
        → Carries
            (if strisnull name
              then pg_get_result env request type sum none
              else (param_new name >>= λ ps. pg_get_result env request type one ps))
            (value type (if strisnull name then sum else one) (appended [] name))
    unfolding strisnull
    split-Carries type sum one none = value-Carries type sum
    split-Carries type sum one (some []) = value-Carries type sum
    split-Carries type sum one (some (c ∷ s)) = value_new-Carries type one (some (c ∷ s))

    pub required-Carries :
        (message : Text) (type : ResultType) (query : Text)
        → Carries
            (required env request message type query)
            (required_plan env request message (value type query))
    unfolding required
    required-Carries message type query =
        named-Carries message (pg_get_result env request type query) (value type query)
          (value-UsesUp type query _)

    pub ratio_item-Carries :
        (table sum1 sum2 col1 col2 col_filter : Text)
        → Carries
            (ratio_item env request table sum1 sum2 col1 col2 col_filter)
            (ratio_plan env request table sum1 sum2 col1 col2 col_filter)
    unfolding ratio_item pg_get_percentage
    ratio_item-Carries table sum1 sum2 col1 col2 col_filter =
        Implements-if (serve env request) (strisnull (request.rparam param_first)) _ _ _ _
          (λ _. value_new-Carries ar_double (percentage_query env table sum1 sum2 none) none)
          (λ _.
            value_new-Carries ar_double (percentage_query env table col1 col2 (some col_filter))
              (request.rparam param_first))
