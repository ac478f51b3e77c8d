-- ===== src/Service/Connections.antt =====
-- The handlers with a connection of their own: `PG_CONNECT`, `PG_SETTING`, `PG_STAT_ALL_INDEXES`.
use libzbxpgsql.Base.{
  ◌≡◌, refl, ◌∙◌, true, false, Option-cases, inl, inr, Option, none, some, [], ◌∷◌, Text, bytes,
  strisnull, strncmp, if◌then◌else◌, arith,
}
use native.Mathlib.Nat.{le_refl}
use libzbxpgsql.Runtime.{Env, World, Request, ui64, connected, write}
use libzbxpgsql.Params.Laws.{IsFresh}
use libzbxpgsql.Connect.{param_first, plain_format}
use libzbxpgsql.Connect.Laws.{
  request_connstring, IsTextRequest, opened, refused, pg_connect_accepted, pg_connect-refused,
  pg_connect_undefined, pg_connect_request-pg_connect, pq_finish-some,
}
use libzbxpgsql.Numbers.{atoi}
use libzbxpgsql.Query.{pq_getvalue}
use libzbxpgsql.Query.Exchange.{refused-Frees}
use libzbxpgsql.Items.{formatted}
use libzbxpgsql.Items.Server.{pg_connect}
use libzbxpgsql.Items.Setting.{get_setting, setting_of, pg_setting}
use libzbxpgsql.Items.Index.{get_index_stat, get_index_stat_sum, index_stat_of, pg_stat_all_indexes}
use libzbxpgsql.Service.Meets.{Meets}
use libzbxpgsql.Service.Asks.{Uses}
use libzbxpgsql.Service.Late.{late_exchange-Implements}
use libzbxpgsql.Service.Plans.{probe, setting, setting_spec, index_spec, serve}
use libzbxpgsql.Service.Rules.{Implements-if}
use libzbxpgsql.Service.Table.{required_plan, field_plan, index_stat_plan}
use libzbxpgsql.Service.Shapes.{Carries, refuse-Carries, key_field-Carries}

module _ (env : Env) where
  setting_of-Uses : Uses (setting_of env) (setting_spec env)
  unfolding setting_of strncmp
  setting_of-Uses r w = elim (Option-cases (pq_getvalue r 0 0)) [
    | inl e ↦ ground (arith, e)
    | inr (v, e) ↦ elim (Option-cases (pq_getvalue r 0 1)) [
      | inl e' ↦ ground (arith, e, e')
      | inr (type, e') ↦ ground (arith, e, e')
    ]
  ]

  index_stat_of-Uses : (query : Text) → Uses (index_stat_of env query) (index_spec env query)
  unfolding index_stat_of
  index_stat_of-Uses query r w = elim (Option-cases (pq_getvalue r 0 0)) [
    | inl e ↦ ground (arith, e)
    | inr (v, e) ↦ elim (Option-cases (atoi v)) [
      | inl e' ↦ ground (arith, e, e')
      | inr (n, e') ↦ ground (arith, e, e')
    ]
  ]

  module _ (request : Request) (text_ok : IsTextRequest request) where
    pub pg_setting-Carries :
        Carries env request
          (pg_setting env request)
          (required_plan env request (bytes "No setting name specified") (setting get_setting))
    unfolding pg_setting serve
    pg_setting-Carries =
        Implements-if (serve env request) (strisnull (request.rparam param_first)) _ _ _ _
          (λ _. refuse-Carries env request (bytes "No setting name specified"))
          (λ _.
            late_exchange-Implements env request get_setting (request.rparam param_first)
              (setting_of env) (setting_spec env) setting_of-Uses text_ok)

    pub pg_stat_all_indexes-Carries :
        Carries env request
          (pg_stat_all_indexes env request)
          (field_plan 9 request.key (index_stat_plan env request))
    unfolding pg_stat_all_indexes serve
    pg_stat_all_indexes-Carries =
        key_field-Carries env request 9 request.key _ (index_stat_plan env request) (λ field.
          let query =
            formatted env
              (if strisnull (request.rparam param_first)
                then get_index_stat_sum
                else get_index_stat)
              (field ∷ []) in
          late_exchange-Implements env request query (request.rparam param_first)
            (index_stat_of env query) (index_spec env query) (index_stat_of-Uses query) text_ok)

    abbrev c : Text
    c = request_connstring request

    connect-Meets :
        (w : World) (x : Option Text)
        → IsFresh w
        → env.connect w.history c ≡ x
        → Meets w w (pg_connect env request w) (elim x [
          | none ↦
              some (record {
                value = true;
                said = ui64 1 ∷ [];
                asked = connected c ∷ [];
                clean = true;
              })
          | some message ↦ elim (plain_format message) [
            | none ↦ none
            | some text ↦ some (record {
              value = true;
              said = ui64 0 ∷ [];
              asked = connected c ∷ [];
              clean = true;
            })
          ]
        ])
    unfolding pg_connect
    connect-Meets w none f e =
        let connects =
          pg_connect_request-pg_connect env w request false text_ok
          ∙ pg_connect_accepted env w c false e in
        let w₁ = record (opened w c) { reports = ui64 1 ∷ w.reports } in
        let finishes = pq_finish-some w₁ w.next c (ground arith) in
        (
          record w₁ { heap = write w₁.heap w.next none },
          ground (arith, connects, finishes),
          record {
            memory = record {
              heap = λ p. ground (arith, f w.next (le_refl _));
              grows = omega arith;
            };
            reports = refl;
            history = refl;
          },
        )
    connect-Meets w (some message) f e = go (plain_format message) refl
      where
        go :
            (x : Option Text)
            → plain_format message ≡ x
            → Meets w w (pg_connect env request w) (elim x [
              | none ↦ none
              | some text ↦ some (record {
                value = true;
                said = ui64 0 ∷ [];
                asked = connected c ∷ [];
                clean = true;
              })
            ])
        go none format =
            let connects =
              pg_connect_request-pg_connect env w request false text_ok
              ∙ pg_connect_undefined env w c false message e format in
            ground (arith, connects)
        go (some text) format =
            let connects =
              pg_connect_request-pg_connect env w request false text_ok
              ∙ pg_connect-refused env w c false message text e format in
            (
              record (refused env w c false text) { reports = ui64 0 ∷ w.reports },
              ground (arith, connects),
              record {
                memory = record {
                  heap = (refused-Frees env w c false text f).heap;
                  grows = omega arith;
                };
                reports = refl;
                history = refl;
              },
            )

    pub pg_connect-Carries : Carries env request (pg_connect env request) probe
    unfolding serve
    pg_connect-Carries = record { at = λ w f. connect-Meets w _ f refl }
