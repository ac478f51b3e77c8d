-- ===== src/Service/Activity.antt =====
-- The handlers that filter pg_stat_activity: `build_activity_clause` for any parameters, and the
-- array that it makes.
use libzbxpgsql.Base.{
  ltb, ◌+◌, ◌≤◌, ◌≡◌, refl, ap, sym, ◌∙◌, subst, Bool, true, false, Bool-cases, inl, inr, Option,
  none, some, List, [], ◌∷◌, ◌++◌, append-nil, length, lt→ltb, Text, bytes, printf, starts,
  strisnull, strncmp, arith,
}
use native.Mathlib.Nat.{le_refl}
use libzbxpgsql.Runtime.{Env, World, Request, Report, Cmd, pure, ◌>>=◌, msg}
use libzbxpgsql.Params.{PgParams}
use libzbxpgsql.Params.Owned.{Owns, HasArray, HasArray-IsFresh, Frees-HasArray}
use libzbxpgsql.Connect.Laws.{IsTextRequest}
use libzbxpgsql.Query.{ar_uint64, ar_double}
use libzbxpgsql.Items.Backends.{
  Clause, max_clause_len, write_piece, waiting_piece, clause_loop, build_activity_clause,
  is_before_92, pg_backends_count, pg_queries_longest,
}
use libzbxpgsql.Items.Backends.Laws.{Fits, state, filters, filters_text, three_filters}
use libzbxpgsql.Items.{text_of_result}
use libzbxpgsql.Service.Meets.{HasArray-Memory, Meets, Implements-returns}
use libzbxpgsql.Service.Values.{old_act, is_before_92-Implements}
use libzbxpgsql.Service.Rules.{Meets-held, Owns-Meets}
use libzbxpgsql.Service.Clean.{old_act-IsClean}
use libzbxpgsql.Service.Plans.{Plan, by_version, by_age, serve}
use libzbxpgsql.Service.Table.{
  waiting_clause, filters_plan, with_filters, counted_plan, duration_plan,
}
use libzbxpgsql.Service.Shapes.{Carries, UsesUp, value-UsesUp}
use libzbxpgsql.Service.Ages.{by_version-Carries}

module _ (env : Env) (request : Request) (fits : Fits env) where
  abbrev unsupported : Report
  unsupported = msg (
      env.clip env.max_string_len (
        printf (bytes "Unsupported parameter value: \"%s\" in %s")
          (text_of_result (request.rparam 5) ∷ request.key ∷ [])))

  -- The last round: the condition is written, or the message is set.
  waiting_round : Option Text → Text → List Text → PgParams → World → (Bool × Clause) × World
  waiting_round none written ss ps w =
      ((false, state written ss ps), record w { reports = unsupported ∷ w.reports })
  waiting_round (some text) written ss ps w = ((true, state (written ++ text) ss ps), w)

  clause_loop-waiting :
      (param : Option Text) (w : World) (written : Text) (ss : List Text) (ps : PgParams)
      → request.rparam 5 ≡ param
      → length written ≤ 120
      → clause_loop env request (3 ∷ []) (state written ss ps) w
        ≡ some (waiting_round (waiting_clause param) written ss ps w)
  unfolding clause_loop strisnull write_piece waiting_piece strncmp printf waiting_round
  clause_loop-waiting none w written ss ps e l = ground (arith, e, append-nil written)
  clause_loop-waiting (some []) w written ss ps e l = ground (arith, e, append-nil written)
  clause_loop-waiting (some (c ∷ s)) w written ss ps e l =
      elim (Bool-cases (starts (bytes "true") (c ∷ s) 5)) [
        | inl t ↦
            let room : ltb (length written + 19) max_clause_len ≡ true =
              lt→ltb (length written + 19) max_clause_len (omega arith) in
            ground
              (arith, e, t, fits max_clause_len (bytes " AND waiting = TRUE") (omega arith), room)
        | inr not_t ↦ elim (Bool-cases (starts (bytes "false") (c ∷ s) 6)) [
          | inl f ↦
              let room : ltb (length written + 20) max_clause_len ≡ true =
                lt→ltb (length written + 20) max_clause_len (omega arith) in
              ground (
                arith,
                e,
                not_t,
                f,
                fits max_clause_len (bytes " AND waiting = FALSE") (omega arith),
                room,
              )
          | inr not_f ↦ ground (arith, e, not_t, not_f)
        ]
      ]

  abbrev ended : (PgParams → Text → Cmd Bool) → (Bool × Clause) → Cmd Bool
  ended run (ok, st) = elim ok [ false ↦ pure false | true ↦ run st.params st.written ]

  -- Once the clause is built, its array is used up, unless the parameter for `waiting` is refused.
  filters-Carries :
      (run : PgParams → Text → Cmd Bool) (next : Text → List Text → Plan)
      → ((text : Text)
          → UsesUp env request
              (λ ps. run ps text)
              (filters env request)
              (next text (filters env request)))
      → Carries env request
          (build_activity_clause env request true >>= ended run)
          (with_filters env request next)
  unfolding serve waiting_round
  filters-Carries run next u = record {
    at = λ w f.
        let (ps, w₁, runs, owns, bound) = three_filters env request fits w f in
        go w ps w₁ owns (waiting_clause (request.rparam 5)) (
          runs
          ∙ clause_loop-waiting (request.rparam 5) w₁ (filters_text env request)
              (filters env request) ps refl bound);
  }
    where
      go :
          (w : World) (ps : PgParams) (w₁ : World)
          → Owns w w₁ ps (filters env request)
          → (x : Option Text)
          → build_activity_clause env request true w
            ≡ some (waiting_round x (filters_text env request) (filters env request) ps w₁)
          → Meets w w
              ((build_activity_clause env request true >>= ended run) w)
              (serve env request (filters_plan env request next x) w.history)
      go w ps w₁ owns none e = (
        record w₁ { reports = unsupported ∷ w₁.reports },
        ground (arith, e),
        record {
          memory =
              HasArray-Memory w (record w₁ { reports = unsupported ∷ w₁.reports }) ps
                (filters env request)
                (Frees-HasArray w w₁ (record w₁ { reports = unsupported ∷ w₁.reports }) ps
                  (filters env request) owns.memory
                  (record { heap = λ p. refl; grows = le_refl _ }));
          reports = ap (λ rs. unsupported ∷ rs) owns.reports;
          history = owns.history;
        },
      )
      go w ps w₁ owns (some text) e =
          let whole = filters_text env request ++ text in
          let made : (build_activity_clause env request true >>= ended run) w ≡ run ps whole w₁ =
            ground (arith, e) in
          subst (λ r. Meets w w r (serve env request (next whole (filters env request)) w.history))
            (sym made)
            (Owns-Meets w w₁ ps (filters env request) (run ps whole w₁)
              (serve env request (next whole (filters env request))) owns
              ((u whole).at w w₁ ps owns.memory))

  module _ (text_ok : IsTextRequest request) where
    pub pg_backends_count-Carries : Carries env request (pg_backends_count env request) (
        by_version []
          (with_filters env request (counted_plan env request true))
          (with_filters env request (counted_plan env request false)))
    unfolding pg_backends_count
    pg_backends_count-Carries =
        by_version-Carries env request text_ok _ _ _ (Implements-returns false)
          (filters-Carries _ (counted_plan env request true)
            (λ text. value-UsesUp env request text_ok ar_uint64 _ (filters env request)))
          (filters-Carries _ (counted_plan env request false)
            (λ text. value-UsesUp env request text_ok ar_uint64 _ (filters env request)))

    -- The version where an array is at hand: it leaks where the version is not known.
    by_version-UsesUp :
        (k : Option Bool → PgParams → Cmd Bool) (ss : List Text) (older newer : Plan)
        → ((ps : PgParams) (w : World) → k none ps w ≡ some (false, w))
        → UsesUp env request (k (some true)) ss older
        → UsesUp env request (k (some false)) ss newer
        → UsesUp env request
            (λ ps. is_before_92 env request >>= λ age. k age ps)
            ss
            (by_version ss older newer)
    unfolding serve
    by_version-UsesUp k ss older newer fails old new = record {
      at = λ w₀ w ps o.
          Meets-held (is_before_92 env request) (old_act env request) (λ age. k age ps)
            (by_age env ss (serve env request older) (serve env request newer)) w₀ w ps ss
            ((is_before_92-Implements env request text_ok).at w (HasArray-IsFresh w₀ w ps ss o))
            (old_act-IsClean env request w.history) o (age-Meets w₀ ps);
    }
      where
        age-Meets :
            (w₀ : World) (ps : PgParams) (age : Option Bool) (w₁ : World)
            → HasArray w₀ w₁ ps ss
            → Meets w₀ w₁
                (k age ps w₁)
                (by_age env ss (serve env request older) (serve env request newer) age w₁.history)
        age-Meets w₀ ps none w₁ o = (
          w₁,
          fails ps w₁,
          record { memory = HasArray-Memory w₀ w₁ ps ss o; reports = refl; history = refl },
        )
        age-Meets w₀ ps (some true) w₁ o = old.at w₀ w₁ ps o
        age-Meets w₀ ps (some false) w₁ o = new.at w₀ w₁ ps o

    pub pg_queries_longest-Carries :
        Carries env request
          (pg_queries_longest env request)
          (with_filters env request (duration_plan env request))
    unfolding pg_queries_longest
    pg_queries_longest-Carries = filters-Carries _ (duration_plan env request) (λ text.
        by_version-UsesUp _ (filters env request) _ _ (λ ps w. refl)
          (value-UsesUp env request text_ok ar_double _ (filters env request))
          (value-UsesUp env request text_ok ar_double _ (filters env request)))
