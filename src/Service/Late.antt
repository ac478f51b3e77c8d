-- ===== src/Service/Late.antt =====
-- `PG_SETTING` and `PG_STAT_ALL_INDEXES`, which make their parameters behind the connection, and
-- `pg.connect`, which asks nothing.
use libzbxpgsql.Base.{
  suc, ◌≡◌, refl, ap, ◌∙◌, subst, Bool, true, false, ◌==◌, Option, none, some, List, [], ◌∷◌, ◌++◌,
  Text, arith,
}
use native.Mathlib.Nat.{le_refl}
use libzbxpgsql.Runtime.{
  Env, World, Request, PgResult, Report, Cmd, pure, lift, ◌>>=◌, ◌>>◌, conn, result, connected,
  executed, load, write, as_result,
}
use libzbxpgsql.Runtime.Laws.{load-some}
use libzbxpgsql.Params.{PgParams, param_new}
use libzbxpgsql.Params.Laws.{IsFresh, Frees, appended}
use libzbxpgsql.Params.Owned.{
  HasArray, Owns, nothing-Owns, HasArray-IsParams, HasArray-IsFresh, param_append-Owns,
}
use libzbxpgsql.Connect.{plain_format, pq_clear, pq_finish, pg_connect_request}
use libzbxpgsql.Connect.Laws.{
  request_connstring, IsTextRequest, opened, refused, pg_connect_accepted, pg_connect-refused,
  pg_connect_undefined, pg_connect_request-pg_connect, pq_clear-some, pq_finish-some,
}
use libzbxpgsql.Query.{pg_exec}
use libzbxpgsql.Query.Laws.{queried, pg_exec-IsParams, with_reports, reported}
use libzbxpgsql.Query.Exchange.{opened-IsFresh, refused-Frees}
use libzbxpgsql.Service.Effects.{used, refusal, asks_with, answered_by}
use libzbxpgsql.Service.Meets.{Meets, Implements}
use libzbxpgsql.Service.Asks.{Uses}

-- What C does: the parameters are made when the connection stands.
abbrev pub late_exchange : Env → Request → Text → Option Text → (PgResult → Cmd Bool) → Cmd Bool
late_exchange env request query name use_result =
    pg_connect_request env request true >>= λ connected. elim connected [
      | none ↦ pq_clear none >> (pq_finish none >> pure false)
      | some p ↦ param_new name >>= λ ps. pg_exec env p query ps >>= λ res. load res >>= λ o.
          lift (as_result o) >>= λ r.
          use_result r >>= λ v. pq_clear (some res) >> (pq_finish (some p) >> pure v)
    ]

module _ (env : Env) (request : Request) (query : Text) (name : Option Text)
    (use_result : PgResult → Cmd Bool) (use_spec : PgResult → Option (Bool × List Report))
    (uses : Uses use_result use_spec) (text_ok : IsTextRequest request) (w : World)
    (f : IsFresh w) where
  abbrev c : Text
  c = request_connstring request

  abbrev ss : List Text
  ss = appended [] name

  abbrev run : Option (Bool × World)
  run = late_exchange env request query name use_result w

  module _ (w₁ : World) (ps : PgParams) (has : HasArray (opened w c) w₁ ps ss)
      (same_history : w₁.history ≡ connected c ∷ w.history) where
    abbrev got : PgResult
    got = env.execute w₁.history c query ss

    abbrev behind : World
    behind = queried env w₁ c query ps ss

    conn-there : w₁.heap w.next ≡ some (conn c)
    conn-there = go ps has
      where
        go : (ps : PgParams) → HasArray (opened w c) w₁ ps ss → w₁.heap w.next ≡ some (conn c)
        go none o = o.heap w.next ∙ ground arith
        go (some q) o = o.heap w.next ∙ ground (arith, o.placed)

    conn-behind : behind.heap w.next ≡ some (conn c)
    conn-behind = go ps has
      where
        go :
            (ps : PgParams)
            → HasArray (opened w c) w₁ ps ss
            → (queried env w₁ c query ps ss).heap w.next ≡ some (conn c)
        go none o = ground (arith, conn-there, o.grows)
        go (some q) o = ground (arith, conn-there, o.grows, o.placed)

    result-behind : behind.heap w₁.next ≡ some (result got)
    result-behind = go ps has
      where
        go :
            (ps : PgParams)
            → HasArray (opened w c) w₁ ps ss
            → (queried env w₁ c query ps ss).heap w₁.next ≡ some (result got)
        go none o = ground arith
        go (some q) o = ground (arith, o.placed)

    asks : pg_exec env w.next query ps w₁ ≡ some (w₁.next, behind)
    asks =
        pg_exec-IsParams env w₁ w.next c query ps ss (HasArray-IsFresh (opened w c) w₁ ps ss has)
          conn-there (HasArray-IsParams (opened w c) w₁ ps ss has)

    abbrev ended : List Report → World
    ended rs = record w₁ {
      next = suc w₁.next;
      heap = write (write behind.heap w₁.next none) w.next none;
      reports = rs ++ w₁.reports;
      history = executed c query ss ∷ w₁.history;
    }

    ended-Frees : (rs : List Report) → Frees none w (ended rs)
    ended-Frees rs = go ps has
      where
        go :
            (ps : PgParams)
            → HasArray (opened w c) w₁ ps ss
            → Frees none w (record w₁ {
              next = suc w₁.next;
              heap = write (write (queried env w₁ c query ps ss).heap w₁.next none) w.next none;
              reports = rs ++ w₁.reports;
              history = executed c query ss ∷ w₁.history;
            })
        go none o = record {
          heap = λ p. ground (arith, o.heap p, f w.next (le_refl _), f w₁.next, o.grows);
          grows = omega (arith, o.grows);
        }
        go (some q) o = record {
          heap = λ p.
              ground (arith, o.heap p, f w.next (le_refl _), f q, f w₁.next, o.grows, o.placed);
          grows = omega (arith, o.grows);
        }

  module _ (accepted : env.connect w.history c ≡ none) (w₁ : World) (ps : PgParams)
      (appends : param_new name (opened w c) ≡ some (ps, w₁))
      (owns : Owns (opened w c) w₁ ps ss) where
    connects : pg_connect_request env request true w ≡ some (some w.next, opened w c)
    connects =
        pg_connect_request-pg_connect env w request true text_ok
        ∙ pg_connect_accepted env w c true accepted

    abbrev after : World
    after = behind w₁ ps owns.memory owns.history

    abbrev res : PgResult
    res = got w₁ ps owns.memory owns.history

    late_undefined : use_spec res ≡ none → run ≡ none
    late_undefined e =
        let loads =
          load-some after w₁.next (result res) (result-behind w₁ ps owns.memory owns.history) in
        let reads = uses res after ∙ ap (λ x. reported x after) e in
        ground (arith, connects, appends, asks w₁ ps owns.memory owns.history, loads, reads)

    late_runs :
        (v : Bool) (rs : List Report)
        → use_spec res ≡ some (v, rs)
        → run ≡ some (v, ended w₁ ps owns.memory owns.history rs)
    late_runs v rs e =
        let there = result-behind w₁ ps owns.memory owns.history in
        let loads = load-some after w₁.next (result res) there in
        let reads = uses res after ∙ ap (λ x. reported x after) e in
        let clears = pq_clear-some (with_reports rs after) w₁.next res there in
        let distinct : (w.next == w₁.next) ≡ false = ground (arith, owns.memory.grows) in
        let finishes =
          pq_finish-some
            (record after { heap = write after.heap w₁.next none; reports = rs ++ w₁.reports })
            w.next c (ground (arith, distinct, conn-behind w₁ ps owns.memory owns.history)) in
        ground (
          arith,
          connects,
          appends,
          asks w₁ ps owns.memory owns.history,
          loads,
          reads,
          clears,
          finishes,
        )

    used-Meets :
        (x : Option (Bool × List Report)) → use_spec res ≡ x → Meets w w run (used env c query ss x)
    used-Meets none e = late_undefined e
    used-Meets (some (v, rs)) e = (
      _,
      late_runs v rs e,
      record {
        memory = ended-Frees w₁ ps owns.memory owns.history rs;
        reports = ap (◌++◌ rs) owns.reports;
        history = ap (λ h. executed c query ss ∷ h) owns.history;
      },
    )

  accepted-Meets :
      env.connect w.history c ≡ none
      → Meets w w run
          (used env c query ss (use_spec (env.execute (connected c ∷ w.history) c query ss)))
  accepted-Meets accepted =
      let (ps, w₁, appends, owns) =
        param_append-Owns (opened w c) (opened w c) none [] name
          (nothing-Owns (opened w c) (opened-IsFresh w c f)) in
      subst (λ h. Meets w w run (used env c query ss (use_spec (env.execute h c query ss))))
        owns.history (used-Meets accepted w₁ ps appends owns _ refl)

  refusal-Meets :
      (message : Text) (x : Option Text)
      → env.connect w.history c ≡ some message
      → plain_format message ≡ x
      → Meets w w run (refusal env c [] false x)
  unfolding pq_clear pq_finish
  refusal-Meets message none hard format =
      let connects =
        pg_connect_request-pg_connect env w request true text_ok
        ∙ pg_connect_undefined env w c true message hard format in
      ground (arith, connects)
  refusal-Meets message (some text) hard format =
      let connects =
        pg_connect_request-pg_connect env w request true text_ok
        ∙ pg_connect-refused env w c true message text hard format in
      (
        refused env w c true text,
        ground (arith, connects),
        record { memory = refused-Frees env w c true text f; reports = refl; history = refl },
      )

  late-Meets :
      (x : Option Text)
      → env.connect w.history c ≡ x
      → Meets w w run (answered_by env c query [] ss false use_spec w.history x)
  late-Meets none e = accepted-Meets e
  late-Meets (some message) e = refusal-Meets message _ e refl

pub late_exchange-Implements :
    (env : Env) (request : Request) (query : Text) (name : Option Text)
    (use_result : PgResult → Cmd Bool) (use_spec : PgResult → Option (Bool × List Report))
    → Uses use_result use_spec
    → IsTextRequest request
    → Implements
        (late_exchange env request query name use_result)
        (asks_with env request query [] (appended [] name) false use_spec)
late_exchange-Implements env request query name use_result use_spec uses text_ok = record {
  at = λ w f. late-Meets env request query name use_result use_spec uses text_ok w f _ refl;
}
