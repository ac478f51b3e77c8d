-- ===== src/Discovery/Rounds.antt =====
-- One round of the loop of `pg_get_discovery_wide`, on every branch.
use libzbxpgsql.Base.{
  suc, ◌≡◌, refl, true, false, none, some, List, [], ◌∷◌, ◌++◌, Text, IsText, bytes, printf, arith,
}
use libzbxpgsql.Connstring.{build_connstring}
use libzbxpgsql.Connstring.Laws.{connstring_for, build_connstring-connstring_for}
use libzbxpgsql.Runtime.{
  Env, World, Request, PgResult, Event, JsonCall, Report, conn, result, write, msg, connected,
  executed,
}
use libzbxpgsql.Runtime.Laws.{load-some}
use libzbxpgsql.Params.Laws.{IsFresh}
use libzbxpgsql.Connect.{param_conn_string, plain_format}
use libzbxpgsql.Connect.Laws.{
  IsTextRequest, opened, refused, pg_connect_accepted, pg_connect-refused, pg_connect_undefined,
  pq_clear-some, pq_finish-some,
}
use libzbxpgsql.Query.Laws.{queried, pg_exec-IsParams}
use libzbxpgsql.Query.Exchange.{opened-IsFresh, closed, conn-kept, result-kept}
use libzbxpgsql.Discovery.{add_rows, discover_each}

abbrev pub db_connstring : Request → Text → Text
db_connstring request db = connstring_for (request.rparam param_conn_string) (some db)

-- What a database answers, and what has been asked behind it, the newest first.
abbrev pub db_result : Env → Request → Text → List Event → Text → PgResult
db_result env request query h db =
    env.execute (connected (db_connstring request db) ∷ h) (db_connstring request db) query []

abbrev pub db_history : Request → Text → List Event → Text → List Event
db_history request query h db =
    executed (db_connstring request db) query [] ∷ connected (db_connstring request db) ∷ h

-- The state behind a query that has failed: its result is left over.
abbrev pub left_over : Env → World → Text → Text → PgResult → Report → World
left_over env w c query r report = record w {
  next = suc (suc w.next);
  heap =
      write (write (write w.heap w.next (some (conn c))) (suc w.next) (some (result r))) w.next
        none;
  history = executed c query [] ∷ connected c ∷ w.history;
  reports = report ∷ w.reports;
}

module _ (env : Env) (request : Request) (query : Text) (text_ok : IsTextRequest request)
    (w : World) (calls : List JsonCall) (db : Text) (dbs : List Text) (f : IsFresh w)
    (t : IsText db) where
  abbrev c : Text
  c = db_connstring request db

  abbrev r : PgResult
  r = db_result env request query w.history db

  abbrev w₂ : World
  w₂ = queried env (opened w c) c query none []

  builds : build_connstring (request.rparam param_conn_string) (some db) ≡ some c
  builds = build_connstring-connstring_for (request.rparam param_conn_string) (some db) text_ok.0 t

  -- the next round, where the database answers with rows
  pub discover_each_rows :
      env.connect w.history c ≡ none
      → r.tuples_ok ≡ true
      → (found : List JsonCall) → add_rows env r 0 r.rows ≡ some found
      → discover_each env request query none calls (db ∷ dbs) w
        ≡ discover_each env request query none (calls ++ found) dbs (closed w c query none [] r [])
  unfolding discover_each
  discover_each_rows accepted ok found rows =
      let connects = pg_connect_accepted env w c true accepted in
      let asks =
        pg_exec-IsParams env (opened w c) w.next c query none [] (opened-IsFresh w c f)
          (ground arith) refl in
      let loads = load-some w₂ (suc w.next) (result r) (result-kept w c query none [] r f refl) in
      let clears = pq_clear-some w₂ (suc w.next) r (result-kept w c query none [] r f refl) in
      let finishes =
        pq_finish-some (record w₂ { heap = write w₂.heap (suc w.next) none }) w.next c
          (ground (arith, conn-kept w c query none [] r f refl)) in
      ground (arith, builds, connects, asks, loads, ok, rows, clears, finishes)

  pub discover_each_undefined :
      env.connect w.history c ≡ none
      → r.tuples_ok ≡ true
      → add_rows env r 0 r.rows ≡ none
      → discover_each env request query none calls (db ∷ dbs) w ≡ none
  unfolding discover_each
  discover_each_undefined accepted ok rows =
      let connects = pg_connect_accepted env w c true accepted in
      let asks =
        pg_exec-IsParams env (opened w c) w.next c query none [] (opened-IsFresh w c f)
          (ground arith) refl in
      let loads = load-some w₂ (suc w.next) (result r) (result-kept w c query none [] r f refl) in
      ground (arith, builds, connects, asks, loads, ok, rows)

  -- the end of the loop, where the query fails
  pub discover_each_failed :
      env.connect w.history c ≡ none
      → r.tuples_ok ≡ false
      → discover_each env request query none calls (db ∷ dbs) w
        ≡ some (
          none,
          left_over env w c query r (
              msg (
                env.clip env.max_string_len
                  (printf (bytes "PostgreSQL query error: %s") (r.error_message ∷ [])))),
        )
  unfolding discover_each
  discover_each_failed accepted bad =
      let connects = pg_connect_accepted env w c true accepted in
      let asks =
        pg_exec-IsParams env (opened w c) w.next c query none [] (opened-IsFresh w c f)
          (ground arith) refl in
      let loads = load-some w₂ (suc w.next) (result r) (result-kept w c query none [] r f refl) in
      let said = msg (
        env.clip env.max_string_len
          (printf (bytes "PostgreSQL query error: %s") (r.error_message ∷ []))) in
      let finishes =
        pq_finish-some (record w₂ { reports = said ∷ w₂.reports }) w.next c
          (conn-kept w c query none [] r f refl) in
      ground (arith, builds, connects, asks, loads, bad, finishes)

  pub discover_each-refused :
      (message text : Text)
      → env.connect w.history c ≡ some message
      → plain_format message ≡ some text
      → discover_each env request query none calls (db ∷ dbs) w
        ≡ some (none, refused env w c true text)
  unfolding discover_each
  discover_each-refused message text hard format =
      let connects = pg_connect-refused env w c true message text hard format in
      ground (arith, builds, connects)

  pub discover_each_format :
      (message : Text)
      → env.connect w.history c ≡ some message
      → plain_format message ≡ none
      → discover_each env request query none calls (db ∷ dbs) w ≡ none
  unfolding discover_each
  discover_each_format message hard format =
      let connects = pg_connect_undefined env w c true message hard format in
      ground (arith, builds, connects)
