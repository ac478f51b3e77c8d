-- ===== src/Query/Exchange.antt =====
-- A connection, one query on it, and what is made of its result: the shape that `pg_scalar`, the
-- discoveries and the handlers with a connection of their own share.
use libzbxpgsql.Base.{suc, ◌≡◌, refl, ap, ◌∙◌, Bool, true, none, some, List, ◌∷◌, ◌++◌, Text, arith}
use native.Mathlib.Nat.{le_refl}
use libzbxpgsql.Runtime.{
  Env, World, Request, PgResult, Report, Cmd, pure, lift, ◌>>=◌, ◌>>◌, conn, result, msg, connected,
  executed, load, write, as_result,
}
use libzbxpgsql.Runtime.Laws.{load-some}
use libzbxpgsql.Params.{PgParams}
use libzbxpgsql.Params.Laws.{IsParams, IsFresh, Frees}
use libzbxpgsql.Connect.{plain_format, pq_clear, pq_finish, pg_connect_request}
use libzbxpgsql.Connect.Laws.{
  request_connstring, IsTextRequest, opened, refused, pg_connect_accepted, pg_connect-refused,
  pg_connect_undefined, pg_connect_request-pg_connect, pq_clear-some, pq_finish-some,
}
use libzbxpgsql.Query.{pg_exec}
use libzbxpgsql.Query.Laws.{freed, queried, pg_exec-IsParams, with_reports}

-- The result of the query of a request, asked on a new connection.
abbrev pub answered : Env → World → Request → Text → List Text → PgResult
answered env w request query ss =
    env.execute (connected (request_connstring request) ∷ w.history) (request_connstring request)
      query ss

-- A step of a handler that connects, asks one query, and gives every block back.
pub record Asks (request : Request) (query : Text) (ps : PgParams) (ss : List Text)
    (rs : List Report) (w w' : World) : Type 0 where
  pub memory : Frees ps w w'
  pub reports : w'.reports ≡ rs ++ w.reports
  pub history :
      w'.history
      ≡ executed (request_connstring request) query ss
        ∷ connected (request_connstring request)
        ∷ w.history

pub opened-IsFresh : (w : World) (c : Text) → IsFresh w → IsFresh (opened w c)
opened-IsFresh w c f p l = ground (arith, f p)

opened-IsParams :
    (w : World) (c : Text) (ps : PgParams) (ss : List Text)
    → IsFresh w
    → IsParams w ps ss
    → IsParams (opened w c) ps ss
opened-IsParams w c none ss f h = h
opened-IsParams w c (some q) ss f h = ground (arith, f w.next (le_refl _))

-- The state behind a query on a new connection, whose result and connection are then given back.
abbrev pub closed : World → Text → Text → PgParams → List Text → PgResult → List Report → World
closed w c query ps ss r rs = record w {
  next = suc (suc w.next);
  heap =
      write
        (write
          (freed ps (write (write w.heap w.next (some (conn c))) (suc w.next) (some (result r))))
          (suc w.next) none)
        w.next none;
  history = executed c query ss ∷ connected c ∷ w.history;
  reports = rs ++ w.reports;
}

pub closed-Frees :
    (w : World) (c query : Text) (ps : PgParams) (ss : List Text) (r : PgResult) (rs : List Report)
    → IsFresh w
    → Frees ps w (closed w c query ps ss r rs)
closed-Frees w c query none ss r rs f = record {
  heap = λ p. ground (arith, f w.next (le_refl _), f (suc w.next) (omega arith));
  grows = omega arith;
}
closed-Frees w c query (some q) ss r rs f = record {
  heap = λ p. ground (arith, f w.next (le_refl _), f (suc w.next) (omega arith));
  grows = omega arith;
}

pub conn-kept :
    (w : World) (c query : Text) (ps : PgParams) (ss : List Text) (r : PgResult)
    → IsFresh w
    → IsParams w ps ss
    → freed ps (write (write w.heap w.next (some (conn c))) (suc w.next) (some (result r))) w.next
      ≡ some (conn c)
conn-kept w c query none ss r f h = ground arith
conn-kept w c query (some q) ss r f h = ground (arith, f w.next (le_refl _))

pub result-kept :
    (w : World) (c query : Text) (ps : PgParams) (ss : List Text) (r : PgResult)
    → IsFresh w
    → IsParams w ps ss
    → freed ps
        (write (write w.heap w.next (some (conn c))) (suc w.next) (some (result r)))
        (suc w.next)
      ≡ some (result r)
result-kept w c query none ss r f h = ground arith
result-kept w c query (some q) ss r f h = ground (arith, f (suc w.next) (omega arith))

pub refused-Frees :
    (env : Env) (w : World) (c : Text) (given : Bool) (text : Text)
    → IsFresh w
    → Frees none w (refused env w c given text)
refused-Frees env w c given text f = record {
  heap = λ p. ground (arith, f w.next (le_refl _));
  grows = omega arith;
}

-- What C does around the use `use_result` of a result; `failed` is returned without a connection.
abbrev pub exchange {ℓ} :
    {B : Type ℓ} → Env → Request → Text → PgParams → B → (PgResult → Cmd B) → Cmd B
exchange env request query ps failed use_result =
    pg_connect_request env request true >>= λ connected. elim connected [
      | none ↦ pq_clear none >> (pq_finish none >> pure failed)
      | some p ↦ pg_exec env p query ps >>= λ res. load res >>= λ o. lift (as_result o) >>= λ r.
          use_result r >>= λ v. pq_clear (some res) >> (pq_finish (some p) >> pure v)
    ]

module _ {ℓ} {B : Type ℓ} (env : Env) (w : World) (request : Request) (query : Text) (ps : PgParams)
    (ss : List Text) (failed : B) (use_result : PgResult → Cmd B) (text_ok : IsTextRequest request)
    (f : IsFresh w) (h : IsParams w ps ss) where
  -- The state in which the result is used.
  abbrev pub in_use : World
  in_use =
      queried env (opened w (request_connstring request)) (request_connstring request) query ps ss

  exchange_steps :
      (v : B) (w₃ : World)
      → env.connect w.history (request_connstring request) ≡ none
      → use_result (answered env w request query ss) in_use ≡ some (v, w₃)
      → w₃.heap ≡ in_use.heap
      → exchange env request query ps failed use_result w
        ≡ some (v, record w₃ { heap = write (write w₃.heap (suc w.next) none) w.next none })
  exchange_steps v w₃ accepted uses kept =
      let c = request_connstring request in
      let r = answered env w request query ss in
      let connects =
        pg_connect_request-pg_connect env w request true text_ok
        ∙ pg_connect_accepted env w c true accepted in
      let asks =
        pg_exec-IsParams env (opened w c) w.next c query ps ss (opened-IsFresh w c f) (ground arith)
          (opened-IsParams w c ps ss f h) in
      let loads = load-some in_use (suc w.next) (result r) (result-kept w c query ps ss r f h) in
      let clears =
        pq_clear-some w₃ (suc w.next) r
          (ap (λ m. m (suc w.next)) kept ∙ result-kept w c query ps ss r f h) in
      let finishes =
        pq_finish-some (record w₃ { heap = write w₃.heap (suc w.next) none }) w.next c
          (ground (arith, ap (λ m. m w.next) kept ∙ conn-kept w c query ps ss r f h)) in
      ground (arith, connects, asks, loads, uses, clears, finishes)

  -- On a connection that the server accepts, a use that only reports leaves no block behind.
  pub exchange-Asks :
      (v : B) (rs : List Report)
      → env.connect w.history (request_connstring request) ≡ none
      → use_result (answered env w request query ss) in_use ≡ some (v, with_reports rs in_use)
      → (w' : World) × (exchange env request query ps failed use_result w ≡ some (v, w'))
        × Asks request query ps ss rs w w'
  exchange-Asks v rs accepted uses = (
    _,
    exchange_steps v (with_reports rs in_use) accepted uses refl,
    record {
      memory =
          closed-Frees w (request_connstring request) query ps ss (answered env w request query ss)
            rs f;
      reports = refl;
      history = refl;
    },
  )

  -- A use that is undefined makes the whole call undefined.
  pub exchange_undefined :
      env.connect w.history (request_connstring request) ≡ none
      → use_result (answered env w request query ss) in_use ≡ none
      → exchange env request query ps failed use_result w ≡ none
  exchange_undefined accepted uses =
      let c = request_connstring request in
      let r = answered env w request query ss in
      let connects =
        pg_connect_request-pg_connect env w request true text_ok
        ∙ pg_connect_accepted env w c true accepted in
      let asks =
        pg_exec-IsParams env (opened w c) w.next c query ps ss (opened-IsFresh w c f) (ground arith)
          (opened-IsParams w c ps ss f h) in
      let loads = load-some in_use (suc w.next) (result r) (result-kept w c query ps ss r f h) in
      ground (arith, connects, asks, loads, uses)

  -- Without a connection the message of libpq is set and nothing is asked; the parameters stay.
  pub exchange_refused :
      (message text : Text)
      → env.connect w.history (request_connstring request) ≡ some message
      → plain_format message ≡ some text
      → (w' : World) × (exchange env request query ps failed use_result w ≡ some (failed, w'))
        × Frees none w w'
        × (w'.reports ≡ msg (env.clip env.max_string_len text) ∷ w.reports)
        × (w'.history ≡ connected (request_connstring request) ∷ w.history)
  unfolding pq_clear pq_finish
  exchange_refused message text hard format =
      let c = request_connstring request in
      let connects =
        pg_connect_request-pg_connect env w request true text_ok
        ∙ pg_connect-refused env w c true message text hard format in
      (
        refused env w c true text,
        ground (arith, connects),
        refused-Frees env w c true text f,
        refl,
        refl,
      )

  -- A message that is no format of its own makes the whole call undefined.
  pub exchange_format :
      (message : Text)
      → env.connect w.history (request_connstring request) ≡ some message
      → plain_format message ≡ none
      → exchange env request query ps failed use_result w ≡ none
  exchange_format message hard format =
      let connects =
        pg_connect_request-pg_connect env w request true text_ok
        ∙ pg_connect_undefined env w (request_connstring request) true message hard format in
      ground (arith, connects)
