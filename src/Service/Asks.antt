-- ===== src/Service/Asks.antt =====
-- A connection and one query implement `asks`, on every branch.
use libzbxpgsql.Base.{◌≡◌, refl, ap, ◌∙◌, Option, none, some, List, [], Text}
use libzbxpgsql.Runtime.{Env, World, Request, PgResult, Report, Cmd}
use libzbxpgsql.Params.{PgParams}
use libzbxpgsql.Params.Owned.{
  HasArray, nothing-HasArray, HasArray-IsParams, HasArray-IsFresh, HasArray-Frees, Frees-HasArray,
}
use libzbxpgsql.Connect.{plain_format}
use libzbxpgsql.Connect.Laws.{request_connstring, IsTextRequest, opened}
use libzbxpgsql.Query.Laws.{queried, reported}
use libzbxpgsql.Query.Exchange.{
  answered, exchange, exchange-Asks, exchange_undefined, exchange_refused, exchange_format,
}
use libzbxpgsql.Service.Effects.{refusal, used, answered_by, asks}
use libzbxpgsql.Service.Meets.{HasArray-Memory, Meets, Implements}

-- The use of a result in C against what it amounts to: it reports, and nothing else.
abbrev pub Uses : {B : Type 0} → (PgResult → Cmd B) → (PgResult → Option (B × List Report)) → Type 0
Uses use_result use_spec = (r : PgResult) (w : World) → use_result r w ≡ reported (use_spec r) w

module _ {B : Type 0} (env : Env) (request : Request) (query : Text) (failed : B)
    (use_result : PgResult → Cmd B) (use_spec : PgResult → Option (B × List Report))
    (uses : Uses use_result use_spec) (text_ok : IsTextRequest request) where
  abbrev queried_by : World → PgParams → List Text → World
  queried_by w ps ss =
      queried env (opened w (request_connstring request)) (request_connstring request) query ps ss

  used-Meets :
      (w₀ w : World) (ps : PgParams) (ss : List Text) (x : Option (B × List Report))
      → HasArray w₀ w ps ss
      → env.connect w.history (request_connstring request) ≡ none
      → use_spec (answered env w request query ss) ≡ x
      → Meets w₀ w
          (exchange env request query ps failed use_result w)
          (used env (request_connstring request) query ss x)
  used-Meets w₀ w ps ss none o accepted e =
      exchange_undefined env w request query ps ss failed use_result text_ok
        (HasArray-IsFresh w₀ w ps ss o) (HasArray-IsParams w₀ w ps ss o) accepted
        (uses (answered env w request query ss) (queried_by w ps ss)
          ∙ ap (λ x. reported x (queried_by w ps ss)) e)
  used-Meets w₀ w ps ss (some (v, rs)) o accepted e =
      let (w', runs, asks) =
        exchange-Asks env w request query ps ss failed use_result text_ok
          (HasArray-IsFresh w₀ w ps ss o) (HasArray-IsParams w₀ w ps ss o) v rs accepted
          (uses (answered env w request query ss) (queried_by w ps ss)
            ∙ ap (λ x. reported x (queried_by w ps ss)) e) in
      (
        w',
        runs,
        record {
          memory = HasArray-Frees w₀ w w' ps ss o asks.memory;
          reports = asks.reports;
          history = asks.history;
        },
      )

  refusal-Meets :
      (w₀ w : World) (ps : PgParams) (ss : List Text) (message : Text) (x : Option Text)
      → HasArray w₀ w ps ss
      → env.connect w.history (request_connstring request) ≡ some message
      → plain_format message ≡ x
      → Meets w₀ w
          (exchange env request query ps failed use_result w)
          (refusal env (request_connstring request) ss failed x)
  refusal-Meets w₀ w ps ss message none o hard e =
      exchange_format env w request query ps ss failed use_result text_ok
        (HasArray-IsFresh w₀ w ps ss o) (HasArray-IsParams w₀ w ps ss o) message hard e
  refusal-Meets w₀ w ps ss message (some text) o hard e =
      let (w', runs, memory, reports, history) =
        exchange_refused env w request query ps ss failed use_result text_ok
          (HasArray-IsFresh w₀ w ps ss o) (HasArray-IsParams w₀ w ps ss o) message text hard e in
      (
        w',
        runs,
        record {
          memory = HasArray-Memory w₀ w' ps ss (Frees-HasArray w₀ w w' ps ss o memory);
          reports = reports;
          history = history;
        },
      )

  answered_by-Meets :
      (w₀ w : World) (ps : PgParams) (ss : List Text) (x : Option Text)
      → HasArray w₀ w ps ss
      → env.connect w.history (request_connstring request) ≡ x
      → Meets w₀ w
          (exchange env request query ps failed use_result w)
          (answered_by env (request_connstring request) query ss ss failed use_spec w.history x)
  answered_by-Meets w₀ w ps ss none o e = used-Meets w₀ w ps ss _ o e refl
  answered_by-Meets w₀ w ps ss (some message) o e = refusal-Meets w₀ w ps ss message _ o e refl

  pub exchange-Meets :
      (w₀ w : World) (ps : PgParams) (ss : List Text)
      → HasArray w₀ w ps ss
      → Meets w₀ w
          (exchange env request query ps failed use_result w)
          (asks env request query ss failed use_spec w.history)
  exchange-Meets w₀ w ps ss o = answered_by-Meets w₀ w ps ss _ o refl

  pub exchange-Implements :
      Implements
        (exchange env request query none failed use_result)
        (asks env request query [] failed use_spec)
  exchange-Implements = record { at = λ w f. exchange-Meets w w none [] (nothing-HasArray w f) }
