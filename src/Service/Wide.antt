-- ===== src/Service/Wide.antt =====
-- The discovery on all databases: the list of the databases, then one round for each.
use libzbxpgsql.Base.{
  suc, ◌≡◌, refl, sym, subst, Bool, true, false, Option, none, some, List, [], ◌∷◌, ◌++◌, All, Text,
  IsText, arith,
}
use libzbxpgsql.Runtime.{
  result, Env, World, Request, PgResult, JsonCall, Report, Event, connected, executed,
}
use libzbxpgsql.Params.Laws.{IsFresh, Frees-IsFresh}
use libzbxpgsql.Connect.{plain_format}
use libzbxpgsql.Connect.Laws.{IsTextRequest}
use libzbxpgsql.Query.Exchange.{closed, closed-Frees, refused-Frees}
use libzbxpgsql.Discovery.{add_rows, discover_each}
use libzbxpgsql.Discovery.Rounds.{
  db_connstring, db_result, db_history, left_over, discover_each_rows, discover_each_undefined,
  discover_each_failed, discover_each-refused, discover_each_format,
}
use libzbxpgsql.Service.Effects.{Effect, Act, returns, joined, refusal}
use libzbxpgsql.Service.Meets.{Leaves, Meets, Meets-joined, Implements, Implements-returns}
use libzbxpgsql.Service.Rows.{objects?, query_error, add_rows-objects?}

module _ (env : Env) (request : Request) (query : Text) where
  -- a round that has got objects, and one that has not
  abbrev pub round_rows :
      List Event
      → Text
      → (List JsonCall → Act (Option (List JsonCall)))
      → Option (List JsonCall)
      → Option (Effect (Option (List JsonCall)))
  round_rows h db next none = none
  round_rows h db next (some found) =
      joined
        (record {
          value = tt {0};
          said = [];
          asked =
              executed (db_connstring request db) query []
              ∷ connected (db_connstring request db)
              ∷ [];
          clean = true;
        })
        (next found (db_history request query h db))

  -- A database whose query fails ends the discovery, and its result is never given back.
  abbrev pub round_of :
      List Event
      → Text
      → (List JsonCall → Act (Option (List JsonCall)))
      → Bool
      → Option (Effect (Option (List JsonCall)))
  round_of h db next true = round_rows h db next (
      objects? env (db_result env request query h db).fields
        (db_result env request query h db).rows)
  round_of h db next false = some (record {
    value = none;
    said = query_error env (db_result env request query h db) ∷ [];
    asked =
        executed (db_connstring request db) query [] ∷ connected (db_connstring request db) ∷ [];
    clean = false;
  })

  abbrev pub round :
      List Event
      → Text
      → (List JsonCall → Act (Option (List JsonCall)))
      → Option Text
      → Option (Effect (Option (List JsonCall)))
  round h db next none = round_of h db next (db_result env request query h db).tuples_ok
  round h db next (some message) =
      refusal env (db_connstring request db) [] none (plain_format message)

  -- The databases one after the other, behind the objects so far.
  abbrev pub each_act : List JsonCall → List Text → Act (Option (List JsonCall))
  each_act calls [] h = returns (some calls) h
  each_act calls (db ∷ dbs) h =
      round h db (λ found. each_act (calls ++ found) dbs) (env.connect h (db_connstring request db))

  left_over-Leaves :
      (w : World) (c : Text) (r : PgResult) (said : Report)
      → IsFresh w
      → Leaves w (left_over env w c query r said)
  left_over-Leaves w c r said f = record {
    keeps = record {
      old = λ p l. ground arith;
      fresh = λ p l. ground (arith, f p);
      grows = omega arith;
    };
    left = (suc w.next, result r, omega arith, omega arith, ground arith);
  }

  module _ (text_ok : IsTextRequest request) (w : World) (calls : List JsonCall) (db : Text)
      (dbs : List Text) (f : IsFresh w) (t : IsText db)
      (next : (found : List JsonCall)
        → Implements
            (discover_each env request query none (calls ++ found) dbs)
            (each_act (calls ++ found) dbs)) where
    abbrev run : Option (Option (List JsonCall) × World)
    run = discover_each env request query none calls (db ∷ dbs) w

    abbrev go_on : List JsonCall → Act (Option (List JsonCall))
    go_on found = each_act (calls ++ found) dbs

    rows-Meets :
        (x : Option (List JsonCall))
        → env.connect w.history (db_connstring request db) ≡ none
        → (db_result env request query w.history db).tuples_ok ≡ true
        → add_rows env
            (db_result env request query w.history db)
            0
            (db_result env request query w.history db).rows
          ≡ x
        → Meets w w run (round_rows w.history db go_on x)
    rows-Meets none accepted ok rows =
        discover_each_undefined env request query text_ok w calls db dbs f t accepted ok rows
    rows-Meets (some found) accepted ok rows =
        let c = db_connstring request db in
        let r = db_result env request query w.history db in
        let w₁ = closed w c query none [] r [] in
        let frees = closed-Frees w c query none [] r [] f in
        subst (λ x. Meets w w x (round_rows w.history db go_on (some found)))
          (sym (
            discover_each_rows env request query text_ok w calls db dbs f t accepted ok found rows))
          (Meets-joined
            (record {
              value = tt {0};
              said = [];
              asked = executed c query [] ∷ connected c ∷ [];
              clean = true;
            })
            w w w₁ _ _ f (record { memory = frees; reports = refl; history = refl })
            ((next found).at w₁ (Frees-IsFresh none w w₁ frees f)))

    result-Meets :
        (b : Bool)
        → env.connect w.history (db_connstring request db) ≡ none
        → (db_result env request query w.history db).tuples_ok ≡ b
        → Meets w w run (round_of w.history db go_on b)
    result-Meets true accepted ok = rows-Meets _ accepted ok (
        add_rows-objects? env (db_result env request query w.history db) []
          (db_result env request query w.history db).rows refl)
    result-Meets false accepted bad = (
      _,
      discover_each_failed env request query text_ok w calls db dbs f t accepted bad,
      record {
        memory =
            left_over-Leaves w (db_connstring request db) (db_result env request query w.history db)
              _ f;
        reports = refl;
        history = refl;
      },
    )

    refused-Meets :
        (message : Text) (x : Option Text)
        → env.connect w.history (db_connstring request db) ≡ some message
        → plain_format message ≡ x
        → Meets w w run (refusal env (db_connstring request db) [] none x)
    refused-Meets message none hard format =
        discover_each_format env request query text_ok w calls db dbs f t message hard format
    refused-Meets message (some text) hard format = (
      _,
      discover_each-refused env request query text_ok w calls db dbs f t message text hard format,
      record {
        memory = refused-Frees env w (db_connstring request db) true text f;
        reports = refl;
        history = refl;
      },
    )

    round-Meets :
        (x : Option Text)
        → env.connect w.history (db_connstring request db) ≡ x
        → Meets w w run (round w.history db go_on x)
    round-Meets none e = result-Meets _ e refl
    round-Meets (some message) e = refused-Meets message _ e refl

  pub discover_each-Implements :
      IsTextRequest request
      → (dbs : List Text) (calls : List JsonCall) → All IsText dbs
      → Implements (discover_each env request query none calls dbs) (each_act calls dbs)
  unfolding discover_each
  discover_each-Implements text_ok [] calls t = Implements-returns (some calls)
  discover_each-Implements text_ok (db ∷ dbs) calls t = record {
    at = λ w f.
        round-Meets text_ok w calls db dbs f t.0
          (λ found. discover_each-Implements text_ok dbs (calls ++ found) t.1) _ refl;
  }
