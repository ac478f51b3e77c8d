-- ===== src/Service/Total/Rounds.antt =====
-- The discovery on all databases, and the probe, are defined.
use libzbxpgsql.Base.{
  All, ◌≡◌, refl, Bool, true, false, Option, none, some, List, [], ◌∷◌, ◌++◌, Text, arith,
}
use libzbxpgsql.Runtime.{Env, Request, PgResult, Report, Event, JsonCall, connected, executed}
use libzbxpgsql.Connect.Laws.{request_connstring}
use libzbxpgsql.Discovery.{get_databases_query}
use libzbxpgsql.Discovery.Rounds.{db_connstring, db_history}
use libzbxpgsql.Service.Effects.{Act, asks}
use libzbxpgsql.Service.Wide.{round_rows, round_of, round, each_act}
use libzbxpgsql.Service.Everywhere.{
  first_values, names_spec, document_act, databases_act, all_rows_act,
}
use libzbxpgsql.Service.Plans.{probe_act}
use libzbxpgsql.Service.Total.Acts.{
  IsDefined, IsTabular, IsPlain, HasColumns, AllListed, Holds, Holds-any, answered_by-Holds,
  names_spec-HoldsSpec, joined-IsDefined, and_then-IsDefined, refusal-IsDefined,
  answered_by-IsDefined, objects?-IsDefined, names_spec-IsDefined,
}

-- What holds of every database that the server may list for a request.
abbrev pub EachListed : Env → Request → (Text → Type 0) → Type 0
EachListed env request Q =
    (h : List Event) (names : List Text)
    → first_values (env.execute h (request_connstring request) get_databases_query []).rows
      ≡ some names
    → All Q names

pub listed-Holds :
    (env : Env) (request : Request) (Q : Text → Type 0)
    → EachListed env request Q
    → (h : List Event)
    → Holds (AllListed Q) (asks env request get_databases_query [] none (names_spec env) h)
listed-Holds env request Q listed h =
    answered_by-Holds env (AllListed Q) (request_connstring request) get_databases_query [] [] none
      (names_spec env) tt (λ h. names_spec-HoldsSpec env Q _ (listed h)) h _

module _ (env : Env) where
  module _ (tables : IsTabular env) (request : Request) where
    pub asks-IsDefined :
        {B : Type 0}
        → IsPlain env (request_connstring request)
        → (query : Text) (ss : List Text) (failed : B)
          (use_spec : PgResult → Option (B × List Report)) (h : List Event)
        → ((h : List Event)
            → IsDefined (use_spec (env.execute h (request_connstring request) query ss)))
        → IsDefined (asks env request query ss failed use_spec h)
    asks-IsDefined plain query ss failed use_spec h d =
        answered_by-IsDefined env (request_connstring request) plain query ss ss failed use_spec d h
          _ refl

    each_act-IsDefined :
        (query : Text) (calls : List JsonCall) (dbs : List Text) (h : List Event)
        → All (λ db. IsPlain env (db_connstring request db)) dbs
        → IsDefined (each_act env request query calls dbs h)
    each_act-IsDefined query calls [] h plain = tt
    each_act-IsDefined query calls (db ∷ dbs) h plain =
        go (λ found h. each_act-IsDefined query (calls ++ found) dbs h plain.1) _ refl
      where
        next : List JsonCall → Act (Option (List JsonCall))
        next found = each_act env request query (calls ++ found) dbs

        go :
            ((found : List JsonCall) (h : List Event) → IsDefined (next found h))
            → (x : Option Text) → env.connect h (db_connstring request db) ≡ x
            → IsDefined (round env request query h db next x)
        go rest none e = answered _
          where
            found_rows :
                (x : Option (List JsonCall))
                → IsDefined x
                → IsDefined (round_rows env request query h db next x)
            found_rows none d = d
            found_rows (some found) d =
                joined-IsDefined
                  (record {
                    value = tt {0};
                    said = [];
                    asked =
                        executed (db_connstring request db) query []
                        ∷ connected (db_connstring request db)
                        ∷ [];
                    clean = true;
                  })
                  (next found (db_history request query h db))
                  (rest found (db_history request query h db))

            answered : (ok : Bool) → IsDefined (round_of env request query h db next ok)
            answered true = found_rows _ (objects?-IsDefined env _ _ (tables _ _ query []))
            answered false = tt
        go rest (some message) e =
            refusal-IsDefined env (db_connstring request db) [] none _ (plain.0 h message e)

    document_act-IsDefined :
        (x : Option (List JsonCall)) (h : List Event) → IsDefined (document_act env x h)
    document_act-IsDefined none h = tt
    document_act-IsDefined (some calls) h = tt

    databases_act-IsDefined :
        (query : Text) (x : Option (List Text)) (h : List Event)
        → AllListed (λ db. IsPlain env (db_connstring request db)) x
        → IsDefined (databases_act env request query x h)
    databases_act-IsDefined query none h plain = tt
    databases_act-IsDefined query (some names) h plain =
        and_then-IsDefined (λ _. Unit) _ (document_act env) h
          (each_act-IsDefined query [] names h plain) (Holds-any _)
          (λ x h _. document_act-IsDefined x h)

    pub all_rows_act-IsDefined :
        (query : Text) (h : List Event)
        → IsPlain env (request_connstring request)
        → HasColumns env (request_connstring request) 1 get_databases_query []
        → EachListed env request (λ db. IsPlain env (db_connstring request db))
        → IsDefined (all_rows_act env request query h)
    all_rows_act-IsDefined query h plain columns listed =
        and_then-IsDefined (AllListed (λ db. IsPlain env (db_connstring request db))) _
          (databases_act env request query) h
          (asks-IsDefined plain get_databases_query [] none (names_spec env) h (λ h.
            names_spec-IsDefined env
              (env.execute h (request_connstring request) get_databases_query [])
              (tables h (request_connstring request) get_databases_query []) (columns h)))
          (listed-Holds env request (λ db. IsPlain env (db_connstring request db)) listed h)
          (λ x h p. databases_act-IsDefined query x h p)

    pub probe_act-IsDefined :
        (h : List Event)
        → IsPlain env (request_connstring request)
        → IsDefined (probe_act env request h)
    probe_act-IsDefined h plain = go _ refl
      where
        go :
            (x : Option Text)
            → env.connect h (request_connstring request) ≡ x
            → IsDefined (probe_act env request h)
        go none e = ground (arith, e)
        go (some message) e = ground (arith, e, plain h message e)
