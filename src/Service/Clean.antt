-- ===== src/Service/Clean.antt =====
-- Which effects give back all memory, by how they are put together.
use libzbxpgsql.Base.{
  ◌≡◌, refl, Bool, true, false, Option, none, some, List, [], ◌∷◌, ◌++◌, All, Text, arith,
}
use libzbxpgsql.Runtime.{Env, Request, PgResult, Report, Event, JsonCall, connected, executed}
use libzbxpgsql.Params.Owned.{is_empty}
use libzbxpgsql.Connect.{plain_format}
use libzbxpgsql.Connect.Laws.{request_connstring}
use libzbxpgsql.Numbers.{atol}
use libzbxpgsql.Query.{ResultType}
use libzbxpgsql.Query.Laws.{scalar_spec}
use libzbxpgsql.Query.Scalar.{value_report}
use libzbxpgsql.Discovery.{get_databases_query}
use libzbxpgsql.Discovery.Rounds.{db_connstring, db_history}
use libzbxpgsql.Service.Effects.{
  Effect, Act, lifted, joined, and_then, refusal, used, answered_by, asks,
}
use libzbxpgsql.Service.Values.{
  told_act, set_act, value_act, version_query, number_act, version_act, old_act,
}
use libzbxpgsql.Service.Wide.{round_rows, round_of, round, each_act}
use libzbxpgsql.Service.Everywhere.{names_spec, document_act, databases_act, all_rows_act}
use libzbxpgsql.Service.Rules.{IsClean}
use libzbxpgsql.Service.Total.Acts.{Holds, Holds-any, AllListed}
use libzbxpgsql.Service.Total.Rounds.{EachListed, listed-Holds}

module _ {A B : Type 0} where
  joined-IsClean :
      (e : Effect A) (x : Option (Effect B)) → e.clean ≡ true → IsClean x → IsClean (joined e x)
  joined-IsClean e none p q = tt
  joined-IsClean e (some e') p q = rw p q

  -- One act after the other, where the value of the first has a property.
  and_then-Holds :
      (P : A → Type 0) (x : Option (Effect A)) (k : A → Act B) (h : List Event)
      → IsClean x
      → Holds P x
      → ((a : A) (h : List Event) → P a → IsClean (k a h))
      → IsClean (and_then x k h)
  and_then-Holds P none k h p v rest = tt
  and_then-Holds P (some e) k h p v rest = joined-IsClean e _ p (rest e.value _ v)

  pub and_then-IsClean :
      (x : Option (Effect A)) (k : A → Act B) (h : List Event)
      → IsClean x
      → ((a : A) (h : List Event) → IsClean (k a h))
      → IsClean (and_then x k h)
  and_then-IsClean x k h p rest =
      and_then-Holds (λ _. Unit) x k h p (Holds-any x) (λ a h _. rest a h)

lifted-IsClean : {B : Type 0} → (x : Option B) (h : List Event) → IsClean (lifted x h)
lifted-IsClean none h = tt
lifted-IsClean (some b) h = refl

module _ (env : Env) {B : Type 0} where
  refusal-IsClean :
      (c : Text) (ss : List Text) (failed : B) (x : Option Text)
      → is_empty ss ≡ true
      → IsClean (refusal env c ss failed x)
  refusal-IsClean c ss failed none e = tt
  refusal-IsClean c ss failed (some text) e = e

  used-IsClean :
      (c query : Text) (ss : List Text) (x : Option (B × List Report))
      → IsClean (used env c query ss x)
  used-IsClean c query ss none = tt
  used-IsClean c query ss (some (v, rs)) = refl

  -- A query leaves nothing behind unless the connection is refused while parameters are pending.
  pub answered_by-IsClean :
      (c query : Text) (pending ss : List Text) (failed : B)
      (use_spec : PgResult → Option (B × List Report)) (h : List Event) (x : Option Text)
      → ((message : Text) → x ≡ some message → is_empty pending ≡ true)
      → IsClean (answered_by env c query pending ss failed use_spec h x)
  answered_by-IsClean c query pending ss failed use_spec h none e = used-IsClean c query ss _
  answered_by-IsClean c query pending ss failed use_spec h (some message) e =
      refusal-IsClean c pending failed (plain_format message) (e message refl)

module _ (env : Env) (request : Request) where
  number_act-IsClean : (x : Option Text) (h : List Event) → IsClean (number_act env x h)
  number_act-IsClean none h = refl
  number_act-IsClean (some text) h = lifted-IsClean (atol text) h

  -- Asking for the version leaves nothing behind.
  pub old_act-IsClean : (h : List Event) → IsClean (old_act env request h)
  old_act-IsClean h =
      and_then-IsClean (version_act env request h) _ h
        (and_then-IsClean
          (asks env request (version_query env) [] none (scalar_spec env (version_query env)) h)
          (number_act env) h
          (answered_by-IsClean env (request_connstring request) (version_query env) [] [] none
            (scalar_spec env (version_query env)) h _ (λ message e. refl))
          number_act-IsClean)
        (λ n h. refl)

  told_act-IsClean : (x : Option Report) (h : List Event) → IsClean (told_act env x h)
  told_act-IsClean none h = tt
  told_act-IsClean (some r) h = refl

  set_act-IsClean :
      (type : ResultType) (x : Option Text) (h : List Event) → IsClean (set_act env type x h)
  set_act-IsClean type none h = refl
  set_act-IsClean type (some v) h = told_act-IsClean (value_report env type v) h

  pub value_act-IsClean :
      (type : ResultType) (query : Text) (ss : List Text) (h : List Event)
      → ((message : Text)
          → env.connect h (request_connstring request) ≡ some message
          → is_empty ss ≡ true)
      → IsClean (value_act env request type query ss h)
  value_act-IsClean type query ss h spared =
      and_then-IsClean (asks env request query ss none (scalar_spec env query) h) (set_act env type)
        h
        (answered_by-IsClean env (request_connstring request) query ss ss none
          (scalar_spec env query) h _ spared)
        (set_act-IsClean type)

  -- A query on a database succeeds.
  abbrev pub Succeeds : Text → Text → Type 0
  Succeeds query db =
      (h : List Event) → (env.execute h (db_connstring request db) query []).tuples_ok ≡ true

  -- The rounds leave nothing behind where each query succeeds.
  each_act-IsClean :
      (query : Text) (calls : List JsonCall) (dbs : List Text) (h : List Event)
      → All (Succeeds query) dbs
      → IsClean (each_act env request query calls dbs h)
  each_act-IsClean query calls [] h ok = refl
  each_act-IsClean query calls (db ∷ dbs) h ok =
      go (λ found h. each_act-IsClean query (calls ++ found) dbs h ok.1)
        (env.connect h (db_connstring request db))
    where
      next : List JsonCall → Act (Option (List JsonCall))
      next found = each_act env request query (calls ++ found) dbs

      go :
          ((found : List JsonCall) (h : List Event) → IsClean (next found h))
          → (x : Option Text) → IsClean (round env request query h db next x)
      go rest none = answered _ (ok.0 (connected (db_connstring request db) ∷ h))
        where
          found_rows :
              (x : Option (List JsonCall)) → IsClean (round_rows env request query h db next x)
          found_rows none = tt
          found_rows (some found) =
              joined-IsClean
                (record {
                  value = tt {0};
                  said = [];
                  asked =
                      executed (db_connstring request db) query []
                      ∷ connected (db_connstring request db)
                      ∷ [];
                  clean = true;
                })
                (next found (db_history request query h db)) refl
                (rest found (db_history request query h db))

          answered : (b : Bool) → b ≡ true → IsClean (round_of env request query h db next b)
          answered true e = found_rows _
          answered false e = absurd (ground (arith, e))
      go rest (some message) = refusal-IsClean env (db_connstring request db) [] none _ refl

  document_act-IsClean :
      (x : Option (List JsonCall)) (h : List Event) → IsClean (document_act env x h)
  document_act-IsClean none h = refl
  document_act-IsClean (some calls) h = refl

  databases_act-IsClean :
      (query : Text) (x : Option (List Text)) (h : List Event)
      → AllListed (Succeeds query) x
      → IsClean (databases_act env request query x h)
  databases_act-IsClean query none h ok = refl
  databases_act-IsClean query (some names) h ok =
      and_then-IsClean (each_act env request query [] names h) (document_act env) h
        (each_act-IsClean query [] names h ok) document_act-IsClean

  pub all_rows_act-IsClean :
      (query : Text) (h : List Event)
      → EachListed env request (Succeeds query)
      → IsClean (all_rows_act env request query h)
  all_rows_act-IsClean query h listed =
      and_then-Holds (AllListed (Succeeds query)) _ (databases_act env request query) h
        (answered_by-IsClean env (request_connstring request) get_databases_query [] [] none
          (names_spec env) h _ (λ message e. refl))
        (listed-Holds env request (Succeeds query) listed h) (databases_act-IsClean query)
