-- ===== src/Service/Total/Acts.antt =====
-- Where the acts are defined: the rules, and the use of each kind of result.
use libzbxpgsql.Base.{
  refl, ℕ, All, Option-cases, ◌≡◌, ◌≤◌, Bool, true, false, Bool-cases, inl, inr, ◌==◌, Option, none,
  some, List, [], ◌∷◌, length, Text, arith,
}
use libzbxpgsql.Runtime.{Env, PgResult, Report, Event, connected}
use libzbxpgsql.Connect.{plain_format}
use libzbxpgsql.Query.{pq_getvalue}
use libzbxpgsql.Query.Laws.{scalar_spec}
use libzbxpgsql.Discovery.{pq_ntuples}
use libzbxpgsql.Discovery.Laws.{IsTable}
use libzbxpgsql.Service.Effects.{Effect, Act, joined, and_then, refusal, used, answered_by}
use libzbxpgsql.Service.Rows.{members?, objects?, rows_spec}
use libzbxpgsql.Service.Everywhere.{first_values, names_spec}
use libzbxpgsql.Service.Plans.{setting_spec}

abbrev pub IsDefined : {A : Type 0} → Option A → Type 0
IsDefined none = ⊥
IsDefined (some a) = Unit

-- Each row of a result has a value for each column.
abbrev pub IsTabular : Env → Type 0
IsTabular env =
    (h : List Event) (c query : Text) (ss : List Text)
    → IsTable (env.execute h c query ss).fields (env.execute h c query ss).rows

-- What the server says of a connection that it refuses is a plain format.
abbrev pub IsPlain : Env → Text → Type 0
IsPlain env c =
    (h : List Event) (message : Text)
    → env.connect h c ≡ some message
    → IsDefined (plain_format message)

-- A query that succeeds has at least `n` columns.
abbrev pub HasColumns : Env → Text → ℕ → Text → List Text → Type 0
HasColumns env c n query ss =
    (h : List Event)
    → (env.execute h c query ss).tuples_ok ≡ true
    → n ≤ length (env.execute h c query ss).fields

-- A property of the value of a defined act.
abbrev pub Holds : {A : Type 0} → (A → Type 0) → Option (Effect A) → Type 0
Holds P none = Unit
Holds P (some e) = P e.value

pub Holds-any : {A : Type 0} → (x : Option (Effect A)) → Holds (λ _. Unit {0}) x
Holds-any none = tt
Holds-any (some e) = tt

module _ {A B : Type 0} where
  pub joined-IsDefined :
      (e : Effect A) (x : Option (Effect B)) → IsDefined x → IsDefined (joined e x)
  joined-IsDefined e none d = d
  joined-IsDefined e (some e') d = tt

  pub and_then-IsDefined :
      (P : A → Type 0) (x : Option (Effect A)) (k : A → Act B) (h : List Event)
      → IsDefined x
      → Holds P x
      → ((a : A) (h : List Event) → P a → IsDefined (k a h))
      → IsDefined (and_then x k h)
  and_then-IsDefined P none k h d p rest = d
  and_then-IsDefined P (some e) k h d p rest = joined-IsDefined e _ (rest e.value _ p)

module _ (env : Env) {B : Type 0} where
  pub refusal-IsDefined :
      (c : Text) (ss : List Text) (failed : B) (x : Option Text)
      → IsDefined x
      → IsDefined (refusal env c ss failed x)
  refusal-IsDefined c ss failed none d = d
  refusal-IsDefined c ss failed (some text) d = tt

  pub used-IsDefined :
      (c query : Text) (ss : List Text) (x : Option (B × List Report))
      → IsDefined x
      → IsDefined (used env c query ss x)
  used-IsDefined c query ss none d = d
  used-IsDefined c query ss (some (v, rs)) d = tt

  -- A query is defined where the use of its result is.
  pub answered_by-IsDefined :
      (c : Text)
      → IsPlain env c
      → (query : Text) (pending ss : List Text) (failed : B)
        (use_spec : PgResult → Option (B × List Report))
      → ((h : List Event) → IsDefined (use_spec (env.execute h c query ss)))
      → (h : List Event) (x : Option Text) → env.connect h c ≡ x
      → IsDefined (answered_by env c query pending ss failed use_spec h x)
  answered_by-IsDefined c plain query pending ss failed use_spec d h none e =
      used-IsDefined c query ss _ (d (connected c ∷ h))
  answered_by-IsDefined c plain query pending ss failed use_spec d h (some message) e =
      refusal-IsDefined c pending failed _ (plain h message e)

abbrev pub AllListed : (Text → Type 0) → Option (List Text) → Type 0
AllListed Q none = Unit
AllListed Q (some names) = All Q names

-- A property of the value of a use.
abbrev pub HoldsSpec : {A : Type 0} → (A → Type 0) → Option (A × List Report) → Type 0
HoldsSpec P none = Unit
HoldsSpec P (some (a, rs)) = P a

module _ (env : Env) {B : Type 0} (P : B → Type 0) where
  refusal-Holds :
      (c : Text) (ss : List Text) (failed : B) (x : Option Text)
      → P failed
      → Holds P (refusal env c ss failed x)
  refusal-Holds c ss failed none p = tt
  refusal-Holds c ss failed (some text) p = p

  used-Holds :
      (c query : Text) (ss : List Text) (x : Option (B × List Report))
      → HoldsSpec P x
      → Holds P (used env c query ss x)
  used-Holds c query ss none p = tt
  used-Holds c query ss (some (v, rs)) p = p

  pub answered_by-Holds :
      (c query : Text) (pending ss : List Text) (failed : B)
      (use_spec : PgResult → Option (B × List Report))
      → P failed
      → ((h : List Event) → HoldsSpec P (use_spec (env.execute h c query ss)))
      → (h : List Event) (x : Option Text)
      → Holds P (answered_by env c query pending ss failed use_spec h x)
  answered_by-Holds c query pending ss failed use_spec p q h none =
      used-Holds c query ss _ (q (connected c ∷ h))
  answered_by-Holds c query pending ss failed use_spec p q h (some message) =
      refusal-Holds c pending failed (plain_format message) p

module _ (env : Env) where
  pub scalar_spec-IsDefined :
      (query : Text) (r : PgResult)
      → IsTable r.fields r.rows
      → (r.tuples_ok ≡ true → 1 ≤ length r.fields)
      → IsDefined (scalar_spec env query r)
  unfolding scalar_spec
  scalar_spec-IsDefined query r t l = go r.tuples_ok r.rows t l
    where
      go :
          (ok : Bool) (rows : List (List Text))
          → IsTable r.fields rows
          → (ok ≡ true → 1 ≤ length r.fields)
          → IsDefined (scalar_spec env query (record r { tuples_ok = ok; rows = rows }))
      go false rows t l = tt
      go true [] t l = tt
      go true ([] ∷ rows) t l = absurd (ground (arith, t, l refl))
      go true ((value ∷ values) ∷ rows) t l = tt

  members?-IsDefined :
      (names values : List Text)
      → length values ≡ length names
      → IsDefined (members? env names values)
  members?-IsDefined [] values e = tt
  members?-IsDefined (name ∷ names) [] e = ground (arith, e)
  members?-IsDefined (name ∷ names) (value ∷ values) e =
      ground (arith, members?-IsDefined names values (ground (arith, e)))

  pub objects?-IsDefined :
      (fields : List Text) (rows : List (List Text))
      → IsTable fields rows
      → IsDefined (objects? env fields rows)
  objects?-IsDefined fields [] t = tt
  objects?-IsDefined fields (row ∷ rows) t =
      ground (arith, members?-IsDefined fields row t.0, objects?-IsDefined fields rows t.1)

  pub rows_spec-IsDefined : (r : PgResult) → IsTable r.fields r.rows → IsDefined (rows_spec env r)
  rows_spec-IsDefined r t = elim (Bool-cases r.tuples_ok) [
    | inl ok ↦ ground (arith, ok, objects?-IsDefined r.fields r.rows t)
    | inr bad ↦ ground (arith, bad)
  ]

  first_values-IsDefined :
      (fields : List Text) (rows : List (List Text))
      → 1 ≤ length fields
      → IsTable fields rows
      → IsDefined (first_values rows)
  first_values-IsDefined fields [] l t = tt
  first_values-IsDefined fields ([] ∷ rows) l t = absurd (ground (arith, t, l))
  first_values-IsDefined fields ((value ∷ values) ∷ rows) l t =
      ground (arith, first_values-IsDefined fields rows l t.1)

  pub names_spec-IsDefined :
      (r : PgResult)
      → IsTable r.fields r.rows
      → (r.tuples_ok ≡ true → 1 ≤ length r.fields)
      → IsDefined (names_spec env r)
  unfolding pq_ntuples
  names_spec-IsDefined r t l = elim (Bool-cases r.tuples_ok) [
    | inr bad ↦ ground (arith, bad)
    | inl good ↦ elim (Bool-cases (pq_ntuples r == 0)) [
      | inl empty ↦ ground (arith, empty)
      | inr some_rows ↦ ground (arith, some_rows, first_values-IsDefined r.fields r.rows (l good) t)
    ]
  ]

  pub setting_spec-IsDefined :
      (r : PgResult)
      → IsTable r.fields r.rows
      → (r.tuples_ok ≡ true → 2 ≤ length r.fields)
      → IsDefined (setting_spec env r)
  unfolding pq_getvalue pq_ntuples
  setting_spec-IsDefined r t l = go r.tuples_ok r.rows t l
    where
      go :
          (ok : Bool) (rows : List (List Text))
          → IsTable r.fields rows
          → (ok ≡ true → 2 ≤ length r.fields)
          → IsDefined (setting_spec env (record r { tuples_ok = ok; rows = rows }))
      go false rows t l = tt
      go true [] t l = tt
      go true ([] ∷ rows) t l = absurd (ground (arith, t, l refl))
      go true ((value ∷ []) ∷ rows) t l = absurd (ground (arith, t, l refl))
      go true ((value ∷ type ∷ values) ∷ rows) t l = ground arith

  -- The names that a server lists have a property that all that it may list have.
  pub names_spec-HoldsSpec :
      (Q : Text → Type 0) (r : PgResult)
      → ((names : List Text) → first_values r.rows ≡ some names → All Q names)
      → HoldsSpec (AllListed Q) (names_spec env r)
  names_spec-HoldsSpec Q r q = elim (Bool-cases (pq_ntuples r == 0)) [
    | inl empty ↦ rw empty tt
    | inr some_rows ↦ elim (Option-cases (first_values r.rows)) [
      | inl lost ↦ rw (some_rows, lost) tt
      | inr (names, found) ↦ rw (some_rows, found) (q names found)
    ]
  ]
