-- ===== src/Service/Messages/Uses.antt =====
-- Effects whose failures come with a message: the rules, and the use of each kind of result.
use libzbxpgsql.Base.{
  ◌≡◌, refl, sym, subst, ◌⊎◌, Bool, true, false, Bool-cases, Option-cases, inl, inr, ◌==◌, Option,
  none, some, List, [], ◌∷◌, ◌++◌, Text, arith,
}
use libzbxpgsql.Runtime.{Env, PgResult, Report, ui64, dbl, str, msg, Event, JsonCall}
use libzbxpgsql.Connect.{plain_format}
use libzbxpgsql.Numbers.{atoi}
use libzbxpgsql.Query.{ResultType, pq_getvalue}
use libzbxpgsql.Query.Laws.{scalar_spec}
use libzbxpgsql.Discovery.{pq_ntuples}
use libzbxpgsql.Service.Effects.{Effect, Act, joined, and_then, refusal, used, answered_by}
use libzbxpgsql.Service.Values.{set_act, told_act}
use libzbxpgsql.Query.Scalar.{value_report}
use libzbxpgsql.Service.Rows.{objects?, rows_spec}
use libzbxpgsql.Service.Everywhere.{first_values, names_spec, document_act}
use libzbxpgsql.Service.Plans.{index_spec}

-- The last thing that is set is a message.
abbrev pub Told : List Report → Type 0
Told (msg text ∷ rs) = Unit
Told _ = ⊥

pub Told-append : (rs ss : List Report) → Told rs → Told (rs ++ ss)
Told-append [] ss t = elim t [ ]
Told-append (ui64 n ∷ rs) ss t = elim t [ ]
Told-append (dbl text ∷ rs) ss t = elim t [ ]
Told-append (str text ∷ rs) ss t = elim t [ ]
Told-append (msg text ∷ rs) ss t = tt

abbrev pub Each : {A : Type 0} → (Effect A → Type 0) → Option (Effect A) → Type 0
Each P none = Unit
Each P (some e) = P e

-- Every value that stands for a failure comes with a message.
abbrev pub Explained : {A : Type 0} → (A → Bool) → Option (Effect A) → Type 0
Explained ok x = Each (λ e. ok e.value ≡ false → Told e.said) x

abbrev pub ExplainedSpec : {A : Type 0} → (A → Bool) → Option (A × List Report) → Type 0
ExplainedSpec ok none = Unit
ExplainedSpec ok (some (a, rs)) = ok a ≡ false → Told rs

-- What follows sets a message of its own, or fails in silence only behind a failure.
abbrev pub Passes : {A B : Type 0} → (A → Bool) → (B → Bool) → A → Option (Effect B) → Type 0
Passes ok ok' a x =
    Each (λ e. ok' e.value ≡ false → Told e.said ⊎ ((e.said ≡ []) × (ok a ≡ false))) x

abbrev pub is_found : {A : Type 0} → Option A → Bool
is_found none = false
is_found (some a) = true

abbrev pub itself : Bool → Bool
itself b = b

module _ {A B : Type 0} (ok : A → Bool) (ok' : B → Bool) where
  pub joined-Explained :
      (e : Effect A) (x : Option (Effect B))
      → (ok e.value ≡ false → Told e.said)
      → Passes ok ok' e.value x
      → Explained ok' (joined e x)
  joined-Explained e none t p = tt
  joined-Explained e (some e') t p = λ failed. elim (p failed) [
    | inl told ↦ Told-append e'.said e.said told
    | inr (silent, before) ↦ subst (λ rs. Told (rs ++ e.said)) (sym silent) (t before)
  ]

  pub and_then-Explained :
      (x : Option (Effect A)) (k : A → Act B) (h : List Event)
      → Explained ok x
      → ((a : A) (h : List Event) → Passes ok ok' a (k a h))
      → Explained ok' (and_then x k h)
  and_then-Explained none k h t p = tt
  and_then-Explained (some e) k h t p = joined-Explained e _ t (p e.value _)

module _ (env : Env) {B : Type 0} (ok : B → Bool) where
  pub refusal-Explained :
      (c : Text) (ss : List Text) (failed : B) (x : Option Text)
      → Explained ok (refusal env c ss failed x)
  refusal-Explained c ss failed none = tt
  refusal-Explained c ss failed (some text) = λ _. tt

  pub used-Explained :
      (c query : Text) (ss : List Text) (x : Option (B × List Report))
      → ExplainedSpec ok x
      → Explained ok (used env c query ss x)
  used-Explained c query ss none t = tt
  used-Explained c query ss (some (v, rs)) t = t

  pub answered_by-Explained :
      (c query : Text) (pending ss : List Text) (failed : B)
      (use_spec : PgResult → Option (B × List Report))
      → ((r : PgResult) → ExplainedSpec ok (use_spec r))
      → (h : List Event) (x : Option Text)
      → Explained ok (answered_by env c query pending ss failed use_spec h x)
  answered_by-Explained c query pending ss failed use_spec t h none =
      used-Explained c query ss _ (t _)
  answered_by-Explained c query pending ss failed use_spec t h (some message) =
      refusal-Explained c pending failed (plain_format message)

module _ (env : Env) where
  pub scalar_spec-Explained :
      (query : Text) (r : PgResult) → ExplainedSpec is_found (scalar_spec env query r)
  unfolding scalar_spec
  scalar_spec-Explained query r = go r.tuples_ok r.rows
    where
      go :
          (ok : Bool) (lines : List (List Text))
          → ExplainedSpec is_found
              (scalar_spec env query (record r { tuples_ok = ok; rows = lines }))
      go false lines = λ _. tt
      go true [] = λ _. tt
      go true ([] ∷ lines) = tt
      go true ((v ∷ values) ∷ lines) = λ e. absurd (ground (arith, e))

  pub rows_spec-Explained : (r : PgResult) → ExplainedSpec itself (rows_spec env r)
  rows_spec-Explained r = elim (Bool-cases r.tuples_ok) [
    | inl good ↦ elim (Option-cases (objects? env r.fields r.rows)) [
      | inl lost ↦ rw (good, lost) tt
      | inr (calls, found) ↦ rw (good, found) (λ e. absurd (ground (arith, e)))
    ]
    | inr bad ↦ rw bad (λ _. tt)
  ]

  pub names_spec-Explained : (r : PgResult) → ExplainedSpec is_found (names_spec env r)
  names_spec-Explained r = elim (Bool-cases (pq_ntuples r == 0)) [
    | inl empty ↦ rw empty (λ _. tt)
    | inr some_rows ↦ elim (Option-cases (first_values r.rows)) [
      | inl lost ↦ rw (some_rows, lost) tt
      | inr (names, found) ↦ rw (some_rows, found) (λ e. absurd (ground (arith, e)))
    ]
  ]

  pub index_spec-Explained :
      (query : Text) (r : PgResult) → ExplainedSpec itself (index_spec env query r)
  index_spec-Explained query r = elim (Bool-cases r.tuples_ok) [
    | inr bad ↦ rw bad (λ _. tt)
    | inl good ↦ elim (Bool-cases (pq_ntuples r == 0)) [
      | inl empty ↦ rw (empty, good) (λ _. tt)
      | inr some_rows ↦ elim (Option-cases (pq_getvalue r 0 0)) [
        | inl lost ↦ rw (some_rows, lost, good) tt
        | inr (v, found) ↦ elim (Option-cases (atoi v)) [
          | inl over ↦ rw (some_rows, found, over, good) tt
          | inr (n, number) ↦ rw (some_rows, found, number, good) (λ e. absurd (ground (arith, e)))
        ]
      ]
    ]
  ]

  told_act-Passes :
      (v : Text) (x : Option Report) (h : List Event)
      → Passes is_found itself (some v) (told_act env x h)
  told_act-Passes v none h = tt
  told_act-Passes v (some r) h = λ e. absurd (ground (arith, e))

  pub set_act-Passes :
      (type : ResultType) (x : Option Text) (h : List Event)
      → Passes is_found itself x (set_act env type x h)
  set_act-Passes type none h = λ _. inr (refl, refl)
  set_act-Passes type (some v) h = told_act-Passes v (value_report env type v) h

  pub document_act-Passes :
      (x : Option (List JsonCall)) (h : List Event)
      → Passes is_found itself x (document_act env x h)
  document_act-Passes none h = λ _. inr (refl, refl)
  document_act-Passes (some calls) h = λ e. absurd (ground (arith, e))
