-- ===== src/Params/Owned.antt =====
-- Arrays that a handler builds itself: what `param_append` does to the memory that was there before.
use libzbxpgsql.Base.{
  ℕ, Bool, true, false, ◌+◌, ◌≤◌, ◌<◌, ◌≡◌, refl, ◌∙◌, Option, none, some, List, [], ◌∷◌, ◌++◌,
  Text, length, ◌==◌, if◌then◌else◌, arith,
}
use native.Mathlib.Nat.{le_refl}
use libzbxpgsql.Runtime.{World, Object, params, alloc, write}
use libzbxpgsql.Runtime.Laws.{load-some, free-some}
use libzbxpgsql.Params.{PgParams, param_append}
use libzbxpgsql.Params.Laws.{
  array, IsParams, IsFresh, Frees, appended, grown, with_block, param_len-IsParams,
}

-- What stands at an address beside the array.
abbrev pub owner : PgParams → List Text → ℕ → Option Object → Option Object
owner none ss p o = o
owner (some q) ss p o = if q == p then some (params (array ss)) else o

abbrev pub is_empty : List Text → Bool
is_empty [] = true
is_empty (s ∷ ss) = false

abbrev pub IsPlaced : World → World → PgParams → List Text → Type 0
IsPlaced w₀ w none ss = ss ≡ []
IsPlaced w₀ w (some q) ss = (w₀.next ≤ q) × (q < w.next) × (is_empty ss ≡ false)

-- The memory of `w₀` with the array of `ps` beside it, which holds the strings `ss`.
pub record HasArray (w₀ w : World) (ps : PgParams) (ss : List Text) : Type 0 where
  pub heap : (p : ℕ) → w.heap p ≡ owner ps ss p (w₀.heap p)
  pub was_fresh : IsFresh w₀
  pub grows : w₀.next ≤ w.next
  pub placed : IsPlaced w₀ w ps ss

-- Since `w₀` the array of `ps` has been built, with the strings `ss`, and nothing else has changed.
pub record Owns (w₀ w : World) (ps : PgParams) (ss : List Text) : Type 0 where
  pub memory : HasArray w₀ w ps ss
  pub reports : w.reports ≡ w₀.reports
  pub history : w.history ≡ w₀.history

pub nothing-HasArray : (w : World) → IsFresh w → HasArray w w none []
nothing-HasArray w f = record { heap = λ p. refl; was_fresh = f; grows = le_refl _; placed = refl }

pub nothing-Owns : (w : World) → IsFresh w → Owns w w none []
nothing-Owns w f = record { memory = nothing-HasArray w f; reports = refl; history = refl }

module _ (w₀ w : World) where
  pub HasArray-IsParams : (ps : PgParams) (ss : List Text) → HasArray w₀ w ps ss → IsParams w ps ss
  HasArray-IsParams none ss o = o.placed
  HasArray-IsParams (some q) ss o = ground (arith, o.heap q)

  pub HasArray-IsFresh : (ps : PgParams) (ss : List Text) → HasArray w₀ w ps ss → IsFresh w
  HasArray-IsFresh none ss o p l = ground (arith, o.heap p, o.was_fresh p, o.grows)
  HasArray-IsFresh (some q) ss o p l = ground (arith, o.heap p, o.was_fresh p, o.grows, o.placed)

  -- Once the array is given back, the memory is as it was.
  pub HasArray-Frees :
      (w' : World) (ps : PgParams) (ss : List Text)
      → HasArray w₀ w ps ss
      → Frees ps w w'
      → Frees none w₀ w'
  HasArray-Frees w' none ss o f = record {
    heap = λ p. f.heap p ∙ o.heap p;
    grows = omega (arith, o.grows, f.grows);
  }
  HasArray-Frees w' (some q) ss o f = record {
    heap = λ p. ground (arith, f.heap p, o.heap p, o.was_fresh q o.placed.0);
    grows = omega (arith, o.grows, f.grows);
  }

  -- A step that leaves the memory as it was leaves the array there.
  pub Frees-HasArray :
      (w' : World) (ps : PgParams) (ss : List Text)
      → HasArray w₀ w ps ss
      → Frees none w w'
      → HasArray w₀ w' ps ss
  Frees-HasArray w' none ss o f = record {
    heap = λ p. f.heap p ∙ o.heap p;
    was_fresh = o.was_fresh;
    grows = omega (arith, o.grows, f.grows);
    placed = o.placed;
  }
  Frees-HasArray w' (some q) ss o f = record {
    heap = λ p. f.heap p ∙ o.heap p;
    was_fresh = o.was_fresh;
    grows = omega (arith, o.grows, f.grows);
    placed = (o.placed.0, omega (arith, o.placed, f.grows), o.placed.2);
  }

is_empty-append : (ss : List Text) (s : Text) → is_empty (ss ++ s ∷ []) ≡ false
is_empty-append [] s = refl
is_empty-append (t ∷ ss) s = refl

-- `param_append` is defined, and adds the string unless it is NULL or empty.
pub param_append-Owns :
    (w₀ w : World) (ps : PgParams) (ss : List Text) (s : Option Text)
    → Owns w₀ w ps ss
    → (ps' : PgParams) × (w' : World) × (param_append ps s w ≡ some (ps', w'))
      × Owns w₀ w' ps' (appended ss s)
unfolding param_append alloc
param_append-Owns w₀ w ps ss none o = (ps, w, refl, o)
param_append-Owns w₀ w ps ss (some []) o = (ps, w, refl, o)
param_append-Owns w₀ w none ss (some (c ∷ s)) o = (
  some w.next,
  with_block w w.next (params (some (c ∷ s) ∷ none ∷ [])),
  refl,
  record {
    memory = record {
      heap = λ p. ground (arith, o.memory.heap p, o.memory.placed);
      was_fresh = o.memory.was_fresh;
      grows = omega (arith, o.memory.grows);
      placed = (o.memory.grows, omega arith, rw o.memory.placed refl);
    };
    reports = o.reports;
    history = o.history;
  },
)
param_append-Owns w₀ w (some q) ss (some (c ∷ s)) o =
    let h = HasArray-IsParams w₀ w (some q) ss o.memory in
    let (cells, first, second) = grown ss (c ∷ s) (length ss + 2) refl in
    (
      some w.next,
      with_block (record w { heap = write w.heap q none }) w.next
          (params (array (ss ++ (c ∷ s) ∷ []))),
      ground (
        arith,
        param_len-IsParams w (some q) ss h,
        load-some w q (params (array ss)) h,
        free-some w q (params (array ss)) h,
      ),
      record {
        memory = record {
          heap = λ p. ground (arith, o.memory.heap p, o.memory.was_fresh q o.memory.placed.0);
          was_fresh = o.memory.was_fresh;
          grows = omega (arith, o.memory.grows);
          placed = (o.memory.grows, omega arith, is_empty-append ss (c ∷ s));
        };
        reports = o.reports;
        history = o.history;
      },
    )
