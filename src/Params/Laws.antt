-- ===== src/Params/Laws.antt =====
-- PGparams pointers as lists of strings, and the operations of src/pg_params.c on them.
use libzbxpgsql.Base.{
  ℕ, zero, suc, ◌+◌, ◌≤◌, ◌<◌, ◌≡◌, ◌≢◌, refl, ap, ◌∙◌, Option, none, some, List, [], ◌∷◌, ◌++◌,
  Text, length, set?, ◌==◌, if◌then◌else◌, arith,
}
use native.Mathlib.Nat.{le_refl, le_trans}
use native.Mathlib.Numerals.{add-one}
use libzbxpgsql.Runtime.{World, Object, params, alloc, write}
use libzbxpgsql.Runtime.Laws.{load-some, free-some}
use libzbxpgsql.Params.{
  PgParams, Cells, count_cells, cell_texts, resize, param_len, param_append, param_free,
}

-- The array of a list of strings: a cell for each, and the terminator.
abbrev pub array : List Text → Cells
array [] = none ∷ []
array (s ∷ ss) = some s ∷ array ss

-- The pointer stands for the list: NULL for the empty one, or else a block that holds its array.
abbrev pub IsParams : World → PgParams → List Text → Type 0
IsParams w none ss = ss ≡ []
IsParams w (some p) ss = w.heap p ≡ some (params (array ss))

-- Nothing is allocated from `next` on.
abbrev pub IsFresh : World → Type 0
IsFresh w = (p : ℕ) → w.next ≤ p → w.heap p ≡ none

pub count_cells-array : (ss : List Text) → count_cells (array ss) ≡ some (length ss)
unfolding count_cells
count_cells-array [] = refl
count_cells-array (s ∷ ss) = rw (count_cells-array ss)

pub cell_texts-array : (ss : List Text) → cell_texts (array ss) ≡ ss
unfolding cell_texts
cell_texts-array [] = refl
cell_texts-array (s ∷ ss) = ap (◌∷◌ s) (cell_texts-array ss)

-- `param_len` counts the strings and changes nothing.
pub param_len-IsParams :
    (w : World) (ps : PgParams) (ss : List Text)
    → IsParams w ps ss
    → param_len ps w ≡ some (length ss, w)
unfolding param_len
param_len-IsParams w none ss h = ground arith
param_len-IsParams w (some p) ss h =
    ground (arith, load-some w p (params (array ss)) h, count_cells-array ss)

-- The grown array with its two writes is the array with one string more.
pub grown :
    (ss : List Text) (s : Text) (n : ℕ)
    → n ≡ length ss + 2
    → (c : Cells) × (set? (resize n (array ss)) (length ss) (some s) ≡ some c)
      × (set? c (length ss + 1) none ≡ some (array (ss ++ s ∷ [])))
unfolding resize
grown [] s n e = (some s ∷ none ∷ [], rw e, refl)
grown (t ∷ ss) s zero e = absurd (omega arith)
grown (t ∷ ss) s (suc n) e =
    let (c, first, second) = grown ss s n (omega arith) in
    (some t ∷ c, rw first, rw (add-one (suc (length ss)), ← add-one (length ss)) (rw second))

-- What `param_append` does to the list: nothing on NULL and on the empty string.
abbrev pub appended : List Text → Option Text → List Text
appended ss none = ss
appended ss (some []) = ss
appended ss (some (c ∷ s)) = ss ++ (c ∷ s) ∷ []

-- A step that leaves all blocks but the one of `ps` alone.
pub record Keeps (w : World) (ps : PgParams) (w' : World) : Type 0 where
  pub fresh : IsFresh w'
  pub grows : w.next ≤ w'.next
  pub others : (p : ℕ) → p < w.next → ps ≢ some p → w'.heap p ≡ w.heap p
  pub reports : w'.reports ≡ w.reports
  pub history : w'.history ≡ w.history

abbrev pub with_block : World → ℕ → Object → World
with_block w p o = record w { next = suc w.next; heap = write w.heap p (some o) }

-- `param_append` adds a string at the end, unless it is NULL or empty; no other block changes.
pub param_append-IsParams :
    (w : World) (ps : PgParams) (ss : List Text) (s : Option Text)
    → IsParams w ps ss
    → IsFresh w
    → (ps' : PgParams) × (w' : World) × (param_append ps s w ≡ some (ps', w'))
      × IsParams w' ps' (appended ss s)
      × Keeps w ps w'
unfolding param_append alloc
param_append-IsParams w ps ss none h f = (
  ps,
  w,
  refl,
  h,
  record { fresh = f; grows = le_refl _; others = λ p l n. refl; reports = refl; history = refl },
)
param_append-IsParams w ps ss (some []) h f = (
  ps,
  w,
  refl,
  h,
  record { fresh = f; grows = le_refl _; others = λ p l n. refl; reports = refl; history = refl },
)
param_append-IsParams w none ss (some (c ∷ s)) h f = (
  some w.next,
  with_block w w.next (params ((some (c ∷ s)) ∷ none ∷ [])),
  refl,
  rw h (ground arith),
  record {
    fresh = λ p l. ground (arith, f p);
    grows = omega arith;
    others = λ p l n. ground arith;
    reports = refl;
    history = refl;
  },
)
param_append-IsParams w (some q) ss (some (c ∷ s)) h f =
    let (cells, first, second) = grown ss (c ∷ s) (length ss + 2) refl in
    (
      some w.next,
      with_block (record w { heap = write w.heap q none }) w.next
          (params (array (ss ++ (c ∷ s) ∷ []))),
      ground (
        arith,
        param_len-IsParams w (some q) ss h,
        load-some w q (params (array ss)) h,
        free-some w q (params (array ss)) h,
      ),
      ground arith,
      record {
        fresh = λ p l. ground (arith, f p);
        grows = omega arith;
        others = λ p l n. ground arith;
        reports = refl;
        history = refl;
      },
    )

pub param_free-IsParams :
    (w : World) (p : ℕ) (ss : List Text)
    → IsParams w (some p) ss
    → param_free (some p) w ≡ some (tt, record w { heap = write w.heap p none })
unfolding param_free
param_free-IsParams w p ss h = ground (
  arith,
  load-some w p (params (array ss)) h,
  count_cells-array ss,
  free-some w p (params (array ss)) h,
)

-- What is left at an address once the array of `ps` is given back.
abbrev pub without : PgParams → ℕ → Option Object → Option Object
without none p o = o
without (some q) p o = if q == p then none else o

-- The memory is as before, but for the array of `ps`, which is free: every block that was
-- allocated in between has been freed.
pub record Frees (ps : PgParams) (w w' : World) : Type 0 where
  pub heap : (p : ℕ) → w'.heap p ≡ without ps p (w.heap p)
  pub grows : w.next ≤ w'.next

pub Frees-IsFresh : (ps : PgParams) (w w' : World) → Frees ps w w' → IsFresh w → IsFresh w'
Frees-IsFresh none w w' h f p l = h.heap p ∙ f p (le_trans h.grows l)
Frees-IsFresh (some q) w w' h f p l = ground (arith, h.heap p, f p (le_trans h.grows l))

pub Frees-IsParams :
    (w w' : World) (ps : PgParams) (ss : List Text)
    → IsParams w ps ss
    → Frees none w w'
    → IsParams w' ps ss
Frees-IsParams w w' none ss h f = h
Frees-IsParams w w' (some q) ss h f = f.heap q ∙ h
