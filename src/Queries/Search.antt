-- ===== src/Queries/Search.antt =====
-- The binary search of `get_query_by_name` on arrays of ascending names.
use Prim.Native.Nat.{Ordering}
use mathlib.Core.HLevel.{⊥_prop}
use mathlib.Core.Logic.Or
use mathlib.Core.List.{Mem, mem-cons, not-mem-nil}
use mathlib.Core.Option.{some-injective}
use native.Mathlib.Decide.{dec_lt}
use libzbxpgsql.Base.{
  ℕ, zero, suc, ◌+◌, ◌-◌, ◌/◌, ◌≤◌, ◌<◌, ◌≡◌, ◌≢◌, refl, sym, ap, ◌∙◌, subst, Bool-cases, ltb→lt,
  inl, inr, Option, none, some, List, [], ◌∷◌, ◌++◌, Text, map, length, get_elem?, get_elem?-lt,
  get_elem?-length, strcmp, strcmp-eq, strcmp_self, strcmp-lt_flip, ltb, ◌>>=◌, arith,
}
use libzbxpgsql.Queries.{Cells, Queries, search_loop, get_query_by_name}
use libzbxpgsql.Queries.Loaded.{Entry}
use libzbxpgsql.Queries.Sorted.{Ascends, Ascends-NotAfter, get_elem?-mem}

-- The arrays hold the entries `a`, and NULL behind them.
pub record Arrays (q : Queries) (a : List Entry) : Type 0 where
  pub keys : q.keys ≡ map (λ e. some e.0) a ++ none ∷ []
  pub values : q.values ≡ map (λ e. some e.1) a ++ none ∷ []
  pub count : q.count ≡ length a

get_elem?-map :
    (f : Entry → Option Text) (a : List Entry) (t : Cells) (i : ℕ) (e : Entry)
    → get_elem? a i ≡ some e
    → get_elem? (map f a ++ t) i ≡ some (f e)
get_elem?-map f [] t i e h = ground arith
get_elem?-map f (x ∷ a) t zero e h = ground arith
get_elem?-map f (x ∷ a) t (suc i) e h = get_elem?-map f a t i e h

-- What the search has to return: NULL if no entry has the name, or else a query of that name.
abbrev pub Answers : Text → List Entry → Option Text → Type 0
Answers key es none = (query : Text) → ¬ Mem (key, query) es
Answers key es (some query) = Mem (key, query) es

module _ (q : Queries) (a : List Entry) (key : Text) (arrays : Arrays q a) (s : Ascends a) where
  -- no entry at a position below `n`, or from `n` on
  abbrev pub NotBelow : ℕ → Type 0
  NotBelow n = (i : ℕ) (e : Entry) → i < n → get_elem? a i ≡ some e → e.0 ≢ key

  abbrev pub NotFrom : ℕ → Type 0
  NotFrom n = (i : ℕ) (e : Entry) → n ≤ i → get_elem? a i ≡ some e → e.0 ≢ key

  abbrev pub Outcome : Option (Option Text) → Type 0
  Outcome none = ⊥
  Outcome (some none) = (i : ℕ) (e : Entry) → get_elem? a i ≡ some e → e.0 ≢ key
  Outcome (some (some query)) = Mem (key, query) a

  -- the entry at a position is the only one there
  same_entry :
      (i j : ℕ) (x y : Entry) → i ≡ j → get_elem? a i ≡ some x → get_elem? a j ≡ some y → x.0 ≡ y.0
  same_entry i j x y p hx hy =
      ap (λ e. e.0) (some-injective x y (sym hx ∙ (ap (get_elem? a) p ∙ hy)))

  gt_excludes :
      (mid : ℕ) (m : Entry) → get_elem? a mid ≡ some m → strcmp m.0 key ≡ Ordering.gt → NotFrom mid
  gt_excludes mid m at after i e l h is = elim (dec_lt mid i) [
    | yes lt ↦ Ascends-NotAfter a s mid i m e lt at h (rw is after)
    | no ge ↦ cc (strcmp_self key, after, is, same_entry mid i m e (omega arith) at h)
  ]

  lt_excludes :
      (mid : ℕ) (m : Entry)
      → get_elem? a mid ≡ some m
      → strcmp m.0 key ≡ Ordering.lt
      → NotBelow (mid + 1)
  lt_excludes mid m at before i e l h is = elim (dec_lt i mid) [
    | yes lt ↦ Ascends-NotAfter a s i mid e m lt h at (rw is (strcmp-lt_flip m.0 key before).1)
    | no ge ↦ cc (strcmp_self key, before, is, same_entry mid i m e (omega arith) at h)
  ]

  -- the comparison with the middle cell, and what follows on each of its results
  decide :
      (fuel bottom hi mid : ℕ) (m : Entry)
      → get_elem? a mid ≡ some m
      → (strcmp m.0 key ≡ Ordering.gt → Outcome (search_loop q key fuel bottom mid))
      → (strcmp m.0 key ≡ Ordering.lt → Outcome (search_loop q key fuel (mid + 1) hi))
      → (o : Ordering) → strcmp m.0 key ≡ o
      → Outcome (elim o [
        | Ordering.eq ↦ get_elem? q.values mid
        | Ordering.gt ↦ search_loop q key fuel bottom mid
        | Ordering.lt ↦ search_loop q key fuel (mid + 1) hi
      ])
  decide fuel bottom hi mid m at gt lt Ordering.gt c = gt c
  decide fuel bottom hi mid m at gt lt Ordering.lt c = lt c
  decide fuel bottom hi mid m at gt lt Ordering.eq c =
      rw (arrays.values, get_elem?-map (λ e. some e.1) a (none ∷ []) mid m at)
        (subst (λ k. Mem (k, m.1) a) (strcmp-eq m.0 key c) (get_elem?-mem a mid m at))

  pub search_loop-Outcome :
      (fuel bottom hi : ℕ)
      → hi ≤ length a
      → hi - bottom < fuel
      → NotBelow bottom
      → NotFrom hi
      → Outcome (search_loop q key fuel bottom hi)
  unfolding search_loop
  search_loop-Outcome zero bottom hi fits f low high = absurd (omega arith)
  search_loop-Outcome (suc fuel) bottom hi fits f low high = elim (Bool-cases (ltb bottom hi)) [
    | inr done ↦ rw done (λ i e at is. elim (dec_lt i bottom) [
      | yes l ↦ low i e l at is
      | no g ↦ high i e (ground arith) at is
    ])
    | inl more ↦
        let mid = (bottom + (hi - 1)) / 2 in
        let bounds : (bottom ≤ mid) × (mid < hi) = omega (arith, ltb→lt bottom hi more) in
        let (m, at) = get_elem?-lt a mid (omega arith) in
        rw (more, arrays.keys, get_elem?-map (λ e. some e.0) a (none ∷ []) mid m at, ◌>>=◌)
          (decide fuel bottom hi mid m at
            (λ c.
              search_loop-Outcome fuel bottom mid (omega arith) (omega arith) low
                (gt_excludes mid m at c))
            (λ c.
              search_loop-Outcome fuel (mid + 1) hi fits (omega arith) (lt_excludes mid m at c)
                high)
            (strcmp m.0 key) refl)
  ]

-- A name that no position has is the name of no entry.
absent :
    (a : List Entry) (key query : Text)
    → ((i : ℕ) (e : Entry) → get_elem? a i ≡ some e → e.0 ≢ key)
    → ¬ Mem (key, query) a
absent [] key query h m = not-mem-nil m
absent (e ∷ a) key query h m =
    Or.elim ⊥_prop (mem-cons.0 m) (λ is. h 0 e refl (ap (λ x. x.0) (sym is)))
      (absent a key query (λ i. h (suc i)))

-- With every cell in use the search returns, and its answer is right.
pub get_query_by_name-Answers :
    (q : Queries) (a : List Entry) (key : Text)
    → Arrays q a
    → Ascends a
    → (o : Option Text) × (get_query_by_name q key ≡ some o) × Answers key a o
unfolding get_query_by_name
get_query_by_name-Answers q a key arrays s = answer (get_query_by_name q key) refl outcome
  where
    outcome : Outcome q a key arrays s (get_query_by_name q key)
    outcome =
        search_loop-Outcome q a key arrays s (q.count + 1) 0 q.count (omega (arith, arrays.count))
          (omega arith) (λ i e l. absurd (omega arith)) (λ i e l at is. absurd (past i e l at))
      where
        past : (i : ℕ) (e : Entry) → q.count ≤ i → get_elem? a i ≡ some e → ⊥
        past i e l at = omega (arith, arrays.count, get_elem?-length a i e at)

    answer :
        (v : Option (Option Text))
        → get_query_by_name q key ≡ v
        → Outcome q a key arrays s v
        → (o : Option Text) × (get_query_by_name q key ≡ some o) × Answers key a o
    answer none e h = absurd h
    answer (some none) e h = (none, e, λ query. absent a key query h)
    answer (some (some query)) e h = (some query, e, h)
