-- ===== src/Queries/Lookup.antt =====
-- `read_config_queries` followed by `get_query_by_name`.
use mathlib.Core.List.{reverse, reverse_aux, reverse_perm, map-map, Perm, Pairwise}
use mathlib.Core.List.Perm
use libzbxpgsql.Base.{
  ◌+◌, ◌≡◌, refl, ap, subst, sym, ◌∙◌, Bool, true, Bool-cases, inl, inr, Option, none, some, List,
  [], ◌∷◌, append-nil, replicate, Text, length, ◌&&◌, arith,
}
use libzbxpgsql.Queries.{Queries, Setting, get_query_by_name, read_config_queries}
use libzbxpgsql.Queries.Insert.{length-reverse}
use libzbxpgsql.Queries.Loaded.{
  Entry, Holds, entries, insert_all, all_strings, cell, fresh-Holds, add_elements-Holds,
  map-reverse_aux,
}
use libzbxpgsql.Queries.Sorted.{Descends, insert_all-Descends, insert_all-perm, reverse-Ascends}
use libzbxpgsql.Queries.Search.{Arrays, Answers, get_query_by_name-Answers}

Holds-Arrays : (q : Queries) (r : List Entry) → Holds q 0 r → Arrays q (reverse r)
Holds-Arrays q r h = record {
  keys =
      h.keys
      ∙ (ap (λ c. reverse_aux c (none ∷ [])) (map-map (λ c. c.0) cell r)
          ∙ map-reverse_aux (λ e. some e.0) r [] (none ∷ []));
  values =
      h.values
      ∙ (ap (λ c. reverse_aux c (none ∷ [])) (map-map (λ c. c.1) cell r)
          ∙ map-reverse_aux (λ e. some e.1) r [] (none ∷ []));
  count = omega (arith, h.count, length-reverse r);
}

Answers-perm :
    {a es : List Entry} (key : Text)
    → Perm a es
    → (o : Option Text) → Answers key a o
    → Answers key es o
Answers-perm key p none h = λ query m. h query ((Perm.mem_iff p).1 m)
Answers-perm key p (some query) h = (Perm.mem_iff p).0 h

-- what a search finds among the entries that are held, whatever their order
search-Answers :
    (q : Queries) (r es : List Entry) (key : Text)
    → Holds q 0 r
    → Descends r
    → Perm r es
    → (o : Option Text) × (get_query_by_name q key ≡ some o) × Answers key es o
search-Answers q r es key h d p =
    let (o, found, ok) =
      get_query_by_name-Answers q (reverse r) key (Holds-Arrays q r h) (reverse-Ascends r d) in
    (o, found, Answers-perm key (Perm.trans (reverse_perm r) p) o ok)

-- the state in which the loop over the elements starts
abbrev fresh : Setting → Queries
fresh root = record {
  keys = replicate (length root.elements + 1) none;
  values = replicate (length root.elements + 1) none;
  count = length root.elements;
}

-- Reading a group never faults, and it succeeds exactly if the setting is a group of strings.
pub read_config_queries_total :
    (q : Queries) (root : Setting)
    → (q' : Queries) × (read_config_queries q root
        ≡ some (q', root.is_group && all_strings root.elements))
unfolding read_config_queries
read_config_queries_total q root =
    let (q', added, h) =
      add_elements-Holds root.elements (fresh root) [] (fresh-Holds (length root.elements)) in
    elim (Bool-cases root.is_group) [
      | inl group ↦ (q', rw group added)
      | inr other ↦ (q, rw other refl)
    ]

-- After a success the search returns for every key: a query that the file gives under that name,
-- or NULL if it gives none.
pub get_query_by_name-read_config_queries :
    (q q' : Queries) (root : Setting) (key : Text)
    → read_config_queries q root ≡ some (q', true)
    → (o : Option Text) × (get_query_by_name q' key ≡ some o)
      × Answers key (entries root.elements) o
unfolding read_config_queries
get_query_by_name-read_config_queries q q' root key h = elim (Bool-cases root.is_group) [
  | inr other ↦ absurd (ground arith)
  | inl group ↦
      let (q₁, added, held) =
        add_elements-Holds root.elements (fresh root) [] (fresh-Holds (length root.elements)) in
      let same : ◌≡◌ {A = Option (Queries × Bool)} (some (q₁, all_strings root.elements))
          (some (q', true)) =
        sym added ∙ (rw group at h) in
      let r = insert_all (entries root.elements) [] in
      let held' : Holds q' 0 r = subst (λ x. Holds x 0 r) (ground arith) (held (ground arith)) in
      search-Answers q' r (entries root.elements) key held'
        (insert_all-Descends (entries root.elements) Pairwise.nil)
        (subst (λ es. Perm r es) (append-nil (entries root.elements))
          (insert_all-perm (entries root.elements) []))
]
