-- ===== src/Items/Backends/Laws.antt =====
-- `build_activity_clause`: its text and the parameters that it appends, one filter after the other.
use libzbxpgsql.Base.{
  ℕ, zero, suc, ◌+◌, ◌≤◌, ◌<◌, ltb, lt→ltb, ◌≡◌, refl, ap, ◌∙◌, Bool, true, false, Bool-cases, inl,
  inr, Option, none, some, List, [], ◌∷◌, ◌++◌, Text, bytes, printf, length, length-append,
  length-append_one, append-nil, append_assoc, strisnull, strncmp, if◌then◌else◌, arith,
}
use libzbxpgsql.Runtime.{Env, World, Request}
use libzbxpgsql.Params.{PgParams}
use libzbxpgsql.Params.Laws.{IsFresh, appended}
use libzbxpgsql.Params.Owned.{Owns, nothing-Owns, param_append-Owns}
use libzbxpgsql.Connect.{param_first}
use libzbxpgsql.Numbers.{is_oid, is_valid_ip}
use libzbxpgsql.Items.Backends.{
  Clause, max_clause_len, write_piece, placeholder, filter_piece, filter_format, waiting_piece,
  clause_loop, build_activity_clause,
}

-- A text that fits its buffer is printed whole.
abbrev pub Fits : Env → Type 0
Fits env = (n : ℕ) (s : Text) → length s < n → env.clip n s ≡ s

-- The column that parameter `i` filters by, and the cast of the placeholder.
abbrev pub filter_column : Env → ℕ → Text → Text × Text
filter_column env zero param = if is_oid param then (bytes "datid", []) else (bytes "datname", [])
filter_column env (suc zero) param =
    if is_oid param then (bytes "usesysid", []) else (bytes "usename", [])
filter_column env (suc (suc i)) param =
    if is_valid_ip env param
    then (bytes "client_addr", bytes "::inet")
    else (bytes "client_hostname", [])

-- What the parameter for `waiting` says: nothing, or one of the two words.
abbrev pub IsWaiting : Option Bool → Option Text → Type 0
IsWaiting none param = strisnull param ≡ true
IsWaiting (some true) param = param ≡ some (bytes "true")
IsWaiting (some false) param = param ≡ some (bytes "false")

abbrev pub waiting_text : Option Bool → Text
waiting_text none = []
waiting_text (some true) = bytes " AND waiting = TRUE"
waiting_text (some false) = bytes " AND waiting = FALSE"

abbrev pub condition : Text × Text → ℕ → Text
condition column n = bytes " AND " ++ (column.0 ++ (bytes " = " ++ (b'$' ∷ (b'0' + n) ∷ column.1)))

-- The text for parameter `i`, where `k` parameters stand in front of it.
abbrev pub filter_text : Env → ℕ → ℕ → Option Text → Text
filter_text env i k none = []
filter_text env i k (some []) = []
filter_text env i k (some (c ∷ s)) = condition (filter_column env i (c ∷ s)) (suc k)

filter_piece-condition :
    (env : Env) (i : ℕ) (param : Text) (n : ℕ)
    → Fits env
    → (filter_piece env (filter_format env i param) (bytes "AND") n
        ≡ condition (filter_column env i param) n)
      × (length (condition (filter_column env i param) n) ≤ 40)
unfolding filter_piece filter_format printf placeholder
filter_piece-condition env zero param n fits = elim (Bool-cases (is_oid param)) [
  | inl oid ↦ (rw oid (fits max_clause_len _ (omega arith)), rw oid (omega arith))
  | inr no_oid ↦ (rw no_oid (fits max_clause_len _ (omega arith)), rw no_oid (omega arith))
]
filter_piece-condition env (suc zero) param n fits = elim (Bool-cases (is_oid param)) [
  | inl oid ↦ (rw oid (fits max_clause_len _ (omega arith)), rw oid (omega arith))
  | inr no_oid ↦ (rw no_oid (fits max_clause_len _ (omega arith)), rw no_oid (omega arith))
]
filter_piece-condition env (suc (suc i)) param n fits = elim (Bool-cases (is_valid_ip env param)) [
  | inl ip ↦ (rw ip (fits max_clause_len _ (omega arith)), rw ip (omega arith))
  | inr no_ip ↦ (rw no_ip (fits max_clause_len _ (omega arith)), rw no_ip (omega arith))
]

abbrev pub state : Text → List Text → PgParams → Clause
state written ss ps = record {
  written = written;
  clause = bytes "AND";
  pgi = length ss;
  params = ps;
}

module _ (env : Env) (request : Request) where
  -- The filters' text: a condition for each of the three parameters that is given.
  abbrev pub filters_text : Text
  filters_text =
      filter_text env 0 0 (request.rparam 2)
      ++ (filter_text env 1 (length (appended [] (request.rparam 2))) (request.rparam 3)
          ++ filter_text env 2
              (length (appended (appended [] (request.rparam 2)) (request.rparam 3)))
              (request.rparam 4))

  abbrev pub filters : List Text
  filters =
      appended (appended (appended [] (request.rparam 2)) (request.rparam 3)) (request.rparam 4)

module _ (env : Env) (request : Request) (fits : Fits env) where
  filter_step :
      (i : ℕ) (is : List ℕ) (param : Option Text) (w₀ w : World) (written : Text) (ss : List Text)
      (ps : PgParams)
      → i < 3
      → request.rparam (param_first + i) ≡ param
      → length written ≤ 100
      → Owns w₀ w ps ss
      → (ps' : PgParams) × (w' : World) × (clause_loop env request (i ∷ is) (state written ss ps) w
          ≡ clause_loop env request is
              (state (written ++ filter_text env i (length ss) param) (appended ss param) ps')
              w')
        × Owns w₀ w' ps' (appended ss param)
        × (length (filter_text env i (length ss) param) ≤ 40)
  unfolding clause_loop strisnull write_piece
  filter_step i is none w₀ w written ss ps b e l o =
      (ps, w, ground (arith, e, append-nil written), o, omega arith)
  filter_step i is (some []) w₀ w written ss ps b e l o =
      (ps, w, ground (arith, e, append-nil written), o, omega arith)
  filter_step i is (some (c ∷ s)) w₀ w written ss ps b e l o =
      let (ps', w', appends, owns) = param_append-Owns w₀ w ps ss (some (c ∷ s)) o in
      let (piece, bound) = filter_piece-condition env i (c ∷ s) (suc (length ss)) fits in
      let text = condition (filter_column env i (c ∷ s)) (suc (length ss)) in
      let room : ltb (length written + length text) max_clause_len ≡ true =
        lt→ltb (length written + length text) max_clause_len (omega (arith, l, bound)) in
      let number : length (ss ++ (c ∷ s) ∷ []) ≡ suc (length ss) = length-append_one ss (c ∷ s) in
      let writes : write_piece written
            (filter_piece env (filter_format env i (c ∷ s)) (bytes "AND") (suc (length ss)))
          ≡ some (written ++ text) =
        rw piece (ground (arith, room)) in
      (ps', w', ground (arith, e, lt→ltb i 3 b, appends, writes, number), owns, bound)

  pub waiting_step :
      (waiting : Option Bool) (param : Option Text) (w : World) (written : Text) (ss : List Text)
      (ps : PgParams)
      → request.rparam (param_first + 3) ≡ param
      → IsWaiting waiting param
      → length written ≤ 120
      → clause_loop env request (3 ∷ []) (state written ss ps) w
        ≡ some ((true, state (written ++ waiting_text waiting) ss ps), w)
  unfolding clause_loop strisnull write_piece waiting_piece strncmp printf
  waiting_step none none w written ss ps e h l = ground (arith, e, append-nil written)
  waiting_step none (some []) w written ss ps e h l = ground (arith, e, append-nil written)
  waiting_step none (some (c ∷ s)) w written ss ps e h l = absurd (ground arith)
  waiting_step (some true) param w written ss ps e h l =
      let room : ltb (length written + 19) max_clause_len ≡ true =
        lt→ltb (length written + 19) max_clause_len (omega arith) in
      ground (arith, e ∙ h, fits max_clause_len (bytes " AND waiting = TRUE") (omega arith), room)
  waiting_step (some false) param w written ss ps e h l =
      let room : ltb (length written + 20) max_clause_len ≡ true =
        lt→ltb (length written + 20) max_clause_len (omega arith) in
      ground (arith, e ∙ h, fits max_clause_len (bytes " AND waiting = FALSE") (omega arith), room)

  -- The first three rounds.
  pub three_filters :
      (w : World)
      → IsFresh w
      → (ps : PgParams) × (w' : World) × (build_activity_clause env request true w
          ≡ clause_loop env request
              (3 ∷ [])
              (state (filters_text env request) (filters env request) ps)
              w')
        × Owns w w' ps (filters env request)
        × (length (filters_text env request) ≤ 120)
  unfolding build_activity_clause
  three_filters w f =
      let a = request.rparam 2 in
      let b = request.rparam 3 in
      let c = request.rparam 4 in
      let (ps₁, w₁, first, o₁, l₁) =
        filter_step 0 (1 ∷ 2 ∷ 3 ∷ []) a w w [] [] none (omega arith) refl (omega arith)
          (nothing-Owns w f) in
      let t₁ = filter_text env 0 0 a in
      let s₁ = appended [] a in
      let (ps₂, w₂, second, o₂, l₂) =
        filter_step 1 (2 ∷ 3 ∷ []) b w w₁ t₁ s₁ ps₁ (omega arith) refl (omega (arith, l₁)) o₁ in
      let t₂ = filter_text env 1 (length s₁) b in
      let s₂ = appended s₁ b in
      let (ps₃, w₃, third, o₃, l₃) =
        filter_step 2 (3 ∷ []) c w w₂ (t₁ ++ t₂) s₂ ps₂ (omega arith) refl
          (omega (arith, l₁, l₂, length-append t₁ t₂)) o₂ in
      let t₃ = filter_text env 2 (length s₂) c in
      (
        ps₃,
        w₃,
        first
            ∙ second
            ∙ third
            ∙ ap (λ x. clause_loop env request (3 ∷ []) (state x (appended s₂ c) ps₃) w₃)
                (append_assoc t₁ t₂ t₃),
        o₃,
        omega (arith, l₁, l₂, l₃, length-append t₁ (t₂ ++ t₃), length-append t₂ t₃),
      )

  -- Where texts that fit are printed whole and the parameter for `waiting` is a valid one,
  -- `build_activity_clause` succeeds within its buffer: it writes a condition for each parameter
  -- that is given, and appends the parameters of the first three, so that `$n` in the text
  -- stands for the n-th of them; the rest of the memory is untouched.
  pub build_activity_clause-filters_text :
      (waiting : Option Bool) (w : World)
      → IsFresh w
      → IsWaiting waiting (request.rparam 5)
      → (ps : PgParams) × (w' : World) × (build_activity_clause env request true w
          ≡ some (
            (
              true,
              state (filters_text env request ++ waiting_text waiting) (filters env request) ps,
            ),
            w',
          ))
        × Owns w w' ps (filters env request)
  build_activity_clause-filters_text waiting w f valid =
      let (ps, w', runs, owns, bound) = three_filters w f in
      let last =
        waiting_step waiting (request.rparam 5) w' (filters_text env request) (filters env request)
          ps refl valid bound in
      (ps, w', runs ∙ last, owns)
