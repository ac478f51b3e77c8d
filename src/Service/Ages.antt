-- ===== src/Service/Ages.antt =====
-- The handlers that ask for the version first, and those that filter pg_stat_activity.
use libzbxpgsql.Base.{
  ltb, leb, ◌≡◌, refl, sym, subst, Bool, true, false, Bool-cases, Option-cases, inl, inr, Option,
  none, some, [], ℤ, pos, negsuc, arith,
}
use libzbxpgsql.Runtime.{Env, World, Request, Cmd, pure, ◌>>=◌}
use libzbxpgsql.Connect.Laws.{IsTextRequest}
use libzbxpgsql.Numbers.{to_int}
use libzbxpgsql.Query.{ar_double, pg_version}
use libzbxpgsql.Discovery.{pg_get_discovery}
use libzbxpgsql.Items.Backends.{is_before_92, pg_backends_ratio}
use libzbxpgsql.Items.Tablespace.{
  discover_tablespaces, discover_tablespaces_92, pg_tablespace_discovery,
}
use libzbxpgsql.Service.Effects.{returns}
use libzbxpgsql.Service.Meets.{Meets, Implements, Implements-returns, Implements-bind}
use libzbxpgsql.Service.Values.{old_act, is_before_92-Implements}
use libzbxpgsql.Service.Plans.{Plan, rows, by_version, by_age, serve}
use libzbxpgsql.Service.Table.{backends_ratio_plan}
use libzbxpgsql.Service.Shapes.{Carries, value-Carries, rows-Carries}

module _ (env : Env) (request : Request) (text_ok : IsTextRequest request) where
  -- The version first, with no array at hand.
  pub by_version-Carries :
      (k : Option Bool → Cmd Bool) (older newer : Plan)
      → Implements (k none) (returns false)
      → Carries env request (k (some true)) older
      → Carries env request (k (some false)) newer
      → Carries env request (is_before_92 env request >>= k) (by_version [] older newer)
  unfolding serve
  by_version-Carries k older newer fails old new =
      Implements-bind (is_before_92 env request) (old_act env request) k
        (by_age env [] (serve env request older) (serve env request newer))
        (is_before_92-Implements env request text_ok) age-Implements
    where
      age-Implements :
          (age : Option Bool)
          → Implements
              (k age)
              (by_age env [] (serve env request older) (serve env request newer) age)
      age-Implements none = fails
      age-Implements (some true) = old
      age-Implements (some false) = new

  pub pg_backends_ratio-Carries :
      Carries env request (pg_backends_ratio env request) (
        by_version []
          (backends_ratio_plan env request true)
          (backends_ratio_plan env request false))
  unfolding pg_backends_ratio
  pg_backends_ratio-Carries =
      by_version-Carries _ _ _ (Implements-returns false)
        (value-Carries env request text_ok ar_double _)
        (value-Carries env request text_ok ar_double _)

  -- The choice of a discovery of the tablespaces.
  abbrev tablespaces : Option Bool → Cmd Bool
  tablespaces none = pure false
  tablespaces (some true) = pg_get_discovery env request discover_tablespaces none
  tablespaces (some false) = pg_get_discovery env request discover_tablespaces_92 none

  tablespace-age :
      (w : World)
      → pg_tablespace_discovery env request w ≡ (is_before_92 env request >>= tablespaces) w
  unfolding pg_tablespace_discovery is_before_92
  tablespace-age w = elim (Option-cases (pg_version env request w)) [
    | inl e ↦ ground (arith, e)
    | inr ((version, w₁), e) ↦ go version w₁ e (to_int version) refl
  ]
    where
      go :
          (version : ℤ) (w₁ : World)
          → pg_version env request w ≡ some (version, w₁)
          → (n : ℤ) → to_int version ≡ n
          → pg_tablespace_discovery env request w ≡ (is_before_92 env request >>= tablespaces) w
      go version w₁ e (negsuc n) t = ground (arith, e, t)
      go version w₁ e (pos n) t = elim (Bool-cases (ltb n 90200)) [
        | inl before ↦
            let after : leb 90200 n ≡ false = ground (arith, before) in
            ground (arith, e, t, before, after)
        | inr not_before ↦
            let after : leb 90200 n ≡ true = ground (arith, not_before) in
            ground (arith, e, t, not_before, after)
      ]

  pub pg_tablespace_discovery-Carries :
      Carries env request
        (pg_tablespace_discovery env request)
        (by_version [] (rows discover_tablespaces []) (rows discover_tablespaces_92 []))
  pg_tablespace_discovery-Carries = record {
    at = λ w f.
        subst
          (λ r. Meets w w r (
            serve env request
              (by_version [] (rows discover_tablespaces []) (rows discover_tablespaces_92 []))
              w.history))
          (sym (tablespace-age w))
          ((by_version-Carries tablespaces _ _ (Implements-returns false)
              (rows-Carries env request text_ok discover_tablespaces)
              (rows-Carries env request text_ok discover_tablespaces_92)).at
            w f);
  }
