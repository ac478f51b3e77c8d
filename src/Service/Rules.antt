-- ===== src/Service/Rules.antt =====
-- Rules for the handlers: parameters that are made and used up, messages, and tests.
use libzbxpgsql.Base.{
  ◌≡◌, refl, ap, sym, ◌∙◌, subst, Bool, true, false, ◌&&◌, Option, none, some, List, [], ◌∷◌, ◌++◌,
  append_assoc, Text, if◌then◌else◌, arith,
}
use libzbxpgsql.Runtime.{Env, World, Request, Cmd, pure, ◌>>=◌, ◌>>◌, msg}
use libzbxpgsql.Params.{PgParams, param_new}
use libzbxpgsql.Params.Laws.{appended}
use libzbxpgsql.Params.Owned.{
  HasArray, Owns, nothing-HasArray, nothing-Owns, Frees-HasArray, param_append-Owns,
}
use libzbxpgsql.Connect.{set_err_result}
use libzbxpgsql.Connect.Laws.{IsTextRequest}
use libzbxpgsql.Query.{ResultType, pg_get_result}
use libzbxpgsql.Discovery.{pg_get_discovery}
use libzbxpgsql.Service.Effects.{Effect, Act, says, joined, and_then}
use libzbxpgsql.Service.Meets.{Performs, Meets, Memory, Implements, Implements-report}
use libzbxpgsql.Service.Values.{value_act, pg_get_result-Meets}
use libzbxpgsql.Service.Rows.{rows_act, pg_get_discovery-Meets}

-- A command that takes an array with the strings `ss` and has given it back in the end, where the
-- act is clean.
pub record Consumes {B : Type 0} (m : PgParams → Cmd B) (ss : List Text) (a : Act B) : Type 0 where
  pub at : (w₀ w : World) (ps : PgParams) → HasArray w₀ w ps ss → Meets w₀ w (m ps w) (a w.history)

module _ {B : Type 0} where
  -- What is met behind the making of an array is met as a whole.
  pub Owns-Meets :
      (w₀ w : World) (ps : PgParams) (ss : List Text) (r : Option (B × World)) (a : Act B)
      → Owns w₀ w ps ss
      → Meets w₀ w r (a w.history)
      → Meets w₀ w₀ r (a w₀.history)
  Owns-Meets w₀ w ps ss r a o m = go (a w₀.history) (subst (λ h. Meets w₀ w r (a h)) o.history m)
    where
      go : (x : Option (Effect B)) → Meets w₀ w r x → Meets w₀ w₀ r x
      go none m = m
      go (some e) (w', runs, p) = (
        w',
        runs,
        record {
          memory = p.memory;
          reports = p.reports ∙ ap (◌++◌ e.said) o.reports;
          history = p.history ∙ ap (◌++◌ e.asked) o.history;
        },
      )

  pub Consumes-none : (m : PgParams → Cmd B) (a : Act B) → Consumes m [] a → Implements (m none) a
  Consumes-none m a u = record { at = λ w f. u.at w w none (nothing-HasArray w f) }

  pub Consumes-new :
      (name : Option Text) (m : PgParams → Cmd B) (a : Act B)
      → Consumes m (appended [] name) a
      → Implements (param_new name >>= m) a
  Consumes-new name m a u = record {
    at = λ w f.
        let (ps, w₁, appends, owns) = param_append-Owns w w none [] name (nothing-Owns w f) in
        subst (λ r. Meets w w r (a w.history)) (sym (made name m w ps w₁ appends))
          (Owns-Meets w w₁ ps (appended [] name) (m ps w₁) a owns (u.at w w₁ ps owns.memory));
  }
    where
      made :
          (name : Option Text) (m : PgParams → Cmd B) (w : World) (ps : PgParams) (w₁ : World)
          → param_new name w ≡ some (ps, w₁)
          → (param_new name >>= m) w ≡ m ps w₁
      made name m w ps w₁ e = ground (arith, e)

  -- A test of the code that the table of the plans makes as well.
  pub Implements-if :
      {X : Type 0} (effect_of : X → Act B) (b : Bool) (m n : Cmd B) (p q : X)
      → (b ≡ true → Implements m (effect_of p))
      → (b ≡ false → Implements n (effect_of q))
      → Implements (if b then m else n) (effect_of (if b then p else q))
  Implements-if effect_of true m n p q holds fails = holds refl
  Implements-if effect_of false m n p q holds fails = fails refl

abbrev pub IsClean : {A : Type 0} → Option (Effect A) → Type 0
IsClean none = Unit
IsClean (some e) = e.clean ≡ true

module _ {A B : Type 0} where
  -- A clean command in front of one that uses an array up.
  pub Meets-held :
      (m : Cmd A) (a : Act A) (k : A → Cmd B) (next : A → Act B) (w₀ w : World) (ps : PgParams)
      (ss : List Text)
      → Meets w w (m w) (a w.history)
      → IsClean (a w.history)
      → HasArray w₀ w ps ss
      → ((x : A) (w₁ : World) → HasArray w₀ w₁ ps ss → Meets w₀ w₁ (k x w₁) (next x w₁.history))
      → Meets w₀ w ((m >>= k) w) (and_then (a w.history) next w.history)
  Meets-held m a k next w₀ w ps ss met clean o rest = go (a w.history) met clean
    where
      go :
          (x : Option (Effect A))
          → Meets w w (m w) x
          → IsClean x
          → Meets w₀ w ((m >>= k) w) (and_then x next w.history)
      go none runs c = ground (arith, runs)
      go (some e) (w₁, runs, p) c =
          let kept = Frees-HasArray w₀ w w₁ ps ss o (subst (λ b. Memory b w w₁) c p.memory) in
          held e w₁ runs p c (next e.value (e.asked ++ w.history)) (
            subst (λ h. Meets w₀ w₁ (k e.value w₁) (next e.value h)) p.history
              (rest e.value w₁ kept))
        where
          held :
              (e : Effect A) (w₁ : World)
              → m w ≡ some (e.value, w₁)
              → Performs e w w w₁
              → e.clean ≡ true
              → (x : Option (Effect B)) → Meets w₀ w₁ (k e.value w₁) x
              → Meets w₀ w ((m >>= k) w) (joined e x)
          held e w₁ runs p c none q = ground (arith, runs, q)
          held e w₁ runs p c (some e') (w₂, runs', q) = (
            w₂,
            ground (arith, runs, runs'),
            record {
              memory = subst (λ b. Memory (b && e'.clean) w₀ w₂) (sym c) q.memory;
              reports =
                  q.reports
                  ∙ ap (◌++◌ e'.said) p.reports
                  ∙ sym (append_assoc e'.said e.said w.reports);
              history =
                  q.history
                  ∙ ap (◌++◌ e'.asked) p.history
                  ∙ sym (append_assoc e'.asked e.asked w.history);
            },
          )

module _ (env : Env) (request : Request) (text_ok : IsTextRequest request) where
  pub pg_get_result-Consumes :
      (type : ResultType) (query : Text) (ss : List Text)
      → Consumes (pg_get_result env request type query) ss (value_act env request type query ss)
  pg_get_result-Consumes type query ss = record {
    at = λ w₀ w ps o. pg_get_result-Meets env request text_ok type query w₀ w ps ss o;
  }

  pub pg_get_discovery-Consumes :
      (query : Text) (ss : List Text)
      → Consumes (pg_get_discovery env request query) ss (rows_act env request query ss)
  pg_get_discovery-Consumes query ss = record {
    at = λ w₀ w ps o. pg_get_discovery-Meets env request query text_ok w₀ w ps ss o;
  }

-- A failure with its message.
pub set_err_result-Implements :
    (env : Env) (text : Text)
    → Implements
        (set_err_result env true text >> pure false)
        (says (msg (env.clip env.max_string_len text) ∷ []) true false)
unfolding set_err_result
set_err_result-Implements env text =
    Implements-report (msg (env.clip env.max_string_len text)) false
